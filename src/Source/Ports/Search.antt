-- ===== src/Source/Ports/Search.antt =====
-- The search for a free port in `srtla_source_update` (src/srtla-source.c) ends.
use pyle_irl.Base.{
  ℕ, zero, suc, ◌+◌, ◌≤◌, ◌<◌, ◌≡◌, refl, subst, ◌⊎◌, inl, inr, true, false, some, List, [], ◌∷◌,
  arith, length, leb, ◌==◌, if◌then◌else◌, ==_iff, Bool-cases,
}
use pyle_irl.Source.{Source}
use pyle_irl.Source.Ports.{has_port, search_port, choose_port}

-- How many sources have this port or a larger one.
unfoldable pub count_from : ℕ → List Source → ℕ
count_from port [] = 0
count_from port (s ∷ ss) =
    let rest = count_from port ss in if leb port s.listen_port then suc rest else rest

count_from-le : (port : ℕ) (ss : List Source) → count_from port ss ≤ length ss
unfolding count_from
count_from-le port [] = omega arith
count_from-le port (s ∷ ss) = ground (arith, count_from-le port ss)

count_from-suc : (port : ℕ) (ss : List Source) → count_from (suc port) ss ≤ count_from port ss
unfolding count_from
count_from-suc port [] = omega arith
count_from-suc port (s ∷ ss) = ground (arith, count_from-suc port ss)

count_from-taken :
    (port : ℕ) (ss : List Source)
    → has_port port ss ≡ true
    → count_from (suc port) ss < count_from port ss
unfolding count_from has_port
count_from-taken port [] h = absurd (ground arith)
count_from-taken port (s ∷ ss) h = elim (Bool-cases (s.listen_port == port)) [
  | inl hit ↦ ground (arith, count_from-suc port ss)
  | inr miss ↦ ground (arith, count_from-taken port ss (ground arith))
]

-- The `d` ports from this one on are all taken.
abbrev pub AllTaken : ℕ → ℕ → List Source → Type 0
AllTaken zero port ss = Unit {0}
AllTaken (suc d) port ss = (has_port port ss ≡ true) × AllTaken d (suc port) ss

search_port_lem :
    (n port : ℕ) (ss : List Source)
    → count_from port ss < n
    → (d : ℕ) × (search_port n port ss ≡ some (port + d))
      × (has_port (port + d) ss ≡ false)
      × AllTaken d port ss
unfolding search_port
search_port_lem zero port ss h = absurd (omega arith)
search_port_lem (suc n) port ss h = elim (Bool-cases (has_port port ss)) [
  | inr unused ↦
      let at_port : port + 0 ≡ port = omega arith in
      (0, ground (arith, at_port), ground (arith, at_port), tt)
  | inl taken ↦
      let (d, found, unused, between) =
        search_port_lem n (suc port) ss (omega (arith, count_from-taken port ss taken, h)) in
      let shift : suc port + d ≡ port + suc d = omega arith in
      (
        suc d,
        subst (λ q. search_port (suc n) port ss ≡ some q) shift (ground (arith, found)),
        subst (λ q. has_port q ss ≡ false) shift unused,
        (taken, between),
      )
]

-- For a source that has no port yet, the search always ends, within as many rounds as there are
-- other sources and one more. It gives the first port, from the one that the settings ask for (or
-- 5000) on, that no other source has.
pub choose_port_new :
    (asked : ℕ) (s : Source) (others : List Source)
    → s.listen_port ≡ 0
    → let start = if asked == 0 then 5000 else asked in
      (d : ℕ) × (choose_port asked s others ≡ some (start + d))
      × (has_port (start + d) others ≡ false)
      × AllTaken d start others
unfolding choose_port
choose_port_new asked s others new =
    let start = if asked == 0 then 5000 else asked in
    let (d, found, unused, between) =
      search_port_lem (suc (length others)) start others
        (omega (arith, count_from-le start others)) in
    (d, ground (arith, found), unused, between)

-- Whatever port is chosen is free among the others, or it is the port that the source has already.
pub choose_port-free :
    (asked : ℕ) (s : Source) (others : List Source)
    → (port : ℕ) × (choose_port asked s others ≡ some port)
      × ((has_port port others ≡ false) ⊎ (port ≡ s.listen_port))
unfolding choose_port
choose_port-free asked s others = elim (Bool-cases (s.listen_port == 0)) [
  | inl new ↦
      let (d, found, unused, between) =
        choose_port_new asked s others ((==_iff s.listen_port 0).0 new) in
      (_, found, inl unused)
  | inr old ↦ elim (Bool-cases (has_port asked others)) [
    | inl taken ↦ (s.listen_port, ground arith, inr refl)
    | inr unused ↦ (asked, ground arith, inl unused)
  ]
]
