-- ===== src/Source/Update/Unique.antt =====
-- The ports of the sources of src/srtla-source.c, across updates.
use pyle_irl.Base.{
  ℕ, zero, suc, ◌<◌, ◌≡◌, sym, subst, ◌⊎◌, inl, inr, Bool, true, false, Option, some, List, [], ◌∷◌,
  arith, get_elem?, set, remove_at, ◌==◌, Option-cases,
}
use pyle_irl.Source.{Source, zeroed_source, srtla_source_create}
use pyle_irl.Source.Media.{Players}
use pyle_irl.Source.Ports.{has_port, choose_port}
use pyle_irl.Source.Ports.Search.{choose_port-free}
use pyle_irl.Source.Update.{Settings, apply_settings, srtla_source_update}
use pyle_irl.Source.Update.Settled.{apply_settings-port}
use pyle_irl.Wire.{Bytes}

-- Each source with a port has it for itself.
abbrev pub Separate : List Source → Type 0
Separate [] = Unit {0}
Separate (s ∷ ss) = ((s.listen_port ≡ 0) ⊎ (has_port s.listen_port ss ≡ false)) × Separate ss

-- The port `p` has no use among the others, or it is 0.
abbrev IsFree : ℕ → List Source → Type 0
IsFree p ss = (p ≡ 0) ⊎ (has_port p ss ≡ false)

IsFree-set :
    (p : ℕ) (ss : List Source) (i : ℕ) (s : Source)
    → IsFree p ss
    → (s.listen_port ≡ p → p ≡ 0)
    → IsFree p (set ss i s)
unfolding has_port
IsFree-set p [] i s h other = h
IsFree-set p (x ∷ ss) zero s h other = ground arith
IsFree-set p (x ∷ ss) (suc i) s h other = ground (arith, IsFree-set p ss i s)

-- A source takes a port that no other one has.
Separate-set :
    (ss : List Source) (i : ℕ) (s : Source)
    → Separate ss
    → IsFree s.listen_port (remove_at i ss)
    → Separate (set ss i s)
unfolding has_port
Separate-set [] i s h unused = tt
Separate-set (x ∷ ss) zero s h unused = (unused, h.1)
Separate-set (x ∷ ss) (suc i) s h unused =
    (IsFree-set x.listen_port ss i s h.0 (ground arith), Separate-set ss i s h.1 (ground arith))

has_port-get :
    (p : ℕ) (ss : List Source) (i : ℕ) (s : Source)
    → get_elem? ss i ≡ some s
    → has_port p ss ≡ false
    → (s.listen_port == p) ≡ false
unfolding has_port
has_port-get p [] i s e h = absurd (ground arith)
has_port-get p (x ∷ ss) zero s e h = ground arith
has_port-get p (x ∷ ss) (suc i) s e h = has_port-get p ss i s e (ground arith)

-- A source's own port is free among the others.
Separate-own :
    (ss : List Source) (i : ℕ) (s : Source)
    → Separate ss
    → get_elem? ss i ≡ some s
    → IsFree s.listen_port (remove_at i ss)
unfolding has_port
Separate-own [] i s h e = absurd (ground arith)
Separate-own (x ∷ ss) zero s h e = ground (arith)
Separate-own (x ∷ ss) (suc i) s h e =
    let rest = Separate-own ss i s h.1 e in
    elim h.0 [
      | inl no_port ↦ ground arith
      | inr unused ↦ ground (arith, has_port-get x.listen_port ss i s e unused)
    ]

-- An update of a source always ends, its search for a port included, and where each source with a
-- port had that port for itself before, each has afterwards.
pub srtla_source_update-Separate :
    (now : ℕ) (players : Players) (spawned : Bool) (cfg : Settings) (i : ℕ) (ss : List Source)
    → Separate ss
    → (ss' : List Source) × (cfg' : Settings) × (srtla_source_update now players spawned cfg i ss
        ≡ some (ss', cfg'))
      × Separate ss'
unfolding srtla_source_update
srtla_source_update-Separate now players spawned cfg i ss h = elim (Option-cases (get_elem? ss i)) [
  | inl missing ↦ (ss, cfg, ground arith, h)
  | inr (s, e) ↦
      let (port, chosen, unused) = choose_port-free cfg.listen_port s (remove_at i ss) in
      let s' = apply_settings now players spawned cfg port s in
      let same_port = apply_settings-port now players spawned cfg port s in
      let own = Separate-own ss i s h e in
      (
        set ss i s',
        record cfg { listen_port = port },
        ground (arith, chosen),
        Separate-set ss i s' h
            (subst (λ p. IsFree p (remove_at i ss)) (sym same_port) (ground arith)),
      )
]

-- A source that is created with a port keeps it through its first update, also where another source
-- has that port: the port that the settings ask for is taken, and the source reverts to its own,
-- which is the same one.
pub created_source_collides :
    (now : ℕ) (players : Players) (spawned : Bool) (cfg : Settings) (name : Option Bytes)
    (ss : List Source)
    → 0 < cfg.listen_port
    → has_port cfg.listen_port ss ≡ true
    → (s : Source) × (srtla_source_update now players spawned cfg 0
          (srtla_source_create name (some cfg.listen_port) ss)
        ≡ some (s ∷ ss, cfg))
      × (s.listen_port ≡ cfg.listen_port)
unfolding srtla_source_update srtla_source_create choose_port
created_source_collides now players spawned cfg name ss positive taken =
    let new = record (zeroed_source name) { listen_port = cfg.listen_port } in
    (
      apply_settings now players spawned cfg cfg.listen_port new,
      ground arith,
      apply_settings-port now players spawned cfg cfg.listen_port new,
    )
