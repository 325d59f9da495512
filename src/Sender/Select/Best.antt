-- ===== src/Sender/Select/Best.antt =====
-- Which link `select_conn` (src/srtla/srtla_send.c) chooses.
use pyle_irl.Base.{
  ℕ, suc, ◌+◌, ◌≤◌, ◌<◌, ◌≡◌, refl, ap, ◌∙◌, ◌⊎◌, inl, inr, true, false, Option, none, some, List,
  [], ◌∷◌, arith, take, modify, All, At, ltb, Bool-cases,
}
use pyle_irl.Sender.Select.{score, select_loop, select_conn}
use pyle_irl.Sender.State.{Link, link_timed_out}

-- The live ones among these links have at most this score, or less than it.
abbrev pub AtMost : ℕ → ℕ → List Link → Type 0
AtMost t m cs = All (λ (c : Link). link_timed_out c t ≡ false → score c ≤ m) cs

abbrev pub Below : ℕ → ℕ → List Link → Type 0
Below t m cs = All (λ (c : Link). link_timed_out c t ≡ false → score c < m) cs

-- The link at index `k` is live and has the score `m`, which no live link exceeds and none before it
-- reaches.
pub record IsBest (t k m : ℕ) (cs : List Link) : Type 0 where
  pub live : At (λ (c : Link). (link_timed_out c t ≡ false) × (score c ≡ m)) cs k
  pub at_most : AtMost t m cs
  pub first : Below t m (take k cs)

-- A link in front that is timed out or has a lower score.
after-IsBest :
    (t k m : ℕ) (c : Link) (cs : List Link)
    → (link_timed_out c t ≡ false → score c < m)
    → IsBest t k m cs
    → IsBest t (suc k) m (c ∷ cs)
after-IsBest t k m c cs h b = record {
  live = b.live;
  at_most = (λ e. omega (arith, h e), b.at_most);
  first = (h, b.first);
}

-- What the loop makes of the best link before: it stays, or one of a higher score takes its place.
unfoldable Passes : ℕ → List Link → ℕ → ℕ → ℕ → Option (ℕ × ℕ) → Type 0
Passes t cs i j m r =
    ((r ≡ some (j, m)) × AtMost t m cs)
    ⊎ ((k : ℕ) × (n : ℕ) × (r ≡ some (i + k, n)) × (m < n) × IsBest t k n cs)

shift_index :
    (t : ℕ) (c : Link) (cs : List Link) (i k n : ℕ) (r : Option (ℕ × ℕ))
    → r ≡ some (suc i + k, n)
    → r ≡ some (i + suc k, n)
shift_index t c cs i k n r e = e ∙ ap (λ (x : ℕ). some (x, n)) (omega arith)

loop-Passes :
    (t : ℕ) (cs : List Link) (i j m : ℕ) → Passes t cs i j m (select_loop t cs i (some (j, m)))
unfolding select_loop Passes
loop-Passes t [] i j m = inl (refl, tt)
loop-Passes t (c ∷ cs) i j m = elim (Bool-cases (link_timed_out c t)) [
  | inl late ↦
      rw (late, select_loop)
        (elim (loop-Passes t cs (suc i) j m) [
          | inl (e, h) ↦ inl (e, (λ live. absurd (ground arith), h))
          | inr (k, n, e, l, b) ↦ inr (
            suc k,
            n,
            shift_index t c cs i k n _ e,
            l,
            after-IsBest t k n c cs (λ live. absurd (ground arith)) b,
          )
        ])
  | inr live ↦ elim (Bool-cases (ltb m (score c))) [
    | inl higher ↦
        rw (live, higher, select_loop)
          (elim (loop-Passes t cs (suc i) i (score c)) [
            | inl (e, h) ↦ inr (
              0,
              score c,
              e ∙ ap (λ (x : ℕ). some (x, score c)) (omega arith),
              ground arith,
              record { live = (live, refl); at_most = (λ x. omega arith, h); first = tt },
            )
            | inr (k, n, e, l, b) ↦
                let above : m < score c = ground arith in
                inr (
                  suc k,
                  n,
                  shift_index t c cs i k n _ e,
                  omega arith,
                  after-IsBest t k n c cs (λ x. l) b,
                )
          ])
    | inr lower ↦
        rw (live, lower, select_loop)
          (elim (loop-Passes t cs (suc i) j m) [
            | inl (e, h) ↦ inl (e, (λ x. ground arith, h))
            | inr (k, n, e, l, b) ↦ inr (
              suc k,
              n,
              shift_index t c cs i k n _ e,
              l,
              after-IsBest t k n c cs (λ x. ground arith) b,
            )
          ])
  ]
]

-- The loop from its start.
unfoldable Starts : ℕ → List Link → ℕ → Option (ℕ × ℕ) → Type 0
Starts t cs i r =
    ((r ≡ none) × All (λ (c : Link). link_timed_out c t ≡ true) cs)
    ⊎ ((k : ℕ) × (n : ℕ) × (r ≡ some (i + k, n)) × IsBest t k n cs)

loop-Starts : (t : ℕ) (cs : List Link) (i : ℕ) → Starts t cs i (select_loop t cs i none)
unfolding select_loop Starts Passes
loop-Starts t [] i = inl (refl, tt)
loop-Starts t (c ∷ cs) i = elim (Bool-cases (link_timed_out c t)) [
  | inl late ↦
      rw (late, select_loop)
        (elim (loop-Starts t cs (suc i)) [
          | inl (e, h) ↦ inl (e, (refl, h))
          | inr (k, n, e, b) ↦ inr (
            suc k,
            n,
            shift_index t c cs i k n _ e,
            after-IsBest t k n c cs (λ live. absurd (ground arith)) b,
          )
        ])
  | inr live ↦
      rw (live, select_loop)
        (elim (loop-Passes t cs (suc i) i (score c)) [
          | inl (e, h) ↦ inr (
            0,
            score c,
            e ∙ ap (λ (x : ℕ). some (x, score c)) (omega arith),
            record { live = (live, refl); at_most = (λ x. omega arith, h); first = tt },
          )
          | inr (k, n, e, l, b) ↦
              inr (suc k, n, shift_index t c cs i k n _ e, after-IsBest t k n c cs (λ x. l) b)
        ])
]

chosen :
    (t : ℕ) (cs : List Link) (best : Option (ℕ × ℕ))
    → select_loop t cs 0 none ≡ best
    → select_conn t cs ≡ (elim best as (λ b. Option ℕ × List Link) [
      | none ↦ (none, cs)
      | some (i, m) ↦ (some i, modify i (λ (c : Link). record c { last_sent = t }) cs)
    ])
unfolding select_conn
chosen t cs best e =
    ap
      (λ (b : Option (ℕ × ℕ)). elim b as (λ b. Option ℕ × List Link) [
        | none ↦ (none, cs)
        | some (i, m) ↦ (some i, modify i (λ (c : Link). record c { last_sent = t }) cs)
      ])
      e

-- No link is chosen, and none changes, exactly where all links have timed out; otherwise the link that
-- is chosen has not, no other one that has not has a higher score, those before it have lower ones,
-- and of all links only its time of the last packet changes.
pub select_conn-IsBest :
    (t : ℕ) (cs : List Link)
    → (All (λ (c : Link). link_timed_out c t ≡ true) cs × (select_conn t cs ≡ (none, cs)))
      ⊎ ((k : ℕ) × (m : ℕ) × IsBest t k m cs
          × (select_conn t cs ≡ (some k, modify k (λ c. record c { last_sent = t }) cs)))
unfolding Starts
select_conn-IsBest t cs = elim (loop-Starts t cs 0) [
  | inl (e, h) ↦ inl (h, chosen t cs none e)
  | inr (k, n, e, b) ↦
      let place : 0 + k ≡ k = omega arith in
      inr (k, n, b, chosen t cs (some (k, n)) (e ∙ ap (λ (x : ℕ). some (x, n)) place))
]
