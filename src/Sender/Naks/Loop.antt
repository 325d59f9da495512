-- ===== src/Sender/Naks/Loop.antt =====
-- When the loop over a range of lost packets (src/srtla/srtla_send.c) ends.
use pyle_irl.Base.{
  ℕ, zero, suc, ◌+◌, ◌-◌, ◌%◌, ◌^◌, ◌<◌, ◌≡◌, refl, ap, true, false, none, some, List, [], ◌∷◌,
  arith, leb,
}
use pyle_irl.Sender.Naks.{append_naks, nak_loop, nak_range}
use pyle_irl.Sender.State.{no_pkt}

-- `n` numbers from `a` on.
abbrev pub count_up : ℕ → ℕ → List ℕ
count_up zero a = []
count_up (suc n) a = a ∷ count_up n (a + 1)

-- More tests than there are packets are enough, whatever their number.
pub nak_loop-ends :
    (tests n lost last : ℕ)
    → n < tests
    → last < no_pkt
    → n ≡ last + 1 - lost
    → nak_loop tests lost last ≡ some (count_up n lost)
unfolding nak_loop
nak_loop-ends zero n lost last h small e = absurd (omega arith)
nak_loop-ends (suc tests) zero lost last h small e =
    let past : leb lost last ≡ false = ground (arith, e) in rw (past, nak_loop) refl
nak_loop-ends (suc tests) (suc n) lost last h small e =
    let inside : leb lost last ≡ true = ground (arith, e) in
    let next : (lost + 1) % 2 ^ 32 ≡ lost + 1 = omega (arith, e, small) in
    rw (inside, next, nak_loop)
      (ap (append_naks (some (lost ∷ [])))
        (nak_loop-ends tests n (lost + 1) last (omega (arith, h)) small (omega (arith, e))))

pub nak_range-count_up :
    (first last : ℕ)
    → last < no_pkt
    → nak_range first last ≡ some (count_up (last + 1 - first) first)
unfolding nak_range
nak_range-count_up first last small =
    nak_loop-ends (suc (last + 1 - first)) (last + 1 - first) first last (omega arith) small refl

-- A range up to 0xFFFFFFFF: the test holds for every `uint32_t`.
pub nak_loop-endless : (tests lost : ℕ) → lost < 2 ^ 32 → nak_loop tests lost no_pkt ≡ none
unfolding nak_loop
nak_loop-endless zero lost h = refl
nak_loop-endless (suc tests) lost h =
    let inside : leb lost no_pkt ≡ true = ground (arith, h) in
    rw (inside, nak_loop)
      (ap (append_naks (some (lost ∷ [])))
        (nak_loop-endless tests ((lost + 1) % 2 ^ 32) (omega arith)))
