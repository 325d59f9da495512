-- ===== src/Sender/Naks/Report.antt =====
-- The loss reports of the SRT server that src/srtla/srtla_send.c takes apart, from the other side:
-- what is reported, and how SRT writes it.
use pyle_irl.Base.{
  ℕ, suc, ◌+◌, ◌-◌, ◌^◌, ◌≤◌, ◌<◌, ◌≡◌, refl, ap, ◌∙◌, false, none, some, List, [], ◌∷◌, ◌++◌,
  arith, All, ltb,
}
use pyle_irl.Sender.Naks.{append_naks, nak_range, nak_pkts}
use pyle_irl.Sender.Naks.Loop.{count_up, nak_range-count_up, nak_loop-endless}
use pyle_irl.Sender.State.{no_pkt}

-- One packet, or all from one to another.
pub data Loss : Type 0 where
  one_pkt : ℕ → Loss
  from_to : ℕ → ℕ → Loss

-- The packets have the 31 bits that a sequence number has, and the range goes upwards.
abbrev pub IsLoss : Loss → Type 0
IsLoss (one_pkt p) = p < 2 ^ 31
IsLoss (from_to a b) = (a ≤ b) × (b < 2 ^ 31)

abbrev pub loss_words : List Loss → List ℕ
loss_words [] = []
loss_words (one_pkt p ∷ ls) = p ∷ loss_words ls
loss_words (from_to a b ∷ ls) = (a + 2 ^ 31) ∷ b ∷ loss_words ls

abbrev pub losses : List Loss → List ℕ
losses [] = []
losses (one_pkt p ∷ ls) = p ∷ losses ls
losses (from_to a b ∷ ls) = count_up (b + 1 - a) a ++ losses ls

nak_pkts-one_pkt :
    (p : ℕ) (ws : List ℕ) (behind : ℕ)
    → p < 2 ^ 31
    → nak_pkts (p ∷ ws) behind ≡ append_naks (some (p ∷ [])) (nak_pkts ws behind)
unfolding nak_pkts
nak_pkts-one_pkt p [] behind h = ground arith
nak_pkts-one_pkt p (v ∷ ws) behind h = ground arith

nak_pkts-from_to :
    (a b : ℕ) (ws : List ℕ) (behind : ℕ)
    → a ≤ b
    → b < 2 ^ 31
    → nak_pkts ((a + 2 ^ 31) ∷ b ∷ ws) behind
      ≡ append_naks (some (count_up (b + 1 - a) a)) (nak_pkts ws behind)
unfolding nak_pkts
nak_pkts-from_to a b ws behind l h =
    let start : a + 2 ^ 31 - 2 ^ 31 ≡ a = omega arith in
    let is_range : ltb (a + 2 ^ 31) (2 ^ 31) ≡ false = ground arith in
    rw (is_range, start, nak_range-count_up a b (omega (arith, h))) refl

pub nak_pkts-loss_words :
    (ls : List Loss) (behind : ℕ)
    → All IsLoss ls
    → nak_pkts (loss_words ls) behind ≡ some (losses ls)
unfolding nak_pkts
nak_pkts-loss_words [] behind v = refl
nak_pkts-loss_words (one_pkt p ∷ ls) behind v =
    nak_pkts-one_pkt p (loss_words ls) behind v.0
    ∙ ap (append_naks (some (p ∷ []))) (nak_pkts-loss_words ls behind v.1)
nak_pkts-loss_words (from_to a b ∷ ls) behind v =
    nak_pkts-from_to a b (loss_words ls) behind v.0.0 v.0.1
    ∙ ap (append_naks (some (count_up (b + 1 - a) a))) (nak_pkts-loss_words ls behind v.1)

pub endless_range :
    (ls : List Loss) (a behind : ℕ) (ws : List ℕ)
    → All IsLoss ls
    → a < 2 ^ 31
    → nak_pkts (loss_words ls ++ ((a + 2 ^ 31) ∷ no_pkt ∷ ws)) behind ≡ none
unfolding nak_pkts nak_range
endless_range [] a behind ws v h =
    let is_range : ltb (a + 2 ^ 31) (2 ^ 31) ≡ false = ground arith in
    let endless =
      nak_loop-endless (suc (no_pkt + 1 - (a + 2 ^ 31 - 2 ^ 31))) (a + 2 ^ 31 - 2 ^ 31)
        (omega (arith, h)) in
    rw (is_range, endless) refl
endless_range (one_pkt p ∷ ls) a behind ws v h =
    nak_pkts-one_pkt p (loss_words ls ++ ((a + 2 ^ 31) ∷ no_pkt ∷ ws)) behind v.0
    ∙ ap (append_naks (some (p ∷ []))) (endless_range ls a behind ws v.1 h)
endless_range (from_to b c ∷ ls) a behind ws v h =
    nak_pkts-from_to b c (loss_words ls ++ ((a + 2 ^ 31) ∷ no_pkt ∷ ws)) behind v.0.0 v.0.1
    ∙ ap (append_naks (some (count_up (c + 1 - b) b))) (endless_range ls a behind ws v.1 h)
