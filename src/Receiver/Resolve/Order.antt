-- ===== src/Receiver/Resolve/Order.antt =====
-- Which address `resolve_srt_addr` (src/srtla/srtla_rec.c) settles on.
use pyle_irl.Base.{◌≡◌, refl, ◌⊎◌, inl, inr, true, some, List, [], ◌∷◌, All}
use pyle_irl.Base.Int.{pos, negsuc}
use pyle_irl.Receiver.Resolve.{
  Candidate, Answer, stopped, answered, unanswered, try_candidate, aborted, reachable, unreachable,
  try_candidates, resolve_srt_addr,
}
use pyle_irl.Receiver.State.{Ctx}
use pyle_irl.RistSource.Recover.Attempts.{silence}
use pyle_irl.Wire.{Bytes}

-- The address is that of the first candidate that answers; none before it did, or asked to stop.
abbrev pub FirstAnswer : List Candidate → Bytes → Type 0
FirstAnswer [] a = ⊥
FirstAnswer (x ∷ xs) a =
    ((try_candidate x ≡ answered) × (a ≡ x.address))
    ⊎ ((try_candidate x ≡ unanswered) × FirstAnswer xs a)

abbrev pub NoAnswer : List Candidate → Type 0
NoAnswer = All (λ (x : Candidate). try_candidate x ≡ unanswered)

-- The stop flag was seen while a candidate was waited for, before any answered.
abbrev pub Stopped : List Candidate → Type 0
Stopped [] = ⊥
Stopped (x ∷ xs) = (try_candidate x ≡ stopped) ⊎ ((try_candidate x ≡ unanswered) × Stopped xs)

Answer-cases : (a : Answer) → (a ≡ stopped) ⊎ (a ≡ answered) ⊎ (a ≡ unanswered)
Answer-cases stopped = inl refl
Answer-cases answered = inr (inl refl)
Answer-cases unanswered = inr (inr refl)

try_candidates_lem :
    (xs : List Candidate)
    → ((a : Bytes) × (try_candidates xs ≡ reachable a) × FirstAnswer xs a)
      ⊎ ((try_candidates xs ≡ unreachable) × NoAnswer xs)
      ⊎ ((try_candidates xs ≡ aborted) × Stopped xs)
unfolding try_candidates
try_candidates_lem [] = inr (inl (refl, tt))
try_candidates_lem (x ∷ xs) = elim (Answer-cases (try_candidate x)) [
  | inl e ↦ inr (inr (rw (e, try_candidates) refl, inl e))
  | inr (inl e) ↦ inl (x.address, rw (e, try_candidates) refl, inl (e, refl))
  | inr (inr e) ↦ elim (try_candidates_lem xs) [
    | inl (a, f, first) ↦ inl (a, rw (e, try_candidates) f, inr (e, first))
    | inr (inl (f, none_did)) ↦ inr (inl (rw (e, try_candidates) f, (e, none_did)))
    | inr (inr (f, seen)) ↦ inr (inr (rw (e, try_candidates) f, inr (e, seen)))
  ]
]

-- With a socket for the attempts, `resolve_srt_addr` returns 1 and the first address that answers the
-- handshake, or 0 and the first address of all where none answers, or -1 with the SRT address left
-- alone, where the stop flag was seen first.
pub resolve_srt_addr_lem :
    (first : Candidate) (others : List Candidate) (c : Ctx)
    → let (d, ret) = resolve_srt_addr (some (first, others)) true c in
      ((ret ≡ pos 1) × FirstAnswer (first ∷ others) d.srt_addr)
      ⊎ ((ret ≡ pos 0) × NoAnswer (first ∷ others) × (d.srt_addr ≡ first.address))
      ⊎ ((ret ≡ negsuc 0) × Stopped (first ∷ others) × (d ≡ c))
unfolding resolve_srt_addr
resolve_srt_addr_lem first others c = elim (try_candidates_lem (first ∷ others)) [
  | inl (a, e, answers) ↦ rw (e, resolve_srt_addr) (inl (refl, answers))
  | inr (inl (e, silence)) ↦ rw (e, resolve_srt_addr) (inr (inl (refl, silence, refl)))
  | inr (inr (e, seen)) ↦ rw (e, resolve_srt_addr) (inr (inr (refl, seen, refl)))
]
