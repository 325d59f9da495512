-- ===== src/Receiver/Resolve.antt =====
-- `resolve_srt_addr` of src/srtla/srtla_rec.c: the first address of the SRT server that answers a
-- handshake.
pub mod Order
use pyle_irl.Base.{
  ℕ, zero, suc, Bool, true, false, ◌&&◌, Option, none, some, List, [], ◌∷◌, if◌then◌else◌,
}
use pyle_irl.Base.Int.{ℤ, pos, negsuc}
use pyle_irl.Receiver.Cleanup.{is_reply}
use pyle_irl.Receiver.State.{Ctx}
use pyle_irl.Wire.{Bytes}

-- What one round of the wait for an answer meets: the stop flag, no data within 50 ms, or what
-- `recv` returns (`none` for an error).
pub data Poll : Type 0 where
  stop_requested : Poll
  silent : Poll
  readable : Option ℕ → Poll

-- One address that `getaddrinfo` returned, and how the attempt on it goes.
pub record Candidate : Type 0 where
  pub address : Bytes
  pub connects : Bool
  pub sends : Bool
  pub polls : ℕ → Poll

pub data Answer : Type 0 where
  stopped answered unanswered : Answer

-- `while (waited < 1000)` in steps of 50, from round `i` on with `n` rounds left.
unfoldable pub wait_reply : ℕ → ℕ → (ℕ → Poll) → Answer
wait_reply zero i polls = unanswered
wait_reply (suc n) i polls = elim (polls i) [
  | stop_requested ↦ stopped
  | silent ↦ wait_reply n (suc i) polls
  | readable r ↦ if is_reply r then answered else unanswered
]

abbrev pub wait_rounds : ℕ
wait_rounds = 20

unfoldable pub try_candidate : Candidate → Answer
unfolding wait_reply
try_candidate a = if a.connects && a.sends then wait_reply wait_rounds 0 a.polls else unanswered

pub data Resolved : Type 0 where
  aborted : Resolved
  reachable : Bytes → Resolved
  unreachable : Resolved

-- The loop over the addresses.
unfoldable pub try_candidates : List Candidate → Resolved
unfolding try_candidate
try_candidates [] = unreachable
try_candidates (a ∷ rest) = elim (try_candidate a) [
  | stopped ↦ aborted
  | answered ↦ reachable a.address
  | unanswered ↦ try_candidates rest
]

-- `lookup` is what `getaddrinfo` found, a first address and the others; `socket_made` whether the
-- socket for the attempts could be made. The result is the -1, 0 or 1 of the source.
unfoldable pub resolve_srt_addr : Option (Candidate × List Candidate) → Bool → Ctx → Ctx × ℤ
unfolding try_candidates
resolve_srt_addr none socket_made c = (c, negsuc 0)
resolve_srt_addr (some (first, others)) false c = (c, negsuc 0)
resolve_srt_addr (some (first, others)) true c = elim (try_candidates (first ∷ others)) [
  | aborted ↦ (c, negsuc 0)
  | reachable a ↦ (record c { srt_addr = a }, pos 1)
  | unreachable ↦ (record c { srt_addr = first.address }, pos 0)
]
