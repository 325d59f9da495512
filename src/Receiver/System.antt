-- ===== src/Receiver/System.antt =====
-- A receiver of src/srtla/srtla_rec.c as a whole: the calls that its loop makes of the handlers, in
-- any order and with any answers of the operating system.
use pyle_irl.Base.{ℕ, ◌≡◌, refl, Bool, true, false, Option, none, some, List, ◌∷◌, arith}
use pyle_irl.Base.Int.{ℤ, pos, negsuc}
use pyle_irl.Receiver.Backward.{SrtRead, handle_srt_data}
use pyle_irl.Receiver.Cleanup.{Handshake, connection_cleanup}
use pyle_irl.Receiver.Forward.{Datagram, handle_srtla_data}
use pyle_irl.Receiver.Instances.{Startup, new_ctx, loop_ctx, reset_groups}
use pyle_irl.Receiver.Invariant.{IsValid}
use pyle_irl.Receiver.Invariant.Cleanup.{connection_cleanup-IsValid}
use pyle_irl.Receiver.Invariant.Packets.{handle_srtla_data-IsValid, handle_srt_data-IsValid}
use pyle_irl.Receiver.Resolve.{
  Candidate, aborted, reachable, unreachable, try_candidates, resolve_srt_addr,
}
use pyle_irl.Receiver.State.{Platform, Ctx}

-- What the loop, and other threads by `srtla_reset_group_by_port`, do to the context.
pub data Step (c : Ctx) : Ctx → Type 0 where
  senders : (ts : ℕ) (ds : List Datagram) → Step c (handle_srtla_data ts ds c)
  server : (gi : ℕ) (rs : List SrtRead) → Step c (handle_srt_data gi rs c)
  reset : Step c (reset_groups c)
  cleanup : (hs : ℕ → Handshake) (last_ran ts : ℕ) → Step c (connection_cleanup hs last_ran ts c).0

pub data Reach (s : Ctx) : Ctx → Type 0 where
  here : Reach s s
  later : {t u : Ctx} → Reach s t → Step t u → Reach s u

pub Step-IsValid : {c d : Ctx} → Step c d → IsValid c → IsValid d
unfolding reset_groups
Step-IsValid {c} (senders ts ds) v = handle_srtla_data-IsValid ts ds c v
Step-IsValid {c} (server gi rs) v = handle_srt_data-IsValid gi rs c v
Step-IsValid {c} reset v = record { single = omega arith; good = tt }
Step-IsValid {c} (cleanup hs last_ran ts) v = connection_cleanup-IsValid hs last_ran ts c v

pub Reach-IsValid : {s c : Ctx} → IsValid s → Reach s c → IsValid c
Reach-IsValid v here = v
Reach-IsValid v (later r st) = Step-IsValid st (Reach-IsValid v r)

groups-resolve_srt_addr :
    (lookup : Option (Candidate × List Candidate)) (made : Bool) (c : Ctx)
    → (resolve_srt_addr lookup made c).0.groups ≡ c.groups
unfolding resolve_srt_addr
groups-resolve_srt_addr none made c = refl
groups-resolve_srt_addr (some (first, others)) false c = refl
groups-resolve_srt_addr (some (first, others)) true c =
    elim (try_candidates (first ∷ others))
      as (λ o.
        (elim o as (λ x. Ctx × ℤ) [
          | aborted ↦ (c, negsuc 0)
          | reachable a ↦ (record c { srt_addr = a }, pos 1)
          | unreachable ↦ (record c { srt_addr = first.address }, pos 0)
        ]).0.groups
        ≡ c.groups) [ aborted ↦ refl | reachable a ↦ refl | unreachable ↦ refl ]

pub loop_ctx-IsValid : (plat : Platform) (port : ℕ) (s : Startup) → IsValid (loop_ctx plat port s)
loop_ctx-IsValid plat port s =
    let none_yet = groups-resolve_srt_addr s.lookup s.lookup_socket (new_ctx plat port) in
    record { single = rw none_yet (omega arith); good = rw none_yet tt }

-- In every context that a receiver can reach from the one with which its loop begins, whatever the start
-- found and whatever other threads reset, there is at most one group, no two connections of a group have
-- one address, and each connection's log is whole with its index in bounds.
pub Reach-start-IsValid :
    (plat : Platform) (port : ℕ) (s : Startup) {c : Ctx}
    → Reach (loop_ctx plat port s) c
    → IsValid c
Reach-start-IsValid plat port s r = Reach-IsValid (loop_ctx-IsValid plat port s) r
