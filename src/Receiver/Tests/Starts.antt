-- ===== src/Receiver/Tests/Starts.antt =====
-- Starts of receivers (src/srtla/srtla_rec.c) on an empty table of two slots.
use pyle_irl.Base.{◌≡◌, refl, ◌⊎◌, true, false, none, some, [], ◌∷◌}
use pyle_irl.Base.Int.{pos, negsuc}
use pyle_irl.Receiver.Instances.{
  Table, take_slot, Startup, new_ctx, start_failed, now_running, start_instance, find_port,
}
use pyle_irl.Receiver.Resolve.{
  silent, readable, Candidate, try_candidate, try_candidates, resolve_srt_addr,
}
use pyle_irl.Receiver.Resolve.Order.{FirstAnswer, NoAnswer, Stopped, resolve_srt_addr_lem}
use pyle_irl.Receiver.State.{linux}

abbrev two_slots : Table
two_slots = none ∷ none ∷ []

abbrev good_start : Startup
good_start = record {
  memory = true;
  lookup =
      some (record { address = 1 ∷ []; connects = false; sends = false; polls = λ i. silent }, []);
  lookup_socket = true;
  urandom = true;
  epoll = true;
  socket = true;
  bound = true;
  watched = true;
}

-- The port is in use.
abbrev bad_start : Startup
bad_start = record good_start { bound = false }

abbrev left_behind : Table
left_behind = (start_instance linux 5000 bad_start two_slots).0

bad_start-failed : start_instance linux 5000 bad_start two_slots ≡ (left_behind, start_failed 0)
unfolding start_instance take_slot resolve_srt_addr try_candidates try_candidate
bad_start-failed = refl

abbrev both_taken : Table
both_taken = (start_instance linux 5000 good_start left_behind).0

good_start-running : start_instance linux 5000 good_start left_behind ≡ (both_taken, now_running 1)
unfolding start_instance take_slot resolve_srt_addr try_candidates try_candidate
good_start-running = refl

nothing_there : find_port 5000 two_slots ≡ none
unfolding find_port
nothing_there = refl

abbrev deaf : Candidate
deaf = record { address = 1 ∷ []; connects = true; sends = true; polls = λ i. silent }

abbrev answering : Candidate
answering = record {
  address = 2 ∷ [];
  connects = true;
  sends = true;
  polls = λ i. readable (some 64);
}

resolve_srt_addr_lem_example :
    let (d, ret) = resolve_srt_addr (some (deaf, answering ∷ [])) true (new_ctx linux 5000) in
    ((ret ≡ pos 1) × FirstAnswer (deaf ∷ answering ∷ []) d.srt_addr)
    ⊎ ((ret ≡ pos 0) × NoAnswer (deaf ∷ answering ∷ []) × (d.srt_addr ≡ deaf.address))
    ⊎ ((ret ≡ negsuc 0) × Stopped (deaf ∷ answering ∷ []) × (d ≡ new_ctx linux 5000))
resolve_srt_addr_lem_example = resolve_srt_addr_lem deaf (answering ∷ []) (new_ctx linux 5000)
