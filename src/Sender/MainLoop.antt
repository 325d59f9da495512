-- ===== src/Sender/MainLoop.antt =====
-- The loop of `main` in src/srtla/srtla_send.c, one round at a time.
use pyle_irl.Base.{
  ℕ, zero, suc, Bool, Option, none, some, List, length, get_elem?, if◌then◌else◌, is_none,
}
use pyle_irl.Sender.Conns.{Line, update_conns}
use pyle_irl.Sender.Housekeeping.{continues, exited, connection_housekeeping}
use pyle_irl.Sender.Packets.{handle_srtla_data}
use pyle_irl.Sender.Select.{handle_srt_data}
use pyle_irl.Sender.Sockets.{Opening}
use pyle_irl.Sender.State.{Sender}
use pyle_irl.Wire.{Bytes}

-- A packet that waits on a link's socket, with what the buffer holds behind it, the clock, and
-- whether a REG1 that it calls for goes out.
pub record Incoming : Type 0 where
  pub ts : ℕ
  pub sent : Bool
  pub buf : Bytes
  pub behind : Bytes

-- A packet of the SRT caller (`none` for a read that fails), its address, and whether it goes out.
pub record FromCaller : Type 0 where
  pub t : ℕ
  pub sent : Bool
  pub buf : Option Bytes
  pub caller : Bytes

-- What a round meets: the file's lines after a SIGHUP, the clock, the sockets, and what is ready.
pub record Round : Type 0 where
  pub update : Option (List Line)
  pub ms : ℕ
  pub now : ℕ
  pub opens : ℕ → Opening
  pub from_caller : Option FromCaller
  pub from_receiver : ℕ → Option Incoming

-- The loop over the links, from index `i` with `n` links left: those with a socket that is set.
unfoldable pub read_links : ℕ → ℕ → (ℕ → Option Incoming) → Sender → Option Sender
read_links zero i ready s = some s
read_links (suc n) i ready s = elim (get_elem? s.links i) [
  | none ↦ some s
  | some c ↦ elim (if is_none c.fd then none else ready i) [
    | none ↦ read_links n (suc i) ready s
    | some m ↦ elim (handle_srtla_data m.ts m.sent m.buf m.behind i s) [
      | none ↦ none
      | some s' ↦ read_links n (suc i) ready s'
    ]
  ]
]

unfoldable pub read_sockets : Round → Sender → Option Sender
unfolding read_links
read_sockets r s =
    let s' : Sender = elim r.from_caller [
      | none ↦ s
      | some m ↦ handle_srt_data m.t m.sent m.buf m.caller s
    ] in
    read_links (length s'.links) 0 r.from_receiver s'

-- How a round ends: the loop goes on, the process ends, or a loop inside never ends.
pub data RoundEnd : Type 0 where
  next_round : Sender → RoundEnd
  process_exit : RoundEnd
  never_ends : RoundEnd

unfoldable pub sender_round : Round → Sender → RoundEnd
unfolding read_sockets
sender_round r s =
    let s1 : Sender = elim r.update [ none ↦ s | some ls ↦ update_conns ls s ] in
    elim (connection_housekeeping r.ms r.now r.opens s1) [
      | exited ↦ process_exit
      | continues s2 ↦ elim (read_sockets r s2) [ none ↦ never_ends | some s3 ↦ next_round s3 ]
    ]
