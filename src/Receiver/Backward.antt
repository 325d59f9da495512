-- ===== src/Receiver/Backward.antt =====
-- `handle_srt_data` of src/srtla/srtla_rec.c: packets from the SRT server, on their way to the
-- senders.
pub mod Acks
use pyle_irl.Base.{
  ℕ, Bool, true, false, Option, none, some, List, [], ◌∷◌, length, get_elem?, remove_at, ltb,
  if◌then◌else◌,
}
use pyle_irl.Receiver.Backoff.{retry_later}
use pyle_irl.Receiver.Groups.{conn_find}
use pyle_irl.Receiver.Io.{Errno, is_fatal_udp_error}
use pyle_irl.Receiver.Out.{Out, keep, wait_or_destroy, commit}
use pyle_irl.Receiver.State.{Conn, Group, Call, send_to, Ctx, close_sock}
use pyle_irl.Wire.{Bytes, srt_min_len, is_srt_ack}

-- One `recv` on the group's socket: `none` for an error other than EAGAIN, else the bytes received;
-- what the one `sendto` of a packet fails with, if it does; and the clock.
pub record SrtRead : Type 0 where
  pub buf : Option Bytes
  pub send_error : Option Errno
  pub now_ms : ℕ

-- "Broadcast SRT ACKs over all connections".
unfoldable pub broadcast : Bytes → List Conn → List Call → List Call
broadcast buf [] calls = calls
broadcast buf (c ∷ cs) calls = broadcast buf cs (send_to c.addr buf ∷ calls)

-- The loop that removes the connection of `addr`: the list as it is left, and how many went.
unfoldable pub remove_conn : Bytes → List Conn → List Conn × ℕ
remove_conn addr cs = elim (conn_find addr cs) [ none ↦ (cs, 0) | some i ↦ (remove_at i cs, 1) ]

unfoldable pub send_failed : Option Errno → Group → List Call → Out
send_failed none g calls = keep g calls
send_failed (some e) g calls =
    let (cs, n) = remove_conn g.last_addr g.conns in
    if is_fatal_udp_error e
    then record { group = record g { conns = cs }; calls = calls; dropped = n; stays = true }
    else keep g calls

-- A packet of at least SRT_MIN_LEN bytes.
unfoldable pub srt_packet : Option Errno → Bytes → Group → Out
srt_packet error buf g =
    if is_srt_ack buf
    then keep g (broadcast buf g.conns [])
    else send_failed error g (send_to g.last_addr buf ∷ [])

-- The read failed, or was too short: "Entering WAITING_SRT".
unfoldable pub srt_failed : Bool → ℕ → ℕ → Group → Out
srt_failed auto interval now g =
    let g' = record g { srt_sock = none } in
    wait_or_destroy auto g' (retry_later now interval g') (close_sock g.srt_sock)

-- One round of the loop; the flag says whether the loop goes on.
unfoldable pub srt_read : Bool → ℕ → SrtRead → Group → Out × Bool
srt_read auto interval r g = elim r.buf [
  | none ↦ (srt_failed auto interval r.now_ms g, false)
  | some buf ↦
      if ltb (length buf) srt_min_len
      then (srt_failed auto interval r.now_ms g, false)
      else (srt_packet r.send_error buf g, true)
]

-- The loop for the group at `gi`: it ends at the first failed read, or when no packet is left (EAGAIN).
unfoldable pub handle_srt_data : ℕ → List SrtRead → Ctx → Ctx
handle_srt_data gi [] c = c
handle_srt_data gi (r ∷ rs) c = elim (get_elem? c.groups gi) [
  | none ↦ c
  | some g ↦
      let (out, more) = srt_read c.auto_reconnect c.reconnect_interval_ms r g in
      let c' = commit gi out c in if more then handle_srt_data gi rs c' else c'
]
