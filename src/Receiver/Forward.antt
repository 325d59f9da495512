-- ===== src/Receiver/Forward.antt =====
-- `handle_srtla_data` of src/srtla/srtla_rec.c: packets from the senders, on their way to the SRT
-- server.
pub mod Discard
use pyle_irl.Base.{
  ℕ, Bool, none, some, List, [], ◌∷◌, ◌++◌, length, get_elem?, set, modify, ltb, if◌then◌else◌,
}
use pyle_irl.Receiver.Ack.{register_packet}
use pyle_irl.Receiver.Backoff.{retry_later}
use pyle_irl.Receiver.Groups.{Found, member, peer, nobody, group_find_by_addr}
use pyle_irl.Receiver.Io.{Io}
use pyle_irl.Receiver.Out.{Out, keep, wait_or_destroy, commit}
use pyle_irl.Receiver.Register.{group_reg, conn_reg}
use pyle_irl.Receiver.State.{
  Platform, windows, linux, macos, waiting_srt, Group, Call, send_to, send, close_socket, epoll_add,
  Ctx, close_sock, add64,
}
use pyle_irl.Wire.{Bytes, srt_min_len, get_srt_sn, is_srtla_keepalive, is_srtla_reg1, is_srtla_reg2}

-- `send(g->srt_sock, …)`, and what its failure does.
unfoldable pub send_on : Bool → ℕ → Io → Bytes → ℕ → Group → List Call → Out
send_on auto interval io buf s g calls =
    let calls' = send s buf ∷ calls in
    if io.forwarded
    then keep g calls'
    else let g' = record g { srt_sock = none } in
      wait_or_destroy auto g'
        (record g' {
          state = waiting_srt;
          srt_retry_attempts = 1;
          next_srt_retry_ms = add64 io.now_ms interval;
        })
        (close_sock (some s) ++ calls')

-- The socket `s` is connected; on Linux it is added to the epoll set.
unfoldable pub watch_srt : Platform → Bool → ℕ → Io → Bytes → ℕ → Group → List Call → Out
watch_srt linux auto interval io buf s g calls =
    if io.watched
    then send_on auto interval io buf s (record g { srt_sock = some s }) (epoll_add s ∷ calls)
    else let g' = record g { srt_sock = none } in
      wait_or_destroy auto g'
        (record g' { state = waiting_srt; next_srt_retry_ms = add64 io.now_ms interval })
        (close_socket s ∷ epoll_add s ∷ calls)
watch_srt windows auto interval io buf s g calls =
    send_on auto interval io buf s (record g { srt_sock = some s }) calls
watch_srt macos auto interval io buf s g calls =
    send_on auto interval io buf s (record g { srt_sock = some s }) calls

-- "Open a connection to the SRT server for the group".
unfoldable pub open_srt : Platform → Bool → ℕ → Io → Bytes → Group → List Call → Out
open_srt plat auto interval io buf g calls = elim io.socket [
  | none ↦ wait_or_destroy auto g (retry_later io.now_ms interval g) calls
  | some s ↦
      if io.connected
      then watch_srt plat auto interval io buf s g calls
      else let g' = record g { srt_sock = none } in
        wait_or_destroy auto g' (retry_later io.now_ms interval g') (close_socket s ∷ calls)
]

unfoldable pub forward : Platform → Bool → ℕ → Io → Bytes → Group → List Call → Out
forward plat auto interval io buf g calls = elim g.srt_sock [
  | none ↦ open_srt plat auto interval io buf g calls
  | some s ↦ send_on auto interval io buf s g calls
]

-- "Keep track of the received data packets to send SRTLA ACKs", for the connection at `ci`.
unfoldable pub log_packet : Bytes → ℕ → Group → Group × List Call
log_packet buf ci g = elim (get_srt_sn buf) [
  | none ↦ (g, [])
  | some sn ↦ elim (get_elem? g.conns ci) [
    | none ↦ (g, [])
    | some k ↦
        let (k', acks) = register_packet sn k in (record g { conns = set g.conns ci k' }, acks)
  ]
]

-- "Update the connection's use timestamp and bytes received".
abbrev pub touch : ℕ → ℕ → ℕ → Group → Group
touch n ts ci g = record g {
  conns =
      modify ci (λ k. record k { last_rcvd = ts; bytes_received = add64 k.bytes_received n })
        g.conns;
  bytes_received = add64 g.bytes_received n;
}

-- A packet of the connection at `ci` of its group.
unfoldable pub member_packet : Platform → Bool → ℕ → Io → ℕ → Bytes → Bytes → ℕ → Group → Out
member_packet plat auto interval io ts addr buf ci g =
    let g1 = touch (length buf) ts ci g in
    if is_srtla_keepalive buf
    then keep g1 (send_to addr buf ∷ [])
    else if ltb (length buf) srt_min_len
    then keep g1 []
    else let (g2, acks) = log_packet buf ci (record g1 { last_addr = addr }) in
      forward plat auto interval io buf g2 acks

-- "Check that the peer is a member of a connection group, discard otherwise".
unfoldable pub from_found : Io → ℕ → Bytes → Bytes → Found → Ctx → Ctx
from_found io ts addr buf (peer gi) c = c
from_found io ts addr buf nobody c = c
from_found io ts addr buf (member gi ci) c = elim (get_elem? c.groups gi) [
  | none ↦ c
  | some g ↦
      commit gi
        (member_packet c.platform c.auto_reconnect c.reconnect_interval_ms io ts addr buf ci g) c
]

-- One round of the loop, for a packet `buf` that came from `addr`.
unfoldable pub srtla_packet : Io → ℕ → Bytes → Bytes → Ctx → Ctx
srtla_packet io ts addr buf c =
    if is_srtla_reg1 buf
    then (group_reg io addr buf ts c).0
    else if is_srtla_reg2 buf
    then (conn_reg io addr buf ts c).0
    else from_found io ts addr buf (group_find_by_addr addr c.groups) c

pub record Datagram : Type 0 where
  pub io : Io
  pub from : Bytes
  pub buf : Bytes

-- The packets that wait on the socket; `recvfrom` then fails (EAGAIN or another error), which ends
-- the loop.
unfoldable pub handle_srtla_data : ℕ → List Datagram → Ctx → Ctx
handle_srtla_data ts [] c = c
handle_srtla_data ts (d ∷ ds) c = handle_srtla_data ts ds (srtla_packet d.io ts d.from d.buf c)
