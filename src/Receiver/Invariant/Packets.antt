-- ===== src/Receiver/Invariant/Packets.antt =====
-- The loops over packets (`handle_srtla_data` and `handle_srt_data` of src/srtla/srtla_rec.c) keep
-- the invariant.
use pyle_irl.Base.{
  ℕ, inl, inr, Bool, true, false, Option, none, some, List, [], ◌∷◌, length, get_elem?, All-get,
  All-remove_at, ltb, Bool-cases, Option-cases,
}
use pyle_irl.Receiver.Ack.Ledger.{HasLog}
use pyle_irl.Receiver.Backward.{
  SrtRead, remove_conn, send_failed, srt_packet, srt_failed, srt_read, handle_srt_data,
}
use pyle_irl.Receiver.Forward.{from_found, srtla_packet, Datagram, handle_srtla_data}
use pyle_irl.Receiver.Groups.{Found, member, peer, nobody, conn_find, group_find_by_addr}
use pyle_irl.Receiver.Invariant.{IsGood, IsValid}
use pyle_irl.Receiver.Invariant.Conns.{Distinct-remove_at}
use pyle_irl.Receiver.Invariant.Register.{group_reg-IsValid, conn_reg-IsValid}
use pyle_irl.Receiver.Invariant.Traffic.{commit-IsValid, member_packet-IsGood}
use pyle_irl.Receiver.Io.{Errno, is_fatal_udp_error, Io}
use pyle_irl.Receiver.Out.{commit}
use pyle_irl.Receiver.State.{Group, Call, Ctx}
use pyle_irl.Receiver.Tests.{reg1}
use pyle_irl.Wire.{Bytes, srt_min_len, is_srt_ack, is_srtla_reg1, is_srtla_reg2}

from_found-IsValid :
    (io : Io) (ts : ℕ) (addr buf : Bytes) (f : Found) (c : Ctx)
    → IsValid c
    → IsValid (from_found io ts addr buf f c)
unfolding from_found
from_found-IsValid io ts addr buf (peer gi) c v = v
from_found-IsValid io ts addr buf nobody c v = v
from_found-IsValid io ts addr buf (member gi ci) c v = elim (Option-cases (get_elem? c.groups gi)) [
  | inl e ↦ rw (e, from_found) v
  | inr (g, e) ↦
      rw (e, from_found)
        (commit-IsValid gi _ c
          (member_packet-IsGood c.platform c.auto_reconnect c.reconnect_interval_ms io ts addr buf
            ci g (All-get IsGood c.groups gi e v.good))
          v)
]

-- A packet that reaches the listening socket, whatever it is and from whatever address, keeps the
-- context valid: at most one group, distinct addresses in it, and whole logs.
pub srtla_packet-IsValid :
    (io : Io) (ts : ℕ) (addr buf : Bytes) (c : Ctx)
    → IsValid c
    → IsValid (srtla_packet io ts addr buf c)
unfolding srtla_packet
srtla_packet-IsValid io ts addr buf c v = elim (Bool-cases (is_srtla_reg1 buf)) [
  | inl reg1 ↦ rw (reg1, srtla_packet) (group_reg-IsValid io addr buf ts c v)
  | inr not_reg1 ↦ elim (Bool-cases (is_srtla_reg2 buf)) [
    | inl reg2 ↦ rw (not_reg1, srtla_packet) (rw reg2 (conn_reg-IsValid io addr buf ts c v))
    | inr not_reg2 ↦
        rw (not_reg1, srtla_packet)
          (rw not_reg2 (from_found-IsValid io ts addr buf (group_find_by_addr addr c.groups) c v))
  ]
]

pub handle_srtla_data-IsValid :
    (ts : ℕ) (ds : List Datagram) (c : Ctx) → IsValid c → IsValid (handle_srtla_data ts ds c)
unfolding handle_srtla_data
handle_srtla_data-IsValid ts [] c v = v
handle_srtla_data-IsValid ts (d ∷ ds) c v =
    handle_srtla_data-IsValid ts ds _ (srtla_packet-IsValid d.io ts d.from d.buf c v)

remove_conn-IsGood :
    (addr : Bytes) (g : Group)
    → IsGood g
    → IsGood (record g { conns = (remove_conn addr g.conns).0 })
unfolding remove_conn
remove_conn-IsGood addr g h = elim (Option-cases (conn_find addr g.conns)) [
  | inl e ↦ rw (e, remove_conn) h
  | inr (i, e) ↦
      rw (e, remove_conn)
        (record {
          logs = All-remove_at HasLog i g.conns h.logs;
          distinct = Distinct-remove_at i g.conns h.distinct;
        })
]

send_failed-IsGood :
    (error : Option Errno) (g : Group) (calls : List Call)
    → IsGood g
    → IsGood (send_failed error g calls).group
unfolding send_failed
send_failed-IsGood none g calls h = h
send_failed-IsGood (some e) g calls h = elim (Bool-cases (is_fatal_udp_error e)) [
  | inl fatal ↦ rw fatal (remove_conn-IsGood g.last_addr g h)
  | inr passing ↦ rw passing h
]

srt_packet-IsGood :
    (error : Option Errno) (buf : Bytes) (g : Group)
    → IsGood g
    → IsGood (srt_packet error buf g).group
unfolding srt_packet
srt_packet-IsGood error buf g h = elim (Bool-cases (is_srt_ack buf)) [
  | inl ack ↦ rw (ack, srt_packet) h
  | inr other ↦ rw (other, srt_packet) (send_failed-IsGood error g _ h)
]

srt_failed-IsGood :
    (auto : Bool) (interval now : ℕ) (g : Group)
    → IsGood g
    → IsGood (srt_failed auto interval now g).group
unfolding srt_failed
srt_failed-IsGood true interval now g h = record { logs = h.logs; distinct = h.distinct }
srt_failed-IsGood false interval now g h = record { logs = h.logs; distinct = h.distinct }

srt_read-IsGood :
    (auto : Bool) (interval : ℕ) (r : SrtRead) (g : Group)
    → IsGood g
    → IsGood (srt_read auto interval r g).0.group
unfolding srt_read
srt_read-IsGood auto interval r g h = elim (Option-cases r.buf) [
  | inl e ↦ rw (e, srt_read) (srt_failed-IsGood auto interval r.now_ms g h)
  | inr (buf, e) ↦ elim (Bool-cases (ltb (length buf) srt_min_len)) [
    | inl short ↦ rw (e, srt_read) (rw short (srt_failed-IsGood auto interval r.now_ms g h))
    | inr long ↦ rw (e, srt_read) (rw long (srt_packet-IsGood r.send_error buf g h))
  ]
]

-- Whatever the SRT server sends, and however sending it on to the senders fails, a valid context
-- stays valid: at most one group, distinct addresses in it, and whole logs.
pub handle_srt_data-IsValid :
    (gi : ℕ) (rs : List SrtRead) (c : Ctx) → IsValid c → IsValid (handle_srt_data gi rs c)
unfolding handle_srt_data
handle_srt_data-IsValid gi [] c v = v
handle_srt_data-IsValid gi (r ∷ rs) c v = elim (Option-cases (get_elem? c.groups gi)) [
  | inl e ↦ rw (e, handle_srt_data) v
  | inr (g, e) ↦
      let read = srt_read c.auto_reconnect c.reconnect_interval_ms r g in
      let v' : IsValid (commit gi read.0 c) =
        commit-IsValid gi read.0 c
          (srt_read-IsGood c.auto_reconnect c.reconnect_interval_ms r g
            (All-get IsGood c.groups gi e v.good))
          v in
      elim (Bool-cases read.1) [
        | inl more ↦ rw (e, handle_srt_data) (rw more (handle_srt_data-IsValid gi rs _ v'))
        | inr done ↦ rw (e, handle_srt_data) (rw done v')
      ]
]
