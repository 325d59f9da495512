-- ===== src/Receiver/Ack.antt =====
-- `register_packet` of src/srtla/srtla_rec.c: the log of received sequence numbers and the SRTLA ACK
-- that is sent for each ten of them.
pub mod Ledger
use pyle_irl.Base.{ℕ, ◌+◌, ◌*◌, ◌^◌, List, [], ◌∷◌, ◌++◌, set, concat, ◌==◌, if◌then◌else◌}
use pyle_irl.Receiver.State.{recv_ack_int, Conn, Call, send_to}
use pyle_irl.Wire.{Bytes, srtla_type_ack, be32}

-- `srtla_ack_pkt`: the type word and the log.
abbrev pub ack_packet : List Bytes → Bytes
ack_packet log = be32 (srtla_type_ack * 2 ^ 16) ++ concat log

-- The connection as it is left, and the call that sends the ACK when the log is full.
unfoldable pub register_packet : ℕ → Conn → Conn × List Call
register_packet sn c =
    let log = set c.recv_log c.recv_idx (be32 sn) in
    if c.recv_idx + 1 == recv_ack_int
    then (record c { recv_log = log; recv_idx = 0 }, send_to c.addr (ack_packet log) ∷ [])
    else (record c { recv_log = log; recv_idx = c.recv_idx + 1 }, [])
