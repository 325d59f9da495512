-- ===== src/Receiver/Ack/Ledger.antt =====
-- What `register_packet` (src/srtla/srtla_rec.c) does over a run of data packets.
use native.Mathlib.Numerals.{add-one}
use pyle_irl.Base.{
  ℕ, ◌+◌, ◌*◌, ◌<◌, ◌≡◌, refl, sym, ap, ◌∙◌, List, [], ◌∷◌, ◌++◌, map, append-nil, append_assoc,
  arith, length, set, take, drop, concat, length-set, take_all, take-set,
}
use pyle_irl.Receiver.Ack.{register_packet}
use pyle_irl.Receiver.State.{recv_ack_int, Conn, Call, send_to}
use pyle_irl.Wire.{Bytes, be32}

-- `recv_idx` is an index of the log, and the log is whole.
pub record HasLog (c : Conn) : Type 0 where
  pub room : c.recv_idx < recv_ack_int
  pub whole : length c.recv_log ≡ recv_ack_int

-- The data packets of one connection in the order of their arrival, with the calls latest first.
unfoldable pub register_all : List ℕ → Conn → List Call → Conn × List Call
register_all [] c calls = (c, calls)
register_all (sn ∷ sns) c calls =
    let (c', new) = register_packet sn c in register_all sns c' (new ++ calls)

-- The bytes behind the type word of each packet that was sent, in the order of sending.
unfoldable pub payloads : List Call → Bytes
payloads [] = []
payloads (send_to to pkt ∷ calls) = payloads calls ++ drop 4 pkt
payloads (_ ∷ calls) = payloads calls

-- The logged numbers that no ACK has carried yet.
abbrev pub pending : Conn → Bytes
pending c = concat (take c.recv_idx c.recv_log)

pub register_packet-HasLog : (sn : ℕ) {c : Conn} → HasLog c → HasLog (register_packet sn c).0
unfolding register_packet
register_packet-HasLog sn {c} v = ground (arith, length-set c.recv_log c.recv_idx (be32 sn))

concat-append : (xs ys : List Bytes) → concat (xs ++ ys) ≡ concat xs ++ concat ys
concat-append [] ys = refl
concat-append (x ∷ xs) ys = rw (concat-append xs ys) (sym (append_assoc x (concat xs) (concat ys)))

pending-set :
    (log : List Bytes) (i : ℕ) (w : Bytes)
    → i < length log
    → concat (take (i + 1) (set log i w)) ≡ concat (take i log) ++ w
pending-set log i w h =
    rw (add-one, take-set log i w h, concat-append (take i log) (w ∷ []), append-nil)

-- One packet: what was sent and what is pending, put together, grows by that packet's number.
register_packet-ledger :
    (sn : ℕ) (c : Conn) (calls : List Call)
    → HasLog c
    → let (c', new) = register_packet sn c in
      payloads (new ++ calls) ++ pending c' ≡ payloads calls ++ (pending c ++ be32 sn)
unfolding register_packet payloads
register_packet-ledger sn c calls v =
    let log = set c.recv_log c.recv_idx (be32 sn) in
    ground (
      arith,
      pending-set c.recv_log c.recv_idx (be32 sn) (omega (arith, v.whole, v.room)),
      take_all recv_ack_int log
          (omega (arith, length-set c.recv_log c.recv_idx (be32 sn), v.whole)),
      append-nil (payloads calls ++ concat log),
    )

register_all-ledger :
    (sns : List ℕ) (c : Conn) (calls : List Call)
    → HasLog c
    → let (c', calls') = register_all sns c calls in
      payloads calls' ++ pending c' ≡ payloads calls ++ (pending c ++ concat (map be32 sns))
unfolding register_all
register_all-ledger [] c calls v = rw append-nil
register_all-ledger (sn ∷ sns) c calls v =
    let (c', new) = register_packet sn c in
    register_all-ledger sns c' (new ++ calls) (register_packet-HasLog sn v)
    ∙ sym (append_assoc (payloads (new ++ calls)) (pending c') (concat (map be32 sns)))
    ∙ ap (λ p. p ++ concat (map be32 sns)) (register_packet-ledger sn c calls v)
    ∙ append_assoc (payloads calls) (pending c ++ be32 sn) (concat (map be32 sns))
    ∙ ap (λ p. payloads calls ++ p) (append_assoc (pending c) (be32 sn) (concat (map be32 sns)))

register_packet-count :
    (sn : ℕ) (c : Conn) (calls : List Call)
    → HasLog c
    → let (c', new) = register_packet sn c in
      recv_ack_int * length (new ++ calls) + c'.recv_idx
      ≡ recv_ack_int * length calls + c.recv_idx + 1
unfolding register_packet
register_packet-count sn c calls v = ground arith

register_all-count :
    (sns : List ℕ) (c : Conn) (calls : List Call)
    → HasLog c
    → let (c', calls') = register_all sns c calls in
      (recv_ack_int * length calls' + c'.recv_idx
        ≡ recv_ack_int * length calls + c.recv_idx + length sns)
      × HasLog c'
unfolding register_all
register_all-count [] c calls v = (omega arith, v)
register_all-count (sn ∷ sns) c calls v =
    let (c', new) = register_packet sn c in
    let (count, kept) = register_all-count sns c' (new ++ calls) (register_packet-HasLog sn v) in
    (omega (arith, count, register_packet-count sn c calls v), kept)

-- For the data packets of a connection whose log is well formed, handled one after another: what the
-- SRTLA ACKs carry, followed by what is still pending, is what was pending before followed by every
-- packet's sequence number, once and in order of arrival; the number of ACKs is that of the full
-- tens; and the log stays well formed, so that it is never written out of bounds.
pub register_all_lem :
    (sns : List ℕ) (c : Conn)
    → HasLog c
    → let (c', acks) = register_all sns c [] in
      (payloads acks ++ pending c' ≡ pending c ++ concat (map be32 sns))
      × (recv_ack_int * length acks + c'.recv_idx ≡ c.recv_idx + length sns)
      × HasLog c'
unfolding payloads
register_all_lem sns c v = (
  register_all-ledger sns c [] v,
  omega (arith, (register_all-count sns c [] v).0),
  (register_all-count sns c [] v).1,
)
