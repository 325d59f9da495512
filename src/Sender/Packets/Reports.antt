-- ===== src/Sender/Packets/Reports.antt =====
-- What a sender does with a loss report and with an SRTLA ACK (src/srtla/srtla_send.c).
use mathlib.Core.Option
use pyle_irl.Base.{
  ℕ, ◌+◌, ◌*◌, ◌/◌, ◌^◌, ◌<◌, ◌≡◌, refl, ap, ◌∙◌, Bool, false, Option, none, some, List, [], ◌∷◌,
  ◌++◌, map, arith, length, get_elem?, drop, modify, concat, All, ◌==◌,
}
use pyle_irl.Receiver.Ack.{ack_packet}
use pyle_irl.Sender.Naks.{register_naks, nak_loop, nak_pkts}
use pyle_irl.Sender.Naks.Loop.{nak_loop-endless}
use pyle_irl.Sender.Naks.Report.{
  Loss, IsLoss, loss_words, losses, nak_pkts-loss_words, endless_range,
}
use pyle_irl.Sender.Packets.{handle_srtla_data, register_acks, to_srt, on_srt_nak, on_type}
use pyle_irl.Sender.State.{no_pkt, Link, Sender}
use pyle_irl.Wire.{
  Bytes, srt_type_nak, srtla_type_ack, srtla_type_reg2, srtla_type_reg_ngp, be32, word_at, words_of,
  get_srt_type,
}
use pyle_irl.Wire.Codec.{get_srt_type-be16}

-- The sender in which the link at this index was heard of.
abbrev pub heard_from : ℕ → ℕ → Sender → Sender
heard_from ts i s = record s { links = modify i (λ l. record l { last_rcvd = ts }) s.links }

-- A packet of another kind than a registration, on a link that there is.
data_packet-on_type :
    (ts : ℕ) (sent : Bool) (buf behind : Bytes) (i : ℕ) (s : Sender) (c : Link)
    → get_elem? s.links i ≡ some c
    → 0 < length buf
    → (get_srt_type buf == srtla_type_reg_ngp) ≡ false
    → (get_srt_type buf == srtla_type_reg2) ≡ false
    → handle_srtla_data ts sent buf behind i s
      ≡ on_type (get_srt_type buf) buf behind i (heard_from ts i s)
unfolding handle_srtla_data
data_packet-on_type ts sent [] behind i s c e l f g = absurd (omega arith)
data_packet-on_type ts sent (b ∷ bs) behind i s c e l f g =
    rw (e, handle_srtla_data) (rw (f, g) refl)

-- The word behind the whole words of a packet.
abbrev pub word_after : Bytes → Bytes → ℕ
word_after buf behind = word_at (drop (length buf / 4 * 4) (buf ++ behind))

with_naks :
    (buf : Bytes) (s : Sender) (ps : Option (List ℕ))
    → (elim ps as (λ x. Option Sender) [
      | none ↦ none
      | some qs ↦ some (to_srt buf (record s { links = register_naks qs s.links }))
    ])
      ≡ Option.map (λ qs. to_srt buf (record s { links = register_naks qs s.links })) ps
with_naks buf s none = refl
with_naks buf s (some qs) = refl

on_nak :
    (buf behind : Bytes) (i : ℕ) (s : Sender) (ps : Option (List ℕ))
    → nak_pkts (drop 4 (words_of buf)) (word_after buf behind) ≡ ps
    → on_type srt_type_nak buf behind i s
      ≡ Option.map (λ qs. to_srt buf (record s { links = register_naks qs s.links })) ps
unfolding on_type on_srt_nak
on_nak buf behind i s ps e =
    with_naks buf s (nak_pkts (drop 4 (words_of buf)) (word_after buf behind))
    ∙ ap (Option.map (λ qs. to_srt buf (record s { links = register_naks qs s.links }))) e

nak-on_type :
    (ts : ℕ) (sent : Bool) (buf behind : Bytes) (i : ℕ) (s : Sender) (c : Link)
    → get_elem? s.links i ≡ some c
    → 0 < length buf
    → get_srt_type buf ≡ srt_type_nak
    → handle_srtla_data ts sent buf behind i s
      ≡ on_type srt_type_nak buf behind i (heard_from ts i s)
nak-on_type ts sent buf behind i s c e l t =
    data_packet-on_type ts sent buf behind i s c e l (ap (λ n. n == srtla_type_reg_ngp) t)
      (ap (λ n. n == srtla_type_reg2) t)
    ∙ ap (λ n. on_type n buf behind i (heard_from ts i s)) t

-- A loss report on a link that there is, its words as SRT writes them: the handler comes back, the
-- packets that it registers as lost are exactly those that the report names, in its order, whatever
-- lies behind the packet in memory, and the report goes on to the SRT caller.
pub handle_srtla_data-losses :
    (ts : ℕ) (sent : Bool) (buf behind : Bytes) (i : ℕ) (s : Sender) (c : Link) (ls : List Loss)
    → get_elem? s.links i ≡ some c
    → 0 < length buf
    → get_srt_type buf ≡ srt_type_nak
    → drop 4 (words_of buf) ≡ loss_words ls
    → All IsLoss ls
    → let heard = heard_from ts i s in
      handle_srtla_data ts sent buf behind i s
      ≡ some (to_srt buf (record heard { links = register_naks (losses ls) heard.links }))
handle_srtla_data-losses ts sent buf behind i s c ls e l t w v =
    nak-on_type ts sent buf behind i s c e l t
    ∙ on_nak buf behind i (heard_from ts i s) (some (losses ls)) (
        ap (λ ws. nak_pkts ws (word_after buf behind)) w
        ∙ nak_pkts-loss_words ls (word_after buf behind) v)

-- A loss report in which a range from the packet `a` ends at 0xFFFFFFFF, behind any other losses, on a
-- link that there is: the loop over the range has not ended after any number of tests, and the handler
-- does not come back, whatever follows the range.
pub endless_report :
    (ts : ℕ) (sent : Bool) (buf behind : Bytes) (i : ℕ) (s : Sender) (c : Link) (ls : List Loss)
    (a : ℕ) (ws : List ℕ)
    → get_elem? s.links i ≡ some c
    → 0 < length buf
    → get_srt_type buf ≡ srt_type_nak
    → drop 4 (words_of buf) ≡ loss_words ls ++ ((a + 2 ^ 31) ∷ no_pkt ∷ ws)
    → All IsLoss ls
    → a < 2 ^ 31
    → ((tests : ℕ) → nak_loop tests a no_pkt ≡ none)
      × (handle_srtla_data ts sent buf behind i s ≡ none)
endless_report ts sent buf behind i s c ls a ws e l t w v h = (
  λ tests. nak_loop-endless tests a (omega (arith, h)),
  nak-on_type ts sent buf behind i s c e l t
      ∙ on_nak buf behind i (heard_from ts i s) none (
          ap (λ us. nak_pkts us (word_after buf behind)) w
          ∙ endless_range ls a (word_after buf behind) ws v h),
)

words_of-be32 : (w : ℕ) (rest : Bytes) → w < 2 ^ 32 → words_of (be32 w ++ rest) ≡ w ∷ words_of rest
words_of-be32 w rest h = ap (λ v. v ∷ words_of rest) (omega arith)

words_of-numbers : (ws : List ℕ) → All (λ w. w < 2 ^ 32) ws → words_of (concat (map be32 ws)) ≡ ws
words_of-numbers [] v = refl
words_of-numbers (w ∷ ws) v =
    words_of-be32 w (concat (map be32 ws)) v.0 ∙ ap (λ vs. w ∷ vs) (words_of-numbers ws v.1)

-- An SRTLA ACK that the receiver sends for the packets it has logged, on a link of the sender: exactly
-- these packets, in the order of their arrival at the receiver, are acknowledged in the sender's logs,
-- and nothing goes on to the SRT caller.
pub ack_packet-register_acks :
    (ts : ℕ) (sent : Bool) (sns : List ℕ) (behind : Bytes) (i : ℕ) (s : Sender) (c : Link)
    → get_elem? s.links i ≡ some c
    → All (λ sn. sn < 2 ^ 32) sns
    → let heard = heard_from ts i s in
      handle_srtla_data ts sent (ack_packet (map be32 sns)) behind i s
      ≡ some (record heard { links = register_acks sns heard.links })
unfolding on_type
ack_packet-register_acks ts sent sns behind i s c e v =
    let buf = ack_packet (map be32 sns) in
    let type : get_srt_type buf ≡ srtla_type_ack =
      get_srt_type-be16 srtla_type_ack _ (omega arith) in
    data_packet-on_type ts sent buf behind i s c e (omega arith)
      (ap (λ n. n == srtla_type_reg_ngp) type) (ap (λ n. n == srtla_type_reg2) type)
    ∙ ap (λ n. on_type n buf behind i (heard_from ts i s)) type
    ∙ ap
        (λ ws.
          some (record (heard_from ts i s) { links = register_acks ws (heard_from ts i s).links }))
        (words_of-numbers sns v)
