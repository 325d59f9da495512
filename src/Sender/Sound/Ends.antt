-- ===== src/Sender/Sound/Ends.antt =====
-- The handlers of packets of the sender (src/srtla/srtla_send.c) come back.
use pyle_irl.Base.{
  ℕ, ◌-◌, ◌*◌, ◌/◌, ◌^◌, ◌<◌, ◌≡◌, refl, inl, inr, Bool, true, false, Option, none, some, List, [],
  ◌∷◌, ◌++◌, arith, length, get_elem?, drop, All, All-drop, ltb, ◌==◌, if◌then◌else◌, ==_iff,
  Option-cases, is_none,
}
use pyle_irl.Sender.Naks.{register_naks, append_naks, nak_range, nak_pkts}
use pyle_irl.Sender.Naks.Loop.{nak_range-count_up}
use pyle_irl.Sender.Packets.{handle_srtla_data, to_srt, on_srt_nak, on_type}
use pyle_irl.Sender.Packets.Reports.{heard_from, word_after}
use pyle_irl.Sender.State.{no_pkt, Sender}
use pyle_irl.Wire.{
  Bytes, srt_type_ack, srt_type_nak, srtla_type_keepalive, srtla_type_ack, srtla_type_reg2,
  srtla_type_reg3, srtla_type_reg_ngp, word_at, words_of, get_srt_type,
}

-- The packet is no loss report, or none of its words, nor the one behind them, is 0xFFFFFFFF.
pub record Harmless (buf behind : Bytes) : Type 0 where
  pub in_report :
      get_srt_type buf ≡ srt_type_nak
      → All (λ (w : ℕ). (w == no_pkt) ≡ false) (drop 4 (words_of buf))
        × ((word_after buf behind == no_pkt) ≡ false)

pub record Ends {A : Type 0} (r : Option A) : Type 0 where
  pub ends : is_none r ≡ false

if-Ends :
    {A : Type 0} (t : Bool) {a b : Option A}
    → (t ≡ true → Ends a)
    → (t ≡ false → Ends b)
    → Ends (if t then a else b)
if-Ends true x y = x refl
if-Ends false x y = y refl

pub some-Ends : {A : Type 0} {a : A} → Ends (some a)
some-Ends = record { ends = refl }

append_naks-Ends : (ps qs : Option (List ℕ)) → Ends ps → Ends qs → Ends (append_naks ps qs)
append_naks-Ends none qs x y = absurd (ground (arith, x.ends))
append_naks-Ends (some ps) none x y = absurd (ground (arith, y.ends))
append_naks-Ends (some ps) (some qs) x y = some-Ends

nak_range-Ends :
    (first last : ℕ) → last < 2 ^ 32 → (last == no_pkt) ≡ false → Ends (nak_range first last)
nak_range-Ends first last small h =
    rw (nak_range-count_up first last (ground (arith, small, h))) some-Ends

nak_pkts-Ends :
    (ws : List ℕ) (behind : ℕ)
    → All (λ (w : ℕ). w < 2 ^ 32) ws
    → behind < 2 ^ 32
    → All (λ (w : ℕ). (w == no_pkt) ≡ false) ws
    → (behind == no_pkt) ≡ false
    → Ends (nak_pkts ws behind)
unfolding nak_pkts
nak_pkts-Ends [] behind u k v h = some-Ends
nak_pkts-Ends (w ∷ []) behind u k v h =
    if-Ends (ltb w (2 ^ 31)) (λ e. some-Ends) (λ e. nak_range-Ends (w - 2 ^ 31) behind k h)
nak_pkts-Ends (w ∷ x ∷ ws) behind u k v h =
    if-Ends (ltb w (2 ^ 31))
      (λ e.
        append_naks-Ends (some (w ∷ [])) _ some-Ends (nak_pkts-Ends (x ∷ ws) behind u.1 k v.1 h))
      (λ e.
        append_naks-Ends _ _ (nak_range-Ends (w - 2 ^ 31) x u.1.0 v.1.0)
          (nak_pkts-Ends ws behind u.1.1 k v.1.1 h))

words_of-bounds : (buf : Bytes) → All (λ (w : ℕ). w < 2 ^ 32) (words_of buf)
words_of-bounds (a ∷ b ∷ c ∷ d ∷ rest) = (omega arith, words_of-bounds rest)
words_of-bounds (a ∷ b ∷ c ∷ []) = tt
words_of-bounds (a ∷ b ∷ []) = tt
words_of-bounds (a ∷ []) = tt
words_of-bounds [] = tt

word_at-bounds : (buf : Bytes) → word_at buf < 2 ^ 32
word_at-bounds (a ∷ b ∷ c ∷ d ∷ rest) = omega arith
word_at-bounds (a ∷ b ∷ c ∷ []) = omega arith
word_at-bounds (a ∷ b ∷ []) = omega arith
word_at-bounds (a ∷ []) = omega arith
word_at-bounds [] = omega arith

found-Ends :
    (buf : Bytes) (ps : Option (List ℕ)) (s : Sender)
    → Ends ps
    → Ends (elim ps as (λ x. Option Sender) [
      | none ↦ none
      | some qs ↦ some (to_srt buf (record s { links = register_naks qs s.links }))
    ])
found-Ends buf none s x = absurd (ground (arith, x.ends))
found-Ends buf (some qs) s x = some-Ends

on_type-Ends :
    (buf behind : Bytes) (i : ℕ) (s : Sender)
    → Harmless buf behind
    → Ends (on_type (get_srt_type buf) buf behind i s)
unfolding on_type on_srt_nak
on_type-Ends buf behind i s v =
    let type = get_srt_type buf in
    if-Ends (type == srt_type_ack) (λ e. some-Ends)
      (λ e.
        if-Ends (type == srt_type_nak)
          (λ n.
            let (words, after) = v.in_report ((==_iff type srt_type_nak).0 n) in
            found-Ends buf _ s (
              nak_pkts-Ends (drop 4 (words_of buf)) _
                (All-drop (λ (w : ℕ). w < 2 ^ 32) 4 (words_of buf) (words_of-bounds buf))
                (word_at-bounds (drop (length buf / 4 * 4) (buf ++ behind))) words after))
          (λ n.
            if-Ends (type == srtla_type_ack) (λ e. some-Ends)
              (λ e.
                if-Ends (type == srtla_type_keepalive) (λ e. some-Ends)
                  (λ e. if-Ends (type == srtla_type_reg3) (λ e. some-Ends) (λ e. some-Ends)))))

pub handle_srtla_data-Ends :
    (ts : ℕ) (sent : Bool) (buf behind : Bytes) (i : ℕ) (s : Sender)
    → Harmless buf behind
    → Ends (handle_srtla_data ts sent buf behind i s)
unfolding handle_srtla_data
handle_srtla_data-Ends ts sent [] behind i s v = some-Ends
handle_srtla_data-Ends ts sent (b ∷ bs) behind i s v = elim (Option-cases (get_elem? s.links i)) [
  | inl e ↦ rw (e, handle_srtla_data) some-Ends
  | inr (c, e) ↦
      let type = get_srt_type (b ∷ bs) in
      rw (e, handle_srtla_data)
        (if-Ends (type == srtla_type_reg_ngp) (λ e. some-Ends)
          (λ e.
            if-Ends (type == srtla_type_reg2) (λ e. some-Ends)
              (λ e. on_type-Ends (b ∷ bs) behind i (heard_from ts i s) v)))
]
