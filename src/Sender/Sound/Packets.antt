-- ===== src/Sender/Sound/Packets.antt =====
-- The invariant of the sender (src/srtla/srtla_send.c), and that the handlers of packets keep it.
use mathlib.Core.Option.{some-injective, none-ne-some}
use pyle_irl.Base.{
  ℕ, zero, suc, ◌≡◌, refl, sym, subst, ◌∙◌, ◌⊎◌, inl, inr, Bool, true, false, Option, none, some,
  List, [], ◌∷◌, ◌++◌, arith, get_elem?, drop, modify, All, ◌==◌, if◌then◌else◌, Option-cases,
}
use pyle_irl.Sender.Naks.{register_naks}
use pyle_irl.Sender.Packets.{handle_srtla_data, on_reg_ngp, on_reg2, to_srt, on_srt_nak, on_type}
use pyle_irl.Sender.Select.{handle_srt_data, select_conn, forward_on}
use pyle_irl.Sender.Sound.{IsLink, same-Keeps, forward_on-Keeps}
use pyle_irl.Sender.Sound.Links.{
  knows, KeepsAll, unchanged-KeepsAll, then-Keeps, modify-Keeps, select_conn-Keeps,
  register_acks-Keeps, register_naks-Keeps, register_srt_ack-Keeps,
}
use pyle_irl.Sender.State.{registered_link, Link, Sender, link_packet}
use pyle_irl.Wire.{
  Bytes, srt_type_ack, srt_type_nak, srtla_type_keepalive, srtla_type_ack, srtla_type_reg3, word_at,
  words_of,
}

-- The links are sound, and `pending_reg2_conn` is one of them or NULL.
pub record IsSound (s : Sender) : Type 0 where
  pub sound_links : All IsLink s.links
  pub live : (n : ℕ) → s.pending_reg2_conn ≡ some n → knows n s.links ≡ true

-- A step that keeps the links and either keeps the pending link or drops it.
pub kept-IsSound :
    (s s' : Sender)
    → KeepsAll s.links s'.links
    → (s'.pending_reg2_conn ≡ s.pending_reg2_conn) ⊎ (s'.pending_reg2_conn ≡ none)
    → IsSound s
    → IsSound s'
kept-IsSound s s' k (inl e) v = record {
  sound_links = k.all;
  live = λ n h. k.same_nodes n ∙ v.live n (sym e ∙ h);
}
kept-IsSound s s' k (inr e) v = record {
  sound_links = k.all;
  live = λ n h. absurd (none-ne-some n (sym e ∙ h));
}

sent_on-IsSound :
    (sent : Bool) (buf from : Bytes) (s : Sender) (chosen : Option ℕ) (cs : List Link)
    → KeepsAll s.links cs
    → IsSound s
    → IsSound (elim chosen [
      | none ↦ record s { srt_addr = from; links = cs }
      | some i ↦ record s {
        srt_addr = from;
        links = modify i (forward_on sent buf) cs;
        actions =
            (elim (get_elem? cs i) [ none ↦ [] | some c ↦ link_packet s.srtla_addr buf c ])
            ++ s.actions;
      }
    ])
sent_on-IsSound sent buf from s none cs k v = kept-IsSound s _ k (inl refl) v
sent_on-IsSound sent buf from s (some i) cs k v =
    kept-IsSound s _
      (then-Keeps k (modify-Keeps i (forward_on sent buf) cs (forward_on-Keeps sent buf) k.all))
      (inl refl) v

pub handle_srt_data-IsSound :
    (t : ℕ) (sent : Bool) (read : Option Bytes) (from : Bytes) (s : Sender)
    → IsSound s
    → IsSound (handle_srt_data t sent read from s)
unfolding handle_srt_data
handle_srt_data-IsSound t sent none from s v =
    kept-IsSound s _ (select_conn-Keeps t s.links v.sound_links) (inl refl) v
handle_srt_data-IsSound t sent (some buf) from s v =
    sent_on-IsSound sent buf from s (select_conn t s.links).0 (select_conn t s.links).1
      (select_conn-Keeps t s.links v.sound_links) v

-- A link of the list is known by its node.
get-knows : (i : ℕ) (c : Link) (cs : List Link) → get_elem? cs i ≡ some c → knows c.node cs ≡ true
unfolding knows
get-knows i c [] e = absurd (none-ne-some c e)
get-knows zero c (d ∷ cs) e = ground arith
get-knows (suc i) c (d ∷ cs) e = ground (arith, get-knows i c cs e)

if-IsSound : (t : Bool) {a b : Sender} → IsSound a → IsSound b → IsSound (if t then a else b)
if-IsSound true v w = v
if-IsSound false v w = w

pub same_links-IsSound :
    (s s' : Sender)
    → s'.links ≡ s.links
    → (s'.pending_reg2_conn ≡ s.pending_reg2_conn) ⊎ (s'.pending_reg2_conn ≡ none)
    → IsSound s
    → IsSound s'
same_links-IsSound s s' e p v =
    kept-IsSound s s' (subst (KeepsAll s.links) (sym e) (unchanged-KeepsAll s.links v.sound_links))
      p v

on_reg_ngp-IsSound :
    (ts : ℕ) (sent : Bool) (c : Link) (s : Sender)
    → knows c.node s.links ≡ true
    → IsSound s
    → IsSound (on_reg_ngp ts sent c s)
unfolding on_reg_ngp
on_reg_ngp-IsSound ts sent c s k v =
    if-IsSound _
      (if-IsSound _
        record {
          sound_links = v.sound_links;
          live = λ n e. subst (λ m. knows m s.links ≡ true) (some-injective _ _ e) k;
        }
        (same_links-IsSound s _ refl (inl refl) v))
      v

on_reg2-IsSound :
    (ts : ℕ) (memory : Bytes) (c : Link) (s : Sender) → IsSound s → IsSound (on_reg2 ts memory c s)
unfolding on_reg2
on_reg2-IsSound ts memory c s v =
    if-IsSound _ (if-IsSound _ (same_links-IsSound s _ refl (inr refl) v) v) v

-- If the handler comes back, then with a sound sender.
pub record Returns (r : Option Sender) : Type 0 where
  pub result : (s : Sender) → r ≡ some s → IsSound s

pub some-Returns : {s : Sender} → IsSound s → Returns (some s)
some-Returns v = record { result = λ s e. subst IsSound (some-injective _ _ e) v }

pub none-Returns : Returns none
none-Returns = record { result = λ s e. absurd (none-ne-some s e) }

if-Returns : (t : Bool) {a b : Option Sender} → Returns a → Returns b → Returns (if t then a else b)
if-Returns true v w = v
if-Returns false v w = w

naks-Returns :
    (buf : Bytes) (ps : Option (List ℕ)) (s : Sender)
    → IsSound s
    → Returns (elim ps [
      | none ↦ none
      | some qs ↦ some (to_srt buf (record s { links = register_naks qs s.links }))
    ])
naks-Returns buf none s v = none-Returns
naks-Returns buf (some qs) s v =
    some-Returns (kept-IsSound s _ (register_naks-Keeps qs s.links v.sound_links) (inl refl) v)

on_type-Returns :
    (type : ℕ) (buf behind : Bytes) (i : ℕ) (s : Sender)
    → IsSound s
    → Returns (on_type type buf behind i s)
unfolding on_type on_srt_nak
on_type-Returns type buf behind i s v =
    let acked = register_srt_ack-Keeps (word_at (drop 16 (buf ++ behind))) s.links v.sound_links in
    let links = register_acks-Keeps (drop 1 (words_of buf)) s.links v.sound_links in
    let marked =
      modify-Keeps i _ s.links
        (λ c w.
          same-Keeps c (record c { cstate = registered_link }) refl refl refl refl refl refl w)
        v.sound_links in
    if-Returns (type == srt_type_ack) (some-Returns (kept-IsSound s _ acked (inl refl) v)) (
      if-Returns (type == srt_type_nak) (naks-Returns buf _ s v) (
        if-Returns (type == srtla_type_ack) (some-Returns (kept-IsSound s _ links (inl refl) v)) (
          if-Returns (type == srtla_type_keepalive) (some-Returns v) (
            if-Returns (type == srtla_type_reg3)
              (some-Returns (kept-IsSound s _ marked (inl refl) v))
              (some-Returns (same_links-IsSound s _ refl (inl refl) v))))))

at_link-Returns :
    (ts : ℕ) (sent : Bool) (b : ℕ) (bs behind : Bytes) (i : ℕ) (s : Sender) (c : Link)
    → get_elem? s.links i ≡ some c
    → IsSound s
    → Returns (handle_srtla_data ts sent (b ∷ bs) behind i s)
unfolding handle_srtla_data
at_link-Returns ts sent b bs behind i s c e v =
    let heard =
      modify-Keeps i _ s.links
        (λ l w. same-Keeps l (record l { last_rcvd = ts }) refl refl refl refl refl refl w)
        v.sound_links in
    rw (e, handle_srtla_data)
      (if-Returns _ (some-Returns (on_reg_ngp-IsSound ts sent c s (get-knows i c s.links e) v)) (
        if-Returns _ (some-Returns (on_reg2-IsSound ts _ c s v))
          (on_type-Returns _ (b ∷ bs) behind i _ (kept-IsSound s _ heard (inl refl) v))))

pub handle_srtla_data-Returns :
    (ts : ℕ) (sent : Bool) (buf behind : Bytes) (i : ℕ) (s : Sender)
    → IsSound s
    → Returns (handle_srtla_data ts sent buf behind i s)
unfolding handle_srtla_data
handle_srtla_data-Returns ts sent [] behind i s v = some-Returns v
handle_srtla_data-Returns ts sent (b ∷ bs) behind i s v =
    elim (Option-cases (get_elem? s.links i)) [
      | inl e ↦ rw (e, handle_srtla_data) (some-Returns v)
      | inr (c, e) ↦ at_link-Returns ts sent b bs behind i s c e v
    ]
