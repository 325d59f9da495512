-- ===== src/Sender/Sound/Links.antt =====
-- The invariant over the list of links (src/srtla/srtla_send.c).
use pyle_irl.Base.{
  ℕ, zero, suc, ◌≡◌, refl, ◌∙◌, inl, inr, Bool, true, false, ◌||◌, Option, none, some, List, [],
  ◌∷◌, arith, modify, All, ◌==◌, Option-cases,
}
use pyle_irl.Receiver.Out.{keep}
use pyle_irl.Sender.Acks.{ack_found, is_found, ack_links, register_srtla_ack, register_srt_ack}
use pyle_irl.Sender.Log.{find_in_log}
use pyle_irl.Sender.Naks.{register_nak, register_naks}
use pyle_irl.Sender.Packets.{register_acks}
use pyle_irl.Sender.Select.{select_loop, select_conn}
use pyle_irl.Sender.Sound.{
  IsLink, Keeps, same-Keeps, grow_window-Keeps, ack_found-Keeps, nak_at-Keeps,
  conn_register_srt_ack-Keeps,
}
use pyle_irl.Sender.State.{Link}

-- One of the links is the struct at this address.
unfoldable pub knows : ℕ → List Link → Bool
knows n [] = false
knows n (c ∷ cs) = let rest = knows n cs in c.node == n || rest

-- All links are sound and are the same structs as before.
pub record KeepsAll (cs cs' : List Link) : Type 0 where
  pub all : All IsLink cs'
  pub same_nodes : (n : ℕ) → knows n cs' ≡ knows n cs

pub unchanged-KeepsAll : (cs : List Link) → All IsLink cs → KeepsAll cs cs
unchanged-KeepsAll cs v = record { all = v; same_nodes = λ n. refl }

pub cons-Keeps :
    {c c' : Link} {cs cs' : List Link} → Keeps c c' → KeepsAll cs cs' → KeepsAll (c ∷ cs) (c' ∷ cs')
unfolding knows
cons-Keeps k ks = record {
  all = (k.sound, ks.all);
  same_nodes = λ n. ground (arith, k.same_node, ks.same_nodes n);
}

pub then-Keeps : {cs ds es : List Link} → KeepsAll cs ds → KeepsAll ds es → KeepsAll cs es
then-Keeps j k = record { all = k.all; same_nodes = λ n. k.same_nodes n ∙ j.same_nodes n }

pub modify-Keeps :
    (i : ℕ) (f : Link → Link) (cs : List Link)
    → ((c : Link) → IsLink c → Keeps c (f c))
    → All IsLink cs
    → KeepsAll cs (modify i f cs)
modify-Keeps i f [] keep v = unchanged-KeepsAll [] tt
modify-Keeps zero f (c ∷ cs) keep v = cons-Keeps (keep c v.0) (unchanged-KeepsAll cs v.1)
modify-Keeps (suc i) f (c ∷ cs) keep v =
    cons-Keeps record { sound = v.0; same_node = refl } (modify-Keeps i f cs keep v.1)

chosen-Keeps :
    (t : ℕ) (best : Option (ℕ × ℕ)) (cs : List Link)
    → All IsLink cs
    → KeepsAll cs
        (elim best as (λ b. Option ℕ × List Link) [
          | none ↦ (none, cs)
          | some (i, m) ↦ (some i, modify i (λ (c : Link). record c { last_sent = t }) cs)
        ]).1
chosen-Keeps t none cs v = unchanged-KeepsAll cs v
chosen-Keeps t (some (i, m)) cs v =
    modify-Keeps i _ cs (λ c w. same-Keeps c _ refl refl refl refl refl refl w) v

pub select_conn-Keeps : (t : ℕ) (cs : List Link) → All IsLink cs → KeepsAll cs (select_conn t cs).1
unfolding select_conn
select_conn-Keeps t cs v = chosen-Keeps t (select_loop t cs 0 none) cs v

pub ack_links-Keeps :
    (p : ℕ) (found : Bool) (cs : List Link) → All IsLink cs → KeepsAll cs (ack_links p found cs)
unfolding ack_links
ack_links-Keeps p true [] v = unchanged-KeepsAll [] tt
ack_links-Keeps p false [] v = unchanged-KeepsAll [] tt
ack_links-Keeps p true (c ∷ cs) v =
    cons-Keeps (grow_window-Keeps c v.0) (ack_links-Keeps p true cs v.1)
ack_links-Keeps p false (c ∷ cs) v =
    let hit = find_in_log p c in
    let acked = ack_found-Keeps hit c v.0 in
    let grown = grow_window-Keeps (ack_found hit c) acked.sound in
    cons-Keeps record { sound = grown.sound; same_node = grown.same_node ∙ acked.same_node }
      (ack_links-Keeps p (is_found hit) cs v.1)

pub register_acks-Keeps :
    (ps : List ℕ) (cs : List Link) → All IsLink cs → KeepsAll cs (register_acks ps cs)
unfolding register_acks register_srtla_ack
register_acks-Keeps [] cs v = unchanged-KeepsAll cs v
register_acks-Keeps (p ∷ ps) cs v =
    let first = ack_links-Keeps p false cs v in
    then-Keeps first (register_acks-Keeps ps (ack_links p false cs) first.all)

register_nak-Keeps : (p : ℕ) (cs : List Link) → All IsLink cs → KeepsAll cs (register_nak p cs)
unfolding register_nak
register_nak-Keeps p [] v = unchanged-KeepsAll [] tt
register_nak-Keeps p (c ∷ cs) v = elim (Option-cases (find_in_log p c)) [
  | inl e ↦
      rw (e, register_nak)
        (cons-Keeps record { sound = v.0; same_node = refl } (register_nak-Keeps p cs v.1))
  | inr (i, e) ↦
      rw (e, register_nak) (cons-Keeps (nak_at-Keeps i c v.0) (unchanged-KeepsAll cs v.1))
]

pub register_naks-Keeps :
    (ps : List ℕ) (cs : List Link) → All IsLink cs → KeepsAll cs (register_naks ps cs)
unfolding register_naks
register_naks-Keeps [] cs v = unchanged-KeepsAll cs v
register_naks-Keeps (p ∷ ps) cs v =
    let first = register_nak-Keeps p cs v in
    then-Keeps first (register_naks-Keeps ps (register_nak p cs) first.all)

pub register_srt_ack-Keeps :
    (p : ℕ) (cs : List Link) → All IsLink cs → KeepsAll cs (register_srt_ack p cs)
unfolding register_srt_ack
register_srt_ack-Keeps p [] v = unchanged-KeepsAll [] tt
register_srt_ack-Keeps p (c ∷ cs) v =
    cons-Keeps (conn_register_srt_ack-Keeps p c v.0) (register_srt_ack-Keeps p cs v.1)
