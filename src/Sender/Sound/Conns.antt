-- ===== src/Sender/Sound/Conns.antt =====
-- The update of the list of links (src/srtla/srtla_send.c) keeps the invariant of the sender.
use mathlib.Core.Option.{some-injective, none-ne-some}
use pyle_irl.Base.{
  ℕ, ◌≡◌, refl, subst, ◌∙◌, inl, inr, Bool, true, false, Option, none, some, List, [], ◌∷◌, ◌++◌,
  arith, modify, All, ◌==◌, if◌then◌else◌, Bool-cases, Option-cases,
}
use pyle_irl.Receiver.Compare.{same}
use pyle_irl.Sender.Conns.{
  Line, conn_find_by_src, setup_line, setup_conns, mark_removed, Pruned, prune, update_conns,
}
use pyle_irl.Sender.Sockets.{close_link}
use pyle_irl.Sender.Sound.{IsLink, same-Keeps}
use pyle_irl.Sender.Sound.Links.{knows, KeepsAll, unchanged-KeepsAll, cons-Keeps, modify-Keeps}
use pyle_irl.Sender.Sound.Packets.{IsSound}
use pyle_irl.Sender.State.{Link, new_link, Action, Sender, is_pending}
use pyle_irl.Wire.{Bytes}

-- A new link is sound, and in front of the others hides none of them.
new_link-IsLink : (node : ℕ) (src : Bytes) → IsLink (new_link node src)
new_link-IsLink node src = record {
  log = record { room = omega arith; whole = refl };
  open_window = omega arith;
  few_attempts = omega arith;
  short_delay = omega arith;
}

-- The links are sound, and all of the structs before are still there.
record Grows (cs cs' : List Link) : Type 0 where
  all : All IsLink cs'
  nodes : (n : ℕ) → knows n cs ≡ true → knows n cs' ≡ true

keeps-Grows : {cs cs' : List Link} → KeepsAll cs cs' → Grows cs cs'
keeps-Grows k = record { all = k.all; nodes = λ n h. k.same_nodes n ∙ h }

then-Grows : {cs ds es : List Link} → Grows cs ds → Grows ds es → Grows cs es
then-Grows g h = record { all = h.all; nodes = λ n e. h.nodes n (g.nodes n e) }

found-Grows :
    (node : ℕ) (src : Bytes) (place : Option ℕ) (cs : List Link)
    → All IsLink cs
    → Grows cs
        (elim place as (λ p. List Link × ℕ) [
          | none ↦ (new_link node src ∷ cs, 1)
          | some i ↦ (modify i (λ (c : Link). record c { removed = false }) cs, 0)
        ]).0
unfolding knows
found-Grows node src none cs v = record {
  all = (new_link-IsLink node src, v);
  nodes = λ n h. ground arith;
}
found-Grows node src (some i) cs v = keeps-Grows (
    modify-Keeps i _ cs
      (λ c w. same-Keeps c (record c { removed = false }) refl refl refl refl refl refl w) v)

setup_line-Grows : (l : Line) (cs : List Link) → All IsLink cs → Grows cs (setup_line l cs).0
unfolding setup_line
setup_line-Grows l cs v = elim (Option-cases l.address) [
  | inl e ↦ rw (e, setup_line) (keeps-Grows (unchanged-KeepsAll cs v))
  | inr (src, e) ↦ rw (e, setup_line) (found-Grows l.node src (conn_find_by_src src cs) cs v)
]

setup_conns-Grows :
    (ls : List Line) (cs : List Link) → All IsLink cs → Grows cs (setup_conns ls cs).0
unfolding setup_conns
setup_conns-Grows [] cs v = keeps-Grows (unchanged-KeepsAll cs v)
setup_conns-Grows (l ∷ ls) cs v =
    let first = setup_line-Grows l cs v in
    then-Grows first (setup_conns-Grows ls (setup_line l cs).0 first.all)

mark_removed-Keeps : (cs : List Link) → All IsLink cs → KeepsAll cs (mark_removed cs)
mark_removed-Keeps [] v = unchanged-KeepsAll [] tt
mark_removed-Keeps (c ∷ cs) v =
    cons-Keeps (same-Keeps c (record c { removed = true }) refl refl refl refl refl refl v.0)
      (mark_removed-Keeps cs v.1)

-- The links that stay are sound, and the pending link, if one is left, is the one before and stays.
record Prunes (cs : List Link) (wait : Option ℕ) (r : Pruned) : Type 0 where
  all : All IsLink r.links
  wait_left :
      (n : ℕ)
      → r.pending_conn ≡ some n
      → (wait ≡ some n) × (knows n cs ≡ true → knows n r.links ≡ true)

-- The pending link is not the one that is removed.
other_pending :
    (wait : Option ℕ) (n : ℕ) (c : Link)
    → (if is_pending wait c then none else wait) ≡ some n
    → (wait ≡ some n) × ((c.node == n) ≡ false)
other_pending none n c e = absurd (none-ne-some n e)
other_pending (some m) n c e = elim (Bool-cases (c.node == m)) [
  | inl h ↦ absurd (ground arith)
  | inr h ↦
      let left : some m ≡ some n = ground arith in
      (left, subst (λ k. (c.node == k) ≡ false) (some-injective _ _ left) h)
]

removed-Prunes :
    (c : Link) (cs : List Link) (wait : Option ℕ) (r : Pruned)
    → Prunes cs (if is_pending wait c then none else wait) r
    → Prunes (c ∷ cs) wait r
unfolding knows
removed-Prunes c cs wait r x = record {
  all = x.all;
  wait_left = λ n e.
      let (left, stays) = x.wait_left n e in
      let (same, other) = other_pending wait n c left in (same, λ h. stays (rw other at h));
}

stays-Prunes :
    (c : Link) (cs : List Link) (wait : Option ℕ) (r : Pruned)
    → IsLink c
    → Prunes cs wait r
    → Prunes (c ∷ cs) wait (record r { links = c ∷ r.links })
unfolding knows
stays-Prunes c cs wait r v x = record {
  all = (v, x.all);
  wait_left = λ n e. let (left, stays) = x.wait_left n e in (left, λ h. ground (arith, stays));
}

if-Prunes :
    (t : Bool) {cs : List Link} {wait : Option ℕ} {a b : Pruned}
    → Prunes cs wait a
    → Prunes cs wait b
    → Prunes cs wait (if t then a else b)
if-Prunes true x y = x
if-Prunes false x y = y

prune-Prunes :
    (cs : List Link) (wait : Option ℕ) (fds : List ℕ) (actions : List Action)
    → All IsLink cs
    → Prunes cs wait (prune cs wait fds actions)
unfolding prune
prune-Prunes [] wait fds actions v = record { all = tt; wait_left = λ n e. (e, λ h. h) }
prune-Prunes (c ∷ cs) wait fds actions v =
    let r = close_link fds c in
    let wait' = if is_pending wait c then none else wait in
    if-Prunes c.removed
      (removed-Prunes c cs wait _ (prune-Prunes cs wait' r.fds (r.actions ++ actions) v.1))
      (stays-Prunes c cs wait _ v.0 (prune-Prunes cs wait fds actions v.1))

pub update_conns-IsSound : (ls : List Line) (s : Sender) → IsSound s → IsSound (update_conns ls s)
unfolding update_conns
update_conns-IsSound ls s v =
    let marked = mark_removed s.links in
    let cs = (setup_conns ls marked).0 in
    let grown =
      then-Grows (keeps-Grows (mark_removed-Keeps s.links v.sound_links))
        (setup_conns-Grows ls marked (mark_removed-Keeps s.links v.sound_links).all) in
    let left = prune-Prunes cs s.pending_reg2_conn s.active_fds s.actions grown.all in
    record {
      sound_links = left.all;
      live = λ n e. let (same, stays) = left.wait_left n e in stays (grown.nodes n (v.live n same));
    }
