-- ===== src/Sender/Sound/Housekeeping.antt =====
-- Housekeeping and the rounds of the main loop (src/srtla/srtla_send.c) keep the invariant of the
-- sender.
use pyle_irl.Base.{
  ℕ, suc, ◌+◌, ◌/◌, ◌≡◌, refl, ◌∙◌, inl, Bool, true, false, Option, none, some, List, [], ◌∷◌, ◌++◌,
  arith, All, ltb, ◌==◌, if◌then◌else◌, is_none,
}
use pyle_irl.Sender.Housekeeping.{
  housekeeping_int, Upkeep, keep_link, Kept, house_link, house_links, Outcome, continues, exited,
  next_addr, check_failed, expire_pending, run_housekeeping, connection_housekeeping,
}
use pyle_irl.Sender.Sockets.{
  Opening, not_made, refused, opened, remove_active_fd, Opened, close_link, open_socket,
}
use pyle_irl.Sender.Sound.{IsLink, Keeps, same-Keeps, fail_link-Keeps, retry_registration-Keeps}
use pyle_irl.Sender.Sound.Links.{KeepsAll, unchanged-KeepsAll, cons-Keeps}
use pyle_irl.Sender.Sound.Packets.{IsSound, same_links-IsSound}
use pyle_irl.Sender.State.{global_timeout_ms, Link, Action, close_fd, Sender, link_timed_out}
use pyle_irl.Wire.{Bytes}

closed-Keeps :
    (o : Option ℕ) (fds : List ℕ) (c : Link)
    → IsLink c
    → Keeps c
        (elim o as (λ x. Opened) [
          | none ↦ record { link = c; fds = fds; actions = [] }
          | some fd ↦ record {
            link = record c { fd = none };
            fds = remove_active_fd fd fds;
            actions = close_fd fd ∷ [];
          }
        ]).link
closed-Keeps none fds c v = record { sound = v; same_node = refl }
closed-Keeps (some fd) fds c v =
    same-Keeps c (record c { fd = none }) refl refl refl refl refl refl v

close_link-Keeps : (fds : List ℕ) (c : Link) → IsLink c → Keeps c (close_link fds c).link
unfolding close_link
close_link-Keeps fds c v = closed-Keeps c.fd fds c v

open_socket-Keeps :
    (o : Opening) (fds : List ℕ) (c : Link) → IsLink c → Keeps c (open_socket o fds c).link
unfolding open_socket
open_socket-Keeps not_made fds c v = close_link-Keeps fds c v
open_socket-Keeps (refused fd) fds c v = close_link-Keeps fds c v
open_socket-Keeps (opened fd) fds c v =
    let k = close_link-Keeps fds c v in
    record {
      sound = (same-Keeps _ _ refl refl refl refl refl refl k.sound).sound;
      same_node = k.same_node;
    }

keep_link-Keeps : (u : Upkeep) (c : Link) → IsLink c → Keeps c (keep_link u c).0
unfolding keep_link
keep_link-Keeps u c v = retry_registration-Keeps u c v

record KeptFor (c : Link) (k : Kept) : Type 0 where
  keeps : Keeps c k.link

if-KeptFor :
    (t : Bool) {c : Link} {a b : Kept} → KeptFor c a → KeptFor c b → KeptFor c (if t then a else b)
if-KeptFor true x y = x
if-KeptFor false x y = y

house_link-KeptFor :
    (u : Upkeep) (o : Opening) (fds : List ℕ) (c : Link)
    → IsLink c
    → KeptFor c (house_link u o fds c)
unfolding house_link
house_link-KeptFor u o fds c v =
    if-KeptFor (is_none c.fd) record { keeps = open_socket-Keeps o fds c v }
      (if-KeptFor (link_timed_out c (u.ms / 1000)) record { keeps = fail_link-Keeps u.now c v }
        record { keeps = keep_link-Keeps u c v })

house_links-Keeps :
    (u : Upkeep) (opens : ℕ → Opening) (i : ℕ) (cs : List Link) (fds : List ℕ)
    (actions : List Action)
    → All IsLink cs
    → KeepsAll cs (house_links u opens i cs fds actions).links
unfolding house_links
house_links-Keeps u opens i [] fds actions v = unchanged-KeepsAll [] tt
house_links-Keeps u opens i (c ∷ cs) fds actions v =
    let k = house_link u (opens i) fds c in
    cons-Keeps (house_link-KeptFor u (opens i) fds c v.0).keeps
      (house_links-Keeps u opens (suc i) cs k.fds (k.actions ++ actions) v.1)

-- If the process goes on, then with a sound sender.
pub record GoesOn (o : Outcome) : Type 0 where
  pub next : (s : Sender) → o ≡ continues s → IsSound s

continues-GoesOn : {s : Sender} → IsSound s → GoesOn (continues s)
continues-GoesOn v = record { next = λ s e. ground arith }

exited-GoesOn : GoesOn exited
exited-GoesOn = record { next = λ s e. ground arith }

if-GoesOn : (t : Bool) {a b : Outcome} → GoesOn a → GoesOn b → GoesOn (if t then a else b)
if-GoesOn true x y = x
if-GoesOn false x y = y

addrs-GoesOn :
    (ms : ℕ) (s : Sender) (addrs : List Bytes)
    → IsSound s
    → GoesOn (elim addrs [
      | a ∷ b ∷ more ↦
          continues
            (record s { addrs = b ∷ more; srtla_addr = b; all_failed_at = 0; last_ran = ms })
      | _ ↦ exited
    ])
addrs-GoesOn ms s [] v = exited-GoesOn
addrs-GoesOn ms s (a ∷ []) v = exited-GoesOn
addrs-GoesOn ms s (a ∷ b ∷ more) v = continues-GoesOn (same_links-IsSound s _ refl (inl refl) v)

check_failed-GoesOn : (ms : ℕ) (s : Sender) → IsSound s → GoesOn (check_failed ms s)
unfolding check_failed next_addr
check_failed-GoesOn ms s v =
    let since = if s.all_failed_at == 0 then ms else s.all_failed_at in
    let s' : Sender = record s { all_failed_at = since } in
    if-GoesOn (s.active_connections == 0)
      (if-GoesOn (ltb (since + global_timeout_ms) ms)
        (if-GoesOn s.has_connected exited-GoesOn
          (addrs-GoesOn ms s' s.addrs (same_links-IsSound s s' refl (inl refl) v)))
        (continues-GoesOn (same_links-IsSound s _ refl (inl refl) v)))
      (continues-GoesOn (same_links-IsSound s _ refl (inl refl) v))

expire_pending-old :
    (time : ℕ) (s : Sender) (n : ℕ) → expire_pending time s ≡ some n → s.pending_reg2_conn ≡ some n
expire_pending-old time s n e = ground arith

pub housekeeping-GoesOn :
    (ms now : ℕ) (opens : ℕ → Opening) (s : Sender)
    → IsSound s
    → GoesOn (connection_housekeeping ms now opens s)
unfolding connection_housekeeping run_housekeeping
housekeeping-GoesOn ms now opens s v =
    let u : Upkeep = record {
      addr = s.srtla_addr;
      id = s.srtla_id;
      pending_conn = expire_pending (ms / 1000) s;
      ms = ms;
      now = now;
    } in
    let h = house_links u opens 0 s.links s.active_fds s.actions in
    let kept = house_links-Keeps u opens 0 s.links s.active_fds s.actions v.sound_links in
    if-GoesOn (ltb ms (s.last_ran + housekeeping_int)) (continues-GoesOn v) (
      check_failed-GoesOn ms
        (record s {
          links = h.links;
          active_fds = h.fds;
          actions = h.actions;
          active_connections = h.active_connections;
          pending_reg2_conn = expire_pending (ms / 1000) s;
        })
        record {
          sound_links = kept.all;
          live = λ n e. kept.same_nodes n ∙ v.live n (expire_pending-old (ms / 1000) s n e);
        })
