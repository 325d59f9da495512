-- ===== src/Sender/Housekeeping/Active.antt =====
-- How many links `connection_housekeeping` (src/srtla/srtla_send.c) counts, and what follows when none
-- of them is heard from.
use pyle_irl.Base.{
  ℕ, suc, ◌/◌, ◌≤◌, ◌≡◌, refl, inl, inr, true, ◌||◌, List, [], ◌∷◌, ◌++◌, arith, All, if◌then◌else◌,
  Bool-cases, is_none,
}
use pyle_irl.Sender.Housekeeping.{fail_link, Upkeep, house_link, house_links}
use pyle_irl.Sender.Sockets.{Opening, not_made, refused, opened, close_link, open_socket}
use pyle_irl.Sender.State.{Link, Action, link_timed_out}

-- The links with a socket that were heard from within the time limit.
unfoldable pub live_links : ℕ → List Link → ℕ
live_links t [] = 0
live_links t (c ∷ cs) =
    let rest = live_links t cs in if is_none c.fd || link_timed_out c t then rest else suc rest

-- No link was heard from lately.
abbrev pub Silent : ℕ → List Link → Type 0
Silent t cs = All (λ (c : Link). link_timed_out c t ≡ true) cs

pub house_links-active :
    (u : Upkeep) (opens : ℕ → Opening) (i : ℕ) (cs : List Link) (fds : List ℕ)
    (actions : List Action)
    → (house_links u opens i cs fds actions).active_connections ≡ live_links (u.ms / 1000) cs
unfolding house_links house_link live_links
house_links-active u opens i [] fds actions = refl
house_links-active u opens i (c ∷ cs) fds actions =
    let k = house_link u (opens i) fds c in
    let rest = house_links-active u opens (suc i) cs k.fds (k.actions ++ actions) in
    elim (Bool-cases (is_none c.fd)) [ inl e ↦ ground (arith, rest) | inr e ↦ ground (arith, rest) ]

pub live_links-Silent : (t : ℕ) (cs : List Link) → Silent t cs → live_links t cs ≡ 0
unfolding live_links
live_links-Silent t [] v = refl
live_links-Silent t (c ∷ cs) v = ground (arith, live_links-Silent t cs v.1)

open_socket-last_rcvd :
    (o : Opening) (fds : List ℕ) (c : Link) → (open_socket o fds c).link.last_rcvd ≡ c.last_rcvd
unfolding open_socket close_link
open_socket-last_rcvd not_made fds c = ground arith
open_socket-last_rcvd (refused fd) fds c = ground arith
open_socket-last_rcvd (opened fd) fds c = ground arith

fail_link-last_rcvd : (now : ℕ) (c : Link) → (fail_link now c).last_rcvd ≤ c.last_rcvd
fail_link-last_rcvd now c = ground arith

house_link-last_rcvd :
    (u : Upkeep) (o : Opening) (fds : List ℕ) (c : Link)
    → link_timed_out c (u.ms / 1000) ≡ true
    → (house_link u o fds c).link.last_rcvd ≤ c.last_rcvd
unfolding house_link
house_link-last_rcvd u o fds c e =
    ground (arith, open_socket-last_rcvd o fds c, fail_link-last_rcvd u.now c)

-- Housekeeping does not bring a silent link back.
pub house_links-Silent :
    (u : Upkeep) (opens : ℕ → Opening) (i : ℕ) (cs : List Link) (fds : List ℕ)
    (actions : List Action) (t : ℕ)
    → u.ms / 1000 ≤ t
    → Silent (u.ms / 1000) cs
    → Silent t (house_links u opens i cs fds actions).links
unfolding house_links
house_links-Silent u opens i [] fds actions t h v = tt
house_links-Silent u opens i (c ∷ cs) fds actions t h v =
    let k = house_link u (opens i) fds c in
    (
      ground (arith, house_link-last_rcvd u (opens i) fds c v.0),
      house_links-Silent u opens (suc i) cs k.fds (k.actions ++ actions) t h v.1,
    )
