-- ===== src/Sender/Housekeeping/Exits.antt =====
-- When `connection_housekeeping` (src/srtla/srtla_send.c) ends the process.
use pyle_irl.Base.{
  ℕ, ◌+◌, ◌/◌, ◌≤◌, ◌≡◌, refl, ap, ◌∙◌, Bool, false, ◌&&◌, ◌||◌, Option, none, some, List, [], ◌∷◌,
  arith, length, ltb, leb, ◌==◌, if◌then◌else◌,
}
use pyle_irl.Sender.Housekeeping.{
  housekeeping_int, Upkeep, house_links, Outcome, continues, exited, next_addr, check_failed,
  expire_pending, run_housekeeping, connection_housekeeping,
}
use pyle_irl.Sender.Housekeeping.Active.{live_links, house_links-active}
use pyle_irl.Sender.Sockets.{Opening}
use pyle_irl.Sender.State.{global_timeout_ms, Sender}
use pyle_irl.Wire.{Bytes}

-- What decides: no active link, for longer than the global timeout, and nothing else to try.
abbrev pub gives_up : ℕ → ℕ → Sender → Bool
gives_up ms n s =
    n == 0
    && ltb ((if s.all_failed_at == 0 then ms else s.all_failed_at) + global_timeout_ms) ms
    && (s.has_connected || leb (length s.addrs) 1)

-- The number of active links where the process goes on.
abbrev pub active_after : Outcome → Option ℕ
active_after exited = none
active_after (continues s) = some s.active_connections

next_addr-after :
    (ms : ℕ) (s : Sender) (addrs : List Bytes)
    → s.addrs ≡ addrs
    → active_after (next_addr ms s)
      ≡ (if leb (length addrs) 1 then none else some s.active_connections)
unfolding next_addr
next_addr-after ms s [] e = rw (e, next_addr) refl
next_addr-after ms s (a ∷ []) e = rw (e, next_addr) refl
next_addr-after ms s (a ∷ b ∷ more) e = rw (e, next_addr) (ground arith)

check_failed-after :
    (ms : ℕ) (s : Sender)
    → active_after (check_failed ms s)
      ≡ (if gives_up ms s.active_connections s then none else some s.active_connections)
unfolding check_failed
check_failed-after ms s =
    let since = if s.all_failed_at == 0 then ms else s.all_failed_at in
    ground (arith, next_addr-after ms (record s { all_failed_at = since }) s.addrs refl)

-- Housekeeping that is due ends the process exactly where no link with a socket was heard from within
-- the time limit, that has been so for longer than the global timeout, and the sender has connected
-- before or has no further address of the receiver; otherwise the number of active links is that of
-- the links with a socket that were heard from within the limit.
pub connection_housekeeping_lem :
    (ms now : ℕ) (opens : ℕ → Opening) (s : Sender)
    → s.last_ran + housekeeping_int ≤ ms
    → let live = live_links (ms / 1000) s.links in
      active_after (connection_housekeeping ms now opens s)
      ≡ (if gives_up ms live s then none else some live)
unfolding connection_housekeeping run_housekeeping
connection_housekeeping_lem ms now opens s h =
    let u : Upkeep = record {
      addr = s.srtla_addr;
      id = s.srtla_id;
      pending_conn = expire_pending (ms / 1000) s;
      ms = ms;
      now = now;
    } in
    let r = house_links u opens 0 s.links s.active_fds s.actions in
    let s1 : Sender = record s {
      links = r.links;
      active_fds = r.fds;
      actions = r.actions;
      active_connections = r.active_connections;
      pending_reg2_conn = expire_pending (ms / 1000) s;
    } in
    let late : ltb ms (s.last_ran + housekeeping_int) ≡ false = ground arith in
    rw late (
      check_failed-after ms s1
      ∙ ap (λ (n : ℕ). if gives_up ms n s then none else some n)
          (house_links-active u opens 0 s.links s.active_fds s.actions))
