-- ===== src/Sender/Housekeeping.antt =====
-- `connection_housekeeping` of src/srtla/srtla_send.c.
pub mod Exits
pub mod Walk
pub mod Active
use pyle_irl.Base.{
  ℕ, suc, ◌+◌, ◌*◌, ◌/◌, min, Bool, true, false, ◌||◌, Option, none, some, List, [], ◌∷◌, ◌++◌, map,
  ltb, leb, ◌==◌, if◌then◌else◌, is_none,
}
use pyle_irl.Receiver.Register.{reg2_packet}
use pyle_irl.Receiver.State.{reg_retry_base_ms, reg_retry_max_ms}
use pyle_irl.Sender.Sockets.{Opening, open_socket}
use pyle_irl.Sender.State.{
  global_timeout_ms, idle_time, window_min, LinkState, connecting, registered_link, dead, no_pkt,
  Link, Action, Sender, link_packet, reg1_packet, keepalive_packet, link_timed_out,
}
use pyle_irl.Wire.{Bytes}

-- HOUSEKEEPING_INT
abbrev pub housekeeping_int : ℕ
housekeeping_int = 1000

abbrev pub reg_retry_max_attempts : ℕ
reg_retry_max_attempts = 8

-- "When we first detect the connection having failed, we reset its status".
abbrev pub fail_link : ℕ → Link → Link
fail_link now c =
    if ltb 0 c.last_rcvd
    then record c {
      last_rcvd = 0;
      last_sent = 0;
      window = window_min;
      in_flight_pkts = 0;
      pkt_log = map (λ p. no_pkt) c.pkt_log;
      reg_attempts = 0;
      backoff_ms = reg_retry_base_ms;
      cstate = connecting;
      next_reg_try_ms = now;
    }
    else c

-- What does not change from link to link: the receiver's address, the id, the pending link, the two
-- clock readings in ms (`ms` and, later, `now`).
pub record Upkeep : Type 0 where
  pub addr : Bytes
  pub id : Bytes
  pub pending_conn : Option ℕ
  pub ms : ℕ
  pub now : ℕ

-- A link that timed out: REG2 where nothing is pending, REG1 where this link is.
abbrev pub probe : Upkeep → Link → List Action
probe u c = elim u.pending_conn [
  | none ↦ link_packet u.addr (reg2_packet u.id) c
  | some node ↦ if c.node == node then link_packet u.addr (reg1_packet u.id) c else []
]

abbrev pub is_registered_link : LinkState → Bool
is_registered_link registered_link = true
is_registered_link _ = false

-- "handle registration retries/backoff"
unfoldable pub retry_registration : Upkeep → Link → Link × List Action
retry_registration u c =
    let pkt = if is_none u.pending_conn then reg1_packet u.id else reg2_packet u.id in
    let delay = min (c.backoff_ms * 2) reg_retry_max_ms in
    if is_registered_link c.cstate || ltb u.now c.next_reg_try_ms
    then (c, [])
    else if leb reg_retry_max_attempts c.reg_attempts
    then (record c { cstate = dead }, [])
    else (
      record c {
        reg_attempts = c.reg_attempts + 1;
        backoff_ms = delay;
        next_reg_try_ms = u.now + delay;
      },
      link_packet u.addr pkt c,
    )

-- A link that is active.
unfoldable pub keep_link : Upkeep → Link → Link × List Action
unfolding retry_registration
keep_link u c =
    let (c', retries) = retry_registration u c in
    let alive =
      if ltb (c'.last_sent + idle_time) (u.ms / 1000)
      then link_packet u.addr keepalive_packet c'
      else [] in
    (c', alive ++ retries)

-- What one round of the loop leaves; `is_active` says whether the link was counted.
pub record Kept : Type 0 where
  pub link : Link
  pub fds : List ℕ
  pub actions : List Action
  pub is_active : Bool

unfoldable pub house_link : Upkeep → Opening → List ℕ → Link → Kept
unfolding keep_link
house_link u o fds c =
    let r = open_socket o fds c in
    let lost = fail_link u.now c in
    let (c', kept) = keep_link u c in
    if is_none c.fd
    then record { link = r.link; fds = r.fds; actions = r.actions; is_active = false }
    else if link_timed_out c (u.ms / 1000)
    then record { link = lost; fds = fds; actions = probe u lost; is_active = false }
    else record { link = c'; fds = fds; actions = kept; is_active = true }

-- The loop over the links, from index `i` on.
pub record Housed : Type 0 where
  pub links : List Link
  pub fds : List ℕ
  pub actions : List Action
  pub active_connections : ℕ

unfoldable pub house_links : Upkeep → (ℕ → Opening) → ℕ → List Link → List ℕ → List Action → Housed
unfolding house_link
house_links u opens i [] fds actions = record {
  links = [];
  fds = fds;
  actions = actions;
  active_connections = 0;
}
house_links u opens i (c ∷ cs) fds actions =
    let k = house_link u (opens i) fds c in
    let rest = house_links u opens (suc i) cs k.fds (k.actions ++ actions) in
    record rest {
      links = k.link ∷ rest.links;
      active_connections =
          if k.is_active then suc rest.active_connections else rest.active_connections;
    }

-- The sender goes on, or the process ends.
pub data Outcome : Type 0 where
  continues : Sender → Outcome
  exited : Outcome

-- "Walk through the list of resolved addresses"
unfoldable pub next_addr : ℕ → Sender → Outcome
next_addr ms s = elim s.addrs [
  | a ∷ b ∷ more ↦
      continues (record s { addrs = b ∷ more; srtla_addr = b; all_failed_at = 0; last_ran = ms })
  | _ ↦ exited
]

-- Past the loop over the links.
unfoldable pub check_failed : ℕ → Sender → Outcome
unfolding next_addr
check_failed ms s =
    let since = if s.all_failed_at == 0 then ms else s.all_failed_at in
    if s.active_connections == 0
    then if ltb (since + global_timeout_ms) ms
      then if s.has_connected then exited else next_addr ms (record s { all_failed_at = since })
      else continues (record s { all_failed_at = since; last_ran = ms })
    else continues (record s { all_failed_at = 0; last_ran = ms })

abbrev pub expire_pending : ℕ → Sender → Option ℕ
expire_pending time s = if ltb s.pending_reg_timeout time then none else s.pending_reg2_conn

unfoldable pub run_housekeeping : ℕ → ℕ → (ℕ → Opening) → Sender → Outcome
unfolding house_links check_failed
run_housekeeping ms now opens s =
    let left = expire_pending (ms / 1000) s in
    let u : Upkeep = record {
      addr = s.srtla_addr;
      id = s.srtla_id;
      pending_conn = left;
      ms = ms;
      now = now;
    } in
    let h = house_links u opens 0 s.links s.active_fds s.actions in
    check_failed ms (record s {
      links = h.links;
      active_fds = h.fds;
      actions = h.actions;
      active_connections = h.active_connections;
      pending_reg2_conn = left;
    })

unfoldable pub connection_housekeeping : ℕ → ℕ → (ℕ → Opening) → Sender → Outcome
unfolding run_housekeeping
connection_housekeeping ms now opens s =
    if ltb ms (s.last_ran + housekeeping_int) then continues s else run_housekeeping ms now opens s
