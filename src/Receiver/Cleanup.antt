-- ===== src/Receiver/Cleanup.antt =====
-- `connection_cleanup` of src/srtla/srtla_rec.c: timeouts, and the retries of groups that wait for
-- the SRT server.
pub mod Run
pub mod Retry
pub mod Sweep
use pyle_irl.Base.{
  ℕ, suc, ◌+◌, Bool, true, false, ◌&&◌, Option, none, some, List, [], ◌∷◌, ◌++◌, length, replicate,
  ltb, leb, ◌==◌, if◌then◌else◌,
}
use pyle_irl.Base.Int.{pos, ◌-ℤ◌}
use pyle_irl.Receiver.Backoff.{backoff, add_int}
use pyle_irl.Receiver.Groups.{counted}
use pyle_irl.Receiver.State.{
  cleanup_period, group_timeout, conn_timeout, reg_retry_base_ms, Platform, Conn, active,
  waiting_srt, Group, Call, send, close_socket, Ctx, release_sock,
}
use pyle_irl.Wire.{Bytes, srt_type_handshake, be16, be32}

abbrev pub conn_timed_out : ℕ → Conn → Bool
conn_timed_out ts c = ltb (c.last_rcvd + conn_timeout) ts

-- The inner loop: the connections that stay, and how many were removed.
unfoldable pub sweep_conns : ℕ → List Conn → List Conn × ℕ
sweep_conns ts [] = ([], 0)
sweep_conns ts (c ∷ cs) =
    let (kept, removed) = sweep_conns ts cs in
    if conn_timed_out ts c then (kept, removed + 1) else (c ∷ kept, removed)

-- `g->conns == NULL && (g->created_at + GROUP_TIMEOUT) < ts`
abbrev pub is_abandoned : ℕ → Group → Bool
is_abandoned ts g = elim g.conns [ [] ↦ ltb (g.created_at + group_timeout) ts | c ∷ cs ↦ false ]

-- What the outer loop did: the groups that stay, the calls made for those that went, and how many
-- connections and groups were removed.
pub record Swept : Type 0 where
  pub kept : List Group
  pub calls : List Call
  pub removed_conns : ℕ
  pub removed_groups : ℕ

-- The outer loop, from the first group on.
unfoldable pub sweep_groups : Platform → ℕ → List Group → List Call → Swept
sweep_groups plat ts [] calls = record {
  kept = [];
  calls = calls;
  removed_conns = 0;
  removed_groups = 0;
}
sweep_groups plat ts (g ∷ gs) calls =
    let (cs, n) = sweep_conns ts g.conns in
    let g' = record g { conns = cs } in
    let gone = is_abandoned ts g' in
    let rest =
      sweep_groups plat ts gs (if gone then release_sock plat g.srt_sock ++ calls else calls) in
    record rest {
      kept = if gone then rest.kept else g' ∷ rest.kept;
      removed_conns = n + rest.removed_conns;
      removed_groups = if gone then suc rest.removed_groups else rest.removed_groups;
    }

-- The answers to one handshake attempt: the first clock reading (`none` if `get_ms` fails), the
-- socket, whether it connects, whether the 64 bytes go out, what `recv` returns, and the clock.
pub record Handshake : Type 0 where
  pub clock : Option ℕ
  pub socket : Option ℕ
  pub connected : Bool
  pub sent : Bool
  pub received : Option ℕ
  pub now_ms : ℕ

-- `srt_handshake_t`, as both places of the source fill it in.
abbrev pub handshake_packet : Bytes
handshake_packet =
    be16 srt_type_handshake
    ++ replicate 14 0
    ++ be32 4
    ++ replicate 2 0
    ++ be16 2
    ++ replicate 12 0
    ++ be32 1
    ++ replicate 24 0

-- `recv` returned as many bytes as a handshake has.
abbrev pub is_reply : Option ℕ → Bool
is_reply none = false
is_reply (some n) = n == length handshake_packet

-- The attempt on the socket `s`: whether the server replied, and the calls.
unfoldable pub attempt : Handshake → ℕ → Bool × List Call
attempt h s =
    if h.connected
    then (if h.sent && is_reply h.received
        then (true, send s handshake_packet ∷ [])
        else (false, close_socket s ∷ send s handshake_packet ∷ []))
    else (false, close_socket s ∷ [])

-- "scheduling next SRT retry", unless the group is active.
abbrev pub schedule_retry : ℕ → Group → Group
schedule_retry now g = elim g.state [
  | active ↦ g
  | _ ↦ record g {
    srt_retry_attempts = suc g.srt_retry_attempts;
    next_srt_retry_ms = add_int now (backoff reg_retry_base_ms (suc g.srt_retry_attempts));
  }
]

abbrev pub reconnected : ℕ → Group → Group
reconnected s g = record g { srt_sock = some s; state = active; srt_retry_attempts = 0 }

unfoldable pub retry_handshake : Handshake → Group → Group × List Call
retry_handshake h g = elim h.socket [
  | none ↦ (schedule_retry h.now_ms g, [])
  | some s ↦
      let (ok, calls) = attempt h s in
      if ok then (reconnected s g, calls) else (schedule_retry h.now_ms g, calls)
]

abbrev pub is_waiting : Group → Bool
is_waiting g = elim g.state [
  | waiting_srt ↦ elim g.conns [ [] ↦ false | c ∷ cs ↦ true ]
  | _ ↦ false
]

abbrev pub clock_or_zero : Option ℕ → ℕ
clock_or_zero none = 0
clock_or_zero (some ms) = ms

-- One round of the second loop.
unfoldable pub retry_group : Handshake → Group → Group × List Call
retry_group h g =
    if is_waiting g && leb g.next_srt_retry_ms (clock_or_zero h.clock)
    then retry_handshake h g
    else (g, [])

-- The second loop; the answers for the group at index `i` are `hs i`.
unfoldable pub retry_groups : (ℕ → Handshake) → ℕ → List Group → List Call → List Group × List Call
retry_groups hs i [] calls = ([], calls)
retry_groups hs i (g ∷ gs) calls =
    let (g', new) = retry_group (hs i) g in
    let (gs', all) = retry_groups hs (suc i) gs (new ++ calls) in (g' ∷ gs', all)

-- Past the two early returns. `failed_connections` and the count of connections are Windows code.
unfoldable pub cleanup_run : (ℕ → Handshake) → ℕ → Ctx → Ctx
cleanup_run hs ts c =
    let swept = sweep_groups c.platform ts c.groups c.calls in
    let (gs, calls) = retry_groups hs 0 swept.kept swept.calls in
    record c {
      groups = gs;
      group_count = c.group_count -ℤ pos swept.removed_groups;
      active_connections = c.active_connections -ℤ pos (counted c.platform swept.removed_conns);
      failed_connections = c.failed_connections + counted c.platform swept.removed_conns;
      calls = calls;
    }

-- `last_ran` is a static variable, one for all the receivers of the process: it is passed in and
-- out.
unfoldable pub connection_cleanup : (ℕ → Handshake) → ℕ → ℕ → Ctx → Ctx × ℕ
connection_cleanup hs last_ran ts c =
    if ltb ts (last_ran + cleanup_period)
    then (c, last_ran)
    else elim c.groups [ [] ↦ (c, ts) | g ∷ gs ↦ (cleanup_run hs ts c, ts) ]
