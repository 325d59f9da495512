-- ===== src/Receiver/Instances.antt =====
-- The table `global_contexts` of src/srtla/srtla_rec.c, and what other threads read through it.
pub mod Shadow
pub mod Slots
use pyle_irl.Base.{
  ℕ, suc, ◌+◌, Bool, true, false, ◌&&◌, Option, none, some, List, [], ◌∷◌, ◌++◌, length, set,
  replicate, ◌==◌, if◌then◌else◌,
}
use pyle_irl.Base.Int.{ℤ, pos, ◌+ℤ◌, ◌-ℤ◌, leb_ℤ}
use pyle_irl.Receiver.Groups.{counted}
use pyle_irl.Receiver.Resolve.{Candidate, resolve_srt_addr}
use pyle_irl.Receiver.State.{
  addr_len, Platform, windows, linux, macos, Group, Call, Ctx, close_sock, add64,
}

abbrev pub max_srtla_instances : ℕ
max_srtla_instances = 32

-- The table: a slot is free (NULL) or holds a context.
abbrev pub Table : Type 0
Table = List (Option Ctx)

abbrev pub empty_table : Table
empty_table = replicate max_srtla_instances none

-- The first free slot takes the new context: its index and the table, or `none` if all are taken.
unfoldable pub take_slot : Ctx → Table → Option (ℕ × Table)
take_slot c [] = none
take_slot c (none ∷ t) = some (0, some c ∷ t)
take_slot c (some d ∷ t) = elim (take_slot c t) [
  | none ↦ none
  | some (i, t') ↦ some (suc i, some d ∷ t')
]

unfoldable pub free_slot : ℕ → Table → Table
free_slot i t = set t i none

-- What the start of `srtla_rec_main` meets: memory for the context, the lookup of the SRT address,
-- `/dev/urandom`, the epoll descriptor, the listening socket, `bind`, and the watch on that socket.
pub record Startup : Type 0 where
  pub memory : Bool
  pub lookup : Option (Candidate × List Candidate)
  pub lookup_socket : Bool
  pub urandom : Bool
  pub epoll : Bool
  pub socket : Bool
  pub bound : Bool
  pub watched : Bool

-- `calloc`, then the fields that are set.
abbrev pub new_ctx : Platform → ℕ → Ctx
new_ctx plat port = record {
  platform = plat;
  auto_reconnect = true;
  reconnect_interval_ms = 500;
  srt_addr = replicate addr_len 0;
  groups = [];
  group_count = pos 0;
  active_connections = pos 0;
  failed_connections = 0;
  listen_port = port;
  group_seq = 1;
  is_listening = false;
  calls = [];
}

-- The descriptors and checks after the address lookup, where `epoll_create` and `epoll_add` are
-- Linux code and `/dev/urandom` is not opened on Windows.
abbrev pub sockets_ready : Platform → Startup → Bool
sockets_ready windows s = s.socket && s.bound
sockets_ready macos s = s.urandom && s.socket && s.bound
sockets_ready linux s = s.urandom && s.epoll && s.socket && s.bound && s.watched

-- The context with which the loop begins.
abbrev pub loop_ctx : Platform → ℕ → Startup → Ctx
loop_ctx plat port s = record (resolve_srt_addr s.lookup s.lookup_socket (new_ctx plat port)).0 {
  is_listening = true;
}

-- How the start ends: no slot was taken, the function returned -1 with its slot still taken, or the
-- instance runs in that slot.
pub data Started : Type 0 where
  not_started : Started
  start_failed : ℕ → Started
  now_running : ℕ → Started

-- `srtla_rec_main` up to its loop.
unfoldable pub start_instance : Platform → ℕ → Startup → Table → Table × Started
start_instance plat port s t =
    if s.memory
    then elim (take_slot (new_ctx plat port) t) [
      | none ↦ (t, not_started)
      | some (i, t') ↦
          let (c, ret) = resolve_srt_addr s.lookup s.lookup_socket (new_ctx plat port) in
          if leb_ℤ (pos 0) ret && sockets_ready plat s
          then (set t' i (some (loop_ctx plat port s)), now_running i)
          else (set t' i (some c), start_failed i)
    ]
    else (t, not_started)

-- The end of `srtla_rec_main`, after its loop.
unfoldable pub stop_instance : ℕ → Table → Table
unfolding free_slot
stop_instance i t = free_slot i t

pub record Stats : Type 0 where
  pub is_listening : Bool
  pub active_groups : ℤ
  pub active_connections : ℤ

-- One round of the loop of `srtla_get_connection_stats`.
abbrev pub add_stats : Option Ctx → Stats → Stats
add_stats none s = s
add_stats (some c) s = record {
  is_listening = if c.is_listening then true else s.is_listening;
  active_groups = if c.is_listening then s.active_groups +ℤ c.group_count else s.active_groups;
  active_connections = s.active_connections +ℤ c.active_connections;
}

unfoldable pub stats_loop : Table → Stats → Stats
stats_loop [] s = s
stats_loop (o ∷ t) s = stats_loop t (add_stats o s)

unfoldable pub srtla_get_connection_stats : Table → Stats
unfolding stats_loop
srtla_get_connection_stats t =
    stats_loop t
      (record { is_listening = false; active_groups = pos 0; active_connections = pos 0 })

-- The loop that four functions share: the first context with the port.
unfoldable pub find_port : ℕ → Table → Option Ctx
find_port port [] = none
find_port port (none ∷ t) = find_port port t
find_port port (some c ∷ t) =
    let rest = find_port port t in if c.listen_port == port then some c else rest

unfoldable pub group_bytes : List Group → ℕ → ℕ
group_bytes [] total = total
group_bytes (g ∷ gs) total = group_bytes gs (add64 total g.bytes_received)

unfoldable pub srtla_get_total_bytes : ℕ → Table → ℕ
unfolding find_port group_bytes
srtla_get_total_bytes port t = elim (find_port port t) [
  | none ↦ 0
  | some c ↦ group_bytes c.groups 0
]

unfoldable pub srtla_get_group_count_by_port : ℕ → Table → ℤ
unfolding find_port
srtla_get_group_count_by_port port t = elim (find_port port t) [
  | none ↦ pos 0
  | some c ↦ c.group_count
]

unfoldable pub srtla_get_group_seq_by_port : ℕ → Table → ℕ
unfolding find_port
srtla_get_group_seq_by_port port t = elim (find_port port t) [ none ↦ 0 | some c ↦ c.group_seq ]

-- The loop over the groups: the sockets that are closed, latest first, and the connections freed.
unfoldable pub free_groups : List Group → List Call → ℕ → List Call × ℕ
free_groups [] calls n = (calls, n)
free_groups (g ∷ gs) calls n = free_groups gs (close_sock g.srt_sock ++ calls) (n + length g.conns)

unfoldable pub reset_groups : Ctx → Ctx
unfolding free_groups
reset_groups c =
    let (calls, n) = free_groups c.groups c.calls 0 in
    record c {
      groups = [];
      group_count = pos 0;
      active_connections = c.active_connections -ℤ pos (counted c.platform n);
      calls = calls;
    }

unfoldable pub srtla_reset_group_by_port : ℕ → Table → Table
srtla_reset_group_by_port port [] = []
srtla_reset_group_by_port port (none ∷ t) = none ∷ srtla_reset_group_by_port port t
srtla_reset_group_by_port port (some c ∷ t) =
    let rest = some c ∷ srtla_reset_group_by_port port t in
    if c.listen_port == port then some (reset_groups c) ∷ t else rest
