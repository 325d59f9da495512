-- ===== src/Receiver/State.antt =====
-- The data of src/srtla/srtla_rec.c: connections, groups and the context of one instance.
use pyle_irl.Base.{
  ℕ, zero, suc, ◌+◌, ◌%◌, ◌^◌, Bool, true, false, Option, none, some, List, [], ◌∷◌, replicate,
}
use pyle_irl.Base.Int.{ℤ}
use pyle_irl.Wire.{Bytes}

abbrev pub max_groups : ℕ
max_groups = 200

abbrev pub cleanup_period : ℕ
cleanup_period = 3

abbrev pub group_timeout : ℕ
group_timeout = 90

abbrev pub conn_timeout : ℕ
conn_timeout = 90

abbrev pub recv_ack_int : ℕ
recv_ack_int = 10

abbrev pub reg_retry_base_ms : ℕ
reg_retry_base_ms = 250

abbrev pub reg_retry_max_ms : ℕ
reg_retry_max_ms = 4000

-- sizeof(struct sockaddr_storage)
abbrev pub addr_len : ℕ
addr_len = 128

-- The build: the source has code of its own for Windows (counters) and for Linux (epoll).
pub data Platform : Type 0 where
  windows linux macos : Platform

-- `conn_t`. `recv_log` has the wire bytes of each logged sequence number. The list of a group takes
-- the place of `next`.
pub record Conn : Type 0 where
  pub addr : Bytes
  pub last_rcvd : ℕ
  pub recv_idx : ℕ
  pub recv_log : List Bytes
  pub reg_attempts : ℕ
  pub next_reg_try_ms : ℕ
  pub backoff_ms : ℕ
  pub had_fatal_error : ℕ
  pub bytes_received : ℕ

-- `memset(c, 0, sizeof(*c))`
abbrev pub zeroed_conn : Conn
zeroed_conn = record {
  addr = replicate addr_len 0;
  last_rcvd = 0;
  recv_idx = 0;
  recv_log = replicate recv_ack_int (replicate 4 0);
  reg_attempts = 0;
  next_reg_try_ms = 0;
  backoff_ms = 0;
  had_fatal_error = 0;
  bytes_received = 0;
}

pub data GroupState : Type 0 where
  active waiting_srt closed : GroupState

-- `conn_group_t`. `none` is the socket -1. `node` is the address of the struct, by which a pending
-- epoll event names it; the list of the context takes the place of `next`.
pub record Group : Type 0 where
  pub node : ℕ
  pub conns : List Conn
  pub created_at : ℕ
  pub srt_sock : Option ℕ
  pub last_addr : Bytes
  pub id : Bytes
  pub logical_group_id : ℕ
  pub state : GroupState
  pub next_srt_retry_ms : ℕ
  pub srt_retry_attempts : ℕ
  pub bytes_received : ℕ

-- The code tests `srt_sock > 0`, so that a socket 0 counts as none where it is used or closed.
abbrev pub has_sock : Option ℕ → Bool
has_sock none = false
has_sock (some zero) = false
has_sock (some (suc s)) = true

-- A call of the operating system that the receiver makes. `send_to` goes through the one listening
-- socket, `send` through the socket of a group.
pub data Call : Type 0 where
  send_to : Bytes → Bytes → Call
  send : ℕ → Bytes → Call
  close_socket : ℕ → Call
  epoll_add : ℕ → Call
  epoll_rem : ℕ → Call

-- `srtla_ctx_t`, with the globals that steer it (`flag_auto_reconnect`,
-- `flag_reconnect_interval_ms`), the build, and the calls made so far, latest first.
pub record Ctx : Type 0 where
  pub platform : Platform
  pub auto_reconnect : Bool
  pub reconnect_interval_ms : ℕ
  pub srt_addr : Bytes
  pub groups : List Group
  pub group_count : ℤ
  pub active_connections : ℤ
  pub failed_connections : ℕ
  pub listen_port : ℕ
  pub group_seq : ℕ
  pub is_listening : Bool
  pub calls : List Call

abbrev pub emit : Call → Ctx → Ctx
emit e c = record c { calls = e ∷ c.calls }

-- How `group_destroy` gives up a group's socket, latest call first.
abbrev pub release_sock : Platform → Option ℕ → List Call
release_sock linux (some (suc s)) = close_socket (suc s) ∷ epoll_rem (suc s) ∷ []
release_sock windows (some (suc s)) = close_socket (suc s) ∷ []
release_sock macos (some (suc s)) = close_socket (suc s) ∷ []
release_sock _ _ = []

-- `if (g->srt_sock > 0) close_socket(g->srt_sock);`
abbrev pub close_sock : Option ℕ → List Call
close_sock (some (suc s)) = close_socket (suc s) ∷ []
close_sock _ = []

-- `uint64_t` addition.
abbrev pub add64 : ℕ → ℕ → ℕ
add64 a b = (a + b) % 2 ^ 64
