-- ===== src/Sender/State.antt =====
-- The data of src/srtla/srtla_send.c: links to the receiver and the globals of the sender.
use pyle_irl.Base.{
  ℕ, ◌+◌, ◌-◌, ◌*◌, ◌^◌, Bool, false, Option, none, some, List, [], ◌∷◌, ◌++◌, replicate, ltb, ◌==◌,
}
use pyle_irl.Wire.{Bytes, srtla_type_keepalive, srtla_type_reg1, be16}

abbrev pub pkt_log_sz : ℕ
pkt_log_sz = 256

-- CONN_TIMEOUT of the sender, in seconds.
abbrev pub link_timeout : ℕ
link_timeout = 4

abbrev pub reg2_timeout : ℕ
reg2_timeout = 4

abbrev pub reg3_timeout : ℕ
reg3_timeout = 4

-- GLOBAL_TIMEOUT, in ms.
abbrev pub global_timeout_ms : ℕ
global_timeout_ms = 10000

abbrev pub idle_time : ℕ
idle_time = 1

-- WINDOW_MIN, WINDOW_DEF and WINDOW_MAX, each times WINDOW_MULT.
abbrev pub window_mult : ℕ
window_mult = 1000

abbrev pub window_min : ℕ
window_min = 1 * window_mult

abbrev pub window_def : ℕ
window_def = 20 * window_mult

abbrev pub window_max : ℕ
window_max = 60 * window_mult

abbrev pub window_decr : ℕ
window_decr = 100

abbrev pub window_incr : ℕ
window_incr = 30

-- `conn_state`
pub data LinkState : Type 0 where
  connecting registered_link reconnecting dead : LinkState

-- The bits of -1, by which a log entry is marked as empty.
abbrev pub no_pkt : ℕ
no_pkt = 2 ^ 32 - 1

-- `conn_t` of the sender. `node` is the address of the struct, which `pending_reg2_conn` holds; `none`
-- is the descriptor -1; a packet number in the log is an `int`, kept as its 32 bits.
pub record Link : Type 0 where
  pub node : ℕ
  pub fd : Option ℕ
  pub last_rcvd : ℕ
  pub last_sent : ℕ
  pub src : Bytes
  pub removed : Bool
  pub in_flight_pkts : ℕ
  pub window : ℕ
  pub pkt_idx : ℕ
  pub pkt_log : List ℕ
  pub reg_attempts : ℕ
  pub next_reg_try_ms : ℕ
  pub backoff_ms : ℕ
  pub cstate : LinkState

-- `calloc`, and the fields that `setup_conns` sets.
abbrev pub new_link : ℕ → Bytes → Link
new_link node src = record {
  node = node;
  fd = none;
  last_rcvd = 0;
  last_sent = 0;
  src = src;
  removed = false;
  in_flight_pkts = 0;
  window = window_def;
  pkt_idx = 0;
  pkt_log = replicate pkt_log_sz 0;
  reg_attempts = 0;
  next_reg_try_ms = 0;
  backoff_ms = 0;
  cstate = connecting;
}

-- What the sender does to the outside: a packet on a link's socket to the receiver, a packet on the
-- listening socket to the SRT caller, and the end of a socket.
pub data Action : Type 0 where
  to_receiver : ℕ → Bytes → Bytes → Action
  to_caller : Bytes → Bytes → Action
  close_fd : ℕ → Action

-- The globals, with the static variables of `connection_housekeeping`, and the actions so far, latest
-- first. `addrs` has the receiver's addresses from the current one on.
pub record Sender : Type 0 where
  pub links : List Link
  pub srtla_addr : Bytes
  pub srt_addr : Bytes
  pub addrs : List Bytes
  pub active_fds : List ℕ
  pub active_connections : ℕ
  pub has_connected : Bool
  pub pending_reg2_conn : Option ℕ
  pub pending_reg_timeout : ℕ
  pub srtla_id : Bytes
  pub all_failed_at : ℕ
  pub last_ran : ℕ
  pub actions : List Action

-- `pending_reg2_conn == c`
abbrev pub is_pending : Option ℕ → Link → Bool
is_pending none c = false
is_pending (some node) c = c.node == node

-- `send_reg1`, `send_reg2` and `send_keepalive`: what goes out on the socket, if there is one.
abbrev pub link_packet : Bytes → Bytes → Link → List Action
link_packet addr pkt c = elim c.fd [ none ↦ [] | some fd ↦ to_receiver fd addr pkt ∷ [] ]

abbrev pub reg1_packet : Bytes → Bytes
reg1_packet id = be16 srtla_type_reg1 ++ id

abbrev pub keepalive_packet : Bytes
keepalive_packet = be16 srtla_type_keepalive

abbrev pub link_timed_out : Link → ℕ → Bool
link_timed_out c ts = ltb (c.last_rcvd + link_timeout) ts
