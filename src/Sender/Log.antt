-- ===== src/Sender/Log.antt =====
-- The log of the packets that a link has sent last, a circular buffer (src/srtla/srtla_send.c).
pub mod Expired
pub mod History
pub mod Recent
use pyle_irl.Base.{
  ℕ, zero, suc, ◌+◌, ◌-◌, ◌%◌, ◌^◌, Bool, Option, none, some, List, get_elem?, set, ltb, ◌==◌,
  if◌then◌else◌,
}
use pyle_irl.Sender.State.{pkt_log_sz, no_pkt, Link}

-- `c->pkt_log[i]`; the index is always in range.
abbrev pub entry : List ℕ → ℕ → ℕ
entry log i = elim (get_elem? log i) [ none ↦ 0 | some p ↦ p ]

unfoldable pub reg_pkt : ℕ → Link → Link
reg_pkt p c = record c {
  pkt_log = set c.pkt_log c.pkt_idx p;
  pkt_idx = (c.pkt_idx + 1) % pkt_log_sz;
  in_flight_pkts = c.in_flight_pkts + 1;
}

-- `get_pkt_idx(i, -1)`
unfoldable pub get_pkt_idx : ℕ → ℕ
get_pkt_idx i = (i + pkt_log_sz - 1) % pkt_log_sz

-- The loop that searches the log backwards from index `i`, until it is back at `stop`: the index of
-- the packet. `none` also stands for fuel that ran out.
unfoldable pub find_pkt : ℕ → ℕ → ℕ → List ℕ → ℕ → Option ℕ
unfolding get_pkt_idx
find_pkt zero i stop log p = none
find_pkt (suc fuel) i stop log p =
    let rest = find_pkt fuel (get_pkt_idx i) stop log p in
    if i == stop then none else if entry log i == p then some i else rest

-- The search as each of its callers starts it.
unfoldable pub find_in_log : ℕ → Link → Option ℕ
unfolding find_pkt get_pkt_idx
find_in_log p c = find_pkt pkt_log_sz (get_pkt_idx c.pkt_idx) c.pkt_idx c.pkt_log p

-- `a < b` of two `int`s given by their bits.
abbrev pub int_lt : ℕ → ℕ → Bool
int_lt a b = ltb ((a + 2 ^ 31) % 2 ^ 32) ((b + 2 ^ 31) % 2 ^ 32)

-- The loop of `conn_register_srt_ack`, with the count so far.
unfoldable pub expire : ℕ → ℕ → ℕ → ℕ → List ℕ → ℕ → List ℕ × ℕ
unfolding get_pkt_idx
expire zero i stop ack log count = (log, count)
expire (suc fuel) i stop ack log count =
    let cleared = expire fuel (get_pkt_idx i) stop ack (set log i no_pkt) count in
    let kept = expire fuel (get_pkt_idx i) stop ack log (count + 1) in
    if i == stop then (log, count) else if int_lt (entry log i) ack then cleared else kept
