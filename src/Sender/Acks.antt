-- ===== src/Sender/Acks.antt =====
-- Acknowledgements of the receiver and of the SRT server, at the links' logs and windows
-- (src/srtla/srtla_send.c).
use pyle_irl.Base.{
  ℕ, ◌+◌, ◌-◌, ◌*◌, min, Bool, true, false, Option, none, some, List, [], ◌∷◌, map, set, ltb, ◌==◌,
  if◌then◌else◌,
}
use pyle_irl.Sender.Log.{get_pkt_idx, find_in_log, expire}
use pyle_irl.Sender.State.{pkt_log_sz, window_mult, window_max, window_incr, no_pkt, Link}

-- The packet was found at index `i`.
abbrev pub ack_at : ℕ → Link → Link
ack_at i c =
    let n = c.in_flight_pkts - 1 in
    record c {
      in_flight_pkts = n;
      pkt_log = set c.pkt_log i no_pkt;
      window = if ltb c.window (n * window_mult) then c.window + (window_incr - 1) else c.window;
    }

-- "if (c->last_rcvd != 0)"
abbrev pub grow_window : Link → Link
grow_window c = if c.last_rcvd == 0 then c else record c { window = min (c.window + 1) window_max }

abbrev pub ack_found : Option ℕ → Link → Link
ack_found none c = c
ack_found (some i) c = ack_at i c

abbrev pub is_found : Option ℕ → Bool
is_found none = false
is_found (some i) = true

-- The loop over the links, with `found`.
unfoldable pub ack_links : ℕ → Bool → List Link → List Link
unfolding find_in_log
ack_links ack found [] = []
ack_links ack true (c ∷ cs) = grow_window c ∷ ack_links ack true cs
ack_links ack false (c ∷ cs) =
    let hit = find_in_log ack c in grow_window (ack_found hit c) ∷ ack_links ack (is_found hit) cs

unfoldable pub register_srtla_ack : ℕ → List Link → List Link
unfolding ack_links
register_srtla_ack ack cs = ack_links ack false cs

unfoldable pub conn_register_srt_ack : ℕ → Link → Link
unfolding expire get_pkt_idx
conn_register_srt_ack ack c =
    let (log, count) = expire pkt_log_sz (get_pkt_idx c.pkt_idx) c.pkt_idx ack c.pkt_log 0 in
    record c { pkt_log = log; in_flight_pkts = count }

unfoldable pub register_srt_ack : ℕ → List Link → List Link
unfolding conn_register_srt_ack
register_srt_ack ack cs = map (conn_register_srt_ack ack) cs
