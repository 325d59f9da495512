-- ===== src/Sender/Naks.antt =====
-- Loss reports of the SRT server (src/srtla/srtla_send.c).
pub mod Loop
pub mod Report
use pyle_irl.Base.{
  ℕ, zero, suc, ◌+◌, ◌-◌, ◌%◌, ◌^◌, max, Option, none, some, List, [], ◌∷◌, ◌++◌, set, ltb, leb,
  if◌then◌else◌,
}
use pyle_irl.Sender.Log.{find_in_log}
use pyle_irl.Sender.State.{window_min, window_decr, no_pkt, Link}

abbrev pub nak_at : ℕ → Link → Link
nak_at i c = record c {
  pkt_log = set c.pkt_log i no_pkt;
  window = max (c.window - window_decr) window_min;
}

-- The first link that has the packet in its log loses it.
unfoldable pub register_nak : ℕ → List Link → List Link
unfolding find_in_log
register_nak p [] = []
register_nak p (c ∷ cs) = elim (find_in_log p c) [
  | none ↦ c ∷ register_nak p cs
  | some i ↦ nak_at i c ∷ cs
]

unfoldable pub register_naks : List ℕ → List Link → List Link
unfolding register_nak
register_naks [] cs = cs
register_naks (p ∷ ps) cs = register_naks ps (register_nak p cs)

abbrev pub append_naks : Option (List ℕ) → Option (List ℕ) → Option (List ℕ)
append_naks (some ps) (some qs) = some (ps ++ qs)
append_naks _ _ = none

-- `for (int32_t lost = id; lost <= last_id; lost++)` from `lost` on, where the comparison is one of
-- `uint32_t`; `none` where it has not ended after this many tests. Past the largest `int` the increment
-- is undefined in C; the model wraps around.
unfoldable pub nak_loop : ℕ → ℕ → ℕ → Option (List ℕ)
nak_loop zero lost last = none
nak_loop (suc tests) lost last =
    let rest = nak_loop tests ((lost + 1) % 2 ^ 32) last in
    if leb lost last then append_naks (some (lost ∷ [])) rest else some []

-- The tests are as many as there are packets in the range, and one more.
unfoldable pub nak_range : ℕ → ℕ → Option (List ℕ)
unfolding nak_loop
nak_range first last = nak_loop (suc (last + 1 - first)) first last

-- The words of the packet from the fifth on, and the word that lies behind them in memory, which the
-- loop reads where the last one starts a range.
unfoldable pub nak_pkts : List ℕ → ℕ → Option (List ℕ)
unfolding nak_range
nak_pkts [] behind = some []
nak_pkts (w ∷ []) behind = if ltb w (2 ^ 31) then some (w ∷ []) else nak_range (w - 2 ^ 31) behind
nak_pkts (w ∷ v ∷ ws) behind =
    let one = nak_pkts (v ∷ ws) behind in
    let two = nak_pkts ws behind in
    if ltb w (2 ^ 31)
    then append_naks (some (w ∷ [])) one
    else append_naks (nak_range (w - 2 ^ 31) v) two
