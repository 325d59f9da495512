-- ===== src/Rist.antt =====
-- src/rist_rec.c: what the plugin keeps of its RIST receivers. The protocol is librist's; it calls
-- `rist_stats_cb` with the figures of a flow.
pub mod Peers
pub mod Window
pub mod Contexts
pub mod Slots
pub mod Details
pub mod Main
mod Tests
use pyle_irl.Base.{
  ℕ, suc, ◌+◌, ◌/◌, ◌%◌, ◌^◌, Bool, true, ◌&&◌, Option, none, some, List, [], ◌∷◌, set, replicate,
  modify, ltb, ◌==◌, if◌then◌else◌,
}
use pyle_irl.Receiver.State.{add64}
use pyle_irl.Source.{sub64}

-- `rist_peer_t`, without the address, which is only displayed.
pub record Peer : Type 0 where
  pub peer_id : ℕ
  pub cumulative_bytes : ℕ
  pub last_seen_ms : ℕ

-- `rist_ctx_info_t`, without the cached JSON text and the quality, a `double`.
pub record Info : Type 0 where
  pub listen_port : ℕ
  pub is_listening : Bool
  pub total_bytes : ℕ
  pub peer_count : ℕ
  pub peers : List Peer
  pub lost_packets : ℕ
  pub retries : ℕ
  pub missing_queue : ℕ
  pub rtt : ℕ
  pub lost_history : List ℕ
  pub retries_history : List ℕ
  pub history_index : ℕ

abbrev pub no_peer : Peer
no_peer = record { peer_id = 0; cumulative_bytes = 0; last_seen_ms = 0 }

abbrev pub history_length : ℕ
history_length = 30

abbrev pub max_peers : ℕ
max_peers = 32

-- `bzalloc`, then the two fields that `add_rist_context` sets.
abbrev pub new_info : ℕ → Info
new_info port = record {
  listen_port = port;
  is_listening = true;
  total_bytes = 0;
  peer_count = 0;
  peers = replicate max_peers no_peer;
  lost_packets = 0;
  retries = 0;
  missing_queue = 0;
  rtt = 0;
  lost_history = replicate history_length 0;
  retries_history = replicate history_length 0;
  history_index = 0;
}

-- `uint32_t` addition.
abbrev pub add32 : ℕ → ℕ → ℕ
add32 a b = (a + b) % 2 ^ 32

-- The "stats" object of a flow: the integers that it has, none negative.
pub record FlowStats : Type 0 where
  pub lost : Option ℕ
  pub dropped_late : Option ℕ
  pub dropped_full : Option ℕ
  pub retries : Option ℕ
  pub missing_queue : Option ℕ

-- An entry of the "peers" array that has a "stats" object. `bitrate` is in whole bits per second.
pub record PeerStats : Type 0 where
  pub id : ℕ
  pub bitrate : ℕ
  pub rtt : Option ℕ

-- What the callback gets: the bytes and peers of the flow and its parsed JSON text, if it parses.
pub record Flow : Type 0 where
  pub received : ℕ
  pub peer_count : ℕ
  pub parsed : Option (Option FlowStats × List PeerStats)

abbrev pub or_zero : Option ℕ → ℕ
or_zero none = 0
or_zero (some n) = n % 2 ^ 32

-- The sum of the window, from the first entry on.
unfoldable pub sum_history : List ℕ → ℕ → ℕ
sum_history [] total = total
sum_history (n ∷ ns) total = sum_history ns (add32 total n)

-- "30s sliding window"
unfoldable pub note_stats : FlowStats → Info → Info
note_stats f info =
    let current_lost =
      add32 (add32 (or_zero f.lost) (or_zero f.dropped_late)) (or_zero f.dropped_full) in
    let lost_history = set info.lost_history info.history_index current_lost in
    let retries_history = set info.retries_history info.history_index (or_zero f.retries) in
    record info {
      lost_history = lost_history;
      retries_history = retries_history;
      history_index = (info.history_index + 1) % history_length;
      lost_packets = sum_history lost_history 0;
      retries = sum_history retries_history 0;
      missing_queue = elim f.missing_queue [ none ↦ info.missing_queue | some n ↦ n % 2 ^ 32 ];
    }

abbrev pub is_seen : Peer → Bool
is_seen p = ltb 0 p.last_seen_ms

-- `slot == -1 && info->peers[i].last_seen_ms == 0`
abbrev pub first_free : Option ℕ → ℕ → Peer → Option ℕ
first_free (some j) i p = some j
first_free none i p = if is_seen p then none else some i

-- "Find or create peer": the loop from index `i` on, with the first free slot so far.
unfoldable pub find_slot : ℕ → List Peer → ℕ → Option ℕ → Option ℕ
find_slot id [] i slot = slot
find_slot id (p ∷ ps) i slot =
    let rest = find_slot id ps (suc i) (first_free slot i p) in
    if p.peer_id == id && is_seen p then some i else rest

abbrev pub refresh : ℕ → PeerStats → Peer → Peer
refresh now s p = record {
  peer_id = s.id;
  cumulative_bytes = add64 p.cumulative_bytes (s.bitrate / 16);
  last_seen_ms = now;
}

-- One round of the loop over the "peers" array.
unfoldable pub note_peer : ℕ → PeerStats → List Peer → List Peer
note_peer now s peers = elim (find_slot s.id peers 0 none) [
  | none ↦ peers
  | some i ↦ modify i (refresh now s) peers
]

unfoldable pub note_peers : ℕ → List PeerStats → Info → Info
note_peers now [] info = info
note_peers now (s ∷ ss) info = note_peers now ss (record info {
  peers = note_peer now s info.peers;
  rtt = elim s.rtt [ none ↦ info.rtt | some n ↦ n % 2 ^ 32 ];
})

-- "Cleanup stale peers (not seen in 2 seconds)": the peers and how many are active.
unfoldable pub expire_peers : ℕ → List Peer → List Peer × ℕ
expire_peers now [] = ([], 0)
expire_peers now (p ∷ ps) =
    let (rest, n) = expire_peers now ps in
    if is_seen p
    then (if ltb 2000 (sub64 now p.last_seen_ms)
        then (record p { last_seen_ms = 0; cumulative_bytes = 0 } ∷ rest, n)
        else (p ∷ rest, suc n))
    else (p ∷ rest, n)

abbrev pub note_flow_stats : Option FlowStats → Info → Info
note_flow_stats none info = info
note_flow_stats (some f) info = note_stats f info

unfoldable pub note_parsed : ℕ → Option FlowStats × List PeerStats → Info → Info
unfolding note_peers expire_peers
note_parsed now (stats, ps) info =
    let info1 = note_peers now ps (note_flow_stats stats info) in
    let (peers, active_peers) = expire_peers now info1.peers in
    record info1 { peers = peers; peer_count = active_peers }

-- `rist_stats_cb` for a flow of this context, at the time `now` in ms.
unfoldable pub rist_stats_cb : ℕ → Flow → Info → Info
rist_stats_cb now f info =
    let info1 = record info {
      peer_count = f.peer_count;
      total_bytes = add64 info.total_bytes f.received;
    } in
    elim f.parsed [ none ↦ info1 | some parsed ↦ note_parsed now parsed info1 ]
