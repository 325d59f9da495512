-- ===== src/Rist/Window.antt =====
-- The window of the last 30 figures (src/rist_rec.c).
use pyle_irl.Base.{
  ℕ, ◌+◌, ◌%◌, ◌^◌, ◌<◌, ◌≡◌, ◌∙◌, inl, inr, Option, none, some, List, [], ◌∷◌, arith, length,
  length-set, Option-cases,
}
use pyle_irl.Receiver.State.{add64}
use pyle_irl.Rist.{
  Info, history_length, add32, FlowStats, PeerStats, Flow, sum_history, note_stats, note_peers,
  note_flow_stats, note_parsed, rist_stats_cb,
}

-- The index is one of the window, and both windows are whole.
pub record HasWindow (info : Info) : Type 0 where
  pub index : info.history_index < history_length
  pub whole_lost : length info.lost_history ≡ history_length
  pub whole_retries : length info.retries_history ≡ history_length

note_stats-HasWindow :
    (f : FlowStats) (info : Info) → HasWindow info → HasWindow (note_stats f info)
unfolding note_stats
note_stats-HasWindow f info h = record {
  index = omega arith;
  whole_lost = length-set info.lost_history info.history_index _ ∙ h.whole_lost;
  whole_retries = length-set info.retries_history info.history_index _ ∙ h.whole_retries;
}

note_peers-HasWindow :
    (now : ℕ) (ps : List PeerStats) (info : Info)
    → HasWindow info
    → HasWindow (note_peers now ps info)
unfolding note_peers
note_peers-HasWindow now [] info h = h
note_peers-HasWindow now (s ∷ ss) info h =
    note_peers-HasWindow now ss _
      (record { index = h.index; whole_lost = h.whole_lost; whole_retries = h.whole_retries })

note_flow_stats-HasWindow :
    (stats : Option FlowStats) (info : Info)
    → HasWindow info
    → HasWindow (note_flow_stats stats info)
note_flow_stats-HasWindow none info h = h
note_flow_stats-HasWindow (some f) info h = note_stats-HasWindow f info h

note_parsed-HasWindow :
    (now : ℕ) (parsed : Option FlowStats × List PeerStats) (info : Info)
    → HasWindow info
    → HasWindow (note_parsed now parsed info)
unfolding note_parsed
note_parsed-HasWindow now (stats, ps) info h =
    let v =
      note_peers-HasWindow now ps (note_flow_stats stats info)
        (note_flow_stats-HasWindow stats info h) in
    record { index = v.index; whole_lost = v.whole_lost; whole_retries = v.whole_retries }

-- The callback keeps both windows at their length and the index inside them, for any figures, so
-- that no entry is written out of bounds.
pub rist_stats_cb-HasWindow :
    (now : ℕ) (f : Flow) (info : Info) → HasWindow info → HasWindow (rist_stats_cb now f info)
unfolding rist_stats_cb
rist_stats_cb-HasWindow now f info h =
    let start : HasWindow (record info {
      peer_count = f.peer_count;
      total_bytes = add64 info.total_bytes f.received;
    }) =
      record { index = h.index; whole_lost = h.whole_lost; whole_retries = h.whole_retries } in
    elim (Option-cases f.parsed) [
      | inl e ↦ rw (e, rist_stats_cb) start
      | inr (parsed, e) ↦ rw (e, rist_stats_cb) (note_parsed-HasWindow now parsed _ start)
    ]

abbrev pub sum : List ℕ → ℕ
sum [] = 0
sum (n ∷ ns) = n + sum ns

sum_history_lem :
    (ns : List ℕ) (total : ℕ) → total < 2 ^ 32 → sum_history ns total ≡ (total + sum ns) % 2 ^ 32
unfolding sum_history
sum_history_lem [] total h = omega arith
sum_history_lem (n ∷ ns) total h =
    let rest = sum_history_lem ns (add32 total n) (omega arith) in omega (arith, rest)

-- The totals that are reported are the sums of the windows modulo 2^32, the newest figures
-- included.
pub note_stats-sum :
    (f : FlowStats) (info : Info)
    → let r = note_stats f info in
      (r.lost_packets ≡ sum r.lost_history % 2 ^ 32) × (r.retries ≡ sum r.retries_history % 2 ^ 32)
unfolding note_stats
note_stats-sum f info = (
  sum_history_lem _ 0 (omega arith) ∙ omega arith,
  sum_history_lem _ 0 (omega arith) ∙ omega arith,
)
