-- ===== src/Rist/Tests.antt =====
-- Runs of src/rist_rec.c on small tables.
use pyle_irl.Base.{
  ◌≡◌, refl, true, false, ◌&&◌, none, some, List, [], ◌∷◌, ◌++◌, arith, length, ltb, if◌then◌else◌,
}
use pyle_irl.Rist.{
  Peer, Info, no_peer, new_info, Flow, sum_history, note_stats, find_slot, note_peer, note_peers,
  expire_peers, note_parsed, rist_stats_cb,
}
use pyle_irl.Rist.Contexts.{RistTable, add_rist_context, find_listener, rist_get_peer_count_by_port}
use pyle_irl.Rist.Details.{ShownInfo, listening, rist_get_connection_details}
use pyle_irl.Rist.Details.Json.{contexts_text, rist_get_connection_details_lem}
use pyle_irl.Rist.Main.{LibristAnswers}
use pyle_irl.Rist.Peers.{peer_count_agrees}
use pyle_irl.Rist.Window.{HasWindow, rist_stats_cb-HasWindow}
use pyle_irl.Text.{ascii, nothing_written}
use pyle_irl.Text.Writing.{buffered}

abbrev fresh_info : Info
fresh_info = new_info 6000

abbrev one_flow : Flow
one_flow = record {
  received = 700;
  peer_count = 9;
  parsed = some (
    some (record {
      lost = some 3;
      dropped_late = none;
      dropped_full = some 1;
      retries = some 2;
      missing_queue = none;
    }),
    record { id = 4; bitrate = 1600; rtt = some 20 } ∷ [],
  );
}

abbrev rist_table : RistTable
rist_table = none ∷ some (rist_stats_cb 5000 one_flow fresh_info) ∷ []

fresh_info-HasWindow : HasWindow fresh_info
fresh_info-HasWindow = record { index = omega arith; whole_lost = refl; whole_retries = refl }

rist_stats_cb-HasWindow_example : HasWindow (rist_stats_cb 5000 one_flow fresh_info)
rist_stats_cb-HasWindow_example =
    rist_stats_cb-HasWindow 5000 one_flow fresh_info fresh_info-HasWindow

listens : find_listener 6000 rist_table ≡ some (rist_stats_cb 5000 one_flow fresh_info)
unfolding find_listener rist_stats_cb note_parsed note_stats note_peers note_peer find_slot
    expire_peers sum_history
listens = refl

peer_count_agrees_example :
    rist_get_peer_count_by_port 5000 6000 rist_table
    ≡ (rist_stats_cb 5000 one_flow fresh_info).peer_count
peer_count_agrees_example =
    peer_count_agrees 5000 6000 one_flow
      (
        some (record {
          lost = some 3;
          dropped_late = none;
          dropped_full = some 1;
          retries = some 2;
          missing_queue = none;
        }),
        record { id = 4; bitrate = 1600; rtt = some 20 } ∷ [],
      )
      fresh_info rist_table refl listens

abbrev two_peers : List Peer
two_peers = no_peer ∷ record { peer_id = 4; cumulative_bytes = 0; last_seen_ms = 9 } ∷ []

added : add_rist_context 6000 (none ∷ []) ≡ some (0, some (new_info 6000) ∷ [])
unfolding add_rist_context
added = refl

abbrev shown_info : ShownInfo
shown_info = record {
  info = fresh_info;
  shown_quality = ascii "99.5";
  shown_peers =
      record {
        known_peer = record no_peer { peer_id = 4; last_seen_ms = 4000; cumulative_bytes = 100 };
        ip = ascii "10.0.0.2";
        port = 8000;
      }
      ∷ [];
}

rist_get_connection_details_lem_example :
    let body = contexts_text 5000 (listening (none ∷ some shown_info ∷ [])) in
    rist_get_connection_details true 16384 5000 (none ∷ some shown_info ∷ []) ≡ (
      if true && ltb 0 16384
      then (if ltb 16384 (length body) then none else some (buffered 16384 (body ++ ascii "]}")))
      else some nothing_written)
rist_get_connection_details_lem_example =
    rist_get_connection_details_lem true 16384 5000 (none ∷ some shown_info ∷ [])

abbrev no_peer_made : LibristAnswers
no_peer_made = record {
  on_windows = true;
  winsock_started = true;
  udp_socket_opened = true;
  logging_set = true;
  receiver_created = true;
  address_parsed = true;
  peer_created = false;
  receiver_started = true;
}
