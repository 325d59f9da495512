-- ===== src/RistSource/Tests.antt =====
-- Runs of src/rist-source.c on small lists of sources.
use pyle_irl.Base.{
  ℕ, ◌+◌, ◌^◌, ◌≤◌, ◌<◌, ◌≡◌, refl, ◌⊎◌, inl, true, false, none, some, List, [], ◌∷◌, arith, At,
}
use pyle_irl.Base.Int.{pos}
use pyle_irl.Rist.{no_peer, new_info}
use pyle_irl.Rist.Contexts.{RistTable, find_listener, count_peers, rist_get_peer_count_by_port}
use pyle_irl.RistSource.{RistSource}
use pyle_irl.RistSource.Playing.{
  has_peers, ever_had_frames, RistView, rist_is_playing, any_rist_playing, rist_is_media_playing,
}
use pyle_irl.RistSource.Playing.Evidence.{
  RistPlays, rist_is_media_playing-RistPlays, rist_is_media_playing-any_port,
}
use pyle_irl.RistSource.Recover.{watch_media, rist_scan_source}
use pyle_irl.RistSource.Recover.Attempts.{Silence, sees_frame, runs_recovery, silence, silence_lem}
use pyle_irl.RistSource.Update.{RistSettings, apply_rist_settings}
use pyle_irl.RistSource.Update.Settled.{apply_rist_settings_again}
use pyle_irl.Source.{zeroed_source}
use pyle_irl.Source.Media.{ffmpeg_player, Players}
use pyle_irl.Source.Monitor.{MediaView}

-- A receiver on port 6000 with one peer, seen at this time in ms.
abbrev heard_at : ℕ → RistTable
heard_at ms =
    some (record (new_info 6000) {
      peers = record no_peer { peer_id = 4; last_seen_ms = ms } ∷ [];
      peer_count = 1;
    })
    ∷ []

has_peers-heard : (ms : ℕ) → ms < 2 ^ 64 → 0 < ms → has_peers ms 6000 (heard_at ms) ≡ true
unfolding rist_get_peer_count_by_port find_listener count_peers
has_peers-heard ms small started = ground arith

abbrev rist_source : RistSource
rist_source = record {
  shared = record (zeroed_source none) {
    listen_port = 6000;
    thread_running = true;
    media_source = some 3;
    connected_since = 1;
    last_recovery_time = 1;
    last_video_time = 5000000000;
    last_network_time = 59900000000;
  };
  rist_profile = pos 1;
  rist_passphrase = none;
  rist_key_size = pos 128;
  rist_stream_id = pos 0;
}

abbrev ffmpeg_alone : Players
ffmpeg_alone p = elim p [ ffmpeg_player ↦ some 3 | _ ↦ none ]

abbrev a_picture : MediaView
a_picture = record {
  frame = some (record { width = 64; height = 36; timestamp = 77 });
  width = 64;
  media_time = 5;
}

abbrev rounds : List Silence
rounds =
    sees_frame 19900000000 a_picture
    ∷ runs_recovery 20000000000 20000 (heard_at 20000) ffmpeg_alone
    ∷ runs_recovery 40000000000 40000 (heard_at 40000) ffmpeg_alone
    ∷ []

silence_lem_example :
    let (s', n) = silence rounds rist_source.shared in
    (s'.recovery_attempts ≡ 0 + n) × (n ≤ 2) × ((n ≡ 0) ⊎ (s'.recovery_attempts ≤ 2))
silence_lem_example = silence_lem rounds rist_source.shared (omega arith) (
  has_peers-heard 20000 (omega arith) (omega arith),
  (has_peers-heard 40000 (omega arith) (omega arith), tt),
)

-- The recovery is asked for when the picture goes on without audio.
missing_audio :
    (rist_scan_source 20000000000 20000
      (heard_at 20000)
      (record rist_source.shared { last_video_time = 19900000000 })).1
    ≡ true
unfolding rist_scan_source watch_media rist_get_peer_count_by_port find_listener count_peers
missing_audio = refl

abbrev rist_defaults : RistSettings
rist_defaults = record {
  common = record {
    listen_port = 6000;
    listen_ip = some [];
    playback_engine = none;
    latency = pos 1000;
    hw_decode = true;
  };
  rist_profile = pos 1;
  rist_passphrase = some (112 ∷ 119 ∷ []);
  rist_key_size = pos 256;
  rist_stream_id = pos 7;
}

apply_rist_settings_again_example :
    let r' = apply_rist_settings 1000 ffmpeg_alone true rist_defaults 6000 rist_source in
    apply_rist_settings 2000 ffmpeg_alone true rist_defaults 6000 r' ≡ r'
apply_rist_settings_again_example =
    apply_rist_settings_again 1000 2000 ffmpeg_alone rist_defaults 6000 rist_source 3 refl

abbrev a_view : RistView
a_view = record { now = 60000000000; ms = 60000; base_width = λ _. 64 }

abbrev playing_source : RistSource
playing_source = record rist_source {
  shared = record rist_source.shared {
    last_audio_time = 59900000000;
    last_video_time = 59900000000;
  };
}

plays : rist_is_media_playing a_view (heard_at 60000) 6000 (playing_source ∷ []) ≡ true
unfolding rist_is_media_playing rist_get_peer_count_by_port find_listener count_peers
    ever_had_frames any_rist_playing rist_is_playing
plays = refl

rist_is_media_playing-RistPlays_example :
    ((i : ℕ) × At (λ (r : RistSource). RistPlays a_view 6000 r.shared) (playing_source ∷ []) i)
    × ((0 < rist_get_peer_count_by_port 60000 6000 (heard_at 60000))
        ⊎ (ever_had_frames 6000 (playing_source ∷ []) ≡ false))
rist_is_media_playing-RistPlays_example =
    rist_is_media_playing-RistPlays a_view (heard_at 60000) 6000 (playing_source ∷ []) plays

no_listener : find_listener 0 (heard_at 60000) ≡ none
unfolding find_listener
no_listener = refl

rist_is_media_playing-any_port_example :
    rist_is_media_playing a_view (heard_at 60000) 0 (playing_source ∷ []) ≡ false
rist_is_media_playing-any_port_example =
    rist_is_media_playing-any_port a_view (heard_at 60000) playing_source [] no_listener
      (inl (omega arith))
