-- ===== src/Source/Tests.antt =====
-- Runs of src/srtla-source.c on small lists of sources.
use pyle_irl.Base.{
  ℕ, ◌+◌, ◌≡◌, refl, inl, inr, true, false, ◌&&◌, none, some, List, [], ◌∷◌, ◌++◌, arith, length,
  At, ltb, if◌then◌else◌,
}
use pyle_irl.Base.Int.{pos}
use pyle_irl.Receiver.Instances.{
  Table, new_ctx, find_port, srtla_get_total_bytes, srtla_get_group_count_by_port,
}
use pyle_irl.Receiver.State.{linux, active, Group}
use pyle_irl.Source.{Source, zeroed_source, srtla_source_create}
use pyle_irl.Source.Control.{srtla_force_stop}
use pyle_irl.Source.Control.Stopped.{srtla_force_stop_lem}
use pyle_irl.Source.Media.{ffmpeg_player, Players, irl_engine}
use pyle_irl.Source.Playing.{View, is_playing, srtla_is_media_playing}
use pyle_irl.Source.Playing.Evidence.{Plays, srtla_is_media_playing-Plays}
use pyle_irl.Source.Ports.{has_port, choose_port}
use pyle_irl.Source.Ports.Search.{AllTaken, choose_port_new}
use pyle_irl.Source.Receivers.{Shown, srtla_get_all_receivers_json}
use pyle_irl.Source.Receivers.Json.{open_array, receiver_texts, srtla_get_all_receivers_json_lem}
use pyle_irl.Source.Recover.{watch_audio, scan_source}
use pyle_irl.Source.Update.{Settings, srtla_source_update}
use pyle_irl.Source.Update.Unique.{Separate, srtla_source_update-Separate, created_source_collides}
use pyle_irl.Text.{ascii, nothing_written}
use pyle_irl.Text.Writing.{buffered}

abbrev first_source : Source
first_source = record (zeroed_source none) { listen_port = 5000 }

abbrev second_source : Source
second_source = record (zeroed_source none) { listen_port = 5001 }

abbrev fresh_source : Source
fresh_source = zeroed_source (some (65 ∷ []))

abbrev defaults : Settings
defaults = record {
  listen_port = 5000;
  listen_ip = some [];
  playback_engine = some irl_engine;
  latency = pos 4000;
  hw_decode = true;
}

abbrev ffmpeg_only : Players
ffmpeg_only p = elim p [ ffmpeg_player ↦ some 3 | _ ↦ none ]

choose_port_new_example :
    (d : ℕ) × (choose_port 5000 fresh_source (first_source ∷ second_source ∷ []) ≡ some (5000 + d))
    × (has_port (5000 + d) (first_source ∷ second_source ∷ []) ≡ false)
    × AllTaken d 5000 (first_source ∷ second_source ∷ [])
choose_port_new_example = choose_port_new 5000 fresh_source (first_source ∷ second_source ∷ []) refl

default_port-taken : has_port 5000 (first_source ∷ []) ≡ true
unfolding has_port
default_port-taken = refl

created_source_collides_example :
    (s : Source) × (srtla_source_update 1000 ffmpeg_only true defaults 0
        (srtla_source_create none (some 5000) (first_source ∷ []))
      ≡ some (s ∷ first_source ∷ [], defaults))
    × (s.listen_port ≡ 5000)
created_source_collides_example =
    created_source_collides 1000 ffmpeg_only true defaults none (first_source ∷ []) (omega arith)
      default_port-taken

two_sources-Separate : Separate (first_source ∷ fresh_source ∷ [])
unfolding has_port
two_sources-Separate = (inr refl, (inl refl, tt))

srtla_source_update-Separate_example :
    (ss' : List Source) × (cfg' : Settings) × (srtla_source_update 1000 ffmpeg_only true defaults 1
        (first_source ∷ fresh_source ∷ [])
      ≡ some (ss', cfg'))
    × Separate ss'
srtla_source_update-Separate_example =
    srtla_source_update-Separate 1000 ffmpeg_only true defaults 1 (first_source ∷ fresh_source ∷ [])
      two_sources-Separate

abbrev live_group : Group
live_group = record {
  node = 16;
  conns = [];
  created_at = 0;
  srt_sock = none;
  last_addr = [];
  id = [];
  logical_group_id = 1;
  state = active;
  next_srt_retry_ms = 0;
  srt_retry_attempts = 0;
  bytes_received = 900;
}

abbrev live_table : Table
live_table =
    some (record (new_ctx linux 5000) { groups = live_group ∷ []; group_count = pos 1 }) ∷ []

-- The time of the tests, in ns.
abbrev at_time : ℕ
at_time = 60000000000

abbrev slow_source : Source
slow_source = record first_source {
  thread_running = true;
  media_source = some 3;
  connected_since = 1;
  last_recovery_time = 1;
  last_audio_time = 59900000000;
  last_network_time = 59900000000;
  starved_since = 50000000000;
  current_stream_hz = record { frames = 40000; elapsed = 2000000000 };
}

srtla_force_stop_lem_example :
    let (s', t') = srtla_force_stop slow_source live_table in
    (srtla_is_media_playing
        (record { now = at_time; poor_quality = false; base_width = λ m. 1920 })
        5000
        (s' ∷ [])
      ≡ false)
    × (s'.media_source ≡ none)
    × (srtla_get_group_count_by_port 5000 t' ≡ pos 0)
    × (srtla_get_total_bytes 5000 t' ≡ 0)
srtla_force_stop_lem_example =
    srtla_force_stop_lem (record { now = at_time; poor_quality = false; base_width = λ m. 1920 })
      5000 slow_source live_table

slow_source-hung : (scan_source at_time live_table slow_source).1 ≡ true
unfolding scan_source watch_audio srtla_get_group_count_by_port find_port
slow_source-hung = refl

abbrev any_view : View
any_view = record { now = at_time; poor_quality = false; base_width = λ m. 0 }

slow_source-playing : srtla_is_media_playing any_view 5000 (slow_source ∷ []) ≡ false
unfolding srtla_is_media_playing is_playing
slow_source-playing = refl

abbrev good_source : Source
good_source = record slow_source { connected_since = 59000000000 }

good_source-playing : srtla_is_media_playing any_view 5000 (good_source ∷ []) ≡ true
unfolding srtla_is_media_playing is_playing
good_source-playing = refl

srtla_is_media_playing-Plays_example : (i : ℕ) × At (Plays any_view 5000) (good_source ∷ []) i
srtla_is_media_playing-Plays_example =
    srtla_is_media_playing-Plays any_view 5000 (good_source ∷ []) good_source-playing

abbrev a_shown : Shown
a_shown = record { drift_ms = ascii "0"; audio_db = ascii "-100.0" }

srtla_get_all_receivers_json_lem_example :
    let body = open_array (receiver_texts at_time live_table ((fresh_source, a_shown) ∷ [])) in
    srtla_get_all_receivers_json true 64 at_time live_table ((fresh_source, a_shown) ∷ []) ≡ (
      if true && ltb 0 64
      then (if ltb 64 (length body) then none else some (buffered 64 (body ++ ascii "]")))
      else some nothing_written)
srtla_get_all_receivers_json_lem_example =
    srtla_get_all_receivers_json_lem true 64 at_time live_table ((fresh_source, a_shown) ∷ [])
