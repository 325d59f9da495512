-- ===== src/Source.antt =====
-- src/srtla-source.c: the OBS source, which runs a receiver in a thread and plays what the receiver
-- forwards through an internal media source. The operations are in the children named for them.
pub mod Media
pub mod Playing
pub mod Monitor
pub mod Ports
pub mod Update
pub mod Recover
pub mod Control
pub mod Receivers
mod Tests
use pyle_irl.Base.{
  ℕ, ◌+◌, ◌-◌, ◌*◌, ◌%◌, ◌^◌, Bool, true, false, ◌&&◌, Option, none, some, List, ◌∷◌, ltb,
}
use pyle_irl.Wire.{Bytes}

-- `enum srtla_recovery_action`
pub data Recovery : Type 0 where
  recovery_none recovery_reload recovery_restart : Recovery

-- A measured rate, `frames / elapsed` with the time in ns, where the source has a `double` in Hz.
pub record Rate : Type 0 where
  pub frames : ℕ
  pub elapsed : ℕ

-- `struct srtla_source`, with the name of its OBS source. Times are in ns. Not modelled: the OBS
-- source, the thread handle, what is only displayed (`current_audio_drift`, `current_audio_db`) and
-- what is only written (`last_audio_ts`, `last_original_ts`, `drift_since`, `initial_audio_delay`,
-- `was_connected`, `last_group_seq`).
pub record Source : Type 0 where
  pub name : Option Bytes
  pub media_source : Option ℕ
  pub listen_port : ℕ
  pub local_srt_port : ℕ
  pub listen_ip : Option Bytes
  pub latency : ℕ
  pub playback_engine : Option Bytes
  pub hw_decode : Bool
  pub stop_flag : Bool
  pub thread_running : Bool
  pub pending_recovery : Recovery
  pub last_audio_time : ℕ
  pub last_video_time : ℕ
  pub last_media_time : ℕ
  pub last_video_ts : ℕ
  pub last_network_bytes : ℕ
  pub last_network_time : ℕ
  pub connected_since : ℕ
  pub starved_since : ℕ
  pub last_recovery_time : ℕ
  pub recovery_attempts : ℕ
  pub current_stream_hz : Rate
  pub ts_window_start : ℕ
  pub frames_in_window : ℕ
  pub needs_reload : Bool
  pub initial_delay_set : Bool
  pub auto_reset_count : ℕ
  pub session_start_time : ℕ
  pub total_audio_frames_session : ℕ

abbrev pub no_rate : Rate
no_rate = record { frames = 0; elapsed = 1 }

-- `rate > 0 && rate < 30000.0`
abbrev pub is_low : Rate → Bool
is_low r = ltb 0 r.frames && ltb (r.frames * 10 ^ 9) (30000 * r.elapsed)

-- `uint64_t` subtraction.
abbrev pub sub64 : ℕ → ℕ → ℕ
sub64 a b = (a + 2 ^ 64 - b) % 2 ^ 64

-- `t > 0 && now - t < limit`
abbrev pub is_recent : ℕ → ℕ → ℕ → Bool
is_recent now limit t = ltb 0 t && ltb (sub64 now t) limit

-- `bzalloc`, and the port from the settings, if there are any.
abbrev pub zeroed_source : Option Bytes → Source
zeroed_source name = record {
  name = name;
  media_source = none;
  listen_port = 0;
  local_srt_port = 0;
  listen_ip = none;
  latency = 0;
  playback_engine = none;
  hw_decode = false;
  stop_flag = false;
  thread_running = false;
  pending_recovery = recovery_none;
  last_audio_time = 0;
  last_video_time = 0;
  last_media_time = 0;
  last_video_ts = 0;
  last_network_bytes = 0;
  last_network_time = 0;
  connected_since = 0;
  starved_since = 0;
  last_recovery_time = 0;
  recovery_attempts = 0;
  current_stream_hz = no_rate;
  ts_window_start = 0;
  frames_in_window = 0;
  needs_reload = false;
  initial_delay_set = false;
  auto_reset_count = 0;
  session_start_time = 0;
  total_audio_frames_session = 0;
}

-- `srtla_source_create`: the new source goes to the head of the list.
unfoldable pub srtla_source_create : Option Bytes → Option ℕ → List Source → List Source
srtla_source_create name none ss = zeroed_source name ∷ ss
srtla_source_create name (some port) ss = record (zeroed_source name) { listen_port = port } ∷ ss

-- `srtla_stop_thread`
unfoldable pub srtla_stop_thread : Source → Source
srtla_stop_thread s = record s { stop_flag = true; thread_running = false }
