-- ===== src/Source/Monitor.antt =====
-- What src/srtla-source.c measures: the audio callback and the tick of OBS.
use pyle_irl.Base.{
  ℕ, Bool, true, false, ◌&&◌, not, Option, none, some, ltb, leb, ◌==◌, if◌then◌else◌,
}
use pyle_irl.Receiver.Instances.{Table, srtla_get_total_bytes}
use pyle_irl.Receiver.State.{add64}
use pyle_irl.Source.{Source, sub64}
use pyle_irl.Source.Media.{Players, srtla_reload_media_source}

-- `srtla_audio_capture_cb` from its check on the window on.
abbrev pub count_frames : ℕ → ℕ → Source → Source
count_frames now frames s =
    if s.ts_window_start == 0
    then record s { ts_window_start = now; frames_in_window = frames }
    else if leb 2000000000 (sub64 now s.ts_window_start)
    then record s {
      current_stream_hz = record {
        frames = s.frames_in_window;
        elapsed = sub64 now s.ts_window_start;
      };
      ts_window_start = now;
      frames_in_window = frames;
    }
    else record s { frames_in_window = add64 s.frames_in_window frames }

abbrev pub start_session : ℕ → Source → Source
start_session now s = if s.initial_delay_set then s else record s {
  session_start_time = now;
  total_audio_frames_session = 0;
  initial_delay_set = true;
}

-- `has_info` says whether `obs_get_audio_info` has an answer. The samples that are passed on to OBS,
-- their peak and the log of the callback are left out.
unfoldable pub srtla_audio_capture_cb : ℕ → Bool → ℕ → Source → Source
srtla_audio_capture_cb now has_info frames s = elim s.media_source [
  | none ↦ s
  | some m ↦
      let s1 = record s { last_audio_time = now; recovery_attempts = 0 } in
      let s2 = start_session now s1 in
      let s3 =
        count_frames now frames
          (record s2 { total_audio_frames_session = add64 s2.total_audio_frames_session frames }) in
      if s.stop_flag then s else if has_info then s3 else s1
]

pub record Frame : Type 0 where
  pub width : ℕ
  pub height : ℕ
  pub timestamp : ℕ

-- What OBS says of the media source: its frame, its width and its time.
pub record MediaView : Type 0 where
  pub frame : Option Frame
  pub width : ℕ
  pub media_time : ℕ

abbrev pub note_frame : ℕ → Option Frame → Source → Source
note_frame now none s = s
note_frame now (some f) s =
    if ltb 0 f.width && ltb 0 f.height && not (f.timestamp == s.last_video_ts)
    then record s { last_video_time = now; last_video_ts = f.timestamp }
    else s

unfoldable pub srtla_check_video_frame_progress : ℕ → MediaView → Source → Source
srtla_check_video_frame_progress now v s = elim s.media_source [
  | none ↦ s
  | some m ↦
      let s1 = note_frame now v.frame s in
      if ltb 0 v.width && not (v.media_time == s1.last_media_time)
      then record s1 { last_video_time = now; last_media_time = v.media_time }
      else s1
]

-- The bytes that the receivers have on the port.
unfoldable pub note_bytes : ℕ → Table → Source → Source
note_bytes now t s =
    let bytes = srtla_get_total_bytes s.listen_port t in
    if ltb 0 s.listen_port && s.thread_running && not s.stop_flag
    then record s {
      last_network_time = if ltb s.last_network_bytes bytes then now else s.last_network_time;
      last_network_bytes = bytes;
    }
    else s

unfoldable pub srtla_source_video_tick : ℕ → Players → Table → MediaView → Source → Source
unfolding note_bytes
srtla_source_video_tick now players t v s =
    let s1 =
      if s.needs_reload
      then srtla_reload_media_source now players (record s { needs_reload = false })
      else s in
    srtla_check_video_frame_progress now v (note_bytes now t s1)
