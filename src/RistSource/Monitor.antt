-- ===== src/RistSource/Monitor.antt =====
-- What src/rist-source.c measures: the audio callback and the tick of OBS.
use pyle_irl.Base.{ℕ, Bool, false, ◌&&◌, not, ltb, if◌then◌else◌}
use pyle_irl.Rist.Contexts.{RistTable, rist_get_total_bytes}
use pyle_irl.RistSource.{RistSource, on_shared, rist_reload_media_source}
use pyle_irl.Source.{Source}
use pyle_irl.Source.Media.{Players}
use pyle_irl.Source.Monitor.{srtla_audio_capture_cb, MediaView, srtla_check_video_frame_progress}

-- `rist_audio_capture_cb`
unfoldable pub rist_audio_capture_cb : ℕ → Bool → ℕ → RistSource → RistSource
unfolding srtla_audio_capture_cb
rist_audio_capture_cb now has_info frames = on_shared (srtla_audio_capture_cb now has_info frames)

unfoldable pub rist_check_video_frame_progress : ℕ → MediaView → RistSource → RistSource
unfolding srtla_check_video_frame_progress
rist_check_video_frame_progress now v = on_shared (srtla_check_video_frame_progress now v)

-- The bytes that the RIST receiver has on the port.
unfoldable pub note_rist_bytes : ℕ → RistTable → Source → Source
note_rist_bytes now t s =
    let bytes = rist_get_total_bytes s.listen_port t in
    if ltb 0 s.listen_port && s.thread_running && not s.stop_flag
    then record s {
      last_network_time = if ltb s.last_network_bytes bytes then now else s.last_network_time;
      last_network_bytes = bytes;
    }
    else s

unfoldable pub rist_source_video_tick :
    ℕ → Players → RistTable → MediaView → RistSource → RistSource
unfolding note_rist_bytes rist_reload_media_source rist_check_video_frame_progress
rist_source_video_tick now players t v r =
    let r1 =
      if r.shared.needs_reload
      then rist_reload_media_source now players
          (on_shared (λ s. record s { needs_reload = false }) r)
      else r in
    rist_check_video_frame_progress now v (on_shared (note_rist_bytes now t) r1)
