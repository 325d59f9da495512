-- ===== src/Source/Media.antt =====
-- The internal media source of src/srtla-source.c.
use pyle_irl.Base.{ℕ, false, Option, none, some, [], ◌∷◌, if◌then◌else◌}
use pyle_irl.Source.{Source, no_rate}
use pyle_irl.Wire.{Bytes, same_text}

-- The players that `obs_source_create_private` can be asked for.
pub data Player : Type 0 where
  irl_player vlc_player ffmpeg_player : Player

-- The handle that each player's creation returns, or NULL.
abbrev pub Players : Type 0
Players = Player → Option ℕ

-- "irl_source"
abbrev pub irl_engine : Bytes
irl_engine = 105 ∷ 114 ∷ 108 ∷ 95 ∷ 115 ∷ 111 ∷ 117 ∷ 114 ∷ 99 ∷ 101 ∷ []

-- "vlc"
abbrev pub vlc_engine : Bytes
vlc_engine = 118 ∷ 108 ∷ 99 ∷ []

unfoldable pub wanted_player : Option Bytes → Player
wanted_player none = ffmpeg_player
wanted_player (some e) =
    if same_text e irl_engine
    then irl_player
    else if same_text e vlc_engine
    then vlc_player
    else ffmpeg_player

-- "Falling back to FFmpeg"
unfoldable pub create_player : Players → Player → Option ℕ
create_player players ffmpeg_player = players ffmpeg_player
create_player players p = elim (players p) [ some m ↦ some m | none ↦ players ffmpeg_player ]

-- The fields that `srtla_destroy_media_source_internal` resets.
unfoldable pub srtla_destroy_media_source_internal : Source → Source
srtla_destroy_media_source_internal s = record s {
  last_audio_time = 0;
  current_stream_hz = no_rate;
  starved_since = 0;
  ts_window_start = 0;
  frames_in_window = 0;
  initial_delay_set = false;
  session_start_time = 0;
  total_audio_frames_session = 0;
}

-- The new media source, and the fields that are set beside it.
unfoldable pub srtla_create_media_source_internal : ℕ → Players → Source → Source × Option ℕ
unfolding wanted_player create_player
srtla_create_media_source_internal now players s = (
  record s { starved_since = 0; last_recovery_time = now },
  create_player players (wanted_player s.playback_engine),
)

-- `media_source = NULL`, and the end of what it was.
unfoldable pub drop_media : Source → Source
unfolding srtla_destroy_media_source_internal
drop_media s = elim s.media_source [
  | none ↦ s
  | some m ↦ srtla_destroy_media_source_internal (record s { media_source = none })
]

unfoldable pub srtla_reload_media_source : ℕ → Players → Source → Source
unfolding drop_media srtla_create_media_source_internal
srtla_reload_media_source now players s =
    let (s', m) = srtla_create_media_source_internal now players (drop_media s) in
    record s' { media_source = m }
