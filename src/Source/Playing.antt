-- ===== src/Source/Playing.antt =====
-- `srtla_is_media_playing` and `srtla_is_audio_starved` of src/srtla-source.c, which other threads
-- ask for to decide on a failover.
pub mod Evidence
use pyle_irl.Base.{
  ℕ, Bool, true, false, ◌&&◌, ◌||◌, not, none, some, List, [], ◌∷◌, ltb, leb, ◌==◌, if◌then◌else◌,
}
use pyle_irl.Base.Int.{pos, leb_ℤ}
use pyle_irl.Receiver.Instances.{Table, srtla_get_group_count_by_port}
use pyle_irl.Source.{Source, sub64, is_recent}

-- `groups > 0`, for the groups that the receivers have on the port.
abbrev pub has_groups : ℕ → Table → Bool
has_groups port t = leb_ℤ (pos 1) (srtla_get_group_count_by_port port t)

-- `srtla_is_audio_starved_locked`
unfoldable pub srtla_is_audio_starved_locked : ℕ → Table → Source → Bool
srtla_is_audio_starved_locked now t s =
    has_groups s.listen_port t
    && is_recent now 2000000000 s.last_video_time
    && ltb 0 s.starved_since
    && leb 6000000000 (sub64 now s.starved_since)

unfoldable pub srtla_is_audio_starved : ℕ → Table → ℕ → List Source → Bool
srtla_is_audio_starved now t port [] = false
srtla_is_audio_starved now t port (s ∷ ss) =
    let rest = srtla_is_audio_starved now t port ss in
    if s.listen_port == port then srtla_is_audio_starved_locked now t s else rest

-- What the loop reads beside the sources: the clock, `srtla_global_quality < 15.0`, and the width
-- that OBS reports for a media source.
pub record View : Type 0 where
  pub now : ℕ
  pub poor_quality : Bool
  pub base_width : ℕ → ℕ

abbrev pub video_playing : View → Source → Bool
video_playing v s =
    let fresh = is_recent v.now 750000000 s.last_video_time && not v.poor_quality in
    elim s.media_source [ none ↦ fresh | some m ↦ ltb 0 (v.base_width m) && fresh ]

-- "Connected for >3s but still no video frames locked"
abbrev pub lacks_video : View → Source → Bool
lacks_video v s = elim s.media_source [
  | none ↦ false
  | some m ↦ ltb 0 s.connected_since && ltb 3000000000 (sub64 v.now s.connected_since)
]

-- One round of the loop past the two `continue`: whether it ends the loop with `playing = true`.
unfoldable pub is_playing : View → Source → Bool
is_playing v s =
    let audio_playing = is_recent v.now 750000000 s.last_audio_time in
    if not (is_recent v.now 1500000000 s.last_network_time)
    then false
    else if ltb 0 s.last_audio_time && ltb 0 s.last_video_time
    then audio_playing && video_playing v s
    else if ltb 0 s.last_audio_time
    then not (lacks_video v s) && audio_playing
    else ltb 0 s.last_video_time && video_playing v s

-- Port 0 asks for any source.
abbrev pub is_asked_for : ℕ → Source → Bool
is_asked_for port s = port == 0 || s.listen_port == port

unfoldable pub srtla_is_media_playing : View → ℕ → List Source → Bool
srtla_is_media_playing v port [] = false
srtla_is_media_playing v port (s ∷ ss) =
    let rest = srtla_is_media_playing v port ss in
    if is_asked_for port s && s.thread_running && not s.stop_flag && is_playing v s
    then true
    else rest
