-- ===== src/RistSource/Playing.antt =====
-- `rist_is_media_playing` and `rist_is_audio_starved` of src/rist-source.c, which other threads ask
-- for to decide on a failover.
pub mod Evidence
use pyle_irl.Base.{
  ℕ, Bool, true, false, ◌&&◌, ◌||◌, not, none, some, List, [], ◌∷◌, ltb, leb, ◌==◌, if◌then◌else◌,
}
use pyle_irl.Rist.Contexts.{RistTable, rist_get_peer_count_by_port}
use pyle_irl.RistSource.{RistSource}
use pyle_irl.Source.{Source, sub64, is_recent}
use pyle_irl.Source.Playing.{is_asked_for}

-- `rist_get_peer_count_by_port(port) > 0`, with the clock in ms.
abbrev pub has_peers : ℕ → ℕ → RistTable → Bool
has_peers ms port t = ltb 0 (rist_get_peer_count_by_port ms port t)

unfoldable pub rist_is_audio_starved_locked : ℕ → ℕ → RistTable → RistSource → Bool
rist_is_audio_starved_locked now ms t r =
    has_peers ms r.shared.listen_port t
    && is_recent now 2000000000 r.shared.last_video_time
    && ltb 0 r.shared.starved_since
    && leb 6000000000 (sub64 now r.shared.starved_since)

unfoldable pub rist_is_audio_starved : ℕ → ℕ → RistTable → ℕ → List RistSource → Bool
rist_is_audio_starved now ms t port [] = false
rist_is_audio_starved now ms t port (r ∷ rs) =
    let rest = rist_is_audio_starved now ms t port rs in
    if r.shared.listen_port == port then rist_is_audio_starved_locked now ms t r else rest

-- The first source with the port, or at all for port 0: whether it has had frames.
unfoldable pub ever_had_frames : ℕ → List RistSource → Bool
ever_had_frames port [] = false
ever_had_frames port (r ∷ rs) =
    let rest = ever_had_frames port rs in
    if is_asked_for port r.shared
    then ltb 0 r.shared.last_audio_time || ltb 0 r.shared.last_video_time
    else rest

-- What is read beside the sources: the clock, in ns and for the receivers in ms, and the width that
-- OBS reports for a media source.
pub record RistView : Type 0 where
  pub now : ℕ
  pub ms : ℕ
  pub base_width : ℕ → ℕ

abbrev pub rist_video_playing : RistView → Source → Bool
rist_video_playing v s =
    let fresh = is_recent v.now 750000000 s.last_video_time in
    elim s.media_source [ none ↦ fresh | some m ↦ not (v.base_width m == 0) && fresh ]

abbrev pub rist_lacks_video : RistView → Source → Bool
rist_lacks_video v s = elim s.media_source [
  | none ↦ false
  | some m ↦ ltb 0 s.connected_since && ltb 3000000000 (sub64 v.now s.connected_since)
]

-- One round of the loop past the two `continue`: whether it ends the loop with `playing = true`.
unfoldable pub rist_is_playing : RistView → Source → Bool
rist_is_playing v s =
    let audio_playing = is_recent v.now 750000000 s.last_audio_time in
    if not (is_recent v.now 1500000000 s.last_network_time)
    then false
    else if ltb 0 s.last_audio_time && ltb 0 s.last_video_time
    then audio_playing && rist_video_playing v s
    else if ltb 0 s.last_audio_time
    then not (rist_lacks_video v s) && audio_playing
    else ltb 0 s.last_video_time && rist_video_playing v s

unfoldable pub any_rist_playing : RistView → ℕ → List RistSource → Bool
any_rist_playing v port [] = false
any_rist_playing v port (r ∷ rs) =
    let rest = any_rist_playing v port rs in
    let s = r.shared in
    if is_asked_for port s && s.thread_running && not s.stop_flag && rist_is_playing v s
    then true
    else rest

unfoldable pub rist_is_media_playing : RistView → RistTable → ℕ → List RistSource → Bool
unfolding ever_had_frames any_rist_playing
rist_is_media_playing v t port rs =
    if rist_get_peer_count_by_port v.ms port t == 0 && ever_had_frames port rs
    then false
    else any_rist_playing v port rs
