-- ===== src/RistSource/Playing/Evidence.antt =====
-- What `rist_is_media_playing` (src/rist-source.c) goes by.
use pyle_irl.Base.{
  ℕ, suc, ◌<◌, ◌≡◌, ◌⊎◌, inl, inr, true, false, ◌&&◌, not, none, List, [], ◌∷◌, arith, At, ◌==◌,
  Bool-cases, Option-cases,
}
use pyle_irl.Rist.Contexts.{RistTable, find_listener, rist_get_peer_count_by_port}
use pyle_irl.RistSource.{RistSource}
use pyle_irl.RistSource.Playing.{
  ever_had_frames, RistView, rist_is_playing, any_rist_playing, rist_is_media_playing,
}
use pyle_irl.Source.{Source}
use pyle_irl.Source.Playing.{is_asked_for}
use pyle_irl.Source.Playing.Evidence.{IsRecent}

-- A source that counts as playing for a query on the port.
abbrev pub RistPlays : RistView → ℕ → Source → Type 0
RistPlays v port s =
    ((port ≡ 0) ⊎ (s.listen_port ≡ port))
    × (s.thread_running ≡ true)
    × (s.stop_flag ≡ false)
    × IsRecent v.now 1500000000 s.last_network_time
    × ((s.last_audio_time ≡ 0) ⊎ IsRecent v.now 750000000 s.last_audio_time)
    × ((s.last_video_time ≡ 0) ⊎ IsRecent v.now 750000000 s.last_video_time)
    × ((0 < s.last_audio_time) ⊎ (0 < s.last_video_time))

rist_is_playing-RistPlays :
    (v : RistView) (port : ℕ) (s : Source)
    → is_asked_for port s ≡ true
    → s.thread_running ≡ true
    → s.stop_flag ≡ false
    → rist_is_playing v s ≡ true
    → RistPlays v port s
unfolding rist_is_playing
rist_is_playing-RistPlays v port s asked running going playing =
    elim (Option-cases s.media_source) [ inl e ↦ ground arith | inr (m, e) ↦ ground arith ]

any_rist_playing-RistPlays :
    (v : RistView) (port : ℕ) (rs : List RistSource)
    → any_rist_playing v port rs ≡ true
    → (i : ℕ) × At (λ (r : RistSource). RistPlays v port r.shared) rs i
unfolding any_rist_playing
any_rist_playing-RistPlays v port [] h = absurd (ground arith)
any_rist_playing-RistPlays v port (r ∷ rs) h =
    let s = r.shared in
    elim (Bool-cases
      (is_asked_for port s && s.thread_running && not s.stop_flag && rist_is_playing v s)) [
        | inl yes_it ↦ (
          0,
          rist_is_playing-RistPlays v port s (ground arith) (ground arith) (ground arith)
              (ground arith),
        )
        | inr not_it ↦
            let (i, at) = any_rist_playing-RistPlays v port rs (ground arith) in (suc i, at)
      ]

-- When the answer is yes, there is a source with the port (any source, for port 0) that runs, whose
-- receiver got bytes in the last 1.5 s, and of audio and video everything that it ever had came in
-- the last 750 ms; and the port has a peer, or the first source with it never had a frame.
pub rist_is_media_playing-RistPlays :
    (v : RistView) (t : RistTable) (port : ℕ) (rs : List RistSource)
    → rist_is_media_playing v t port rs ≡ true
    → ((i : ℕ) × At (λ (r : RistSource). RistPlays v port r.shared) rs i)
      × ((0 < rist_get_peer_count_by_port v.ms port t) ⊎ (ever_had_frames port rs ≡ false))
unfolding rist_is_media_playing
rist_is_media_playing-RistPlays v t port rs h =
    elim (Bool-cases (rist_get_peer_count_by_port v.ms port t == 0 && ever_had_frames port rs)) [
      | inl blind ↦ absurd (ground arith)
      | inr heard ↦ (any_rist_playing-RistPlays v port rs (ground arith), ground arith)
    ]

-- Port 0 asks for any source, but is no listener's port: where no listener has it, the answer for
-- port 0 is no as soon as the first source of the list has ever had a frame, whatever the others do.
pub rist_is_media_playing-any_port :
    (v : RistView) (t : RistTable) (r : RistSource) (rs : List RistSource)
    → find_listener 0 t ≡ none
    → (0 < r.shared.last_audio_time) ⊎ (0 < r.shared.last_video_time)
    → rist_is_media_playing v t 0 (r ∷ rs) ≡ false
unfolding rist_is_media_playing rist_get_peer_count_by_port ever_had_frames
rist_is_media_playing-any_port v t r rs e h = rw (e, rist_get_peer_count_by_port) (ground arith)
