-- ===== src/Source/Playing/Evidence.antt =====
-- What `srtla_is_media_playing` (src/srtla-source.c) goes by.
use pyle_irl.Base.{
  ℕ, suc, ◌<◌, ◌≡◌, ◌⊎◌, inl, inr, true, false, ◌&&◌, not, List, [], ◌∷◌, arith, At, Bool-cases,
  Option-cases,
}
use pyle_irl.Source.{Source, sub64}
use pyle_irl.Source.Playing.{View, is_playing, is_asked_for, srtla_is_media_playing}

-- Heard from within the limit.
abbrev pub IsRecent : ℕ → ℕ → ℕ → Type 0
IsRecent now limit t = (0 < t) × (sub64 now t < limit)

-- A source that counts as playing for a query on the port.
abbrev pub Plays : View → ℕ → Source → Type 0
Plays v port s =
    ((port ≡ 0) ⊎ (s.listen_port ≡ port))
    × (s.thread_running ≡ true)
    × (s.stop_flag ≡ false)
    × IsRecent v.now 1500000000 s.last_network_time
    × ((s.last_audio_time ≡ 0) ⊎ IsRecent v.now 750000000 s.last_audio_time)
    × ((s.last_video_time ≡ 0)
        ⊎ (IsRecent v.now 750000000 s.last_video_time × (v.poor_quality ≡ false)))
    × ((0 < s.last_audio_time) ⊎ (0 < s.last_video_time))

is_playing-Plays :
    (v : View) (port : ℕ) (s : Source)
    → is_asked_for port s ≡ true
    → s.thread_running ≡ true
    → s.stop_flag ≡ false
    → is_playing v s ≡ true
    → Plays v port s
unfolding is_playing
is_playing-Plays v port s asked running going playing = elim (Option-cases s.media_source) [
  | inl e ↦ ground arith
  | inr (m, e) ↦ ground arith
]

-- When the answer is yes, there is a source with the port (any source, for port 0) that runs, whose
-- receiver got bytes in the last 1.5 s, and of audio and video everything that it ever had came in
-- the last 750 ms, video only at a quality that is not poor: audio that goes on over a frozen
-- picture is not enough.
pub srtla_is_media_playing-Plays :
    (v : View) (port : ℕ) (ss : List Source)
    → srtla_is_media_playing v port ss ≡ true
    → (i : ℕ) × At (Plays v port) ss i
unfolding srtla_is_media_playing
srtla_is_media_playing-Plays v port [] h = absurd (ground arith)
srtla_is_media_playing-Plays v port (s ∷ ss) h =
    elim (Bool-cases
      (is_asked_for port s && s.thread_running && not s.stop_flag && is_playing v s)) [
        | inl yes_it ↦ (
          0,
          is_playing-Plays v port s (ground arith) (ground arith) (ground arith) (ground arith),
        )
        | inr not_it ↦
            let (i, at) = srtla_is_media_playing-Plays v port ss (ground arith) in (suc i, at)
      ]
