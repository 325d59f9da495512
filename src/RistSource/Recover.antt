-- ===== src/RistSource/Recover.antt =====
-- `rist_auto_recover_hung_sources` of src/rist-source.c.
pub mod Attempts
use pyle_irl.Base.{
  ℕ, suc, Bool, true, false, ◌&&◌, ◌||◌, not, List, [], ◌∷◌, ltb, leb, ◌==◌, if◌then◌else◌,
}
use pyle_irl.Rist.Contexts.{RistTable}
use pyle_irl.RistSource.{RistSource, on_shared, rist_reload_media_source}
use pyle_irl.RistSource.Playing.{has_peers}
use pyle_irl.Source.{recovery_none, recovery_reload, Source, sub64, is_recent}
use pyle_irl.Source.Media.{Players}
use pyle_irl.Source.Recover.{starvation, note_connected, in_cooldown, reset_timers, awaits_reload}

-- Condition A: video for 12 s and no audio yet.
abbrev pub missing_on_connect : ℕ → Source → Bool
missing_on_connect now s =
    s.last_audio_time == 0
    && is_recent now 2000000000 s.last_video_time
    && leb 12000000000 (sub64 now s.connected_since)

-- Condition B: no audio for 8 s while video goes on.
abbrev pub audio_dropped : ℕ → Source → Bool
audio_dropped now s =
    ltb 0 s.last_audio_time
    && leb 8000000000 (sub64 now s.last_audio_time)
    && is_recent now 2000000000 s.last_video_time

-- Condition D: no video for 8 s while audio goes on.
abbrev pub video_dropped : ℕ → Source → Bool
video_dropped now s =
    is_recent now 2000000000 s.last_audio_time
    && ltb 0 s.last_video_time
    && leb 8000000000 (sub64 now s.last_video_time)

-- The branch with peers. Condition E is a constant `false` in the source; C is `starvation`.
unfoldable pub watch_media : ℕ → Source → Source × Bool
watch_media now s =
    let s1 = note_connected now s in
    let (since, starved) = starvation now s1 in
    if not (in_cooldown now s1)
      && ltb s1.recovery_attempts 2
      && (missing_on_connect now s1 || audio_dropped now s1 || starved || video_dropped now s1)
    then (
      record s1 {
        starved_since = 0;
        recovery_attempts = suc s1.recovery_attempts;
        auto_reset_count = suc s1.auto_reset_count;
        last_recovery_time = now;
        pending_recovery = recovery_reload;
      },
      true,
    )
    else (record s1 { starved_since = since }, false)

-- One round of the first loop; the flag says whether a reload was asked for.
unfoldable pub rist_scan_source : ℕ → ℕ → RistTable → Source → Source × Bool
rist_scan_source now ms t s =
    if s.thread_running
    then (if has_peers ms s.listen_port t then watch_media now s else (reset_timers s, false))
    else (s, false)

-- The first loop, with `reload_count`.
unfoldable pub rist_scan_sources : ℕ → ℕ → RistTable → List RistSource → List RistSource × ℕ
rist_scan_sources now ms t [] = ([], 0)
rist_scan_sources now ms t (r ∷ rs) =
    let (s, hung) = rist_scan_source now ms t r.shared in
    let (rest, n) = rist_scan_sources now ms t rs in
    (record r { shared = s } ∷ rest, if hung then suc n else n)

-- The last two loops: the sources that await a reload get it.
unfoldable pub rist_reload_pending : ℕ → Players → List RistSource → List RistSource
rist_reload_pending now players [] = []
rist_reload_pending now players (r ∷ rs) =
    let rest = rist_reload_pending now players rs in
    if awaits_reload r.shared
    then rist_reload_media_source now players
        (on_shared (λ s. record s { pending_recovery = recovery_none }) r)
      ∷ rest
    else r ∷ rest

-- `restart_count` stays 0, so the loops over restarts do nothing.
unfoldable pub rist_auto_recover_hung_sources :
    ℕ → ℕ → Players → RistTable → List RistSource → List RistSource
unfolding rist_scan_sources rist_reload_pending
rist_auto_recover_hung_sources now ms players t rs =
    let (scanned, n) = rist_scan_sources now ms t rs in
    if n == 0 then scanned else rist_reload_pending now players scanned
