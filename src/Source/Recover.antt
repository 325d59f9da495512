-- ===== src/Source/Recover.antt =====
-- `srtla_auto_recover_hung_sources` of src/srtla-source.c.
pub mod Limits
use pyle_irl.Base.{
  ℕ, suc, Bool, true, false, ◌&&◌, not, List, [], ◌∷◌, ltb, leb, ◌==◌, if◌then◌else◌,
}
use pyle_irl.Receiver.Instances.{Table}
use pyle_irl.Source.{recovery_none, recovery_reload, Source, no_rate, is_low, sub64, is_recent}
use pyle_irl.Source.Media.{Players, srtla_reload_media_source}
use pyle_irl.Source.Playing.{has_groups}

-- Condition C: since when the audio is starved, and whether it has been for 6 s.
abbrev pub starvation : ℕ → Source → ℕ × Bool
starvation now s =
    if is_recent now 2000000000 s.last_audio_time && is_low s.current_stream_hz
    then (if s.starved_since == 0
        then (now, false)
        else (s.starved_since, leb 6000000000 (sub64 now s.starved_since)))
    else (0, false)

abbrev pub note_connected : ℕ → Source → Source
note_connected now s =
    if s.connected_since == 0
    then record s { connected_since = now; last_recovery_time = now; recovery_attempts = 0 }
    else s

-- "Cooldown of at least 10 seconds between recovery actions"
abbrev pub in_cooldown : ℕ → Source → Bool
in_cooldown now s = is_recent now 10000000000 s.last_recovery_time

-- "No active connections / groups: reset all connection & audio timers"
abbrev pub reset_timers : Source → Source
reset_timers s = record s {
  connected_since = 0;
  last_video_time = 0;
  last_audio_time = 0;
  starved_since = 0;
  initial_delay_set = false;
  current_stream_hz = no_rate;
  last_recovery_time = 0;
  recovery_attempts = 0;
  pending_recovery = recovery_none;
}

-- The branch with groups. The other conditions (A, B, D, E) are constants `false` in the source.
unfoldable pub watch_audio : ℕ → Source → Source × Bool
watch_audio now s =
    let s1 = note_connected now s in
    let (since, starved) = starvation now s1 in
    if not (in_cooldown now s1) && ltb s1.recovery_attempts 2 && starved
    then (
      record s1 {
        starved_since = 0;
        recovery_attempts = suc s1.recovery_attempts;
        auto_reset_count = suc s1.auto_reset_count;
        last_recovery_time = now;
        pending_recovery = recovery_reload;
      },
      true,
    )
    else (record s1 { starved_since = since }, false)

-- One round of the first loop; the flag says whether a reload was asked for.
unfoldable pub scan_source : ℕ → Table → Source → Source × Bool
scan_source now t s =
    if s.thread_running
    then (if has_groups s.listen_port t then watch_audio now s else (reset_timers s, false))
    else (s, false)

-- The first loop, with `reload_count`.
unfoldable pub scan_sources : ℕ → Table → List Source → List Source × ℕ
scan_sources now t [] = ([], 0)
scan_sources now t (s ∷ ss) =
    let (s', hung) = scan_source now t s in
    let (rest, n) = scan_sources now t ss in (s' ∷ rest, if hung then suc n else n)

abbrev pub awaits_reload : Source → Bool
awaits_reload s = elim s.pending_recovery [ recovery_reload ↦ true | _ ↦ false ]

-- The last two loops: the sources that await a reload get it.
unfoldable pub reload_pending : ℕ → Players → List Source → List Source
reload_pending now players [] = []
reload_pending now players (s ∷ ss) =
    let rest = reload_pending now players ss in
    if awaits_reload s
    then srtla_reload_media_source now players (record s { pending_recovery = recovery_none })
      ∷ rest
    else s ∷ rest

-- `restart_count` stays 0, so the loops over restarts do nothing.
unfoldable pub srtla_auto_recover_hung_sources : ℕ → Players → Table → List Source → List Source
srtla_auto_recover_hung_sources now players t ss =
    let (scanned, n) = scan_sources now t ss in
    if n == 0 then scanned else reload_pending now players scanned
