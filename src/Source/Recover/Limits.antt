-- ===== src/Source/Recover/Limits.antt =====
-- When src/srtla-source.c reloads a player by itself, and how often.
use pyle_irl.Base.{
  ℕ, suc, ◌^◌, ◌≤◌, ◌<◌, ◌≡◌, refl, ◌∙◌, inl, inr, true, false, List, [], ◌∷◌, arith, All, ◌==◌,
  if◌then◌else◌, ==_iff, Bool-cases,
}
use pyle_irl.Receiver.Instances.{Table}
use pyle_irl.Source.{recovery_none, Source, is_low, sub64}
use pyle_irl.Source.Media.{
  Players, srtla_destroy_media_source_internal, srtla_create_media_source_internal, drop_media,
  srtla_reload_media_source,
}
use pyle_irl.Source.Playing.{has_groups}
use pyle_irl.Source.Recover.{
  in_cooldown, watch_audio, scan_source, scan_sources, awaits_reload, reload_pending,
  srtla_auto_recover_hung_sources,
}

-- No source waits for a reload that an earlier run asked for.
abbrev pub NoneAwaits : List Source → Type 0
NoneAwaits = All (λ (s : Source). awaits_reload s ≡ false)

unfoldable pub awaiting : List Source → ℕ
awaiting [] = 0
awaiting (s ∷ ss) = let rest = awaiting ss in if awaits_reload s then suc rest else rest

scan_source-awaits :
    (now : ℕ) (t : Table) (s : Source)
    → awaits_reload s ≡ false
    → awaits_reload (scan_source now t s).0 ≡ (scan_source now t s).1
unfolding scan_source watch_audio
scan_source-awaits now t s h = ground arith

-- When no source waits for a reload before the scan, as many sources wait after it as it has
-- counted in `reload_count`, for which the array of the sources to reload is allocated.
pub scan_sources-awaiting :
    (now : ℕ) (t : Table) (ss : List Source)
    → NoneAwaits ss
    → awaiting (scan_sources now t ss).0 ≡ (scan_sources now t ss).1
unfolding scan_sources awaiting
scan_sources-awaiting now t [] h = refl
scan_sources-awaiting now t (s ∷ ss) h =
    ground (arith, scan_source-awaits now t s h.0, scan_sources-awaiting now t ss h.1)

reload-awaits :
    (now : ℕ) (players : Players) (s : Source)
    → awaits_reload
        (srtla_reload_media_source now players (record s { pending_recovery = recovery_none }))
      ≡ false
unfolding srtla_reload_media_source drop_media srtla_create_media_source_internal
    srtla_destroy_media_source_internal
reload-awaits now players s = ground arith

reload_pending-NoneAwaits :
    (now : ℕ) (players : Players) (ss : List Source) → NoneAwaits (reload_pending now players ss)
unfolding reload_pending
reload_pending-NoneAwaits now players [] = tt
reload_pending-NoneAwaits now players (s ∷ ss) = elim (Bool-cases (awaits_reload s)) [
  | inl yes_it ↦
      ground (arith, reload-awaits now players s, reload_pending-NoneAwaits now players ss)
  | inr not_it ↦ ground (arith, reload_pending-NoneAwaits now players ss)
]

none_awaiting : (ss : List Source) → awaiting ss ≡ 0 → NoneAwaits ss
unfolding awaiting
none_awaiting [] e = tt
none_awaiting (s ∷ ss) e = ground (arith, none_awaiting ss)

-- When no source waits for a reload before a run of the automatic recovery, none does after it.
pub auto_recover-NoneAwaits :
    (now : ℕ) (players : Players) (t : Table) (ss : List Source)
    → NoneAwaits ss
    → NoneAwaits (srtla_auto_recover_hung_sources now players t ss)
unfolding srtla_auto_recover_hung_sources
auto_recover-NoneAwaits now players t ss h =
    let (scanned, n) = scan_sources now t ss in
    elim (Bool-cases (n == 0)) [
      | inl nothing ↦
          rw nothing
            (none_awaiting scanned (scan_sources-awaiting now t ss h ∙ (==_iff n 0).0 nothing))
      | inr something ↦ rw something (reload_pending-NoneAwaits now players scanned)
    ]

-- A reload is asked for only for a source that runs and has groups, whose audio has come in too slow
-- for at least 6 s, outside the 10 s after the last recovery or the connection, and after fewer than
-- two attempts.
pub scan_source_reloads :
    (now : ℕ) (t : Table) (s : Source)
    → 0 < now
    → now < 2 ^ 64
    → (scan_source now t s).1 ≡ true
    → (s.thread_running ≡ true)
      × (has_groups s.listen_port t ≡ true)
      × (is_low s.current_stream_hz ≡ true)
      × (0 < s.starved_since)
      × (6000000000 ≤ sub64 now s.starved_since)
      × (in_cooldown now s ≡ false)
      × (s.recovery_attempts < 2)
unfolding scan_source watch_audio
scan_source_reloads now t s started bounded hung = ground arith
