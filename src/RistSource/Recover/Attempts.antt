-- ===== src/RistSource/Recover/Attempts.antt =====
-- How often `rist_auto_recover_hung_sources` (src/rist-source.c) reloads a player, as long as no audio
-- comes in.
use pyle_irl.Base.{
  ℕ, suc, ◌+◌, ◌≤◌, ◌<◌, ◌≡◌, refl, sym, ap, subst, ◌∙◌, ◌⊎◌, inl, inr, true, false, List, [], ◌∷◌,
  arith, if◌then◌else◌, Bool-cases,
}
use pyle_irl.Receiver.Compare.{same}
use pyle_irl.Rist.Contexts.{RistTable}
use pyle_irl.RistSource.Playing.{has_peers}
use pyle_irl.RistSource.Recover.{watch_media, rist_scan_source}
use pyle_irl.Source.{recovery_none, Source}
use pyle_irl.Source.Media.{
  Players, srtla_destroy_media_source_internal, srtla_create_media_source_internal, drop_media,
  srtla_reload_media_source,
}
use pyle_irl.Source.Monitor.{MediaView, srtla_check_video_frame_progress}

-- What happens to a source with peers when it gets no audio: a frame is seen at a time, or the
-- recovery runs, at a time in ns and in ms, with what the receivers then have and the players that
-- can be made.
pub data Silence : Type 0 where
  sees_frame : ℕ → MediaView → Silence
  runs_recovery : ℕ → ℕ → RistTable → Players → Silence

-- One run of the recovery for one source, with the number of reloads.
unfoldable pub recover_one : ℕ → ℕ → RistTable → Players → Source → Source × ℕ
recover_one now ms t players s =
    let (s', hung) = rist_scan_source now ms t s in
    if hung
    then (srtla_reload_media_source now players (record s' { pending_recovery = recovery_none }), 1)
    else (s', 0)

unfoldable pub silence : List Silence → Source → Source × ℕ
silence [] s = (s, 0)
silence (sees_frame now v ∷ es) s = silence es (srtla_check_video_frame_progress now v s)
silence (runs_recovery now ms t players ∷ es) s =
    let (s', n) = recover_one now ms t players s in let (s'', m) = silence es s' in (s'', n + m)

-- At each run of the recovery the port has peers.
abbrev pub PeersStay : ℕ → List Silence → Type 0
PeersStay port [] = Unit
PeersStay port (sees_frame now v ∷ es) = PeersStay port es
PeersStay port (runs_recovery now ms t players ∷ es) =
    (has_peers ms port t ≡ true) × PeersStay port es

-- What a step leaves of a connected source.
record StaysOn (s s' : Source) : Type 0 where
  same_port : s'.listen_port ≡ s.listen_port
  same_since : s'.connected_since ≡ s.connected_since

reload-StaysOn :
    (now : ℕ) (players : Players) (s : Source)
    → let s' = srtla_reload_media_source now players s in
      StaysOn s s' × (s'.recovery_attempts ≡ s.recovery_attempts)
unfolding srtla_reload_media_source drop_media srtla_create_media_source_internal
    srtla_destroy_media_source_internal
reload-StaysOn now players s = ground arith

frame-StaysOn :
    (now : ℕ) (v : MediaView) (s : Source)
    → let s' = srtla_check_video_frame_progress now v s in
      StaysOn s s' × (s'.recovery_attempts ≡ s.recovery_attempts)
unfolding srtla_check_video_frame_progress
frame-StaysOn now v s = ground arith

scan-attempts :
    (now ms : ℕ) (t : RistTable) (s : Source)
    → 0 < s.connected_since
    → has_peers ms s.listen_port t ≡ true
    → let (s', hung) = rist_scan_source now ms t s in
      StaysOn s s'
      × (s'.recovery_attempts ≡ (if hung then suc s.recovery_attempts else s.recovery_attempts))
      × ((hung ≡ false) ⊎ (s.recovery_attempts < 2))
unfolding rist_scan_source watch_media
scan-attempts now ms t s h p = elim (Bool-cases s.thread_running) [
  | inl e ↦ rw (e, p) (ground arith)
  | inr e ↦ rw e (record { same_port = refl; same_since = refl }, refl, inl refl)
]

recover-attempts :
    (now ms : ℕ) (t : RistTable) (players : Players) (s : Source)
    → 0 < s.connected_since
    → has_peers ms s.listen_port t ≡ true
    → let (s', n) = recover_one now ms t players s in
      StaysOn s s'
      × (s'.recovery_attempts ≡ s.recovery_attempts + n)
      × ((n ≡ 0) ⊎ (s'.recovery_attempts ≤ 2))
unfolding recover_one
recover-attempts now ms t players s h p =
    let (s1, hung) = rist_scan_source now ms t s in
    let (on, counted_up, few) = scan-attempts now ms t s h p in
    let (on', same) = reload-StaysOn now players (record s1 { pending_recovery = recovery_none }) in
    elim (Bool-cases hung) [
      | inl e ↦
          rw (e, recover_one)
            (
              record {
                same_port = on'.same_port ∙ on.same_port;
                same_since = on'.same_since ∙ on.same_since;
              },
              ground (arith, same, counted_up),
              ground (arith, same, counted_up, few),
            )
      | inr e ↦ rw (e, recover_one) (on, ground (arith, counted_up), inl refl)
    ]

silence-attempts :
    (es : List Silence) (s : Source)
    → 0 < s.connected_since
    → PeersStay s.listen_port es
    → let (s', n) = silence es s in
      (s'.recovery_attempts ≡ s.recovery_attempts + n) × ((n ≡ 0) ⊎ (s'.recovery_attempts ≤ 2))
unfolding silence
silence-attempts [] s h v = (omega arith, inl refl)
silence-attempts (sees_frame now w ∷ es) s h v =
    let s' = srtla_check_video_frame_progress now w s in
    let (on, same) = frame-StaysOn now w s in
    let (total, few) =
      silence-attempts es s' (omega (arith, on.same_since))
        (subst (λ port. PeersStay port es) (sym on.same_port) v) in
    (total ∙ ap (λ k. k + (silence es s').1) same, few)
silence-attempts (runs_recovery now ms t players ∷ es) s h v =
    let (s', n) = recover_one now ms t players s in
    let (on, one, bound) = recover-attempts now ms t players s h v.0 in
    let (total, few) =
      silence-attempts es s' (omega (arith, on.same_since))
        (subst (λ port. PeersStay port es) (sym on.same_port) v.1) in
    (omega (arith, total, one), ground (arith, total, one, bound, few))

-- Over any run of frames and of recoveries in which a connected source gets no audio and its port
-- keeps its peers, each reload of its player is counted as an attempt, and none is made once there
-- were two: at most two reloads in all.
pub silence_lem :
    (es : List Silence) (s : Source)
    → 0 < s.connected_since
    → PeersStay s.listen_port es
    → let (s', n) = silence es s in
      (s'.recovery_attempts ≡ s.recovery_attempts + n)
      × (n ≤ 2)
      × ((n ≡ 0) ⊎ (s'.recovery_attempts ≤ 2))
silence_lem es s h v =
    let (total, few) = silence-attempts es s h v in (total, ground (arith, total, few), few)
