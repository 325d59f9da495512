-- ===== src/RistSource/Control.antt =====
-- The controls of src/rist-source.c: stop, start, restart and reload, for one source, by name or for
-- all.
use pyle_irl.Base.{ℕ, suc, Bool, false, Option, none, some, List, [], ◌∷◌, map, modify}
use pyle_irl.RistSource.{
  RistSource, on_shared, rist_stop_thread, drop_rist_media, rist_reload_media_source,
}
use pyle_irl.RistSource.Update.{RistSettings, shared_of, rist_source_update}
use pyle_irl.Source.{recovery_none}
use pyle_irl.Source.Control.{find_name}
use pyle_irl.Source.Media.{Players}
use pyle_irl.Wire.{Bytes}

unfoldable pub rist_force_stop : RistSource → RistSource
unfolding rist_stop_thread drop_rist_media
rist_force_stop r =
    on_shared
      (λ s. record s {
        connected_since = 0;
        last_audio_time = 0;
        last_video_time = 0;
        last_video_ts = 0;
        last_media_time = 0;
        last_network_bytes = 0;
        last_network_time = 0;
        starved_since = 0;
        initial_delay_set = false;
        last_recovery_time = 0;
        recovery_attempts = 0;
        pending_recovery = recovery_none;
      })
      (drop_rist_media (rist_stop_thread r))

unfoldable pub rist_force_stop_all : List RistSource → List RistSource
rist_force_stop_all = map rist_force_stop

-- What `rist_force_start` finds: the time, the players, whether a thread starts, and the settings of
-- the source.
pub record Start : Type 0 where
  pub now : ℕ
  pub players : Players
  pub spawned : Bool
  pub settings : RistSettings

-- The source at index `i`; `none` is a search for a port that has not ended.
unfoldable pub rist_force_start : Start → ℕ → List RistSource → Option (List RistSource)
rist_force_start x i rs = elim (rist_source_update x.now x.players x.spawned x.settings i rs) [
  | none ↦ none
  | some (rs', cfg) ↦ some rs'
]

unfoldable pub rist_force_restart : Start → ℕ → List RistSource → Option (List RistSource)
unfolding rist_force_start rist_force_stop
rist_force_restart x i rs = rist_force_start x i (modify i rist_force_stop rs)

-- The loops of `rist_force_start_all` and `rist_force_restart_all` over the sources from index `i` on.
unfoldable pub rist_force_start_all : List Start → ℕ → List RistSource → Option (List RistSource)
rist_force_start_all [] i rs = some rs
rist_force_start_all (x ∷ xs) i rs = elim (rist_force_start x i rs) [
  | none ↦ none
  | some rs' ↦ rist_force_start_all xs (suc i) rs'
]

unfoldable pub rist_force_restart_all : List Start → ℕ → List RistSource → Option (List RistSource)
rist_force_restart_all [] i rs = some rs
rist_force_restart_all (x ∷ xs) i rs = elim (rist_force_restart x i rs) [
  | none ↦ none
  | some rs' ↦ rist_force_restart_all xs (suc i) rs'
]

unfoldable pub rist_force_reload_all : ℕ → Players → List RistSource → List RistSource
rist_force_reload_all now players = map (rist_reload_media_source now players)

-- The controls by name: the first source with the name, and nothing without one.
unfoldable pub rist_force_stop_by_name : Bytes → List RistSource → List RistSource
rist_force_stop_by_name name rs = elim (find_name name (shared_of rs)) [
  | none ↦ rs
  | some i ↦ modify i rist_force_stop rs
]

unfoldable pub rist_force_start_by_name : Start → Bytes → List RistSource → Option (List RistSource)
rist_force_start_by_name x name rs = elim (find_name name (shared_of rs)) [
  | none ↦ some rs
  | some i ↦ rist_force_start x i rs
]

unfoldable pub rist_force_restart_by_name :
    Start → Bytes → List RistSource → Option (List RistSource)
rist_force_restart_by_name x name rs = elim (find_name name (shared_of rs)) [
  | none ↦ some rs
  | some i ↦ rist_force_restart x i rs
]

unfoldable pub rist_force_reload_by_name : ℕ → Players → Bytes → List RistSource → List RistSource
rist_force_reload_by_name now players name rs = elim (find_name name (shared_of rs)) [
  | none ↦ rs
  | some i ↦ modify i (rist_reload_media_source now players) rs
]
