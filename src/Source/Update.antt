-- ===== src/Source/Update.antt =====
-- `srtla_source_update` of src/srtla-source.c.
pub mod Unique
pub mod Settled
use pyle_irl.Base.{
  ℕ, zero, suc, ◌+◌, Bool, true, false, ◌||◌, not, Option, none, some, List, [], ◌∷◌, get_elem?,
  set, remove_at, ◌==◌, if◌then◌else◌, same_bool, is_none,
}
use pyle_irl.Base.Int.{ℤ, pos, negsuc}
use pyle_irl.Source.{Source, srtla_stop_thread}
use pyle_irl.Source.Media.{Players, irl_engine, srtla_reload_media_source}
use pyle_irl.Source.Ports.{choose_port}
use pyle_irl.Wire.{Bytes, same_text}

-- What the settings of the source say.
pub record Settings : Type 0 where
  pub listen_port : ℕ
  pub listen_ip : Option Bytes
  pub playback_engine : Option Bytes
  pub latency : ℤ
  pub hw_decode : Bool

abbrev pub listen_ip_changed : Option Bytes → Option Bytes → Bool
listen_ip_changed (some old) (some new) = not (same_text old new)
listen_ip_changed none (some new) = true
listen_ip_changed (some old) none = true
listen_ip_changed none none = false

abbrev pub engine_or_default : Option Bytes → Bytes
engine_or_default none = irl_engine
engine_or_default (some []) = irl_engine
engine_or_default (some (c ∷ cs)) = c ∷ cs

abbrev pub engine_changed : Option Bytes → Bytes → Bool
engine_changed none new = true
engine_changed (some old) new = not (same_text old new)

abbrev pub latency_or_default : ℤ → ℕ
latency_or_default (pos zero) = 2000
latency_or_default (pos (suc n)) = suc n
latency_or_default (negsuc n) = 2000

abbrev pub media_restart_needed : Settings → ℕ → Source → Bool
media_restart_needed cfg port s =
    is_none s.media_source
    || not (s.local_srt_port == port + 1000)
    || engine_changed s.playback_engine (engine_or_default cfg.playback_engine)
    || not (same_bool s.hw_decode cfg.hw_decode)

abbrev pub thread_restart_needed : Settings → ℕ → Source → Bool
thread_restart_needed cfg port s =
    not (s.listen_port == port)
    || not (s.local_srt_port == port + 1000)
    || listen_ip_changed s.listen_ip cfg.listen_ip
    || not (s.latency == latency_or_default cfg.latency)
    || not s.thread_running

abbrev pub set_engine : Settings → Source → Source
set_engine cfg s =
    let new = engine_or_default cfg.playback_engine in
    if engine_changed s.playback_engine new then record s { playback_engine = some new } else s

-- The source as the restart configures it, before the media source is reloaded.
abbrev pub configured : Settings → ℕ → Source → Source
configured cfg port s = record (srtla_stop_thread s) {
  auto_reset_count = 0;
  latency = latency_or_default cfg.latency;
  hw_decode = cfg.hw_decode;
  listen_port = port;
  local_srt_port = port + 1000;
  listen_ip = cfg.listen_ip;
}

-- The restart: `spawned` says whether `pthread_create` succeeds.
unfoldable pub restart : ℕ → Players → Bool → Settings → ℕ → Bool → Source → Source
restart now players spawned cfg port media_too s =
    let s1 = configured cfg port s in
    let s2 = if media_too then srtla_reload_media_source now players s1 else s1 in
    record s2 { stop_flag = false; thread_running = spawned }

-- Past the choice of the port.
unfoldable pub apply_settings : ℕ → Players → Bool → Settings → ℕ → Source → Source
apply_settings now players spawned cfg port s =
    let media_too = media_restart_needed cfg port s in
    if thread_restart_needed cfg port s || media_too
    then restart now players spawned cfg port media_too (set_engine cfg s)
    else set_engine cfg s

-- The source at index `i` is updated; `none` is a search for a port that has not ended. The port is
-- also written back into the settings when it was searched for or refused.
unfoldable pub srtla_source_update :
    ℕ → Players → Bool → Settings → ℕ → List Source → Option (List Source × Settings)
srtla_source_update now players spawned cfg i ss = elim (get_elem? ss i) [
  | none ↦ some (ss, cfg)
  | some s ↦ elim (choose_port cfg.listen_port s (remove_at i ss)) [
    | none ↦ none
    | some port ↦ some (
      set ss i (apply_settings now players spawned cfg port s),
      record cfg { listen_port = port },
    )
  ]
]
