-- ===== src/RistSource/Update.antt =====
-- `rist_source_update` of src/rist-source.c.
pub mod Settled
use pyle_irl.Base.{
  ℕ, Bool, false, ◌&&◌, ◌||◌, not, Option, none, some, List, map, get_elem?, set, remove_at,
  if◌then◌else◌,
}
use pyle_irl.Base.Int.{ℤ, leb_ℤ}
use pyle_irl.RistSource.{RistSource, on_shared, rist_reload_media_source}
use pyle_irl.Source.{Source}
use pyle_irl.Source.Media.{Players}
use pyle_irl.Source.Ports.{choose_port}
use pyle_irl.Source.Update.{
  Settings, listen_ip_changed, media_restart_needed, thread_restart_needed, set_engine, configured,
}
use pyle_irl.Wire.{Bytes}

-- What the settings of the source say; `common` is what the SRTLA source has too.
pub record RistSettings : Type 0 where
  pub common : Settings
  pub rist_profile : ℤ
  pub rist_passphrase : Option Bytes
  pub rist_key_size : ℤ
  pub rist_stream_id : ℤ

abbrev pub same_int : ℤ → ℤ → Bool
same_int a b = leb_ℤ a b && leb_ℤ b a

-- `config_changed`, but for the latency.
abbrev pub config_changed : RistSettings → RistSource → Bool
config_changed cfg r =
    not (same_int r.rist_profile cfg.rist_profile)
    || not (same_int r.rist_key_size cfg.rist_key_size)
    || not (same_int r.rist_stream_id cfg.rist_stream_id)
    || listen_ip_changed r.rist_passphrase cfg.rist_passphrase

abbrev pub rist_thread_restart_needed : RistSettings → ℕ → RistSource → Bool
rist_thread_restart_needed cfg port r =
    thread_restart_needed cfg.common port r.shared || config_changed cfg r

-- The source as the restart configures it, before the media source is reloaded.
abbrev pub rist_configured : RistSettings → ℕ → RistSource → RistSource
rist_configured cfg port r = record {
  shared = configured cfg.common port r.shared;
  rist_profile = cfg.rist_profile;
  rist_passphrase = cfg.rist_passphrase;
  rist_key_size = cfg.rist_key_size;
  rist_stream_id = cfg.rist_stream_id;
}

-- The restart: `spawned` says whether `pthread_create` succeeds.
unfoldable pub rist_restart : ℕ → Players → Bool → RistSettings → ℕ → Bool → RistSource → RistSource
rist_restart now players spawned cfg port media_too r =
    let r1 = rist_configured cfg port r in
    let r2 = if media_too then rist_reload_media_source now players r1 else r1 in
    on_shared (λ s. record s { stop_flag = false; thread_running = spawned }) r2

-- Past the choice of the port.
unfoldable pub apply_rist_settings : ℕ → Players → Bool → RistSettings → ℕ → RistSource → RistSource
unfolding rist_restart
apply_rist_settings now players spawned cfg port r =
    let media_too = media_restart_needed cfg.common port r.shared in
    let r1 = on_shared (set_engine cfg.common) r in
    if rist_thread_restart_needed cfg port r || media_too
    then rist_restart now players spawned cfg port media_too r1
    else r1

abbrev pub shared_of : List RistSource → List Source
shared_of = map (λ (r : RistSource). r.shared)

-- The source at index `i` is updated; `none` is a search for a port that has not ended.
unfoldable pub rist_source_update :
    ℕ
    → Players
    → Bool
    → RistSettings
    → ℕ
    → List RistSource
    → Option (List RistSource × RistSettings)
unfolding apply_rist_settings
rist_source_update now players spawned cfg i rs = elim (get_elem? rs i) [
  | none ↦ some (rs, cfg)
  | some r ↦ elim (choose_port cfg.common.listen_port r.shared (shared_of (remove_at i rs))) [
    | none ↦ none
    | some port ↦ some (
      set rs i (apply_rist_settings now players spawned cfg port r),
      record cfg { common = record cfg.common { listen_port = port } },
    )
  ]
]
