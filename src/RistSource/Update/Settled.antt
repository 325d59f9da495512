-- ===== src/RistSource/Update/Settled.antt =====
-- What `rist_source_update` (src/rist-source.c) leaves behind.
use pyle_irl.Base.{
  ℕ, ◌≡◌, refl, sym, ap, subst, ◌∙◌, inl, inr, Bool, true, false, some, arith, leb, Bool-cases,
  is_none,
}
use pyle_irl.Base.Int.{ℤ, pos, negsuc}
use pyle_irl.RistSource.{
  RistSource, on_shared, drop_rist_media, rist_create_media_source_internal,
  rist_reload_media_source,
}
use pyle_irl.RistSource.Update.{
  RistSettings, same_int, config_changed, rist_thread_restart_needed, rist_restart,
  apply_rist_settings,
}
use pyle_irl.Source.{Source, srtla_stop_thread}
use pyle_irl.Source.Media.{ffmpeg_player, Players, srtla_reload_media_source}
use pyle_irl.Source.Update.{Settings, media_restart_needed, set_engine, restart}
use pyle_irl.Source.Update.Settled.{
  engine-settled, listen_ip-settled, IsSettled, reloaded-IsSettled, restarted-IsSettled,
  set_engine-same, no_media-engine, no_media-some,
}

leb_refl : (n : ℕ) → leb n n ≡ true
leb_refl n = ground arith

same_int_refl : (a : ℤ) → same_int a a ≡ true
same_int_refl (pos n) = ground (arith, leb_refl n)
same_int_refl (negsuc n) = ground (arith, leb_refl n)

-- A source with the RIST configuration of the settings.
abbrev agreeing : RistSettings → Source → RistSource
agreeing cfg s = record {
  shared = s;
  rist_profile = cfg.rist_profile;
  rist_passphrase = cfg.rist_passphrase;
  rist_key_size = cfg.rist_key_size;
  rist_stream_id = cfg.rist_stream_id;
}

agreeing-unchanged : (cfg : RistSettings) (s : Source) → config_changed cfg (agreeing cfg s) ≡ false
agreeing-unchanged cfg s = simp (
  same_int_refl cfg.rist_profile,
  same_int_refl cfg.rist_key_size,
  same_int_refl cfg.rist_stream_id,
  listen_ip-settled cfg.rist_passphrase,
)

-- No test of the update asks for a restart.
abbrev RistIsSettled : RistSettings → ℕ → RistSource → Type 0
RistIsSettled cfg port r = IsSettled cfg.common port r.shared × (config_changed cfg r ≡ false)

-- The restart is that of the other source on the fields that both have.
rist_restart-agreeing :
    (now : ℕ) (players : Players) (spawned : Bool) (cfg : RistSettings) (port : ℕ)
    (media_too : Bool) (r : RistSource)
    → rist_restart now players spawned cfg port media_too r
      ≡ agreeing cfg (restart now players spawned cfg.common port media_too r.shared)
unfolding rist_restart restart srtla_stop_thread rist_reload_media_source drop_rist_media
    rist_create_media_source_internal srtla_reload_media_source
rist_restart-agreeing now players spawned cfg port true r = refl
rist_restart-agreeing now players spawned cfg port false r = refl

restart-RistIsSettled :
    (now : ℕ) (players : Players) (cfg : RistSettings) (port : ℕ) (media_too : Bool)
    (r : RistSource)
    → IsSettled cfg.common port (restart now players true cfg.common port media_too r.shared)
    → RistIsSettled cfg port (rist_restart now players true cfg port media_too r)
restart-RistIsSettled now players cfg port media_too r h =
    subst (RistIsSettled cfg port)
      (sym (rist_restart-agreeing now players true cfg port media_too r))
      (h, agreeing-unchanged cfg (restart now players true cfg.common port media_too r.shared))

apply_rist_settings-skip :
    (now : ℕ) (players : Players) (spawned : Bool) (cfg : RistSettings) (port : ℕ) (r : RistSource)
    → media_restart_needed cfg.common port r.shared ≡ false
    → rist_thread_restart_needed cfg port r ≡ false
    → apply_rist_settings now players spawned cfg port r ≡ r
unfolding apply_rist_settings
apply_rist_settings-skip now players spawned cfg port r media thread =
    rw (thread, media, apply_rist_settings)
      (ap (λ s. record r { shared = s })
        (set_engine-same cfg.common r.shared (no_media-engine cfg.common port r.shared media)))

apply_rist_settings-reload :
    (now : ℕ) (players : Players) (spawned : Bool) (cfg : RistSettings) (port : ℕ) (r : RistSource)
    → media_restart_needed cfg.common port r.shared ≡ true
    → apply_rist_settings now players spawned cfg port r
      ≡ rist_restart now players spawned cfg port true (on_shared (set_engine cfg.common) r)
unfolding apply_rist_settings
apply_rist_settings-reload now players spawned cfg port r media =
    elim (Bool-cases (rist_thread_restart_needed cfg port r)) [
      | inl thread ↦ rw (thread, media, apply_rist_settings) refl
      | inr thread ↦ rw (thread, media, apply_rist_settings) refl
    ]

apply_rist_settings-restart :
    (now : ℕ) (players : Players) (spawned : Bool) (cfg : RistSettings) (port : ℕ) (r : RistSource)
    → media_restart_needed cfg.common port r.shared ≡ false
    → rist_thread_restart_needed cfg port r ≡ true
    → apply_rist_settings now players spawned cfg port r
      ≡ rist_restart now players spawned cfg port false (on_shared (set_engine cfg.common) r)
unfolding apply_rist_settings
apply_rist_settings-restart now players spawned cfg port r media thread =
    rw (thread, media, apply_rist_settings) refl

set_engine-media : (cfg : Settings) (s : Source) → (set_engine cfg s).media_source ≡ s.media_source
set_engine-media cfg s = ground arith

-- After an update whose thread starts and whose player can be made, no test asks for a restart.
apply_rist_settings-RistIsSettled :
    (now : ℕ) (players : Players) (cfg : RistSettings) (port : ℕ) (r : RistSource) (m : ℕ)
    → players ffmpeg_player ≡ some m
    → RistIsSettled cfg port (apply_rist_settings now players true cfg port r)
apply_rist_settings-RistIsSettled now players cfg port r m e =
    let common = cfg.common in
    let r1 = on_shared (set_engine common) r in
    elim (Bool-cases (media_restart_needed common port r.shared)) [
      | inl media ↦
          subst (RistIsSettled cfg port)
            (sym (apply_rist_settings-reload now players true cfg port r media))
            (restart-RistIsSettled now players cfg port true r1 (
              reloaded-IsSettled now players common port r1.shared m e
                (engine-settled common r.shared)))
      | inr no_media ↦ elim (Bool-cases (rist_thread_restart_needed cfg port r)) [
        | inl thread ↦
            subst (RistIsSettled cfg port)
              (sym (apply_rist_settings-restart now players true cfg port r no_media thread))
              (restart-RistIsSettled now players cfg port false r1 (
                restarted-IsSettled now players common port r1.shared
                  (ap is_none (set_engine-media common r.shared)
                    ∙ no_media-some common port r.shared no_media)
                  (engine-settled common r.shared)))
        | inr no_thread ↦
            subst (RistIsSettled cfg port)
              (sym (apply_rist_settings-skip now players true cfg port r no_media no_thread))
              ((no_media, ground arith), ground arith)
      ]
    ]

-- Where FFmpeg can always be made and the thread starts, an update with the settings that the source
-- already has leaves the source as it is: neither the receiver nor the player is restarted.
pub apply_rist_settings_again :
    (now again : ℕ) (players : Players) (cfg : RistSettings) (port : ℕ) (r : RistSource) (m : ℕ)
    → players ffmpeg_player ≡ some m
    → let r' = apply_rist_settings now players true cfg port r in
      apply_rist_settings again players true cfg port r' ≡ r'
apply_rist_settings_again now again players cfg port r m e =
    let r' = apply_rist_settings now players true cfg port r in
    let ((media, thread), config) = apply_rist_settings-RistIsSettled now players cfg port r m e in
    apply_rist_settings-skip again players true cfg port r' media (ground (arith, thread, config))
