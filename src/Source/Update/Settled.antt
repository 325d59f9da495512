-- ===== src/Source/Update/Settled.antt =====
-- What `srtla_source_update` (src/srtla-source.c) leaves behind.
use pyle_irl.Base.{
  ℕ, ◌≡◌, refl, sym, ap, subst, inl, inr, Bool, true, false, Option, none, some, arith, Bool-cases,
  same_bool, is_none,
}
use pyle_irl.Source.{Source, srtla_stop_thread}
use pyle_irl.Source.Media.{
  Player, irl_player, vlc_player, ffmpeg_player, Players, wanted_player, create_player,
  srtla_destroy_media_source_internal, srtla_create_media_source_internal, drop_media,
  srtla_reload_media_source,
}
use pyle_irl.Source.Update.{
  Settings, listen_ip_changed, engine_or_default, engine_changed, media_restart_needed,
  thread_restart_needed, set_engine, configured, restart, apply_settings,
}
use pyle_irl.Wire.{Bytes}
use pyle_irl.Wire.Codec.{same_text_refl}

same_bool_refl : (b : Bool) → same_bool b b ≡ true
same_bool_refl true = refl
same_bool_refl false = refl

pub engine-settled :
    (cfg : Settings) (s : Source)
    → engine_changed (set_engine cfg s).playback_engine (engine_or_default cfg.playback_engine)
      ≡ false
engine-settled cfg s = ground (arith, same_text_refl (engine_or_default cfg.playback_engine))

pub listen_ip-settled : (o : Option Bytes) → listen_ip_changed o o ≡ false
listen_ip-settled none = refl
listen_ip-settled (some ip) = ground (arith, same_text_refl ip)

-- With FFmpeg at hand there is a player for every choice.
pub create_player-some :
    (players : Players) (p : Player) (m : ℕ)
    → players ffmpeg_player ≡ some m
    → is_none (create_player players p) ≡ false
unfolding create_player
create_player-some players ffmpeg_player m e = ground (arith, e)
create_player-some players irl_player m e = ground (arith, e)
create_player-some players vlc_player m e = ground (arith, e)

-- What a reload leaves of a source, for the tests on the settings.
pub reload_keeps :
    (now : ℕ) (players : Players) (s : Source)
    → let r = srtla_reload_media_source now players s in
      (r.listen_port ≡ s.listen_port)
      × (r.local_srt_port ≡ s.local_srt_port)
      × (r.listen_ip ≡ s.listen_ip)
      × (r.latency ≡ s.latency)
      × (r.playback_engine ≡ s.playback_engine)
      × (r.hw_decode ≡ s.hw_decode)
      × (r.media_source ≡ create_player players (wanted_player s.playback_engine))
unfolding srtla_reload_media_source drop_media srtla_create_media_source_internal
    srtla_destroy_media_source_internal
reload_keeps now players s = ground arith

-- Whatever is restarted or not, the source has the port afterwards.
pub apply_settings-port :
    (now : ℕ) (players : Players) (spawned : Bool) (cfg : Settings) (port : ℕ) (s : Source)
    → (apply_settings now players spawned cfg port s).listen_port ≡ port
unfolding apply_settings restart srtla_stop_thread
apply_settings-port now players spawned cfg port s =
    ground (arith, reload_keeps now players (configured cfg port (set_engine cfg s)))

-- No test asks for a restart.
abbrev pub IsSettled : Settings → ℕ → Source → Type 0
IsSettled cfg port s =
    (media_restart_needed cfg port s ≡ false) × (thread_restart_needed cfg port s ≡ false)

pub reloaded-IsSettled :
    (now : ℕ) (players : Players) (cfg : Settings) (port : ℕ) (s : Source) (m : ℕ)
    → players ffmpeg_player ≡ some m
    → engine_changed s.playback_engine (engine_or_default cfg.playback_engine) ≡ false
    → IsSettled cfg port (restart now players true cfg port true s)
unfolding restart srtla_stop_thread
reloaded-IsSettled now players cfg port s m e engine =
    let s1 = configured cfg port s in
    let kept = reload_keeps now players s1 in
    let made = create_player-some players (wanted_player s1.playback_engine) m e in
    let hw = same_bool_refl cfg.hw_decode in
    let ip = listen_ip-settled cfg.listen_ip in
    (ground (arith, engine, kept, made, hw), ground (arith, kept, ip))

pub restarted-IsSettled :
    (now : ℕ) (players : Players) (cfg : Settings) (port : ℕ) (s : Source)
    → is_none s.media_source ≡ false
    → engine_changed s.playback_engine (engine_or_default cfg.playback_engine) ≡ false
    → IsSettled cfg port (restart now players true cfg port false s)
unfolding restart srtla_stop_thread
restarted-IsSettled now players cfg port s media engine =
    let hw = same_bool_refl cfg.hw_decode in
    let ip = listen_ip-settled cfg.listen_ip in
    (ground (arith, engine, media, hw), ground (arith, ip))

pub set_engine-same :
    (cfg : Settings) (s : Source)
    → engine_changed s.playback_engine (engine_or_default cfg.playback_engine) ≡ false
    → set_engine cfg s ≡ s
set_engine-same cfg s e = ground (arith, e)

pub no_media-engine :
    (cfg : Settings) (port : ℕ) (s : Source)
    → media_restart_needed cfg port s ≡ false
    → engine_changed s.playback_engine (engine_or_default cfg.playback_engine) ≡ false
no_media-engine cfg port s e =
    elim (Bool-cases (engine_changed s.playback_engine (engine_or_default cfg.playback_engine))) [
      | inl changed ↦ absurd (ground arith)
      | inr equal ↦ equal
    ]

pub no_media-some :
    (cfg : Settings) (port : ℕ) (s : Source)
    → media_restart_needed cfg port s ≡ false
    → is_none s.media_source ≡ false
no_media-some cfg port s e = elim (Bool-cases (is_none s.media_source)) [
  | inl missing ↦ absurd (ground arith)
  | inr there ↦ there
]

apply_settings-skip :
    (now : ℕ) (players : Players) (spawned : Bool) (cfg : Settings) (port : ℕ) (s : Source)
    → media_restart_needed cfg port s ≡ false
    → thread_restart_needed cfg port s ≡ false
    → apply_settings now players spawned cfg port s ≡ s
unfolding apply_settings
apply_settings-skip now players spawned cfg port s media thread =
    rw (thread, media, apply_settings) (set_engine-same cfg s (no_media-engine cfg port s media))

apply_settings-reload :
    (now : ℕ) (players : Players) (spawned : Bool) (cfg : Settings) (port : ℕ) (s : Source)
    → media_restart_needed cfg port s ≡ true
    → apply_settings now players spawned cfg port s
      ≡ restart now players spawned cfg port true (set_engine cfg s)
unfolding apply_settings
apply_settings-reload now players spawned cfg port s media =
    elim (Bool-cases (thread_restart_needed cfg port s)) [
      | inl thread ↦ rw (thread, media, apply_settings) refl
      | inr thread ↦ rw (thread, media, apply_settings) refl
    ]

apply_settings-restart :
    (now : ℕ) (players : Players) (spawned : Bool) (cfg : Settings) (port : ℕ) (s : Source)
    → media_restart_needed cfg port s ≡ false
    → thread_restart_needed cfg port s ≡ true
    → apply_settings now players spawned cfg port s ≡ restart now players spawned cfg port false s
unfolding apply_settings
apply_settings-restart now players spawned cfg port s media thread =
    rw (thread, media, apply_settings)
      (ap (restart now players spawned cfg port false)
        (set_engine-same cfg s (no_media-engine cfg port s media)))

-- After an update whose thread starts and whose player can be made, no test asks for a restart.
apply_settings-IsSettled :
    (now : ℕ) (players : Players) (cfg : Settings) (port : ℕ) (s : Source) (m : ℕ)
    → players ffmpeg_player ≡ some m
    → IsSettled cfg port (apply_settings now players true cfg port s)
apply_settings-IsSettled now players cfg port s m e =
    elim (Bool-cases (media_restart_needed cfg port s)) [
      | inl media ↦
          subst (IsSettled cfg port) (sym (apply_settings-reload now players true cfg port s media))
            (reloaded-IsSettled now players cfg port (set_engine cfg s) m e (engine-settled cfg s))
      | inr no_media ↦
          let same_engine = set_engine-same cfg s (no_media-engine cfg port s no_media) in
          elim (Bool-cases (thread_restart_needed cfg port s)) [
            | inl thread ↦
                subst (IsSettled cfg port)
                  (sym (apply_settings-restart now players true cfg port s no_media thread))
                  (restarted-IsSettled now players cfg port s (no_media-some cfg port s no_media)
                    (no_media-engine cfg port s no_media))
            | inr no_thread ↦
                subst (IsSettled cfg port)
                  (sym (apply_settings-skip now players true cfg port s no_media no_thread))
                  (no_media, no_thread)
          ]
    ]

-- Where FFmpeg can always be made and the thread starts, an update with the settings that the source
-- already has leaves the source as it is: nothing is restarted.
pub apply_settings_again :
    (now again : ℕ) (players : Players) (cfg : Settings) (port : ℕ) (s : Source) (m : ℕ)
    → players ffmpeg_player ≡ some m
    → let r = apply_settings now players true cfg port s in
      apply_settings again players true cfg port r ≡ r
apply_settings_again now again players cfg port s m e =
    let r = apply_settings now players true cfg port s in
    let (media, thread) = apply_settings-IsSettled now players cfg port s m e in
    apply_settings-skip again players true cfg port r media thread
