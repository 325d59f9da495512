-- ===== src/Source/Control.antt =====
-- The controls of src/srtla-source.c: stop, start and reload, for one source, by name or for all.
pub mod Stopped
use pyle_irl.Base.{
  ℕ, suc, Bool, false, Option, none, some, List, [], ◌∷◌, map, get_elem?, set, modify,
  if◌then◌else◌,
}
use pyle_irl.Receiver.Instances.{Table, srtla_reset_group_by_port}
use pyle_irl.Source.{recovery_none, Source, srtla_stop_thread}
use pyle_irl.Source.Media.{Players, drop_media, srtla_reload_media_source}
use pyle_irl.Wire.{Bytes, same_text}

-- `t` is the table of the receivers after the thread was joined.
unfoldable pub srtla_force_stop : Source → Table → Source × Table
unfolding srtla_stop_thread drop_media
srtla_force_stop s t = (
  record (drop_media (srtla_stop_thread s)) {
    connected_since = 0;
    last_audio_time = 0;
    last_video_time = 0;
    last_video_ts = 0;
    last_media_time = 0;
    last_network_bytes = 0;
    last_network_time = 0;
    starved_since = 0;
    initial_delay_set = false;
    last_recovery_time = 0;
    recovery_attempts = 0;
    pending_recovery = recovery_none;
  },
  srtla_reset_group_by_port s.listen_port t,
)

-- All sources, in the order of the list.
unfoldable pub srtla_force_stop_all : List Source → Table → List Source × Table
srtla_force_stop_all [] t = ([], t)
srtla_force_stop_all (s ∷ ss) t =
    let (s', t') = srtla_force_stop s t in
    let (rest, t'') = srtla_force_stop_all ss t' in (s' ∷ rest, t'')

unfoldable pub srtla_force_reload_all : ℕ → Players → List Source → List Source
srtla_force_reload_all now players ss = map (srtla_reload_media_source now players) ss

-- `s_name && strcmp(s_name, name) == 0`
abbrev pub is_named : Bytes → Source → Bool
is_named name s = elim s.name [ none ↦ false | some n ↦ same_text n name ]

-- The loop that four functions share: the first source with that name.
unfoldable pub find_name : Bytes → List Source → Option ℕ
find_name name [] = none
find_name name (s ∷ ss) =
    let rest = find_name name ss in
    if is_named name s then some 0 else elim rest [ none ↦ none | some i ↦ some (suc i) ]

unfoldable pub srtla_force_stop_by_name : Bytes → List Source → Table → List Source × Table
srtla_force_stop_by_name name ss t = elim (find_name name ss) [
  | none ↦ (ss, t)
  | some i ↦ elim (get_elem? ss i) [
    | none ↦ (ss, t)
    | some s ↦ let (s', t') = srtla_force_stop s t in (set ss i s', t')
  ]
]

unfoldable pub srtla_force_reload_by_name : ℕ → Players → Bytes → List Source → List Source
srtla_force_reload_by_name now players name ss = elim (find_name name ss) [
  | none ↦ ss
  | some i ↦ modify i (srtla_reload_media_source now players) ss
]
