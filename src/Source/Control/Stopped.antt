-- ===== src/Source/Control/Stopped.antt =====
-- What is left of a source of src/srtla-source.c that was stopped.
use mathlib.Core.Option
use pyle_irl.Base.{ℕ, ◌≡◌, refl, false, none, some, [], ◌∷◌, arith}
use pyle_irl.Base.Int.{pos}
use pyle_irl.Receiver.Instances.{
  Table, find_port, group_bytes, srtla_get_total_bytes, srtla_get_group_count_by_port, reset_groups,
  srtla_reset_group_by_port,
}
use pyle_irl.Source.{Source, srtla_stop_thread}
use pyle_irl.Source.Control.{srtla_force_stop}
use pyle_irl.Source.Media.{srtla_destroy_media_source_internal, drop_media}
use pyle_irl.Source.Playing.{View, srtla_is_media_playing}

reset_first :
    (port : ℕ) (t : Table)
    → find_port port (srtla_reset_group_by_port port t) ≡ Option.map reset_groups (find_port port t)
unfolding find_port srtla_reset_group_by_port reset_groups
reset_first port [] = refl
reset_first port (none ∷ t) = reset_first port t
reset_first port (some c ∷ t) = ground (arith, reset_first port t)

-- After `srtla_force_stop` the source does not count as playing, to whoever asks and whenever; it
-- has no media source; and a receiver that is left on its port has no groups and no bytes.
pub srtla_force_stop_lem :
    (v : View) (port : ℕ) (s : Source) (t : Table)
    → let (s', t') = srtla_force_stop s t in
      (srtla_is_media_playing v port (s' ∷ []) ≡ false)
      × (s'.media_source ≡ none)
      × (srtla_get_group_count_by_port s.listen_port t' ≡ pos 0)
      × (srtla_get_total_bytes s.listen_port t' ≡ 0)
unfolding srtla_force_stop srtla_is_media_playing srtla_get_group_count_by_port
    srtla_get_total_bytes group_bytes reset_groups srtla_stop_thread drop_media
    srtla_destroy_media_source_internal
srtla_force_stop_lem v port s t = (
  ground arith,
  ground arith,
  ground (arith, reset_first s.listen_port t),
  ground (arith, reset_first s.listen_port t),
)
