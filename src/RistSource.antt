-- ===== src/RistSource.antt =====
-- src/rist-source.c: the OBS source for RIST. The file is a copy of src/srtla-source.c in which some
-- parts differ; where the text is the same but for the prefix, the operation is that of the other
-- source on the fields that both have.
pub mod Monitor
pub mod Playing
pub mod Update
pub mod Recover
pub mod Control
pub mod Receivers
mod Tests
use pyle_irl.Base.{ℕ, ◌-◌, Option, none, some, List, [], ◌∷◌, take, remove_at}
use pyle_irl.Base.Int.{ℤ, pos}
use pyle_irl.Source.{Source, zeroed_source, srtla_stop_thread}
use pyle_irl.Source.Media.{Players, srtla_create_media_source_internal, drop_media}
use pyle_irl.Wire.{Bytes}

-- `struct rist_source`: `shared` has the fields that `struct srtla_source` has too, under the same
-- names. The `int`s of the settings are within their range.
pub record RistSource : Type 0 where
  pub shared : Source
  pub rist_profile : ℤ
  pub rist_passphrase : Option Bytes
  pub rist_key_size : ℤ
  pub rist_stream_id : ℤ

-- A change of the shared fields.
abbrev pub on_shared : (Source → Source) → RistSource → RistSource
on_shared f r = record r { shared = f r.shared }

-- `rist_source_create`
unfoldable pub rist_source_create : Option Bytes → Option ℕ → List RistSource → List RistSource
rist_source_create name port rs =
    record {
      shared = elim port [
        | none ↦ zeroed_source name
        | some p ↦ record (zeroed_source name) { listen_port = p }
      ];
      rist_profile = pos 0;
      rist_passphrase = none;
      rist_key_size = pos 0;
      rist_stream_id = pos 0;
    }
    ∷ rs

unfoldable pub rist_stop_thread : RistSource → RistSource
unfolding srtla_stop_thread
rist_stop_thread = on_shared srtla_stop_thread

-- The media source goes, and what it has measured.
unfoldable pub drop_rist_media : RistSource → RistSource
unfolding drop_media
drop_rist_media = on_shared drop_media

-- The new media source, and the fields that are set beside it.
unfoldable pub rist_create_media_source_internal : ℕ → Players → RistSource → RistSource × Option ℕ
unfolding srtla_create_media_source_internal
rist_create_media_source_internal now players r =
    let (s, m) = srtla_create_media_source_internal now players r.shared in
    (record r { shared = s }, m)

unfoldable pub rist_reload_media_source : ℕ → Players → RistSource → RistSource
unfolding drop_rist_media rist_create_media_source_internal
rist_reload_media_source now players r =
    let (r', m) = rist_create_media_source_internal now players (drop_rist_media r) in
    on_shared (λ s. record s { media_source = m }) r'

-- `rist_source_destroy`: the source at this index leaves the list.
unfoldable pub rist_source_destroy : ℕ → List RistSource → List RistSource
rist_source_destroy i rs = remove_at i rs

-- What `rist_thread_func` hands to `rist_rec_main` (`struct rist_config` of src/rist_rec.h): the texts
-- are cut to the size of their arrays.
pub record RistConfig : Type 0 where
  pub listen_ip : Bytes
  pub listen_port : ℕ
  pub local_srt_port : ℕ
  pub profile : ℤ
  pub buffer_ms : ℕ
  pub passphrase : Bytes
  pub key_size : ℤ
  pub stream_id : ℤ

abbrev pub copied : ℕ → Option Bytes → Bytes
copied size none = []
copied size (some text) = take (size - 1) text

unfoldable pub rist_thread_func : RistSource → RistConfig
rist_thread_func r = record {
  listen_ip = copied 64 r.shared.listen_ip;
  listen_port = r.shared.listen_port;
  local_srt_port = r.shared.local_srt_port;
  profile = r.rist_profile;
  buffer_ms = r.shared.latency;
  passphrase = copied 128 r.rist_passphrase;
  key_size = r.rist_key_size;
  stream_id = r.rist_stream_id;
}
