-- ===== src/Source/Receivers.antt =====
-- `srtla_get_all_receivers_json` of src/srtla-source.c: the sources as a JSON text.
pub mod Json
use pyle_irl.Base.{ℕ, Bool, true, Option, none, some, List, ◌++◌, map}
use pyle_irl.Receiver.Instances.{Table}
use pyle_irl.Source.{Source}
use pyle_irl.Source.Playing.{srtla_is_audio_starved_locked}
use pyle_irl.Text.{ascii, decimal, truth, Written, Write, print, ◌⨾◌, print_items, into_buffer}
use pyle_irl.Wire.{Bytes}

-- What is shown of a source beside its state: the audio drift in ms as `%lld` prints it, and the level
-- as `%.1f` does.
pub record Shown : Type 0 where
  pub drift_ms : Bytes
  pub audio_db : Bytes

-- The name of the OBS source, as it is: nothing in it is escaped.
abbrev pub name_or_unknown : Option Bytes → Bytes
name_or_unknown none = ascii "Unknown"
name_or_unknown (some name) = name

-- What the format of one source gives.
abbrev pub receiver_text : Bytes → Bool → Shown → Source → Bytes
receiver_text protocol starved x s =
    ascii "{\"name\":\""
    ++ name_or_unknown s.name
    ++ ascii "\",\"listen_port\":"
    ++ decimal s.listen_port
    ++ ascii ",\"running\":"
    ++ truth s.thread_running
    ++ ascii ",\"protocol\":\""
    ++ protocol
    ++ ascii "\",\"audio_drift_ms\":"
    ++ x.drift_ms
    ++ ascii ",\"audio_db\":"
    ++ x.audio_db
    ++ ascii ",\"auto_reset_count\":"
    ++ decimal s.auto_reset_count
    ++ ascii ",\"audio_starved\":"
    ++ truth starved
    ++ ascii "}"

-- The calls of `snprintf` for the texts of the sources.
unfoldable pub print_receivers : ℕ → List Bytes → Write
print_receivers max_len texts =
    (print max_len (ascii "[") ⨾ print_items max_len true (map (print max_len) texts))
    ⨾ print max_len (ascii "]")

-- The buffer; `none` is a write behind its end.
unfoldable pub srtla_get_all_receivers_json :
    Bool → ℕ → ℕ → Table → List (Source × Shown) → Option Written
srtla_get_all_receivers_json out_buffer max_len now t sources = into_buffer out_buffer max_len (
    print_receivers max_len (
      map
        (λ (p : Source × Shown).
          receiver_text (ascii "srtla") (srtla_is_audio_starved_locked now t p.0) p.1 p.0)
        sources))
