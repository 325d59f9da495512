-- ===== src/Source/Receivers/Json.antt =====
-- What `srtla_get_all_receivers_json` (src/srtla-source.c) and `rist_get_all_receivers_json`
-- (src/rist-source.c) write.
use pyle_irl.Base.{
  ℕ, ◌≡◌, Bool, true, ◌&&◌, none, some, List, ◌++◌, map, length, ltb, if◌then◌else◌,
}
use pyle_irl.Receiver.Instances.{Table}
use pyle_irl.Source.{Source}
use pyle_irl.Source.Playing.{srtla_is_audio_starved_locked}
use pyle_irl.Source.Receivers.{Shown, receiver_text, print_receivers, srtla_get_all_receivers_json}
use pyle_irl.Text.{ascii, print, ◌⨾◌, print_items, nothing_written, into_buffer}
use pyle_irl.Text.Writing.{
  buffered, print-Writes, then-Writes, listed, print_texts-Writes, guarded, into_buffer-Writes,
}
use pyle_irl.Wire.{Bytes}

-- The array of these objects, without its closing bracket.
abbrev pub open_array : List Bytes → Bytes
open_array texts = ascii "[" ++ listed true texts

pub print_receivers-array :
    (out_buffer : Bool) (max_len : ℕ) (texts : List Bytes)
    → into_buffer out_buffer max_len (print_receivers max_len texts)
      ≡ guarded out_buffer max_len (open_array texts) (ascii "]")
unfolding print_receivers
print_receivers-array out_buffer max_len texts =
    into_buffer-Writes out_buffer max_len
      (print max_len (ascii "[") ⨾ print_items max_len true (map (print max_len) texts))
      (open_array texts) (ascii "]")
      (then-Writes (print-Writes max_len (ascii "[")) (print_texts-Writes max_len texts))

-- The objects of these sources.
abbrev pub receiver_texts : ℕ → Table → List (Source × Shown) → List Bytes
receiver_texts now t = map (λ (p : Source × Shown).
    receiver_text (ascii "srtla") (srtla_is_audio_starved_locked now t p.0) p.1 p.0)

-- With a buffer of at least one byte: the buffer gets the array of the sources' objects, cut to its
-- size, unless the array without its closing bracket is longer than the buffer: then the code writes
-- behind the end of the buffer. Without one nothing is written.
pub srtla_get_all_receivers_json_lem :
    (out_buffer : Bool) (max_len now : ℕ) (t : Table) (sources : List (Source × Shown))
    → let body = open_array (receiver_texts now t sources) in
      srtla_get_all_receivers_json out_buffer max_len now t sources ≡ (
        if out_buffer && ltb 0 max_len
        then (if ltb max_len (length body)
            then none
            else some (buffered max_len (body ++ ascii "]")))
        else some nothing_written)
unfolding srtla_get_all_receivers_json
srtla_get_all_receivers_json_lem out_buffer max_len now t sources =
    print_receivers-array out_buffer max_len (receiver_texts now t sources)
