-- ===== src/RistSource/Receivers.antt =====
-- `rist_get_all_receivers_json` of src/rist-source.c: the sources as a JSON text.
use pyle_irl.Base.{
  ℕ, ◌≡◌, Bool, ◌&&◌, Option, none, some, List, ◌++◌, map, length, ltb, if◌then◌else◌,
}
use pyle_irl.Rist.Contexts.{RistTable}
use pyle_irl.RistSource.{RistSource}
use pyle_irl.RistSource.Playing.{rist_is_audio_starved_locked}
use pyle_irl.Source.Receivers.{Shown, receiver_text, print_receivers}
use pyle_irl.Source.Receivers.Json.{open_array, print_receivers-array}
use pyle_irl.Text.{ascii, Written, nothing_written, into_buffer}
use pyle_irl.Text.Writing.{buffered}
use pyle_irl.Wire.{Bytes}

unfoldable pub rist_get_all_receivers_json :
    Bool → ℕ → ℕ → ℕ → RistTable → List (RistSource × Shown) → Option Written
rist_get_all_receivers_json out_buffer max_len now ms t sources = into_buffer out_buffer max_len (
    print_receivers max_len (
      map
        (λ (p : RistSource × Shown).
          receiver_text (ascii "rist") (rist_is_audio_starved_locked now ms t p.0) p.1 p.0.shared)
        sources))

-- The objects of these sources.
abbrev pub rist_receiver_texts : ℕ → ℕ → RistTable → List (RistSource × Shown) → List Bytes
rist_receiver_texts now ms t = map (λ (p : RistSource × Shown).
    receiver_text (ascii "rist") (rist_is_audio_starved_locked now ms t p.0) p.1 p.0.shared)

-- As for the other sources: the array, cut to the buffer, unless the array without its closing bracket
-- is longer than the buffer, where the code writes behind its end; and nothing without a buffer.
pub rist_get_all_receivers_json_lem :
    (out_buffer : Bool) (max_len now ms : ℕ) (t : RistTable) (sources : List (RistSource × Shown))
    → let body = open_array (rist_receiver_texts now ms t sources) in
      rist_get_all_receivers_json out_buffer max_len now ms t sources ≡ (
        if out_buffer && ltb 0 max_len
        then (if ltb max_len (length body)
            then none
            else some (buffered max_len (body ++ ascii "]")))
        else some nothing_written)
unfolding rist_get_all_receivers_json
rist_get_all_receivers_json_lem out_buffer max_len now ms t sources =
    print_receivers-array out_buffer max_len (rist_receiver_texts now ms t sources)
