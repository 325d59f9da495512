-- ===== src/Rist/Details/Json.antt =====
-- What `rist_get_connection_details` (src/rist_rec.c) writes.
use pyle_irl.Base.{
  ℕ, ◌≡◌, Bool, true, ◌&&◌, Option, none, some, List, [], ◌∷◌, ◌++◌, map, length, ltb,
  if◌then◌else◌,
}
use pyle_irl.Rist.Details.{
  ShownInfo, listening, peer_texts, info_head, print_info, print_contexts,
  rist_get_connection_details,
}
use pyle_irl.Text.{ascii, decimal, print, nothing_written}
use pyle_irl.Text.Groups.{open_details}
use pyle_irl.Text.Writing.{
  buffered, Writes, print-Writes, then-Writes, listed, EachWrites, print_items-Writes,
  print_texts-Writes, into_buffer-Writes,
}
use pyle_irl.Wire.{Bytes}

-- The group of a context.
abbrev pub info_text : ℕ → ShownInfo → Bytes
info_text ms x = info_head x ++ (listed true (peer_texts ms x.shown_peers) ++ ascii "]}")

print_info-Writes :
    (max_len ms : ℕ) (x : ShownInfo) → Writes max_len (print_info max_len ms x) (info_text ms x)
unfolding print_info
print_info-Writes max_len ms x = then-Writes (print-Writes max_len (info_head x)) (
    then-Writes (print_texts-Writes max_len (peer_texts ms x.shown_peers))
      (print-Writes max_len (ascii "]}")))

infos-EachWrites :
    (max_len ms : ℕ) (xs : List ShownInfo)
    → EachWrites max_len (map (print_info max_len ms) xs) (map (info_text ms) xs)
infos-EachWrites max_len ms [] = tt
infos-EachWrites max_len ms (x ∷ xs) =
    (print_info-Writes max_len ms x, infos-EachWrites max_len ms xs)

info_ports-EachWrites :
    (max_len : ℕ) (xs : List ShownInfo)
    → EachWrites max_len
        (map (λ (x : ShownInfo). print max_len (decimal x.info.listen_port)) xs)
        (map (λ (x : ShownInfo). decimal x.info.listen_port) xs)
info_ports-EachWrites max_len [] = tt
info_ports-EachWrites max_len (x ∷ xs) =
    (print-Writes max_len (decimal x.info.listen_port), info_ports-EachWrites max_len xs)

-- The text for these contexts, without the closing brackets.
abbrev pub contexts_text : ℕ → List ShownInfo → Bytes
contexts_text ms shown =
    open_details (map (λ (x : ShownInfo). decimal x.info.listen_port) shown)
      (map (info_text ms) shown)

print_contexts-Writes :
    (max_len ms : ℕ) (shown : List ShownInfo)
    → Writes max_len (print_contexts max_len ms shown) (contexts_text ms shown)
unfolding print_contexts
print_contexts-Writes max_len ms shown = then-Writes (print-Writes max_len (ascii "{")) (
    then-Writes (print-Writes max_len (ascii "\"ports\":[")) (
      then-Writes
        (print_items-Writes max_len true
          (map (λ (x : ShownInfo). print max_len (decimal x.info.listen_port)) shown)
          (map (λ (x : ShownInfo). decimal x.info.listen_port) shown)
          (info_ports-EachWrites max_len shown))
        (then-Writes (print-Writes max_len (ascii "],")) (
          then-Writes (print-Writes max_len (ascii "\"groups\":[")) (
            print_items-Writes max_len true (map (print_info max_len ms) shown)
              (map (info_text ms) shown) (infos-EachWrites max_len ms shown))))))

-- With a buffer of at least one byte: the buffer gets the ports of the listening contexts and a group
-- for each of them with the peers seen in the last 2 s, cut to its size, unless the text without its
-- closing brackets is longer than the buffer: then the code writes behind the end of the buffer.
-- Without one nothing is written.
pub rist_get_connection_details_lem :
    (out_buffer : Bool) (max_len ms : ℕ) (t : List (Option ShownInfo))
    → let body = contexts_text ms (listening t) in
      rist_get_connection_details out_buffer max_len ms t ≡ (
        if out_buffer && ltb 0 max_len
        then (if ltb max_len (length body)
            then none
            else some (buffered max_len (body ++ ascii "]}")))
        else some nothing_written)
unfolding rist_get_connection_details
rist_get_connection_details_lem out_buffer max_len ms t =
    into_buffer-Writes out_buffer max_len (print_contexts max_len ms (listening t))
      (contexts_text ms (listening t)) (ascii "]}") (print_contexts-Writes max_len ms (listening t))
