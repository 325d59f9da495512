-- ===== src/Rist/Details.antt =====
-- `rist_get_connection_details` of src/rist_rec.c: the contexts as a JSON text.
pub mod Json
use pyle_irl.Base.{
  ℕ, ◌+◌, Bool, true, ◌&&◌, Option, none, some, List, [], ◌∷◌, map, leb, if◌then◌else◌,
}
use pyle_irl.Rist.{Peer, Info, is_seen}
use pyle_irl.Source.{sub64}
use pyle_irl.Text.{ascii, decimal, Written, Write, print, ◌⨾◌, print_items, into_buffer}
use pyle_irl.Text.Groups.{group_head, conn_text}
use pyle_irl.Wire.{Bytes}

-- A peer with its address.
pub record ShownPeer : Type 0 where
  pub known_peer : Peer
  pub ip : Bytes
  pub port : ℕ

-- A context with its quality as `%.1f` prints it; `shown_peers` are its peers.
pub record ShownInfo : Type 0 where
  pub info : Info
  pub shown_quality : Bytes
  pub shown_peers : List ShownPeer

-- The contexts that are there and listen.
unfoldable pub listening : List (Option ShownInfo) → List ShownInfo
listening [] = []
listening (none ∷ t) = listening t
listening (some x ∷ t) = let rest = listening t in if x.info.is_listening then x ∷ rest else rest

-- The objects of the peers seen in the last 2 s.
unfoldable pub peer_texts : ℕ → List ShownPeer → List Bytes
peer_texts ms [] = []
peer_texts ms (x ∷ xs) =
    let rest = peer_texts ms xs in
    if is_seen x.known_peer && leb (sub64 ms x.known_peer.last_seen_ms) 2000
    then conn_text x.ip x.port x.known_peer.cumulative_bytes ∷ rest
    else rest

abbrev pub info_head : ShownInfo → Bytes
info_head x =
    group_head (x.info.listen_port + 10000) x.info.total_bytes x.info.listen_port (record {
      quality = x.shown_quality;
      lost = x.info.lost_packets;
      retries = x.info.retries;
      missing_queue = x.info.missing_queue;
      rtt = x.info.rtt;
    })

-- The group of one context.
unfoldable pub print_info : ℕ → ℕ → ShownInfo → Write
print_info max_len ms x =
    print max_len (info_head x)
    ⨾ print_items max_len true (map (print max_len) (peer_texts ms x.shown_peers))
    ⨾ print max_len (ascii "]}")

-- What is written before the closing brackets.
unfoldable pub print_contexts : ℕ → ℕ → List ShownInfo → Write
print_contexts max_len ms shown =
    print max_len (ascii "{")
    ⨾ print max_len (ascii "\"ports\":[")
    ⨾ print_items max_len true
        (map (λ (x : ShownInfo). print max_len (decimal x.info.listen_port)) shown)
    ⨾ print max_len (ascii "],")
    ⨾ print max_len (ascii "\"groups\":[")
    ⨾ print_items max_len true (map (print_info max_len ms) shown)

-- The buffer; `none` is a write behind its end.
unfoldable pub rist_get_connection_details : Bool → ℕ → ℕ → List (Option ShownInfo) → Option Written
rist_get_connection_details out_buffer max_len ms t =
    into_buffer out_buffer max_len
      (print_contexts max_len ms (listening t) ⨾ print max_len (ascii "]}"))
