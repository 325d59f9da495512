-- ===== src/Rist/Peers.antt =====
-- The peers of a RIST receiver (src/rist_rec.c).
use pyle_irl.Base.{
  ℕ, suc, ◌≡◌, refl, ◌&&◌, Option, none, some, List, [], ◌∷◌, arith, ◌==◌, if◌then◌else◌,
}
use pyle_irl.Rist.{
  Peer, Info, FlowStats, PeerStats, Flow, is_seen, find_slot, note_peers, expire_peers, note_parsed,
  rist_stats_cb,
}
use pyle_irl.Rist.Contexts.{RistTable, find_listener, count_peers, rist_get_peer_count_by_port}

count_peers-expired :
    (now : ℕ) (ps : List Peer) → count_peers now (expire_peers now ps).0 ≡ (expire_peers now ps).1
unfolding expire_peers count_peers
count_peers-expired now [] = refl
count_peers-expired now (p ∷ ps) = ground (arith, count_peers-expired now ps)

-- Right after figures with a text that parses, the number of peers that other threads are told for
-- the port of the first listener there is the number that the callback has put into the context.
pub peer_count_agrees :
    (now port : ℕ) (f : Flow) (parsed : Option FlowStats × List PeerStats) (info : Info)
    (t : RistTable)
    → f.parsed ≡ some parsed
    → find_listener port t ≡ some (rist_stats_cb now f info)
    → rist_get_peer_count_by_port now port t ≡ (rist_stats_cb now f info).peer_count
unfolding rist_get_peer_count_by_port rist_stats_cb note_parsed
peer_count_agrees now port f (stats, ps) info t e found =
    let agreed = count_peers-expired now (note_peers now ps _).peers in
    rw (found, e, rist_get_peer_count_by_port) agreed

-- The first slot of this peer, and the first free one, from index `i` on.
unfoldable pub known_from : ℕ → List Peer → ℕ → Option ℕ
known_from id [] i = none
known_from id (p ∷ ps) i =
    let rest = known_from id ps (suc i) in if p.peer_id == id && is_seen p then some i else rest

unfoldable pub free_from : List Peer → ℕ → Option ℕ
free_from [] i = none
free_from (p ∷ ps) i = let rest = free_from ps (suc i) in if is_seen p then rest else some i

abbrev pub or_else : Option ℕ → Option ℕ → Option ℕ
or_else none b = b
or_else (some a) b = some a

find_slot-from :
    (id : ℕ) (ps : List Peer) (i : ℕ) (slot : Option ℕ)
    → find_slot id ps i slot ≡ or_else (known_from id ps i) (or_else slot (free_from ps i))
unfolding find_slot known_from free_from
find_slot-from id [] i none = refl
find_slot-from id [] i (some j) = refl
find_slot-from id (p ∷ ps) i (some j) = ground (arith, find_slot-from id ps (suc i) (some j))
find_slot-from id (p ∷ ps) i none =
    ground (arith, find_slot-from id ps (suc i) none, find_slot-from id ps (suc i) (some i))

-- The one loop for a peer's slot finds what two searches would: the slot that the peer has, or else
-- the first free one, also where a free slot stands in front of the peer's own.
pub find_slot_lem :
    (id : ℕ) (ps : List Peer)
    → find_slot id ps 0 none ≡ or_else (known_from id ps 0) (free_from ps 0)
find_slot_lem id ps = find_slot-from id ps 0 none
