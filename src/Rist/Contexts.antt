-- ===== src/Rist/Contexts.antt =====
-- The table `global_rist_contexts` of src/rist_rec.c and what other threads read in it.
use pyle_irl.Base.{ℕ, suc, ◌&&◌, Option, none, some, List, [], ◌∷◌, set, leb, ◌==◌, if◌then◌else◌}
use pyle_irl.Rist.{Peer, Info, new_info, is_seen}
use pyle_irl.Source.{sub64}

abbrev pub RistTable : Type 0
RistTable = List (Option Info)

-- The first free slot takes a new context; `none` for the -1 that is returned without one.
unfoldable pub add_rist_context : ℕ → RistTable → Option (ℕ × RistTable)
add_rist_context port [] = none
add_rist_context port (none ∷ t) = some (0, some (new_info port) ∷ t)
add_rist_context port (some info ∷ t) = elim (add_rist_context port t) [
  | none ↦ none
  | some (i, t') ↦ some (suc i, some info ∷ t')
]

unfoldable pub remove_rist_context : ℕ → RistTable → RistTable
remove_rist_context i t = set t i none

-- The loop over the contexts, up to the first that listens on the port.
unfoldable pub find_listener : ℕ → RistTable → Option Info
find_listener port [] = none
find_listener port (none ∷ t) = find_listener port t
find_listener port (some info ∷ t) =
    let rest = find_listener port t in
    if info.listen_port == port && info.is_listening then some info else rest

-- The peers seen in the last 2 s.
unfoldable pub count_peers : ℕ → List Peer → ℕ
count_peers now [] = 0
count_peers now (p ∷ ps) =
    let rest = count_peers now ps in
    if is_seen p && leb (sub64 now p.last_seen_ms) 2000 then suc rest else rest

unfoldable pub rist_get_peer_count_by_port : ℕ → ℕ → RistTable → ℕ
unfolding find_listener count_peers
rist_get_peer_count_by_port now port t = elim (find_listener port t) [
  | none ↦ 0
  | some info ↦ count_peers now info.peers
]

unfoldable pub rist_get_total_bytes : ℕ → RistTable → ℕ
unfolding find_listener
rist_get_total_bytes port t = elim (find_listener port t) [
  | none ↦ 0
  | some info ↦ info.total_bytes
]
