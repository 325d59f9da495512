-- ===== src/Receiver/MainLoop.antt =====
-- The loop of `srtla_rec_main` in src/srtla/srtla_rec.c, one round at a time.
pub mod Stale
use pyle_irl.Base.{
  ℕ, zero, suc, Option, none, some, List, [], ◌∷◌, length, get_elem?, ◌==◌, if◌then◌else◌,
}
use pyle_irl.Base.Int.{leb_ℤ}
use pyle_irl.Receiver.Backward.{SrtRead, handle_srt_data}
use pyle_irl.Receiver.Cleanup.{Handshake, connection_cleanup}
use pyle_irl.Receiver.Forward.{Datagram, handle_srtla_data}
use pyle_irl.Receiver.Groups.{group_destroy}
use pyle_irl.Receiver.State.{Group, Ctx}

-- `g->node` of the first group at that address.
unfoldable pub find_node : ℕ → List Group → Option ℕ
find_node node [] = none
find_node node (g ∷ gs) =
    if g.node == node
    then some 0
    else elim (find_node node gs) [ some i ↦ some (suc i) | none ↦ none ]

-- What `epoll_wait` returned for one descriptor: the listening socket, or the socket of the group
-- whose struct lies at a given address; each with the packets that wait on it.
pub data Event : Type 0 where
  from_senders : List Datagram → Event
  from_server : ℕ → List SrtRead → Event

-- `none` is a fault: the event names a group whose struct has been freed.
unfoldable pub handle_event : ℕ → Event → Ctx → Option Ctx
handle_event ts (from_senders ds) c = some (handle_srtla_data ts ds c)
handle_event ts (from_server node rs) c = elim (find_node node c.groups) [
  | none ↦ none
  | some gi ↦ some (handle_srt_data gi rs c)
]

-- The Linux loop over the events, which breaks off when the count of groups has fallen.
unfoldable pub handle_events : ℕ → List Event → Ctx → Option Ctx
handle_events ts [] c = some c
handle_events ts (e ∷ es) c = elim (handle_event ts e c) [
  | none ↦ none
  | some c' ↦ if leb_ℤ c.group_count c'.group_count then handle_events ts es c' else some c'
]

-- A round on Linux. `last_ran` is the variable of `connection_cleanup`.
unfoldable pub epoll_round : (ℕ → Handshake) → ℕ → ℕ → List Event → Ctx → Option (Ctx × ℕ)
epoll_round hs last_ran ts events c = elim (handle_events ts events c) [
  | none ↦ none
  | some c' ↦ some (connection_cleanup hs last_ran ts c')
]

-- The other builds use `select`: the loop over the groups, from index `i` with `n` groups left.
-- `ready` gives what waits on a socket that is set in `readfds`. A group that is destroyed on the
-- way is a fault, since the loop goes on to its `next`.
unfoldable pub select_groups : ℕ → ℕ → (ℕ → Option (List SrtRead)) → Ctx → Option Ctx
select_groups zero i ready c = some c
select_groups (suc n) i ready c = elim (get_elem? c.groups i) [
  | none ↦ some c
  | some g ↦ elim g.srt_sock [
    | none ↦ select_groups n (suc i) ready c
    | some s ↦ elim (if s == 0 then none else ready s) [
      | none ↦ select_groups n (suc i) ready c
      | some rs ↦
          let c' = handle_srt_data i rs c in
          if length c'.groups == length c.groups then select_groups n (suc i) ready c' else none
    ]
  ]
]

unfoldable pub select_round :
    (ℕ → Handshake) → ℕ → ℕ → List Datagram → (ℕ → Option (List SrtRead)) → Ctx → Option (Ctx × ℕ)
select_round hs last_ran ts ds ready c =
    let c1 = handle_srtla_data ts ds c in
    elim (select_groups (length c1.groups) 0 ready c1) [
      | none ↦ none
      | some c2 ↦ some (connection_cleanup hs last_ran ts c2)
    ]

-- "Group cleanup" at the end.
unfoldable pub destroy_groups : ℕ → Ctx → Ctx
destroy_groups zero c = c
destroy_groups (suc n) c = destroy_groups n (group_destroy 0 c)
