-- ===== src/Receiver/Instances/Shadow.antt =====
-- A context left behind by a failed start hides a later one on the same port (src/srtla/srtla_rec.c).
use pyle_irl.Base.{ℕ, zero, suc, ◌≡◌, subst, none, some, [], ◌∷◌, arith, set}
use pyle_irl.Receiver.Compare.{same}
use pyle_irl.Receiver.Instances.{
  Table, Startup, start_failed, now_running, start_instance, find_port, group_bytes,
  srtla_get_total_bytes,
}
use pyle_irl.Receiver.Instances.Slots.{FirstFree, set-set, start_running, start_failed_leaks}
use pyle_irl.Receiver.State.{Platform, Ctx}

-- Two contexts that take the first free slot one after the other: the first is found by its port.
find_port-first :
    (t : Table) (i j port : ℕ) (c d : Ctx)
    → find_port port t ≡ none
    → FirstFree t i
    → c.listen_port ≡ port
    → FirstFree (set t i (some c)) j
    → find_port port (set (set t i (some c)) j (some d)) ≡ some c
unfolding find_port
find_port-first [] i j port c d unused first same second = absurd first
find_port-first (none ∷ t) zero zero port c d unused first same second = absurd second
find_port-first (none ∷ t) zero (suc j) port c d unused first same second = ground arith
find_port-first (none ∷ t) (suc i) j port c d unused first same second = absurd first
find_port-first (some x ∷ t) zero j port c d unused first same second = absurd first
find_port-first (some x ∷ t) (suc i) zero port c d unused first same second = absurd second
find_port-first (some x ∷ t) (suc i) (suc j) port c d unused first same second =
    ground (arith, find_port-first t i j port c d)

-- On a port that no instance has, let a start fail after it took its slot, and let another start on
-- that port then run. Whatever the running instance makes of its context, other threads are told
-- that the port has received no bytes, since they find the context that was left behind.
pub start_failed_shadows :
    (plat : Platform) (port : ℕ) (s r : Startup) (t t' t'' : Table) (i j : ℕ) (d : Ctx)
    → find_port port t ≡ none
    → start_instance plat port s t ≡ (t', start_failed i)
    → start_instance plat port r t' ≡ (t'', now_running j)
    → srtla_get_total_bytes port (set t'' j (some d)) ≡ 0
unfolding srtla_get_total_bytes group_bytes
start_failed_shadows plat port s r t t' t'' i j d unused first second =
    let (c, at, left, same_port, no_groups, _) = start_failed_leaks plat port s t t' i first in
    let (e, at', right) = start_running plat port r t' t'' j second in
    let found =
      find_port-first t i j port c d unused at same_port (subst (λ u. FirstFree u j) left at') in
    ground (arith, set-set t' j (some e) (some d), found, left, right, no_groups)
