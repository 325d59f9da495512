-- ===== src/Receiver/Cleanup/Run.antt =====
-- A whole run of `connection_cleanup` (src/srtla/srtla_rec.c).
use pyle_irl.Base.{ℕ, suc, ◌≡◌, refl, ap, ◌∙◌, List, [], ◌∷◌, map, arith, length}
use pyle_irl.Base.Int.{◌-ℤ◌}
use pyle_irl.Receiver.Cleanup.{sweep_groups, Handshake, cleanup_run}
use pyle_irl.Receiver.Cleanup.Retry.{identity, identity-retry_groups}
use pyle_irl.Receiver.Cleanup.Sweep.{surviving, sweep_groups-filter}
use pyle_irl.Receiver.Register.Count.{IsCounted}
use pyle_irl.Receiver.State.{Ctx}

pub length-of_map :
    {A B : Type 0} (f : A → B) (xs ys : List A) → map f xs ≡ map f ys → length xs ≡ length ys
length-of_map f [] [] e = refl
length-of_map f [] (y ∷ ys) e = absurd (ground arith)
length-of_map f (x ∷ xs) [] e = absurd (ground arith)
length-of_map f (x ∷ xs) (y ∷ ys) e = ap suc (length-of_map f xs ys (ground arith))

-- Past the early returns, the groups that stay are, in their order, those that have a connection
-- heard from in the last CONN_TIMEOUT seconds or that are younger than GROUP_TIMEOUT, each with
-- exactly its connections heard from in that time.
pub cleanup_run_lem :
    (hs : ℕ → Handshake) (ts : ℕ) (c : Ctx)
    → map identity (cleanup_run hs ts c).groups ≡ map identity (surviving ts c.groups)
unfolding cleanup_run
cleanup_run_lem hs ts c =
    let swept = sweep_groups c.platform ts c.groups c.calls in
    identity-retry_groups hs 0 swept.kept swept.calls
    ∙ ap (map identity) (sweep_groups-filter c.platform ts c.groups c.calls).0

-- A count of groups that is right stays right when `connection_cleanup` removes groups.
pub cleanup_run-IsCounted :
    (hs : ℕ → Handshake) (ts : ℕ) (c : Ctx) → IsCounted c → IsCounted (cleanup_run hs ts c)
unfolding cleanup_run ◌-ℤ◌
cleanup_run-IsCounted hs ts c v =
    let swept = sweep_groups c.platform ts c.groups c.calls in
    let spec = sweep_groups-filter c.platform ts c.groups c.calls in
    let kept = identity-retry_groups hs 0 swept.kept swept.calls in
    let same_length = length-of_map identity _ _ kept in
    ground (arith, spec, same_length, ap length spec.0)
