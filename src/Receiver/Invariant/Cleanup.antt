-- ===== src/Receiver/Invariant/Cleanup.antt =====
-- `connection_cleanup` (src/srtla/srtla_rec.c) keeps the invariant.
use pyle_irl.Base.{
  ℕ, ◌+◌, ◌≤◌, ◌≡◌, refl, sym, ap, subst, inl, inr, false, List, [], ◌∷◌, ◌++◌, map, arith, length,
  All, List-cases, ltb, Bool-cases,
}
use pyle_irl.Receiver.Ack.Ledger.{HasLog}
use pyle_irl.Receiver.Cleanup.{
  sweep_conns, is_abandoned, sweep_groups, Handshake, retry_groups, cleanup_run, connection_cleanup,
}
use pyle_irl.Receiver.Cleanup.Retry.{identity, identity-retry_groups}
use pyle_irl.Receiver.Cleanup.Run.{length-of_map}
use pyle_irl.Receiver.Invariant.{IsGood, IsValid}
use pyle_irl.Receiver.Invariant.Conns.{Distinct-sweep_conns, All-sweep_conns}
use pyle_irl.Receiver.Invariant.Register.{IsValid-groups}
use pyle_irl.Receiver.Invariant.Traffic.{IsGood-same}
use pyle_irl.Receiver.Out.{keep}
use pyle_irl.Receiver.State.{cleanup_period, Platform, Conn, Group, Call, Ctx, release_sock}
use pyle_irl.Wire.{Bytes}

All-of_map :
    {A B : Type 0} (f : A → B) (P : A → Type 0)
    → ((x y : A) → f x ≡ f y → P x → P y)
    → (xs ys : List A) → map f xs ≡ map f ys
    → All P xs
    → All P ys
All-of_map f P keep [] [] e h = tt
All-of_map f P keep [] (y ∷ ys) e h = absurd (ground arith)
All-of_map f P keep (x ∷ xs) [] e h = absurd (ground arith)
All-of_map f P keep (x ∷ xs) (y ∷ ys) e h =
    (keep x y (ground arith) h.0, All-of_map f P keep xs ys (ground arith) h.1)

sweep_groups-IsGood :
    (plat : Platform) (ts : ℕ) (gs : List Group) (calls : List Call)
    → All IsGood gs
    → All IsGood (sweep_groups plat ts gs calls).kept
      × (length (sweep_groups plat ts gs calls).kept ≤ length gs)
unfolding sweep_groups
sweep_groups-IsGood plat ts [] calls h = (tt, omega arith)
sweep_groups-IsGood plat ts (g ∷ gs) calls h =
    let g' : Group = record g { conns = (sweep_conns ts g.conns).0 } in
    let good : IsGood g' = record {
      logs = All-sweep_conns HasLog ts g.conns h.0.logs;
      distinct = Distinct-sweep_conns ts g.conns h.0.distinct;
    } in
    elim (Bool-cases (is_abandoned ts g')) [
      | inl gone ↦
          ground (arith, sweep_groups-IsGood plat ts gs (release_sock plat g.srt_sock ++ calls) h.1)
      | inr stays ↦ ground (arith, good, sweep_groups-IsGood plat ts gs calls h.1)
    ]

cleanup_run-IsValid :
    (hs : ℕ → Handshake) (ts : ℕ) (c : Ctx) → IsValid c → IsValid (cleanup_run hs ts c)
unfolding cleanup_run
cleanup_run-IsValid hs ts c v =
    let swept = sweep_groups c.platform ts c.groups c.calls in
    let (good, shorter) = sweep_groups-IsGood c.platform ts c.groups c.calls v.good in
    let kept = identity-retry_groups hs 0 swept.kept swept.calls in
    IsValid-groups _ (retry_groups hs 0 swept.kept swept.calls).0 refl
      (omega (arith, length-of_map identity _ _ kept, shorter, v.single))
      (All-of_map identity IsGood
        (λ x y e h. IsGood-same x y (sym (ap (λ (t : ℕ × Bytes × List Conn × ℕ). t.2) e)) h)
        swept.kept _ (sym kept) good)

-- The cleanup keeps a valid context valid (at most one group, distinct addresses in it, whole
-- logs), whatever it removes and however its retries go.
pub connection_cleanup-IsValid :
    (hs : ℕ → Handshake) (last_ran ts : ℕ) (c : Ctx)
    → IsValid c
    → IsValid (connection_cleanup hs last_ran ts c).0
unfolding connection_cleanup
connection_cleanup-IsValid hs last_ran ts c v =
    elim (Bool-cases (ltb ts (last_ran + cleanup_period))) [
      | inl early ↦ rw (early, connection_cleanup) v
      | inr late ↦ elim (List-cases c.groups) [
        | inl e ↦ rw (late, connection_cleanup) (rw e v)
        | inr (g, gs, e) ↦
            subst (λ (d : Ctx). IsValid d) (sym (run g gs e late)) (cleanup_run-IsValid hs ts c v)
      ]
    ]
  where
    run :
        (g : Group) (gs : List Group)
        → c.groups ≡ g ∷ gs
        → ltb ts (last_ran + cleanup_period) ≡ false
        → (connection_cleanup hs last_ran ts c).0 ≡ cleanup_run hs ts c
    run g gs e late = ground arith
