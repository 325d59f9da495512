-- ===== src/Receiver/Groups/Destroy.antt =====
-- What `group_destroy` and the loops that call it (src/srtla/srtla_rec.c) leave.
use pyle_irl.Base.{
  ℕ, zero, suc, ◌≤◌, ◌≡◌, refl, sym, ap, ◌∙◌, inl, inr, none, some, List, [], ◌∷◌, ◌++◌, arith,
  length, get_elem?, remove_at, List-cases, length-eq_zero, Option-cases,
}
use pyle_irl.Base.Int.{pos, ◌-ℤ◌}
use pyle_irl.Receiver.Groups.{group_destroy}
use pyle_irl.Receiver.Register.{shutdown_call, shutdown_first, shutdown_groups, clear_groups}
use pyle_irl.Receiver.State.{Group, Ctx}
use pyle_irl.Wire.{Bytes}

pub remove_at-none {ℓ} :
    {A : Type ℓ} (i : ℕ) (xs : List A) → get_elem? xs i ≡ none → remove_at i xs ≡ xs
remove_at-none i [] e = refl
remove_at-none zero (x ∷ xs) e = absurd (ground arith)
remove_at-none (suc i) (x ∷ xs) e = ap (λ ys. x ∷ ys) (remove_at-none i xs e)

pub groups-group_destroy : (i : ℕ) (c : Ctx) → (group_destroy i c).groups ≡ remove_at i c.groups
unfolding group_destroy
groups-group_destroy i c = elim (Option-cases (get_elem? c.groups i)) [
  | inl e ↦ rw (e, group_destroy) (sym (remove_at-none i c.groups e))
  | inr (g, e) ↦ rw (e, group_destroy)
]

-- The count of groups goes down with the list, where the group is in it.
pub group_count-group_destroy :
    (i : ℕ) (c : Ctx) {g : Group}
    → get_elem? c.groups i ≡ some g
    → (group_destroy i c).group_count ≡ c.group_count -ℤ pos 1
unfolding group_destroy
group_count-group_destroy i c e = rw (e, group_destroy)

pub groups-shutdown_first : (c : Ctx) → (shutdown_first c).groups ≡ remove_at 0 c.groups
unfolding shutdown_first
groups-shutdown_first c = elim (List-cases c.groups) [
  | inl e ↦ rw (e, shutdown_first) e
  | inr (g, gs, e) ↦
      rw (e, shutdown_first)
        (groups-group_destroy 0 (record c { calls = shutdown_call g.srt_sock ++ c.calls })
          ∙ ap (remove_at 0) e)
]

length-remove_first : (n : ℕ) (gs : List Group) → length gs ≤ suc n → length (remove_at 0 gs) ≤ n
length-remove_first n [] h = omega arith
length-remove_first n (g ∷ gs) h = omega arith

-- With a round for each group, the loop leaves none.
pub groups-shutdown_groups :
    (n : ℕ) (c : Ctx) → length c.groups ≤ n → (shutdown_groups n c).groups ≡ []
unfolding shutdown_groups
groups-shutdown_groups zero c h = length-eq_zero c.groups h
groups-shutdown_groups (suc n) c h =
    groups-shutdown_groups n (shutdown_first c)
      (rw (groups-shutdown_first c) (length-remove_first n c.groups h))

-- Before a new group is made no other is left.
pub groups-clear_groups : (addr id : Bytes) (c : Ctx) → (clear_groups addr id c).groups ≡ []
unfolding clear_groups
groups-clear_groups addr id c = groups-shutdown_groups _ _ (omega arith)
