-- ===== src/Rist/Slots.antt =====
-- The slots of `global_rist_contexts` (src/rist_rec.c).
use pyle_irl.Base.{ℕ, ◌≡◌, inl, inr, none, some, [], ◌∷◌, arith, Option-cases}
use pyle_irl.Rist.Contexts.{RistTable, add_rist_context, remove_rist_context}

-- What `add_rist_context` took, `remove_rist_context` gives back: the table is as it was before.
pub add_then_remove :
    (port : ℕ) (t t' : RistTable) (i : ℕ)
    → add_rist_context port t ≡ some (i, t')
    → remove_rist_context i t' ≡ t
unfolding add_rist_context remove_rist_context
add_then_remove port [] t' i e = absurd (ground arith)
add_then_remove port (none ∷ t) t' i e = ground arith
add_then_remove port (some info ∷ t) t' i e = elim (Option-cases (add_rist_context port t)) [
  | inl full ↦ absurd (ground arith)
  | inr ((j, u), made) ↦ ground (arith, add_then_remove port t u j made)
]
