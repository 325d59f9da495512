-- ===== src/Receiver/Compare.antt =====
-- `const_time_cmp` of src/srtla/srtla_rec.c, by which addresses and group ids are compared.
pub mod Equality
use pyle_irl.Base.{ℕ, zero, suc, ◌+◌, ◌-◌, ◌%◌, bit_or, Bool, false, ◌∷◌, ◌==◌, if◌then◌else◌}
use pyle_irl.Base.Int.{ℤ, pos, negsuc}
use pyle_irl.Wire.{Bytes}

-- `diff |= *ca - *cb` for each of `len` bytes; `diff` is a char. A buffer shorter than `len` would
-- be read past its end: the model stops there.
unfoldable pub cmp_loop : ℕ → Bytes → Bytes → ℕ → ℕ
cmp_loop zero xs ys diff = diff
cmp_loop (suc n) (a ∷ xs) (b ∷ ys) diff = cmp_loop n xs ys (bit_or diff ((a + 256 - b) % 256))
cmp_loop (suc n) _ _ diff = diff

unfoldable pub const_time_cmp : Bytes → Bytes → ℕ → ℤ
unfolding cmp_loop
const_time_cmp a b len = if cmp_loop len a b 0 == 0 then pos 0 else negsuc 0

-- The test `const_time_cmp(a, b, len) == 0` of the callers.
unfoldable pub same : Bytes → Bytes → ℕ → Bool
unfolding const_time_cmp
same a b len = elim (const_time_cmp a b len) [ pos n ↦ n == 0 | negsuc n ↦ false ]
