-- ===== src/Receiver/Compare/Equality.antt =====
-- `const_time_cmp` decides equality of two buffers (src/srtla/srtla_rec.c).
use pyle_irl.Base.{
  ℕ, zero, suc, ◌+◌, ◌-◌, ◌%◌, ◌<◌, bit_or, ◌≡◌, refl, ap₂, ◌↔◌, true, [], ◌∷◌, arith, length,
}
use pyle_irl.Base.Bits.{zero-bit_or, bit_or-eq_zero}
use pyle_irl.Base.Int.{pos}
use pyle_irl.Receiver.Compare.{cmp_loop, const_time_cmp, same}
use pyle_irl.Rist.{or_zero}
use pyle_irl.Wire.{Bytes}

-- Every entry of a buffer is a byte.
abbrev pub IsBytes : Bytes → Type 0
IsBytes [] = Unit {0}
IsBytes (x ∷ xs) = (x < 256) × IsBytes xs

cmp_loop-eq_zero :
    (xs ys : Bytes) (diff : ℕ)
    → IsBytes xs
    → IsBytes ys
    → length xs ≡ length ys
    → cmp_loop (length xs) xs ys diff ≡ 0
    → (diff ≡ 0) × (xs ≡ ys)
unfolding cmp_loop
cmp_loop-eq_zero [] [] diff p q l e = (e, refl)
cmp_loop-eq_zero [] (b ∷ ys) diff p q l e = absurd (omega arith)
cmp_loop-eq_zero (a ∷ xs) [] diff p q l e = absurd (omega arith)
cmp_loop-eq_zero (a ∷ xs) (b ∷ ys) diff p q l e =
    let d = (a + 256 - b) % 256 in
    let (or_zero, tails) = cmp_loop-eq_zero xs ys (bit_or diff d) p.1 q.1 (omega arith) e in
    let (diff_zero, d_zero) = bit_or-eq_zero diff d or_zero in
    (diff_zero, ap₂ ◌∷◌ (omega arith) tails)

pub cmp_loop_refl : (n : ℕ) (xs : Bytes) → cmp_loop n xs xs 0 ≡ 0
unfolding cmp_loop
cmp_loop_refl zero xs = refl
cmp_loop_refl (suc n) [] = refl
cmp_loop_refl (suc n) (a ∷ xs) =
    let d_zero : (a + 256 - a) % 256 ≡ 0 = omega arith in
    ground (arith, d_zero, zero-bit_or 0, cmp_loop_refl n xs)

-- Any buffer is the same xs itself.
pub same_refl : (a : Bytes) (n : ℕ) → same a a n ≡ true
unfolding same
same_refl a n = ground (arith, cmp_loop_refl n a)

-- Over buffers of bytes of the compared length, `const_time_cmp` returns 0 exactly when the buffers
-- are equal, and the callers' test says so.
pub const_time_cmp-eq_zero :
    (a b : Bytes)
    → IsBytes a
    → IsBytes b
    → length a ≡ length b
    → ((const_time_cmp a b (length a) ≡ pos 0) ↔ (a ≡ b)) × ((same a b (length a) ≡ true) ↔ (a ≡ b))
unfolding same
const_time_cmp-eq_zero a b p q l = (
  (
    λ e. (cmp_loop-eq_zero a b 0 p q l (ground arith)).1,
    λ e. ground (arith, cmp_loop_refl (length a) a),
  ),
  (
    λ e. (cmp_loop-eq_zero a b 0 p q l (ground arith)).1,
    λ e. ground (arith, cmp_loop_refl (length a) a),
  ),
)
