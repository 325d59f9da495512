-- ===== src/Base/Bits.antt =====
-- When the `|` of two numbers is zero, from the digit recursion that the native operation has.
use Prim.Native.Nat.{digits, bit_or-bitwise}
use pyle_irl.Base.{ℕ, zero, suc, ◌/◌, ◌%◌, ◌≤◌, max, bit_or, ◌≡◌, refl, sym, ◌∙◌, arith}

-- The recursion, which starts with as much fuel as the first number.
abbrev either : ℕ → ℕ → ℕ → ℕ
either fuel x y = digits (λ rest. rest) max fuel x y

either-zero : (fuel y : ℕ) → either fuel zero y ≡ y
either-zero zero y = refl
either-zero (suc fuel) y = refl

-- More fuel than needed changes nothing.
either_enough : (x y fuel more : ℕ) → x ≤ fuel → fuel ≤ more → either more x y ≡ either fuel x y
either_enough zero y fuel more h l = either-zero more y ∙ sym (either-zero fuel y)
either_enough (suc x) y zero more h l = absurd (omega arith)
either_enough (suc x) y (suc fuel) zero h l = absurd (omega arith)
either_enough (suc x) y (suc fuel) (suc more) h l =
    let shorter = either_enough (suc x / 2) (y / 2) fuel more (omega arith) (omega arith) in
    omega (arith, shorter)

pub zero-bit_or : (y : ℕ) → bit_or 0 y ≡ y
zero-bit_or y = bit_or-bitwise 0 y

-- Where the halves and the last digits are 0, so is the whole, and the other way round.
halves_zero : (x y : ℕ) → bit_or (suc x) y ≡ 0 → (bit_or (suc x / 2) (y / 2) ≡ 0) × (suc x % 2 ≡ 0)
halves_zero x y e =
    let whole = bit_or-bitwise (suc x) y in
    let half = bit_or-bitwise (suc x / 2) (y / 2) in
    let same_half = either_enough (suc x / 2) (y / 2) (suc x / 2) x (omega arith) (omega arith) in
    (omega (arith, whole, half, same_half), omega (arith, whole, same_half))

or_zero-below : (bound x y : ℕ) → x ≤ bound → bit_or x y ≡ 0 → (x ≡ 0) × (y ≡ 0)
or_zero-below bound zero y h e = (refl, omega (arith, zero-bit_or y))
or_zero-below zero (suc x) y h e = absurd (omega arith)
or_zero-below (suc bound) (suc x) y h e =
    let (half, even) = halves_zero x y e in
    absurd (omega (arith, or_zero-below bound (suc x / 2) (y / 2) (omega arith) half, even))

pub bit_or-eq_zero : (x y : ℕ) → bit_or x y ≡ 0 → (x ≡ 0) × (y ≡ 0)
bit_or-eq_zero x y = or_zero-below x x y (omega arith)
