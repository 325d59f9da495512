-- ===== src/Text/Decimal.antt =====
-- The digits that `%d`, `%u` and `%llu` print.
use pyle_irl.Base.{
  ℕ, zero, suc, ◌+◌, ◌-◌, ◌*◌, ◌/◌, ◌%◌, ◌^◌, ◌<◌, ◌≡◌, ap, ◌∙◌, inl, inr, [], ◌∷◌, arith, ◌==◌,
  ==_iff, Bool-cases,
}
use pyle_irl.Text.{digits, decimal}
use pyle_irl.Wire.{Bytes}

-- The number that a text of digits stands for, read behind these leading digits.
unfoldable pub value : ℕ → Bytes → ℕ
value n [] = n
value n (d ∷ ds) = value (n * 10 + (d - 48)) ds

value-digits :
    (fuel n : ℕ) (rest : Bytes) → n < 10 ^ fuel → value 0 (digits fuel n rest) ≡ value n rest
unfolding digits value
value-digits zero n rest h = ap (λ k. value k rest) (omega arith)
value-digits (suc fuel) n rest h = elim (Bool-cases (n / 10 == 0)) [
  | inl one ↦
      rw (one, digits)
        (let small : n / 10 ≡ 0 = (==_iff (n / 10) 0).0 one in
          ap (λ k. value k rest) (omega (arith, small)))
  | inr more ↦
      rw (more, digits)
        (value-digits fuel (n / 10) ((48 + n % 10) ∷ rest) (omega (arith, h))
          ∙ ap (λ k. value k rest) (omega arith))
]

-- A number of at most 20 digits, such as a `uint64_t`, is printed so that its digits read as the
-- number.
pub decimal-value : (n : ℕ) → n < 10 ^ 20 → value 0 (decimal n) ≡ n
unfolding value
decimal-value n h = value-digits 20 n [] h
