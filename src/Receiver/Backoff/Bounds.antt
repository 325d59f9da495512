-- ===== src/Receiver/Backoff/Bounds.antt =====
-- The retry delays (src/srtla/srtla_rec.c) while the shift stays in range, and past that.
use pyle_irl.Base.{
  ℕ, zero, suc, ◌+◌, ◌*◌, ◌%◌, ◌^◌, ◌≤◌, ◌<◌, min, ◌≡◌, refl, ap, ◌∙◌, ◌⊎◌, Bool, true, ◌&&◌, arith,
  ltb, leb,
}
use pyle_irl.Receiver.Backoff.{int_shl, backoff, add_int}
use pyle_irl.Receiver.State.{reg_retry_base_ms, reg_retry_max_ms}

int_shl-fits : (base k : ℕ) → k < 31 → base * 2 ^ k < 2 ^ 31 → int_shl base k ≡ base * 2 ^ k
int_shl-fits base k in_range fits =
    let unshifted : k % 32 ≡ k = omega (arith, in_range) in
    ap (λ j. base * 2 ^ j % 2 ^ 32) unshifted ∙ omega (arith, fits)

-- While the doubled base fits an `int`, the delay before attempt number k + 1 is the base doubled k
-- times, but at most REG_RETRY_MAX_MS.
pub backoff_doubles :
    (base k : ℕ)
    → k < 31
    → base * 2 ^ k < 2 ^ 31
    → backoff base (suc k) ≡ min (base * 2 ^ k) reg_retry_max_ms
unfolding backoff
backoff_doubles base k in_range fits = ground (arith, int_shl-fits base k in_range fits)

abbrev is_negative : ℕ → Bool
is_negative w = leb (2 ^ 31) w && ltb w (2 ^ 32)

backoff-is_negative : (j : ℕ) → j < 5 → is_negative (backoff 250 (suc (24 + j))) ≡ true
unfolding backoff
backoff-is_negative zero h = refl
backoff-is_negative (suc zero) h = refl
backoff-is_negative (suc (suc zero)) h = refl
backoff-is_negative (suc (suc (suc zero))) h = refl
backoff-is_negative (suc (suc (suc (suc zero)))) h = refl
backoff-is_negative (suc (suc (suc (suc (suc j))))) h = absurd (omega (arith, h))

-- Attempts 25 to 29 in a row overflow the shift, and at a clock reading below 2^62 the next attempt
-- is set to a time before that reading, or to 2^63 or more.
pub backoff_overflows :
    (j now : ℕ)
    → j < 5
    → now < 2 ^ 62
    → let next = add_int now (backoff reg_retry_base_ms (suc (24 + j))) in
      (next < now) ⊎ (2 ^ 63 ≤ next)
unfolding add_int
backoff_overflows j now h small = let negative = backoff-is_negative j h in ground (arith, negative)
