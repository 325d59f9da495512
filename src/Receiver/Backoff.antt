-- ===== src/Receiver/Backoff.antt =====
-- The retry delays of src/srtla/srtla_rec.c, in `int` arithmetic. A 32-bit `int` is its bit pattern.
-- A shift out of range is undefined in C: the pattern is that of two's complement with the shift
-- count taken modulo 32, as the x86 builds of the plugin compute it.
pub mod Bounds
use pyle_irl.Base.{ℕ, suc, ◌+◌, ◌-◌, ◌*◌, ◌%◌, ◌^◌, ◌&&◌, ltb, if◌then◌else◌}
use pyle_irl.Receiver.State.{reg_retry_max_ms, waiting_srt, Group, add64}

-- `base << k`, and `base * (1 << k)`.
abbrev pub int_shl : ℕ → ℕ → ℕ
int_shl base k = base * 2 ^ (k % 32) % 2 ^ 32

-- `base << (attempts - 1)`, cut to REG_RETRY_MAX_MS by a signed comparison.
unfoldable pub backoff : ℕ → ℕ → ℕ
backoff base attempts =
    let w = int_shl base (attempts - 1) in
    if ltb w (2 ^ 31) && ltb reg_retry_max_ms w then reg_retry_max_ms else w

-- `now + backoff`, where the `int` is converted to `uint64_t`.
unfoldable pub add_int : ℕ → ℕ → ℕ
add_int now w = if ltb w (2 ^ 31) then add64 now w else (now + 2 ^ 64 + w - 2 ^ 32) % 2 ^ 64

-- What a failure to reach the SRT server writes into the group, with the next attempt counted.
abbrev pub retry_later : ℕ → ℕ → Group → Group
retry_later now base g = record g {
  state = waiting_srt;
  srt_retry_attempts = suc g.srt_retry_attempts;
  next_srt_retry_ms = add_int now (backoff base (suc g.srt_retry_attempts));
}
