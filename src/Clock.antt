-- ===== src/Clock.antt =====
-- src/hal/time/time_linux.c: the millisecond clock and its timeouts.
pub mod Laws
use knot_hal_source.Prelude.{ℕ, ◌+◌, ◌-◌, ◌*◌, ◌/◌, ◌%◌, ◌^◌, Bool, ltb, leb, if◌then◌else◌}

abbrev pub u32_mod : ℕ
u32_mod = 2 ^ 32

-- `struct timespec`, as `clock_gettime` fills it
pub record Timespec : Type 0 where
  pub tv_sec : ℕ
  pub tv_nsec : ℕ

pub data TimeUnit : Type 0 where
  ms us : TimeUnit

mult : TimeUnit → ℕ
mult ms = 1000
mult us = 1_000_000

divisor : TimeUnit → ℕ
divisor ms = 1_000_000
divisor us = 1000

-- Each part is cut to 32 bits, and so is the sum.
pub get_time : TimeUnit → Timespec → ℕ
unfolding mult divisor
get_time unit spec =
    let t = (spec.tv_sec * mult unit) % u32_mod in
    (t + (spec.tv_nsec / divisor unit) % u32_mod) % u32_mod

abbrev pub ulong_max : ℕ
ulong_max = 2 ^ 32 - 1

-- The time that `hal_timeout` takes as elapsed. On the overflow path the sum is a `uint32_t` again,
-- so the width of `unsigned long` makes no difference.
unfoldable pub elapsed : ℕ → ℕ → ℕ
elapsed current start =
    if ltb current start then (current + (ulong_max - start)) % u32_mod else current - start

unfoldable pub hal_timeout : ℕ → ℕ → ℕ → Bool
unfolding elapsed
hal_timeout current start timeout = leb timeout (elapsed current start)
