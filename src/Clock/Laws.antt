-- ===== src/Clock/Laws.antt =====
-- The clock's reading, and what a timeout measures.
use knot_hal_source.Prelude.{ℕ, ◌+◌, ◌*◌, ◌/◌, ◌%◌, ◌≤◌, ◌<◌, ◌≡◌, ◌↔◌, ◌⊎◌, true, arith}
use knot_hal_source.Clock.{u32_mod, Timespec, TimeUnit, ms, us, get_time, hal_timeout}

-- The true time since the epoch, in units of a millisecond or a microsecond.
abbrev pub since_epoch : TimeUnit → Timespec → ℕ
since_epoch ms t = t.tv_sec * 1000 + t.tv_nsec / 1_000_000
since_epoch us t = t.tv_sec * 1_000_000 + t.tv_nsec / 1000

-- The clock is the time since the epoch, rounded down and cut to 32 bits.
pub get_time-eq-since_epoch :
    (u : TimeUnit) (t : Timespec) → get_time u t ≡ since_epoch u t % u32_mod
unfolding get_time
get_time-eq-since_epoch ms t = omega arith
get_time-eq-since_epoch us t = omega arith

-- A timeout that was armed `d` milliseconds ago, less than one turn of the clock before.
-- It fires when `d` has reached it, one millisecond later if the clock has turned over since.
pub timeout_fires :
    (start d timeout : ℕ)
    → start < u32_mod
    → d < u32_mod
    → (hal_timeout ((start + d) % u32_mod) start timeout ≡ true)
      ↔ ((start + d < u32_mod) × (timeout ≤ d) ⊎ (u32_mod ≤ start + d) × (timeout + 1 ≤ d))
unfolding hal_timeout
timeout_fires start d timeout hs hd = ground arith
