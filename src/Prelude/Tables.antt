-- ===== src/Prelude/Tables.antt =====
-- Facts about small numbers, by looking at each.
use Prim.Native.Nat.{ℕ, zero, suc, ◌<◌}
use mathlib.Core.Path.{◌≡◌}
use mathlib.Core.Bool.{Bool, true, ◌&&◌}
use native.Mathlib.Omega.{arith}

-- the test passes at each number of a table of `size` entries
unfoldable pub passes : (ℕ → Bool) → ℕ → Bool
passes test zero = true
passes test (suc size) = passes test size && test size

pub passes-at :
    (test : ℕ → Bool) (size entry : ℕ) → entry < size → passes test size ≡ true → test entry ≡ true
unfolding passes
passes-at test zero entry inside table = elim inside [ ]
passes-at test (suc size) entry inside table = ground (arith, passes-at test size entry)
