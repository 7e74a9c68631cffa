-- ===== src/Comm/Pipes/Bits.antt =====
-- `SET_BIT`, `CLR_BIT` and `CHK_BIT` on the six bits of the pipes, and the windows, as arithmetic.
use knot_hal_source.Prelude.{
  ℕ, ◌+◌, ◌-◌, ◌*◌, ◌/◌, ◌%◌, ◌^◌, ◌<◌, ◌≡◌, refl, true, ◌==◌, ==_iff, if◌then◌else◌, passes,
  passes-at,
}
use knot_hal_source.Comm.Pipes.{set_bit, clr_bit, sum_windows}

-- the bit of an index, 0 or 1
abbrev pub bit : ℕ → ℕ → ℕ
bit m i = m / 2 ^ i % 2

for_all_bits :
    (f g : ℕ → ℕ → ℕ)
    → passes (λ i. passes (λ m. f m i == g m i) 64) 6 ≡ true
    → (m i : ℕ) → m < 64
    → i < 6
    → f m i ≡ g m i
for_all_bits f g table m i hm hi =
    (==_iff _ _).0 (passes-at (λ m. f m i == g m i) 64 m hm (passes-at _ 6 i hi table))

pub set_bit_lem : (m i : ℕ) → m < 64 → i < 6 → set_bit m i ≡ (if bit m i == 0 then m + 2 ^ i else m)
unfolding set_bit passes
set_bit_lem = for_all_bits set_bit (λ m i. if bit m i == 0 then m + 2 ^ i else m) refl

pub clr_bit_lem : (m i : ℕ) → m < 64 → i < 6 → clr_bit m i ≡ (if bit m i == 0 then m else m - 2 ^ i)
unfolding clr_bit passes
clr_bit_lem = for_all_bits clr_bit (λ m i. if bit m i == 0 then m else m - 2 ^ i) refl

-- The windows of the pipes whose bits are set.
abbrev pub windows : ℕ → ℕ
windows m = bit m 1 * 15 + bit m 2 * 18 + bit m 3 * 22 + bit m 4 * 26 + bit m 5 * 30

windows_table : passes (λ m. sum_windows m == windows m) 64 ≡ true
unfolding sum_windows passes
windows_table = refl

pub sum_windows_lem : (m : ℕ) → m < 64 → sum_windows m ≡ windows m
sum_windows_lem m h = (==_iff _ _).0 (passes-at _ 64 m h windows_table)
