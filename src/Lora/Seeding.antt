-- ===== src/Lora/Seeding.antt =====
-- The start of the chip and its random bytes, in `radio_init` of src/lora/sx127x.c: which readings of the
-- noise make which bits.
use knot_hal_source.Prelude.{
  ℕ, zero, suc, ◌+◌, ◌*◌, ◌%◌, ◌<◌, ◌≤◌, ◌≡◌, refl, sym, ap, ◌∙◌, arith, ◌==◌, ◌&&◌, Bool, true,
  false, List, [], ◌∷◌, map, if◌then◌else◌, bit_and, bit_or, get_or, set, length, passes, passes-at,
}
use knot_hal_source.Prelude.Outcome.{done}
use knot_hal_source.Lora.State.{Wires, Lora}
use knot_hal_source.Lora.Access.{read_reg, opmode, opmode_lora}
use knot_hal_source.Lora.Receive.{rxlora, listen, config_rx}
use knot_hal_source.Lora.Driver.{
  wait_rx, noise_bit, noise_byte, fill_random, reset_radio, seed, radio_init,
}

-- The value of bits, the first of them the highest
abbrev pub digit : Bool → ℕ
digit b = if b then 1 else 0

abbrev pub binary_from : ℕ → List Bool → ℕ
binary_from e [] = e
binary_from e (b ∷ bits) = binary_from (2 * e + digit b) bits

abbrev pub binary : List Bool → ℕ
binary = binary_from 0

-- what `noise_byte` makes of the bits, over what the byte held
abbrev shifted : ℕ → List Bool → ℕ
shifted byte [] = byte
shifted byte (b ∷ bits) = shifted (bit_or (byte * 2 % 256) (digit b)) bits

last_bits : passes (λ k. bit_or (k * 2) 0 == k * 2 && bit_or (k * 2) 1 == k * 2 + 1) 128 ≡ true
unfolding passes
last_bits = refl

last_bit : (byte : ℕ) (b : Bool) → bit_or (byte * 2 % 256) (digit b) ≡ (2 * byte + digit b) % 256
last_bit byte b =
    let e : byte * 2 % 256 ≡ byte % 128 * 2 = omega arith in
    let t : (bit_or (byte % 128 * 2) 0 == byte % 128 * 2
          && bit_or (byte % 128 * 2) 1 == byte % 128 * 2 + 1)
        ≡ true =
      passes-at (λ k. bit_or (k * 2) 0 == k * 2 && bit_or (k * 2) 1 == k * 2 + 1) 128 (byte % 128)
        (omega arith) last_bits in
    rw e (last b t)
  where
    last :
        (b : Bool)
        → (bit_or (byte % 128 * 2) 0 == byte % 128 * 2
            && bit_or (byte % 128 * 2) 1 == byte % 128 * 2 + 1)
          ≡ true
        → bit_or (byte % 128 * 2) (digit b) ≡ (2 * byte + digit b) % 256
    last true t = ground (arith, t)
    last false t = ground (arith, t)

shifted_lem :
    (byte : ℕ) (bits : List Bool) → shifted (byte % 256) bits ≡ binary_from byte bits % 256
shifted_lem byte [] = refl
shifted_lem byte (b ∷ bits) =
    let e : (2 * (byte % 256) + digit b) % 256 ≡ (2 * byte + digit b) % 256 =
      same_rest byte (digit b) in
    ap (λ n. shifted n bits) (last_bit (byte % 256) b ∙ e) ∙ shifted_lem (2 * byte + digit b) bits
  where
    same_rest : (n d : ℕ) → (2 * (n % 256) + d) % 256 ≡ (2 * n + d) % 256
    same_rest n d = omega arith

digit_small : (b : Bool) → digit b ≤ 1
digit_small true = omega arith
digit_small false = omega arith

-- Eight bits leave nothing of what the byte held.
shifted_byte : (byte : ℕ) (bits : List Bool) → length bits ≡ 8 → shifted byte bits ≡ binary bits
shifted_byte byte (a ∷ b ∷ c ∷ d ∷ e ∷ f ∷ g ∷ h ∷ []) eight =
    ap (λ n. shifted n (b ∷ c ∷ d ∷ e ∷ f ∷ g ∷ h ∷ [])) (last_bit byte a)
    ∙ shifted_lem (2 * byte + digit a) (b ∷ c ∷ d ∷ e ∷ f ∷ g ∷ h ∷ [])
    ∙ omega (
      arith,
      digit_small a,
      digit_small b,
      digit_small c,
      digit_small d,
      digit_small e,
      digit_small f,
      digit_small g,
      digit_small h,
    )
shifted_byte byte _ eight = absurd (ground (arith, eight))

-- the bytes written one after the other
abbrev overwritten : List ℕ → ℕ → List ℕ → List ℕ
overwritten xs i [] = xs
overwritten xs i (b ∷ bytes) = overwritten (set xs i b) (suc i) bytes

overwritten-suc :
    (x : ℕ) (xs : List ℕ) (i : ℕ) (bytes : List ℕ)
    → overwritten (x ∷ xs) (suc i) bytes ≡ x ∷ overwritten xs i bytes
overwritten-suc x xs i [] = refl
overwritten-suc x xs i (b ∷ bytes) = overwritten-suc x (set xs i b) (suc i) bytes

overwritten-all : (xs bytes : List ℕ) → length xs ≡ length bytes → overwritten xs 0 bytes ≡ bytes
overwritten-all [] [] e = refl
overwritten-all [] (b ∷ bytes) e = absurd (omega (arith, e))
overwritten-all (x ∷ xs) [] e = absurd (omega (arith, e))
overwritten-all (x ∷ xs) (b ∷ bytes) e =
    overwritten-suc b xs 0 bytes ∙ ap (◌∷◌ b) (overwritten-all xs bytes (omega (arith, e)))

whole_buffer :
    (xs bytes : List ℕ)
    → length xs ≡ suc (length bytes)
    → set (overwritten xs 1 bytes) 0 16 ≡ 16 ∷ bytes
whole_buffer [] bytes e = absurd (omega (arith, e))
whole_buffer (x ∷ xs) bytes e =
    ap (λ ys. set ys 0 16) (overwritten-suc x xs 0 bytes)
    ∙ ap (◌∷◌ 16) (overwritten-all xs bytes (omega (arith, e)))

length-map : {A B : Type 0} (f : A → B) (xs : List A) → length (map f xs) ≡ length xs
length-map f [] = refl
length-map f (x ∷ xs) = ap suc (length-map f xs)

module _ {W : Type 0} (hal : Wires W) where
  -- the world after two readings of the noise, and after so many times two
  abbrev pub twice : W → W
  twice w = (read_reg hal 0x2c (read_reg hal 0x2c w).1).1

  abbrev pub pairs : ℕ → W → W
  pairs zero w = w
  pairs (suc k) w = pairs k (twice w)

  -- the last bits of two readings are the same
  abbrev pub is_steady : W → Bool
  is_steady w =
      bit_and (read_reg hal 0x2c w).0 1 == bit_and (read_reg hal 0x2c (read_reg hal 0x2c w).1).0 1

  -- the world after so many readings of the mode
  abbrev pub readings : ℕ → W → W
  readings zero w = w
  readings (suc k) w = readings k (read_reg hal 1 w).1

  abbrev pub is_receiving : W → Bool
  is_receiving w = bit_and (read_reg hal 1 w).0 7 == 5

  -- the first k readings tell of another mode
  abbrev pub IsWaiting : ℕ → W → Type 0
  IsWaiting zero w = Unit {0}
  IsWaiting (suc k) w = (is_receiving w ≡ false) × IsWaiting k (read_reg hal 1 w).1

  wait_rx-ends :
      (k fuel : ℕ) (w : W)
      → k < fuel
      → is_receiving (readings k w) ≡ true
      → IsWaiting k w
      → wait_rx hal fuel w ≡ done tt (readings (suc k) w)
  unfolding wait_rx
  wait_rx-ends k zero w h e waits = absurd (omega arith)
  wait_rx-ends zero (suc fuel) w h e waits = rw e refl
  wait_rx-ends (suc k) (suc fuel) w h e (later, waits) =
      rw later (wait_rx-ends k fuel (read_reg hal 1 w).1 (omega arith) e waits)

  -- the first k pairs of readings are of the same bit
  abbrev pub IsSkipped : ℕ → W → Type 0
  IsSkipped zero w = Unit {0}
  IsSkipped (suc k) w = (is_steady w ≡ true) × IsSkipped k (twice w)

  -- The noise gives these bits and leads to the world u: for each bit, fewer pairs than the fuel are
  -- skipped, the next one differs, and its first reading has the bit.
  abbrev pub Draws : ℕ → List Bool → W → W → Type 0
  Draws fuel [] w u = w ≡ u
  Draws fuel (b ∷ bits) w u =
      (k : ℕ) × (k < fuel)
      × IsSkipped k w
      × (is_steady (pairs k w) ≡ false)
      × (bit_and (read_reg hal 0x2c (pairs k w)).0 1 ≡ digit b)
      × Draws fuel bits (twice (pairs k w)) u

  -- the same for bytes of eight bits
  abbrev pub DrawsBytes : ℕ → List (List Bool) → W → W → Type 0
  DrawsBytes fuel [] w u = w ≡ u
  DrawsBytes fuel (bits ∷ rest) w u =
      (length bits ≡ 8) × (v : W) × Draws fuel bits w v × DrawsBytes fuel rest v u

  noise_bit_lem :
      (k fuel : ℕ) (w : W)
      → k < fuel
      → IsSkipped k w
      → is_steady (pairs k w) ≡ false
      → noise_bit hal fuel w
        ≡ done (bit_and (read_reg hal 0x2c (pairs k w)).0 1) (twice (pairs k w))
  unfolding noise_bit
  noise_bit_lem k zero w h skips e = absurd (omega arith)
  noise_bit_lem zero (suc fuel) w h skips e = rw e refl
  noise_bit_lem (suc k) (suc fuel) w h (again, skips) e =
      rw again (noise_bit_lem k fuel (twice w) (omega arith) skips e)

  noise_byte_lem :
      (fuel byte : ℕ) (bits : List Bool) (w u : W)
      → Draws fuel bits w u
      → noise_byte hal fuel (length bits) byte w ≡ done (shifted byte bits) u
  unfolding noise_byte
  noise_byte_lem fuel byte [] w u e = ap (done byte) e
  noise_byte_lem fuel byte (b ∷ bits) w u (k, enough, skips, differ, bit, rest) =
      rw (noise_byte, noise_bit_lem k fuel w enough skips differ, bit)
        (noise_byte_lem fuel (bit_or (byte * 2 % 256) (digit b)) bits _ u rest)

  fill_random_lem :
      (fuel i : ℕ) (bytes : List (List Bool)) (randbuf : List ℕ) (w u : W)
      → DrawsBytes fuel bytes w u
      → fill_random hal fuel i (length bytes) randbuf w
        ≡ done (overwritten randbuf i (map binary bytes)) u
  unfolding fill_random
  fill_random_lem fuel i [] randbuf w u e = ap (done randbuf) e
  fill_random_lem fuel i (bits ∷ rest) randbuf w u (eight, v, draws, more) =
      let byte = get_or randbuf i 0 in
      let drawn : noise_byte hal fuel 8 byte w ≡ done (binary bits) v =
        ap (λ n. noise_byte hal fuel n byte w) (sym eight)
        ∙ noise_byte_lem fuel byte bits w v draws
        ∙ ap (λ b. done b v) (shifted_byte byte bits eight) in
      rw (fill_random, drawn)
        (fill_random_lem fuel (suc i) rest (set randbuf i (binary bits)) v u more)

  -- the world once `rxlora` has started to listen to the noise
  abbrev pub started : Lora W → W
  started s =
      listen hal 2 0 s.lmic
        (config_rx hal 2 s.lmic (opmode hal 1 (opmode_lora hal (reset_radio hal s.world))))

  -- If the chip, once `rxlora` has started, tells after k other readings of its mode that it receives,
  -- and its noise then gives 15 bytes of bits, a bit being the last one of the first of two readings in
  -- a row that differ in it, and if the fuel exceeds k and the pairs that are skipped for any bit: `radio_init` ends,
  -- the bytes of randomness are just these, the first bit of each its highest, with the index 16
  -- before them, the settings are as they were, and the chip is asleep with interrupts enabled.
  pub radio_init-ends :
      (fuel k : ℕ) (bytes : List (List Bool)) (u : W) (s : Lora W)
      → k < fuel
      → IsWaiting k (started s)
      → is_receiving (readings k (started s)) ≡ true
      → DrawsBytes fuel bytes (readings (suc k) (started s)) u
      → length bytes ≡ 15
      → length s.randbuf ≡ 16
      → radio_init hal fuel s
        ≡ done tt (record s {
          randbuf = 16 ∷ map binary bytes;
          world = hal.hal_enable_irqs (opmode hal 0 u);
        })
  unfolding radio_init seed rxlora
  radio_init-ends fuel k bytes u s enough waits tells draws count size =
      let heard = readings (suc k) (started s) in
      let filled : fill_random hal fuel 1 15 s.randbuf heard
          ≡ done (overwritten s.randbuf 1 (map binary bytes)) u =
        ap (λ n. fill_random hal fuel 1 n s.randbuf heard) (sym count)
        ∙ fill_random_lem fuel 1 bytes s.randbuf heard u draws in
      let seeds : seed hal fuel s.randbuf (started s)
          ≡ done (overwritten s.randbuf 1 (map binary bytes)) u =
        rw (seed, wait_rx-ends k fuel (started s) enough tells waits) filled in
      rw
        (
          radio_init,
          seeds,
          whole_buffer s.randbuf (map binary bytes)
              (size ∙ ap suc (sym count ∙ sym (length-map binary bytes))),
        )
        refl
