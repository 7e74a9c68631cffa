-- ===== src/Chip/Board.antt =====
-- What src/nrf24l01/nrf24l01.c calls (spi_bus.h and nrf24l01_io.h), its two static variables, and
-- how its functions run: each takes the state and returns a value with the new state.
use knot_hal_source.Prelude.{ℕ, ◌-◌, Bool, false, List, ℤ, replicate, bit_and}

-- The functions of the board over a world of their own. `spi_bus_transfer` takes the descriptor,
-- the bytes of `tx` and those of `rx`, and returns the new bytes of `rx`; its result is not used.
-- `frame` is what an uninitialised array of five bytes on the stack holds.
pub record Board (W : Type 0) : Type 0 where
  pub io_setup : List ℕ → W → ℤ × W
  pub io_reset : ℤ → W → W
  pub enable : W → W
  pub disable : W → W
  pub delay_us : ℕ → W → W
  pub spi_bus_transfer : ℤ → List ℕ → List ℕ → W → List ℕ × W
  pub frame : List ℕ

pub record Radio (W : Type 0) : Type 0 where
  pub pipe0_open : Bool
  pub pipe0_address : List ℕ
  pub world : W

abbrev pub nrf24_addr_size : ℕ
nrf24_addr_size = 5

abbrev pub powered_on : {W : Type 0} → W → Radio W
powered_on w = record { pipe0_open = false; pipe0_address = replicate nrf24_addr_size 0; world = w }

abbrev pub Act : Type 0 → Type 0 → Type 0
Act W A = Radio W → A × Radio W

module _ {W : Type 0} where
  infixl 5 ◌>>=◌ ◌>>◌
  abbrev pub ◌>>=◌ :
      {A B : Type 0} → (Radio W → A × Radio W) → (A → Radio W → B × Radio W) → Radio W → B × Radio W
  (m >>= k) s = k (m s).0 (m s).1

  abbrev pub ◌>>◌ :
      {A B : Type 0} → (Radio W → A × Radio W) → (Radio W → B × Radio W) → Radio W → B × Radio W
  (m >> k) s = k (m s).1

  abbrev pub pure : {A : Type 0} → A → Radio W → A × Radio W
  pure a s = (a, s)

  -- a call that changes the world only
  abbrev pub world_call : (W → W) → Radio W → Unit {0} × Radio W
  world_call f s = (tt, record s { world = f s.world })

-- `value & ~mask`, for a mask of one byte
abbrev pub clear : ℕ → ℕ → ℕ
clear value mask = bit_and value (255 - mask)
