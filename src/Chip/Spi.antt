-- ===== src/Chip/Spi.antt =====
-- The SPI bus on Linux: src/spi/spi_linux.c. The calls of the system are a record over a world of their own.
use knot_hal_source.Prelude.{
  ℕ, zero, suc, ◌==◌, ltb, ◌||◌, Bool, Option, none, some, List, [], ◌∷◌, ◌++◌, ℤ, pos, negsuc,
  is_neg, eq_ℤ, if◌then◌else◌, length,
}

-- `max_speed` is the request SPI_IOC_RD_MAX_SPEED_HZ, and `configure` those that set the mode, the speed,
-- the bits of a word and their order, which are not tested. `message` is SPI_IOC_MESSAGE: it takes
-- the bytes of each transfer, and returns its result with the bytes that came in. `malloc` says
-- whether there is memory.
pub record System (W : Type 0) : Type 0 where
  pub open_device : List ℕ → W → ℤ × W
  pub close_device : ℤ → W → W
  pub set_speed : ℤ → W → W
  pub max_speed : ℤ → W → ℤ × W
  pub configure : ℤ → W → W
  pub message : ℤ → List (List ℕ) → W → ℤ × List (List ℕ) × W
  pub malloc : ℕ → W → Bool × W
  pub errno : W → ℕ

-- `pdummy_len` with the world; the bytes of `pdummy` are never read.
pub record Spi (W : Type 0) : Type 0 where
  pub pdummy_len : ℕ
  pub world : W

-- `-errno`
abbrev pub minus : ℕ → ℤ
minus zero = pos 0
minus (suc n) = negsuc n

abbrev pub eio : ℤ
eio = negsuc 4

abbrev pub enomem : ℤ
enomem = negsuc 11

-- the last of the transfers, which is that of `rx`
unfoldable pub last_or : List ℕ → List (List ℕ) → List ℕ
last_or bytes [] = bytes
last_or bytes (x ∷ xs) = last_or x xs

abbrev pub part : List ℕ → List (List ℕ)
part [] = []
part (b ∷ bytes) = (b ∷ bytes) ∷ []

module _ {W : Type 0} (sys : System W) where
  unfoldable pub spi_bus_init : List ℕ → Spi W → ℤ × Spi W
  spi_bus_init dev s =
      let (spi_fd, opened) = sys.open_device dev s.world in
      let (limit, asked) = sys.max_speed spi_fd (sys.set_speed spi_fd opened) in
      let (room, allocated) = sys.malloc 1 asked in
      if is_neg spi_fd || eq_ℤ spi_fd (pos 0)
      then (minus (sys.errno opened), record s { world = opened })
      else if is_neg limit
      then (let closed = sys.close_device spi_fd asked in
          (minus (sys.errno closed), record s { world = closed }))
      else if room
      then (spi_fd, record { pdummy_len = 1; world = allocated })
      else (enomem, record s { world = sys.close_device spi_fd allocated })

  unfoldable pub spi_bus_deinit : ℤ → Spi W → Spi W
  spi_bus_deinit spi_fd s = record {
    pdummy_len = 0;
    world =
        if is_neg spi_fd || eq_ℤ spi_fd (pos 0) then s.world else sys.close_device spi_fd s.world;
  }

  -- Room for what comes in while the command goes out; `none` if there is no memory.
  unfoldable pub grow_dummy : ℕ → Spi W → Option (Spi W)
  grow_dummy ltx s =
      let (room, w) = sys.malloc ltx s.world in
      if ltb s.pdummy_len ltx
      then (if room then some (record { pdummy_len = ltx; world = w }) else none)
      else some s

  -- One message: the command, if there is one, and the bytes of `rx`, if there are any.
  unfoldable pub exchange : ℤ → List ℕ → List ℕ → Spi W → ℤ × List ℕ × Spi W
  exchange spi_fd tx rx s =
      let (ret, bytes, w) =
        sys.message spi_fd (part tx ++ part rx) (sys.configure spi_fd s.world) in
      (
        if eq_ℤ ret (pos 0) then pos 0 else minus (sys.errno w),
        if length rx == 0 then rx else last_or rx bytes,
        record s { world = w },
      )

  -- The result, the new bytes of `rx` and the new state.
  unfoldable pub spi_bus_transfer : ℤ → List ℕ → List ℕ → Spi W → ℤ × List ℕ × Spi W
  spi_bus_transfer (negsuc n) tx rx s = (eio, rx, s)
  spi_bus_transfer (pos n) tx rx s = elim (grow_dummy (length tx) s) [
    | none ↦ (enomem, rx, s)
    | some grown ↦ exchange (pos n) tx rx grown
  ]
