-- ===== src/Lora/Linux.antt =====
-- The board of the LoRa chip on a Raspberry Pi, src/lora/sx127x_hal_linux.c: pins by sysfs, the SPI bus,
-- and the clock.
use knot_hal_source.Prelude.{ℕ, ◌-◌, ◌%◌, leb, List, [], ◌∷◌, ℤ, pos, negsuc, if◌then◌else◌, get_or}
use knot_hal_source.Prelude.Outcome.{Outcome, done, bad_access, no_fuel, after_outcome, ◌>>◌, pure}
use knot_hal_source.Clock.{Timespec, us, get_time}
use knot_hal_source.Chip.Spi.{System, Spi, spi_bus_init, spi_bus_transfer}
use knot_hal_source.Gpio.Files.{Sysfs, hal_gpio_input, hal_gpio_output}
use knot_hal_source.Gpio.Pins.{
  Gpio, hal_gpio_setup, hal_gpio_unmap, hal_gpio_pin_mode, hal_gpio_digital_write, hal_gpio_get_fd,
}
use knot_hal_source.Lora.State.{Wires}

-- The system as the three parts see it. The seven digits of /dev/spidev0.0 are a parameter of its own.
pub record Host (W : Type 0) : Type 0 where
  pub sysfs : Sysfs W
  pub spi : System W
  pub clock_gettime : W → Timespec × W
  pub usleep : ℕ → W → W
  pub device : List ℕ

pub record Lines (W : Type 0) : Type 0 where
  pub gpio_map : List ℕ
  pub pdummy_len : ℕ
  pub fd_spi : ℤ
  pub world : W

abbrev pub pin_nss : ℕ
pin_nss = 25

abbrev pub pin_rxtx : ℕ
pin_rxtx = 24

abbrev pub pin_rst : ℕ
pin_rst = 17

abbrev pub pins_dio : List ℕ
pins_dio = 21 ∷ 4 ∷ 24 ∷ []

module _ {W : Type 0} where
  -- a call of the pins
  abbrev pub on_gpio : {A : Type 0} → (Gpio W → Outcome (Gpio W) A) → Lines W → Outcome (Lines W) A
  on_gpio f l = elim (f (record { gpio_map = l.gpio_map; world = l.world })) [
    | done a g ↦ done a (record l { gpio_map = g.gpio_map; world = g.world })
    | bad_access ↦ bad_access
    | no_fuel ↦ no_fuel
  ]

  abbrev pub spi_of : Lines W → Spi W
  spi_of l = record { pdummy_len = l.pdummy_len; world = l.world }

-- The error, as a `uint8_t`, or the byte that came in
abbrev pub byte_of : ℤ → List ℕ → ℕ
byte_of (pos n) bytes = get_or bytes 0 0
byte_of (negsuc n) bytes = 255 - n % 256

module _ {W : Type 0} (host : Host W) where
  unfoldable pub init_spi : Lines W → Lines W
  init_spi l =
      let (fd, s) = spi_bus_init host.spi host.device (spi_of l) in
      record l { pdummy_len = s.pdummy_len; fd_spi = fd; world = s.world }

  unfoldable pub hal_spi : ℕ → Lines W → ℕ × Lines W
  hal_spi outval l =
      let (err, bytes, s) = spi_bus_transfer host.spi l.fd_spi [] (outval ∷ []) (spi_of l) in
      (byte_of err bytes, record l { pdummy_len = s.pdummy_len; world = s.world })

  -- microseconds
  unfoldable pub hal_ticks : Lines W → ℕ × Lines W
  hal_ticks l =
      let (spec, w) = host.clock_gettime l.world in (get_time us spec, record l { world = w })

  unfoldable pub hal_wait_until : ℕ → Lines W → Lines W
  hal_wait_until time l =
      let (time_us, asked) = hal_ticks l in
      if leb time_us time
      then asked
      else record asked { world = host.usleep (time_us - time) asked.world }

-- `fuel` bounds the calls of `hal_gpio_digital_write` by itself.
module _ {W : Type 0} (host : Host W) (fuel : ℕ) where
  unfoldable pub init_gpio : Lines W → Outcome (Lines W) ℤ
  init_gpio = do
    on_gpio (hal_gpio_setup host.sysfs)
    on_gpio (hal_gpio_pin_mode host.sysfs pin_nss hal_gpio_output)
    on_gpio (hal_gpio_pin_mode host.sysfs pin_rxtx hal_gpio_output)
    on_gpio (hal_gpio_pin_mode host.sysfs pin_rst hal_gpio_output)
    on_gpio (hal_gpio_pin_mode host.sysfs (get_or pins_dio 0 0) hal_gpio_input)
    on_gpio (hal_gpio_pin_mode host.sysfs (get_or pins_dio 1 0) hal_gpio_input)
    on_gpio (hal_gpio_pin_mode host.sysfs (get_or pins_dio 2 0) hal_gpio_input)

  unfoldable pub write_pin : ℕ → ℕ → Lines W → Outcome (Lines W) (Unit {0})
  write_pin pin level = on_gpio (hal_gpio_digital_write host.sysfs fuel pin level)

  unfoldable pub hal_pin_rst : ℕ → Lines W → Outcome (Lines W) (Unit {0})
  hal_pin_rst level =
      if leb level 1
      then (do
        on_gpio (hal_gpio_pin_mode host.sysfs pin_rst hal_gpio_output)
        write_pin pin_rst level)
      else (do on_gpio (hal_gpio_pin_mode host.sysfs pin_rst hal_gpio_input); pure tt)

  unfoldable pub hal_pins_unmap : Lines W → Outcome (Lines W) (Unit {0})
  hal_pins_unmap = on_gpio (hal_gpio_unmap host.sysfs)

  unfoldable pub init_gpio_fd : Lines W → Outcome (Lines W) ℤ
  init_gpio_fd = on_gpio (hal_gpio_get_fd host.sysfs fuel (get_or pins_dio 0 0) 1)

  unfoldable pub hal_init : Lines W → Outcome (Lines W) (Unit {0})
  hal_init = do init_gpio; (λ l. done tt (init_spi host l))

  -- The board that the driver of the chip runs on. A run that has failed stays so.
  abbrev pub linux_wires : Wires (Outcome (Lines W) (Unit {0}))
  linux_wires = record {
    hal_pin_nss = λ level r. after_outcome r (λ _. write_pin pin_nss level);
    hal_spi = λ byte r. elim r [
      | done _ l ↦ let (got, t) = hal_spi host byte l in (got, done tt t)
      | bad_access ↦ (0, bad_access)
      | no_fuel ↦ (0, no_fuel)
    ];
    hal_pin_rxtx = λ level r. after_outcome r (λ _. write_pin pin_rxtx level);
    hal_pin_rst = λ level r. after_outcome r (λ _. hal_pin_rst level);
    hal_ticks = λ r. elim r [
      | done _ l ↦ let (now, t) = hal_ticks host l in (now, done tt t)
      | bad_access ↦ (0, bad_access)
      | no_fuel ↦ (0, no_fuel)
    ];
    hal_wait_until = λ time r. after_outcome r (λ _ l. done tt (hal_wait_until host time l));
    hal_disable_irqs = λ r. r;
    hal_enable_irqs = λ r. r;
  }
