-- ===== src/Lora/Waiting.antt =====
-- The times and the bytes of src/lora/sx127x_hal_linux.c.
use knot_hal_source.Prelude.{
  ℕ, suc, ◌-◌, ◌%◌, ◌≤◌, ◌<◌, ◌≡◌, refl, arith, ltb, ◌==◌, false, [], ◌∷◌, pos,
}
use knot_hal_source.Chip.Spi.{minus, spi_bus_transfer, exchange, grow_dummy, last_or}
use knot_hal_source.Lora.Linux.{Host, Lines, spi_of, hal_spi, hal_ticks, hal_wait_until}

module _ {W : Type 0} (host : Host W) where
  -- `hal_wait_until` never waits for a time to come: if the time is not before what the clock shows, it
  -- returns at once. If it has passed, the function waits once more for as long as it has passed.
  hal_wait_until-backwards :
      (time : ℕ) (l : Lines W)
      → ((hal_ticks host l).0 ≤ time → hal_wait_until host time l ≡ (hal_ticks host l).1)
        × (time < (hal_ticks host l).0
            → hal_wait_until host time l ≡ record (hal_ticks host l).1 {
              world = host.usleep ((hal_ticks host l).0 - time) (hal_ticks host l).1.world;
            })
  unfolding hal_wait_until
  hal_wait_until-backwards time l = (λ h. ground arith, λ h. ground arith)

  -- Where the system answers the transfer of a byte with its size and an older error is still in
  -- `errno`, `hal_spi` hands out that error, as a byte, in place of the byte that came in.
  hal_spi-answer :
      (fd outval total err reply : ℕ) (w : W) (l : Lines W)
      → l.fd_spi ≡ pos fd
      → host.spi.message (pos fd) ((outval ∷ []) ∷ []) (host.spi.configure (pos fd) l.world)
        ≡ (pos (suc total), (reply ∷ []) ∷ [], w)
      → host.spi.errno w ≡ suc err
      → err < 256
      → (hal_spi host outval l).0 ≡ 255 - err
  unfolding hal_spi spi_bus_transfer exchange grow_dummy last_or
  hal_spi-answer fd outval total err reply w l opened sent old small =
      let answered : spi_bus_transfer host.spi (pos fd) [] (outval ∷ []) (spi_of l) ≡ (
        minus (host.spi.errno w),
        reply ∷ [],
        record { pdummy_len = l.pdummy_len; world = w },
      ) =
        let room : ltb l.pdummy_len 0 ≡ false = ground arith in
        let some_sent : (suc total == 0) ≡ false = ground arith in
        rw (spi_bus_transfer, grow_dummy, room, exchange, sent, some_sent) refl in
      let byte : err % 256 ≡ err = omega arith in rw (opened, answered, old, byte) refl
