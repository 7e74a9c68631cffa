-- ===== src/Chip/Transfers.antt =====
-- What src/spi/spi_linux.c sends, and what it answers.
use knot_hal_source.Prelude.{
  ℕ, suc, ◌≤◌, ◌≡◌, refl, arith, ◌==◌, ltb, false, List, [], ◌∷◌, pos, length,
}
use knot_hal_source.Chip.Spi.{System, Spi, minus, grow_dummy, exchange, last_or, spi_bus_transfer}

module _ {W : Type 0} (sys : System W) where
  -- A command of one byte, with the dummy buffer that `spi_bus_init` makes, goes out in one message, the
  -- command first, and the bytes that came in with the second transfer are the new bytes. Where
  -- the system answers the message with the number of bytes sent, which is above zero, the result
  -- is `-errno`, as for a failure.
  spi_bus_transfer-answer :
      (fd cmd total first : ℕ) (rx reply : List ℕ) (w : W) (s : Spi W)
      → 1 ≤ s.pdummy_len
      → 1 ≤ length rx
      → sys.message (pos fd) ((cmd ∷ []) ∷ rx ∷ []) (sys.configure (pos fd) s.world)
        ≡ (pos (suc total), (first ∷ []) ∷ reply ∷ [], w)
      → spi_bus_transfer sys (pos fd) (cmd ∷ []) rx s
        ≡ (minus (sys.errno w), reply, record s { world = w })
  unfolding spi_bus_transfer exchange grow_dummy last_or
  spi_bus_transfer-answer fd cmd total first [] reply w s room some_bytes sent =
      absurd (omega arith)
  spi_bus_transfer-answer fd cmd total first (b ∷ rx) reply w s room some_bytes sent =
      let t : ltb s.pdummy_len 1 ≡ false = ground arith in
      let some_sent : (suc total == 0) ≡ false = ground arith in
      let some_read : (length (b ∷ rx) == 0) ≡ false = ground arith in
      rw (spi_bus_transfer, grow_dummy, t, sent, some_sent, some_read) refl
