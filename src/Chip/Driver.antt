-- ===== src/Chip/Driver.antt =====
-- The driver of src/drivers/phy_driver_nrf24.c: what the table of phy_driver.c holds for the chip.
use knot_hal_source.Prelude.{
  int8, low_byte, ℕ, ◌%◌, ◌^◌, ◌==◌, not, ◌&&◌, ◌||◌, Bool, true, false, List, ℤ, pos, negsuc,
  if◌then◌else◌, Option, none, some,
}
use knot_hal_source.Chip.Board.{Board, Radio, Act, ◌>>=◌, ◌>>◌, pure}
use knot_hal_source.Chip.Setup.{
  nrf24l01_init, nrf24l01_deinit, nrf24l01_set_channel, nrf24l01_set_standby,
}
use knot_hal_source.Chip.Pipes.{nrf24l01_open_pipe, nrf24l01_close_pipe}
use knot_hal_source.Chip.Transmit.{nrf24l01_set_ptx, nrf24l01_ptx_data, nrf24l01_ptx_wait_datasent}
use knot_hal_source.Chip.Receive.{
  nrf24l01_set_prx, nrf24l01_prx_pipe_available, nrf24l01_prx_data, nrf24_no_pipe,
}

-- `enum nrf24_cmds` with what `arg` points to. The other commands have no case in the code.
pub data Request : Type 0 where
  set_pipe : ℕ → List ℕ → Request
  reset_pipe : ℤ → Request
  set_channel : ℕ → Bool → Request
  set_standby : Request
  other_command : Request

abbrev pub write_result : ℤ → ℕ → ℤ
write_result (pos n) len = if n == 1 then negsuc 0 else pos len
write_result (negsuc n) len = negsuc 0

abbrev pub is_standby : Request → Bool
is_standby set_standby = true
is_standby _ = false

module _ {W : Type 0} (bd : Board W) (spi_fd : ℤ) where
  -- Waits only if the payload is in the queue.
  unfoldable pub wait_sent : ℕ → ℤ → Radio W → Option (ℤ × Radio W)
  wait_sent fuel (pos n) s =
      if n == 0 then nrf24l01_ptx_wait_datasent bd spi_fd fuel s else some (pos n, s)
  wait_sent fuel (negsuc n) s = some (negsuc n, s)

  -- `none` if the fuel of the wait does not last.
  unfoldable pub nrf24l01_write : ℕ → ℕ → List ℕ → ℕ → Radio W → Option (ℤ × Radio W)
  nrf24l01_write fuel pipe payload len s =
      let ready = (nrf24l01_set_ptx bd spi_fd pipe s).1 in
      let (err, queued) = nrf24l01_ptx_data bd spi_fd payload (len % 2 ^ 16) ready in
      elim (wait_sent fuel err queued) [
        | none ↦ none
        | some r ↦ some (write_result r.0 len, (nrf24l01_set_prx bd spi_fd r.1).1)
      ]

  -- The length with the new pipe and payload of the packet.
  unfoldable pub nrf24l01_read : ℕ → ℕ → List ℕ → ℕ → Act W (ℕ × ℕ × List ℕ)
  nrf24l01_read width pack_pipe payload len = do
    pipe ← nrf24l01_prx_pipe_available bd spi_fd
    if (pack_pipe == nrf24_no_pipe && not (pipe == nrf24_no_pipe))
          || (not (pack_pipe == nrf24_no_pipe) && pipe == pack_pipe)
        then (do
          taken ← nrf24l01_prx_data bd spi_fd width payload (len % 2 ^ 16)
          pure (taken.0, pipe, taken.1))
        else pure (0, pack_pipe, payload)

  unfoldable pub run_request : Request → Act W ℤ
  run_request (set_pipe pipe aa) = nrf24l01_open_pipe bd spi_fd pipe aa
  run_request (reset_pipe pipe) = nrf24l01_close_pipe bd spi_fd (int8 (low_byte pipe))
  run_request (set_channel value ack) = nrf24l01_set_channel bd spi_fd value ack
  run_request set_standby = pure (negsuc 0)
  run_request other_command = pure (negsuc 0)

  unfoldable pub nrf24l01_ioctl : Request → Act W ℤ
  nrf24l01_ioctl request = do
    nrf24l01_set_standby bd spi_fd
    err ← run_request request
    if is_standby request then pure err else (do nrf24l01_set_prx bd spi_fd; pure err)

module _ {W : Type 0} (bd : Board W) where
  -- `NRF24_PWR_0DBM`
  unfoldable pub nrf24l01_open : List ℕ → Act W ℤ
  nrf24l01_open pathname = nrf24l01_init bd pathname 0b11

  unfoldable pub nrf24l01_close : ℤ → Act W (Unit {0})
  nrf24l01_close spi_fd = do nrf24l01_deinit bd spi_fd; pure tt
