-- ===== src/Chip/Listening.antt =====
-- Between the calls of the driver of src/drivers/phy_driver_nrf24.c: `pipe0_open` and EN_RXADDR agree,
-- and the chip listens after every call that does not put it on standby.
use knot_hal_source.Prelude.{
  int8, low_byte, ℕ, ◌≡◌, ◌≢◌, refl, sym, ap, ◌∙◌, arith, ◌==◌, Bool, true, false, inl, inr,
  Bool-cases, List, ℤ, bit_and,
}
use knot_hal_source.Chip.Board.{Board, Radio, pure}
use knot_hal_source.Chip.Access.{nrf24reg_read, nrf24reg_write, command}
use knot_hal_source.Chip.Setup.{
  nrf24l01_set_channel, constrain, max_channel, retune, set_acknowledge, nrf24l01_set_standby,
}
use knot_hal_source.Chip.Receive.{restore_pipe0, nrf24l01_set_prx}
use knot_hal_source.Chip.Driver.{
  Request, run_request, is_standby, nrf24l01_ioctl, set_pipe, reset_pipe, set_channel, set_standby,
  other_command,
}
use knot_hal_source.Chip.Registers.{IsRegisterFile, if_keeps, nrf24reg_read-keeps, command-keeps}
use knot_hal_source.Chip.Tuning.{retune-regs, set_acknowledge-regs}
use knot_hal_source.Chip.Mode.{receiving, set_prx-regs}
use knot_hal_source.Chip.Hearing.{IsReceiver, Hears, Hears-from, set_prx-Hears}
use knot_hal_source.Chip.Pipe0.{
  IsListening, nrf24reg_read-pipe0, command-pipe0, set_address_pipe-pipe0,
}
use knot_hal_source.Chip.Agreed.{
  IsAgreed, Agrees, receiving-IsListening, Agrees-from, open_pipe-Agrees, close_pipe-Agrees,
}

module _ {W : Type 0} (bd : Board W) (spi_fd : ℤ) where
  restore_pipe0-pipe0 :
      (on : Bool) (a : List ℕ) (s : Radio W)
      → (restore_pipe0 bd spi_fd on a s).1.pipe0_open ≡ s.pipe0_open
  unfolding restore_pipe0 nrf24reg_read nrf24reg_write
  restore_pipe0-pipe0 true a s = set_address_pipe-pipe0 bd spi_fd 10 a s
  restore_pipe0-pipe0 false a s = refl

module _ {W : Type 0} {bd : Board W} {spi_fd : ℤ} {reg : W → ℕ → ℕ}
    (chip : IsRegisterFile bd spi_fd reg) where
  retune-Agrees :
      (max ch : ℕ) (s : Radio W) → Agrees reg s → Agrees reg (retune bd spi_fd max ch s).1
  unfolding retune nrf24reg_read nrf24reg_write command
  retune-Agrees max ch s ok =
      let kept : (r : ℕ) → r ≢ 5 → reg (retune bd spi_fd max ch s).1.world r ≡ reg s.world r =
        λ r other. rw (retune-regs chip max ch s) (ground arith) in
      Agrees-from reg (retune bd spi_fd max ch s).1
        (if_keeps (λ t. t.pipe0_open) (ch == bit_and (nrf24reg_read bd spi_fd 5 s).0 127) (pure tt)
          _ _ refl refl)
        (kept 0 (omega arith)) (kept 2 (omega arith)) ok

  set_acknowledge-Agrees :
      (ack : Bool) (s : Radio W) → Agrees reg s → Agrees reg (set_acknowledge bd spi_fd ack s).1
  unfolding set_acknowledge nrf24reg_read nrf24reg_write
  set_acknowledge-Agrees ack s ok =
      let regs = set_acknowledge-regs chip ack s in
      Agrees-from reg (set_acknowledge bd spi_fd ack s).1 refl (ap (λ f. f 0) regs)
        (ap (λ f. f 2) regs) ok

  same_registers :
      (t s : Radio W)
      → t.pipe0_open ≡ s.pipe0_open
      → reg t.world ≡ reg s.world
      → Agrees reg s
      → Agrees reg t
  same_registers t s e regs ok = Agrees-from reg t e (ap (λ f. f 0) regs) (ap (λ f. f 2) regs) ok

  set_channel-Agrees :
      (ch : ℕ) (ack : Bool) (s : Radio W)
      → Agrees reg s
      → Agrees reg (nrf24l01_set_channel bd spi_fd ch ack s).1
  unfolding nrf24l01_set_channel
  set_channel-Agrees ch ack s ok =
      let found = nrf24reg_read bd spi_fd 6 s in
      let first : Agrees reg found.1 =
        same_registers found.1 s (nrf24reg_read-pipe0 bd spi_fd 6 s)
          (nrf24reg_read-keeps chip 6 s (omega arith)) ok in
      let standby = record found.1 { world = bd.disable found.1.world } in
      let second : Agrees reg standby =
        same_registers standby found.1 refl (chip.disables found.1.world) first in
      elim (Bool-cases (ch == constrain ch 10 (max_channel found.0))) [
        | inl e ↦
            rw e
              (set_acknowledge-Agrees ack _ (retune-Agrees (max_channel found.0) ch standby second))
        | inr e ↦ rw e first
      ]

  run_request-Agrees :
      (request : Request) (s : Radio W)
      → Agrees reg s
      → Agrees reg (run_request bd spi_fd request s).1
  unfolding run_request
  run_request-Agrees (set_pipe p a) s ok = open_pipe-Agrees chip p a s ok
  run_request-Agrees (reset_pipe p) s ok = close_pipe-Agrees chip (int8 (low_byte p)) s ok
  run_request-Agrees (set_channel ch ack) s ok = set_channel-Agrees ch ack s ok
  run_request-Agrees set_standby s ok = ok
  run_request-Agrees other_command s ok = ok

  receiving-aw : (on : Bool) (regs : ℕ → ℕ) → regs 3 ≡ receiving on regs 3
  receiving-aw true regs = refl
  receiving-aw false regs = refl

  set_prx-pipe0 : (s : Radio W) → (nrf24l01_set_prx bd spi_fd s).1.pipe0_open ≡ s.pipe0_open
  unfolding nrf24l01_set_prx nrf24reg_read nrf24reg_write
  set_prx-pipe0 s = restore_pipe0-pipe0 bd spi_fd s.pipe0_open s.pipe0_address _

  -- On a chip whose registers and whose address of pipe 0 hold what is written, with the power on and with
  -- `pipe0_open` and EN_RXADDR agreed, every request but that for standby, refused or not, ends with
  -- the chip listening: PRIM_RX and PWR_UP are set, CE is high, pipe 0 is on just when `pipe0_open`
  -- says so, and it then has the address that the driver holds for it.
  pub ioctl_listens :
      {ce : W → Bool} {address : W → List ℕ} (receiver : IsReceiver bd spi_fd ce address)
      (request : Request) (s : Radio W)
      → is_standby request ≡ false
      → IsAgreed s.pipe0_open (reg s.world)
      → IsListening
          (nrf24l01_ioctl bd spi_fd request s).1.pipe0_open
          (reg (nrf24l01_ioctl bd spi_fd request s).1.world)
        × Hears ce address
            (reg (nrf24l01_ioctl bd spi_fd request s).1.world)
            (nrf24l01_ioctl bd spi_fd request s).1
            (nrf24l01_ioctl bd spi_fd request s).1
  unfolding nrf24l01_ioctl nrf24l01_set_standby
  ioctl_listens receiver request s e ok =
      let standby = (nrf24l01_set_standby bd spi_fd s).1 in
      let first : Agrees reg standby =
        same_registers standby s (command-pipe0 bd spi_fd 255 _)
          (command-keeps chip 255 _ ∙ chip.disables s.world) ok in
      let u = (run_request bd spi_fd request standby).1 in
      let served : Agrees reg u = run_request-Agrees request standby first in
      let heard = set_prx-Hears chip receiver u in
      let regs = set_prx-regs chip u in
      let aw : reg u.world 3 ≡ reg (nrf24l01_set_prx bd spi_fd u).1.world 3 =
        receiving-aw u.pipe0_open (reg u.world) ∙ ap (λ f. f 3) (sym regs) in
      let listening : IsListening (nrf24l01_set_prx bd spi_fd u).1.pipe0_open
          (reg (nrf24l01_set_prx bd spi_fd u).1.world) =
        rw (set_prx-pipe0 u, regs) (receiving-IsListening u.pipe0_open (reg u.world) served) in
      rw e (listening, Hears-from _ heard aw (sym heard.statics))
