-- ===== src/Chip/Agreed.antt =====
-- `pipe0_open` of src/nrf24l01/nrf24l01.c and EN_RXADDR agree, also after a pipe is opened or closed.
use knot_hal_source.Prelude.{
  ℕ, ◌+◌, ◌≤◌, ◌<◌, ◌≡◌, refl, ◌∙◌, arith, ◌==◌, ltb, ◌&&◌, Bool, true, false, inl, inr, Bool-cases,
  List, ℤ, pos, negsuc, if◌then◌else◌, passes, passes-at, bit_and, bit_or,
}
use knot_hal_source.Comm.Pipes.Bits.{bit}
use knot_hal_source.Chip.Board.{Board, Radio, pure, clear}
use knot_hal_source.Chip.Access.{nrf24reg_read, nrf24reg_write, set_address_pipe}
use knot_hal_source.Chip.Pipes.{
  nrf24l01_open_pipe, nrf24l01_close_pipe, enable_pipe, disable_pipe, hold_pipe0, release_pipe0,
  nrf24_en_rxaddr_pipe,
}
use knot_hal_source.Chip.Registers.{IsRegisterFile, update, if_keeps, nrf24reg_read-value}
use knot_hal_source.Chip.EnableBits.{
  with_pipe, without_pipe, with_pipe_small, without_pipe_small, with_pipe_first, without_pipe_first,
}
use knot_hal_source.Chip.Opening.{open_pipe-regs, close_pipe-regs}
use knot_hal_source.Chip.Mode.{receiving}
use knot_hal_source.Chip.Pipe0.{IsListening, bit0, nrf24reg_read-pipe0, set_address_pipe-pipe0}

-- CONFIG and EN_RXADDR are in range, PWR_UP is set, and pipe 0 is on just when the driver opened it.
pub record IsAgreed (pipe0_open : Bool) (regs : ℕ → ℕ) : Type 0 where
  pub config : regs 0 < 128
  pub powered : bit (regs 0) 1 ≡ 1
  pub rxaddr : regs 2 < 64
  pub pipe0 : bit (regs 2) 0 ≡ (if pipe0_open then 1 else 0)

abbrev receives : ℕ → Bool
receives v = bit (bit_or v 1) 0 == 1 && ltb (bit_or v 1) 128 && bit (bit_or v 1) 1 == bit v 1

config_table : passes receives 128 ≡ true
unfolding passes
config_table = refl

pub receiving-IsListening :
    (on : Bool) (regs : ℕ → ℕ) → IsAgreed on regs → IsListening on (receiving on regs)
receiving-IsListening true regs ok =
    let t : receives (regs 0) ≡ true = passes-at receives 128 (regs 0) ok.config config_table in
    record {
      config = ground (arith, t);
      prim_rx = ground (arith, t);
      powered = ground (arith, t, ok.powered);
      rxaddr = ok.rxaddr;
      pipe0 = ok.pipe0;
    }
receiving-IsListening false regs ok =
    let t : receives (regs 0) ≡ true = passes-at receives 128 (regs 0) ok.config config_table in
    let v = bit0 (regs 2) (omega (arith, ok.rxaddr)) in
    let e : clear (regs 2) 1 ≡ regs 2 = ground (arith, ok.pipe0, v) in
    record {
      config = ground (arith, t);
      prim_rx = ground (arith, t);
      powered = ground (arith, t, ok.powered);
      rxaddr = rw e ok.rxaddr;
      pipe0 = rw e ok.pipe0;
    }

opened_bit :
    (on off first : Bool) (b : ℕ)
    → b ≡ (if on then 1 else 0)
    → (if off then (if first then 1 else b) else b)
      ≡ (if (if off then (if first then true else on) else on) then 1 else 0)
opened_bit on off first b e = ground arith

closed_bit :
    (on off first : Bool) (b : ℕ)
    → b ≡ (if on then 1 else 0)
    → (if off then b else if first then 0 else b)
      ≡ (if (if off then on else if first then false else on) then 1 else 0)
closed_bit on off first b e = ground arith

-- What a pipe that is opened or closed leaves agreed.
opened-IsAgreed :
    (on : Bool) (p : ℕ) (regs : ℕ → ℕ)
    → p ≤ 5
    → IsAgreed on regs
    → IsAgreed
        (if bit_and (regs 2) (nrf24_en_rxaddr_pipe p) == 0
          then (if p == 0 then true else on)
          else on)
        (update 2 (with_pipe (regs 2) p) regs)
opened-IsAgreed on p regs h ok = record {
  config = ok.config;
  powered = ok.powered;
  rxaddr = with_pipe_small (regs 2) p ok.rxaddr h;
  pipe0 =
      with_pipe_first (regs 2) p ok.rxaddr h
      ∙ opened_bit on (bit_and (regs 2) (nrf24_en_rxaddr_pipe p) == 0) (p == 0) _ ok.pipe0;
}

closed-IsAgreed :
    (on : Bool) (p : ℕ) (regs : ℕ → ℕ)
    → p ≤ 5
    → IsAgreed on regs
    → IsAgreed
        (if bit_and (regs 2) (nrf24_en_rxaddr_pipe p) == 0
          then on
          else if p == 0
          then false
          else on)
        (update 2 (without_pipe (regs 2) p) regs)
closed-IsAgreed on p regs h ok = record {
  config = ok.config;
  powered = ok.powered;
  rxaddr = without_pipe_small (regs 2) p ok.rxaddr h;
  pipe0 =
      without_pipe_first (regs 2) p ok.rxaddr h
      ∙ closed_bit on (bit_and (regs 2) (nrf24_en_rxaddr_pipe p) == 0) (p == 0) _ ok.pipe0;
}

module _ {W : Type 0} (bd : Board W) (spi_fd : ℤ) where
  enable_pipe-pipe0 :
      (v p : ℕ) (a : List ℕ) (s : Radio W)
      → (enable_pipe bd spi_fd v p a s).1.pipe0_open ≡ (if p == 0 then true else s.pipe0_open)
  unfolding enable_pipe hold_pipe0 nrf24reg_write
  enable_pipe-pipe0 v p a s = elim (Bool-cases (p == 0)) [
    | inl e ↦ rw e refl
    | inr e ↦ rw e (
        if_keeps (λ t. t.pipe0_open) (ltb 1 p && bit_and v 2 == 0) (set_address_pipe bd spi_fd 11 a)
          (pure tt) _
          (set_address_pipe-pipe0 bd spi_fd 11 a _ ∙ set_address_pipe-pipe0 bd spi_fd (p + 10) a _)
          (set_address_pipe-pipe0 bd spi_fd (p + 10) a _))
  ]

  disable_pipe-pipe0 :
      (p : ℕ) (s : Radio W)
      → (disable_pipe bd spi_fd p s).1.pipe0_open ≡ (if p == 0 then false else s.pipe0_open)
  unfolding disable_pipe release_pipe0 nrf24reg_write nrf24reg_read
  disable_pipe-pipe0 p s = elim (Bool-cases (p == 0)) [ inl e ↦ rw e refl | inr e ↦ rw e refl ]

-- A step that leaves what is agreed.
abbrev pub Agrees : {W : Type 0} → (W → ℕ → ℕ) → Radio W → Type 0
Agrees reg t = IsAgreed t.pipe0_open (reg t.world)

pub Agrees-from :
    {W : Type 0} (reg : W → ℕ → ℕ) (t : Radio W) {on : Bool} {regs : ℕ → ℕ}
    → t.pipe0_open ≡ on
    → reg t.world 0 ≡ regs 0
    → reg t.world 2 ≡ regs 2
    → IsAgreed on regs
    → Agrees reg t
Agrees-from reg t e c x ok = record {
  config = rw c ok.config;
  powered = rw c ok.powered;
  rxaddr = rw x ok.rxaddr;
  pipe0 = rw (x, e) ok.pipe0;
}

module _ {W : Type 0} {bd : Board W} {spi_fd : ℤ} {reg : W → ℕ → ℕ}
    (chip : IsRegisterFile bd spi_fd reg) where
  open_pipe-pipe0 :
      (p : ℕ) (a : List ℕ) (s : Radio W)
      → p ≤ 5
      → (nrf24l01_open_pipe bd spi_fd p a s).1.pipe0_open ≡ (
          if bit_and (reg s.world 2) (nrf24_en_rxaddr_pipe p) == 0
          then (if p == 0 then true else s.pipe0_open)
          else s.pipe0_open)
  unfolding nrf24l01_open_pipe
  open_pipe-pipe0 p a s h =
      let t : ltb 5 p ≡ false = ground arith in
      rw (t, nrf24reg_read-value chip 2 s refl)
        (elim (Bool-cases (bit_and (reg s.world 2) (nrf24_en_rxaddr_pipe p) == 0)) [
          | inl e ↦ rw (e, enable_pipe-pipe0, nrf24reg_read-pipe0) refl
          | inr e ↦ rw (e, nrf24reg_read-pipe0) refl
        ])

  close_pipe-pipe0 :
      (p : ℕ) (s : Radio W)
      → p ≤ 5
      → (nrf24l01_close_pipe bd spi_fd (pos p) s).1.pipe0_open ≡ (
          if bit_and (reg s.world 2) (nrf24_en_rxaddr_pipe p) == 0
          then s.pipe0_open
          else if p == 0
          then false
          else s.pipe0_open)
  unfolding nrf24l01_close_pipe
  close_pipe-pipe0 p s h =
      let t : ltb 5 p ≡ false = ground arith in
      rw (t, nrf24reg_read-value chip 2 s refl)
        (elim (Bool-cases (bit_and (reg s.world 2) (nrf24_en_rxaddr_pipe p) == 0)) [
          | inl e ↦ rw (e, nrf24reg_read-pipe0) refl
          | inr e ↦ rw (e, disable_pipe-pipe0, nrf24reg_read-pipe0) refl
        ])

  pub open_pipe-Agrees :
      (p : ℕ) (a : List ℕ) (s : Radio W)
      → Agrees reg s
      → Agrees reg (nrf24l01_open_pipe bd spi_fd p a s).1
  unfolding nrf24l01_open_pipe
  open_pipe-Agrees p a s ok = elim (Bool-cases (ltb 5 p)) [
    | inl big ↦ rw big ok
    | inr six ↦
        let h : p ≤ 5 = ground arith in
        Agrees-from reg (nrf24l01_open_pipe bd spi_fd p a s).1 (open_pipe-pipe0 p a s h)
          (open_pipe-regs chip p a s h 0) (open_pipe-regs chip p a s h 2)
          (opened-IsAgreed s.pipe0_open p (reg s.world) h ok)
  ]

  pub close_pipe-Agrees :
      (p : ℤ) (s : Radio W) → Agrees reg s → Agrees reg (nrf24l01_close_pipe bd spi_fd p s).1
  unfolding nrf24l01_close_pipe
  close_pipe-Agrees (negsuc n) s ok = ok
  close_pipe-Agrees (pos p) s ok = elim (Bool-cases (ltb 5 p)) [
    | inl big ↦ rw big ok
    | inr six ↦
        let h : p ≤ 5 = ground arith in
        Agrees-from reg (nrf24l01_close_pipe bd spi_fd (pos p) s).1 (close_pipe-pipe0 p s h)
          (close_pipe-regs chip p s h 0) (close_pipe-regs chip p s h 2)
          (closed-IsAgreed s.pipe0_open p (reg s.world) h ok)
  ]
