-- ===== src/Chip/Hearing.antt =====
-- What the chip hears after `nrf24l01_set_prx` of src/nrf24l01/nrf24l01.c: its CE pin, and the address
-- of pipe 0, which the acknowledgements borrow.
use knot_hal_source.Prelude.{
  ℕ, ◌≡◌, ◌⊎◌, refl, inl, inr, true, false, Bool, ◌==◌, if◌then◌else◌, List, [], ◌∷◌, ℤ, take, ◌∙◌,
  sym, ap,
}
use knot_hal_source.Chip.Board.{Board, Radio}
use knot_hal_source.Chip.Access.{
  nrf24reg_read, nrf24reg_write, nrf24data_write, set_address_pipe, nrf24_aw_rd,
}
use knot_hal_source.Chip.Receive.{restore_pipe0, nrf24l01_set_prx}
use knot_hal_source.Chip.Registers.{IsRegisterFile, nrf24reg_read-value}
use knot_hal_source.Chip.Pipe0.{held, set_address_pipe-held}

-- The address of pipe 0 after a transfer: RX_ADDR_P0 is register 10.
abbrev pub after_address : List ℕ → List ℕ → List ℕ → List ℕ
after_address (cmd ∷ []) bytes address = if cmd == 0x2a then bytes else address
after_address _ bytes address = address

-- The CE pin is high after `enable` and low after `disable`, and the chip holds the address that was
-- written last.
pub record IsReceiver {W : Type 0} (bd : Board W) (spi_fd : ℤ) (ce : W → Bool)
    (address : W → List ℕ) : Type 0 where
  pub enables : (w : W) → ce (bd.enable w) ≡ true
  pub disables : (w : W) → ce (bd.disable w) ≡ false
  pub ce_delays : (us : ℕ) (w : W) → ce (bd.delay_us us w) ≡ ce w
  pub transfers :
      (tx rx : List ℕ) (w : W)
      → address (bd.spi_bus_transfer spi_fd tx rx w).1 ≡ after_address tx rx (address w)
  pub address_enables : (w : W) → address (bd.enable w) ≡ address w
  pub address_delays : (us : ℕ) (w : W) → address (bd.delay_us us w) ≡ address w

-- The bytes of an address that the chip takes, by SETUP_AW
abbrev pub kept_address : (ℕ → ℕ) → List ℕ → List ℕ
kept_address regs a = take (nrf24_aw_rd (regs 3)) (take 5 a)

-- The CE pin is high, and pipe 0 has the address that the driver holds for it, if it is open.
pub record Hears {W : Type 0} (ce : W → Bool) (address : W → List ℕ) (regs : ℕ → ℕ) (s t : Radio W)
    : Type 0 where
  pub receives : ce t.world ≡ true
  pub statics : held t ≡ held s
  pub heard : (s.pipe0_open ≡ false) ⊎ (address t.world ≡ kept_address regs s.pipe0_address)

-- The same, seen from another state with the same address.
pub Hears-from :
    {W : Type 0} {ce : W → Bool} {address : W → List ℕ} {regs new : ℕ → ℕ} {s t : Radio W}
    (u : Radio W)
    → Hears ce address regs s t
    → regs 3 ≡ new 3
    → held s ≡ held u
    → Hears ce address new u t
Hears-from {new = new} {s = s} u h aw same = record {
  receives = h.receives;
  statics = h.statics ∙ same;
  heard = elim h.heard [
    | inl e ↦ inl (sym (ap (λ x. x.0) same) ∙ e)
    | inr e ↦ inr (
        e
        ∙ ap (λ n. take (nrf24_aw_rd n) (take 5 s.pipe0_address)) aw
        ∙ ap (λ x. take (nrf24_aw_rd (new 3)) (take 5 x.1)) same)
  ];
}

module _ {W : Type 0} {bd : Board W} {spi_fd : ℤ} {reg : W → ℕ → ℕ} {ce : W → Bool}
    {address : W → List ℕ} (chip : IsRegisterFile bd spi_fd reg)
    (receiver : IsReceiver bd spi_fd ce address) where
  restore_pipe0-held :
      (on : Bool) (a : List ℕ) (s : Radio W) → held (restore_pipe0 bd spi_fd on a s).1 ≡ held s
  unfolding restore_pipe0 nrf24reg_read nrf24reg_write
  restore_pipe0-held true a s = set_address_pipe-held bd spi_fd 10 a s
  restore_pipe0-held false a s = refl

  restored :
      (on : Bool) (a : List ℕ) (s : Radio W)
      → (on ≡ false)
        ⊎ (address (restore_pipe0 bd spi_fd on a s).1.world ≡ kept_address (reg s.world) a)
  unfolding restore_pipe0 set_address_pipe nrf24data_write
  restored false a s = inl refl
  restored true a s = inr (rw (receiver.transfers, nrf24reg_read-value chip 3 s refl) refl)

  -- what is left of `nrf24l01_set_prx` keeps the address
  listens_on :
      (s : Radio W)
      → address (nrf24l01_set_prx bd spi_fd s).1.world
        ≡ address
            (restore_pipe0 bd spi_fd s.pipe0_open s.pipe0_address
              (record s { world = bd.disable s.world })).1.world
  unfolding nrf24l01_set_prx nrf24reg_read nrf24reg_write
  listens_on s =
      receiver.address_delays 130 _
      ∙ receiver.address_enables _
      ∙ receiver.transfers (32 ∷ []) _ _
      ∙ receiver.transfers (0 ∷ []) _ _
      ∙ receiver.transfers (39 ∷ []) _ _

  pub set_prx-Hears :
      (s : Radio W) → Hears ce address (reg s.world) s (nrf24l01_set_prx bd spi_fd s).1
  unfolding nrf24l01_set_prx nrf24reg_read nrf24reg_write
  set_prx-Hears s =
      let off = record s { world = bd.disable s.world } in
      record {
        receives = receiver.ce_delays 130 _ ∙ receiver.enables _;
        statics = restore_pipe0-held s.pipe0_open s.pipe0_address off;
        heard = elim (restored s.pipe0_open s.pipe0_address off) [
          | inl e ↦ inl e
          | inr e ↦ inr (listens_on s ∙ e ∙ (rw (chip.disables s.world) refl))
        ];
      }
