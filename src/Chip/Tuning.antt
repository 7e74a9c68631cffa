-- ===== src/Chip/Tuning.antt =====
-- `nrf24l01_set_channel` of src/nrf24l01/nrf24l01.c on the registers.
use knot_hal_source.Prelude.{
  ℕ, ◌≤◌, ◌<◌, ◌≡◌, refl, sym, ◌∙◌, arith, ◌==◌, ==_iff, ◌&&◌, ◌⊎◌, Bool, true, false, inl, inr,
  Bool-cases, ℤ, pos, negsuc, if◌then◌else◌, passes, passes-at, bit_or,
}
use knot_hal_source.Chip.Board.{Board, Radio, clear}
use knot_hal_source.Chip.Access.{nrf24reg_read, nrf24_rf_setup}
use knot_hal_source.Chip.Setup.{
  retune, set_acknowledge, nrf24l01_set_channel, max_channel, constrain, nrf24_ch, nrf24_en_aa_mask,
}
use knot_hal_source.Chip.Registers.{
  IsRegisterFile, update, nrf24reg_read-value, nrf24reg_read-keeps, nrf24reg_write-plain,
  nrf24reg_write-status, command-keeps,
}

ch_table : passes (λ c. nrf24_ch c == c) 128 ≡ true
unfolding passes
ch_table = refl

nrf24_ch-small : (c : ℕ) → c < 128 → nrf24_ch c ≡ c
nrf24_ch-small c h = (==_iff _ _).0 (passes-at (λ c. nrf24_ch c == c) 128 c h ch_table)

aa_table : passes (λ v. bit_or v 63 == 63 && clear v 63 == 0) 64 ≡ true
unfolding passes
aa_table = refl

acknowledge_bits :
    (v : ℕ) (ack : Bool)
    → v < 64
    → (if ack then bit_or v nrf24_en_aa_mask else clear v nrf24_en_aa_mask)
      ≡ (if ack then 63 else 0)
acknowledge_bits v ack h =
    let t : (bit_or v 63 == 63 && clear v 63 == 0) ≡ true =
      passes-at (λ v. bit_or v 63 == 63 && clear v 63 == 0) 64 v h aa_table in
    elim ack [ true ↦ ground (arith, t) | false ↦ ground (arith, t) ]

constrain_inside : (ch max : ℕ) → 10 ≤ ch → ch ≤ max → constrain ch 10 max ≡ ch
constrain_inside ch max low high = ground arith

constrain_outside :
    (ch max : ℕ) → 10 ≤ max → (ch < 10) ⊎ (max < ch) → (ch == constrain ch 10 max) ≡ false
constrain_outside ch max room out = elim out [ inl h ↦ ground arith | inr h ↦ ground arith ]

max_channel_small : (v : ℕ) → max_channel v < 128
max_channel_small v = ground arith

channel_kept :
    (ch max old : ℕ)
    → old < 128
    → max < 128
    → 10 ≤ ch
    → ch ≤ max
    → (regs : ℕ → ℕ) → regs 5 ≡ old
    → (r : ℕ)
    → (if ch == nrf24_ch old then regs else update 5 (nrf24_ch (constrain ch 10 max)) regs) r
      ≡ update 5 ch regs r
channel_kept ch max old small top low high regs e r = ground (
  arith,
  nrf24_ch-small old small,
  nrf24_ch-small ch (omega arith),
  constrain_inside ch max low high,
  ==_iff ch old,
)

-- The bits for the acknowledgement, once the channel is that of `tuned`.
acknowledged :
    (found tuned : ℕ → ℕ) (ack : Bool)
    → ((r : ℕ) → found r ≡ tuned r)
    → tuned 1 < 64
    → (r : ℕ)
    → update 1
        (if ack then bit_or (found 1) nrf24_en_aa_mask else clear (found 1) nrf24_en_aa_mask)
        found
        r
      ≡ update 1 (if ack then 63 else 0) tuned r
acknowledged found tuned ack same small r =
    rw (same 1, same r, acknowledge_bits (tuned 1) ack small) refl

module _ {W : Type 0} {bd : Board W} {spi_fd : ℤ} {reg : W → ℕ → ℕ}
    (chip : IsRegisterFile bd spi_fd reg) where
  pub retune-regs :
      (max ch : ℕ) (s : Radio W)
      → reg (retune bd spi_fd max ch s).1.world ≡ (
          if ch == nrf24_ch (reg s.world 5)
          then reg s.world
          else update 5 (nrf24_ch (constrain ch 10 max)) (reg s.world))
  unfolding retune
  retune-regs max ch s =
      let range : 5 < 32 = omega arith in
      rw (nrf24reg_read-value chip 5 s refl) (elim (Bool-cases (ch == nrf24_ch (reg s.world 5))) [
        | inl e ↦ rw e (nrf24reg_read-keeps chip 5 s (omega arith))
        | inr e ↦
            rw
              (
                e,
                nrf24reg_write-plain chip 5,
                command-keeps chip,
                command-keeps chip,
                nrf24reg_write-status chip,
                nrf24reg_read-keeps chip 5,
              )
              refl
      ])

  pub set_acknowledge-regs :
      (ack : Bool) (s : Radio W)
      → reg (set_acknowledge bd spi_fd ack s).1.world
        ≡ update 1
            (if ack
              then bit_or (reg s.world 1) nrf24_en_aa_mask
              else clear (reg s.world 1) nrf24_en_aa_mask)
            (reg s.world)
  unfolding set_acknowledge
  set_acknowledge-regs ack s =
      rw
        (
          nrf24reg_read-value chip 1 s refl,
          nrf24reg_write-plain chip 1,
          nrf24reg_read-keeps chip 1 s (omega arith),
        )
        refl

  tuned :
      (max ch : ℕ) (ack : Bool) (t : Radio W) (regs : ℕ → ℕ)
      → reg t.world ≡ regs
      → 10 ≤ ch
      → ch ≤ max
      → max < 128
      → regs 1 < 64
      → regs 5 < 128
      → (r : ℕ)
      → reg (set_acknowledge bd spi_fd ack (retune bd spi_fd max ch t).1).1.world r
        ≡ update 1 (if ack then 63 else 0) (update 5 ch regs) r
  tuned max ch ack t regs same low high top aa rf r =
      let kept : (r : ℕ) → reg (retune bd spi_fd max ch t).1.world r ≡ update 5 ch regs r = λ r.
        rw (retune-regs max ch t, same)
          (channel_kept ch max (regs 5) rf top low high regs refl r) in
      rw (set_acknowledge-regs ack (retune bd spi_fd max ch t).1)
        (acknowledged (reg (retune bd spi_fd max ch t).1.world) (update 5 ch regs) ack kept aa r)

  -- On a chip whose registers hold what is written, `nrf24l01_set_channel` with a channel from 10 to
  -- the highest of the data rate returns 0 and leaves the chip on that channel, with the
  -- acknowledgement of all pipes on or off as asked for; no other configuration register changes.
  pub set_channel_tunes :
      (ch : ℕ) (ack : Bool) (s : Radio W)
      → 10 ≤ ch
      → ch ≤ max_channel (reg s.world 6)
      → reg s.world 1 < 64
      → reg s.world 5 < 128
      → ((nrf24l01_set_channel bd spi_fd ch ack s).0 ≡ pos 0)
        × (reg (nrf24l01_set_channel bd spi_fd ch ack s).1.world
            ≡ update 1 (if ack then 63 else 0) (update 5 ch (reg s.world)))
  unfolding nrf24l01_set_channel
  set_channel_tunes ch ack s low high aa rf =
      let inside : (ch == constrain ch 10 (max_channel (reg s.world 6))) ≡ true =
        (==_iff _ _).1 (sym (constrain_inside ch (max_channel (reg s.world 6)) low high)) in
      let start = record (nrf24reg_read bd spi_fd nrf24_rf_setup s).1 {
        world = bd.disable (nrf24reg_read bd spi_fd nrf24_rf_setup s).1.world;
      } in
      let same : reg start.world ≡ reg s.world =
        chip.disables _ ∙ nrf24reg_read-keeps chip 6 s (omega arith) in
      rw (nrf24reg_read-value chip 6 s refl, inside)
        (
          refl,
          λ i r.
              tuned (max_channel (reg s.world 6)) ch ack start (reg s.world) same low high
                (max_channel_small (reg s.world 6)) aa rf r i,
        )

  -- On a chip whose registers hold what is written, a channel below 10 or above the highest of the
  -- data rate is refused: after reading the data rate nothing is sent to the chip.
  set_channel_rejects :
      (ch : ℕ) (ack : Bool) (s : Radio W)
      → (ch < 10) ⊎ (max_channel (reg s.world 6) < ch)
      → nrf24l01_set_channel bd spi_fd ch ack s
        ≡ (negsuc 0, (nrf24reg_read bd spi_fd nrf24_rf_setup s).1)
  unfolding nrf24l01_set_channel
  set_channel_rejects ch ack s out =
      let outside : (ch == constrain ch 10 (max_channel (reg s.world 6))) ≡ false =
        constrain_outside ch (max_channel (reg s.world 6)) (ground arith) out in
      rw (nrf24reg_read-value chip 6 s refl, outside) refl
