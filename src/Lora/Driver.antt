-- ===== src/Lora/Driver.antt =====
-- The start of the chip, its interrupts and its settings, in src/lora/sx127x.c.
use knot_hal_source.Prelude.{
  ℕ, zero, suc, ◌+◌, ◌-◌, ◌*◌, ◌%◌, ◌^◌, ◌==◌, ltb, none, some, List, [], ◌∷◌, ℤ, if◌then◌else◌,
  bit_and, bit_or, get_elem?, get_or, set, length, overlay,
}
use knot_hal_source.Prelude.Outcome.{Outcome, done, bad_access, no_fuel}
use knot_hal_source.Lora.State.{
  Wires, Lora, us2osticks, ms2osticks, reg_fifo, reg_op_mode, lora_reg_fifo_addr_ptr,
  lora_reg_fifo_rx_current_addr, lora_reg_irq_flags_mask, lora_reg_irq_flags, lora_reg_rx_nb_bytes,
  lora_reg_pkt_snr_value, lora_reg_pkt_rssi_value, lora_reg_modem_config1, lora_reg_payload_length,
  lora_reg_rssi_wideband, fsk_reg_payload_length, fsk_reg_irq_flags1, fsk_reg_irq_flags2,
  opmode_lora_bit, opmode_sleep, opmode_rx, irq_lora_rxtout, irq_lora_rxdone, irq_lora_txdone,
  rxmode_rssi,
}
use knot_hal_source.Lora.Access.{write_reg, write_regs, read_reg, read_buf, opmode}
use knot_hal_source.Lora.Receive.{rxlora}

-- the ticks by which the end of a packet is told late, by the spreading factor
abbrev pub lora_rxdone_fixup : List ℕ
lora_rxdone_fixup =
    us2osticks 0
    ∷ us2osticks 0
    ∷ us2osticks 1648
    ∷ us2osticks 3265
    ∷ us2osticks 7049
    ∷ us2osticks 13641
    ∷ us2osticks 31189
    ∷ []

-- a difference of two `ostime_t`
abbrev pub back : ℕ → ℕ → ℕ
back now ticks = (now + 2 ^ 32 - ticks) % 2 ^ 32

pub record Received : Type 0 where
  pub buffer : List ℕ
  pub len_buffer : ℕ

-- The new settings are those of the arguments; the rest of `LMIC` stays.
unfoldable pub radio_set_config : {W : Type 0} → ℕ → ℤ → ℕ → ℕ → ℕ → ℕ → ℕ → Lora W → Lora W
radio_set_config freq txpow sf bw cr ih no_crc s = record s {
  lmic = record s.lmic {
    freq = freq;
    txpow = txpow;
    sf = sf;
    bw = bw;
    cr = cr;
    ih = ih;
    no_crc = no_crc;
  };
}

module _ {W : Type 0} (hal : Wires W) where
  unfoldable pub radio_sleep : Lora W → Lora W
  radio_sleep s = record s {
    world = hal.hal_enable_irqs (opmode hal opmode_sleep (hal.hal_disable_irqs s.world));
  }

  unfoldable pub radio_irq_flag : ℕ → Lora W → ℕ × Lora W
  radio_irq_flag mask s =
      let (flags, w) = read_reg hal lora_reg_irq_flags s.world in
      (bit_and flags mask, record s { world = w })

  -- The loop until the chip receives.
  unfoldable pub wait_rx : ℕ → W → Outcome W (Unit {0})
  wait_rx zero w = no_fuel
  wait_rx (suc fuel) w =
      let (mode, seen) = read_reg hal reg_op_mode w in
      let again = wait_rx fuel seen in if bit_and mode 7 == opmode_rx then done tt seen else again

  -- The loop until two readings of the noise differ in the last bit; the first of them counts.
  unfoldable pub noise_bit : ℕ → W → Outcome W ℕ
  noise_bit zero w = no_fuel
  noise_bit (suc fuel) w =
      let (first, once) = read_reg hal lora_reg_rssi_wideband w in
      let (second, twice) = read_reg hal lora_reg_rssi_wideband once in
      let again = noise_bit fuel twice in
      if bit_and first 1 == bit_and second 1 then again else done (bit_and first 1) twice

  unfoldable pub noise_byte : ℕ → ℕ → ℕ → W → Outcome W ℕ
  noise_byte fuel zero byte w = done byte w
  noise_byte fuel (suc n) byte w = elim (noise_bit fuel w) [
    | done b seen ↦ noise_byte fuel n (bit_or (byte * 2 % 256) b) seen
    | bad_access ↦ bad_access
    | no_fuel ↦ no_fuel
  ]

  -- the bytes of `randbuf` from index `i` on, `n` of them
  unfoldable pub fill_random : ℕ → ℕ → ℕ → List ℕ → W → Outcome W (List ℕ)
  fill_random fuel i zero randbuf w = done randbuf w
  fill_random fuel i (suc n) randbuf w = elim (noise_byte fuel 8 (get_or randbuf i 0) w) [
    | done byte seen ↦ fill_random fuel (suc i) n (set randbuf i byte) seen
    | bad_access ↦ bad_access
    | no_fuel ↦ no_fuel
  ]

  -- a wait of so many ticks from now on
  unfoldable pub pause : ℕ → W → W
  pause ticks w =
      let (now, asked) = hal.hal_ticks w in hal.hal_wait_until ((now + ticks) % 2 ^ 32) asked

  unfoldable pub reset_radio : W → W
  reset_radio w =
      let high = pause (ms2osticks 1) (hal.hal_pin_rst 1 (hal.hal_disable_irqs w)) in
      opmode hal opmode_sleep (pause (ms2osticks 5) (hal.hal_pin_rst 2 high))

  unfoldable pub seed : ℕ → List ℕ → W → Outcome W (List ℕ)
  seed fuel randbuf w = elim (wait_rx fuel w) [
    | done _ listening ↦ fill_random fuel 1 15 randbuf listening
    | bad_access ↦ bad_access
    | no_fuel ↦ no_fuel
  ]

  unfoldable pub radio_init : ℕ → Lora W → Outcome (Lora W) (Unit {0})
  radio_init fuel s = elim (rxlora hal rxmode_rssi s.lmic (reset_radio s.world)) [
    | none ↦ bad_access
    | some started ↦ elim (seed fuel s.randbuf started) [
      | done randbuf seeded ↦ done tt (record s {
        randbuf = set randbuf 0 16;
        world = hal.hal_enable_irqs (opmode hal opmode_sleep seeded);
      })
      | bad_access ↦ bad_access
      | no_fuel ↦ no_fuel
    ]
  ]

  -- The length that the chip tells, the bytes of the packet, and the buffer with them; an access outside
  -- of the buffer if it is too short.
  unfoldable pub take_packet : ℕ → Received → W → Outcome W Received
  take_packet len r w =
      let (bytes, taken) = read_buf hal reg_fifo len w in
      if ltb (length r.buffer) len
      then bad_access
      else done (record { buffer = overlay r.buffer bytes; len_buffer = len }) taken

  unfoldable pub packet_length : W → ℕ × W
  packet_length w =
      let (config, seen) = read_reg hal lora_reg_modem_config1 w in
      if bit_and config 0x04 == 0
      then read_reg hal lora_reg_rx_nb_bytes seen
      else read_reg hal lora_reg_payload_length seen

  -- the packet, from where the chip has put it in its memory
  unfoldable pub fetch_packet : Received → W → Outcome W Received
  fetch_packet r w =
      let (len, sized) = packet_length w in
      let (at, seen) = read_reg hal lora_reg_fifo_rx_current_addr sized in
      take_packet len r (write_reg hal lora_reg_fifo_addr_ptr at seen)

  unfoldable pub lora_rxdone : ℕ → Received → Lora W → Outcome (Lora W) Received
  lora_rxdone now r s =
      elim (if s.lmic.bw == 0 then get_elem? lora_rxdone_fixup s.lmic.sf else some 0) [
        | none ↦ bad_access
        | some fixup ↦ elim (fetch_packet r s.world) [
          | done got taken ↦
              let (snr, w) = read_reg hal lora_reg_pkt_snr_value taken in
              let (level, told) = read_reg hal lora_reg_pkt_rssi_value w in
              done got (record s {
                lmic = record s.lmic {
                  rxtime = back now fixup;
                  snr = snr;
                  rssi = (level + (256 - 61)) % 256;
                };
                world = told;
              })
          | bad_access ↦ bad_access
          | no_fuel ↦ no_fuel
        ]
      ]

  -- what the flags of the LoRa modem tell
  unfoldable pub lora_flags : ℕ → ℕ → Received → Lora W → Outcome (Lora W) Received
  lora_flags flags now r s =
      if bit_and flags irq_lora_txdone == 0
      then (if bit_and flags irq_lora_rxdone == 0
          then done (if bit_and flags irq_lora_rxtout == 0 then r else record r { len_buffer = 0 })
              s
          else lora_rxdone now r s)
      else done r (record s { lmic = record s.lmic { txend = back now (us2osticks 43) } })

  unfoldable pub lora_interrupt : ℕ → Received → Lora W → Outcome (Lora W) Received
  lora_interrupt now r s =
      let (flags, w) = read_reg hal lora_reg_irq_flags s.world in
      elim (lora_flags flags now r (record s { world = w })) [
        | done got t ↦ done got (record t {
          world =
              write_regs hal ((lora_reg_irq_flags_mask, 0xff) ∷ (lora_reg_irq_flags, 0xff) ∷ [])
                t.world;
        })
        | bad_access ↦ bad_access
        | no_fuel ↦ no_fuel
      ]

  unfoldable pub fsk_rxdone : ℕ → Received → Lora W → Outcome (Lora W) Received
  fsk_rxdone now r s =
      let (len, w) = read_reg hal fsk_reg_payload_length s.world in
      elim (take_packet len r w) [
        | done got taken ↦
            done got
              (record s { lmic = record s.lmic { rxtime = now; snr = 0; rssi = 0 }; world = taken })
        | bad_access ↦ bad_access
        | no_fuel ↦ no_fuel
      ]

  -- An interrupt with none of the flags runs into a loop that never ends: no fuel is enough.
  unfoldable pub fsk_interrupt : ℕ → Received → Lora W → Outcome (Lora W) Received
  fsk_interrupt now r s =
      let (flags1, once) = read_reg hal fsk_reg_irq_flags1 s.world in
      let (flags2, twice) = read_reg hal fsk_reg_irq_flags2 once in
      if bit_and flags2 0x08 == 0
      then (if bit_and flags2 0x04 == 0
          then (if bit_and flags1 0x04 == 0
              then no_fuel
              else done (record r { len_buffer = 0 }) (record s { world = twice }))
          else fsk_rxdone now r (record s { world = twice }))
      else done r (record s { lmic = record s.lmic { txend = now }; world = twice })

  unfoldable pub radio_irq_handler : Received → Lora W → Outcome (Lora W) Received
  radio_irq_handler r s =
      let (now, asked) = hal.hal_ticks s.world in
      let (mode, seen) = read_reg hal reg_op_mode asked in
      let t = record s { world = seen } in
      elim (if bit_and mode opmode_lora_bit == 0
        then fsk_interrupt now r t
        else lora_interrupt now r t) [
          | done got u ↦ done got (record u { world = opmode hal opmode_sleep u.world })
          | bad_access ↦ bad_access
          | no_fuel ↦ no_fuel
        ]
