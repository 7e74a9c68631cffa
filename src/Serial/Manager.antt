-- ===== src/Serial/Manager.antt =====
-- src/seriald/manager.c: messages from the serial line to knotd, and back. A `char` is unsigned, as on the
-- Raspberry Pi.
use knot_hal_source.Prelude.{
  ℕ, zero, suc, ◌+◌, ◌-◌, ◌==◌, ltb, leb, not, Bool, true, false, Option, none, some, List, [], ◌∷◌,
  ℤ, pos, negsuc, is_neg, eq_ℤ, if◌then◌else◌, get_or, take, write_at,
}
use knot_hal_source.Prelude.Outcome.{Outcome, done, bad_access, no_fuel}
use knot_hal_source.Chip.Spi.{minus}
use knot_hal_source.Serial.State.{Host, Server, packet_size_max, eagain_number}
use knot_hal_source.Serial.Line.{hal_comm_init, hal_comm_close, hal_comm_read, hal_comm_write}

-- "knot"
abbrev pub knotd_unix_address : List ℕ
knotd_unix_address = 0x6b ∷ 0x6e ∷ 0x6f ∷ 0x74 ∷ []

module _ {W : Type 0} (host : Host W) where
  unfoldable pub connect_unix : W → ℤ × W
  connect_unix w =
      let (sock, created) = host.socket w in
      let (err, tried) = host.connect sock knotd_unix_address created in
      if is_neg sock
      then (minus (host.errno created), created)
      else if eq_ℤ err (negsuc 0)
      then (minus (host.errno tried), tried)
      else (sock, tried)

  unfoldable pub unix_io_destroy : Server W → Server W
  unix_io_destroy s = record s { session = record s.session { unix_id = 0; unix_io = none } }

  -- to the serial line, what knotd has sent; `hung_up` is one of the three conditions of an end
  unfoldable pub send_serial : ℤ → ℤ → List ℕ → W → Bool × W
  send_serial serial_sock readbytes_unix buffer w =
      let (sent, written) = hal_comm_write host serial_sock buffer w in
      if is_neg readbytes_unix then (false, w) else (not (is_neg sent), written)

  unfoldable pub unix_io_watch : ℤ → Bool → Server W → Outcome (Server W) Bool
  unix_io_watch unix_sock true s = done false s
  unix_io_watch unix_sock false s = elim s.session.serial_io [
    | none ↦ bad_access
    | some serial_sock ↦
        let (readbytes_unix, buffer, seen) = host.read unix_sock packet_size_max s.world in
        let (stays, w) = send_serial serial_sock readbytes_unix buffer seen in
        done stays (record s { world = w })
  ]

  unfoldable pub serial_io_destroy : Server W → Server W
  serial_io_destroy s = elim s.session.serial_io [
    | none ↦ s
    | some io ↦
        if ltb 0 s.session.serial_id
        then record s { world = host.unref io (host.shutdown io s.world) }
        else s
  ]

  -- The loop until the message is whole; `none` drops what has come in. A reading that would block and
  -- one that gives nothing are tried again.
  unfoldable pub keep_reading : ℕ → ℤ → ℕ → ℕ → List ℕ → W → Outcome W (Option (List ℕ))
  keep_reading zero sock msg_size offset buffer w = no_fuel
  keep_reading (suc fuel) sock msg_size offset buffer w =
      let (nbytes, bytes, seen) = hal_comm_read host sock (packet_size_max - offset) w in
      let again = keep_reading fuel sock msg_size offset buffer seen in
      let more : ℕ → Outcome W (Option (List ℕ)) =
        λ n. keep_reading fuel sock msg_size (offset + n) (write_at buffer offset bytes) seen in
      if leb msg_size offset
      then done (some buffer) w
      else if leb packet_size_max offset
      then done none w
      else elim nbytes [
        | pos n ↦ if n == 0 then again else more n
        | negsuc n ↦ if host.errno seen == eagain_number then again else done none seen
      ]

  -- the message to knotd
  unfoldable pub write_unix : ℕ → Option (List ℕ) → Server W → Outcome (Server W) Bool
  write_unix msg_size none s = done true s
  write_unix msg_size (some buffer) s = elim s.session.unix_io [
    | none ↦ bad_access
    | some unixfd ↦
        let (err, w) = host.write unixfd (take msg_size buffer) s.world in
        done (not (is_neg err)) (record s { world = w })
  ]

  -- a first part of a message
  unfoldable pub read_message : ℕ → ℤ → ℕ → List ℕ → Server W → Outcome (Server W) Bool
  read_message fuel sock nbytes buffer s =
      let msg_size = get_or buffer 1 0 + 2 in
      elim (keep_reading fuel sock msg_size nbytes buffer s.world) [
        | done whole w ↦ write_unix msg_size whole (record s { world = w })
        | bad_access ↦ bad_access
        | no_fuel ↦ no_fuel
      ]

  unfoldable pub serial_io_watch : ℕ → ℤ → Bool → Server W → Outcome (Server W) Bool
  serial_io_watch fuel sock true s =
      done false (record s { session = record s.session { serial_id = 0 } })
  serial_io_watch fuel sock false s =
      let (nbytes, bytes, seen) = hal_comm_read host sock packet_size_max s.world in
      elim nbytes [
        | pos n ↦ read_message fuel sock n (write_at host.frame 0 bytes) (record s { world = seen })
        | negsuc n ↦ done false (record s { world = seen })
      ]

  -- the two watches, once the line is open and knotd is there
  unfoldable pub watch_both : ℤ → ℤ → W → Server W
  watch_both fd unixfd w =
      let line = host.set_close_on_unref fd (host.set_nonblock fd w) in
      let knotd = host.set_close_on_unref unixfd (host.set_nonblock unixfd line) in
      let (unix_id, watched) = host.add_watch unixfd knotd in
      let (serial_id, both) = host.add_watch fd (host.unref unixfd watched) in
      record {
        commfd = fd;
        session = record {
          serial_id = serial_id;
          unix_id = unix_id;
          unix_io = some unixfd;
          serial_io = some fd;
        };
        world = host.unref fd both;
      }

  -- `return FALSE` is a zero.
  unfoldable pub serial_start : List ℕ → Server W → ℤ × Server W
  serial_start pathname s =
      let (fd, opened) = hal_comm_init host (some pathname) s.world in
      let (unixfd, tried) = connect_unix opened in
      if is_neg fd
      then (minus (host.errno opened), record s { commfd = fd; world = opened })
      else if is_neg unixfd
      then (pos 0, record s { commfd = fd; world = (hal_comm_close host fd tried).1 })
      else (pos 0, watch_both fd unixfd tried)

  unfoldable pub serial_stop : Server W → Server W
  serial_stop s = record s { world = (hal_comm_close host s.commfd s.world).1 }

  unfoldable pub manager_start : Option (List ℕ) → Server W → ℤ × Server W
  manager_start none s = (pos 0, s)
  manager_start (some serial) s = serial_start serial s

  unfoldable pub manager_stop : Server W → Server W
  manager_stop = serial_stop
