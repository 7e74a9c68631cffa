-- ===== src/Serial/Line.antt =====
-- The serial line, src/hal/comm/comm_serial_linux.c.
use knot_hal_source.Prelude.{
  ℕ, ◌-◌, ◌^◌, Option, none, some, List, ℤ, negsuc, is_neg, eq_ℤ, if◌then◌else◌, bit_and, bit_or,
}
use knot_hal_source.Comm.Errors.{einval}
use knot_hal_source.Serial.State.{Termios, Flags, Host, enosys}

-- `x &= ~bits` and `x |= bits` of a `tcflag_t`
abbrev clear_bits : ℕ → ℕ → ℕ
clear_bits bits x = bit_and x (2 ^ 32 - 1 - bits)

-- 8 bits, no parity, one stop bit, no flow control, raw. The time is 0.75, of which the member keeps 0.
unfoldable pub raw_options : Flags → Termios → Termios
raw_options f t = record t {
  ispeed = f.b9600;
  ospeed = f.b9600;
  c_cflag =
      bit_or
        (clear_bits f.crtscts
          (bit_or (clear_bits f.csize (clear_bits f.cstopb (clear_bits f.parenb t.c_cflag))) f.cs8))
        (bit_or f.cread f.clocal);
  c_iflag = clear_bits (bit_or (bit_or f.ixon f.ixoff) f.ixany) t.c_iflag;
  c_lflag = clear_bits (bit_or (bit_or (bit_or f.icanon f.echo) f.echoe) f.isig) t.c_lflag;
  c_oflag = clear_bits f.opost t.c_oflag;
  vmin = 2;
  vtime = 0;
}

module _ {W : Type 0} (host : Host W) where
  -- the descriptor, once it is open
  unfoldable pub set_line : ℤ → W → ℤ × W
  set_line fd w =
      let (told, toptions, asked) = host.tcgetattr fd w in
      let options = raw_options host.flags toptions in
      let once = (host.tcsetattr fd host.flags.tcsanow options asked).1 in
      let (err, twice) = host.tcsetattr fd host.flags.tcsaflush options once in
      if is_neg told
      then (negsuc 0, asked)
      else if is_neg err
      then (negsuc 0, twice)
      else (fd, twice)

  unfoldable pub hal_comm_init : Option (List ℕ) → W → ℤ × W
  hal_comm_init none w = (einval, w)
  hal_comm_init (some pathname) w =
      let (fd, opened) = host.open_port pathname w in
      if eq_ℤ fd (negsuc 0) then (negsuc 0, opened) else set_line fd opened

  unfoldable pub hal_comm_close : ℤ → W → ℤ × W
  hal_comm_close sockfd = host.close sockfd

  unfoldable pub hal_comm_read : ℤ → ℕ → W → ℤ × List ℕ × W
  hal_comm_read sockfd count = host.read sockfd count

  unfoldable pub hal_comm_write : ℤ → List ℕ → W → ℤ × W
  hal_comm_write sockfd buffer = host.write sockfd buffer

-- The other functions of hal/comm.h are not for a serial line.
unfoldable pub hal_comm_deinit : ℤ
hal_comm_deinit = enosys

unfoldable pub hal_comm_socket : ℕ → ℕ → ℤ
hal_comm_socket domain protocol = enosys

unfoldable pub hal_comm_listen : ℤ → ℤ
hal_comm_listen sockfd = enosys

unfoldable pub hal_comm_accept : ℤ → ℤ
hal_comm_accept sockfd = enosys

unfoldable pub hal_comm_connect : ℤ → ℤ
hal_comm_connect sockfd = enosys
