-- ===== src/Serial/State.antt =====
-- What src/seriald/manager.c and src/hal/comm/comm_serial_linux.c call, and the daemon's static variable
-- with its session.
use knot_hal_source.Prelude.{ℕ, Option, none, List, ℤ, negsuc}

-- The members of `struct termios` that the file changes
pub record Termios : Type 0 where
  pub c_iflag : ℕ
  pub c_oflag : ℕ
  pub c_cflag : ℕ
  pub c_lflag : ℕ
  pub vmin : ℕ
  pub vtime : ℕ
  pub ispeed : ℕ
  pub ospeed : ℕ

-- The constants of termios.h
pub record Flags : Type 0 where
  pub parenb : ℕ
  pub cstopb : ℕ
  pub csize : ℕ
  pub cs8 : ℕ
  pub crtscts : ℕ
  pub cread : ℕ
  pub clocal : ℕ
  pub ixon : ℕ
  pub ixoff : ℕ
  pub ixany : ℕ
  pub icanon : ℕ
  pub echo : ℕ
  pub echoe : ℕ
  pub isig : ℕ
  pub opost : ℕ
  pub b9600 : ℕ
  pub tcsanow : ℕ
  pub tcsaflush : ℕ

-- The calls of the system and of GLib, over a world of their own. A channel is known by its descriptor.
-- `frame` holds the 512 bytes of an uninitialised buffer.
pub record Host (W : Type 0) : Type 0 where
  pub open_port : List ℕ → W → ℤ × W
  pub tcgetattr : ℤ → W → ℤ × Termios × W
  pub tcsetattr : ℤ → ℕ → Termios → W → ℤ × W
  pub read : ℤ → ℕ → W → ℤ × List ℕ × W
  pub write : ℤ → List ℕ → W → ℤ × W
  pub close : ℤ → W → ℤ × W
  pub socket : W → ℤ × W
  pub connect : ℤ → List ℕ → W → ℤ × W
  pub errno : W → ℕ
  pub set_nonblock : ℤ → W → W
  pub set_close_on_unref : ℤ → W → W
  pub add_watch : ℤ → W → ℕ × W
  pub unref : ℤ → W → W
  pub shutdown : ℤ → W → W
  pub flags : Flags
  pub frame : List ℕ

-- `struct session`
pub record Session : Type 0 where
  pub serial_id : ℕ
  pub unix_id : ℕ
  pub unix_io : Option ℤ
  pub serial_io : Option ℤ

-- as `g_new0` gives it
abbrev pub new_session : Session
new_session = record { serial_id = 0; unix_id = 0; unix_io = none; serial_io = none }

pub record Server (W : Type 0) : Type 0 where
  pub commfd : ℤ
  pub session : Session
  pub world : W

abbrev pub packet_size_max : ℕ
packet_size_max = 512

abbrev pub eagain_number : ℕ
eagain_number = 11

abbrev pub enosys : ℤ
enosys = negsuc 37
