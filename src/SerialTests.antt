-- ===== src/SerialTests.antt =====
-- A serial line that gives the pieces of a list, and the theorems of src/seriald/manager.c at it.
use knot_hal_source.Prelude.{
  ℕ, ◌-◌, ◌==◌, if◌then◌else◌, ◌≡◌, refl, arith, not, false, some, List, [], ◌∷◌, ◌++◌, ℤ, pos,
  is_neg, length, replicate,
}
use knot_hal_source.Prelude.Outcome.{done, bad_access, no_fuel}
use knot_hal_source.Serial.State.{Host, Server}
use knot_hal_source.Serial.Line.{hal_comm_read}
use knot_hal_source.Serial.Manager.{serial_io_watch, unix_io_destroy}
use knot_hal_source.Serial.Forwarding.{piece, nothing, whole, Incoming, serial_io_watch-forwards}
use knot_hal_source.Serial.Failing.{serial_io_watch-after_hangup, serial_io_watch-silent}

-- the pieces to come, and what knotd has got
record Wire : Type 0 where
  pending : List (List ℕ)
  sent : List ℕ

abbrev next_piece : List (List ℕ) → ℤ × List ℕ × List (List ℕ)
next_piece [] = (pos 0, [], [])
next_piece (p ∷ ps) = (pos (length p), p, ps)

abbrev wire : Host Wire
wire = record {
  open_port = λ path w. (pos 3, w);
  tcgetattr = λ fd w. (
    pos 0,
    record {
      c_iflag = 0;
      c_oflag = 0;
      c_cflag = 0;
      c_lflag = 0;
      vmin = 0;
      vtime = 0;
      ispeed = 0;
      ospeed = 0;
    },
    w,
  );
  tcsetattr = λ fd action options w. (pos 0, w);
  read = λ fd size w.
      let (n, bytes, rest) = next_piece w.pending in (n, bytes, record w { pending = rest });
  write = λ fd bytes w. (pos (length bytes), record w { sent = bytes });
  close = λ fd w. (pos 0, w);
  socket = λ w. (pos 4, w);
  connect = λ fd path w. (pos 0, w);
  errno = λ w. 0;
  set_nonblock = λ fd w. w;
  set_close_on_unref = λ fd w. w;
  add_watch = λ fd w. (1, w);
  unref = λ fd w. w;
  shutdown = λ fd w. w;
  flags = record {
    parenb = 256;
    cstopb = 64;
    csize = 48;
    cs8 = 48;
    crtscts = 2147483648;
    cread = 128;
    clocal = 2048;
    ixon = 1024;
    ixoff = 4096;
    ixany = 2048;
    icanon = 2;
    echo = 8;
    echoe = 16;
    isig = 1;
    opost = 1;
    b9600 = 13;
    tcsanow = 0;
    tcsaflush = 2;
  };
  frame = replicate 512 0;
}

abbrev head_piece : List ℕ
head_piece = 1 ∷ 3 ∷ 7 ∷ []

abbrev tail_piece : List ℕ
tail_piece = 8 ∷ 9 ∷ []

abbrev serving : List (List ℕ) → Server Wire
serving pieces = record {
  commfd = pos 3;
  session = record { serial_id = 1; unix_id = 2; unix_io = some (pos 4); serial_io = some (pos 3) };
  world = record { pending = pieces; sent = [] };
}

abbrev emptied : Wire
emptied = record { pending = []; sent = [] }

-- a reading without a byte between the two pieces
comes_in :
    Incoming wire
      (pos 3)
      9
      head_piece
      tail_piece
      (serving (head_piece ∷ [] ∷ tail_piece ∷ [])).world
      emptied
unfolding hal_comm_read
comes_in = record {
  headed = omega arith;
  byte = omega arith;
  sized = refl;
  after_first = record { pending = [] ∷ tail_piece ∷ []; sent = [] };
  got = refl;
  rounds = 2;
  others =
      nothing 1 3 tail_piece [] _ (record { pending = tail_piece ∷ []; sent = [] }) emptied
        (omega arith) refl
        (piece 0 3 tail_piece [] _ emptied emptied (omega arith) (omega arith) refl
          (whole emptied));
  enough = omega arith;
}

serial_io_watch-forwards_example :
    serial_io_watch wire 9 (pos 3) false (serving (head_piece ∷ [] ∷ tail_piece ∷ []))
    ≡ done
        (not (is_neg (wire.write (pos 4) (head_piece ++ tail_piece) emptied).0))
        (record (serving (head_piece ∷ [] ∷ tail_piece ∷ [])) {
          world = (wire.write (pos 4) (head_piece ++ tail_piece) emptied).1;
        })
serial_io_watch-forwards_example =
    serial_io_watch-forwards wire (pos 3) refl (pos 4) 9 head_piece tail_piece
      (serving (head_piece ∷ [] ∷ tail_piece ∷ [])) emptied refl comes_in

serial_io_watch-after_hangup_example :
    serial_io_watch wire 9
      (pos 3)
      false
      (unix_io_destroy wire (serving (head_piece ∷ [] ∷ tail_piece ∷ [])))
    ≡ bad_access
serial_io_watch-after_hangup_example =
    serial_io_watch-after_hangup wire (pos 3) refl 9 head_piece tail_piece
      (serving (head_piece ∷ [] ∷ tail_piece ∷ [])) emptied comes_in

-- a line that is closed after the first piece
abbrev closed : Host Wire
closed = record wire {
  read = λ fd size w.
      if size == 512
      then (pos 3, head_piece, record w { pending = [] })
      else (pos 0, [], record w { pending = [] });
}

stays_silent : (w : Wire) → (hal_comm_read closed (pos 3) (512 - 3) w).0 ≡ pos 0
unfolding hal_comm_read
stays_silent w = refl

got_head : hal_comm_read closed (pos 3) 512 (serving []).world ≡ (pos 3, head_piece, emptied)
unfolding hal_comm_read
got_head = refl

serial_io_watch-silent_example : serial_io_watch closed 9 (pos 3) false (serving []) ≡ no_fuel
serial_io_watch-silent_example =
    serial_io_watch-silent closed (pos 3) refl 9 head_piece (serving []) emptied (omega arith)
      (omega arith) (omega arith) got_head stays_silent
