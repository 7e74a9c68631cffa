-- ===== src/Serial/Failing.antt =====
-- Where the handlers of src/seriald/manager.c go wrong: knotd has gone, or the line gives nothing any more.
use knot_hal_source.Prelude.{
  ℕ, zero, suc, ◌+◌, ◌-◌, ◌≤◌, ◌<◌, ◌≡◌, refl, ap, ◌∙◌, arith, leb, false, List, ℤ, pos, get_or,
  length, overlay,
}
use knot_hal_source.Prelude.Outcome.{bad_access, no_fuel}
use knot_hal_source.Serial.State.{Host, Server, packet_size_max}
use knot_hal_source.Serial.Line.{hal_comm_read}
use knot_hal_source.Serial.Manager.{
  keep_reading, write_unix, read_message, unix_io_destroy, serial_io_watch,
}
use knot_hal_source.Serial.Forwarding.{
  Incoming, get_or-overlay, serial_io_watch-reads, serial_io_watch-whole,
}

module _ {W : Type 0} (host : Host W) (sock : ℤ) (frame : length host.frame ≡ 512) where
  -- After the watch of knotd's socket has been destroyed, a whole message over the serial line makes the
  -- handler of the line use a channel that is not there.
  pub serial_io_watch-after_hangup :
      (fuel : ℕ) (first rest : List ℕ) (s : Server W) (u : W)
      → Incoming host sock fuel first rest s.world u
      → serial_io_watch host fuel sock false (unix_io_destroy host s) ≡ bad_access
  unfolding write_unix unix_io_destroy
  serial_io_watch-after_hangup fuel first rest s u m =
      let (b, e, all) =
        serial_io_watch-whole host sock frame fuel first rest (unix_io_destroy host s) u m in
      e

  keep_reading-silent :
      (fuel size offset : ℕ) (buffer : List ℕ) (w : W)
      → offset < size
      → offset < 512
      → ((v : W) → (hal_comm_read host sock (packet_size_max - offset) v).0 ≡ pos 0)
      → keep_reading host fuel sock size offset buffer w ≡ no_fuel
  unfolding keep_reading
  keep_reading-silent zero size offset buffer w inside room silent = refl
  keep_reading-silent (suc fuel) size offset buffer w inside room silent =
      let partial : leb size offset ≡ false = ground arith in
      let space : leb 512 offset ≡ false = ground arith in
      rw (partial, space, silent w)
        (keep_reading-silent fuel size offset buffer _ inside room silent)

  read_message-silent :
      (fuel n size : ℕ) (buffer : List ℕ) (s : Server W)
      → get_or buffer 1 0 + 2 ≡ size
      → keep_reading host fuel sock size n buffer s.world ≡ no_fuel
      → read_message host fuel sock n buffer s ≡ no_fuel
  unfolding read_message
  read_message-silent fuel n size buffer s header e = rw (read_message, header, e) refl

  -- If a first part of a message has come in, with its length but not all of it, and the line gives
  -- nothing from then on, as one that is closed does, then no fuel is enough: the handler reads for ever.
  pub serial_io_watch-silent :
      (fuel : ℕ) (first : List ℕ) (s : Server W) (v : W)
      → 2 ≤ length first
      → length first < get_or first 1 0 + 2
      → get_or first 1 0 < 256
      → hal_comm_read host sock 512 s.world ≡ (pos (length first), first, v)
      → ((w : W) → (hal_comm_read host sock (packet_size_max - length first) w).0 ≡ pos 0)
      → serial_io_watch host fuel sock false s ≡ no_fuel
  serial_io_watch-silent fuel first s v headed partial byte got silent =
      let buffer = overlay host.frame first in
      let header : get_or buffer 1 0 ≡ get_or first 1 0 =
        get_or-overlay host.frame first 1 (omega arith) (omega (arith, frame)) in
      serial_io_watch-reads host sock fuel (length first) first s v got
      ∙ read_message-silent fuel (length first) (get_or first 1 0 + 2) buffer
          (record s { world = v }) (ap (λ k. k + 2) header)
          (keep_reading-silent fuel (get_or first 1 0 + 2) (length first) buffer v partial
            (omega arith) silent)
