-- ===== src/Serial/Forwarding.antt =====
-- A message that comes in pieces over the serial line, in `serial_io_watch` of src/seriald/manager.c.
use mathlib.Core.List.{append_assoc, append-nil}
use knot_hal_source.Prelude.{
  ℕ, zero, suc, ◌+◌, ◌-◌, ◌≤◌, ◌<◌, ◌≡◌, refl, sym, ap, ◌∙◌, arith, ◌==◌, leb, not, true, false,
  some, List, [], ◌∷◌, ◌++◌, ℤ, pos, negsuc, is_neg, get_or, length, length-append, length-write_at,
  take, length-overlay, take-overlay, overlay, take-write_at, write_at,
}
use knot_hal_source.Prelude.Outcome.{done}
use knot_hal_source.Serial.State.{Host, Server, packet_size_max}
use knot_hal_source.Serial.Line.{hal_comm_read}
use knot_hal_source.Serial.Manager.{keep_reading, write_unix, read_message, serial_io_watch}

-- The readings that bring the rest of a message of `size` bytes from `offset` on, in so many rounds: each
-- gives a piece of it, nothing, or that it would block.
pub data Arrives {W : Type 0} (host : Host W) (sock : ℤ) (size : ℕ)
    : ℕ → ℕ → List ℕ → W → W → Type 0 where
  whole : (w : W) → Arrives host sock size 0 size [] w w
  piece :
      (rounds offset : ℕ) (xs rest : List ℕ) (w v u : W)
      → offset < size
      → 0 < length xs
      → hal_comm_read host sock (packet_size_max - offset) w ≡ (pos (length xs), xs, v)
      → Arrives host sock size rounds (offset + length xs) rest v u
      → Arrives host sock size (suc rounds) offset (xs ++ rest) w u
  nothing :
      (rounds offset : ℕ) (rest bytes : List ℕ) (w v u : W)
      → offset < size
      → hal_comm_read host sock (packet_size_max - offset) w ≡ (pos 0, bytes, v)
      → Arrives host sock size rounds offset rest v u
      → Arrives host sock size (suc rounds) offset rest w u
  later :
      (rounds offset err : ℕ) (rest bytes : List ℕ) (w v u : W)
      → offset < size
      → hal_comm_read host sock (packet_size_max - offset) w ≡ (negsuc err, bytes, v)
      → host.errno v ≡ 11
      → Arrives host sock size rounds offset rest v u
      → Arrives host sock size (suc rounds) offset rest w u

module _ {W : Type 0} (host : Host W) (sock : ℤ) (size : ℕ) (small : size ≤ 257) where
  -- one round that brings a piece
  keep_reading-more :
      (fuel offset n : ℕ) (bytes buffer : List ℕ) (w v : W)
      → offset < size
      → 0 < n
      → hal_comm_read host sock (packet_size_max - offset) w ≡ (pos n, bytes, v)
      → keep_reading host (suc fuel) sock size offset buffer w
        ≡ keep_reading host fuel sock size (offset + n) (write_at buffer offset bytes) v
  unfolding keep_reading
  keep_reading-more fuel offset n bytes buffer w v inside some_come got =
      let partial : leb size offset ≡ false = ground arith in
      let space : leb 512 offset ≡ false = ground arith in
      let more : (n == 0) ≡ false = ground arith in rw (partial, space, got, more, got) refl

  keep_reading-Arrives :
      (fuel : ℕ) {rounds offset : ℕ} {rest : List ℕ} (buffer : List ℕ) {w u : W}
      → Arrives host sock size rounds offset rest w u
      → rounds < fuel
      → length buffer ≡ 512
      → offset + length rest ≡ size
      → (b : List ℕ) × (keep_reading host fuel sock size offset buffer w ≡ done (some b) u)
        × (take size b ≡ take offset buffer ++ rest)
  unfolding keep_reading
  keep_reading-Arrives zero buffer a enough room fits = absurd (omega arith)
  keep_reading-Arrives (suc fuel) buffer (whole v) enough room fits =
      let ready : leb size size ≡ true = ground arith in
      (buffer, rw ready refl, sym (append-nil (take size buffer)))
  keep_reading-Arrives (suc fuel) buffer (piece r o xs ys w v u inside some_come got a) enough room
        fits =
      let size_of = length-append xs ys in
      let (b, e, f) =
        keep_reading-Arrives fuel (write_at buffer o xs) a (omega arith)
          (length-write_at buffer o xs ∙ room) (omega (arith, fits, size_of)) in
      let put =
        take-write_at buffer o xs (o + length xs) (omega (arith, fits, size_of, room)) refl in
      (
        b,
        keep_reading-more fuel o (length xs) xs buffer w v inside some_come got ∙ e,
        f ∙ ap (λ z. z ++ ys) put ∙ append_assoc (take o buffer) xs ys,
      )
  keep_reading-Arrives (suc fuel) buffer (nothing r o ys bytes w v u inside got a) enough room
        fits =
      let (b, e, f) = keep_reading-Arrives fuel buffer a (omega arith) room fits in
      let partial : leb size o ≡ false = ground arith in
      let space : leb 512 o ≡ false = ground arith in (b, rw (partial, space, got, got) e, f)
  keep_reading-Arrives (suc fuel) buffer (later r o err ys bytes w v u inside got blocks a) enough
        room fits =
      let (b, e, f) = keep_reading-Arrives fuel buffer a (omega arith) room fits in
      let partial : leb size o ≡ false = ground arith in
      let space : leb 512 o ≡ false = ground arith in
      (b, rw (partial, space, got, got, blocks) e, f)

pub get_or-overlay :
    (buffer bytes : List ℕ) (i : ℕ)
    → i < length bytes
    → length bytes ≤ length buffer
    → get_or (overlay buffer bytes) i 0 ≡ get_or bytes i 0
get_or-overlay buffer [] i h room = absurd (omega arith)
get_or-overlay [] (b ∷ bytes) i h room = absurd (omega arith)
get_or-overlay (a ∷ buffer) (b ∷ bytes) zero h room = refl
get_or-overlay (a ∷ buffer) (b ∷ bytes) (suc i) h room =
    get_or-overlay buffer bytes i (omega arith) (omega arith)

module _ {W : Type 0} (host : Host W) (sock : ℤ) where
  -- a first reading of some bytes
  pub serial_io_watch-reads :
      (fuel n : ℕ) (bytes : List ℕ) (s : Server W) (v : W)
      → hal_comm_read host sock 512 s.world ≡ (pos n, bytes, v)
      → serial_io_watch host fuel sock false s
        ≡ read_message host fuel sock n (overlay host.frame bytes) (record s { world = v })
  unfolding serial_io_watch
  serial_io_watch-reads fuel n bytes s v got = rw (serial_io_watch, got, got) refl

  read_message-whole :
      (fuel n size : ℕ) (buffer b : List ℕ) (s : Server W) (u : W)
      → get_or buffer 1 0 + 2 ≡ size
      → keep_reading host fuel sock size n buffer s.world ≡ done (some b) u
      → read_message host fuel sock n buffer s
        ≡ write_unix host size (some b) (record s { world = u })
  unfolding read_message
  read_message-whole fuel n size buffer b s u header e = rw (read_message, header, e, header) refl

-- A message of two bytes and as many more as its second byte says, a `char` that is unsigned: its first
-- piece has both of them, and the others follow, up to its end and no further, in fewer rounds than the
-- fuel.
pub record Incoming {W : Type 0} (host : Host W) (sock : ℤ) (fuel : ℕ) (first rest : List ℕ)
    (w u : W) : Type 0 where
  pub headed : 2 ≤ length first
  pub byte : get_or first 1 0 < 256
  pub sized : length (first ++ rest) ≡ get_or first 1 0 + 2
  pub after_first : W
  pub got : hal_comm_read host sock 512 w ≡ (pos (length first), first, after_first)
  pub rounds : ℕ
  pub others : Arrives host sock (get_or first 1 0 + 2) rounds (length first) rest after_first u
  pub enough : rounds < fuel

module _ {W : Type 0} (host : Host W) (sock : ℤ) (frame : length host.frame ≡ 512) where
  -- the message is whole
  pub serial_io_watch-whole :
      (fuel : ℕ) (first rest : List ℕ) (s : Server W) (u : W)
      → Incoming host sock fuel first rest s.world u
      → (b : List ℕ) × (serial_io_watch host fuel sock false s
          ≡ write_unix host (get_or first 1 0 + 2) (some b) (record s { world = u }))
        × (take (get_or first 1 0 + 2) b ≡ first ++ rest)
  serial_io_watch-whole fuel first rest s u m =
      let parts = length-append first rest in
      let buffer = overlay host.frame first in
      let held : length buffer ≡ 512 = length-overlay host.frame first ∙ frame in
      let short : length first ≤ length host.frame = omega (arith, parts, m.sized, frame, m.byte) in
      let header : get_or buffer 1 0 ≡ get_or first 1 0 =
        get_or-overlay host.frame first 1 (omega (arith, m.headed)) short in
      let small : get_or first 1 0 + 2 ≤ 257 = omega (arith, m.byte) in
      let (b, e, f) =
        keep_reading-Arrives host sock (get_or first 1 0 + 2) small fuel buffer m.others m.enough
          held (omega (arith, parts, m.sized)) in
      (
        b,
        serial_io_watch-reads host sock fuel (length first) first s m.after_first m.got
            ∙ read_message-whole host sock fuel (length first) (get_or first 1 0 + 2) buffer b
                (record s { world = m.after_first }) u (ap (λ k. k + 2) header) e,
        f ∙ ap (λ z. z ++ rest) (take-overlay host.frame first short),
      )

  write_unix-known :
      (unixfd : ℤ) (msg_size : ℕ) (buffer message : List ℕ) (s : Server W)
      → s.session.unix_io ≡ some unixfd
      → take msg_size buffer ≡ message
      → write_unix host msg_size (some buffer) s
        ≡ done
            (not (is_neg (host.write unixfd message s.world).0))
            (record s { world = (host.write unixfd message s.world).1 })
  unfolding write_unix
  write_unix-known unixfd msg_size buffer message s knotd all = rw (knotd, all) refl

  -- If knotd is connected and a whole message comes in over the serial line, in any pieces that end
  -- where the message ends, then the handler writes just that message to knotd, at once, and stays
  -- unless knotd does not take it.
  pub serial_io_watch-forwards :
      (unixfd : ℤ) (fuel : ℕ) (first rest : List ℕ) (s : Server W) (u : W)
      → s.session.unix_io ≡ some unixfd
      → Incoming host sock fuel first rest s.world u
      → serial_io_watch host fuel sock false s
        ≡ done
            (not (is_neg (host.write unixfd (first ++ rest) u).0))
            (record s { world = (host.write unixfd (first ++ rest) u).1 })
  serial_io_watch-forwards unixfd fuel first rest s u knotd m =
      let (b, e, all) = serial_io_watch-whole fuel first rest s u m in
      e
      ∙ write_unix-known unixfd (get_or first 1 0 + 2) b (first ++ rest) (record s { world = u })
          knotd all
