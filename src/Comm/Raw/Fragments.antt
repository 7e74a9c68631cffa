-- ===== src/Comm/Raw/Fragments.antt =====
-- The packets of a message, described on their own, and what a peer makes of them.
use mathlib.Core.List.{append_assoc}
use knot_hal_source.Prelude.{
  ℕ, zero, suc, ◌+◌, ◌*◌, ◌%◌, ◌/◌, ◌≤◌, ◌<◌, min, ◌≡◌, refl, ap, ◌∙◌, List, [], ◌∷◌, ◌++◌, Option,
  none, some, arith, length, take, drop, length-take, length-drop, overlay, take-overlay, write_at,
  take-all, take-append-drop, take-write_at, length-write_at, length-overlay, slice, ltb, ◌==◌,
  ◌&&◌, false, if◌then◌else◌,
}
use knot_hal_source.Link.{lid, nseq, set_lid, set_nseq, lid_data_frag, lid_data_end}
use knot_hal_source.Comm.State.{Peer, data_size}
use knot_hal_source.Comm.Raw.{
  receive_data, sequence_data, accept_data, copy_data, finish_data, reset_keepalive, reset_sequence,
  limited_length, payload_length,
}

abbrev pub kind : List ℕ → ℕ
kind m = if ltb 30 (length m) then lid_data_frag else lid_data_end

-- The packet that carries the first 30 bytes of `m`, over what the payload held before.
abbrev pub fragment : ℕ → List ℕ → List ℕ → List ℕ
fragment seq m old = write_at (set_nseq seq (set_lid (kind m) old)) 2 (take 30 m)

-- The packets of a message with their lengths. Each is laid over the one before.
unfoldable pub fragments : ℕ → ℕ → List ℕ → List ℕ → List (List ℕ × ℕ)
fragments zero seq m old = []
fragments (suc f) seq [] old = []
fragments (suc f) seq (b ∷ m) old =
    (fragment seq (b ∷ m) old, min 30 (length (b ∷ m)) + 2)
    ∷ fragments f (seq + 1) (drop 30 (b ∷ m)) (fragment seq (b ∷ m) old)

-- A peer that takes packets in order, each over the bytes that its payload held before.
unfoldable pub deliver : Peer → List ℕ → List (List ℕ × ℕ) → Option Peer
deliver p pl [] = some p
deliver p pl ((packet, n) ∷ rest) =
    let pl' = overlay pl (take n packet) in
    elim (receive_data p n pl') [ none ↦ none | some q ↦ deliver q pl' rest ]

-- A received packet: the two bytes of the header and the data, over the old payload.
abbrev pub received : ℕ → ℕ → List ℕ → List ℕ → List ℕ
received h r ls c = h ∷ r ∷ overlay ls c

unfoldable pub header : ℕ → List ℕ → ℕ → ℕ
header seq m o = (o / 4 * 4 + kind m) % 4 + seq % 64 * 4

pub received-fragment :
    (seq : ℕ) (m : List ℕ) (o r : ℕ) (os : List ℕ) (a b : ℕ) (ls : List ℕ)
    → length os ≡ 30
    → overlay (a ∷ b ∷ ls) (take (min 30 (length m) + 2) (fragment seq m (o ∷ r ∷ os)))
      ≡ received (header seq m o) r ls (take 30 m)
unfolding header
received-fragment seq m o r os a b ls h =
    let e : min 30 (length m) + 2 ≡ suc (suc (length (take 30 m))) =
      omega (arith, length-take 30 m) in
    rw (e, take-overlay os (take 30 m) (omega (arith, length-take 30 m)))

unfoldable pub taken : Peer → List ℕ → Peer
taken p c = record p {
  buffer_rx = write_at p.buffer_rx p.offset_rx c;
  offset_rx = p.offset_rx + length c;
  seqnumber_rx = (p.seqnumber_rx + 1) % 256;
}

accept-taken :
    (p : Peer) (pl c : List ℕ)
    → length pl ≡ 32
    → length p.buffer_rx ≡ data_size
    → p.offset_rx + length c ≤ data_size
    → length c ≤ 30
    → (lid pl ≡ lid_data_frag → length c ≡ 30)
    → slice 2 (length c) pl ≡ c
    → accept_data p (length c + 2) pl ≡ some (finish_data pl (taken p c))
unfolding accept_data copy_data taken
accept-taken p pl c hp hb room small full e =
    let l : limited_length p.offset_rx (payload_length (length c + 2)) ≡ length c = ground arith in
    let t : ((lid pl == lid_data_frag) && ltb (payload_length (length c + 2)) 30) ≡ false =
      ground arith in
    rw (t, l, e) (ground arith)

reset_sequence-eq :
    (n : ℕ) (p : Peer) → (n ≡ 0 → (p.offset_rx ≡ 0) × (p.seqnumber_rx ≡ 0)) → reset_sequence n p ≡ p
reset_sequence-eq n p h = ground arith

pub receive-idle :
    (p : Peer) (ilen : ℕ) (pl : List ℕ)
    → p.len_rx ≡ 0
    → receive_data p ilen pl ≡ sequence_data (reset_sequence (nseq pl) (reset_keepalive p)) ilen pl
unfolding receive_data
receive-idle p ilen pl idle = ground arith

sequence-turn :
    (p : Peer) (ilen : ℕ) (pl : List ℕ)
    → nseq pl ≡ p.seqnumber_rx
    → sequence_data p ilen pl ≡ accept_data p ilen pl
unfolding sequence_data
sequence-turn p ilen pl turn = ground arith

-- What a peer and the packet in its turn are to fit together.
pub record InTurn (p : Peer) (pl c : List ℕ) : Type 0 where
  pub idle : p.len_rx ≡ 0
  pub turn : nseq pl ≡ p.seqnumber_rx
  pub place : p.offset_rx ≡ p.seqnumber_rx * 30
  pub packet : length pl ≡ 32
  pub area : length p.buffer_rx ≡ data_size
  pub room : p.offset_rx + length c ≤ data_size
  pub small : length c ≤ 30
  pub full : lid pl ≡ lid_data_frag → length c ≡ 30
  pub bytes : slice 2 (length c) pl ≡ c

reset_keepalive-InTurn :
    (p : Peer) (pl c : List ℕ) → InTurn p pl c → InTurn (reset_keepalive p) pl c
reset_keepalive-InTurn p pl c h = ground (arith, h.full)

pub receive-taken :
    (p : Peer) (pl c : List ℕ)
    → InTurn p pl c
    → receive_data p (length c + 2) pl ≡ some (finish_data pl (taken (reset_keepalive p) c))
receive-taken p pl c h =
    let k = reset_keepalive-InTurn p pl c h in
    receive-idle p (length c + 2) pl h.idle
    ∙ ap (λ q. sequence_data q (length c + 2) pl)
        (reset_sequence-eq (nseq pl) (reset_keepalive p) (λ z. omega (arith, k.turn, k.place)))
    ∙ sequence-turn (reset_keepalive p) (length c + 2) pl k.turn
    ∙ accept-taken (reset_keepalive p) pl c k.packet k.area k.room k.small k.full k.bytes

pub received-InTurn :
    (p : Peer) (seq : ℕ) (m : List ℕ) (o r : ℕ) (ls : List ℕ)
    → length ls ≡ 30
    → length p.buffer_rx ≡ data_size
    → p.len_rx ≡ 0
    → 0 < length m
    → p.offset_rx + length m ≤ data_size
    → p.seqnumber_rx ≡ seq
    → p.offset_rx ≡ seq * 30
    → InTurn p (received (header seq m o) r ls (take 30 m)) (take 30 m)
unfolding header
received-InTurn p seq m o r ls hl hb idle left room hs ho = record {
  idle = idle;
  turn = omega arith;
  place = omega arith;
  packet = omega (arith, length-overlay ls (take 30 m));
  area = hb;
  room = omega (arith, length-take 30 m);
  small = omega (arith, length-take 30 m);
  full = λ z. ground (arith, length-take 30 m);
  bytes = take-overlay ls (take 30 m) (omega (arith, length-take 30 m));
}

-- The message `m` has been put behind what the buffer held, and is ready to be read.
pub record IsAssembled (p : Peer) (m : List ℕ) (q : Peer) : Type 0 where
  pub whole : q.len_rx ≡ p.offset_rx + length m
  pub bytes : take q.len_rx q.buffer_rx ≡ take p.offset_rx p.buffer_rx ++ m
  pub sequence : q.seqnumber_rx ≡ 0
  pub offset : q.offset_rx ≡ 0

pub fragments-nil : (f seq : ℕ) (old : List ℕ) → fragments f seq [] old ≡ []
unfolding fragments
fragments-nil zero seq old = refl
fragments-nil (suc f) seq old = refl

pub deliver-cons :
    (p : Peer) (pl packet : List ℕ) (n : ℕ) (rest : List (List ℕ × ℕ)) {q : Peer}
    → receive_data p n (overlay pl (take n packet)) ≡ some q
    → deliver p pl ((packet, n) ∷ rest) ≡ deliver q (overlay pl (take n packet)) rest
unfolding deliver
deliver-cons p pl packet n rest h = rw (h, deliver)

-- A part of the message fits in the receiver's hands: it is the next one, and there is room.
pub record IsReady (p : Peer) (seq : ℕ) (m : List ℕ) : Type 0 where
  pub area : length p.buffer_rx ≡ data_size
  pub idle : p.len_rx ≡ 0
  pub room : p.offset_rx + length m ≤ data_size
  pub turn : p.seqnumber_rx ≡ seq
  pub place : p.offset_rx ≡ seq * 30

pub finish-last :
    (p : Peer) (seq : ℕ) (m : List ℕ) (pl : List ℕ)
    → IsReady p seq m
    → length m ≤ 30
    → lid pl ≡ lid_data_end
    → IsAssembled p m (finish_data pl (taken (reset_keepalive p) (take 30 m)))
unfolding finish_data taken
finish-last p seq m pl v small e =
    rw (take-all 30 m small)
      (ground (arith, take-write_at p.buffer_rx p.offset_rx m (p.offset_rx + length m)))

pub taken-IsReady :
    (p : Peer) (seq : ℕ) (m pl : List ℕ)
    → IsReady p seq m
    → 30 < length m
    → lid pl ≡ lid_data_frag
    → IsReady (finish_data pl (taken (reset_keepalive p) (take 30 m))) (seq + 1) (drop 30 m)
unfolding finish_data taken
taken-IsReady p seq m pl v big e =
    ground (
      arith,
      length-take 30 m,
      length-drop 30 m,
      length-write_at p.buffer_rx p.offset_rx (take 30 m),
    )

pub taken-IsAssembled :
    (p : Peer) (seq : ℕ) (m pl : List ℕ) (q : Peer)
    → IsReady p seq m
    → 30 < length m
    → lid pl ≡ lid_data_frag
    → IsAssembled (finish_data pl (taken (reset_keepalive p) (take 30 m))) (drop 30 m) q
    → IsAssembled p m q
unfolding finish_data taken
taken-IsAssembled p seq m pl q v big e w = ground (
  arith,
  length-take 30 m,
  length-drop 30 m,
  take-append-drop 30 m,
  append_assoc (take p.offset_rx p.buffer_rx) (take 30 m) (drop 30 m),
  take-write_at p.buffer_rx p.offset_rx (take 30 m) (p.offset_rx + length (take 30 m)),
)
