-- ===== src/Comm/Raw/Receive.antt =====
-- One data packet of `read_raw`: the memory that it touches, and what it does to the message that
-- is being put together.
use knot_hal_source.Prelude.{
  ℕ, ◌+◌, ◌%◌, ◌≤◌, ◌≡◌, ◌≢◌, ◌⊎◌, inl, inr, ◌&&◌, List, none, some, arith, length, length-write_at,
  slice, write_at, Bool-cases, ltb, ◌==◌,
}
use knot_hal_source.Link.{lid, nseq, lid_data_frag, nrf24_pw_msg_size}
use knot_hal_source.Comm.State.{Peer, data_size}
use knot_hal_source.Comm.Raw.{
  copy_data, finish_data, accept_data, sequence_data, reset_sequence, reset_keepalive, receive_data,
  payload_length, limited_length,
}

-- The buffers have their size, and the lengths that the functions keep fit in them.
pub record IsSound (p : Peer) : Type 0 where
  pub rx_area : length p.buffer_rx ≡ data_size
  pub tx_area : length p.buffer_tx ≡ data_size
  pub rx_fits : p.len_rx ≤ data_size
  pub tx_fits : p.len_tx ≤ data_size
  pub offset_fits : p.offset_rx ≤ data_size
  pub mac_area : length p.mac ≡ 8
  pub tx_ready : p.seqnumber_tx ≡ 0

-- What the clauses of `receive_data` need of the packet's length: a data packet holds its header.
pub limited_fits :
    (offset ilen : ℕ)
    → offset ≤ data_size
    → 2 ≤ ilen
    → ilen ≤ 32
    → (limited_length offset (payload_length ilen) ≤ 30)
      × (offset + limited_length offset (payload_length ilen) ≤ data_size)
limited_fits offset ilen ho lo hi = ground arith

finish-IsSound : (p : Peer) (pl : List ℕ) → IsSound p → IsSound (finish_data pl p)
unfolding finish_data
finish-IsSound p pl v = ground arith

copy-IsSound :
    (p : Peer) (n : ℕ) (pl : List ℕ)
    → IsSound p
    → length pl ≡ 32
    → p.offset_rx + n ≤ data_size
    → n ≤ 30
    → (q : Peer) × (copy_data p n pl ≡ some q) × IsSound q
unfolding copy_data
copy-IsSound p n pl v hp ho hn = (
  record p {
    buffer_rx = write_at p.buffer_rx p.offset_rx (slice 2 n pl);
    offset_rx = p.offset_rx + n;
    seqnumber_rx = (p.seqnumber_rx + 1) % 256;
  },
  ground arith,
  ground (arith, length-write_at p.buffer_rx p.offset_rx (slice 2 n pl)),
)

accept-IsSound :
    (p : Peer) (ilen : ℕ) (pl : List ℕ)
    → IsSound p
    → length pl ≡ 32
    → 2 ≤ ilen
    → ilen ≤ 32
    → (q : Peer) × (accept_data p ilen pl ≡ some q) × IsSound q
unfolding accept_data
accept-IsSound p ilen pl v hp lo hi =
    let (small, room) = limited_fits p.offset_rx ilen v.offset_fits lo hi in
    let (q, e, w) =
      copy-IsSound p (limited_length p.offset_rx (payload_length ilen)) pl v hp room small in
    elim (Bool-cases ((lid pl == lid_data_frag) && ltb (payload_length ilen) nrf24_pw_msg_size)) [
      | inl short ↦ (p, rw short, v)
      | inr full ↦ (finish_data pl q, rw (full, e), finish-IsSound q pl w)
    ]

sequence-IsSound :
    (p : Peer) (ilen : ℕ) (pl : List ℕ)
    → IsSound p
    → length pl ≡ 32
    → 2 ≤ ilen
    → ilen ≤ 32
    → (q : Peer) × (sequence_data p ilen pl ≡ some q) × IsSound q
unfolding sequence_data
sequence-IsSound p ilen pl v hp lo hi = elim (Bool-cases (ltb p.seqnumber_rx (nseq pl))) [
  | inl early ↦ (p, rw early, v)
  | inr a ↦ elim (Bool-cases (ltb (nseq pl) p.seqnumber_rx)) [
    | inl late ↦ (p, rw (a, late), v)
    | inr b ↦ let (q, e, w) = accept-IsSound p ilen pl v hp lo hi in (q, rw (a, b) e, w)
  ]
]

pub reset_sequence-IsSound : (n : ℕ) (p : Peer) → IsSound p → IsSound (reset_sequence n p)
reset_sequence-IsSound n p v = ground arith

pub reset_keepalive-IsSound : (p : Peer) → IsSound p → IsSound (reset_keepalive p)
reset_keepalive-IsSound p v = ground arith

-- A data packet that holds its two-byte header, of 32 bytes at most, is taken without an access
-- outside of the payload or the buffer, whatever its sequence number and its kind, and leaves every
-- length and offset of the peer within the buffers.
pub receive_data-IsSound :
    (p : Peer) (ilen : ℕ) (pl : List ℕ)
    → IsSound p
    → length pl ≡ 32
    → 2 ≤ ilen
    → ilen ≤ 32
    → (q : Peer) × (receive_data p ilen pl ≡ some q) × IsSound q
unfolding receive_data
receive_data-IsSound p ilen pl v hp lo hi = elim (Bool-cases (p.len_rx == 0)) [
  | inr busy ↦ (reset_keepalive p, rw busy, reset_keepalive-IsSound p v)
  | inl idle ↦
      let (q, e, w) =
        sequence-IsSound (reset_sequence (nseq pl) (reset_keepalive p)) ilen pl
          (reset_sequence-IsSound (nseq pl) _ (reset_keepalive-IsSound p v)) hp lo hi in
      (q, rw idle e, w)
]

-- A packet of one byte is too short for the header, and its length wraps: one that is in its turn,
-- or that starts a message, makes `memcpy` leave the payload or the buffer, whatever its kind.
pub receive_data_short :
    (p : Peer) (pl : List ℕ)
    → IsSound p
    → length pl ≡ 32
    → p.len_rx ≡ 0
    → (nseq pl ≡ p.seqnumber_rx) ⊎ (nseq pl ≡ 0)
    → receive_data p 1 pl ≡ none
unfolding receive_data sequence_data accept_data copy_data
receive_data_short p pl v hp idle turn = ground arith

-- A packet out of its turn, that does not start a message, changes nothing but the keepalive count:
-- neither the bytes put together so far, nor how many, nor the number that the peer waits for.
pub out_of_turn_ignored :
    (p : Peer) (ilen : ℕ) (pl : List ℕ)
    → nseq pl ≢ 0
    → nseq pl ≢ p.seqnumber_rx
    → receive_data p ilen pl ≡ some (reset_keepalive p)
unfolding receive_data sequence_data
out_of_turn_ignored p ilen pl start turn = ground arith

-- What a packet of any length leaves, where it is taken.
abbrev pub Taken : Peer → Peer → Type 0
Taken p q = IsSound q × (q.pipe ≡ p.pipe)

accept-Taken :
    (p : Peer) (ilen : ℕ) (pl : List ℕ) {q : Peer}
    → IsSound p
    → accept_data p ilen pl ≡ some q
    → Taken p q
unfolding accept_data copy_data finish_data
accept-Taken p ilen pl v e = ground (
  arith,
  length-write_at p.buffer_rx p.offset_rx
      (slice 2 (limited_length p.offset_rx (payload_length ilen)) pl),
)

pub receive_data-Taken :
    (p : Peer) (ilen : ℕ) (pl : List ℕ) {q : Peer}
    → IsSound p
    → receive_data p ilen pl ≡ some q
    → Taken p q
unfolding receive_data sequence_data
receive_data-Taken p ilen pl {q} v e =
    let r : Peer = reset_sequence (nseq pl) (reset_keepalive p) in
    let w : IsSound r = reset_sequence-IsSound (nseq pl) _ (reset_keepalive-IsSound p v) in
    let same : r.pipe ≡ p.pipe = ground arith in
    ground (arith, accept-Taken r ilen pl {q = q} w, reset_keepalive-IsSound p v, same)
