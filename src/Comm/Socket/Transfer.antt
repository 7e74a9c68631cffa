-- ===== src/Comm/Socket/Transfer.antt =====
-- The bytes that `hal_comm_write` takes over and that `hal_comm_read` hands out.
use knot_hal_source.Prelude.{
  ℕ, suc, ◌+◌, ◌-◌, ◌≤◌, ◌<◌, min, ◌≡◌, refl, take-all, List, some, pos, arith, true, false, ◌==◌,
  leb, le→leb, length, length-take, length-replicate, replicate, set, slice, write_at, take,
  take-write_at,
}
use knot_hal_source.Comm.State.{Hal, Peer, data_size}
use knot_hal_source.Comm.Run.{Platform, ok, peer_at}
use knot_hal_source.Comm.Socket.{write_socket, read_socket}

module _ {W : Type 0} (pf : Platform W) where
  -- A peer with nothing to be sent takes over all bytes of a message of at most 128 bytes.
  pub write_socket_lem :
      (n : ℕ) (s : Hal W) (p : Peer) (m : List ℕ)
      → peer_at n s.peers ≡ some p
      → length p.buffer_tx ≡ data_size
      → p.len_tx ≡ 0
      → length m ≤ data_size
      → (q : Peer) × (write_socket pf n m (length m) s
          ≡ ok (pos (length m)) (record s { peers = set s.peers (n - 1) q }))
        × (q.len_tx ≡ length m)
        × (take q.len_tx q.buffer_tx ≡ m)
  unfolding write_socket
  write_socket_lem n s p m e area idle fits =
      let a : (p.len_tx == 0) ≡ true = ground arith in
      let x : leb (0 + length m) (length p.buffer_tx) ≡ true = le→leb _ _ (omega arith) in
      let y : leb (0 + length m) (length m) ≡ true = le→leb _ _ (omega arith) in
      let c : slice 0 (length m) m ≡ m = take-all (length m) m (omega arith) in
      (
        record p { buffer_tx = write_at p.buffer_tx 0 m; len_tx = length m },
        rw (e, a, x, y, c),
        refl,
        take-write_at p.buffer_tx 0 m (length m) (omega arith) (omega arith),
      )

  -- What a peer has ready is handed out from its start, as far as the caller has room for it, and is
  -- gone after that; the rest of the state is left.
  pub read_socket_lem :
      (n count : ℕ) (s : Hal W) (p : Peer)
      → peer_at (suc n) s.peers ≡ some p
      → length p.buffer_rx ≡ data_size
      → p.len_rx ≤ data_size
      → 0 < p.len_rx
      → read_socket pf (suc n) count s
        ≡ ok
            (pos (min count p.len_rx), take (min count p.len_rx) p.buffer_rx)
            (record s { peers = set s.peers (suc n - 1) (record p { len_rx = 0 }) })
  unfolding read_socket
  read_socket_lem n count s p e area fits some_bytes =
      let k = min count p.len_rx in
      let room = length-replicate {A = ℕ} count 0 in
      let a : (p.len_rx == 0) ≡ false = ground arith in
      let x : leb (0 + k) (length (replicate {A = ℕ} count 0)) ≡ true = le→leb _ _ (omega arith) in
      let y : leb (0 + k) (length p.buffer_rx) ≡ true = le→leb _ _ (omega arith) in
      let l : length (take k p.buffer_rx) ≡ k = omega (arith, length-take k p.buffer_rx) in
      let c : take k (write_at (replicate {A = ℕ} count 0) 0 (take k p.buffer_rx))
          ≡ take k p.buffer_rx =
        take-write_at (replicate {A = ℕ} count 0) 0 (take k p.buffer_rx) k (omega arith)
          (omega arith) in
      rw (e, a, x, y, c)
