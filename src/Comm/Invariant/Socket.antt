-- ===== src/Comm/Invariant/Socket.antt =====
-- Reading and writing a socket keep the state valid.
use knot_hal_source.Prelude.{
  ℕ, zero, suc, ◌+◌, min, ◌≤◌, ◌<◌, ◌≡◌, inl, inr, refl, ap, false, Bool, not, ◌||◌, Option, none,
  some, List, ℤ, pos, is_neg, arith, ◌==◌, ltb, lt_of_get_elem?, length, length-write_at,
  length-replicate, replicate, slice, write_at,
}
use knot_hal_source.Comm.State.{Hal, Peer, fresh_peer, fresh_mgmt, initial, data_size}
use knot_hal_source.Comm.Run.{Platform, Run, and_then, peer_at}
use knot_hal_source.Comm.Pipes.{alloc_pipe}
use knot_hal_source.Comm.Pipes.Bitmask.{IsAssigned}
use knot_hal_source.Comm.Pipes.Alloc.{alloc_pipe-IsAssigned}
use knot_hal_source.Comm.Raw.Receive.{IsSound}
use knot_hal_source.Comm.Scheduler.{running}
use knot_hal_source.Comm.Socket.{
  is_raw_socket, number, read_socket, hal_comm_read, write_socket, hal_comm_write,
}
use knot_hal_source.Comm.Invariant.{
  Hazard, Rests, IsDriver, IsSocket, IsMgmt, IsValid, AllSound, AllSound-set, IsSound-at,
  socket_peer,
}
use knot_hal_source.Comm.Invariant.Rules.{
  Ensures, done, Ensures-bind, Ensures-some, Ensures-if, Ensures-memcpy, Ensures-weaken, Kept,
  Kept-refl, Kept-peer, Kept-mgmt,
}
use knot_hal_source.Comm.Invariant.Running.{Ran, running-Ran}

unread : (p : Peer) → IsSound p → IsSound (record p { len_rx = 0 })
unread p v = omega arith

queued :
    (p : Peer) (n : ℕ) (b : List ℕ)
    → IsSound p
    → length b ≡ length p.buffer_tx
    → n ≤ data_size
    → IsSound (record p { buffer_tx = b; len_tx = n })
queued p n b v e h = omega arith

-- what the tests of a socket's number say
at_most_five :
    (sockfd : ℤ) (b : Bool)
    → is_neg sockfd || (ltb 5 (number sockfd) || b) ≡ false
    → number sockfd ≤ 5
at_most_five sockfd b e = ground arith

pub raw_number :
    (sockfd : ℤ) (b : Bool) → not (is_raw_socket sockfd) || b ≡ false → IsSocket (number sockfd)
raw_number sockfd b e = record { low = ground arith; high = ground arith }

-- The state is valid, and the driver has no more packets left.
pub record Lives {W : Type 0} (pending : W → ℕ) (s t : Hal W) : Type 0 where
  pub valid : IsValid t
  pub fewer : pending t.world ≤ pending s.world

-- The same, where the driver may be closed.
pub record Sits {W : Type 0} (pending : W → ℕ) (s t : Hal W) : Type 0 where
  pub rests : Rests t
  pub fewer : pending t.world ≤ pending s.world

pub fresh_peer-IsSound : (pipe : Option ℕ) → IsSound (fresh_peer pipe)
fresh_peer-IsSound pipe = record {
  rx_area = refl;
  tx_area = refl;
  rx_fits = omega arith;
  tx_fits = omega arith;
  offset_fits = omega arith;
  mac_area = refl;
  tx_ready = refl;
}

pub fresh_mgmt-IsMgmt : IsMgmt fresh_mgmt
fresh_mgmt-IsMgmt = record {
  rx_area = refl;
  tx_area = refl;
  rx_fits = omega arith;
  tx_fits = omega arith;
}

pub no_pipes : IsAssigned 1 (replicate 5 (fresh_peer none))
no_pipes = record {
  count = refl;
  places = (inl refl, (inl refl, (inl refl, (inl refl, (inl refl, tt)))));
  bits = refl;
}

pub all_fresh : AllSound (replicate 5 (fresh_peer none))
all_fresh = let f = fresh_peer-IsSound none in (f, (f, (f, (f, (f, tt)))))

pub initial-Rests : {W : Type 0} (w : W) → Rests (initial w)
initial-Rests w = record {
  pipes = no_pipes;
  sound = all_fresh;
  mgmt_sound = fresh_mgmt-IsMgmt;
  mac_area = refl;
  index_low = omega arith;
  index_high = omega arith;
  opened = refl;
}

module _ {W : Type 0} (pending : W → ℕ) where
  pub lives : {s t : Hal W} → Kept pending s t → Lives pending s t
  lives k = record { valid = k.valid; fewer = k.fewer }

  pub Lives-trans : {s t u : Hal W} → Lives pending s t → Lives pending t u → Lives pending s u
  Lives-trans k l = record { valid = l.valid; fewer = omega (arith, k.fewer, l.fewer) }

  pub alloc_pipe-Lives :
      {H : Type 0} (s : Hal W)
      → IsValid s
      → Ensures H (λ r t. Lives pending s t × ((n : ℕ) → r ≡ pos n → IsSocket n)) (alloc_pipe s)
  alloc_pipe-Lives s v = elim (alloc_pipe-IsAssigned s v.pipes) [
    | inl (e, _) ↦ rw e (done (lives (Kept-refl s v), λ n f. cc))
    | inr (j, p, h, _, (e, w)) ↦ rw e (
        done (
          record {
            valid = record {
              pipes = w;
              sound = AllSound-set s.peers j v.sound (fresh_peer-IsSound (some (j + 1)));
              mgmt_sound = v.mgmt_sound;
              mac_area = v.mac_area;
              index_low = v.index_low;
              index_high = v.index_high;
              opened = v.opened;
            };
            fewer = omega arith;
          },
          λ n f.
              let small : suc j ≤ 5 = omega (arith, lt_of_get_elem? s.peers j p h, v.pipes.count) in
              record { low = omega (arith, ap number f); high = omega (arith, ap number f) },
        ))
  ]

module _ {W : Type 0} (pf : Platform W) (pending : W → ℕ) (d : IsDriver pf pending) where
  ran : {s t : Hal W} → Ran pending s t → Lives pending s t
  ran k = record { valid = k.valid; fewer = k.fewer }

  -- the background step, and then the rest
  pub after_running :
      {A : Type 0} (fuel : ℕ) (s : Hal W) (k : Unit {0} → Hal W → Run W A)
      → IsValid s
      → pending s.world < fuel
      → ((t : Hal W) → IsValid t → Ensures (Hazard pf) (λ _ u. Lives pending t u) (k tt t))
      → Ensures (Hazard pf) (λ _ u. Lives pending s u) (and_then (running pf fuel s) k)
  after_running fuel s k v fits f =
      Ensures-bind (running-Ran pf pending d fuel s v fits)
        λ _ t r. Ensures-weaken (f t r.valid) λ _ _ l. Lives-trans pending (ran r) l

  read_socket-Lives :
      (n count : ℕ) (s : Hal W)
      → n ≤ 5
      → IsValid s
      → Ensures (Hazard pf) (λ _ t. Lives pending s t) (read_socket pf n count s)
  unfolding read_socket
  read_socket-Lives zero count s h v =
      let m = v.mgmt_sound in
      Ensures-if (s.mgmt.len_rx == 0) _ _ _ (λ _. done (lives pending (Kept-refl s v)))
        λ _.
          Ensures-memcpy (replicate count 0) 0 s.mgmt.buffer_rx 0 (min count s.mgmt.len_rx) _ _
            (omega (arith, length-replicate {A = ℕ} count 0)) (omega (arith, m.rx_area, m.rx_fits))
            (done (
              lives pending (
                Kept-mgmt s (record s.mgmt { len_rx = 0 }) v
                  (record {
                    rx_area = m.rx_area;
                    tx_area = m.tx_area;
                    rx_fits = omega arith;
                    tx_fits = m.tx_fits;
                  }))))
  read_socket-Lives (suc n) count s h v =
      Ensures-some (peer_at (suc n) s.peers) _ _
        (socket_peer (suc n) s (record { low = omega arith; high = h }) v)
        λ p e.
          let q = IsSound-at (suc n) s v e in
          Ensures-if (p.len_rx == 0) _ _ _ (λ _. done (lives pending (Kept-refl s v)))
            λ _.
              Ensures-memcpy (replicate count 0) 0 p.buffer_rx 0 (min count p.len_rx) _ _
                (omega (arith, length-replicate {A = ℕ} count 0))
                (omega (arith, q.rx_area, q.rx_fits))
                (done (
                  lives pending
                    (Kept-peer (suc n) s (record p { len_rx = 0 }) v e refl (unread p q))))

  pub hal_comm_read-Lives :
      (fuel : ℕ) (sockfd : ℤ) (count : ℕ) (s : Hal W)
      → IsValid s
      → pending s.world < fuel
      → Ensures (Hazard pf) (λ _ t. Lives pending s t) (hal_comm_read pf fuel sockfd count s)
  unfolding hal_comm_read
  hal_comm_read-Lives fuel sockfd count s v fits = after_running fuel s _ v fits λ t w.
      Ensures-if (is_neg sockfd || (ltb 5 (number sockfd) || count == 0)) _ _ _
        (λ _. done (lives pending (Kept-refl t w)))
        λ e. read_socket-Lives (number sockfd) count t (at_most_five sockfd (count == 0) e) w

  pub hal_comm_write-Lives :
      (fuel : ℕ) (sockfd : ℤ) (buffer : List ℕ) (count : ℕ) (s : Hal W)
      → count ≤ length buffer
      → IsValid s
      → pending s.world < fuel
      → Ensures
          (Hazard pf)
          (λ _ t. Lives pending s t)
          (hal_comm_write pf fuel sockfd buffer count s)
  unfolding hal_comm_write write_socket
  hal_comm_write-Lives fuel sockfd buffer count s area v fits = after_running fuel s _ v fits λ t w.
      Ensures-if (not (is_raw_socket sockfd) || (count == 0 || ltb data_size count)) _ _ _
        (λ _. done (lives pending (Kept-refl t w)))
        λ e.
          let n = number sockfd in
          let h : IsSocket n = raw_number sockfd (count == 0 || ltb data_size count) e in
          let room : count ≤ 128 = ground arith in
          Ensures-some (peer_at n t.peers) _ _ (socket_peer n t h w) λ p f.
            let q = IsSound-at n t w f in
            Ensures-if (not (p.len_tx == 0)) _ _ _ (λ _. done (lives pending (Kept-refl t w)))
              λ _.
                Ensures-memcpy p.buffer_tx 0 buffer 0 count _ _ (omega (arith, q.tx_area))
                  (omega arith)
                  (done (
                    lives pending (
                      Kept-peer n t
                        (record p {
                          buffer_tx = write_at p.buffer_tx 0 (slice 0 count buffer);
                          len_tx = count;
                        })
                        w f refl
                        (queued p count (write_at p.buffer_tx 0 (slice 0 count buffer)) q
                          (length-write_at p.buffer_tx 0 (slice 0 count buffer)) room))))
