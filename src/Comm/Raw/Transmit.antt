-- ===== src/Comm/Raw/Transmit.antt =====
-- `write_raw` hands the driver the packets of the message, in order, until one fails.
use native.Mathlib.Decide.{dec_le}
use knot_hal_source.Prelude.{
  ℕ, zero, suc, ◌+◌, ◌-◌, ◌*◌, ◌%◌, ◌≤◌, ◌<◌, min, ◌≡◌, refl, ap, ◌∙◌, List, [], ◌∷◌, some, ℤ, pos,
  negsuc, arith, length, set, take, take-take, drop, slice, length-write_at, length-set,
  length-drop, length-take, set-set, drop-take, drop-drop, write_at, ltb, leb, true, false, ◌==◌,
  if◌then◌else◌,
}
use knot_hal_source.Link.{set_lid, set_nseq, lid_data_frag, lid_data_end}
use knot_hal_source.Comm.State.{Hal, Peer, data_size}
use knot_hal_source.Comm.Run.{Platform, Run, ok, peer_at, peer_at-set}
use knot_hal_source.Comm.Raw.{data_packet, write_raw_loop, write_raw}
use knot_hal_source.Comm.Raw.Fragments.{fragments, fragment}

module _ {W : Type 0} (pf : Platform W) where
  -- One packet after the other, each after a delay, up to the first that the driver refuses.
  unfoldable pub transmit : ℤ → ℕ → List (List ℕ × ℕ) → W → ℤ × W
  transmit driver pipe [] w = (pos 0, w)
  transmit driver pipe ((packet, n) ∷ rest) w =
      let r = pf.phy_write driver pipe packet n (pf.delay_us 512 w) in
      elim r.0 [ pos k ↦ transmit driver pipe rest r.1 | negsuc e ↦ (negsuc e, r.1) ]

  -- the state and the result once the packets `ps` have been handed over
  abbrev pub sent : ℕ → Peer → Hal W → ℤ × W → Run W ℤ
  sent sockfd p s (pos k, w) = ok (pos p.len_tx) (record s {
    peers = set s.peers (sockfd - 1) (record p { len_tx = 0; seqnumber_tx = 0 });
    world = w;
  })
  sent sockfd p s (negsuc e, w) = ok (negsuc e) (record s {
    peers = set s.peers (sockfd - 1) (record p { len_tx = 0; seqnumber_tx = 0 });
    world = w;
  })

  -- what remains to be sent, `left` bytes of the buffer
  record Remains (p : Peer) (left : ℕ) (m : List ℕ) : Type 0 where
    area : length p.buffer_tx ≡ data_size
    fits : p.len_tx ≤ data_size
    inside : left ≤ p.len_tx
    rest : m ≡ slice (p.len_tx - left) left p.buffer_tx
    count : length m ≡ left

  -- The packet of the loop is the fragment of what remains.
  packet-eq-fragment :
      (seq left : ℕ) (payload m : List ℕ) (p : Peer)
      → Remains p left m
      → write_at
          (set_nseq seq (set_lid (if ltb 30 left then lid_data_frag else lid_data_end) payload))
          2
          (slice (p.len_tx - left) (min left 30) p.buffer_tx)
        ≡ fragment seq m payload
  packet-eq-fragment seq left payload m p v =
      let part : take 30 m ≡ slice (p.len_tx - left) (min left 30) p.buffer_tx =
        ap (take 30) v.rest
        ∙ take-take 30 left (drop (p.len_tx - left) p.buffer_tx)
        ∙ (let c : min 30 left ≡ min left 30 = omega arith in
            ap (λ k. take k (drop (p.len_tx - left) p.buffer_tx)) c) in
      rw (v.count, part)

  data_packet-eq-fragment :
      (left : ℕ) (payload m : List ℕ) (p : Peer) (s : Hal W)
      → length payload ≡ 32
      → Remains p left m
      → data_packet p left payload s ≡ ok (fragment p.seqnumber_tx m payload) s
  unfolding data_packet
  data_packet-eq-fragment left payload m p s h v =
      let room : leb (2 + min left 30) (length payload) ≡ true = ground arith in
      let inside : leb (p.len_tx - left + min left 30) (length p.buffer_tx) ≡ true = ground arith in
      rw
        (length-set, length-set, room, inside, packet-eq-fragment p.seqnumber_tx left payload m p v)

  loop-step :
      (fuel n left : ℕ) (payload m : List ℕ) (s : Hal W) (p : Peer)
      → peer_at n s.peers ≡ some p
      → length payload ≡ 32
      → Remains p (suc left) m
      → p.seqnumber_tx < 255
      → write_raw_loop pf (suc fuel) n (suc left) payload s ≡ (
          let packet = fragment p.seqnumber_tx m payload in
          let r =
            pf.phy_write s.driver_index n packet
              (min (suc left) 30 + 2)
              (pf.delay_us 512 s.world) in
          elim r.0 [
            | pos k ↦ write_raw_loop pf fuel n (suc left - min (suc left) 30) packet (record s {
              peers = set s.peers (n - 1) (record p { seqnumber_tx = p.seqnumber_tx + 1 });
              world = r.1;
            })
            | negsuc e ↦ ok (negsuc e) (record s {
              peers = set s.peers (n - 1) (record p { len_tx = 0; seqnumber_tx = 0 });
              world = r.1;
            })
          ])
  unfolding write_raw_loop
  loop-step fuel n left payload m s p e h v few =
      let seq : (p.seqnumber_tx + 1) % 256 ≡ p.seqnumber_tx + 1 = omega arith in
      rw (e, data_packet-eq-fragment (suc left) payload m p _ h v, seq) (ground arith)

  sent-step :
      (n seq : ℕ) (p : Peer) (s : Hal W) (w : W) (r : ℤ × W)
      → sent n
          (record p { seqnumber_tx = seq })
          (record s { peers = set s.peers (n - 1) (record p { seqnumber_tx = seq }); world = w })
          r
        ≡ sent n p s r
  sent-step n seq p s w (pos k, w') = rw set-set
  sent-step n seq p s w (negsuc k, w') = rw set-set

  Remains-next :
      (p : Peer) (left seq : ℕ) (m : List ℕ)
      → Remains p left m
      → Remains (record p { seqnumber_tx = seq }) (left - min left 30) (drop 30 m)
  Remains-next p left seq m v = record {
    area = v.area;
    fits = v.fits;
    inside = omega (arith, v.inside);
    rest =
        ap (drop 30) v.rest
        ∙ drop-take 30 left (drop (p.len_tx - left) p.buffer_tx)
        ∙ ap (take (left - 30)) (drop-drop 30 (p.len_tx - left) p.buffer_tx)
        ∙ elim (dec_le 30 left) [
          | yes h ↦
              let a : p.len_tx - left + 30 ≡ p.len_tx - (left - min left 30) =
                omega (arith, v.inside) in
              let b : left - 30 ≡ left - min left 30 = omega arith in rw (a, b)
          | no h ↦
              let a : left - 30 ≡ 0 = omega arith in
              let b : left - min left 30 ≡ 0 = omega arith in rw (a, b)
        ];
    count = omega (arith, v.count, length-drop 30 m);
  }

  branch :
      (n : ℕ) (p : Peer) (s : Hal W) (next : W → Run W ℤ) (more : W → ℤ × W)
      → ((w : W) → next w ≡ sent n p s (more w))
      → (r : ℤ × W)
      → (elim r.0 as (λ _. Run W ℤ) [
        | pos k ↦ next r.1
        | negsuc e ↦ ok (negsuc e) (record s {
          peers = set s.peers (n - 1) (record p { len_tx = 0; seqnumber_tx = 0 });
          world = r.1;
        })
      ])
        ≡ sent n p s (elim r.0 as (λ _. ℤ × W) [ pos k ↦ more r.1 | negsuc e ↦ (negsuc e, r.1) ])
  branch n p s next more h (pos k, w) = h w
  branch n p s next more h (negsuc e, w) = refl

  loop-eq-transmit :
      (f fuel n left : ℕ) (m payload : List ℕ) (s : Hal W) (p : Peer)
      → peer_at n s.peers ≡ some p
      → length payload ≡ 32
      → Remains p left m
      → left ≤ 30 * f
      → left < fuel
      → p.seqnumber_tx + f < 256
      → write_raw_loop pf fuel n left payload s
        ≡ sent n p s (transmit s.driver_index n (fragments f p.seqnumber_tx m payload) s.world)
  unfolding fragments transmit write_raw_loop
  loop-eq-transmit f zero n left m payload s p e h v bound enough few = absurd (omega arith)
  loop-eq-transmit zero (suc fuel) n zero m payload s p e h v bound enough few = rw e
  loop-eq-transmit zero (suc fuel) n (suc left) m payload s p e h v bound enough few =
      absurd (omega arith)
  loop-eq-transmit (suc f) (suc fuel) n zero [] payload s p e h v bound enough few = rw e
  loop-eq-transmit (suc f) (suc fuel) n zero (x ∷ m) payload s p e h v bound enough few =
      absurd (omega (arith, v.count))
  loop-eq-transmit (suc f) (suc fuel) n (suc left) [] payload s p e h v bound enough few =
      absurd (omega (arith, v.count))
  loop-eq-transmit (suc f) (suc fuel) n (suc left) (x ∷ xs) payload s p e h v bound enough few =
      let m : List ℕ = x ∷ xs in
      let packet : List ℕ = fragment p.seqnumber_tx m payload in
      let p' : Peer = record p { seqnumber_tx = p.seqnumber_tx + 1 } in
      let c : min (suc left) 30 + 2 ≡ min 30 (length m) + 2 = omega (arith, v.count) in
      loop-step fuel n left payload m s p e h v (omega arith)
      ∙ branch n p s _ _
          (λ w.
            loop-eq-transmit f fuel n (suc left - min (suc left) 30) (drop 30 m) packet
              (record s { peers = set s.peers (n - 1) p'; world = w }) p'
              (peer_at-set n s.peers p' e)
              (length-write_at _ 2 (take 30 m) ∙ length-set _ 0 _ ∙ length-set payload 0 _ ∙ h)
              (Remains-next p (suc left) (p.seqnumber_tx + 1) m v) (omega arith) (omega arith)
              (omega arith)
            ∙ sent-step n (p.seqnumber_tx + 1) p s w _)
          _
      ∙ ap
          (λ k. sent n p s (
            transmit s.driver_index n
              ((packet, k) ∷ fragments f (p.seqnumber_tx + 1) (drop 30 m) packet) s.world))
          c

  -- `write_raw` with a message of at most 128 bytes in the buffer, and the sequence number at zero,
  -- hands the driver exactly the packets of that message, in order, each after a delay, until the
  -- driver refuses one. It returns the length of the message, or the driver's error. It always ends,
  -- and either way nothing is left to be sent and the sequence number is zero again. Nothing else of
  -- the state is changed.
  pub write_raw-eq-transmit :
      (n : ℕ) (s : Hal W) (p : Peer)
      → peer_at n s.peers ≡ some p
      → length pf.frame ≡ 32
      → length p.buffer_tx ≡ data_size
      → 0 < p.len_tx
      → p.len_tx ≤ data_size
      → p.seqnumber_tx ≡ 0
      → write_raw pf n s
        ≡ sent n p s
            (transmit s.driver_index n (fragments 5 0 (take p.len_tx p.buffer_tx) pf.frame) s.world)
  unfolding write_raw
  write_raw-eq-transmit n s p e h area left fits zero_seq =
      let a : (p.len_tx == 0) ≡ false = ground arith in
      let b : ltb data_size p.len_tx ≡ false = ground arith in
      let z : p.len_tx - p.len_tx ≡ 0 = omega arith in
      let v : Remains p p.len_tx (take p.len_tx p.buffer_tx) = record {
        area = area;
        fits = fits;
        inside = omega arith;
        rest = rw z;
        count = omega (arith, length-take p.len_tx p.buffer_tx);
      } in
      rw (e, a, b, ← zero_seq)
        (loop-eq-transmit 5 (suc p.len_tx) n p.len_tx (take p.len_tx p.buffer_tx) pf.frame s p e h v
          (omega arith) (omega arith) (omega arith))
