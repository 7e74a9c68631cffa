-- ===== src/Comm/Raw/Message.antt =====
-- A message that is sent in packets arrives whole.
use native.Mathlib.Decide.{dec_lt}
use knot_hal_source.Prelude.{
  ℕ, zero, suc, ◌+◌, ◌*◌, ◌≤◌, ◌<◌, min, ◌≡◌, refl, ap, ◌∙◌, List, [], ◌∷◌, Option, none, some,
  arith, length, length-take, length-drop, length-overlay, take, drop, overlay,
}
use knot_hal_source.Link.{lid, nseq, lid_data_frag, lid_data_end}
use knot_hal_source.Comm.State.{Peer, data_size}
use knot_hal_source.Comm.Raw.{receive_data, finish_data, reset_keepalive}
use knot_hal_source.Comm.Raw.Fragments.{
  fragments, fragment, deliver, received, header, received-fragment, taken, receive-taken,
  received-InTurn, IsAssembled, IsReady, fragments-nil, deliver-cons, finish-last, taken-IsReady,
  taken-IsAssembled, kind,
}

-- the peer after a packet that carries the first part of `m`
abbrev after : Peer → ℕ → List ℕ → ℕ → ℕ → List ℕ → Peer
after p seq m o r ls =
    finish_data (received (header seq m o) r ls (take 30 m)) (taken (reset_keepalive p) (take 30 m))

-- One packet of the message, and the peer after it.
receive-next :
    (p : Peer) (seq : ℕ) (m : List ℕ) (o r : ℕ) (os : List ℕ) (a b : ℕ) (ls : List ℕ)
    → length os ≡ 30
    → length ls ≡ 30
    → IsReady p seq m
    → 0 < length m
    → receive_data p
        (min 30 (length m) + 2)
        (overlay (a ∷ b ∷ ls) (take (min 30 (length m) + 2) (fragment seq m (o ∷ r ∷ os))))
      ≡ some (after p seq m o r ls)
receive-next p seq m o r os a b ls ho hl v left =
    let n : min 30 (length m) ≡ length (take 30 m) = omega (arith, length-take 30 m) in
    rw (received-fragment seq m o r os a b ls ho, n)
      (receive-taken p _ (take 30 m)
        (received-InTurn p seq m o r ls hl v.area v.idle left v.room v.turn v.place))

lid-received :
    (seq : ℕ) (m : List ℕ) (o r : ℕ) (ls c : List ℕ)
    → lid (received (header seq m o) r ls c) ≡ kind m
unfolding header
lid-received seq m o r ls c = ground arith

-- What a peer has after one packet, and the rest of the packets.
deliver-next :
    (p : Peer) (seq : ℕ) (m : List ℕ) (o r : ℕ) (os : List ℕ) (a b : ℕ) (ls : List ℕ)
    (rest : List (List ℕ × ℕ))
    → length os ≡ 30
    → length ls ≡ 30
    → IsReady p seq m
    → 0 < length m
    → deliver p (a ∷ b ∷ ls) ((fragment seq m (o ∷ r ∷ os), min 30 (length m) + 2) ∷ rest)
      ≡ deliver (after p seq m o r ls) (received (header seq m o) r ls (take 30 m)) rest
deliver-next p seq m o r os a b ls rest ho hl v left =
    deliver-cons p (a ∷ b ∷ ls) (fragment seq m (o ∷ r ∷ os)) (min 30 (length m) + 2) rest
      (receive-next p seq m o r os a b ls ho hl v left)
    ∙ ap (λ pl. deliver (after p seq m o r ls) pl rest) (received-fragment seq m o r os a b ls ho)

kind-frag : (m : List ℕ) → 30 < length m → kind m ≡ lid_data_frag
kind-frag m h = ground arith

kind-end : (m : List ℕ) → length m ≤ 30 → kind m ≡ lid_data_end
kind-end m h = ground arith

drop-all : (n : ℕ) (m : List ℕ) → length m ≤ n → drop n m ≡ []
drop-all zero [] h = refl
drop-all zero (x ∷ m) h = absurd (omega arith)
drop-all (suc n) [] h = refl
drop-all (suc n) (x ∷ m) h = drop-all n m (omega arith)

deliver-end :
    (f : ℕ) (p : Peer) (pl : List ℕ) (seq : ℕ) (old : List ℕ) {m : List ℕ}
    → m ≡ []
    → deliver p pl (fragments f seq m old) ≡ some p
unfolding deliver
deliver-end f p pl seq old e = rw (e, fragments-nil f seq old) refl

deliver-fragments :
    (f : ℕ) (p : Peer) (seq : ℕ) (m : List ℕ) (o r : ℕ) (os : List ℕ) (a b : ℕ) (ls : List ℕ)
    → length os ≡ 30
    → length ls ≡ 30
    → IsReady p seq m
    → 0 < length m
    → length m ≤ 30 * f
    → (q : Peer) × (deliver p (a ∷ b ∷ ls) (fragments f seq m (o ∷ r ∷ os)) ≡ some q)
      × IsAssembled p m q
unfolding fragments header
deliver-fragments zero p seq m o r os a b ls ho hl v left bound = absurd (omega arith)
deliver-fragments (suc f) p seq [] o r os a b ls ho hl v left bound = absurd (omega arith)
deliver-fragments (suc f) p seq (x ∷ xs) o r os a b ls ho hl v left bound =
    let m : List ℕ = x ∷ xs in
    let h : ℕ = header seq m o in
    let next = deliver-next p seq m o r os a b ls in
    elim (dec_lt 30 (length m)) [
      | yes big ↦
          let k = lid-received seq m o r ls (take 30 m) ∙ kind-frag m big in
          let (q, e, w) =
            deliver-fragments f _ (seq + 1) (drop 30 m) h r (overlay os (take 30 m)) h r
              (overlay ls (take 30 m)) (length-overlay os (take 30 m) ∙ ho)
              (length-overlay ls (take 30 m) ∙ hl) (taken-IsReady p seq m _ v big k)
              (omega (arith, length-drop 30 m)) (omega (arith, length-drop 30 m)) in
          (q, next _ ho hl v left ∙ e, taken-IsAssembled p seq m _ q v big k w)
      | no small ↦
          let k = lid-received seq m o r ls (take 30 m) ∙ kind-end m (omega arith) in
          (
            after p seq m o r ls,
            next _ ho hl v left
                ∙ deliver-end f (after p seq m o r ls) _ (seq + 1) _ (drop-all 30 m (omega arith)),
            finish-last p seq m _ v (omega arith) k,
          )
    ]

-- The packet with the number zero starts over, whatever was put together before.
restart :
    (p : Peer) (ilen : ℕ) (pl : List ℕ)
    → p.len_rx ≡ 0
    → nseq pl ≡ 0
    → receive_data p ilen pl ≡ receive_data (record p { offset_rx = 0; seqnumber_rx = 0 }) ilen pl
unfolding receive_data
restart p ilen pl idle e = ground arith

continue : List ℕ → List (List ℕ × ℕ) → Option Peer → Option Peer
continue pl rest r = elim r [ none ↦ none | some q ↦ deliver q pl rest ]

deliver-restart :
    (p : Peer) (pl packet : List ℕ) (n : ℕ) (rest : List (List ℕ × ℕ))
    → p.len_rx ≡ 0
    → nseq (overlay pl (take n packet)) ≡ 0
    → deliver p pl ((packet, n) ∷ rest)
      ≡ deliver (record p { offset_rx = 0; seqnumber_rx = 0 }) pl ((packet, n) ∷ rest)
unfolding deliver continue
deliver-restart p pl packet n rest idle e =
    ap (continue (overlay pl (take n packet)) rest)
      (restart p n (overlay pl (take n packet)) idle e)

nseq-first :
    (m : List ℕ) (o r : ℕ) (os : List ℕ) (a b : ℕ) (ls : List ℕ)
    → length os ≡ 30
    → nseq (overlay (a ∷ b ∷ ls) (take (min 30 (length m) + 2) (fragment 0 m (o ∷ r ∷ os)))) ≡ 0
unfolding header
nseq-first m o r os a b ls h = rw (received-fragment 0 m o r os a b ls h) (ground arith)

-- A message of 1 to 128 bytes, cut into packets, arrives whole at any peer that has no message to
-- be read, taken in order over whatever the two payloads held before and whatever the peer had put
-- together: the message is ready, the first bytes of the buffer are its bytes, and the peer waits
-- for a new one.
pub fragments_arrive :
    (p : Peer) (m sent got : List ℕ)
    → length sent ≡ 32
    → length got ≡ 32
    → length p.buffer_rx ≡ data_size
    → p.len_rx ≡ 0
    → 0 < length m
    → length m ≤ data_size
    → (q : Peer) × (deliver p got (fragments 5 0 m sent) ≡ some q)
      × (q.len_rx ≡ length m)
      × (take q.len_rx q.buffer_rx ≡ m)
      × (q.seqnumber_rx ≡ 0)
      × (q.offset_rx ≡ 0)
unfolding fragments
fragments_arrive p [] sent got hs hg area idle left fits = absurd (omega arith)
fragments_arrive p (x ∷ xs) [] got hs hg area idle left fits = absurd (omega arith)
fragments_arrive p (x ∷ xs) (o ∷ []) got hs hg area idle left fits = absurd (omega arith)
fragments_arrive p (x ∷ xs) (o ∷ r ∷ os) [] hs hg area idle left fits = absurd (omega arith)
fragments_arrive p (x ∷ xs) (o ∷ r ∷ os) (a ∷ []) hs hg area idle left fits = absurd (omega arith)
fragments_arrive p (x ∷ xs) (o ∷ r ∷ os) (a ∷ b ∷ ls) hs hg area idle left fits =
    let m : List ℕ = x ∷ xs in
    let p' : Peer = record p { offset_rx = 0; seqnumber_rx = 0 } in
    let ready : IsReady p' 0 m = record {
      area = area;
      idle = idle;
      room = omega arith;
      turn = refl;
      place = refl;
    } in
    let (q, e, w) =
      deliver-fragments 5 p' 0 m o r os a b ls (omega arith) (omega arith) ready left
        (omega arith) in
    (
      q,
      deliver-restart p (a ∷ b ∷ ls) (fragment 0 m (o ∷ r ∷ os)) (min 30 (length m) + 2) _ idle
            (nseq-first m o r os a b ls (omega arith))
          ∙ e,
      omega (arith, w.whole),
      w.bytes,
      w.sequence,
      w.offset,
    )
