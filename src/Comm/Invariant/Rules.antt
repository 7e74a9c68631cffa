-- ===== src/Comm/Invariant/Rules.antt =====
-- Rules for showing that a function ends in a valid state: one for each way that the functions go
-- on.
use knot_hal_source.Prelude.{
  ℕ, zero, suc, ◌+◌, ◌-◌, ◌≤◌, ◌≡◌, refl, ◌∙◌, Bool, true, false, Option, none, some, List, ℤ, pos,
  negsuc, arith, if◌then◌else◌, length, write_at, slice, leb, le→leb, length, set,
}
use knot_hal_source.Comm.State.{Presence, Hal, Peer, Mgmt}
use knot_hal_source.Comm.Run.{Run, ok, fault, and_then, from_option, peer_at}
use knot_hal_source.Comm.Raw.Receive.{IsSound}
use knot_hal_source.Comm.Run.{memcpy}
use knot_hal_source.Comm.Invariant.{IsValid, IsSound, IsMgmt, store-IsValid, mgmt-IsValid}

-- A run ends with fuel left: with a value and a state of which `Q` holds, or by a fault that `H` allows.
pub data Ensures {W A : Type 0} (H : Type 0) (Q : A → Hal W → Type 0) : Run W A → Type 0 where
  done : {a : A} {s : Hal W} → Q a s → Ensures H Q (ok a s)
  overrun : H → Ensures H Q fault

module _ {W B H : Type 0} where
  pub Ensures-memcpy :
      {R : B → Hal W → Type 0} (dst : List ℕ) (to : ℕ) (src : List ℕ) (from n : ℕ) (s : Hal W)
      (k : List ℕ → Hal W → Run W B)
      → to + n ≤ length dst
      → from + n ≤ length src
      → Ensures H R (k (write_at dst to (slice from n src)) s)
      → Ensures H R (and_then (memcpy dst to src from n s) k)
  Ensures-memcpy dst to src from n s k a b h =
      let x : leb (to + n) (length dst) ≡ true = le→leb (to + n) (length dst) a in
      let y : leb (from + n) (length src) ≡ true = le→leb (from + n) (length src) b in rw (x, y) h

module _ {W A B H : Type 0} where
  pub Ensures-bind :
      {Q : A → Hal W → Type 0} {R : B → Hal W → Type 0} {r : Run W A} {k : A → Hal W → Run W B}
      → Ensures H Q r
      → ((a : A) (t : Hal W) → Q a t → Ensures H R (k a t))
      → Ensures H R (and_then r k)
  Ensures-bind (done h) f = f _ _ h
  Ensures-bind (overrun x) f = overrun x

  pub Ensures-some :
      {R : B → Hal W → Type 0} (o : Option A) (s : Hal W) (k : A → Hal W → Run W B)
      → (a : A) × (o ≡ some a)
      → ((a : A) → o ≡ some a → Ensures H R (k a s))
      → Ensures H R (and_then (from_option o s) k)
  Ensures-some none s k h f = cc
  Ensures-some (some a) s k h f = f a refl

  -- a part that may lead out of its objects
  pub Ensures-taken :
      {R : B → Hal W → Type 0} (o : Option A) (s : Hal W) (k : A → Hal W → Run W B)
      → (o ≡ none → H)
      → ((a : A) → o ≡ some a → Ensures H R (k a s))
      → Ensures H R (and_then (from_option o s) k)
  Ensures-taken none s k h f = overrun (h refl)
  Ensures-taken (some a) s k h f = f a refl

module _ {W A H : Type 0} where
  pub Ensures-if :
      {Q : A → Hal W → Type 0} (b : Bool) (x y : Hal W → Run W A) (s : Hal W)
      → (b ≡ true → Ensures H Q (x s))
      → (b ≡ false → Ensures H Q (y s))
      → Ensures H Q ((if b then x else y) s)
  Ensures-if true x y s f g = f refl
  Ensures-if false x y s f g = g refl

  -- the cases on the length that `phy_read` returns
  pub Ensures-read :
      {Q : A → Hal W → Type 0} (r : ℤ) (z : Hal W → Run W A) (k m : ℕ → Hal W → Run W A) (s : Hal W)
      → Ensures H Q (z s)
      → ((n : ℕ) → r ≡ pos (suc n) → Ensures H Q (k n s))
      → ((n : ℕ) → Ensures H Q (m n s))
      → Ensures H Q (
          (elim r as (λ _. Hal W → Run W A) [ pos zero ↦ z | pos (suc n) ↦ k n | negsuc n ↦ m n ])
            s)
  Ensures-read (pos zero) z k m s f g h = f
  Ensures-read (pos (suc n)) z k m s f g h = g n refl
  Ensures-read (negsuc n) z k m s f g h = h n

  pub Ensures-weaken :
      {Q R : A → Hal W → Type 0} {r : Run W A}
      → Ensures H Q r
      → ((a : A) (t : Hal W) → Q a t → R a t)
      → Ensures H R r
  Ensures-weaken (done h) f = done (f _ _ h)
  Ensures-weaken (overrun x) f = overrun x

-- From `s`, a function ends in a valid state `t`, with the state of `running` and the bitmask as
-- they were.
pub record Kept {W : Type 0} (pending : W → ℕ) (s t : Hal W) : Type 0 where
  pub valid : IsValid t
  pub same : t.running_state ≡ s.running_state
  pub mask : t.pipe_bitmask ≡ s.pipe_bitmask
  pub fewer : pending t.world ≤ pending s.world

-- The same, but for the bitmask
pub record Stays {W : Type 0} (pending : W → ℕ) (s t : Hal W) : Type 0 where
  pub valid : IsValid t
  pub same : t.running_state ≡ s.running_state
  pub fewer : pending t.world ≤ pending s.world

abbrev pub Keeps : {W A : Type 0} → Type 0 → (W → ℕ) → (Hal W → Run W A) → Type 0
Keeps H pending m = (s : Hal _) → IsValid s → Ensures H (λ _ t. Kept pending s t) (m s)

module _ {W A B H : Type 0} {pending : W → ℕ} where
  -- In a row: the second starts where the first ended.
  pub keeps_then :
      {s : Hal W} {r : Run W A} {k : A → Hal W → Run W B}
      → Ensures H (λ _ t. Kept pending s t) r
      → ((a : A) (t : Hal W) → Kept pending s t → Ensures H (λ _ u. Kept pending t u) (k a t))
      → Ensures H (λ _ t. Kept pending s t) (and_then r k)
  keeps_then h f = Ensures-bind h λ a t v. Ensures-weaken (f a t v) λ b u w. record {
    valid = w.valid;
    same = w.same ∙ v.same;
    mask = w.mask ∙ v.mask;
    fewer = omega arith;
  }

module _ {W : Type 0} {pending : W → ℕ} where
  pub Kept-refl : (s : Hal W) → IsValid s → Kept pending s s
  Kept-refl s v = record { valid = v; same = refl; mask = refl; fewer = omega arith }

  pub Kept-trans : {s t u : Hal W} → Kept pending s t → Kept pending t u → Kept pending s u
  Kept-trans k l = record {
    valid = l.valid;
    same = l.same ∙ k.same;
    mask = l.mask ∙ k.mask;
    fewer = omega arith;
  }

  -- The world behind the driver and the clock is no part of the invariant.
  pub Kept-world :
      (s : Hal W) (w : W)
      → IsValid s
      → pending w ≤ pending s.world
      → Kept pending s (record s { world = w })
  Kept-world s w v h = record {
    valid = record {
      pipes = v.pipes;
      sound = v.sound;
      mgmt_sound = v.mgmt_sound;
      mac_area = v.mac_area;
      index_low = v.index_low;
      index_high = v.index_high;
      opened = v.opened;
    };
    same = refl;
    mask = refl;
    fewer = h;
  }

  pub Kept-peer :
      (n : ℕ) (s : Hal W) {p : Peer} (q : Peer)
      → IsValid s
      → peer_at n s.peers ≡ some p
      → q.pipe ≡ p.pipe
      → IsSound q
      → Kept pending s (record s { peers = set s.peers (n - 1) q })
  Kept-peer n s q v e h w = record {
    valid = store-IsValid n s q v e h w;
    same = refl;
    mask = refl;
    fewer = omega arith;
  }

  pub Kept-mgmt :
      (s : Hal W) (m : Mgmt) → IsValid s → IsMgmt m → Kept pending s (record s { mgmt = m })
  Kept-mgmt s m v h = record {
    valid = mgmt-IsValid s m v h;
    same = refl;
    mask = refl;
    fewer = omega arith;
  }

  -- What comes before the rest of a function
  pub keeps_from :
      {A H : Type 0} {s t : Hal W} {r : Run W A}
      → Kept pending s t
      → Ensures H (λ _ u. Kept pending t u) r
      → Ensures H (λ _ u. Kept pending s u) r
  keeps_from k h = Ensures-weaken h λ _ _ l. Kept-trans k l

  pub stays : {s t : Hal W} → Kept pending s t → Stays pending s t
  stays k = record { valid = k.valid; same = k.same; fewer = k.fewer }

  pub Stays-trans : {s t u : Hal W} → Stays pending s t → Stays pending t u → Stays pending s u
  Stays-trans k l = record { valid = l.valid; same = l.same ∙ k.same; fewer = omega arith }

  pub Stays-then :
      {A B H : Type 0} {s : Hal W} {r : Run W A} {k : A → Hal W → Run W B}
      → Ensures H (λ _ t. Kept pending s t) r
      → ((a : A) (t : Hal W) → Kept pending s t → Ensures H (λ _ u. Stays pending t u) (k a t))
      → Ensures H (λ _ t. Stays pending s t) (and_then r k)
  Stays-then h f = Ensures-bind h λ a t v. Ensures-weaken (f a t v) λ _ _ l. Stays-trans (stays v) l

  pub Kept-times :
      (s : Hal W) (a b c : ℕ)
      → IsValid s
      → Kept pending s (record s { raw_timeout = a; rt_stamp = b; rt_offset = c })
  Kept-times s a b c v = record {
    valid = record {
      pipes = v.pipes;
      sound = v.sound;
      mgmt_sound = v.mgmt_sound;
      mac_area = v.mac_area;
      index_low = v.index_low;
      index_high = v.index_high;
      opened = v.opened;
    };
    same = refl;
    mask = refl;
    fewer = omega arith;
  }

  pub Kept-presence :
      (s : Hal W) (a b : Presence) (n : ℕ)
      → IsValid s
      → Kept pending s (record s { presence_state = a; previous_state = b; presence_start = n })
  Kept-presence s a b n v = record {
    valid = record {
      pipes = v.pipes;
      sound = v.sound;
      mgmt_sound = v.mgmt_sound;
      mac_area = v.mac_area;
      index_low = v.index_low;
      index_high = v.index_high;
      opened = v.opened;
    };
    same = refl;
    mask = refl;
    fewer = omega arith;
  }
