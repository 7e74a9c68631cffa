-- ===== src/Phy/Count.antt =====
-- The reference counts of the drivers: what an opening and a closing leave.
use knot_hal_source.Prelude.{
  ℕ, ◌+◌, ◌-◌, ◌<◌, ◌≡◌, refl, sym, none, some, List, [], ◌∷◌, pos, negsuc, arith, true, false,
  ◌==◌, ltb, length, length-set, get_elem?, get_elem?-set_self, lt_of_get_elem?, set, set-set,
  set_self,
}
use knot_hal_source.Phy.{Driver, Phy, find_driver, open_driver, phy_open, close_driver, phy_close}

module _ {A : Type 0} where
  past_end : (xs : List A) → get_elem? xs (length xs) ≡ none
  past_end [] = refl
  past_end (x ∷ xs) = past_end xs

module _ {W : Type 0} (s : Phy W) where
  -- `phy_close` of the number that follows the last driver's passes the test and leaves the table.
  phy_close-past_end : phy_close (pos (length s.driver_ops)) s ≡ none
  unfolding phy_close
  phy_close-past_end =
      let a : ltb (length s.driver_ops) (length s.driver_ops) ≡ false = ground arith in
      rw (a, past_end s.driver_ops)

module _ {W : Type 0} (s : Phy W) (path : List ℕ) (k : ℕ) (d : Driver W) where
  -- A driver that is open already is opened again without a call of its functions, and closing it
  -- once leaves the table and the world exactly as they were.
  pub phy_close-phy_open_shared :
      find_driver path 0 (negsuc 0) s.driver_ops ≡ pos k
      → get_elem? s.driver_ops k ≡ some d
      → 0 < d.ref_open
      → (t : Phy W) × (phy_open path s ≡ some (pos k, t))
        × (t.world ≡ s.world)
        × (phy_close (pos k) t ≡ some (pos 0, s))
  unfolding phy_open open_driver phy_close close_driver
  phy_close-phy_open_shared f e h =
      let q : Driver W = record d { ref_open = d.ref_open + 1 } in
      let i = lt_of_get_elem? s.driver_ops k d e in
      let a : (d.ref_open == 0) ≡ false = ground arith in
      let b : ltb (length (set s.driver_ops k q)) k ≡ false =
        let l = length-set s.driver_ops k q in ground arith in
      let c : (d.ref_open + 1 == 0) ≡ false = ground arith in
      let g : (d.ref_open + 1 - 1 == 0) ≡ false = ground arith in
      let n : d.ref_open + 1 - 1 ≡ d.ref_open = omega arith in
      (
        record s { driver_ops = set s.driver_ops k q },
        rw (f, phy_open, e, open_driver, a),
        refl,
        rw (
          phy_close,
          b,
          get_elem?-set_self s.driver_ops k q i,
          close_driver,
          c,
          g,
          n,
          set-set,
          set_self s.driver_ops k d e,
        ),
      )

  restored : d.ref_open ≡ 0 → d.fd ≡ negsuc 0 → record d { ref_open = 0; fd = negsuc 0 } ≡ d
  restored h g = λ i. record d { ref_open = sym h i; fd = sym g i }

  -- A driver that no one uses, and whose device opens, is opened by a call of its own function, and
  -- closing it hands the descriptor back to the driver and leaves the table exactly as it was.
  pub phy_close-phy_open_first :
      (fd : ℕ)
      → find_driver path 0 (negsuc 0) s.driver_ops ≡ pos k
      → get_elem? s.driver_ops k ≡ some d
      → d.ref_open ≡ 0
      → d.fd ≡ negsuc 0
      → (d.open_device d.pathname s.world).0 ≡ pos fd
      → (t : Phy W) × (phy_open path s ≡ some (pos k, t))
        × (t.world ≡ (d.open_device d.pathname s.world).1)
        × (phy_close (pos k) t ≡ some (pos 0, record s { world = d.close_device (pos fd) t.world }))
  unfolding phy_open open_driver phy_close close_driver
  phy_close-phy_open_first fd f e h g r =
      let q : Driver W = record d { ref_open = 1; fd = pos fd } in
      let i = lt_of_get_elem? s.driver_ops k d e in
      let a : (d.ref_open == 0) ≡ true = ground arith in
      let b : ltb (length (set s.driver_ops k q)) k ≡ false =
        let l = length-set s.driver_ops k q in ground arith in
      (
        record s {
          driver_ops = set s.driver_ops k q;
          world = (d.open_device d.pathname s.world).1;
        },
        rw (f, phy_open, e, open_driver, a, r),
        refl,
        rw (
          phy_close,
          b,
          get_elem?-set_self s.driver_ops k q i,
          close_driver,
          set-set,
          restored h g,
          set_self s.driver_ops k d e,
        ),
      )
