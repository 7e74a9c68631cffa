-- ===== src/Phy.antt =====
-- src/drivers/phy_driver.c: the table of the drivers and their reference counts. A driver's own
-- functions (`struct phy_driver` of phy_driver_private.h) are members of its entry, over a world of
-- their own. The counts are taken to stay within an `int`.
pub mod Count
use knot_hal_source.Prelude.{
  ℕ, suc, ◌+◌, ◌-◌, Option, none, some, List, [], ◌∷◌, ℤ, pos, negsuc, ◌==◌, ltb, if◌then◌else◌,
  bytes_eq, length, get_elem?, set,
}
use knot_hal_source.Comm.Errors.{einval}

pub record Driver (W : Type 0) : Type 0 where
  pub name : List ℕ
  pub pathname : List ℕ
  pub open_device : List ℕ → W → ℤ × W
  pub close_device : ℤ → W → W
  pub read : ℤ → List ℕ → ℕ → W → ℤ × List ℕ × W
  pub write : ℤ → List ℕ → ℕ → W → ℤ × W
  pub ioctl : ℤ → ℕ → List ℕ → W → ℤ × W
  pub ref_open : ℕ
  pub fd : ℤ

pub record Phy (W : Type 0) : Type 0 where
  pub driver_ops : List (Driver W)
  pub world : W

module _ {W : Type 0} where
  -- The last driver with the name, from index `i` on; `found` if there is none.
  unfoldable pub find_driver : List ℕ → ℕ → ℤ → List (Driver W) → ℤ
  find_driver pathname i found [] = found
  find_driver pathname i found (d ∷ ds) =
      find_driver pathname (suc i) (if bytes_eq pathname d.name then pos i else found) ds

  -- one more user of the driver at `k`
  unfoldable pub open_driver : ℕ → Driver W → Phy W → ℤ × Phy W
  open_driver k d s =
      if d.ref_open == 0
      then (let r = d.open_device d.pathname s.world in
          elim r.0 [
            | negsuc e ↦ (negsuc e, record s { world = r.1 })
            | pos fd ↦ (
              pos k,
              record {
                driver_ops = set s.driver_ops k (record d { fd = pos fd; ref_open = 1 });
                world = r.1;
              },
            )
          ])
      else (
        pos k,
        record s { driver_ops = set s.driver_ops k (record d { ref_open = d.ref_open + 1 }) },
      )

  -- `none` is an access outside of the table.
  unfoldable pub phy_open : List ℕ → Phy W → Option (ℤ × Phy W)
  phy_open pathname s = elim (find_driver pathname 0 (negsuc 0) s.driver_ops) [
    | negsuc n ↦ some (negsuc n, s)
    | pos k ↦ elim (get_elem? s.driver_ops k) [ none ↦ none | some d ↦ some (open_driver k d s) ]
  ]

  -- one user less of the driver at `k`
  unfoldable pub close_driver : ℕ → Driver W → Phy W → Phy W
  close_driver k d s =
      if d.ref_open == 0
      then s
      else if d.ref_open - 1 == 0
      then record {
        driver_ops = set s.driver_ops k (record d { ref_open = 0; fd = negsuc 0 });
        world = d.close_device d.fd s.world;
      }
      else record s { driver_ops = set s.driver_ops k (record d { ref_open = d.ref_open - 1 }) }

  unfoldable pub phy_close : ℤ → Phy W → Option (ℤ × Phy W)
  phy_close (negsuc n) s = some (einval, s)
  phy_close (pos k) s =
      if ltb (length s.driver_ops) k then some (einval, s) else elim (get_elem? s.driver_ops k) [
        | none ↦ none
        | some d ↦ some (pos 0, close_driver k d s)
      ]

  -- `driver_ops[sockfd]`
  unfoldable pub driver_at : ℤ → Phy W → Option (Driver W)
  driver_at (negsuc n) s = none
  driver_at (pos k) s = get_elem? s.driver_ops k

  unfoldable pub phy_read : ℤ → List ℕ → ℕ → Phy W → Option (ℤ × List ℕ × Phy W)
  phy_read sockfd buffer len s = elim (driver_at sockfd s) [
    | none ↦ none
    | some d ↦ let r = d.read d.fd buffer len s.world in some (r.0, r.1, record s { world = r.2 })
  ]

  unfoldable pub phy_write : ℤ → List ℕ → ℕ → Phy W → Option (ℤ × Phy W)
  phy_write sockfd buffer len s = elim (driver_at sockfd s) [
    | none ↦ none
    | some d ↦ let r = d.write d.fd buffer len s.world in some (r.0, record s { world = r.1 })
  ]

  unfoldable pub phy_ioctl : ℤ → ℕ → List ℕ → Phy W → Option (ℤ × Phy W)
  phy_ioctl sockfd cmd arg s = elim (driver_at sockfd s) [
    | none ↦ none
    | some d ↦ let r = d.ioctl d.fd cmd arg s.world in some (r.0, record s { world = r.1 })
  ]
