-- ===== src/Nrfd/Loading.antt =====
-- The reading of the file of devices in src/nrfd/manager.c: the devices that it names get the slots in
-- order.
use knot_hal_source.Prelude.{
  ℕ, zero, suc, ◌+◌, ◌≤◌, ◌≡◌, ◌-◌, refl, sym, ap, ◌∙◌, arith, some, List, [], ◌∷◌, ◌++◌, map, pos,
  length, length-append, length-replicate, length-take, get_elem?, set, set-set, take, replicate,
}
use knot_hal_source.Nrfd.State.{Known, Daemon, Node, Services}
use knot_hal_source.Nrfd.Devices.{nrf24_str2mac}
use knot_hal_source.Nrfd.Config.{no_device, parse_node, parse_nodes, started}

-- A device is its address and its name: in the file, and in a slot.
abbrev pub node_of : {W : Type 0} → Services W → ℕ × List ℕ → Node
node_of sv device = record { node_mac = some (sv.print_mac device.0); node_name = some device.1 }

abbrev pub slot_of : ℕ × List ℕ → Known
slot_of device = record no_device { addr = device.0; alias = device.1 }

set-append :
    {A : Type 0} (front : List A) (x y : A) (back : List A)
    → set (front ++ (x ∷ back)) (length front) y ≡ front ++ (y ∷ back)
set-append [] x y back = refl
set-append (f ∷ front) x y back = ap (◌∷◌ f) (set-append front x y back)

append_one :
    {A : Type 0} (front : List A) (x : A) (back : List A)
    → (front ++ (x ∷ [])) ++ back ≡ front ++ (x ∷ back)
append_one [] x back = refl
append_one (f ∷ front) x back = ap (◌∷◌ f) (append_one front x back)

replicate-append :
    {A : Type 0} (n k : ℕ) (x : A) → k ≤ n → replicate n x ≡ replicate k x ++ replicate (n - k) x
replicate-append zero zero x h = refl
replicate-append (suc n) zero x h = let all : suc n - 0 ≡ suc n = omega arith in rw all refl
replicate-append zero (suc k) x h = absurd (omega arith)
replicate-append (suc n) (suc k) x h =
    let less : suc n - suc k ≡ n - k = omega arith in
    rw less (ap (◌∷◌ x) (replicate-append n k x (omega arith)))

take-map : {A B : Type 0} (f : A → B) (n : ℕ) (xs : List A) → take n (map f xs) ≡ map f (take n xs)
take-map f zero xs = refl
take-map f (suc n) [] = refl
take-map f (suc n) (x ∷ xs) = ap (◌∷◌ (f x)) (take-map f n xs)

-- An address, printed as in the file, reads back.
abbrev pub ReadsBack : {W : Type 0} → Services W → ℕ × List ℕ → Type 0
ReadsBack sv device = nrf24_str2mac sv (sv.print_mac device.0) ≡ some device.0

take_reads :
    {W : Type 0} (sv : Services W) (n : ℕ) (devices : List (ℕ × List ℕ))
    → ((i : ℕ) (device : ℕ × List ℕ) → get_elem? devices i ≡ some device → ReadsBack sv device)
    → (i : ℕ) (device : ℕ × List ℕ) → get_elem? (take n devices) i ≡ some device
    → ReadsBack sv device
take_reads sv zero devices reads i device e = absurd (ground arith)
take_reads sv (suc n) [] reads i device e = absurd (ground arith)
take_reads sv (suc n) (x ∷ devices) reads zero device e = reads 0 device e
take_reads sv (suc n) (x ∷ devices) reads (suc i) device e =
    take_reads sv n devices (λ j. reads (suc j)) i device e

module _ {W : Type 0} (sv : Services W) where
  parse_node_loads :
      (devices : List (ℕ × List ℕ)) (front old back : List Known) (d : Daemon W)
      → ((i : ℕ) (device : ℕ × List ℕ) → get_elem? devices i ≡ some device → ReadsBack sv device)
      → d.known_peers ≡ front ++ (old ++ back)
      → length old ≡ length devices
      → parse_node sv (length front) (map (node_of sv) devices) d ≡ (
        pos 0,
        record d {
          known_peers = front ++ (map slot_of devices ++ back);
          known_peers_size = d.known_peers_size + length devices;
        },
      )
  unfolding parse_node
  parse_node_loads [] front [] back d reads e h =
      let nothing : d.known_peers_size + 0 ≡ d.known_peers_size = omega arith in
      rw (← e, nothing) refl
  parse_node_loads [] front (o ∷ old) back d reads e h = absurd (omega arith)
  parse_node_loads (x ∷ devices) front [] back d reads e h = absurd (omega arith)
  parse_node_loads (x ∷ devices) front (o ∷ old) back d reads e h =
      let i = length front in
      let placed : set (set d.known_peers i (record no_device { addr = x.0 })) i (slot_of x)
          ≡ (front ++ (slot_of x ∷ [])) ++ (old ++ back) =
        set-set d.known_peers i (record no_device { addr = x.0 }) (slot_of x)
        ∙ ap (λ slots. set slots i (slot_of x)) e
        ∙ set-append front o (slot_of x) (old ++ back)
        ∙ sym (append_one front (slot_of x) (old ++ back)) in
      let t : Daemon W = record d {
        known_peers = set (set d.known_peers i (record no_device { addr = x.0 })) i (slot_of x);
        known_peers_size = d.known_peers_size + 1;
      } in
      let more : length (front ++ (slot_of x ∷ [])) ≡ suc i =
        omega (arith, length-append front (slot_of x ∷ [])) in
      let size : d.known_peers_size + 1 + length devices
          ≡ d.known_peers_size + suc (length devices) =
        omega arith in
      let loads =
        parse_node_loads devices (front ++ (slot_of x ∷ [])) old back t (λ j. reads (suc j)) placed
          (omega arith) in
      let here : parse_node sv (suc i) (map (node_of sv) devices) t ≡ (
        pos 0,
        record d {
          known_peers = front ++ (slot_of x ∷ (map slot_of devices ++ back));
          known_peers_size = d.known_peers_size + suc (length devices);
        },
      ) =
        rw (more, append_one front (slot_of x) (map slot_of devices ++ back), size) at loads in
      rw (parse_node, reads 0 x refl) here

  -- If the file of devices holds an array whose elements have the printed address and the name of a
  -- device each, and those addresses read back, then `parse_nodes` succeeds: the first five devices get
  -- the slots in the order of the file, with no object on D-Bus yet, the other slots are free, and the
  -- count is the number of devices taken.
  pub parse_nodes_loads :
      (devices : List (ℕ × List ℕ)) (w : W)
      → ((i : ℕ) (device : ℕ × List ℕ) → get_elem? devices i ≡ some device → ReadsBack sv device)
      → sv.load_keys w ≡ some (some (map (node_of sv) devices))
      → parse_nodes sv (started w) ≡ (
        pos 0,
        record (started w) {
          known_peers =
              map slot_of (take 5 devices) ++ replicate (5 - length (take 5 devices)) no_device;
          known_peers_size = length (take 5 devices);
        },
      )
  unfolding parse_nodes
  parse_nodes_loads devices w reads e =
      let n = length (take 5 devices) in
      let fits : n ≤ 5 = omega (arith, length-take 5 devices) in
      let slots : replicate 5 no_device ≡ replicate n no_device ++ replicate (5 - n) no_device =
        replicate-append 5 n no_device fits in
      let counted : 0 + n ≡ n = omega arith in
      let loads =
        parse_node_loads (take 5 devices) [] (replicate n no_device) (replicate (5 - n) no_device)
          (started w) (take_reads sv 5 devices reads) slots (length-replicate n no_device) in
      rw (parse_nodes, e, take-map (node_of sv) 5 devices) (rw counted at loads)
