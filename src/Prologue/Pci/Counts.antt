-- ===== src/Prologue/Pci/Counts.antt =====
-- The counts of the prologue are those of all physical functions of the device among the driver's
-- devices, and of all active ports of all physical functions of the device.
use mathlib.Core.List.{append-nil}
use net_drv_ts.Base.{
  ℕ, suc, ◌+◌, ◌^◌, ◌<◌, ◌≡◌, ◌∙◌, ◌++◌, inl, inr, ap, ap₂, sym, Bool, List, [], ◌∷◌, Bytes, codes,
  ltb, if◌then◌else◌, Result, ok, err, ends, >>=-eq-ok, check_rc-eq-ok, Bool-cases, arith,
}
use net_drv_ts.Prologue.Pci.{
  Place, PciOps, is_true, is_at, uint, is_pf_at, count_pfs, driver_devices, pf_count_by_driver,
  named_port_is_active, count_ports, count_ports_of, count_devices_of, add_counts_of,
  pf_active_port_count, active_ports_of, count_devices, device_active_port_count, add_count_tag,
  add_counts, add_pci_device_count_tags,
}

-- How many entries pass a test, and the sum of a number for each.
abbrev pub count {ℓ} : {A : Type ℓ} → (A → Bool) → List A → ℕ
count f [] = 0
count f (x ∷ xs) = if f x then suc (count f xs) else count f xs

abbrev pub total {ℓ} : {A : Type ℓ} → (A → ℕ) → List A → ℕ
total f [] = 0
total f (x ∷ xs) = f x + total f xs

uint_twice : (n k : ℕ) → uint (uint n + k) ≡ uint (n + k)
uint_twice n k = omega arith

uint_add : (n m k : ℕ) → uint (uint (n + uint m) + k) ≡ uint (n + (m + k))
uint_add n m k = omega arith

uint_small : (n : ℕ) → n < 2 ^ 32 → uint (n + 0) ≡ n
uint_small n h = omega (arith, h)

uint_bound : (n : ℕ) → uint n < 2 ^ 32
uint_bound n = omega arith

-- The laws of a tag that is added.
pub record TagLaws {W : Type 0} (o : PciOps W) : Type 0 where
  pub tags : W → List (Bytes × Bytes)
  pub add_tag_lem :
      (n v : Bytes) (w w' : W) → o.add_tag n v w ≡ (ok tt, w') → tags w' ≡ tags w ++ (n, v) ∷ []

module _ {W : Type 0} (o : PciOps W) (w : W) where
  -- What a handle stands for: the active ports of a physical function of the device.
  abbrev pub ports_of : Result (List ℕ) → ℕ
  ports_of (ok hs) = count (λ h. named_port_is_active o w (o.port_if_name h w)) hs
  ports_of (err _) = 0
  ports_of (ends _) = 0

  abbrev pub active_ports : Place → Result Bytes → ℕ
  active_ports p (ok oid) = if is_pf_at o w p oid then uint (ports_of (o.find_ports oid w)) else 0
  active_ports p (err _) = 0
  active_ports p (ends _) = 0

  abbrev pub all_active_ports : Place → Result (List ℕ) → ℕ
  all_active_ports p (ok hs) = total (λ h. active_ports p (o.get_oid_str h w)) hs
  all_active_ports p (err _) = 0
  all_active_ports p (ends _) = 0

  count_pfs-count :
      (p : Place) (oids : List Bytes) (n : ℕ)
      → n < 2 ^ 32
      → count_pfs o w p oids n ≡ uint (n + count (is_pf_at o w p) oids)
  unfolding count_pfs
  count_pfs-count p [] n h = sym (uint_small n h)
  count_pfs-count p (oid ∷ oids) n h = elim (Bool-cases (is_at p (o.get_dbdf oid w))) [
    | inr other ↦ rw other (count_pfs-count p oids n h)
    | inl there ↦ elim (Bool-cases (is_true (o.is_pf oid w))) [
      | inr function ↦ rw (there, function) (count_pfs-count p oids n h)
      | inl physical ↦
          let rest = count_pfs-count p oids (uint (n + 1)) (uint_bound (n + 1)) in
          rw (there, physical) (omega (arith, rest))
    ]
  ]

  pf_count-count :
      (oid : Bytes) (p : Place)
      → pf_count_by_driver o w oid p
        ≡ uint (count (is_pf_at o w p) (driver_devices o w (o.get_driver oid w)))
  unfolding pf_count_by_driver
  pf_count-count oid p =
      let n = count (is_pf_at o w p) (driver_devices o w (o.get_driver oid w)) in
      omega (arith, count_pfs-count p (driver_devices o w (o.get_driver oid w)) 0 (omega arith))

  count_ports-count :
      (hs : List ℕ) (n : ℕ)
      → n < 2 ^ 32
      → count_ports o w hs n
        ≡ uint (n + count (λ h. named_port_is_active o w (o.port_if_name h w)) hs)
  unfolding count_ports
  count_ports-count [] n h = sym (uint_small n h)
  count_ports-count (x ∷ xs) n h =
      elim (Bool-cases (named_port_is_active o w (o.port_if_name x w))) [
        | inr idle ↦ rw idle (count_ports-count xs n h)
        | inl active ↦
            let rest = count_ports-count xs (uint (n + 1)) (uint_bound (n + 1)) in
            rw active (omega (arith, rest))
      ]

  found-count : (x : Result (List ℕ)) → count_ports_of o w x ≡ uint (ports_of x)
  found-count (ok hs) = omega (arith, count_ports-count hs 0 (omega arith))
  found-count (err e) = omega arith
  found-count (ends j) = omega arith

  pf_active-count :
      (oid : Bytes) → pf_active_port_count o w oid ≡ uint (ports_of (o.find_ports oid w))
  unfolding pf_active_port_count
  pf_active-count oid = found-count (o.find_ports oid w)

  active_ports_of-total :
      (p : Place) (x : Result Bytes) (n : ℕ)
      → n < 2 ^ 32
      → active_ports_of o w p x n ≡ uint (n + active_ports p x)
  unfolding active_ports_of
  active_ports_of-total p (ok oid) n h = elim (Bool-cases (is_pf_at o w p oid)) [
    | inl counted ↦ rw counted (ap (λ k. uint (n + k)) (pf_active-count oid))
    | inr other ↦ rw other (sym (uint_small n h))
  ]
  active_ports_of-total p (err e) n h = sym (uint_small n h)
  active_ports_of-total p (ends j) n h = sym (uint_small n h)

  count_devices-total :
      (p : Place) (hs : List ℕ) (n : ℕ)
      → n < 2 ^ 32
      → count_devices o w p hs n ≡ uint (n + total (λ h. active_ports p (o.get_oid_str h w)) hs)
  unfolding count_devices
  count_devices-total p [] n h = sym (uint_small n h)
  count_devices-total p (x ∷ xs) n h =
      let one = active_ports_of-total p (o.get_oid_str x w) n h in
      let bound : active_ports_of o w p (o.get_oid_str x w) n < 2 ^ 32 = omega (arith, one) in
      omega
        (arith, one, count_devices-total p xs (active_ports_of o w p (o.get_oid_str x w) n) bound)

  found-total :
      (p : Place) (x : Result (List ℕ)) → count_devices_of o w p x ≡ uint (all_active_ports p x)
  found-total p (ok hs) = omega (arith, count_devices-total p hs 0 (omega arith))
  found-total p (err e) = omega arith
  found-total p (ends j) = omega arith

  device_active-total :
      (p : Place) → device_active_port_count o w p ≡ uint (all_active_ports p (o.find_devices w))
  unfolding device_active_port_count
  device_active-total p = found-total p (o.find_devices w)

module _ {W : Type 0} (o : PciOps W) (laws : TagLaws o) where
  open laws use {tags, add_tag_lem}

  -- The tag that a count gives
  abbrev pub count_tag : Bytes → ℕ → List (Bytes × Bytes)
  count_tag name n = if ltb 0 n then (name, o.fmt_u n) ∷ [] else []

  add_count_tag-tags :
      (name : Bytes) (n : ℕ) (w w' : W)
      → add_count_tag o name n w ≡ (ok tt, w')
      → tags w' ≡ tags w ++ count_tag name n
  unfolding add_count_tag
  add_count_tag-tags name n w w' e = elim (Bool-cases (ltb 0 n)) [
    | inl some_found ↦ rw some_found (
        add_tag_lem name (o.fmt_u n) w w'
          (check_rc-eq-ok (o.add_tag name (o.fmt_u n) w) w (rw some_found at e)))
    | inr none_found ↦
        rw none_found (ap (λ q. tags q.1) (sym (rw none_found at e)) ∙ sym (append-nil (tags w)))
  ]

  -- Where the tested interface's PCI device is found, the tags added are the number of physical
  -- functions of that device among the driver's devices and the number of active ports of its
  -- physical functions, in 32 bits, each unless it is 0.
  pub add_pci_device_count_tags-tags :
      (if_name oid : Bytes) (p : Place) (w w' : W)
      → o.oid_by_net_if if_name w ≡ ok oid
      → o.get_dbdf oid w ≡ ok p
      → add_pci_device_count_tags o if_name w ≡ (ok tt, w')
      → tags w'
        ≡ tags w
          ++ count_tag
              (codes "pf-count")
              (uint (count (is_pf_at o w p) (driver_devices o w (o.get_driver oid w))))
          ++ count_tag
              (codes "active-port-count")
              (uint (all_active_ports o w p (o.find_devices w)))
  unfolding add_pci_device_count_tags add_counts_of add_counts
  add_pci_device_count_tags-tags if_name oid p w w' found place e =
      let n = pf_count_by_driver o w oid p in
      let m = device_active_port_count o w p in
      let counts : add_counts o oid (ok p) w ≡ (ok tt, w') =
        ap (λ x. add_counts o oid x w) (sym place)
        ∙ ap (λ x. add_counts_of o x w) (sym found)
        ∙ e in
      let (_, v, first, second) =
        >>=-eq-ok (add_count_tag o (codes "pf-count") n)
          (λ _. add_count_tag o (codes "active-port-count") m) w {b = tt} {u = w'} counts in
      add_count_tag-tags (codes "active-port-count") m v w' second
      ∙ ap₂ (λ t k. t ++ count_tag (codes "active-port-count") k)
          (add_count_tag-tags (codes "pf-count") n w v first) (device_active-total o w p)
      ∙ ap
          (λ k.
            tags w
            ++ count_tag (codes "pf-count") k
            ++ count_tag (codes "active-port-count")
                (uint (all_active_ports o w p (o.find_devices w))))
          (pf_count-count o w oid p)
