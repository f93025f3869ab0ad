-- ===== src/Prologue/Pci.antt =====
-- The counts of physical functions and active ports of the tested PCI device, and their tags, in
-- net-drv-ts/prologue.c. A call that fails is passed over.
pub mod Counts
use net_drv_ts.Base.{
  ℕ, zero, suc, ◌+◌, ◌%◌, ◌^◌, ◌<◌, ◌≤◌, ◌≡◌, ◌∙◌, ◌++◌, inl, inr, refl, ap, ap₂, sym, Bool, true,
  false, not, ◌&&◌, ◌||◌, none, some, Option, ⊤, List, [], ◌∷◌, Bytes, codes, length, ◌==◌, ltb,
  if◌then◌else◌, M, Result, ok, err, ends, pure, jump, reads, check_rc, when, ◌>>=◌, ◌>>◌,
  >>=-eq-ok, check_rc-eq-ok, TeErrno, is_etimedout, Bool-cases, arith,
}

-- Domain, bus and device
pub record Place : Type 0 where
  pub domain : ℕ
  pub bus : ℕ
  pub device : ℕ

abbrev pub same_place : Place → Place → Bool
same_place a b = a.domain == b.domain && a.bus == b.bus && a.device == b.device

-- The requests to the configuration tree, for one agent, and `tapi_tags_add_tag`. `fmt_u` is the
-- conversion of "%u".
pub record PciOps (W : Type 0) : Type 0 where
  pub oid_by_net_if : Bytes → W → Result Bytes
  pub get_driver : Bytes → W → Result (Option Bytes)
  pub devices_by_driver : Bytes → W → Result (List Bytes)
  pub get_dbdf : Bytes → W → Result Place
  pub is_pf : Bytes → W → Result Bool
  pub find_devices : W → Result (List ℕ)
  pub get_oid_str : ℕ → W → Result Bytes
  pub find_ports : Bytes → W → Result (List ℕ)
  pub port_if_name : ℕ → W → Result Bytes
  pub await_link_up : Bytes → W → Result ⊤
  pub add_tag : Bytes → Bytes → M W ⊤
  pub fmt_u : ℕ → Bytes

abbrev pub is_true : Result Bool → Bool
is_true (ok b) = b
is_true (err _) = false
is_true (ends _) = false

abbrev pub is_at : Place → Result Place → Bool
is_at p (ok q) = same_place q p
is_at p (err _) = false
is_at p (ends _) = false

-- `unsigned int`
abbrev pub uint : ℕ → ℕ
uint n = n % 2 ^ 32

module _ {W : Type 0} (o : PciOps W) (w : W) where
  -- A physical function of the device
  abbrev pub is_pf_at : Place → Bytes → Bool
  is_pf_at p oid = is_at p (o.get_dbdf oid w) && is_true (o.is_pf oid w)

  unfoldable pub count_pfs : Place → List Bytes → ℕ → ℕ
  count_pfs p [] pf_count = pf_count
  count_pfs p (oid ∷ oids) pf_count =
      if not (is_at p (o.get_dbdf oid w))
      then count_pfs p oids pf_count
      else if not (is_true (o.is_pf oid w))
      then count_pfs p oids pf_count
      else count_pfs p oids (uint (pf_count + 1))

  unfoldable pub driver_devices : Result (Option Bytes) → List Bytes
  driver_devices (ok none) = []
  driver_devices (ok (some [])) = []
  driver_devices (ok (some (c ∷ cs))) = elim (o.devices_by_driver (c ∷ cs) w) [
    | ok oids ↦ oids
    | err _ ↦ []
    | ends _ ↦ []
  ]
  driver_devices (err _) = []
  driver_devices (ends _) = []

  unfoldable pub pf_count_by_driver : Bytes → Place → ℕ
  unfolding count_pfs driver_devices
  pf_count_by_driver if_pci_oid p = count_pfs p (driver_devices (o.get_driver if_pci_oid w)) 0

  -- pci_port_is_active(): a link that is not up in time is no error.
  unfoldable pub active_answer : Result ⊤ → Result Bool
  active_answer (ok _) = ok true
  active_answer (err e) = if is_etimedout e.error then ok false else err e
  active_answer (ends j) = ends j

  abbrev pub port_is_active : Bytes → Result Bool
  port_is_active if_name = active_answer (o.await_link_up if_name w)

  abbrev pub named_port_is_active : Result Bytes → Bool
  named_port_is_active (ok if_name) = is_true (port_is_active if_name)
  named_port_is_active (err _) = false
  named_port_is_active (ends _) = false

  unfoldable pub count_ports : List ℕ → ℕ → ℕ
  unfolding active_answer
  count_ports [] active = active
  count_ports (h ∷ hs) active =
      if named_port_is_active (o.port_if_name h w)
      then count_ports hs (uint (active + 1))
      else count_ports hs active

  abbrev pub count_ports_of : Result (List ℕ) → ℕ
  count_ports_of (ok hs) = count_ports hs 0
  count_ports_of (err _) = 0
  count_ports_of (ends _) = 0

  unfoldable pub pf_active_port_count : Bytes → ℕ
  unfolding count_ports
  pf_active_port_count oid = count_ports_of (o.find_ports oid w)

  unfoldable pub active_ports_of : Place → Result Bytes → ℕ → ℕ
  unfolding pf_active_port_count
  active_ports_of p (ok oid) active =
      if is_pf_at p oid then uint (active + pf_active_port_count oid) else active
  active_ports_of p (err _) active = active
  active_ports_of p (ends _) active = active

  unfoldable pub count_devices : Place → List ℕ → ℕ → ℕ
  unfolding active_ports_of
  count_devices p [] active = active
  count_devices p (h ∷ hs) active =
      count_devices p hs (active_ports_of p (o.get_oid_str h w) active)

  abbrev pub count_devices_of : Place → Result (List ℕ) → ℕ
  count_devices_of p (ok hs) = count_devices p hs 0
  count_devices_of p (err _) = 0
  count_devices_of p (ends _) = 0

  unfoldable pub device_active_port_count : Place → ℕ
  unfolding count_devices
  device_active_port_count p = count_devices_of p (o.find_devices w)

module _ {W : Type 0} (o : PciOps W) where
  unfoldable pub add_count_tag : Bytes → ℕ → M W ⊤
  add_count_tag name count = when (ltb 0 count) (check_rc (o.add_tag name (o.fmt_u count)))

  unfoldable pub add_counts : Bytes → Result Place → M W ⊤
  unfolding add_count_tag
  add_counts if_pci_oid (ok p) w =
      (add_count_tag (codes "pf-count") (pf_count_by_driver o w if_pci_oid p)
          >> add_count_tag (codes "active-port-count") (device_active_port_count o w p))
        w
  add_counts if_pci_oid (err _) w = (ok tt, w)
  add_counts if_pci_oid (ends j) w = (ends j, w)

  unfoldable pub add_counts_of : Result Bytes → M W ⊤
  unfolding add_counts
  add_counts_of (ok oid) w = add_counts oid (o.get_dbdf oid w) w
  add_counts_of (err _) w = (ok tt, w)
  add_counts_of (ends j) w = (ends j, w)

  unfoldable pub add_pci_device_count_tags : Bytes → M W ⊤
  unfolding add_counts_of
  add_pci_device_count_tags if_name w = add_counts_of (o.oid_by_net_if if_name w) w
