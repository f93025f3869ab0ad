-- ===== src/Prologue/Tests.antt =====
-- A device with two physical functions, of which one has an active port.
use net_drv_ts.Base.{
  ◌≡◌, ◌++◌, refl, ap, sym, true, some, List, [], ◌∷◌, Bytes, codes, ◌==◌, if◌then◌else◌, ok, err,
  te_rc, te_cs, etimedout,
}
use net_drv_ts.Prologue.Pci.{
  Place, PciOps, add_pci_device_count_tags, add_counts_of, add_counts, add_count_tag, count_pfs,
  driver_devices, pf_count_by_driver, active_answer, count_ports, pf_active_port_count,
  active_ports_of, count_devices, device_active_port_count,
}
use net_drv_ts.Prologue.Pci.Counts.{TagLaws, add_pci_device_count_tags-tags}

abbrev place : Place
place = record { domain = 0; bus = 3; device = 0 }

abbrev ops : PciOps (List (Bytes × Bytes))
ops = record {
  oid_by_net_if = λ n w. ok (1 ∷ []);
  get_driver = λ n w. ok (some (codes "sfc"));
  devices_by_driver = λ n w. ok ((1 ∷ []) ∷ (2 ∷ []) ∷ []);
  get_dbdf = λ n w. ok place;
  is_pf = λ n w. ok true;
  find_devices = λ w. ok (1 ∷ 2 ∷ []);
  get_oid_str = λ h w. ok (h ∷ []);
  find_ports = λ n w. ok (7 ∷ 8 ∷ []);
  port_if_name = λ h w. ok (h ∷ []);
  await_link_up = λ n w. (elim n [
    | [] ↦ ok tt
    | h ∷ _ ↦ (if h == 7 then ok tt else err (te_rc te_cs etimedout))
  ]);
  add_tag = λ n v w. (ok tt, w ++ (n, v) ∷ []);
  fmt_u = λ n. n ∷ [];
}

abbrev laws : TagLaws ops
laws = record { tags = λ w. w; add_tag_lem = λ n v w w' e. ap (λ q. q.1) (sym e) }

add_pci_device_count_tags-tags_example :
    (add_pci_device_count_tags ops (codes "eth0") []).1
    ≡ (codes "pf-count", 2 ∷ []) ∷ (codes "active-port-count", 2 ∷ []) ∷ []
unfolding add_pci_device_count_tags add_counts_of add_counts add_count_tag count_pfs driver_devices
    pf_count_by_driver active_answer count_ports pf_active_port_count active_ports_of count_devices
    device_active_port_count
add_pci_device_count_tags-tags_example =
    add_pci_device_count_tags-tags ops laws (codes "eth0") (1 ∷ []) place []
      (add_pci_device_count_tags ops (codes "eth0") []).1 refl refl refl
