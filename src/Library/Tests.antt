-- ===== src/Library/Tests.antt =====
-- A feature, a module and a MAC address on which the common test API runs.
use net_drv_ts.Base.{ℕ, refl, Bool, true, false, [], ◌∷◌, Bytes, ok, arith}
use net_drv_ts.Library.Feature.{FeatureOps, set_if_feature, HasStatus, set_if_feature-HasStatus}
use net_drv_ts.Library.Driver.{ModuleOps}
use net_drv_ts.Library.Address.{MacOps, PciParamOps}

-- A feature that is there; the world is its status.
abbrev feature : Bool → FeatureOps ℕ
feature readonly = record {
  is_present = λ w. ok true;
  is_readonly = λ w. ok readonly;
  get = λ w. ok w;
  set = λ v w. (ok tt, v);
}

set_if_feature-HasStatus_example : HasStatus (feature false) 1 1
unfolding set_if_feature
set_if_feature-HasStatus_example =
    set_if_feature-HasStatus (feature false) (λ v w w' h. ground arith) 1 0 1 refl

-- A module; the world is 1 where it is loaded.
abbrev module_ops : ModuleOps ℕ
module_ops = record {
  load = λ w. (ok tt, 1);
  unload = λ w. (ok tt, 0);
  set_unload_holders = λ w. (ok tt, w);
  loaded = λ w. ok w;
}

abbrev mac_ops : MacOps Bytes
mac_ops = record {
  set_hwaddr = λ a w. (ok tt, a);
  wait_changes = λ w. (ok tt, w);
  synchronize = λ w. (ok tt, w);
  get_hwaddr = λ w. ok w;
}

abbrev mac : Bytes
mac = 2 ∷ 0 ∷ 0 ∷ 0 ∷ 0 ∷ 9 ∷ []

abbrev pci_ops : PciParamOps ℕ
pci_ops = record {
  set_param = λ v w. (ok tt, v);
  synchronize = λ w. (ok tt, w);
  get_param = λ w. ok w;
}
