-- ===== src/Library/Driver.antt =====
-- The network driver's module: net_drv_driver_name(), net_drv_driver_unloadable() and
-- net_drv_driver_set_loaded() of net-drv-ts/lib/net_drv_ts.c.
use net_drv_ts.Base.{
  ℕ, ◌≡◌, ◌↔◌, Bool, true, false, not, ⊤, Option, none, some, ◌==◌, bool_eq, if◌then◌else◌, M,
  Result, ok, err, ends, Bytes, codes, str_eq, te_rc, no_module, efail, pure, fail, reads, ◌>>=◌,
  ◌>>◌, arith,
}

-- On the answer of `tapi_cfg_pci_get_ta_driver`; `none` is NULL.
unfoldable pub driver_name : Result Bytes → Option Bytes
driver_name (ok name) = some (if str_eq name (codes "virtio-pci") then codes "virtio_net" else name)
driver_name (err e) = none
driver_name (ends j) = none

abbrev allows_unsafe : Option Bytes → Bool
allows_unsafe none = false
allows_unsafe (some value) = str_eq value (codes "yes")

-- On TE_ALLOW_UNSAFE_UNLOAD and the answer of `tapi_cfg_module_check_devices`.
unfoldable pub driver_unloadable : Option Bytes → Result Bool → Bool
driver_unloadable allow_unsafe devices =
    if allows_unsafe allow_unsafe
    then true
    else elim devices [ ok all_grabbed ↦ all_grabbed | err e ↦ false | ends j ↦ false ]

-- The module's nodes in the configuration tree, for one agent and one module.
pub record ModuleOps (W : Type 0) : Type 0 where
  pub load : M W ⊤
  pub unload : M W ⊤
  pub set_unload_holders : M W ⊤
  pub loaded : W → Result ℕ

module _ {W : Type 0} (o : ModuleOps W) where
  unfoldable pub driver_set_loaded : Bool → M W ⊤
  driver_set_loaded load = do
    (if load then o.load else o.set_unload_holders >> o.unload)
    loaded ← reads o.loaded
    if bool_eq load (not (loaded == 0)) then pure tt else fail (te_rc no_module efail)

  -- Where the commands that load or unload the module succeed and its state is reported
  -- afterwards, the call succeeds exactly where that is the requested state.
  pub driver_set_loaded_iff :
      (load : Bool) (v : ℕ) (w w' : W)
      → (if load then o.load w else (o.set_unload_holders >> o.unload) w) ≡ (ok tt, w')
      → o.loaded w' ≡ ok v
      → (driver_set_loaded load w ≡ (ok tt, w')) ↔ (not (v == 0) ≡ load)
  unfolding driver_set_loaded
  driver_set_loaded_iff true v w w' h l = ((λ k. ground arith), (λ k. ground arith))
  driver_set_loaded_iff false v w w' h l = ((λ k. ground arith), (λ k. ground arith))
