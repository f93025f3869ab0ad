-- ===== src/Library/Address.antt =====
-- net_drv_set_check_mac() and net_drv_set_pci_param_uint() of net-drv-ts/lib/net_drv_ts.c: a
-- setting is written, read back and compared.
use net_drv_ts.Base.{
  ℕ, ◌≡◌, ◌&&◌, ⊤, ◌==◌, if◌then◌else◌, M, Result, ok, Bytes, str_eq, eq_of_str_eq, length, te_rc,
  te_tapi, einval, test_verdict, pure, fail, jump, reads, check_rc, on_error, value_or, [], ◌>>=◌,
  ◌>>◌, arith,
}

abbrev pub ether_addr_len : ℕ
ether_addr_len = 6

-- An address is read into ETHER_ADDR_LEN bytes.
pub record MacOps (W : Type 0) : Type 0 where
  pub set_hwaddr : Bytes → M W ⊤
  pub wait_changes : M W ⊤
  pub synchronize : M W ⊤
  pub get_hwaddr : W → Result Bytes

module _ {W : Type 0} (o : MacOps W) where
  -- `mac_addr` has ETHER_ADDR_LEN bytes, so `memcmp` over the length that was read back, once
  -- that is ETHER_ADDR_LEN, compares the whole of both.
  unfoldable pub set_check_mac : Bytes → M W ⊤
  set_check_mac mac_addr = do
    o.set_hwaddr mac_addr
    o.wait_changes
    o.synchronize
    got_addr ← reads o.get_hwaddr
    if length got_addr == ether_addr_len && str_eq mac_addr got_addr
        then pure tt
        else fail (te_rc te_tapi einval)

  -- Success means that the address read back after the change is the one that was set.
  pub set_check_mac-get_hwaddr :
      (mac : Bytes) (w w' : W) → set_check_mac mac w ≡ (ok tt, w') → o.get_hwaddr w' ≡ ok mac
  unfolding set_check_mac
  set_check_mac-get_hwaddr mac w w' h =
      ground (arith, eq_of_str_eq mac (value_or [] (o.get_hwaddr w')))

pub record PciParamOps (W : Type 0) : Type 0 where
  pub set_param : ℕ → M W ⊤
  pub synchronize : M W ⊤
  pub get_param : W → Result ℕ

module _ {W : Type 0} (o : PciParamOps W) where
  unfoldable pub set_pci_param_uint : ℕ → M W ⊤
  set_pci_param_uint value = do
    on_error (o.set_param value) (λ _. jump test_verdict)
    check_rc o.synchronize
    new_value ← on_error (reads o.get_param) (λ _. jump test_verdict)
    if new_value == value then pure tt else jump test_verdict

  -- The test goes on only where the parameter is reported to have the value that was set.
  pub set_pci_param_uint-get_param :
      (value : ℕ) (w w' : W) → set_pci_param_uint value w ≡ (ok tt, w') → o.get_param w' ≡ ok value
  unfolding set_pci_param_uint
  set_pci_param_uint-get_param value w w' h = ground arith
