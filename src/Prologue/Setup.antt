-- ===== src/Prologue/Setup.antt =====
-- The kernel modules and the network settings of net-drv-ts/prologue.c: load_required_modules(),
-- disable_fw_lldp() and prepare_ipv6().
use net_drv_ts.Base.{
  ◌≡◌, ◌⊎◌, inl, inr, refl, ap, Bool-cases, check_rc-eq-ok, Bool, true, false, not, ◌||◌, none,
  some, Option, ⊤, Bytes, codes, str_eq, starts_with, if◌then◌else◌, M, Result, ok, err, ends, pure,
  fail, jump, reads, check_rc, on_error, when, test_verdict, ◌>>=◌, ◌>>◌, is_cs_enoent, is_enoent,
  is_enosys, is_eopnotsupp,
}

-- The module calls of one agent. `driver_name` and `driver_unloadable` are net_drv_driver_name()
-- and net_drv_driver_unloadable(); the former is called once the driver has been reported, and the
-- model has no NULL name.
pub record ModulesOps (W : Type 0) : Type 0 where
  pub get_ta_driver : W → Result (Option Bytes)
  pub module_add : Bytes → Bool → M W ⊤
  pub add_from_ta_dir : Bytes → Bool → M W ⊤
  pub add_from_ta_dir_or_fallback : Bytes → Bool → M W ⊤
  pub driver_unloadable : Bytes → W → Bool
  pub driver_name : W → Bytes

abbrev pub x3_driver_name : Bytes
x3_driver_name = codes "xilinx_efct"

module _ {W : Type 0} (o : ModulesOps W) where
  -- A failure is ignored.
  abbrev pub ignored : Result ⊤ × W → W
  ignored (_, w) = w

  -- Whether the module may be unloaded, after the try to add it
  unfoldable pub unloadable_after : Bytes → Result ⊤ × W → Bool × W
  unloadable_after driver (ok _, w) = (o.driver_unloadable driver w, w)
  unloadable_after driver (err _, w) = (true, w)
  unloadable_after driver (ends _, w) = (true, w)

  -- The modules of a driver; `net_driver` is the name of the network driver.
  unfoldable pub load_driver : Bytes → Bytes → M W ⊤
  load_driver driver net_driver =
      if starts_with driver (codes "sfc")
      then o.add_from_ta_dir_or_fallback (codes "sfc") true
      else if str_eq x3_driver_name driver
      then (λ w.
          o.add_from_ta_dir x3_driver_name true
            (ignored (o.add_from_ta_dir (codes "auxiliary") true w)))
      else (do
        o.add_from_ta_dir_or_fallback driver false
        when (not (str_eq driver net_driver)) (o.add_from_ta_dir_or_fallback net_driver false))

  -- For a driver that is reported; the rest follows the module_add whose result is dropped.
  unfoldable pub load_after_add : Bytes → Bool × W → Result ⊤ × W
  unfolding load_driver
  load_after_add driver (true, w) = load_driver driver (o.driver_name w) w
  load_after_add driver (false, w) = (ok tt, w)

  unfoldable pub load_reported : Option Bytes → M W ⊤
  unfolding load_after_add unloadable_after
  load_reported none w = (ok tt, w)
  load_reported (some driver) w =
      load_after_add driver (unloadable_after driver (o.module_add driver false w))

  unfoldable pub load_required_modules : M W ⊤
  unfolding load_reported
  load_required_modules = do driver ← reads o.get_ta_driver; load_reported driver

  -- A driver in use that must not be unloaded is left alone: nothing is done but to name it.
  load_required_modules_shared :
      (driver : Bytes) (w w1 : W)
      → o.get_ta_driver w ≡ ok (some driver)
      → o.module_add driver false w ≡ (ok tt, w1)
      → o.driver_unloadable driver w1 ≡ false
      → load_required_modules w ≡ (ok tt, w1)
  unfolding load_required_modules load_reported load_after_add unloadable_after
  load_required_modules_shared driver w w1 reported added shared =
      rw reported (rw added (rw shared refl))

-- `tapi_cfg_if_priv_flag_set` of disable-fw-lldp for an interface
unfoldable pub disable_fw_lldp : {W : Type 0} → M W ⊤ → M W ⊤
disable_fw_lldp priv_flag_set =
    on_error priv_flag_set (λ e. if is_cs_enoent e then pure tt else jump test_verdict)

-- The IPv6 settings and the requirement that skips the IPv6 tests.
pub record Ipv6Ops (W : Type 0) : Type 0 where
  pub enable_ipv6_support : M W ⊤
  pub assign_ip6 : M W ⊤
  pub reqs_modify : Bytes → M W ⊤
  pub verdict : W → W

module _ {W : Type 0} (o : Ipv6Ops W) where
  unfoldable pub after_enable : Result ⊤ × W → Result ⊤ × W
  after_enable (ok _, w) = check_rc o.assign_ip6 w
  after_enable (err e, w) =
      if is_enoent e.error || is_enosys e.error || is_eopnotsupp e.error
      then check_rc (o.reqs_modify (codes "!IP6")) (o.verdict w)
      else check_rc (fail e) w
  after_enable (ends j, w) = (ends j, w)

  unfoldable pub prepare_ipv6 : M W ⊤
  unfolding after_enable
  prepare_ipv6 w = after_enable (o.enable_ipv6_support w)

  after_enable-eq-ok :
      (x : Result ⊤ × W) (w' : W)
      → after_enable x ≡ (ok tt, w')
      → (check_rc o.assign_ip6 x.1 ≡ (ok tt, w'))
        ⊎ (check_rc (o.reqs_modify (codes "!IP6")) (o.verdict x.1) ≡ (ok tt, w'))
  unfolding after_enable
  after_enable-eq-ok (ok a, w) w' e = inl e
  after_enable-eq-ok (err e, w) w' h =
      elim (Bool-cases (is_enoent e.error || is_enosys e.error || is_eopnotsupp e.error)) [
        | inl absent ↦ inr (rw absent at h)
        | inr other ↦ absurd (cc (ap (λ q. q.0) (rw other at h)))
      ]
  after_enable-eq-ok (ends j, w) w' e = absurd (cc (ap (λ q. q.0) e))

  -- Where the test goes on, IPv6 addresses are assigned or the IPv6 tests are left out.
  pub prepare_ipv6-eq-ok :
      (w w' : W)
      → prepare_ipv6 w ≡ (ok tt, w')
      → let v = (o.enable_ipv6_support w).1 in
        (o.assign_ip6 v ≡ (ok tt, w')) ⊎ (o.reqs_modify (codes "!IP6") (o.verdict v) ≡ (ok tt, w'))
  unfolding prepare_ipv6
  prepare_ipv6-eq-ok w w' e =
      let v = (o.enable_ipv6_support w).1 in
      elim (after_enable-eq-ok (o.enable_ipv6_support w) w' e) [
        | inl assigned ↦ inl (check_rc-eq-ok (o.assign_ip6 v) v assigned)
        | inr left_out ↦
            inr (check_rc-eq-ok (o.reqs_modify (codes "!IP6") (o.verdict v)) (o.verdict v) left_out)
      ]
