-- ===== src/Phy/Checks/Tests.antt =====
-- A link partner that advertises one mode; the world counts the verdicts.
use net_drv_ts.Base.{ℕ, ◌+◌, ◌≡◌, ◌↔◌, ◌⊎◌, refl, ap, sym, Bool, true, false, codes, Result, ok}
use net_drv_ts.Phy.Checks.{
  CheckOps, CheckLaws, check_partner_mode_advertised, check_partner_mode_advertised_iff,
  lp_tree_is_exposed, exposed_modes,
}

abbrev ops : CheckOps ℕ
ops = record {
  sync = λ w. (ok tt, w);
  find_lp_advertised = λ w. ok 1;
  autoneg_get = λ w. ok 1;
  autoneg_lp_adv_get = λ w. ok 1;
  mode_oper_get = λ w. ok (1000, 1);
  mode_adv_get = λ n w. ok true;
  lp_advertised = λ n w. ok true;
  warn = λ w. w;
  verdict = λ w. w + 1;
}

abbrev laws : CheckLaws ops
laws = record {
  verdicts = λ w. w;
  verdict_lem = λ w. refl;
  verdict_reads = λ n w. refl;
  warn_lem = λ w. refl;
  sync_lem = λ w w' e. ap (λ q. q.1) (sym e);
}

check_partner_mode_advertised_iff_example :
    (exposed : Bool) × (w1 : ℕ) × (lp_tree_is_exposed ops 0 ≡ (ok exposed, w1))
    × ((◌≡◌ {A = ℕ} 1 0) ↔ ((exposed ≡ false) ⊎ (◌≡◌ {A = Result Bool} (ok true) (ok false))))
unfolding check_partner_mode_advertised lp_tree_is_exposed exposed_modes
check_partner_mode_advertised_iff_example =
    check_partner_mode_advertised_iff ops laws (codes "1000baseT_Full") false 0 1 refl
