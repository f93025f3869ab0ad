-- ===== src/Ethtool/TxCoalesce/Tests.antt =====
-- Runs of the test on a driver.
use net_drv_ts.Base.{cleanup_check, ◌≡◌, refl, str_eq, ok, All}
use net_drv_ts.Ethtool.TxCoalesce.{
  time_only, invalid, profile_params, set_params_locally, save_profile_params, check_profile_params,
  check_supported, set_or_verdict, set_profile, run_body, run_test, enables_adaptive_tx,
  cleanup_set, cleanup, after_save, after_prev_adaptive, set_valid, set_invalid, expect_einval,
}
use net_drv_ts.Ethtool.TxCoalesce.Driver.{usecs, ops, laws, start}
use net_drv_ts.Ethtool.TxCoalesce.Restore.{run_test-restored}
use net_drv_ts.Ethtool.TxCoalesce.Applied.{run_body-applied}

run_test-restored_example : laws.actual (run_test ops time_only start).2 usecs ≡ 7
unfolding run_test run_body after_save after_prev_adaptive set_profile set_valid set_params_locally
    save_profile_params check_profile_params check_supported set_or_verdict enables_adaptive_tx
    profile_params cleanup cleanup_set cleanup_check str_eq
run_test-restored_example =
    run_test-restored ops laws time_only start (run_test ops time_only start).2
      (run_test ops time_only start).0 usecs refl refl

run_body-applied_example :
    All
      (λ p. laws.actual (run_body ops time_only start).0.1 p.name ≡ p.value)
      (profile_params time_only)
unfolding run_body after_save after_prev_adaptive set_profile set_valid set_params_locally
    save_profile_params check_profile_params check_supported set_or_verdict enables_adaptive_tx
    profile_params str_eq
run_body-applied_example =
    run_body-applied ops laws time_only start (run_body ops time_only start).0.1 refl refl

-- The driver refuses the invalid profile, which is what the test expects.
invalid_refused : (run_test ops invalid start).0 ≡ ok tt
unfolding run_test run_body after_save after_prev_adaptive set_profile set_invalid expect_einval
    set_params_locally save_profile_params check_profile_params check_supported set_or_verdict
    enables_adaptive_tx profile_params cleanup cleanup_set cleanup_check str_eq
invalid_refused = refl
