-- ===== src/Ethtool/TxCoalesce.antt =====
-- The test net-drv-ts/ethtool/tx_coalesce.c: the parameters of a Tx coalescing profile are saved,
-- set, read back and restored. The agent, the interface and the queue are fixed.
pub mod Settings
pub mod Cleanup
pub mod Restore
pub mod Applied
pub mod Driver
mod Tests
use net_drv_ts.Base.{
  ℕ, ◌≡◌, Bool, true, false, not, ◌&&◌, ◌||◌, ⊤, List, [], ◌∷◌, Bytes, codes, str_eq, ◌==◌,
  if◌then◌else◌, M, Result, ok, err, ends, TeErrno, is_enoent, is_eopnotsupp, is_einval, test_skip,
  test_fail, test_verdict, pure, jump, reads, check_rc, on_error, when, ◌>>=◌, ◌>>◌, cleanup_check,
}

pub record Param : Type 0 where
  pub name : Bytes
  pub value : ℕ
  pub prev_value : ℕ

pub data Profile : Type 0 where
  disabled time_only frames_only time_frames irq irq_usecs irq_frames : Profile
  adaptive adaptive_low_time adaptive_low_frames adaptive_high_time : Profile
  adaptive_high_frames adaptive_rate invalid : Profile

-- TEST_COALESCE_PARAM()
abbrev param : Bytes → ℕ → Param
param name value = record { name = name; value = value; prev_value = 0 }

abbrev pub adaptive_name : Bytes
adaptive_name = codes "use_adaptive_tx_coalesce"

-- The arrays of parameters, and profile_params()
unfoldable pub profile_params : Profile → List Param
profile_params disabled =
    param (codes "tx_coalesce_usecs") 0 ∷ param (codes "tx_max_coalesced_frames") 1 ∷ []
profile_params time_only =
    param (codes "tx_coalesce_usecs") 100 ∷ param (codes "tx_max_coalesced_frames") 0 ∷ []
profile_params frames_only =
    param (codes "tx_coalesce_usecs") 0 ∷ param (codes "tx_max_coalesced_frames") 16 ∷ []
profile_params time_frames =
    param (codes "tx_coalesce_usecs") 100 ∷ param (codes "tx_max_coalesced_frames") 16 ∷ []
profile_params irq =
    param (codes "tx_coalesce_usecs_irq") 50 ∷ param (codes "tx_max_coalesced_frames_irq") 8 ∷ []
profile_params irq_usecs = param (codes "tx_coalesce_usecs_irq") 50 ∷ []
profile_params irq_frames = param (codes "tx_max_coalesced_frames_irq") 8 ∷ []
profile_params adaptive = param adaptive_name 1 ∷ []
profile_params adaptive_low_time =
    param (codes "tx_coalesce_usecs_low") 10 ∷ param adaptive_name 1 ∷ []
profile_params adaptive_low_frames =
    param (codes "tx_max_coalesced_frames_low") 1 ∷ param adaptive_name 1 ∷ []
profile_params adaptive_high_time =
    param (codes "tx_coalesce_usecs_high") 200 ∷ param adaptive_name 1 ∷ []
profile_params adaptive_high_frames =
    param (codes "tx_max_coalesced_frames_high") 32 ∷ param adaptive_name 1 ∷ []
profile_params adaptive_rate =
    param (codes "pkt_rate_low") 1000
    ∷ param (codes "pkt_rate_high") 10000
    ∷ param (codes "rate_sample_interval") 1
    ∷ param adaptive_name 1
    ∷ []
profile_params invalid =
    param (codes "tx_coalesce_usecs") 0 ∷ param (codes "tx_max_coalesced_frames") 0 ∷ []

-- profile_enables_adaptive_tx()
unfoldable pub enables_adaptive_tx : Profile → Bool
enables_adaptive_tx adaptive = true
enables_adaptive_tx adaptive_low_time = true
enables_adaptive_tx adaptive_low_frames = true
enables_adaptive_tx adaptive_high_time = true
enables_adaptive_tx adaptive_high_frames = true
enables_adaptive_tx adaptive_rate = true
enables_adaptive_tx _ = false

abbrev pub is_invalid : Profile → Bool
is_invalid invalid = true
is_invalid _ = false

-- `tapi_cfg_if_coalesce_queue_*` and `tapi_cfg_if_coalesce_queues_commit`
pub record CoalesceOps (W : Type 0) : Type 0 where
  pub get : Bytes → W → Result ℕ
  pub set : Bytes → ℕ → M W ⊤
  pub set_local : Bytes → ℕ → M W ⊤
  pub commit : M W ⊤

-- The variables that the cleanup reads.
pub record Saved : Type 0 where
  pub params : List Param
  pub restore_prev_values : Bool
  pub restore_adaptive_tx : Bool
  pub prev_adaptive_tx : ℕ

abbrev pub nothing_saved : Saved
nothing_saved = record {
  params = [];
  restore_prev_values = false;
  restore_adaptive_tx = false;
  prev_adaptive_tx = 0;
}

module _ {W : Type 0} (o : CoalesceOps W) where
  -- set_coalesce_params_locally(), with the value that `restore` chooses for a parameter
  unfoldable pub set_params_locally : (Param → ℕ) → List Param → M W ⊤
  set_params_locally chosen [] = pure tt
  set_params_locally chosen (p ∷ ps) =
      let rest = set_params_locally chosen ps in
      if str_eq p.name adaptive_name then rest else o.set_local p.name (chosen p) >> rest

  -- save_profile_params()
  unfoldable pub save_profile_params : List Param → M W (List Param)
  save_profile_params [] = pure []
  save_profile_params (p ∷ ps) = do
    prev_value ← on_error (reads (o.get p.name)) (λ _. jump test_fail)
    rest ← save_profile_params ps
    pure (record p { prev_value = prev_value } ∷ rest)

  -- check_profile_params()
  unfoldable pub check_profile_params : List Param → M W ⊤
  check_profile_params [] = pure tt
  check_profile_params (p ∷ ps) =
      let rest = check_profile_params ps in
      (do
        actual ← check_rc (reads (o.get p.name))
        if not (actual == p.value) then jump test_verdict else rest)

  -- Whether the settings are supported at all
  unfoldable pub check_supported : M W ⊤
  check_supported = do
    value ←
        on_error (reads (o.get (codes "tx_coalesce_usecs"))) (λ e.
          if is_enoent e.error || is_eopnotsupp e.error then jump test_skip else jump test_fail)
    pure tt

  unfoldable pub set_or_verdict : ℕ → M W ⊤
  set_or_verdict v = on_error (o.set adaptive_name v) (λ _. jump test_verdict)

  -- The commit of the invalid profile has to fail with EINVAL.
  unfoldable pub expect_einval : Result ⊤ × W → Result ⊤ × W
  expect_einval (ok x, w) = (ends test_verdict, w)
  expect_einval (err e, w) = if is_einval e.error then (ok tt, w) else (ends test_verdict, w)
  expect_einval (ends j, w) = (ends j, w)

  unfoldable pub set_invalid : List Param → M W ⊤
  unfolding expect_einval
  set_invalid params =
      check_rc (set_params_locally (λ p. p.value) params) >> (λ w. expect_einval (o.commit w))

  unfoldable pub set_valid : Profile → List Param → M W ⊤
  set_valid profile params = do
    check_rc (set_params_locally (λ p. p.value) params)
    on_error o.commit (λ _. jump test_verdict)
    when (enables_adaptive_tx profile) (set_or_verdict 1)
    check_profile_params params

  -- From the disabling of adaptive coalescing to the end of the test
  unfoldable pub set_profile : Profile → List Param → ℕ → M W ⊤
  set_profile profile params prev_adaptive_tx = do
    when (enables_adaptive_tx profile || not (prev_adaptive_tx == 0)) (set_or_verdict 0)
    if is_invalid profile then set_invalid params else set_valid profile params

  unfoldable pub after_prev_adaptive : Profile → List Param → Result ℕ × W → (Result ⊤ × W) × Saved
  after_prev_adaptive profile params (ok prev, w) = (
    set_profile profile params prev w,
    record {
      params = params;
      restore_prev_values = true;
      restore_adaptive_tx = true;
      prev_adaptive_tx = prev;
    },
  )
  after_prev_adaptive profile params (err e, w) =
      ((ends test_fail, w), record nothing_saved { params = params; restore_prev_values = true })
  after_prev_adaptive profile params (ends j, w) =
      ((ends j, w), record nothing_saved { params = params; restore_prev_values = true })

  unfoldable pub after_save : Profile → Result (List Param) × W → (Result ⊤ × W) × Saved
  unfolding after_prev_adaptive
  after_save profile (ok params, w) = after_prev_adaptive profile params (o.get adaptive_name w, w)
  after_save profile (err e, w) = ((err e, w), nothing_saved)
  after_save profile (ends j, w) = ((ends j, w), nothing_saved)

  -- main() up to the cleanup
  unfoldable pub run_body : Profile → W → (Result ⊤ × W) × Saved
  unfolding after_save
  run_body profile w =
      after_save profile ((check_supported >> save_profile_params (profile_params profile)) w)

  unfoldable pub cleanup_set : ℕ → Bool → Bool × W → Bool × W
  cleanup_set v wanted st = if wanted then cleanup_check (o.set adaptive_name v) st else st

  -- The cleanup, and whether all of its calls succeeded
  unfoldable pub cleanup : Profile → Saved → W → Bool × W
  cleanup profile s w =
      if not s.restore_prev_values
      then (true, w)
      else (let st1 =
            cleanup_set 0 (s.restore_adaptive_tx && enables_adaptive_tx profile) (true, w) in
          let st2 = cleanup_check (set_params_locally (λ p. p.prev_value) s.params) st1 in
          let st3 = cleanup_check o.commit st2 in
          cleanup_set s.prev_adaptive_tx (s.restore_adaptive_tx && not (s.prev_adaptive_tx == 0))
            st3)

  -- main(): how the test ended, whether the cleanup succeeded, and the world after it
  unfoldable pub run_test : Profile → W → Result ⊤ × Bool × W
  unfolding run_body
  run_test profile w =
      let ((r, w1), s) = run_body profile w in
      let (fine, w2) = cleanup profile s w1 in (r, fine, w2)
