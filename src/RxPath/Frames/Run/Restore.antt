-- ===== src/RxPath/Frames/Run/Restore.antt =====
-- The settings and the agents after the test net-drv-ts/rx_path/rx_coalesce_frames.c.
use mathlib.Core.Path.{subst}
use net_drv_ts.Base.{
  ℕ, ◌≡◌, refl, ap, sym, ◌∙◌, true, Bool, false, is_negative, ◌||◌, pos, none, some, Option, ⊤,
  List, Bytes, str_eq, ◌==◌, ltb, ℤ, Result, ok, err, ends, test_fail, test_verdict, arith,
  value_or, eq_of_some, after, Bool-cases, inl, inr, ◌>>=◌, >>=-eq-ok, Keeps, >>=-Keeps, >>-Keeps,
  if_Keeps, check_rc-Keeps, pure-Keeps, jump-Keeps,
}
use net_drv_ts.Ethtool.TxCoalesce.Settings.{CoalesceLaws}
use net_drv_ts.RxPath.PacketId.{Packet}
use net_drv_ts.RxPath.Capture.{capture_all}
use net_drv_ts.RxPath.Doubles.{DoubleOps}
use net_drv_ts.RxPath.Rig.{
  RigOps, Rig, Prev, iut, tester, initially, set_prev, saving, usecs_name, frames_name,
  rx_adaptive_name, read_settings,
}
use net_drv_ts.RxPath.Rig.Settings.{
  RigLaws, Quiet, During, Untouched, touched, lift-During, Quiet-During, set_limits-Holds,
  read_settings-Quiet,
}
use net_drv_ts.RxPath.Rig.Steps.{transmit-Quiet, connect-During, start_capture-During, stop-During}
use net_drv_ts.RxPath.Rig.Cleanup.{read_settings-actual}
use net_drv_ts.RxPath.Rig.Restore.{Parts, saving-restored}
use net_drv_ts.RxPath.Frames.{
  Args, args_init, analyse_tx, analyse_rx, judge_stats, check_captured, finalize_stats,
  process_tx_pkts, process_rx_pkts,
}
use net_drv_ts.RxPath.Frames.Run.{prepare, save_prev, warm_up, measure, run_body, run_test}

touched_frames : (n : Bytes) → touched n ≡ false → str_eq frames_name n ≡ false
touched_frames n t = ground arith

not_touched : ¬ (touched frames_name ≡ false)
unfolding str_eq
not_touched t = cc t

module _ {W T D : Type 0} (o : RigOps W T) (sub : T → T → ℤ) (f : DoubleOps D) (zero_ts : T)
    (laws : (q : Option ℕ) → CoalesceLaws (o.coalesce q)) (quiet : RigLaws o laws) where
  prepare-Keeps :
      (frames send_delay : ℕ) (n : Bytes) (v : Option ℕ → ℕ)
      → Keeps (Untouched o laws n v) (prepare o sub f zero_ts frames send_delay)
  unfolding prepare
  prepare-Keeps frames send_delay n v =
      if_Keeps (ltb send_delay 10) (jump-Keeps {j = test_fail})
        (if_Keeps (frames == 0) (jump-Keeps {j = test_fail}) (pure-Keeps {a = none}))

  save_prev-Quiet : (q : Option ℕ) → Quiet o laws (save_prev o sub f zero_ts q)
  unfolding save_prev
  save_prev-Quiet q p n v =
      >>=-Keeps (read_settings-Quiet o laws q frames_name usecs_name p n v) (λ was. pure-Keeps)

  save_prev-ok :
      (q : Option ℕ) (w w' : W) (prev : Prev)
      → save_prev o sub f zero_ts q w ≡ (ok prev, w')
      → (prev.queue ≡ q)
        × (prev.usecs ≡ (laws q).actual w usecs_name)
        × (prev.max_frames ≡ (laws q).actual w frames_name)
        × (prev.adaptive ≡ (laws q).actual w rx_adaptive_name)
        × (w' ≡ w)
  unfolding save_prev
  save_prev-ok q w w' prev e =
      let (was, w1, r, k) = >>=-eq-ok (read_settings o q frames_name usecs_name) _ w e in
      let (a, b, c, same) = read_settings-actual o laws q frames_name usecs_name w w1 was r in
      let is = ap (λ p. value_or prev p.0) (sym k) in
      (
        ap (λ p. p.queue) is,
        ap (λ p. p.usecs) is ∙ b,
        ap (λ p. p.max_frames) is ∙ a,
        ap (λ p. p.adaptive) is ∙ c,
        ap (λ p. p.1) (sym k) ∙ same,
      )

  module _ {P : Rig W → Type 0} where
    check_captured-Keeps : (a : Args T D) → Keeps P (check_captured sub f a)
    unfolding check_captured
    check_captured-Keeps a =
        if_Keeps (a.capture.n_pkts == 0) (jump-Keeps {j = test_verdict})
          (if_Keeps a.capture.failed (jump-Keeps {j = test_fail}) (pure-Keeps {a = a}))

    analyse_tx-Keeps :
        (little : Bool) (pkts : List (Packet T)) (a : Args T D)
        → Keeps P (analyse_tx sub f little pkts a)
    unfolding analyse_tx
    analyse_tx-Keeps little pkts a =
        check_captured-Keeps (capture_all (process_tx_pkts sub f little) pkts a)

    analyse_rx-Keeps :
        (little : Bool) (pkts : List (Packet T)) (a : Args T D)
        → Keeps P (analyse_rx sub f little pkts a)
    unfolding analyse_rx
    analyse_rx-Keeps little pkts a =
        let a1 = record a { capture = record a.capture { n_pkts = 0 } } in
        >>=-Keeps (check_captured-Keeps (capture_all (process_rx_pkts sub f little) pkts a1))
          (λ a'. pure-Keeps {a = finalize_stats sub f a'})

    judge_stats-Keeps : (a : Args T D) → Keeps P (judge_stats sub f a)
    unfolding judge_stats
    judge_stats-Keeps a =
        let frames = f.of_int (pos a.coalesce_frames) in
        let avg_err = f.div (f.fabs (f.sub a.avg_group_size frames)) frames in
        let dev_err = f.div a.group_size_dev frames in
        if_Keeps (a.capture.n_groups == 0) (jump-Keeps {j = test_fail}) (
          if_Keeps (f.gt avg_err (f.literal 15 2) || f.gt dev_err (f.literal 15 2))
            (jump-Keeps {j = test_verdict}) (pure-Keeps {a = tt}))

  warm_up-Quiet : Quiet o laws (warm_up o sub f zero_ts)
  unfolding warm_up
  warm_up-Quiet q n v = >>-Keeps (quiet.call_quiet 10 100 q n v) (
      >>=-Keeps (quiet.recv_quiet q n v) (λ received.
        >>-Keeps
          (if_Keeps (is_negative received) (jump-Keeps {j = test_fail}) (pure-Keeps {a = tt}))
          (>>=-Keeps (quiet.wait_quiet 10 100 q n v) (λ sent.
            if_Keeps (is_negative sent) (jump-Keeps {j = test_fail}) (pure-Keeps {a = tt})))))

  measure-Keeps :
      (little : Bool) (frames send_delay : ℕ) (prev : Prev) (n : Bytes) (v : ℕ)
      → Keeps (During o laws prev n v) (measure o sub f zero_ts little frames send_delay prev.queue)
  unfolding measure
  measure-Keeps little frames send_delay prev n v =
      let limits = lift-During o laws prev n v (λ t.
        set_limits-Holds o laws prev.queue 0 frames frames v frames_name n t
          (touched_frames n t)) in
      let start = start_capture-During o laws quiet prev n v in
      let stop = stop-During o laws quiet prev n v in
      >>-Keeps (connect-During o laws quiet prev n v) (
        >>-Keeps (Quiet-During o laws prev n v quiet.check_quiet) (
          >>-Keeps limits (
            >>-Keeps
              (lift-During o laws prev n v
                (λ _. check_rc-Keeps (quiet.hwtstamp_quiet prev.queue n v)))
              (>>-Keeps (Quiet-During o laws prev n v warm_up-Quiet) (
                >>=-Keeps (start tester) (λ csap_tx. >>=-Keeps (start iut) (λ csap_rx.
                  >>-Keeps (Quiet-During o laws prev n v (transmit-Quiet o laws quiet send_delay)) (
                    >>=-Keeps (stop tester csap_tx) (λ tx_pkts.
                      >>=-Keeps
                        (analyse_tx-Keeps little tx_pkts
                          (args_init sub f zero_ts frames send_delay))
                        (λ a. >>=-Keeps (stop iut csap_rx) (λ rx_pkts.
                          >>=-Keeps (analyse_rx-Keeps little rx_pkts a)
                            (λ a'. judge_stats-Keeps a'))))))))))))

  test-Parts :
      (little : Bool) (frames send_delay : ℕ)
      → Parts o laws quiet
          (prepare o sub f zero_ts frames send_delay)
          (save_prev o sub f zero_ts)
          (measure o sub f zero_ts little frames send_delay)
  test-Parts little frames send_delay = record {
    prepare_keeps = prepare-Keeps frames send_delay;
    save_quiet = save_prev-Quiet;
    save_ok = save_prev-ok;
    measure_keeps = measure-Keeps little frames send_delay;
  }

  measure-prev :
      (little : Bool) (frames send_delay : ℕ) (prev : Prev) (s : Rig W)
      → s.prev ≡ some prev
      → prev.queue ≡ none
      → (measure o sub f zero_ts little frames send_delay none s).1.prev ≡ some prev
  measure-prev little frames send_delay prev s p q =
      subst (λ x. (measure o sub f zero_ts little frames send_delay x s).1.prev ≡ some prev) q
        ((measure-Keeps little frames send_delay prev frames_name 0).keeps s
          (p, λ t. absurd (not_touched t))).0

  after_save-queue :
      (little : Bool) (frames send_delay : ℕ) (s : Rig W) (r : Result Prev × W) (p : Prev)
      → s.prev ≡ none
      → ((prev : Prev) → r.0 ≡ ok prev → prev.queue ≡ none)
      → (after
          (λ prev. set_prev prev >>= λ _. measure o sub f zero_ts little frames send_delay none)
          (r.0, record s { world = r.1 })).1.prev
        ≡ some p
      → p.queue ≡ none
  after_save-queue little frames send_delay s (ok prev, w) p unsaved queue e =
      let q = queue prev refl in
      let kept =
        measure-prev little frames send_delay prev (record s { world = w; prev = some prev }) refl
          q in
      ap (λ x. x.queue) (eq_of_some (sym e ∙ kept)) ∙ q
  after_save-queue little frames send_delay s (err x, w) p unsaved queue e =
      absurd (cc (sym unsaved ∙ e))
  after_save-queue little frames send_delay s (ends j, w) p unsaved queue e =
      absurd (cc (sym unsaved ∙ e))

  -- A test that saved settings saved those of the whole interface.
  whole_interface :
      (little : Bool) (frames send_delay : ℕ) (w : W) (prev : Prev)
      → (run_body o sub f zero_ts little frames send_delay (initially w)).1.prev ≡ some prev
      → prev.queue ≡ none
  unfolding run_body saving prepare
  whole_interface little frames send_delay w prev e =
      let saved = save_prev o sub f zero_ts none w in
      let go_on =
        after_save-queue little frames send_delay (initially w) saved prev refl
          (λ p x. (save_prev-ok none w saved.1 p (ap (λ y. (y, saved.1)) x)).0) in
      elim (Bool-cases (ltb send_delay 10)) [
        | inl short ↦ absurd (cc (rw short at e))
        | inr long ↦ elim (Bool-cases (frames == 0)) [
          | inl zero' ↦ absurd (cc (rw zero' at (rw long at e)))
          | inr some' ↦ go_on (rw some' at (rw long at e))
        ]
      ]

  -- However the test ends, each setting of the interface is what it was, where no setting had a pending
  -- value and every call of the cleanup succeeded.
  pub run_test-settings_kept :
      (little : Bool) (frames send_delay : ℕ) (n : Bytes) (w w2 : W) (r : Result ⊤)
      → ((p : Option ℕ) (m : Bytes) → (laws p).staged w m ≡ (laws p).actual w m)
      → run_test o sub f zero_ts little frames send_delay w ≡ (r, true, w2)
      → (laws none).actual w2 n ≡ (laws none).actual w n
  unfolding run_test run_body
  run_test-settings_kept little frames send_delay n w w2 r settled =
      saving-restored o laws quiet (test-Parts little frames send_delay) none n w w2 r settled
        (whole_interface little frames send_delay w)
