-- ===== src/RxPath/Usecs/Run/Restore.antt =====
-- The settings and the agents after the test net-drv-ts/rx_path/rx_coalesce_usecs.c.
use net_drv_ts.Base.{
  ℕ, ◌-◌, ◌≡◌, ap, sym, ◌∙◌, true, Bool, false, ◌&&◌, ◌||◌, pos, none, some, Option, ⊤, List, Bytes,
  str_eq, ◌==◌, ltb, ℤ, Result, ok, is_enoent, test_skip, test_fail, test_verdict, arith, value_or,
  >>=-eq-ok, Keeps, >>=-Keeps, >>-Keeps, if_Keeps, check_rc-Keeps, on_error-Keeps, pure-Keeps,
  jump-Keeps, reads-Keeps, if◌then◌else◌,
}
use net_drv_ts.Ethtool.TxCoalesce.Settings.{CoalesceLaws}
use net_drv_ts.RxPath.PacketId.{Packet}
use net_drv_ts.RxPath.Capture.{capture_all}
use net_drv_ts.RxPath.Doubles.{DoubleOps}
use net_drv_ts.RxPath.Rig.{
  RigOps, Rig, Prev, iut, tester, combined, rx, tx, initially, usecs_name, frames_name,
  rx_adaptive_name, read_settings,
}
use net_drv_ts.RxPath.Rig.Settings.{
  RigLaws, Quiet, During, Untouched, touched, lift-Untouched, lift-During, Quiet-During,
  set_limits-Holds, read_settings-Quiet,
}
use net_drv_ts.RxPath.Rig.Steps.{transmit-Quiet, connect-During, start_capture-During, stop-During}
use net_drv_ts.RxPath.Rig.Cleanup.{read_settings-actual}
use net_drv_ts.RxPath.Rig.Restore.{Parts, saving-restored}
use net_drv_ts.RxPath.Usecs.{
  Args, args_init, send_delay, analyse_tx, analyse_rx, judge_stats, check_captured, finalize_stats,
  min_group_delay, process_tx_pkts, process_rx_pkts,
}
use net_drv_ts.RxPath.Usecs.Run.{
  set_rule, count_queues, add_queue_rule, use_queue, select_queue, prepare, save_prev, measure,
  run_body, run_test,
}

touched_usecs : (n : Bytes) → touched n ≡ false → str_eq usecs_name n ≡ false
touched_usecs n t = ground arith

module _ {W T D : Type 0} (o : RigOps W T) (sub : T → T → ℤ) (f : DoubleOps D) (zero_ts : T)
    (laws : (q : Option ℕ) → CoalesceLaws (o.coalesce q)) (quiet : RigLaws o laws) where
  count_queues-Quiet : Quiet o laws (count_queues o sub f zero_ts)
  unfolding count_queues
  count_queues-Quiet q n v =
      >>=-Keeps (check_rc-Keeps (reads-Keeps {f = o.chan_get combined})) (λ c.
        >>=-Keeps (check_rc-Keeps (reads-Keeps {f = o.chan_get rx}))
          (λ r. >>=-Keeps (check_rc-Keeps (reads-Keeps {f = o.chan_get tx})) (λ t. pure-Keeps)))

  add_queue_rule-Quiet : (queue_id : ℕ) → Quiet o laws (add_queue_rule o sub f zero_ts queue_id)
  unfolding add_queue_rule
  add_queue_rule-Quiet queue_id q n v =
      >>=-Keeps
        (on_error-Keeps (quiet.find_quiet q n v) (λ e.
          if_Keeps (is_enoent e.error) (jump-Keeps {j = test_skip}) (jump-Keeps {j = test_fail})))
        (λ l. >>-Keeps (check_rc-Keeps (quiet.add_quiet l q n v)) (
          >>-Keeps (check_rc-Keeps (quiet.fill_quiet l q n v)) (
            >>-Keeps (check_rc-Keeps (quiet.rule_queue_quiet l queue_id q n v)) (
              >>-Keeps
                (on_error-Keeps (quiet.rule_commit_quiet l q n v)
                  (λ _. jump-Keeps {j = test_verdict}))
                (pure-Keeps {a = l})))))

  prepare-Keeps :
      (per_queue : Bool) (usecs : ℕ) (n : Bytes) (v : Option ℕ → ℕ)
      → Keeps (Untouched o laws n v) (prepare o sub f zero_ts per_queue usecs)
  unfolding prepare select_queue use_queue
  prepare-Keeps per_queue usecs n v =
      let set_rule-Keeps : (l : ℕ) → Keeps (Untouched o laws n v) (set_rule l) =
        λ l. record { keeps = λ s h. h } in
      let used = λ (queues_num : ℕ).
        >>=-Keeps (lift-Untouched o laws n v (quiet.rand_quiet 0 (queues_num - 1))) (λ queue_id.
          >>=-Keeps (lift-Untouched o laws n v (add_queue_rule-Quiet queue_id))
            (λ l. >>-Keeps (set_rule-Keeps l) (pure-Keeps {a = some queue_id}))) in
      let selected =
        >>=-Keeps (lift-Untouched o laws n v count_queues-Quiet) (λ queues_num.
          if_Keeps (queues_num == 0) (jump-Keeps {j = test_skip}) (used queues_num)) in
      >>=-Keeps (if_Keeps per_queue selected (pure-Keeps {a = none})) (λ q.
        if_Keeps (ltb 0 usecs && ltb usecs 300) (jump-Keeps {j = test_fail}) (pure-Keeps {a = q}))

  save_prev-Quiet : (q : Option ℕ) → Quiet o laws (save_prev o sub f zero_ts q)
  unfolding save_prev
  save_prev-Quiet q p n v =
      >>=-Keeps (read_settings-Quiet o laws q usecs_name frames_name p n v) (λ was. pure-Keeps)

  save_prev-ok :
      (q : Option ℕ) (w w' : W) (prev : Prev)
      → save_prev o sub f zero_ts q w ≡ (ok prev, w')
      → (prev.queue ≡ q)
        × (prev.usecs ≡ (laws q).actual w usecs_name)
        × (prev.max_frames ≡ (laws q).actual w frames_name)
        × (prev.adaptive ≡ (laws q).actual w rx_adaptive_name)
        × (w' ≡ w)
  unfolding save_prev
  save_prev-ok q w w' prev e =
      let (was, w1, r, k) = >>=-eq-ok (read_settings o q usecs_name frames_name) _ w e in
      let (a, b, c, same) = read_settings-actual o laws q usecs_name frames_name w w1 was r in
      let is = ap (λ p. value_or prev p.0) (sym k) in
      (
        ap (λ p. p.queue) is,
        ap (λ p. p.usecs) is ∙ a,
        ap (λ p. p.max_frames) is ∙ b,
        ap (λ p. p.adaptive) is ∙ c,
        ap (λ p. p.1) (sym k) ∙ same,
      )

  module _ {P : Rig W → Type 0} where
    check_captured-Keeps : (a : Args T D) → Keeps P (check_captured sub f a)
    unfolding check_captured
    check_captured-Keeps a =
        if_Keeps (a.capture.n_pkts == 0) (jump-Keeps {j = test_verdict})
          (if_Keeps a.capture.failed (jump-Keeps {j = test_fail}) (pure-Keeps {a = a}))

    analyse_tx-Keeps :
        (little : Bool) (pkts : List (Packet T)) (a : Args T D)
        → Keeps P (analyse_tx sub f little pkts a)
    unfolding analyse_tx
    analyse_tx-Keeps little pkts a =
        check_captured-Keeps (capture_all (process_tx_pkts sub f little) pkts a)

    analyse_rx-Keeps :
        (little : Bool) (pkts : List (Packet T)) (a : Args T D)
        → Keeps P (analyse_rx sub f little pkts a)
    unfolding analyse_rx
    analyse_rx-Keeps little pkts a =
        let a1 = record a { capture = record a.capture { n_pkts = 0 } } in
        let gap = min_group_delay a.coalesce_usecs in
        >>=-Keeps (check_captured-Keeps (capture_all (process_rx_pkts sub f gap little) pkts a1))
          (λ a'. pure-Keeps {a = finalize_stats sub f a'})

    judge_stats-Keeps : (a : Args T D) → Keeps P (judge_stats sub f a)
    unfolding judge_stats
    judge_stats-Keeps a =
        let usecs = f.of_int (pos a.coalesce_usecs) in
        let avg_err = f.div (f.fabs (f.sub a.avg_group_time usecs)) usecs in
        let dev_err = f.div a.group_time_dev usecs in
        let share = f.div (f.of_int (pos a.capture.n_groups)) (f.of_int (pos a.capture.n_pkts)) in
        if_Keeps (ltb 0 a.coalesce_usecs)
          (if_Keeps (a.capture.n_groups == 0) (jump-Keeps {j = test_fail}) (
            if_Keeps (f.gt avg_err (f.literal 10 2) || f.gt dev_err (f.literal 10 2))
              (jump-Keeps {j = test_verdict}) (pure-Keeps {a = tt})))
          (if_Keeps (f.gt share (f.literal 5 3)) (jump-Keeps {j = test_verdict})
            (pure-Keeps {a = tt}))

  measure-Keeps :
      (little : Bool) (usecs : ℕ) (prev : Prev) (n : Bytes) (v : ℕ)
      → Keeps (During o laws prev n v) (measure o sub f zero_ts little usecs prev.queue)
  unfolding measure
  measure-Keeps little usecs prev n v =
      let frames : ℕ = if usecs == 0 then 1 else 0 in
      let limits = lift-During o laws prev n v (λ t.
        set_limits-Holds o laws prev.queue usecs frames usecs v usecs_name n t
          (touched_usecs n t)) in
      let start = start_capture-During o laws quiet prev n v in
      let stop = stop-During o laws quiet prev n v in
      >>-Keeps (connect-During o laws quiet prev n v) (
        >>-Keeps (Quiet-During o laws prev n v quiet.check_quiet) (
          >>-Keeps limits (
            >>=-Keeps (start tester) (λ csap_tx. >>=-Keeps (start iut) (λ csap_rx.
              >>-Keeps
                (Quiet-During o laws prev n v (transmit-Quiet o laws quiet (send_delay usecs)))
                (>>=-Keeps (stop tester csap_tx) (λ tx_pkts.
                  >>=-Keeps (analyse_tx-Keeps little tx_pkts (args_init sub f zero_ts usecs)) (λ a.
                    >>=-Keeps (stop iut csap_rx) (λ rx_pkts.
                      >>=-Keeps (analyse_rx-Keeps little rx_pkts a)
                        (λ a'. judge_stats-Keeps a'))))))))))

  test-Parts :
      (little per_queue : Bool) (usecs : ℕ)
      → Parts o laws quiet
          (prepare o sub f zero_ts per_queue usecs)
          (save_prev o sub f zero_ts)
          (measure o sub f zero_ts little usecs)
  test-Parts little per_queue usecs = record {
    prepare_keeps = prepare-Keeps per_queue usecs;
    save_quiet = save_prev-Quiet;
    save_ok = save_prev-ok;
    measure_keeps = measure-Keeps little usecs;
  }

  -- However the test ends, each setting of the queue that the test saved the settings of is what it
  -- was, where no setting had a pending value and every call of the cleanup succeeded.
  pub run_test-settings :
      (little per_queue : Bool) (usecs : ℕ) (q : Option ℕ) (n : Bytes) (w w2 : W) (r : Result ⊤)
      → ((p : Option ℕ) (m : Bytes) → (laws p).staged w m ≡ (laws p).actual w m)
      → ((prev : Prev)
          → (run_body o sub f zero_ts little per_queue usecs (initially w)).1.prev ≡ some prev
          → prev.queue ≡ q)
      → run_test o sub f zero_ts little per_queue usecs w ≡ (r, true, w2)
      → (laws q).actual w2 n ≡ (laws q).actual w n
  unfolding run_test run_body
  run_test-settings little per_queue usecs =
      saving-restored o laws quiet (test-Parts little per_queue usecs)
