-- ===== src/RxPath/Usecs.antt =====
-- The callbacks and the statistics of net-drv-ts/rx_path/rx_coalesce_usecs.c: the durations of the
-- groups in which packets are received.
pub mod Groups
pub mod Statistics
pub mod Run
use net_drv_ts.Base.{
  ◌%◌, ◌^◌, ℕ, zero, suc, ◌+◌, ◌/◌, Bool, true, false, not, ◌&&◌, ◌||◌, none, some, Option, List,
  [], ◌∷◌, ltb, ◌==◌, if◌then◌else◌, ℤ, pos, ⊤, M, pure, ◌>>=◌, jump, test_fail, test_verdict,
}
use net_drv_ts.RxPath.Doubles.{DoubleOps}
use net_drv_ts.RxPath.PacketId.{Packet}
use net_drv_ts.RxPath.Capture.{
  Capture, above, pass_delayed, begin_pkt, process_tx_pkts as note_tx_pkt, capture_all,
}

-- test_cb_args; `capture` has the fields that the other test's structure has too.
pub record Args (T D : Type 0) : Type 0 where
  pub capture : Capture T
  pub coalesce_usecs : ℕ
  pub cur_group_ts : T
  pub total_groups_time : D
  pub squared_dev_sum : D
  pub avg_group_time : D
  pub group_time_dev : D

-- The choice of the limits for a coalesce_usecs that is no fewer than 0
unfoldable pub min_group_delay : ℕ → ℕ
min_group_delay coalesce_usecs =
    let least = if ltb 100 (coalesce_usecs / 10) then 100 else coalesce_usecs / 10 in
    if ltb least 30 then 30 else least

unfoldable pub send_delay : ℕ → ℕ
send_delay coalesce_usecs = if ltb 10 (coalesce_usecs / 30) then coalesce_usecs / 30 else 10

module _ {T D : Type 0} where
  unfoldable pub start_group : T → Args T D → Args T D
  start_group ts a = record a { cur_group_ts = ts }

  unfoldable pub set_prev_ts : T → Args T D → Args T D
  set_prev_ts ts a = record a { capture = record a.capture { prev_ts = ts } }

module _ {T D : Type 0} (sub : T → T → ℤ) (f : DoubleOps D) where
  unfoldable pub add_group : T → Args T D → Args T D
  add_group ts a =
      let group_duration = f.of_int (sub ts a.cur_group_ts) in
      let duration_deviation = f.sub group_duration (f.of_int (pos a.coalesce_usecs)) in
      record a {
        capture = record a.capture { n_groups = (a.capture.n_groups + 1) % 2 ^ 32 };
        total_groups_time = f.add a.total_groups_time group_duration;
        squared_dev_sum = f.add a.squared_dev_sum (f.mul duration_deviation duration_deviation);
      }

  unfoldable pub finish_pkt_group : T → Args T D → Args T D
  unfolding add_group pass_delayed start_group
  finish_pkt_group ts a =
      let (skip_group, c) = pass_delayed a.capture in
      let a1 = record a { capture = c } in
      start_group ts (if skip_group then a1 else add_group ts a1)

  -- `a.capture` is what the callback was called with but for the packet's number and the counter.
  unfoldable pub measure_rx : ℕ → Option T × Capture T → Args T D → Args T D
  unfolding finish_pkt_group set_prev_ts
  measure_rx gap (none, c) a = record a { capture = c }
  measure_rx gap (some ts, c) a =
      let a1 = record a { capture = c } in
      set_prev_ts ts (
        if c.n_pkts == 1
        then start_group ts a1
        else if above (sub ts c.prev_ts) gap
        then finish_pkt_group ts a1
        else a1)

  unfoldable pub process_rx_pkts : ℕ → Bool → Packet T → Args T D → Args T D
  unfolding measure_rx begin_pkt
  process_rx_pkts gap little pkt a = measure_rx gap (begin_pkt little pkt a.capture) a

  unfoldable pub process_tx_pkts : Bool → Packet T → Args T D → Args T D
  process_tx_pkts little pkt a = record a { capture = note_tx_pkt sub little pkt a.capture }

  unfoldable pub finalize_stats : Args T D → Args T D
  finalize_stats a =
      if a.capture.n_groups == 0
      then a
      else (let n = f.of_int (pos a.capture.n_groups) in
          record a {
            avg_group_time = f.div a.total_groups_time n;
            group_time_dev = f.sqrt (f.div a.squared_dev_sum n);
          })

  -- TEST_CB_ARGS_INIT, with the two fields that main() sets; `zero_ts` is the timestamp { 0, }.
  unfoldable pub args_init : T → ℕ → Args T D
  args_init zero_ts coalesce_usecs = record {
    capture = record {
      pkt_send_delay = send_delay coalesce_usecs;
      delayed_pkt_ids = [];
      cur_delayed_idx = 0;
      prev_ts = zero_ts;
      n_pkts = 0;
      cur_pkt_id = 0;
      n_groups = 0;
      failed = false;
    };
    coalesce_usecs = coalesce_usecs;
    cur_group_ts = zero_ts;
    total_groups_time = f.literal 0 1;
    squared_dev_sum = f.literal 0 1;
    avg_group_time = f.literal 0 1;
    group_time_dev = f.literal 0 1;
  }

  -- The checks after a capture was stopped
  unfoldable pub check_captured : {W : Type 0} → Args T D → M W (Args T D)
  check_captured a =
      if a.capture.n_pkts == 0
      then jump test_verdict
      else if a.capture.failed
      then jump test_fail
      else pure a

  -- What main() makes of the packets that Tester captured, and of those that IUT did
  unfoldable pub analyse_tx : {W : Type 0} → Bool → List (Packet T) → Args T D → M W (Args T D)
  unfolding process_tx_pkts check_captured
  analyse_tx little pkts a = check_captured (capture_all (process_tx_pkts little) pkts a)

  unfoldable pub analyse_rx : {W : Type 0} → Bool → List (Packet T) → Args T D → M W (Args T D)
  unfolding process_rx_pkts check_captured finalize_stats min_group_delay
  analyse_rx little pkts a = do
    let gap = min_group_delay a.coalesce_usecs
    let a1 = record a { capture = record a.capture { n_pkts = 0 } }
    a2 ← check_captured (capture_all (process_rx_pkts gap little) pkts a1)
    pure (finalize_stats a2)

  -- The verdicts on the statistics
  unfoldable pub judge_stats : {W : Type 0} → Args T D → M W ⊤
  judge_stats a =
      let usecs = f.of_int (pos a.coalesce_usecs) in
      let avg_err = f.div (f.fabs (f.sub a.avg_group_time usecs)) usecs in
      let dev_err = f.div a.group_time_dev usecs in
      let share = f.div (f.of_int (pos a.capture.n_groups)) (f.of_int (pos a.capture.n_pkts)) in
      if ltb 0 a.coalesce_usecs
      then (if a.capture.n_groups == 0
          then jump test_fail
          else if f.gt avg_err (f.literal 10 2) || f.gt dev_err (f.literal 10 2)
          then jump test_verdict
          else pure tt)
      else (if f.gt share (f.literal 5 3) then jump test_verdict else pure tt)
