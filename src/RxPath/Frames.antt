-- ===== src/RxPath/Frames.antt =====
-- net-drv-ts/rx_path/rx_coalesce_frames.c: the callbacks and the statistics, which are on the sizes of
-- the groups in which packets are received, and main().
pub mod Groups
pub mod Statistics
pub mod Run
use net_drv_ts.Base.{
  ℕ, zero, suc, ◌+◌, ◌%◌, ◌^◌, Bool, true, false, not, ◌&&◌, ◌||◌, none, some, Option, List, [],
  ◌∷◌, ltb, ◌==◌, if◌then◌else◌, ℤ, pos, int_sub, ⊤, M, pure, ◌>>=◌, jump, test_fail, test_verdict,
}
use net_drv_ts.RxPath.Doubles.{DoubleOps}
use net_drv_ts.RxPath.PacketId.{Packet}
use net_drv_ts.RxPath.Capture.{
  Capture, above, pass_delayed, begin_pkt, process_tx_pkts as note_tx_pkt, capture_all,
}

-- test_cb_args; `capture` has the fields that the other test's structure has too. The counters are
-- `unsigned int`.
pub record Args (T D : Type 0) : Type 0 where
  pub capture : Capture T
  pub coalesce_frames : ℕ
  pub cur_group_size : ℕ
  pub total_group_size : ℕ
  pub squared_dev_sum : D
  pub avg_group_size : D
  pub group_size_dev : D

module _ {T D : Type 0} (sub : T → T → ℤ) (f : DoubleOps D) where
  unfoldable pub add_group : Args T D → Args T D
  add_group a =
      let size_deviation = f.of_int (int_sub (pos a.cur_group_size) (pos a.coalesce_frames)) in
      record a {
        capture = record a.capture { n_groups = (a.capture.n_groups + 1) % 2 ^ 32 };
        total_group_size = (a.total_group_size + a.cur_group_size) % 2 ^ 32;
        squared_dev_sum = f.add a.squared_dev_sum (f.mul size_deviation size_deviation);
      }

  unfoldable pub finish_pkt_group : Args T D → Args T D
  unfolding add_group pass_delayed
  finish_pkt_group a =
      let (skip_group, c) = pass_delayed a.capture in
      let a1 = record a { capture = c } in
      let a2 = if skip_group then a1 else add_group a1 in record a2 { cur_group_size = 0 }

  unfoldable pub count_pkt : T → Args T D → Args T D
  count_pkt ts a = record a {
    capture = record a.capture { prev_ts = ts };
    cur_group_size = (a.cur_group_size + 1) % 2 ^ 32;
  }

  unfoldable pub measure_rx : Option T × Capture T → Args T D → Args T D
  unfolding finish_pkt_group count_pkt
  measure_rx (none, c) a = record a { capture = c }
  measure_rx (some ts, c) a =
      let a1 = record a { capture = c } in
      count_pkt ts
        (if ltb 1 c.n_pkts && above (sub ts c.prev_ts) 100 then finish_pkt_group a1 else a1)

  unfoldable pub process_rx_pkts : Bool → Packet T → Args T D → Args T D
  unfolding measure_rx begin_pkt
  process_rx_pkts little pkt a = measure_rx (begin_pkt little pkt a.capture) a

  unfoldable pub process_tx_pkts : Bool → Packet T → Args T D → Args T D
  process_tx_pkts little pkt a = record a { capture = note_tx_pkt sub little pkt a.capture }

  unfoldable pub finalize_stats : Args T D → Args T D
  finalize_stats a =
      if a.capture.n_groups == 0
      then a
      else (let n = f.of_int (pos a.capture.n_groups) in
          record a {
            avg_group_size = f.div (f.of_int (pos a.total_group_size)) n;
            group_size_dev = f.sqrt (f.div a.squared_dev_sum n);
          })

  unfoldable pub args_init : T → ℕ → ℕ → Args T D
  args_init zero_ts coalesce_frames send_delay = record {
    capture = record {
      pkt_send_delay = send_delay;
      delayed_pkt_ids = [];
      cur_delayed_idx = 0;
      prev_ts = zero_ts;
      n_pkts = 0;
      cur_pkt_id = 0;
      n_groups = 0;
      failed = false;
    };
    coalesce_frames = coalesce_frames;
    cur_group_size = 0;
    total_group_size = 0;
    squared_dev_sum = f.literal 0 1;
    avg_group_size = f.literal 0 1;
    group_size_dev = f.literal 0 1;
  }

  -- The checks after a capture was stopped
  unfoldable pub check_captured : {W : Type 0} → Args T D → M W (Args T D)
  check_captured a =
      if a.capture.n_pkts == 0
      then jump test_verdict
      else if a.capture.failed
      then jump test_fail
      else pure a

  unfoldable pub analyse_tx : {W : Type 0} → Bool → List (Packet T) → Args T D → M W (Args T D)
  unfolding process_tx_pkts check_captured
  analyse_tx little pkts a = check_captured (capture_all (process_tx_pkts little) pkts a)

  unfoldable pub analyse_rx : {W : Type 0} → Bool → List (Packet T) → Args T D → M W (Args T D)
  unfolding process_rx_pkts check_captured finalize_stats
  analyse_rx little pkts a = do
    let a1 = record a { capture = record a.capture { n_pkts = 0 } }
    a2 ← check_captured (capture_all (process_rx_pkts little) pkts a1)
    pure (finalize_stats a2)

  unfoldable pub judge_stats : {W : Type 0} → Args T D → M W ⊤
  judge_stats a =
      let frames = f.of_int (pos a.coalesce_frames) in
      let avg_err = f.div (f.fabs (f.sub a.avg_group_size frames)) frames in
      let dev_err = f.div a.group_size_dev frames in
      if a.capture.n_groups == 0
      then jump test_fail
      else if f.gt avg_err (f.literal 15 2) || f.gt dev_err (f.literal 15 2)
      then jump test_verdict
      else pure tt
