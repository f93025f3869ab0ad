-- ===== src/RxPath/Usecs/Run.antt =====
-- main() of net-drv-ts/rx_path/rx_coalesce_usecs.c.
pub mod Restore
use net_drv_ts.Base.{
  ℕ, ◌+◌, ◌-◌, Bool, true, false, ◌&&◌, none, some, Option, ⊤, List, ◌==◌, ltb, if◌then◌else◌, ℤ, M,
  Result, ok, is_enoent, test_skip, test_fail, test_verdict, pure, jump, reads, check_rc, on_error,
  ◌>>=◌, ◌>>◌,
}
use net_drv_ts.RxPath.Doubles.{DoubleOps}
use net_drv_ts.RxPath.Usecs.{args_init, send_delay, analyse_tx, analyse_rx, judge_stats}
use net_drv_ts.RxPath.Rig.{
  RigOps, Rig, Prev, Side, iut, tester, Channel, combined, rx, tx, initially, lift, set_prev,
  usecs_name, frames_name, read_settings, saving, connect, set_limits, start_capture, transmit,
  finish,
}

abbrev pub set_rule : {W : Type 0} → ℕ → M (Rig W) ⊤
set_rule location s = (ok tt, record s { rule = some location })

module _ {W T D : Type 0} (o : RigOps W T) (sub : T → T → ℤ) (f : DoubleOps D) (zero_ts : T) where
  unfoldable pub count_queues : M W ℕ
  count_queues = do
    combined_num ← check_rc (reads (o.chan_get combined))
    rx_num ← check_rc (reads (o.chan_get rx))
    tx_num ← check_rc (reads (o.chan_get tx))
    pure ((if ltb rx_num tx_num then tx_num else rx_num) + combined_num)

  -- The rule that brings the traffic to the queue; the location is the result.
  unfoldable pub add_queue_rule : ℕ → M W ℕ
  add_queue_rule queue_id = do
    location ←
        on_error o.find_location (λ e. if is_enoent e.error then jump test_skip else jump test_fail)
    check_rc (o.rule_add location)
    check_rc (o.rule_fill location)
    check_rc (o.rule_queue_set location queue_id)
    on_error (o.rule_commit location) (λ _. jump test_verdict)
    pure location

  unfoldable pub use_queue : ℕ → M (Rig W) (Option ℕ)
  unfolding add_queue_rule
  use_queue queues_num = do
    queue_id ← lift (o.rand_range 0 (queues_num - 1))
    location ← lift (add_queue_rule queue_id)
    set_rule location
    pure (some queue_id)

  unfoldable pub select_queue : M (Rig W) (Option ℕ)
  unfolding count_queues use_queue
  select_queue = do
    queues_num ← lift count_queues
    if queues_num == 0 then jump test_skip else use_queue queues_num

  unfoldable pub save_prev : Option ℕ → M W Prev
  unfolding read_settings
  save_prev q = do
    was ← read_settings o q usecs_name frames_name
    pure (record { queue = q; usecs = was.0; max_frames = was.1; adaptive = was.2 })

  -- From the connection to the verdicts
  unfoldable pub measure : Bool → ℕ → Option ℕ → M (Rig W) ⊤
  unfolding connect set_limits start_capture transmit analyse_tx analyse_rx judge_stats args_init
  measure little usecs q = do
    connect o
    lift o.send_recv_check
    lift (set_limits o q usecs (if usecs == 0 then 1 else 0) usecs_name usecs)
    csap_tx ← start_capture o tester
    csap_rx ← start_capture o iut
    lift (transmit o (send_delay usecs))
    tx_pkts ← check_rc (lift (o.trrecv_stop tester csap_tx))
    a ← analyse_tx sub f little tx_pkts (args_init sub f zero_ts usecs)
    rx_pkts ← check_rc (lift (o.trrecv_stop iut csap_rx))
    a' ← analyse_rx sub f little rx_pkts a
    judge_stats sub f a'

  unfoldable pub prepare : Bool → ℕ → M (Rig W) (Option ℕ)
  unfolding select_queue
  prepare per_queue usecs = do
    q ← (if per_queue then select_queue else pure none)
    if ltb 0 usecs && ltb usecs 300 then jump test_fail else pure q

  -- main() up to the cleanup; `little` is the byte order of the host that the test runs on.
  unfoldable pub run_body : Bool → Bool → ℕ → M (Rig W) ⊤
  unfolding prepare save_prev measure saving
  run_body little per_queue usecs =
      saving (prepare per_queue usecs) save_prev (measure little usecs)

  -- How the test ended, whether the cleanup succeeded, and the world after it
  unfoldable pub run_test : Bool → Bool → ℕ → W → Result ⊤ × Bool × W
  unfolding run_body finish
  run_test little per_queue usecs w = finish o (run_body little per_queue usecs (initially w))
