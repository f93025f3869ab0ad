-- ===== src/RxPath/Frames/Run.antt =====
-- main() of net-drv-ts/rx_path/rx_coalesce_frames.c.
pub mod Restore
use net_drv_ts.Base.{
  ℕ, Bool, true, false, none, some, Option, ⊤, List, ◌==◌, ltb, if◌then◌else◌, ℤ, M, Result,
  test_fail, pure, jump, when, is_negative, check_rc, ◌>>=◌, ◌>>◌,
}
use net_drv_ts.RxPath.Doubles.{DoubleOps}
use net_drv_ts.RxPath.Frames.{args_init, analyse_tx, analyse_rx, judge_stats}
use net_drv_ts.RxPath.Rig.{
  RigOps, Rig, Prev, iut, tester, initially, lift, usecs_name, frames_name, read_settings, saving,
  connect, set_limits, start_capture, transmit, finish,
}

module _ {W T D : Type 0} (o : RigOps W T) (sub : T → T → ℤ) (f : DoubleOps D) (zero_ts : T) where
  unfoldable pub prepare : ℕ → ℕ → M (Rig W) (Option ℕ)
  prepare frames send_delay =
      if ltb send_delay 10
      then jump test_fail
      else if frames == 0
      then jump test_fail
      else pure none

  unfoldable pub save_prev : Option ℕ → M W Prev
  unfolding read_settings
  save_prev q = do
    was ← read_settings o q frames_name usecs_name
    pure (record { queue = q; usecs = was.1; max_frames = was.0; adaptive = was.2 })

  -- A call of an RPC server that fails ends the test, where the code does not await an error.
  unfoldable pub warm_up : M W ⊤
  warm_up = do
    o.send_call 10 100
    received ← o.recv_pkts
    when (is_negative received) (jump test_fail)
    sent ← o.send_wait 10 100
    when (is_negative sent) (jump test_fail)

  -- From the connection to the verdicts
  unfoldable pub measure : Bool → ℕ → ℕ → Option ℕ → M (Rig W) ⊤
  unfolding connect set_limits start_capture transmit warm_up analyse_tx analyse_rx judge_stats
      args_init
  measure little frames send_delay q = do
    connect o
    lift o.send_recv_check
    lift (set_limits o q 0 frames frames_name frames)
    lift (check_rc o.disable_hwtstamp)
    lift warm_up
    csap_tx ← start_capture o tester
    csap_rx ← start_capture o iut
    lift (transmit o send_delay)
    tx_pkts ← check_rc (lift (o.trrecv_stop tester csap_tx))
    a ← analyse_tx sub f little tx_pkts (args_init sub f zero_ts frames send_delay)
    rx_pkts ← check_rc (lift (o.trrecv_stop iut csap_rx))
    a' ← analyse_rx sub f little rx_pkts a
    judge_stats sub f a'

  -- main() up to the cleanup; `little` is the byte order of the host that the test runs on.
  unfoldable pub run_body : Bool → ℕ → ℕ → M (Rig W) ⊤
  unfolding prepare save_prev measure saving
  run_body little frames send_delay =
      saving (prepare frames send_delay) save_prev (measure little frames send_delay)

  -- How the test ended, whether the cleanup succeeded, and the world after it
  unfoldable pub run_test : Bool → ℕ → ℕ → W → Result ⊤ × Bool × W
  unfolding run_body finish
  run_test little frames send_delay w = finish o (run_body little frames send_delay (initially w))
