-- ===== src/RxPath/Tests.antt =====
-- Runs of the Rx coalescing tests on a driver with one set of settings for all queues.
use net_drv_ts.Base.{
  ℕ, ◌*◌, ◌%◌, ◌^◌, ◌≡◌, refl, ap, sym, true, false, none, some, [], ◌∷◌, str_eq, cleanup_check,
  refl, ℤ, pos, int_sub, ok, ◌>>=◌, arith,
}
use net_drv_ts.Ethtool.TxCoalesce.Driver.{Settings, ops, laws, start}
use net_drv_ts.Agent.Payload.{encode, decode}
use net_drv_ts.RxPath.Doubles.{DoubleOps}
use net_drv_ts.RxPath.PacketId.{frame, get_pkt_id, get_pkt_id-frame}
use net_drv_ts.RxPath.Capture.{capture_all, process_tx_pkts}
use net_drv_ts.RxPath.Capture.Late.{frames, late}
use net_drv_ts.RxPath.Rig.{RigOps, usecs_name, frames_name}
use net_drv_ts.RxPath.Rig.Settings.{RigLaws}
use net_drv_ts.RxPath.Usecs
use net_drv_ts.RxPath.Usecs.Groups.{measured}
use net_drv_ts.RxPath.Usecs.Statistics.{Statistics, analyse-Statistics}
use net_drv_ts.RxPath.Usecs.Run.{run_test as run_usecs}
use net_drv_ts.RxPath.Usecs.Run.Restore.{run_test-settings}
use net_drv_ts.RxPath.Frames
use net_drv_ts.RxPath.Frames.Run.{run_test as run_frames}
use net_drv_ts.RxPath.Frames.Run.Restore.{run_test-settings_kept}
use net_drv_ts.RxPath.Frames.Groups.{sizes}
use net_drv_ts.RxPath.Frames.Statistics as Sizes

-- Timestamps are microseconds, and doubles are integers whose comparison says no.
abbrev elapsed : ℕ → ℕ → ℤ
elapsed a b = int_sub (pos a) (pos b)

abbrev doubles : DoubleOps ℤ
doubles = record {
  of_int = λ x. x;
  literal = λ m n. pos 0;
  add = λ x y. x;
  sub = λ x y. x;
  mul = λ x y. x;
  div = λ x y. x;
  sqrt = λ x. x;
  fabs = λ x. x;
  gt = λ x y. false;
}

abbrev rig : RigOps Settings ℕ
rig = record {
  coalesce = λ q. ops;
  chan_get = λ c w. ok 2;
  rand_range = λ lo hi w. (ok hi, w);
  find_location = λ w. (ok 5, w);
  rule_add = λ l w. (ok tt, w);
  rule_fill = λ l w. (ok tt, w);
  rule_queue_set = λ l queue w. (ok tt, w);
  rule_commit = λ l w. (ok tt, w);
  rule_del = λ l w. (ok tt, w);
  gen_connection = λ w. ((some 3, some 4), ok tt, w);
  close = λ side s w. (ok tt, w);
  send_recv_check = λ w. (ok tt, w);
  disable_hwtstamp = λ w. (ok tt, w);
  csap_create = λ side w. (ok 6, w);
  trrecv_start = λ side csap w. (ok tt, w);
  trrecv_stop = λ side csap w. (ok (frames true 4 ((0, 1) ∷ (400, 2) ∷ (900, 3) ∷ [])), w);
  csap_destroy = λ side csap w. (ok tt, w);
  send_call = λ delay time w. (ok tt, w);
  recv_pkts = λ w. (ok (pos 2), w);
  send_wait = λ delay time w. (ok (pos 2), w);
  verdict = λ w. (ok tt, w);
}

abbrev rig_laws : RigLaws rig (λ q. laws)
rig_laws = record {
  rand_quiet = λ lo hi q n v. record { keeps = λ w h. h };
  find_quiet = λ q n v. record { keeps = λ w h. h };
  add_quiet = λ l q n v. record { keeps = λ w h. h };
  fill_quiet = λ l q n v. record { keeps = λ w h. h };
  rule_queue_quiet = λ l queue q n v. record { keeps = λ w h. h };
  rule_commit_quiet = λ l q n v. record { keeps = λ w h. h };
  rule_del_quiet = λ l q n v. record { keeps = λ w h. h };
  connection_quiet = λ q n v. record { keeps = λ w h. h };
  close_quiet = λ side s q n v. record { keeps = λ w h. h };
  check_quiet = λ q n v. record { keeps = λ w h. h };
  hwtstamp_quiet = λ q n v. record { keeps = λ w h. h };
  create_quiet = λ side q n v. record { keeps = λ w h. h };
  start_quiet = λ side csap q n v. record { keeps = λ w h. h };
  stop_quiet = λ side csap q n v. record { keeps = λ w h. h };
  destroy_quiet = λ side csap q n v. record { keeps = λ w h. h };
  call_quiet = λ delay time q n v. record { keeps = λ w h. h };
  recv_quiet = λ q n v. record { keeps = λ w h. h };
  wait_quiet = λ delay time q n v. record { keeps = λ w h. h };
  verdict_quiet = λ q n v. record { keeps = λ w h. h };
}

get_pkt_id-frame_example : get_pkt_id false (frame {T = ℕ} true 3 0 258) ≡ ok 258
get_pkt_id-frame_example = get_pkt_id-frame {T = ℕ} true false 3 0 258 (omega arith)

analyse-Statistics_example :
    (a : Usecs.Args ℕ ℤ) × ((Usecs.analyse_tx elapsed doubles true
            (frames true 4 ((0, 1) ∷ (100, 2) ∷ (9000, 3) ∷ []))
            (Usecs.args_init elapsed doubles 0 300)
          >>= Usecs.analyse_rx elapsed doubles true
              (frames true 4 ((5, 1) ∷ (400, 2) ∷ (9900, 3) ∷ [])))
        start
      ≡ (ok (Usecs.finalize_stats elapsed doubles a), start))
    × Statistics elapsed doubles true true 4 300 3 a (
        measured elapsed
          (Usecs.min_group_delay 300)
          (late elapsed ((Usecs.send_delay 300 * 5) % 2 ^ 32) 0 ((100, 2) ∷ (9000, 3) ∷ []))
          5
          5
          0
          ((400, 2) ∷ (9900, 3) ∷ []))
analyse-Statistics_example =
    analyse-Statistics elapsed doubles true true 4 0 300 0 1 ((100, 2) ∷ (9000, 3) ∷ []) 5 1
      ((400, 2) ∷ (9900, 3) ∷ []) start (omega arith) (omega arith) (omega arith) (omega arith)
      (omega arith) (omega arith)

run_test-settings_example :
    (run_usecs rig elapsed doubles 0 true true 300 start).2.active usecs_name ≡ 7
unfolding run_usecs str_eq capture_all cleanup_check get_pkt_id encode decode process_tx_pkts
    Usecs.send_delay
run_test-settings_example =
    run_test-settings rig elapsed doubles 0 (λ q. laws) rig_laws true true 300 (some 3) usecs_name
      start (run_usecs rig elapsed doubles 0 true true 300 start).2
      (run_usecs rig elapsed doubles 0 true true 300 start).0 (λ p m. refl)
      (λ prev e. ap (λ o. elim o [ some p ↦ p.queue | none ↦ some 3 ]) (sym e)) refl

run_test-settings_kept_example :
    (run_frames rig elapsed doubles 0 true 4 10 start).2.active frames_name ≡ 7
unfolding run_frames str_eq capture_all cleanup_check get_pkt_id encode decode process_tx_pkts
run_test-settings_kept_example =
    run_test-settings_kept rig elapsed doubles 0 (λ q. laws) rig_laws true 4 10 frames_name start
      (run_frames rig elapsed doubles 0 true 4 10 start).2
      (run_frames rig elapsed doubles 0 true 4 10 start).0 (λ p m. refl) refl

-- Two packets are a group that the third, unless it is delayed, ends.
two_packets : sizes elapsed [] 5 1 0 ((15, 2) ∷ (900, 3) ∷ []) ≡ 2 ∷ []
two_packets = refl

delayed_packet : sizes elapsed (3 ∷ []) 5 1 0 ((15, 2) ∷ (900, 3) ∷ []) ≡ []
delayed_packet = refl

-- The test on three packets that come one by one ends well.
run_frames_lem : (run_frames rig elapsed doubles 0 true 1 100 start).0 ≡ ok tt
unfolding run_frames str_eq capture_all cleanup_check get_pkt_id encode decode process_tx_pkts
run_frames_lem = refl
