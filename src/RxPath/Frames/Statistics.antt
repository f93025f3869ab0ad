-- ===== src/RxPath/Frames/Statistics.antt =====
-- The statistics that main() of net-drv-ts/rx_path/rx_coalesce_frames.c gets from two captures of what
-- send_pkts_exact_delay() sent.
use net_drv_ts.Base.{ℕ, ◌+◌, ◌≡◌, Bool, List, length, ℤ}
use net_drv_ts.RxPath.Doubles.{DoubleOps}
use net_drv_ts.RxPath.Capture.{Capture, capture_all, process_tx_pkts as note_tx_pkt}
use net_drv_ts.RxPath.Capture.Late.{Seen, frames}
use net_drv_ts.RxPath.Frames.{Args, args_init, process_tx_pkts}
use net_drv_ts.RxPath.Frames.Groups.{sum_sizes, sum_deviations}

module _ {T D : Type 0} (sub : T → T → ℤ) (f : DoubleOps D) (from to : Bool) (k : ℕ) where
  -- The arguments after the first packet that IUT captured.
  abbrev first_rx : T → ℕ → Args T D → Args T D
  first_rx t i a = record a {
    capture = record a.capture { n_pkts = a.capture.n_pkts + 1; cur_pkt_id = i; prev_ts = t };
    cur_group_size = a.cur_group_size + 1;
  }

  -- The statistics of groups of these sizes.
  pub record Statistics (coalesce n : ℕ) (a : Args T D) (ns : List ℕ) : Type 0 where
    pub n_pkts_lem : a.capture.n_pkts ≡ n
    pub n_groups_lem : a.capture.n_groups ≡ length ns
    pub total_lem : a.total_group_size ≡ sum_sizes ns
    pub squares_lem : a.squared_dev_sum ≡ sum_deviations f coalesce (f.literal 0 1) ns

  -- The arguments after the first packet that Tester captured, and after those that follow.
  module _ (zero_ts : T) (coalesce delay : ℕ) (t : T) (i : ℕ) (txs : List (Seen T)) where
    abbrev start : Args T D
    unfolding args_init
    start = args_init sub f zero_ts coalesce delay

    abbrev first_tx : Capture T
    unfolding start
    first_tx = record start.capture { n_pkts = 1; cur_pkt_id = i; prev_ts = t }

    abbrev after_tx : Args T D
    unfolding start first_tx
    after_tx = record start {
      capture = capture_all (note_tx_pkt sub to) (frames from k txs) first_tx;
    }
