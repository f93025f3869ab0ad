-- ===== src/RxPath/Usecs/Statistics.antt =====
-- The statistics that main() gets from two captures of what send_pkts_exact_delay() sent.
use mathlib.Core.Path.{subst}
use net_drv_ts.Base.{
  ℕ, suc, ◌+◌, ◌*◌, ◌%◌, ◌^◌, ◌<◌, ◌≡◌, refl, ap, ◌∙◌, Bool, true, false, List, [], ◌∷◌, length,
  ◌==◌, ℤ, pos, arith, ok, pure, after, ◌>>=◌,
}
use net_drv_ts.RxPath.Doubles.{DoubleOps}
use net_drv_ts.RxPath.PacketId.{frame}
use net_drv_ts.RxPath.Capture.{Capture, capture_all, process_tx_pkts as note_tx_pkt}
use net_drv_ts.RxPath.Capture.Delays.{Passed, Above-weaken}
use net_drv_ts.RxPath.Capture.Late.{
  Seen, frames, Rising, late, late-Above, Noted, begin-frame, all-Noted,
}
use net_drv_ts.RxPath.Usecs.{
  Args, args_init, send_delay, min_group_delay, process_tx_pkts, process_rx_pkts, set_prev_ts,
  start_group, check_captured, analyse_tx, analyse_rx, finalize_stats,
}
use net_drv_ts.RxPath.Usecs.Groups.{measured, sum_times, sum_squares, Measured, all-Measured}

module _ {T D : Type 0} (sub : T → T → ℤ) (f : DoubleOps D) (from to : Bool) (k : ℕ) where
  tx-capture :
      (seen : List (Seen T)) (a : Args T D)
      → capture_all (process_tx_pkts sub f to) (frames from k seen) a
        ≡ record a { capture = capture_all (note_tx_pkt sub to) (frames from k seen) a.capture }
  unfolding capture_all process_tx_pkts
  tx-capture [] a = refl
  tx-capture ((t, i) ∷ more) a =
      tx-capture more (record a { capture = note_tx_pkt sub to (frame from k t i) a.capture })

  pub tx-first :
      (t : T) (i : ℕ) (c : Capture T)
      → c.failed ≡ false
      → c.n_pkts ≡ 0
      → i < 2 ^ 64
      → note_tx_pkt sub to (frame from k t i) c
        ≡ record c { n_pkts = c.n_pkts + 1; cur_pkt_id = i; prev_ts = t }
  unfolding note_tx_pkt
  tx-first t i c fine n h =
      rw (begin-frame sub from to k t i c fine h (omega arith))
        (let one : (c.n_pkts + 1 == 1) ≡ true = ground arith in rw one refl)

  -- The arguments after the first packet that IUT captured.
  abbrev first_rx : T → ℕ → Args T D → Args T D
  first_rx t i a = record a {
    capture = record a.capture { n_pkts = a.capture.n_pkts + 1; cur_pkt_id = i; prev_ts = t };
    cur_group_ts = t;
  }

  rx-first :
      (gap : ℕ) (t : T) (i : ℕ) (a : Args T D)
      → a.capture.failed ≡ false
      → a.capture.n_pkts ≡ 0
      → i < 2 ^ 64
      → process_rx_pkts sub f gap to (frame from k t i) a ≡ first_rx t i a
  unfolding process_rx_pkts set_prev_ts start_group
  rx-first gap t i a fine n h =
      rw (begin-frame sub from to k t i a.capture fine h (omega arith))
        (let one : (a.capture.n_pkts + 1 == 1) ≡ true = ground arith in rw one refl)

  -- The statistics of groups with these durations.
  pub record Statistics (usecs n : ℕ) (a : Args T D) (ds : List ℤ) : Type 0 where
    pub n_pkts_lem : a.capture.n_pkts ≡ n
    pub n_groups_lem : a.capture.n_groups ≡ length ds
    pub times_lem : a.total_groups_time ≡ sum_times f (f.literal 0 1) ds
    pub squares_lem : a.squared_dev_sum ≡ sum_squares f (pos usecs) (f.literal 0 1) ds

  checked :
      {W : Type 0} (a : Args T D) (w : W) (n : ℕ)
      → a.capture.failed ≡ false
      → a.capture.n_pkts ≡ suc n
      → check_captured sub f a w ≡ (ok a, w)
  unfolding check_captured
  checked a w n fine e =
      let some_pkts : (a.capture.n_pkts == 0) ≡ false = ground arith in rw some_pkts (rw fine refl)

  -- The arguments after the first packet that Tester captured, and after those that follow.
  module _ (zero_ts : T) (usecs : ℕ) (t : T) (i : ℕ) (txs : List (Seen T)) where
    abbrev first_tx : Capture T
    unfolding args_init
    first_tx = record (args_init sub f zero_ts usecs).capture {
      n_pkts = 1;
      cur_pkt_id = i;
      prev_ts = t;
    }

    abbrev after_tx : Args T D
    unfolding first_tx
    after_tx = record (args_init sub f zero_ts usecs) {
      capture = capture_all (note_tx_pkt sub to) (frames from k txs) first_tx;
    }

    tx-Noted :
        i < 2 ^ 32
        → Rising i txs
        → suc (length txs) < 2 ^ 32
        → Noted sub from to k first_tx after_tx.capture txs
    unfolding first_tx after_tx args_init
    tx-Noted h rise few =
        all-Noted sub from to k txs i first_tx refl (omega arith) (omega arith) rise

    tx-analysed :
        {W : Type 0} (w : W)
        → i < 2 ^ 32
        → Rising i txs
        → suc (length txs) < 2 ^ 32
        → analyse_tx sub f to (frames from k ((t, i) ∷ txs)) (args_init sub f zero_ts usecs) w
          ≡ (ok after_tx, w)
    unfolding analyse_tx first_tx after_tx args_init capture_all
    tx-analysed w h rise few =
        let noted = tx-Noted h rise few in
        let start =
          ap (λ c. capture_all (note_tx_pkt sub to) (frames from k txs) c)
            (tx-first t i (args_init sub f zero_ts usecs).capture refl refl (omega arith)) in
        let all =
          tx-capture ((t, i) ∷ txs) (args_init sub f zero_ts usecs)
          ∙ ap (λ c. record (args_init sub f zero_ts usecs) { capture = c }) start in
        ap (λ a. check_captured sub f a w) all
        ∙ checked after_tx w (length txs) noted.fine_lem (omega (arith, noted.n_pkts_lem))

    -- Two captures of packets, each of fewer than 2^32 packets whose numbers are below 2^32 and rise
    -- strictly, give the statistics of the groups that are measured between the delays that Tester's
    -- capture shows.
    pub analyse-Statistics :
        {W : Type 0} (s : T) (j : ℕ) (rxs : List (Seen T)) (w : W)
        → i < 2 ^ 32
        → Rising i txs
        → suc (length txs) < 2 ^ 32
        → j < 2 ^ 32
        → Rising j rxs
        → suc (length rxs) < 2 ^ 32
        → (a : Args T D) × ((analyse_tx sub f to
                  (frames from k ((t, i) ∷ txs))
                  (args_init sub f zero_ts usecs)
                >>= analyse_rx sub f to (frames from k ((s, j) ∷ rxs)))
              w
            ≡ (ok (finalize_stats sub f a), w))
          × Statistics usecs (suc (length rxs)) a (
              measured sub
                (min_group_delay usecs)
                (late sub ((send_delay usecs * 5) % 2 ^ 32) t txs)
                s
                s
                0
                rxs)
    unfolding args_init first_tx after_tx analyse_rx capture_all
    analyse-Statistics {W} s j rxs w h rise few h' rise' few' =
        let noted = tx-Noted h rise few in
        let gap = min_group_delay usecs in
        let a1 = record after_tx { capture = record after_tx.capture { n_pkts = 0 } } in
        let a2 = first_rx s j a1 in
        let delayed = late sub ((send_delay usecs * 5) % 2 ^ 32) t txs in
        let p : Passed 0 a2.capture = record {
          sent = [];
          left = delayed;
          ids_lem = noted.ids_lem;
          idx_lem = noted.idx_lem;
          sent_below = tt;
          left_above =
              Above-weaken i 0 delayed (omega arith)
                (late-Above sub ((send_delay usecs * 5) % 2 ^ 32) t i txs rise);
        } in
        let a3 = capture_all (process_rx_pkts sub f gap to) (frames from k rxs) a2 in
        let done : Measured sub f from to k a2 a3 rxs (measured sub gap delayed s s 0 rxs) =
          subst (λ ids. Measured sub f from to k a2 a3 rxs (measured sub gap ids s s 0 rxs))
            noted.ids_lem
            (all-Measured sub f from to k gap rxs 0 j a2 noted.fine_lem
              (omega (arith, noted.n_groups_lem)) (omega arith) p (omega arith) rise') in
        let n : a3.capture.n_pkts ≡ suc (length rxs) = omega (arith, done.n_pkts_lem) in
        (
          a3,
          ap (after (analyse_rx sub f to (frames from k ((s, j) ∷ rxs)))) (tx-analysed w h rise few)
              ∙ ap
                  (λ u.
                    after (λ u. pure (finalize_stats sub f u))
                      (check_captured sub f
                        (capture_all (process_rx_pkts sub f gap to) (frames from k rxs) u) w))
                  (rx-first gap s j a1 noted.fine_lem refl (omega arith))
              ∙ ap (after (λ u. pure (finalize_stats sub f u)))
                  (checked a3 w (length rxs) done.fine_lem n),
          record {
            n_pkts_lem = n;
            n_groups_lem = omega (arith, done.n_groups_lem, noted.n_groups_lem);
            times_lem = done.times_lem;
            squares_lem = done.squares_lem;
          },
        )
