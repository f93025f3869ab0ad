-- ===== src/RxPath/Usecs/Groups.antt =====
-- Which groups the Rx callback measures, over all captured packets: each that ends before a packet
-- with a big gap, but for those with a delayed packet since the group before.
use mathlib.Core.Path.{ap₂, subst₂}
use net_drv_ts.Base.{
  ℕ, ◌+◌, ◌^◌, ◌≤◌, ◌<◌, ◌≡◌, refl, ap, sym, ◌∙◌, Bool, true, false, inl, inr, List, [], ◌∷◌,
  length, ◌==◌, if◌then◌else◌, ℤ, pos, arith, Bool-cases, if_true, if_false,
}
use net_drv_ts.RxPath.Doubles.{DoubleOps}
use net_drv_ts.RxPath.PacketId.{frame}
use net_drv_ts.RxPath.Capture.{above, pass_delayed, capture_all}
use net_drv_ts.RxPath.Capture.Delays.{Passed, Passed-prev, between}
use net_drv_ts.RxPath.Capture.Passing.{pass_delayed-Passed}
use net_drv_ts.RxPath.Capture.Late.{Seen, frames, Rising, begin-frame}
use net_drv_ts.RxPath.Usecs.{
  Args, add_group, start_group, set_prev_ts, finish_pkt_group, process_rx_pkts,
}

-- The durations of the measured groups. `b` is the number of the packet that ended the group before
-- and `start` its timestamp.
abbrev pub measured : {T : Type 0} → (T → T → ℤ) → ℕ → List ℕ → T → T → ℕ → List (Seen T) → List ℤ
measured sub gap delayed prev start b [] = []
measured sub gap delayed prev start b ((t, i) ∷ more) =
    let same_group = measured sub gap delayed t start b more in
    let next_group = measured sub gap delayed t t i more in
    if above (sub t prev) gap
    then (if between b i delayed then next_group else sub t start ∷ next_group)
    else same_group

-- The sums of the durations and of the squares of their deviations, from given ones on.
module _ {D : Type 0} (f : DoubleOps D) where
  abbrev pub sum_times : D → List ℤ → D
  sum_times s [] = s
  sum_times s (d ∷ ds) = sum_times (f.add s (f.of_int d)) ds

  abbrev pub sum_squares : ℤ → D → List ℤ → D
  sum_squares usecs s [] = s
  sum_squares usecs s (d ∷ ds) =
      let dev = f.sub (f.of_int d) (f.of_int usecs) in
      sum_squares usecs (f.add s (f.mul dev dev)) ds

module _ {T D : Type 0} (sub : T → T → ℤ) (f : DoubleOps D) (from to : Bool) (k : ℕ) where
  -- The arguments with the packet that is processed.
  abbrev with_pkt : ℕ → Args T D → Args T D
  with_pkt i a = record a {
    capture = record a.capture { n_pkts = a.capture.n_pkts + 1; cur_pkt_id = i };
  }

  step-measure :
      (gap : ℕ) (t : T) (i : ℕ) (a : Args T D)
      → a.capture.failed ≡ false
      → 0 < a.capture.n_pkts
      → i < 2 ^ 64
      → a.capture.n_pkts + 1 < 2 ^ 32
      → process_rx_pkts sub f gap to (frame from k t i) a
        ≡ set_prev_ts t (
            if above (sub t a.capture.prev_ts) gap
            then finish_pkt_group sub f t (with_pkt i a)
            else with_pkt i a)
  unfolding process_rx_pkts
  step-measure gap t i a fine n h few =
      rw (begin-frame sub from to k t i a.capture fine h few)
        (let later : (a.capture.n_pkts + 1 == 1) ≡ false = ground arith in rw later refl)

  -- What the callback leaves, from arguments that have seen a packet.
  pub record Measured (a a' : Args T D) (seen : List (Seen T)) (ds : List ℤ) : Type 0 where
    pub n_groups_lem : a'.capture.n_groups ≡ a.capture.n_groups + length ds
    pub times_lem : a'.total_groups_time ≡ sum_times f a.total_groups_time ds
    pub squares_lem : a'.squared_dev_sum ≡ sum_squares f (pos a.coalesce_usecs) a.squared_dev_sum ds
    pub fine_lem : a'.capture.failed ≡ false
    pub n_pkts_lem : a'.capture.n_pkts ≡ a.capture.n_pkts + length seen
    pub usecs_lem : a'.coalesce_usecs ≡ a.coalesce_usecs

  finish-skip :
      (t : T) (a : Args T D)
      → (pass_delayed a.capture).0 ≡ true
      → finish_pkt_group sub f t a
        ≡ start_group t (record a { capture = (pass_delayed a.capture).1 })
  unfolding finish_pkt_group
  finish-skip t a h = ap (start_group t) (if_true _ _ h)

  finish-count :
      (t : T) (a : Args T D)
      → (pass_delayed a.capture).0 ≡ false
      → finish_pkt_group sub f t a
        ≡ start_group t (add_group sub f t (record a { capture = (pass_delayed a.capture).1 }))
  unfolding finish_pkt_group
  finish-count t a h = ap (start_group t) (if_false _ _ h)

  -- One more packet that leaves what is measured alone.
  Measured-same :
      (x : Seen T) (a a1 a' : Args T D) (seen : List (Seen T)) (ds : List ℤ)
      → a1.capture.n_groups ≡ a.capture.n_groups
      → a1.capture.n_pkts ≡ a.capture.n_pkts + 1
      → a1.total_groups_time ≡ a.total_groups_time
      → a1.squared_dev_sum ≡ a.squared_dev_sum
      → a1.coalesce_usecs ≡ a.coalesce_usecs
      → Measured a1 a' seen ds
      → Measured a a' (x ∷ seen) ds
  Measured-same x a a1 a' seen ds groups pkts times squares usecs done = record {
    n_groups_lem = done.n_groups_lem ∙ ap (λ n. n + length ds) groups;
    times_lem = done.times_lem ∙ ap (λ t. sum_times f t ds) times;
    squares_lem = done.squares_lem ∙ ap₂ (λ u q. sum_squares f (pos u) q ds) usecs squares;
    fine_lem = done.fine_lem;
    n_pkts_lem = omega (arith, done.n_pkts_lem, pkts);
    usecs_lem = done.usecs_lem ∙ usecs;
  }

  pub all-Measured :
      (gap : ℕ) (seen : List (Seen T)) (b last : ℕ) (a : Args T D)
      → a.capture.failed ≡ false
      → a.capture.n_groups < a.capture.n_pkts
      → a.capture.n_pkts + length seen < 2 ^ 32
      → Passed b a.capture
      → b ≤ last
      → Rising last seen
      → Measured a
          (capture_all (process_rx_pkts sub f gap to) (frames from k seen) a)
          seen
          (measured sub gap a.capture.delayed_pkt_ids a.capture.prev_ts a.cur_group_ts b seen)
  unfolding capture_all set_prev_ts start_group add_group pass_delayed
  all-Measured gap [] b last a fine n few p le h = record {
    n_groups_lem = omega arith;
    times_lem = refl;
    squares_lem = refl;
    fine_lem = fine;
    n_pkts_lem = omega arith;
    usecs_lem = refl;
  }
  all-Measured gap ((t, i) ∷ more) b last a fine n few p le (up, word, rest) =
      let ids = a.capture.delayed_pkt_ids in
      let to_measured = λ (u : Args T D) (ds : List ℤ).
        Measured a (capture_all (process_rx_pkts sub f gap to) (frames from k more) u)
          ((t, i) ∷ more) ds in
      let step = step-measure gap t i a fine (omega arith) (omega arith) (omega arith) in
      elim (Bool-cases (above (sub t a.capture.prev_ts) gap)) [
        | inr small ↦
            let a1 = set_prev_ts t (with_pkt i a) in
            let done =
              all-Measured gap more b i a1 fine (omega arith) (omega arith)
                (Passed-prev b a.capture a1.capture refl refl p) (omega arith) rest in
            subst₂ to_measured (sym (step ∙ ap (set_prev_ts t) (if_false _ _ small)))
              (sym (if_false _ _ small))
              (Measured-same (t, i) a a1 _ more _ refl refl refl refl refl done)
        | inl big ↦
            let (skips, p') =
              pass_delayed-Passed b (with_pkt i a).capture
                (Passed-prev b a.capture (with_pkt i a).capture refl refl p) (omega arith) in
            let big_step = step ∙ ap (set_prev_ts t) (if_true _ _ big) in
            elim (Bool-cases (between b i ids)) [
              | inl skip ↦
                  let a1 = set_prev_ts t (
                    start_group t (record (with_pkt i a) {
                      capture = (pass_delayed (with_pkt i a).capture).1;
                    })) in
                  let done =
                    all-Measured gap more i i a1 fine (omega arith) (omega arith)
                      (Passed-prev i (pass_delayed (with_pkt i a).capture).1 a1.capture refl refl
                        p')
                      (omega arith) rest in
                  subst₂ to_measured
                    (sym
                      (big_step ∙ ap (set_prev_ts t) (finish-skip t (with_pkt i a) (skips ∙ skip))))
                    (sym (if_true _ _ big ∙ if_true _ _ skip))
                    (Measured-same (t, i) a a1 _ more _ refl refl refl refl refl done)
              | inr count ↦
                  let a1 = set_prev_ts t (
                    start_group t (
                      add_group sub f t (record (with_pkt i a) {
                        capture = (pass_delayed (with_pkt i a).capture).1;
                      }))) in
                  let done =
                    all-Measured gap more i i a1 fine (omega arith) (omega arith)
                      (Passed-prev i (pass_delayed (with_pkt i a).capture).1 a1.capture refl refl
                        p')
                      (omega arith) rest in
                  subst₂ to_measured
                    (sym (
                      big_step
                      ∙ ap (set_prev_ts t) (finish-count t (with_pkt i a) (skips ∙ count))))
                    (sym (if_true _ _ big ∙ if_false _ _ count))
                    (record {
                      n_groups_lem = omega (arith, done.n_groups_lem);
                      times_lem = done.times_lem;
                      squares_lem = done.squares_lem;
                      fine_lem = done.fine_lem;
                      n_pkts_lem = omega (arith, done.n_pkts_lem);
                      usecs_lem = done.usecs_lem;
                    })
            ]
      ]
