-- ===== src/RxPath/Frames/Groups.antt =====
-- Which groups the Rx callback of net-drv-ts/rx_path/rx_coalesce_frames.c measures, over all captured
-- packets: each that ends before a packet with a big gap, but for those with a delayed packet since the
-- group before.
use mathlib.Core.Path.{subst₂}
use net_drv_ts.Base.{
  ℕ, ◌+◌, ◌^◌, ◌≤◌, ◌<◌, ◌≡◌, refl, ap, ap₂, sym, ◌∙◌, Bool, true, false, ◌&&◌, inl, inr, List, [],
  ◌∷◌, length, ltb, if◌then◌else◌, ℤ, pos, int_sub, arith, Bool-cases, if_true, if_false,
}
use net_drv_ts.RxPath.Doubles.{DoubleOps}
use net_drv_ts.RxPath.PacketId.{frame}
use net_drv_ts.RxPath.Capture.{above, pass_delayed, capture_all}
use net_drv_ts.RxPath.Capture.Delays.{Passed, Passed-prev, between}
use net_drv_ts.RxPath.Capture.Passing.{pass_delayed-Passed}
use net_drv_ts.RxPath.Capture.Late.{Seen, frames, Rising, begin-frame}
use net_drv_ts.RxPath.Frames.{
  Args, add_group, finish_pkt_group, count_pkt, measure_rx, process_rx_pkts,
}

-- The sizes of the measured groups. `b` is the number of the packet that ended the group before, and
-- the current group has `size` packets so far.
abbrev pub sizes : {T : Type 0} → (T → T → ℤ) → List ℕ → T → ℕ → ℕ → List (Seen T) → List ℕ
sizes sub delayed prev size b [] = []
sizes sub delayed prev size b ((t, i) ∷ more) =
    let same_group = sizes sub delayed t (size + 1) b more in
    let next_group = sizes sub delayed t 1 i more in
    if above (sub t prev) 100
    then (if between b i delayed then next_group else size ∷ next_group)
    else same_group

abbrev pub sum_sizes : List ℕ → ℕ
sum_sizes [] = 0
sum_sizes (n ∷ ns) = n + sum_sizes ns

-- The sum of the squares of the deviations of the sizes, from a given one on.
abbrev pub sum_deviations : {D : Type 0} → DoubleOps D → ℕ → D → List ℕ → D
sum_deviations f coalesce s [] = s
sum_deviations f coalesce s (n ∷ ns) =
    let dev = f.of_int (int_sub (pos n) (pos coalesce)) in
    sum_deviations f coalesce (f.add s (f.mul dev dev)) ns

module _ {T D : Type 0} (sub : T → T → ℤ) (f : DoubleOps D) (from to : Bool) (k : ℕ) where
  -- The arguments with the packet that is processed, and with the packet counted in its group.
  abbrev with_pkt : ℕ → Args T D → Args T D
  with_pkt i a = record a {
    capture = record a.capture { n_pkts = a.capture.n_pkts + 1; cur_pkt_id = i };
  }

  abbrev pub counted : T → Args T D → Args T D
  counted t a = record a {
    capture = record a.capture { prev_ts = t };
    cur_group_size = a.cur_group_size + 1;
  }

  -- No counter wraps around while there are few packets.
  pub record IsSmall (left : ℕ) (a : Args T D) : Type 0 where
    pub pkts : a.capture.n_pkts + left < 2 ^ 32
    pub groups : a.capture.n_groups < a.capture.n_pkts
    pub total : a.total_group_size + a.cur_group_size ≤ a.capture.n_pkts

  pub count-counted :
      (t : T) (a : Args T D) → a.cur_group_size + 1 < 2 ^ 32 → count_pkt sub f t a ≡ counted t a
  unfolding count_pkt
  count-counted t a h =
      ap (λ n. record a { capture = record a.capture { prev_ts = t }; cur_group_size = n })
        (omega arith)

  -- The arguments after a group that is not measured, and after one that is.
  abbrev skipped : ℕ → Args T D → Args T D
  skipped i a = record (with_pkt i a) {
    capture = (pass_delayed (with_pkt i a).capture).1;
    cur_group_size = 0;
  }

  abbrev measured : ℕ → Args T D → Args T D
  unfolding add_group
  measured i a =
      record (add_group sub f
        (record (with_pkt i a) { capture = (pass_delayed (with_pkt i a).capture).1 })) {
          cur_group_size = 0;
        }

  -- A packet of the current group, which the first packet is too.
  pub step-same :
      (t : T) (i : ℕ) (a : Args T D)
      → a.capture.failed ≡ false
      → i < 2 ^ 64
      → a.capture.n_pkts + 1 < 2 ^ 32
      → a.cur_group_size + 1 < 2 ^ 32
      → (ltb 1 (a.capture.n_pkts + 1) && above (sub t a.capture.prev_ts) 100) ≡ false
      → process_rx_pkts sub f to (frame from k t i) a ≡ counted t (with_pkt i a)
  unfolding process_rx_pkts measure_rx
  step-same t i a fine h few size small =
      rw (begin-frame sub from to k t i a.capture fine h few)
        (ap (count_pkt sub f t) (if_false _ _ small) ∙ count-counted t (with_pkt i a) size)

  step-next :
      (t : T) (i : ℕ) (a : Args T D)
      → a.capture.failed ≡ false
      → i < 2 ^ 64
      → a.capture.n_pkts + 1 < 2 ^ 32
      → (ltb 1 (a.capture.n_pkts + 1) && above (sub t a.capture.prev_ts) 100) ≡ true
      → process_rx_pkts sub f to (frame from k t i) a
        ≡ count_pkt sub f t (finish_pkt_group sub f (with_pkt i a))
  unfolding process_rx_pkts measure_rx
  step-next t i a fine h few big =
      rw (begin-frame sub from to k t i a.capture fine h few)
        (ap (count_pkt sub f t) (if_true _ _ big))

  step-skip :
      (t : T) (i : ℕ) (a : Args T D)
      → (pass_delayed (with_pkt i a).capture).0 ≡ true
      → count_pkt sub f t (finish_pkt_group sub f (with_pkt i a)) ≡ counted t (skipped i a)
  unfolding finish_pkt_group
  step-skip t i a skip =
      ap (λ (u : Args T D). count_pkt sub f t (record u { cur_group_size = 0 })) (if_true _ _ skip)
      ∙ count-counted t (skipped i a) (omega arith)

  step-count :
      (t : T) (i : ℕ) (a : Args T D)
      → (pass_delayed (with_pkt i a).capture).0 ≡ false
      → count_pkt sub f t (finish_pkt_group sub f (with_pkt i a)) ≡ counted t (measured i a)
  unfolding finish_pkt_group measured
  step-count t i a count =
      ap (λ (u : Args T D). count_pkt sub f t (record u { cur_group_size = 0 }))
        (if_false _ _ count)
      ∙ count-counted t (measured i a) (omega arith)

  -- What the callback leaves, from arguments that have seen a packet.
  pub record Measured (a a' : Args T D) (seen : List (Seen T)) (ns : List ℕ) : Type 0 where
    pub n_groups_lem : a'.capture.n_groups ≡ a.capture.n_groups + length ns
    pub total_lem : a'.total_group_size ≡ a.total_group_size + sum_sizes ns
    pub squares_lem : a'.squared_dev_sum ≡ sum_deviations f a.coalesce_frames a.squared_dev_sum ns
    pub fine_lem : a'.capture.failed ≡ false
    pub n_pkts_lem : a'.capture.n_pkts ≡ a.capture.n_pkts + length seen

  -- One more packet that ends no measured group.
  Measured-same :
      (x : Seen T) (a a1 a' : Args T D) (seen : List (Seen T)) (ns : List ℕ)
      → a1.capture.n_groups ≡ a.capture.n_groups
      → a1.capture.n_pkts ≡ a.capture.n_pkts + 1
      → a1.total_group_size ≡ a.total_group_size
      → a1.squared_dev_sum ≡ a.squared_dev_sum
      → a1.coalesce_frames ≡ a.coalesce_frames
      → Measured a1 a' seen ns
      → Measured a a' (x ∷ seen) ns
  Measured-same x a a1 a' seen ns groups pkts total squares coalesce done = record {
    n_groups_lem = done.n_groups_lem ∙ ap (λ n. n + length ns) groups;
    total_lem = done.total_lem ∙ ap (λ n. n + sum_sizes ns) total;
    squares_lem = done.squares_lem ∙ ap₂ (λ u q. sum_deviations f u q ns) coalesce squares;
    fine_lem = done.fine_lem;
    n_pkts_lem = omega (arith, done.n_pkts_lem, pkts);
  }

  pub all-Measured :
      (seen : List (Seen T)) (b last : ℕ) (a : Args T D)
      → a.capture.failed ≡ false
      → IsSmall (length seen) a
      → Passed b a.capture
      → b ≤ last
      → Rising last seen
      → Measured a
          (capture_all (process_rx_pkts sub f to) (frames from k seen) a)
          seen
          (sizes sub a.capture.delayed_pkt_ids a.capture.prev_ts a.cur_group_size b seen)
  unfolding capture_all pass_delayed add_group measured
  all-Measured [] b last a fine few p le h = record {
    n_groups_lem = omega arith;
    total_lem = omega arith;
    squares_lem = refl;
    fine_lem = fine;
    n_pkts_lem = omega arith;
  }
  all-Measured ((t, i) ∷ more) b last a fine few p le (up, word, rest) =
      let ids = a.capture.delayed_pkt_ids in
      let to_measured = λ (u : Args T D) (ns : List ℕ).
        Measured a (capture_all (process_rx_pkts sub f to) (frames from k more) u) ((t, i) ∷ more)
          ns in
      let room : a.capture.n_pkts + 1 < 2 ^ 32 = omega (arith, few.pkts) in
      let second : ltb 1 (a.capture.n_pkts + 1) ≡ true = ground (arith, few.groups) in
      let gap = above (sub t a.capture.prev_ts) 100 in
      elim (Bool-cases gap) [
        | inr small ↦
            let a1 = counted t (with_pkt i a) in
            let step =
              step-same t i a fine (omega arith) room (omega (arith, few.total, few.pkts))
                (ap (λ b. b && gap) second ∙ small) in
            let done =
              all-Measured more b i a1 fine
                (record {
                  pkts = omega (arith, few.pkts);
                  groups = omega (arith, few.groups);
                  total = omega (arith, few.total);
                })
                (Passed-prev b a.capture a1.capture refl refl p) (omega arith) rest in
            subst₂ to_measured (sym step) (sym (if_false _ _ small))
              (Measured-same (t, i) a a1 _ more _ refl refl refl refl refl done)
        | inl big ↦
            let (skips, p') =
              pass_delayed-Passed b (with_pkt i a).capture
                (Passed-prev b a.capture (with_pkt i a).capture refl refl p) (omega arith) in
            let step = step-next t i a fine (omega arith) room (ap (λ b. b && gap) second ∙ big) in
            elim (Bool-cases (between b i ids)) [
              | inl skip ↦
                  let a1 = counted t (skipped i a) in
                  let done =
                    all-Measured more i i a1 fine
                      (record {
                        pkts = omega (arith, few.pkts);
                        groups = omega (arith, few.groups);
                        total = omega (arith, few.total, few.groups);
                      })
                      (Passed-prev i (pass_delayed (with_pkt i a).capture).1 a1.capture refl refl
                        p')
                      (omega arith) rest in
                  subst₂ to_measured (sym (step ∙ step-skip t i a (skips ∙ skip)))
                    (sym (if_true _ _ big ∙ if_true _ _ skip))
                    (Measured-same (t, i) a a1 _ more _ refl refl refl refl refl done)
              | inr count ↦
                  let a1 = counted t (measured i a) in
                  let done =
                    all-Measured more i i a1 fine
                      (record {
                        pkts = omega (arith, few.pkts);
                        groups = omega (arith, few.groups, few.pkts);
                        total = omega (arith, few.total, few.pkts);
                      })
                      (Passed-prev i (pass_delayed (with_pkt i a).capture).1 a1.capture refl refl
                        p')
                      (omega arith) rest in
                  subst₂ to_measured (sym (step ∙ step-count t i a (skips ∙ count)))
                    (sym (if_true _ _ big ∙ if_false _ _ count))
                    (record {
                      n_groups_lem = omega (arith, done.n_groups_lem, few.groups, few.pkts);
                      total_lem = omega (arith, done.total_lem, few.total, few.pkts);
                      squares_lem = done.squares_lem;
                      fine_lem = done.fine_lem;
                      n_pkts_lem = omega (arith, done.n_pkts_lem);
                    })
            ]
      ]
