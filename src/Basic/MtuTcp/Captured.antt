-- ===== src/Basic/MtuTcp/Captured.antt =====
-- What the checks of net-drv-ts/basic/mtu_tcp.c after a capture say of the segments.
use net_drv_ts.Base.{
  ◌≤◌, if_true, length, List, [], ℕ, ◌^◌, ◌<◌, ◌≡◌, ◌↔◌, inl, inr, refl, ap, ap₂, sym, ◌∙◌, Bool,
  true, false, not, ◌&&◌, List, [], ◌∷◌, map, ◌==◌, if_false, if◌then◌else◌, ℤ, pos, is_negative,
  int_eq, Result, ok, ends, ⊤, test_verdict, Bool-cases, arith,
}
use net_drv_ts.Basic.MtuTcp.{capture, CbArgs, judge, check_captured}
use net_drv_ts.Basic.MtuTcp.Segments.{
  Segment, as_packet, Caught, offset, InWindow, offset-inj, CompareLaw, IsSegmented,
}
use net_drv_ts.Basic.MtuTcp.Noted.{Noted}
use net_drv_ts.Basic.MtuTcp.Folded.{onto, Caught-onto, Caught-of_onto, capture_all-Noted}

-- Arguments before a round.
pub record IsFresh (max : ℕ) (a : CbArgs) : Type 0 where
  pub fine : a.failed ≡ false
  pub fits : a.too_big_pkt ≡ false
  pub size : a.max_pld_size ≡ pos max

judge-eq-ok :
    (a : CbArgs) → judge a ≡ ok tt → (a.failed ≡ false) × (0 < a.pkts_num) × (a.too_big_pkt ≡ false)
unfolding judge
judge-eq-ok a e = elim (Bool-cases a.failed) [
  | inl bad ↦ absurd (cc (sym (if_true _ _ bad) ∙ e))
  | inr fine ↦
      let e1 = sym (if_false _ _ fine) ∙ e in
      elim (Bool-cases (a.pkts_num == 0)) [
        | inl none ↦ absurd (cc (sym (if_true _ _ none) ∙ e1))
        | inr some_pkts ↦
            let e2 = sym (if_false _ _ some_pkts) ∙ e1 in
            elim (Bool-cases a.too_big_pkt) [
              | inl big ↦ absurd (cc (sym (if_true _ _ big) ∙ e2))
              | inr fits ↦ (fine, ground (arith, some_pkts), fits)
            ]
      ]
]

module _ (max start : ℕ) (compare : ℤ → ℤ → ℤ) (law : CompareLaw compare start) where
  judged : Bool → Bool → Result ⊤
  judged too_big early =
      if too_big then ends test_verdict else (if early then ends test_verdict else ok tt)

  judge-eq :
      (a : CbArgs) (too_big early : Bool)
      → a.failed ≡ false
      → 0 < a.pkts_num
      → a.too_big_pkt ≡ too_big
      → (not (is_negative a.first_small_pkt_seqn)
          && not (int_eq a.first_small_pkt_seqn a.last_seqn))
        ≡ early
      → judge a ≡ judged too_big early
  unfolding judge judged
  judge-eq a too_big early fine count big small =
      let some_pkts : (a.pkts_num == 0) ≡ false = ground (arith, count) in
      if_false _ _ fine ∙ if_false _ _ some_pkts ∙ ap₂ judged big small

  -- Where a shorter segment was noted.
  judge_short-IsSegmented :
      (done : List Segment) (a : CbArgs)
      → ((y : Segment) → Caught y done → InWindow start y)
      → start < 2 ^ 32
      → Noted max start done a
      → a.too_big_pkt ≡ false
      → ((y : Segment) → Caught y done → y.0 ≤ max)
      → (x : Segment) → Caught x done
      → a.first_small_pkt_seqn ≡ pos x.1
      → x.0 < max
      → ((y : Segment) → Caught y done → y.0 < max → offset start x.1 ≤ offset start y.1)
      → (judge a ≡ ok tt) ↔ IsSegmented max start done
  unfolding judged
  judge_short-IsSegmented done a w hs h big fits x caught at less low =
      let (l, l_caught, l_at, high) = h.last in
      let numbers : (not (is_negative a.first_small_pkt_seqn)
            && not (int_eq a.first_small_pkt_seqn a.last_seqn))
          ≡ not (x.1 == l.1) =
        ap₂ (λ u v. not (is_negative u) && not (int_eq u v)) at l_at in
      elim (Bool-cases (x.1 == l.1)) [
        | inl same ↦
            let fine = judge-eq a false false h.fine h.count big (numbers ∙ ap not same) in
            let there : x.1 ≡ l.1 = ground (arith, same) in
            (
              λ _. record {
                fits = fits;
                short_last = λ y z c d lt_max.
                    omega (arith, low y c lt_max, high z d, ap (offset start) there);
              },
              λ _. fine,
            )
        | inr other ↦
            let verdict = judge-eq a false true h.fine h.count big (numbers ∙ ap not other) in
            (
              λ e. absurd (cc (sym verdict ∙ e)),
              λ seg.
                  let same =
                    offset-inj start x.1 l.1 hs (w x caught).seqn_fits (w l l_caught).seqn_fits
                      (omega (arith, high x caught, seg.short_last x l caught l_caught less)) in
                  absurd (ground (arith, same, other)),
            )
      ]

  -- The judgement of noted segments.
  judge-IsSegmented :
      (done : List Segment) (a : CbArgs)
      → ((y : Segment) → Caught y done → InWindow start y)
      → start < 2 ^ 32
      → Noted max start done a
      → (judge a ≡ ok tt) ↔ IsSegmented max start done
  unfolding judged
  judge-IsSegmented done a w hs h = elim h.big [
    | inr (big, x, caught, long) ↦
        let verdict = judge-eq a true _ h.fine h.count big refl in
        (λ e. absurd (cc (sym verdict ∙ e)), λ seg. absurd (omega (arith, long, seg.fits x caught)))
    | inl (big, fits) ↦ elim h.small [
      | inl (neg, none_small) ↦
          let fine =
            judge-eq a false false h.fine h.count big
              (ap (λ b. not b && not (int_eq a.first_small_pkt_seqn a.last_seqn)) neg) in
          (
            λ _. record {
              fits = fits;
              short_last = λ x y c _ less. absurd (omega (arith, none_small x c, less));
            },
            λ _. fine,
          )
      | inr (x, caught, at, less, low) ↦
          judge_short-IsSegmented done a w hs h big fits x caught at less low
    ]
  ]

  -- Where sequence numbers of a window are compared in their order and the arguments have neither a
  -- failure nor a packet that is too big, a capture of segments of a window of the stream, one at least
  -- and in any order, is passed exactly where no segment is longer than `max`, and none comes after a
  -- shorter one in the stream.
  pub check_captured_iff :
      (x : Segment) (xs : List Segment) (a : CbArgs)
      → start < 2 ^ 32
      → ((y : Segment) → Caught y (x ∷ xs) → InWindow start y)
      → a.failed ≡ false
      → a.too_big_pkt ≡ false
      → a.max_pld_size ≡ pos max
      → ((check_captured compare (map as_packet (x ∷ xs)) a).0 ≡ ok tt)
        ↔ IsSegmented max start (x ∷ xs)
  unfolding check_captured
  check_captured_iff x xs a hs w fine fits size =
      let into : (y : Segment) → Caught y (x ∷ xs) → Caught y (onto xs (x ∷ [])) =
        λ y c. Caught-onto xs (x ∷ []) y (elim c [ inl e ↦ inr (inl e) | inr m ↦ inl m ]) in
      let back : (y : Segment) → Caught y (onto xs (x ∷ [])) → Caught y (x ∷ xs) = λ y c.
        elim (Caught-of_onto xs (x ∷ []) y c) [
          | inl m ↦ inr m
          | inr (inl e) ↦ inl e
          | inr (inr e) ↦ absurd e
        ] in
      let (there, here) =
        judge-IsSegmented (onto xs (x ∷ [])) _ (λ y c. w y (back y c)) hs
          (capture_all-Noted max start compare law x xs (record a { pkts_num = 0 }) w refl fine fits
            size) in
      (
        λ e. record {
          fits = λ y c. (there e).fits y (into y c);
          short_last = λ y z c d. (there e).short_last y z (into y c) (into z d);
        },
        λ seg. here (record {
          fits = λ y c. seg.fits y (back y c);
          short_last = λ y z c d. seg.short_last y z (back y c) (back z d);
        }),
      )

  -- What is left of the arguments for the next round.
  pub check_captured-again :
      (xs : List Segment) (a : CbArgs)
      → start < 2 ^ 32
      → ((y : Segment) → Caught y xs → InWindow start y)
      → IsFresh max a
      → (check_captured compare (map as_packet xs) a).0 ≡ ok tt
      → (0 < length xs)
        × IsSegmented max start xs
        × IsFresh max (check_captured compare (map as_packet xs) a).1
  unfolding check_captured capture
  check_captured-again [] a hs w fresh e =
      let (_, count, _) = judge-eq-ok (record a { pkts_num = 0 }) e in absurd (omega (arith, count))
  check_captured-again (x ∷ xs) a hs w fresh e =
      let (fine, _, fits) = judge-eq-ok (check_captured compare (map as_packet (x ∷ xs)) a).1 e in
      (
        omega arith,
        (check_captured_iff x xs a hs w fresh.fine fresh.fits fresh.size).0 e,
        record {
          fine = fine;
          fits = fits;
          size =
              (capture_all-Noted max start compare law x xs (record a { pkts_num = 0 }) w refl
                fresh.fine fresh.fits fresh.size).size;
        },
      )
