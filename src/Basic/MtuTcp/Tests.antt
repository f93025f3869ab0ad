-- ===== src/Basic/MtuTcp/Tests.antt =====
-- A capture of mtu_tcp.c in the wrong order, and a test of two rounds.
use net_drv_ts.Base.{
  ltb→lt, str_eq, ℕ, suc, ◌+◌, ◌-◌, ◌%◌, ◌^◌, ◌<◌, ◌≤◌, ◌≡◌, ◌↔◌, inl, inr, refl, ap, sym, Bool,
  true, false, List, [], ◌∷◌, map, ltb, if◌then◌else◌, ℤ, pos, negsuc, is_negative, ok, ends,
  test_verdict, pure, value_or, arith,
}
use net_drv_ts.Basic.MtuTcp.{more, choose_sizes, check_maxseg, check_captured}
use net_drv_ts.Basic.MtuTcp.Segments.{
  Segment, as_packet, Caught, offset, InWindow, CompareLaw, IsSegmented,
}
use net_drv_ts.Basic.MtuTcp.Captured.{check_captured_iff}
use net_drv_ts.Basic.MtuTcp.Sizes.{IsRange}
use net_drv_ts.Basic.MtuTcp.Rounds.{LoopOps, init_args, run_checks}
use net_drv_ts.Basic.MtuTcp.Rounds.Passed.{Passed, CaptureLaw, run_checks-Passed}

-- The signed difference modulo 2^32
abbrev serial_diff : ℕ → ℕ → ℤ
serial_diff a b =
    let d = (a + 2 ^ 32 - b) % 2 ^ 32 in if ltb d (2 ^ 31) then pos d else negsuc (2 ^ 32 - 1 - d)

abbrev compare_seqn : ℤ → ℤ → ℤ
compare_seqn (pos a) (pos b) = serial_diff a b
compare_seqn (pos _) (negsuc _) = pos 1
compare_seqn (negsuc _) (pos _) = negsuc 0
compare_seqn (negsuc _) (negsuc _) = pos 0

same_order :
    (x y : Bool) (m n : ℕ)
    → ((x ≡ true) → (y ≡ true) → ⊥)
    → ((x ≡ false) → (y ≡ false) → ⊥)
    → is_negative (if x then pos m else negsuc n) ≡ y
same_order true true m n h k = absurd (h refl refl)
same_order true false m n h k = refl
same_order false true m n h k = refl
same_order false false m n h k = absurd (k refl refl)

compare_seqn-law : (start : ℕ) → start < 2 ^ 32 → CompareLaw compare_seqn start
compare_seqn-law start hs a b ha hb near_a near_b =
    same_order (ltb ((a + 2 ^ 32 - b) % 2 ^ 32) (2 ^ 31)) (ltb (offset start a) (offset start b)) _
      _ (λ h k. omega (arith, ltb→lt _ _ h, ltb→lt _ _ k))
      (λ h k.
        let far : 2 ^ 31 ≤ (a + 2 ^ 32 - b) % 2 ^ 32 = ground (arith, h) in
        let no_less : offset start b ≤ offset start a = ground (arith, k) in
        omega (arith, far, no_less))

-- The sequence number wraps around between the two.
abbrev segments : List Segment
segments = (1, 2) ∷ (4, 4294967294) ∷ []

segments-InWindow : (y : Segment) → Caught y segments → InWindow 4294967294 y
segments-InWindow y (inl e) = record {
  len_fits = omega (arith, ap (λ q. q.0) e);
  seqn_fits = omega (arith, ap (λ q. q.1) e);
  near = omega (arith, ap (λ q. q.1) e);
}
segments-InWindow y (inr (inl e)) = record {
  len_fits = omega (arith, ap (λ q. q.0) e);
  seqn_fits = omega (arith, ap (λ q. q.1) e);
  near = omega (arith, ap (λ q. q.1) e);
}
segments-InWindow y (inr (inr e)) = absurd e

check_captured_iff_example :
    ((check_captured compare_seqn (map as_packet segments) (init_args (pos 4))).0 ≡ ok tt)
    ↔ IsSegmented 4 4294967294 segments
check_captured_iff_example =
    check_captured_iff 4 4294967294 compare_seqn (compare_seqn-law 4294967294 (omega arith)) (1, 2)
      ((4, 4294967294) ∷ []) (init_args (pos 4)) (omega arith) segments-InWindow refl refl refl

captured : (check_captured compare_seqn (map as_packet segments) (init_args (pos 4))).0 ≡ ok tt
unfolding check_captured
captured = refl

short_before :
    (check_captured compare_seqn (map as_packet ((1, 2) ∷ (4, 3) ∷ [])) (init_args (pos 4))).0
    ≡ ends test_verdict
unfolding check_captured
short_before = refl

too_big :
    (check_captured compare_seqn (map as_packet ((5, 2) ∷ [])) (init_args (pos 4))).0
    ≡ ends test_verdict
unfolding check_captured
too_big = refl

sizes_more : choose_sizes more 5 ≡ ok (6, 7)
unfolding choose_sizes
sizes_more = refl

maxseg_small : check_maxseg (pos 1299) 1500 ≡ ends test_verdict
unfolding check_maxseg
maxseg_small = refl

-- The world counts the data sent.
abbrev quiet_ops : LoopOps ℕ
quiet_ops = record {
  rand_range = λ a b w. (ok a, w);
  fill_buf = λ n w. (ok (7 ∷ 7 ∷ 7 ∷ 7 ∷ 7 ∷ []), w);
  send = λ buf w. (ok tt, suc w);
  readable = λ w. (ok true, w);
  read_dbuf = λ n w. (ok (7 ∷ 7 ∷ 7 ∷ 7 ∷ 7 ∷ []), w);
  trrecv_get = λ w. (ok (map as_packet segments), w);
  get_maxseg = λ w. (ok (pos 4), w);
}

quiet-CaptureLaw : CaptureLaw quiet_ops compare_seqn
quiet-CaptureLaw pkts v v' e =
    (4294967294, segments, omega arith, ap (λ q. value_or pkts q.0) (sym e), segments-InWindow)

quiet_run :
    run_checks quiet_ops compare_seqn 201 more 2 (pure tt) 0
    ≡ (ok (check_captured compare_seqn (map as_packet segments) (init_args (pos 4))).1, 2)
unfolding run_checks check_captured check_maxseg choose_sizes str_eq
quiet_run = refl

run_checks-Passed_example :
    (max : ℕ) × (min_size : ℕ) × (max_size : ℕ) × (v : ℕ) × (v' : ℕ) × (quiet_ops.get_maxseg 0
      ≡ (ok (pos max), v))
    × (max ≤ 201)
    × (201 ≤ max + 200)
    × IsRange more max min_size max_size
    × (pure {W = ℕ} tt v ≡ (ok tt, v'))
    × Passed quiet_ops compare_seqn max min_size max_size 2 v' 2
run_checks-Passed_example =
    run_checks-Passed quiet_ops compare_seqn 201 2 more (pure tt)
      (check_captured compare_seqn (map as_packet segments) (init_args (pos 4))).1 0 2
      quiet-CaptureLaw compare_seqn-law (omega arith) quiet_run
