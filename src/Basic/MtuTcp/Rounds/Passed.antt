-- ===== src/Basic/MtuTcp/Rounds/Passed.antt =====
-- What it means that the loop of net-drv-ts/basic/mtu_tcp.c comes to its end.
use mathlib.Core.Path.{subst}
use net_drv_ts.Base.{
  pos, pos_part, ℕ, zero, suc, ◌+◌, ◌^◌, ◌<◌, ◌≤◌, ◌≡◌, ◌∙◌, refl, ap, ap₂, sym, Bool, true, false,
  ◌&&◌, Bytes, List, map, length, str_eq, eq_of_str_eq, ◌==◌, ℤ, M, Result, ok, err, ends, ⊤,
  test_verdict, jump, check_rc, on_error, ◌>>=◌, ◌>>◌, >>=-eq-ok, or_jump-eq-ok, check_rc-eq-ok,
  value_or, arith,
}
use net_drv_ts.Basic.MtuTcp.{PktSize, check_maxseg, choose_sizes, Packet, CbArgs, check_captured}
use net_drv_ts.Basic.MtuTcp.Segments.{Segment, as_packet, Caught, InWindow, CompareLaw, IsSegmented}
use net_drv_ts.Basic.MtuTcp.Captured.{IsFresh, check_captured-again}
use net_drv_ts.Basic.MtuTcp.Rounds.{
  returned, init_args, run_checks, LoopOps, verdict_unless, compare_data, exchange, judged_args,
  check_packets, rounds,
}
use net_drv_ts.Basic.MtuTcp.Sizes.{IsRange, choose_sizes-IsRange, check_maxseg-eq-ok}

module _ {W : Type 0} (o : LoopOps W) (compare : ℤ → ℤ → ℤ) where
  -- What is relied on of a capture: it holds segments of a window of the stream.
  abbrev pub CaptureLaw : Type 0
  CaptureLaw =
      (pkts : List Packet) (v v' : W)
      → o.trrecv_get v ≡ (ok pkts, v')
      → (start : ℕ) × (xs : List Segment) × (start < 2 ^ 32)
        × (pkts ≡ map as_packet xs)
        × ((y : Segment) → Caught y xs → InWindow start y)

  -- From `w` to `w'`, data of an allowed length were made and sent, the receiver was readable, and the
  -- same data were received.
  abbrev pub Exchanged : ℕ → ℕ → W → W → Type 0
  Exchanged min_size max_size w w' =
      (send_len : ℕ) × (buf : Bytes) × (v1 : W) × (v2 : W) × (v3 : W) × (v4 : W) × (o.rand_range
          min_size max_size w
        ≡ (ok send_len, v1))
      × (o.fill_buf send_len v1 ≡ (ok buf, v2))
      × (o.send buf v2 ≡ (ok tt, v3))
      × (o.readable v3 ≡ (ok true, v4))
      × (o.read_dbuf send_len v4 ≡ (ok buf, w'))
      × (length buf ≡ send_len)

  -- A capture of segments, none longer than `max`, and none after a shorter one.
  abbrev pub Segmented : ℕ → W → W → Type 0
  Segmented max v v' =
      (start : ℕ) × (xs : List Segment) × (0 < length xs)
      × (o.trrecv_get v ≡ (ok (map as_packet xs), v'))
      × IsSegmented max start xs

  -- So it was in each of `n` rounds, each from where the one before ended.
  abbrev pub Passed : ℕ → ℕ → ℕ → ℕ → W → W → Type 0
  Passed max min_size max_size zero w w' = w ≡ w'
  Passed max min_size max_size (suc n) w w' =
      (v : W) × (v' : W) × Exchanged min_size max_size w v
      × Segmented max v v'
      × Passed max min_size max_size n v' w'

  verdict_unless>>=-eq-ok :
      (c : Bool) (w w' : W) → verdict_unless c w ≡ (ok tt, w') → (c ≡ true) × (w ≡ w')
  unfolding verdict_unless
  verdict_unless>>=-eq-ok true w w' e = (refl, ap (λ q. q.1) e)
  verdict_unless>>=-eq-ok false w w' e = absurd (cc (ap (λ q. q.0) e))

  judged_args-eq-ok :
      (r : Result ⊤ × CbArgs) (a' : CbArgs) (w w' : W)
      → judged_args r w ≡ (ok a', w')
      → (r.0 ≡ ok tt) × (r.1 ≡ a') × (w ≡ w')
  unfolding judged_args
  judged_args-eq-ok (ok x, a) a' w w' e = (refl, ap (λ q. value_or a q.0) e, ap (λ q. q.1) e)
  judged_args-eq-ok (err x, a) a' w w' e = absurd (cc (ap (λ q. q.0) e))
  judged_args-eq-ok (ends j, a) a' w w' e = absurd (cc (ap (λ q. q.0) e))

  two_true : (a b : Bool) → (a && b) ≡ true → (a ≡ true) × (b ≡ true)
  two_true true b h = (refl, h)
  two_true false b h = absurd (cc h)

  exchange-Exchanged :
      (min_size max_size : ℕ) (w w' : W)
      → exchange o compare min_size max_size w ≡ (ok tt, w')
      → Exchanged min_size max_size w w'
  unfolding exchange compare_data
  exchange-Exchanged min_size max_size w w' e =
      let (send_len, w1, picked, e1) = >>=-eq-ok (o.rand_range min_size max_size) _ w e in
      let (buf, w2, filled, e2) = >>=-eq-ok (o.fill_buf send_len) _ w1 e1 in
      let send : M W ⊤ = on_error (o.send buf) (λ _. jump test_verdict) in
      let (_, w5, ready, e3) = >>=-eq-ok (send >> (o.readable >>= verdict_unless)) _ w2 e2 in
      let (_, w3, sent, e4) = >>=-eq-ok send (λ _. o.readable >>= verdict_unless) w2 ready in
      let (is_readable, w4, polled, e5) = >>=-eq-ok o.readable verdict_unless w3 e4 in
      let (there, still) = verdict_unless>>=-eq-ok is_readable w4 w5 e5 in
      let (got, w6, read, e6) =
        >>=-eq-ok (on_error (o.read_dbuf send_len) (λ _. jump test_verdict)) _ w5 e3 in
      let (same, world) =
        verdict_unless>>=-eq-ok (length got == send_len && str_eq got buf) w6 w' e6 in
      let (sized, alike) = two_true (length got == send_len) (str_eq got buf) same in
      let whole = eq_of_str_eq got buf alike in
      (
        send_len,
        buf,
        w1,
        w2,
        w3,
        w5,
        picked,
        filled,
        or_jump-eq-ok test_verdict (o.send buf w2) w2 sent,
        polled ∙ ap₂ (λ b u. (ok b, u)) there still,
        or_jump-eq-ok test_verdict (o.read_dbuf send_len w5) w5 read
            ∙ ap₂ (λ b u. (ok b, u)) whole world,
        ground (arith, ap length whole, sized),
      )

  check_packets-Segmented :
      (max : ℕ) (a a' : CbArgs) (w w' : W)
      → CaptureLaw
      → ((start : ℕ) → start < 2 ^ 32 → CompareLaw compare start)
      → IsFresh max a
      → check_packets o compare a w ≡ (ok a', w')
      → Segmented max w w' × IsFresh max a'
  unfolding check_packets
  check_packets-Segmented max a a' w w' capture law fresh e =
      let (pkts, v, got, e1) = >>=-eq-ok (check_rc o.trrecv_get) _ w e in
      let caught = check_rc-eq-ok (o.trrecv_get w) w got in
      let (start, xs, hs, same, near) = capture pkts w v caught in
      let (passed, args, world) = judged_args-eq-ok (check_captured compare pkts a) a' v w' e1 in
      let (some_pkts, segmented, again) =
        check_captured-again max start compare (law start hs) xs a hs near fresh
          (ap (λ q. (check_captured compare q a).0) (sym same) ∙ passed) in
      (
        (start, xs, some_pkts, caught ∙ ap₂ (λ q u. (ok q, u)) same world, segmented),
        subst (IsFresh max) (ap (λ q. (check_captured compare q a).1) (sym same) ∙ args) again,
      )

  -- Where sequence numbers of a window are compared in their order, each capture holds segments of a
  -- window of the stream, and the arguments are those before a round, the end of the loop means that all
  -- its rounds passed.
  pub rounds-Passed :
      (max min_size max_size n : ℕ) (a a' : CbArgs) (w w' : W)
      → CaptureLaw
      → ((start : ℕ) → start < 2 ^ 32 → CompareLaw compare start)
      → IsFresh max a
      → rounds o compare min_size max_size n a w ≡ (ok a', w')
      → Passed max min_size max_size n w w'
  unfolding rounds
  rounds-Passed max min_size max_size zero a a' w w' capture law fresh e = ap (λ q. q.1) e
  rounds-Passed max min_size max_size (suc n) a a' w w' capture law fresh e =
      let (_, v, exchanged, e1) = >>=-eq-ok (exchange o compare min_size max_size) _ w e in
      let (a1, v', checked, e2) = >>=-eq-ok (check_packets o compare a) _ v e1 in
      let (segmented, fresh') = check_packets-Segmented max a a1 v v' capture law fresh checked in
      (
        v,
        v',
        exchange-Exchanged min_size max_size w v exchanged,
        segmented,
        rounds-Passed max min_size max_size n a1 a' v' w' capture law fresh' e2,
      )

  returned-eq-ok :
      {A : Type 0} (r : Result A) (x : A) (w w' : W)
      → returned r w ≡ (ok x, w')
      → (r ≡ ok x) × (w ≡ w')
  unfolding returned
  returned-eq-ok r x w w' e = (ap (λ q. q.0) e, ap (λ q. q.1) e)

  -- Where the MTU is above 200, sequence numbers of a window are compared in their order and each
  -- capture holds segments of a window of the stream, a success means that TCP_MAXSEG is at most the
  -- MTU and at least the MTU less 200, that the sizes of data are a range of the kind asked for, and
  -- that from the start of the CSAP on there were `sends_num` rounds, one after the other: in each, data
  -- of a length drawn from the range were sent, the receiver was readable, the same data were received,
  -- and of the segments captured then, one at least, none was longer than TCP_MAXSEG and none came after
  -- a shorter one.
  pub run_checks-Passed :
      (mtu sends_num : ℕ) (pkt_size : PktSize) (start_csap : M W ⊤) (a' : CbArgs) (w w' : W)
      → CaptureLaw
      → ((start : ℕ) → start < 2 ^ 32 → CompareLaw compare start)
      → 200 < mtu
      → run_checks o compare mtu pkt_size sends_num start_csap w ≡ (ok a', w')
      → (max : ℕ) × (min_size : ℕ) × (max_size : ℕ) × (v : W) × (v' : W) × (o.get_maxseg w
          ≡ (ok (pos max), v))
        × (max ≤ mtu)
        × (mtu ≤ max + 200)
        × IsRange pkt_size max min_size max_size
        × (start_csap v ≡ (ok tt, v'))
        × Passed max min_size max_size sends_num v' w'
  unfolding run_checks
  run_checks-Passed mtu sends_num pkt_size start_csap a' w w' capture law large e =
      let (seen, w1, got, e1) = >>=-eq-ok o.get_maxseg _ w e in
      let (tcp_maxseg, w2, checked, e2) = >>=-eq-ok (returned (check_maxseg seen mtu)) _ w1 e1 in
      let (valid, w12) = returned-eq-ok (check_maxseg seen mtu) tcp_maxseg w1 w2 checked in
      let (max, seen_at, at, low, high) = check_maxseg-eq-ok seen tcp_maxseg mtu large valid in
      let ((min_size, max_size), w3, chosen, e3) =
        >>=-eq-ok (returned (choose_sizes pkt_size (pos_part tcp_maxseg))) _ w2 e2 in
      let (sized, w23) =
        returned-eq-ok (choose_sizes pkt_size (pos_part tcp_maxseg)) (min_size, max_size) w2 w3
          chosen in
      let range =
        choose_sizes-IsRange pkt_size max min_size max_size
          (ap (λ m. choose_sizes pkt_size (pos_part m)) (sym at) ∙ sized) in
      let (_, v, started, e4) = >>=-eq-ok start_csap _ w3 e3 in
      (
        max,
        min_size,
        max_size,
        w3,
        v,
        got ∙ ap₂ (λ m u. (ok m, u)) seen_at (w12 ∙ w23),
        low,
        high,
        range,
        started,
        rounds-Passed max min_size max_size sends_num (init_args tcp_maxseg) a' v w' capture law
            (record { fine = refl; fits = refl; size = at }) e4,
      )
