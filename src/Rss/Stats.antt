-- ===== src/Rss/Stats.antt =====
-- The per-queue statistics of net-drv-ts/rss/common_rss.c: send_check_common(),
-- net_drv_rss_send_check_stats() and net_drv_rss_send_get_stats().
mod Tests
use net_drv_ts.Base.{
  ℕ, zero, suc, ◌+◌, ◌%◌, ◌^◌, ◌≤◌, ◌≡◌, ◌∙◌, inl, inr, refl, ap, sym, Bool, true, false, none,
  some, Option, ⊤, List, [], ◌∷◌, ◌==◌, ltb, if◌then◌else◌, M, Result, ok, err, ends, pure, jump,
  test_verdict, value_or, ◌>>=◌, ◌>>◌, >>=-eq-ok, Bool-cases, arith,
}

-- The XDP hook on the receiver with its statistics, the random numbers and one check of a
-- transmission over the sockets. Addresses are given by their families, `none` for NULL.
pub record StatsOps (W : Type 0) : Type 0 where
  pub stats_reset : M W ⊤
  pub stats_set_params : ℕ → Bool → M W ⊤
  pub stats_clear : M W ⊤
  pub rand_range : ℕ → ℕ → M W ℕ
  pub send_recv_ext_check : Bool → M W ⊤
  pub check_single : ℕ → ℕ → M W ⊤
  pub stats_read : M W (List ℕ)

-- `uint64_t got_pkts`
unfoldable pub sum_pkts : List ℕ → ℕ → ℕ
sum_pkts [] got = got
sum_pkts (pkts ∷ rest) got = sum_pkts rest ((got + pkts) % 2 ^ 64)

module _ {W : Type 0} (o : StatsOps W) where
  -- The hook counts the packets of the addresses, or all where there are none.
  unfoldable pub prepare_stats : Option ℕ → Option ℕ → Bool → M W ⊤
  prepare_stats (some af) _ is_udp = o.stats_reset >> o.stats_set_params af is_udp
  prepare_stats none (some af) is_udp = o.stats_reset >> o.stats_set_params af is_udp
  prepare_stats none none is_udp = o.stats_clear

  unfoldable pub send_pkts : ℕ → Bool → M W ⊤
  send_pkts zero jumbo = pure tt
  send_pkts (suc n) jumbo = o.send_recv_ext_check jumbo >> send_pkts n jumbo

  unfoldable pub send_numbered : Bool → ℕ → M W ℕ
  unfolding send_pkts
  send_numbered jumbo pkts_num = send_pkts pkts_num jumbo >> pure pkts_num

  unfoldable pub send_check_common : Option ℕ → Option ℕ → Bool → Bool → M W ℕ
  unfolding prepare_stats send_numbered
  send_check_common sender_af receiver_af is_udp jumbo =
      prepare_stats sender_af receiver_af is_udp >> (o.rand_range 3 30 >>= send_numbered jumbo)

  unfoldable pub send_check_stats : Option ℕ → Option ℕ → Bool → ℕ → Bool → M W ⊤
  unfolding send_check_common
  send_check_stats sender_af receiver_af is_udp exp_queue jumbo =
      send_check_common sender_af receiver_af is_udp jumbo >>= o.check_single exp_queue

  -- What is made of the statistics
  unfoldable pub judge_stats : ℕ → List ℕ → M W (List ℕ)
  unfolding sum_pkts
  judge_stats pkts_num stats =
      let got_pkts = sum_pkts stats 0 in
      if got_pkts == 0
      then jump test_verdict
      else (if ltb got_pkts pkts_num then jump test_verdict else pure stats)

  unfoldable pub send_get_stats : Option ℕ → Option ℕ → Bool → Bool → M W (List ℕ)
  unfolding send_check_common judge_stats
  send_get_stats sender_af receiver_af is_udp jumbo =
      send_check_common sender_af receiver_af is_udp jumbo >>= λ pkts_num.
      (o.stats_read >>= judge_stats pkts_num)

-- The checks of a transmission that were passed; the other calls pass none.
pub record StatsLaws {W : Type 0} (o : StatsOps W) : Type 0 where
  pub sent : W → ℕ
  pub send_lem :
      (jumbo : Bool) (w w' : W) → o.send_recv_ext_check jumbo w ≡ (ok tt, w') → sent w' ≡ sent w + 1
  pub reset_lem : (w w' : W) → o.stats_reset w ≡ (ok tt, w') → sent w' ≡ sent w
  pub set_params_lem :
      (af : ℕ) (is_udp : Bool) (w w' : W)
      → o.stats_set_params af is_udp w ≡ (ok tt, w')
      → sent w' ≡ sent w
  pub clear_lem : (w w' : W) → o.stats_clear w ≡ (ok tt, w') → sent w' ≡ sent w
  pub read_lem : (stats : List ℕ) (w w' : W) → o.stats_read w ≡ (ok stats, w') → sent w' ≡ sent w
  pub rand_lem :
      (a b n : ℕ) (w w' : W)
      → a ≤ b
      → o.rand_range a b w ≡ (ok n, w')
      → (a ≤ n) × (n ≤ b) × (sent w' ≡ sent w)

abbrev pub sum : List ℕ → ℕ
sum [] = 0
sum (n ∷ ns) = n + sum ns

sum_step : (n got s : ℕ) → ((got + n) % 2 ^ 64 + s) % 2 ^ 64 ≡ (got + (n + s)) % 2 ^ 64
sum_step n got s = omega arith

sum_pkts-sum :
    (ns : List ℕ) (got : ℕ) → got % 2 ^ 64 ≡ got → sum_pkts ns got ≡ (got + sum ns) % 2 ^ 64
unfolding sum_pkts
sum_pkts-sum [] got h = omega (arith, h)
sum_pkts-sum (n ∷ ns) got h =
    sum_pkts-sum ns ((got + n) % 2 ^ 64) (omega arith) ∙ sum_step n got (sum ns)

module _ {W : Type 0} (o : StatsOps W) (laws : StatsLaws o) where
  open laws use {sent, send_lem, reset_lem, set_params_lem, clear_lem, read_lem, rand_lem}

  send_pkts-sent :
      (n : ℕ) (jumbo : Bool) (w w' : W) → send_pkts o n jumbo w ≡ (ok tt, w') → sent w' ≡ sent w + n
  unfolding send_pkts
  send_pkts-sent zero jumbo w w' e = let same = ap (λ q. sent q.1) e in omega (arith, same)
  send_pkts-sent (suc n) jumbo w w' e =
      let (_, v, one, rest) =
        >>=-eq-ok (o.send_recv_ext_check jumbo) (λ _. send_pkts o n jumbo) w {b = tt} {u = w'} e in
      omega (arith, send_lem jumbo w v one, send_pkts-sent n jumbo v w' rest)

  with_params-sent :
      (af : ℕ) (is_udp : Bool) (w w' : W)
      → (o.stats_reset >> o.stats_set_params af is_udp) w ≡ (ok tt, w')
      → sent w' ≡ sent w
  with_params-sent af is_udp w w' e =
      let (_, v, first, second) =
        >>=-eq-ok o.stats_reset (λ _. o.stats_set_params af is_udp) w {b = tt} {u = w'} e in
      set_params_lem af is_udp v w' second ∙ reset_lem w v first

  prepare_stats-sent :
      (s r : Option ℕ) (is_udp : Bool) (w w' : W)
      → prepare_stats o s r is_udp w ≡ (ok tt, w')
      → sent w' ≡ sent w
  unfolding prepare_stats
  prepare_stats-sent (some af) r is_udp w w' e = with_params-sent af is_udp w w' e
  prepare_stats-sent none (some af) is_udp w w' e = with_params-sent af is_udp w w' e
  prepare_stats-sent none none is_udp w w' e = clear_lem w w' e

  send_numbered-sent :
      (jumbo : Bool) (n k : ℕ) (w w' : W)
      → send_numbered o jumbo n w ≡ (ok k, w')
      → (n ≡ k) × (sent w' ≡ sent w + n)
  unfolding send_numbered
  send_numbered-sent jumbo n k w w' e =
      let (_, v, all, same) = >>=-eq-ok (send_pkts o n jumbo) (λ _. pure n) w {b = k} {u = w'} e in
      (
        ap (λ q. value_or n q.0) same,
        ap (λ q. sent q.1) (sym same) ∙ send_pkts-sent n jumbo w v all,
      )

  -- Between 3 and 30 packets are sent and counted.
  send_check_common-sent :
      (s r : Option ℕ) (is_udp jumbo : Bool) (k : ℕ) (w w' : W)
      → send_check_common o s r is_udp jumbo w ≡ (ok k, w')
      → (3 ≤ k) × (k ≤ 30) × (sent w' ≡ sent w + k)
  unfolding send_check_common
  send_check_common-sent s r is_udp jumbo k w w' e =
      let (_, w1, prepared, e1) =
        >>=-eq-ok (prepare_stats o s r is_udp) (λ _. o.rand_range 3 30 >>= send_numbered o jumbo) w
          {b = k} {u = w'} e in
      let (n, w2, picked, e2) =
        >>=-eq-ok (o.rand_range 3 30) (send_numbered o jumbo) w1 {b = k} {u = w'} e1 in
      let (same, all) = send_numbered-sent jumbo n k w2 w' e2 in
      let (low, high, still) = rand_lem 3 30 n w1 w2 (omega arith) picked in
      let first = prepare_stats-sent s r is_udp w w1 prepared in
      (omega (arith, same, low), omega (arith, same, high), omega (arith, same, all, still, first))

  judge_stats-eq-ok :
      (n : ℕ) (read stats : List ℕ) (w w' : W)
      → judge_stats o n read w ≡ (ok stats, w')
      → (read ≡ stats) × (w ≡ w') × (n ≤ sum_pkts read 0)
  unfolding judge_stats
  judge_stats-eq-ok n read stats w w' e = elim (Bool-cases (sum_pkts read 0 == 0)) [
    | inl nothing ↦ absurd (cc (ap (λ q. q.0) (rw nothing at e)))
    | inr something ↦ elim (Bool-cases (ltb (sum_pkts read 0) n)) [
      | inl few ↦ absurd (cc (ap (λ q. q.0) (rw few at (rw something at e))))
      | inr enough ↦
          let done = rw enough at (rw something at e) in
          (ap (λ q. value_or read q.0) done, ap (λ q. q.1) done, ground (arith, enough))
    ]
  ]

  -- Where the statistics are got, between 3 and 30 transmissions were checked, and the packets of
  -- all queues together, in 64 bits, are no fewer.
  pub send_get_stats-sent :
      (s r : Option ℕ) (is_udp jumbo : Bool) (stats : List ℕ) (w w' : W)
      → send_get_stats o s r is_udp jumbo w ≡ (ok stats, w')
      → (k : ℕ) × (3 ≤ k) × (k ≤ 30) × (sent w' ≡ sent w + k) × (k ≤ sum stats % 2 ^ 64)
  unfolding send_get_stats
  send_get_stats-sent s r is_udp jumbo stats w w' e =
      let judged : ℕ → M W (List ℕ) = λ n. (o.stats_read >>= judge_stats o n) in
      let (k, w1, done, e1) =
        >>=-eq-ok (send_check_common o s r is_udp jumbo) judged w {b = stats} {u = w'} e in
      let (read, w2, got, e2) =
        >>=-eq-ok o.stats_read (judge_stats o k) w1 {b = stats} {u = w'} e1 in
      let (same, world, enough) = judge_stats-eq-ok k read stats w2 w' e2 in
      let (low, high, all) = send_check_common-sent s r is_udp jumbo k w w1 done in
      let still = read_lem read w1 w2 got in
      let there = ap sent world in
      let total = sum_pkts-sum read 0 (omega arith) in
      let alike = ap sum same in
      (k, low, high, omega (arith, all, still, there), omega (arith, enough, total, alike))
