-- ===== src/Rss/Stats/Tests.antt =====
-- A world that counts the transmissions, all received by the second queue.
use net_drv_ts.Base.{
  ℕ, ◌+◌, ◌%◌, ◌^◌, ◌≤◌, ◌≡◌, refl, ap, sym, true, false, none, some, [], ◌∷◌, ok, value_or, arith,
}
use net_drv_ts.Rss.Stats.{
  StatsOps, StatsLaws, sum, sum_pkts, prepare_stats, send_pkts, send_numbered, send_check_common,
  judge_stats, send_get_stats, send_get_stats-sent,
}

abbrev ops : StatsOps ℕ
ops = record {
  stats_reset = λ w. (ok tt, w);
  stats_set_params = λ af u w. (ok tt, w);
  stats_clear = λ w. (ok tt, w);
  rand_range = λ a b w. (ok a, w);
  send_recv_ext_check = λ j w. (ok tt, w + 1);
  check_single = λ q n w. (ok tt, w);
  stats_read = λ w. (ok (0 ∷ w ∷ []), w);
}

abbrev laws : StatsLaws ops
laws = record {
  sent = λ w. w;
  send_lem = λ j w w' e. ap (λ q. q.1) (sym e);
  reset_lem = λ w w' e. ap (λ q. q.1) (sym e);
  set_params_lem = λ af u w w' e. ap (λ q. q.1) (sym e);
  clear_lem = λ w w' e. ap (λ q. q.1) (sym e);
  read_lem = λ s w w' e. ap (λ q. q.1) (sym e);
  rand_lem = λ a b n w w' h e.
      let same = ap (λ q. value_or a q.0) e in
      (omega (arith, same), omega (arith, same, h), ap (λ q. q.1) (sym e));
}

send_get_stats-sent_example :
    (k : ℕ) × (3 ≤ k) × (k ≤ 30) × (3 ≡ 0 + k) × (k ≤ sum (0 ∷ 3 ∷ []) % 2 ^ 64)
unfolding send_get_stats send_check_common prepare_stats send_numbered send_pkts judge_stats
    sum_pkts
send_get_stats-sent_example =
    send_get_stats-sent ops laws none (some 2) true false (0 ∷ 3 ∷ []) 0 3 refl
