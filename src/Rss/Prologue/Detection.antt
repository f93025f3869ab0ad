-- ===== src/Rss/Prologue/Detection.antt =====
-- What the detected variant of the Toeplitz hash means: on a NIC that uses one of the variants, the
-- detection over addresses that the variants map to different queues finds the one used.
use mathlib.Core.Path.{subst}
use net_drv_ts.Base.{
  ℕ, zero, suc, ◌≡◌, ◌≢◌, ap, sym, ◌∙◌, inl, inr, Bool, true, false, Option, ◌==◌, ==_iff, ok,
  check_rc, value_or, >>=-eq-ok, check_rc-eq-ok, check_read>>=-eq-ok, Bool-cases,
}
use net_drv_ts.Rss.Context.{RssOps}
use net_drv_ts.Rss.Prologue.{
  Variant, standard, sym_or_xor, VariantIds, PrologueOps, Choice, send_get_rx_queue, hash_idx,
  choose, match_queue, detect_on, try_detect_toeplitz_variant,
}
use net_drv_ts.Rss.Prologue.Queues.{
  IsQueueOf, Tells, HasQueues, DetectionLaws, idx_unique, send_get_rx_queue-IsQueueOf,
}
use net_drv_ts.Rss.Prologue.Search.{attempt-HasQueues, choose-HasQueues}

module _ {W Cache Addr : Type 0} (o : PrologueOps W Addr) (r : RssOps W Cache Addr)
    (ids : VariantIds) (cache : Option Cache) (table_size : ℕ) (table : ℕ → ℕ) where
  match-used :
      (u v : Variant) (c : Choice Addr) (q : ℕ) (w w' : W)
      → HasQueues o r ids cache table_size table c
      → c.queue_std ≢ c.queue_sym
      → IsQueueOf o r ids cache table_size table u c.tst_addr c.iut_addr q
      → match_queue o r ids q c w ≡ (ok v, w')
      → v ≡ u
  unfolding match_queue
  match-used standard v c q w w' has differ h e =
      let first = (==_iff q c.queue_std).1 (
        idx_unique o r ids cache table_size table standard c.tst_addr c.iut_addr q c.queue_std h
          has.0) in
      ap (λ x. value_or v x.0) (sym (rw first at e))
  match-used sym_or_xor v c q w w' has differ h e =
      let same =
        idx_unique o r ids cache table_size table sym_or_xor c.tst_addr c.iut_addr q c.queue_sym h
          has.1 in
      let second = (==_iff q c.queue_sym).1 same in
      elim (Bool-cases (q == c.queue_std)) [
        | inl first ↦ absurd (differ (sym ((==_iff q c.queue_std).0 first) ∙ same))
        | inr other ↦ ap (λ x. value_or v x.0) (sym (rw second at (rw other at e)))
      ]

  detect_on-used :
      (laws : DetectionLaws o r ids cache table_size table) (jumbo : Bool) (c : Choice Addr)
      (v : Variant) (w w' : W)
      → HasQueues o r ids cache table_size table c
      → c.queue_std ≢ c.queue_sym
      → detect_on o r ids jumbo c w ≡ (ok v, w')
      → v ≡ laws.used
  unfolding detect_on
  detect_on-used laws jumbo c v w w' has differ e =
      let (socks, w1, g, k1) = >>=-eq-ok (o.gen_connection c.iut_addr c.tst_addr) _ w e in
      let (_, w2, s, k2) = >>=-eq-ok (check_rc o.stats_reset) _ w1 k1 in
      let (_, w3, p, k3) =
        >>=-eq-ok (check_rc (o.stats_set_params c.tst_addr c.iut_addr)) _ w2 k2 in
      let (q, w4, b, k4) = >>=-eq-ok (send_get_rx_queue o r ids socks jumbo) _ w3 k3 in
      let (v', w5, m, k5) = >>=-eq-ok (match_queue o r ids q c) _ w4 k4 in
      let (_, w6, _, k6) = >>=-eq-ok (o.close true socks.0) _ w5 k5 in
      let (_, w7, _, k7) = >>=-eq-ok (o.close false socks.1) _ w6 k6 in
      let flow =
        laws.set_params_lem c.tst_addr c.iut_addr w2 w3
          (check_rc-eq-ok (o.stats_set_params c.tst_addr c.iut_addr w2) w2 p) in
      let queue =
        subst (λ f. IsQueueOf o r ids cache table_size table laws.used f.0 f.1 q) flow
          (send_get_rx_queue-IsQueueOf o r ids cache table_size table laws socks jumbo q w3 w4 b) in
      ap (λ x. value_or v x.0) (sym k7) ∙ match-used laws.used v' c q w4 w5 has differ queue m

  Tells-differ :
      (c : Choice Addr)
      → Tells o r ids cache table_size table c.tst_addr c.iut_addr
      → HasQueues o r ids cache table_size table c
      → c.queue_std ≢ c.queue_sym
  Tells-differ c (p, q, hp, hq, differ) has e = differ (
      idx_unique o r ids cache table_size table standard c.tst_addr c.iut_addr p c.queue_std hp
        has.0
      ∙ e
      ∙ idx_unique o r ids cache table_size table sym_or_xor c.tst_addr c.iut_addr c.queue_sym q
          has.1 hq)

  -- Where the addresses that the search leaves are mapped to different queues by the two variants, and
  -- the attempt detects a variant, it is the one that the NIC uses.
  pub try_detect_toeplitz_variant-used :
      (laws : DetectionLaws o r ids cache table_size table) (jumbo : Bool) (start c : Choice Addr)
      (v : Variant) (w w1 w' : W)
      → choose o r ids cache table_size 10000 start w ≡ (ok c, w1)
      → Tells o r ids cache table_size table c.tst_addr c.iut_addr
      → try_detect_toeplitz_variant o r ids cache table_size jumbo start w ≡ (ok v, w')
      → v ≡ laws.used
  unfolding try_detect_toeplitz_variant
  try_detect_toeplitz_variant-used laws jumbo start c v w w1 w' chosen tells e =
      let has =
        attempt-HasQueues o r ids cache table_size table laws 9999 start c w w1
          (λ c1 v1. choose-HasQueues o r ids cache table_size table laws 9999 c1 c v1 w1) chosen
          tells in
      let (c', w2, again, k) =
        >>=-eq-ok (choose o r ids cache table_size 10000 start) (detect_on o r ids jumbo) w e in
      let is = ap (λ x. value_or c x.0) (sym again ∙ chosen) in
      detect_on-used laws jumbo c v w2 w' has (Tells-differ c tells has)
        (subst (λ x. detect_on o r ids jumbo x w2 ≡ (ok v, w')) is k)

  -- Where the two variants give the same index for all addresses, the loop leaves the two queues that the
  -- code compares with as they were, uninitialised.
  pub choose_uninitialised :
      (n : ℕ) (c c' : Choice Addr) (w w' : W)
      → ((tst iut : Addr) (i j : ℕ)
          → hash_idx o r ids cache table_size tst iut standard ≡ ok i
          → hash_idx o r ids cache table_size tst iut sym_or_xor ≡ ok j
          → i ≡ j)
      → choose o r ids cache table_size n c w ≡ (ok c', w')
      → (c'.queue_std ≡ c.queue_std) × (c'.queue_sym ≡ c.queue_sym)
  unfolding choose
  choose_uninitialised zero c c' w w' alike e =
      let same = ap (λ x. value_or c x.0) (sym e) in
      (ap (λ x. x.queue_std) same, ap (λ x. x.queue_sym) same)
  choose_uninitialised (suc n) c c' w w' alike e =
      let (iut_port, w1, _, k1) = >>=-eq-ok (o.rand_range 20000 0xffff) _ w e in
      let (tst_port, w2, _, k2) = >>=-eq-ok (o.rand_range 20000 0xffff) _ w1 k1 in
      let iut = o.with_port c.iut_addr iut_port in
      let tst = o.with_port c.tst_addr tst_port in
      let (i, hi, k3) =
        check_read>>=-eq-ok (hash_idx o r ids cache table_size tst iut standard) _ w2 k2 in
      let (j, hj, k4) =
        check_read>>=-eq-ok (hash_idx o r ids cache table_size tst iut sym_or_xor) _ w2 k3 in
      let test : (i == j) ≡ true = (==_iff i j).1 (alike tst iut i j hi hj) in
      choose_uninitialised n (record c { iut_addr = iut; tst_addr = tst }) c' w2 w' alike
        (rw test at k4)
