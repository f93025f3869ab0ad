-- ===== src/Rss/Prologue/Queues.antt =====
-- The queues of the variants of the Toeplitz hash, what is relied on of the NIC and of the hook that
-- counts packets, and the queue that net-drv-ts/rss/prologue.c gets from the hook.
use mathlib.Core.Path.{subst}
use net_drv_ts.Base.{
  ℕ, zero, suc, ◌+◌, ◌%◌, ◌^◌, ◌<◌, ◌≡◌, ◌≢◌, refl, ap, sym, ◌∙◌, inl, inr, Bool, true, none, some,
  Option, List, [], ◌∷◌, ◌==◌, ==_iff, ltb, ltb→lt, All, ok, check_rc, value_or, >>=-eq-ok,
  check_rc-eq-ok, Bool-cases, eq_of_some,
}
use net_drv_ts.Rss.Context.{RssOps}
use net_drv_ts.Rss.Prologue.{
  RxqStats, Variant, standard, sym_or_xor, VariantIds, PrologueOps, Choice, send_pkts, scan_stats,
  judge_queue, send_get_rx_queue, hash_idx,
}

module _ {W Cache Addr : Type 0} (o : PrologueOps W Addr) (r : RssOps W Cache Addr)
    (ids : VariantIds) (cache : Option Cache) (table_size : ℕ) (table : ℕ → ℕ) where
  -- The queue that a variant of the hash gives to packets between two addresses, by the table.
  abbrev pub IsQueueOf : Variant → Addr → Addr → ℕ → Type 0
  IsQueueOf v tst iut q =
      (idx : ℕ) × (hash_idx o r ids cache table_size tst iut v ≡ ok idx) × (q ≡ table idx)

  -- Addresses that the two variants map to different queues by the table.
  abbrev pub Tells : Addr → Addr → Type 0
  Tells tst iut =
      (p : ℕ) × (q : ℕ) × IsQueueOf standard tst iut p × IsQueueOf sym_or_xor tst iut q × (p ≢ q)

  -- What the choice has for the two queues are those of its addresses.
  abbrev pub HasQueues : Choice Addr → Type 0
  HasQueues c =
      IsQueueOf standard c.tst_addr c.iut_addr c.queue_std
      × IsQueueOf sym_or_xor c.tst_addr c.iut_addr c.queue_sym

  -- What is relied on: the entries of the indirection table are read as they are, and the hook counts
  -- the packets of the addresses that were set, which the NIC delivers to the queue of the variant it
  -- uses.
  pub record DetectionLaws : Type 0 where
    pub used : Variant
    pub flow : W → Addr × Addr
    pub indir_lem : (i q : ℕ) (w : W) → r.indir_get i w ≡ inr q → q ≡ table i
    pub set_params_lem :
        (tst iut : Addr) (w w' : W)
        → o.stats_set_params tst iut w ≡ (ok tt, w')
        → flow w' ≡ (tst, iut)
    pub clear_lem : (w w' : W) → o.stats_clear w ≡ (ok tt, w') → flow w' ≡ flow w
    pub send_lem :
        (socks : ℕ × ℕ) (jumbo : Bool) (w w' : W)
        → o.send_recv_ext_check socks jumbo w ≡ (ok tt, w')
        → flow w' ≡ flow w
    pub read_lem :
        (stats : List RxqStats) (w w' : W)
        → o.stats_read w ≡ (ok stats, w')
        → All (λ s. 0 < s.pkts → IsQueueOf used (flow w).0 (flow w).1 s.rx_queue) stats

  send_pkts-flow :
      (laws : DetectionLaws) (n : ℕ) (socks : ℕ × ℕ) (jumbo : Bool) (w w' : W)
      → send_pkts o r ids n socks jumbo w ≡ (ok tt, w')
      → laws.flow w' ≡ laws.flow w
  unfolding send_pkts
  send_pkts-flow laws zero socks jumbo w w' e = ap (λ p. laws.flow p.1) (sym e)
  send_pkts-flow laws (suc n) socks jumbo w w' e =
      let (_, v, first, rest) = >>=-eq-ok (o.send_recv_ext_check socks jumbo) _ w e in
      send_pkts-flow laws n socks jumbo v w' rest ∙ laws.send_lem socks jumbo w v first

  -- The result of the loop over the statistics: the queue of packets, or none of them.
  scan-queue :
      {P : ℕ → Type 0} (stats : List RxqStats) (got got' : Option ℕ) (reg reg' : ℕ) (w w' : W)
      → All (λ s. 0 < s.pkts → P s.rx_queue) stats
      → ((q : ℕ) → got ≡ some q → P q)
      → (got ≡ none → reg ≡ 0)
      → scan_stats o r ids stats got reg w ≡ (ok (got', reg'), w')
      → ((q : ℕ) → got' ≡ some q → P q) × (got' ≡ none → reg' ≡ 0)
  unfolding scan_stats
  scan-queue {P} [] got got' reg reg' w w' all h z e =
      let same = ap (λ p. value_or (got, reg) p.0) e in
      (
        (λ q x. h q (ap (λ p. p.0) same ∙ x)),
        (λ x. sym (ap (λ p. p.1) same) ∙ z (ap (λ p. p.0) same ∙ x)),
      )
  scan-queue {P} (s ∷ rest) none got' reg reg' w w' all h z e = elim (Bool-cases (ltb 0 s.pkts)) [
    | inl some' ↦
        scan-queue {P = P} rest (some s.rx_queue) got' ((reg + s.pkts) % 2 ^ 32) reg' w w' all.1
          (λ q x. subst P (eq_of_some x) (all.0 (ltb→lt 0 s.pkts some'))) (λ x. absurd (cc x))
          (rw some' at e)
    | inr none' ↦ scan-queue {P = P} rest none got' reg reg' w w' all.1 h z (rw none' at e)
  ]
  scan-queue {P} (s ∷ rest) (some q) got' reg reg' w w' all h z e =
      elim (Bool-cases (ltb 0 s.pkts)) [
        | inl some' ↦ absurd (cc (ap (λ p. p.0) (rw some' at e)))
        | inr none' ↦ scan-queue {P = P} rest (some q) got' reg reg' w w' all.1 h z (rw none' at e)
      ]

  judge-queue :
      (n : ℕ) (got : Option ℕ) (reg q : ℕ) (w w' : W)
      → (got ≡ none → reg ≡ 0)
      → judge_queue o r ids n (got, reg) w ≡ (ok q, w')
      → got ≡ some q
  unfolding judge_queue
  judge-queue n none reg q w w' z e =
      let nothing : (reg == 0) ≡ true = (==_iff reg 0).1 (z refl) in
      absurd (cc (ap (λ p. p.0) (rw nothing at e)))
  judge-queue n (some p) reg q w w' z e = elim (Bool-cases (reg == 0)) [
    | inl zero' ↦ absurd (cc (ap (λ p. p.0) (rw zero' at e)))
    | inr some' ↦ elim (Bool-cases (reg == n)) [
      | inr other ↦ absurd (cc (ap (λ p. p.0) (rw other at (rw some' at e))))
      | inl same ↦ ap (λ x. some (value_or p x.0)) (rw same at (rw some' at e))
    ]
  ]

  -- The queue that is got is one that the NIC delivers packets of the flow to.
  pub send_get_rx_queue-IsQueueOf :
      (laws : DetectionLaws) (socks : ℕ × ℕ) (jumbo : Bool) (q : ℕ) (w w' : W)
      → send_get_rx_queue o r ids socks jumbo w ≡ (ok q, w')
      → IsQueueOf laws.used (laws.flow w).0 (laws.flow w).1 q
  unfolding send_get_rx_queue
  send_get_rx_queue-IsQueueOf laws socks jumbo q w w' e =
      let (_, w1, c, k1) = >>=-eq-ok (check_rc o.stats_clear) _ w e in
      let (_, w2, s, k2) = >>=-eq-ok (send_pkts o r ids 10 socks jumbo) _ w1 k1 in
      let (stats, w3, g, k3) = >>=-eq-ok (check_rc o.stats_read) _ w2 k2 in
      let (got, w4, l, k4) = >>=-eq-ok (scan_stats o r ids stats none 0) _ w3 k3 in
      let flow =
        send_pkts-flow laws 10 socks jumbo w1 w2 s
        ∙ laws.clear_lem w w1 (check_rc-eq-ok (o.stats_clear w) w c) in
      let all = laws.read_lem stats w2 w3 (check_rc-eq-ok (o.stats_read w2) w2 g) in
      let scan =
        scan-queue {P = IsQueueOf laws.used (laws.flow w2).0 (laws.flow w2).1} stats none got.0 0
          got.1 w3 w4 all (λ p x. absurd (cc x)) (λ x. refl) l in
      subst (λ f. IsQueueOf laws.used f.0 f.1 q) flow
        (scan.0 q (judge-queue 10 got.0 got.1 q w4 w' scan.1 k4))

  pub idx_unique :
      (v : Variant) (tst iut : Addr) (p q : ℕ)
      → IsQueueOf v tst iut p
      → IsQueueOf v tst iut q
      → p ≡ q
  idx_unique v tst iut p q (i, e, h) (j, e', h') =
      h ∙ ap table (ap (value_or i) (sym e ∙ e')) ∙ sym h'
