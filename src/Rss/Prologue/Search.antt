-- ===== src/Rss/Prologue/Search.antt =====
-- The search of net-drv-ts/rss/prologue.c for addresses that tell the variants of the hash apart: where
-- those it ends with do, it has read their queues.
use mathlib.Core.Path.{subst}
use net_drv_ts.Base.{
  pure, ◌>>=◌, M, if◌then◌else◌, TeErrno, ◌⊎◌, Result, ℕ, zero, suc, ◌≡◌, refl, ap, ◌∙◌, inl, inr,
  Bool, true, false, Option, ◌==◌, ==_iff, ok, value_or, >>=-eq-ok, check_read>>=-eq-ok,
}
use net_drv_ts.Rss.Context.{RssOps}
use net_drv_ts.Rss.Prologue.{
  Variant, standard, sym_or_xor, VariantIds, PrologueOps, Choice, read_entries, ports_free,
  hash_idx, choose, answer,
}
use net_drv_ts.Rss.Prologue.Queues.{IsQueueOf, Tells, HasQueues, DetectionLaws, idx_unique}

-- Which branch a run went through.
run_if :
    {W A : Type 0} (b : Bool) (x y : M W A) (w : W) {p : Result A × W}
    → (if b then x else y) w ≡ p
    → ((b ≡ true) × (x w ≡ p)) ⊎ ((b ≡ false) × (y w ≡ p))
run_if true x y w e = inl (refl, e)
run_if false x y w e = inr (refl, e)

answer-eq-ok : {A : Type 0} (x : TeErrno ⊎ A) (a : A) → answer x ≡ ok a → x ≡ inr a
answer-eq-ok (inl e) a h = absurd (cc h)
answer-eq-ok (inr b) a h = ap (λ y. inr (value_or b y)) h

module _ {W Cache Addr : Type 0} (o : PrologueOps W Addr) (r : RssOps W Cache Addr)
    (ids : VariantIds) (cache : Option Cache) (table_size : ℕ) (table : ℕ → ℕ) where
  -- An entry read from the table, as the queue of a variant.
  entry-IsQueueOf :
      (laws : DetectionLaws o r ids cache table_size table) (v : Variant) (tst iut : Addr) (i q : ℕ)
      (w : W)
      → hash_idx o r ids cache table_size tst iut v ≡ ok i
      → answer (r.indir_get i w) ≡ ok q
      → IsQueueOf o r ids cache table_size table v tst iut q
  entry-IsQueueOf laws v tst iut i q w at got =
      (i, at, laws.indir_lem i q w (answer-eq-ok (r.indir_get i w) q got))

  same_index-Tells :
      (tst iut : Addr) (i j : ℕ)
      → hash_idx o r ids cache table_size tst iut standard ≡ ok i
      → hash_idx o r ids cache table_size tst iut sym_or_xor ≡ ok j
      → i ≡ j
      → Tells o r ids cache table_size table tst iut
      → ⊥
  same_index-Tells tst iut i j hi hj same (p, q, hp, hq, differ) = differ (
      idx_unique o r ids cache table_size table standard tst iut p (table i) hp (i, hi, refl)
      ∙ ap table same
      ∙ idx_unique o r ids cache table_size table sym_or_xor tst iut (table j) q (j, hj, refl) hq)

  read-HasQueues :
      (laws : DetectionLaws o r ids cache table_size table) (next : Choice Addr → M W (Choice Addr))
      (iut_port tst_port i j : ℕ) (c c' : Choice Addr) (w w' : W)
      → hash_idx o r ids cache table_size c.tst_addr c.iut_addr standard ≡ ok i
      → hash_idx o r ids cache table_size c.tst_addr c.iut_addr sym_or_xor ≡ ok j
      → ((c1 : Choice Addr) (w1 : W)
          → (Tells o r ids cache table_size table c1.tst_addr c1.iut_addr
              → HasQueues o r ids cache table_size table c1)
          → next c1 w1 ≡ (ok c', w')
          → Tells o r ids cache table_size table c'.tst_addr c'.iut_addr
          → HasQueues o r ids cache table_size table c')
      → read_entries o r ids next iut_port tst_port i j c w ≡ (ok c', w')
      → Tells o r ids cache table_size table c'.tst_addr c'.iut_addr
      → HasQueues o r ids cache table_size table c'
  unfolding read_entries
  read-HasQueues laws next iut_port tst_port i j c c' w w' hi hj again e =
      let (q_std, got_std, k1) = check_read>>=-eq-ok (answer (r.indir_get i w)) _ w e in
      let (q_sym, got_sym, k2) = check_read>>=-eq-ok (answer (r.indir_get j w)) _ w k1 in
      let c2 = record c { queue_std = q_std; queue_sym = q_sym } in
      let has : HasQueues o r ids cache table_size table c2 = (
        entry-IsQueueOf laws standard c.tst_addr c.iut_addr i q_std w hi got_std,
        entry-IsQueueOf laws sym_or_xor c.tst_addr c.iut_addr j q_sym w hj got_sym,
      ) in
      let try_ports : M W (Choice Addr) =
        ports_free o r ids iut_port tst_port >>= λ free. (if free then pure c2 else next c2) in
      elim (run_if (q_std == q_sym) (next c2) try_ports w k2) [
        | inl (_, k3) ↦ again c2 w (λ _. has) k3
        | inr (_, k3) ↦
            let (free, w1, _, k4) =
              >>=-eq-ok (ports_free o r ids iut_port tst_port)
                (λ free. if free then pure c2 else next c2) w {b = c'} {u = w'} k3 in
            elim (run_if free (pure c2) (next c2) w1 k4) [
              | inl (_, done) ↦ λ _.
                  subst (HasQueues o r ids cache table_size table) (ap (λ x. value_or c2 x.0) done)
                    has
              | inr (_, taken) ↦ again c2 w1 (λ _. has) taken
            ]
      ]

  -- An attempt leaves addresses that do not tell the variants apart, or has read their queues; `again`
  -- is what is known of the attempts after it.
  pub attempt-HasQueues :
      (laws : DetectionLaws o r ids cache table_size table) (n : ℕ) (c c' : Choice Addr) (w w' : W)
      → ((c1 : Choice Addr) (w1 : W)
          → (Tells o r ids cache table_size table c1.tst_addr c1.iut_addr
              → HasQueues o r ids cache table_size table c1)
          → choose o r ids cache table_size n c1 w1 ≡ (ok c', w')
          → Tells o r ids cache table_size table c'.tst_addr c'.iut_addr
          → HasQueues o r ids cache table_size table c')
      → choose o r ids cache table_size (suc n) c w ≡ (ok c', w')
      → Tells o r ids cache table_size table c'.tst_addr c'.iut_addr
      → HasQueues o r ids cache table_size table c'
  unfolding choose
  attempt-HasQueues laws n c c' w w' again e =
      let (iut_port, w1, _, k1) = >>=-eq-ok (o.rand_range 20000 0xffff) _ w e in
      let (tst_port, w2, _, k2) = >>=-eq-ok (o.rand_range 20000 0xffff) _ w1 k1 in
      let iut = o.with_port c.iut_addr iut_port in
      let tst = o.with_port c.tst_addr tst_port in
      let c1 = record c { iut_addr = iut; tst_addr = tst } in
      let (i, hi, k3) =
        check_read>>=-eq-ok (hash_idx o r ids cache table_size tst iut standard) _ w2 k2 in
      let (j, hj, k4) =
        check_read>>=-eq-ok (hash_idx o r ids cache table_size tst iut sym_or_xor) _ w2 k3 in
      elim (run_if (i == j) _ _ w2 k4) [
        | inl (alike, k5) ↦
            again c1 w2 (λ t. absurd (same_index-Tells tst iut i j hi hj ((==_iff i j).0 alike) t))
              k5
        | inr (_, k5) ↦
            read-HasQueues laws (choose o r ids cache table_size n) iut_port tst_port i j c1 c' w2
              w' hi hj again k5
      ]

  pub choose-HasQueues :
      (laws : DetectionLaws o r ids cache table_size table) (n : ℕ) (c c' : Choice Addr) (w w' : W)
      → (Tells o r ids cache table_size table c.tst_addr c.iut_addr
          → HasQueues o r ids cache table_size table c)
      → choose o r ids cache table_size n c w ≡ (ok c', w')
      → Tells o r ids cache table_size table c'.tst_addr c'.iut_addr
      → HasQueues o r ids cache table_size table c'
  unfolding choose
  choose-HasQueues laws zero c c' w w' before e =
      subst
        (λ x.
          Tells o r ids cache table_size table x.tst_addr x.iut_addr
          → HasQueues o r ids cache table_size table x)
        (ap (λ x. value_or c x.0) e) before
  choose-HasQueues laws (suc n) c c' w w' before e =
      attempt-HasQueues laws n c c' w w' (λ c1 w1. choose-HasQueues laws n c1 c' w1 w') e
