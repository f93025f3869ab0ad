-- ===== src/Rss/Rules/Insertion.antt =====
-- What the calls of net_drv_add_tcpudp_rx_rule() leave in the NIC's table.
use mathlib.Core.Path.{subst}
use net_drv_ts.Base.{
  Bool, true, false, reads, pure, value_or, ℕ, ◌<◌, ◌≡◌, ◌≢◌, ◌⊎◌, inl, inr, refl, ap, sym, ◌∙◌, ⊤,
  Option, none, some, if◌then◌else◌, Result, ok, err, ends, Jump, arith, ◌>>=◌, ap₂, Bool-cases,
  is_cs_enoent, check_rc, on_error, jump, test_verdict, M, test_skip, test_fail,
}
use net_drv_ts.Rss.Rules.{
  RuleAddrs, RuleOps, rule_family, check_table_size, find_loc, insert_rule, add_rule_of,
  add_tcpudp_rx_rule,
}
use net_drv_ts.Rss.Rules.Table.{RxRule, Table, IsPut, RuleLaws}

module _ {W : Type 0} (o : RuleOps W) where
  -- Where the check of the table's size lets the test go on, the size is what was read, and is
  -- not 0.
  pub check_table_size_lem :
      (w w' : W) (n : ℕ)
      → check_table_size o w ≡ (ok n, w')
      → (o.table_size_get w ≡ ok n) × (0 < n) × (w' ≡ w)
  unfolding check_table_size
  check_table_size_lem w w' n e = ground arith

module _ {W : Type 0} (o : RuleOps W) (laws : RuleLaws o) where
  open laws use {
    draft, table, special, spec_loc_lem, location_lem, add_draft, fill_draft, queue_draft,
    add_table, fill_table, queue_table, commit_at, commit_any, commit_fails,
  }

  -- The rule is at a location that was free and all others are as before, or the test ended and the
  -- table is as it was.
  abbrev Inserted : RxRule → Table → Result ⊤ × W → Type 0
  Inserted rule before (r, w) =
      ((r ≡ ok tt) × (l : ℕ) × (before l ≡ none) × IsPut l rule before (table w))
      ⊎ ((j : Jump) × (r ≡ ends j) × (table w ≡ before))

  -- A location that the rule may be given.
  abbrev Fits : Option ℕ → Table → Type 0
  Fits none before = special ≡ true
  Fits (some l) before = before l ≡ none

  -- One call whose error ends the test.
  check_rc-Inserted :
      (rule : RxRule) (before : Table) (k : ⊤ → M W ⊤) (w : W) (p : Result ⊤ × W)
      → table p.1 ≡ before
      → ((v : W) → p ≡ (ok tt, v) → table v ≡ before → Inserted rule before (k tt v))
      → Inserted rule before ((check_rc (λ _. p) >>= k) w)
  check_rc-Inserted rule before k w (ok x, v) b next = next v refl b
  check_rc-Inserted rule before k w (err x, v) b next = inr (test_fail, refl, b)
  check_rc-Inserted rule before k w (ends j, v) b next = inr (j, refl, b)

  not_committed :
      (l : Option ℕ) (w v : W) {r : Result ⊤}
      → o.commit l w ≡ (r, v)
      → r ≢ ok tt
      → table v ≡ table w
  not_committed l w v e failed =
      sym (ap (λ p. table p.1) e) ∙ commit_fails l w (λ c. failed (sym (ap (λ p. p.0) e) ∙ c))

  commit-Inserted :
      (l : Option ℕ) (w : W) (p : Result ⊤ × W)
      → Fits l (table w)
      → o.commit l w ≡ p
      → Inserted (draft w l) (table w) (on_error (λ _. p) (λ _. jump test_verdict) w)
  commit-Inserted none w (ok x, v) fits e =
      let (l, free, put) = commit_any w v fits e in inl (refl, l, free, put)
  commit-Inserted (some l) w (ok x, v) fits e = inl (refl, l, fits, commit_at l w v e)
  commit-Inserted l w (err x, v) fits e = inr (test_verdict, refl, not_committed l w v e (λ c. cc))
  commit-Inserted l w (ends j, v) fits e = inr (j, refl, not_committed l w v e (λ c. cc))

  insert_rule-Inserted :
      (l : Option ℕ) (af : ℕ) (a : RuleAddrs) (t q : ℕ) (w : W)
      → Fits l (table w)
      → Inserted
          (record { flow = o.flow_by_socket af t; addrs = some a; queue = some q })
          (table w)
          (insert_rule o l af a t q w)
  unfolding insert_rule
  insert_rule-Inserted l af a t q w fits =
      let f = o.flow_by_socket af t in
      check_rc-Inserted _ (table w) _ w (o.add l f w) (add_table l f w) (λ v1 e1 b1.
        check_rc-Inserted _ (table w) _ v1 (o.fill_ip_addrs_ports l af a v1)
          (fill_table l af a v1 ∙ b1)
          (λ v2 e2 b2.
            check_rc-Inserted _ (table w) _ v2 (o.rx_queue_set l q v2) (queue_table l q v2 ∙ b2)
              (λ v3 e3 b3.
                let d : draft v3 l ≡ record { flow = f; addrs = some a; queue = some q } =
                  queue_draft l q v2 v3 e3
                  ∙ ap (λ (r : RxRule). record r { queue = some q })
                      (fill_draft l af a v1 v2 e2
                        ∙ ap (λ (r : RxRule). record r { addrs = some a })
                            (add_draft l f w v1 e1)) in
                subst
                  (λ (x : RxRule × Table).
                    Inserted x.0 x.1 (on_error (o.commit l) (λ _. jump test_verdict) v3))
                  (ap₂ (λ x y. (x, y)) d b3)
                  (commit-Inserted l v3 (o.commit l v3) (subst (Fits l) (sym b3) fits) refl))))

  found-Fits :
      (r : Result ℕ) (w v : W) (l : Option ℕ)
      → o.find_location w ≡ r
      → (reads (λ _. r) >>= λ location. pure (some location)) w ≡ (ok l, v)
      → Fits l (table w)
  found-Fits (ok x) w v l same e =
      subst (λ l. Fits l (table w)) (ap (λ p. value_or (some x) p.0) e) (location_lem x w same)
  found-Fits (err x) w v l same e = absurd (cc (ap (λ p. p.0) e))
  found-Fits (ends j) w v l same e = absurd (cc (ap (λ p. p.0) e))

  spec_loc-Fits :
      (r : Result Bool) (w v : W) (l : Option ℕ)
      → o.spec_loc_get w ≡ r
      → (reads (λ _. r) >>= λ spec_loc.
            (if spec_loc
              then pure none
              else (reads o.find_location >>= λ location. pure (some location))))
          w
        ≡ (ok l, v)
      → Fits l (table w)
  spec_loc-Fits (ok true) w v l same e =
      subst (λ l. Fits l (table w)) (ap (λ p. value_or none p.0) e) (sym (spec_loc_lem true w same))
  spec_loc-Fits (ok false) w v l same e = found-Fits (o.find_location w) w v l refl e
  spec_loc-Fits (err x) w v l same e = absurd (cc (ap (λ p. p.0) e))
  spec_loc-Fits (ends j) w v l same e = absurd (cc (ap (λ p. p.0) e))

  -- A NIC with special locations is left to choose the location, and another is given a free one.
  find_loc-Fits : (w v : W) (l : Option ℕ) → find_loc o w ≡ (ok l, v) → Fits l (table w)
  unfolding find_loc
  find_loc-Fits w v l e = spec_loc-Fits (o.spec_loc_get w) w v l refl e

  find_loc-world : (w : W) → (find_loc o w).1 ≡ w
  unfolding find_loc
  find_loc-world w = ground arith

  found-Inserted :
      (af : ℕ) (a : RuleAddrs) (t q : ℕ) (before : Table) (w : W) (p : Result (Option ℕ) × W)
      → table p.1 ≡ before
      → ((l : Option ℕ) (v : W) → p ≡ (ok l, v) → Fits l before)
      → Inserted
          (record { flow = o.flow_by_socket af t; addrs = some a; queue = some q })
          before
          ((on_error (λ _. p) (λ e. if is_cs_enoent e then jump test_skip else jump test_verdict)
              >>= λ location. insert_rule o location af a t q)
            w)
  found-Inserted af a t q before w (ok l, v) b fits =
      let rule : RxRule = record { flow = o.flow_by_socket af t; addrs = some a; queue = some q } in
      subst (λ x. Inserted rule x (insert_rule o l af a t q v)) b
        (insert_rule-Inserted l af a t q v (subst (Fits l) (sym b) (fits l v refl)))
  found-Inserted af a t q before w (err x, v) b fits = elim (Bool-cases (is_cs_enoent x)) [
    | inl absent ↦ rw absent (inr (test_skip, refl, b))
    | inr other ↦ rw other (inr (test_verdict, refl, b))
  ]
  found-Inserted af a t q before w (ends j, v) b fits = inr (j, refl, b)

  -- Where a NIC with special locations chooses a free one itself, and the location found on another
  -- is free, `add_tcpudp_rx_rule` on a rule with an address either returns, and the table has the rule
  -- at a location that was free, with the flow type of the address family and the socket type, the
  -- addresses and the queue that were asked for, and all other locations as before; or it ends the test,
  -- and the table is as it was.
  pub add_tcpudp_rx_rule_lem :
      (af : ℕ) (a : RuleAddrs) (t q : ℕ) (w : W)
      → rule_family a ≡ some af
      → let rule : RxRule = record {
        flow = o.flow_by_socket af t;
        addrs = some a;
        queue = some q;
      } in
        let (r, w') = add_tcpudp_rx_rule o a t q w in
        ((r ≡ ok tt) × (l : ℕ) × (table w l ≡ none) × IsPut l rule (table w) (table w'))
        ⊎ ((j : Jump) × (r ≡ ends j) × (table w' ≡ table w))
  unfolding add_tcpudp_rx_rule
  add_tcpudp_rx_rule_lem af a t q w e =
      rw (e, add_rule_of)
        (found-Inserted af a t q (table w) w (find_loc o w) (ap table (find_loc-world w))
          (λ l v found. find_loc-Fits w v l found))
