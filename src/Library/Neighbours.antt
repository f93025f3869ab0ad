-- ===== src/Library/Neighbours.antt =====
-- Waiting in net-drv-ts/lib/net_drv_ts.c: the neighbour nodes of an agent, the state of an
-- interface, and the MTU that brings the interface down for a while.
mod Tests
use net_drv_ts.Base.{
  ℕ, zero, suc, ◌<◌, ◌≤◌, ◌-◌, ◌+◌, ◌≡◌, ◌≢◌, ◌∙◌, ◌⊎◌, inl, inr, Bool-cases, ◌↔◌, refl, ap, sym,
  Bool, true, false, not, ◌&&◌, ◌==◌, leb, ltb, if◌then◌else◌, ⊤, M, Result, ok, err, ends, te_rc,
  te_tapi, enoent, is_cs_enoent, test_verdict, pure, fail, jump, reads, on_error, ◌>>=◌, ◌>>◌,
  >>=-eq-ok, reads>>=-eq-ok, arith,
}

-- The configuration tree of an agent, and a wait of milliseconds.
pub record NeighOps (W : Type 0) : Type 0 where
  pub find_neighs : W → Result ℕ
  pub synchronize : M W ⊤
  pub sleep : ℕ → W → W

abbrev pub attempts : ℕ
attempts = 100

-- In milliseconds
abbrev pub sleep_time : ℕ
sleep_time = 1000

-- `tapi_cfg_phy_state_wait_up` and `tapi_cfg_base_if_set_mtu` of one interface; `verdict` is
-- ERROR_VERDICT, which marks the test as failed and lets it go on.
pub record UpOps (W : Type 0) : Type 0 where
  pub wait_up : ℕ → M W ⊤
  pub set_mtu : ℕ → M W ⊤
  pub verdict : W → W

module _ {W : Type 0} (o : UpOps W) where
  unfoldable pub wait_up_gen : Bool → M W ⊤
  wait_up_gen cleanup =
      on_error (o.wait_up 160000)
        (λ _. if cleanup then (λ w. (ok tt, o.verdict w)) else jump test_verdict)

  unfoldable pub net_drv_set_mtu : ℕ → M W ⊤
  unfolding wait_up_gen
  net_drv_set_mtu mtu = on_error (o.set_mtu mtu) (λ _. jump test_verdict) >> wait_up_gen false

module _ {W : Type 0} (o : NeighOps W) where
  unfoldable pub or_zero : Result ℕ → Result ℕ
  or_zero (ok n) = ok n
  or_zero (err e) = if is_cs_enoent e then ok 0 else err e
  or_zero (ends j) = ends j

  abbrev pub neigh_nodes_count : W → Result ℕ
  neigh_nodes_count w = or_zero (o.find_neighs w)

  -- The loop with `left` attempts still to make; there is no wait after the last.
  unfoldable pub wait_from : ℕ → ℕ → M W ⊤
  wait_from num zero = fail (te_rc te_tapi enoent)
  wait_from num (suc left) =
      let again = wait_from num left in
      (do
        o.synchronize
        cur_num ← reads neigh_nodes_count
        (if leb num cur_num
            then pure tt
            else (λ w. again (if not (left == 0) then o.sleep sleep_time w else w))))

  unfoldable pub wait_neigh_nodes_recover : ℕ → M W ⊤
  unfolding wait_from
  wait_neigh_nodes_recover num = wait_from num attempts

  -- The world in which an attempt counts, `k` attempts from `w`, where synchronisations succeed.
  abbrev pub synchronized : (W → W) → ℕ → W → W
  synchronized f zero w = f w
  synchronized f (suc k) w = synchronized f k (o.sleep sleep_time (f w))

  -- A success means that the nodes were counted, after a synchronisation, and were enough.
  wait_from-count :
      (num left : ℕ) (w w' : W)
      → wait_from num left w ≡ (ok tt, w')
      → (n : ℕ) × (neigh_nodes_count w' ≡ ok n) × (num ≤ n)
  unfolding wait_from
  wait_from-count num zero w w' e = absurd (cc (ap (λ q. q.0) e))
  wait_from-count num (suc left) w w' e =
      let (_, w1, _, e1) = >>=-eq-ok o.synchronize _ w e in
      let (n, c, e2) = reads>>=-eq-ok (neigh_nodes_count w1) _ w1 e1 in
      elim (Bool-cases (leb num n)) [
        | inl enough ↦
            let same = ap (λ q. q.1) (rw enough at e2) in
            (n, ap neigh_nodes_count (sym same) ∙ c, ground arith)
        | inr few ↦
            wait_from-count num left (if not (left == 0) then o.sleep sleep_time w1 else w1) w'
              (rw few at e2)
      ]

  module _ (f : W → W) (count : W → ℕ) (sync : (w : W) → o.synchronize w ≡ (ok tt, f w))
      (counted : (w : W) → neigh_nodes_count w ≡ ok (count w)) where
    wait_from-step :
        (num left : ℕ) (w : W)
        → wait_from num (suc left) w ≡ (
            if leb num (count (f w))
            then (ok tt, f w)
            else wait_from num left (if not (left == 0) then o.sleep sleep_time (f w) else f w))
    unfolding wait_from
    wait_from-step num left w = elim (Bool-cases (leb num (count (f w)))) [
      | inl enough ↦ rw (sync w, counted (f w), enough) refl
      | inr few ↦ rw (sync w, counted (f w), few) refl
    ]

    wait_from-zero : (num : ℕ) (w : W) → (wait_from num 0 w).0 ≢ ok tt
    unfolding wait_from
    wait_from-zero num w h = cc h

    -- What the attempts after this one see.
    later-synchronized :
        (num left k : ℕ) (w : W)
        → k < left
        → synchronized f k (if not (left == 0) then o.sleep sleep_time w else w)
          ≡ synchronized f k (o.sleep sleep_time w)
    later-synchronized num (suc left) k w h =
        let more : (suc left == 0) ≡ false = ground arith in rw more refl
    later-synchronized num zero k w h = absurd (omega arith)

    later_attempt :
        (num left : ℕ) (w : W) (k : ℕ)
        → leb num (count (f w)) ≡ false
        → k < suc left
        → num ≤ count (synchronized f k w)
        → (j : ℕ) × (j < left)
          × (num
              ≤ count
                  (synchronized f j (if not (left == 0) then o.sleep sleep_time (f w) else f w)))
    later_attempt num left w zero few l e = absurd (ground arith)
    later_attempt num left w (suc k) few l e =
        (k, omega arith, rw (later-synchronized num left k (f w) (omega arith)) e)

    wait_from_iff :
        (num left : ℕ) (w : W)
        → ((wait_from num left w).0 ≡ ok tt)
          ↔ ((k : ℕ) × (k < left) × (num ≤ count (synchronized f k w)))
    wait_from_iff num zero w = ((λ h. absurd (wait_from-zero num w h)), (λ x. absurd (omega arith)))
    wait_from_iff num (suc left) w =
        rw (wait_from-step num left w) (elim (Bool-cases (leb num (count (f w)))) [
          | inl enough ↦ rw enough ((λ _. (0, omega arith, ground arith)), (λ _. refl))
          | inr few ↦
              let rest =
                wait_from_iff num left
                  (if not (left == 0) then o.sleep sleep_time (f w) else f w) in
              rw few (
                (λ h.
                    let (k, l, e) = rest.0 h in
                    (suc k, omega arith, rw (sym (later-synchronized num left k (f w) l)) e)),
                (λ x. rest.1 (later_attempt num left w x.0 few x.1 x.2)),
              )
        ])

    -- Where the tree can be synchronised and answers, the wait succeeds exactly where one of the
    -- hundred attempts, a second apart, finds enough nodes.
    pub wait_neigh_nodes_recover_iff :
        (num : ℕ) (w : W)
        → ((wait_neigh_nodes_recover num w).0 ≡ ok tt)
          ↔ ((k : ℕ) × (k < attempts) × (num ≤ count (synchronized f k w)))
    unfolding wait_neigh_nodes_recover
    wait_neigh_nodes_recover_iff num w = wait_from_iff num attempts w
