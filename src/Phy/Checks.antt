-- ===== src/Phy/Checks.antt =====
-- The checks of PHY settings in net-drv-ts/lib/net_drv_phy.c: a setting is read and compared with
-- what is expected, and a difference is reported without ending the test.
mod Tests
use net_drv_ts.Base.{
  ℕ, ◌+◌, ◌≡◌, ◌↔◌, ◌⊎◌, ◌∙◌, inl, inr, refl, ap, sym, Bool, true, false, not, ◌&&◌, ◌||◌, bool_eq,
  ⊤, Bytes, ◌==◌, if◌then◌else◌, is_cs_enoent, M, Result, ok, err, ends, test_fail, pure, jump,
  reads, check_rc, ◌>>=◌, ◌>>◌, >>=-eq-ok, check_read>>=-eq-ok, check_rc-eq-ok, Bool-cases, arith,
}

-- The rest of the PHY subtree: the link partner and the operational mode. `warn` and `verdict` are
-- WARN and ERROR_VERDICT, which let the test go on.
pub record CheckOps (W : Type 0) : Type 0 where
  pub sync : M W ⊤
  pub find_lp_advertised : W → Result ℕ
  pub autoneg_get : W → Result ℕ
  pub autoneg_lp_adv_get : W → Result ℕ
  pub mode_oper_get : W → Result (ℕ × ℕ)
  pub mode_adv_get : Bytes → W → Result Bool
  pub lp_advertised : Bytes → W → Result Bool
  pub warn : W → W
  pub verdict : W → W

module _ {W : Type 0} (o : CheckOps W) where
  -- How the search for the modes of the partner is taken.
  unfoldable pub exposed_modes : Result ℕ → M W Bool
  exposed_modes (ok num) w = if num == 0 then (ok false, o.warn w) else (ok true, w)
  exposed_modes (err e) w = if is_cs_enoent e then (ok false, o.warn w) else (ends test_fail, w)
  exposed_modes (ends j) w = (ends j, w)

  unfoldable pub lp_tree_is_exposed : M W Bool
  unfolding exposed_modes
  lp_tree_is_exposed = check_rc o.sync >> (λ w. exposed_modes (o.find_lp_advertised w) w)

  -- ERROR_VERDICT() on a difference
  abbrev pub verdict_if : Bool → M W ⊤
  verdict_if differs w = (ok tt, if differs then o.verdict w else w)

  unfoldable pub check_autoneg_state : ℕ → M W ⊤
  check_autoneg_state expected = do
    autoneg ← check_rc (reads o.autoneg_get)
    verdict_if (not (autoneg == expected))

  unfoldable pub check_lp_autoneg_state : ℕ → M W ⊤
  unfolding lp_tree_is_exposed
  check_lp_autoneg_state expected = do
    exposed ← lp_tree_is_exposed
    (if exposed
        then (do
          check_rc o.sync
          lp_autoneg ← check_rc (reads o.autoneg_lp_adv_get)
          verdict_if (not (lp_autoneg == expected)))
        else pure tt)

  unfoldable pub check_oper_mode : ℕ → ℕ → M W ⊤
  check_oper_mode expected_speed expected_duplex = do
    mode ← check_rc (reads o.mode_oper_get)
    verdict_if (not (mode.0 == expected_speed) || not (mode.1 == expected_duplex))

  unfoldable pub check_local_mode_advertised : Bytes → Bool → M W ⊤
  check_local_mode_advertised mode_name expected = do
    advertised ← check_rc (reads (o.mode_adv_get mode_name))
    verdict_if (not (bool_eq advertised expected))

  unfoldable pub check_partner_mode_advertised : Bytes → Bool → M W ⊤
  unfolding lp_tree_is_exposed
  check_partner_mode_advertised mode_name expected = do
    exposed ← lp_tree_is_exposed
    (if exposed
        then (do
          check_rc o.sync
          advertised ← check_rc (reads (o.lp_advertised mode_name))
          verdict_if (not (bool_eq advertised expected)))
        else pure tt)

-- The verdicts that were given so far.
pub record CheckLaws {W : Type 0} (o : CheckOps W) : Type 0 where
  pub verdicts : W → ℕ
  pub verdict_lem : (w : W) → verdicts (o.verdict w) ≡ verdicts w + 1
  pub verdict_reads : (n : Bytes) (w : W) → o.lp_advertised n (o.verdict w) ≡ o.lp_advertised n w
  pub warn_lem : (w : W) → verdicts (o.warn w) ≡ verdicts w
  pub sync_lem : (w w' : W) → o.sync w ≡ (ok tt, w') → verdicts w' ≡ verdicts w

eq_of_bool_eq : (a b : Bool) → not (bool_eq a b) ≡ false → a ≡ b
eq_of_bool_eq true b h = ground arith
eq_of_bool_eq false b h = ground arith

bool_eq_of_eq : (a b : Bool) → a ≡ b → not (bool_eq a b) ≡ false
bool_eq_of_eq true b h = ground arith
bool_eq_of_eq false b h = ground arith

module _ {W : Type 0} (o : CheckOps W) (laws : CheckLaws o) where
  open laws use {verdicts, verdict_lem, verdict_reads, warn_lem, sync_lem}

  verdict_if_iff :
      (differs : Bool) (w w' : W)
      → verdict_if o differs w ≡ (ok tt, w')
      → (verdicts w' ≡ verdicts w) ↔ (differs ≡ false)
  verdict_if_iff true w w' e =
      let v = ap (λ q. verdicts q.1) (sym e) ∙ verdict_lem w in
      ((λ h. absurd (omega (arith, h, v))), (λ h. absurd (cc h)))
  verdict_if_iff false w w' e = ((λ h. refl), (λ h. ap (λ q. verdicts q.1) (sym e)))

  exposed_modes-verdicts :
      (x : Result ℕ) (b : Bool) (w w' : W)
      → exposed_modes o x w ≡ (ok b, w')
      → verdicts w' ≡ verdicts w
  unfolding exposed_modes
  exposed_modes-verdicts (ok num) b w w' e = elim (Bool-cases (num == 0)) [
    | inl none_found ↦ ap (λ q. verdicts q.1) (sym (rw none_found at e)) ∙ warn_lem w
    | inr found ↦ ap (λ q. verdicts q.1) (sym (rw found at e))
  ]
  exposed_modes-verdicts (err x) b w w' e = elim (Bool-cases (is_cs_enoent x)) [
    | inl absent ↦ ap (λ q. verdicts q.1) (sym (rw absent at e)) ∙ warn_lem w
    | inr other ↦ absurd (cc (ap (λ q. q.0) (rw other at e)))
  ]
  exposed_modes-verdicts (ends j) b w w' e = absurd (cc (ap (λ q. q.0) e))

  exposed-verdicts :
      (b : Bool) (w w' : W) → lp_tree_is_exposed o w ≡ (ok b, w') → verdicts w' ≡ verdicts w
  unfolding lp_tree_is_exposed
  exposed-verdicts b w w' e =
      let (_, w1, synced, e1) = >>=-eq-ok (check_rc o.sync) _ w e in
      exposed_modes-verdicts (o.find_lp_advertised w1) b w1 w' e1
      ∙ sync_lem w w1 (check_rc-eq-ok (o.sync w) w synced)

  verdict_if-reads :
      (n : Bytes) (differs : Bool) (w w' : W)
      → verdict_if o differs w ≡ (ok tt, w')
      → o.lp_advertised n w' ≡ o.lp_advertised n w
  verdict_if-reads n true w w' e = ap (λ q. o.lp_advertised n q.1) (sym e) ∙ verdict_reads n w
  verdict_if-reads n false w w' e = ap (λ q. o.lp_advertised n q.1) (sym e)

  read_expected :
      (b expected : Bool) (name : Bytes) (w : W)
      → o.lp_advertised name w ≡ ok b
      → (true ≡ false) ⊎ (o.lp_advertised name w ≡ ok expected)
      → b ≡ expected
  read_expected b expected name w got (inl h) = absurd (cc h)
  read_expected b expected name w got (inr h) = cc (got, h)

  -- The part after the check that the modes are exposed.
  partner_iff :
      (name : Bytes) (expected exposed : Bool) (w w' : W)
      → (if exposed
            then (do
              check_rc o.sync
              advertised ← check_rc (reads (o.lp_advertised name))
              verdict_if o (not (bool_eq advertised expected)))
            else pure tt)
          w
        ≡ (ok tt, w')
      → (verdicts w' ≡ verdicts w) ↔ ((exposed ≡ false) ⊎ (o.lp_advertised name w' ≡ ok expected))
  partner_iff name expected false w w' e = ((λ h. inl refl), (λ h. ap (λ q. verdicts q.1) (sym e)))
  partner_iff name expected true w w' e =
      let (_, w1, synced, e1) = >>=-eq-ok (check_rc o.sync) _ w e in
      let (b, got, e2) = check_read>>=-eq-ok (o.lp_advertised name w1) _ w1 e1 in
      let same = sync_lem w w1 (check_rc-eq-ok (o.sync w) w synced) in
      let now = verdict_if-reads name (not (bool_eq b expected)) w1 w' e2 ∙ got in
      let (there, back) = verdict_if_iff (not (bool_eq b expected)) w1 w' e2 in
      (
        (λ h. inr (now ∙ ap ok (eq_of_bool_eq b expected (there (h ∙ sym same))))),
        (λ h. back (bool_eq_of_eq b expected (read_expected b expected name w' now h)) ∙ same),
      )

  -- A check of a mode of the link partner that lets the test go on gives a verdict exactly where
  -- the modes of the partner are exposed and the mode is not as expected.
  pub check_partner_mode_advertised_iff :
      (name : Bytes) (expected : Bool) (w w' : W)
      → check_partner_mode_advertised o name expected w ≡ (ok tt, w')
      → (exposed : Bool) × (w1 : W) × (lp_tree_is_exposed o w ≡ (ok exposed, w1))
        × ((verdicts w' ≡ verdicts w)
            ↔ ((exposed ≡ false) ⊎ (o.lp_advertised name w' ≡ ok expected)))
  unfolding check_partner_mode_advertised
  check_partner_mode_advertised_iff name expected w w' e =
      let (exposed, w1, e0, e1) = >>=-eq-ok (lp_tree_is_exposed o) _ w e in
      let (there, back) = partner_iff name expected exposed w1 w' e1 in
      let same = exposed-verdicts exposed w w1 e0 in
      (exposed, w1, e0, ((λ h. there (h ∙ sym same)), (λ h. back h ∙ same)))
