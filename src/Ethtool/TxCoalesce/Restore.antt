-- ===== src/Ethtool/TxCoalesce/Restore.antt =====
-- The settings after the test are those before it, however the test ends.
use mathlib.Core.Path.{subst}
use net_drv_ts.Base.{
  ℕ, ◌≡◌, ◌⊎◌, inl, inr, refl, ap, sym, ◌∙◌, true, false, not, ◌&&◌, ◌||◌, ⊤, List, [], ◌∷◌, Bytes,
  codes, str_eq, ◌==◌, Result, ok, err, ends, is_enoent, is_eopnotsupp, test_skip, test_fail, ◌>>◌,
  >>=-eq-ok, All, Keeps, >>=-Keeps, if_Keeps, reads-Keeps, jump-Keeps, on_error-Keeps, >>-Keeps,
  pure-Keeps, keeping,
}
use net_drv_ts.Ethtool.TxCoalesce.{
  Param, Profile, adaptive_name, profile_params, enables_adaptive_tx, CoalesceOps, Saved,
  save_profile_params, check_supported, after_prev_adaptive, after_save, run_body, cleanup,
  run_test,
}
use net_drv_ts.Ethtool.TxCoalesce.Settings.{CoalesceLaws, sets, Settled, set_profile-Keeps}
use net_drv_ts.Ethtool.TxCoalesce.Cleanup.{save-All, cleanup-restored, nothing-cleaned}

module _ {W : Type 0} (o : CoalesceOps W) (laws : CoalesceLaws o) where
  open laws use {
    actual, staged, get_lem, set_ok, set_others, set_local_ok, set_local_others, set_local_actual,
    commit_ok, commit_settled,
  }

  -- What the cleanup needs to find of one setting, which was `g n` at first.
  abbrev Restorable : Profile → Bytes → (Bytes → ℕ) → Saved → W → Type 0
  Restorable profile n g s w =
      ((s.restore_prev_values ≡ false) × Settled o laws n (g n) w)
      ⊎ ((s.restore_prev_values ≡ true)
          × All (λ p. p.prev_value ≡ g p.name) s.params
          × (s.restore_adaptive_tx ≡ true → s.prev_adaptive_tx ≡ g adaptive_name)
          × (sets s.params n ≡ false
              → (str_eq adaptive_name n
                  && (s.restore_adaptive_tx
                      && (enables_adaptive_tx profile || not (s.prev_adaptive_tx == 0))))
                ≡ false
              → Settled o laws n (g n) w))

  save-Keeps : {P : W → Type 0} (ps : List Param) → Keeps P (save_profile_params o ps)
  unfolding save_profile_params
  save-Keeps [] = search keeping
  save-Keeps (p ∷ ps) =
      >>=-Keeps (on_error-Keeps (reads-Keeps {f = o.get p.name}) (λ e. jump-Keeps {j = test_fail}))
        (λ v. >>=-Keeps (save-Keeps ps) (λ rest. pure-Keeps))

  supported-Keeps : {P : W → Type 0} → Keeps P (check_supported o)
  unfolding check_supported
  supported-Keeps {P} =
      >>=-Keeps
        (on_error-Keeps (reads-Keeps {f = o.get (codes "tx_coalesce_usecs")}) (λ e.
          if_Keeps (is_enoent e.error || is_eopnotsupp e.error) (jump-Keeps {j = test_skip})
            (jump-Keeps {j = test_fail})))
        (λ v. pure-Keeps)

  adaptive-Restorable :
      (profile : Profile) (n : Bytes) (ps : List Param) (w : W) (x : Result ℕ)
      → o.get adaptive_name w ≡ x
      → Settled o laws n (actual w n) w
      → All (λ p. p.prev_value ≡ actual w p.name) ps
      → let q = after_prev_adaptive o profile ps (x, w) in Restorable profile n (actual w) q.1 q.0.1
  unfolding after_prev_adaptive
  adaptive-Restorable profile n ps w (ok prev) e s saved = inr (
    refl,
    saved,
    (λ _. sym (get_lem adaptive_name w prev e)),
    λ t c. (set_profile-Keeps o laws profile ps prev n (actual w n) t c).keeps w s,
  )
  adaptive-Restorable profile n ps w (err x) e s saved =
      inr (refl, saved, (λ h. absurd (cc h)), λ t c. s)
  adaptive-Restorable profile n ps w (ends j) e s saved =
      inr (refl, saved, (λ h. absurd (cc h)), λ t c. s)

  save-Restorable :
      (profile : Profile) (n : Bytes) (w : W) (q : Result (List Param) × W)
      → q.1 ≡ w
      → ((qs : List Param) → q.0 ≡ ok qs → All (λ p. p.prev_value ≡ actual w p.name) qs)
      → Settled o laws n (actual w n) w
      → Restorable profile n (actual w) (after_save o profile q).1 (after_save o profile q).0.1
  unfolding after_save
  save-Restorable profile n w (ok ps, u) same saved s =
      subst
        (λ v.
          let q = after_prev_adaptive o profile ps (o.get adaptive_name v, v) in
          Restorable profile n (actual w) q.1 q.0.1)
        (sym same)
        (adaptive-Restorable profile n ps w (o.get adaptive_name w) refl s (saved ps refl))
  save-Restorable profile n w (err x, u) same saved s =
      inl (refl, subst (Settled o laws n (actual w n)) (sym same) s)
  save-Restorable profile n w (ends j, u) same saved s =
      inl (refl, subst (Settled o laws n (actual w n)) (sym same) s)

  body-Restorable :
      (profile : Profile) (w : W) (n : Bytes)
      → staged w n ≡ actual w n
      → Restorable profile n (actual w) (run_body o profile w).1 (run_body o profile w).0.1
  unfolding run_body
  body-Restorable profile w n s =
      let both = check_supported o >> save_profile_params o (profile_params profile) in
      let same : (both w).1 ≡ w =
        (>>-Keeps {P = λ u. u ≡ w} supported-Keeps (save-Keeps (profile_params profile))).keeps w
          refl in
      save-Restorable profile n w (both w) same
        (λ qs e.
          let (x, v, first, second) =
            >>=-eq-ok (check_supported o) _ w {b = qs} {u = (both w).1}
              (ap (λ r. (r, (both w).1)) e) in
          let (prevs, _, _) = save-All o laws n (profile_params profile) qs v (both w).1 second in
          subst (λ u. All (λ p. p.prev_value ≡ actual u p.name) qs)
            (ap (λ r. r.1) (sym first) ∙ (supported-Keeps {P = λ u. u ≡ w}).keeps w refl) prevs)
        (refl, s)

  cleaned :
      (profile : Profile) (s : Saved) (n : Bytes) (g : Bytes → ℕ) (w w2 : W)
      → Restorable profile n g s w
      → cleanup o profile s w ≡ (true, w2)
      → actual w2 n ≡ g n
  cleaned profile s n g w w2 (inr (prev, saved, adaptive, untouched)) e =
      cleanup-restored o laws profile s n g w w2 prev saved adaptive untouched e
  cleaned profile s n g w w2 (inl (none, settled)) e =
      ap (λ v. actual v n) (sym (nothing-cleaned o laws profile s w w2 none e)) ∙ settled.0

  -- However the test ends, a setting without a pending local value is after it what it was before,
  -- when every call of the cleanup succeeded.
  pub run_test-restored :
      (profile : Profile) (w w2 : W) (r : Result ⊤) (n : Bytes)
      → staged w n ≡ actual w n
      → run_test o profile w ≡ (r, true, w2)
      → actual w2 n ≡ actual w n
  unfolding run_test
  run_test-restored profile w w2 r n s e =
      let ((_, w1), saved) = run_body o profile w in
      cleaned profile saved n (actual w) w1 w2 (body-Restorable profile w n s)
        (ap (λ q. (q.1, q.2)) e)
