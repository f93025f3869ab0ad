-- ===== src/Ethtool/TxCoalesce/Applied.antt =====
-- What it means that the test of a valid profile succeeds.
use mathlib.Core.Path.{subst}
use net_drv_ts.Base.{
  ℕ, ◌≡◌, inl, inr, refl, ap, sym, ◌∙◌, false, not, ◌||◌, ⊤, List, [], ◌∷◌, ◌==◌, if◌then◌else◌, M,
  Result, ok, err, ends, test_fail, test_verdict, jump, reads, check_rc, on_error, when, ◌>>◌,
  >>=-eq-ok, check_rc-eq-ok, value_or, All, arith, Bool-cases,
}
use net_drv_ts.Ethtool.TxCoalesce.{
  Param, Profile, adaptive_name, profile_params, enables_adaptive_tx, is_invalid, CoalesceOps,
  set_params_locally, save_profile_params, check_profile_params, check_supported, set_or_verdict,
  set_valid, set_profile, after_prev_adaptive, after_save, run_body,
}
use net_drv_ts.Ethtool.TxCoalesce.Settings.{CoalesceLaws}

module _ {W : Type 0} (o : CoalesceOps W) (laws : CoalesceLaws o) where
  open laws use {actual, get_lem}

  abbrev Applied : List Param → W → Type 0
  Applied ps w = All (λ p. actual w p.name ≡ p.value) ps

  differs-eq-ok :
      (v x : ℕ) (m : M W ⊤) (w w' : W)
      → (if not (v == x) then jump test_verdict else m) w ≡ (ok tt, w')
      → (v ≡ x) × (m w ≡ (ok tt, w'))
  differs-eq-ok v x m w w' e = elim (Bool-cases (v == x)) [
    | inl same ↦ (ground arith, (rw same at e))
    | inr other ↦ absurd (cc (ap (λ q. q.0) (rw other at e)))
  ]

  check_params-Applied :
      (ps : List Param) (w w' : W)
      → check_profile_params o ps w ≡ (ok tt, w')
      → (w ≡ w') × Applied ps w
  unfolding check_profile_params
  check_params-Applied [] w w' e = (ap (λ q. q.1) e, tt)
  check_params-Applied (p ∷ ps) w w' e =
      let (v, w1, got, k) = >>=-eq-ok (check_rc (reads (o.get p.name))) _ w e in
      let read = check_rc-eq-ok (o.get p.name w, w) w got in
      let (same, rest) = differs-eq-ok v p.value (check_profile_params o ps) w1 w' k in
      let here = ap (λ q. q.1) read in
      let (kept, all) = check_params-Applied ps w1 w' rest in
      (
        here ∙ kept,
        (get_lem p.name w v (ap (λ q. q.0) read) ∙ same, subst (Applied ps) (sym here) all),
      )

  save-Applied :
      (ps qs : List Param) (w w' u : W)
      → save_profile_params o ps w ≡ (ok qs, w')
      → Applied qs u
      → Applied ps u
  unfolding save_profile_params
  save-Applied [] qs w w' u e h = tt
  save-Applied (p ∷ ps) qs w w' u e h =
      let (v, w1, r, k) = >>=-eq-ok (on_error (reads (o.get p.name)) (λ _. jump test_fail)) _ w e in
      let (rest, w2, s, t) = >>=-eq-ok (save_profile_params o ps) _ w1 k in
      let all = subst (λ qs. Applied qs u) (sym (ap (λ r. value_or [] r.0) t)) h in
      (all.0, save-Applied ps rest w1 w2 u s all.1)

  set_profile-Applied :
      (profile : Profile) (ps : List Param) (prev : ℕ) (w w' : W)
      → is_invalid profile ≡ false
      → set_profile o profile ps prev w ≡ (ok tt, w')
      → Applied ps w'
  unfolding set_profile set_valid
  set_profile-Applied profile ps prev w w' valid e =
      let (_, w1, _, k) =
        >>=-eq-ok (when (enables_adaptive_tx profile || not (prev == 0)) (set_or_verdict o 0)) _ w
          e in
      let k = rw valid at k in
      let (_, w2, _, k2) = >>=-eq-ok (check_rc (set_params_locally o (λ p. p.value) ps)) _ w1 k in
      let (_, w3, _, k3) = >>=-eq-ok (on_error o.commit (λ _. jump test_verdict)) _ w2 k2 in
      let (_, w4, _, k4) =
        >>=-eq-ok (when (enables_adaptive_tx profile) (set_or_verdict o 1)) _ w3 k3 in
      let (same, all) = check_params-Applied ps w4 w' k4 in subst (Applied ps) same all

  adaptive-Applied :
      (profile : Profile) (ps : List Param) (x : Result ℕ) (w w' : W)
      → is_invalid profile ≡ false
      → (after_prev_adaptive o profile ps (x, w)).0 ≡ (ok tt, w')
      → Applied ps w'
  unfolding after_prev_adaptive
  adaptive-Applied profile ps (ok prev) w w' valid e =
      set_profile-Applied profile ps prev w w' valid e
  adaptive-Applied profile ps (err x) w w' valid e = absurd (cc (ap (λ q. q.0) e))
  adaptive-Applied profile ps (ends j) w w' valid e = absurd (cc (ap (λ q. q.0) e))

  save-success :
      (profile : Profile) (q : Result (List Param) × W) (w' : W)
      → is_invalid profile ≡ false
      → (after_save o profile q).0 ≡ (ok tt, w')
      → (qs : List Param) × (q.0 ≡ ok qs) × Applied qs w'
  unfolding after_save
  save-success profile (ok qs, w) w' valid e =
      (qs, refl, adaptive-Applied profile qs (o.get adaptive_name w) w w' valid e)
  save-success profile (err x, w) w' valid e = absurd (cc (ap (λ q. q.0) e))
  save-success profile (ends j, w) w' valid e = absurd (cc (ap (λ q. q.0) e))

  -- When the test of a valid profile succeeds, every parameter of the profile is in force with the
  -- profile's value, before the cleanup.
  pub run_body-applied :
      (profile : Profile) (w w' : W)
      → is_invalid profile ≡ false
      → (run_body o profile w).0 ≡ (ok tt, w')
      → All (λ p. actual w' p.name ≡ p.value) (profile_params profile)
  unfolding run_body
  run_body-applied profile w w' valid e =
      let both = check_supported o >> save_profile_params o (profile_params profile) in
      let (qs, done, all) = save-success profile (both w) w' valid e in
      let (_, v, _, second) =
        >>=-eq-ok (check_supported o) _ w {b = qs} {u = (both w).1}
          (ap (λ r. (r, (both w).1)) done) in
      save-Applied (profile_params profile) qs v (both w).1 w' second all
