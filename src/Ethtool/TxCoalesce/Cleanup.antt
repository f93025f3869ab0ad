-- ===== src/Ethtool/TxCoalesce/Cleanup.antt =====
-- The cleanup of the test: the values that were saved, and what the cleanup leaves of one setting.
use mathlib.Core.Path.{subst}
use net_drv_ts.Base.{
  ℕ, ◌≡◌, inl, inr, refl, ap, sym, ◌∙◌, Bool, true, false, not, ◌&&◌, ◌||◌, List, [], ◌∷◌, Bytes,
  str_eq, eq_of_str_eq, ◌==◌, if◌then◌else◌, ok, test_fail, jump, reads, on_error, >>=-eq-ok,
  read_or_jump-eq-ok, value_or, cleanup_check, cleanup_check-fine, All, arith, Bool-cases,
}
use net_drv_ts.Ethtool.TxCoalesce.{
  Param, Profile, adaptive_name, enables_adaptive_tx, CoalesceOps, Saved, set_params_locally,
  save_profile_params, cleanup_set, cleanup,
}
use net_drv_ts.Ethtool.TxCoalesce.Settings.{CoalesceLaws, sets, Settled, set_params-staged}

-- The steps of the cleanup for one setting: `a2` is what is in force at last, `a3` before adaptive
-- coalescing is set again, `s1` and `sw` the local settings before the values and at the beginning.
restored_value :
    (q t ra en : Bool) (prev gn ga a2 a3 s1 sw : ℕ)
    → a2 ≡ (if (ra && not (prev == 0)) && q then prev else a3)
    → a3 ≡ (if t then gn else s1)
    → s1 ≡ (if (ra && en) && q then 0 else sw)
    → (ra ≡ true → prev ≡ ga)
    → (q ≡ true → ga ≡ gn)
    → (t ≡ false → (q && (ra && (en || not (prev == 0)))) ≡ false → sw ≡ gn)
    → a2 ≡ gn
restored_value false true ra en prev gn ga a2 a3 s1 sw h2 h3 h1 hp hq hw = ground arith
restored_value false false ra en prev gn ga a2 a3 s1 sw h2 h3 h1 hp hq hw =
    ground (arith, hw refl refl)
restored_value true true false en prev gn ga a2 a3 s1 sw h2 h3 h1 hp hq hw = ground arith
restored_value true true true en prev gn ga a2 a3 s1 sw h2 h3 h1 hp hq hw =
    ground (arith, hp refl, hq refl)
restored_value true false false en prev gn ga a2 a3 s1 sw h2 h3 h1 hp hq hw =
    ground (arith, hw refl refl)
restored_value true false true true prev gn ga a2 a3 s1 sw h2 h3 h1 hp hq hw =
    ground (arith, hp refl, hq refl)
restored_value true false true false prev gn ga a2 a3 s1 sw h2 h3 h1 hp hq hw =
    ground (arith, hp refl, hq refl, hw refl)

module _ {W : Type 0} (o : CoalesceOps W) (laws : CoalesceLaws o) where
  open laws use {
    actual, staged, get_lem, set_ok, set_others, set_local_ok, set_local_others, set_local_actual,
    commit_ok, commit_settled,
  }

  -- The prev values are the settings that were in force.
  pub save-All :
      (n : Bytes) (ps qs : List Param) (w w' : W)
      → save_profile_params o ps w ≡ (ok qs, w')
      → All (λ p. p.prev_value ≡ actual w p.name) qs × (sets qs n ≡ sets ps n) × (w' ≡ w)
  unfolding save_profile_params
  save-All n [] qs w w' e =
      subst (λ qs. All (λ p. p.prev_value ≡ actual w p.name) qs × (sets qs n ≡ false) × (w' ≡ w))
        (ap (λ r. value_or [] r.0) e) (tt, refl, ap (λ r. r.1) (sym e))
  save-All n (p ∷ ps) qs w w' e =
      let (v, w1, r, k) = >>=-eq-ok (on_error (reads (o.get p.name)) (λ _. jump test_fail)) _ w e in
      let (got, same) = read_or_jump-eq-ok test_fail (o.get p.name w) w r in
      let (rest, w2, s, t) = >>=-eq-ok (save_profile_params o ps) _ w1 k in
      let (prevs, names, kept) = save-All n ps rest w1 w2 s in
      subst
        (λ qs.
          All (λ p. p.prev_value ≡ actual w p.name) qs × (sets qs n ≡ sets (p ∷ ps) n) × (w' ≡ w))
        (ap (λ r. value_or [] r.0) t)
        (
          (
            sym (get_lem p.name w v got),
            subst (λ u. All (λ p. p.prev_value ≡ actual u p.name) rest) (sym same) prevs,
          ),
          ap (λ b. (not (str_eq p.name adaptive_name) && str_eq p.name n) || b) names,
          ap (λ r. r.1) (sym t) ∙ kept ∙ sym same,
        )

  -- What setting adaptive coalescing in the cleanup leaves of one setting.
  cleanup_set-fine :
      (n : Bytes) (v : ℕ) (wanted : Bool) (st : Bool × W) (w' : W)
      → cleanup_set o v wanted st ≡ (true, w')
      → (st.0 ≡ true)
        × (actual w' n ≡ (if wanted && str_eq adaptive_name n then v else actual st.1 n))
        × (staged w' n ≡ (if wanted && str_eq adaptive_name n then v else staged st.1 n))
  unfolding cleanup_set
  cleanup_set-fine n v false (b, w) w' e = ground arith
  cleanup_set-fine n v true (b, w) w' e =
      let (fine, done) = cleanup_check-fine (o.set adaptive_name v) (b, w) w' e in
      elim (Bool-cases (str_eq adaptive_name n)) [
        | inl same ↦
            let q = eq_of_str_eq adaptive_name n same in
            let now = set_ok adaptive_name v w w' done in
            rw same
              (fine, ap (λ m. actual w' m) (sym q) ∙ now.0, ap (λ m. staged w' m) (sym q) ∙ now.1)
        | inr other ↦
            let now = set_others adaptive_name n v w other in
            rw other (
              fine,
              ap (λ r. actual r.1 n) (sym done) ∙ now.0,
              ap (λ r. staged r.1 n) (sym done) ∙ now.1,
            )
      ]

  pub cleanup-restored :
      (profile : Profile) (s : Saved) (n : Bytes) (g : Bytes → ℕ) (w w2 : W)
      → s.restore_prev_values ≡ true
      → All (λ p. p.prev_value ≡ g p.name) s.params
      → (s.restore_adaptive_tx ≡ true → s.prev_adaptive_tx ≡ g adaptive_name)
      → (sets s.params n ≡ false
          → (str_eq adaptive_name n
              && (s.restore_adaptive_tx
                  && (enables_adaptive_tx profile || not (s.prev_adaptive_tx == 0))))
            ≡ false
          → Settled o laws n (g n) w)
      → cleanup o profile s w ≡ (true, w2)
      → actual w2 n ≡ g n
  unfolding cleanup
  cleanup-restored profile s n g w w2 prev saved adaptive untouched e =
      let c1 = s.restore_adaptive_tx && enables_adaptive_tx profile in
      let c4 = s.restore_adaptive_tx && not (s.prev_adaptive_tx == 0) in
      let st1 = cleanup_set o 0 c1 (true, w) in
      let st2 = cleanup_check (set_params_locally o (λ p. p.prev_value) s.params) st1 in
      let st3 = cleanup_check o.commit st2 in
      let (fine3, last, _) = cleanup_set-fine n s.prev_adaptive_tx c4 st3 w2 (rw prev at e) in
      let (fine2, committed) = cleanup_check-fine o.commit st2 st3.1 (ap (λ b. (b, st3.1)) fine3) in
      let (fine1, local) =
        cleanup_check-fine (set_params_locally o (λ p. p.prev_value) s.params) st1 st2.1
          (ap (λ b. (b, st2.1)) fine2) in
      let (_, _, first) = cleanup_set-fine n 0 c1 (true, w) st1.1 (ap (λ b. (b, st1.1)) fine1) in
      restored_value (str_eq adaptive_name n) (sets s.params n) s.restore_adaptive_tx
        (enables_adaptive_tx profile) s.prev_adaptive_tx (g n) (g adaptive_name) (actual w2 n)
        (actual st3.1 n) (staged st1.1 n) (staged w n) last
        ((commit_ok n st2.1 st3.1 committed).0
          ∙ set_params-staged o laws (λ p. p.prev_value) g s.params st1.1 st2.1 n saved local)
        first adaptive (λ q. ap g (eq_of_str_eq adaptive_name n q)) (λ t c. (untouched t c).1)

  pub nothing-cleaned :
      (profile : Profile) (s : Saved) (w w2 : W)
      → s.restore_prev_values ≡ false
      → cleanup o profile s w ≡ (true, w2)
      → w ≡ w2
  unfolding cleanup
  nothing-cleaned profile s w w2 none e = ap (λ q. q.1) (rw none at e)
