-- ===== src/Ethtool/TxCoalesce/Settings.antt =====
-- What the calls that set Tx coalescing leave of one setting: what is relied on, and the settings
-- that a call does not touch.
use net_drv_ts.Base.{
  ℕ, ◌≡◌, inl, inr, ap, sym, ◌∙◌, Bool, true, false, not, ◌&&◌, ◌||◌, ⊤, List, [], ◌∷◌, Bytes,
  str_eq, eq_of_str_eq, ◌==◌, if◌then◌else◌, Result, ok, err, ends, is_einval, test_verdict, when,
  >>=-eq-ok, All, arith, Bool-cases, Keeps, >>=-Keeps, if_Keeps, check_rc-Keeps, reads-Keeps,
  jump-Keeps, on_error-Keeps, >>-Keeps, keeping,
}
use net_drv_ts.Ethtool.TxCoalesce.{
  Param, Profile, adaptive_name, enables_adaptive_tx, is_invalid, CoalesceOps, set_params_locally,
  check_profile_params, set_or_verdict, expect_einval, set_invalid, set_valid, set_profile,
}

-- What the test relies on: a GET reports the setting in force; a local SET shows in no other
-- setting and in nothing in force before the commit; a commit puts all local settings in force, and
-- leaves alone a setting without a local value, also when it fails. `staged` are the settings with
-- the local ones.
pub record CoalesceLaws {W : Type 0} (o : CoalesceOps W) : Type 0 where
  pub actual : W → Bytes → ℕ
  pub staged : W → Bytes → ℕ
  pub get_lem : (n : Bytes) (w : W) (v : ℕ) → o.get n w ≡ ok v → actual w n ≡ v
  pub set_ok :
      (n : Bytes) (v : ℕ) (w w' : W)
      → o.set n v w ≡ (ok tt, w')
      → (actual w' n ≡ v) × (staged w' n ≡ v)
  pub set_others :
      (n m : Bytes) (v : ℕ) (w : W)
      → str_eq n m ≡ false
      → (actual (o.set n v w).1 m ≡ actual w m) × (staged (o.set n v w).1 m ≡ staged w m)
  pub set_local_ok :
      (n : Bytes) (v : ℕ) (w w' : W) → o.set_local n v w ≡ (ok tt, w') → staged w' n ≡ v
  pub set_local_others :
      (n m : Bytes) (v : ℕ) (w : W)
      → str_eq n m ≡ false
      → staged (o.set_local n v w).1 m ≡ staged w m
  pub set_local_actual : (n m : Bytes) (v : ℕ) (w : W) → actual (o.set_local n v w).1 m ≡ actual w m
  pub commit_ok :
      (m : Bytes) (w w' : W)
      → o.commit w ≡ (ok tt, w')
      → (actual w' m ≡ staged w m) × (staged w' m ≡ staged w m)
  pub commit_settled :
      (m : Bytes) (w : W)
      → staged w m ≡ actual w m
      → (actual (o.commit w).1 m ≡ actual w m) × (staged (o.commit w).1 m ≡ actual w m)

-- Whether set_coalesce_params_locally() sets the parameter of that name.
abbrev pub sets : List Param → Bytes → Bool
sets [] n = false
sets (p ∷ ps) n = (not (str_eq p.name adaptive_name) && str_eq p.name n) || sets ps n

module _ {W : Type 0} (o : CoalesceOps W) (laws : CoalesceLaws o) where
  open laws use {
    actual, staged, get_lem, set_ok, set_others, set_local_ok, set_local_others, set_local_actual,
    commit_ok, commit_settled,
  }

  -- One setting is `v`, also with the local settings.
  abbrev pub Settled : Bytes → ℕ → W → Type 0
  Settled n v w = (actual w n ≡ v) × (staged w n ≡ v)

  pub set_params-Keeps :
      (chosen : Param → ℕ) (ps : List Param) (n : Bytes) (v : ℕ)
      → sets ps n ≡ false
      → Keeps (Settled n v) (set_params_locally o chosen ps)
  unfolding set_params_locally
  set_params-Keeps chosen [] n v h = search keeping
  set_params-Keeps chosen (p ∷ ps) n v h =
      let rest = set_params-Keeps chosen ps n v (ground arith) in
      elim (Bool-cases (str_eq p.name adaptive_name)) [
        | inl skipped ↦ rw skipped rest
        | inr used ↦
            let other : str_eq p.name n ≡ false = ground arith in
            let local : Keeps (Settled n v) (o.set_local p.name (chosen p)) = record {
              keeps = λ w s. (
                set_local_actual p.name n (chosen p) w ∙ s.0,
                set_local_others p.name n (chosen p) w other ∙ s.1,
              );
            } in
            rw used (>>-Keeps local rest)
      ]

  pub commit-Keeps : (n : Bytes) (v : ℕ) → Keeps (Settled n v) o.commit
  commit-Keeps n v = record {
    keeps = λ w s. let c = commit_settled n w (s.1 ∙ sym s.0) in (c.0 ∙ s.0, c.1 ∙ s.0);
  }

  -- What a local SET of all parameters, and then the commit, leave.
  pub set_params-staged :
      (chosen : Param → ℕ) (g : Bytes → ℕ) (ps : List Param) (w w' : W) (n : Bytes)
      → All (λ p. chosen p ≡ g p.name) ps
      → set_params_locally o chosen ps w ≡ (ok tt, w')
      → staged w' n ≡ (if sets ps n then g n else staged w n)
  unfolding set_params_locally
  set_params-staged chosen g [] w w' n h e = ap (λ q. staged q.1 n) (sym e)
  set_params-staged chosen g (p ∷ ps) w w' n h e = elim (Bool-cases (str_eq p.name adaptive_name)) [
    | inl skipped ↦ rw skipped (set_params-staged chosen g ps w w' n h.1 (rw skipped at e))
    | inr used ↦
        let (x, v, s, k) = >>=-eq-ok (o.set_local p.name (chosen p)) _ w (rw used at e) in
        let rest = set_params-staged chosen g ps v w' n h.1 k in
        elim (Bool-cases (str_eq p.name n)) [
          | inl same ↦
              let q = eq_of_str_eq p.name n same in
              ground (
                arith,
                rest,
                h.0,
                set_local_ok p.name (chosen p) w v s,
                ap g q,
                ap (λ m. staged v m) q,
              )
          | inr other ↦
              ground (
                arith,
                rest,
                set_local_others p.name n (chosen p) w other,
                ap (λ r. staged r.1 n) s,
              )
        ]
  ]

  set_or_verdict-Keeps :
      (n : Bytes) (v x : ℕ)
      → str_eq adaptive_name n ≡ false
      → Keeps (Settled n v) (set_or_verdict o x)
  unfolding set_or_verdict
  set_or_verdict-Keeps n v x other =
      let set : Keeps (Settled n v) (o.set adaptive_name x) = record {
        keeps =
            λ w s. let same = set_others adaptive_name n x w other in (same.0 ∙ s.0, same.1 ∙ s.1);
      } in
      search (keeping, set)

  when_set-Keeps :
      (n : Bytes) (v x : ℕ) (c : Bool)
      → (str_eq adaptive_name n && c) ≡ false
      → Keeps (Settled n v) (when c (set_or_verdict o x))
  when_set-Keeps n v x true h = set_or_verdict-Keeps n v x (ground arith)
  when_set-Keeps n v x false h = search keeping

  check_params-Keeps :
      (ps : List Param) (n : Bytes) (v : ℕ) → Keeps (Settled n v) (check_profile_params o ps)
  unfolding check_profile_params
  check_params-Keeps [] n v = search keeping
  check_params-Keeps (p ∷ ps) n v =
      >>=-Keeps (check_rc-Keeps (reads-Keeps {f = o.get p.name}))
        (λ actual. if_Keeps (not (actual == p.value)) jump-Keeps (check_params-Keeps ps n v))

  expect_einval-Settled :
      (n : Bytes) (v : ℕ) (q : Result ⊤ × W) → Settled n v q.1 → Settled n v (expect_einval o q).1
  unfolding expect_einval
  expect_einval-Settled n v (ok x, w) s = s
  expect_einval-Settled n v (err e, w) s = elim (Bool-cases (is_einval e.error)) [
    | inl same ↦ rw same s
    | inr other ↦ rw other s
  ]
  expect_einval-Settled n v (ends j, w) s = s

  pub set_profile-Keeps :
      (profile : Profile) (ps : List Param) (prev : ℕ) (n : Bytes) (v : ℕ)
      → sets ps n ≡ false
      → (str_eq adaptive_name n && (enables_adaptive_tx profile || not (prev == 0))) ≡ false
      → Keeps (Settled n v) (set_profile o profile ps prev)
  unfolding set_profile set_invalid set_valid
  set_profile-Keeps profile ps prev n v h other =
      let rejected : Keeps (Settled n v) (λ w. expect_einval o (o.commit w)) = record {
        keeps = λ w s. expect_einval-Settled n v (o.commit w) ((commit-Keeps n v).keeps w s);
      } in
      let first = when_set-Keeps n v 0 (enables_adaptive_tx profile || not (prev == 0)) other in
      let second = when_set-Keeps n v 1 (enables_adaptive_tx profile) (ground arith) in
      let local = check_rc-Keeps (set_params-Keeps (λ p. p.value) ps n v h) in
      let commit = on_error-Keeps (commit-Keeps n v) (λ e. jump-Keeps {j = test_verdict}) in
      >>-Keeps first (
        if_Keeps (is_invalid profile) (>>-Keeps local rejected)
          (>>-Keeps local (>>-Keeps commit (>>-Keeps second (check_params-Keeps ps n v)))))
