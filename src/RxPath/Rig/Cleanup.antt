-- ===== src/RxPath/Rig/Cleanup.antt =====
-- The settings that the Rx coalescing tests save, and what the cleanup makes of them.
use mathlib.Core.Path.{subst}
use net_drv_ts.Base.{
  ℕ, ◌≡◌, ap, sym, ◌∙◌, inl, inr, Bool, true, false, none, some, Option, ⊤, Bytes, str_eq,
  eq_of_str_eq, M, Result, ok, err, ends, is_enoent, test_skip, test_fail, jump, reads, on_error,
  >>=-eq-ok, check_read>>=-eq-ok, value_or, arith, Bool-cases, cleanup_check, cleanup_check-fine,
  if◌then◌else◌,
}
use net_drv_ts.Ethtool.TxCoalesce.Settings.{CoalesceLaws}
use net_drv_ts.RxPath.Rig.{
  RigOps, Rig, Prev, Side, iut, tester, usecs_name, frames_name, rx_adaptive_name, read_settings,
  destroy_csap, close_sock, restore_prev, remove_rule, cleanup,
}
use net_drv_ts.RxPath.Rig.Settings.{RigLaws, Holds, Quiet, touched}

skip_or_fail-eq-ok :
    {W : Type 0} (x : Result ℕ) (w : W) {a : ℕ} {u : W}
    → on_error
        (reads (λ _. x))
        (λ e. if is_enoent e.error then jump test_skip else jump test_fail)
        w
      ≡ (ok a, u)
    → (x ≡ ok a) × (u ≡ w)
skip_or_fail-eq-ok (ok a) w h = (ap (λ p. p.0) h, ap (λ p. p.1) (sym h))
skip_or_fail-eq-ok (err e) w h = elim (Bool-cases (is_enoent e.error)) [
  | inl yes' ↦ absurd (cc (ap (λ p. p.0) (rw yes' at h)))
  | inr no' ↦ absurd (cc (ap (λ p. p.0) (rw no' at h)))
]
skip_or_fail-eq-ok (ends j) w h = absurd (cc (ap (λ p. p.0) h))

module _ {W T : Type 0} (o : RigOps W T) (laws : (q : Option ℕ) → CoalesceLaws (o.coalesce q)) where
  -- What is read are the settings in force.
  pub read_settings-actual :
      (q : Option ℕ) (tested other : Bytes) (w w' : W) (t : ℕ × ℕ × ℕ)
      → read_settings o q tested other w ≡ (ok t, w')
      → (t.0 ≡ (laws q).actual w tested)
        × (t.1 ≡ (laws q).actual w other)
        × (t.2 ≡ (laws q).actual w rx_adaptive_name)
        × (w' ≡ w)
  unfolding read_settings
  read_settings-actual q tested other w w' t e =
      let get = (o.coalesce q).get in
      let (a, w1, r, k) =
        >>=-eq-ok
          (on_error (reads (get tested))
            (λ e. if is_enoent e.error then jump test_skip else jump test_fail))
          _ w e in
      let (got, same) = skip_or_fail-eq-ok (get tested w) w r in
      let (b, got', k') = check_read>>=-eq-ok (get other w1) _ w1 k in
      let (c, got'', k'') = check_read>>=-eq-ok (get rx_adaptive_name w1) _ w1 k' in
      let read = ap (λ p. value_or (0, 0, 0) p.0) (sym k'') in
      (
        ap (λ x. x.0) read ∙ sym ((laws q).get_lem tested w a got),
        ap (λ x. x.1) read
            ∙ sym ((laws q).get_lem other w1 b got')
            ∙ ap (λ u. (laws q).actual u other) same,
        ap (λ x. x.2) read
            ∙ sym ((laws q).get_lem rx_adaptive_name w1 c got'')
            ∙ ap (λ u. (laws q).actual u rx_adaptive_name) same,
        ap (λ p. p.1) (sym k'') ∙ same,
      )

  -- A setting but that of adaptive coalescing after the two local SETs of the cleanup.
  limits-staged :
      (q : Option ℕ) (usecs frames : ℕ) (n : Bytes) (g : Bytes → ℕ) (w w1 w2 : W)
      → usecs ≡ g usecs_name
      → frames ≡ g frames_name
      → str_eq rx_adaptive_name n ≡ false
      → (touched n ≡ false → Holds o laws q n (g n) w)
      → (o.coalesce q).set_local usecs_name usecs w ≡ (ok tt, w1)
      → (o.coalesce q).set_local frames_name frames w1 ≡ (ok tt, w2)
      → (laws q).staged w2 n ≡ g n
  limits-staged q usecs frames n g w w1 w2 eu ef na h l1 l2 =
      elim (Bool-cases (str_eq frames_name n)) [
        | inl same ↦
            subst (λ m. (laws q).staged w2 m ≡ g m) (eq_of_str_eq frames_name n same)
              ((laws q).set_local_ok frames_name frames w1 w2 l2 ∙ ef)
        | inr nf ↦
            let second =
              ap (λ r. (laws q).staged r.1 n) (sym l2)
              ∙ (laws q).set_local_others frames_name n frames w1 nf in
            second ∙ elim (Bool-cases (str_eq usecs_name n)) [
              | inl same ↦
                  subst (λ m. (laws q).staged w1 m ≡ g m) (eq_of_str_eq usecs_name n same)
                    ((laws q).set_local_ok usecs_name usecs w w1 l1 ∙ eu)
              | inr nu ↦
                  ap (λ r. (laws q).staged r.1 n) (sym l1)
                  ∙ (laws q).set_local_others usecs_name n usecs w nu
                  ∙ (h (ground arith)).1
            ]
      ]

  restore_prev-eq :
      (prev : Prev) (n : Bytes) (g : Bytes → ℕ) (st : Bool × W) (w2 : W)
      → prev.usecs ≡ g usecs_name
      → prev.max_frames ≡ g frames_name
      → prev.adaptive ≡ g rx_adaptive_name
      → (touched n ≡ false → Holds o laws prev.queue n (g n) st.1)
      → restore_prev o (some prev) st ≡ (true, w2)
      → (st.0 ≡ true) × Holds o laws prev.queue n (g n) w2
  unfolding restore_prev
  restore_prev-eq prev n g st w2 eu ef ea h e =
      let q = prev.queue in
      let c = o.coalesce q in
      let st1 = cleanup_check (c.set_local usecs_name prev.usecs) st in
      let st2 = cleanup_check (c.set_local frames_name prev.max_frames) st1 in
      let st3 = cleanup_check c.commit st2 in
      let (f3, last) = cleanup_check-fine (c.set rx_adaptive_name prev.adaptive) st3 w2 e in
      let (f2, committed) = cleanup_check-fine c.commit st2 st3.1 (ap (λ b. (b, st3.1)) f3) in
      let (f1, l2) =
        cleanup_check-fine (c.set_local frames_name prev.max_frames) st1 st2.1
          (ap (λ b. (b, st2.1)) f2) in
      let (f0, l1) =
        cleanup_check-fine (c.set_local usecs_name prev.usecs) st st1.1 (ap (λ b. (b, st1.1)) f1) in
      (
        f0,
        elim (Bool-cases (str_eq rx_adaptive_name n)) [
          | inl same ↦
              let now = (laws q).set_ok rx_adaptive_name prev.adaptive st3.1 w2 last in
              subst (λ m. Holds o laws q m (g m) w2) (eq_of_str_eq rx_adaptive_name n same)
                (now.0 ∙ ea, now.1 ∙ ea)
          | inr other ↦
              let staged =
                limits-staged q prev.usecs prev.max_frames n g st.1 st1.1 st2.1 eu ef other h l1
                  l2 in
              let done = (laws q).commit_ok n st2.1 st3.1 committed in
              let kept = (laws q).set_others rx_adaptive_name n prev.adaptive st3.1 other in
              (
                ap (λ r. (laws q).actual r.1 n) (sym last) ∙ kept.0 ∙ done.0 ∙ staged,
                ap (λ r. (laws q).staged r.1 n) (sym last) ∙ kept.1 ∙ done.1 ∙ staged,
              )
        ],
      )

  -- A call of the cleanup that changes no setting.
  Quiet-Holds :
      (m : M W ⊤) (q : Option ℕ) (n : Bytes) (v : ℕ) (st : Bool × W)
      → Quiet o laws m
      → Holds o laws q n v st.1
      → Holds o laws q n v (cleanup_check m st).1
  unfolding cleanup_check
  Quiet-Holds m q n v (b, w) quiet h = (quiet q n v).keeps w h

  -- What the cleanup needs to find of one setting of a queue, which was `v n` at first.
  pub data Restorable (q : Option ℕ) (n : Bytes) (v : Bytes → ℕ) (s : Rig W) : Type 0 where
    unsaved : s.prev ≡ none → Holds o laws q n (v n) s.world → Restorable q n v s
    saved :
        (prev : Prev)
        → s.prev ≡ some prev
        → prev.queue ≡ q
        → prev.usecs ≡ v usecs_name
        → prev.max_frames ≡ v frames_name
        → prev.adaptive ≡ v rx_adaptive_name
        → (touched n ≡ false → Holds o laws prev.queue n (v n) s.world)
        → Restorable q n v s

  module _ (quiet : RigLaws o laws) (q : Option ℕ) (n : Bytes) (v : ℕ) where
    destroy_csap-Holds :
        (side : Side) (csap : Option ℕ) (st : Bool × W)
        → Holds o laws q n v st.1
        → Holds o laws q n v (destroy_csap o side csap st).1
    unfolding destroy_csap
    destroy_csap-Holds side none st h = h
    destroy_csap-Holds side (some csap) st h =
        Quiet-Holds (o.csap_destroy side csap) q n v st (quiet.destroy_quiet side csap) h

    close_sock-Holds :
        (side : Side) (s : Option ℕ) (st : Bool × W)
        → Holds o laws q n v st.1
        → Holds o laws q n v (close_sock o side s st).1
    unfolding close_sock
    close_sock-Holds side none st h = h
    close_sock-Holds side (some s) st h =
        Quiet-Holds (o.close side s) q n v st (quiet.close_quiet side s) h

    remove_rule-Holds :
        (rule : Option ℕ) (st : Bool × W)
        → Holds o laws q n v st.1
        → Holds o laws q n v (remove_rule o rule st).1
    unfolding remove_rule
    remove_rule-Holds none st h = h
    remove_rule-Holds (some l) st h = Quiet-Holds (o.rule_del l) q n v st (quiet.rule_del_quiet l) h

    -- The steps of the cleanup before the settings are restored.
    abbrev released : Rig W → Bool × W
    released s =
        let st1 = destroy_csap o tester s.csap_tx (true, s.world) in
        let st2 = destroy_csap o iut s.csap_rx st1 in
        let st3 = close_sock o iut s.iut_s st2 in close_sock o tester s.tst_s st3

    released-Holds : (s : Rig W) → Holds o laws q n v s.world → Holds o laws q n v (released s).1
    released-Holds s h = close_sock-Holds tester s.tst_s _ (
        close_sock-Holds iut s.iut_s _
          (destroy_csap-Holds iut s.csap_rx _ (destroy_csap-Holds tester s.csap_tx _ h)))

  remove_rule-fine :
      (rule : Option ℕ) (st : Bool × W) (w2 : W) → remove_rule o rule st ≡ (true, w2) → st.0 ≡ true
  unfolding remove_rule
  remove_rule-fine none st w2 e = ap (λ p. p.0) e
  remove_rule-fine (some l) st w2 e = (cleanup_check-fine (o.rule_del l) st w2 e).0

  -- A cleanup whose calls all succeeded leaves the setting as it was at first.
  pub cleanup-restored :
      (quiet : RigLaws o laws) (q : Option ℕ) (n : Bytes) (v : Bytes → ℕ) (s : Rig W) (w2 : W)
      → Restorable q n v s
      → cleanup o s ≡ (true, w2)
      → Holds o laws q n (v n) w2
  unfolding cleanup
  cleanup-restored quiet q n v s w2 (unsaved p h) e =
      let same =
        ap (λ prev. remove_rule o s.rule (restore_prev o prev (released quiet q n (v n) s))) p in
      subst (λ x. Holds o laws q n (v n) x.1) (sym same ∙ e)
        (remove_rule-Holds quiet q n (v n) s.rule _ (released-Holds quiet q n (v n) s h))
  cleanup-restored quiet q n v s w2 (saved prev p qe eu ef ea h) e =
      let x = prev.queue in
      let st = released quiet x n (v n) s in
      let same = ap (λ prev. remove_rule o s.rule (restore_prev o prev st)) p in
      let e' = sym same ∙ e in
      let fine = remove_rule-fine s.rule (restore_prev o (some prev) st) w2 e' in
      let back =
        restore_prev-eq prev n v st (restore_prev o (some prev) st).1 eu ef ea
          (λ t. released-Holds quiet x n (v n) s (h t))
          (ap (λ b. (b, (restore_prev o (some prev) st).1)) fine) in
      subst (λ y. Holds o laws y n (v n) w2) qe
        (subst (λ y. Holds o laws x n (v n) y.1) e'
          (remove_rule-Holds quiet x n (v n) s.rule (restore_prev o (some prev) st) back.1))
