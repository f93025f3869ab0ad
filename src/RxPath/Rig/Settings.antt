-- ===== src/RxPath/Rig/Settings.antt =====
-- What the calls of the Rx coalescing tests leave of the settings of the interface.
use net_drv_ts.Base.{
  ℕ, ◌≡◌, ◌∙◌, Bool, false, ◌||◌, none, some, Option, Bytes, str_eq, M, is_eopnotsupp, test_skip,
  test_fail, is_enoent, test_verdict, arith, Keeps, >>=-Keeps, >>-Keeps, if_Keeps, check_rc-Keeps,
  on_error-Keeps, pure-Keeps, jump-Keeps, reads-Keeps,
}
use net_drv_ts.Ethtool.TxCoalesce.Settings.{CoalesceLaws, Settled, commit-Keeps}
use net_drv_ts.RxPath.Rig.{
  RigOps, Rig, Prev, Side, lift, usecs_name, frames_name, rx_adaptive_name, read_settings,
  set_limits,
}

-- Whether the tests set the setting of that name.
abbrev pub touched : Bytes → Bool
touched n = str_eq usecs_name n || (str_eq frames_name n || str_eq rx_adaptive_name n)

module _ {W T : Type 0} (o : RigOps W T) (laws : (q : Option ℕ) → CoalesceLaws (o.coalesce q)) where
  -- One setting of a queue is `v`, also with the settings that are pending.
  abbrev pub Holds : Option ℕ → Bytes → ℕ → W → Type 0
  Holds q n v = Settled (o.coalesce q) (laws q) n v

  -- A call that changes no setting of any queue.
  abbrev pub Quiet : {A : Type 0} → M W A → Type 0
  Quiet m = (q : Option ℕ) (n : Bytes) (v : ℕ) → Keeps (Holds q n v) m

  -- What is relied on: only the calls on settings change settings.
  pub record RigLaws : Type 0 where
    pub rand_quiet : (lo hi : ℕ) → Quiet (o.rand_range lo hi)
    pub find_quiet : Quiet o.find_location
    pub add_quiet : (l : ℕ) → Quiet (o.rule_add l)
    pub fill_quiet : (l : ℕ) → Quiet (o.rule_fill l)
    pub rule_queue_quiet : (l queue : ℕ) → Quiet (o.rule_queue_set l queue)
    pub rule_commit_quiet : (l : ℕ) → Quiet (o.rule_commit l)
    pub rule_del_quiet : (l : ℕ) → Quiet (o.rule_del l)
    pub connection_quiet : Quiet (λ w. ((o.gen_connection w).1, (o.gen_connection w).2))
    pub close_quiet : (side : Side) (s : ℕ) → Quiet (o.close side s)
    pub check_quiet : Quiet o.send_recv_check
    pub hwtstamp_quiet : Quiet o.disable_hwtstamp
    pub create_quiet : (side : Side) → Quiet (o.csap_create side)
    pub start_quiet : (side : Side) (csap : ℕ) → Quiet (o.trrecv_start side csap)
    pub stop_quiet : (side : Side) (csap : ℕ) → Quiet (o.trrecv_stop side csap)
    pub destroy_quiet : (side : Side) (csap : ℕ) → Quiet (o.csap_destroy side csap)
    pub call_quiet : (delay time : ℕ) → Quiet (o.send_call delay time)
    pub recv_quiet : Quiet o.recv_pkts
    pub wait_quiet : (delay time : ℕ) → Quiet (o.send_wait delay time)
    pub verdict_quiet : Quiet o.verdict

  -- The settings of a queue that the tests do not set are as they were, and what was saved is kept.
  abbrev pub During : Prev → Bytes → ℕ → Rig W → Type 0
  During prev n v s = (s.prev ≡ some prev) × (touched n ≡ false → Holds prev.queue n v s.world)

  -- Before the settings are saved, all of them are as they were.
  abbrev pub Untouched : Bytes → (Option ℕ → ℕ) → Rig W → Type 0
  Untouched n v s = (s.prev ≡ none) × ((q : Option ℕ) → Holds q n (v q) s.world)

  pub lift-Untouched :
      {A : Type 0} (n : Bytes) (v : Option ℕ → ℕ) {m : M W A}
      → Quiet m
      → Keeps (Untouched n v) (lift m)
  lift-Untouched n v quiet = record {
    keeps = λ s h. (h.0, λ q. (quiet q n (v q)).keeps s.world (h.1 q));
  }

  pub lift-During :
      {A : Type 0} (prev : Prev) (n : Bytes) (v : ℕ) {m : M W A}
      → (touched n ≡ false → Keeps (Holds prev.queue n v) m)
      → Keeps (During prev n v) (lift m)
  lift-During prev n v k = record { keeps = λ s h. (h.0, λ t. (k t).keeps s.world (h.1 t)) }

  pub Quiet-During :
      {A : Type 0} (prev : Prev) (n : Bytes) (v : ℕ) {m : M W A}
      → Quiet m
      → Keeps (During prev n v) (lift m)
  Quiet-During prev n v quiet = lift-During prev n v λ _. quiet prev.queue n v

  set-Holds :
      (q : Option ℕ) (name n : Bytes) (x v : ℕ)
      → str_eq name n ≡ false
      → Keeps (Holds q n v) ((o.coalesce q).set name x)
  set-Holds q name n x v other = record {
    keeps = λ w s. let same = (laws q).set_others name n x w other in (same.0 ∙ s.0, same.1 ∙ s.1);
  }

  set_local-Holds :
      (q : Option ℕ) (name n : Bytes) (x v : ℕ)
      → str_eq name n ≡ false
      → Keeps (Holds q n v) ((o.coalesce q).set_local name x)
  set_local-Holds q name n x v other = record {
    keeps = λ w s. (
      (laws q).set_local_actual name n x w ∙ s.0,
      (laws q).set_local_others name n x w other ∙ s.1,
    );
  }

  pub set_limits-Holds :
      (q : Option ℕ) (usecs frames value v : ℕ) (tested n : Bytes)
      → touched n ≡ false
      → str_eq tested n ≡ false
      → Keeps (Holds q n v) (set_limits o q usecs frames tested value)
  unfolding set_limits
  set_limits-Holds q usecs frames value v tested n h other =
      let again = on_error-Keeps (set-Holds q tested n value v other) (λ e.
        if_Keeps (is_eopnotsupp e.error) (jump-Keeps {j = test_skip})
          (jump-Keeps {j = test_verdict})) in
      >>-Keeps
        (on_error-Keeps (set-Holds q rx_adaptive_name n 0 v (ground arith))
          (λ _. jump-Keeps {j = test_verdict}))
        (>>-Keeps (check_rc-Keeps (set_local-Holds q usecs_name n usecs v (ground arith))) (
          >>-Keeps (check_rc-Keeps (set_local-Holds q frames_name n frames v (ground arith))) (
            on_error-Keeps (commit-Keeps (o.coalesce q) (laws q) n v)
              (λ e. if_Keeps (is_eopnotsupp e.error) again (jump-Keeps {j = test_verdict})))))

  pub read_settings-Quiet :
      (q : Option ℕ) (tested other : Bytes) → Quiet (read_settings o q tested other)
  unfolding read_settings
  read_settings-Quiet q tested other p n v =
      >>=-Keeps
        (on_error-Keeps (reads-Keeps {f = (o.coalesce q).get tested}) (λ e.
          if_Keeps (is_enoent e.error) (jump-Keeps {j = test_skip}) (jump-Keeps {j = test_fail})))
        (λ a. >>=-Keeps (check_rc-Keeps (reads-Keeps {f = (o.coalesce q).get other})) (λ b.
          >>=-Keeps (check_rc-Keeps (reads-Keeps {f = (o.coalesce q).get rx_adaptive_name}))
            (λ c. pure-Keeps)))
