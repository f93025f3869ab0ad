-- ===== src/RxPath/Rig/Restore.antt =====
-- The settings after an Rx coalescing test, for both tests: what they are after the body and the
-- cleanup, from what the parts of the body leave.
use mathlib.Core.Path.{subst}
use net_drv_ts.Base.{
  ℕ, ◌≡◌, refl, ap, sym, ◌∙◌, true, some, Option, ⊤, Bytes, M, Result, ok, err, ends, after, ◌>>=◌,
  Keeps,
}
use net_drv_ts.Ethtool.TxCoalesce.Settings.{CoalesceLaws}
use net_drv_ts.RxPath.Rig.{
  RigOps, Rig, Prev, usecs_name, frames_name, rx_adaptive_name, initially, lift, set_prev, saving,
  finish,
}
use net_drv_ts.RxPath.Rig.Settings.{RigLaws, Holds, Quiet, During, Untouched}
use net_drv_ts.RxPath.Rig.Cleanup.{Restorable, unsaved, saved, cleanup-restored}

module _ {W T : Type 0} (o : RigOps W T) (laws : (q : Option ℕ) → CoalesceLaws (o.coalesce q))
    (quiet : RigLaws o laws) where
  -- What the parts of a test have to do.
  pub record Parts (prepare : M (Rig W) (Option ℕ)) (save : Option ℕ → M W Prev)
      (measure : Option ℕ → M (Rig W) ⊤) : Type 0 where
    pub prepare_keeps : (n : Bytes) (v : Option ℕ → ℕ) → Keeps (Untouched o laws n v) prepare
    pub save_quiet : (q : Option ℕ) → Quiet o laws (save q)
    pub save_ok :
        (q : Option ℕ) (w w' : W) (prev : Prev)
        → save q w ≡ (ok prev, w')
        → (prev.queue ≡ q)
          × (prev.usecs ≡ (laws q).actual w usecs_name)
          × (prev.max_frames ≡ (laws q).actual w frames_name)
          × (prev.adaptive ≡ (laws q).actual w rx_adaptive_name)
          × (w' ≡ w)
    pub measure_keeps :
        (prev : Prev) (n : Bytes) (v : ℕ) → Keeps (During o laws prev n v) (measure prev.queue)

  module _ {prepare : M (Rig W) (Option ℕ)} {save : Option ℕ → M W Prev}
      {measure : Option ℕ → M (Rig W) ⊤} (parts : Parts prepare save measure) (q : Option ℕ)
      (n : Bytes) (g : Option ℕ → Bytes → ℕ) where
    -- What follows the saving of the settings.
    abbrev go_on : Option ℕ → Prev → M (Rig W) ⊤
    go_on q' prev = set_prev prev >>= λ _. measure q'

    -- The queue that the settings were saved of, if they were.
    abbrev pub IsQueue : Rig W → Type 0
    IsQueue s = (prev : Prev) → s.prev ≡ some prev → prev.queue ≡ q

    saved-Restorable :
        (s : Rig W) (q' : Option ℕ) (r : Result Prev × W)
        → ((m : Bytes) → Untouched o laws m (λ p. g p m) s)
        → Holds o laws q n (g q n) r.1
        → ((prev : Prev)
            → r.0 ≡ ok prev
            → (prev.queue ≡ q')
              × (prev.usecs ≡ g q' usecs_name)
              × (prev.max_frames ≡ g q' frames_name)
              × (prev.adaptive ≡ g q' rx_adaptive_name)
              × (r.1 ≡ s.world))
        → let s' = (after (go_on q') (r.0, record s { world = r.1 })).1 in
          IsQueue s' → Restorable o laws q n (g q) s'
    saved-Restorable s q' (ok prev, w) h held got is_queue =
        let (eq, eu, ef, ea, same) = got prev refl in
        let start = record s { world = w; prev = some prev } in
        let at_start : During o laws prev n (g q' n) start = (
          refl,
          λ t.
              subst (λ p. Holds o laws p n (g q' n) w) (sym eq)
                (subst (Holds o laws q' n (g q' n)) (sym same) ((h n).1 q')),
        ) in
        let kept =
          subst (λ p. Keeps (During o laws prev n (g q' n)) (measure p)) eq
            (parts.measure_keeps prev n (g q' n)) in
        let during = kept.keeps start at_start in
        let e = is_queue prev during.0 in
        let qe = sym eq ∙ e in
        saved prev during.0 e (eu ∙ ap (λ p. g p usecs_name) qe) (ef ∙ ap (λ p. g p frames_name) qe)
          (ea ∙ ap (λ p. g p rx_adaptive_name) qe)
          (λ t.
            subst (λ p. Holds o laws prev.queue n (g p n) (measure q' start).1.world) qe
              (during.1 t))
    saved-Restorable s q' (err e, w) h held got is_queue = unsaved (h n).0 held
    saved-Restorable s q' (ends j, w) h held got is_queue = unsaved (h n).0 held

    prepared-Restorable :
        (p : Result (Option ℕ) × Rig W)
        → ((m : Bytes) → Untouched o laws m (λ p. g p m) p.1)
        → let s' = (after (λ q'. lift (save q') >>= go_on q') p).1 in
          IsQueue s' → Restorable o laws q n (g q) s'
    prepared-Restorable (ok q', s) h is_queue =
        saved-Restorable s q' (save q' s.world) h
          ((parts.save_quiet q' q n (g q n)).keeps s.world ((h n).1 q))
          (λ prev e.
            let (eq, eu, ef, ea, same) =
              parts.save_ok q' s.world (save q' s.world).1 prev
                (ap (λ r. (r, (save q' s.world).1)) e) in
            (
              eq,
              eu ∙ ((h usecs_name).1 q').0,
              ef ∙ ((h frames_name).1 q').0,
              ea ∙ ((h rx_adaptive_name).1 q').0,
              same,
            ))
          is_queue
    prepared-Restorable (err e, s) h is_queue = unsaved (h n).0 ((h n).1 q)
    prepared-Restorable (ends j, s) h is_queue = unsaved (h n).0 ((h n).1 q)

  -- However such a test ends, a setting of the tested queue is what it was, where nothing was pending
  -- and every call of the cleanup succeeds.
  pub saving-restored :
      {prepare : M (Rig W) (Option ℕ)} {save : Option ℕ → M W Prev}
      {measure : Option ℕ → M (Rig W) ⊤}
      → Parts prepare save measure
      → (q : Option ℕ) (n : Bytes) (w w2 : W) (r : Result ⊤)
      → ((p : Option ℕ) (m : Bytes) → (laws p).staged w m ≡ (laws p).actual w m)
      → ((prev : Prev)
          → (saving prepare save measure (initially w)).1.prev ≡ some prev
          → prev.queue ≡ q)
      → finish o (saving prepare save measure (initially w)) ≡ (r, true, w2)
      → (laws q).actual w2 n ≡ (laws q).actual w n
  unfolding saving finish
  saving-restored {prepare} {save} {measure} parts q n w w2 r settled is_queue e =
      let g = λ (p : Option ℕ) (m : Bytes). (laws p).actual w m in
      (cleanup-restored o laws quiet q n (g q) (saving prepare save measure (initially w)).1 w2
        (prepared-Restorable parts q n g (prepare (initially w))
          (λ m.
            (parts.prepare_keeps m (λ p. g p m)).keeps (initially w)
              (refl, λ p. (refl, settled p m)))
          is_queue)
        (ap (λ x. (x.1, x.2)) e)).0
