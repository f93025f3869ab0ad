-- ===== src/Ethtool/Modes/Preferred.antt =====
-- The preferred mode is one of the highest priority among the common modes, and the fallback one of
-- the highest priority below it.
use net_drv_ts.Base.{
  ℕ, suc, ◌≡◌, ◌∙◌, ◌⊎◌, inl, inr, refl, sym, Bool, true, false, none, some, ⊤, List, [], ◌∷◌, All,
  get_elem?, if◌then◌else◌, if_true, ok, ends, test_skip, test_verdict, arith,
}
use net_drv_ts.Phy.ModeName.{PhyConsts}
use net_drv_ts.Phy.State.{ModeInfo}
use net_drv_ts.Ethtool.Modes.{
  is_positive, pair_priority_cmp, priority_cmp, same_as, none_or_above, update_common_nodes,
  is_common, find_advertised_from, find_common_advertised_modes, choose_of, choose_common_modes,
}
use net_drv_ts.Ethtool.Modes.Priority.{
  rank, Found, Ordered, Covered, above_rank, update_common_nodes-Better,
}

every_place :
    {A : Type 0} (P : A → Type 0) (xs : List A)
    → ((i : ℕ) (x : A) → get_elem? xs i ≡ some x → P x)
    → All P xs
every_place P [] h = tt
every_place P (x ∷ xs) h = (h 0 x refl, every_place P xs (λ i y e. h (suc i) y e))

module _ (k : PhyConsts) where
  -- What is chosen has a property that all updates had.
  abbrev pub Both : (ModeInfo → Type 0) → Found k → Type 0
  Both P (none, none) = ⊤
  Both P (none, some f) = P f
  Both P (some p, none) = P p
  Both P (some p, some f) = P p × P f

  either_found :
      (P : ModeInfo → Type 0) (b : Bool) (q r : Found k)
      → Both P q
      → Both P r
      → Both P (if b then q else r)
  either_found P true q r h l = h
  either_found P false q r h l = l

  update_common_nodes-Both :
      (P : ModeInfo → Type 0) (m : ModeInfo) (q : Found k)
      → P m
      → Both P q
      → Both P (update_common_nodes k m q)
  unfolding update_common_nodes
  update_common_nodes-Both P m (none, none) h both = h
  update_common_nodes-Both P m (none, some f) h both =
      either_found P (same_as k m (some f)) (none, some f) (some m, some f) both (h, both)
  update_common_nodes-Both P m (some p, none) h both =
      either_found P (same_as k m (some p)) (some p, none) _ both
        (either_found P (none_or_above k m (some p)) (some m, some p) (some p, some m) (h, both)
          (both, h))
  update_common_nodes-Both P m (some p, some f) h both =
      either_found P (same_as k m (some p)) (some p, some f) _ both
        (either_found P (same_as k m (some f)) (some p, some f) _ both
          (either_found P (none_or_above k m (some p)) (some m, some p) _ (h, both.0)
            (either_found P (none_or_above k m (some f)) (some p, some m) (some p, some f)
              (both.0, h) both)))

  abbrev pub IsCommon : List ModeInfo → ModeInfo → Type 0
  IsCommon peers m = is_common k peers m ≡ true

  step_best :
      (P : ModeInfo → Type 0) (peers : List ModeInfo) (m : ModeInfo) (q : Found k) (b : Bool)
      → is_common k peers m ≡ b
      → P m
      → Ordered k q
      → Both (λ m. P m × IsCommon peers m) q
      → let r = (if b then update_common_nodes k m q else q) in
        Ordered k r
        × Both (λ m. P m × IsCommon peers m) r
        × ((x : ModeInfo) → Covered k x q → Covered k x r)
        × (IsCommon peers m → Covered k m r)
  step_best P peers m q true common here h both =
      let (next, covered, kept) = update_common_nodes-Better k m q h in
      (
        next,
        update_common_nodes-Both (λ m. P m × IsCommon peers m) m q (here, common) both,
        kept,
        λ _. covered,
      )
  step_best P peers m q false other here h both = (h, both, (λ x y. y), λ c. absurd (cc (other, c)))

  find_from-best :
      (P : ModeInfo → Type 0) (peers ms : List ModeInfo) (q : Found k)
      → All P ms
      → Ordered k q
      → Both (λ m. P m × IsCommon peers m) q
      → let r = find_advertised_from k peers ms q in
        Ordered k r
        × Both (λ m. P m × IsCommon peers m) r
        × ((x : ModeInfo) → Covered k x q → Covered k x r)
        × All (λ m. IsCommon peers m → Covered k m r) ms
  unfolding find_advertised_from
  find_from-best P peers [] q all h both = (h, both, (λ x y. y), tt)
  find_from-best P peers (m ∷ ms) q all h both =
      let next = (if is_common k peers m then update_common_nodes k m q else q) in
      let (ordered, chosen, kept, covered) =
        step_best P peers m q (is_common k peers m) refl all.0 h both in
      let (last, best, further, rest) = find_from-best P peers ms next all.1 ordered chosen in
      (last, best, (λ x y. further x (kept x y)), ((λ c. further m (covered c)), rest))

  abbrev pub Among : List ModeInfo → ModeInfo → Type 0
  Among ms m = (i : ℕ) × (get_elem? ms i ≡ some m)

  -- The modes that are chosen are common ones; the fallback is below the preferred mode, and there
  -- is no fallback without it; every common mode has the preferred one's priority or is not above
  -- the fallback, so that without a fallback all common modes have the same priority.
  pub find_common_advertised_modes-best :
      (iut_modes tst_modes : List ModeInfo)
      → let r = find_common_advertised_modes k iut_modes tst_modes in
        Ordered k r
        × Both (λ m. Among iut_modes m × IsCommon tst_modes m) r
        × All (λ m. IsCommon tst_modes m → Covered k m r) iut_modes
  unfolding find_common_advertised_modes
  find_common_advertised_modes-best iut_modes tst_modes =
      let (ordered, chosen, _, covered) =
        find_from-best (Among iut_modes) tst_modes iut_modes (none, none)
          (every_place (Among iut_modes) iut_modes (λ i m e. (i, e))) tt tt in
      (ordered, chosen, covered)

  choose_of-lem :
      (r : Found k)
      → Ordered k r
      → ((p : ModeInfo) × (f : ModeInfo) × (choose_of k r ≡ ok (p, f)) × (r ≡ (some p, some f)))
        ⊎ ((choose_of k r ≡ ends test_skip)
            × ((m n : ModeInfo) → Covered k m r → Covered k n r → rank k m ≡ rank k n))
  unfolding choose_of pair_priority_cmp
  choose_of-lem (none, none) h = inr (refl, λ m n x y. absurd (cc x))
  choose_of-lem (none, some f) h = absurd (cc h)
  choose_of-lem (some p, none) h = inr (refl, λ m n x y. x ∙ sym y)
  choose_of-lem (some p, some f) h =
      let above : is_positive (priority_cmp k p f) ≡ true =
        above_rank k p.speed p.duplex f.speed f.duplex k.duplex_full ∙ ground arith in
      inl (p, f, if_true (ok (p, f)) (ends test_verdict) above, refl)

  -- The test of advertised modes goes on with the two modes that were found, of which the preferred
  -- one is above the fallback, so that the verdict after it is never given; or it is skipped, and
  -- all modes that both sides advertise have the same priority.
  pub choose_common_modes-best :
      (iut_modes tst_modes : List ModeInfo)
      → let r = find_common_advertised_modes k iut_modes tst_modes in
        Ordered k r
        × Both (λ m. Among iut_modes m × IsCommon tst_modes m) r
        × All (λ m. IsCommon tst_modes m → Covered k m r) iut_modes
        × (((p : ModeInfo) × (f : ModeInfo) × (choose_common_modes k iut_modes tst_modes
                ≡ ok (p, f))
              × (r ≡ (some p, some f)))
            ⊎ ((choose_common_modes k iut_modes tst_modes ≡ ends test_skip)
                × ((m n : ModeInfo) → Covered k m r → Covered k n r → rank k m ≡ rank k n)))
  unfolding choose_common_modes
  choose_common_modes-best iut_modes tst_modes =
      let (ordered, chosen, covered) = find_common_advertised_modes-best iut_modes tst_modes in
      (
        ordered,
        chosen,
        covered,
        choose_of-lem (find_common_advertised_modes k iut_modes tst_modes) ordered,
      )
