-- ===== src/Ethtool/Modes/Candidates.antt =====
-- The candidates of the test of fixed modes: common link modes, each pair of speed and duplex once.
use net_drv_ts.Base.{
  ℕ, ◌≡◌, ◌∙◌, refl, sym, Bool, true, false, not, ◌&&◌, ◌||◌, ⊤, List, [], ◌∷◌, ◌++◌, All, ◌==◌,
  if◌then◌else◌, arith,
}
use net_drv_ts.Phy.ModeName.{PhyConsts}
use net_drv_ts.Phy.State.{ModeInfo}
use net_drv_ts.Ethtool.Modes.{
  is_mode_pair_selected, is_candidate, find_candidates_from, find_common_mode_candidates,
}

-- The modes have pairwise different pairs of speed and duplex.
abbrev pub Distinct : List ModeInfo → Type 0
Distinct [] = ⊤
Distinct (m ∷ ms) = (is_mode_pair_selected ms m ≡ false) × Distinct ms

none_selected : (x : ModeInfo) → is_mode_pair_selected [] x ≡ false
unfolding is_mode_pair_selected
none_selected x = refl

selected-append :
    (ms ns : List ModeInfo) (x : ModeInfo)
    → is_mode_pair_selected (ms ++ ns) x
      ≡ (is_mode_pair_selected ms x || is_mode_pair_selected ns x)
unfolding is_mode_pair_selected
selected-append [] ns x = refl
selected-append (m ∷ ms) ns x = ground (arith, selected-append ms ns x)

one_selected :
    (m x : ModeInfo)
    → is_mode_pair_selected (m ∷ []) x ≡ (m.speed == x.speed && m.duplex == x.duplex)
unfolding is_mode_pair_selected
one_selected m x = ground arith

selected_one :
    (m : ModeInfo) (ms : List ModeInfo) (x : ModeInfo)
    → is_mode_pair_selected (m ∷ ms) x
      ≡ ((m.speed == x.speed && m.duplex == x.duplex) || is_mode_pair_selected ms x)
unfolding is_mode_pair_selected
selected_one m ms x = refl

pair_sym : (a b c d : ℕ) → (a == b && c == d) ≡ (b == a && d == c)
pair_sym a b c d = ground arith

Distinct-append :
    (ms : List ModeInfo) (x : ModeInfo)
    → Distinct ms
    → is_mode_pair_selected ms x ≡ false
    → Distinct (ms ++ x ∷ [])
Distinct-append [] x d h = (none_selected x, tt)
Distinct-append (m ∷ ms) x d h =
    let whole = sym (selected_one m ms x) ∙ h in
    (
      selected-append ms (x ∷ []) m
          ∙ ground
              (arith, d.0, whole, one_selected x m, pair_sym m.speed x.speed m.duplex x.duplex),
      Distinct-append ms x d.1 (ground (arith, whole)),
    )

All-append :
    (P : ModeInfo → Type 0) (ms : List ModeInfo) (x : ModeInfo)
    → All P ms
    → P x
    → All P (ms ++ x ∷ [])
All-append P [] x all h = (h, tt)
All-append P (m ∷ ms) x all h = (all.0, All-append P ms x all.1 h)

module _ (k : PhyConsts) where
  abbrev pub IsCandidate : List ModeInfo → ModeInfo → Type 0
  IsCandidate peers m = is_candidate k peers m ≡ true

  step_candidates :
      (peers : List ModeInfo) (m : ModeInfo) (found : List ModeInfo) (b c : Bool)
      → is_candidate k peers m ≡ b
      → is_mode_pair_selected found m ≡ c
      → Distinct found
      → All (IsCandidate peers) found
      → let r = (if b && not c then found ++ m ∷ [] else found) in
        Distinct r
        × All (IsCandidate peers) r
        × ((x : ModeInfo) → is_mode_pair_selected found x ≡ true → is_mode_pair_selected r x ≡ true)
        × (IsCandidate peers m → is_mode_pair_selected r m ≡ true)
  step_candidates peers m found true true candidate seen d all = (d, all, (λ x h. h), λ _. seen)
  step_candidates peers m found true false candidate fresh d all = (
    Distinct-append found m d fresh,
    All-append (IsCandidate peers) found m all candidate,
    (λ x h. ground (arith, selected-append found (m ∷ []) x, h)),
    λ _. ground (arith, selected-append found (m ∷ []) m, one_selected m m),
  )
  step_candidates peers m found false c other h d all =
      (d, all, (λ x y. y), λ y. absurd (cc (other, y)))

  find_from-candidates :
      (peers ms found : List ModeInfo)
      → Distinct found
      → All (IsCandidate peers) found
      → let r = find_candidates_from k peers ms found in
        Distinct r
        × All (IsCandidate peers) r
        × ((x : ModeInfo) → is_mode_pair_selected found x ≡ true → is_mode_pair_selected r x ≡ true)
        × All (λ m. IsCandidate peers m → is_mode_pair_selected r m ≡ true) ms
  unfolding find_candidates_from
  find_from-candidates peers [] found d all = (d, all, (λ x h. h), tt)
  find_from-candidates peers (m ∷ ms) found d all =
      let next =
        (if is_candidate k peers m && not (is_mode_pair_selected found m)
          then found ++ m ∷ []
          else found) in
      let (distinct, candidates, kept, covered) =
        step_candidates peers m found (is_candidate k peers m) (is_mode_pair_selected found m) refl
          refl d all in
      let (last, chosen, further, rest) = find_from-candidates peers ms next distinct candidates in
      (last, chosen, (λ x h. further x (kept x h)), ((λ c. further m (covered c)), rest))

  -- The candidates are common link modes, no two of them with the same speed and duplex, and every
  -- common link mode has the speed and the duplex of one of them.
  pub find_common_mode_candidates_complete :
      (iut_modes tst_modes : List ModeInfo)
      → let r = find_common_mode_candidates k iut_modes tst_modes in
        Distinct r
        × All (IsCandidate tst_modes) r
        × All (λ m. IsCandidate tst_modes m → is_mode_pair_selected r m ≡ true) iut_modes
  unfolding find_common_mode_candidates
  find_common_mode_candidates_complete iut_modes tst_modes =
      let (distinct, candidates, _, covered) = find_from-candidates tst_modes iut_modes [] tt tt in
      (distinct, candidates, covered)
