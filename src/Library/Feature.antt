-- ===== src/Library/Feature.antt =====
-- Interface features: net_drv_req_if_feature_configurable(), net_drv_req_if_feature_change(),
-- net_drv_set_if_feature_gen() and its two callers in net-drv-ts/lib/net_drv_ts.c.
use net_drv_ts.Base.{
  ℕ, ◌≡◌, ◌≢◌, ◌⊎◌, ◌↔◌, inl, inr, refl, Bool, true, false, not, ◌&&◌, ◌||◌, ⊤, ◌==◌, if◌then◌else◌,
  M, Result, ok, ends, test_skip, pure, jump, reads, check_rc, ◌>>=◌, ◌>>◌, arith,
}

-- `tapi_cfg_if_feature_*` for one feature of one interface. A status is an `int`, compared only.
pub record FeatureOps (W : Type 0) : Type 0 where
  pub is_present : W → Result Bool
  pub is_readonly : W → Result Bool
  pub get : W → Result ℕ
  pub set : ℕ → M W ⊤

module _ {W : Type 0} (o : FeatureOps W) where
  unfoldable pub req_if_feature_configurable : M W Bool
  req_if_feature_configurable = do
    present ← check_rc (reads o.is_present)
    readonly ← (if present then check_rc (reads o.is_readonly) else pure false)
    pure (present && not readonly)

  unfoldable pub req_if_feature_change : M W ⊤
  req_if_feature_change = do
    present ← check_rc (reads o.is_present)
    (if present then pure tt else jump test_skip)
    readonly ← check_rc (reads o.is_readonly)
    (if readonly then (do status ← check_rc (reads o.get); jump test_skip) else pure tt)

  -- The feature is present and differs from the request.
  unfoldable pub change_feature : ℕ → Bool → M W ⊤
  change_feature req_status fine_if_impossible = do
    readonly ← check_rc (reads o.is_readonly)
    (if readonly
        then (if fine_if_impossible then pure tt else jump test_skip)
        else check_rc (o.set req_status))

  unfoldable pub set_if_feature_gen : ℕ → Bool → M W ⊤
  unfolding change_feature
  set_if_feature_gen req_status fine_if_impossible = do
    present ← check_rc (reads o.is_present)
    (if present
        then (do
          status ← check_rc (reads o.get)
          if status == req_status then pure tt else change_feature req_status fine_if_impossible)
        else (if req_status == 0 || fine_if_impossible then pure tt else jump test_skip))

  unfoldable pub set_if_feature : ℕ → M W ⊤
  unfolding set_if_feature_gen
  set_if_feature req_status = set_if_feature_gen req_status false

  unfoldable pub try_set_if_feature : ℕ → M W ⊤
  unfolding set_if_feature_gen
  try_set_if_feature req_status = set_if_feature_gen req_status true

  -- `req_if_feature_change` lets the test go on exactly where `req_if_feature_configurable`
  -- answers that the feature can be changed, and neither changes anything.
  pub req_if_feature_change_iff :
      (w : W)
      → (req_if_feature_change w ≡ (ok tt, w)) ↔ (req_if_feature_configurable w ≡ (ok true, w))
  unfolding req_if_feature_change req_if_feature_configurable
  req_if_feature_change_iff w = ((λ h. ground arith), (λ h. ground arith))

  -- The status that was asked for is in force, or the feature is not there and was to be disabled.
  abbrev pub HasStatus : ℕ → W → Type 0
  HasStatus req w = (o.get w ≡ ok req) ⊎ ((o.is_present w ≡ ok false) × (req ≡ 0))

  -- Where `set_if_feature` lets the test go on, the requested status is in force, or the feature
  -- is absent and was to be disabled: it never passes over a feature that it could not set.
  pub set_if_feature-HasStatus :
      ((v : ℕ) (w w' : W) → o.set v w ≡ (ok tt, w') → o.get w' ≡ ok v)
      → (req : ℕ) (w w' : W) → set_if_feature req w ≡ (ok tt, w')
      → HasStatus req w'
  unfolding set_if_feature
  set_if_feature-HasStatus effective req w w' h = grind (arith, effective)

  -- A request for a feature that is present, not of the requested status and read-only skips
  -- the test when it is strict, and otherwise leaves all as it is and lets the test go on.
  pub set_if_feature_readonly :
      (req status : ℕ) (w : W)
      → o.is_present w ≡ ok true
      → o.get w ≡ ok status
      → status ≢ req
      → o.is_readonly w ≡ ok true
      → (set_if_feature req w ≡ (ends test_skip, w)) × (try_set_if_feature req w ≡ (ok tt, w))
  unfolding set_if_feature try_set_if_feature
  set_if_feature_readonly req status w p s ne r = (ground arith, ground arith)

  -- Where the configuration tree answers and a SET of a feature that may be written succeeds,
  -- `try_set_if_feature` always lets the test go on, and the requested status is in force unless
  -- the feature is absent or read-only.
  pub try_set_if_feature_total :
      (req status : ℕ) (present readonly : Bool) (w w' : W)
      → o.is_present w ≡ ok present
      → o.get w ≡ ok status
      → o.is_readonly w ≡ ok readonly
      → o.set req w ≡ (ok tt, w')
      → o.get w' ≡ ok req
      → ((try_set_if_feature req w).0 ≡ ok tt)
        × ((present ≡ false) ⊎ (readonly ≡ true) ⊎ (o.get (try_set_if_feature req w).1 ≡ ok req))
  unfolding try_set_if_feature
  try_set_if_feature_total req status false readonly w w' p s r e g = (ground arith, inl refl)
  try_set_if_feature_total req status true true w w' p s r e g = (ground arith, inr (inl refl))
  try_set_if_feature_total req status true false w w' p s r e g =
      (ground arith, inr (inr (ground arith)))
