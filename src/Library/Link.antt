-- ===== src/Library/Link.antt =====
-- net_drv_set_phy_link() of net-drv-ts/lib/net_drv_ts.c, with the reading of the local parameters
-- and their conversions: what /local:<ta>/phy: asks for is set and committed.
pub mod Applied
mod Tests
use net_drv_ts.Base.{
  ℕ, ◌≡◌, ◌∙◌, ◌⊎◌, inl, inr, refl, ap, sym, Bool, true, false, not, ◌&&◌, ◌||◌, none, some, Option,
  ⊤, [], ◌∷◌, Bytes, ◌==◌, if◌then◌else◌, ℤ, pos, negsuc, is_negative, int_eq, is_cs_enoent, M,
  Result, ok, err, ends, test_fail, pure, jump, reads, check_rc, when, ◌>>=◌, ◌>>◌, >>=-eq-ok,
  check_read>>=-eq-ok, reads>>=-eq-ok, check_rc-eq-ok, Bool-cases, arith,
}

pub data Setting : Type 0 where
  autoneg duplex speed : Setting

-- The conversions of TAPI, and its values for unknown settings.
pub record LinkNames : Type 0 where
  pub autoneg_str2id : Bytes → ℤ
  pub duplex_str2id : Bytes → ℤ
  pub speed_str2id : Bytes → ℤ
  pub autoneg_unknown : ℤ
  pub duplex_unknown : ℤ
  pub speed_unknown : ℤ

-- `cfg_get_instance_string_fmt` of a local parameter, and `tapi_cfg_phy_*` of one interface.
pub record LinkOps (W : Type 0) : Type 0 where
  pub local_param : Setting → W → Result Bytes
  pub set : Setting → ℤ → M W ⊤
  pub commit : M W ⊤

module _ {W : Type 0} (k : LinkNames) (o : LinkOps W) where
  -- What an answer of the configuration tree gives: the value, or NULL where there is none.
  unfoldable pub or_null : Result Bytes → Result (Option Bytes)
  or_null (ok value) = ok (some value)
  or_null (err e) = if is_cs_enoent e then ok none else err e
  or_null (ends j) = ends j

  abbrev pub get_phy_local_param : Setting → W → Result (Option Bytes)
  get_phy_local_param s w = or_null (o.local_param s w)

  unfoldable pub phy_autoneg_str2id : Option Bytes → Result ℤ
  phy_autoneg_str2id none = ok k.autoneg_unknown
  phy_autoneg_str2id (some []) = ok k.autoneg_unknown
  phy_autoneg_str2id (some (c ∷ cs)) =
      let id = k.autoneg_str2id (c ∷ cs) in if is_negative id then ends test_fail else ok id

  unfoldable pub phy_duplex_str2id : Option Bytes → Result ℤ
  phy_duplex_str2id none = ok k.duplex_unknown
  phy_duplex_str2id (some []) = ok k.duplex_unknown
  phy_duplex_str2id (some (c ∷ cs)) =
      let id = k.duplex_str2id (c ∷ cs) in if is_negative id then ends test_fail else ok id

  unfoldable pub phy_speed_str2id : Option Bytes → Result ℤ
  phy_speed_str2id none = ok k.speed_unknown
  phy_speed_str2id (some []) = ok k.speed_unknown
  phy_speed_str2id (some (c ∷ cs)) =
      let id = k.speed_str2id (c ∷ cs) in if int_eq id (pos 0) then ends test_fail else ok id

  -- A setting that is known is set; an error ends the test.
  unfoldable pub set_known : Setting → ℤ → ℤ → M W ⊤
  set_known s id unknown = when (not (int_eq id unknown)) (check_rc (o.set s id))

  -- The three conversions have been made; the commit follows a SET only.
  unfoldable pub set_link : ℤ → ℤ → ℤ → M W ⊤
  unfolding set_known
  set_link a d s = do
    set_known autoneg a k.autoneg_unknown
    set_known duplex d k.duplex_unknown
    set_known speed s k.speed_unknown
    when
        (not (int_eq a k.autoneg_unknown)
          || not (int_eq d k.duplex_unknown)
          || not (int_eq s k.speed_unknown))
        o.commit

  unfoldable pub set_phy_link : M W ⊤
  unfolding set_link
  set_phy_link = do
    autoneg_str ← check_rc (reads (get_phy_local_param autoneg))
    duplex_str ← check_rc (reads (get_phy_local_param duplex))
    speed_str ← check_rc (reads (get_phy_local_param speed))
    a ← reads (λ _. phy_autoneg_str2id autoneg_str)
    d ← reads (λ _. phy_duplex_str2id duplex_str)
    s ← reads (λ _. phy_speed_str2id speed_str)
    set_link a d s
