-- ===== src/Prologue/Tags.antt =====
-- The other tags of net-drv-ts/prologue.c: the driver, TUN support, the requested link settings and
-- the number of processors.
use net_drv_ts.Base.{
  ℕ, ◌++◌, not, ◌||◌, none, some, Option, ⊤, [], ◌∷◌, Bytes, codes, if◌then◌else◌, int_eq, M,
  Result, ok, err, ends, pure, reads, check_rc, when, ◌>>=◌, ◌>>◌, is_enoent, is_enodev,
  is_eopnotsupp,
}
use net_drv_ts.Library.Link.{
  autoneg, duplex, speed, LinkNames, LinkOps, get_phy_local_param, phy_autoneg_str2id,
  phy_duplex_str2id, phy_speed_str2id,
}

-- `tapi_tags_add_tag` (a tag without a value is `none`), the driver of the agent, and the calls of
-- one RPC server; a file that cannot be opened gives the errno of the agent.
pub record TagOps (W : Type 0) : Type 0 where
  pub get_ta_driver : W → Result (Option Bytes)
  pub open_tun : M W ℕ
  pub close : ℕ → M W ⊤
  pub all_threads : W → Result ℕ
  pub fmt_zu : ℕ → Bytes
  pub add_tag : Bytes → Option Bytes → M W ⊤

module _ {W : Type 0} (o : TagOps W) where
  unfoldable pub tag_of_driver : Bytes → Option Bytes → M W ⊤
  tag_of_driver prefix none = pure tt
  tag_of_driver prefix (some []) = pure tt
  tag_of_driver prefix (some (c ∷ cs)) = o.add_tag (prefix ++ c ∷ cs) none

  unfoldable pub add_driver_tag : Bytes → M W ⊤
  unfolding tag_of_driver
  add_driver_tag prefix = do drv_name ← reads o.get_ta_driver; tag_of_driver prefix drv_name

  -- What follows the try to open /dev/net/tun
  unfoldable pub after_open : Bytes → Result ℕ × W → Result ⊤ × W
  after_open prefix (ok fd, w) = o.close fd w
  after_open prefix (err e, w) =
      if is_enoent e.error || is_enodev e.error || is_eopnotsupp e.error
      then o.add_tag (prefix ++ codes "no-tun") none w
      else (err e, w)
  after_open prefix (ends j, w) = (ends j, w)

  unfoldable pub add_tun_support_tag : Bytes → M W ⊤
  unfolding after_open
  add_tun_support_tag prefix w = after_open prefix (o.open_tun w)

  unfoldable pub add_cpus_tag : Bytes → M W ⊤
  add_cpus_tag prefix = do
    cpus ← check_rc (reads o.all_threads)
    check_rc (o.add_tag (prefix ++ codes "-cpus") (some (o.fmt_zu cpus)))

  abbrev pub or_empty : Option Bytes → Bytes
  or_empty none = []
  or_empty (some s) = s

  -- add_local_phy_tags(), on the local parameters of Library.Link
  unfoldable pub add_local_phy_tags : LinkNames → LinkOps W → Bytes → M W ⊤
  add_local_phy_tags k l prefix = do
    autoneg_str ← check_rc (reads (get_phy_local_param k l autoneg))
    duplex_str ← check_rc (reads (get_phy_local_param k l duplex))
    speed_str ← check_rc (reads (get_phy_local_param k l speed))
    a ← reads (λ _. phy_autoneg_str2id k l autoneg_str)
    d ← reads (λ _. phy_duplex_str2id k l duplex_str)
    s ← reads (λ _. phy_speed_str2id k l speed_str)
    when (not (int_eq a k.autoneg_unknown))
        (check_rc (o.add_tag (prefix ++ codes "phy-autoneg-" ++ or_empty autoneg_str) none))
    when (not (int_eq d k.duplex_unknown))
        (check_rc (o.add_tag (prefix ++ codes "phy-duplex-" ++ or_empty duplex_str) none))
    when (not (int_eq s k.speed_unknown)) (
        check_rc
          (o.add_tag (prefix ++ codes "phy-speed-" ++ or_empty speed_str ++ codes "Mbps") none))
