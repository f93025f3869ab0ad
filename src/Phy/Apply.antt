-- ===== src/Phy/Apply.antt =====
-- net_drv_phy_apply_autoneg_modes() and net_drv_phy_apply_fixed_mode() of
-- net-drv-ts/lib/net_drv_phy.c.
use net_drv_ts.Base.{
  ℕ, ◌≡◌, refl, Bool, false, not, ◌||◌, ⊤, Option, none, some, List, [], ◌∷◌, Bytes, str_eq, ◌==◌,
  M, ok, reads, when, value_or, ◌>>=◌, ◌>>◌, arith,
}
use net_drv_ts.Phy.ModeName.{PhyConsts}
use net_drv_ts.Phy.Config.{PhyOps, PhyLaws}
use net_drv_ts.Phy.State.{ModeInfo, SavedState, modes_differ, set_modes}
use net_drv_ts.Phy.State.Write.{IsByName, Advertises, advertise_all-Advertises, set_modes-staged}
use net_drv_ts.Phy.State.Restore.{modes_differ-world, modes_differ-Advertises}

-- The one or two modes to advertise; `none` is a NULL `mode2_name`.
unfoldable pub should_advertise_name : Bytes → Option Bytes → Bytes → Bool
should_advertise_name mode1 none name = str_eq name mode1
should_advertise_name mode1 (some mode2) name = str_eq name mode1 || str_eq name mode2

abbrev pub should_advertise : Bytes → Option Bytes → ModeInfo → Bool
should_advertise mode1 mode2 m = should_advertise_name mode1 mode2 m.name

module _ {W : Type 0} (k : PhyConsts) (p : PhyOps W) where
  unfoldable pub write_autoneg_modes : List ModeInfo → Bytes → Option Bytes → M W ⊤
  write_autoneg_modes ms mode1 mode2 = do
    set_modes k p (should_advertise mode1 mode2) ms
    p.autoneg_set k.autoneg_on
    p.commit

  unfoldable pub apply_autoneg_modes : SavedState → Bytes → Option Bytes → M W ⊤
  apply_autoneg_modes state mode1 mode2 = do
    current_autoneg ← reads p.autoneg_get
    modes ← modes_differ k p (should_advertise mode1 mode2) state.modes
    when (not (current_autoneg == k.autoneg_on) || modes)
        (write_autoneg_modes state.modes mode1 mode2)

  -- Each setting that differs from the one asked for is written.
  unfoldable pub write_fixed_mode : ℕ → ℕ → ℕ → ℕ → ℕ → M W ⊤
  write_fixed_mode current_autoneg current_speed current_duplex speed duplex = do
    when (not (current_autoneg == k.autoneg_off)) (p.autoneg_set k.autoneg_off)
    when (not (current_speed == speed)) (p.speed_admin_set speed)
    when (not (current_duplex == duplex)) (p.duplex_admin_set duplex)

  unfoldable pub apply_fixed_mode : ℕ → ℕ → M W ⊤
  apply_fixed_mode speed duplex = do
    current_autoneg ← reads p.autoneg_get
    current_speed ← reads p.speed_admin_get
    current_duplex ← reads p.duplex_admin_get
    write_fixed_mode current_autoneg current_speed current_duplex speed duplex
    when
        (not (current_autoneg == k.autoneg_off)
          || not (current_speed == speed)
          || not (current_duplex == duplex))
        p.commit

module _ {W : Type 0} (k : PhyConsts) (p : PhyOps W) (laws : PhyLaws p) where
  open laws use {
    staged, actual, autoneg_get_lem, speed_get_lem, duplex_get_lem, autoneg_set_lem, speed_set_lem,
    duplex_set_lem, commit_lem,
  }

  by_name :
      (mode1 : Bytes) (mode2 : Option Bytes) (ms : List ModeInfo)
      → IsByName (should_advertise mode1 mode2) (should_advertise_name mode1 mode2) ms
  by_name mode1 mode2 [] = tt
  by_name mode1 mode2 (m ∷ ms) = (refl, by_name mode1 mode2 ms)

  write_autoneg_modes-actual :
      (ms : List ModeInfo) (mode1 : Bytes) (mode2 : Option Bytes) (w w' : W)
      → write_autoneg_modes k p ms mode1 mode2 w ≡ (ok tt, w')
      → ((actual w').autoneg ≡ k.autoneg_on)
        × Advertises k (should_advertise mode1 mode2) ms (actual w').advertised
  unfolding write_autoneg_modes
  write_autoneg_modes-actual ms mode1 mode2 w w' h =
      let w1 = (set_modes k p (should_advertise mode1 mode2) ms w).1 in
      let w2 = (p.autoneg_set k.autoneg_on w1).1 in
      ground (
        arith,
        set_modes-staged k p laws (should_advertise mode1 mode2) ms w w1,
        autoneg_set_lem k.autoneg_on w1 w2,
        commit_lem w2 w',
        advertise_all-Advertises k (should_advertise mode1 mode2)
            (should_advertise_name mode1 mode2) ms (staged w).advertised (by_name mode1 mode2 ms),
      )

  -- Where `apply_autoneg_modes` succeeds, autonegotiation is on, and of the link modes of the
  -- state exactly the one or two named are advertised.
  pub apply_autoneg_modes-actual :
      (st : SavedState) (mode1 : Bytes) (mode2 : Option Bytes) (w w' : W)
      → apply_autoneg_modes k p st mode1 mode2 w ≡ (ok tt, w')
      → ((actual w').autoneg ≡ k.autoneg_on)
        × Advertises k (should_advertise mode1 mode2) st.modes (actual w').advertised
  unfolding apply_autoneg_modes
  apply_autoneg_modes-actual st mode1 mode2 w w' h = grind (
    arith,
    autoneg_get_lem w,
    modes_differ-world k p laws (should_advertise mode1 mode2) st.modes w,
    modes_differ-Advertises k p laws (should_advertise mode1 mode2) st.modes w,
    write_autoneg_modes-actual st.modes mode1 mode2 w w',
  )

  write_fixed_mode-staged :
      (a s d speed duplex : ℕ) (w w' : W)
      → (staged w).autoneg ≡ a
      → (staged w).speed_admin ≡ s
      → (staged w).duplex_admin ≡ d
      → write_fixed_mode k p a s d speed duplex w ≡ (ok tt, w')
      → ((staged w').autoneg ≡ k.autoneg_off)
        × ((staged w').speed_admin ≡ speed)
        × ((staged w').duplex_admin ≡ duplex)
  unfolding write_fixed_mode
  write_fixed_mode-staged a s d speed duplex w w' ea es ed h =
      let w1 = (when (not (a == k.autoneg_off)) (p.autoneg_set k.autoneg_off) w).1 in
      let w2 = (when (not (s == speed)) (p.speed_admin_set speed) w1).1 in
      ground (
        arith,
        autoneg_set_lem k.autoneg_off w w1,
        speed_set_lem speed w1 w2,
        duplex_set_lem duplex w2 w',
      )

  write_fixed_mode-same :
      (a s d speed duplex : ℕ) (w : W)
      → (not (a == k.autoneg_off) || not (s == speed) || not (d == duplex)) ≡ false
      → ((write_fixed_mode k p a s d speed duplex w).1 ≡ w)
        × (a ≡ k.autoneg_off)
        × (s ≡ speed)
        × (d ≡ duplex)
  unfolding write_fixed_mode
  write_fixed_mode-same a s d speed duplex w h = ground arith

  -- Where `apply_fixed_mode` began with no pending command sequence and succeeds, autonegotiation
  -- is off and the administrative speed and duplex are those asked for.
  pub apply_fixed_mode-actual :
      (speed duplex : ℕ) (w w' : W)
      → staged w ≡ actual w
      → apply_fixed_mode k p speed duplex w ≡ (ok tt, w')
      → ((actual w').autoneg ≡ k.autoneg_off)
        × ((actual w').speed_admin ≡ speed)
        × ((actual w').duplex_admin ≡ duplex)
  unfolding apply_fixed_mode
  apply_fixed_mode-actual speed duplex w w' idle h =
      let a = value_or 0 (p.autoneg_get w) in
      let s = value_or 0 (p.speed_admin_get w) in
      let d = value_or 0 (p.duplex_admin_get w) in
      let v = (write_fixed_mode k p a s d speed duplex w).1 in
      ground (
        arith,
        autoneg_get_lem w a,
        speed_get_lem w s,
        duplex_get_lem w d,
        write_fixed_mode-same a s d speed duplex w,
        write_fixed_mode-staged a s d speed duplex w v,
        commit_lem v w',
      )
