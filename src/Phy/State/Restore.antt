-- ===== src/Phy/State/Restore.antt =====
-- What holds of the settings after net_drv_phy_state_restore().
use net_drv_ts.Base.{◌≡◌, refl, Bool, true, false, List, [], ◌∷◌, Bytes, ok, arith}
use net_drv_ts.Phy.ModeName.{PhyConsts}
use net_drv_ts.Phy.Config.{PhyOps, PhyConf, PhyLaws}
use net_drv_ts.Phy.State.{
  ModeInfo, SavedState, modes_differ, forced_differs, write_state, state_restore,
}
use net_drv_ts.Phy.State.Write.{Advertises, IsByName, advertise_all-Advertises, write_state-actual}

-- The settings are those saved: the autonegotiation, with it off the speed and the duplex, and the
-- flag of each link mode.
pub record Restored (k : PhyConsts) (st : SavedState) (c : PhyConf) : Type 0 where
  pub same_autoneg : c.autoneg ≡ st.autoneg
  pub same_speed : st.autoneg ≡ k.autoneg_off → c.speed_admin ≡ st.speed_admin
  pub same_duplex : st.autoneg ≡ k.autoneg_off → c.duplex_admin ≡ st.duplex_admin
  pub same_modes : Advertises k (λ m. m.advertised) st.modes c.advertised

module _ {W : Type 0} (k : PhyConsts) (p : PhyOps W) (laws : PhyLaws p) where
  open laws use {
    staged, actual, sync_lem, autoneg_get_lem, speed_get_lem, duplex_get_lem, mode_get_lem,
  }

  -- The comparing loops leave the world alone, and a loop that finds no difference has compared
  -- every link mode.
  pub modes_differ-world :
      (wanted : ModeInfo → Bool) (ms : List ModeInfo) (w : W) → (modes_differ k p wanted ms w).1 ≡ w
  unfolding modes_differ
  modes_differ-world wanted [] w = refl
  modes_differ-world wanted (m ∷ ms) w = ground (arith, modes_differ-world wanted ms w)

  pub modes_differ-Advertises :
      (wanted : ModeInfo → Bool) (ms : List ModeInfo) (w : W)
      → (modes_differ k p wanted ms w).0 ≡ ok false
      → Advertises k wanted ms (actual w).advertised
  unfolding modes_differ
  modes_differ-Advertises wanted [] w h = tt
  modes_differ-Advertises wanted (m ∷ ms) w h = ground (
    arith,
    modes_differ-Advertises wanted ms w,
    mode_get_lem m.name w true,
    mode_get_lem m.name w false,
  )

  forced_differs-world : (st : SavedState) (w : W) → (forced_differs k p st w).1 ≡ w
  unfolding forced_differs
  forced_differs-world st w = ground arith

  forced_differs-same :
      (st : SavedState) (w : W)
      → (forced_differs k p st w).0 ≡ ok false
      → (st.autoneg ≡ k.autoneg_off → (actual w).speed_admin ≡ st.speed_admin)
        × (st.autoneg ≡ k.autoneg_off → (actual w).duplex_admin ≡ st.duplex_admin)
  unfolding forced_differs
  forced_differs-same st w h = grind (arith, speed_get_lem w, duplex_get_lem w)

  -- A finished write makes the state's settings the ones in force.
  write_state-Restored :
      (g : Bytes → Bool) (st : SavedState) (w w' : W)
      → IsByName (λ m. m.advertised) g st.modes
      → write_state k p st w ≡ (ok tt, w')
      → Restored k st (actual w')
  write_state-Restored g st w w' names h = rw (write_state-actual k p laws st w w' h) (record {
    same_autoneg = refl;
    same_speed = λ off. ground arith;
    same_duplex = λ off. ground arith;
    same_modes =
        advertise_all-Advertises k (λ m. m.advertised) g st.modes (staged w).advertised names;
  })

  -- Where a restore that began with no pending command sequence succeeds, the settings in force
  -- are those of the saved state, whether or not anything had to be written. (The flag saved for a
  -- mode depends on its name alone: the modes of a saved state do not contradict each other.)
  pub state_restore-Restored :
      (g : Bytes → Bool) (st : SavedState) (w w' : W)
      → IsByName (λ m. m.advertised) g st.modes
      → state_restore k p st w ≡ (ok tt, w')
      → Restored k st (actual w')
  unfolding state_restore
  state_restore-Restored g st w w' names h =
      let v = (p.sync w).1 in
      grind (
        arith,
        autoneg_get_lem v,
        forced_differs-world st v,
        forced_differs-same st v,
        modes_differ-world (λ m. m.advertised) st.modes v,
        modes_differ-Advertises (λ m. m.advertised) st.modes v,
        write_state-Restored g st v w' names,
      )
