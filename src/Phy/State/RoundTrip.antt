-- ===== src/Phy/State/RoundTrip.antt =====
-- net_drv_phy_state_save(), and a restore after any changes.
use net_drv_ts.Base.{ℕ, ◌≡◌, Bool, true, false, List, [], ◌∷◌, Bytes, ok, err, arith, TeErrno}
use net_drv_ts.Phy.ModeName.{PhyConsts}
use net_drv_ts.Phy.Config.{PhyOps, PhyConf, PhyLaws}
use net_drv_ts.Phy.State.{ModeInfo, SavedState, mode_info, save_modes, state_save, state_restore}
use net_drv_ts.Phy.State.Write.{IsByName}
use net_drv_ts.Phy.State.Restore.{Restored, state_restore-Restored}

-- The state records the settings `c`.
pub record Records (st : SavedState) (c : PhyConf) : Type 0 where
  pub is_saved : st.saved ≡ true
  pub has_autoneg : st.autoneg ≡ c.autoneg
  pub has_speed : st.speed_admin ≡ c.speed_admin
  pub has_duplex : st.duplex_admin ≡ c.duplex_admin
  pub has_modes : IsByName (λ m. m.advertised) c.advertised st.modes

mode_info-fields :
    (k : PhyConsts) (name : Bytes) (b : Bool)
    → ((mode_info k name b).name ≡ name) × ((mode_info k name b).advertised ≡ b)
unfolding mode_info
mode_info-fields k name b = ground arith

module _ {W : Type 0} (k : PhyConsts) (p : PhyOps W) where
  -- A save that fails in the loop leaves the zeroed state, and one that fails earlier has no modes
  -- and is not marked as saved: there is nothing to free.
  pub state_save-failed :
      (w : W) (e : TeErrno) (st : SavedState)
      → state_save k p w ≡ (err e, st)
      → (st.modes ≡ []) × (st.saved ≡ false)
  unfolding state_save
  state_save-failed w e st h = ground arith

module _ {W : Type 0} (k : PhyConsts) (p : PhyOps W) (laws : PhyLaws p) where
  open laws use {actual, autoneg_get_lem, speed_get_lem, duplex_get_lem, mode_get_lem}

  save_modes-IsByName :
      (hs : List ℕ) (w : W) (ms : List ModeInfo)
      → (save_modes k p hs w).0 ≡ ok ms
      → IsByName (λ m. m.advertised) (actual w).advertised ms
  unfolding save_modes
  save_modes-IsByName [] w ms h = ground arith
  save_modes-IsByName (i ∷ hs) w ms h =
      grind (arith, save_modes-IsByName hs w, mode_get_lem, mode_info-fields)

  -- A successful save records the settings in force.
  pub state_save-Records :
      (w : W) (st : SavedState) → state_save k p w ≡ (ok tt, st) → Records st (actual w)
  unfolding state_save
  state_save-Records w st h =
      grind (arith, autoneg_get_lem w, speed_get_lem w, duplex_get_lem w, save_modes-IsByName)

  -- Whatever happened in between, a successful restore of a successfully saved state puts back
  -- the autonegotiation, with autonegotiation off the speed and the duplex, and the flag of each
  -- link mode.
  pub save-restore :
      (w0 w w' : W) (st : SavedState)
      → state_save k p w0 ≡ (ok tt, st)
      → state_restore k p st w ≡ (ok tt, w')
      → Restored k st (actual w') × Records st (actual w0)
  save-restore w0 w w' st saved restored =
      let rec : Records st (actual w0) = state_save-Records w0 st saved in
      (state_restore-Restored k p laws (actual w0).advertised st w w' rec.has_modes restored, rec)
