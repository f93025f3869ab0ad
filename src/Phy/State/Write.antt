-- ===== src/Phy/State/Write.antt =====
-- What a complete sequence of SETs and the commit leave in force.
use net_drv_ts.Base.{
  ◌≡◌, sym, ◌∙◌, Bool, true, false, List, [], ◌∷◌, Bytes, str_eq_refl, eq_of_str_eq, ◌==◌,
  if◌then◌else◌, ok, arith, All,
}
use net_drv_ts.Phy.ModeName.{PhyConsts}
use net_drv_ts.Phy.Config.{PhyOps, PhyConf, PhyLaws, advertise}
use net_drv_ts.Phy.State.{ModeInfo, SavedState, is_link_mode, set_modes, write_forced, write_state}

-- The flags after the loop that sets each link mode.
abbrev pub advertise_all :
    PhyConsts → (ModeInfo → Bool) → List ModeInfo → (Bytes → Bool) → Bytes → Bool
advertise_all k wanted [] f = f
advertise_all k wanted (m ∷ ms) f =
    advertise_all k wanted ms (if is_link_mode k m then advertise m.name (wanted m) f else f)

-- Each link mode of the list has the flag that `wanted` gives it.
abbrev pub Advertises : PhyConsts → (ModeInfo → Bool) → List ModeInfo → (Bytes → Bool) → Type 0
Advertises k wanted ms f = All (λ m. is_link_mode k m ≡ true → f m.name ≡ wanted m) ms

-- The flag wanted for a mode depends on its name alone.
abbrev pub IsByName : (ModeInfo → Bool) → (Bytes → Bool) → List ModeInfo → Type 0
IsByName wanted g ms = All (λ m. wanted m ≡ g m.name) ms

-- A name keeps a flag that agrees with `g`.
advertise_all-Keeps :
    (k : PhyConsts) (wanted : ModeInfo → Bool) (g : Bytes → Bool) (ms : List ModeInfo)
    (f : Bytes → Bool) (n : Bytes)
    → IsByName wanted g ms
    → f n ≡ g n
    → advertise_all k wanted ms f n ≡ g n
advertise_all-Keeps k wanted g [] f n h e = e
advertise_all-Keeps k wanted g (m ∷ ms) f n h e =
    advertise_all-Keeps k wanted g ms _ n h.1 (step (is_link_mode k m))
  where
    step : (b : Bool) → (if b then advertise m.name (wanted m) f else f) n ≡ g n
    step true = ground (arith, eq_of_str_eq m.name n, h.0)
    step false = e

pub advertise_all-Advertises :
    (k : PhyConsts) (wanted : ModeInfo → Bool) (g : Bytes → Bool) (ms : List ModeInfo)
    (f : Bytes → Bool)
    → IsByName wanted g ms
    → Advertises k wanted ms (advertise_all k wanted ms f)
advertise_all-Advertises k wanted g [] f h = tt
advertise_all-Advertises k wanted g (m ∷ ms) f h =
    (first (is_link_mode k m), advertise_all-Advertises k wanted g ms _ h.1)
  where
    first :
        (b : Bool)
        → b ≡ true
        → advertise_all k wanted ms (if b then advertise m.name (wanted m) f else f) m.name
          ≡ wanted m
    first true e =
        advertise_all-Keeps k wanted g ms _ m.name h.1 (rw (str_eq_refl m.name) h.0) ∙ sym h.0
    first false e = absurd (cc)

module _ {W : Type 0} (k : PhyConsts) (p : PhyOps W) (laws : PhyLaws p) where
  open laws use {
    staged, actual, mode_set_lem, autoneg_set_lem, speed_set_lem, duplex_set_lem, commit_lem,
  }

  pub set_modes-staged :
      (wanted : ModeInfo → Bool) (ms : List ModeInfo) (w w' : W)
      → set_modes k p wanted ms w ≡ (ok tt, w')
      → staged w'
        ≡ record (staged w) { advertised = advertise_all k wanted ms (staged w).advertised }
  unfolding set_modes
  set_modes-staged wanted [] w w' h = ground arith
  set_modes-staged wanted (m ∷ ms) w w' h =
      let v = (p.mode_adv_set m.name (wanted m) w).1 in
      ground (
        arith,
        mode_set_lem m.name (wanted m) w v,
        set_modes-staged wanted ms v w',
        set_modes-staged wanted ms w w',
      )

  -- What the writing half of a restore leaves in force.
  abbrev pub written : SavedState → PhyConf → PhyConf
  written st c = record {
    autoneg = st.autoneg;
    speed_admin = if st.autoneg == k.autoneg_off then st.speed_admin else c.speed_admin;
    duplex_admin = if st.autoneg == k.autoneg_off then st.duplex_admin else c.duplex_admin;
    advertised = advertise_all k (λ m. m.advertised) st.modes c.advertised;
  }

  write_forced-staged :
      (st : SavedState) (w w' : W)
      → write_forced k p st w ≡ (ok tt, w')
      → staged w' ≡ record (staged w) {
        speed_admin =
            if st.autoneg == k.autoneg_off then st.speed_admin else (staged w).speed_admin;
        duplex_admin =
            if st.autoneg == k.autoneg_off then st.duplex_admin else (staged w).duplex_admin;
      }
  unfolding write_forced
  write_forced-staged st w w' h =
      let v = (p.speed_admin_set st.speed_admin w).1 in
      ground (arith, speed_set_lem st.speed_admin w v, duplex_set_lem st.duplex_admin v w')

  pub write_state-actual :
      (st : SavedState) (w w' : W)
      → write_state k p st w ≡ (ok tt, w')
      → actual w' ≡ written st (staged w)
  unfolding write_state
  write_state-actual st w w' h =
      let w1 = (p.autoneg_set st.autoneg w).1 in
      let w2 = (write_forced k p st w1).1 in
      let w3 = (set_modes k p (λ m. m.advertised) st.modes w2).1 in
      ground (
        arith,
        autoneg_set_lem st.autoneg w w1,
        write_forced-staged st w1 w2,
        set_modes-staged (λ m. m.advertised) st.modes w2 w3,
        commit_lem w3 w',
      )
