-- ===== src/Phy/State.antt =====
-- net_drv_phy_saved_state of net-drv-ts/lib/net_drv_phy.h and the functions of
-- net-drv-ts/lib/net_drv_phy.c that save and restore it.

pub mod Write
pub mod Restore
pub mod RoundTrip
use net_drv_ts.Base.{
  ℕ, Bool, true, false, not, ◌&&◌, ◌||◌, ⊤, Option, none, some, List, [], ◌∷◌, Bytes, str_eq,
  bool_eq, ◌==◌, if◌then◌else◌, M, Result, ok, err, ends, pure, reads, jump, on_error, when, ◌>>=◌,
  ◌>>◌, TeErrno, is_enoent, is_eopnotsupp, test_skip, test_verdict,
}
use net_drv_ts.Phy.ModeName.{PhyConsts, parse_speed_duplex_mode}
use net_drv_ts.Phy.Config.{PhyOps}

pub record ModeInfo : Type 0 where
  pub name : Bytes
  pub advertised : Bool
  pub speed : ℕ
  pub duplex : ℕ

-- `modes` with `modes_num` is a list.
pub record SavedState : Type 0 where
  pub autoneg : ℕ
  pub speed_admin : ℕ
  pub duplex_admin : ℕ
  pub modes : List ModeInfo
  pub saved : Bool

abbrev pub zero_state : SavedState
zero_state = record { autoneg = 0; speed_admin = 0; duplex_admin = 0; modes = []; saved = false }

-- net_drv_phy_state_free(): the modes are freed and the structure is zeroed.
unfoldable pub state_free : SavedState → SavedState
state_free state = zero_state

-- net_drv_phy_state_find_mode_by_name()
unfoldable pub find_mode_by_name : List ModeInfo → Bytes → Option ModeInfo
find_mode_by_name [] name = none
find_mode_by_name (m ∷ ms) name = if str_eq m.name name then some m else find_mode_by_name ms name

module _ (k : PhyConsts) where
  -- net_drv_phy_is_link_mode()
  unfoldable pub is_link_mode : ModeInfo → Bool
  is_link_mode m = not (m.speed == k.speed_unknown) && not (m.duplex == k.duplex_unknown)

  unfoldable pub mode_info : Bytes → Bool → ModeInfo
  mode_info name advertised = elim (parse_speed_duplex_mode k name) [
    | none ↦ record {
      name = name;
      advertised = advertised;
      speed = k.speed_unknown;
      duplex = k.duplex_unknown;
    }
    | some (s, d) ↦ record { name = name; advertised = advertised; speed = s; duplex = d }
  ]

module _ {W : Type 0} (k : PhyConsts) (p : PhyOps W) where
  -- The loop over the handles of the modes.
  unfoldable pub save_modes : List ℕ → M W (List ModeInfo)
  save_modes [] = pure []
  save_modes (h ∷ hs) = do
    name ← reads (p.inst_name h)
    advertised ← reads (p.mode_adv_get name)
    rest ← save_modes hs
    pure (mode_info k name advertised ∷ rest)

  -- What the loop leaves in the state: a failure frees it.
  unfoldable pub save_found : SavedState → Result (List ModeInfo) → Result ⊤ × SavedState
  unfolding state_free
  save_found state (ok ms) = (ok tt, record state { modes = ms; saved = true })
  save_found state (err e) = (err e, state_free state)
  save_found state (ends j) = (ends j, state)

  -- The GETs in order. A failed one leaves what was stored before it.
  unfoldable pub save_with :
      Result ℕ → Result ℕ → Result ℕ → Result (List ℕ) → W → Result ⊤ × SavedState
  unfolding save_found
  save_with (err e) speed duplex handles w = (err e, zero_state)
  save_with (ends j) speed duplex handles w = (ends j, zero_state)
  save_with (ok a) (err e) duplex handles w = (err e, record zero_state { autoneg = a })
  save_with (ok a) (ends j) duplex handles w = (ends j, record zero_state { autoneg = a })
  save_with (ok a) (ok s) (err e) handles w =
      (err e, record zero_state { autoneg = a; speed_admin = s })
  save_with (ok a) (ok s) (ends j) handles w =
      (ends j, record zero_state { autoneg = a; speed_admin = s })
  save_with (ok a) (ok s) (ok d) (err e) w =
      (err e, record zero_state { autoneg = a; speed_admin = s; duplex_admin = d })
  save_with (ok a) (ok s) (ok d) (ends j) w =
      (ends j, record zero_state { autoneg = a; speed_admin = s; duplex_admin = d })
  save_with (ok a) (ok s) (ok d) (ok hs) w =
      save_found (record zero_state { autoneg = a; speed_admin = s; duplex_admin = d })
        (save_modes hs w).0

  -- net_drv_phy_state_save(): the status and the state that is filled in.
  unfoldable pub state_save : W → Result ⊤ × SavedState
  unfolding save_with
  state_save w =
      save_with (p.autoneg_get w) (p.speed_admin_get w) (p.duplex_admin_get w) (p.find_modes w) w

  -- net_drv_phy_state_save_or_skip(), on the status of `state_save`
  unfoldable pub skip_on : Result ⊤ → Result ⊤
  skip_on (ok x) = ok x
  skip_on (err e) =
      if is_enoent e.error || is_eopnotsupp e.error then ends test_skip else ends test_verdict
  skip_on (ends j) = ends j

  unfoldable pub state_save_or_skip : W → Result ⊤ × SavedState
  unfolding state_save skip_on
  state_save_or_skip w = let (r, st) = state_save w in (skip_on r, st)

  -- Whether some link mode is advertised otherwise than `wanted` says. The loop stops at the first
  -- such mode.
  unfoldable pub modes_differ : (ModeInfo → Bool) → List ModeInfo → M W Bool
  modes_differ wanted [] = pure false
  modes_differ wanted (m ∷ ms) =
      let rest = modes_differ wanted ms in
      if is_link_mode k m
      then (do
        current_advertised ← reads (p.mode_adv_get m.name)
        if bool_eq current_advertised (wanted m) then rest else pure true)
      else rest

  -- The loop that sets each link mode.
  unfoldable pub set_modes : (ModeInfo → Bool) → List ModeInfo → M W ⊤
  set_modes wanted [] = pure tt
  set_modes wanted (m ∷ ms) =
      let rest = set_modes wanted ms in
      if is_link_mode k m then p.mode_adv_set m.name (wanted m) >> rest else rest

  -- With autonegotiation off the speed and the duplex are compared too.
  unfoldable pub forced_differs : SavedState → M W Bool
  forced_differs state =
      if state.autoneg == k.autoneg_off
      then (do
        current_speed ← reads p.speed_admin_get
        current_duplex ← reads p.duplex_admin_get
        pure (
            not (current_speed == state.speed_admin) || not (current_duplex == state.duplex_admin)))
      else pure false

  unfoldable pub write_forced : SavedState → M W ⊤
  write_forced state =
      when (state.autoneg == k.autoneg_off)
        (p.speed_admin_set state.speed_admin >> p.duplex_admin_set state.duplex_admin)

  unfoldable pub write_state : SavedState → M W ⊤
  write_state state = do
    p.autoneg_set state.autoneg
    write_forced state
    set_modes (λ m. m.advertised) state.modes
    p.commit

  -- net_drv_phy_state_restore()
  unfoldable pub state_restore : SavedState → M W ⊤
  unfolding forced_differs
  state_restore state = do
    p.sync
    current_autoneg ← reads p.autoneg_get
    forced ← forced_differs state
    modes ← modes_differ (λ m. m.advertised) state.modes
    when (forced || not (current_autoneg == state.autoneg) || modes) (write_state state)
