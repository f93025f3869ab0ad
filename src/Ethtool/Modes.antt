-- ===== src/Ethtool/Modes.antt =====
-- The choice of link modes in two tests of net-drv-ts/ethtool: find_common_advertised_modes() of
-- autoneg_advertise.c, with the priorities, and find_common_mode_candidates() of link_fixed_mode.c.
pub mod Priority
pub mod Preferred
pub mod Candidates
mod Tests
use net_drv_ts.Base.{
  ℕ, Bool, true, false, not, ◌&&◌, ◌||◌, none, some, Option, List, [], ◌∷◌, ◌++◌, ◌==◌, ltb,
  if◌then◌else◌, ℤ, pos, negsuc, int_eq, Result, ok, ends, test_skip, test_verdict,
}
use net_drv_ts.Phy.ModeName.{PhyConsts}
use net_drv_ts.Phy.State.{ModeInfo, is_link_mode, find_mode_by_name}

abbrev pub is_positive : ℤ → Bool
is_positive (pos n) = ltb 0 n
is_positive (negsuc _) = false

-- link_fixed_mode.c
unfoldable pub is_mode_pair_selected : List ModeInfo → ModeInfo → Bool
is_mode_pair_selected [] mode = false
is_mode_pair_selected (m ∷ ms) mode =
    (m.speed == mode.speed && m.duplex == mode.duplex) || is_mode_pair_selected ms mode

module _ (k : PhyConsts) where
  -- The speeds of link modes are at most INT_MAX, so that they are ordered as `int` values are.
  unfoldable pub pair_priority_cmp : ℕ → ℕ → ℕ → ℕ → ℤ
  pair_priority_cmp speed1 duplex1 speed2 duplex2 =
      if not (speed1 == speed2)
      then (if ltb speed2 speed1 then pos 1 else negsuc 0)
      else if not (duplex1 == duplex2)
      then (if duplex1 == k.duplex_full
          then pos 1
          else if duplex2 == k.duplex_full
          then negsuc 0
          else pos 0)
      else pos 0

  abbrev pub priority_cmp : ModeInfo → ModeInfo → ℤ
  priority_cmp a b = pair_priority_cmp a.speed a.duplex b.speed b.duplex

  -- The tests of a mode against one that was chosen before, if any
  abbrev pub same_as : ModeInfo → Option ModeInfo → Bool
  same_as m none = false
  same_as m (some n) = int_eq (priority_cmp m n) (pos 0)

  abbrev pub none_or_above : ModeInfo → Option ModeInfo → Bool
  none_or_above m none = true
  none_or_above m (some n) = is_positive (priority_cmp m n)

  -- A new preferred mode makes the one before it the fallback.
  abbrev pub prefer :
      ModeInfo → Option ModeInfo → Option ModeInfo → Option ModeInfo × Option ModeInfo
  prefer m none fallback = (some m, fallback)
  prefer m (some p) fallback = (some m, some p)

  -- The preferred mode and the fallback, `none` before there is one
  unfoldable pub update_common_nodes :
      ModeInfo → Option ModeInfo × Option ModeInfo → Option ModeInfo × Option ModeInfo
  unfolding pair_priority_cmp
  update_common_nodes m (pref, fallback) =
      if same_as m pref
      then (pref, fallback)
      else if same_as m fallback
      then (pref, fallback)
      else if none_or_above m pref
      then prefer m pref fallback
      else if none_or_above m fallback
      then (pref, some m)
      else (pref, fallback)

  abbrev pub is_advertised : Option ModeInfo → Bool
  is_advertised none = false
  is_advertised (some m) = is_link_mode k m && m.advertised

  -- A link mode that both sides advertise
  abbrev pub is_common : List ModeInfo → ModeInfo → Bool
  is_common peers m = is_advertised (some m) && is_advertised (find_mode_by_name peers m.name)

  unfoldable pub find_advertised_from :
      List ModeInfo
      → List ModeInfo
      → Option ModeInfo × Option ModeInfo
      → Option ModeInfo × Option ModeInfo
  unfolding update_common_nodes
  find_advertised_from peers [] found = found
  find_advertised_from peers (m ∷ ms) found =
      find_advertised_from peers ms
        (if is_common peers m then update_common_nodes m found else found)

  -- The modes, and `true` where there are both
  unfoldable pub find_common_advertised_modes :
      List ModeInfo → List ModeInfo → Option ModeInfo × Option ModeInfo
  unfolding find_advertised_from
  find_common_advertised_modes iut_modes tst_modes =
      find_advertised_from tst_modes iut_modes (none, none)

  -- What main() of autoneg_advertise.c makes of them
  unfoldable pub choose_of : Option ModeInfo × Option ModeInfo → Result (ModeInfo × ModeInfo)
  unfolding pair_priority_cmp
  choose_of (none, _) = ends test_skip
  choose_of (some pref, none) = ends test_skip
  choose_of (some pref, some fallback) =
      if is_positive (priority_cmp pref fallback) then ok (pref, fallback) else ends test_verdict

  unfoldable pub choose_common_modes : List ModeInfo → List ModeInfo → Result (ModeInfo × ModeInfo)
  unfolding choose_of find_common_advertised_modes
  choose_common_modes iut_modes tst_modes =
      choose_of (find_common_advertised_modes iut_modes tst_modes)

  abbrev pub is_link : Option ModeInfo → Bool
  is_link none = false
  is_link (some m) = is_link_mode k m

  abbrev pub is_candidate : List ModeInfo → ModeInfo → Bool
  is_candidate peers m = is_link (some m) && is_link (find_mode_by_name peers m.name)

  unfoldable pub find_candidates_from :
      List ModeInfo → List ModeInfo → List ModeInfo → List ModeInfo
  unfolding is_mode_pair_selected
  find_candidates_from peers [] found = found
  find_candidates_from peers (m ∷ ms) found = find_candidates_from peers ms (
      if is_candidate peers m && not (is_mode_pair_selected found m)
      then found ++ m ∷ []
      else found)

  unfoldable pub find_common_mode_candidates : List ModeInfo → List ModeInfo → List ModeInfo
  unfolding find_candidates_from
  find_common_mode_candidates iut_modes tst_modes = find_candidates_from tst_modes iut_modes []
