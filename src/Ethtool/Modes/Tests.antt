-- ===== src/Ethtool/Modes/Tests.antt =====
-- Two sides with three modes each, of which one mode of the first side is not advertised.
use net_drv_ts.Base.{
  ℕ, ◌≡◌, ◌⊎◌, Bool, true, false, some, List, [], ◌∷◌, All, Bytes, codes, str_eq, ok, ends,
  test_skip,
}
use net_drv_ts.Phy.ModeName.{PhyConsts}
use net_drv_ts.Phy.State.{ModeInfo, is_link_mode, find_mode_by_name}
use net_drv_ts.Ethtool.Modes.{
  pair_priority_cmp, update_common_nodes, find_advertised_from, find_common_advertised_modes,
  choose_of, choose_common_modes,
}
use net_drv_ts.Ethtool.Modes.Priority.{rank, Found, Ordered, Covered}
use net_drv_ts.Ethtool.Modes.Preferred.{Both, IsCommon, Among, choose_common_modes-best}

abbrev consts : PhyConsts
consts = record {
  speed_unknown = 4294967295;
  duplex_unknown = 255;
  duplex_half = 0;
  duplex_full = 1;
  autoneg_off = 0;
  autoneg_on = 1;
}

abbrev mode : Bytes → Bool → ℕ → ℕ → ModeInfo
mode name advertised speed duplex = record {
  name = name;
  advertised = advertised;
  speed = speed;
  duplex = duplex;
}

abbrev half : ModeInfo
half = mode (codes "100baseT_Half") true 100 0

abbrev full : ModeInfo
full = mode (codes "100baseT_Full") true 100 1

abbrev fast : ModeInfo
fast = mode (codes "1000baseT_Full") false 1000 1

abbrev iut : List ModeInfo
iut = half ∷ full ∷ fast ∷ []

choose_common_modes-best_example :
    let r : Found consts = (some full, some half) in
    Ordered consts r
    × Both consts (λ m. Among consts iut m × IsCommon consts iut m) r
    × All (λ m. IsCommon consts iut m → Covered consts m r) iut
    × (((p : ModeInfo) × (f : ModeInfo) × (choose_common_modes consts iut iut ≡ ok (p, f))
          × (r ≡ (some p, some f)))
        ⊎ ((choose_common_modes consts iut iut ≡ ends test_skip)
            × ((m n : ModeInfo)
                → Covered consts m r
                → Covered consts n r
                → rank consts m ≡ rank consts n)))
unfolding choose_common_modes choose_of pair_priority_cmp update_common_nodes find_advertised_from
    find_common_advertised_modes is_link_mode find_mode_by_name str_eq
choose_common_modes-best_example = choose_common_modes-best consts iut iut
