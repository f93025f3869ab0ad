-- ===== src/Phy/Tests.antt =====
-- An interface with three modes, on which the functions of the PHY settings run.
use net_drv_ts.Base.{
  ℕ, ◌≡◌, refl, Bool, true, false, not, ⊤, none, some, [], ◌∷◌, Bytes, codes, str_eq, starts_with,
  ◌==◌, if◌then◌else◌, M, Result, ok, err, te_rc, te_cs, eacces, enoent, arith,
}
use net_drv_ts.Phy.ModeName.{PhyConsts, parse_speed_duplex_mode, strtoul}
use net_drv_ts.Phy.ModeName.RoundTrip.{parse-mode_name}
use net_drv_ts.Phy.Config.{PhyOps, PhyConf, PhyLaws, advertise}
use net_drv_ts.Phy.State.{
  SavedState, mode_info, is_link_mode, save_modes, state_save, modes_differ, set_modes,
  write_forced, write_state, state_restore,
}
use net_drv_ts.Phy.State.Write.{Advertises}
use net_drv_ts.Phy.State.Restore.{Restored}
use net_drv_ts.Phy.State.RoundTrip.{Records, save-restore}
use net_drv_ts.Phy.Apply.{
  should_advertise_name, write_autoneg_modes, apply_autoneg_modes, should_advertise,
  apply_autoneg_modes-actual,
}

abbrev consts : PhyConsts
consts = record {
  speed_unknown = 4294967295;
  duplex_unknown = 255;
  duplex_half = 0;
  duplex_full = 1;
  autoneg_off = 0;
  autoneg_on = 1;
}

-- `pending` says that a local command sequence was started: a GET fails until the commit.
record Nic : Type 0 where
  conf : PhyConf
  next : PhyConf
  pending : Bool

abbrev get_ : {A : Type 0} → (PhyConf → A) → Nic → Result A
get_ f w = if w.pending then err (te_rc te_cs eacces) else ok (f w.conf)

abbrev stage : (PhyConf → PhyConf) → M Nic ⊤
stage f w = (ok tt, record w { next = f w.next; pending = true })

abbrev name_of : ℕ → Bytes
name_of i =
    if i == 0
    then codes "100baseT_Full"
    else if i == 1
    then codes "1000baseT_Full"
    else codes "Autoneg"

abbrev ops : PhyOps Nic
ops = record {
  sync = λ w. (ok tt, w);
  autoneg_get = get_ (λ c. c.autoneg);
  speed_admin_get = get_ (λ c. c.speed_admin);
  duplex_admin_get = get_ (λ c. c.duplex_admin);
  mode_adv_get = λ n. get_ (λ c. c.advertised n);
  find_modes = λ w. ok (0 ∷ 1 ∷ 2 ∷ []);
  inst_name = λ i w. ok (name_of i);
  autoneg_set = λ v. stage (λ c. record c { autoneg = v });
  speed_admin_set = λ v. stage (λ c. record c { speed_admin = v });
  duplex_admin_set = λ v. stage (λ c. record c { duplex_admin = v });
  mode_adv_set = λ n b. stage (λ c. record c { advertised = advertise n b c.advertised });
  commit = λ w. (ok tt, record w { conf = w.next; pending = false });
}

abbrev laws : PhyLaws ops
laws = record {
  actual = λ w. w.conf;
  staged = λ w. w.next;
  autoneg_get_lem = λ w v h. ground arith;
  speed_get_lem = λ w v h. ground arith;
  duplex_get_lem = λ w v h. ground arith;
  mode_get_lem = λ n w b h. ground arith;
  sync_lem = λ w w' e h. ground arith;
  autoneg_set_lem = λ v w w' h. ground arith;
  speed_set_lem = λ v w w' h. ground arith;
  duplex_set_lem = λ v w w' h. ground arith;
  mode_set_lem = λ n b w w' h. ground arith;
  commit_lem = λ w w' h. ground arith;
}

abbrev idle_nic : PhyConf → Nic
idle_nic c = record { conf = c; next = c; pending = false }

abbrev both_advertised : Nic
both_advertised = idle_nic (record {
  autoneg = 1;
  speed_admin = 1000;
  duplex_admin = 1;
  advertised = λ n. not (str_eq n (codes "Autoneg"));
})

abbrev forced : Nic
forced =
    idle_nic (record { autoneg = 0; speed_admin = 100; duplex_admin = 0; advertised = λ n. false })

abbrev saved_state : SavedState
saved_state = record {
  autoneg = 1;
  speed_admin = 1000;
  duplex_admin = 1;
  modes =
      record { name = codes "100baseT_Full"; advertised = true; speed = 100; duplex = 1 }
      ∷ record { name = codes "1000baseT_Full"; advertised = true; speed = 1000; duplex = 1 }
      ∷ record { name = codes "Autoneg"; advertised = false; speed = 4294967295; duplex = 255 }
      ∷ [];
  saved = true;
}

save_both : state_save consts ops both_advertised ≡ (ok tt, saved_state)
unfolding state_save str_eq save_modes mode_info parse_speed_duplex_mode strtoul starts_with
save_both = refl

restore_forced :
    state_restore consts ops saved_state forced
    ≡ (ok tt, (state_restore consts ops saved_state forced).1)
unfolding state_restore modes_differ is_link_mode write_state write_forced set_modes
restore_forced = refl

parse-mode_name_example :
    parse_speed_duplex_mode consts (codes "40000baseLR4_ER4_Full") ≡ some (40000, 1)
unfolding str_eq
parse-mode_name_example =
    parse-mode_name consts true 4 (0 ∷ 0 ∷ 0 ∷ 0 ∷ []) (codes "LR4_ER4") (omega arith) (omega arith)

parse-fec : parse_speed_duplex_mode consts (codes "10000baseR_FEC") ≡ some (10000, 1)
unfolding parse_speed_duplex_mode strtoul starts_with str_eq
parse-fec = refl

parse-negative : parse_speed_duplex_mode consts (codes "-100baseT_Full") ≡ none
unfolding parse_speed_duplex_mode strtoul starts_with str_eq
parse-negative = refl

save-restore_example :
    Restored consts saved_state (state_restore consts ops saved_state forced).1.conf
    × Records saved_state both_advertised.conf
save-restore_example =
    save-restore consts ops laws both_advertised forced _ saved_state save_both restore_forced

apply_autoneg_modes-actual_example :
    let w' = (apply_autoneg_modes consts ops saved_state (codes "100baseT_Full") none forced).1 in
    (w'.conf.autoneg ≡ 1)
    × Advertises consts
        (should_advertise (codes "100baseT_Full") none)
        saved_state.modes
        w'.conf.advertised
unfolding apply_autoneg_modes modes_differ is_link_mode set_modes should_advertise_name str_eq
    write_autoneg_modes
apply_autoneg_modes-actual_example =
    apply_autoneg_modes-actual consts ops laws saved_state (codes "100baseT_Full") none forced _
      refl

abbrev no_tree : PhyOps Nic
no_tree = record ops { mode_adv_get = λ n w. err (te_rc te_cs enoent) }
