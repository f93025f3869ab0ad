-- ===== src/Phy/Config.antt =====
-- The PHY subtree of the configuration tree of one interface, as net-drv-ts/lib/net_drv_phy.c uses
-- it. The calls of `tapi_cfg_phy_*` and `cfg_*` are a parameter; `W` is the state of the agent and
-- of the tree, and the agent's and the interface's names are fixed.
use net_drv_ts.Base.{ℕ, Bool, ⊤, List, ◌≡◌, Bytes, str_eq, if◌then◌else◌, M, Result, ok}

pub record PhyOps (W : Type 0) : Type 0 where
  pub sync : M W ⊤
  pub autoneg_get : W → Result ℕ
  pub speed_admin_get : W → Result ℕ
  pub duplex_admin_get : W → Result ℕ
  pub mode_adv_get : Bytes → W → Result Bool
  pub find_modes : W → Result (List ℕ)
  pub inst_name : ℕ → W → Result Bytes
  pub autoneg_set : ℕ → M W ⊤
  pub speed_admin_set : ℕ → M W ⊤
  pub duplex_admin_set : ℕ → M W ⊤
  pub mode_adv_set : Bytes → Bool → M W ⊤
  pub commit : M W ⊤

pub record PhyConf : Type 0 where
  pub autoneg : ℕ
  pub speed_admin : ℕ
  pub duplex_admin : ℕ
  pub advertised : Bytes → Bool

abbrev pub advertise : Bytes → Bool → (Bytes → Bool) → Bytes → Bool
advertise name b f n = if str_eq name n then b else f n

-- What the functions rely on: a GET reports the settings in force, a SET adds to a local command
-- sequence, and a commit puts the sequence in force.
pub record PhyLaws {W : Type 0} (p : PhyOps W) : Type 0 where
  pub actual : W → PhyConf
  pub staged : W → PhyConf
  pub autoneg_get_lem : (w : W) (v : ℕ) → p.autoneg_get w ≡ ok v → (actual w).autoneg ≡ v
  pub speed_get_lem : (w : W) (v : ℕ) → p.speed_admin_get w ≡ ok v → (actual w).speed_admin ≡ v
  pub duplex_get_lem : (w : W) (v : ℕ) → p.duplex_admin_get w ≡ ok v → (actual w).duplex_admin ≡ v
  pub mode_get_lem :
      (n : Bytes) (w : W) (b : Bool) → p.mode_adv_get n w ≡ ok b → (actual w).advertised n ≡ b
  pub sync_lem : (w w' : W) → staged w ≡ actual w → p.sync w ≡ (ok tt, w') → staged w' ≡ actual w'
  pub autoneg_set_lem :
      (v : ℕ) (w w' : W)
      → p.autoneg_set v w ≡ (ok tt, w')
      → staged w' ≡ record (staged w) { autoneg = v }
  pub speed_set_lem :
      (v : ℕ) (w w' : W)
      → p.speed_admin_set v w ≡ (ok tt, w')
      → staged w' ≡ record (staged w) { speed_admin = v }
  pub duplex_set_lem :
      (v : ℕ) (w w' : W)
      → p.duplex_admin_set v w ≡ (ok tt, w')
      → staged w' ≡ record (staged w) { duplex_admin = v }
  pub mode_set_lem :
      (n : Bytes) (b : Bool) (w w' : W)
      → p.mode_adv_set n b w ≡ (ok tt, w')
      → staged w' ≡ record (staged w) { advertised = advertise n b (staged w).advertised }
  pub commit_lem : (w w' : W) → p.commit w ≡ (ok tt, w') → actual w' ≡ staged w
