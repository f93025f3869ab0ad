-- ===== src/Rss/Rules/Table.antt =====
-- The NIC's table of Rx rules, and what net_drv_add_tcpudp_rx_rule() of
-- net-drv-ts/rss/common_rss.c relies on of the calls that change it.
use net_drv_ts.Base.{Bool, true, ◌==◌, ℕ, ◌≡◌, ◌≢◌, Option, none, some, if◌then◌else◌, ok}
use net_drv_ts.Rss.Rules.{RuleAddrs, RuleOps}

-- A rule as it is described to the NIC. What was not given yet is `none`.
pub record RxRule : Type 0 where
  pub flow : ℕ
  pub addrs : Option RuleAddrs
  pub queue : Option ℕ

-- The NIC's table: the rule at each location.
abbrev pub Table : Type 0
Table = ℕ → Option RxRule

-- `after` is `before` with the rule at a location, where there may have been another one.
abbrev pub IsPut : ℕ → RxRule → Table → Table → Type 0
IsPut l rule before after = (i : ℕ) → after i ≡ (if i == l then some rule else before i)

-- What the function relies on: the calls describe a rule in the configuration tree, and the commit
-- puts it into the NIC's table, or fails and leaves the table as it is. A rule committed to a location
-- takes the place of the one that is there; for TAPI_CFG_RX_RULE_ANY a NIC with special locations
-- chooses a free one. tapi_cfg_rx_rule_find_location() answers with a free location.
pub record RuleLaws {W : Type 0} (o : RuleOps W) : Type 0 where
  pub draft : W → Option ℕ → RxRule
  pub table : W → Table
  pub special : Bool
  pub spec_loc_lem : (b : Bool) (w : W) → o.spec_loc_get w ≡ ok b → b ≡ special
  pub location_lem : (l : ℕ) (w : W) → o.find_location w ≡ ok l → table w l ≡ none
  pub add_draft :
      (l : Option ℕ) (f : ℕ) (w w' : W)
      → o.add l f w ≡ (ok tt, w')
      → draft w' l ≡ record { flow = f; addrs = none; queue = none }
  pub fill_draft :
      (l : Option ℕ) (af : ℕ) (a : RuleAddrs) (w w' : W)
      → o.fill_ip_addrs_ports l af a w ≡ (ok tt, w')
      → draft w' l ≡ record (draft w l) { addrs = some a }
  pub queue_draft :
      (l : Option ℕ) (q : ℕ) (w w' : W)
      → o.rx_queue_set l q w ≡ (ok tt, w')
      → draft w' l ≡ record (draft w l) { queue = some q }
  pub add_table : (l : Option ℕ) (f : ℕ) (w : W) → table (o.add l f w).1 ≡ table w
  pub fill_table :
      (l : Option ℕ) (af : ℕ) (a : RuleAddrs) (w : W)
      → table (o.fill_ip_addrs_ports l af a w).1 ≡ table w
  pub queue_table : (l : Option ℕ) (q : ℕ) (w : W) → table (o.rx_queue_set l q w).1 ≡ table w
  pub commit_at :
      (l : ℕ) (w w' : W)
      → o.commit (some l) w ≡ (ok tt, w')
      → IsPut l (draft w (some l)) (table w) (table w')
  pub commit_any :
      (w w' : W)
      → special ≡ true
      → o.commit none w ≡ (ok tt, w')
      → (l : ℕ) × (table w l ≡ none) × IsPut l (draft w none) (table w) (table w')
  pub commit_fails :
      (l : Option ℕ) (w : W) → (o.commit l w).0 ≢ ok tt → table (o.commit l w).1 ≡ table w
