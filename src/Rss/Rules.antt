-- ===== src/Rss/Rules.antt =====
-- The Rx rules of the RSS tests: net_drv_rx_rules_check_table_size(),
-- net_drv_rx_rules_check_spec_loc(), net_drv_rx_rules_find_loc() and net_drv_add_tcpudp_rx_rule()
-- of net-drv-ts/rss/common_rss.c.
pub mod Table
pub mod Insertion
mod Tests
use net_drv_ts.Base.{
  ℕ, Bool, true, false, not, ⊤, Option, none, some, Bytes, ◌==◌, if◌then◌else◌, M, Result, ok, err,
  ends, TeErrno, is_cs_enoent, test_skip, test_verdict, test_fail, pure, jump, reads, check_rc,
  on_error, ◌>>=◌, ◌>>◌,
}

pub record SockAddr : Type 0 where
  pub sa_family : ℕ
  pub sa_data : Bytes

-- The addresses and masks of a rule; `none` is NULL.
pub record RuleAddrs : Type 0 where
  pub src_addr : Option SockAddr
  pub src_mask : Option SockAddr
  pub dst_addr : Option SockAddr
  pub dst_mask : Option SockAddr

-- `tapi_cfg_rx_rule_*` for one interface. A location is `none` for TAPI_CFG_RX_RULE_ANY.
-- `find_location` looks from 0 to the end of the table.
pub record RuleOps (W : Type 0) : Type 0 where
  pub table_size_get : W → Result ℕ
  pub spec_loc_get : W → Result Bool
  pub find_location : W → Result ℕ
  pub flow_by_socket : ℕ → ℕ → ℕ
  pub add : Option ℕ → ℕ → M W ⊤
  pub fill_ip_addrs_ports : Option ℕ → ℕ → RuleAddrs → M W ⊤
  pub rx_queue_set : Option ℕ → ℕ → M W ⊤
  pub commit : Option ℕ → M W ⊤

-- The address family of a rule; `none` where both addresses are NULL.
unfoldable pub rule_family : RuleAddrs → Option ℕ
rule_family a = elim a.src_addr [
  | some src ↦ some src.sa_family
  | none ↦ elim a.dst_addr [ some dst ↦ some dst.sa_family | none ↦ none ]
]

module _ {W : Type 0} (o : RuleOps W) where
  -- net_drv_rx_rules_check_table_size()
  unfoldable pub check_table_size : M W ℕ
  check_table_size = do
    size ←
        on_error (reads o.table_size_get)
          (λ e. if is_cs_enoent e then jump test_skip else jump test_verdict)
    if size == 0 then jump test_skip else pure size

  -- net_drv_rx_rules_check_spec_loc()
  unfoldable pub check_spec_loc : M W ⊤
  check_spec_loc = do
    spec_loc ← on_error (reads o.spec_loc_get) (λ _. jump test_verdict)
    if spec_loc then pure tt else jump test_skip

  -- net_drv_rx_rules_find_loc()
  unfoldable pub find_loc : M W (Option ℕ)
  find_loc = do
    spec_loc ← reads o.spec_loc_get
    if spec_loc then pure none else (do location ← reads o.find_location; pure (some location))

  -- The calls that make the rule at the location found
  unfoldable pub insert_rule : Option ℕ → ℕ → RuleAddrs → ℕ → ℕ → M W ⊤
  insert_rule location af addrs sock_type queue = do
    check_rc (o.add location (o.flow_by_socket af sock_type))
    check_rc (o.fill_ip_addrs_ports location af addrs)
    check_rc (o.rx_queue_set location queue)
    on_error (o.commit location) (λ _. jump test_verdict)

  unfoldable pub add_rule_of : Option ℕ → RuleAddrs → ℕ → ℕ → M W ⊤
  unfolding find_loc insert_rule
  add_rule_of none addrs sock_type queue = jump test_fail
  add_rule_of (some af) addrs sock_type queue = do
    location ← on_error find_loc (λ e. if is_cs_enoent e then jump test_skip else jump test_verdict)
    insert_rule location af addrs sock_type queue

  -- net_drv_add_tcpudp_rx_rule()
  unfoldable pub add_tcpudp_rx_rule : RuleAddrs → ℕ → ℕ → M W ⊤
  unfolding add_rule_of
  add_tcpudp_rx_rule addrs sock_type queue = add_rule_of (rule_family addrs) addrs sock_type queue
