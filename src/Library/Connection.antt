-- ===== src/Library/Connection.antt =====
-- net_drv_conn_check(), net_drv_cat_all_files() and net_drv_ts_add_vlan() of
-- net-drv-ts/lib/net_drv_ts.c.
use net_drv_ts.Base.{
  ℕ, zero, suc, ◌≤◌, ◌≡◌, refl, Bool, not, ◌||◌, none, some, Option, ⊤, Bytes, ◌==◌, if◌then◌else◌,
  te_rc, te_tapi, enoent, efail, M, pure, fail, check_rc, ◌>>=◌, ◌>>◌,
}

-- The two ends of a connection, and the two sides of a VLAN
pub data End : Type 0 where
  first second : End

-- net_drv_send_recv_check() from one end to the other
unfoldable pub conn_check : {W : Type 0} → (End → End → M W ⊤) → M W ⊤
conn_check send_recv_check = send_recv_check first second >> send_recv_check second first

pub record WaitStatus : Type 0 where
  pub exited : Bool
  pub value : ℕ

-- `rpc_system_ex` of the search for readable files below the path, and of their printing
pub record FileOps (W : Type 0) : Type 0 where
  pub find_files : M W WaitStatus
  pub cat_files : ℕ → M W WaitStatus

abbrev pub has_failed : WaitStatus → Bool
has_failed status = not status.exited || not (status.value == 0)

unfoldable pub cat_all_files : {W : Type 0} → FileOps W → ℕ → M W ⊤
cat_all_files o timeout = do
  status ← o.find_files
  (if has_failed status then fail (te_rc te_tapi enoent) else pure tt)
  status ← o.cat_files timeout
  if has_failed status then fail (te_rc te_tapi efail) else pure tt

-- The configuration of VLAN interfaces and addresses of both sides
pub record VlanOps (W : Type 0) : Type 0 where
  pub rand_range : ℕ → ℕ → W → ℕ × W
  pub add_vlan : End → ℕ → M W Bytes
  pub if_up : End → Bytes → M W ⊤
  pub alloc_net_addr_pair : M W (Bytes × Bytes × ℕ)
  pub add_net_addr : End → Bytes → Bytes → ℕ → M W ⊤

module _ {W : Type 0} (o : VlanOps W) where
  -- The VLAN that is asked for, or one at random; `none` is NULL.
  unfoldable pub new_vlan_id : Option ℕ → W → ℕ × W
  new_vlan_id none w = o.rand_range 1 4094 w
  new_vlan_id (some zero) w = o.rand_range 1 4094 w
  new_vlan_id (some (suc n)) w = (suc n, w)

  unfoldable pub set_up_vlan : ℕ → M W (ℕ × Bytes × Bytes)
  set_up_vlan id = do
    vlan_if1 ← check_rc (o.add_vlan first id)
    vlan_if2 ← check_rc (o.add_vlan second id)
    check_rc (o.if_up first vlan_if1)
    check_rc (o.if_up second vlan_if2)
    (addr1, addr2, prefix) ← check_rc o.alloc_net_addr_pair
    check_rc (o.add_net_addr first vlan_if1 addr1 prefix)
    check_rc (o.add_net_addr second vlan_if2 addr2 prefix)
    pure (id, addr1, addr2)

  -- The identifier and the addresses of the two sides, which the caller gets
  unfoldable pub ts_add_vlan : Option ℕ → M W (ℕ × Bytes × Bytes)
  unfolding new_vlan_id set_up_vlan
  ts_add_vlan vlan_id w = let (id, w1) = new_vlan_id vlan_id w in set_up_vlan id w1

  -- An identifier that is given is used, and one that is not is in the range of VLANs.
  new_vlan_id_lem :
      ((w : W) → (1 ≤ (o.rand_range 1 4094 w).0) × ((o.rand_range 1 4094 w).0 ≤ 4094))
      → (n : ℕ) (w : W)
      → ((new_vlan_id (some (suc n)) w).0 ≡ suc n)
        × (1 ≤ (new_vlan_id none w).0)
        × ((new_vlan_id none w).0 ≤ 4094)
        × ((new_vlan_id (some 0) w).0 ≤ 4094)
  unfolding new_vlan_id
  new_vlan_id_lem rand n w = (refl, (rand w).0, (rand w).1, (rand w).1)
