-- ===== src/Library/Neighbours/Tests.antt =====
-- An agent whose nodes come one with each second.
use net_drv_ts.Base.{ℕ, ◌≡◌, ◌↔◌, ◌<◌, ◌≤◌, ◌+◌, refl, ok}
use net_drv_ts.Library.Neighbours.{
  NeighOps, or_zero, wait_neigh_nodes_recover, attempts, synchronized, wait_neigh_nodes_recover_iff,
}

abbrev ops : NeighOps ℕ
ops = record { find_neighs = λ w. ok w; synchronize = λ w. (ok tt, w); sleep = λ ms w. w + 1 }

wait_neigh_nodes_recover_iff_example :
    ((wait_neigh_nodes_recover ops 3 0).0 ≡ ok tt)
    ↔ ((k : ℕ) × (k < attempts) × (3 ≤ synchronized ops (λ w. w) k 0))
unfolding or_zero
wait_neigh_nodes_recover_iff_example =
    wait_neigh_nodes_recover_iff ops (λ w. w) (λ w. w) (λ w. refl) (λ w. refl) 3 0
