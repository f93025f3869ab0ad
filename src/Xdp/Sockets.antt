-- ===== src/Xdp/Sockets.antt =====
-- net_drv_xdp_create_socks() and net_drv_xdp_destroy_socks(): the sockets of several queues.
pub mod Cleanup
use net_drv_ts.Base.{
  ℕ, zero, suc, ◌+◌, ◌≡◌, Bool, true, false, ⊤, none, some, List, [], ◌∷◌, ◌++◌, if◌then◌else◌, M,
  Result, ok, err, ends, test_stop, TeErrno,
}
use net_drv_ts.Xdp.Socket.{XdpSock, XdpCfg, XdpOps, Slot, create_sock, destroy_sock}

-- An entry of the array that `tapi_calloc` returns.
abbrev pub zero_sock : XdpSock
zero_sock = record { queue_id = 0; tx_capable = false; mem = 0; umem = 0; sock = 0; fd = some 0 }

-- After one round of the first loop: the next rounds, unless the round failed.
unfoldable pub continue_with :
    {W : Type 0}
    → Result ⊤ × Slot W
    → (W → Result ⊤ × W × List XdpSock)
    → Result ⊤ × W × List XdpSock
continue_with (ok _, (w, s)) rest = let (r, w', ss) = rest w in (r, w', s ∷ ss)
continue_with (err e, (w, s)) rest = (err e, w, [])
continue_with (ends j, (w, s)) rest = (ends j, w, [])

module _ {W : Type 0} (o : XdpOps W) where
  -- `todo` more rounds of the first loop from index `i` on: how the loop ended, and the sockets
  -- that were created before that.
  unfoldable pub create_from : ℕ → XdpCfg → ℕ → ℕ → W → Result ⊤ × W × List XdpSock
  create_from map_fd cfg zero i w = (ok tt, w, [])
  create_from map_fd cfg (suc todo) i w =
      continue_with (create_sock o map_fd i cfg (w, zero_sock))
        (create_from map_fd cfg todo (i + 1))

  -- The loop of the cleanup: each socket is destroyed, and what is returned is dropped.
  unfoldable pub destroy_each : List XdpSock → W → W
  destroy_each [] w = w
  destroy_each (s ∷ ss) w = destroy_each ss (destroy_sock o (w, s)).1.0

  unfoldable pub stop_on_error : Result ⊤ × W × List XdpSock → Result (List XdpSock) × W
  stop_on_error (ok _, w, ss) = (ok ss, w)
  stop_on_error (err e, w, ss) = (ends test_stop, destroy_each ss w)
  stop_on_error (ends j, w, ss) = (ends j, w)

  -- net_drv_xdp_create_socks()
  unfoldable pub create_socks : ℕ → XdpCfg → ℕ → M W (List XdpSock)
  create_socks map_fd cfg socks_num w = stop_on_error (create_from map_fd cfg socks_num 0 w)

  -- The first error of the two.
  unfoldable pub first_error : Result ⊤ → Result ⊤ → Result ⊤
  first_error (ok _) rc = rc
  first_error res rc = res

  -- The loop of net_drv_xdp_destroy_socks() from the status `res` on.
  unfoldable pub destroy_from : Result ⊤ → List XdpSock → M W ⊤
  unfolding first_error
  destroy_from res [] w = (res, w)
  destroy_from res (s ∷ ss) w =
      let (rc, (w', _)) = destroy_sock o (w, s) in destroy_from (first_error res rc) ss w'

  unfoldable pub destroy_socks : List XdpSock → M W ⊤
  unfolding destroy_from
  destroy_socks = destroy_from (ok tt)
