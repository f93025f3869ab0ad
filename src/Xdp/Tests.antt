-- ===== src/Xdp/Tests.antt =====
-- An interface with three Rx queues and two Tx queues, on which AF_XDP sockets are created.
use net_drv_ts.Base.{
  ℕ, suc, ◌-◌, value_or, ◌≡◌, refl, Bool, true, false, [], map, range_from, ◌==◌, if◌then◌else◌, M,
  ok, err, ends, test_stop, te_rc, no_module, efail, enomem, arith,
}
use net_drv_ts.Xdp.Socket.{
  XdpCfg, XdpOps, nonneg, xdp_sock_init, get_queues_num, create_sock, or_destroy, allocate,
  alloc_mem, alloc_umem, fill_rx, alloc_sock, set_map,
}
use net_drv_ts.Xdp.Release.{Held, XdpLaws, IsEmpty, mark}
use net_drv_ts.Xdp.Create.{create_sock-held}
use net_drv_ts.Xdp.Sockets.{continue_with, stop_on_error, create_from, create_socks, destroy_socks}
use net_drv_ts.Xdp.Sockets.Cleanup.{create_socks_failed, create-destroy}

-- The agent: the pointers below `top` were given out, and `limit` is the number of sockets that it
-- can still bind.
record Agent : Type 0 where
  top : ℕ
  limit : ℕ
  pointers : Held

abbrev cfg : XdpCfg
cfg = record {
  frame_len = 4096;
  frames_num = 128;
  rx_frames = 64;
  fill_size = 128;
  comp_size = 128;
  rx_size = 128;
  tx_size = 128;
  bind_flags = 0;
}

-- The next pointer, if it is free.
abbrev give : (Held → ℕ → Bool) → (Held → ℕ → Held) → M Agent ℕ
give used take w =
    if used w.pointers (suc w.top)
    then (err (te_rc no_module enomem), w)
    else (ok (suc w.top), record w { top = suc w.top; pointers = take w.pointers (suc w.top) })

abbrev give_sock : M Agent (ℕ × ℕ)
give_sock w =
    if w.pointers.socks (suc w.top)
    then (err (te_rc no_module enomem), w)
    else if w.limit == 0
    then (err (te_rc no_module enomem), w)
    else (
      ok (suc w.top, 5),
      record w {
        top = suc w.top;
        limit = w.limit - 1;
        pointers = record (w.pointers) { socks = mark (suc w.top) true w.pointers.socks };
      },
    )

abbrev ops : XdpOps Agent
ops = record {
  chan_rx = λ w. ok (nonneg 1);
  chan_tx = λ w. ok (nonneg 0);
  chan_combined = λ w. ok (nonneg 2);
  ring_size = λ w. ok 512;
  posix_memalign = λ a n. give (λ h. h.mems) (λ h p. record h { mems = mark p true h.mems });
  umem_create = λ m n c. give (λ h. h.umems) (λ h p. record h { umems = mark p true h.umems });
  rx_fill_simple = λ u q n w. (ok n, w);
  socket_create = λ q u c. give_sock;
  map_set = λ m q fd w. (ok tt, w);
  socket_delete = λ p w. (
    ok tt,
    record w { pointers = record (w.pointers) { socks = mark p false w.pointers.socks } },
  );
  umem_delete = λ p w. (
    ok tt,
    record w { pointers = record (w.pointers) { umems = mark p false w.pointers.umems } },
  );
  free_mem =
      λ p w. record w { pointers = record (w.pointers) { mems = mark p false w.pointers.mems } };
}

abbrev laws : XdpLaws ops
laws = record {
  held = λ w. w.pointers;
  memalign_ok = λ a n p w w' h. ground arith;
  memalign_fails = λ a n w h. ground arith;
  umem_create_ok = λ m n p c w w' h. ground arith;
  umem_create_fails = λ m n c w h. ground arith;
  fill-Keeps = λ u q n w. refl;
  socket_create_ok = λ q u p fd c w w' h. ground arith;
  socket_create_fails = λ q u c w h. ground arith;
  map_set-Keeps = λ m q fd w. refl;
  socket_delete_ok = λ p w w' u h. ground arith;
  umem_delete_ok = λ p w w' u h. ground arith;
  free_ok = λ p w u. refl;
}

-- One socket can be bound.
abbrev agent : ℕ → Agent
agent n = record {
  top = 0;
  limit = n;
  pointers = record { mems = λ _. false; umems = λ _. false; socks = λ _. false };
}

create_sock-held_example :
    let (w', s') = (create_sock ops 9 1 cfg (agent 0, xdp_sock_init)).1 in
    (w'.pointers ≡ (agent 0).pointers) × IsEmpty s'
unfolding create_sock get_queues_num or_destroy allocate alloc_mem alloc_umem fill_rx alloc_sock
create_sock-held_example =
    create_sock-held ops laws 9 1 cfg (agent 0) _ xdp_sock_init _ (te_rc no_module efail)
      ((λ p w. refl), (λ p w. refl)) refl

create_socks_failed_example :
    ((create_socks ops 9 cfg 3 (agent 1)).0 ≡ ends test_stop)
    × ((create_socks ops 9 cfg 3 (agent 1)).1.pointers ≡ (agent 1).pointers)
unfolding create_from continue_with create_sock get_queues_num or_destroy allocate alloc_mem
    alloc_umem fill_rx alloc_sock set_map
create_socks_failed_example =
    create_socks_failed ops laws 9 3 cfg (agent 1) (te_rc no_module efail)
      ((λ p w. refl), (λ p w. refl)) refl

create-destroy_example :
    let (r, w') = create_socks ops 9 cfg 2 (agent 5) in
    let ss = value_or [] r in
    (map (λ s. s.queue_id) ss ≡ range_from 0 2)
    × ((destroy_socks ops ss w').0 ≡ ok tt)
    × ((destroy_socks ops ss w').1.pointers ≡ (agent 5).pointers)
unfolding create_socks stop_on_error create_from continue_with create_sock get_queues_num or_destroy
    allocate alloc_mem alloc_umem fill_rx alloc_sock set_map
create-destroy_example =
    create-destroy ops laws 9 2 cfg (agent 5) _ _ ((λ p w. refl), (λ p w. refl)) refl
