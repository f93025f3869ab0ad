-- ===== src/Xdp/Create.antt =====
-- net_drv_xdp_create_sock() leaks nothing when it fails, and what it makes when it succeeds.
use net_drv_ts.Base.{
  ℕ, ◌<◌, ◌≡◌, ◌≢◌, ⊤, none, ltb, Result, ok, err, ends, value_or, TeErrno, arith,
}
use net_drv_ts.Xdp.Socket.{
  XdpSock, XdpCfg, XdpOps, get_queues_num, alloc_mem, alloc_umem, fill_rx, alloc_sock, set_map,
  fd_value, allocate, or_destroy, create_sock, xdp_sock_init, mem_len,
}
use net_drv_ts.Xdp.Release.{Held, XdpLaws, Owns, IsEmpty, Deletes, destroy_sock_total}

-- The call returned: it did not end the test.
abbrev pub Returns : {A : Type 0} → Result A → Type 0
Returns (ok a) = ⊤
Returns (err e) = ⊤
Returns (ends j) = ⊥

module _ {W : Type 0} (o : XdpOps W) (laws : XdpLaws o) where
  open laws use {
    held, memalign_ok, memalign_fails, umem_create_ok, umem_create_fails, fill-Keeps,
    socket_create_ok, socket_create_fails, map_set-Keeps,
  }

  -- Each step keeps the account of what is held, and touches its own pointer alone.
  alloc_mem-Owns :
      (h : Held) (c : XdpCfg) (w w' : W) (s s' : XdpSock) (r : Result ⊤)
      → Returns r
      → alloc_mem o c (w, s) ≡ (r, (w', s'))
      → s.mem ≡ 0
      → Owns h s (held w)
      → Owns h s' (held w') × (s'.umem ≡ s.umem) × (s'.sock ≡ s.sock)
  unfolding alloc_mem
  alloc_mem-Owns h c w w' s s' r ret e fresh own = ground (
    arith,
    memalign_ok c.frame_len (mem_len c) s'.mem w w',
    memalign_fails c.frame_len (mem_len c) w,
  )

  alloc_umem-Owns :
      (h : Held) (c : XdpCfg) (w w' : W) (s s' : XdpSock) (r : Result ⊤)
      → Returns r
      → alloc_umem o c (w, s) ≡ (r, (w', s'))
      → s.umem ≡ 0
      → Owns h s (held w)
      → Owns h s' (held w') × (s'.sock ≡ s.sock)
  unfolding alloc_umem
  alloc_umem-Owns h c w w' s s' r ret e fresh own = ground (
    arith,
    umem_create_ok s.mem (mem_len c) s'.umem c w w',
    umem_create_fails s.mem (mem_len c) c w,
  )

  fill_rx-Owns :
      (h : Held) (q : ℕ) (c : XdpCfg) (w w' : W) (s s' : XdpSock) (r : Result ⊤)
      → Returns r
      → fill_rx o q c (w, s) ≡ (r, (w', s'))
      → Owns h s (held w)
      → Owns h s' (held w') × (s' ≡ s)
  unfolding fill_rx
  fill_rx-Owns h q c w w' s s' r ret e own = ground (arith, fill-Keeps s.umem q c.rx_frames w)

  alloc_sock-Owns :
      (h : Held) (q : ℕ) (c : XdpCfg) (w w' : W) (s s' : XdpSock) (r : Result ⊤)
      → Returns r
      → alloc_sock o q c (w, s) ≡ (r, (w', s'))
      → s.sock ≡ 0
      → Owns h s (held w)
      → Owns h s' (held w')
  unfolding alloc_sock
  alloc_sock-Owns h q c w w' s s' r ret e fresh own = ground (
    arith,
    socket_create_ok q s.umem s'.sock (value_or (0, 0) (o.socket_create q s.umem c w).0).1 c w w',
    socket_create_fails q s.umem c w,
  )

  set_map-Owns :
      (h : Held) (m q : ℕ) (w w' : W) (s s' : XdpSock) (r : Result ⊤)
      → set_map o m q (w, s) ≡ (r, (w', s'))
      → Owns h s (held w)
      → Owns h s' (held w')
  unfolding set_map
  set_map-Owns h m q w w' s s' r e own = ground (arith, map_set-Keeps m q (fd_value s.fd) w)

  allocate-Owns :
      (h : Held) (m q : ℕ) (c : XdpCfg) (w w' : W) (s s' : XdpSock) (r : Result ⊤)
      → Returns r
      → allocate o m q c (w, s) ≡ (r, (w', s'))
      → IsEmpty s
      → Owns h s (held w)
      → Owns h s' (held w')
  unfolding allocate
  allocate-Owns h m q c w w' s s' r ret e empty own =
      let (r1, (w1, s1)) = alloc_mem o c (w, s) in
      let (r2, (w2, s2)) = alloc_umem o c (w1, s1) in
      let (r3, (w3, s3)) = fill_rx o q c (w2, s2) in
      let (r4, (w4, s4)) = alloc_sock o q c (w3, s3) in
      ground (
        arith,
        alloc_mem-Owns h c w w1 s s1 r1,
        alloc_umem-Owns h c w1 w2 s1 s2 r2,
        fill_rx-Owns h q c w2 w3 s2 s3 r3,
        alloc_sock-Owns h q c w3 w4 s3 s4 r4,
        set_map-Owns h m q w4 w' s4 s' r,
      )

  or_destroy-held :
      (h : Held) (w w' : W) (s s' : XdpSock) (r : Result ⊤) (e : TeErrno)
      → Deletes o laws
      → (Returns r → Owns h s (held w))
      → or_destroy o (r, (w, s)) ≡ (err e, (w', s'))
      → (held w' ≡ h) × IsEmpty s'
  unfolding or_destroy
  or_destroy-held h w w' s s' (ok x) e d own k = absurd (cc)
  or_destroy-held h w w' s s' (err x) e d own k =
      ground (arith, destroy_sock_total o laws h w s d (own tt))
  or_destroy-held h w w' s s' (ends j) e d own k = absurd (cc)

  get_queues_num-world : (w : W) → (get_queues_num o w).1 ≡ w
  unfolding get_queues_num
  get_queues_num-world w = ground arith

  empty-Owns : (h : Held) (s : XdpSock) → IsEmpty s → Owns h s h
  empty-Owns h s v = ground arith

  -- Where deletions do not fail, a creation that fails, at whatever step, leaves the agent with
  -- exactly the memory, the UMEMs and the sockets that it had, and the structure names none.
  pub create_sock-held :
      (m q : ℕ) (c : XdpCfg) (w w' : W) (s s' : XdpSock) (e : TeErrno)
      → Deletes o laws
      → create_sock o m q c (w, s) ≡ (err e, (w', s'))
      → (held w' ≡ held w) × IsEmpty s'
  unfolding create_sock
  create_sock-held m q c w w' s s' e d k =
      let (rx, tx) = value_or (0, 0) (get_queues_num o w).0 in
      let s0 = record xdp_sock_init { queue_id = q } in
      let s1 = record s0 { tx_capable = ltb q tx } in
      let (r, (w2, s2)) = allocate o m q c (w, s1) in
      ground (
        arith,
        get_queues_num-world w,
        empty-Owns (held w) s1,
        allocate-Owns (held w) m q c w w2 s1 s2 r,
        or_destroy-held (held w) w2 w' s2 s' r e d,
      )

  allocate-fields :
      (m q : ℕ) (c : XdpCfg) (w w' : W) (s s' : XdpSock)
      → allocate o m q c (w, s) ≡ (ok tt, (w', s'))
      → (s'.queue_id ≡ s.queue_id) × (s'.tx_capable ≡ s.tx_capable) × (s'.fd ≢ none)
  unfolding allocate alloc_mem alloc_umem fill_rx alloc_sock set_map
  allocate-fields m q c w w' s s' e = ground arith

  -- A creation that succeeds made a socket of a queue of the interface, marked as able to send
  -- exactly if that queue is a Tx queue too, with a descriptor; and the agent holds what the
  -- structure names besides what it held.
  pub create_sock-eq-ok :
      (m q rx tx : ℕ) (c : XdpCfg) (w w' : W) (s s' : XdpSock)
      → get_queues_num o w ≡ (ok (rx, tx), w)
      → create_sock o m q c (w, s) ≡ (ok tt, (w', s'))
      → (q < rx)
        × (s'.queue_id ≡ q)
        × (s'.tx_capable ≡ ltb q tx)
        × (s'.fd ≢ none)
        × Owns (held w) s' (held w')
  unfolding create_sock or_destroy
  create_sock-eq-ok m q rx tx c w w' s s' nums k =
      let s1 = record xdp_sock_init { queue_id = q; tx_capable = ltb q tx } in
      let (r, (w2, s2)) = allocate o m q c (w, s1) in
      ground (
        arith,
        empty-Owns (held w) s1,
        allocate-Owns (held w) m q c w w' s1 s' (ok tt),
        allocate-fields m q c w w' s1 s',
      )

  -- The account of what is held, after a creation that succeeds.
  pub create_sock-Owns :
      (m q : ℕ) (c : XdpCfg) (w w' : W) (s s' : XdpSock)
      → create_sock o m q c (w, s) ≡ (ok tt, (w', s'))
      → Owns (held w) s' (held w')
  unfolding create_sock or_destroy
  create_sock-Owns m q c w w' s s' k =
      let (rx, tx) = value_or (0, 0) (get_queues_num o w).0 in
      let s1 = record xdp_sock_init { queue_id = q; tx_capable = ltb q tx } in
      ground (
        arith,
        get_queues_num-world w,
        empty-Owns (held w) s1,
        allocate-Owns (held w) m q c w w' s1 s' (ok tt),
      )

  pub create_sock-queue_id :
      (m q : ℕ) (c : XdpCfg) (w w' : W) (s s' : XdpSock)
      → create_sock o m q c (w, s) ≡ (ok tt, (w', s'))
      → s'.queue_id ≡ q
  unfolding create_sock or_destroy
  create_sock-queue_id m q c w w' s s' k =
      let (rx, tx) = value_or (0, 0) (get_queues_num o w).0 in
      let s1 = record xdp_sock_init { queue_id = q; tx_capable = ltb q tx } in
      ground (arith, get_queues_num-world w, allocate-fields m q c w w' s1 s')
