-- ===== src/Xdp/Socket.antt =====
-- net_drv_xdp_sock, net_drv_xdp_cfg, and the functions that create and destroy one socket.
use net_drv_ts.Base.{
  ℕ, ◌+◌, ◌*◌, ◌%◌, ◌^◌, Bool, false, not, ⊤, Option, none, some, ltb, leb, ◌==◌, if◌then◌else◌, M,
  Result, ok, err, ends, te_rc, no_module, te_tapi, einval, efail, pure, fail, reads, when, ◌>>=◌,
  ◌>>◌,
}

-- An RPC pointer of 0 is RPC_NULL; `fd` is `none` for -1.
pub record XdpSock : Type 0 where
  pub queue_id : ℕ
  pub tx_capable : Bool
  pub mem : ℕ
  pub umem : ℕ
  pub sock : ℕ
  pub fd : Option ℕ

abbrev pub xdp_sock_init : XdpSock
xdp_sock_init = record { queue_id = 0; tx_capable = false; mem = 0; umem = 0; sock = 0; fd = none }

pub record XdpCfg : Type 0 where
  pub frame_len : ℕ
  pub frames_num : ℕ
  pub rx_frames : ℕ
  pub fill_size : ℕ
  pub comp_size : ℕ
  pub rx_size : ℕ
  pub tx_size : ℕ
  pub bind_flags : ℕ

-- `size_t mem_len`
abbrev pub mem_len : XdpCfg → ℕ
mem_len cfg = (cfg.frames_num * cfg.frame_len) % 2 ^ 64

-- A value of `int` read from the configuration tree.
pub data CfgInt : Type 0 where
  nonneg : ℕ → CfgInt
  negative : CfgInt

-- The configuration tree and the RPC calls for one agent and one interface. An RPC call that
-- returns a negative value is an error.
pub record XdpOps (W : Type 0) : Type 0 where
  pub chan_rx : W → Result CfgInt
  pub chan_tx : W → Result CfgInt
  pub chan_combined : W → Result CfgInt
  pub ring_size : W → Result ℕ
  pub posix_memalign : ℕ → ℕ → M W ℕ
  pub umem_create : ℕ → ℕ → XdpCfg → M W ℕ
  pub rx_fill_simple : ℕ → ℕ → ℕ → M W ℕ
  pub socket_create : ℕ → ℕ → XdpCfg → M W (ℕ × ℕ)
  pub map_set : ℕ → ℕ → ℕ → M W ⊤
  pub socket_delete : ℕ → M W ⊤
  pub umem_delete : ℕ → M W ⊤
  pub free_mem : ℕ → W → W

-- The agent with the socket structure that the call fills in.
abbrev pub Slot : Type 0 → Type 0
Slot W = W × XdpSock

module _ {W : Type 0} where
  abbrev pub on_agent : {A : Type 0} → M W A → M (Slot W) A
  on_agent m (w, s) = let (r, w') = m w in (r, (w', s))

  abbrev pub change : (XdpSock → XdpSock) → M (Slot W) ⊤
  change f (w, s) = (ok tt, (w, f s))

  abbrev pub release : (W → W) → M (Slot W) ⊤
  release f (w, s) = (ok tt, (f w, s))

unfoldable pub fd_value : Option ℕ → ℕ
fd_value none = 0
fd_value (some fd) = fd

unfoldable pub queue_sums : CfgInt → CfgInt → CfgInt → Result (ℕ × ℕ)
queue_sums (nonneg rx) (nonneg tx) (nonneg combined) = ok (rx + combined, tx + combined)
queue_sums _ _ _ = err (te_rc te_tapi einval)

module _ {W : Type 0} (o : XdpOps W) where
  -- net_drv_xdp_adjust_rx_size()
  unfoldable pub adjust_rx_size : XdpCfg → W → Result XdpCfg
  adjust_rx_size cfg w = elim (o.ring_size w) [
    | ok number ↦ ok (record cfg {
      rx_frames = number % 2 ^ 32;
      rx_size = number % 2 ^ 32;
      fill_size = number % 2 ^ 32;
      frames_num = (number + cfg.tx_size) % 2 ^ 64;
    })
    | err e ↦ err e
    | ends j ↦ ends j
  ]

  -- net_drv_xdp_get_queues_num(), with both pointers given: the Rx and the Tx queues.
  unfoldable pub get_queues_num : M W (ℕ × ℕ)
  unfolding queue_sums
  get_queues_num = do
    rx ← reads o.chan_rx
    tx ← reads o.chan_tx
    combined ← reads o.chan_combined
    reads (λ _. queue_sums rx tx combined)

  -- net_drv_xdp_destroy_sock(). A failed deletion leaves the rest as it is.
  unfoldable pub delete_sock : M (Slot W) ⊤
  delete_sock (w, s) =
      when (not (s.sock == 0))
        (do
          on_agent (o.socket_delete s.sock)
          change (λ t. record t { sock = 0; fd = none; queue_id = 0; tx_capable = false }))
        (w, s)

  unfoldable pub delete_umem : M (Slot W) ⊤
  delete_umem (w, s) =
      when (not (s.umem == 0))
        (do on_agent (o.umem_delete s.umem); change (λ t. record t { umem = 0 })) (w, s)

  unfoldable pub delete_mem : M (Slot W) ⊤
  delete_mem (w, s) =
      when (not (s.mem == 0)) (release (o.free_mem s.mem) >> change (λ t. record t { mem = 0 }))
        (w, s)

  unfoldable pub destroy_sock : M (Slot W) ⊤
  destroy_sock = do delete_sock; delete_umem; delete_mem

  -- The calls of net_drv_xdp_create_sock() that allocate, each with the pointer it stores.
  unfoldable pub alloc_mem : XdpCfg → M (Slot W) ⊤
  alloc_mem cfg = do
    p ← on_agent (o.posix_memalign cfg.frame_len (mem_len cfg))
    change (λ t. record t { mem = p })

  unfoldable pub alloc_umem : XdpCfg → M (Slot W) ⊤
  alloc_umem cfg (w, s) =
      (do p ← on_agent (o.umem_create s.mem (mem_len cfg) cfg); change (λ t. record t { umem = p }))
        (w, s)

  unfoldable pub fill_rx : ℕ → XdpCfg → M (Slot W) ⊤
  fill_rx queue_id cfg (w, s) =
      (do
        n ← on_agent (o.rx_fill_simple s.umem queue_id cfg.rx_frames)
        if n == 0 then fail (te_rc no_module efail) else pure tt)
        (w, s)

  unfoldable pub alloc_sock : ℕ → XdpCfg → M (Slot W) ⊤
  alloc_sock queue_id cfg (w, s) =
      (do
        (p, fd) ← on_agent (o.socket_create queue_id s.umem cfg)
        change (λ t. record t { sock = p; fd = some fd }))
        (w, s)

  unfoldable pub set_map : ℕ → ℕ → M (Slot W) ⊤
  unfolding fd_value
  set_map map_fd queue_id (w, s) = on_agent (o.map_set map_fd queue_id (fd_value s.fd)) (w, s)

  unfoldable pub allocate : ℕ → ℕ → XdpCfg → M (Slot W) ⊤
  allocate map_fd queue_id cfg = do
    alloc_mem cfg
    alloc_umem cfg
    fill_rx queue_id cfg
    alloc_sock queue_id cfg
    set_map map_fd queue_id

  -- The code after the label `cleanup`: what was allocated is destroyed, the status of that is
  -- dropped, and the error is TE_EFAIL.
  unfoldable pub or_destroy : Result ⊤ × Slot W → Result ⊤ × Slot W
  or_destroy (ok x, st) = (ok x, st)
  or_destroy (err e, st) = (err (te_rc no_module efail), (destroy_sock st).1)
  or_destroy (ends j, st) = (ends j, st)

  -- net_drv_xdp_create_sock()
  unfoldable pub create_sock : ℕ → ℕ → XdpCfg → M (Slot W) ⊤
  create_sock map_fd queue_id cfg = do
    change (λ _. record xdp_sock_init { queue_id = queue_id })
    (rx_queues, tx_queues) ← on_agent get_queues_num
    if leb rx_queues queue_id then fail (te_rc te_tapi einval) else (do
      change (λ t. record t { tx_capable = ltb queue_id tx_queues })
      (λ st. or_destroy (allocate map_fd queue_id cfg st)))
