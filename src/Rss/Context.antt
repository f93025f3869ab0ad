-- ===== src/Rss/Context.antt =====
-- net_drv_rss_ctx of net-drv-ts/rss/common_rss.h, net_drv_rss_get_check_hkey() there, and
-- net_drv_rss_ctx_prepare(), net_drv_rss_ctx_release(), net_drv_rss_ctx_change_key() and
-- net_drv_rss_predict() of net-drv-ts/rss/common_rss.c. The agent's and the interface's names and
-- the RSS context's number, which are only passed on, are fixed.
pub mod Prediction
use net_drv_ts.Base.{
  ℕ, ◌%◌, ◌≡◌, Bool, true, false, not, ◌&&◌, ⊤, Option, none, some, Bytes, length, if◌then◌else◌, M,
  Result, ok, err, ends, TeErrno, Jump, te_rc, te_cs, no_module, enomem, is_te_cs, is_eopnotsupp,
  ◌⊎◌, inl, inr, test_skip, test_verdict, test_stop,
}

-- NULL is `none`. A hash key carries its length.
pub record RssCtx (Cache : Type 0) : Type 0 where
  pub indir_table_size : ℕ
  pub rx_queues : ℕ
  pub hash_key : Option Bytes
  pub cache : Option Cache
  pub hash_variant : ℕ

-- The configuration tree, the allocator, and the Toeplitz hash of TE's tools library, which makes
-- a cache from a key (or fails for want of memory) and hashes a pair of addresses with it.
pub record RssOps (W Cache Addr : Type 0) : Type 0 where
  pub hash_key_get : W → TeErrno ⊎ Bytes
  pub rx_queues_get : W → TeErrno ⊎ ℕ
  pub indir_table_size_get : W → TeErrno ⊎ ℕ
  pub toeplitz_variant_get : W → TeErrno ⊎ ℕ
  pub indir_get : ℕ → W → TeErrno ⊎ ℕ
  pub alloc : ℕ → W → Bool × W
  pub free_key : Option Bytes → W → W
  pub cache_init : Bytes → W → Option Cache × W
  pub hash_fini : Option Cache → W → W
  pub hash_sa : Option Cache → Addr → Addr → ℕ → TeErrno ⊎ ℕ

-- The arguments `hash_out`, `idx_out` and `queue_out`, where each is given, and what was stored.
pub record Wanted : Type 0 where
  pub hash_out : Bool
  pub idx_out : Bool
  pub queue_out : Bool

pub record Predicted : Type 0 where
  pub hash : Option ℕ
  pub idx : Option ℕ
  pub queue : Option ℕ

abbrev pub if_wanted : Bool → ℕ → Option ℕ
if_wanted b v = if b then some v else none

module _ {W Cache Addr : Type 0} (o : RssOps W Cache Addr) where
  -- net_drv_rss_get_check_hkey()
  unfoldable pub checked_hkey : TeErrno ⊎ Bytes → Jump ⊎ Bytes
  checked_hkey (inr key) = inr key
  checked_hkey (inl e) =
      inl (if is_te_cs e.origin && is_eopnotsupp e.error then test_skip else test_verdict)

  -- net_drv_rss_ctx_release()
  unfoldable pub ctx_release : W × RssCtx Cache → W × RssCtx Cache
  ctx_release (w, ctx) = (
    o.hash_fini ctx.cache (o.free_key ctx.hash_key w),
    record ctx { hash_key = none; cache = none },
  )

  -- `goto cleanup` after a failure
  unfoldable pub give_up : W × RssCtx Cache → Result ⊤ × (W × RssCtx Cache)
  unfolding ctx_release
  give_up st = (ends test_stop, ctx_release st)

  unfoldable pub prepare_variant : TeErrno ⊎ ℕ → W × RssCtx Cache → Result ⊤ × (W × RssCtx Cache)
  unfolding give_up
  prepare_variant (inr hash_var) (w, ctx) = (ok tt, (w, record ctx { hash_variant = hash_var }))
  prepare_variant (inl e) st = give_up st

  unfoldable pub prepare_cache : Option Cache × W → RssCtx Cache → Result ⊤ × (W × RssCtx Cache)
  unfolding give_up prepare_variant
  prepare_cache (none, w) ctx = give_up (w, record ctx { cache = none })
  prepare_cache (some c, w) ctx =
      prepare_variant (o.toeplitz_variant_get w) (w, record ctx { cache = some c })

  unfoldable pub prepare_size :
      Bytes → TeErrno ⊎ ℕ → W × RssCtx Cache → Result ⊤ × (W × RssCtx Cache)
  unfolding give_up prepare_cache
  prepare_size key (inr size) (w, ctx) =
      prepare_cache (o.cache_init key w) (record ctx { indir_table_size = size })
  prepare_size key (inl e) st = give_up st

  unfoldable pub prepare_queues :
      Bytes → TeErrno ⊎ ℕ → W × RssCtx Cache → Result ⊤ × (W × RssCtx Cache)
  unfolding give_up prepare_size
  prepare_queues key (inr rx_queues) (w, ctx) =
      prepare_size key (o.indir_table_size_get w) (w, record ctx { rx_queues = rx_queues })
  prepare_queues key (inl e) st = give_up st

  unfoldable pub prepare_key : Jump ⊎ Bytes → W × RssCtx Cache → Result ⊤ × (W × RssCtx Cache)
  unfolding prepare_queues
  prepare_key (inr key) (w, ctx) =
      prepare_queues key (o.rx_queues_get w) (w, record ctx { hash_key = some key })
  prepare_key (inl j) st = (ends j, st)

  -- net_drv_rss_ctx_prepare()
  unfoldable pub ctx_prepare : W × RssCtx Cache → Result ⊤ × (W × RssCtx Cache)
  unfolding checked_hkey prepare_key
  ctx_prepare st = prepare_key (checked_hkey (o.hash_key_get st.0)) st

  -- The second half of net_drv_rss_ctx_change_key(), with the new cache
  unfoldable pub replace_key :
      Bytes → Option Cache × W → RssCtx Cache → Result ⊤ × (W × RssCtx Cache)
  replace_key hash_key (none, w) ctx =
      (err (te_rc no_module enomem), (o.free_key (some hash_key) w, ctx))
  replace_key hash_key (some new_cache, w) ctx =
      let w1 = o.free_key ctx.hash_key w in
      (
        ok tt,
        (o.hash_fini ctx.cache w1, record ctx { hash_key = some hash_key; cache = some new_cache }),
      )

  -- net_drv_rss_ctx_change_key()
  unfoldable pub ctx_change_key : Bytes → W × RssCtx Cache → Result ⊤ × (W × RssCtx Cache)
  unfolding replace_key
  ctx_change_key hash_key (w, ctx) =
      let (allocated, w1) = o.alloc (length hash_key) w in
      if allocated
      then replace_key hash_key (o.cache_init hash_key w1) ctx
      else (err (te_rc no_module enomem), (w1, ctx))

  -- The last step of net_drv_rss_predict(), from the answer of `tapi_cfg_if_rss_indir_get`
  unfoldable pub predict_queue : TeErrno ⊎ ℕ → Predicted → Result ⊤ × Predicted
  predict_queue (inr queue) p = (ok tt, record p { queue = some queue })
  predict_queue (inl e) p = (err e, p)

  unfoldable pub predict_idx : RssCtx Cache → Wanted → ℕ → W → Result ⊤ × Predicted
  unfolding predict_queue
  predict_idx ctx wanted hash w =
      let idx = hash % ctx.indir_table_size in
      let p : Predicted = record {
        hash = if_wanted wanted.hash_out hash;
        idx = none;
        queue = none;
      } in
      let p' : Predicted = record p { idx = if_wanted wanted.idx_out idx } in
      if not wanted.idx_out && not wanted.queue_out
      then (ok tt, p)
      else if not wanted.queue_out
      then (ok tt, p')
      else predict_queue (o.indir_get idx w) p'

  unfoldable pub predict_hash : RssCtx Cache → Wanted → TeErrno ⊎ ℕ → W → Result ⊤ × Predicted
  unfolding predict_idx
  predict_hash ctx wanted (inr hash) w = predict_idx ctx wanted hash w
  predict_hash ctx wanted (inl e) w = (err e, record { hash = none; idx = none; queue = none })

  -- net_drv_rss_predict()
  unfoldable pub predict : RssCtx Cache → Addr → Addr → Wanted → W → Result ⊤ × Predicted
  unfolding predict_hash
  predict ctx src_addr dst_addr wanted w =
      predict_hash ctx wanted (o.hash_sa ctx.cache src_addr dst_addr ctx.hash_variant) w
