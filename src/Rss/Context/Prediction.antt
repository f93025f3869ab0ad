-- ===== src/Rss/Context/Prediction.antt =====
-- The context's cache is the one of its key, and what is predicted with it.
use native.Mathlib.Nat.{mod-lt}
use net_drv_ts.Base.{
  ℕ, ◌<◌, ◌%◌, ◌≡◌, ◌⊎◌, inl, inr, refl, ap, true, ⊤, Option, none, some, TeErrno, Bytes, length,
  Result, ok, err, ends, te_rc, no_module, enomem, test_stop, arith, Bool-cases,
}
use net_drv_ts.Rss.Context.{
  RssCtx, RssOps, Wanted, if_wanted, checked_hkey, prepare_variant, prepare_cache, prepare_size,
  prepare_queues, prepare_key, ctx_prepare, replace_key, ctx_change_key, predict_queue, predict_idx,
  predict_hash, predict,
}

-- All outputs at once.
abbrev pub all_wanted : Wanted
all_wanted = record { hash_out = true; idx_out = true; queue_out = true }

module _ {W Cache Addr : Type 0} (o : RssOps W Cache Addr) where
  -- The context has a key, and the cache that was made from this key.
  abbrev pub UsesKey : Bytes → RssCtx Cache → Type 0
  UsesKey key ctx =
      (ctx.hash_key ≡ some key)
      × ((c : Cache) × (v : W) × ((o.cache_init key v).0 ≡ some c) × (ctx.cache ≡ some c))

  -- The key was changed, or nothing was.
  abbrev Changed : Bytes → RssCtx Cache → Result ⊤ × (W × RssCtx Cache) → Type 0
  Changed key ctx (r, (_, ctx')) =
      (((r ≡ ok tt) × UsesKey key ctx') ⊎ ((r ≡ err (te_rc no_module enomem)) × (ctx' ≡ ctx)))
      × (ctx'.indir_table_size ≡ ctx.indir_table_size)
      × (ctx'.rx_queues ≡ ctx.rx_queues)
      × (ctx'.hash_variant ≡ ctx.hash_variant)

  replace_key-Changed :
      (key : Bytes) (v : W) (ctx : RssCtx Cache) (x : Option Cache × W)
      → o.cache_init key v ≡ x
      → Changed key ctx (replace_key o key x ctx)
  unfolding replace_key
  replace_key-Changed key v ctx (none, w) e = (inr (refl, refl), refl, refl, refl)
  replace_key-Changed key v ctx (some c, w) e =
      (inl (refl, (refl, (c, v, ap (λ p. p.0) e, refl))), refl, refl, refl)

  -- Where a change of the key succeeds, the context has the new key and a cache made from it; where
  -- it fails, the error is ENOMEM and the context is as before. Nothing else of it changes.
  pub ctx_change_key_lem :
      (key : Bytes) (w : W) (ctx : RssCtx Cache)
      → let (r, (_, ctx')) = ctx_change_key o key (w, ctx) in
        (((r ≡ ok tt) × UsesKey key ctx') ⊎ ((r ≡ err (te_rc no_module enomem)) × (ctx' ≡ ctx)))
        × (ctx'.indir_table_size ≡ ctx.indir_table_size)
        × (ctx'.rx_queues ≡ ctx.rx_queues)
        × (ctx'.hash_variant ≡ ctx.hash_variant)
  unfolding ctx_change_key
  ctx_change_key_lem key w ctx =
      let v = (o.alloc (length key) w).1 in
      elim (Bool-cases (o.alloc (length key) w).0) [
        | inl allocated ↦ rw allocated (replace_key-Changed key v ctx (o.cache_init key v) refl)
        | inr failed ↦ rw failed (inr (refl, refl), refl, refl, refl)
      ]

  abbrev Prepared : Bytes → Result ⊤ × (W × RssCtx Cache) → Type 0
  Prepared key (r, (_, ctx)) =
      ((r ≡ ok tt) × UsesKey key ctx)
      ⊎ ((r ≡ ends test_stop) × (ctx.hash_key ≡ none) × (ctx.cache ≡ none))

  prepare_variant-Prepared :
      (key : Bytes) (x : TeErrno ⊎ ℕ) (w : W) (ctx : RssCtx Cache)
      → UsesKey key ctx
      → Prepared key (prepare_variant o x (w, ctx))
  unfolding prepare_variant
  prepare_variant-Prepared key (inl e) w ctx h = inr (refl, refl, refl)
  prepare_variant-Prepared key (inr v) w ctx h = inl (refl, h)

  prepare_cache-Prepared :
      (key : Bytes) (v : W) (x : Option Cache × W) (ctx : RssCtx Cache)
      → o.cache_init key v ≡ x
      → ctx.hash_key ≡ some key
      → Prepared key (prepare_cache o x ctx)
  unfolding prepare_cache
  prepare_cache-Prepared key v (none, w) ctx e h = inr (refl, refl, refl)
  prepare_cache-Prepared key v (some c, w) ctx e h =
      prepare_variant-Prepared key (o.toeplitz_variant_get w) w (record ctx { cache = some c })
        (h, (c, v, ap (λ p. p.0) e, refl))

  prepare_size-Prepared :
      (key : Bytes) (x : TeErrno ⊎ ℕ) (w : W) (ctx : RssCtx Cache)
      → ctx.hash_key ≡ some key
      → Prepared key (prepare_size o key x (w, ctx))
  unfolding prepare_size
  prepare_size-Prepared key (inl e) w ctx h = inr (refl, refl, refl)
  prepare_size-Prepared key (inr size) w ctx h =
      prepare_cache-Prepared key w (o.cache_init key w) (record ctx { indir_table_size = size })
        refl h

  prepare_queues-Prepared :
      (key : Bytes) (x : TeErrno ⊎ ℕ) (w : W) (ctx : RssCtx Cache)
      → ctx.hash_key ≡ some key
      → Prepared key (prepare_queues o key x (w, ctx))
  unfolding prepare_queues
  prepare_queues-Prepared key (inl e) w ctx h = inr (refl, refl, refl)
  prepare_queues-Prepared key (inr queues) w ctx h =
      prepare_size-Prepared key (o.indir_table_size_get w) w (record ctx { rx_queues = queues }) h

  -- Where the hash key can be read, the preparation either succeeds, and the context has that key
  -- and a cache made from it; or it stops the test with a context that has neither.
  pub ctx_prepare_lem :
      (key : Bytes) (w : W) (ctx : RssCtx Cache)
      → o.hash_key_get w ≡ inr key
      → let (r, (_, ctx')) = ctx_prepare o (w, ctx) in
        ((r ≡ ok tt) × UsesKey key ctx')
        ⊎ ((r ≡ ends test_stop) × (ctx'.hash_key ≡ none) × (ctx'.cache ≡ none))
  unfolding ctx_prepare
  ctx_prepare_lem key w ctx e =
      rw (e, checked_hkey, prepare_key)
        (prepare_queues-Prepared key (o.rx_queues_get w) w (record ctx { hash_key = some key })
          refl)

  chosen :
      (ctx : RssCtx Cache) (wanted : Wanted) (w : W) (k x : ℕ)
      → o.indir_get (k % ctx.indir_table_size) w ≡ inr x
      → predict_idx o ctx wanted k w ≡ (
        ok tt,
        record {
          hash = if_wanted wanted.hash_out k;
          idx = if_wanted wanted.idx_out (k % ctx.indir_table_size);
          queue = if_wanted wanted.queue_out x;
        },
      )
  unfolding predict_idx predict_queue
  chosen ctx wanted w k x g = elim (Bool-cases wanted.queue_out) [
    | inl queue ↦ elim (Bool-cases wanted.idx_out) [
      | inl idx ↦ rw (queue, idx, g) refl
      | inr idx ↦ rw (queue, idx, g) refl
    ]
    | inr queue ↦ elim (Bool-cases wanted.idx_out) [
      | inl idx ↦ rw (queue, idx) refl
      | inr idx ↦ rw (queue, idx) refl
    ]
  ]

  predict_idx-consistent :
      (ctx : RssCtx Cache) (wanted : Wanted) (w : W) (h i q k : ℕ) (x : TeErrno ⊎ ℕ)
      → 0 < ctx.indir_table_size
      → o.indir_get (k % ctx.indir_table_size) w ≡ x
      → predict_idx o ctx all_wanted k w
        ≡ (ok tt, record { hash = some h; idx = some i; queue = some q })
      → (i < ctx.indir_table_size)
        × (i ≡ h % ctx.indir_table_size)
        × (o.indir_get i w ≡ inr q)
        × (predict_idx o ctx wanted k w ≡ (
          ok tt,
          record {
            hash = if_wanted wanted.hash_out h;
            idx = if_wanted wanted.idx_out i;
            queue = if_wanted wanted.queue_out q;
          },
        ))
  unfolding predict_idx predict_queue
  predict_idx-consistent ctx wanted w h i q k (inl x) pos g e =
      absurd (cc (rw g at (ap (λ p. p.1.queue) e)))
  predict_idx-consistent ctx wanted w h i q k (inr x) pos g e =
      let r : (
        ok tt,
        record { hash = some k; idx = some (k % ctx.indir_table_size); queue = some x },
      )
          ≡ (ok tt, record { hash = some h; idx = some i; queue = some q }) =
        rw g at e in
      let some_k : some k ≡ some h = ap (λ p. p.1.hash) r in
      let some_i : some (k % ctx.indir_table_size) ≡ some i = ap (λ p. p.1.idx) r in
      let some_q : some x ≡ some q = ap (λ p. p.1.queue) r in
      let kh : k ≡ h = cc in
      let ki : k % ctx.indir_table_size ≡ i = cc in
      let xq : x ≡ q = cc in
      rw (← kh, ← ki, ← xq) (mod-lt k pos, refl, g, chosen ctx wanted w k x g)

  predict_hash-consistent :
      (ctx : RssCtx Cache) (wanted : Wanted) (w : W) (h i q : ℕ) (x : TeErrno ⊎ ℕ)
      → 0 < ctx.indir_table_size
      → predict_hash o ctx all_wanted x w
        ≡ (ok tt, record { hash = some h; idx = some i; queue = some q })
      → (i < ctx.indir_table_size)
        × (i ≡ h % ctx.indir_table_size)
        × (o.indir_get i w ≡ inr q)
        × (predict_hash o ctx wanted x w ≡ (
          ok tt,
          record {
            hash = if_wanted wanted.hash_out h;
            idx = if_wanted wanted.idx_out i;
            queue = if_wanted wanted.queue_out q;
          },
        ))
  unfolding predict_hash
  predict_hash-consistent ctx wanted w h i q (inl x) pos e = absurd (ground arith)
  predict_hash-consistent ctx wanted w h i q (inr k) pos e =
      predict_idx-consistent ctx wanted w h i q k (o.indir_get (k % ctx.indir_table_size) w) pos
        refl e

  -- Where all three outputs are predicted, the index is that of the hash in the indirection table,
  -- which is not empty, the queue is what the table has there; and any choice of the outputs
  -- succeeds with the same values.
  pub predict_consistent :
      (ctx : RssCtx Cache) (src dst : Addr) (wanted : Wanted) (w : W) (h i q : ℕ)
      → 0 < ctx.indir_table_size
      → predict o ctx src dst all_wanted w
        ≡ (ok tt, record { hash = some h; idx = some i; queue = some q })
      → (i < ctx.indir_table_size)
        × (i ≡ h % ctx.indir_table_size)
        × (o.indir_get i w ≡ inr q)
        × (predict o ctx src dst wanted w ≡ (
          ok tt,
          record {
            hash = if_wanted wanted.hash_out h;
            idx = if_wanted wanted.idx_out i;
            queue = if_wanted wanted.queue_out q;
          },
        ))
  unfolding predict
  predict_consistent ctx src dst wanted w h i q pos e =
      predict_hash-consistent ctx wanted w h i q (o.hash_sa ctx.cache src dst ctx.hash_variant) pos
        e
