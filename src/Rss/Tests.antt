-- ===== src/Rss/Tests.antt =====
-- An interface with two hash functions, and its RSS context.
use net_drv_ts.Rss.Context.{RssCtx, RssOps, ctx_change_key}
use net_drv_ts.Rss.Context.Prediction.{UsesKey, ctx_change_key_lem}
use net_drv_ts.Base.{
  ℕ, ◌+◌, ◌%◌, ◌<◌, ◌⊎◌, Option, none, some, TeErrno, no_module, enomem, ends, test_stop, ◌≡◌, refl,
  ap, sym, ◌∙◌, value_or, true, false, ⊤, List, [], ◌∷◌, Bytes, Result, ok, err, te_rc, te_tapi,
  enoent, str_eq, arith, inl, inr, is_eopnotsupp,
}
use net_drv_ts.Rss.HashFunction.{
  HashFunc, HashFuncOps, HashFuncLaws, scan_hfuncs, change_hfunc, hfunc_error, check_set_hfunc,
  Lists, OnlyEnabled, single, check_set_hfunc-OnlyEnabled,
}

-- The functions in force, and those to commit.
abbrev Nic : Type 0
Nic = List HashFunc × List HashFunc

abbrev ops : HashFuncOps Nic
ops = record {
  hfuncs = λ w. ok w.0;
  set_single_local = λ n w. (ok tt, (w.0, single n w.0));
  commit = λ w. (ok tt, (w.1, w.1));
}

hfuncs_commit-ops :
    (n : Bytes) (w v w' : Nic) (fs : List HashFunc)
    → ops.hfuncs w ≡ ok fs
    → ops.set_single_local n w ≡ (ok tt, v)
    → ops.commit v ≡ (ok tt, w')
    → ops.hfuncs w' ≡ ok (single n fs)
hfuncs_commit-ops n w v w' fs e s c =
    sym (ap (λ p. ops.hfuncs p.1) c)
    ∙ ap (λ p. ok p.1.1) (sym s)
    ∙ ap (λ r. ok (single n (value_or [] r))) e

abbrev laws : HashFuncLaws ops
laws = record { hfuncs_commit = hfuncs_commit-ops }

abbrev toeplitz : Bytes
toeplitz = 116 ∷ 111 ∷ 101 ∷ []

abbrev xor : Bytes
xor = 120 ∷ 111 ∷ 114 ∷ []

abbrev functions : List HashFunc
functions = record { name = toeplitz; enabled = true } ∷ record { name = xor; enabled = false } ∷ []

check_set_hfunc-OnlyEnabled_example :
    ((fs : List HashFunc) × (ok (single xor functions) ≡ ok fs) × Lists xor fs × OnlyEnabled xor fs)
    × (check_set_hfunc ops xor (single xor functions, single xor functions)
        ≡ (ok tt, (single xor functions, single xor functions)))
unfolding check_set_hfunc change_hfunc scan_hfuncs hfunc_error net_drv_ts.Base.str_eq
check_set_hfunc-OnlyEnabled_example =
    check_set_hfunc-OnlyEnabled ops laws xor (functions, functions)
      (single xor functions, single xor functions) refl

-- A context on an indirection table of four entries. A cache is the key it was made from, and the
-- hash of two addresses is their sum.
abbrev sum_hash : Option Bytes → ℕ → ℕ → ℕ → TeErrno ⊎ ℕ
sum_hash none a b v = inl (te_rc te_tapi enoent)
sum_hash (some key) a b v = inr (a + b)

abbrev rss_ops : RssOps ℕ Bytes ℕ
rss_ops = record {
  hash_key_get = λ w. inr toeplitz;
  rx_queues_get = λ w. inr 2;
  indir_table_size_get = λ w. inr 4;
  toeplitz_variant_get = λ w. inr 0;
  indir_get = λ i w. inr (i % 2);
  alloc = λ n w. (true, w + 1);
  free_key = λ k w. w;
  cache_init = λ k w. (some k, w);
  hash_fini = λ c w. w;
  hash_sa = sum_hash;
}

abbrev zero_ctx : RssCtx Bytes
zero_ctx = record {
  indir_table_size = 0;
  rx_queues = 0;
  hash_key = none;
  cache = none;
  hash_variant = 0;
}

abbrev ctx : RssCtx Bytes
ctx = record {
  indir_table_size = 4;
  rx_queues = 2;
  hash_key = some toeplitz;
  cache = some toeplitz;
  hash_variant = 0;
}

ctx_change_key_lem_example :
    let (r, (_, ctx')) = ctx_change_key rss_ops xor (0, ctx) in
    (((r ≡ ok tt) × UsesKey rss_ops xor ctx') ⊎ ((r ≡ err (te_rc no_module enomem)) × (ctx' ≡ ctx)))
    × (ctx'.indir_table_size ≡ 4)
    × (ctx'.rx_queues ≡ 2)
    × (ctx'.hash_variant ≡ 0)
ctx_change_key_lem_example = ctx_change_key_lem rss_ops xor 0 ctx
