-- ===== src/Rss/Prologue.antt =====
-- The prologue of the RSS tests, net-drv-ts/rss/prologue.c, up to its cleanup, with the macro
-- NET_DRV_RSS_CHECK_SET_HFUNC() of net-drv-ts/rss/common_rss.h. The sockets are left in hand.
pub mod Queues
mod Search
pub mod Detection
mod Tests
use net_drv_ts.Base.{
  ℕ, zero, suc, ◌+◌, ◌-◌, ◌%◌, ◌^◌, ◌≡◌, ◌⊎◌, inl, inr, Bool, true, false, not, ◌&&◌, ◌||◌, none,
  some, Option, ⊤, List, [], ◌∷◌, Bytes, codes, ◌==◌, ltb, leb, if◌then◌else◌, M, Result, ok, err,
  ends, Jump, TeErrno, is_te_cs, is_te_tapi, is_enoent, is_eopnotsupp, is_cs_enoent, test_skip,
  test_fail, test_stop, test_verdict, pure, jump, reads, check_rc, on_error, when, ◌>>=◌, ◌>>◌,
}
use net_drv_ts.Library.Neighbours.{UpOps, net_drv_set_mtu}
use net_drv_ts.Rss.HashFunction.{HashFuncOps, check_set_hfunc}
use net_drv_ts.Rss.Context.{RssOps, checked_hkey}

-- An element of the statistics of the XDP hook.
pub record RxqStats : Type 0 where
  pub rx_queue : ℕ
  pub pkts : ℕ

pub data Variant : Type 0 where
  standard sym_or_xor : Variant

-- TE_TOEPLITZ_HASH_STANDARD and TE_TOEPLITZ_HASH_SYM_OR_XOR, by their numbers
pub record VariantIds : Type 0 where
  pub id_of : Variant → ℕ

abbrev pub variant_eq : Variant → Variant → Bool
variant_eq standard standard = true
variant_eq standard sym_or_xor = false
variant_eq sym_or_xor standard = false
variant_eq sym_or_xor sym_or_xor = true

-- The calls besides those of RssOps. `with_port` is te_sockaddr_set_port(); a flag `true` of an
-- operation stands for IUT, `false` for Tester.
pub record PrologueOps (W Addr : Type 0) : Type 0 where
  pub with_port : Addr → ℕ → Addr
  pub rand_range : ℕ → ℕ → M W ℕ
  pub port_is_free : Bool → ℕ → M W Bool
  pub gen_connection : Addr → Addr → M W (ℕ × ℕ)
  pub close : Bool → ℕ → M W ⊤
  pub stats_reset : M W ⊤
  pub stats_set_params : Addr → Addr → M W ⊤
  pub stats_clear : M W ⊤
  pub stats_read : M W (List RxqStats)
  pub send_recv_ext_check : ℕ × ℕ → Bool → M W ⊤
  pub fill_indir_table : ℕ → ℕ → M W ⊤
  pub indir_commit : M W ⊤
  pub print_indir_table : M W ⊤
  pub register_variant : M W ⊤
  pub add_variant : Variant → M W ⊤
  pub verdict : M W ⊤
  pub priv_flag_set : Bytes → Bool → M W ⊤
  pub synchronize_interface : M W ⊤
  pub stats_init_mode : Bool → M W ⊤
  pub wait_changes : M W ⊤
  pub synchronize : M W ⊤

-- A call of RssOps
abbrev pub answer : {A : Type 0} → TeErrno ⊎ A → Result A
answer (inr a) = ok a
answer (inl e) = err e

abbrev pub jump_or : {A : Type 0} → Jump ⊎ A → Result A
jump_or (inr a) = ok a
jump_or (inl j) = ends j

-- The variables of try_detect_toeplitz_variant() that its loop leaves.
pub record Choice (Addr : Type 0) : Type 0 where
  pub iut_addr : Addr
  pub tst_addr : Addr
  pub queue_std : ℕ
  pub queue_sym : ℕ

module _ {W Cache Addr : Type 0} (o : PrologueOps W Addr) (r : RssOps W Cache Addr)
    (ids : VariantIds) where
  unfoldable pub send_pkts : ℕ → ℕ × ℕ → Bool → M W ⊤
  send_pkts zero socks jumbo = pure tt
  send_pkts (suc n) socks jumbo = o.send_recv_ext_check socks jumbo >> send_pkts n socks jumbo

  -- The loop over the statistics, from `got_queue` and `reg_pkts` on
  unfoldable pub scan_stats : List RxqStats → Option ℕ → ℕ → M W (Option ℕ × ℕ)
  scan_stats [] got_queue reg_pkts = pure (got_queue, reg_pkts)
  scan_stats (s ∷ rest) none reg_pkts =
      scan_stats rest (if ltb 0 s.pkts then some s.rx_queue else none)
        (if ltb 0 s.pkts then (reg_pkts + s.pkts) % 2 ^ 32 else reg_pkts)
  scan_stats (s ∷ rest) (some q) reg_pkts =
      let more = scan_stats rest (some q) reg_pkts in
      if ltb 0 s.pkts then jump test_verdict else more

  -- `got_queue` is -1 where no packet is registered, which is a verdict before it is returned.
  unfoldable pub judge_queue : ℕ → Option ℕ × ℕ → M W ℕ
  judge_queue pkts_num (got_queue, reg_pkts) =
      if reg_pkts == 0
      then jump test_verdict
      else if not (reg_pkts == pkts_num)
      then jump test_verdict
      else pure (elim got_queue [ none ↦ 2 ^ 32 - 1 | some q ↦ q ])

  unfoldable pub send_get_rx_queue : ℕ × ℕ → Bool → M W ℕ
  unfolding send_pkts scan_stats judge_queue
  send_get_rx_queue socks jumbo = do
    check_rc o.stats_clear
    send_pkts 10 socks jumbo
    stats ← check_rc o.stats_read
    got ← scan_stats stats none 0
    judge_queue 10 got

  -- Whether all entries from `i` on are the first one
  unfoldable pub same_entries : ℕ → ℕ → ℕ → M W Bool
  same_entries first i zero = pure true
  same_entries first i (suc left) =
      let rest = same_entries first (i + 1) left in
      (do
        entry ← check_rc (reads (λ w. answer (r.indir_get i w)))
        if first == entry then rest else pure false)

  unfoldable pub check_fix_indir_table : ℕ → ℕ → M W ⊤
  unfolding same_entries
  check_fix_indir_table rx_queues table_size = do
    first ← check_rc (reads (λ w. answer (r.indir_get 0 w)))
    fix ← same_entries first 1 (table_size - 1)
    when fix (check_rc (o.fill_indir_table 0 (rx_queues - 1)) >> check_rc o.indir_commit)
    check_rc o.print_indir_table

  -- The hash of a variant as an index of the table
  unfoldable pub hash_idx : Option Cache → ℕ → Addr → Addr → Variant → Result ℕ
  hash_idx cache table_size tst iut v = elim (r.hash_sa cache tst iut (ids.id_of v)) [
    | inl e ↦ err e
    | inr hash ↦ ok (hash % table_size)
  ]

  unfoldable pub ports_free : ℕ → ℕ → M W Bool
  ports_free iut_port tst_port = if iut_port == 0 then pure true else (do
    iut_free ← o.port_is_free true iut_port
    if iut_free then o.port_is_free false tst_port else pure false)

  -- An attempt from the entries of the two indices on; `again` is what follows it where it fails.
  unfoldable pub read_entries :
      (Choice Addr → M W (Choice Addr)) → ℕ → ℕ → ℕ → ℕ → Choice Addr → M W (Choice Addr)
  unfolding ports_free
  read_entries again iut_port tst_port idx_std idx_sym c1 = do
    queue_std ← check_rc (reads (λ w. answer (r.indir_get idx_std w)))
    queue_sym ← check_rc (reads (λ w. answer (r.indir_get idx_sym w)))
    let c2 = record c1 { queue_std = queue_std; queue_sym = queue_sym }
    if queue_std == queue_sym
        then again c2
        else (do free ← ports_free iut_port tst_port; if free then pure c2 else again c2)

  -- The loop over attempts; after the last one the code goes on with what it has.
  unfoldable pub choose : Option Cache → ℕ → ℕ → Choice Addr → M W (Choice Addr)
  unfolding hash_idx read_entries
  choose cache table_size zero c = pure c
  choose cache table_size (suc left) c =
      let again = choose cache table_size left in
      (do
        iut_port ← o.rand_range 20000 0xffff
        tst_port ← o.rand_range 20000 0xffff
        let iut = o.with_port c.iut_addr iut_port
        let tst = o.with_port c.tst_addr tst_port
        let c1 = record c { iut_addr = iut; tst_addr = tst }
        idx_std ← check_rc (reads (λ _. hash_idx cache table_size tst iut standard))
        idx_sym ← check_rc (reads (λ _. hash_idx cache table_size tst iut sym_or_xor))
        if idx_std == idx_sym
            then again c1
            else read_entries again iut_port tst_port idx_std idx_sym c1)

  unfoldable pub match_queue : ℕ → Choice Addr → M W Variant
  match_queue queue_got c =
      if queue_got == c.queue_std
      then pure standard
      else if queue_got == c.queue_sym
      then pure sym_or_xor
      else jump test_verdict

  -- From the connection of the chosen addresses on
  unfoldable pub detect_on : Bool → Choice Addr → M W Variant
  unfolding send_get_rx_queue match_queue
  detect_on jumbo c = do
    socks ← o.gen_connection c.iut_addr c.tst_addr
    check_rc o.stats_reset
    check_rc (o.stats_set_params c.tst_addr c.iut_addr)
    queue_got ← send_get_rx_queue socks jumbo
    detected ← match_queue queue_got c
    o.close true socks.0
    o.close false socks.1
    pure detected

  -- `start` has the addresses of the test and what the uninitialised queue_std and queue_sym hold.
  unfoldable pub try_detect_toeplitz_variant : Option Cache → ℕ → Bool → Choice Addr → M W Variant
  unfolding choose detect_on
  try_detect_toeplitz_variant cache table_size jumbo start =
      choose cache table_size 10000 start >>= detect_on jumbo

  -- The attempts after the first, `prev` being the variant of the one before; what uninitialised
  -- variables hold differs from call to call.
  unfoldable pub confirm : Option Cache → ℕ → Bool → (ℕ → Choice Addr) → ℕ → Variant → M W Variant
  confirm cache table_size jumbo start zero prev = pure prev
  confirm cache table_size jumbo start (suc left) prev = do
    variant ← try_detect_toeplitz_variant cache table_size jumbo (start left)
    if variant_eq prev variant
        then confirm cache table_size jumbo start left variant
        else jump test_verdict

  unfoldable pub detect_toeplitz_variant : Option Cache → ℕ → Bool → (ℕ → Choice Addr) → M W ⊤
  unfolding try_detect_toeplitz_variant confirm
  detect_toeplitz_variant cache table_size jumbo start = do
    first ← try_detect_toeplitz_variant cache table_size jumbo (start 9)
    variant ← confirm cache table_size jumbo start 9 first
    when (variant_eq variant sym_or_xor) o.verdict
    check_rc o.register_variant
    check_rc (o.add_variant variant)

  -- NET_DRV_RSS_CHECK_SET_HFUNC(), the test being stopped where the function is not known
  unfoldable pub check_set_hfunc_or_stop : HashFuncOps W → Bytes → M W ⊤
  check_set_hfunc_or_stop h func_name = on_error (check_set_hfunc h func_name) (λ e.
      when (is_te_tapi e.origin && (is_enoent e.error || is_eopnotsupp e.error)) o.verdict
      >> jump test_stop)

  -- CHECK_NOT_NULL(cache = te_toeplitz_cache_init_size(hash_key, key_len))
  unfoldable pub init_cache : Bytes → M W (Option Cache)
  init_cache key w =
      let (cache, w1) = r.cache_init key w in
      elim cache [ none ↦ (ends test_fail, w1) | some c ↦ (ok (some c), w1) ]

  -- From the check of the hash function on
  unfoldable pub set_up : HashFuncOps W → Bool → (ℕ → Choice Addr) → ℕ → ℕ → M W ⊤
  unfolding check_set_hfunc_or_stop check_fix_indir_table init_cache detect_toeplitz_variant
  set_up h multi_seg start rx_queues table_size = do
    check_set_hfunc_or_stop h (codes "toeplitz")
    check_fix_indir_table rx_queues table_size
    hash_key ← reads (λ w. jump_or (checked_hkey r (r.hash_key_get w)))
    cache ← init_cache hash_key
    on_error (o.stats_init_mode multi_seg)
        (λ _. if multi_seg then jump test_skip else jump test_fail)
    when multi_seg o.wait_changes
    detect_toeplitz_variant cache table_size multi_seg start
    check_rc o.synchronize

  unfoldable pub with_queues : HashFuncOps W → Bool → (ℕ → Choice Addr) → ℕ → M W ⊤
  unfolding set_up
  with_queues h multi_seg start rx_queues = do
    table_size ← check_rc (reads (λ w. answer (r.indir_table_size_get w)))
    if leb table_size 1 then jump test_skip else set_up h multi_seg start rx_queues table_size

  -- main() up to the cleanup, with the MTU of the interface of IUT and of that of Tester
  unfoldable pub run_body : HashFuncOps W → UpOps W → UpOps W → Bool → (ℕ → Choice Addr) → M W ⊤
  unfolding with_queues
  run_body h iut tst multi_seg start = do
    on_error (o.priv_flag_set (codes "flow-director-atr") false)
        (λ e. if is_cs_enoent e then pure tt else jump test_verdict)
    when multi_seg
        (net_drv_set_mtu iut 9000 >> (net_drv_set_mtu tst 9000 >> check_rc o.synchronize_interface))
    rx_queues ←
        on_error (reads (λ w. answer (r.rx_queues_get w)))
          (λ e. if is_cs_enoent e then jump test_skip else jump test_stop)
    if leb rx_queues 1 then jump test_skip else with_queues h multi_seg start rx_queues
