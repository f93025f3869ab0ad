-- ===== src/Rss/Prologue/Tests.antt =====
-- A NIC that uses the second variant of the hash, with a table of two queues in turn, and one on which
-- the variants cannot be told apart.
use mathlib.Core.Path.{subst}
use net_drv_ts.Base.{
  inl, ◌⊎◌, ℕ, ◌+◌, ◌*◌, ◌%◌, ◌≡◌, ◌<◌, All, refl, ap, sym, inr, true, some, List, [], ◌∷◌, ok,
  value_or, arith,
}
use net_drv_ts.Rss.Context.{RssOps}
use net_drv_ts.Rss.Prologue.{
  RxqStats, standard, sym_or_xor, VariantIds, PrologueOps, Choice, choose, read_entries,
  try_detect_toeplitz_variant, hash_idx,
}
use net_drv_ts.Rss.Prologue.Queues.{IsQueueOf, DetectionLaws}
use net_drv_ts.Rss.Prologue.Detection.{try_detect_toeplitz_variant-used, choose_uninitialised}

abbrev Ports : Type 0
Ports = ℕ × ℕ

-- Addresses are their ports, and `step` is how far apart the hashes of the variants are.
abbrev rss : ℕ → RssOps Ports ℕ ℕ
rss step = record {
  hash_key_get = λ w. inr [];
  rx_queues_get = λ w. inr 2;
  indir_table_size_get = λ w. inr 4;
  toeplitz_variant_get = λ w. inr 0;
  indir_get = λ i w. inr (i % 2);
  alloc = λ n w. (true, w);
  free_key = λ k w. w;
  cache_init = λ k w. (some 0, w);
  hash_fini = λ c w. w;
  hash_sa = λ cache tst iut v. inr (tst + iut + v * step);
}

abbrev ids : VariantIds
ids = record { id_of = λ v. elim v [ standard ↦ 0 | sym_or_xor ↦ 1 ] }

abbrev nic : PrologueOps Ports ℕ
nic = record {
  with_port = λ a port. port;
  rand_range = λ lo hi w. (ok lo, w);
  port_is_free = λ side port w. (ok true, w);
  gen_connection = λ iut tst w. (ok (3, 4), w);
  close = λ side s w. (ok tt, w);
  stats_reset = λ w. (ok tt, w);
  stats_set_params = λ tst iut w. (ok tt, (tst, iut));
  stats_clear = λ w. (ok tt, w);
  stats_read = λ w. (ok (record { rx_queue = ((w.0 + w.1 + 1) % 4) % 2; pkts = 10 } ∷ []), w);
  send_recv_ext_check = λ socks jumbo w. (ok tt, w);
  fill_indir_table = λ lo hi w. (ok tt, w);
  indir_commit = λ w. (ok tt, w);
  print_indir_table = λ w. (ok tt, w);
  register_variant = λ w. (ok tt, w);
  add_variant = λ v w. (ok tt, w);
  verdict = λ w. (ok tt, w);
  priv_flag_set = λ name on w. (ok tt, w);
  synchronize_interface = λ w. (ok tt, w);
  stats_init_mode = λ frags w. (ok tt, w);
  wait_changes = λ w. (ok tt, w);
  synchronize = λ w. (ok tt, w);
}

nic_queue :
    (stats : List RxqStats) (w w' : Ports)
    → nic.stats_read w ≡ (ok stats, w')
    → All
        (λ s.
          0 < s.pkts
          → IsQueueOf nic (rss 1) ids (some 0) 4 (λ i. i % 2) sym_or_xor w.0 w.1 s.rx_queue)
        stats
unfolding hash_idx
nic_queue stats w w' e =
    subst
      (All (λ s.
        0 < s.pkts
        → IsQueueOf nic (rss 1) ids (some 0) 4 (λ i. i % 2) sym_or_xor w.0 w.1 s.rx_queue))
      (ap (λ p. value_or [] p.0) e) ((λ _. ((w.0 + w.1 + 1) % 4, refl, refl)), tt)

alike :
    (tst iut i j : ℕ)
    → hash_idx nic (rss 4) ids (some 0) 4 tst iut standard ≡ ok i
    → hash_idx nic (rss 4) ids (some 0) 4 tst iut sym_or_xor ≡ ok j
    → i ≡ j
unfolding hash_idx
alike tst iut i j e e' = omega (arith, ap (value_or 0) e, ap (value_or 0) e')

eq_of_inr : {A B : Type 0} {a b : B} → ◌≡◌ {A = A ⊎ B} (inr a) (inr b) → a ≡ b
eq_of_inr {A} {B} {a} e = ap (λ x. right_or a x) e
  where
    right_or : B → A ⊎ B → B
    right_or d (inl _) = d
    right_or d (inr b) = b

abbrev nic_laws : DetectionLaws nic (rss 1) ids (some 0) 4 (λ i. i % 2)
nic_laws = record {
  used = sym_or_xor;
  flow = λ w. w;
  indir_lem = λ i q w e. sym (eq_of_inr e);
  set_params_lem = λ tst iut w w' e. ap (λ p. p.1) (sym e);
  clear_lem = λ w w' e. ap (λ p. p.1) (sym e);
  send_lem = λ socks jumbo w w' e. ap (λ p. p.1) (sym e);
  read_lem = nic_queue;
}

abbrev begin : Choice ℕ
begin = record { iut_addr = 1; tst_addr = 2; queue_std = 77; queue_sym = 78 }

abbrev chosen : Choice ℕ
chosen = record { iut_addr = 20000; tst_addr = 20000; queue_std = 0; queue_sym = 1 }

try_detect_toeplitz_variant-used_example :
    value_or standard (try_detect_toeplitz_variant nic (rss 1) ids (some 0) 4 true begin (0, 0)).0
    ≡ sym_or_xor
unfolding choose read_entries hash_idx try_detect_toeplitz_variant
try_detect_toeplitz_variant-used_example =
    try_detect_toeplitz_variant-used nic (rss 1) ids (some 0) 4 (λ i. i % 2) nic_laws true begin
      chosen
      (value_or standard
        (try_detect_toeplitz_variant nic (rss 1) ids (some 0) 4 true begin (0, 0)).0)
      (0, 0) (0, 0) (20000, 20000) refl
      (0, 1, (0, refl, refl), (1, refl, refl), (λ e. absurd (omega (arith, e)))) refl

choose_uninitialised_example :
    ((value_or begin (choose nic (rss 4) ids (some 0) 4 3 begin (0, 0)).0).queue_std ≡ 77)
    × ((value_or begin (choose nic (rss 4) ids (some 0) 4 3 begin (0, 0)).0).queue_sym ≡ 78)
unfolding choose read_entries hash_idx
choose_uninitialised_example =
    choose_uninitialised nic (rss 4) ids (some 0) 4 (λ i. i % 2) 3 begin
      (value_or begin (choose nic (rss 4) ids (some 0) 4 3 begin (0, 0)).0) (0, 0) (0, 0) alike refl
