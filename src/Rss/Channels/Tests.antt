-- ===== src/Rss/Channels/Tests.antt =====
-- Random numbers that count up, in a world of the next one.
use net_drv_ts.Base.{
  ℕ, ◌+◌, ◌≤◌, ◌≡◌, refl, true, false, leb, ◌&&◌, if◌then◌else◌, Bool-cases, inl, inr, pos, ok,
  ends, test_fail, arith,
}
use net_drv_ts.Rss.Channels.{ChannelOps, choose_channels, choose_from, rejected, halved}
use net_drv_ts.Rss.Channels.Choice.{RandLaw, Fits, choose_channels-Fits, choose_channels_impossible}

abbrev ops : ChannelOps ℕ
ops = record {
  rand_range = λ a b w. ((if leb a w && leb w b then w else a), w + 1);
  indir_get = λ i w. ok 0;
  indir_set_local = λ i v w. (ok tt, w);
  indir_commit = λ w. (ok tt, w);
  verdict = λ w. w;
}

rand_lem : RandLaw ops
rand_lem a b w h = elim (Bool-cases (leb a w && leb w b)) [
  | inl inside ↦ rw inside (ground (arith, inside), ground (arith, inside))
  | inr outside ↦ rw outside (omega arith, h)
]

choose_channels-Fits_example :
    (max : ℕ) × (init : ℕ) × (pos 8 ≡ pos max)
    × (pos 2 ≡ pos init)
    × (2 ≤ 4)
    × (4 ≤ max)
    × Fits true init 4
unfolding choose_channels choose_from rejected halved
choose_channels-Fits_example = choose_channels-Fits ops rand_lem true (pos 8) (pos 2) 4 2 5 refl

choose_channels_impossible_example :
    (choose_channels ops false (pos 4) (pos 3) 0).0 ≡ ends test_fail
choose_channels_impossible_example =
    choose_channels_impossible ops rand_lem 4 0 (omega arith) (omega arith)
