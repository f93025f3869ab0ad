-- ===== src/Rss/Channels.antt =====
-- The choice of a new number of combined channels, the check of the default indirection table and
-- its change, in the test net-drv-ts/rss/change_channels.c.
pub mod Choice
mod Tests
use net_drv_ts.Base.{
  ℕ, zero, suc, ◌+◌, ◌-◌, ◌*◌, ◌/◌, ◌%◌, ◌^◌, ◌<◌, ◌≤◌, ◌≡◌, Bool, true, false, not, ◌&&◌, ◌||◌,
  none, some, Option, ⊤, List, [], ◌∷◌, ◌==◌, ltb, leb, if◌then◌else◌, ℤ, pos, negsuc, M, Result,
  ok, err, ends, pure, jump, reads, check_rc, test_skip, test_fail, ◌>>=◌, ◌>>◌, arith,
}

abbrev pub max_attempts : ℕ
max_attempts = 10000

-- `for (j = n; j > 1 && j % 2 == 0; j /= 2)`; `fuel` is a bound on the rounds, and `n` of them are
-- enough.
unfoldable pub halved : ℕ → ℕ → ℕ
halved zero j = j
halved (suc fuel) j = let rest = halved fuel (j / 2) in if ltb 1 j && j % 2 == 0 then rest else j

-- Whether a number is passed over
unfoldable pub rejected : Bool → ℕ → ℕ → Bool
unfolding halved
rejected two_power combined_init n =
    let j = halved n n in
    n == combined_init || ((ltb 1 j && two_power) || (j == 1 && not two_power))

-- The random numbers, the indirection table of one interface, and RING_VERDICT.
pub record ChannelOps (W : Type 0) : Type 0 where
  pub rand_range : ℕ → ℕ → W → ℕ × W
  pub indir_get : ℕ → W → Result ℕ
  pub indir_set_local : ℕ → ℕ → M W ⊤
  pub indir_commit : M W ⊤
  pub verdict : W → W

module _ {W : Type 0} (o : ChannelOps W) where
  unfoldable pub choose_from : ℕ → Bool → ℕ → ℕ → M W ℕ
  unfolding rejected
  choose_from zero two_power combined_init combined_max w = (ends test_fail, w)
  choose_from (suc left) two_power combined_init combined_max w =
      let again = choose_from left two_power combined_init combined_max in
      let (n, w1) = o.rand_range 2 combined_max w in
      if rejected two_power combined_init n then again w1 else (ok n, w1)

  -- The number of channels, from the greatest and the initial one
  unfoldable pub choose_channels : Bool → ℤ → ℤ → M W ℕ
  unfolding choose_from
  choose_channels two_power (pos combined_max) (pos combined_init) =
      if ltb combined_init 1 || (ltb combined_max 3 || (two_power && ltb combined_max 4))
      then jump test_skip
      else choose_from max_attempts two_power combined_init combined_max
  choose_channels two_power (pos _) (negsuc _) = jump test_skip
  choose_channels two_power (negsuc _) _ = jump test_skip

  -- The table is read from entry `i` on; a verdict is given for the first unexpected entry only.
  unfoldable pub check_default_from : ℕ → ℕ → ℕ → Bool → M W (List ℕ)
  check_default_from combined i zero unexp = pure []
  check_default_from combined i (suc left) unexp = do
    rx_queue ← check_rc (reads (o.indir_get i))
    let unexpected = not (rx_queue == i % combined)
    (λ w. (ok tt, if unexpected && not unexp then o.verdict w else w))
    rest ← check_default_from combined (i + 1) left (unexpected || unexp)
    pure (rx_queue ∷ rest)

  unfoldable pub check_default_table : ℕ → ℕ → M W (List ℕ)
  unfolding check_default_from
  check_default_table combined table_size = check_default_from combined 0 table_size false

  -- Another queue for an entry, where there is more than one
  unfoldable pub pick_queue : ℕ → ℕ → ℕ → ℕ → ℕ → W → ℕ × W
  pick_queue zero min_rxq max_rxq old last w = (last, w)
  pick_queue (suc left) min_rxq max_rxq old last w =
      let again = pick_queue left min_rxq max_rxq old in
      let (new_rxq, w1) = o.rand_range min_rxq max_rxq w in
      if not (new_rxq == old) || min_rxq == max_rxq then (new_rxq, w1) else again new_rxq w1

  unfoldable pub change_entries : ℕ → List ℕ → ℕ → ℕ → M W ⊤
  unfolding pick_queue
  change_entries i [] min_rxq max_rxq w = (ok tt, w)
  change_entries i (old ∷ table) min_rxq max_rxq w =
      let rest = change_entries (i + 1) table min_rxq max_rxq in
      let (new_rxq, w1) = pick_queue max_attempts min_rxq max_rxq old 0 w in
      (check_rc (o.indir_set_local i new_rxq) >> rest) w1

  unfoldable pub change_indir_table : List ℕ → ℕ → ℕ → M W ⊤
  unfolding change_entries
  change_indir_table init_table min_rxq max_rxq =
      change_entries 0 init_table min_rxq max_rxq >> o.indir_commit
