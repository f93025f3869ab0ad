-- ===== src/Ethtool/Modes/Priority.antt =====
-- The priority of modes as a number, and what an update of the two modes leaves of it.
use net_drv_ts.Base.{
  ℕ, ◌+◌, ◌*◌, ◌<◌, ◌≤◌, ◌≡◌, ◌⊎◌, inl, inr, refl, Bool, true, false, not, none, some, Option, ⊤,
  ◌==◌, ltb, if◌then◌else◌, pos, negsuc, int_eq, arith,
}
use net_drv_ts.Phy.ModeName.{PhyConsts}
use net_drv_ts.Phy.State.{ModeInfo}
use net_drv_ts.Ethtool.Modes.{
  is_positive, pair_priority_cmp, same_as, none_or_above, update_common_nodes,
}

module _ (k : PhyConsts) where
  -- A number that orders the modes as the code does: the speed, then full duplex
  abbrev pub rank : ModeInfo → ℕ
  rank m = 2 * m.speed + (if m.duplex == k.duplex_full then 1 else 0)

  same_rank :
      (s d s' d' f : ℕ)
      → int_eq
          (if not (s == s')
            then (if ltb s' s then pos 1 else negsuc 0)
            else if not (d == d')
            then (if d == f then pos 1 else if d' == f then negsuc 0 else pos 0)
            else pos 0)
          (pos 0)
        ≡ ((2 * s + (if d == f then 1 else 0)) == (2 * s' + (if d' == f then 1 else 0)))
  same_rank s d s' d' f = ground arith

  pub above_rank :
      (s d s' d' f : ℕ)
      → is_positive (
          if not (s == s')
          then (if ltb s' s then pos 1 else negsuc 0)
          else if not (d == d')
          then (if d == f then pos 1 else if d' == f then negsuc 0 else pos 0)
          else pos 0)
        ≡ ltb (2 * s' + (if d' == f then 1 else 0)) (2 * s + (if d == f then 1 else 0))
  above_rank s d s' d' f = ground arith

  abbrev pub Found : Type 0
  Found = Option ModeInfo × Option ModeInfo

  -- The fallback is there with a preferred mode only, and below it.
  abbrev pub Ordered : Found → Type 0
  Ordered (none, none) = ⊤
  Ordered (none, some f) = true ≡ false
  Ordered (some p, none) = ⊤
  Ordered (some p, some f) = rank f < rank p

  -- A mode is of the preferred one's priority, or not above the fallback's.
  abbrev pub Covered : ModeInfo → Found → Type 0
  Covered m (none, f) = true ≡ false
  Covered m (some p, none) = rank m ≡ rank p
  Covered m (some p, some f) = (rank m ≡ rank p) ⊎ (rank m ≤ rank f)

  -- What an update leaves of the ranks.
  abbrev pub Better : ModeInfo → Found → Found → Type 0
  Better m q r = Ordered r × Covered m r × ((x : ModeInfo) → Covered x q → Covered x r)

  below_both :
      (x p f : ModeInfo) → rank f < rank p → (rank x ≡ rank p) ⊎ (rank x ≤ rank f) → rank x ≤ rank p
  below_both x p f h (inl same) = omega (arith, same)
  below_both x p f h (inr below) = omega (arith, h, below)

  above_fallback :
      (x p f m : ModeInfo)
      → (rank x ≡ rank p) ⊎ (rank x ≤ rank f)
      → rank f < rank m
      → (rank x ≡ rank p) ⊎ (rank x ≤ rank m)
  above_fallback x p f m (inl same) h = inl same
  above_fallback x p f m (inr below) h = inr (omega (arith, below, h))

  update_one :
      (m p : ModeInfo) (b c : Bool)
      → b ≡ (rank m == rank p)
      → c ≡ ltb (rank p) (rank m)
      → Better m
          (some p, none)
          (if b then (some p, none) else (if c then (some m, some p) else (some p, some m)))
  update_one m p true c hb hc = (tt, ground (arith, hb), λ x h. h)
  update_one m p false true hb hc = (ground (arith, hc), inl refl, λ x h. inr (omega (arith, h)))
  update_one m p false false hb hc = (ground (arith, hb, hc), inr (omega arith), λ x h. inl h)

  update_two :
      (m p f : ModeInfo) (b c d e : Bool)
      → rank f < rank p
      → b ≡ (rank m == rank p)
      → c ≡ (rank m == rank f)
      → d ≡ ltb (rank p) (rank m)
      → e ≡ ltb (rank f) (rank m)
      → Better m
          (some p, some f)
          (if b
            then (some p, some f)
            else (if c
                then (some p, some f)
                else (if d
                    then (some m, some p)
                    else (if e then (some p, some m) else (some p, some f)))))
  update_two m p f true c d e h hb hc hd he = (h, inl (ground (arith, hb)), λ x y. y)
  update_two m p f false true d e h hb hc hd he = (h, inr (ground (arith, hc)), λ x y. y)
  update_two m p f false false true e h hb hc hd he =
      (ground (arith, hd), inl refl, λ x y. inr (below_both x p f h y))
  update_two m p f false false false true h hb hc hd he = (
    ground (arith, hb, hd),
    inr (omega arith),
    λ x y. above_fallback x p f m y (ground (arith, he)),
  )
  update_two m p f false false false false h hb hc hd he = (h, inr (ground (arith, he)), λ x y. y)

  pub update_common_nodes-Better :
      (m : ModeInfo) (q : Found) → Ordered q → Better m q (update_common_nodes k m q)
  unfolding update_common_nodes pair_priority_cmp
  update_common_nodes-Better m (none, none) h = (tt, refl, λ x y. absurd (cc y))
  update_common_nodes-Better m (none, some f) h = absurd (cc h)
  update_common_nodes-Better m (some p, none) h =
      update_one m p (same_as k m (some p)) (none_or_above k m (some p))
        (same_rank m.speed m.duplex p.speed p.duplex k.duplex_full)
        (above_rank m.speed m.duplex p.speed p.duplex k.duplex_full)
  update_common_nodes-Better m (some p, some f) h =
      update_two m p f (same_as k m (some p)) (same_as k m (some f)) (none_or_above k m (some p))
        (none_or_above k m (some f)) h (same_rank m.speed m.duplex p.speed p.duplex k.duplex_full)
        (same_rank m.speed m.duplex f.speed f.duplex k.duplex_full)
        (above_rank m.speed m.duplex p.speed p.duplex k.duplex_full)
        (above_rank m.speed m.duplex f.speed f.duplex k.duplex_full)
