-- ===== src/Basic/MtuTcp/Folded.antt =====
-- What process_tcp() of net-drv-ts/basic/mtu_tcp.c leaves after all packets of a capture, in order.
use mathlib.Core.Path.{subst}
use net_drv_ts.Base.{ℕ, ◌≡◌, ◌⊎◌, inl, inr, refl, sym, false, List, [], ◌∷◌, map, ℤ, pos}
use net_drv_ts.Basic.MtuTcp.{CbArgs, process_tcp, capture}
use net_drv_ts.Basic.MtuTcp.Segments.{Segment, as_packet, Caught, InWindow, CompareLaw}
use net_drv_ts.Basic.MtuTcp.Noted.{Noted, process-Noted, process_first-Noted}

-- The segments `xs`, the earliest first, behind `done`.
abbrev pub onto : List Segment → List Segment → List Segment
onto [] done = done
onto (x ∷ xs) done = onto xs (x ∷ done)

pub Caught-onto :
    (xs done : List Segment) (y : Segment) → Caught y xs ⊎ Caught y done → Caught y (onto xs done)
Caught-onto [] done y (inl h) = absurd h
Caught-onto [] done y (inr h) = h
Caught-onto (x ∷ xs) done y (inl (inl e)) = Caught-onto xs (x ∷ done) y (inr (inl e))
Caught-onto (x ∷ xs) done y (inl (inr h)) = Caught-onto xs (x ∷ done) y (inl h)
Caught-onto (x ∷ xs) done y (inr h) = Caught-onto xs (x ∷ done) y (inr (inr h))

pub Caught-of_onto :
    (xs done : List Segment) (y : Segment) → Caught y (onto xs done) → Caught y xs ⊎ Caught y done
Caught-of_onto [] done y h = inr h
Caught-of_onto (x ∷ xs) done y h = elim (Caught-of_onto xs (x ∷ done) y h) [
  | inl m ↦ inl (inr m)
  | inr (inl e) ↦ inl (inl e)
  | inr (inr m) ↦ inr m
]

module _ (max start : ℕ) (compare : ℤ → ℤ → ℤ) (law : CompareLaw compare start) where
  capture-Noted :
      (xs done : List Segment) (a : CbArgs)
      → ((y : Segment) → Caught y xs → InWindow start y)
      → ((y : Segment) → Caught y done → InWindow start y)
      → Noted max start done a
      → Noted max start (onto xs done) (capture compare (map as_packet xs) a)
  unfolding capture
  capture-Noted [] done a wx wd h = h
  capture-Noted (x ∷ xs) done a wx wd h =
      capture-Noted xs (x ∷ done) (process_tcp compare (as_packet x) a) (λ y m. wx y (inr m))
        (λ y m. elim m [
          | inl e ↦ subst (InWindow start) (sym e) (wx x (inl refl))
          | inr c ↦ wd y c
        ])
        (process-Noted max start compare law done x a (wx x (inl refl)) wd h)

  pub capture_all-Noted :
      (x : Segment) (xs : List Segment) (a : CbArgs)
      → ((y : Segment) → Caught y (x ∷ xs) → InWindow start y)
      → a.pkts_num ≡ 0
      → a.failed ≡ false
      → a.too_big_pkt ≡ false
      → a.max_pld_size ≡ pos max
      → Noted max start (onto xs (x ∷ [])) (capture compare (map as_packet (x ∷ xs)) a)
  unfolding capture
  capture_all-Noted x xs a w none fine fits size =
      capture-Noted xs (x ∷ []) (process_tcp compare (as_packet x) a) (λ y m. w y (inr m))
        (λ y m. elim m [
          | inl e ↦ subst (InWindow start) (sym e) (w x (inl refl))
          | inr c ↦ absurd c
        ])
        (process_first-Noted max start compare law x a (w x (inl refl)) none fine fits size)
