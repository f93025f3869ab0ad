-- ===== src/RxPath/Capture/Passing.antt =====
-- pass_delayed() as a test for a delayed packet between the ends of two groups.
use mathlib.Core.List.{append_assoc}
use net_drv_ts.Base.{
  ℕ, suc, ◌-◌, ◌^◌, ◌≤◌, ◌<◌, ◌≡◌, refl, ap, ap₂, sym, lt→ltb, ◌∙◌, true, false, inl, inr, List, [],
  ◌∷◌, ◌++◌, length, length-append, All, ltb, arith, Bool-cases,
}
use net_drv_ts.RxPath.Capture.{Capture, passing, pass_delayed}
use net_drv_ts.RxPath.Capture.Delays.{
  Above, between, passed, remaining, Passed, delayed_id-append, advance_next, advance-append,
  passed-append, passed_below, remaining-Above, All-append, All-weaken, none_between, between-sent,
  snoc_assoc,
}

passing-end : (xs : List ℕ) (id : ℕ) → passing (xs ++ []) (length xs) id ≡ (false, length xs)
unfolding passing
passing-end xs id = ground (arith, length-append xs [])

passing-behind :
    (xs : List ℕ) (y : ℕ) (ys : List ℕ) (id : ℕ)
    → y < 2 ^ 32
    → ltb id y ≡ true
    → passing (xs ++ (y ∷ ys)) (length xs) id ≡ (false, length xs)
unfolding passing
passing-behind xs y ys id word h =
    ground (arith, length-append xs (y ∷ ys), delayed_id-append xs y ys word)

passing-up :
    (xs : List ℕ) (y : ℕ) (ys : List ℕ) (id b : ℕ)
    → Above b (y ∷ ys)
    → ltb id y ≡ false
    → passing (xs ++ (y ∷ ys)) (length xs) id ≡ (true, length (xs ++ passed id (y ∷ ys)))
unfolding passing passed
passing-up xs y ys id b (low, word, rest) h =
    let n = length-append xs (y ∷ ys) in
    let shorter : length (xs ++ (y ∷ ys)) - suc (length xs) ≡ length ys = omega (arith, n) in
    let moved =
      advance_next xs y ys id
      ∙ advance-append (xs ++ (y ∷ [])) ys id y rest
      ∙ ap length (snoc_assoc xs y (passed id ys)) in
    rw (delayed_id-append xs y ys word) (
      rw h (
        rw shorter
          (rw moved (rw (lt→ltb (length xs) (length (xs ++ (y ∷ ys))) (omega (arith, n))) refl))))

-- The result of passing, for a vector in two parts.
record Passes (b id : ℕ) (xs ys : List ℕ) : Type 0 where
  pub kept : List ℕ
  pub rest : List ℕ
  pub same : xs ++ ys ≡ kept ++ rest
  pub result : passing (xs ++ ys) (length xs) id ≡ (between b id (xs ++ ys), length kept)
  pub kept_below : All (λ d. d ≤ id) kept
  pub rest_above : Above id rest

between-behind :
    (b id : ℕ) (xs : List ℕ) (y : ℕ) (ys : List ℕ)
    → All (λ d. d ≤ b) xs
    → Above b (y ∷ ys)
    → ltb id y ≡ true
    → between b id (xs ++ (y ∷ ys)) ≡ false
between-behind b id xs y ys low (above, word, rest) h =
    between-sent b id xs (y ∷ ys) low ∙ none_between b id (y ∷ ys) (ground arith, word, rest)

between-up :
    (b id : ℕ) (xs : List ℕ) (y : ℕ) (ys : List ℕ)
    → All (λ d. d ≤ b) xs
    → b < y
    → ltb id y ≡ false
    → between b id (xs ++ (y ∷ ys)) ≡ true
between-up b id xs y ys low up h = between-sent b id xs (y ∷ ys) low ∙ ground arith

passes : (b id : ℕ) (xs ys : List ℕ) → b ≤ id → All (λ d. d ≤ b) xs → Above b ys → Passes b id xs ys
passes b id xs [] le low high = record {
  kept = xs;
  rest = [];
  same = refl;
  result = passing-end xs id ∙ ap (λ t. (t, length xs)) (sym (between-sent b id xs [] low));
  kept_below = All-weaken b id xs le low;
  rest_above = tt;
}
passes b id xs (y ∷ ys) le low high = elim (Bool-cases (ltb id y)) [
  | inl h ↦ record {
    kept = xs;
    rest = y ∷ ys;
    same = refl;
    result =
        passing-behind xs y ys id high.1 h
        ∙ ap (λ t. (t, length xs)) (sym (between-behind b id xs y ys low high h));
    kept_below = All-weaken b id xs le low;
    rest_above = (ground arith, high.1, high.2);
  }
  | inr h ↦ record {
    kept = xs ++ passed id (y ∷ ys);
    rest = remaining id (y ∷ ys);
    same =
        ap (λ l. xs ++ l) (sym (passed-append id (y ∷ ys)))
        ∙ sym (append_assoc xs (passed id (y ∷ ys)) (remaining id (y ∷ ys)));
    result =
        passing-up xs y ys id b high h
        ∙ ap (λ t. (t, length (xs ++ passed id (y ∷ ys))))
            (sym (between-up b id xs y ys low high.0 h));
    kept_below =
        All-append id xs (passed id (y ∷ ys)) (All-weaken b id xs le low)
          (passed_below id (y ∷ ys));
    rest_above = remaining-Above b id (y ∷ ys) high;
  }
]

-- The group that a packet ends is skipped exactly where a delayed packet is behind the end of the
-- group before and not behind the packet, and the index then has passed the numbers up to it.
pub pass_delayed-Passed :
    {T : Type 0} (b : ℕ) (c : Capture T)
    → Passed b c
    → b ≤ c.cur_pkt_id
    → ((pass_delayed c).0 ≡ between b c.cur_pkt_id c.delayed_pkt_ids)
      × Passed c.cur_pkt_id (pass_delayed c).1
unfolding pass_delayed
pass_delayed-Passed b c p le =
    let r = passes b c.cur_pkt_id p.sent p.left le p.sent_below p.left_above in
    let e =
      ap₂ (λ l i. passing l i c.cur_pkt_id) p.ids_lem p.idx_lem
      ∙ r.result
      ∙ ap (λ l. (between b c.cur_pkt_id l, length r.kept)) (sym p.ids_lem) in
    (
      ap (λ q. q.0) e,
      record {
        sent = r.kept;
        left = r.rest;
        ids_lem = p.ids_lem ∙ r.same;
        idx_lem = ap (λ q. q.1) e;
        sent_below = r.kept_below;
        left_above = r.rest_above;
      },
    )
