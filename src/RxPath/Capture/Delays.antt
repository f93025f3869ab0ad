-- ===== src/RxPath/Capture/Delays.antt =====
-- The vector of delayed packets and the index into it: how far the loop over the index comes.
use mathlib.Core.List.{append-nil}
use net_drv_ts.Base.{
  ℕ, suc, ◌^◌, ◌≤◌, ◌<◌, ◌≡◌, refl, ap, ap₂, sym, ◌∙◌, Bool, false, ◌&&◌, ◌||◌, inl, inr, some,
  List, [], ◌∷◌, ◌++◌, length, length-append, get_elem?, All, ltb, leb, if◌then◌else◌, arith,
  Bool-cases,
}
use net_drv_ts.RxPath.Capture.{Capture, delayed_id, advance}

-- Numbers of 32 bits that rise strictly, all above `b`.
abbrev pub Above : ℕ → List ℕ → Type 0
Above b [] = Unit {0}
Above b (d ∷ ds) = (b < d) × (d < 2 ^ 32) × Above d ds

-- Whether a delayed packet is behind number `b` and not behind number `id`.
abbrev pub between : ℕ → ℕ → List ℕ → Bool
between b id [] = false
between b id (d ∷ ds) = (ltb b d && leb d id) || between b id ds

-- How many of the numbers `advance` passes.
unfoldable pub passed : ℕ → List ℕ → List ℕ
passed id [] = []
passed id (d ∷ ds) = let rest = passed id ds in if ltb id d then [] else d ∷ rest

unfoldable pub remaining : ℕ → List ℕ → List ℕ
remaining id [] = []
remaining id (d ∷ ds) = let rest = remaining id ds in if ltb id d then d ∷ ds else rest

-- The vector, as the numbers up to `b`, which the index has passed, and those above.
pub record Passed {T : Type 0} (b : ℕ) (c : Capture T) : Type 0 where
  pub sent : List ℕ
  pub left : List ℕ
  pub ids_lem : c.delayed_pkt_ids ≡ sent ++ left
  pub idx_lem : c.cur_delayed_idx ≡ length sent
  pub sent_below : All (λ d. d ≤ b) sent
  pub left_above : Above b left

pub Passed-prev :
    {T : Type 0} (b : ℕ) (c c' : Capture T)
    → c'.delayed_pkt_ids ≡ c.delayed_pkt_ids
    → c'.cur_delayed_idx ≡ c.cur_delayed_idx
    → Passed b c
    → Passed b c'
Passed-prev b c c' e e' p = record {
  sent = p.sent;
  left = p.left;
  ids_lem = e ∙ p.ids_lem;
  idx_lem = e' ∙ p.idx_lem;
  sent_below = p.sent_below;
  left_above = p.left_above;
}

elem-append : (xs : List ℕ) (y : ℕ) (ys : List ℕ) → get_elem? (xs ++ (y ∷ ys)) (length xs) ≡ some y
elem-append [] y ys = refl
elem-append (x ∷ xs) y ys = elem-append xs y ys

pub delayed_id-append :
    (xs : List ℕ) (y : ℕ) (ys : List ℕ) → y < 2 ^ 32 → delayed_id (xs ++ (y ∷ ys)) (length xs) ≡ y
unfolding delayed_id
delayed_id-append xs y ys h = rw (elem-append xs y ys, delayed_id) (omega arith)

pub snoc_assoc : (xs : List ℕ) (y : ℕ) (ys : List ℕ) → (xs ++ (y ∷ [])) ++ ys ≡ xs ++ (y ∷ ys)
snoc_assoc [] y ys = refl
snoc_assoc (x ∷ xs) y ys = ap (λ l. x ∷ l) (snoc_assoc xs y ys)

length-snoc : (xs : List ℕ) (y : ℕ) → length (xs ++ (y ∷ [])) ≡ suc (length xs)
length-snoc xs y = omega (arith, length-append xs (y ∷ []))

pub advance_next :
    (xs : List ℕ) (y : ℕ) (ys : List ℕ) (id : ℕ)
    → advance (xs ++ (y ∷ ys)) id (length ys) (suc (length xs))
      ≡ advance ((xs ++ (y ∷ [])) ++ ys) id (length ys) (length (xs ++ (y ∷ [])))
advance_next xs y ys id =
    ap₂ (λ l n. advance l id (length ys) n) (sym (snoc_assoc xs y ys)) (sym (length-snoc xs y))

pub advance-append :
    (xs ys : List ℕ) (id b : ℕ)
    → Above b ys
    → advance (xs ++ ys) id (length ys) (length xs) ≡ length (xs ++ passed id ys)
unfolding advance passed
advance-append xs [] id b h = ap length (sym (append-nil xs))
advance-append xs (y ∷ ys) id b (low, word, rest) = elim (Bool-cases (ltb id y)) [
  | inl behind ↦ rw (delayed_id-append xs y ys word) (rw behind (ap length (sym (append-nil xs))))
  | inr up ↦ rw (delayed_id-append xs y ys word) (
      rw up (
        advance_next xs y ys id
        ∙ advance-append (xs ++ (y ∷ [])) ys id y rest
        ∙ ap length (snoc_assoc xs y (passed id ys))))
]

pub passed-append : (id : ℕ) (ds : List ℕ) → passed id ds ++ remaining id ds ≡ ds
unfolding passed remaining
passed-append id [] = refl
passed-append id (d ∷ ds) = elim (Bool-cases (ltb id d)) [
  | inl h ↦ rw h refl
  | inr h ↦ rw h (ap (λ l. d ∷ l) (passed-append id ds))
]

pub passed_below : (id : ℕ) (ds : List ℕ) → All (λ d. d ≤ id) (passed id ds)
unfolding passed
passed_below id [] = tt
passed_below id (d ∷ ds) = elim (Bool-cases (ltb id d)) [
  | inl h ↦ rw h tt
  | inr h ↦ rw h (ground arith, passed_below id ds)
]

pub remaining-Above : (b id : ℕ) (ds : List ℕ) → Above b ds → Above id (remaining id ds)
unfolding remaining
remaining-Above b id [] h = tt
remaining-Above b id (d ∷ ds) (low, word, rest) = elim (Bool-cases (ltb id d)) [
  | inl h ↦ rw h (ground arith, word, rest)
  | inr h ↦ rw h (remaining-Above d id ds rest)
]

pub All-append :
    (b : ℕ) (xs ys : List ℕ)
    → All (λ d. d ≤ b) xs
    → All (λ d. d ≤ b) ys
    → All (λ d. d ≤ b) (xs ++ ys)
All-append b [] ys h k = k
All-append b (x ∷ xs) ys h k = (h.0, All-append b xs ys h.1 k)

pub All-weaken : (b c : ℕ) (xs : List ℕ) → b ≤ c → All (λ d. d ≤ b) xs → All (λ d. d ≤ c) xs
All-weaken b c [] le h = tt
All-weaken b c (x ∷ xs) le h = (omega arith, All-weaken b c xs le h.1)

pub Above-weaken : (b c : ℕ) (ds : List ℕ) → c ≤ b → Above b ds → Above c ds
Above-weaken b c [] le h = tt
Above-weaken b c (d ∷ ds) le (low, word, rest) = (omega arith, word, rest)

pub none_between : (b id : ℕ) (ds : List ℕ) → Above id ds → between b id ds ≡ false
none_between b id [] h = refl
none_between b id (d ∷ ds) (low, word, rest) =
    ground (arith, none_between b id ds (Above-weaken d id ds (omega arith) rest))

pub between-sent :
    (b id : ℕ) (xs ys : List ℕ) → All (λ d. d ≤ b) xs → between b id (xs ++ ys) ≡ between b id ys
between-sent b id [] ys h = refl
between-sent b id (x ∷ xs) ys (le, h) = ground (arith, between-sent b id xs ys h)
