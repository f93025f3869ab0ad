-- ===== src/Rss/Channels/Choice.antt =====
-- Which numbers of channels the test may choose: the loop that halves tells the powers of two, and
-- where nothing fits the test fails.
use mathlib.Core.Path.{subst}
use native.Mathlib.Numerals.{unary_clauses}
use net_drv_ts.Base.{
  ℕ, zero, suc, ◌*◌, ◌/◌, ◌%◌, ◌^◌, ◌<◌, ◌≤◌, ◌≡◌, ◌≢◌, ◌∙◌, ◌⊎◌, ◌↔◌, inl, inr, refl, ap, sym,
  Bool, true, false, not, ◌&&◌, ◌||◌, ◌==◌, ltb, ℤ, pos, negsuc, ok, ends, value_or, test_fail,
  Bool-cases, arith,
}
use net_drv_ts.Rss.Channels.{
  halved, rejected, ChannelOps, choose_from, choose_channels, max_attempts,
}

abbrev pub IsTwoPower : ℕ → Type 0
IsTwoPower n = (k : ℕ) × (n ≡ 2 ^ k)

halved-step-even : (fuel j : ℕ) → 1 < j → j % 2 ≡ 0 → halved (suc fuel) j ≡ halved fuel (j / 2)
unfolding halved
halved-step-even fuel j h e = ground (arith, h, e)

halved-step-end : (fuel j : ℕ) → (j ≤ 1) ⊎ (j % 2 ≡ 1) → halved (suc fuel) j ≡ j
unfolding halved
halved-step-end fuel j h = ground (arith, h)

two_pow_suc : (k : ℕ) → 2 ^ suc k ≡ 2 * 2 ^ k
two_pow_suc k = simp unary_clauses (omega arith)

two_pow_pos : (k : ℕ) → 1 ≤ 2 ^ k
two_pow_pos zero = omega arith
two_pow_pos (suc k) = omega (arith, two_pow_pos k, two_pow_suc k)

step_even : (j : ℕ) → (ltb 1 j && j % 2 == 0) ≡ true → (1 < j) × (j % 2 ≡ 0)
step_even j h = (ground (arith, h), ground (arith, h))

step_end : (j : ℕ) → (ltb 1 j && j % 2 == 0) ≡ false → (j ≤ 1) ⊎ (j % 2 ≡ 1)
step_end j h = ground (arith, h)

halved_zero : (j : ℕ) → halved 0 j ≡ j
unfolding halved
halved_zero j = refl

halved-IsTwoPower : (fuel j : ℕ) → halved fuel j ≡ 1 → IsTwoPower j
halved-IsTwoPower zero j e = (0, sym (halved_zero j) ∙ e)
halved-IsTwoPower (suc fuel) j e = elim (Bool-cases (ltb 1 j && j % 2 == 0)) [
  | inl even ↦
      let (k, half) =
        halved-IsTwoPower fuel (j / 2)
          (sym (halved-step-even fuel j (step_even j even).0 (step_even j even).1) ∙ e) in
      (suc k, omega (arith, half, two_pow_suc k, (step_even j even).1))
  | inr end ↦ (0, sym (halved-step-end fuel j (step_end j end)) ∙ e)
]

power-halved : (k fuel : ℕ) → k ≤ fuel → halved fuel (2 ^ k) ≡ 1
power-halved zero zero h = halved_zero 1
power-halved zero (suc fuel) h = halved-step-end fuel 1 (inl (omega arith))
power-halved (suc k) (suc fuel) h =
    let half : 2 ^ suc k / 2 ≡ 2 ^ k = omega (arith, two_pow_suc k) in
    halved-step-even fuel (2 ^ suc k) (omega (arith, two_pow_suc k, two_pow_pos k))
      (omega (arith, two_pow_suc k))
    ∙ ap (halved fuel) half
    ∙ power-halved k fuel (omega arith)
power-halved (suc k) zero h = absurd (omega arith)

two_pow_fuel : (k : ℕ) → k ≤ 2 ^ k
two_pow_fuel zero = omega arith
two_pow_fuel (suc k) = omega (arith, two_pow_fuel k, two_pow_suc k, two_pow_pos k)

-- The loop ends with 1 for the powers of two and for no other number.
pub halved_iff : (n : ℕ) → (halved n n ≡ 1) ↔ IsTwoPower n
halved_iff n = (
  halved-IsTwoPower n n,
  λ p. subst (λ m. halved m m ≡ 1) (sym p.1) (power-halved p.0 (2 ^ p.0) (two_pow_fuel p.0)),
)

halved-pos : (fuel j : ℕ) → 1 ≤ j → 1 ≤ halved fuel j
unfolding halved
halved-pos zero j h = h
halved-pos (suc fuel) j h = elim (Bool-cases (ltb 1 j && j % 2 == 0)) [
  | inl even ↦
      let more = step_even j even in rw even (halved-pos fuel (j / 2) (omega (arith, more)))
  | inr end ↦ rw end h
]

-- A number is taken where it differs from the initial one and is a power of two as is asked for.
abbrev pub Fits : Bool → ℕ → ℕ → Type 0
Fits two_power combined_init n = (n ≢ combined_init) × ((two_power ≡ true) ↔ IsTwoPower n)

taken :
    (two_power : Bool) (init n j : ℕ)
    → 1 ≤ j
    → (n == init || ((ltb 1 j && two_power) || (j == 1 && not two_power))) ≡ false
    → (n ≢ init) × ((two_power ≡ true) ↔ (j ≡ 1))
taken true init n j positive e =
    ((λ h. absurd (ground (arith, h, e))), ((λ _. ground (arith, positive, e)), (λ _. refl)))
taken false init n j positive e = (
  (λ h. absurd (ground (arith, h, e))),
  ((λ h. absurd (cc h)), (λ h. absurd (ground (arith, h, e)))),
)

not_rejected-Fits :
    (two_power : Bool) (init n : ℕ)
    → 1 ≤ n
    → rejected two_power init n ≡ false
    → Fits two_power init n
unfolding rejected
not_rejected-Fits two_power init n positive e =
    let (other, (there, back)) = taken two_power init n (halved n n) (halved-pos n n positive) e in
    (other, ((λ h. (halved_iff n).0 (there h)), (λ h. back ((halved_iff n).1 h))))

rejected_two : rejected false 3 2 ≡ true
unfolding rejected halved
rejected_two = refl

rejected_three : rejected false 3 3 ≡ true
unfolding rejected halved
rejected_three = refl

rejected_four : rejected false 3 4 ≡ true
unfolding rejected halved
rejected_four = refl

from_two_to_four : (n : ℕ) → 2 ≤ n → n ≤ 4 → (n ≡ 2) ⊎ ((n ≡ 3) ⊎ (n ≡ 4))
from_two_to_four n low high = ground (arith, low, high)

enough_channels :
    (two_power : Bool) (init max : ℕ)
    → (ltb init 1 || (ltb max 3 || (two_power && ltb max 4))) ≡ false
    → 3 ≤ max
enough_channels two_power init max h = ground (arith, h)

rejected_small : (n : ℕ) → 2 ≤ n → n ≤ 4 → rejected false 3 n ≡ true
rejected_small n low high = elim (from_two_to_four n low high) [
  | inl two ↦ subst (λ m. rejected false 3 m ≡ true) (sym two) rejected_two
  | inr (inl three) ↦ subst (λ m. rejected false 3 m ≡ true) (sym three) rejected_three
  | inr (inr four) ↦ subst (λ m. rejected false 3 m ≡ true) (sym four) rejected_four
]

module _ {W : Type 0} (o : ChannelOps W) where
  abbrev pub RandLaw : Type 0
  RandLaw = (a b : ℕ) (w : W) → a ≤ b → (a ≤ (o.rand_range a b w).0) × ((o.rand_range a b w).0 ≤ b)

  choose_from-Fits :
      RandLaw
      → (left : ℕ) (two_power : Bool) (init max n : ℕ) (w w' : W) → 2 ≤ max
      → choose_from o left two_power init max w ≡ (ok n, w')
      → (2 ≤ n) × (n ≤ max) × Fits two_power init n
  unfolding choose_from
  choose_from-Fits rand zero two_power init max n w w' h e = absurd (cc (ap (λ q. q.0) e))
  choose_from-Fits rand (suc left) two_power init max n w w' h e =
      let m = (o.rand_range 2 max w).0 in
      let w1 = (o.rand_range 2 max w).1 in
      let (low, high) = rand 2 max w h in
      elim (Bool-cases (rejected two_power init m)) [
        | inl passed ↦ choose_from-Fits rand left two_power init max n w1 w' h (rw passed at e)
        | inr fits ↦
            let same : m ≡ n = ap (λ q. value_or m q.0) (rw fits at e) in
            subst (λ k. (2 ≤ k) × (k ≤ max) × Fits two_power init k) same
              (low, high, not_rejected-Fits two_power init m (omega (arith, low)) fits)
      ]

  -- Where none fits, the attempts end with a failure of the test.
  choose_from-none :
      RandLaw
      → (left : ℕ) (two_power : Bool) (init max : ℕ) (w : W) → 2 ≤ max
      → ((n : ℕ) → 2 ≤ n → n ≤ max → rejected two_power init n ≡ true)
      → (choose_from o left two_power init max w).0 ≡ ends test_fail
  unfolding choose_from
  choose_from-none rand zero two_power init max w h none_fits = refl
  choose_from-none rand (suc left) two_power init max w h none_fits =
      let m = (o.rand_range 2 max w).0 in
      let (low, high) = rand 2 max w h in
      rw (none_fits m low high)
        (choose_from-none rand left two_power init max (o.rand_range 2 max w).1 h none_fits)

  -- The number that is chosen is in range, differs from the initial one, and is a power of two
  -- exactly where one is asked for.
  pub choose_channels-Fits :
      RandLaw
      → (two_power : Bool) (combined_max combined_init : ℤ) (n : ℕ) (w w' : W)
      → choose_channels o two_power combined_max combined_init w ≡ (ok n, w')
      → (max : ℕ) × (init : ℕ) × (combined_max ≡ pos max)
        × (combined_init ≡ pos init)
        × (2 ≤ n)
        × (n ≤ max)
        × Fits two_power init n
  unfolding choose_channels
  choose_channels-Fits rand two_power (pos max) (pos init) n w w' e =
      elim (Bool-cases (ltb init 1 || (ltb max 3 || (two_power && ltb max 4)))) [
        | inl skipped ↦ absurd (cc (ap (λ q. q.0) (rw skipped at e)))
        | inr possible ↦
            let enough = enough_channels two_power init max possible in
            let (low, high, fits) =
              choose_from-Fits rand max_attempts two_power init max n w w' (omega arith)
                (rw possible at e) in
            (max, init, refl, refl, low, high, fits)
      ]
  choose_channels-Fits rand two_power (pos max) (negsuc init) n w w' e =
      absurd (cc (ap (λ q. q.0) e))
  choose_channels-Fits rand two_power (negsuc max) init n w w' e = absurd (cc (ap (λ q. q.0) e))

  -- With three channels in use of at most three or four and no power of two asked for, nothing
  -- fits, and the test fails where it would have to be skipped.
  pub choose_channels_impossible :
      RandLaw
      → (max : ℕ) (w : W) → 3 ≤ max
      → max ≤ 4
      → (choose_channels o false (pos max) (pos 3) w).0 ≡ ends test_fail
  unfolding choose_channels
  choose_channels_impossible rand max w low high =
      let possible : (ltb 3 1 || (ltb max 3 || (false && ltb max 4))) ≡ false =
        ground (arith, low) in
      rw possible (
        choose_from-none rand max_attempts false 3 max w (omega arith)
          (λ n l h. rejected_small n l (omega arith)))
