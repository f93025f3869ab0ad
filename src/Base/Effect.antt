-- ===== src/Base/Effect.antt =====
-- A call that may change the world `W` (the agents, the configuration tree, the sockets), and that
-- returns, fails with a `te_errno`, or ends the test by a jump (TEST_SKIP, TEST_VERDICT,
-- TEST_FAIL, TEST_STOP). What was done before a failure stays done.
use mathlib.Core.Path.{◌≡◌, refl, ap}
use mathlib.Core.Bool.{Bool, true, false}
use native.Mathlib.Omega.{arith}
use net_drv_ts.Base.Errno.{TeErrno}
use net_drv_ts.Base.Tests.{if◌then◌else◌}

pub data Jump : Type 0 where
  test_skip test_verdict test_fail test_stop : Jump

pub data Result {ℓ} (A : Type ℓ) : Type ℓ where
  ok : A → Result A
  err : TeErrno → Result A
  ends : Jump → Result A

abbrev pub ⊤ : Type 0
⊤ = Unit

abbrev pub M : Type 0 → Type 0 → Type 0
M W A = W → Result A × W

module _ {W A : Type 0} where
  abbrev pub pure : A → M W A
  pure a w = (ok a, w)

  abbrev pub fail : TeErrno → M W A
  fail e w = (err e, w)

  abbrev pub jump : Jump → M W A
  jump j w = (ends j, w)

  -- A request that leaves the world alone.
  abbrev pub reads : (W → Result A) → M W A
  reads f w = (f w, w)

-- The value of a result, for proofs.
abbrev pub value_or {ℓ} : {A : Type ℓ} → A → Result A → A
value_or d (ok a) = a
value_or d (err _) = d
value_or d (ends _) = d

-- What follows a call, by how the call ended.
abbrev pub after : {W A B : Type 0} → (A → M W B) → Result A × W → Result B × W
after f (ok a, w) = f a w
after f (err e, w) = (err e, w)
after f (ends j, w) = (ends j, w)

infixl 5 ◌>>=◌ ◌>>◌
abbrev pub ◌>>=◌ : {W A B : Type 0} → M W A → (A → M W B) → M W B
◌>>=◌ m f w = after f (m w)

abbrev pub ◌>>◌ : {W B : Type 0} → M W ⊤ → M W B → M W B
m >> k = m >>= λ _. k

abbrev pub checked : {W A : Type 0} → Result A × W → Result A × W
checked (ok a, w) = (ok a, w)
checked (err e, w) = (ends test_fail, w)
checked (ends j, w) = (ends j, w)

-- `CHECK_RC(m)`: an error ends the test.
abbrev pub check_rc : {W A : Type 0} → M W A → M W A
check_rc m w = checked (m w)

abbrev pub handled : {W A : Type 0} → (TeErrno → M W A) → Result A × W → Result A × W
handled f (ok a, w) = (ok a, w)
handled f (err e, w) = f e w
handled f (ends j, w) = (ends j, w)

-- `rc = m; if (rc != 0) handler(rc)`
abbrev pub on_error : {W A : Type 0} → M W A → (TeErrno → M W A) → M W A
on_error m f w = handled f (m w)

abbrev pub when : {W : Type 0} → Bool → M W ⊤ → M W ⊤
when c m = if c then m else pure tt

after-eq-ok :
    {W A B : Type 0} (f : A → M W B) (p : Result A × W) {b : B} {u : W}
    → after f p ≡ (ok b, u)
    → (a : A) × (v : W) × (p ≡ (ok a, v)) × (f a v ≡ (ok b, u))
after-eq-ok f (ok a, v) h = (a, v, refl, h)
after-eq-ok f (err e, v) h = ground arith
after-eq-ok f (ends j, v) h = ground arith

-- Inversion of a successful bind.
pub >>=-eq-ok :
    {W A B : Type 0} (m : M W A) (f : A → M W B) (w : W) {b : B} {u : W}
    → (m >>= f) w ≡ (ok b, u)
    → (a : A) × (v : W) × (m w ≡ (ok a, v)) × (f a v ≡ (ok b, u))
>>=-eq-ok m f w h = after-eq-ok f (m w) h

-- Inversion of a GET whose error ends the test.
pub read_or_jump-eq-ok :
    {W A : Type 0} (j : Jump) (x : Result A) (w : W) {a : A} {u : W}
    → on_error (reads (λ _. x)) (λ _. jump j) w ≡ (ok a, u)
    → (x ≡ ok a) × (w ≡ u)
read_or_jump-eq-ok j (ok a) w h = (ap (λ p. p.0) h, ap (λ p. p.1) h)
read_or_jump-eq-ok j (err e) w h = absurd (cc (ap (λ p. p.0) h))
read_or_jump-eq-ok j (ends k) w h = absurd (cc (ap (λ p. p.0) h))

pub check_rc-eq-ok :
    {W A : Type 0} (x : Result A × W) (w : W) {a : A} {u : W}
    → check_rc (λ _. x) w ≡ (ok a, u)
    → x ≡ (ok a, u)
check_rc-eq-ok (ok a, v) w h = h
check_rc-eq-ok (err e, v) w h = absurd (cc (ap (λ p. p.0) h))
check_rc-eq-ok (ends j, v) w h = absurd (cc (ap (λ p. p.0) h))

pub or_jump-eq-ok :
    {W A : Type 0} (j : Jump) (x : Result A × W) (w : W) {a : A} {u : W}
    → on_error (λ _. x) (λ _. jump j) w ≡ (ok a, u)
    → x ≡ (ok a, u)
or_jump-eq-ok j (ok a, v) w h = h
or_jump-eq-ok j (err e, v) w h = absurd (cc (ap (λ p. p.0) h))
or_jump-eq-ok j (ends k, v) w h = absurd (cc (ap (λ p. p.0) h))

-- Inversion of a GET, and of a GET under CHECK_RC(), that goes before other calls.
pub reads>>=-eq-ok :
    {W A B : Type 0} (x : Result A) (k : A → M W B) (w : W) {b : B} {u : W}
    → (reads (λ _. x) >>= k) w ≡ (ok b, u)
    → (a : A) × (x ≡ ok a) × (k a w ≡ (ok b, u))
reads>>=-eq-ok (ok a) k w h = (a, refl, h)
reads>>=-eq-ok (err e) k w h = absurd (cc (ap (λ p. p.0) h))
reads>>=-eq-ok (ends j) k w h = absurd (cc (ap (λ p. p.0) h))

pub check_read>>=-eq-ok :
    {W A B : Type 0} (x : Result A) (k : A → M W B) (w : W) {b : B} {u : W}
    → (check_rc (reads (λ _. x)) >>= k) w ≡ (ok b, u)
    → (a : A) × (x ≡ ok a) × (k a w ≡ (ok b, u))
check_read>>=-eq-ok (ok a) k w h = (a, refl, h)
check_read>>=-eq-ok (err e) k w h = absurd (cc (ap (λ p. p.0) h))
check_read>>=-eq-ok (ends j) k w h = absurd (cc (ap (λ p. p.0) h))

-- CLEANUP_CHECK_RC(): a failure makes the test fail, and the cleanup goes on. The flag is whether all
-- calls of the cleanup so far succeeded.
unfoldable pub cleanup_check : {W : Type 0} → M W ⊤ → Bool × W → Bool × W
cleanup_check m (fine, w) =
    let (r, w') = m w in ((elim r [ ok _ ↦ fine | err _ ↦ false | ends _ ↦ false ]), w')

cleanup_checked :
    {W : Type 0} (x : Result ⊤ × W) (st : Bool × W) (w' : W)
    → cleanup_check (λ _. x) st ≡ (true, w')
    → (st.0 ≡ true) × (x ≡ (ok tt, w'))
unfolding cleanup_check
cleanup_checked (ok x, v) (b, w) w' e = (ap (λ p. p.0) e, ap (λ p. (ok tt, p.1)) e)
cleanup_checked (err x, v) (b, w) w' e = absurd (cc (ap (λ p. p.0) e))
cleanup_checked (ends x, v) (b, w) w' e = absurd (cc (ap (λ p. p.0) e))

pub cleanup_check-fine :
    {W : Type 0} (m : M W ⊤) (st : Bool × W) (w' : W)
    → cleanup_check m st ≡ (true, w')
    → (st.0 ≡ true) × (m st.1 ≡ (ok tt, w'))
unfolding cleanup_check
cleanup_check-fine m (b, w) w' e = cleanup_checked (m w) (b, w) w' e
