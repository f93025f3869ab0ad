-- ===== src/Base/Preservation.antt =====
-- What a call leaves true of the world, however it ends, and the rules by which that is shown of a
-- `do` block.
use mathlib.Core.Bool.{Bool, true, false}
use net_drv_ts.Base.Errno.{TeErrno}
use net_drv_ts.Base.Tests.{if◌then◌else◌}
use net_drv_ts.Base.Effect.{
  ⊤, Jump, M, Result, ok, err, ends, pure, fail, jump, reads, after, check_rc, on_error, ◌>>=◌,
  ◌>>◌,
}

pub record Keeps {ℓ} {W A : Type 0} (P : W → Type ℓ) (m : M W A) : Type ℓ where
  pub keeps : (w : W) → P w → P (m w).1

module _ {ℓ} {W : Type 0} (P : W → Type ℓ) where
  after-Keeps :
      {A B : Type 0} (f : A → M W B) (p : Result A × W)
      → P p.1
      → ((a : A) → Keeps P (f a))
      → P (after f p).1
  after-Keeps f (ok a, w) h k = (k a).keeps w h
  after-Keeps f (err e, w) h k = h
  after-Keeps f (ends j, w) h k = h

  checked-Keeps : {A : Type 0} (p : Result A × W) (w : W) → P p.1 → P (check_rc (λ _. p) w).1
  checked-Keeps (ok a, v) w h = h
  checked-Keeps (err e, v) w h = h
  checked-Keeps (ends j, v) w h = h

  handled-Keeps :
      {A : Type 0} (f : TeErrno → M W A) (p : Result A × W) (w : W)
      → P p.1
      → ((e : TeErrno) → Keeps P (f e))
      → P (on_error (λ _. p) f w).1
  handled-Keeps f (ok a, v) w h k = h
  handled-Keeps f (err e, v) w h k = (k e).keeps v h
  handled-Keeps f (ends j, v) w h k = h

module _ {ℓ} {W : Type 0} {P : W → Type ℓ} where
  pub >>=-Keeps :
      {A B : Type 0} {m : M W A} {f : A → M W B}
      → Keeps P m
      → ((a : A) → Keeps P (f a))
      → Keeps P (m >>= f)
  >>=-Keeps {m} {f} h k = record { keeps = λ w p. after-Keeps P f (m w) (h.keeps w p) k }

  pub >>-Keeps : {B : Type 0} {m : M W ⊤} {n : M W B} → Keeps P m → Keeps P n → Keeps P (m >> n)
  >>-Keeps {m} {n} h k = record {
    keeps = λ w p. after-Keeps P (λ _. n) (m w) (h.keeps w p) (λ _. k);
  }

  pub check_rc-Keeps : {A : Type 0} {m : M W A} → Keeps P m → Keeps P (check_rc m)
  check_rc-Keeps {m} h = record { keeps = λ w p. checked-Keeps P (m w) w (h.keeps w p) }

  pub on_error-Keeps :
      {A : Type 0} {m : M W A} {f : TeErrno → M W A}
      → Keeps P m
      → ((e : TeErrno) → Keeps P (f e))
      → Keeps P (on_error m f)
  on_error-Keeps {m} {f} h k = record { keeps = λ w p. handled-Keeps P f (m w) w (h.keeps w p) k }

  pub if_Keeps :
      {A : Type 0} (b : Bool) {m n : M W A} → Keeps P m → Keeps P n → Keeps P (if b then m else n)
  if_Keeps true h k = h
  if_Keeps false h k = k

  -- What changes nothing.
  pub pure-Keeps : {A : Type 0} {a : A} → Keeps P (pure {W = W} a)
  pure-Keeps = record { keeps = λ w p. p }

  pub fail-Keeps : {A : Type 0} {e : TeErrno} → Keeps P (fail {W = W} {A = A} e)
  fail-Keeps = record { keeps = λ w p. p }

  pub jump-Keeps : {A : Type 0} {j : Jump} → Keeps P (jump {W = W} {A = A} j)
  jump-Keeps = record { keeps = λ w p. p }

  pub reads-Keeps : {A : Type 0} {f : W → Result A} → Keeps P (reads f)
  reads-Keeps = record { keeps = λ w p. p }

pub ruleset keeping = (
  >>=-Keeps, >>-Keeps, check_rc-Keeps, on_error-Keeps, if_Keeps, pure-Keeps, fail-Keeps, jump-Keeps,
  reads-Keeps,
)
