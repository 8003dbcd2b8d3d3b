-- ===== src/Run.antt =====
-- How a call of a C function ends: it returns, it calls `panic`, or it reaches memory outside the
-- object that it works on, where C says nothing more.
use emos.Status.{Status}

pub data Run {ℓ} (A : Type ℓ) : Type ℓ where
  ok : A → Run A
  panic : Status → Run A
  fault : Run A

infixl 5 ◌>>=◌
abbrev pub ◌>>=◌ {ℓ κ} : {A : Type ℓ} {B : Type κ} → Run A → (A → Run B) → Run B
ok a >>= f = f a
panic s >>= f = panic s
fault >>= f = fault
