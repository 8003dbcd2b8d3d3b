-- ===== src/Base/Table.antt =====
-- Functions on an index range: a check of every value, a count of the indices with a value, and
-- a write at one index.
use Prim.Native.Nat.{ℕ, zero, suc, ◌+◌, ◌≤◌, ◌<◌}
use mathlib.Core.Path.{◌≡◌, refl}
use mathlib.Core.Logic.{◌≢◌}
use mathlib.Core.Bool.{Bool, true, ◌&&◌}
use native.Mathlib.Decide.{ℕ_discrete}
use native.Mathlib.Omega.{arith}
use emos.Base.Tests.{◌==◌, if◌then◌else◌}

-- A Boolean test that holds at each of the first `n` numbers.
unfoldable pub holds_upto : (ℕ → Bool) → ℕ → Bool
holds_upto test zero = true
holds_upto test (suc m) = holds_upto test m && test m

pub holds_upto-at : (test : ℕ → Bool) (i n : ℕ) → i < n → holds_upto test n ≡ true → test i ≡ true
unfolding holds_upto
holds_upto-at test i zero below all = elim below [ ]
holds_upto-at test i (suc m) below all = elim (ℕ_discrete i m) [
  | yes last ↦ ground arith
  | no before ↦ ground (arith, holds_upto-at test i m (omega arith))
]

-- How many indices below `n` hold `v`.
unfoldable pub tally : (ℕ → ℕ) → ℕ → ℕ → ℕ
tally f v zero = 0
tally f v (suc n) = tally f v n + (if f n == v then 1 else 0)

pub tally-le : (f : ℕ → ℕ) (v n : ℕ) → tally f v n ≤ n
unfolding tally
tally-le f v zero = omega arith
tally-le f v (suc n) = ground (arith, tally-le f v n)

-- Two values are held by different indices.
pub tally-add-le : (f : ℕ → ℕ) (v w n : ℕ) → v ≢ w → tally f v n + tally f w n ≤ n
unfolding tally
tally-add-le f v w zero h = omega arith
tally-add-le f v w (suc n) h = ground (arith, tally-add-le f v w n)

pub tally-congr :
    (f g : ℕ → ℕ) (v n : ℕ) → ((j : ℕ) → j < n → g j ≡ f j) → tally g v n ≡ tally f v n
unfolding tally
tally-congr f g v zero h = refl
tally-congr f g v (suc n) h = ground (arith, tally-congr f g v n (λ j l. h j (omega arith)), h n)

-- A held value is counted.
pub tally-pos : (f : ℕ → ℕ) (v n i : ℕ) → i < n → f i ≡ v → 0 < tally f v n
unfolding tally
tally-pos f v zero i l h = absurd (omega arith)
tally-pos f v (suc n) i l h = ground (arith, tally-pos f v n i)

-- A write of `w` at `i` moves one index from its old value to `w`.
pub tally-write :
    (f g : ℕ → ℕ) (v w n i : ℕ)
    → i < n
    → ((j : ℕ) → g j ≡ (if i == j then w else f j))
    → tally g v n + (if f i == v then 1 else 0) ≡ tally f v n + (if w == v then 1 else 0)
unfolding tally
tally-write f g v w zero i l h = absurd (omega arith)
tally-write f g v w (suc n) i l h = elim (ℕ_discrete i n) [
  | yes e ↦ ground (arith, tally-congr f g v n (λ j k. ground (arith, h j)), h n)
  | no ne ↦ ground (arith, tally-write f g v w n i, h n)
]

-- An index with another value is not counted.
pub tally-lt : (f : ℕ → ℕ) (v n i : ℕ) → i < n → f i ≢ v → tally f v n < n
unfolding tally
tally-lt f v zero i l h = absurd (omega arith)
tally-lt f v (suc n) i l h = elim (ℕ_discrete i n) [
  | yes e ↦ ground (arith, tally-le f v n)
  | no ne ↦ ground (arith, tally-lt f v n i (omega arith) h)
]
