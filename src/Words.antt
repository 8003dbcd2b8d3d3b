-- ===== src/Words.antt =====
-- An `int` of 32 bits as its word: the words from 2 ^ 31 on are the negative numbers. Sums, products
-- and differences wrap, as the machine does where C leaves an overflow undefined.
use emos.Base.{ℕ, suc, ◌+◌, ◌-◌, ◌*◌, ◌%◌, ◌^◌, Bool, ltb, leb, if◌then◌else◌}

abbrev pub add : (a b : ℕ) → ℕ
add a b = (a + b) % 2 ^ 32

abbrev pub sub : (a b : ℕ) → ℕ
sub a b = (a + 2 ^ 32 - b) % 2 ^ 32

abbrev pub mul : (a b : ℕ) → ℕ
mul a b = a * b % 2 ^ 32

abbrev pub int_lt : (a b : ℕ) → Bool
int_lt a b = ltb ((a + 2 ^ 31) % 2 ^ 32) ((b + 2 ^ 31) % 2 ^ 32)

abbrev pub int_le : (a b : ℕ) → Bool
int_le a b = leb ((a + 2 ^ 31) % 2 ^ 32) ((b + 2 ^ 31) % 2 ^ 32)

-- `-1`
abbrev pub minus_one : ℕ
minus_one = 2 ^ 32 - 1

-- The rounds of `for (i = lo; i <= hi; i++)` and of `for (i = hi; i >= lo; i--)`.
abbrev pub rounds : (lo hi : ℕ) → ℕ
rounds lo hi = if int_le lo hi then suc (sub hi lo) else 0
