-- ===== src/Fat/Nibbles.antt =====
-- The masks and shifts of a 12-bit entry as divisions and remainders.
use emos.Base.{
  ℕ, ◌+◌, ◌*◌, ◌/◌, ◌%◌, ◌^◌, ◌<◌, ◌≡◌, refl, true, false, arith, ◌==◌, bit_and, bit_or, holds_upto,
  holds_upto-at, ==_iff, Bool,
}
use emos.Fat.Volume.{decode12, low12, high12, is_odd}

module _ (f g : ℕ → ℕ) where
  abbrev agree : ℕ → Bool
  agree x = f x == g x

  by_table : (n x : ℕ) → holds_upto agree n ≡ true → x < n → f x ≡ g x
  by_table n x t l = (==_iff _ _).0 (holds_upto-at agree x n l t)

-- Two arguments, the first below `m` and the second below `n`.
module _ (f g : ℕ → ℕ → ℕ) where
  abbrev agree₂ : ℕ → ℕ → Bool
  agree₂ x y = f x y == g x y

  by_table₂ :
      (m n x y : ℕ)
      → holds_upto (λ i. holds_upto (agree₂ i) n) m ≡ true
      → x < m
      → y < n
      → f x y ≡ g x y
  by_table₂ m n x y t k l =
      (==_iff _ _).0
        (holds_upto-at (agree₂ x) y n l (holds_upto-at (λ i. holds_upto (agree₂ i) n) x m k t))

join_nibble : (x y : ℕ) → x < 16 → y < 256 → bit_or x (y * 2 ^ 4) ≡ x + y * 16
unfolding holds_upto
join_nibble x y = by_table₂ (λ x y. bit_or x (y * 2 ^ 4)) (λ x y. x + y * 16) 16 256 x y refl

join_byte : (x y : ℕ) → x < 256 → y < 16 → bit_or x (y * 2 ^ 8) ≡ x + y * 256
unfolding holds_upto
join_byte x y = by_table₂ (λ x y. bit_or x (y * 2 ^ 8)) (λ x y. x + y * 256) 256 16 x y refl

join_top : (x y : ℕ) → x < 16 → y < 16 → bit_or (x * 16) y ≡ x * 16 + y
unfolding holds_upto
join_top x y = by_table₂ (λ x y. bit_or (x * 16) y) (λ x y. x * 16 + y) 16 16 x y refl

top_nibble : (x : ℕ) → x < 256 → bit_and x 0xf0 ≡ x / 16 * 16
unfolding holds_upto
top_nibble x = by_table (λ x. bit_and x 0xf0) (λ x. x / 16 * 16) 256 x refl

low_nibble : (x : ℕ) → x < 4096 → bit_and x 0x0f ≡ x % 16
unfolding holds_upto
low_nibble x = by_table (λ x. bit_and x 0x0f) (λ x. x % 16) 4096 x refl

low_byte : (x : ℕ) → x < 4096 → bit_and x 0xff ≡ x % 256
unfolding holds_upto
low_byte x = by_table (λ x. bit_and x 0xff) (λ x. x % 256) 4096 x refl

high_byte : (x : ℕ) → x < 4096 → bit_and x 0xff0 / 2 ^ 4 ≡ x / 16
unfolding holds_upto
high_byte x = by_table (λ x. bit_and x 0xff0 / 2 ^ 4) (λ x. x / 16) 4096 x refl

high_nibble : (x : ℕ) → x < 4096 → bit_and x 0xf00 / 2 ^ 8 ≡ x / 256
unfolding holds_upto
high_nibble x = by_table (λ x. bit_and x 0xf00 / 2 ^ 8) (λ x. x / 256) 4096 x refl

low_bit : (x : ℕ) → x < 4096 → bit_and x 1 ≡ x % 2
unfolding holds_upto
low_bit x = by_table (λ x. bit_and x 1) (λ x. x % 2) 4096 x refl

pub is_odd_lem : (x : ℕ) → x < 4096 → is_odd x ≡ (x % 2 == 1)
is_odd_lem x h = rw (low_bit x h)

module _ (lo hi : ℕ) (l : lo < 256) (h : hi < 256) where
  pub decode12-odd : decode12 true lo hi ≡ lo / 16 + hi * 16
  unfolding decode12
  decode12-odd = omega (
    arith,
    top_nibble lo l,
    join_nibble (bit_and lo 0xf0 / 2 ^ 4) hi (omega (arith, top_nibble lo l)) h,
  )

  pub decode12-even : decode12 false lo hi ≡ lo + hi % 16 * 256
  unfolding decode12
  decode12-even = omega (
    arith,
    low_nibble hi (omega arith),
    join_byte lo (bit_and hi 0x0f) l (omega (arith, low_nibble hi (omega arith))),
  )

module _ (x old : ℕ) (l : x < 4096) (h : old < 256) where
  pub low12-odd : low12 true x old ≡ old % 16 + x % 16 * 16
  unfolding low12
  low12-odd = omega (
    arith,
    low_nibble old (omega arith),
    low_nibble x l,
    join_nibble (bit_and old 0x0f) (bit_and x 0xf) (omega (arith, low_nibble old (omega arith)))
        (omega (arith, low_nibble x l)),
  )

  pub low12-even : low12 false x old ≡ x % 256
  unfolding low12
  low12-even = low_byte x l

  pub high12-odd : high12 true x old ≡ x / 16
  unfolding high12
  high12-odd = omega (arith, high_byte x l)

  pub high12-even : high12 false x old ≡ old / 16 * 16 + x / 256
  unfolding high12
  high12-even =
      rw
        (
          top_nibble old h,
          high_nibble x l,
          join_top (old / 16) (x / 256) (omega arith) (omega arith),
        )
        (omega arith)
