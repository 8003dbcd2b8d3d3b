-- ===== src/BootFat/Blocks.antt =====
-- Runs of bytes, and places in blocks of equal size.
use emos.Base.{ℕ, zero, suc, ◌+◌, ◌/◌, ◌%◌, ◌<◌, ◌≡◌, refl, ap, ap₂, ◌∷◌, ◌++◌, arith}
use native.Mathlib.Nat.{add-zero, zero-add, add_assoc}
use emos.BootFat.File.{bytes_from}

pub bytes_from-congr :
    (f g : ℕ → ℕ) (a b n : ℕ)
    → ((i : ℕ) → i < n → f (a + i) ≡ g (b + i))
    → bytes_from f a n ≡ bytes_from g b n
bytes_from-congr f g a b zero h = refl
bytes_from-congr f g a b (suc n) h =
    let head : f a ≡ g b = rw (add-zero a, add-zero b) at (h 0 (omega arith)) in
    let rest =
      bytes_from-congr f g (a + 1) (b + 1) n
        (λ i l. rw (add_assoc a 1 i, add_assoc b 1 i) (h (1 + i) (omega arith))) in
    ap₂ (λ x xs. x ∷ xs) head rest

pub bytes_from-append :
    (f : ℕ → ℕ) (a n m : ℕ) → bytes_from f a n ++ bytes_from f (a + n) m ≡ bytes_from f a (n + m)
bytes_from-append f a zero m = rw (add-zero a, zero-add m) refl
bytes_from-append f a (suc n) m =
    let place : a + suc n ≡ a + 1 + n = omega arith in
    let count : suc n + m ≡ suc (n + m) = omega arith in
    rw (place, count) (ap (λ xs. f a ∷ xs) (bytes_from-append f (a + 1) n m))

-- Places in one block, and at the next one.
pub div-within : (c i s : ℕ) → c % s + i < s → (c + i) / s ≡ c / s
div-within c i s h = grind arith

pub mod-within : (c i s : ℕ) → c % s + i < s → (c + i) % s ≡ c % s + i
mod-within c i s h = grind arith

pub div-next : (c i s : ℕ) → 0 < s → c % s + i ≡ s → (c + i) / s ≡ c / s + 1
div-next c i s p h = grind arith
