-- ===== src/Ends.antt =====
-- How a function of a driver ends on a state: with STATUS_SUCCESS, with another status, which the
-- caller passes on, or at an access outside of an object; a failure keeps what was done before it.
use emos.Base.{ℕ, zero, suc, ◌+◌, ◌-◌, ◌%◌, ◌^◌, ◌≡◌, refl}
use emos.Status.{Status}

pub data Ended (S A : Type 0) : Type 0 where
  done : A → S → Ended S A
  fails : Status → S → Ended S A
  outside : Ended S A

abbrev pub Act : Type 0 → Type 0 → Type 0
Act S A = S → Ended S A

-- What comes behind a success.
abbrev pub follow : {S A B : Type 0} → Ended S A → (A → Act S B) → Ended S B
follow (done a s) f = f a s
follow (fails st s) f = fails st s
follow outside f = outside

infixl 5 ◌>>=◌ ◌>>◌
abbrev pub ◌>>=◌ : {S A B : Type 0} → Act S A → (A → Act S B) → Act S B
◌>>=◌ m f s = follow (m s) f

abbrev pub ◌>>◌ : {S B : Type 0} → Act S (Unit {0}) → Act S B → Act S B
m >> k = m >>= λ _. k

abbrev pub pass : {S : Type 0} → Act S (Unit {0})
pass s = done tt s

-- `rounds` rounds with an index that goes up, or down, from `i`.
unfoldable pub for_up : {S : Type 0} → (rounds i : ℕ) → (ℕ → Act S (Unit {0})) → Act S (Unit {0})
for_up zero i body s = done tt s
for_up (suc n) i body s = (body i >> for_up n ((i + 1) % 2 ^ 32) body) s

unfoldable pub for_down : {S : Type 0} → (rounds i : ℕ) → (ℕ → Act S (Unit {0})) → Act S (Unit {0})
for_down zero i body s = done tt s
for_down (suc n) i body s = (body i >> for_down n ((i + (2 ^ 32 - 1)) % 2 ^ 32) body) s

-- The three ends, with the equation.
pub data View {S A : Type 0} (e : Ended S A) : Type 0 where
  is_done : (a : A) (s : S) → e ≡ done a s → View e
  is_failure : (st : Status) (s : S) → e ≡ fails st s → View e
  is_outside : e ≡ outside → View e

pub view : {S A : Type 0} (e : Ended S A) → View e
view (done a s) = View.is_done a s refl
view (fails st s) = View.is_failure st s refl
view outside = View.is_outside refl
