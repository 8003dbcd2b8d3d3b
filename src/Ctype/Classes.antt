-- ===== src/Ctype/Classes.antt =====
-- The classes of ASCII written out, and that the table says the same.
use emos.Base.{
  ℕ, ◌<◌, ◌≡◌, refl, Bool, true, false, Option, none, some, ◌==◌, leb, not, ◌&&◌, ◌||◌, arith,
  holds_upto, holds_upto-at,
}
use emos.Base.Int.{pos}
use emos.Ctype.{
  isalnum, isalpha, iscntrl, isdigit, isgraph, islower, isprint, ispunct, isspace, isupper,
  isxdigit, isblank,
}

abbrev within : (first last c : ℕ) → Bool
within first last c = leb first c && leb c last

abbrev pub is_digit : ℕ → Bool
is_digit c = within b'0' b'9' c

abbrev pub is_upper : ℕ → Bool
is_upper c = within b'A' b'Z' c

abbrev pub is_lower : ℕ → Bool
is_lower c = within b'a' b'z' c

abbrev pub is_alpha : ℕ → Bool
is_alpha c = is_upper c || is_lower c

abbrev pub is_alnum : ℕ → Bool
is_alnum c = is_alpha c || is_digit c

abbrev pub is_xdigit : ℕ → Bool
is_xdigit c = is_digit c || within b'A' b'F' c || within b'a' b'f' c

abbrev pub is_cntrl : ℕ → Bool
is_cntrl c = within 0 31 c || c == 127

abbrev pub is_space : ℕ → Bool
is_space c = within 9 13 c || c == b' '

abbrev pub is_blank : ℕ → Bool
is_blank c = c == 9 || c == b' '

abbrev pub is_graph : ℕ → Bool
is_graph c = within 33 126 c

abbrev pub is_print : ℕ → Bool
is_print c = within 32 126 c

abbrev pub is_punct : ℕ → Bool
is_punct c = is_graph c && not (is_alnum c)

abbrev same : Option Bool → Bool → Bool
same none b = false
same (some true) b = b
same (some false) b = not b

same-some : (o : Option Bool) (b : Bool) → same o b ≡ true → o ≡ some b
same-some none b h = ground arith
same-some (some true) b h = ground arith
same-some (some false) b h = ground arith

-- A class that agrees with the table at each of its entries.
by_table :
    (f : ℕ → Option Bool) (g : ℕ → Bool) (c : ℕ)
    → c < 128
    → holds_upto (λ d. same (f d) (g d)) 128 ≡ true
    → f c ≡ some (g c)
by_table f g c l h = same-some (f c) (g c) (holds_upto-at (λ d. same (f d) (g d)) c 128 l h)

-- For a character below 128 each of the twelve functions tells the class of ASCII.
pub classify-ascii :
    (c : ℕ)
    → c < 128
    → (isdigit (pos c) ≡ some (is_digit c))
      × (isupper (pos c) ≡ some (is_upper c))
      × (islower (pos c) ≡ some (is_lower c))
      × (isalpha (pos c) ≡ some (is_alpha c))
      × (isalnum (pos c) ≡ some (is_alnum c))
      × (isxdigit (pos c) ≡ some (is_xdigit c))
      × (iscntrl (pos c) ≡ some (is_cntrl c))
      × (isspace (pos c) ≡ some (is_space c))
      × (isblank (pos c) ≡ some (is_blank c))
      × (isgraph (pos c) ≡ some (is_graph c))
      × (isprint (pos c) ≡ some (is_print c))
      × (ispunct (pos c) ≡ some (is_punct c))
unfolding holds_upto isdigit isupper islower isalpha isalnum isxdigit iscntrl isspace isblank
    isgraph isprint ispunct
classify-ascii c l = (
  by_table (λ d. isdigit (pos d)) is_digit c l refl,
  by_table (λ d. isupper (pos d)) is_upper c l refl,
  by_table (λ d. islower (pos d)) is_lower c l refl,
  by_table (λ d. isalpha (pos d)) is_alpha c l refl,
  by_table (λ d. isalnum (pos d)) is_alnum c l refl,
  by_table (λ d. isxdigit (pos d)) is_xdigit c l refl,
  by_table (λ d. iscntrl (pos d)) is_cntrl c l refl,
  by_table (λ d. isspace (pos d)) is_space c l refl,
  by_table (λ d. isblank (pos d)) is_blank c l refl,
  by_table (λ d. isgraph (pos d)) is_graph c l refl,
  by_table (λ d. isprint (pos d)) is_print c l refl,
  by_table (λ d. ispunct (pos d)) is_punct c l refl,
)
