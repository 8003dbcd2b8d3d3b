-- ===== src/Strto/Digits.antt =====
-- The number that digits stand for, and what the functions make of its text.
use emos.Base.{
  ℕ, zero, suc, ◌+◌, ◌-◌, ◌*◌, ◌%◌, ◌^◌, ◌≤◌, ◌<◌, ◌≡◌, refl, Bool, true, false, List, [], ◌∷◌,
  ◌++◌, map, none, some, ltb, if◌then◌else◌, arith, replicate, leb-false, ltb-false, ==-false, ◌≢◌,
}
use native.Mathlib.Nat.{mod-eq_of_lt}
use emos.Base.Int.{pos}
use emos.Strto.{
  digit_of, finish, read_digits, read_number, read_prefix, read_sign, skip_spaces, strtoll,
}

-- The character of a digit.
unfoldable pub digit_char : ℕ → ℕ
digit_char d = if ltb d 10 then b'0' + d else b'a' + (d - 10)

-- Horner's rule: the number of the digits behind the number `acc`.
abbrev pub horner : (base acc : ℕ) → List ℕ → ℕ
horner base acc [] = acc
horner base acc (d ∷ ds) = horner base (acc * base + d) ds

abbrev pub AllBelow : (base : ℕ) → List ℕ → Type 0
AllBelow base [] = Unit {0}
AllBelow base (d ∷ ds) = (d < base) × AllBelow base ds

digit_of-digit_char : (d : ℕ) → d < 36 → digit_of (digit_char d) ≡ some d
unfolding digit_of digit_char
digit_of-digit_char d l = ground arith

pub horner-le : (base acc : ℕ) (ds : List ℕ) → 0 < base → acc ≤ horner base acc ds
horner-le base acc [] h = omega arith
horner-le base acc (d ∷ ds) h = grind (arith, horner-le base (acc * base + d) ds h)

read_digits-horner :
    (width base : ℕ) (negative : Bool) (acc : ℕ) (ds : List ℕ)
    → 0 < base
    → base ≤ 36
    → AllBelow base ds
    → horner base acc ds < 2 ^ (width - 1)
    → 2 ^ (width - 1) ≤ 2 ^ width
    → read_digits width base negative acc (map digit_char ds)
      ≡ finish width negative (horner base acc ds) none []
unfolding read_digits
read_digits-horner width base negative acc [] p l a b w = refl
read_digits-horner width base negative acc (d ∷ ds) p l (e, a) b w =
    let top = horner-le base (acc * base + d) ds p in
    let fits : acc * base + d < 2 ^ (width - 1) = omega (arith, top) in
    let word : (acc * base + d) % 2 ^ width ≡ acc * base + d = mod-eq_of_lt (omega arith) in
    let ih = read_digits-horner width base negative (acc * base + d) ds p l a b w in
    rw
      (
        digit_of-digit_char d (omega arith),
        read_digits,
        word,
        leb-false base d (omega arith),
        leb-false (2 ^ (width - 1)) (acc * base + d) (omega arith),
      )
      ih

skip_spaces-replicate :
    (k c : ℕ) (cs : List ℕ) → c ≢ b' ' → skip_spaces (replicate k b' ' ++ (c ∷ cs)) ≡ c ∷ cs
unfolding skip_spaces
skip_spaces-replicate zero c cs n = ground arith
skip_spaces-replicate (suc k) c cs n = ground (arith, skip_spaces-replicate k c cs n)

-- A minus sign, or nothing.
abbrev pub sign_text : (negative : Bool) → List ℕ → List ℕ
sign_text true cs = b'-' ∷ cs
sign_text false cs = cs

read_sign-sign_text :
    (negative : Bool) (c : ℕ) (cs : List ℕ)
    → c ≢ b'+'
    → c ≢ b'-'
    → read_sign (sign_text negative (c ∷ cs)) ≡ (negative, c ∷ cs)
unfolding read_sign
read_sign-sign_text true c cs p m = refl
read_sign-sign_text false c cs p m = ground arith

-- A first digit that is not 0 is no sign, no space and no prefix.
digit_char-plain :
    (d : ℕ)
    → 0 < d
    → d < 36
    → (digit_char d ≢ b' ') × (digit_char d ≢ b'+') × (digit_char d ≢ b'-') × (digit_char d ≢ b'0')
unfolding digit_char
digit_char-plain d p l = (ground arith, ground arith, ground arith, ground arith)

sign_text-spaces :
    (k : ℕ) (negative : Bool) (c : ℕ) (cs : List ℕ)
    → c ≢ b' '
    → skip_spaces (replicate k b' ' ++ sign_text negative (c ∷ cs)) ≡ sign_text negative (c ∷ cs)
sign_text-spaces k true c cs n = skip_spaces-replicate k b'-' (c ∷ cs) (ground arith)
sign_text-spaces k false c cs n = skip_spaces-replicate k c cs n

read_number-horner :
    (width k base d : ℕ) (negative : Bool) (ds : List ℕ)
    → 1 < base
    → base ≤ 36
    → 0 < d
    → AllBelow base (d ∷ ds)
    → horner base 0 (d ∷ ds) < 2 ^ (width - 1)
    → 2 ^ (width - 1) ≤ 2 ^ width
    → read_number width
        (replicate k b' ' ++ sign_text negative (map digit_char (d ∷ ds)))
        (pos base)
      ≡ finish width negative (horner base 0 (d ∷ ds)) none []
unfolding read_number read_prefix
read_number-horner width k base d negative ds o u p a b w =
    let (ns, np, nm, nz) = digit_char-plain d p (omega arith) in
    let body = read_digits-horner width base negative 0 (d ∷ ds) (omega arith) u a b w in
    rw
      (
        sign_text-spaces k negative (digit_char d) (map digit_char ds) ns,
        read_sign-sign_text negative (digit_char d) (map digit_char ds) np nm,
        ==-false (digit_char d) b'0' nz,
        ==-false base 1 (omega arith),
        ltb-false 36 base (omega arith),
      )
      body

-- The word of `width` bits that stands for a number with a sign: with a minus, the number and the
-- word sum up to 0 modulo 2 ^ width.
abbrev pub Stands : (width : ℕ) (negative : Bool) (n word : ℕ) → Type 0
Stands width true n word = (n + word) % 2 ^ width ≡ 0
Stands width false n word = word ≡ n

-- The same for strtoll and a number below 2 ^ 63.
pub strtoll-horner :
    (k base d : ℕ) (negative : Bool) (ds : List ℕ)
    → 1 < base
    → base ≤ 36
    → 0 < d
    → AllBelow base (d ∷ ds)
    → horner base 0 (d ∷ ds) < 2 ^ 63
    → strtoll (replicate k b' ' ++ sign_text negative (map digit_char (d ∷ ds))) (pos base)
      ≡ finish 64 negative (horner base 0 (d ∷ ds)) none []
unfolding strtoll
strtoll-horner k base d negative ds o u p a b =
    read_number-horner 64 k base d negative ds o u p a b (omega arith)
