-- ===== src/Strto.antt =====
-- kernel/stdc/stdlib/strtol.c and strtoll.c, which boot/stdc has too: a number in text. A text is the
-- list of its bytes up to the NUL. `long` has 32 bits on i686 and `long long` 64; the value is the
-- word of that many bits, and its sums and products wrap.
pub mod Digits
pub mod Rest
mod Tests
use emos.Base.{
  ℕ, zero, suc, ◌+◌, ◌-◌, ◌*◌, ◌%◌, ◌^◌, Bool, true, false, List, [], ◌∷◌, Option, none, some, ◌==◌,
  ltb, leb, ◌&&◌, ◌||◌, if◌then◌else◌,
}
use emos.Base.Int.{ℤ, pos, negsuc}

pub data Errno : Type 0 where
  einval : Errno
  erange : Errno

-- What is returned, what `errno` was set to last, and what `*endptr` was set to.
pub record Parsed : Type 0 where
  pub value : ℕ
  pub errno : Option Errno
  pub rest : Option (List ℕ)

-- `base < 0 || base == 1 || base > 36`
abbrev pub bad_base : ℤ → Bool
bad_base (pos b) = b == 1 || ltb 36 b
bad_base (negsuc n) = true

abbrev pub base_of : ℤ → ℕ
base_of (pos b) = b
base_of (negsuc n) = 0

unfoldable pub skip_spaces : List ℕ → List ℕ
skip_spaces [] = []
skip_spaces (c ∷ cs) = if c == b' ' then skip_spaces cs else c ∷ cs

-- The sign, 1 for negative, and the text behind it.
unfoldable pub read_sign : List ℕ → Bool × List ℕ
read_sign [] = (false, [])
read_sign (c ∷ cs) =
    if c == b'+' then (false, cs) else if c == b'-' then (true, cs) else (false, c ∷ cs)

-- The byte at the front, NUL at the end of the text.
abbrev pub front : List ℕ → ℕ
front [] = 0
front (c ∷ cs) = c

abbrev pub behind : List ℕ → List ℕ
behind [] = []
behind (c ∷ cs) = cs

-- A leading `0` or `0x`, which gives the base where the caller gave 0.
unfoldable pub read_prefix : (base : ℕ) → List ℕ → ℕ × List ℕ
read_prefix base [] = (base, [])
read_prefix base (c ∷ cs) =
    if c == b'0'
    then (if front cs == b'x' || front cs == b'X'
        then ((if base == 0 then 16 else base), behind cs)
        else ((if base == 0 then 8 else base), cs))
    else (base, c ∷ cs)

unfoldable pub digit_of : ℕ → Option ℕ
digit_of c =
    if leb b'0' c && leb c b'9'
    then some (c - b'0')
    else if leb b'a' c && leb c b'z'
    then some (c - b'a' + 10)
    else if leb b'A' c && leb c b'Z'
    then some (c - b'A' + 10)
    else none

-- `if (sign) ret = -ret;` and what follows it.
abbrev pub finish : (width : ℕ) (negative : Bool) (ret : ℕ) → Option Errno → List ℕ → Parsed
finish width negative ret e str = record {
  value = if negative then (2 ^ width - ret) % 2 ^ width else ret;
  errno = e;
  rest = some str;
}

-- LONG_MIN and LONG_MAX; `*endptr` is not set.
abbrev pub out_of_range : (width : ℕ) (negative : Bool) → Parsed
out_of_range width negative = record {
  value = if negative then 2 ^ (width - 1) else 2 ^ (width - 1) - 1;
  errno = some Errno.erange;
  rest = none;
}

-- The loop over the digits.
unfoldable pub read_digits : (width base : ℕ) (negative : Bool) (ret : ℕ) → List ℕ → Parsed
unfolding digit_of
read_digits width base negative ret [] = finish width negative ret none []
read_digits width base negative ret (c ∷ cs) = elim (digit_of c) [
  | none ↦ finish width negative ret (some Errno.einval) (c ∷ cs)
  | some d ↦
      let ret' : ℕ = (ret * base + d) % 2 ^ width in
      let more = read_digits width base negative ret' cs in
      if leb base d
      then finish width negative ret (some Errno.einval) (c ∷ cs)
      else if leb (2 ^ (width - 1)) ret'
      then out_of_range width negative
      else more
]

unfoldable pub read_number : (width : ℕ) (str : List ℕ) (base : ℤ) → Parsed
unfolding skip_spaces read_sign read_prefix read_digits
read_number width str base =
    if bad_base base
    then record { value = 0; errno = some Errno.einval; rest = none }
    else (let (negative, str1) = read_sign (skip_spaces str) in
        let (base1, str2) = read_prefix (base_of base) str1 in
        read_digits width base1 negative 0 str2)

unfoldable pub strtol : (str : List ℕ) (base : ℤ) → Parsed
unfolding read_number
strtol str base = read_number 32 str base

unfoldable pub strtoll : (str : List ℕ) (base : ℤ) → Parsed
unfolding read_number
strtoll str base = read_number 64 str base
