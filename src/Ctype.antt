-- ===== src/Ctype.antt =====
-- kernel/stdc/ctype/ctype.c: the classes of characters, from a table of 128 words.
pub mod Classes
mod Tests
use emos.Base.{
  ℕ, ◌+◌, ◌-◌, Bool, List, [], ◌∷◌, Option, none, some, get_elem?, ◌==◌, not, if◌then◌else◌,
  bit_and,
}
use emos.Base.Int.{ℤ, pos, negsuc}

abbrev pub ctype_table : List ℕ
ctype_table =
    0x0001 ∷ 0x0001 ∷ 0x0001 ∷ 0x0001 ∷ 0x0001 ∷ 0x0001 ∷ 0x0001 ∷ 0x0001 ∷ 0x0001 ∷ 0x000d ∷ 0x0005
    ∷ 0x0005 ∷ 0x0005 ∷ 0x0005 ∷ 0x0001 ∷ 0x0001 ∷ 0x0001 ∷ 0x0001 ∷ 0x0001 ∷ 0x0001 ∷ 0x0001
    ∷ 0x0001 ∷ 0x0001 ∷ 0x0001 ∷ 0x0001 ∷ 0x0001 ∷ 0x0001 ∷ 0x0001 ∷ 0x0001 ∷ 0x0001 ∷ 0x0001
    ∷ 0x0001 ∷ 0x000e ∷ 0x0032 ∷ 0x0032 ∷ 0x0032 ∷ 0x0032 ∷ 0x0032 ∷ 0x0032 ∷ 0x0032 ∷ 0x0032
    ∷ 0x0032 ∷ 0x0032 ∷ 0x0032 ∷ 0x0032 ∷ 0x0032 ∷ 0x0032 ∷ 0x0032 ∷ 0x0c52 ∷ 0x0c52 ∷ 0x0c52
    ∷ 0x0c52 ∷ 0x0c52 ∷ 0x0c52 ∷ 0x0c52 ∷ 0x0c52 ∷ 0x0c52 ∷ 0x0c52 ∷ 0x0032 ∷ 0x0032 ∷ 0x0032
    ∷ 0x0032 ∷ 0x0032 ∷ 0x0032 ∷ 0x0032 ∷ 0x09d2 ∷ 0x09d2 ∷ 0x09d2 ∷ 0x09d2 ∷ 0x09d2 ∷ 0x09d2
    ∷ 0x01d2 ∷ 0x01d2 ∷ 0x01d2 ∷ 0x01d2 ∷ 0x01d2 ∷ 0x01d2 ∷ 0x01d2 ∷ 0x01d2 ∷ 0x01d2 ∷ 0x01d2
    ∷ 0x01d2 ∷ 0x01d2 ∷ 0x01d2 ∷ 0x01d2 ∷ 0x01d2 ∷ 0x01d2 ∷ 0x01d2 ∷ 0x01d2 ∷ 0x01d2 ∷ 0x01d2
    ∷ 0x0032 ∷ 0x0032 ∷ 0x0032 ∷ 0x0032 ∷ 0x0032 ∷ 0x0032 ∷ 0x0ad2 ∷ 0x0ad2 ∷ 0x0ad2 ∷ 0x0ad2
    ∷ 0x0ad2 ∷ 0x0ad2 ∷ 0x02d2 ∷ 0x02d2 ∷ 0x02d2 ∷ 0x02d2 ∷ 0x02d2 ∷ 0x02d2 ∷ 0x02d2 ∷ 0x02d2
    ∷ 0x02d2 ∷ 0x02d2 ∷ 0x02d2 ∷ 0x02d2 ∷ 0x02d2 ∷ 0x02d2 ∷ 0x02d2 ∷ 0x02d2 ∷ 0x02d2 ∷ 0x02d2
    ∷ 0x02d2 ∷ 0x02d2 ∷ 0x0032 ∷ 0x0032 ∷ 0x0032 ∷ 0x0032 ∷ 0x0001 ∷ []

-- `ctype_table[c]`, nothing where `c` is outside of the table.
unfoldable pub entry : ℤ → Option ℕ
entry (pos c) = get_elem? ctype_table c
entry (negsuc n) = none

-- `!!(ctype_table[c] & mask)`
unfoldable pub classify : (mask : ℕ) → ℤ → Option Bool
unfolding entry
classify mask c = elim (entry c) [ none ↦ none | some word ↦ some (not (bit_and word mask == 0)) ]

unfoldable pub isalnum : ℤ → Option Bool
unfolding classify
isalnum c = classify 0x0040 c

unfoldable pub isalpha : ℤ → Option Bool
unfolding classify
isalpha c = classify 0x0080 c

unfoldable pub iscntrl : ℤ → Option Bool
unfolding classify
iscntrl c = classify 0x0001 c

unfoldable pub isdigit : ℤ → Option Bool
unfolding classify
isdigit c = classify 0x0400 c

unfoldable pub isgraph : ℤ → Option Bool
unfolding classify
isgraph c = classify 0x0010 c

unfoldable pub islower : ℤ → Option Bool
unfolding classify
islower c = classify 0x0200 c

unfoldable pub isprint : ℤ → Option Bool
unfolding classify
isprint c = classify 0x0002 c

unfoldable pub ispunct : ℤ → Option Bool
unfolding classify
ispunct c = classify 0x0020 c

unfoldable pub isspace : ℤ → Option Bool
unfolding classify
isspace c = classify 0x0004 c

unfoldable pub isupper : ℤ → Option Bool
unfolding classify
isupper c = classify 0x0100 c

unfoldable pub isxdigit : ℤ → Option Bool
unfolding classify
isxdigit c = classify 0x0800 c

unfoldable pub isblank : ℤ → Option Bool
unfolding classify
isblank c = classify 0x0008 c

-- The character moved by the distance of the two alphabets where it is in a class.
abbrev pub shifted : (mask : ℕ) (to from : ℕ) → ℕ → Option ℕ
shifted mask to from c = elim (classify mask (pos c)) [
  | none ↦ none
  | some b ↦ some (if b then c - from + to else c)
]

unfoldable pub toupper : ℕ → Option ℕ
unfolding classify
toupper c = shifted 0x0200 b'A' b'a' c

unfoldable pub tolower : ℕ → Option ℕ
unfolding classify
tolower c = shifted 0x0100 b'a' b'A' c
