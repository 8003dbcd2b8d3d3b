-- ===== src/Ctype/Tests.antt =====
-- The classes of one character, and of a byte that is not ASCII.
use emos.Base.{◌≡◌, refl, true, false, none, some, arith}
use emos.Base.Int.{pos, negsuc}
use emos.Ctype.{
  isdigit, isupper, islower, isalpha, isalnum, isxdigit, iscntrl, isspace, isblank, isgraph,
  isprint, ispunct, toupper, tolower,
}
use emos.Ctype.Classes.{classify-ascii}

-- A `char` of 0xe9 is -23, which is outside of the table.
isalnum_outside : isalnum (negsuc 22) ≡ none
unfolding isalnum
isalnum_outside = refl

classify-ascii_example :
    (isdigit (pos b'F') ≡ some false)
    × (isupper (pos b'F') ≡ some true)
    × (islower (pos b'F') ≡ some false)
    × (isalpha (pos b'F') ≡ some true)
    × (isalnum (pos b'F') ≡ some true)
    × (isxdigit (pos b'F') ≡ some true)
    × (iscntrl (pos b'F') ≡ some false)
    × (isspace (pos b'F') ≡ some false)
    × (isblank (pos b'F') ≡ some false)
    × (isgraph (pos b'F') ≡ some true)
    × (isprint (pos b'F') ≡ some true)
    × (ispunct (pos b'F') ≡ some false)
classify-ascii_example = classify-ascii b'F' (omega arith)

letter_cases : (toupper b'f' ≡ some b'F') × (tolower b'F' ≡ some b'f') × (tolower b'f' ≡ some b'f')
unfolding toupper tolower
letter_cases = (refl, refl, refl)
