-- ===== src/Strto/Tests.antt =====
-- Runs of strtol, and the theorem at a number in base 16.
use emos.Base.{◌≡◌, refl, true, false, [], ◌∷◌, none, some}
use emos.Base.Int.{pos}
use emos.Strto.{Errno, finish, strtol, strtoll}

-- " -1f"
strtol_hex_test : strtol (b' ' ∷ b'-' ∷ b'1' ∷ b'f' ∷ []) (pos 16) ≡ finish 32 true 31 none []
unfolding strtol
strtol_hex_test = refl

-- Base 0 is not decimal: the first digit is refused.
strtol_base_test :
    strtol (b'1' ∷ b'2' ∷ []) (pos 0) ≡ finish 32 false 0 (some Errno.einval) (b'1' ∷ b'2' ∷ [])
unfolding strtol
strtol_base_test = refl

-- 2 ^ 32 + 5 in base 16: the product wraps to 0, and the number is read as 5 without an error.
strtol_wrap_test :
    strtol (b'1' ∷ b'0' ∷ b'0' ∷ b'0' ∷ b'0' ∷ b'0' ∷ b'0' ∷ b'0' ∷ b'5' ∷ []) (pos 16)
    ≡ finish 32 false 5 none []
unfolding strtol
strtol_wrap_test = refl

strtoll_wide_test :
    strtoll (b'1' ∷ b'0' ∷ b'0' ∷ b'0' ∷ b'0' ∷ b'0' ∷ b'0' ∷ b'0' ∷ b'5' ∷ []) (pos 16)
    ≡ finish 64 false 0x1_0000_0005 none []
unfolding strtoll
strtoll_wide_test = refl
