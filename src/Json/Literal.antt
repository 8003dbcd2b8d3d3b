-- ===== src/Json/Literal.antt =====
-- The bytes of a string fit what `parse_string_literal` allocates for them.
use emos.Base.{
  ℕ, suc, ◌≤◌, ◌≡◌, refl, Bool, true, false, List, [], ◌∷◌, Option, ◌==◌, arith, length,
  if◌then◌else◌,
}
use emos.Json.{count_escaped_string_len, stored, literal_loop}

-- One byte of the loop.
byte-le :
    (n c : ℕ) (rest : List ℕ × Option (List ℕ)) (end : Option (List ℕ)) (escape quote : Bool)
    → (quote ≡ true → escape ≡ false)
    → length rest.0 ≤ n
    → length ((if escape then rest else if quote then ([], end) else stored c rest).0)
      ≤ (if quote then 0 else suc n)
byte-le n c rest end true true e h = ground (arith, e refl)
byte-le n c rest end true false e h = omega arith
byte-le n c rest end false true e h = omega arith
byte-le n c (str, more) end false false e h = omega arith

-- Whether it comes to a closing quote or fails, the loop of parse_string_literal stores no more bytes
-- than count_escaped_string_len counts, so they and the NUL are inside the allocation of one more, in
-- the middle of an escape or not.
pub length-literal_loop :
    (escaped : Bool) (text : List ℕ)
    → length ((literal_loop escaped text).0) ≤ count_escaped_string_len escaped text
unfolding literal_loop count_escaped_string_len
length-literal_loop true [] = omega arith
length-literal_loop false [] = omega arith
length-literal_loop true (c ∷ cs) = length-literal_loop false cs
length-literal_loop false (c ∷ cs) =
    byte-le _ c _ _ (c == b'\\') (c == b'"') (λ q. ground arith)
      (length-literal_loop (c == b'\\') cs)
