-- ===== src/BootFat/Names.antt =====
-- boot/filesystem/fat/fat.c: the long names of files, from UCS-2 to UTF-8.
use emos.Base.{
  ◌∙◌, sym, ap, ℕ, ◌+◌, ◌-◌, ◌/◌, ◌%◌, ◌≤◌, ◌<◌, ◌≡◌, ◌≢◌, refl, ◌||◌, List, [], ◌∷◌, ◌++◌, Option,
  none, some, ◌==◌, ==-false, ltb, ltb-true, ltb-false, if◌then◌else◌, length, length-append, arith,
  dec_lt,
}
use mathlib.Core.List.{append_assoc}
use emos.Ansiterm.Write.Utf8.{utf8, encode}

-- The bytes that are written for a code unit: none of them at the end of a name, and `none` is -1,
-- where they do not fit.
unfoldable pub ucs2_to_utf8 : (len ucs2ch : ℕ) → Option (List ℕ)
ucs2_to_utf8 len ucs2ch =
    if (ucs2ch == 0) || (ucs2ch == 0xffff)
    then some []
    else if ltb ucs2ch 0x7f
    then (if ltb len 1 then none else some (ucs2ch ∷ []))
    else if ltb ucs2ch 0x7ff
    then (if ltb len 2 then none else some ((ucs2ch / 64 % 32 + 0xc0) ∷ (ucs2ch % 64 + 0x80) ∷ []))
    else if ltb len 3
    then none
    else some ((ucs2ch / 4096 % 16 + 0xe0) ∷ (ucs2ch / 64 % 64 + 0x80) ∷ (ucs2ch % 64 + 0x80) ∷ [])

-- The bytes behind those of a code unit.
abbrev pub behind_unit : List ℕ → Option (List ℕ) → Option (List ℕ)
behind_unit bytes none = none
behind_unit bytes (some more) = some (bytes ++ more)

-- `u8ch_len`, where a code unit without room counts as the byte in its place.
abbrev pub u8ch_len : Option (List ℕ) → ℕ
u8ch_len none = 1
u8ch_len (some bytes) = length bytes

-- A round of the loop, before `more`; at the end of the name it writes the NUL.
abbrev pub put_unit : (fallback : ℕ) → Option (List ℕ) → Option (List ℕ) → Option (List ℕ)
put_unit fallback none more = behind_unit (fallback ∷ []) more
put_unit fallback (some []) more = some (0 ∷ [])
put_unit fallback (some (byte ∷ bytes)) more = behind_unit (byte ∷ bytes) more

-- The branch of lfn_ucs2_to_utf8 with allow_nonascii, which is the one that is used: the bytes that
-- are written, of which the buffer has room for `buflen`, and `none` where it reads behind the code units.
unfoldable pub lfn_ucs2_to_utf8 : (fallback buflen : ℕ) → (ucs2buf : List ℕ) → Option (List ℕ)
unfolding ucs2_to_utf8
lfn_ucs2_to_utf8 fallback buflen [] = if buflen == 0 then some [] else none
lfn_ucs2_to_utf8 fallback buflen (u ∷ us) =
    let written = ucs2_to_utf8 buflen u in
    let more = lfn_ucs2_to_utf8 fallback (buflen - u8ch_len written) us in
    if buflen == 0 then some [] else put_unit fallback written more

-- A code unit that is encoded as in UTF-8: it is neither 0 nor one of the limits.
abbrev pub IsPlain : (ch : ℕ) → Type 0
IsPlain ch = (0 < ch) × (ch < 0xffff) × (ch ≢ 0x7f) × (ch ≢ 0x7ff)

two_bytes :
    (ch : ℕ)
    → ch < 2048
    → Path
        (Option (List ℕ))
        (some ((ch / 64 % 32 + 192) ∷ (ch % 64 + 128) ∷ []))
        (some ((192 + ch / 64) ∷ (128 + ch % 64) ∷ []))
two_bytes ch h =
    let high : ch / 64 % 32 + 192 ≡ 192 + ch / 64 = omega arith in
    let low : ch % 64 + 128 ≡ 128 + ch % 64 = omega arith in rw (high, low) refl

three_bytes :
    (ch : ℕ)
    → ch < 65536
    → Path
        (Option (List ℕ))
        (some ((ch / 4096 % 16 + 224) ∷ (ch / 64 % 64 + 128) ∷ (ch % 64 + 128) ∷ []))
        (some ((224 + ch / 4096) ∷ (128 + ch / 64 % 64) ∷ (128 + ch % 64) ∷ []))
three_bytes ch h =
    let high : ch / 4096 % 16 + 224 ≡ 224 + ch / 4096 = omega arith in
    let middle : ch / 64 % 64 + 128 ≡ 128 + ch / 64 % 64 = omega arith in
    let low : ch % 64 + 128 ≡ 128 + ch % 64 = omega arith in rw (high, middle, low) refl

ucs2_to_utf8-utf8 :
    (len ch : ℕ) → IsPlain ch → length (utf8 ch) ≤ len → ucs2_to_utf8 len ch ≡ some (utf8 ch)
unfolding ucs2_to_utf8 utf8
ucs2_to_utf8-utf8 len ch plain =
    rw (==-false ch 0 (omega (arith, plain.0)), ==-false ch 0xffff (omega (arith, plain.1)))
      (elim (dec_lt ch 0x7f) [
        | yes a ↦
            rw (ltb-true ch 0x7f a, ltb-true ch 0x80 (omega (arith, a)))
              (λ h. rw (ltb-false len 1 (omega (arith, h))) refl)
        | no a ↦
            rw (ltb-false ch 0x7f a, ltb-false ch 0x80 (omega (arith, a, plain.2)))
              (elim (dec_lt ch 0x7ff) [
                | yes b ↦
                    rw (ltb-true ch 0x7ff b, ltb-true ch 0x800 (omega (arith, b)))
                      (λ h.
                        rw (ltb-false len 2 (omega (arith, h))) (two_bytes ch (omega (arith, b))))
                | no b ↦
                    rw
                      (
                        ltb-false ch 0x7ff b,
                        ltb-false ch 0x800 (omega (arith, b, plain.3)),
                        ltb-true ch 0x10000 (omega (arith, plain.1)),
                      )
                      (λ h.
                        rw (ltb-false len 3 (omega (arith, h)))
                          (three_bytes ch (omega (arith, plain.1))))
              ])
      ])

abbrev pub AllPlain : List ℕ → Type 0
AllPlain [] = Unit
AllPlain (c ∷ cs) = IsPlain c × AllPlain cs

-- The bytes of a code point are not none.
put_unit-utf8 :
    (fallback ch : ℕ) (bytes : List ℕ)
    → put_unit fallback (some (utf8 ch)) (some bytes) ≡ some (utf8 ch ++ bytes)
unfolding utf8
put_unit-utf8 fallback ch bytes = ground arith

-- A name of code units below 0xffff that are not 0, 0x7f or 0x7ff, with a 0 behind it, is written in
-- UTF-8, code unit by code unit, and with a NUL behind it, where the buffer has room for it and one byte more.
pub lfn_ucs2_to_utf8-encode :
    (fallback buflen : ℕ) (name rest : List ℕ)
    → AllPlain name
    → length (encode name) < buflen
    → lfn_ucs2_to_utf8 fallback buflen (name ++ 0 ∷ rest) ≡ some (encode name ++ 0 ∷ [])
unfolding lfn_ucs2_to_utf8 encode
lfn_ucs2_to_utf8-encode fallback buflen [] rest plain room =
    rw (==-false buflen 0 (omega (arith, room))) refl
lfn_ucs2_to_utf8-encode fallback buflen (c ∷ cs) rest plain room =
    let sum = length-append (utf8 c) (encode cs) in
    rw
      (
        ucs2_to_utf8-utf8 buflen c plain.0 (omega (arith, room, sum)),
        ==-false buflen 0 (omega (arith, room)),
        lfn_ucs2_to_utf8-encode fallback (buflen - length (utf8 c)) cs rest plain.1
            (omega (arith, room, sum)),
      )
      (put_unit-utf8 fallback c (encode cs ++ 0 ∷ [])
        ∙ ap some (sym (append_assoc (utf8 c) (encode cs) (0 ∷ []))))
