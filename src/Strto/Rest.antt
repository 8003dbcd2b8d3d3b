-- ===== src/Strto/Rest.antt =====
-- The text behind a number is no longer than the text.
use emos.Base.{
  ℕ, suc, ◌+◌, ◌-◌, ◌*◌, ◌%◌, ◌^◌, ◌≤◌, Bool, true, false, List, [], ◌∷◌, Option, none, some, leb,
  if◌then◌else◌, arith, length, Option-cases, Bool-cases, inl, inr,
}
use emos.Base.Int.{ℤ}
use emos.Strto.{
  Parsed, Errno, behind, bad_base, base_of, finish, out_of_range, digit_of, skip_spaces, read_sign,
  read_prefix, read_digits, read_number, strtol,
}

-- What `*endptr` is set to is no longer than `n`.
abbrev Within : ℕ → Option (List ℕ) → Type 0
Within n none = Unit {0}
Within n (some rest) = length rest ≤ n

Within-le : (m n : ℕ) (o : Option (List ℕ)) → m ≤ n → Within m o → Within n o
Within-le m n none l w = tt
Within-le m n (some rest) l w = omega arith

skip_spaces-le : (cs : List ℕ) → length (skip_spaces cs) ≤ length cs
unfolding skip_spaces
skip_spaces-le [] = omega arith
skip_spaces-le (c ∷ cs) = ground (arith, skip_spaces-le cs)

read_sign-le : (cs : List ℕ) → length ((read_sign cs).1) ≤ length cs
unfolding read_sign
read_sign-le [] = omega arith
read_sign-le (c ∷ cs) = ground arith

pub behind-le : (cs : List ℕ) → length (behind cs) ≤ length cs
behind-le [] = omega arith
behind-le (c ∷ cs) = omega arith

read_prefix-le : (base : ℕ) (cs : List ℕ) → length ((read_prefix base cs).1) ≤ length cs
unfolding read_prefix
read_prefix-le base [] = omega arith
read_prefix-le base (c ∷ cs) = ground (arith, behind-le cs)

-- The two tests behind a digit.
tests-Within :
    (a b : Bool) (p q r : Parsed) (n : ℕ)
    → Within n p.rest
    → Within n q.rest
    → Within n r.rest
    → Within n ((if a then p else if b then q else r).rest)
tests-Within true b p q r n x y z = x
tests-Within false true p q r n x y z = y
tests-Within false false p q r n x y z = z

read_digits-Within :
    (width base : ℕ) (negative : Bool) (ret : ℕ) (cs : List ℕ)
    → Within (length cs) ((read_digits width base negative ret cs).rest)
unfolding read_digits
read_digits-Within width base negative ret [] = omega arith
read_digits-Within width base negative ret (c ∷ cs) = elim (Option-cases (digit_of c)) [
  | inl e ↦ rw (e, read_digits) (omega arith)
  | inr (d, e) ↦
      let ret' : ℕ = (ret * base + d) % 2 ^ width in
      rw (e, read_digits)
        (tests-Within (leb base d) (leb (2 ^ (width - 1)) ret')
          (finish width negative ret (some Errno.einval) (c ∷ cs)) (out_of_range width negative)
          (read_digits width base negative ret' cs) (suc (length cs)) (omega arith) tt
          (Within-le (length cs) (suc (length cs)) _ (omega arith)
            (read_digits-Within width base negative ret' cs)))
]

read_number-Within :
    (width : ℕ) (cs : List ℕ) (base : ℤ) → Within (length cs) ((read_number width cs base).rest)
unfolding read_number
read_number-Within width cs base = elim (Bool-cases (bad_base base)) [
  | inl e ↦ rw (e, read_number) tt
  | inr e ↦
      let s = (read_sign (skip_spaces cs)).1 in
      let t = (read_prefix (base_of base) s).1 in
      rw (e, read_number)
        (Within-le (length t) (length cs) _
          (omega (
            arith,
            skip_spaces-le cs,
            read_sign-le (skip_spaces cs),
            read_prefix-le (base_of base) s,
          ))
          (read_digits-Within width _ _ 0 t))
]

Within-end :
    (cs : List ℕ) (o : Option (List ℕ))
    → Within (length cs) o
    → length (elim o [ none ↦ cs | some rest ↦ rest ]) ≤ length cs
Within-end cs none w = omega arith
Within-end cs (some rest) w = w

-- The rest of the text behind a number of `strtol`, or the whole text.
pub strtol-le :
    (cs : List ℕ) (base : ℤ)
    → length (elim (strtol cs base).rest [ none ↦ cs | some rest ↦ rest ]) ≤ length cs
unfolding strtol
strtol-le cs base = Within-end cs (strtol cs base).rest (read_number-Within 32 cs base)
