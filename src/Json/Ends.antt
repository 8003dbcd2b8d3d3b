-- ===== src/Json/Ends.antt =====
-- The reader ends: it never needs more rounds than the text has bytes, and one.
use emos.Base.{
  ℕ, suc, ◌+◌, ◌-◌, ◌*◌, ◌%◌, ◌^◌, ◌≤◌, ◌<◌, Bool, true, false, List, [], ◌∷◌, Option, none, some,
  ◌==◌, ◌&&◌, not, leb, arith, length, drop, length-drop, if◌then◌else◌,
}
use emos.Status.{Status}
use emos.Strto.{front, behind}
use emos.Path.{is_nil}
use emos.Ctype.{isspace, isdigit}
use emos.Shell.Expand.{char_of}
use emos.Json.Tree.{Value}
use emos.Json.{
  Result, then_do, or_panic, on_space, skip_whitespace, advance, Object, stored, literal_loop,
  literal_result, on_digit, digits_loop, allocate, literal_at, parse_string_literal, parse_string,
  number_at, parse_number, word_at, other_at, parse_other,
}

-- The call ended; where it succeeded it left a text of fewer bytes.
abbrev pub Below {ℓ} : {A : Type ℓ} (n : ℕ) → Result A → Type 0
Below n (Result.ok a text) = length text < n
Below n Result.still = ⊥
Below n _ = Unit {0}

pub Below-le {ℓ} : {A : Type ℓ} (n m : ℕ) (r : Result A) → n ≤ m → Below n r → Below m r
Below-le n m (Result.ok a text) l h = omega arith
Below-le n m (Result.err s) l h = tt
Below-le n m Result.panics l h = tt
Below-le n m Result.outside l h = tt
Below-le n m Result.still l h = elim h [ ]

pub Below-then_do {ℓ κ} :
    {A : Type ℓ} {B : Type κ} (n m : ℕ) (r : Result A) (next : A → List ℕ → Result B)
    → Below n r
    → ((a : A) (text : List ℕ) → length text < n → Below m (next a text))
    → Below m (then_do r next)
unfolding then_do
Below-then_do n m (Result.ok a text) next h k = k a text h
Below-then_do n m (Result.err s) next h k = tt
Below-then_do n m Result.panics next h k = tt
Below-then_do n m Result.outside next h k = tt
Below-then_do n m Result.still next h k = elim h [ ]

pub Below-or_panic {ℓ} : {A : Type ℓ} (n : ℕ) (r : Result A) → Below n r → Below n (or_panic r)
unfolding or_panic
Below-or_panic n (Result.ok a text) h = h
Below-or_panic n (Result.err s) h = tt
Below-or_panic n Result.panics h = tt
Below-or_panic n Result.outside h = tt
Below-or_panic n Result.still h = elim h [ ]

pub if-Below {ℓ} :
    {A : Type ℓ} (n : ℕ) (b : Bool) (x y : Result A)
    → Below n x
    → Below n y
    → Below n (if b then x else y)
if-Below n true x y h k = h
if-Below n false x y h k = k

pub err-Below {ℓ} : (A : Type ℓ) (n : ℕ) (s : Status) → Below {A = A} n (Result.err s)
err-Below A n s = tt

on_space-Below {ℓ} :
    {A : Type ℓ} (n : ℕ) (b : Option Bool) (x y : Result A)
    → Below n x
    → Below n y
    → Below n (on_space b x y)
on_space-Below n none x y h k = tt
on_space-Below n (some true) x y h k = h
on_space-Below n (some false) x y h k = k

pub skip_whitespace-Below : (text : List ℕ) → Below (suc (length text)) (skip_whitespace text)
unfolding skip_whitespace
skip_whitespace-Below [] = omega arith
skip_whitespace-Below (c ∷ cs) =
    on_space-Below _ (isspace (char_of c)) _ _
      (Below-le _ _ (skip_whitespace cs) (omega arith) (skip_whitespace-Below cs)) (omega arith)

pub advance-Below : (s : Status) (text : List ℕ) → Below (length text) (advance s text)
unfolding advance
advance-Below s [] = tt
advance-Below s (c ∷ cs) = if-Below _ (is_nil cs) _ _ tt (omega arith)

literal_if-Below :
    (n : ℕ) (b : Bool) (x y : List ℕ × Option (List ℕ))
    → Below n (literal_result x)
    → Below n (literal_result y)
    → Below n (literal_result (if b then x else y))
literal_if-Below n true x y h k = h
literal_if-Below n false x y h k = k

stored-Below :
    (n c : ℕ) (r : List ℕ × Option (List ℕ))
    → Below n (literal_result r)
    → Below n (literal_result (stored c r))
stored-Below n c (str, none) h = tt
stored-Below n c (str, some text) h = h

closed-Below :
    (cs : List ℕ)
    → Below (suc (length cs)) (literal_result ([], (if is_nil cs then none else some cs)))
closed-Below [] = tt
closed-Below (c ∷ cs) = omega arith

literal_loop-Below :
    (escaped : Bool) (text : List ℕ)
    → Below (length text) (literal_result (literal_loop escaped text))
unfolding literal_loop
literal_loop-Below escaped [] = tt
literal_loop-Below true (c ∷ cs) =
    Below-le _ _ (literal_result (literal_loop false cs)) (omega arith)
      (literal_loop-Below false cs)
literal_loop-Below false (c ∷ cs) =
    let more =
      Below-le (length cs) (suc (length cs)) (literal_result (literal_loop (c == b'\\') cs))
        (omega arith) (literal_loop-Below (c == b'\\') cs) in
    literal_if-Below _ (c == b'\\') _ _ more
      (literal_if-Below _ (c == b'"') _ _ (closed-Below cs) (stored-Below _ c _ more))

on_digit-Below :
    (n : ℕ) (b : Option Bool) (x y : Result ℕ) → Below n x → Below n y → Below n (on_digit b x y)
on_digit-Below n none x y h k = tt
on_digit-Below n (some true) x y h k = h
on_digit-Below n (some false) x y h k = k

digits_loop-Below : (text : List ℕ) (num : ℕ) → Below (suc (length text)) (digits_loop num text)
unfolding digits_loop
digits_loop-Below [] num = tt
digits_loop-Below (c ∷ cs) num =
    let more = digits_loop-Below cs ((num * 10 + c - b'0') % 2 ^ 64) in
    on_digit-Below _ (isdigit (char_of c)) _ _ (Below-le _ _ (digits_loop _ cs) (omega arith) more)
      (omega arith)

behind-le : (text : List ℕ) → length (behind text) ≤ length text
behind-le [] = omega arith
behind-le (c ∷ cs) = omega arith

module _ (malloc : Object → List ℕ → Bool) where
  pub allocate-Below :
      (o : Object) (text : List ℕ) → Below (suc (length text)) (allocate malloc o text)
  unfolding allocate
  allocate-Below o text = if-Below _ (malloc o text) _ _ (omega arith) tt

  literal_at-Below : (text : List ℕ) → Below (length text) (literal_at malloc text)
  unfolding literal_at
  literal_at-Below text =
      if-Below _ (front text == b'"') _ _
        (Below-then_do (length text) _ _ _ (advance-Below Status.json_syntax_err text) (λ _ text1 l.
          Below-then_do (suc (length text1)) _ _ _ (allocate-Below _ text1) (λ _ text2 l'.
            Below-le _ _ (literal_result (literal_loop false text2)) (omega arith)
              (literal_loop-Below false text2))))
        tt

  pub parse_string_literal-Below :
      (text : List ℕ) → Below (suc (length text)) (parse_string_literal malloc text)
  unfolding parse_string_literal
  parse_string_literal-Below text =
      Below-then_do (suc (length text)) _ _ _ (skip_whitespace-Below text)
        (λ _ text1 l. Below-le _ _ (literal_at malloc text1) (omega arith) (literal_at-Below text1))

  pub parse_string-Below : (text : List ℕ) → Below (suc (length text)) (parse_string malloc text)
  unfolding parse_string
  parse_string-Below text =
      if-Below _ (front text == b'"') _ _
        (Below-then_do (suc (length text)) _ _ _ (allocate-Below Object.value text) (λ _ text1 l.
          Below-then_do (suc (length text1)) _ _ _ (parse_string_literal-Below text1)
            (λ str text2 l'. omega arith)))
        tt

  number_at-Below :
      (b : Option Bool) (text : List ℕ) → Below (suc (length text)) (number_at malloc b text)
  number_at-Below none text = tt
  number_at-Below (some digit) text = if-Below _ (not digit && not (front text == b'-')) _ _ tt (
      if-Below _ (leb (length text) 1) _ _ tt (
        Below-then_do (suc (length text)) _ _ _ (allocate-Below Object.value text) (λ _ text1 l.
          let from : List ℕ = if front text == b'-' then behind text1 else text1 in
          let le : length from ≤ length text1 = ground (arith, behind-le text1) in
          Below-then_do (suc (length from)) _ _ _ (digits_loop-Below from 0)
            (λ num text2 l'. omega arith))))

  pub parse_number-Below : (text : List ℕ) → Below (suc (length text)) (parse_number malloc text)
  unfolding parse_number
  parse_number-Below text =
      Below-then_do (suc (length text)) _ _ _ (skip_whitespace-Below text) (λ _ text1 l.
        Below-le _ _ (number_at malloc (isdigit (char_of (front text1))) text1) (omega arith)
          (number_at-Below _ text1))

  word_at-Below :
      (word : List ℕ) (v : Value) (text : List ℕ)
      → Below (suc (length text)) (word_at malloc word v text)
  word_at-Below word v text =
      let shorter : length (drop (length word) text) < suc (length text) =
        omega (arith, length-drop (length word) text) in
      search (if-Below, err-Below, shorter)

  other_at-Below : (text : List ℕ) → Below (suc (length text)) (other_at malloc text)
  other_at-Below text = search (if-Below, err-Below, word_at-Below)

  pub parse_other-Below : (text : List ℕ) → Below (suc (length text)) (parse_other malloc text)
  unfolding parse_other
  parse_other-Below text =
      Below-then_do (suc (length text)) _ _ _ (skip_whitespace-Below text) (λ _ text1 l.
        Below-then_do (suc (length text1)) _ _ _ (allocate-Below Object.value text1)
          (λ _ text2 l'. Below-le _ _ (other_at malloc text2) (omega arith) (other_at-Below text2)))
