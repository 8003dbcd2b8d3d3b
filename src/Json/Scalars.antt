-- ===== src/Json/Scalars.antt =====
-- Strings, numbers and words in a text, as `json_parse` reads them.
use emos.Base.{
  ℕ, ◌+◌, ◌-◌, ◌*◌, ◌%◌, ◌^◌, ◌<◌, ◌≡◌, refl, Bool, true, false, List, [], ◌∷◌, some, ◌==◌, not,
  arith, length, leb-false,
}
use native.Mathlib.Nat.{mod-eq_of_lt}
use emos.Status.{Status}
use emos.Strto.{front}
use emos.Strto.Digits.{horner, horner-le, AllBelow, sign_text}
use emos.Base.Int.{pos}
use emos.Ctype.{isspace, isdigit}
use emos.Ctype.Classes.{classify-ascii, is_digit, is_space}
use emos.Shell.Expand.{char_of}
use emos.Json.Tree.{Value}
use emos.Json.{
  Result, then_do, skip_whitespace, advance, Object, literal_loop, digits_loop, negated, allocate,
  literal_at, parse_string_literal, parse_string, number_at, parse_number,
}
use emos.Json.Grammar.{
  closed_string, digits_text, IsPlain, length-closed_string, length-digits_text,
}

-- What follows a value: a byte that is no digit.
pub record IsEnd (rest : List ℕ) : Type 0 where
  pub some_byte : 0 < length rest
  pub no_digit : isdigit (char_of (front rest)) ≡ some false

-- A byte that starts a value.
abbrev pub Visible : ℕ → Type 0
Visible c = isspace (char_of c) ≡ some false

pub skip_whitespace-Visible :
    (c : ℕ) (cs : List ℕ) → Visible c → skip_whitespace (c ∷ cs) ≡ Result.ok tt (c ∷ cs)
unfolding skip_whitespace
skip_whitespace-Visible c cs v = rw v refl

pub advance-next :
    (s : Status) (c : ℕ) (cs : List ℕ) → 0 < length cs → advance s (c ∷ cs) ≡ Result.ok tt cs
unfolding advance
advance-next s c [] l = absurd (omega arith)
advance-next s c (d ∷ ds) l = refl

literal_loop-closed :
    (str rest : List ℕ)
    → IsPlain str
    → 0 < length rest
    → literal_loop false (closed_string str rest) ≡ (str, some rest)
unfolding literal_loop
literal_loop-closed [] [] p l = absurd (omega arith)
literal_loop-closed [] (r ∷ rs) p l = refl
literal_loop-closed (c ∷ cs) rest (IsPlain.cons c' cs' q b p) l =
    let no_escape : (c == b'\\') ≡ false = ground arith in
    let no_quote : (c == b'"') ≡ false = ground arith in
    rw (no_escape, no_quote, literal_loop-closed cs rest p l) refl

char_of-ascii : (c : ℕ) → c < 128 → char_of c ≡ pos c
char_of-ascii c l = ground arith

digit-isdigit : (d : ℕ) → d < 10 → isdigit (char_of (b'0' + d)) ≡ some true
digit-isdigit d l =
    let here : is_digit (b'0' + d) ≡ true = ground arith in
    rw (char_of-ascii (b'0' + d) (omega arith), (classify-ascii (b'0' + d) (omega arith)).0, here)
      refl

pub digit-Visible : (d : ℕ) → d < 10 → Visible (b'0' + d)
digit-Visible d l =
    let here : is_space (b'0' + d) ≡ false = ground arith in
    rw (char_of-ascii (b'0' + d) (omega arith), (classify-ascii (b'0' + d) (omega arith)).7, here)
      refl

digits_loop-end : (num : ℕ) (rest : List ℕ) → IsEnd rest → digits_loop num rest ≡ Result.ok num rest
unfolding digits_loop
digits_loop-end num [] e = absurd (omega (arith, e.some_byte))
digits_loop-end num (r ∷ rs) e = rw e.no_digit refl

digits_loop-horner :
    (ds : List ℕ) (acc : ℕ) (rest : List ℕ)
    → AllBelow 10 ds
    → horner 10 acc ds < 2 ^ 63
    → IsEnd rest
    → digits_loop acc (digits_text ds rest) ≡ Result.ok (horner 10 acc ds) rest
unfolding digits_loop
digits_loop-horner [] acc rest a b e = digits_loop-end acc rest e
digits_loop-horner (d ∷ ds) acc rest (l, a) b e =
    let top = horner-le 10 (acc * 10 + d) ds (omega arith) in
    let plain : acc * 10 + (b'0' + d) - b'0' ≡ acc * 10 + d = omega arith in
    let word : (acc * 10 + d) % 2 ^ 64 ≡ acc * 10 + d = mod-eq_of_lt (omega (arith, top)) in
    rw (digit-isdigit d l, plain, word) (digits_loop-horner ds (acc * 10 + d) rest a b e)

module _ (malloc : Object → List ℕ → Bool)
    (given : (o : Object) (cs : List ℕ) → malloc o cs ≡ true) where
  pub allocate-given : (o : Object) (cs : List ℕ) → allocate malloc o cs ≡ Result.ok tt cs
  unfolding allocate
  allocate-given o cs = rw (given o cs) refl

  -- A plain string between quotes.
  pub parse_string_literal-closed :
      (str rest : List ℕ)
      → IsPlain str
      → 0 < length rest
      → parse_string_literal malloc (b'"' ∷ closed_string str rest) ≡ Result.ok str rest
  unfolding parse_string_literal literal_at then_do
  parse_string_literal-closed str rest p l =
      let some_byte : 0 < length (closed_string str rest) =
        omega (arith, length-closed_string str rest) in
      rw
        (
          advance-next Status.json_syntax_err b'"' (closed_string str rest) some_byte,
          allocate-given,
        )
        (rw (literal_loop-closed str rest p l) refl)

  pub parse_string-closed :
      (str rest : List ℕ)
      → IsPlain str
      → 0 < length rest
      → parse_string malloc (b'"' ∷ closed_string str rest) ≡ Result.ok (Value.string str) rest
  unfolding parse_string then_do
  parse_string-closed str rest p l =
      rw (allocate-given, parse_string_literal-closed str rest p l) refl

  -- A number behind its sign.
  number_at-digits :
      (digit negative : Bool) (d : ℕ) (ds rest : List ℕ)
      → AllBelow 10 (d ∷ ds)
      → horner 10 0 (d ∷ ds) < 2 ^ 63
      → IsEnd rest
      → digit ≡ not negative
      → number_at malloc (some digit) (sign_text negative (digits_text (d ∷ ds) rest))
        ≡ Result.ok (Value.number (negated negative (horner 10 0 (d ∷ ds)))) rest
  unfolding then_do
  number_at-digits digit true d ds rest a b e h =
      let long =
        leb-false (length (sign_text true (digits_text (d ∷ ds) rest))) 1
          (omega (arith, length-digits_text ds rest)) in
      rw (h, long, allocate-given, digits_loop-horner (d ∷ ds) 0 rest a b e) refl
  number_at-digits digit false d ds rest a b e h =
      let long =
        leb-false (length (digits_text (d ∷ ds) rest)) 1
          (omega (arith, length-digits_text ds rest, e.some_byte)) in
      let no_sign : (b'0' + d == b'-') ≡ false = ground arith in
      rw (h, no_sign, long, allocate-given, digits_loop-horner (d ∷ ds) 0 rest a b e) refl

  pub parse_number-digits :
      (negative : Bool) (d : ℕ) (ds rest : List ℕ)
      → AllBelow 10 (d ∷ ds)
      → horner 10 0 (d ∷ ds) < 2 ^ 63
      → IsEnd rest
      → parse_number malloc (sign_text negative (digits_text (d ∷ ds) rest))
        ≡ Result.ok (Value.number (negated negative (horner 10 0 (d ∷ ds)))) rest
  unfolding parse_number then_do
  parse_number-digits true d ds rest a b e = number_at-digits false true d ds rest a b e refl
  parse_number-digits false d ds rest (l, a) b e =
      rw
        (
          skip_whitespace-Visible (b'0' + d) (digits_text ds rest) (digit-Visible d l),
          digit-isdigit d l,
        )
        (number_at-digits true false d ds rest (l, a) b e refl)
