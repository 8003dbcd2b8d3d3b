-- ===== src/Json.antt =====
-- boot/json/json.c: the reader of JSON. `str` and `cursor` are the text from the cursor to `len`, so
-- `cursor >= len` is the empty text. The code compares the byte behind the text in places: here a NUL is
-- assumed there, which the caller in boot/core/main.c does not put. The loop over digits, which would go
-- on with whatever follows, is an access outside of the text there. A `char` is signed, and one that is
-- negative is outside of the table of `isspace` and `isdigit`.
pub mod Tree
pub mod Nested
pub mod Literal
pub mod Ends
pub mod Termination
pub mod Grammar
pub mod Scalars
pub mod Reads
pub mod Find
mod Tests
use emos.Base.{
  ℕ, zero, suc, ◌+◌, ◌-◌, ◌*◌, ◌%◌, ◌^◌, Bool, true, false, List, [], ◌∷◌, Option, none, some, ◌==◌,
  leb, not, ◌&&◌, ◌||◌, if◌then◌else◌, length, drop,
}
use emos.Status.{Status}
use emos.Strto.{front, behind}
use emos.Path.{is_nil}
use emos.Ctype.{isspace, isdigit}
use emos.Shell.Expand.{char_of}
use emos.Json.Tree.{Value}

-- How a function ends: with STATUS_SUCCESS, with a status, in a call of `panic`, with an access
-- outside of the table of `isspace`, or not within the rounds.
pub data Result {ℓ} (A : Type ℓ) : Type ℓ where
  ok : A → (text : List ℕ) → Result A
  err : Status → Result A
  panics : Result A
  outside : Result A
  still : Result A

-- What comes after a step that succeeds.
unfoldable pub then_do {ℓ κ} :
    {A : Type ℓ} {B : Type κ} → Result A → (A → List ℕ → Result B) → Result B
then_do (Result.ok a text) next = next a text
then_do (Result.err s) next = Result.err s
then_do Result.panics next = Result.panics
then_do Result.outside next = Result.outside
then_do Result.still next = Result.still

-- `has_error:` of `parse_object`.
unfoldable pub or_panic {ℓ} : {A : Type ℓ} → Result A → Result A
or_panic (Result.ok a text) = Result.ok a text
or_panic (Result.err s) = Result.panics
or_panic Result.panics = Result.panics
or_panic Result.outside = Result.outside
or_panic Result.still = Result.still

abbrev pub on_space {ℓ} : {A : Type ℓ} → Option Bool → (skipped stay : Result A) → Result A
on_space none skipped stay = Result.outside
on_space (some true) skipped stay = skipped
on_space (some false) skipped stay = stay

unfoldable pub skip_whitespace : List ℕ → Result (Unit {0})
unfolding isspace
skip_whitespace [] = Result.ok tt []
skip_whitespace (c ∷ cs) =
    on_space (isspace (char_of c)) (skip_whitespace cs) (Result.ok tt (c ∷ cs))

-- `if (++state->cursor >= state->len)` with the status `s`.
unfoldable pub advance : Status → List ℕ → Result (Unit {0})
advance s text = if is_nil (behind text) then Result.err s else Result.ok tt (behind text)

-- What is allocated.
pub data Object : Type 0 where
  value : Object
  element : Object
  bytes : (size : ℕ) → Object

-- `count_escaped_string_len`, behind a backslash or not.
unfoldable pub count_escaped_string_len : (escaped : Bool) → List ℕ → ℕ
count_escaped_string_len escaped [] = 0
count_escaped_string_len true (c ∷ cs) = count_escaped_string_len false cs
count_escaped_string_len false (c ∷ cs) =
    let rest = count_escaped_string_len (c == b'\\') cs in if c == b'"' then 0 else suc rest

-- A byte that is stored before those that follow.
abbrev pub stored : ℕ → List ℕ × Option (List ℕ) → List ℕ × Option (List ℕ)
stored c (str, rest) = (c ∷ str, rest)

-- The loop of `parse_string_literal`, behind a backslash or not: the bytes that it stores, and the text
-- behind the closing quote, or none where the loop fails with JSON_SYNTAX_ERR. The byte behind a
-- backslash is passed over.
unfoldable pub literal_loop : (escaped : Bool) → List ℕ → List ℕ × Option (List ℕ)
literal_loop escaped [] = ([], none)
literal_loop true (c ∷ cs) = literal_loop false cs
literal_loop false (c ∷ cs) =
    let rest = literal_loop (c == b'\\') cs in
    if c == b'\\'
    then rest
    else if c == b'"'
    then ([], (if is_nil cs then none else some cs))
    else stored c rest

abbrev pub literal_result : List ℕ × Option (List ℕ) → Result (List ℕ)
literal_result (str, none) = Result.err Status.json_syntax_err
literal_result (str, some text) = Result.ok str text

-- The loop of `parse_number` over the digits, which does not test for the end of the text.
abbrev pub on_digit : Option Bool → (again stop : Result ℕ) → Result ℕ
on_digit none again stop = Result.outside
on_digit (some true) again stop = again
on_digit (some false) again stop = stop

unfoldable pub digits_loop : (num : ℕ) → List ℕ → Result ℕ
unfolding isdigit
digits_loop num [] = Result.outside
digits_loop num (c ∷ cs) =
    on_digit (isdigit (char_of c)) (digits_loop ((num * 10 + c - b'0') % 2 ^ 64) cs)
      (Result.ok num (c ∷ cs))

-- `strncmp(word, state->str + state->cursor, ...) == 0`, where the text is longer than the word.
abbrev pub has_word : (word text : List ℕ) → Bool
has_word [] text = true
has_word (w ∷ ws) text = w == front text && has_word ws (behind text)

abbrev pub negated : (negate : Bool) → ℕ → ℕ
negated negate num = if negate then (2 ^ 64 - num) % 2 ^ 64 else num

-- Whether an allocation succeeds, where the cursor is at this text.
module _ (malloc : Object → List ℕ → Bool) where
  unfoldable pub allocate : Object → List ℕ → Result (Unit {0})
  allocate o text = if malloc o text then Result.ok tt text else Result.err Status.unknown_error

  unfoldable pub literal_at : List ℕ → Result (List ℕ)
  unfolding then_do advance allocate count_escaped_string_len literal_loop
  literal_at text =
      if front text == b'"'
      then then_do (advance Status.json_syntax_err text) (λ _ text1.
        then_do (allocate (Object.bytes (count_escaped_string_len false text1 + 1)) text1)
          (λ _ text2. literal_result (literal_loop false text2)))
      else Result.err Status.json_syntax_err

  unfoldable pub parse_string_literal : List ℕ → Result (List ℕ)
  unfolding then_do skip_whitespace literal_at
  parse_string_literal text = then_do (skip_whitespace text) (λ _ text1. literal_at text1)

  unfoldable pub parse_string : List ℕ → Result Value
  unfolding then_do allocate parse_string_literal
  parse_string text =
      if front text == b'"'
      then then_do (allocate Object.value text) (λ _ text1.
        then_do (parse_string_literal text1) (λ str text2. Result.ok (Value.string str) text2))
      else Result.err Status.json_syntax_err

  -- The tests of `parse_number`: a digit or a minus sign, and a byte behind it.
  abbrev pub number_at : Option Bool → List ℕ → Result Value
  number_at none text = Result.outside
  number_at (some digit) text =
      let negate = front text == b'-' in
      if not digit && not negate
      then Result.err Status.json_syntax_err
      else if leb (length text) 1
      then Result.err Status.json_syntax_err
      else then_do (allocate Object.value text) (λ _ text1.
        then_do (digits_loop 0 (if negate then behind text1 else text1))
          (λ num text2. Result.ok (Value.number (negated negate num)) text2))

  unfoldable pub parse_number : List ℕ → Result Value
  unfolding then_do skip_whitespace isdigit allocate digits_loop
  parse_number text =
      then_do (skip_whitespace text) (λ _ text1. number_at (isdigit (char_of (front text1))) text1)

  -- One of the words: `true`, `false` or `null`.
  abbrev pub word_at : (word : List ℕ) → Value → List ℕ → Result Value
  word_at word v text =
      if leb (length text) (length word)
      then Result.err Status.json_syntax_err
      else if has_word word text
      then Result.ok v (drop (length word) text)
      else Result.err Status.json_syntax_err

  abbrev pub true_word : List ℕ
  true_word = b't' ∷ b'r' ∷ b'u' ∷ b'e' ∷ []

  abbrev pub false_word : List ℕ
  false_word = b'f' ∷ b'a' ∷ b'l' ∷ b's' ∷ b'e' ∷ []

  abbrev pub null_word : List ℕ
  null_word = b'n' ∷ b'u' ∷ b'l' ∷ b'l' ∷ []

  abbrev pub other_at : List ℕ → Result Value
  other_at text =
      if front text == b't'
      then word_at true_word (Value.boolean true) text
      else if front text == b'f'
      then word_at false_word (Value.boolean false) text
      else if front text == b'n'
      then word_at null_word Value.null text
      else Result.err Status.json_syntax_err

  unfoldable pub parse_other : List ℕ → Result Value
  unfolding then_do skip_whitespace allocate
  parse_other text =
      then_do (skip_whitespace text)
        (λ _ text1. then_do (allocate Object.value text1) (λ _ text2. other_at text2))
