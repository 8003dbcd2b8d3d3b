-- ===== src/Json/Nested.antt =====
-- The part of boot/json/json.c that reads objects, arrays and any value.
use emos.Base.{ℕ, zero, suc, ◌+◌, ◌%◌, ◌^◌, Bool, List, ◌==◌, ◌||◌, ◌&&◌, leb, if◌then◌else◌}
use emos.Status.{Status}
use emos.Strto.{front}
use emos.Json.Tree.{Value, Members, Items}
use emos.Json.{
  Result, then_do, or_panic, skip_whitespace, advance, Object, allocate, parse_string_literal,
  parse_string, parse_number, parse_other,
}

-- What reads a value.
abbrev pub Reader : Type 0
Reader = List ℕ → Result Value

module _ (malloc : Object → List ℕ → Bool) where
  -- The `switch` of `parse_object` behind a value, and what follows it: behind a comma the cursor
  -- moves twice.
  abbrev pub member_end :
      (key : List ℕ) (v : Value) → (List ℕ → Result Members) → List ℕ → Result Members
  member_end key v more text =
      if front text == b'}'
      then then_do (advance Status.syntax_error text)
          (λ _ text1. Result.ok (Members.member key v Members.no_member) text1)
      else if front text == b','
      then then_do (advance Status.syntax_error text) (λ _ text1.
        then_do (advance Status.syntax_error text1) (λ _ text2.
          then_do (more text2) (λ next text3. Result.ok (Members.member key v next) text3)))
      else Result.err Status.syntax_error

  -- The part of the loop from the colon on.
  abbrev pub member_value :
      Reader → (key : List ℕ) → (List ℕ → Result Members) → List ℕ → Result Members
  member_value read key more text =
      if front text == b':'
      then then_do (advance Status.syntax_error text) (λ _ text1.
        then_do (skip_whitespace text1) (λ _ text2.
          then_do (read text2)
            (λ v text3. then_do (skip_whitespace text3) (λ _ text4. member_end key v more text4))))
      else Result.err Status.syntax_error

  -- The loop of `parse_object`.
  unfoldable pub members_loop : (rounds : ℕ) → Reader → List ℕ → Result Members
  unfolding then_do skip_whitespace allocate parse_string_literal advance
  members_loop zero read text = Result.still
  members_loop (suc n) read text = then_do (skip_whitespace text) (λ _ text1.
      then_do (allocate malloc Object.element text1) (λ _ text2.
        then_do (parse_string_literal malloc text2) (λ key text3.
          then_do (skip_whitespace text3)
            (λ _ text4. member_value read key (members_loop n read) text4))))

  -- `parse_object` behind the brace: from the first allocation on, a failure panics.
  abbrev pub object_at : (rounds : ℕ) → Reader → List ℕ → Result Value
  object_at rounds read text = or_panic (
      then_do (allocate malloc Object.value text) (λ _ text1.
        then_do (members_loop rounds read text1) (λ ms text2. Result.ok (Value.object ms) text2)))

  unfoldable pub parse_object : (rounds : ℕ) → Reader → List ℕ → Result Value
  unfolding then_do or_panic skip_whitespace allocate members_loop advance
  parse_object rounds read text = then_do (skip_whitespace text) (λ _ text1.
      if front text1 == b'{'
      then then_do (advance Status.json_syntax_err text1) (λ _ text2. object_at rounds read text2)
      else Result.err Status.json_syntax_err)

  -- The `switch` of `parse_array` behind a value, and what follows it.
  abbrev pub item_end : (index : ℕ) (v : Value) → (List ℕ → Result Items) → List ℕ → Result Items
  item_end index v more text =
      if front text == b']'
      then then_do (advance Status.json_syntax_err text)
          (λ _ text1. Result.ok (Items.item index v Items.no_item) text1)
      else if front text == b','
      then then_do (advance Status.json_syntax_err text) (λ _ text1.
        then_do (advance Status.json_syntax_err text1) (λ _ text2.
          then_do (more text2) (λ next text3. Result.ok (Items.item index v next) text3)))
      else Result.err Status.json_syntax_err

  -- The loop of `parse_array`.
  unfoldable pub items_loop : (rounds : ℕ) → Reader → (index : ℕ) → List ℕ → Result Items
  unfolding then_do skip_whitespace allocate advance
  items_loop zero read index text = Result.still
  items_loop (suc n) read index text = then_do (skip_whitespace text) (λ _ text1.
      then_do (allocate malloc Object.element text1) (λ _ text2. then_do (read text2) (λ v text3.
        then_do (skip_whitespace text3)
          (λ _ text4. item_end index v (items_loop n read ((index + 1) % 2 ^ 32)) text4))))

  abbrev pub array_at : (rounds : ℕ) → Reader → List ℕ → Result Value
  array_at rounds read text = then_do (allocate malloc Object.value text) (λ _ text1.
      then_do (items_loop rounds read 0 text1) (λ items text2. Result.ok (Value.array items) text2))

  unfoldable pub parse_array : (rounds : ℕ) → Reader → List ℕ → Result Value
  unfolding then_do skip_whitespace allocate items_loop advance
  parse_array rounds read text = then_do (skip_whitespace text) (λ _ text1.
      if front text1 == b'['
      then then_do (advance Status.json_syntax_err text1) (λ _ text2. array_at rounds read text2)
      else Result.err Status.json_syntax_err)

  -- The `switch` of `parse_value`.
  abbrev pub value_at : (rounds : ℕ) → Reader → List ℕ → Result Value
  value_at rounds read text =
      let c = front text in
      if c == b'{'
      then parse_object rounds read text
      else if c == b'['
      then parse_array rounds read text
      else if c == b'"'
      then parse_string malloc text
      else if (leb b'0' c && leb c b'9') || c == b'-'
      then parse_number malloc text
      else if c == b't' || c == b'f' || c == b'n'
      then parse_other malloc text
      else Result.err Status.json_syntax_err

  unfoldable pub parse_value : (rounds : ℕ) → Reader
  unfolding then_do skip_whitespace parse_object parse_array parse_string parse_number parse_other
  parse_value zero text = Result.still
  parse_value (suc n) text =
      then_do (skip_whitespace text) (λ _ text1. value_at n (parse_value n) text1)

  unfoldable pub json_parse : (rounds : ℕ) → Reader
  unfolding parse_value
  json_parse rounds text = parse_value rounds text
