-- ===== src/Json/Reads.antt =====
-- `json_parse` reads the text of a document as the value that it stands for.
use emos.Base.{
  ℕ, zero, suc, ◌+◌, ◌%◌, ◌^◌, ◌≤◌, ◌<◌, ◌≡◌, refl, Bool, true, false, List, [], ◌∷◌, leb-false,
  arith, length,
}
use emos.Status.{Status}
use emos.Strto.Digits.{sign_text}
use emos.Json.{Result, then_do, or_panic, skip_whitespace, Object, parse_number, parse_other}
use emos.Json.Nested.{
  members_loop, parse_object, items_loop, parse_array, value_at, parse_value, json_parse,
}
use emos.Json.Grammar.{
  Doc, Fields, Elements, digits_text, text, fields_text, elements_text, meaning, members, items,
  IsProper, AreProper, AllProper, weight, fields_weight, elements_weight, weight-le,
  fields_weight-le, elements_weight-le,
}
use emos.Json.Scalars.{
  IsEnd, skip_whitespace-Visible, advance-next, digit-Visible, allocate-given,
  parse_string_literal-closed, parse_string-closed, parse_number-digits,
}

-- A text starts with a byte that is no blank.
skip_whitespace-text :
    (d : Doc) (rest : List ℕ)
    → IsProper d
    → skip_whitespace (text d rest) ≡ Result.ok tt (text d rest)
unfolding text skip_whitespace
skip_whitespace-text Doc.null rest p = refl
skip_whitespace-text (Doc.boolean true) rest p = refl
skip_whitespace-text (Doc.boolean false) rest p = refl
skip_whitespace-text (Doc.string str) rest p = refl
skip_whitespace-text (Doc.number true ds) rest p = refl
skip_whitespace-text (Doc.number false []) rest p = elim p [ ]
skip_whitespace-text (Doc.number false (d ∷ ds)) rest (IsProper.number s d' ds' (l, a) b) =
    skip_whitespace-Visible (b'0' + d) (digits_text ds rest) (digit-Visible d l)
skip_whitespace-text (Doc.object fs) rest p = refl
skip_whitespace-text (Doc.array es) rest p = refl

weight-pos : (d : Doc) → 0 < weight d
unfolding weight
weight-pos Doc.null = omega arith
weight-pos (Doc.boolean b) = omega arith
weight-pos (Doc.string str) = omega arith
weight-pos (Doc.number s ds) = omega arith
weight-pos (Doc.object fs) = omega arith
weight-pos (Doc.array es) = omega arith

module _ (malloc : Object → List ℕ → Bool)
    (given : (o : Object) (cs : List ℕ) → malloc o cs ≡ true) where
  -- The switch sends a number to `parse_number`.
  value_at-number :
      (n : ℕ) (negative : Bool) (d : ℕ) (cs : List ℕ)
      → d < 10
      → value_at malloc n (parse_value malloc n) (sign_text negative ((b'0' + d) ∷ cs))
        ≡ parse_number malloc (sign_text negative ((b'0' + d) ∷ cs))
  value_at-number n true d cs l = refl
  value_at-number n false d cs l = ground arith

  mutual
    unfolding text meaning weight parse_value parse_object parse_array parse_other members_loop
        items_loop then_do or_panic

    parse_value-text :
        (d : Doc) (n : ℕ) (rest : List ℕ)
        → IsProper d
        → weight d ≤ n
        → IsEnd rest
        → parse_value malloc n (text d rest) ≡ Result.ok (meaning d) rest
    parse_value-text d zero rest p w e = absurd (omega (arith, weight-pos d))
    parse_value-text Doc.null (suc n) rest p w e =
        let long =
          leb-false (length (b'n' ∷ b'u' ∷ b'l' ∷ b'l' ∷ rest)) 4 (omega (arith, e.some_byte)) in
        rw (allocate-given malloc given, long) refl
    parse_value-text (Doc.boolean true) (suc n) rest p w e =
        let long =
          leb-false (length (b't' ∷ b'r' ∷ b'u' ∷ b'e' ∷ rest)) 4 (omega (arith, e.some_byte)) in
        rw (allocate-given malloc given, long) refl
    parse_value-text (Doc.boolean false) (suc n) rest p w e =
        let long =
          leb-false (length (b'f' ∷ b'a' ∷ b'l' ∷ b's' ∷ b'e' ∷ rest)) 5
            (omega (arith, e.some_byte)) in
        rw (allocate-given malloc given, long) refl
    parse_value-text (Doc.string str) (suc n) rest (IsProper.string str' p) w e =
        parse_string-closed malloc given str rest p e.some_byte
    parse_value-text (Doc.number s []) (suc n) rest p w e = elim p [ ]
    parse_value-text (Doc.number s (d ∷ ds)) (suc n) rest (IsProper.number s' d' ds' a b) w e =
        rw
          (
            skip_whitespace-text (Doc.number s (d ∷ ds)) rest (IsProper.number s d ds a b),
            value_at-number n s d (digits_text ds rest) a.0,
          )
          (parse_number-digits malloc given s d ds rest a b e)
    parse_value-text (Doc.object fs) (suc n) rest (IsProper.object fs' p) w e =
        let some_byte : 0 < length (fields_text fs rest) =
          omega (arith, fields_weight-le fs rest p, e.some_byte) in
        rw
          (
            advance-next Status.json_syntax_err b'{' (fields_text fs rest) some_byte,
            allocate-given malloc given,
            members_loop-text fs n n rest p (omega arith) (omega arith) e,
          )
          refl
    parse_value-text (Doc.array es) (suc n) rest (IsProper.array es' p) w e =
        let some_byte : 0 < length (elements_text es rest) =
          omega (arith, elements_weight-le es rest p, e.some_byte) in
        rw
          (
            advance-next Status.json_syntax_err b'[' (elements_text es rest) some_byte,
            allocate-given malloc given,
            items_loop-text es n n 0 rest p (omega arith) (omega arith) e,
          )
          refl

    items_loop-text :
        (es : Elements) (m n index : ℕ) (rest : List ℕ)
        → AllProper es
        → elements_weight es ≤ m
        → elements_weight es ≤ n
        → IsEnd rest
        → items_loop malloc m (parse_value malloc n) index (elements_text es rest)
          ≡ Result.ok (items es index) rest
    items_loop-text (Elements.last_element d) zero n index rest p w v e = absurd (omega arith)
    items_loop-text (Elements.element d es) zero n index rest p w v e = absurd (omega arith)
    items_loop-text (Elements.last_element d) (suc m) n index rest (AllProper.last_element d' p) w v
          e =
        let bracket : IsEnd (b']' ∷ rest) = record { some_byte = omega arith; no_digit = refl } in
        rw
          (
            skip_whitespace-text d (b']' ∷ rest) p,
            allocate-given malloc given,
            parse_value-text d n (b']' ∷ rest) p (omega arith) bracket,
            advance-next Status.json_syntax_err b']' rest e.some_byte,
          )
          refl
    items_loop-text (Elements.element d es) (suc m) n index rest (AllProper.element d' es' p ps) w v
          e =
        let next : List ℕ = elements_text es rest in
        let comma : IsEnd (b',' ∷ b' ' ∷ next) = record {
          some_byte = omega arith;
          no_digit = refl;
        } in
        rw
          (
            skip_whitespace-text d (b',' ∷ b' ' ∷ next) p,
            allocate-given malloc given,
            parse_value-text d n (b',' ∷ b' ' ∷ next) p (omega arith) comma,
            advance-next Status.json_syntax_err b' ' next
                (omega (arith, elements_weight-le es rest ps, e.some_byte)),
            items_loop-text es m n ((index + 1) % 2 ^ 32) rest ps (omega arith) (omega arith) e,
          )
          refl

    members_loop-text :
        (fs : Fields) (m n : ℕ) (rest : List ℕ)
        → AreProper fs
        → fields_weight fs ≤ m
        → fields_weight fs ≤ n
        → IsEnd rest
        → members_loop malloc m (parse_value malloc n) (fields_text fs rest)
          ≡ Result.ok (members fs) rest
    members_loop-text (Fields.last_field key d) zero n rest p w v e = absurd (omega arith)
    members_loop-text (Fields.field key d fs) zero n rest p w v e = absurd (omega arith)
    members_loop-text (Fields.last_field key d) (suc m) n rest (AreProper.last_field key' d' k p) w
          v e =
        let behind : List ℕ = text d (b'}' ∷ rest) in
        let brace : IsEnd (b'}' ∷ rest) = record { some_byte = omega arith; no_digit = refl } in
        let some_byte : 0 < length behind = omega (arith, weight-le d (b'}' ∷ rest) p) in
        rw
          (
            allocate-given malloc given,
            parse_string_literal-closed malloc given key (b':' ∷ behind) k (omega arith),
            advance-next Status.syntax_error b':' behind some_byte,
            skip_whitespace-text d (b'}' ∷ rest) p,
            parse_value-text d n (b'}' ∷ rest) p (omega arith) brace,
            advance-next Status.syntax_error b'}' rest e.some_byte,
          )
          refl
    members_loop-text (Fields.field key d fs) (suc m) n rest (AreProper.field key' d' fs' k p ps) w
          v e =
        let next : List ℕ = fields_text fs rest in
        let behind : List ℕ = text d (b',' ∷ b' ' ∷ next) in
        let comma : IsEnd (b',' ∷ b' ' ∷ next) = record {
          some_byte = omega arith;
          no_digit = refl;
        } in
        let some_byte : 0 < length behind = omega (arith, weight-le d (b',' ∷ b' ' ∷ next) p) in
        rw
          (
            allocate-given malloc given,
            parse_string_literal-closed malloc given key (b':' ∷ behind) k (omega arith),
            advance-next Status.syntax_error b':' behind some_byte,
            skip_whitespace-text d (b',' ∷ b' ' ∷ next) p,
            parse_value-text d n (b',' ∷ b' ' ∷ next) p (omega arith) comma,
            advance-next Status.syntax_error b' ' next
                (omega (arith, fields_weight-le fs rest ps, e.some_byte)),
            members_loop-text fs m n rest ps (omega arith) (omega arith) e,
          )
          refl

  -- Where every allocation succeeds, json_parse reads the text of a document whose strings have no
  -- quotes and no backslashes, whose numbers are below 2 ^ 63, and whose arrays and objects are not
  -- empty and have a blank behind each comma, as the value that it stands for, with more rounds than
  -- the text has bytes, where a byte that is no digit follows.
  pub json_parse-text :
      (rounds : ℕ) (d : Doc) (rest : List ℕ)
      → IsProper d
      → IsEnd rest
      → length (text d rest) < rounds
      → json_parse malloc rounds (text d rest) ≡ Result.ok (meaning d) rest
  unfolding json_parse
  json_parse-text rounds d rest p e l =
      parse_value-text d rounds rest p (omega (arith, weight-le d rest p)) e
