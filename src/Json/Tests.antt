-- ===== src/Json/Tests.antt =====
-- Runs of the reader.
use emos.Base.{ℕ, ◌≡◌, ◌≤◌, length, refl, arith, some, Bool, true, false, List, [], ◌∷◌}
use emos.Status.{Status}
use emos.Json.{Result, Object, literal_loop, count_escaped_string_len}
use emos.Json.Tree.{Value, Members, Items}
use emos.Json.Nested.{json_parse}
use emos.Json.Grammar.{
  Doc, Fields, Elements, IsPlain, IsProper, AreProper, AllProper, text, meaning,
}
use emos.Json.Scalars.{IsEnd}
use emos.Json.Reads.{json_parse-text}
use emos.Ctype.{isdigit}
use emos.Json.Find.{object_find_value, array_find_value, array_get_element_count}
use emos.Json.Literal.{length-literal_loop}

abbrev malloc : Object → List ℕ → Bool
malloc o text = true

-- `[7, -2] `
two_items :
    json_parse malloc 9 (b'[' ∷ b'7' ∷ b',' ∷ b' ' ∷ b'-' ∷ b'2' ∷ b']' ∷ b' ' ∷ [])
    ≡ Result.ok
        (Value.array (
          Items.item 0
            (Value.number 7)
            (Items.item 1 (Value.number (0xffff_ffff_ffff_fffe)) Items.no_item)))
        (b' ' ∷ [])
unfolding json_parse
two_items = refl

-- In `[7,2] ` the `2` is passed over with the comma.
no_blank :
    json_parse malloc 9 (b'[' ∷ b'7' ∷ b',' ∷ b'2' ∷ b']' ∷ b' ' ∷ [])
    ≡ Result.err Status.json_syntax_err
unfolding json_parse
no_blank = refl

-- `[7]` at the end of the text.
at_end : json_parse malloc 9 (b'[' ∷ b'7' ∷ b']' ∷ []) ≡ Result.err Status.json_syntax_err
unfolding json_parse
at_end = refl

-- `{} `
empty_object : json_parse malloc 9 (b'{' ∷ b'}' ∷ b' ' ∷ []) ≡ Result.panics
unfolding json_parse
empty_object = refl

-- `"a\nb" `: the `n` is passed over.
escape :
    json_parse malloc 9 (b'"' ∷ b'a' ∷ b'\\' ∷ b'n' ∷ b'b' ∷ b'"' ∷ b' ' ∷ [])
    ≡ Result.ok (Value.string (b'a' ∷ b'b' ∷ [])) (b' ' ∷ [])
unfolding json_parse
escape = refl

-- `{"k":[1, -2]}`
abbrev sample : Doc
sample = Doc.object (
    Fields.last_field (b'k' ∷ []) (
      Doc.array (
        Elements.element (Doc.number false (1 ∷ []))
          (Elements.last_element (Doc.number true (2 ∷ []))))))

sample-IsProper : IsProper sample
sample-IsProper = IsProper.object _ (
    AreProper.last_field _ _ (IsPlain.cons b'k' [] (ground arith) (ground arith) IsPlain.nil) (
      IsProper.array _ (
        AllProper.element _ _ (IsProper.number false 1 [] (omega arith, tt) (omega arith))
          (AllProper.last_element _ (IsProper.number true 2 [] (omega arith, tt) (omega arith))))))

newline-IsEnd : IsEnd (b'\n' ∷ [])
unfolding isdigit
newline-IsEnd = record { some_byte = omega arith; no_digit = refl }

json_parse-text_example :
    json_parse malloc 16 (text sample (b'\n' ∷ [])) ≡ Result.ok (meaning sample) (b'\n' ∷ [])
unfolding text
json_parse-text_example =
    json_parse-text malloc (λ o cs. refl) 16 sample (b'\n' ∷ []) sample-IsProper newline-IsEnd
      (omega arith)

-- `12` at the end of the text: the loop reads behind it.
digits_at_end : json_parse malloc 3 (b'1' ∷ b'2' ∷ []) ≡ Result.outside
unfolding json_parse
digits_at_end = refl

-- A string that is not closed is stored up to the end of the text.
length-literal_loop_example :
    length ((literal_loop false (b'a' ∷ b'\\' ∷ b'n' ∷ b'b' ∷ [])).0)
    ≤ count_escaped_string_len false (b'a' ∷ b'\\' ∷ b'n' ∷ b'b' ∷ [])
length-literal_loop_example = length-literal_loop false (b'a' ∷ b'\\' ∷ b'n' ∷ b'b' ∷ [])

found :
    (array_find_value (Items.item 0 Value.null (Items.item 1 (Value.number 5) Items.no_item)) 1
      ≡ some (Value.number 5))
    × (array_get_element_count (Items.item 0 Value.null Items.no_item) ≡ 1)
    × (object_find_value (Members.member (b'k' ∷ []) Value.null Members.no_member) (b'k' ∷ [])
        ≡ some Value.null)
unfolding array_find_value array_get_element_count object_find_value
found = (refl, refl, refl)
