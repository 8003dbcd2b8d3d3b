-- ===== src/Json/Grammar.antt =====
-- The texts that `json_parse` reads as they are meant, and the values that they stand for.
use emos.Base.{
  ℕ, suc, ◌+◌, ◌%◌, ◌^◌, ◌≤◌, ◌<◌, ◌≡◌, ◌≢◌, Bool, true, false, List, [], ◌∷◌, arith, length,
}
use emos.Strto.Digits.{horner, AllBelow, sign_text}
use emos.Json.{negated}
use emos.Json.Tree.{Value, Members, Items}

-- A number is its sign and its decimal digits; arrays and objects are not empty.
mutual
  pub data Doc : Type 0 where
    null : Doc
    boolean : Bool → Doc
    string : List ℕ → Doc
    number : (negative : Bool) (digits : List ℕ) → Doc
    object : Fields → Doc
    array : Elements → Doc

  pub data Fields : Type 0 where
    last_field : (key : List ℕ) → Doc → Fields
    field : (key : List ℕ) → Doc → Fields → Fields

  pub data Elements : Type 0 where
    last_element : Doc → Elements
    element : Doc → Elements → Elements

-- The bytes of a string, its closing quote, and what follows it.
abbrev pub closed_string : (str rest : List ℕ) → List ℕ
closed_string [] rest = b'"' ∷ rest
closed_string (c ∷ cs) rest = c ∷ closed_string cs rest

abbrev pub digits_text : (digits rest : List ℕ) → List ℕ
digits_text [] rest = rest
digits_text (d ∷ ds) rest = (b'0' + d) ∷ digits_text ds rest

-- The text of a document before the text `rest`; a blank follows each comma.
unfoldable mutual
  pub text : Doc → (rest : List ℕ) → List ℕ
  text Doc.null rest = b'n' ∷ b'u' ∷ b'l' ∷ b'l' ∷ rest
  text (Doc.boolean true) rest = b't' ∷ b'r' ∷ b'u' ∷ b'e' ∷ rest
  text (Doc.boolean false) rest = b'f' ∷ b'a' ∷ b'l' ∷ b's' ∷ b'e' ∷ rest
  text (Doc.string str) rest = b'"' ∷ closed_string str rest
  text (Doc.number negative digits) rest = sign_text negative (digits_text digits rest)
  text (Doc.object fs) rest = b'{' ∷ fields_text fs rest
  text (Doc.array es) rest = b'[' ∷ elements_text es rest

  pub fields_text : Fields → (rest : List ℕ) → List ℕ
  fields_text (Fields.last_field key d) rest =
      b'"' ∷ closed_string key (b':' ∷ text d (b'}' ∷ rest))
  fields_text (Fields.field key d fs) rest =
      b'"' ∷ closed_string key (b':' ∷ text d (b',' ∷ b' ' ∷ fields_text fs rest))

  pub elements_text : Elements → (rest : List ℕ) → List ℕ
  elements_text (Elements.last_element d) rest = text d (b']' ∷ rest)
  elements_text (Elements.element d es) rest = text d (b',' ∷ b' ' ∷ elements_text es rest)

unfoldable mutual
  pub meaning : Doc → Value
  meaning Doc.null = Value.null
  meaning (Doc.boolean b) = Value.boolean b
  meaning (Doc.string str) = Value.string str
  meaning (Doc.number negative digits) = Value.number (negated negative (horner 10 0 digits))
  meaning (Doc.object fs) = Value.object (members fs)
  meaning (Doc.array es) = Value.array (items es 0)

  pub members : Fields → Members
  members (Fields.last_field key d) = Members.member key (meaning d) Members.no_member
  members (Fields.field key d fs) = Members.member key (meaning d) (members fs)

  pub items : Elements → (index : ℕ) → Items
  items (Elements.last_element d) index = Items.item index (meaning d) Items.no_item
  items (Elements.element d es) index =
      Items.item index (meaning d) (items es ((index + 1) % 2 ^ 32))

-- No quote and no backslash.
pub data IsPlain : List ℕ → Type 0 where
  nil : IsPlain []
  cons : (c : ℕ) (cs : List ℕ) → c ≢ b'"' → c ≢ b'\\' → IsPlain cs → IsPlain (c ∷ cs)

-- Strings and keys are plain, and numbers have digits and are below 2 ^ 63.
mutual
  pub data IsProper : Doc → Type 0 where
    null : IsProper Doc.null
    boolean : (b : Bool) → IsProper (Doc.boolean b)
    string : (str : List ℕ) → IsPlain str → IsProper (Doc.string str)
    number :
        (negative : Bool) (d : ℕ) (ds : List ℕ)
        → AllBelow 10 (d ∷ ds)
        → horner 10 0 (d ∷ ds) < 2 ^ 63
        → IsProper (Doc.number negative (d ∷ ds))
    object : (fs : Fields) → AreProper fs → IsProper (Doc.object fs)
    array : (es : Elements) → AllProper es → IsProper (Doc.array es)

  pub data AreProper : Fields → Type 0 where
    last_field :
        (key : List ℕ) (d : Doc) → IsPlain key → IsProper d → AreProper (Fields.last_field key d)
    field :
        (key : List ℕ) (d : Doc) (fs : Fields)
        → IsPlain key
        → IsProper d
        → AreProper fs
        → AreProper (Fields.field key d fs)

  pub data AllProper : Elements → Type 0 where
    last_element : (d : Doc) → IsProper d → AllProper (Elements.last_element d)
    element :
        (d : Doc) (es : Elements) → IsProper d → AllProper es → AllProper (Elements.element d es)

-- The rounds that a document needs.
unfoldable mutual
  pub weight : Doc → ℕ
  weight Doc.null = 1
  weight (Doc.boolean b) = 1
  weight (Doc.string str) = 1
  weight (Doc.number negative digits) = 1
  weight (Doc.object fs) = suc (fields_weight fs)
  weight (Doc.array es) = suc (elements_weight es)

  pub fields_weight : Fields → ℕ
  fields_weight (Fields.last_field key d) = suc (weight d)
  fields_weight (Fields.field key d fs) = suc (weight d + fields_weight fs)

  pub elements_weight : Elements → ℕ
  elements_weight (Elements.last_element d) = suc (weight d)
  elements_weight (Elements.element d es) = suc (weight d + elements_weight es)

pub length-closed_string :
    (str rest : List ℕ) → length (closed_string str rest) ≡ length str + length rest + 1
length-closed_string [] rest = omega arith
length-closed_string (c ∷ cs) rest = omega (arith, length-closed_string cs rest)

pub length-digits_text : (ds rest : List ℕ) → length (digits_text ds rest) ≡ length ds + length rest
length-digits_text [] rest = omega arith
length-digits_text (d ∷ ds) rest = omega (arith, length-digits_text ds rest)

length-sign_text : (negative : Bool) (cs : List ℕ) → length cs ≤ length (sign_text negative cs)
length-sign_text true cs = omega arith
length-sign_text false cs = omega arith

-- A text is long enough for its rounds.
mutual
  unfolding weight text

  pub weight-le :
      (d : Doc) (rest : List ℕ) → IsProper d → weight d + length rest ≤ length (text d rest)
  weight-le Doc.null rest p = omega arith
  weight-le (Doc.boolean true) rest p = omega arith
  weight-le (Doc.boolean false) rest p = omega arith
  weight-le (Doc.string str) rest p = omega (arith, length-closed_string str rest)
  weight-le (Doc.number negative (d ∷ ds)) rest p = omega (
    arith,
    length-digits_text (d ∷ ds) rest,
    length-sign_text negative (digits_text (d ∷ ds) rest),
  )
  weight-le (Doc.number negative []) rest p = elim p [ ]
  weight-le (Doc.object fs) rest (IsProper.object fs' p) = omega (arith, fields_weight-le fs rest p)
  weight-le (Doc.array es) rest (IsProper.array es' p) = omega (arith, elements_weight-le es rest p)

  pub fields_weight-le :
      (fs : Fields) (rest : List ℕ)
      → AreProper fs
      → fields_weight fs + length rest ≤ length (fields_text fs rest)
  fields_weight-le (Fields.last_field key d) rest (AreProper.last_field key' d' k p) =
      omega
        (arith, length-closed_string key (b':' ∷ text d (b'}' ∷ rest)), weight-le d (b'}' ∷ rest) p)
  fields_weight-le (Fields.field key d fs) rest (AreProper.field key' d' fs' k p ps) = omega (
    arith,
    length-closed_string key (b':' ∷ text d (b',' ∷ b' ' ∷ fields_text fs rest)),
    weight-le d (b',' ∷ b' ' ∷ fields_text fs rest) p,
    fields_weight-le fs rest ps,
  )

  pub elements_weight-le :
      (es : Elements) (rest : List ℕ)
      → AllProper es
      → elements_weight es + length rest ≤ length (elements_text es rest)
  elements_weight-le (Elements.last_element d) rest (AllProper.last_element d' p) =
      omega (arith, weight-le d (b']' ∷ rest) p)
  elements_weight-le (Elements.element d es) rest (AllProper.element d' es' p ps) =
      omega
        (arith, weight-le d (b',' ∷ b' ' ∷ elements_text es rest) p, elements_weight-le es rest ps)
