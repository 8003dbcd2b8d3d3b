-- ===== src/Shell.antt =====
-- boot/shell/parse.c: `shell_parse` cuts one argument off a line, with quotes and escapes. A line is
-- the list of its bytes up to the NUL, and the buffer the list of the bytes that were put into it.
pub mod Bounds
pub mod Quoted
pub mod Expand
pub mod Expanded
mod Tests
use emos.Base.{
  ℕ, zero, suc, ◌-◌, ◌%◌, Bool, true, false, List, [], ◌∷◌, Option, none, some, ◌==◌, ltb, leb,
  ◌&&◌, ◌||◌, if◌then◌else◌, length,
}
use emos.Base.Int.{ℤ, pos}
use emos.Strto.{Parsed, front, behind, strtol}

-- How the loop ends: at a blank or the end of the line, with what is left of the line and the bytes
-- that were put into the buffer; with a full buffer, where NULL is returned; or not yet, after the
-- rounds that it has.
pub data Word : Type 0 where
  done : (rest bytes : List ℕ) → Word
  full : (bytes : List ℕ) → Word
  still : Word

-- `PUSH_CHAR`, and what comes after it. A `buflen` below 0 is 0 here.
abbrev pub before : ℕ → Word → Word
before c (Word.done rest bytes) = Word.done rest (c ∷ bytes)
before c (Word.full bytes) = Word.full (c ∷ bytes)
before c Word.still = Word.still

abbrev pub push : (buflen c : ℕ) → Word → Word
push zero c w = Word.full []
push (suc n) c w = before c w

-- What a byte of the line is.
pub data Kind : Type 0 where
  quote : Kind
  backslash : Kind
  blank : Kind
  plain : Kind

unfoldable pub kind : ℕ → Kind
kind c =
    if c == b'"' || c == b'\''
    then Kind.quote
    else if c == b'\\'
    then Kind.backslash
    else if c == b' ' || c == b'\t'
    then Kind.blank
    else Kind.plain

-- What a byte behind a backslash is: itself, the name of a control character, the beginning of a
-- number, or nothing.
pub data Escape : Type 0 where
  itself : Escape
  control : ℕ → Escape
  octal : Escape
  hexadecimal : Escape
  nothing : Escape

unfoldable pub escape : ℕ → Escape
escape c =
    if c == b'\\' || c == b'\'' || c == b'"' || c == b'?' || c == b' ' || c == b'\t'
    then Escape.itself
    else if c == b'a'
    then Escape.control 7
    else if c == b'b'
    then Escape.control 8
    else if c == b'e'
    then Escape.control 27
    else if c == b'f'
    then Escape.control 12
    else if c == b'n'
    then Escape.control 10
    else if c == b'r'
    then Escape.control 13
    else if c == b't'
    then Escape.control 9
    else if c == b'v'
    then Escape.control 11
    else if leb b'0' c && leb c b'7'
    then Escape.octal
    else if c == b'x'
    then Escape.hexadecimal
    else Escape.nothing

-- `newptr` behind the call of `strtol`, which was `str` before it.
abbrev pub end_of : List ℕ → Parsed → List ℕ
end_of str p = elim p.rest [ none ↦ str | some rest ↦ rest ]

-- What the rest of the loop makes of a line, the room in the buffer, and `quote_char`, 0 for none.
abbrev pub Loop : Type 0
Loop = (line : List ℕ) (buflen quote_char : ℕ) → Word

-- The `switch` on the byte behind a backslash, where the line is `cs`. Behind a control character
-- the line stays at its name.
unfoldable pub on_escape : Escape → Loop → (cs : List ℕ) (buflen q : ℕ) → Word
on_escape Escape.itself more cs buflen q = push buflen (front cs) (more (behind cs) (buflen - 1) q)
on_escape (Escape.control v) more cs buflen q = push buflen v (more cs (buflen - 1) q)
on_escape Escape.octal more cs buflen q =
    let number = strtol cs (pos 8) in
    push buflen (number.value % 256) (more (end_of cs number) (buflen - 1) q)
on_escape Escape.hexadecimal more cs buflen q =
    let number = strtol (behind cs) (pos 16) in
    push buflen (number.value % 256) (more (end_of (behind cs) number) (buflen - 1) q)
on_escape Escape.nothing more cs buflen q = more cs buflen q

-- The `switch` on the byte `c` of the line, with `cs` behind it.
unfoldable pub on_kind : Kind → Loop → (c : ℕ) (cs : List ℕ) (buflen q : ℕ) → Word
unfolding on_escape escape
on_kind Kind.quote more c cs buflen q = more cs buflen (if q == c then 0 else c)
on_kind Kind.blank more c cs buflen q =
    if q == 0 then Word.done (c ∷ cs) [] else push buflen c (more cs (buflen - 1) q)
on_kind Kind.plain more c cs buflen q = push buflen c (more cs (buflen - 1) q)
on_kind Kind.backslash more c cs buflen q = on_escape (escape (front cs)) more cs buflen q

unfoldable pub parse_loop : (rounds : ℕ) → Loop
unfolding kind on_kind
parse_loop zero line buflen q = Word.still
parse_loop (suc n) [] buflen q = Word.done [] []
parse_loop (suc n) (c ∷ cs) buflen q = on_kind (kind c) (parse_loop n) c cs buflen q

unfoldable pub skip_blanks : List ℕ → List ℕ
skip_blanks [] = []
skip_blanks (c ∷ cs) = if c == b' ' || c == b'\t' then skip_blanks cs else c ∷ cs

-- What is returned (NULL is `none`), the bytes in the buffer, and whether a NUL was put behind them.
pub record Argument : Type 0 where
  pub line : Option (List ℕ)
  pub bytes : List ℕ
  pub terminated : Bool

abbrev pub argument : (buflen : ℕ) → Word → Option Argument
argument buflen (Word.done rest bytes) =
    some (record { line = some rest; bytes = bytes; terminated = ltb (length bytes) buflen })
argument buflen (Word.full bytes) = some (record { line = none; bytes = bytes; terminated = false })
argument buflen Word.still = none

-- The part behind the blanks: an empty line gives NULL.
unfoldable pub parse_word : (rounds buflen : ℕ) (line : List ℕ) → Option Argument
unfolding parse_loop
parse_word rounds buflen [] = some (record { line = none; bytes = []; terminated = false })
parse_word rounds buflen (c ∷ cs) = argument buflen (parse_loop rounds (c ∷ cs) buflen 0)

unfoldable pub shell_parse : (rounds : ℕ) (line : List ℕ) (buflen : ℕ) → Option Argument
unfolding skip_blanks parse_word
shell_parse rounds line buflen = parse_word rounds buflen (skip_blanks line)
