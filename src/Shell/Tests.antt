-- ===== src/Shell/Tests.antt =====
-- Runs of shell_parse, and the theorems at small lines.
use emos.Base.{ℕ, ◌≡◌, refl, true, List, [], ◌∷◌, ◌++◌, some, arith, replicate}
use emos.Strto.{strtol}
use emos.Shell.{Argument, shell_parse}
use emos.Shell.Expand.{ShellVar, Expansion, get_variable, shell_expand}
use emos.Shell.Expanded.{IsAscii, Returned, shell_expand-Returned}
use emos.Shell.Bounds.{IsArgument, shell_parse-IsArgument}
use emos.Shell.Quoted.{quoted, escaped, shell_parse-quoted}

-- ` ab cd`
two_words :
    shell_parse 9 (b' ' ∷ b'a' ∷ b'b' ∷ b' ' ∷ b'c' ∷ []) 4
    ≡ some (record { line = some (b' ' ∷ b'c' ∷ []); bytes = b'a' ∷ b'b' ∷ []; terminated = true })
unfolding shell_parse
two_words = refl

-- Behind `\n` the letter is read a second time.
control_twice :
    shell_parse 9 (b'\\' ∷ b'n' ∷ []) 4
    ≡ some (record { line = some []; bytes = b'\n' ∷ b'n' ∷ []; terminated = true })
unfolding shell_parse
control_twice = refl

-- `"a'b c"`: the single quote takes the place of the double one, which then does not close.
mixed_quotes :
    shell_parse 9 (b'"' ∷ b'a' ∷ b'\'' ∷ b'b' ∷ b' ' ∷ b'"' ∷ b' ' ∷ []) 9
    ≡ some (record { line = some []; bytes = b'a' ∷ b'b' ∷ b' ' ∷ b' ' ∷ []; terminated = true })
unfolding shell_parse
mixed_quotes = refl

octal_byte :
    shell_parse 9 (b'\\' ∷ b'1' ∷ b'0' ∷ b'1' ∷ []) 4
    ≡ some (record { line = some []; bytes = b'A' ∷ []; terminated = true })
unfolding shell_parse strtol
octal_byte = refl

shell_parse-IsArgument_example :
    (a : Argument) × (shell_parse 4 (b'a' ∷ b'\\' ∷ b'x' ∷ []) 1 ≡ some a) × IsArgument 1 a
shell_parse-IsArgument_example = shell_parse-IsArgument 4 (b'a' ∷ b'\\' ∷ b'x' ∷ []) 1 (omega arith)

abbrev word : List ℕ
word = b'"' ∷ b' ' ∷ []

shell_parse-quoted_example :
    shell_parse 9 (replicate 2 b' ' ++ quoted word (b' ' ∷ [])) 8
    ≡ some (record { line = some (b' ' ∷ []); bytes = word; terminated = true })
unfolding escaped
shell_parse-quoted_example =
    shell_parse-quoted 9 2 word (b' ' ∷ []) 8 refl (omega arith) (omega arith)

-- `A` is `xy`.
abbrev vars : List ShellVar
vars = record { key_len = 1; str = b'A' ∷ 0 ∷ b'x' ∷ b'y' ∷ 0 ∷ [] } ∷ []

expanded :
    shell_expand 9 vars (b'1' ∷ b'$' ∷ b'A' ∷ b' ' ∷ []) 8
    ≡ Expansion.done (b'1' ∷ b'x' ∷ b'y' ∷ b' ' ∷ [])
unfolding shell_expand
expanded = refl

-- A longer key that begins with `A` finds it too.
longer_key : get_variable vars (b'A' ∷ b'B' ∷ []) ≡ some (b'x' ∷ b'y' ∷ [])
unfolding get_variable
longer_key = refl

abbrev dollar : IsAscii (b'$' ∷ b'A' ∷ [])
dollar =
    IsAscii.cons b'$' (b'A' ∷ []) (omega arith) (IsAscii.cons b'A' [] (omega arith) IsAscii.nil)

shell_expand-Returned_example : Returned 1 (shell_expand 3 vars (b'$' ∷ b'A' ∷ []) 1)
shell_expand-Returned_example =
    shell_expand-Returned 3 vars (b'$' ∷ b'A' ∷ []) 1 dollar (omega arith)
