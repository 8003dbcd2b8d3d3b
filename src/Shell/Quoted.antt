-- ===== src/Shell/Quoted.antt =====
-- Every argument can be written in a line so that shell_parse gives it back.
use emos.Base.{
  ℕ, zero, suc, ◌-◌, ◌≤◌, ◌<◌, ◌≡◌, ◌≢◌, refl, Bool, true, false, List, [], ◌∷◌, ◌++◌, some, ◌==◌,
  ltb, ◌||◌, if◌then◌else◌, arith, length, replicate, Bool-cases, inl, inr, ◌∙◌, ap,
}
use emos.Shell.{
  Word, push, kind, Escape, escape, on_escape, on_kind, parse_loop, skip_blanks, argument,
  parse_word, shell_parse,
}

-- A quote or a backslash.
abbrev pub is_special : ℕ → Bool
is_special c = c == b'"' || c == b'\'' || c == b'\\'

-- The bytes with a backslash before each quote and backslash, a closing quote, and the rest.
unfoldable pub escaped : (w rest : List ℕ) → List ℕ
escaped [] rest = b'"' ∷ rest
escaped (c ∷ cs) rest = if is_special c then b'\\' ∷ c ∷ escaped cs rest else c ∷ escaped cs rest

abbrev pub quoted : (w rest : List ℕ) → List ℕ
quoted w rest = b'"' ∷ escaped w rest

-- The line ends here, or goes on with a blank.
abbrev pub ends_word : List ℕ → Bool
ends_word [] = true
ends_word (c ∷ cs) = c == b' ' || c == b'\t'

special-escape : (c : ℕ) → is_special c ≡ true → escape c ≡ Escape.itself
unfolding escape
special-escape c h = ground arith

-- Inside quotes a byte that is not special stands for itself.
on_kind-plain :
    (more : List ℕ → ℕ → ℕ → Word) (c : ℕ) (cs : List ℕ) (b : ℕ)
    → is_special c ≡ false
    → on_kind (kind c) more c cs b b'"' ≡ push b c (more cs (b - 1) b'"')
unfolding on_kind kind
on_kind-plain more c cs b h = ground arith

-- A special byte behind a backslash stands for itself too.
on_kind-special :
    (more : List ℕ → ℕ → ℕ → Word) (c : ℕ) (cs : List ℕ) (b : ℕ)
    → is_special c ≡ true
    → on_kind (kind b'\\') more b'\\' (c ∷ cs) b b'"' ≡ push b c (more cs (b - 1) b'"')
unfolding on_kind kind on_escape
on_kind-special more c cs b h = rw (special-escape c h) refl

parse_loop-rest :
    (n : ℕ) (rest : List ℕ) (b : ℕ)
    → ends_word rest ≡ true
    → parse_loop (suc n) rest b 0 ≡ Word.done rest []
unfolding parse_loop kind on_kind
parse_loop-rest n [] b h = refl
parse_loop-rest n (c ∷ cs) b h = ground arith

push-done :
    (b c : ℕ) (rest bytes : List ℕ)
    → 0 < b
    → push b c (Word.done rest bytes) ≡ Word.done rest (c ∷ bytes)
push-done zero c rest bytes h = absurd (omega arith)
push-done (suc n) c rest bytes h = refl

parse_loop-escaped :
    (n : ℕ) (w rest : List ℕ) (b : ℕ)
    → ends_word rest ≡ true
    → length w ≤ b
    → length (escaped w rest) < n
    → parse_loop n (escaped w rest) b b'"' ≡ Word.done rest w
unfolding escaped parse_loop
parse_loop-escaped zero w rest b e l r = absurd (omega arith)
parse_loop-escaped (suc zero) [] rest b e l r = absurd (omega arith)
parse_loop-escaped (suc (suc n)) [] rest b e l r = parse_loop-rest n rest b e
parse_loop-escaped (suc n) (c ∷ cs) rest b e l r = elim (Bool-cases (is_special c)) [
  | inl s ↦
      let ih = parse_loop-escaped n cs rest (b - 1) e (omega arith) (ground (arith, s, r)) in
      rw s (
        on_kind-special (parse_loop n) c (escaped cs rest) b s
        ∙ ap (push b c) ih
        ∙ push-done b c rest cs (omega arith))
  | inr s ↦
      let ih = parse_loop-escaped n cs rest (b - 1) e (omega arith) (ground (arith, s, r)) in
      rw s (
        on_kind-plain (parse_loop n) c (escaped cs rest) b s
        ∙ ap (push b c) ih
        ∙ push-done b c rest cs (omega arith))
]

skip_blanks-replicate :
    (k c : ℕ) (cs : List ℕ)
    → c ≢ b' '
    → c ≢ b'\t'
    → skip_blanks (replicate k b' ' ++ (c ∷ cs)) ≡ c ∷ cs
unfolding skip_blanks
skip_blanks-replicate zero c cs m n = ground arith
skip_blanks-replicate (suc k) c cs m n = ground (arith, skip_blanks-replicate k c cs m n)

-- Every list of bytes that fits the buffer, written with spaces before it, in double quotes, with a
-- backslash before each quote and backslash, and followed by a blank or the end of the line, is the
-- argument that shell_parse puts into the buffer, with a NUL behind it where there is room, and the
-- line goes on behind the closing quote.
pub shell_parse-quoted :
    (rounds k : ℕ) (w rest : List ℕ) (buflen : ℕ)
    → ends_word rest ≡ true
    → length w ≤ buflen
    → length (quoted w rest) < rounds
    → shell_parse rounds (replicate k b' ' ++ quoted w rest) buflen
      ≡ some (record { line = some rest; bytes = w; terminated = ltb (length w) buflen })
unfolding shell_parse parse_word parse_loop kind on_kind
shell_parse-quoted zero k w rest b e l r = absurd (omega arith)
shell_parse-quoted (suc n) k w rest b e l r =
    rw (skip_blanks-replicate k b'"' (escaped w rest) (ground arith) (ground arith))
      (ap (argument b) (parse_loop-escaped n w rest b e l (omega arith)))
