-- ===== src/Shell/Bounds.antt =====
-- The buffer is never overrun, and the loop ends.
use emos.Base.{
  ℕ, zero, suc, ◌-◌, ◌≤◌, ◌<◌, ◌≡◌, ◌≢◌, refl, true, List, [], ◌∷◌, some, ◌==◌, arith, length,
  Bool-cases, inl, inr,
}
use emos.Strto.{front, behind}
use emos.Strto.Rest.{behind-le, strtol-le}
use emos.Base.Int.{pos}
use emos.Shell.{
  Word, push, Kind, kind, Escape, escape, Loop, on_escape, on_kind, parse_loop, skip_blanks,
  Argument, argument, parse_word, shell_parse,
}

-- The bytes in the buffer.
abbrev bytes_of : Word → List ℕ
bytes_of (Word.done rest bytes) = bytes
bytes_of (Word.full bytes) = bytes
bytes_of Word.still = []

abbrev Fits : ℕ → Word → Type 0
Fits buflen w = length (bytes_of w) ≤ buflen

push-Fits : (buflen c : ℕ) (w : Word) → Fits (buflen - 1) w → Fits buflen (push buflen c w)
push-Fits zero c w h = omega arith
push-Fits (suc n) c (Word.done rest bytes) h = omega arith
push-Fits (suc n) c (Word.full bytes) h = omega arith
push-Fits (suc n) c Word.still h = omega arith

-- Whatever the rest of the loop does within its room.
abbrev AllFit : Loop → Type 0
AllFit more = (line : List ℕ) (buflen q : ℕ) → Fits buflen (more line buflen q)

on_escape-Fits :
    (e : Escape) (more : Loop) (cs : List ℕ) (b q : ℕ)
    → AllFit more
    → Fits b (on_escape e more cs b q)
unfolding on_escape
on_escape-Fits Escape.itself more cs b q h = push-Fits b _ _ (h _ _ _)
on_escape-Fits (Escape.control v) more cs b q h = push-Fits b _ _ (h _ _ _)
on_escape-Fits Escape.octal more cs b q h = push-Fits b _ _ (h _ _ _)
on_escape-Fits Escape.hexadecimal more cs b q h = push-Fits b _ _ (h _ _ _)
on_escape-Fits Escape.nothing more cs b q h = h _ _ _

on_kind-Fits :
    (k : Kind) (more : Loop) (c : ℕ) (cs : List ℕ) (b q : ℕ)
    → AllFit more
    → Fits b (on_kind k more c cs b q)
unfolding on_kind
on_kind-Fits Kind.quote more c cs b q h = h _ _ _
on_kind-Fits Kind.blank more c cs b q h = elim (Bool-cases (q == 0)) [
  | inl z ↦ rw (z, on_kind) (omega arith)
  | inr z ↦ rw (z, on_kind) (push-Fits b c _ (h _ _ _))
]
on_kind-Fits Kind.plain more c cs b q h = push-Fits b _ _ (h _ _ _)
on_kind-Fits Kind.backslash more c cs b q h = on_escape-Fits (escape (front cs)) more cs b q h

parse_loop-Fits : (n : ℕ) → AllFit (parse_loop n)
unfolding parse_loop
parse_loop-Fits zero line b q = omega arith
parse_loop-Fits (suc n) [] b q = omega arith
parse_loop-Fits (suc n) (c ∷ cs) b q =
    on_kind-Fits (kind c) (parse_loop n) c cs b q (parse_loop-Fits n)

-- The loop ends on every line that is shorter than the rounds.
abbrev Ends : ℕ → Loop → Type 0
Ends n more = (line : List ℕ) (buflen q : ℕ) → length line < n → more line buflen q ≢ Word.still

push-ends : (buflen c : ℕ) (w : Word) → w ≢ Word.still → push buflen c w ≢ Word.still
push-ends zero c w h = ground arith
push-ends (suc n) c (Word.done rest bytes) h = ground arith
push-ends (suc n) c (Word.full bytes) h = ground arith
push-ends (suc n) c Word.still h = absurd (h refl)

on_escape-Ends :
    (e : Escape) (n : ℕ) (more : Loop) (cs : List ℕ) (b q : ℕ)
    → Ends n more
    → length cs < n
    → on_escape e more cs b q ≢ Word.still
unfolding on_escape
on_escape-Ends Escape.itself n more cs b q h l =
    push-ends b _ _ (h _ _ _ (omega (arith, behind-le cs)))
on_escape-Ends (Escape.control v) n more cs b q h l = push-ends b _ _ (h _ _ _ l)
on_escape-Ends Escape.octal n more cs b q h l =
    push-ends b _ _ (h _ _ _ (omega (arith, strtol-le cs (pos 8))))
on_escape-Ends Escape.hexadecimal n more cs b q h l =
    push-ends b _ _ (h _ _ _ (omega (arith, behind-le cs, strtol-le (behind cs) (pos 16))))
on_escape-Ends Escape.nothing n more cs b q h l = h _ _ _ l

on_kind-Ends :
    (k : Kind) (n : ℕ) (more : Loop) (c : ℕ) (cs : List ℕ) (b q : ℕ)
    → Ends n more
    → length cs < n
    → on_kind k more c cs b q ≢ Word.still
unfolding on_kind
on_kind-Ends Kind.quote n more c cs b q h l = h _ _ _ l
on_kind-Ends Kind.blank n more c cs b q h l = elim (Bool-cases (q == 0)) [
  | inl z ↦ rw (z, on_kind) (ground arith)
  | inr z ↦ rw (z, on_kind) (push-ends b c _ (h _ _ _ l))
]
on_kind-Ends Kind.plain n more c cs b q h l = push-ends b _ _ (h _ _ _ l)
on_kind-Ends Kind.backslash n more c cs b q h l =
    on_escape-Ends (escape (front cs)) n more cs b q h l

parse_loop-Ends : (n : ℕ) → Ends n (parse_loop n)
unfolding parse_loop
parse_loop-Ends zero line b q l = absurd (omega arith)
parse_loop-Ends (suc n) [] b q l = ground arith
parse_loop-Ends (suc n) (c ∷ cs) b q l =
    on_kind-Ends (kind c) n (parse_loop n) c cs b q (parse_loop-Ends n) (omega arith)

skip_blanks-le : (cs : List ℕ) → length (skip_blanks cs) ≤ length cs
unfolding skip_blanks
skip_blanks-le [] = omega arith
skip_blanks-le (c ∷ cs) = ground (arith, skip_blanks-le cs)

-- An argument in a buffer of this size.
pub record IsArgument (buflen : ℕ) (a : Argument) : Type 0 where
  pub inside : length a.bytes ≤ buflen
  pub nul_inside : a.terminated ≡ true → length a.bytes < buflen

argument-IsArgument :
    (b : ℕ) (w : Word)
    → w ≢ Word.still
    → Fits b w
    → (a : Argument) × (argument b w ≡ some a) × IsArgument b a
argument-IsArgument b (Word.done rest bytes) n f =
    (_, refl, record { inside = f; nul_inside = λ t. ground arith })
argument-IsArgument b (Word.full bytes) n f =
    (_, refl, record { inside = f; nul_inside = λ t. ground arith })
argument-IsArgument b Word.still n f = absurd (n refl)

parse_word-IsArgument :
    (rounds b : ℕ) (line : List ℕ)
    → length line < rounds
    → (a : Argument) × (parse_word rounds b line ≡ some a) × IsArgument b a
unfolding parse_word
parse_word-IsArgument rounds b [] l =
    (_, refl, record { inside = omega arith; nul_inside = λ t. ground arith })
parse_word-IsArgument rounds b (c ∷ cs) l =
    argument-IsArgument b (parse_loop rounds (c ∷ cs) b 0) (parse_loop-Ends rounds (c ∷ cs) b 0 l)
      (parse_loop-Fits rounds (c ∷ cs) b 0)

-- With more rounds than the line has bytes, shell_parse returns, whatever the line, and it writes
-- only inside the buffer, the NUL included.
pub shell_parse-IsArgument :
    (rounds : ℕ) (line : List ℕ) (buflen : ℕ)
    → length line < rounds
    → (a : Argument) × (shell_parse rounds line buflen ≡ some a) × IsArgument buflen a
unfolding shell_parse
shell_parse-IsArgument rounds line b l =
    parse_word-IsArgument rounds b (skip_blanks line) (omega (arith, skip_blanks-le line))
