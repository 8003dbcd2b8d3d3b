-- ===== src/Shell/Expanded.antt =====
-- `shell_expand` stays inside its buffer and ends.
use emos.Base.{
  ℕ, zero, suc, ◌-◌, ◌≤◌, ◌<◌, ◌≡◌, refl, Bool, true, false, List, [], ◌∷◌, Option, some, ◌==◌, ltb,
  arith, length, if◌then◌else◌, ◌||◌, ◌&&◌,
}
use emos.Strto.{front, behind}
use emos.Ctype.{isalnum}
use emos.Ctype.Classes.{classify-ascii, is_alnum}
use emos.Shell.Expand.{
  ShellVar, Expansion, push, push_all, char_of, name_step, read_name, Loop, on_name, expand_loop,
  shell_expand,
}

-- Every byte is below 128.
pub data IsAscii : List ℕ → Type 0 where
  nil : IsAscii []
  cons : (c : ℕ) (cs : List ℕ) → c < 128 → IsAscii cs → IsAscii (c ∷ cs)

-- An expansion that returned, inside a buffer of this size; a failure has filled it.
pub data Returned : (buflen : ℕ) → Expansion → Type 0 where
  success :
      (buflen : ℕ) (bytes : List ℕ) → length bytes ≤ buflen → Returned buflen (Expansion.done bytes)
  failure :
      (buflen : ℕ) (bytes : List ℕ)
      → length bytes ≡ buflen
      → Returned buflen (Expansion.too_small bytes)

push-Returned :
    (buflen c : ℕ) (e : Expansion) → Returned (buflen - 1) e → Returned buflen (push buflen c e)
push-Returned zero c e h = Returned.failure 0 [] refl
push-Returned (suc n) c (Expansion.done bytes) (Returned.success b' bytes' l) =
    Returned.success (suc n) (c ∷ bytes) (omega arith)
push-Returned (suc n) c (Expansion.too_small bytes) (Returned.failure b' bytes' l) =
    Returned.failure (suc n) (c ∷ bytes) (omega arith)
push-Returned (suc n) c Expansion.outside h = elim h [ ]
push-Returned (suc n) c Expansion.still h = elim h [ ]

push_all-Returned :
    (value : List ℕ) (buflen : ℕ) (after : ℕ → Expansion)
    → ((b : ℕ) → Returned b (after b))
    → Returned buflen (push_all value buflen after)
push_all-Returned [] buflen after h = h buflen
push_all-Returned (c ∷ cs) buflen after h =
    push-Returned buflen c _ (push_all-Returned cs (buflen - 1) after h)

-- A name that was read, and a line behind it that is no longer.
abbrev IsRead : (line : List ℕ) → Option (List ℕ × List ℕ) → Type 0
IsRead line r =
    (name : List ℕ) × (rest : List ℕ) × (r ≡ some (name, rest))
    × IsAscii rest
    × (length rest ≤ length line)

name_step-IsRead :
    (b : Bool) (room c : ℕ) (cs : List ℕ) (more : Option (List ℕ × List ℕ))
    → c < 128
    → IsAscii cs
    → IsRead cs more
    → IsRead (c ∷ cs) (name_step (some b) room c cs more)
name_step-IsRead false room c cs more l h k = ([], c ∷ cs, refl, IsAscii.cons c cs l h, omega arith)
name_step-IsRead true zero c cs more l h k = ([], c ∷ cs, refl, IsAscii.cons c cs l h, omega arith)
name_step-IsRead true (suc n) c cs more l h (name, rest, e, a, le) =
    (c ∷ name, rest, rw e refl, a, omega arith)

isalnum-char_of : (c : ℕ) → c < 128 → isalnum (char_of c) ≡ some (is_alnum c)
isalnum-char_of c l = let below : ltb c 128 ≡ true = ground arith in rw below (classify-ascii c l).4

read_name-IsRead : (room : ℕ) (line : List ℕ) → IsAscii line → IsRead line (read_name room line)
unfolding read_name
read_name-IsRead room [] h = ([], [], refl, IsAscii.nil, omega arith)
read_name-IsRead room (c ∷ cs) (IsAscii.cons c' cs' l h) =
    rw (isalnum-char_of c l) (
      name_step-IsRead (is_alnum c || c == b'_') room c cs _ l h (read_name-IsRead (room - 1) cs h))

-- Whatever the rest of the loop makes of a shorter line.
on_name-Returned :
    (vars : List ShellVar) (more : Loop) (line : List ℕ) (r : Option (List ℕ × List ℕ)) (buflen : ℕ)
    → IsRead line r
    → ((rest : List ℕ)
        → IsAscii rest
        → length rest ≤ length line
        → (b : ℕ) → Returned b (more rest b))
    → Returned buflen (on_name vars more r buflen)
unfolding on_name
on_name-Returned vars more line r buflen (name, rest, e, a, le) h =
    rw e (push_all-Returned _ buflen (more rest) (h rest a le))

if-Returned :
    (buflen : ℕ) (b : Bool) (x y : Expansion)
    → Returned buflen x
    → Returned buflen y
    → Returned buflen (if b then x else y)
if-Returned buflen true x y h k = h
if-Returned buflen false x y h k = k

behind-IsAscii : (cs : List ℕ) → IsAscii cs → IsAscii (behind cs) × (length (behind cs) ≤ length cs)
behind-IsAscii [] h = (h, omega arith)
behind-IsAscii (c ∷ cs) (IsAscii.cons c' cs' l h) = (h, omega arith)

expand_loop-Returned :
    (rounds : ℕ) (vars : List ShellVar) (line : List ℕ) (buflen : ℕ)
    → IsAscii line
    → length line < rounds
    → Returned buflen (expand_loop rounds vars line buflen)
unfolding expand_loop
expand_loop-Returned zero vars line buflen h l = absurd (omega arith)
expand_loop-Returned (suc n) vars [] buflen h l = Returned.success buflen [] (omega arith)
expand_loop-Returned (suc n) vars (c ∷ cs) buflen (IsAscii.cons c' cs' k h) l =
    let (ascii, shorter) = behind-IsAscii cs h in
    if-Returned buflen (c == b'\\' && front cs == b'$') _ _
      (push-Returned buflen b'$' _ (expand_loop-Returned n vars (behind cs) _ ascii (omega arith)))
      (if-Returned buflen (c == b'$') _ _
        (on_name-Returned vars (expand_loop n vars) cs _ buflen (read_name-IsRead 63 cs h)
          (λ rest a le b. expand_loop-Returned n vars rest b a (omega arith)))
        (push-Returned buflen c _ (expand_loop-Returned n vars cs _ h (omega arith))))

-- On a line of bytes below 128, with more rounds than it has bytes, shell_expand returns, whatever
-- the variables: it succeeds with bytes that fit the buffer, or it fails and the buffer is full.
pub shell_expand-Returned :
    (rounds : ℕ) (vars : List ShellVar) (line : List ℕ) (buflen : ℕ)
    → IsAscii line
    → length line < rounds
    → Returned buflen (shell_expand rounds vars line buflen)
unfolding shell_expand
shell_expand-Returned rounds vars line buflen h l = expand_loop-Returned rounds vars line buflen h l
