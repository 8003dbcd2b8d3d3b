-- ===== src/Shell/Expand.antt =====
-- boot/shell/parse.c and boot/shell/variable.c: `shell_expand` puts the values of variables into a
-- line, and `shell_get_variable` finds them. A `char` is signed.
use emos.Base.{
  ℕ, zero, suc, ◌+◌, ◌-◌, Bool, true, false, List, [], ◌∷◌, Option, none, some, ◌==◌, ltb, ◌&&◌,
  ◌||◌, if◌then◌else◌, length, drop, not,
}
use emos.Base.Int.{ℤ, pos, negsuc}
use emos.Strto.{front, behind}
use emos.Ctype.{isalnum}

-- A variable: the length of its key, and the bytes from `str` to the end of the object.
pub record ShellVar : Type 0 where
  pub key_len : ℕ
  pub str : List ℕ

-- The text of some bytes: those before the first NUL.
abbrev pub text_of : List ℕ → List ℕ
text_of [] = []
text_of (c ∷ cs) = if c == 0 then [] else c ∷ text_of cs

-- `strncmp(p1, p2, maxlen) == 0` with `maxlen - 1` rounds: the loop goes on over equal bytes, and the
-- bytes where it stops are compared.
abbrev pub is_equal_in : (rounds : ℕ) (p1 p2 : List ℕ) → Bool
is_equal_in zero p1 p2 = front p1 == front p2
is_equal_in (suc n) p1 p2 =
    let rest = is_equal_in n (behind p1) (behind p2) in
    if front p1 == 0 || not (front p1 == front p2) then front p1 == front p2 else rest

-- A `maxlen` of 0 wraps, and the loop goes on until the texts end.
abbrev pub is_equal : (p1 p2 : List ℕ) (maxlen : ℕ) → Bool
is_equal p1 p2 maxlen = is_equal_in (if maxlen == 0 then length p1 else maxlen - 1) p1 p2

-- The value, where STATUS_SUCCESS is returned.
unfoldable pub get_variable : List ShellVar → (key : List ℕ) → Option (List ℕ)
get_variable [] key = none
get_variable (v ∷ vs) key =
    if is_equal (text_of v.str) key v.key_len
    then some (text_of (drop (v.key_len + 1) v.str))
    else get_variable vs key

-- How `shell_expand` ends: with STATUS_SUCCESS, with STATUS_BUFFER_TOO_SMALL, with an access outside
-- of the table of `isalnum`, or not within the rounds.
pub data Expansion : Type 0 where
  done : (bytes : List ℕ) → Expansion
  too_small : (bytes : List ℕ) → Expansion
  outside : Expansion
  still : Expansion

-- `PUSH_CHAR_E`, and what comes after it.
abbrev pub before : ℕ → Expansion → Expansion
before c (Expansion.done bytes) = Expansion.done (c ∷ bytes)
before c (Expansion.too_small bytes) = Expansion.too_small (c ∷ bytes)
before c Expansion.outside = Expansion.outside
before c Expansion.still = Expansion.still

abbrev pub push : (buflen c : ℕ) → Expansion → Expansion
push zero c e = Expansion.too_small []
push (suc n) c e = before c e

-- The loop over the value, and what comes after it with the room that is left.
abbrev pub push_all : (value : List ℕ) (buflen : ℕ) → (ℕ → Expansion) → Expansion
push_all [] buflen after = after buflen
push_all (c ∷ cs) buflen after = push buflen c (push_all cs (buflen - 1) after)

-- `isalnum(*line) || *line == '_'`
abbrev pub char_of : ℕ → ℤ
char_of c = if ltb c 128 then pos c else negsuc (255 - c)

abbrev pub or_underscore : (c : ℕ) → Option Bool → Option Bool
or_underscore c none = none
or_underscore c (some b) = some (b || c == b'_')

-- A byte put before a name.
abbrev pub longer : ℕ → Option (List ℕ × List ℕ) → Option (List ℕ × List ℕ)
longer c none = none
longer c (some (name, rest)) = some (c ∷ name, rest)

-- The name, of at most `room` bytes, and the line behind it; `more` is what the loop makes of the
-- line behind the byte `c`.
abbrev pub name_step :
    Option Bool → (room c : ℕ) (cs : List ℕ) → Option (List ℕ × List ℕ) → Option (List ℕ × List ℕ)
name_step none room c cs more = none
name_step (some false) room c cs more = some ([], c ∷ cs)
name_step (some true) zero c cs more = some ([], c ∷ cs)
name_step (some true) (suc n) c cs more = longer c more

unfoldable pub read_name : (room : ℕ) (line : List ℕ) → Option (List ℕ × List ℕ)
unfolding isalnum
read_name room [] = some ([], [])
read_name room (c ∷ cs) =
    name_step (or_underscore c (isalnum (char_of c))) room c cs (read_name (room - 1) cs)

-- A key that is not found has an empty value.
abbrev pub value_of : Option (List ℕ) → List ℕ
value_of none = []
value_of (some value) = value

-- What the rest of the loop makes of a line and the room in the buffer.
abbrev pub Loop : Type 0
Loop = (line : List ℕ) (buflen : ℕ) → Expansion

unfoldable pub on_name : List ShellVar → Loop → Option (List ℕ × List ℕ) → (buflen : ℕ) → Expansion
on_name vars more none buflen = Expansion.outside
on_name vars more (some (name, rest)) buflen =
    push_all (value_of (get_variable vars name)) buflen (more rest)

unfoldable pub expand_loop : (rounds : ℕ) → List ShellVar → Loop
unfolding on_name read_name get_variable
expand_loop zero vars line buflen = Expansion.still
expand_loop (suc n) vars [] buflen = Expansion.done []
expand_loop (suc n) vars (c ∷ cs) buflen =
    let escaped = push buflen b'$' (expand_loop n vars (behind cs) (buflen - 1)) in
    let variable = on_name vars (expand_loop n vars) (read_name 63 cs) buflen in
    let plain = push buflen c (expand_loop n vars cs (buflen - 1)) in
    if c == b'\\' && front cs == b'$' then escaped else if c == b'$' then variable else plain

unfoldable pub shell_expand : (rounds : ℕ) → List ShellVar → Loop
unfolding expand_loop
shell_expand rounds vars line buflen = expand_loop rounds vars line buflen
