-- ===== src/Path/Bounds.antt =====
-- `path_normalize` of boot/core/path.c ends, and stays inside its buffer.
use emos.Base.{
  ℕ, zero, suc, ◌+◌, ◌-◌, ◌≤◌, ◌<◌, ◌≡◌, ◌≢◌, refl, Bool, true, false, List, [], ◌∷◌, Option, some,
  ◌==◌, ltb, leb, arith, length, length-take, length-drop, if◌then◌else◌,
}
use emos.Strto.{front, behind}
use emos.Path.{from, is_nil, PathIterator, init_at, next_at, path_iter_init, path_iter_next}
use emos.Path.Normal.{
  put_all, put, keep, strip, drop_slash, last_separator, colon_pos, put_dots, up_absolute,
  up_volume, up_relative, separated, append_element, on_element, elements_loop, first_loop, or_here,
  trimmed, closed, finish, normalize_from, path_normalize,
}

pub length-put_all : (cs out : List ℕ) → length (put_all cs out) ≡ length cs + length out
length-put_all [] out = omega arith
length-put_all (c ∷ cs) out = omega (arith, length-put_all cs (c ∷ out))

pub from-le : (c : ℕ) (cs : List ℕ) → length (from c cs) ≤ length cs
from-le c [] = omega arith
from-le c (d ∷ ds) = ground (arith, from-le c ds)

-- The cursor moves on until the last element.
next_at-le : (separator : Bool) (p : List ℕ) → length (next_at separator p).1.cursor ≤ length p
next_at-le separator [] = omega arith
next_at-le separator (c ∷ cs) = from-le b'/' (c ∷ cs)

next_at-shrinks :
    (p : List ℕ)
    → front p ≢ b'/'
    → (next_at false p).0 ≡ false
    → length (next_at false p).1.cursor < length p
next_at-shrinks [] n h = ground arith
next_at-shrinks (c ∷ cs) n h = ground (arith, from-le b'/' cs)

behind-shrinks : (cs : List ℕ) → front cs ≡ b'/' → length (behind cs) < length cs
behind-shrinks [] h = ground arith
behind-shrinks (c ∷ cs) h = omega arith

next-shrinks :
    (cs : List ℕ) (b : Bool)
    → (front cs == b'/') ≡ b
    → (next_at b (if b then behind cs else cs)).0 ≡ false
    → length (next_at b (if b then behind cs else cs)).1.cursor < length cs
next-shrinks cs true e h =
    omega (arith, next_at-le true (behind cs), behind-shrinks cs (ground arith))
next-shrinks cs false e h = next_at-shrinks cs (λ e'. ground arith) h

pub path_iter_next-shrinks :
    (it : PathIterator)
    → (path_iter_next it).0 ≡ false
    → length (path_iter_next it).1.cursor < length it.cursor
unfolding path_iter_next
path_iter_next-shrinks it h = next-shrinks it.cursor _ refl h

strip-le : (low : ℕ) (out : List ℕ) → length (strip low out) ≤ length out
strip-le low [] = omega arith
strip-le low (c ∷ cs) = ground (arith, strip-le low cs)

drop_slash-le : (out : List ℕ) → length (drop_slash out) ≤ length out
drop_slash-le [] = ground arith
drop_slash-le (c ∷ cs) = ground arith

last_separator-le : (low : ℕ) (out : List ℕ) → length (last_separator low out) ≤ length out
last_separator-le low out = omega (arith, strip-le low (drop_slash out), drop_slash-le out)

if-le :
    (b : Bool) (e : ℕ) (xs ys : List ℕ)
    → length xs ≤ e
    → length ys ≤ e
    → length (if b then xs else ys) ≤ e
if-le true e xs ys h k = h
if-le false e xs ys h k = k

put-le : (end c : ℕ) (out : List ℕ) → length out ≤ end → length (put end c out) ≤ end
put-le end c out h = ground arith

keep-le : (n : ℕ) (out : List ℕ) → length (keep n out) ≤ length out
keep-le n out = omega (arith, length-drop (length out - n) out)

put_dots-le : (end : ℕ) (out : List ℕ) → length out ≤ end → length (put_dots end out) ≤ end
put_dots-le end out h = ground arith

up_absolute-le :
    (end : ℕ) (fs : Bool) (out : List ℕ) → length out ≤ end → length (up_absolute end fs out) ≤ end
unfolding up_absolute
up_absolute-le end fs [] h = h
up_absolute-le end fs (c ∷ cs) h =
    let out : List ℕ = c ∷ cs in
    let kept : (n : ℕ) → length (keep n out) ≤ end = λ n. omega (arith, keep-le n out) in
    let cut_off : length (last_separator 0 out) ≤ end = omega (arith, last_separator-le 0 out) in
    search (if-le, put-le, kept, cut_off)

up_volume-le : (end : ℕ) (out : List ℕ) → length out ≤ end → length (up_volume end out) ≤ end
unfolding up_volume
up_volume-le end out h =
    let low : ℕ = colon_pos out + 1 in
    let kept : length (keep low out) ≤ end = omega (arith, keep-le low out) in
    let cut_off : length (last_separator low out) ≤ end =
      omega (arith, last_separator-le low out) in
    search (if-le, put_dots-le, kept, cut_off)

up_relative-le : (end : ℕ) (out : List ℕ) → length out ≤ end → length (up_relative end out) ≤ end
unfolding up_relative
up_relative-le end [] h = put_dots-le end [] h
up_relative-le end (c ∷ cs) h = put_dots-le end _ (put-le end b'/' (c ∷ cs) h)

separated-le : (end : ℕ) (out : List ℕ) → length out ≤ end → length (separated end out) ≤ end
separated-le end out h = ground (arith, put-le end b'/' out h)

appended-le :
    (end : ℕ) (element out : List ℕ)
    → length out ≤ end
    → length (if ltb (length out + length element) end then put_all element out else out) ≤ end
appended-le end element out h = ground (arith, length-put_all element out)

append_element-le :
    (end : ℕ) (element out : List ℕ)
    → length out ≤ end
    → length (append_element end element out) ≤ end
unfolding append_element
append_element-le end element out h =
    appended-le end element (separated end out) (separated-le end out h)

on_element-le :
    (end : ℕ) (fs absolute : Bool) (element out : List ℕ)
    → length out ≤ end
    → length (on_element end fs absolute element out) ≤ end
unfolding on_element
on_element-le end fs absolute element out h =
    search (if-le, up_absolute-le, up_volume-le, up_relative-le, append_element-le)

-- The loop ended with what fits.
abbrev pub Ended : (end : ℕ) → Option (List ℕ) → Type 0
Ended end result = (out : List ℕ) × (result ≡ some out) × (length out ≤ end)

last-Ended :
    (end : ℕ) (last : Bool) (out : List ℕ) (rest : Option (List ℕ))
    → length out ≤ end
    → (last ≡ false → Ended end rest)
    → Ended end (if last then some out else rest)
last-Ended end true out rest h k = (out, refl, h)
last-Ended end false out rest h k = k refl

elements_loop-Ended :
    (rounds end : ℕ) (fs absolute : Bool) (it : PathIterator) (out : List ℕ)
    → length it.cursor < rounds
    → length out ≤ end
    → Ended end (elements_loop rounds end fs absolute it out)
unfolding elements_loop
elements_loop-Ended zero end fs absolute it out l h = absurd (omega arith)
elements_loop-Ended (suc n) end fs absolute it out l h =
    let fits = on_element-le end fs absolute (path_iter_next it).1.element out h in
    last-Ended end (path_iter_next it).0 _ _ fits (λ e.
      elements_loop-Ended n end fs absolute (path_iter_next it).1 _
        (omega (arith, path_iter_next-shrinks it e)) fits)

-- With more rounds than the path has bytes behind the cursor, and with what is written before it not
-- longer than `end`, the loop of path_normalize over the elements ends, and what is written, before
-- anything is cut off for the NUL, is not longer than `end`.
pub first_loop-Ended :
    (rounds end : ℕ) (fs : Bool) (it : PathIterator) (out : List ℕ)
    → length it.cursor < rounds
    → length out ≤ end
    → Ended end (first_loop rounds end fs it out)
unfolding first_loop
first_loop-Ended zero end fs it out l h = absurd (omega arith)
first_loop-Ended (suc n) end fs it out l h =
    let absolute = (path_iter_next it).1.has_separator in
    let fits =
      on_element-le end fs absolute (path_iter_next it).1.element _
        (if-le absolute end (put end b'/' out) out (put-le end b'/' out h) h) in
    last-Ended end (path_iter_next it).0 _ _ fits (λ e.
      elements_loop-Ended n end fs absolute (path_iter_next it).1 _
        (omega (arith, path_iter_next-shrinks it e)) fits)

or_here-le :
    (end : ℕ) (fs : Bool) (out : List ℕ) → length out ≤ end → length (or_here end fs out) ≤ end
or_here-le end true out h = h
or_here-le end false [] h = ground arith
or_here-le end false (c ∷ cs) h = h

behind-le : (cs : List ℕ) → length (behind cs) ≤ length cs
behind-le [] = omega arith
behind-le (c ∷ cs) = omega arith

trimmed-le : (end : ℕ) (fs : Bool) (out : List ℕ) → length out ≤ end → length (trimmed fs out) ≤ end
trimmed-le end fs out h =
    let less : length (behind out) ≤ end = omega (arith, behind-le out) in search (if-le, less, h)

-- The text of a buffer of `len` bytes, with room for the NUL.
abbrev pub Returned : (len : ℕ) → Option (Option (List ℕ)) → Type 0
Returned len result = (text : List ℕ) × (result ≡ some (some text)) × (length text < len)

closed-lt :
    (len : ℕ) (out : List ℕ) → 0 < len → length out ≤ len - 1 → length (closed len out) < len
closed-lt len out p h =
    let cut_off = length-take (len - 1) (put_all out []) in
    ground (arith, length-put_all out [], cut_off)

finished-Returned :
    (len : ℕ) (fs : Bool) (out : List ℕ)
    → 0 < len
    → length out ≤ len - 1
    → Returned len (finish len fs (some out))
finished-Returned len fs out p h =
    let fits = trimmed-le (len - 1) fs (or_here (len - 1) fs out) (or_here-le (len - 1) fs out h) in
    (_, refl, closed-lt len _ p fits)

if-Returned :
    (len : ℕ) (b : Bool) (x y : Option (Option (List ℕ)))
    → (b ≡ true → Returned len x)
    → (b ≡ false → Returned len y)
    → Returned len (if b then x else y)
if-Returned len true x y h k = h refl
if-Returned len false x y h k = k refl

finish-Returned :
    (len : ℕ) (fs : Bool) (result : Option (List ℕ))
    → 0 < len
    → Ended (len - 1) result
    → Returned len (finish len fs result)
finish-Returned len fs result p (out, e, h) = rw e (finished-Returned len fs out p h)

normalize_from-Returned :
    (rounds len : ℕ) (it : PathIterator)
    → 0 < len
    → length it.cursor < rounds
    → Returned len (normalize_from rounds len it)
unfolding normalize_from
normalize_from-Returned rounds len it p l =
    if-Returned len (is_nil it.element) _ _
      (λ e.
        finish-Returned len false _ p
          (first_loop-Ended rounds (len - 1) false it [] l (omega arith)))
      (λ e.
        if-Returned len (leb (len - 1) (length it.element + 1)) _ _ (λ b. ([], refl, p))
          (λ b. finish-Returned len true _ p (
            first_loop-Ended rounds (len - 1) true it _ l
              (ground (arith, length-put_all it.element [])))))

init_at-le :
    (path rest : List ℕ)
    → length rest ≤ length path
    → length (init_at path rest).cursor ≤ length path
init_at-le path [] h = omega arith
init_at-le path (c ∷ cs) h = omega arith

init-le : (path : List ℕ) → length (path_iter_init path).cursor ≤ length path
unfolding path_iter_init
init-le path = init_at-le path _ (from-le b':' path)

-- path_normalize returns a text that has room for the NUL behind it.
pub path_normalize-Returned :
    (rounds len : ℕ) (src : List ℕ)
    → 0 < len
    → length src < rounds
    → Returned len (path_normalize rounds len (some src))
unfolding path_normalize
path_normalize-Returned rounds len src p l =
    if-Returned len (len == 0) _ _ (λ e. absurd (ground arith))
      (λ e. normalize_from-Returned rounds len (path_iter_init src) p (omega (arith, init-le src)))
