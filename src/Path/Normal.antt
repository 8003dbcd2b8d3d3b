-- ===== src/Path/Normal.antt =====
-- `path_normalize` of boot/core/path.c. `end` is `dest_end - dest`, and `fs` is `has_filesystem`.
use emos.Base.{
  ℕ, zero, suc, ◌+◌, ◌-◌, Bool, true, false, List, [], ◌∷◌, Option, none, some, ◌==◌, ltb, leb, not,
  ◌&&◌, ◌||◌, if◌then◌else◌, length, take, drop,
}
use emos.Strto.{front, behind}
use emos.Path.{until, is_nil, PathIterator, path_iter_init, path_iter_next}

-- Bytes that are put behind those that are there.
abbrev pub put_all : (bytes out : List ℕ) → List ℕ
put_all [] out = out
put_all (c ∷ cs) out = put_all cs (c ∷ out)

-- `if (write_pos < dest_end) *write_pos++ = c;`
abbrev pub put : (end c : ℕ) (out : List ℕ) → List ℕ
put end c out = if ltb (length out) end then c ∷ out else out

-- `write_pos = dest + n;`
abbrev pub keep : (n : ℕ) (out : List ℕ) → List ℕ
keep n out = drop (length out - n) out

-- `strchr(dest, ':') - dest`, where there is a file system: its name has no colon, and `write_pos`
-- stays behind the one that follows it.
abbrev pub colon_pos : (out : List ℕ) → ℕ
colon_pos out = length (until b':' (put_all out []))

-- `while (last_sep > dest + low && *last_sep != '/') last_sep--;` on the bytes up to `last_sep`.
abbrev pub strip : (low : ℕ) → List ℕ → List ℕ
strip low [] = []
strip low (c ∷ cs) = if ltb low (length cs) && not (c == b'/') then strip low cs else c ∷ cs

abbrev pub drop_slash : List ℕ → List ℕ
drop_slash out = if front out == b'/' then behind out else out

-- The bytes up to `last_sep`.
abbrev pub last_separator : (low : ℕ) (out : List ℕ) → List ℕ
last_separator low out = strip low (drop_slash out)

-- `..` in an absolute path.
unfoldable pub up_absolute : (end : ℕ) (fs : Bool) (out : List ℕ) → List ℕ
up_absolute end fs [] = []
up_absolute end fs (c ∷ cs) =
    let out : List ℕ = c ∷ cs in
    let before = last_separator 0 out in
    if fs && leb (length before) (colon_pos out + 2)
    then put end b'/' (keep (colon_pos out + 1) out)
    else if leb (length before) 1
    then put end b'/' (keep (if fs then colon_pos out + 1 else 0) out)
    else before

-- `if (write_pos + 2 < dest_end)` and what follows it.
abbrev pub put_dots : (end : ℕ) (out : List ℕ) → List ℕ
put_dots end out = if ltb (length out + 2) end then b'.' ∷ b'.' ∷ out else out

-- `..` in a relative path with a file system.
unfoldable pub up_volume : (end : ℕ) (out : List ℕ) → List ℕ
up_volume end out =
    let before = last_separator (colon_pos out + 1) out in
    if ltb (colon_pos out + 1) (length out)
    then (if leb (length before) (colon_pos out + 2) then keep (colon_pos out + 1) out else before)
    else put_dots end out

-- `..` in a relative path without one.
unfoldable pub up_relative : (end : ℕ) (out : List ℕ) → List ℕ
up_relative end out = put_dots end (if is_nil out then out else put end b'/' out)

abbrev pub up : (end : ℕ) (fs absolute : Bool) (out : List ℕ) → List ℕ
up end fs absolute out =
    if absolute
    then up_absolute end fs out
    else if fs
    then up_volume end out
    else up_relative end out

-- The separator before an element, where there is none yet.
abbrev pub separated : (end : ℕ) (out : List ℕ) → List ℕ
separated end out = if is_nil out || front out == b'/' then out else put end b'/' out

unfoldable pub append_element : (end : ℕ) (element out : List ℕ) → List ℕ
append_element end element out =
    let out1 = separated end out in
    if ltb (length out1 + length element) end then put_all element out1 else out1

-- What an element is: nothing or `.`, `..`, or a name.
abbrev pub is_dot : List ℕ → Bool
is_dot [] = true
is_dot (c ∷ cs) = c == b'.' && is_nil cs

abbrev pub is_dots : List ℕ → Bool
is_dots [] = false
is_dots (c ∷ []) = false
is_dots (c ∷ d ∷ cs) = c == b'.' && d == b'.' && is_nil cs

-- The body of the loop behind the first separator.
unfoldable pub on_element : (end : ℕ) (fs absolute : Bool) (element out : List ℕ) → List ℕ
unfolding up_absolute up_volume up_relative append_element
on_element end fs absolute element out =
    if is_dot element
    then out
    else if is_dots element
    then up end fs absolute out
    else append_element end element out

-- The loop behind its first round; `none` where the rounds do not suffice.
unfoldable pub elements_loop :
    (rounds end : ℕ) (fs absolute : Bool) → PathIterator → (out : List ℕ) → Option (List ℕ)
unfolding path_iter_next on_element
elements_loop zero end fs absolute it out = none
elements_loop (suc n) end fs absolute it out =
    let (last, it1) = path_iter_next it in
    let out1 = on_element end fs absolute it1.element out in
    let rest = elements_loop n end fs absolute it1 out1 in if last then some out1 else rest

-- The loop with its first round, which tells whether the path is absolute.
unfoldable pub first_loop :
    (rounds end : ℕ) (fs : Bool) → PathIterator → (out : List ℕ) → Option (List ℕ)
unfolding path_iter_next on_element elements_loop
first_loop zero end fs it out = none
first_loop (suc n) end fs it out =
    let (last, it1) = path_iter_next it in
    let absolute = it1.has_separator in
    let out1 =
      on_element end fs absolute it1.element (if absolute then put end b'/' out else out) in
    let rest = elements_loop n end fs absolute it1 out1 in if last then some out1 else rest

-- An empty result is `.`.
abbrev pub or_here : (end : ℕ) (fs : Bool) (out : List ℕ) → List ℕ
or_here end fs out = if not fs && is_nil out && ltb 0 end then b'.' ∷ [] else out

-- A slash at the end is taken off.
abbrev pub trimmed : (fs : Bool) (out : List ℕ) → List ℕ
trimmed fs out =
    if ltb 1 (length out) && front out == b'/' && (not fs || ltb (colon_pos out + 2) (length out))
    then behind out
    else out

-- The NUL, which takes the place of the last byte of a full buffer.
abbrev pub closed : (len : ℕ) (out : List ℕ) → List ℕ
closed len out = if ltb (length out) len then put_all out [] else take (len - 1) (put_all out [])

abbrev pub finish : (len : ℕ) (fs : Bool) → Option (List ℕ) → Option (Option (List ℕ))
finish len fs none = none
finish len fs (some out) = some (some (closed len (trimmed fs (or_here (len - 1) fs out))))

-- The part behind the name of the file system, which is empty where there is none.
unfoldable pub normalize_from : (rounds len : ℕ) → PathIterator → Option (Option (List ℕ))
unfolding first_loop
normalize_from rounds len it =
    let end = len - 1 in
    if is_nil it.element
    then finish len false (first_loop rounds end false it [])
    else (let body = first_loop rounds end true it (b':' ∷ put_all it.element []) in
        if leb end (length it.element + 1) then some (some []) else finish len true body)

-- The text in the buffer, with a NUL behind it; `some none` stands for the NULL that is returned for
-- a buffer of no bytes or a path that is NULL.
unfoldable pub path_normalize : (rounds len : ℕ) (src : Option (List ℕ)) → Option (Option (List ℕ))
unfolding path_iter_init normalize_from
path_normalize rounds len none = some none
path_normalize rounds len (some src) =
    let result = normalize_from rounds len (path_iter_init src) in
    if len == 0 then some none else result
