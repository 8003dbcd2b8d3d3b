-- ===== src/Path/Canonical.antt =====
-- The normal form of an absolute path by a stack of names, and one element of `path_normalize`.
use emos.Base.{
  ℕ, ◌+◌, ◌-◌, ◌≤◌, ◌<◌, ◌≡◌, ◌≢◌, refl, Bool, true, false, List, [], ◌∷◌, ◌==◌, ltb, leb, arith,
  length, ◌∙◌, ap, drop, length-drop, inl, inr, ◌⊎◌, if◌then◌else◌,
}
use emos.Strto.{front}
use emos.Path.{from}
use emos.Path.Bounds.{length-put_all}
use emos.Path.Normal.{
  put_all, put, keep, strip, drop_slash, last_separator, up_absolute, separated, append_element,
  is_dot, is_dots, on_element,
}

-- The elements between the separators.
abbrev pub prepend : ℕ → List (List ℕ) → List (List ℕ)
prepend c [] = (c ∷ []) ∷ []
prepend c (e ∷ es) = (c ∷ e) ∷ es

unfoldable pub split : List ℕ → List (List ℕ)
split [] = [] ∷ []
split (c ∷ cs) = if c == b'/' then [] ∷ split cs else prepend c (split cs)

abbrev pub tail : List (List ℕ) → List (List ℕ)
tail [] = []
tail (a ∷ s) = s

-- An element put on the stack of names, the last name first.
abbrev pub resolve_one : (stack : List (List ℕ)) (element : List ℕ) → List (List ℕ)
resolve_one s e = if is_dot e then s else if is_dots e then tail s else e ∷ s

unfoldable pub resolve : (stack elements : List (List ℕ)) → List (List ℕ)
resolve s [] = s
resolve s (e ∷ es) = resolve (resolve_one s e) es

-- The bytes of the names with a slash before each and one behind the last, the last byte first.
abbrev pub opened : List (List ℕ) → List ℕ
opened [] = b'/' ∷ []
opened (a ∷ s) = b'/' ∷ put_all a (opened s)

-- The same without the slash at the end, but for the root.
abbrev pub ended : List (List ℕ) → List ℕ
ended [] = b'/' ∷ []
ended (a ∷ s) = put_all a (opened s)

-- A name has bytes, and none of them is a slash.
pub record IsName (a : List ℕ) : Type 0 where
  pub some_byte : 0 < length a
  pub no_slash : from b'/' a ≡ []

pub data AllNames : List (List ℕ) → Type 0 where
  no_name : AllNames []
  name : (a : List ℕ) (s : List (List ℕ)) → IsName a → AllNames s → AllNames (a ∷ s)

-- The buffer holds the stack, with or without a slash at its end.
pub record Holds (s : List (List ℕ)) (out : List ℕ) : Type 0 where
  pub names : AllNames s
  pub text : (out ≡ opened s) ⊎ (out ≡ ended s)

strip-put_all :
    (a out : List ℕ) → from b'/' a ≡ [] → 0 < length out → strip 0 (put_all a out) ≡ strip 0 out
strip-put_all [] out h p = refl
strip-put_all (c ∷ cs) out h p =
    let here : (c == b'/') ≡ false = ground arith in
    let there : from b'/' cs ≡ [] = ground arith in
    strip-put_all cs (c ∷ out) there (omega arith) ∙ ground arith

front-put_all :
    (a out : List ℕ) → from b'/' a ≡ [] → front out ≢ b'/' → front (put_all a out) ≢ b'/'
front-put_all [] out h n = n
front-put_all (c ∷ cs) out h n =
    let there : from b'/' cs ≡ [] = ground arith in
    front-put_all cs (c ∷ out) there (λ e. ground arith)

pub front-name : (a out : List ℕ) → IsName a → front (put_all a out) ≢ b'/'
front-name [] out h = absurd (omega (arith, h.some_byte))
front-name (c ∷ cs) out h =
    let e = h.no_slash in
    let there : from b'/' cs ≡ [] = ground arith in
    front-put_all cs (c ∷ out) there (λ e'. ground arith)

strip-opened : (s : List (List ℕ)) → strip 0 (opened s) ≡ opened s
strip-opened [] = refl
strip-opened (a ∷ s) = ground arith

pub length-opened : (s : List (List ℕ)) → 0 < length (opened s)
length-opened [] = omega arith
length-opened (a ∷ s) = omega arith

drop_slash-ne : (out : List ℕ) → front out ≢ b'/' → drop_slash out ≡ out
drop_slash-ne out n = ground arith

-- The last separator of a buffer that ends in a name is the slash before the name.
last_separator-name :
    (a : List ℕ) (s : List (List ℕ)) → IsName a → last_separator 0 (put_all a (opened s)) ≡ opened s
last_separator-name a s h =
    ap (strip 0) (drop_slash-ne (put_all a (opened s)) (front-name a (opened s) h))
    ∙ strip-put_all a (opened s) h.no_slash (length-opened s)
    ∙ strip-opened s

last_separator-opened :
    (a : List ℕ) (s : List (List ℕ)) → IsName a → last_separator 0 (opened (a ∷ s)) ≡ opened s
last_separator-opened a s h =
    strip-put_all a (opened s) h.no_slash (length-opened s) ∙ strip-opened s

no_bytes : (out : List ℕ) → length out ≡ 0 → out ≡ []
no_bytes [] h = refl
no_bytes (c ∷ cs) h = ground arith

drop-all : (out : List ℕ) → drop (length out - 0) out ≡ []
drop-all out = no_bytes _ (omega (arith, length-drop (length out - 0) out))

root_or :
    (end : ℕ) (out : List ℕ) (s : List (List ℕ))
    → 0 < end
    → (if leb (length (opened s)) 1 then put end b'/' (keep 0 out) else opened s) ≡ opened s
root_or end out [] p = ap (put end b'/') (drop-all out) ∙ ground arith
root_or end out (a ∷ s) p = ground (arith, length-put_all a (opened s), length-opened s)

-- `..` where the slash before the last name is found.
up_absolute-found :
    (end : ℕ) (s : List (List ℕ)) (out : List ℕ)
    → 0 < end
    → 0 < length out
    → last_separator 0 out ≡ opened s
    → up_absolute end false out ≡ opened s
unfolding up_absolute
up_absolute-found end s [] p l h = absurd (omega arith)
up_absolute-found end s (c ∷ cs) p l h = rw h (root_or end (c ∷ cs) s p)

up_absolute-cases :
    (end : ℕ) (s : List (List ℕ)) (out : List ℕ)
    → 0 < end
    → AllNames s
    → (out ≡ opened s) ⊎ (out ≡ ended s)
    → up_absolute end false out ≡ opened (tail s)
unfolding up_absolute
up_absolute-cases end [] out p h (inl e) = rw e (ground arith)
up_absolute-cases end [] out p h (inr e) = rw e (ground arith)
up_absolute-cases end (a ∷ s) out p (AllNames.name a' s' n m) (inl e) = rw e (
    up_absolute-found end s (opened (a ∷ s)) p (length-opened (a ∷ s))
      (last_separator-opened a s n))
up_absolute-cases end (a ∷ s) out p (AllNames.name a' s' n m) (inr e) = rw e (
    up_absolute-found end s (ended (a ∷ s)) p
      (omega (arith, length-put_all a (opened s), length-opened s)) (last_separator-name a s n))

separated-opened : (end : ℕ) (s : List (List ℕ)) → separated end (opened s) ≡ opened s
separated-opened end [] = refl
separated-opened end (a ∷ s) = refl

separated-ended :
    (end : ℕ) (out : List ℕ)
    → 0 < length out
    → front out ≢ b'/'
    → length out < end
    → separated end out ≡ b'/' ∷ out
separated-ended end [] p n l = absurd (omega arith)
separated-ended end (c ∷ cs) p n l = ground arith

appended :
    (end : ℕ) (e out1 : List ℕ)
    → length out1 + length e < end
    → (if ltb (length out1 + length e) end then put_all e out1 else out1) ≡ put_all e out1
appended end e out1 l = ground arith

-- A name put behind the buffer.
append_element-ended :
    (end : ℕ) (s : List (List ℕ)) (e out : List ℕ)
    → AllNames s
    → (out ≡ opened s) ⊎ (out ≡ ended s)
    → length out + length e + 1 < end
    → append_element end e out ≡ ended (e ∷ s)
unfolding append_element
append_element-ended end s e out h (inl o) r =
    rw (o, separated-opened end s) (appended end e (opened s) (omega (arith, ap length o)))
append_element-ended end [] e out h (inr o) r =
    rw (o, separated-opened end []) (appended end e (opened []) (omega (arith, ap length o)))
append_element-ended end (a ∷ s) e out (AllNames.name a' s' n m) (inr o) r =
    let l : length out ≡ length (ended (a ∷ s)) = ap length o in
    let full =
      separated-ended end (ended (a ∷ s))
        (omega (arith, length-put_all a (opened s), length-opened s)) (front-name a (opened s) n)
        (omega (arith, l)) in
    rw (o, full) (appended end e (b'/' ∷ ended (a ∷ s)) (omega (arith, l)))

tail-AllNames : (s : List (List ℕ)) → AllNames s → AllNames (tail s)
tail-AllNames [] h = h
tail-AllNames (a ∷ s) (AllNames.name a' s' n m) = m

length-tail :
    (s : List (List ℕ)) (out : List ℕ)
    → (out ≡ opened s) ⊎ (out ≡ ended s)
    → length (opened (tail s)) ≤ length out
length-tail [] out (inl o) = omega (arith, ap length o)
length-tail [] out (inr o) = omega (arith, ap length o)
length-tail (a ∷ s) out (inl o) = omega (arith, ap length o, length-put_all a (opened s))
length-tail (a ∷ s) out (inr o) = omega (arith, ap length o, length-put_all a (opened s))

length-opened-le :
    (s : List (List ℕ)) (out : List ℕ)
    → (out ≡ opened s) ⊎ (out ≡ ended s)
    → length (opened s) ≤ length out + 1
length-opened-le s out (inl o) = omega (arith, ap length o)
length-opened-le [] out (inr o) = omega (arith, ap length o)
length-opened-le (a ∷ s) out (inr o) = omega (arith, ap length o)

not_dot : (e : List ℕ) → is_dot e ≡ false → 0 < length e
not_dot [] h = ground arith
not_dot (c ∷ cs) h = omega arith

-- After an element the buffer holds the stack that the element leaves, and has grown by no more than
-- the element and a slash.
abbrev pub Stepped : (s : List (List ℕ)) (before : ℕ) (e after : List ℕ) → Type 0
Stepped s before e after = Holds s after × (length after ≤ before + length e + 1)

step-Stepped :
    (end : ℕ) (s : List (List ℕ)) (e out : List ℕ) (dot dots : Bool)
    → Holds s out
    → from b'/' e ≡ []
    → length out + length e + 1 < end
    → is_dot e ≡ dot
    → Stepped
        (if dot then s else if dots then tail s else e ∷ s)
        (length out)
        e
        (if dot then out else if dots then up_absolute end false out else append_element end e out)
step-Stepped end s e out true dots h n l d = (h, omega arith)
step-Stepped end s e out false true h n l d =
    let found = up_absolute-cases end s out (omega arith) h.names h.text in
    rw found (
      record { names = tail-AllNames s h.names; text = inl refl },
      omega (arith, length-tail s out h.text),
    )
step-Stepped end s e out false false h n l d =
    let put_behind = append_element-ended end s e out h.names h.text l in
    let is_name : IsName e = record { some_byte = not_dot e d; no_slash = n } in
    rw put_behind (
      record { names = AllNames.name e s is_name h.names; text = inr refl },
      omega (arith, length-put_all e (opened s), length-opened-le s out h.text),
    )

pub on_element-Stepped :
    (end : ℕ) (s : List (List ℕ)) (e out : List ℕ)
    → Holds s out
    → from b'/' e ≡ []
    → length out + length e + 1 < end
    → Stepped (resolve_one s e) (length out) e (on_element end false true e out)
unfolding on_element
on_element-Stepped end s e out h n l = step-Stepped end s e out (is_dot e) (is_dots e) h n l refl
