-- ===== src/Path/Absolute.antt =====
-- The normal form of an absolute path.
use emos.Base.{
  ℕ, zero, suc, ◌+◌, ◌-◌, ◌≤◌, ◌<◌, ◌≡◌, ◌≢◌, refl, Bool, true, false, List, [], ◌∷◌, Option, some,
  ◌==◌, ltb, arith, length, ◌∙◌, ap, take, inl, inr, ◌⊎◌, if◌then◌else◌,
}
use emos.Strto.{front, behind}
use emos.Path.{until, from, is_nil, next_at, PathIterator, path_iter_next, path_iter_init}
use emos.Path.Bounds.{length-put_all}
use emos.Path.Normal.{
  put_all, put, on_element, elements_loop, first_loop, or_here, trimmed, closed, finish,
  normalize_from, path_normalize,
}
use emos.Path.Canonical.{
  split, resolve, resolve_one, opened, ended, Holds, AllNames, on_element-Stepped, front-name,
  length-opened,
}

-- The elements of a text: the first, and those behind the slash.
abbrev more : List ℕ → List (List ℕ)
more [] = []
more (c ∷ cs) = split cs

split-until : (p : List ℕ) → split p ≡ until b'/' p ∷ more (from b'/' p)
unfolding split
split-until [] = refl
split-until (c ∷ cs) = ground (arith, split-until cs)

until-no_slash : (p : List ℕ) → from b'/' (until b'/' p) ≡ []
until-no_slash [] = refl
until-no_slash (c ∷ cs) = ground (arith, until-no_slash cs)

length-until : (p : List ℕ) → length (until b'/' p) + length (from b'/' p) ≡ length p
length-until [] = omega arith
length-until (c ∷ cs) = ground (arith, length-until cs)

from-slash : (p : List ℕ) → from b'/' p ≢ [] → from b'/' p ≡ b'/' ∷ behind (from b'/' p)
from-slash [] h = absurd (h refl)
from-slash (c ∷ cs) h = ground (arith, from-slash cs)

take-all : (n : ℕ) (xs : List ℕ) → length xs ≤ n → take n xs ≡ xs
take-all zero [] h = refl
take-all (suc n) [] h = refl
take-all zero (x ∷ xs) h = absurd (omega arith)
take-all (suc n) (x ∷ xs) h = ap (λ ys. x ∷ ys) (take-all n xs (omega arith))

next_at-fields :
    (q : List ℕ)
    → length q < 256
    → ((next_at true q).0 ≡ is_nil (from b'/' q))
      × ((next_at true q).1.element ≡ until b'/' q)
      × ((next_at true q).1.cursor ≡ from b'/' q)
next_at-fields [] l = (refl, refl, refl)
next_at-fields (c ∷ cs) l =
    (refl, take-all 255 (until b'/' (c ∷ cs)) (omega (arith, length-until (c ∷ cs))), refl)

-- What the iterator gives where the cursor is at a slash.
next-fields :
    (it : PathIterator) (q : List ℕ)
    → it.cursor ≡ b'/' ∷ q
    → length q < 256
    → ((path_iter_next it).0 ≡ is_nil (from b'/' q))
      × ((path_iter_next it).1.element ≡ until b'/' q)
      × ((path_iter_next it).1.cursor ≡ from b'/' q)
unfolding path_iter_next
next-fields it q c l = rw c (next_at-fields q l)

more-split : (t : List ℕ) → t ≢ [] → more t ≡ split (behind t)
more-split [] h = absurd (h refl)
more-split (c ∷ cs) h = refl

-- The loop ended with a buffer that holds the stack.
abbrev Normalized : (end : ℕ) (s : List (List ℕ)) → Option (List ℕ) → Type 0
Normalized end s result = (out : List ℕ) × (result ≡ some out) × Holds s out × (length out ≤ end)

round-Normalized :
    (end : ℕ) (s : List (List ℕ)) (last : Bool) (t out : List ℕ) (rest : Option (List ℕ))
    → last ≡ is_nil t
    → Holds s out
    → length out ≤ end
    → (t ≢ [] → Normalized end (resolve s (split (behind t))) rest)
    → Normalized end (resolve s (more t)) (if last then some out else rest)
unfolding resolve
round-Normalized end s true [] out rest e h l k = (out, refl, h, l)
round-Normalized end s false [] out rest e h l k = ground arith
round-Normalized end s true (c ∷ cs) out rest e h l k = ground arith
round-Normalized end s false (c ∷ cs) out rest e h l k = k (λ e'. ground arith)

elements_loop-Normalized :
    (n end : ℕ) (s : List (List ℕ)) (q : List ℕ) (it : PathIterator) (out : List ℕ)
    → it.cursor ≡ b'/' ∷ q
    → length q < n
    → length q < 256
    → length out + length q + 1 < end
    → Holds s out
    → Normalized end (resolve s (split q)) (elements_loop n end false true it out)
unfolding elements_loop resolve
elements_loop-Normalized zero end s q it out c l f r h = absurd (omega arith)
elements_loop-Normalized (suc n) end s q it out c l f r h =
    let (e0, e1, e2) = next-fields it q c f in
    let total = length-until q in
    let (held, grown) =
      on_element-Stepped end s (until b'/' q) out h (until-no_slash q) (omega arith) in
    let out1 : List ℕ = on_element end false true (until b'/' q) out in
    rw (split-until q, e1)
      (round-Normalized end (resolve_one s (until b'/' q)) (path_iter_next it).0 (from b'/' q) out1
        _ e0 held (omega arith)
        (λ ne.
          let shorter = ap length (from-slash q ne) in
          elements_loop-Normalized n end (resolve_one s (until b'/' q)) (behind (from b'/' q))
            (path_iter_next it).1 out1 (e2 ∙ from-slash q ne) (omega (arith, shorter))
            (omega (arith, shorter)) (omega (arith, shorter, total, grown)) held))

next_at-separator : (q : List ℕ) → (next_at true q).1.has_separator ≡ true
next_at-separator [] = refl
next_at-separator (c ∷ cs) = refl

next-separator :
    (it : PathIterator) (q : List ℕ)
    → it.cursor ≡ b'/' ∷ q
    → (path_iter_next it).1.has_separator ≡ true
unfolding path_iter_next
next-separator it q c = rw c (next_at-separator q)

-- The first round puts the slash.
first_loop-elements_loop :
    (n end : ℕ) (q : List ℕ) (it : PathIterator)
    → it.cursor ≡ b'/' ∷ q
    → first_loop n end false it [] ≡ elements_loop n end false true it (put end b'/' [])
unfolding first_loop elements_loop
first_loop-elements_loop zero end q it c = refl
first_loop-elements_loop (suc n) end q it c = rw (next-separator it q c) refl

-- The text of the stack.
abbrev pub render : List (List ℕ) → List ℕ
render s = put_all (ended s) []

or_here-same : (end : ℕ) (out : List ℕ) → 0 < length out → or_here end false out ≡ out
or_here-same end [] l = absurd (omega arith)
or_here-same end (c ∷ cs) l = refl

trimmed-same : (out : List ℕ) → front out ≢ b'/' → trimmed false out ≡ out
trimmed-same out n = ground arith

trimmed-ended :
    (s : List (List ℕ)) (out : List ℕ)
    → AllNames s
    → (out ≡ opened s) ⊎ (out ≡ ended s)
    → trimmed false out ≡ ended s
trimmed-ended [] out h (inl o) = rw o refl
trimmed-ended [] out h (inr o) = rw o refl
trimmed-ended (a ∷ s) out h (inl o) =
    let long : ltb 1 (length (opened (a ∷ s))) ≡ true =
      ground (arith, length-put_all a (opened s), length-opened s) in
    rw (o, long) refl
trimmed-ended (a ∷ s) out (AllNames.name a' s' n m) (inr o) =
    rw o (trimmed-same (ended (a ∷ s)) (front-name a (opened s) n))

text-le :
    (s : List (List ℕ)) (out : List ℕ)
    → (out ≡ opened s) ⊎ (out ≡ ended s)
    → (0 < length out) × (length (ended s) ≤ length out)
text-le [] out (inl o) = (omega (arith, ap length o), omega (arith, ap length o))
text-le [] out (inr o) = (omega (arith, ap length o), omega (arith, ap length o))
text-le (a ∷ s) out (inl o) = (omega (arith, ap length o), omega (arith, ap length o))
text-le (a ∷ s) out (inr o) = (
  omega (arith, ap length o, length-put_all a (opened s), length-opened s),
  omega (arith, ap length o),
)

closed-fits : (len : ℕ) (out : List ℕ) → length out < len → closed len out ≡ put_all out []
closed-fits len out l = ground arith

finish-render :
    (len : ℕ) (s : List (List ℕ)) (out : List ℕ)
    → Holds s out
    → length out < len
    → closed len (trimmed false (or_here (len - 1) false out)) ≡ render s
finish-render len s out h l =
    let (some_byte, fits) = text-le s out h.text in
    rw (or_here-same (len - 1) out some_byte, trimmed-ended s out h.names h.text)
      (closed-fits len (ended s) (omega arith))

from_slash :
    (rounds len : ℕ) (q : List ℕ)
    → length q < 255
    → length q + 3 < len
    → length q + 1 < rounds
    → finish len false (
        first_loop rounds
          (len - 1)
          false
          (record { cursor = b'/' ∷ q; element = []; has_separator = false })
          [])
      ≡ some (some (render (resolve [] (split q))))
from_slash rounds len q f l r =
    let it : PathIterator = record { cursor = b'/' ∷ q; element = []; has_separator = false } in
    let (out, e, h, fits) =
      elements_loop-Normalized rounds (len - 1) [] q it (b'/' ∷ []) refl (omega arith) (omega arith)
        (omega arith) (record { names = AllNames.no_name; text = inl refl }) in
    let slash : put (len - 1) b'/' [] ≡ b'/' ∷ [] = ground arith in
    let put_first = ap (elements_loop rounds (len - 1) false true it) slash in
    rw (first_loop-elements_loop rounds (len - 1) q it refl ∙ put_first ∙ e)
      (ap (λ t. some (some t)) (finish-render len _ out h (omega arith)))

-- For a path that begins with a slash, has no colon and fewer than 256 bytes, and a buffer with at
-- least three bytes more, with more rounds than the path has bytes, path_normalize returns the names
-- that are left on the stack of the path's elements, where an empty element and `.` do nothing and
-- `..` takes a name off, each name with a slash before it, and one slash for no name.
pub path_normalize-render :
    (rounds len : ℕ) (q : List ℕ)
    → from b':' q ≡ []
    → length q < 255
    → length q + 3 < len
    → length q + 1 < rounds
    → path_normalize rounds len (some (b'/' ∷ q)) ≡ some (some (render (resolve [] (split q))))
unfolding path_normalize normalize_from path_iter_init
path_normalize-render rounds len q n f l r =
    let positive : (len == 0) ≡ false = ground arith in
    rw (positive, n) (from_slash rounds len q f l r)
