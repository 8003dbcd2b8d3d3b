-- ===== src/Locks/Chain.antt =====
-- `add_blocking_thread` and `unblock_blocking_thread` of kernel/mutex/mutex.c with their pointers:
-- the chain from `mtx->blocking_threads` through `mutex_blocking_next` of the threads.
use emos.Base.{
  ℕ, zero, suc, ◌≤◌, ◌<◌, subst, sym, ◌≡◌, ◌≢◌, refl, true, false, List, [], ◌∷◌, ◌++◌, ◌==◌,
  if◌then◌else◌, arith, Option, none, some, length, last_of, Bool-cases, inl, inr,
}
use emos.Locks.{ThreadStatus, update, elem, enqueue, dequeue, unblock_status, is_blocking}

-- `mtx->blocking_threads` and the field `mutex_blocking_next` of every thread
pub record Links : Type 0 where
  pub blocking_threads : ℕ
  pub mutex_blocking_next : ℕ → ℕ

-- How the `while` of `add_blocking_thread` ends: by `return`, or by `break` at the last thread.
-- `lost` stands for a walk that has come to NULL, or goes on behind the rounds that it has.
pub data Walk : Type 0 where
  found : Walk
  last : ℕ → Walk
  lost : Walk

pub walk : (rounds : ℕ) (next : ℕ → ℕ) (last_blocking_th th : ℕ) → Walk
walk zero next p th = Walk.lost
walk (suc n) next p th =
    let rest = walk n next (next p) th in
    if p == 0
    then Walk.lost
    else if p == th
    then Walk.found
    else if next p == 0
    then Walk.last p
    else rest

-- The new chain; nothing where the walk is lost.
pub add_blocking_thread : (rounds th : ℕ) → Links → Option Links
unfolding walk
add_blocking_thread rounds th l =
    if l.blocking_threads == th
    then some l
    else if l.blocking_threads == 0
    then some
        (record { blocking_threads = th; mutex_blocking_next = update l.mutex_blocking_next th 0 })
    else elim (walk rounds l.mutex_blocking_next l.blocking_threads th) [
      | found ↦ some l
      | last p ↦
          some (record l { mutex_blocking_next = update (update l.mutex_blocking_next p th) th 0 })
      | lost ↦ none
    ]

pub unblock_blocking_thread : Links → (ℕ → ThreadStatus) → Links × (ℕ → ThreadStatus)
unblock_blocking_thread l status =
    if l.blocking_threads == 0
    then (l, status)
    else (let th : ℕ = l.blocking_threads in
        (
          record {
            blocking_threads = l.mutex_blocking_next th;
            mutex_blocking_next = update l.mutex_blocking_next th 0;
          },
          if is_blocking (status th) then update status th ThreadStatus.running else status,
        ))

-- The chain from `p` has the threads of the list, in order.
abbrev pub IsChain : (next : ℕ → ℕ) (p : ℕ) → List ℕ → Type 0
IsChain next p [] = p ≡ 0
IsChain next p (x ∷ xs) = (p ≡ x) × (x ≢ 0) × IsChain next (next x) xs

abbrev pub IsDistinct : List ℕ → Type 0
IsDistinct [] = Unit {0}
IsDistinct (x ∷ xs) = (elem x xs ≡ false) × IsDistinct xs

elem-last_of : (x : ℕ) (xs : List ℕ) → elem (last_of x xs) (x ∷ xs) ≡ true
elem-last_of x [] = ground arith
elem-last_of x (y ∷ ys) = ground (arith, elem-last_of y ys)

-- Where the walk ends on a chain, with a round for each thread.
walk-IsChain :
    (n : ℕ) (next : ℕ → ℕ) (p x : ℕ) (xs : List ℕ) (th : ℕ)
    → IsChain next p (x ∷ xs)
    → length xs < n
    → walk n next p th ≡ (if elem th (x ∷ xs) then Walk.found else Walk.last (last_of x xs))
unfolding walk
walk-IsChain zero next p x xs th c l = absurd (omega arith)
walk-IsChain (suc n) next p x [] th c l = ground arith
walk-IsChain (suc n) next p x (y ∷ ys) th (e, nz, (e', nz', c)) l =
    ground (arith, walk-IsChain n next (next p) y ys th (ground arith, nz', c) (omega arith))

-- A chain depends on the links of its threads alone.
pub IsChain-congr :
    (next g : ℕ → ℕ) (p : ℕ) (xs : List ℕ)
    → ((t : ℕ) → elem t xs ≡ true → g t ≡ next t)
    → IsChain next p xs
    → IsChain g p xs
IsChain-congr next g p [] h c = c
IsChain-congr next g p (x ∷ xs) h (a, nz, c) =
    let ih = IsChain-congr next g (next x) xs (λ t e. h t (ground arith)) c in
    (a, nz, subst (λ q. IsChain g q xs) (sym (h x (ground arith))) ih)

-- The link of the last thread set to a new one, whose link is NULL.
append-IsChain :
    (next g : ℕ → ℕ) (x : ℕ) (xs : List ℕ) (th : ℕ)
    → IsChain next x (x ∷ xs)
    → IsDistinct (x ∷ xs)
    → th ≢ 0
    → ((t : ℕ) → elem t (x ∷ xs) ≡ true → t ≢ last_of x xs → g t ≡ next t)
    → g (last_of x xs) ≡ th
    → g th ≡ 0
    → IsChain g x (x ∷ xs ++ th ∷ [])
append-IsChain next g x [] th (a, nz, c) d tz h l z = (refl, nz, (l, tz, z))
append-IsChain next g x (y ∷ ys) th (a, nz, (e, nz', c)) (d, d') tz h l z =
    let ih = append-IsChain next g y ys th (refl, nz', c) d' tz (λ t m. h t (ground arith)) l z in
    let gx : g x ≡ next x = h x (ground arith) (ground (arith, elem-last_of y ys)) in
    (refl, nz, subst (λ q. IsChain g q (y ∷ ys ++ th ∷ [])) (ground arith) ih)

pub elem-append :
    (t u : ℕ) (xs : List ℕ) → u ≢ t → elem t xs ≡ false → elem t (xs ++ u ∷ []) ≡ false
elem-append t u [] ne e = ground arith
elem-append t u (x ∷ xs) ne e = ground (arith, elem-append t u xs ne)

append-IsDistinct :
    (xs : List ℕ) (th : ℕ) → IsDistinct xs → elem th xs ≡ false → IsDistinct (xs ++ th ∷ [])
append-IsDistinct [] th d e = (refl, tt)
append-IsDistinct (x ∷ xs) th (d, ds) e =
    (elem-append x th xs (ground arith) d, append-IsDistinct xs th ds (ground arith))

-- What the list of the chain is after `add_blocking_thread`.
pub record IsQueue (l : Links) (xs : List ℕ) : Type 0 where
  pub chain : IsChain l.mutex_blocking_next l.blocking_threads xs
  pub distinct : IsDistinct xs

-- The links after a thread is put behind the last one.
abbrev appended : Links → (p th : ℕ) → Links
appended l p th = record l { mutex_blocking_next = update (update l.mutex_blocking_next p th) th 0 }

add_blocking_thread-old :
    (rounds th : ℕ) (l : Links) (x : ℕ) (xs : List ℕ)
    → IsQueue l (x ∷ xs)
    → length xs < rounds
    → elem th (x ∷ xs) ≡ true
    → add_blocking_thread rounds th l ≡ some l
unfolding add_blocking_thread
add_blocking_thread-old rounds th l x xs q n e =
    ground (arith, walk-IsChain rounds l.mutex_blocking_next l.blocking_threads x xs th q.chain n)

add_blocking_thread-new :
    (rounds th : ℕ) (l : Links) (x : ℕ) (xs : List ℕ)
    → IsQueue l (x ∷ xs)
    → length xs < rounds
    → elem th (x ∷ xs) ≡ false
    → add_blocking_thread rounds th l ≡ some (appended l (last_of x xs) th)
unfolding add_blocking_thread
add_blocking_thread-new rounds th l x xs q n e =
    ground (arith, walk-IsChain rounds l.mutex_blocking_next l.blocking_threads x xs th q.chain n)

appended-IsQueue :
    (th : ℕ) (l : Links) (x : ℕ) (xs : List ℕ)
    → IsQueue l (x ∷ xs)
    → th ≢ 0
    → elem th (x ∷ xs) ≡ false
    → IsQueue (appended l (last_of x xs) th) (x ∷ xs ++ th ∷ [])
appended-IsQueue th l x xs q tz e =
    let (a, nz, c) = q.chain in
    let end = elem-last_of x xs in
    let g = (appended l (last_of x xs) th).mutex_blocking_next in
    let (_, nz', c') =
      append-IsChain l.mutex_blocking_next g x xs th (refl, nz, c) q.distinct tz
        (λ t m o. ground arith) (ground arith) (ground arith) in
    record { chain = (a, nz', c'); distinct = append-IsDistinct (x ∷ xs) th q.distinct e }

-- On a chain of distinct threads, with a round of the walk for each of them, adding a thread returns
-- a chain of distinct threads: the old one where the thread is in it, and otherwise the old one with
-- the thread at its end.
pub add_blocking_thread-enqueue :
    (rounds th : ℕ) (l : Links) (xs : List ℕ)
    → IsQueue l xs
    → th ≢ 0
    → length xs ≤ rounds
    → (l' : Links) × (add_blocking_thread rounds th l ≡ some l') × IsQueue l' (enqueue th xs)
unfolding add_blocking_thread enqueue
add_blocking_thread-enqueue rounds th l [] q tz n = (
  record { blocking_threads = th; mutex_blocking_next = update l.mutex_blocking_next th 0 },
  ground (arith, q.chain),
  record { chain = (refl, tz, ground arith); distinct = (refl, tt) },
)
add_blocking_thread-enqueue rounds th l (x ∷ xs) q tz n = elim (Bool-cases (elem th (x ∷ xs))) [
  | inl e ↦ (l, add_blocking_thread-old rounds th l x xs q (omega arith) e, rw e q)
  | inr e ↦ (
    appended l (last_of x xs) th,
    add_blocking_thread-new rounds th l x xs q (omega arith) e,
    rw e (appended-IsQueue th l x xs q tz e),
  )
]

-- On a chain of distinct threads, unblocking takes the first thread off the chain and makes it
-- running where it was blocking; on an empty chain nothing changes.
pub unblock_blocking_thread-dequeue :
    (l : Links) (status : ℕ → ThreadStatus) (xs : List ℕ)
    → IsQueue l xs
    → let (l', status') = unblock_blocking_thread l status in
      IsQueue l' (dequeue xs) × ((u : ℕ) → status' u ≡ unblock_status xs status u)
unfolding unblock_blocking_thread dequeue unblock_status
unblock_blocking_thread-dequeue l status [] q =
    (record { chain = ground (arith, q.chain); distinct = tt }, λ u. ground (arith, q.chain))
unblock_blocking_thread-dequeue l status (x ∷ xs) q =
    let (a, nz, c) = q.chain in
    let next = l.mutex_blocking_next in
    let head = l.blocking_threads in
    let some_thread : (head == 0) ≡ false = ground arith in
    let rest : IsChain next (next head) xs = subst (λ p. IsChain next (next p) xs) (sym a) c in
    let rest' = IsChain-congr next (update next head 0) (next head) xs (λ t m. ground arith) rest in
    rw some_thread (record { chain = rest'; distinct = q.distinct.1 }, λ u. ground arith)
