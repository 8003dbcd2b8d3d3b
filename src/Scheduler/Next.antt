-- ===== src/Scheduler/Next.antt =====
-- `scheduler_get_next_thread` goes round the list, and `scheduler_has_other_runnable_thread` looks
-- at all of it.
use emos.Base.{
  ℕ, zero, suc, ◌≤◌, ◌<◌, ◌≡◌, ◌≢◌, refl, sym, subst, List, [], ◌∷◌, ◌++◌, ◌==◌, if◌then◌else◌,
  arith, ◌||◌, Bool, false, Option, none, some, length, last_of, length-append,
}
use emos.Status.{Status}
use emos.Locks.{ThreadStatus}
use emos.Locks.World.{is_runnable}
use emos.Locks.Chain.{IsChain}
use emos.Scheduler.{
  Threads, successor, next_loop, get_next_thread, other_loop, has_other_runnable_thread,
}

-- The list has the threads `before`, the current thread and `after`, in this order.
pub record IsSplit (s : Threads) (before after : List ℕ) : Type 0 where
  pub chain : IsChain s.next s.first_thread (before ++ s.current_thread ∷ after)

-- The first thread of a list that is running or pending.
unfoldable pub first_runnable : (ℕ → ThreadStatus) → List ℕ → Option ℕ
first_runnable status [] = none
first_runnable status (x ∷ xs) = if is_runnable (status x) then some x else first_runnable status xs

-- Each thread of the list is the one that the loop comes to behind the thread before it.
abbrev IsTour : Threads → ℕ → List ℕ → Type 0
IsTour s th [] = Unit {0}
IsTour s th (x ∷ xs) = (successor s th ≡ x) × IsTour s x xs

next_loop-IsTour :
    (n : ℕ) (s : Threads) (th : ℕ) (xs : List ℕ) (x : ℕ)
    → IsTour s th xs
    → length xs ≤ n
    → first_runnable s.status xs ≡ some x
    → next_loop n s th ≡ some x
unfolding next_loop first_runnable
next_loop-IsTour n s th [] x t l f = ground arith
next_loop-IsTour zero s th (y ∷ ys) x t l f = absurd (omega arith)
next_loop-IsTour (suc n) s th (y ∷ ys) x (e, t) l f =
    rw e (ground (arith, next_loop-IsTour n s y ys x t (omega arith)))

-- The rest of the list behind a thread.
chain-IsTour : (s : Threads) (th : ℕ) (xs : List ℕ) → IsChain s.next (s.next th) xs → IsTour s th xs
unfolding successor
chain-IsTour s th [] c = tt
chain-IsTour s th (x ∷ xs) (e, nz, c) = (ground arith, chain-IsTour s x xs c)

append-IsTour :
    (s : Threads) (th : ℕ) (xs ys : List ℕ)
    → IsTour s th xs
    → IsTour s (last_of th xs) ys
    → IsTour s th (xs ++ ys)
append-IsTour s th [] ys a b = b
append-IsTour s th (x ∷ xs) ys (e, a) b = (e, append-IsTour s x xs ys a b)

chain-nonzero :
    (next : ℕ → ℕ) (p : ℕ) (xs : List ℕ) (y : ℕ) (ys : List ℕ)
    → IsChain next p (xs ++ y ∷ ys)
    → p ≢ 0
chain-nonzero next p [] y ys (e, nz, c) = ground arith
chain-nonzero next p (x ∷ xs) y ys (e, nz, c) = ground arith

successor-nonzero : (s : Threads) (th : ℕ) → s.next th ≢ 0 → successor s th ≡ s.next th
unfolding successor
successor-nonzero s th nz = ground arith

-- The part of a chain up to a thread, and the part from its link on.
front-IsTour :
    (s : Threads) (th : ℕ) (xs : List ℕ) (y : ℕ) (ys : List ℕ)
    → IsChain s.next (successor s th) (xs ++ y ∷ ys)
    → IsTour s th (xs ++ y ∷ [])
front-IsTour s th [] y ys (e, nz, c) = (e, tt)
front-IsTour s th (x ∷ xs) y ys (e, nz, c) =
    let link = successor-nonzero s x (chain-nonzero s.next (s.next x) xs y ys c) in
    (e, front-IsTour s x xs y ys (subst (λ p. IsChain s.next p (xs ++ y ∷ ys)) (sym link) c))

back-IsChain :
    (next : ℕ → ℕ) (p : ℕ) (xs : List ℕ) (y : ℕ) (ys : List ℕ)
    → IsChain next p (xs ++ y ∷ ys)
    → IsChain next (next y) ys
back-IsChain next p [] y ys (e, nz, c) = c
back-IsChain next p (x ∷ xs) y ys (e, nz, c) = back-IsChain next (next x) xs y ys c

last_of-IsChain :
    (next : ℕ → ℕ) (y : ℕ) (ys : List ℕ) → IsChain next (next y) ys → next (last_of y ys) ≡ 0
last_of-IsChain next y [] c = c
last_of-IsChain next y (x ∷ xs) (e, nz, c) = last_of-IsChain next x xs c

last_of-append : (th : ℕ) (xs ys : List ℕ) (y : ℕ) → last_of th (xs ++ (ys ++ y ∷ [])) ≡ y
last_of-append th [] [] y = refl
last_of-append th [] (x ∷ xs) y = last_of-append x [] xs y
last_of-append th (x ∷ xs) ys y = last_of-append x xs ys y

-- The way round: behind the current thread to the end, and from the front back to it.
abbrev pub round_trip : Threads → (before after : List ℕ) → List ℕ
round_trip s before after = after ++ (before ++ s.current_thread ∷ [])

split-IsTour :
    (s : Threads) (before after : List ℕ)
    → IsSplit s before after
    → IsTour s s.current_thread (round_trip s before after)
unfolding successor
split-IsTour s before after q =
    let c = back-IsChain s.next s.first_thread before s.current_thread after q.chain in
    let end = last_of-IsChain s.next s.current_thread after c in
    let wrap : successor s (last_of s.current_thread after) ≡ s.first_thread = ground arith in
    let front =
      front-IsTour s (last_of s.current_thread after) before s.current_thread after
        (subst (λ p. IsChain s.next p (before ++ s.current_thread ∷ after)) (sym wrap) q.chain) in
    append-IsTour s s.current_thread after (before ++ s.current_thread ∷ [])
      (chain-IsTour s s.current_thread after c) front

-- On a list that holds the current thread, with a round for each thread of the list,
-- `scheduler_get_next_thread` returns the first thread behind the current one that is running or
-- pending, going on from the front of the list behind its end, and the current thread last.
pub get_next_thread-first_runnable :
    (rounds : ℕ) (s : Threads) (before after : List ℕ) (x : ℕ)
    → IsSplit s before after
    → length (round_trip s before after) ≤ rounds
    → first_runnable s.status (round_trip s before after) ≡ some x
    → get_next_thread rounds s ≡ some (Status.success, x)
unfolding get_next_thread
get_next_thread-first_runnable rounds s before after x q l f =
    let t = split-IsTour s before after q in
    rw
      (
        next_loop-IsTour rounds s s.current_thread (round_trip s before after) x t l f,
        get_next_thread,
      )
      refl

cycle-none :
    (n : ℕ) (s : Threads) (th : ℕ) (xs cycle : List ℕ)
    → IsTour s th xs
    → last_of th xs ≡ s.current_thread
    → IsTour s s.current_thread cycle
    → last_of s.current_thread cycle ≡ s.current_thread
    → first_runnable s.status xs ≡ none
    → first_runnable s.status cycle ≡ none
    → 0 < length cycle
    → next_loop n s th ≡ none
unfolding next_loop first_runnable
cycle-none zero s th xs cycle t e tc ec f fc l = refl
cycle-none (suc n) s th [] [] t e tc ec f fc l = absurd (omega arith)
cycle-none (suc n) s th [] (c ∷ cs) t e (g, tc) ec f fc l =
    let fs : first_runnable s.status cs ≡ none = ground (arith, fc) in
    let ih = cycle-none n s c cs (c ∷ cs) tc ec (g, tc) ec fs fc l in rw (e, g) (ground (arith, ih))
cycle-none (suc n) s th (x ∷ xs) cycle (g, t) e tc ec f fc l =
    let fs : first_runnable s.status xs ≡ none = ground (arith, f) in
    let ih = cycle-none n s x xs cycle t e tc ec fs fc l in rw g (ground (arith, ih))

-- On a list that holds the current thread and has no thread that is running or pending,
-- `scheduler_get_next_thread` does not return, however many rounds its loop makes.
pub get_next_thread-none :
    (rounds : ℕ) (s : Threads) (before after : List ℕ)
    → IsSplit s before after
    → first_runnable s.status (round_trip s before after) ≡ none
    → get_next_thread rounds s ≡ none
unfolding get_next_thread
get_next_thread-none rounds s before after q f =
    let t = split-IsTour s before after q in
    let trip = round_trip s before after in
    let back = last_of-append s.current_thread after before s.current_thread in
    let e = cycle-none rounds s s.current_thread trip trip t back t back f f (
      omega (
        arith,
        length-append after (before ++ s.current_thread ∷ []),
        length-append before (s.current_thread ∷ []),
      )) in
    rw (e, get_next_thread) refl

-- A thread of the list other than the current one is running or pending.
unfoldable pub any_other : Threads → List ℕ → Bool
any_other s [] = false
any_other s (x ∷ xs) =
    (if x == s.current_thread then false else is_runnable (s.status x)) || any_other s xs

other_loop-any_other :
    (n : ℕ) (s : Threads) (p : ℕ) (xs : List ℕ) (r : Bool)
    → IsChain s.next p xs
    → length xs < n
    → other_loop n s p r ≡ some (r || any_other s xs)
unfolding other_loop any_other
other_loop-any_other zero s p xs r c l = absurd (omega arith)
other_loop-any_other (suc n) s p [] r c l = ground arith
other_loop-any_other (suc n) s p (x ∷ xs) r (e, nz, c) l =
    let r' : Bool = if p == s.current_thread then r else (is_runnable (s.status p) || r) in
    let c' : IsChain s.next (s.next p) xs = subst (λ q. IsChain s.next (s.next q) xs) (sym e) c in
    ground (arith, other_loop-any_other n s (s.next p) xs r' c' (omega arith))

-- On a list of threads, with a round for each of them and one more,
-- `scheduler_has_other_runnable_thread` tells whether a thread of the list other than the current one
-- is running or pending.
pub has_other_runnable_thread-any_other :
    (rounds : ℕ) (s : Threads) (xs : List ℕ)
    → IsChain s.next s.first_thread xs
    → length xs < rounds
    → has_other_runnable_thread rounds s ≡ some (any_other s xs)
unfolding has_other_runnable_thread
has_other_runnable_thread-any_other rounds s xs c l =
    other_loop-any_other rounds s s.first_thread xs false c l
