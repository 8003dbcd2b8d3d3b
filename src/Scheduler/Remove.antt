-- ===== src/Scheduler/Remove.antt =====
-- `scheduler_remove_thread` on a thread behind the first one, and on the first one.
use emos.Base.{
  ℕ, zero, suc, ◌<◌, ◌≡◌, refl, sym, subst, List, [], ◌∷◌, ◌++◌, ◌==◌, arith, true, false, some,
  length, last_of,
}
use emos.Status.{Status}
use emos.Locks.{ThreadStatus, update, elem}
use emos.Locks.Chain.{IsChain, IsChain-congr, IsDistinct}
use emos.Scheduler.{Threads, unlink_loop, remove_thread}

elem-last_of : (x : ℕ) (xs ys : List ℕ) → elem (last_of x xs) (x ∷ xs ++ ys) ≡ true
elem-last_of x [] ys = ground arith
elem-last_of x (y ∷ xs) ys = ground (arith, elem-last_of y xs ys)

elem-middle : (x : ℕ) (xs ys : List ℕ) → elem x (xs ++ x ∷ ys) ≡ true
elem-middle x [] ys = ground arith
elem-middle x (y ∷ xs) ys = ground (arith, elem-middle x xs ys)

-- The loop finds the thread behind the last one of `x ∷ xs`.
unlink_loop-middle :
    (n : ℕ) (next : ℕ → ℕ) (p x : ℕ) (xs : List ℕ) (th : ℕ) (ys : List ℕ)
    → IsChain next p (x ∷ xs ++ th ∷ ys)
    → IsDistinct (x ∷ xs ++ th ∷ ys)
    → length xs < n
    → unlink_loop n next p th ≡ some (update next (last_of x xs) (next th))
unfolding unlink_loop
unlink_loop-middle zero next p x xs th ys c d l = absurd (omega arith)
unlink_loop-middle (suc n) next p x [] th ys (e, nz, (e', nz', c)) d l = rw e (ground arith)
unlink_loop-middle (suc n) next p x (y ∷ xs) th ys (e, nz, (e', nz', c)) (d, (d', ds)) l = ground (
  arith,
  elem-middle th xs ys,
  unlink_loop-middle n next (next p) y xs th ys (ground arith, nz', c) (d', ds) (omega arith),
)

-- The chain without this thread.
unlink-IsChain :
    (next : ℕ → ℕ) (p x : ℕ) (xs : List ℕ) (th : ℕ) (ys : List ℕ)
    → IsChain next p (x ∷ xs ++ th ∷ ys)
    → IsDistinct (x ∷ xs ++ th ∷ ys)
    → IsChain (update next (last_of x xs) (next th)) p (x ∷ xs ++ ys)
unlink-IsChain next p x [] th ys (e, nz, (e', nz', c)) (d, ds) =
    let g = update next x (next th) in
    let gx : g x ≡ next th = ground arith in
    let c' = IsChain-congr next g (next th) ys (λ t m. ground arith) c in
    (e, nz, subst (λ q. IsChain g q ys) (sym gx) c')
unlink-IsChain next p x (y ∷ xs) th ys (e, nz, c) (d, ds) =
    let g = update next (last_of y xs) (next th) in
    let gx : g x ≡ next x = ground (arith, elem-last_of y xs (th ∷ ys)) in
    (
      e,
      nz,
      subst (λ q. IsChain g q (y ∷ xs ++ ys)) (sym gx)
          (unlink-IsChain next (next x) y xs th ys c ds),
    )

unlink_loop-absent :
    (n : ℕ) (next : ℕ → ℕ) (p x : ℕ) (xs : List ℕ) (th : ℕ)
    → IsChain next p (x ∷ xs)
    → elem th xs ≡ false
    → length xs < n
    → unlink_loop n next p th ≡ some next
unfolding unlink_loop
unlink_loop-absent zero next p x xs th c a l = absurd (omega arith)
unlink_loop-absent (suc n) next p x [] th c a l = ground arith
unlink_loop-absent (suc n) next p x (y ∷ ys) th (e, nz, (e', nz', c)) a l = ground (
  arith,
  unlink_loop-absent n next (next p) y ys th (ground arith, nz', c) (ground arith) (omega arith),
)

-- On a list of distinct threads, with a round of the loop for each thread before it, removing a
-- finished thread that is not the first succeeds, takes just this thread out of the list, and keeps
-- the current thread and every status.
pub remove_thread-IsChain :
    (rounds th : ℕ) (s : Threads) (x : ℕ) (xs ys : List ℕ)
    → s.status th ≡ ThreadStatus.finished
    → IsChain s.next s.first_thread (x ∷ xs ++ th ∷ ys)
    → IsDistinct (x ∷ xs ++ th ∷ ys)
    → length xs < rounds
    → (s' : Threads) × (remove_thread rounds th s ≡ some (Status.success, s'))
      × IsChain s'.next s'.first_thread (x ∷ xs ++ ys)
      × (s'.current_thread ≡ s.current_thread)
      × (s'.status ≡ s.status)
unfolding remove_thread
remove_thread-IsChain rounds th s x xs ys f c d l =
    let e = unlink_loop-middle rounds s.next s.first_thread x xs th ys c d l in
    let other : (th == s.first_thread) ≡ false = ground (arith, elem-middle th xs ys) in
    (
      record s { next = update s.next (last_of x xs) (s.next th) },
      rw (f, e, other) refl,
      unlink-IsChain s.next s.first_thread x xs th ys c d,
      refl,
      refl,
    )

-- On a list of distinct threads, with a round of the loop for each of them, removing the first
-- thread, when it is finished, succeeds with the list unchanged, this thread included; what changes
-- is the current thread, which is now the second one of the list, or NULL.
pub remove_thread-first :
    (rounds th : ℕ) (s : Threads) (xs : List ℕ)
    → s.status th ≡ ThreadStatus.finished
    → IsChain s.next s.first_thread (th ∷ xs)
    → IsDistinct (th ∷ xs)
    → length xs < rounds
    → remove_thread rounds th s ≡ some (Status.success, record s { current_thread = s.next th })
unfolding remove_thread
remove_thread-first rounds th s xs f c d l =
    let e = unlink_loop-absent rounds s.next s.first_thread th xs th c d.0 l in
    let same : (th == s.first_thread) ≡ true = ground arith in rw (f, e, same) refl
