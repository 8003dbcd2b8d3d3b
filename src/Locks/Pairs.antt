-- ===== src/Locks/Pairs.antt =====
-- The calls of kernel/mutex/spinlock.c in pairs, and the end of the busy wait.
use emos.Base.{
  ℕ, zero, suc, ◌<◌, ◌≡◌, ◌≢◌, ◌⊎◌, inl, inr, refl, List, ◌∷◌, Bool-cases, ==-true, true, false,
  ◌==◌, if◌then◌else◌, arith, none, some,
}
use emos.Status.{Status}
use emos.Locks.{
  Sys, Spinlock, Mutex, ThreadStatus, mutex_unlock, mutex_try_lock, unblock_status, dequeue,
  enable_preemption, spinlock_lock, spin_loop, spinlock_try_lock, spinlock_unlock,
  spinlock_try_lock_irqsave, spinlock_unlock_irqrestore,
}

abbrev pub free_lock : Spinlock
free_lock = record { locked = false; owner = 0 }

-- Either the lock is locked, `spinlock_try_lock_irqsave` returns STATUS_MUTEX_LOCKED, and lock,
-- interrupt flag and the rest are as before; or it is free, the call succeeds and turns interrupts
-- off, and `spinlock_unlock_irqrestore` with the saved flag then succeeds, frees the lock, and gives
-- back the flag and the rest as they were.
pub spinlock_unlock_irqrestore-spinlock_try_lock_irqsave :
    (sys : Sys) (lock : Spinlock)
    → let (status, irqstate, sys1, lock1) = spinlock_try_lock_irqsave sys lock in
      ((lock.locked ≡ true) × (status ≡ Status.mutex_locked) × (sys1 ≡ sys) × (lock1 ≡ lock))
      ⊎ ((lock.locked ≡ false)
          × (status ≡ Status.success)
          × (sys1.interrupts ≡ false)
          × (spinlock_unlock_irqrestore irqstate sys1 lock1 ≡ (Status.success, sys, free_lock)))
unfolding spinlock_try_lock_irqsave spinlock_unlock_irqrestore
spinlock_unlock_irqrestore-spinlock_try_lock_irqsave sys lock = elim (Bool-cases lock.locked) [
  | inl l ↦ inl (rw l (refl, refl, refl, refl))
  | inr l ↦
      inr (rw (l, ==-true sys.current_thread sys.current_thread refl) (refl, refl, refl, refl))
]

-- With one test or more, `spinlock_lock` returns exactly on a free lock: then it takes the lock for
-- the current thread and leaves preemption enabled. On a locked one every test fails, since
-- preemption is disabled and the owner cannot run.
pub spinlock_lock-returns :
    (rounds : ℕ) (sys : Sys) (lock : Spinlock)
    → 0 < rounds
    → spinlock_lock rounds sys lock ≡ (
        if lock.locked
        then none
        else some (
          Status.success,
          enable_preemption sys,
          record { locked = true; owner = sys.current_thread },
        ))
unfolding spinlock_lock spin_loop
spinlock_lock-returns zero sys lock h = absurd (omega arith)
spinlock_lock-returns (suc zero) sys lock h = refl
spinlock_lock-returns (suc (suc n)) sys lock h =
    ground (arith, spinlock_lock-returns (suc n) sys lock (omega arith))

-- Where `spinlock_try_lock` takes a free lock, `spinlock_unlock` by the same thread succeeds and
-- frees it, and before that any thread's `spinlock_try_lock` returns STATUS_MUTEX_LOCKED and any
-- other thread's `spinlock_unlock` returns STATUS_INVALID_THREAD, both without a change to the lock.
pub spinlock_unlock-spinlock_try_lock :
    (sys sys' : Sys) (lock : Spinlock)
    → lock.locked ≡ false
    → sys'.current_thread ≢ sys.current_thread
    → let (status, sys1, lock1) = spinlock_try_lock sys lock in
      (status ≡ Status.success)
      × (spinlock_unlock sys1 lock1 ≡ (Status.success, enable_preemption sys, free_lock))
      × (spinlock_try_lock sys' lock1 ≡ (Status.mutex_locked, enable_preemption sys', lock1))
      × (spinlock_unlock sys' lock1 ≡ (Status.invalid_thread, enable_preemption sys', lock1))
unfolding spinlock_unlock spinlock_try_lock
spinlock_unlock-spinlock_try_lock sys sys' lock f ne =
    let other : (sys.current_thread == sys'.current_thread) ≡ false = ground arith in
    rw (f, ==-true sys.current_thread sys.current_thread refl, other) (refl, refl, refl, refl)

-- When the owner of a mutex unlocks it and the first thread of the chain is blocking, the call
-- succeeds, the mutex is free, that thread leaves the chain and is running, no other thread changes
-- its status, and when it is the current thread its call of `mutex_try_lock` takes the mutex.
pub mutex_unlock-mutex_try_lock :
    (sys : Sys) (mtx : Mutex) (x : ℕ) (xs : List ℕ)
    → mtx.owner ≡ sys.current_thread
    → mtx.blocking_threads ≡ x ∷ xs
    → sys.status x ≡ ThreadStatus.blocking
    → let (status, sys1, mtx1) = mutex_unlock sys mtx in
      let (won, sys2, mtx2) = mutex_try_lock (record sys1 { current_thread = x }) mtx1 in
      (status ≡ Status.success)
      × (mtx1 ≡ record { locked = false; owner = 0; blocking_threads = xs })
      × (sys1.status x ≡ ThreadStatus.running)
      × ((u : ℕ) (ne : u ≢ x) → sys1.status u ≡ sys.status u)
      × (won ≡ Status.success)
      × (mtx2.owner ≡ x)
unfolding mutex_unlock mutex_try_lock unblock_status dequeue
mutex_unlock-mutex_try_lock sys mtx x xs o c b =
    rw (==-true mtx.owner sys.current_thread o, c)
      (refl, refl, ground arith, λ u ne. ground arith, refl, refl)
