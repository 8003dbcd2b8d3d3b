-- ===== src/Locks.antt =====
-- kernel/mutex/mutex.c and kernel/mutex/spinlock.c, with the parts of kernel/thread/thread.c and
-- kernel/thread/scheduler.c that they call. A thread is the number of its object, and 0 is NULL.
-- `scheduler_get_current_thread` always succeeds, so the branches on its status are left out.
pub mod Chain
pub mod Pairs
pub mod World
pub mod Lost
mod Tests
use emos.Base.{
  ℕ, zero, suc, Bool, true, false, Option, none, some, List, [], ◌∷◌, ◌++◌, ◌==◌, if◌then◌else◌,
  ◌||◌,
}
use emos.Status.{Status}

-- TS_PENDING to TS_FINISHED
pub data ThreadStatus : Type 0 where
  pending : ThreadStatus
  running : ThreadStatus
  blocking : ThreadStatus
  waiting : ThreadStatus
  finished : ThreadStatus

-- current_thread, preemption_enabled, the `status` of every thread, and the interrupt flag of the
-- processor
pub record Sys : Type 0 where
  pub current_thread : ℕ
  pub preemption_enabled : Bool
  pub status : ℕ → ThreadStatus
  pub interrupts : Bool

-- `struct mutex`; `blocking_threads` is the chain through `mutex_blocking_next`, which Chain.antt
-- has with its pointers.
pub record Mutex : Type 0 where
  pub locked : Bool
  pub owner : ℕ
  pub blocking_threads : List ℕ

-- `struct spinlock`
pub record Spinlock : Type 0 where
  pub locked : Bool
  pub owner : ℕ

-- A function changed at one thread.
abbrev pub update {ℓ} : {A : Type ℓ} → (ℕ → A) → ℕ → A → ℕ → A
update f t x u = if u == t then x else f u

abbrev pub disable_preemption : Sys → Sys
disable_preemption sys = record sys { preemption_enabled = false }

abbrev pub enable_preemption : Sys → Sys
enable_preemption sys = record sys { preemption_enabled = true }

abbrev pub is_blocking : ThreadStatus → Bool
is_blocking ThreadStatus.blocking = true
is_blocking _ = false

-- `if (th->status == TS_BLOCKING) th->status = TS_RUNNING;`
abbrev pub woken : ThreadStatus → ThreadStatus
woken s = if is_blocking s then ThreadStatus.running else s

abbrev pub elem : ℕ → List ℕ → Bool
elem t [] = false
elem t (x ∷ xs) = x == t || elem t xs

-- What `add_blocking_thread` makes of the chain: the thread is appended where it is not in it.
unfoldable pub enqueue : ℕ → List ℕ → List ℕ
enqueue t xs = if elem t xs then xs else xs ++ t ∷ []

-- The chain and the status of its head after `unblock_blocking_thread`.
unfoldable pub unblock_status : List ℕ → (ℕ → ThreadStatus) → ℕ → ThreadStatus
unblock_status [] status = status
unblock_status (x ∷ xs) status = update status x (woken (status x))

unfoldable pub dequeue : List ℕ → List ℕ
dequeue [] = []
dequeue (x ∷ xs) = xs

-- `mutex_init` of the memory `mtx`, whose chain it leaves as it is.
unfoldable pub mutex_init : Mutex → Status × Mutex
mutex_init mtx = (Status.success, record mtx { locked = false; owner = 0 })

unfoldable pub spinlock_init : Spinlock → Status × Spinlock
spinlock_init lock = (Status.success, record { locked = false; owner = 0 })

unfoldable pub mutex_try_lock : Sys → Mutex → Status × Sys × Mutex
mutex_try_lock sys mtx =
    let sys1 : Sys = disable_preemption sys in
    if mtx.locked then (Status.mutex_locked, enable_preemption sys1, mtx) else (
      Status.success,
      enable_preemption sys1,
      record mtx { locked = true; owner = sys1.current_thread },
    )

unfoldable pub mutex_unlock : Sys → Mutex → Status × Sys × Mutex
unfolding unblock_status dequeue
mutex_unlock sys mtx =
    let sys1 : Sys = disable_preemption sys in
    if mtx.owner == sys.current_thread
    then (
      Status.success,
      enable_preemption (record sys1 { status = unblock_status mtx.blocking_threads sys1.status }),
      record { locked = false; owner = 0; blocking_threads = dequeue mtx.blocking_threads },
    )
    else (Status.invalid_thread, enable_preemption sys1, mtx)

-- `spinlock_lock`, which tests the lock `rounds` times at most: nothing where every test fails.
unfoldable pub spin_loop : (rounds : ℕ) → Sys → Spinlock → Option (Status × Sys × Spinlock)
spin_loop zero sys lock = none
spin_loop (suc n) sys lock =
    let rest = spin_loop n sys lock in
    if lock.locked
    then rest
    else some (
      Status.success,
      enable_preemption sys,
      record { locked = true; owner = sys.current_thread },
    )

unfoldable pub spinlock_lock : (rounds : ℕ) → Sys → Spinlock → Option (Status × Sys × Spinlock)
unfolding spin_loop
spinlock_lock rounds sys lock = spin_loop rounds (disable_preemption sys) lock

unfoldable pub spinlock_try_lock : Sys → Spinlock → Status × Sys × Spinlock
spinlock_try_lock sys lock =
    let sys1 : Sys = disable_preemption sys in
    if lock.locked then (Status.mutex_locked, enable_preemption sys1, lock) else (
      Status.success,
      enable_preemption sys1,
      record { locked = true; owner = sys1.current_thread },
    )

unfoldable pub spinlock_unlock : Sys → Spinlock → Status × Sys × Spinlock
spinlock_unlock sys lock =
    let sys1 : Sys = disable_preemption sys in
    if lock.owner == sys.current_thread
    then (Status.success, enable_preemption sys1, record { locked = false; owner = 0 })
    else (Status.invalid_thread, enable_preemption sys1, lock)

-- `interrupt_restore`; `interrupt_disable` and `interrupt_save` are a write and a read of the flag.
abbrev pub interrupt_restore : Bool → Sys → Sys
interrupt_restore irqstate sys = record sys { interrupts = irqstate }

-- The status, what `*irqstate` is set to, and the new state.
unfoldable pub spinlock_try_lock_irqsave : Sys → Spinlock → Status × Bool × Sys × Spinlock
spinlock_try_lock_irqsave sys lock =
    let irqstate : Bool = sys.interrupts in
    let sys1 : Sys = record sys { interrupts = false } in
    if lock.locked
    then (Status.mutex_locked, irqstate, interrupt_restore irqstate sys1, lock)
    else (Status.success, irqstate, sys1, record { locked = true; owner = sys1.current_thread })

unfoldable pub spinlock_unlock_irqrestore : Bool → Sys → Spinlock → Status × Sys × Spinlock
spinlock_unlock_irqrestore irqstate sys lock =
    if lock.owner == sys.current_thread
    then (Status.success, interrupt_restore irqstate sys, record { locked = false; owner = 0 })
    else (Status.invalid_thread, interrupt_restore irqstate sys, lock)
