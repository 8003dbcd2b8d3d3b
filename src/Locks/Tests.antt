-- ===== src/Locks/Tests.antt =====
-- Runs of the lock functions, and the theorems at concrete threads.
use emos.Base.{ℕ, ◌≡◌, ◌≢◌, refl, true, false, [], ◌∷◌, ◌==◌, if◌then◌else◌, arith, some}
use emos.Status.{Status}
use emos.Locks.{
  ThreadStatus, Sys, Mutex, update, enqueue, mutex_init, mutex_try_lock, spinlock_init,
}
use emos.Locks.Chain.{Links, IsQueue, add_blocking_thread, add_blocking_thread-enqueue}
use emos.Locks.Pairs.{free_lock}
use emos.Locks.World.{
  Pc, World, current, at, switch_to, disable_to, test_step, take_step, claim_step, block_step,
  release_step, free_step, Reach, IsStart, here, next, call_lock, disable, test_lock, take, claim,
  switch, call_unlock, release, free, mutual_exclusion,
}
use emos.Locks.Lost.{interrupted-sleeps}

abbrev all_run : ℕ → ThreadStatus
all_run t = ThreadStatus.running

abbrev sys1 : Sys
sys1 = record { current_thread = 1; preemption_enabled = true; status = all_run; interrupts = true }

abbrev sys2 : Sys
sys2 = record sys1 { current_thread = 2 }

abbrev free_mutex : Mutex
free_mutex = record { locked = false; owner = 0; blocking_threads = [] }

mutex_try_lock_test :
    mutex_try_lock sys2 (record { locked = true; owner = 1; blocking_threads = [] })
    ≡ (Status.mutex_locked, sys2, record { locked = true; owner = 1; blocking_threads = [] })
unfolding mutex_try_lock
mutex_try_lock_test = refl

-- The chain of old memory is still there after `mutex_init`.
mutex_init_test :
    mutex_init (record { locked = true; owner = 9; blocking_threads = 7 ∷ [] })
    ≡ (Status.success, record { locked = false; owner = 0; blocking_threads = 7 ∷ [] })
unfolding mutex_init
mutex_init_test = refl

spinlock_init_test :
    spinlock_init (record { locked = true; owner = 9 }) ≡ (Status.success, free_lock)
unfolding spinlock_init
spinlock_init_test = refl

abbrev start : World
start = record { sys = sys1; mutex = free_mutex; pc = λ t. Pc.outside }

start-IsStart : IsStart start
start-IsStart = record { free = refl; unowned = refl; real = ground arith; all_outside = λ t. refl }

-- Thread 1 locks the mutex, thread 2 finds it locked.
abbrev locked_by : World → World
locked_by w =
    claim_step (take_step (test_step Pc.blocking (disable_to (Pc.entered true) (at Pc.testing w))))

abbrev contended : World
contended =
    test_step Pc.blocking
      (disable_to (Pc.entered true) (at Pc.testing (switch_to 2 (locked_by start))))

Reach-contended : Reach start contended
unfolding test_step take_step claim_step
Reach-contended =
    let one : Reach start (locked_by start) =
      next
        (next (next (next (next here (call_lock start refl)) (disable _ refl)) (test_lock _ refl))
          (take _ refl))
        (claim _ refl) in
    next
      (next (next (next one (switch _ 2 refl (ground arith) refl)) (call_lock _ refl))
        (disable _ refl))
      (test_lock _ refl)

mutual_exclusion_example : contended.mutex.owner ≡ 1
unfolding test_step take_step claim_step
mutual_exclusion_example =
    mutual_exclusion contended.mutex.owner 1 start-IsStart Reach-contended refl refl

-- Thread 2 is switched off before it is queued, and thread 1 unlocks the mutex.
abbrev switched_off : World
switched_off = switch_to 1 (block_step contended)

abbrev released : World
released = free_step (release_step (disable_to Pc.unlocking switched_off))

Reach-released : Reach switched_off released
unfolding test_step take_step claim_step block_step release_step
Reach-released = next (next (next here (call_unlock _ refl)) (release _ refl)) (free _ refl)

interrupted-sleeps_example :
    (current released ≢ 2)
    × (released.sys.status 2 ≡ ThreadStatus.blocking)
    × (released.pc 2 ≡ Pc.queueing)
unfolding test_step take_step claim_step
interrupted-sleeps_example = interrupted-sleeps contended 1 refl (ground arith) Reach-released

abbrev two_links : Links
two_links = record { blocking_threads = 4; mutex_blocking_next = λ t. if t == 4 then 6 else 0 }

two_links-IsQueue : IsQueue two_links (4 ∷ 6 ∷ [])
two_links-IsQueue = record {
  chain = (refl, ground arith, (refl, ground arith, refl));
  distinct = (refl, (refl, tt));
}

add_blocking_thread-enqueue_example :
    (l' : Links) × (add_blocking_thread 2 5 two_links ≡ some l')
    × IsQueue l' (enqueue 5 (4 ∷ 6 ∷ []))
add_blocking_thread-enqueue_example =
    add_blocking_thread-enqueue 2 5 two_links (4 ∷ 6 ∷ []) two_links-IsQueue (ground arith)
      (omega arith)

-- Thread 1 has the mutex, and thread 2 waits for it.
abbrev asleep : Sys
asleep = record sys1 { status = update all_run 2 ThreadStatus.blocking }

abbrev waited_for : Mutex
waited_for = record { locked = true; owner = 1; blocking_threads = 2 ∷ [] }
