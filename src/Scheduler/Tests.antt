-- ===== src/Scheduler/Tests.antt =====
-- Runs of the scheduler's functions, and the theorems at a list of three threads.
use emos.Base.{true, ℕ, ◌-◌, ◌≡◌, refl, [], ◌∷◌, ◌==◌, if◌then◌else◌, arith, none, some}
use emos.Status.{Status}
use emos.Locks.{ThreadStatus, elem}
use emos.Locks.Chain.{IsChain}
use emos.Scheduler.{Threads, add_thread, set_current_thread, get_next_thread, remove_thread}
use emos.Scheduler.Next.{
  IsSplit, first_runnable, get_next_thread-first_runnable, get_next_thread-none,
}
use emos.Scheduler.Wake.{Waits, wake_loop, IsDue, wake_loop-IsDue}
use emos.Scheduler.Remove.{remove_thread-IsChain}

-- 3 → 2 → 1
abbrev down : ℕ → ℕ
down t = t - 1

abbrev first_blocked : ℕ → ThreadStatus
first_blocked t = if t == 3 then ThreadStatus.blocking else ThreadStatus.pending

abbrev all_finished : ℕ → ThreadStatus
all_finished t = ThreadStatus.finished

abbrev three : Threads
three = record { first_thread = 3; current_thread = 1; next = down; status = first_blocked }

abbrev stopped : Threads
stopped = record { first_thread = 3; current_thread = 2; next = down; status = all_finished }

add_thread_test : (add_thread 4 three).1.next 4 ≡ 3
unfolding add_thread
add_thread_test = refl

set_current_thread_test : (set_current_thread 2 three).1.current_thread ≡ 2
unfolding set_current_thread
set_current_thread_test = refl

three-IsSplit : IsSplit three (3 ∷ 2 ∷ []) []
three-IsSplit = record {
  chain = (refl, ground arith, (refl, ground arith, (refl, ground arith, refl)));
}

get_next_thread-first_runnable_example : get_next_thread 3 three ≡ some (Status.success, 2)
unfolding first_runnable
get_next_thread-first_runnable_example =
    get_next_thread-first_runnable 3 three (3 ∷ 2 ∷ []) [] 2 three-IsSplit (omega arith) refl

stopped-IsSplit : IsSplit stopped (3 ∷ []) (1 ∷ [])
stopped-IsSplit = record {
  chain = (refl, ground arith, (refl, ground arith, (refl, ground arith, refl)));
}

get_next_thread-none_example : get_next_thread 100 stopped ≡ none
unfolding first_runnable
get_next_thread-none_example =
    get_next_thread-none 100 stopped (3 ∷ []) (1 ∷ []) stopped-IsSplit refl

remove_thread-IsChain_example :
    (s' : Threads) × (remove_thread 1 2 stopped ≡ some (Status.success, s'))
    × IsChain s'.next s'.first_thread (3 ∷ 1 ∷ [])
    × (s'.current_thread ≡ 2)
    × (s'.status ≡ all_finished)
remove_thread-IsChain_example =
    remove_thread-IsChain 1 2 stopped 3 [] (1 ∷ []) refl stopped-IsSplit.chain
      (refl, (refl, (refl, tt))) (omega arith)

-- 3 waits for 2, which has finished.
abbrev one_waits : Waits
one_waits = record {
  status = λ t.
      if t == 3
      then ThreadStatus.waiting
      else if t == 2
      then ThreadStatus.finished
      else ThreadStatus.pending;
  wait_list = λ t. if t == 3 then some (some 2 ∷ none ∷ []) else none;
}

wake_loop-IsDue_example :
    (w' : Waits) × (wake_loop 4 down 3 one_waits ≡ some w')
    × ((x : ℕ)
        → elem x (3 ∷ 2 ∷ 1 ∷ []) ≡ true
        → IsDue one_waits x
        → w'.status x ≡ ThreadStatus.running)
    × ((x : ℕ)
        → ¬ ((elem x (3 ∷ 2 ∷ 1 ∷ []) ≡ true) × IsDue one_waits x)
        → w'.status x ≡ one_waits.status x)
wake_loop-IsDue_example =
    wake_loop-IsDue 4 down 3 (3 ∷ 2 ∷ 1 ∷ []) one_waits three-IsSplit.chain
      (refl, (refl, (refl, tt))) (omega arith)
