-- ===== src/Scheduler.antt =====
-- kernel/thread/scheduler.c: the list of threads from `first_thread` through the field `next`, and
-- the choice of the thread that runs next. A thread is the number of its object, and 0 is NULL.
pub mod Next
pub mod Remove
pub mod Wake
mod Tests
use emos.Base.{
  ℕ, zero, suc, Bool, true, false, Option, none, some, ◌==◌, if◌then◌else◌, ◌||◌, ◌&&◌, not,
}
use emos.Status.{Status}
use emos.Locks.{ThreadStatus, update}
use emos.Locks.World.{is_runnable}

pub record Threads : Type 0 where
  pub first_thread : ℕ
  pub current_thread : ℕ
  pub next : ℕ → ℕ
  pub status : ℕ → ThreadStatus

unfoldable pub add_thread : (th : ℕ) → Threads → Status × Threads
add_thread th s =
    (Status.success, record s { next = update s.next th s.first_thread; first_thread = th })

-- `next_thread = next_thread->next;` and the return to the front of the list
unfoldable pub successor : Threads → ℕ → ℕ
successor s th = if s.next th == 0 then s.first_thread else s.next th

-- The `do` loop of `scheduler_get_next_thread` behind the thread `th`, with the rounds that it has:
-- nothing where no round comes to a thread that is running or pending.
unfoldable pub next_loop : (rounds : ℕ) → Threads → (th : ℕ) → Option ℕ
unfolding successor
next_loop zero s th = none
next_loop (suc n) s th =
    let rest = next_loop n s (successor s th) in
    if is_runnable (s.status (successor s th)) then some (successor s th) else rest

unfoldable pub get_next_thread : (rounds : ℕ) → Threads → Option (Status × ℕ)
unfolding next_loop
get_next_thread rounds s = elim (next_loop rounds s s.current_thread) [
  | none ↦ none
  | some th ↦ some (Status.success, th)
]

unfoldable pub set_current_thread : (th : ℕ) → Threads → Status × Threads
set_current_thread th s = (Status.success, record s { current_thread = th })

-- The loop of `scheduler_has_other_runnable_thread` from the thread `th` on, with `result` so far.
unfoldable pub other_loop : (rounds : ℕ) → Threads → (th : ℕ) (result : Bool) → Option Bool
other_loop zero s th result = none
other_loop (suc n) s th result =
    let rest =
      other_loop n s (s.next th)
        (if th == s.current_thread then result else (is_runnable (s.status th) || result)) in
    if th == 0 then some result else rest

unfoldable pub has_other_runnable_thread : (rounds : ℕ) → Threads → Option Bool
unfolding other_loop
has_other_runnable_thread rounds s = other_loop rounds s s.first_thread false

abbrev pub is_finished : ThreadStatus → Bool
is_finished ThreadStatus.finished = true
is_finished _ = false

-- The loop of `scheduler_remove_thread` from the thread `current` on, which is not NULL: the links
-- behind it.
unfoldable pub unlink_loop : (rounds : ℕ) (next : ℕ → ℕ) (current th : ℕ) → Option (ℕ → ℕ)
unlink_loop zero next current th = none
unlink_loop (suc n) next current th =
    let rest = unlink_loop n next (next current) th in
    if next current == 0
    then some next
    else if th == next current
    then some (update next current (next th))
    else rest

unfoldable pub remove_thread : (rounds th : ℕ) → Threads → Option (Status × Threads)
unfolding unlink_loop
remove_thread rounds th s =
    if is_finished (s.status th)
    then elim (unlink_loop rounds s.next s.first_thread th) [
      | none ↦ none
      | some next' ↦ some (
        Status.success,
        record s {
          next = next';
          current_thread = if th == s.first_thread then s.next th else s.current_thread;
        },
      )
    ]
    else some (Status.thread_not_finished, s)
