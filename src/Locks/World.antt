-- ===== src/Locks/World.antt =====
-- Threads on one mutex of kernel/mutex/mutex.c, a step at a time, and mutual exclusion. A step is a
-- test of the mutex, an assignment to it or a change of the flag for preemption by the current thread,
-- or a switch: that of `pit_isr`, which comes at any point while preemption is enabled, or that of
-- `scheduler_yield`. `scheduler_get_next_thread` picks a thread that is running or pending; the model
-- lets it pick any of them. The code that changes the chain in `add_blocking_thread` can be
-- interrupted, so a step may also leave a torn chain. `unblock_blocking_thread` is one step with
-- `mtx->owner = NULL`, and `thread_enable_preemption` is one step with what is before it.
use emos.Base.{
  ℕ, ◌≡◌, ◌≢◌, ◌⊎◌, inl, inr, refl, subst, sym, ◌==◌, Bool, Bool-cases, true, false, List,
  if◌then◌else◌, arith,
}
use emos.Locks.{
  ThreadStatus, Sys, Mutex, update, elem, enqueue, dequeue, unblock_status, disable_preemption,
  enable_preemption,
}

-- Where a thread is, in `mutex_lock`, `mutex_try_lock` or `mutex_unlock`. Each assignment to the mutex
-- and each test of it is a step of its own, so only the flag for preemption keeps others out between.
-- `testing` is before thread_disable_preemption in mutex_lock; `entered` is behind it, in mutex_lock or
-- not, `taking` behind a test that found the mutex free, and `claiming` behind `mtx->locked = 1`;
-- `blocking`, `queueing` and `yielding` are before `th->status = TS_BLOCKING`, `add_blocking_thread` and
-- `scheduler_yield`; `inside` is behind a successful call; `retrying`, `unlocking` and `freeing` are in a
-- call of a thread that has the mutex, the last behind `mtx->locked = 0`, and `intruding` is in a call
-- of mutex_unlock of another thread.
pub data Pc : Type 0 where
  outside : Pc
  testing : Pc
  entered : (locks : Bool) → Pc
  taking : Pc
  claiming : Pc
  blocking : Pc
  queueing : Pc
  yielding : Pc
  inside : Pc
  retrying : Pc
  unlocking : Pc
  freeing : Pc
  intruding : Pc

-- The points where a thread has the mutex, and those with preemption disabled.
abbrev pub has : Pc → Bool
has Pc.inside = true
has Pc.retrying = true
has Pc.unlocking = true
has _ = false

abbrev pub critical : Pc → Bool
critical (Pc.entered locks) = true
critical Pc.taking = true
critical Pc.claiming = true
critical Pc.retrying = true
critical Pc.unlocking = true
critical Pc.freeing = true
critical Pc.intruding = true
critical _ = false

pub record World : Type 0 where
  pub sys : Sys
  pub mutex : Mutex
  pub pc : ℕ → Pc

abbrev pub current : World → ℕ
current w = w.sys.current_thread

-- The current thread goes on from `p`.
abbrev pub at : Pc → World → World
at p w = record w { pc = update w.pc (current w) p }

-- `switch_thread` to the thread `u`, whose status it makes running.
abbrev pub switch_to : ℕ → World → World
switch_to u w = record w {
  sys = record w.sys { current_thread = u; status = update w.sys.status u ThreadStatus.running };
}

abbrev pub is_runnable : ThreadStatus → Bool
is_runnable ThreadStatus.pending = true
is_runnable ThreadStatus.running = true
is_runnable _ = false

-- `thread_disable_preemption` and `thread_enable_preemption` on the way to `p`.
abbrev pub disable_to : Pc → World → World
disable_to p w = at p (record w { sys = disable_preemption w.sys })

abbrev pub enable_to : Pc → World → World
enable_to p w = at p (record w { sys = enable_preemption w.sys })

-- The test of `mtx->locked`, which goes to `p` where it is set.
unfoldable pub test_step : (p : Pc) → World → World
test_step p w = if w.mutex.locked then enable_to p w else at Pc.taking w

-- `mtx->locked = 1;`, then `mtx->owner = th;` with the end of the call.
unfoldable pub take_step : World → World
take_step w = at Pc.claiming (record w { mutex = record w.mutex { locked = true } })

unfoldable pub claim_step : World → World
claim_step w = enable_to Pc.inside (record w { mutex = record w.mutex { owner = current w } })

-- `th->status = TS_BLOCKING;`
unfoldable pub block_step : World → World
block_step w = at Pc.queueing (record w {
  sys = record w.sys { status = update w.sys.status (current w) ThreadStatus.blocking };
})

-- `add_blocking_thread(mtx, th);`
unfoldable pub queue_step : World → World
unfolding enqueue
queue_step w = at Pc.yielding (record w {
  mutex = record w.mutex { blocking_threads = enqueue (current w) w.mutex.blocking_threads };
})

-- The test of `mtx->owner` and `mtx->locked = 0;`.
unfoldable pub release_step : World → World
release_step w =
    if w.mutex.owner == current w
    then at Pc.freeing (record w { mutex = record w.mutex { locked = false } })
    else enable_to Pc.outside w

-- `mtx->owner = NULL;` with unblock_blocking_thread and the end of the call.
unfoldable pub free_step : World → World
unfolding unblock_status dequeue
free_step w =
    let q = w.mutex.blocking_threads in
    enable_to Pc.outside (record w {
      sys = record w.sys { status = unblock_status q w.sys.status };
      mutex = record w.mutex { owner = 0; blocking_threads = dequeue q };
    })

-- A thread that has the mutex does not call `mutex_lock`; any thread that is not in a call may call
-- the other two.
pub data Step : World → World → Type 0 where
  call_lock : (w : World) → w.pc (current w) ≡ Pc.outside → Step w (at Pc.testing w)
  disable : (w : World) → w.pc (current w) ≡ Pc.testing → Step w (disable_to (Pc.entered true) w)
  call_try : (w : World) → w.pc (current w) ≡ Pc.outside → Step w (disable_to (Pc.entered false) w)
  call_retry : (w : World) → w.pc (current w) ≡ Pc.inside → Step w (disable_to Pc.retrying w)
  test_lock : (w : World) → w.pc (current w) ≡ Pc.entered true → Step w (test_step Pc.blocking w)
  test_try : (w : World) → w.pc (current w) ≡ Pc.entered false → Step w (test_step Pc.outside w)
  test_retry : (w : World) → w.pc (current w) ≡ Pc.retrying → Step w (test_step Pc.inside w)
  take : (w : World) → w.pc (current w) ≡ Pc.taking → Step w (take_step w)
  claim : (w : World) → w.pc (current w) ≡ Pc.claiming → Step w (claim_step w)
  call_unlock : (w : World) → w.pc (current w) ≡ Pc.inside → Step w (disable_to Pc.unlocking w)
  call_intrude : (w : World) → w.pc (current w) ≡ Pc.outside → Step w (disable_to Pc.intruding w)
  release : (w : World) → w.pc (current w) ≡ Pc.unlocking → Step w (release_step w)
  refuse : (w : World) → w.pc (current w) ≡ Pc.intruding → Step w (release_step w)
  free : (w : World) → w.pc (current w) ≡ Pc.freeing → Step w (free_step w)
  block : (w : World) → w.pc (current w) ≡ Pc.blocking → Step w (block_step w)
  tear :
      (w : World) (q : List ℕ)
      → w.pc (current w) ≡ Pc.queueing
      → ((t : ℕ) → elem t q ≡ true → (elem t w.mutex.blocking_threads ≡ true) ⊎ (t ≡ current w))
      → Step w (record w { mutex = record w.mutex { blocking_threads = q } })
  queue : (w : World) → w.pc (current w) ≡ Pc.queueing → Step w (queue_step w)
  yield :
      (w : World) (u : ℕ)
      → w.pc (current w) ≡ Pc.yielding
      → w.sys.preemption_enabled ≡ true
      → u ≢ 0
      → is_runnable (w.sys.status u) ≡ true
      → Step w (switch_to u (at Pc.testing w))
  switch :
      (w : World) (u : ℕ)
      → w.sys.preemption_enabled ≡ true
      → u ≢ 0
      → is_runnable (w.sys.status u) ≡ true
      → Step w (switch_to u w)

pub data Reach (w : World) : World → Type 0 where
  here : Reach w w
  next : {v v' : World} → Reach w v → Step v v' → Reach w v'

-- No thread has begun with the mutex, which is free.
pub record IsStart (w : World) : Type 0 where
  pub free : w.mutex.locked ≡ false
  pub unowned : w.mutex.owner ≡ 0
  pub real : current w ≢ 0
  pub all_outside : (t : ℕ) → w.pc t ≡ Pc.outside

-- A thread that has the mutex is the owner that the locked mutex names, and only the current thread is
-- at a point with preemption disabled, while it is disabled.
pub record IsHeld (w : World) : Type 0 where
  pub real : current w ≢ 0
  pub owns : (t : ℕ) → has (w.pc t) ≡ true → (w.mutex.locked ≡ true) × (w.mutex.owner ≡ t)
  pub held :
      w.mutex.locked ≡ true → (has (w.pc w.mutex.owner) ≡ true) ⊎ (w.pc (current w) ≡ Pc.claiming)
  pub unheld :
      w.mutex.locked ≡ false
      → (w.mutex.owner ≡ 0) ⊎ ((w.mutex.owner ≡ current w) × (w.pc (current w) ≡ Pc.freeing))
  pub alone :
      (t : ℕ) → critical (w.pc t) ≡ true → (t ≡ current w) × (w.sys.preemption_enabled ≡ false)
  pub taking_free : w.pc (current w) ≡ Pc.taking → w.mutex.locked ≡ false
  pub claiming_new : w.pc (current w) ≡ Pc.claiming → (w.mutex.locked ≡ true) × (w.mutex.owner ≡ 0)
  pub claiming_only : w.pc (current w) ≡ Pc.claiming → (t : ℕ) → has (w.pc t) ≡ false
  pub freeing_free : w.pc (current w) ≡ Pc.freeing → w.mutex.locked ≡ false

start-IsHeld : {w : World} → IsStart w → IsHeld w
start-IsHeld {w} s = record {
  real = s.real;
  owns = λ t i. ground (arith, s.all_outside t);
  held = λ l. ground (arith, s.free);
  unheld = λ l. inl s.unowned;
  alone = λ t i. ground (arith, s.all_outside t);
  taking_free = λ i. s.free;
  claiming_new = λ i. ground (arith, s.all_outside (current w));
  claiming_only = λ i t. ground (arith, s.all_outside (current w));
  freeing_free = λ i. s.free;
}

-- The current thread goes on to a point that is none of the three in between, and keeps what it has.
moved :
    (w : World) (p : Pc) (sys : Sys) (q : List ℕ)
    → IsHeld w
    → has p ≡ has (w.pc (current w))
    → (p ≢ Pc.taking) × (p ≢ Pc.claiming) × (p ≢ Pc.freeing)
    → (w.pc (current w) ≢ Pc.claiming) × (w.pc (current w) ≢ Pc.freeing)
    → sys.current_thread ≢ 0
    → (critical p ≡ true → (sys.current_thread ≡ current w) × (sys.preemption_enabled ≡ false))
    → IsHeld (record {
      sys = sys;
      mutex = record w.mutex { blocking_threads = q };
      pc = update w.pc (current w) p;
    })
moved w p sys q h same points before r c = record {
  real = r;
  owns = λ t i. ground (arith, h.owns t, h.owns (current w), same);
  held = λ l. ground (arith, h.held, same, before);
  unheld = λ l. ground (arith, h.unheld, before);
  alone = λ t i. ground (arith, h.alone t, c);
  taking_free = λ i. ground (arith, h.alone sys.current_thread, points);
  claiming_new = λ i. ground (arith, h.alone sys.current_thread, points);
  claiming_only = λ i t. ground (arith, h.alone sys.current_thread, points);
  freeing_free = λ i. ground (arith, h.alone sys.current_thread, points);
}

taken :
    (w : World)
    → IsHeld w
    → critical (w.pc (current w)) ≡ true
    → w.pc (current w) ≢ Pc.freeing
    → w.mutex.locked ≡ false
    → IsHeld (at Pc.taking w)
taken w h c before e = record {
  real = h.real;
  owns = λ t i. ground (arith, h.owns t);
  held = λ l. ground (arith, e);
  unheld = λ l. ground (arith, h.unheld, before);
  alone = λ t i. ground (arith, h.alone t, h.alone (current w) c);
  taking_free = λ i. e;
  claiming_new = λ i. ground arith;
  claiming_only = λ i t. ground arith;
  freeing_free = λ i. e;
}

test_step-IsHeld :
    (p : Pc) (w : World)
    → IsHeld w
    → critical (w.pc (current w)) ≡ true
    → has p ≡ has (w.pc (current w))
    → critical p ≡ false
    → (w.pc (current w) ≢ Pc.claiming) × (w.pc (current w) ≢ Pc.freeing)
    → IsHeld (test_step p w)
unfolding test_step
test_step-IsHeld p w h c same off before = elim (Bool-cases w.mutex.locked) [
  | inl e ↦
      subst (λ b. IsHeld (if b then enable_to p w else at Pc.taking w)) (sym e)
        (moved w p _ _ h same (ground (arith, off), ground (arith, off), ground (arith, off)) before
          h.real (λ q. ground (arith, off)))
  | inr e ↦
      subst (λ b. IsHeld (if b then enable_to p w else at Pc.taking w)) (sym e)
        (taken w h c before.1 e)
]

take_step-IsHeld : (w : World) → w.pc (current w) ≡ Pc.taking → IsHeld w → IsHeld (take_step w)
unfolding take_step
take_step-IsHeld w a h = record {
  real = h.real;
  owns = λ t i. ground (arith, h.owns t, h.taking_free, a);
  held = λ l. inr (ground arith);
  unheld = λ l. ground arith;
  alone = λ t i. ground (arith, h.alone t, h.alone (current w), a);
  taking_free = λ i. ground arith;
  claiming_new = λ i. (refl, ground (arith, h.unheld, h.taking_free, a));
  claiming_only = λ i t. ground (arith, h.owns t, h.taking_free, a);
  freeing_free = λ i. ground arith;
}

claim_step-IsHeld : (w : World) → w.pc (current w) ≡ Pc.claiming → IsHeld w → IsHeld (claim_step w)
unfolding claim_step
claim_step-IsHeld w a h = record {
  real = h.real;
  owns = λ t i. ground (arith, h.claiming_only a t, h.claiming_new a);
  held = λ l. ground arith;
  unheld = λ l. ground (arith, h.claiming_new, a);
  alone = λ t i. ground (arith, h.alone t);
  taking_free = λ i. ground arith;
  claiming_new = λ i. ground arith;
  claiming_only = λ i t. ground arith;
  freeing_free = λ i. ground arith;
}

released :
    (w : World)
    → critical (w.pc (current w)) ≡ true
    → w.mutex.owner ≡ current w
    → IsHeld w
    → IsHeld (at Pc.freeing (record w { mutex = record w.mutex { locked = false } }))
released w c e h = record {
  real = h.real;
  owns = λ t i. ground (arith, h.owns t, e);
  held = λ l. ground arith;
  unheld = λ l. inr (e, ground arith);
  alone = λ t i. ground (arith, h.alone t, h.alone (current w) c);
  taking_free = λ i. ground arith;
  claiming_new = λ i. ground arith;
  claiming_only = λ i t. ground arith;
  freeing_free = λ i. refl;
}

release_step-IsHeld :
    (w : World)
    → (w.pc (current w) ≡ Pc.unlocking) ⊎ (w.pc (current w) ≡ Pc.intruding)
    → IsHeld w
    → IsHeld (release_step w)
unfolding release_step
release_step-IsHeld w a h = elim (Bool-cases (w.mutex.owner == current w)) [
  | inl e ↦ rw e (released w (ground (arith, a)) (ground arith) h)
  | inr e ↦ rw e (
      moved w Pc.outside _ _ h (ground (arith, a, h.owns (current w)))
        (ground arith, ground arith, ground arith) (ground (arith, a), ground (arith, a)) h.real
        (λ q. ground arith))
]

free_step-IsHeld : (w : World) → w.pc (current w) ≡ Pc.freeing → IsHeld w → IsHeld (free_step w)
unfolding free_step
free_step-IsHeld w a h = record {
  real = h.real;
  owns = λ t i. ground (arith, h.owns t, h.freeing_free, a);
  held = λ l. ground (arith, h.freeing_free, a);
  unheld = λ l. inl refl;
  alone = λ t i. ground (arith, h.alone t);
  taking_free = λ i. ground arith;
  claiming_new = λ i. ground arith;
  claiming_only = λ i t. ground arith;
  freeing_free = λ i. ground arith;
}

-- Another thread becomes the current one only while none is at a point with preemption disabled.
switched :
    (w : World) (u : ℕ)
    → IsHeld w
    → w.sys.preemption_enabled ≡ true
    → u ≢ 0
    → IsHeld (switch_to u w)
switched w u h p r = record {
  real = r;
  owns = h.owns;
  held = λ l. ground (arith, h.held, h.alone (current w), p);
  unheld = λ l. ground (arith, h.unheld, h.alone (current w), p);
  alone = λ t i. ground (arith, h.alone t, p);
  taking_free = λ i. ground (arith, h.alone u, p);
  claiming_new = λ i. ground (arith, h.alone u, p);
  claiming_only = λ i t. ground (arith, h.alone u, p);
  freeing_free = λ i. ground (arith, h.alone u, p);
}

-- A call begins or goes on, with the mutex as it is.
passed :
    (w : World) (p : Pc) (sys : Sys) (q : List ℕ) (from : Pc)
    → w.pc (current w) ≡ from
    → IsHeld w
    → has p ≡ has from
    → (p ≢ Pc.taking) × (p ≢ Pc.claiming) × (p ≢ Pc.freeing)
    → (from ≢ Pc.claiming) × (from ≢ Pc.freeing)
    → sys.current_thread ≡ current w
    → (critical p ≡ true → sys.preemption_enabled ≡ false)
    → IsHeld (record {
      sys = sys;
      mutex = record w.mutex { blocking_threads = q };
      pc = update w.pc (current w) p;
    })
passed w p sys q from a h same points before e c =
    moved w p sys q h (rw a same) points (rw a before) (ground (arith, e, h.real)) (λ k. (e, c k))

Step-IsHeld : {w w' : World} → Step w w' → IsHeld w → IsHeld w'
unfolding block_step queue_step
Step-IsHeld (call_lock w a) h =
    passed w _ _ _ _ a h refl (ground arith, ground arith, ground arith)
      (ground arith, ground arith) refl (λ k. ground arith)
Step-IsHeld (disable w a) h =
    passed w _ _ _ _ a h refl (ground arith, ground arith, ground arith)
      (ground arith, ground arith) refl (λ k. refl)
Step-IsHeld (call_try w a) h =
    passed w _ _ _ _ a h refl (ground arith, ground arith, ground arith)
      (ground arith, ground arith) refl (λ k. refl)
Step-IsHeld (call_retry w a) h =
    passed w _ _ _ _ a h refl (ground arith, ground arith, ground arith)
      (ground arith, ground arith) refl (λ k. refl)
Step-IsHeld (call_unlock w a) h =
    passed w _ _ _ _ a h refl (ground arith, ground arith, ground arith)
      (ground arith, ground arith) refl (λ k. refl)
Step-IsHeld (call_intrude w a) h =
    passed w _ _ _ _ a h refl (ground arith, ground arith, ground arith)
      (ground arith, ground arith) refl (λ k. refl)
Step-IsHeld (test_lock w a) h =
    test_step-IsHeld Pc.blocking w h (rw a refl) (rw a refl) refl
      (rw a (ground arith, ground arith))
Step-IsHeld (test_try w a) h =
    test_step-IsHeld Pc.outside w h (rw a refl) (rw a refl) refl (rw a (ground arith, ground arith))
Step-IsHeld (test_retry w a) h =
    test_step-IsHeld Pc.inside w h (rw a refl) (rw a refl) refl (rw a (ground arith, ground arith))
Step-IsHeld (take w a) h = take_step-IsHeld w a h
Step-IsHeld (claim w a) h = claim_step-IsHeld w a h
Step-IsHeld (release w a) h = release_step-IsHeld w (inl a) h
Step-IsHeld (refuse w a) h = release_step-IsHeld w (inr a) h
Step-IsHeld (free w a) h = free_step-IsHeld w a h
Step-IsHeld (block w a) h =
    passed w _ _ _ _ a h refl (ground arith, ground arith, ground arith)
      (ground arith, ground arith) refl (λ k. ground arith)
Step-IsHeld (tear w q a b) h = record {
  real = h.real;
  owns = h.owns;
  held = h.held;
  unheld = h.unheld;
  alone = h.alone;
  taking_free = h.taking_free;
  claiming_new = h.claiming_new;
  claiming_only = h.claiming_only;
  freeing_free = h.freeing_free;
}
Step-IsHeld (queue w a) h =
    passed w _ _ _ _ a h refl (ground arith, ground arith, ground arith)
      (ground arith, ground arith) refl (λ k. ground arith)
Step-IsHeld (yield w u a p r s) h =
    moved w _ _ _ h (rw a refl) (ground arith, ground arith, ground arith)
      (rw a (ground arith, ground arith)) r (λ k. ground arith)
Step-IsHeld (switch w u p r s) h = switched w u h p r

Reach-IsHeld : {w w' : World} → Reach w w' → IsStart w → IsHeld w'
Reach-IsHeld here s = start-IsHeld s
Reach-IsHeld (next r step) s = Step-IsHeld step (Reach-IsHeld r s)

-- In every world that is reached from one where the mutex is free and no thread is in a call or has
-- it, two threads that have come back from a successful call and have not unlocked the mutex since
-- are the same thread. A switch by the timer may come between any two of the assignments and tests
-- of the calls, but only while preemption is enabled.
pub mutual_exclusion :
    {w w' : World} (t u : ℕ)
    → IsStart w
    → Reach w w'
    → w'.pc t ≡ Pc.inside
    → w'.pc u ≡ Pc.inside
    → t ≡ u
mutual_exclusion {w' = w'} t u s r i j =
    let h : IsHeld w' = Reach-IsHeld r s in ground (arith, h.owns t, h.owns u, i, j)
