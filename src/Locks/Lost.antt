-- ===== src/Locks/Lost.antt =====
-- What happens to a thread that is switched off between `th->status = TS_BLOCKING` and
-- `add_blocking_thread` of `mutex_lock`: it is not in the chain, so no `mutex_unlock` wakes it, and
-- the scheduler never runs it to put it there.
use emos.Base.{ℕ, ◌≡◌, ◌≢◌, refl, Bool, true, false, if◌then◌else◌, List, [], ◌∷◌, arith}
use emos.Locks.{ThreadStatus, update, elem, enqueue, dequeue, unblock_status}
use emos.Locks.Chain.{elem-append}
use emos.Locks.World.{
  Pc, World, current, switch_to, test_step, take_step, claim_step, block_step, queue_step,
  release_step, free_step, Step, Reach, here, next, call_lock, disable, call_try, call_retry,
  test_lock, test_try, test_retry, take, claim, call_unlock, call_intrude, release, refuse, free,
  block, tear, queue, yield, switch,
}

-- A thread that sleeps and that no chain holds.
pub record IsLost (t : ℕ) (w : World) : Type 0 where
  pub asleep : w.sys.status t ≡ ThreadStatus.blocking
  pub unlisted : elem t w.mutex.blocking_threads ≡ false
  pub off : current w ≢ t
  pub stays : w.pc t ≡ Pc.queueing

elem-dequeue : (t : ℕ) (xs : List ℕ) → elem t xs ≡ false → elem t (dequeue xs) ≡ false
unfolding dequeue
elem-dequeue t [] e = e
elem-dequeue t (x ∷ xs) e = ground arith

unblock-other :
    (t : ℕ) (xs : List ℕ) (status : ℕ → ThreadStatus)
    → elem t xs ≡ false
    → unblock_status xs status t ≡ status t
unfolding unblock_status
unblock-other t [] status e = refl
unblock-other t (x ∷ xs) status e = ground arith

-- A step of the current thread that leaves the statuses and the chain.
Step-IsLost-at :
    (t : ℕ) (w w' : World) (p : Pc)
    → w'.sys.status ≡ w.sys.status
    → w'.mutex.blocking_threads ≡ w.mutex.blocking_threads
    → current w' ≡ current w
    → w'.pc ≡ update w.pc (current w) p
    → IsLost t w
    → IsLost t w'
Step-IsLost-at t w w' p s q c e l = record {
  asleep = rw s l.asleep;
  unlisted = rw q l.unlisted;
  off = rw c l.off;
  stays = rw e (ground (arith, l.stays, l.off));
}

-- A test of the current thread, with the two points that it goes to.
branch-IsLost :
    (t : ℕ) (w : World) (b : Bool) (v v' : World)
    → IsLost t v
    → IsLost t v'
    → IsLost t (if b then v else v')
branch-IsLost t w true v v' l l' = l
branch-IsLost t w false v v' l l' = l'

test_step-IsLost : (t : ℕ) (p : Pc) (w : World) → IsLost t w → IsLost t (test_step p w)
unfolding test_step
test_step-IsLost t p w l =
    branch-IsLost t w _ _ _ (Step-IsLost-at t w _ p refl refl refl refl l)
      (Step-IsLost-at t w _ Pc.taking refl refl refl refl l)

release_step-IsLost : (t : ℕ) (w : World) → IsLost t w → IsLost t (release_step w)
unfolding release_step
release_step-IsLost t w l =
    branch-IsLost t w _ _ _ (Step-IsLost-at t w _ Pc.freeing refl refl refl refl l)
      (Step-IsLost-at t w _ Pc.outside refl refl refl refl l)

Step-IsLost : {w w' : World} (t : ℕ) → Step w w' → IsLost t w → IsLost t w'
unfolding block_step queue_step take_step claim_step free_step enqueue
Step-IsLost t (call_lock w a) l = Step-IsLost-at t w _ _ refl refl refl refl l
Step-IsLost t (disable w a) l = Step-IsLost-at t w _ _ refl refl refl refl l
Step-IsLost t (call_try w a) l = Step-IsLost-at t w _ _ refl refl refl refl l
Step-IsLost t (call_retry w a) l = Step-IsLost-at t w _ _ refl refl refl refl l
Step-IsLost t (call_unlock w a) l = Step-IsLost-at t w _ _ refl refl refl refl l
Step-IsLost t (call_intrude w a) l = Step-IsLost-at t w _ _ refl refl refl refl l
Step-IsLost t (test_lock w a) l = test_step-IsLost t Pc.blocking w l
Step-IsLost t (test_try w a) l = test_step-IsLost t Pc.outside w l
Step-IsLost t (test_retry w a) l = test_step-IsLost t Pc.inside w l
Step-IsLost t (take w a) l = Step-IsLost-at t w _ _ refl refl refl refl l
Step-IsLost t (claim w a) l = Step-IsLost-at t w _ _ refl refl refl refl l
Step-IsLost t (release w a) l = release_step-IsLost t w l
Step-IsLost t (refuse w a) l = release_step-IsLost t w l
Step-IsLost t (free w a) l = record {
  asleep =
      ground (arith, l.asleep, unblock-other t w.mutex.blocking_threads w.sys.status l.unlisted);
  unlisted = ground (arith, l.unlisted, elem-dequeue t w.mutex.blocking_threads);
  off = ground (arith, l.off);
  stays = ground (arith, l.stays, l.off);
}
Step-IsLost t (block w a) l = record {
  asleep = ground (arith, l.asleep, l.off);
  unlisted = l.unlisted;
  off = l.off;
  stays = ground (arith, l.stays, l.off);
}
Step-IsLost t (tear w q a b) l = record {
  asleep = l.asleep;
  unlisted = ground (arith, b t, l.unlisted, l.off);
  off = l.off;
  stays = ground (arith, l.stays, l.off);
}
Step-IsLost t (queue w a) l = record {
  asleep = l.asleep;
  unlisted = ground (arith, elem-append t (current w) w.mutex.blocking_threads l.off, l.unlisted);
  off = l.off;
  stays = ground (arith, l.stays, l.off);
}
Step-IsLost t (yield w u a p r s) l = record {
  asleep = ground (arith, l.asleep);
  unlisted = l.unlisted;
  off = ground (arith, l.asleep);
  stays = ground (arith, l.stays, l.off);
}
Step-IsLost t (switch w u p r s) l = record {
  asleep = ground (arith, l.asleep);
  unlisted = l.unlisted;
  off = ground (arith, l.asleep);
  stays = ground (arith, l.stays, l.off);
}

Reach-IsLost : {w w' : World} (t : ℕ) → Reach w w' → IsLost t w → IsLost t w'
Reach-IsLost t here l = l
Reach-IsLost t (next r step) l = Step-IsLost t step (Reach-IsLost t r l)

-- A thread that is not in the chain, comes to `th->status = TS_BLOCKING` in `mutex_lock`, and is
-- switched off right behind it for another runnable thread, sleeps in every world that is reached
-- from there: it is never the current thread again and stays before `add_blocking_thread`.
pub interrupted-sleeps :
    {w' : World} (w : World) (u : ℕ)
    → elem (current w) w.mutex.blocking_threads ≡ false
    → u ≢ current w
    → Reach (switch_to u (block_step w)) w'
    → (current w' ≢ current w)
      × (w'.sys.status (current w) ≡ ThreadStatus.blocking)
      × (w'.pc (current w) ≡ Pc.queueing)
unfolding block_step
interrupted-sleeps {w' = w'} w u e ne r =
    let l : IsLost (current w) w' =
      Reach-IsLost (current w) r
        (record { asleep = ground arith; unlisted = e; off = ne; stays = ground arith }) in
    (l.off, l.asleep, l.stays)
