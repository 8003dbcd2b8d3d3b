-- ===== src/Scheduler/Wake.antt =====
-- `scheduler_maintain` of kernel/thread/scheduler.c, its first loop: threads that wait for others are
-- woken when all of these have finished. `wait_list` is the array of a thread, with its entries, of
-- which some may be NULL; no two threads share an array.
use emos.Base.{
  ℕ, zero, suc, ◌<◌, ◌≡◌, ◌≢◌, refl, Bool, true, false, List, [], ◌∷◌, Option, none, some, ◌==◌,
  if◌then◌else◌, ◌&&◌, arith, length, ◌∙◌, ap, Bool-cases, inl, inr,
}
use mathlib.Core.List.{Memᴰ}
use mathlib.Core.List.Memᴰ
use emos.Locks.{ThreadStatus, update, elem}
use emos.Locks.Chain.{IsChain, IsDistinct}
use emos.Scheduler.{is_finished}

pub record Waits : Type 0 where
  pub status : ℕ → ThreadStatus
  pub wait_list : ℕ → Option (List (Option ℕ))

abbrev pub is_waiting : ThreadStatus → Bool
is_waiting ThreadStatus.waiting = true
is_waiting _ = false

-- `unwait_thread` behind the loop over the array.
unfoldable pub unwait : (status : ℕ → ThreadStatus) → List (Option ℕ) → Bool
unwait status [] = true
unwait status (none ∷ l) = unwait status l
unwait status (some t ∷ l) = is_finished (status t) && unwait status l

-- The array behind the loop: NULL for the finished threads before the first that has not finished.
unfoldable pub cleared : (status : ℕ → ThreadStatus) → List (Option ℕ) → List (Option ℕ)
cleared status [] = []
cleared status (none ∷ l) = none ∷ cleared status l
cleared status (some t ∷ l) =
    let rest = cleared status l in if is_finished (status t) then none ∷ rest else some t ∷ l

-- The body of the loop behind its two tests.
abbrev pub wake_by : (current : ℕ) (l : List (Option ℕ)) → Waits → Waits
wake_by current l w =
    if unwait w.status l
    then record {
      status = update w.status current ThreadStatus.running;
      wait_list = update w.wait_list current none;
    }
    else record w { wait_list = update w.wait_list current (some (cleared w.status l)) }

abbrev pub wake_listed : (current : ℕ) → Option (List (Option ℕ)) → Waits → Waits
wake_listed current none w = w
wake_listed current (some l) w = wake_by current l w

unfoldable pub wake_one : (current : ℕ) → Waits → Waits
unfolding unwait cleared
wake_one current w =
    if is_waiting (w.status current) then wake_listed current (w.wait_list current) w else w

unfoldable pub wake_loop : (rounds : ℕ) (next : ℕ → ℕ) (current : ℕ) → Waits → Option Waits
unfolding wake_one
wake_loop zero next current w = none
wake_loop (suc n) next current w =
    let rest = wake_loop n next (next current) (wake_one current w) in
    if current == 0 then some w else rest

-- A thread that is to be woken.
abbrev listed_done : (status : ℕ → ThreadStatus) → Option (List (Option ℕ)) → Bool
listed_done status none = false
listed_done status (some l) = unwait status l

abbrev pub is_due : Waits → ℕ → Bool
is_due w x = is_waiting (w.status x) && listed_done w.status (w.wait_list x)

-- A change of status that leaves the finished threads leaves what is due.
unwait-congr :
    (f g : ℕ → ThreadStatus) (l : List (Option ℕ))
    → ((x : ℕ) → is_finished (f x) ≡ is_finished (g x))
    → unwait f l ≡ unwait g l
unfolding unwait
unwait-congr f g [] h = refl
unwait-congr f g (none ∷ l) h = unwait-congr f g l h
unwait-congr f g (some t ∷ l) h = rw (h t, unwait-congr f g l h) refl

listed_done-congr :
    (f g : ℕ → ThreadStatus) (o : Option (List (Option ℕ)))
    → ((x : ℕ) → is_finished (f x) ≡ is_finished (g x))
    → listed_done f o ≡ listed_done g o
listed_done-congr f g none h = refl
listed_done-congr f g (some l) h = unwait-congr f g l h

-- What one round does.
pub record Woken (current : ℕ) (w w' : Waits) : Type 0 where
  pub here :
      w'.status current ≡ (if is_due w current then ThreadStatus.running else w.status current)
  pub other : (x : ℕ) → x ≢ current → w'.status x ≡ w.status x
  pub lists : (x : ℕ) → x ≢ current → w'.wait_list x ≡ w.wait_list x

wake_by-Woken :
    (current : ℕ) (w : Waits) (l : List (Option ℕ)) (b : Bool)
    → unwait w.status l ≡ b
    → is_waiting (w.status current) ≡ true
    → w.wait_list current ≡ some l
    → Woken current w (wake_by current l w)
wake_by-Woken current w l true u e e' = rw u (record {
  here = rw (e, e', u) (ground arith);
  other = λ x n. ground arith;
  lists = λ x n. ground arith;
})
wake_by-Woken current w l false u e e' =
    rw u (record { here = rw (e, e', u) refl; other = λ x n. refl; lists = λ x n. ground arith })

wake_listed-Woken :
    (current : ℕ) (w : Waits) (b : Bool) (o : Option (List (Option ℕ)))
    → is_waiting (w.status current) ≡ b
    → w.wait_list current ≡ o
    → Woken current w (if b then wake_listed current o w else w)
wake_listed-Woken current w false o e e' = record {
  here = rw e refl;
  other = λ x n. refl;
  lists = λ x n. refl;
}
wake_listed-Woken current w true none e e' = record {
  here = rw (e, e') refl;
  other = λ x n. refl;
  lists = λ x n. refl;
}
wake_listed-Woken current w true (some l) e e' = wake_by-Woken current w l _ refl e e'

wake_one-Woken : (current : ℕ) (w : Waits) → Woken current w (wake_one current w)
unfolding wake_one
wake_one-Woken current w = wake_listed-Woken current w (is_waiting (w.status current)) _ refl refl

-- The finished threads stay the same, and so do the others that are due.
due-running :
    (s : ThreadStatus) (b : Bool)
    → is_finished (if is_waiting s && b then ThreadStatus.running else s) ≡ is_finished s
due-running ThreadStatus.waiting true = refl
due-running ThreadStatus.waiting false = refl
due-running ThreadStatus.pending b = refl
due-running ThreadStatus.running b = refl
due-running ThreadStatus.blocking b = refl
due-running ThreadStatus.finished b = refl

finished-Woken :
    (current : ℕ) (w w' : Waits)
    → Woken current w w'
    → (x : ℕ) → is_finished (w'.status x) ≡ is_finished (w.status x)
finished-Woken current w w' h x = elim (Bool-cases (x == current)) [
  | inl e ↦
      let same : x ≡ current = ground arith in rw (same, h.here) (due-running (w.status current) _)
  | inr e ↦ ap is_finished (h.other x (λ e'. ground arith))
]

due-Woken :
    (current : ℕ) (w w' : Waits)
    → Woken current w w'
    → (x : ℕ) → x ≢ current
    → is_due w' x ≡ is_due w x
due-Woken current w w' h x n =
    let same =
      listed_done-congr w'.status w.status (w.wait_list x) (finished-Woken current w w' h) in
    rw (h.other x n, h.lists x n, same) refl

-- The statuses after the rest of the list, and before it one round.
round-due :
    (t : ℕ) (ts : List ℕ) (w w1 w' : Waits)
    → Woken t w w1
    → elem t ts ≡ false
    → ((x : ℕ)
        → w'.status x ≡ (if elem x ts && is_due w1 x then ThreadStatus.running else w1.status x))
    → (x : ℕ)
    → w'.status x ≡ (if elem x (t ∷ ts) && is_due w x then ThreadStatus.running else w.status x)
round-due t ts w w1 w' h d k x = elim (Bool-cases (t == x)) [
  | inl e ↦
      let same : x ≡ t = ground arith in
      let first : (t == t) ≡ true = ground arith in k x ∙ rw (same, d, first) h.here
  | inr e ↦
      let n : x ≢ t = λ e'. ground arith in k x ∙ rw (due-Woken t w w1 h x n, h.other x n, e) refl
]

-- The statuses behind the loop, in the words of the loop.
wake_loop-status :
    (n : ℕ) (next : ℕ → ℕ) (p : ℕ) (ts : List ℕ) (w : Waits)
    → IsChain next p ts
    → IsDistinct ts
    → length ts < n
    → (w' : Waits) × (wake_loop n next p w ≡ some w')
      × ((x : ℕ)
          → w'.status x ≡ (if elem x ts && is_due w x then ThreadStatus.running else w.status x))
unfolding wake_loop
wake_loop-status zero next p ts w c d l = absurd (omega arith)
wake_loop-status (suc n) next p [] w c d l = (w, rw c refl, λ x. refl)
wake_loop-status (suc n) next p (t ∷ ts) w (e, nz, c) (d, ds) l =
    let (w', e', k) = wake_loop-status n next (next t) ts (wake_one t w) c ds (omega arith) in
    let on : (t == 0) ≡ false = ground arith in
    (w', rw (e, on) e', round-due t ts w (wake_one t w) w' (wake_one-Woken t w) d k)

-- A thread that waits with an array whose threads have all finished.
abbrev pub IsDue : Waits → ℕ → Type 0
IsDue w x =
    (w.status x ≡ ThreadStatus.waiting)
    × ((l : List (Option ℕ)) × (w.wait_list x ≡ some l)
        × ((t : ℕ) → Memᴰ (some t) l → w.status t ≡ ThreadStatus.finished))

finished_lem : (s : ThreadStatus) → is_finished s ≡ true → s ≡ ThreadStatus.finished
finished_lem ThreadStatus.finished h = refl
finished_lem ThreadStatus.pending h = absurd (ground arith)
finished_lem ThreadStatus.running h = absurd (ground arith)
finished_lem ThreadStatus.blocking h = absurd (ground arith)
finished_lem ThreadStatus.waiting h = absurd (ground arith)

waiting_lem : (s : ThreadStatus) → is_waiting s ≡ true → s ≡ ThreadStatus.waiting
waiting_lem ThreadStatus.waiting h = refl
waiting_lem ThreadStatus.pending h = absurd (ground arith)
waiting_lem ThreadStatus.running h = absurd (ground arith)
waiting_lem ThreadStatus.blocking h = absurd (ground arith)
waiting_lem ThreadStatus.finished h = absurd (ground arith)

unwait_sound :
    (status : ℕ → ThreadStatus) (l : List (Option ℕ))
    → unwait status l ≡ true
    → (t : ℕ) → Memᴰ (some t) l
    → status t ≡ ThreadStatus.finished
unfolding unwait
unwait_sound status [] h t (m) = absurd (Memᴰ.not-nil m)
unwait_sound status (none ∷ l) h t (Memᴰ.head e) = absurd (ground arith)
unwait_sound status (none ∷ l) h t (Memᴰ.tail m) = unwait_sound status l h t m
unwait_sound status (some u ∷ l) h t (Memᴰ.head e) =
    let same : t ≡ u = ground arith in finished_lem (status t) (rw same (ground arith))
unwait_sound status (some u ∷ l) h t (Memᴰ.tail m) = unwait_sound status l (ground arith) t m

unwait_complete :
    (status : ℕ → ThreadStatus) (l : List (Option ℕ))
    → ((t : ℕ) → Memᴰ (some t) l → status t ≡ ThreadStatus.finished)
    → unwait status l ≡ true
unfolding unwait
unwait_complete status [] h = refl
unwait_complete status (none ∷ l) h = unwait_complete status l (λ t m. h t (Memᴰ.tail m))
unwait_complete status (some u ∷ l) h =
    rw (h u (Memᴰ.head refl), unwait_complete status l (λ t m. h t (Memᴰ.tail m))) refl

listed-Due :
    (w : Waits) (x : ℕ) (o : Option (List (Option ℕ)))
    → w.wait_list x ≡ o
    → is_waiting (w.status x) && listed_done w.status o ≡ true
    → IsDue w x
listed-Due w x none e h = absurd (ground arith)
listed-Due w x (some l) e h =
    (waiting_lem _ (ground arith), (l, e, unwait_sound w.status l (ground arith)))

IsDue-is_due : (w : Waits) (x : ℕ) → IsDue w x → is_due w x ≡ true
IsDue-is_due w x (waits, (l, e, done)) = rw (waits, e, unwait_complete w.status l done) refl

-- On a list of distinct threads, with a round for each and one more, the first loop of
-- scheduler_maintain ends, and afterwards each thread of the list is running that was waiting with an
-- array all of whose threads had finished; every other status is as before.
pub wake_loop-IsDue :
    (n : ℕ) (next : ℕ → ℕ) (p : ℕ) (ts : List ℕ) (w : Waits)
    → IsChain next p ts
    → IsDistinct ts
    → length ts < n
    → (w' : Waits) × (wake_loop n next p w ≡ some w')
      × ((x : ℕ) → elem x ts ≡ true → IsDue w x → w'.status x ≡ ThreadStatus.running)
      × ((x : ℕ) → ¬ ((elem x ts ≡ true) × IsDue w x) → w'.status x ≡ w.status x)
wake_loop-IsDue n next p ts w c d l =
    let (w', e, k) = wake_loop-status n next p ts w c d l in
    (
      w',
      e,
      λ x listed due. k x ∙ rw (listed, IsDue-is_due w x due) refl,
      λ x other. k x ∙ elim (Bool-cases (elem x ts && is_due w x)) [
        | inl q ↦ absurd (other (ground arith, listed-Due w x _ refl (ground arith)))
        | inr q ↦ rw q refl
      ],
    )
