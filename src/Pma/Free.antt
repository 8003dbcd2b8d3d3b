-- ===== src/Pma/Free.antt =====
-- mm_pma_free_frame: it undoes an allocation, and panics at anything that is not one.
use emos.Base.{
  ℕ, zero, suc, ◌+◌, ◌-◌, ◌^◌, ◌≤◌, ◌<◌, ◌≡◌, refl, sym, ap, ◌∙◌, Bool, true, false, arith, ◌==◌,
  if◌then◌else◌, inl, inr, Option, some, ==-false, ◌≢◌, dec_le, Bool-cases, ℕ_discrete,
}
use emos.Status.{Status}
use emos.Run.{Run, ok, panic}
use emos.Pma.Packed.{cell, written, pbm_free, pbm_allocated, pbm_get-ok}
use emos.Pma.Valid.{
  IsValid, Becomes, Becomes-trans, Becomes-refl, write-Becomes, write_lem, within, counters-le,
}
use emos.Pma.{Pma, give_step, give_loop, allocate_frame, free_frame, add32, sub32, outside_window}
use emos.Pma.Allocate.{Allocated, Grants, Refuses, allocate_frame-first-fit}
use mathlib.Core.Path.{subst₂}
use mathlib.Core.Bool.{false≢true}

give_step-ok :
    {st : Pma} (i : ℕ) (v : IsValid st) (l : i < st.frame_desc_count)
    → cell st.bitmap i ≡ pbm_allocated
    → give_step i st
      ≡ ok (record st {
        bitmap = written st.bitmap i pbm_free;
        free_frames = add32 st.free_frames 1;
      })
unfolding give_step
give_step-ok {st} i v l e = rw (
  pbm_get-ok st.bitmap i (omega (arith, v.room)),
  e,
  (write_lem v i pbm_free l (omega arith)).runs,
)

give_step-panic :
    {st : Pma} (i : ℕ)
    → IsValid st
    → i < st.frame_desc_count
    → cell st.bitmap i ≢ pbm_allocated
    → give_step i st ≡ panic Status.conflicting_state
unfolding give_step
give_step-panic {st} i v l ne =
    rw
      (pbm_get-ok st.bitmap i (omega (arith, v.room)), ==-false (cell st.bitmap i) pbm_allocated ne)

-- The state after one round on an allocated frame.
give_step-Becomes :
    {st : Pma} (i : ℕ) (v : IsValid st) (l : i < st.frame_desc_count)
    → cell st.bitmap i ≡ pbm_allocated
    → Becomes st
        (record st { bitmap = written st.bitmap i pbm_free; free_frames = add32 st.free_frames 1 })
        (λ j. if i == j then pbm_free else cell st.bitmap j)
give_step-Becomes {st} i v l e =
    write-Becomes v i pbm_free l (omega arith) st.available_frames (add32 st.free_frames 1)
      (ground (arith, e, counters-le v)) (ground (arith, e))

-- Every frame of the run is allocated.
abbrev pub AllAllocated : Pma → (i n : ℕ) → Type 0
AllAllocated st i n = (j : ℕ) → i ≤ j → j < i + n → cell st.bitmap j ≡ pbm_allocated

pub record Given (st : Pma) (i n : ℕ) (st' : Pma) : Type 0 where
  pub becomes : Becomes st st' (λ j. if within i n j then pbm_free else cell st.bitmap j)
  pub given : st'.free_frames ≡ st.free_frames + n
  pub same_available : st'.available_frames ≡ st.available_frames

give_loop-Given :
    (n i : ℕ) {st : Pma}
    → IsValid st
    → i + n ≤ st.frame_desc_count
    → AllAllocated st i n
    → (st' : Pma) × (give_loop n i st ≡ ok st') × Given st i n st'
unfolding give_loop
give_loop-Given zero i {st} v l f = (
  st,
  refl,
  record {
    becomes = Becomes-refl v _ (λ j. ground arith);
    given = omega arith;
    same_available = refl;
  },
)
give_loop-Given (suc n) i {st} v l f =
    let l' : i < st.frame_desc_count = omega arith in
    let now : cell st.bitmap i ≡ pbm_allocated = f i (omega arith) (omega arith) in
    let st1 : Pma = record st {
      bitmap = written st.bitmap i pbm_free;
      free_frames = add32 st.free_frames 1;
    } in
    let b1 : Becomes st st1 (λ j. if i == j then pbm_free else cell st.bitmap j) =
      give_step-Becomes i v l' now in
    let (st2, e2, g) =
      give_loop-Given n (i + 1) {st = st1} b1.valid (omega arith)
        (λ j p q. ground (arith, b1.cells j, f j (omega arith) (omega arith))) in
    (
      st2,
      rw (give_step-ok i v l' now) e2,
      record {
        becomes = Becomes-trans b1 g.becomes (λ j. ground (arith, b1.cells j));
        given = omega (arith, g.given, counters-le v);
        same_available = g.same_available;
      },
    )

-- A frame of the run that is not allocated stops the loop.
give_loop-panic :
    (n i : ℕ) {st : Pma} (j : ℕ)
    → IsValid st
    → i + n ≤ st.frame_desc_count
    → i ≤ j
    → j < i + n
    → cell st.bitmap j ≢ pbm_allocated
    → give_loop n i st ≡ panic Status.conflicting_state
unfolding give_loop
give_loop-panic zero i j v l p q ne = absurd (omega arith)
give_loop-panic (suc n) i {st} j v l p q ne = elim (ℕ_discrete (cell st.bitmap i) pbm_allocated) [
  | no h ↦ rw (give_step-panic i v (omega arith) h)
  | yes now ↦
      let l' : i < st.frame_desc_count = omega arith in
      let st1 : Pma = record st {
        bitmap = written st.bitmap i pbm_free;
        free_frames = add32 st.free_frames 1;
      } in
      let b1 : Becomes st st1 (λ j. if i == j then pbm_free else cell st.bitmap j) =
        give_step-Becomes i v l' now in
      let other : i ≢ j = λ e. ne (rw (← e) now) in
      rw (give_step-ok i v l' now) (
        give_loop-panic n (i + 1) {st = st1} j b1.valid (omega arith) (omega arith) (omega arith)
          (λ h. ne (ground (arith, b1.cells j))))
]

-- The `n` frames from `pfn` on lie in the window and are allocated.
pub record InUse (st : Pma) (pfn n : ℕ) : Type 0 where
  pub above : st.base_pfn ≤ pfn
  pub below : pfn + n ≤ st.limit_pfn + 1
  pub all : AllAllocated st (pfn - st.base_pfn) n

-- What is not in use: a run that leaves the window, or one with a frame that is not allocated.
pub data NotInUse (st : Pma) (pfn n : ℕ) : Type 0 where
  before : pfn < st.base_pfn → NotInUse st pfn n
  after : st.limit_pfn + 1 < pfn + n → NotInUse st pfn n
  loose :
      (j : ℕ)
      → st.base_pfn + j < pfn + n
      → pfn ≤ st.base_pfn + j
      → cell st.bitmap j ≢ pbm_allocated
      → NotInUse st pfn n

inside_window :
    {st : Pma} (pfn n : ℕ)
    → IsValid st
    → st.base_pfn ≤ pfn
    → pfn + n ≤ st.limit_pfn + 1
    → free_frame pfn n st ≡ give_loop n (pfn - st.base_pfn) st
unfolding free_frame
inside_window {st} pfn n v a b =
    let start : sub32 pfn st.base_pfn ≡ pfn - st.base_pfn = omega (arith, v.small, v.window) in
    let rounds : add32 (pfn - st.base_pfn) n - (pfn - st.base_pfn) ≡ n =
      omega (arith, v.small, v.window) in
    let guard : outside_window pfn n st ≡ false = ground (arith, v.small) in
    rw (guard, start, rounds)

-- For a valid allocator, freeing a run of allocated frames of its window makes exactly these frames
-- free, counts them, and leaves the count of available frames as it is.
pub free_frame-Given :
    {st : Pma} (pfn n : ℕ)
    → IsValid st
    → InUse st pfn n
    → (st' : Pma) × (free_frame pfn n st ≡ ok st') × Given st (pfn - st.base_pfn) n st'
free_frame-Given {st} pfn n v u =
    rw (inside_window pfn n v u.above u.below)
      (give_loop-Given n (pfn - st.base_pfn) v (omega (arith, v.window, u.above, u.below)) u.all)

-- For a valid allocator and a run whose end does not pass 2 ^ 32, freeing panics with
-- STATUS_CONFLICTING_STATE when the run leaves the window or has a frame that is not allocated.
pub free_frame-panic :
    {st : Pma} (pfn n : ℕ)
    → IsValid st
    → pfn + n < 2 ^ 32
    → NotInUse st pfn n
    → free_frame pfn n st ≡ panic Status.conflicting_state
unfolding free_frame
free_frame-panic pfn n v w (before h) = ground (arith, v.small)
free_frame-panic pfn n v w (after h) = ground (arith, v.small)
free_frame-panic {st} pfn n v w (loose j a b ne) = elim (dec_le (st.base_pfn) pfn) [
  | no h ↦ ground (arith, v.small)
  | yes h ↦ elim (dec_le (pfn + n) (st.limit_pfn + 1)) [
    | no k ↦ ground (arith, v.small)
    | yes k ↦
        inside_window pfn n v h k
        ∙ give_loop-panic n (pfn - st.base_pfn) j v (omega (arith, v.window)) (omega arith)
            (omega arith) ne
  ]
]

-- For a valid allocator and a positive `n`, a run of allocated frames that is freed cannot be freed
-- again: the second call panics with STATUS_CONFLICTING_STATE.
pub free_frame-free_frame :
    {st : Pma} (pfn n : ℕ)
    → IsValid st
    → 0 < n
    → InUse st pfn n
    → (st' : Pma) × (free_frame pfn n st ≡ ok st')
      × (free_frame pfn n st' ≡ panic Status.conflicting_state)
free_frame-free_frame {st} pfn n v pos u =
    let (st', e, g) = free_frame-Given pfn n v u in
    let b = g.becomes in
    (
      st',
      e,
      free_frame-panic pfn n b.valid (omega (arith, u.below, v.small)) (
          loose (pfn - st.base_pfn) (omega (arith, u.above, b.same_base))
            (omega (arith, u.above, b.same_base)) (ground (arith, b.cells (pfn - st.base_pfn)))),
    )

-- The state after an allocation and the freeing of what it granted: every descriptor and both
-- counters are what they were.
pub record Restored (st st' : Pma) : Type 0 where
  pub valid : IsValid st'
  pub cells : (j : ℕ) → cell st'.bitmap j ≡ cell st.bitmap j
  pub same_free : st'.free_frames ≡ st.free_frames
  pub same_available : st'.available_frames ≡ st.available_frames

restored :
    (start start' n j : ℕ) {old mid new : ℕ}
    → start' ≡ start
    → mid ≡ (if within start n j then pbm_allocated else old)
    → new ≡ (if within start' n j then pbm_free else mid)
    → (start ≤ j → j < start + n → old ≡ pbm_free)
    → new ≡ old
restored start start' n j s e e' h = elim (Bool-cases (within start n j)) [
  | inl t ↦ ground (arith, h)
  | inr t ↦ ground arith
]

free_frame-Allocated :
    {st : Pma} (count pfn : ℕ) {st' : Pma}
    → IsValid st
    → Allocated st count pfn st'
    → (st'' : Pma) × (free_frame pfn count st' ≡ ok st'') × Restored st st''
free_frame-Allocated {st} count pfn {st'} v a =
    let b = a.becomes in
    let at : pfn - st'.base_pfn ≡ pfn - st.base_pfn = omega (arith, b.same_base) in
    let used : InUse st' pfn count = record {
      above = omega (arith, a.above, b.same_base);
      below = omega (arith, a.below, b.same_limit);
      all = λ j p q. ground (arith, at, b.cells j);
    } in
    let (st'', e, g) = free_frame-Given pfn count b.valid used in
    (
      st'',
      e,
      record {
        valid = g.becomes.valid;
        cells = λ j.
            restored (pfn - st.base_pfn) (pfn - st'.base_pfn) count j at (b.cells j)
              (g.becomes.cells j) (λ p q. (a.usable j p q).is_free);
        same_free = omega (arith, g.given, a.taken);
        same_available = g.same_available ∙ a.same_available;
      },
    )

-- The parts of a reply, with a default where the call granted nothing.
reply_pfn : Run (Status × Option ℕ × Pma) → ℕ
reply_pfn (ok (s, some p, st)) = p
reply_pfn _ = 0

reply_state : Pma → Run (Status × Option ℕ × Pma) → Pma
reply_state d (ok (s, p, st)) = st
reply_state d _ = d

reply_granted : Run (Status × Option ℕ × Pma) → Bool
reply_granted (ok (s, some p, st)) = true
reply_granted _ = false

granted-Allocated :
    {st : Pma} (count pfn : ℕ) {st' : Pma}
    → allocate_frame count st ≡ ok (Status.success, some pfn, st')
    → Grants st count
    → Allocated st count pfn st'
unfolding Grants reply_pfn reply_state
granted-Allocated {st} count pfn e (pfn', st'', e', a) =
    subst₂ (Allocated st count) (sym (ap reply_pfn e') ∙ ap reply_pfn e)
      (sym (ap (reply_state st) e') ∙ ap (reply_state st) e) a

-- For a valid allocator and a positive `count`, freeing what a successful allocation returned gives
-- back every descriptor and both counters.
pub free_frame-allocate_frame :
    {st : Pma} (count pfn : ℕ) {st' : Pma}
    → IsValid st
    → 0 < count
    → allocate_frame count st ≡ ok (Status.success, some pfn, st')
    → (st'' : Pma) × (free_frame pfn count st' ≡ ok st'') × Restored st st''
unfolding reply_granted Refuses
free_frame-allocate_frame {st} count pfn v pos e = elim (allocate_frame-first-fit st count v pos) [
  | inl g ↦ free_frame-Allocated count pfn v (granted-Allocated count pfn e g)
  | inr r ↦ absurd (false≢true (sym (ap reply_granted r.0) ∙ ap reply_granted e))
]
