-- ===== src/Pma/Allocate.antt =====
-- mm_pma_allocate_frame: the lowest run of free frames, or STATUS_INSUFFICIENT_MEMORY.
use emos.Base.{
  ℕ, zero, suc, ◌+◌, ◌-◌, ◌≤◌, ◌<◌, ◌≡◌, refl, arith, if◌then◌else◌, ◌⊎◌, inl, inr, none, some,
  ltb-true, ltb-false,
}
use emos.Status.{Status}
use emos.Run.{ok}
use emos.Pma.Packed.{cell, written, pbm_free, pbm_allocated}
use emos.Pma.Valid.{
  IsValid, Becomes, Becomes-trans, Becomes-refl, write-Becomes, write_lem, within, free-pos,
  counters-le,
}
use emos.Pma.{Pma, Found, search_loop, take_loop, allocate_frame, add32, sub32, no_run}
use emos.Pma.Search.{IsFreeRun, NoRun, Hit, Miss}
use emos.Pma.SearchLoop.{search_loop-Hit-Miss}

-- The second loop allocates `n` free frames from `i` on, and counts them off.
take_loop-Becomes :
    (n i : ℕ) {st : Pma}
    → IsValid st
    → i + n ≤ st.frame_desc_count
    → ((j : ℕ) → i ≤ j → j < i + n → cell st.bitmap j ≡ pbm_free)
    → (st' : Pma) × (take_loop n i st ≡ ok st')
      × Becomes st st' (λ j. if within i n j then pbm_allocated else cell st.bitmap j)
      × (st'.free_frames + n ≡ st.free_frames)
      × (st'.available_frames ≡ st.available_frames)
unfolding take_loop
take_loop-Becomes zero i {st} v l f =
    (st, refl, Becomes-refl v _ (λ j. ground arith), omega arith, refl)
take_loop-Becomes (suc n) i {st} v l f =
    let now : cell st.bitmap i ≡ pbm_free = f i (omega arith) (omega arith) in
    let st1 : Pma = record st {
      bitmap = written st.bitmap i pbm_allocated;
      free_frames = sub32 st.free_frames 1;
    } in
    let l' : i < st.frame_desc_count = omega arith in
    let b1 =
      write-Becomes v i pbm_allocated l' (omega arith) st.available_frames (sub32 st.free_frames 1)
        (ground (arith, now, free-pos v i l' now, counters-le v)) (ground (arith, now)) in
    let (st2, e2, b2, f2, a2) =
      take_loop-Becomes n (i + 1) {st = st1} b1.valid (omega arith)
        (λ j p q. ground (arith, b1.cells j, f j (omega arith) (omega arith))) in
    (
      st2,
      rw (write_lem v i pbm_allocated l' (omega arith)).runs e2,
      Becomes-trans b1 b2 (λ j. ground (arith, b1.cells j)),
      omega (arith, f2, free-pos v i l' now, counters-le v),
      a2,
    )

-- What a successful call has done: `count` frames from `pfn` on, which were free and above the
-- first megabyte, are allocated, and no lower run would have done.
pub record Allocated (st : Pma) (count pfn : ℕ) (st' : Pma) : Type 0 where
  pub above : st.base_pfn ≤ pfn
  pub below : pfn + count ≤ st.limit_pfn + 1
  pub usable : IsFreeRun st (pfn - st.base_pfn) count
  pub lowest :
      (t : ℕ) → t + count ≤ st.frame_desc_count → IsFreeRun st t count → pfn - st.base_pfn ≤ t
  pub becomes :
      Becomes st st'
        (λ j. if within (pfn - st.base_pfn) count j then pbm_allocated else cell st.bitmap j)
  pub taken : st'.free_frames + count ≡ st.free_frames
  pub same_available : st'.available_frames ≡ st.available_frames

unfoldable pub Grants : Pma → ℕ → Type 0
Grants st count =
    (pfn : ℕ) × (st' : Pma) × (allocate_frame count st ≡ ok (Status.success, some pfn, st'))
    × Allocated st count pfn st'

unfoldable pub Refuses : Pma → ℕ → Type 0
Refuses st count =
    (allocate_frame count st ≡ ok (Status.insufficient_memory, none, st))
    × NoRun st count st.frame_desc_count

Hit-Grants :
    {st : Pma} (count : ℕ) (s : Found)
    → IsValid st
    → search_loop st.frame_desc_count count 0 st no_run ≡ ok s
    → Hit st count s
    → Grants st count
unfolding allocate_frame Grants
Hit-Grants {st} count s v e h =
    let rounds : add32 s.start count - s.start ≡ count =
      omega (arith, h.inside, v.window, v.small) in
    let (st', e', b, f, a) =
      take_loop-Becomes count s.start v h.inside (λ j p q. (h.usable j p q).is_free) in
    let at : add32 st.base_pfn s.start - st.base_pfn ≡ s.start =
      omega (arith, h.inside, v.window, v.small) in
    (
      add32 st.base_pfn s.start,
      st',
      rw (e, ltb-false s.free_count count (λ p. omega (arith, h.exact)), rounds, e'),
      record {
        above = omega (arith, h.inside, v.window, v.small);
        below = omega (arith, h.inside, v.window, v.small);
        usable = rw at h.usable;
        lowest = rw at h.lowest;
        becomes = rw at b;
        taken = f;
        same_available = a;
      },
    )

Miss-Refuses :
    {st : Pma} (count : ℕ) (s : Found)
    → search_loop st.frame_desc_count count 0 st no_run ≡ ok s
    → Miss st count s
    → Refuses st count
unfolding allocate_frame Refuses
Miss-Refuses {st} count s e m = (rw (e, ltb-true s.free_count count m.short), m.none_usable)

-- For a valid allocator and a positive `count`, `mm_pma_allocate_frame` either returns the lowest
-- run of `count` free frames above the first megabyte, marks exactly these allocated and takes them
-- off the count of free frames, or there is no such run, and it returns
-- STATUS_INSUFFICIENT_MEMORY and changes nothing.
pub allocate_frame-first-fit :
    (st : Pma) (count : ℕ) → IsValid st → 0 < count → Grants st count ⊎ Refuses st count
allocate_frame-first-fit st count v pos =
    let (s, e, r) = search_loop-Hit-Miss v count pos in
    elim r [ inl h ↦ inl (Hit-Grants count s v e h) | inr m ↦ inr (Miss-Refuses count s e m) ]
