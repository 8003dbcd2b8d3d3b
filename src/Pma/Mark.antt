-- ===== src/Pma/Mark.antt =====
-- mm_pma_mark_reserved and mm_pma_unmark_reserved: the frames of a range, and only those, change.
use emos.Base.{ℕ, zero, suc, ◌+◌, ◌≤◌, ◌<◌, ◌≡◌, refl, arith, ◌==◌, if◌then◌else◌, ℕ_discrete}
use emos.Run.{ok}
use emos.Pma.Packed.{cell, written, pbm_get-ok, pbm_free, pbm_reserved}
use emos.Pma.Valid.{
  IsValid, Becomes, Becomes-trans, Becomes-congr, Becomes-refl, write-Becomes, write_lem, within,
  free-pos, available-pos, counters-le,
}
use emos.Pma.Range.{in_range, Meets, rounds, in_window, range_lem}
use emos.Pma.{Pma, mark_step, mark_loop, mark_reserved, sub32, first_index}

-- One round of the marking loop reserves its frame.
mark_step-Becomes :
    {st : Pma} (i : ℕ)
    → IsValid st
    → i < st.frame_desc_count
    → (st' : Pma) × (mark_step i st ≡ ok st')
      × Becomes st st' (λ j. if i == j then pbm_reserved else cell st.bitmap j)
unfolding mark_step
mark_step-Becomes {st} i v l = elim (ℕ_discrete (cell st.bitmap i) pbm_reserved) [
  | yes e ↦ (
    st,
    rw (pbm_get-ok st.bitmap i (omega (arith, v.room))) (ground arith),
    Becomes-refl v _ (λ j. ground (arith, e)),
  )
  | no ne ↦ (
    record st {
      bitmap = written st.bitmap i pbm_reserved;
      free_frames = if cell st.bitmap i == pbm_free then sub32 st.free_frames 1 else st.free_frames;
      available_frames = sub32 st.available_frames 1;
    },
    rw
        (
          pbm_get-ok st.bitmap i (omega (arith, v.room)),
          (write_lem v i pbm_reserved l (omega arith)).runs,
        )
        (ground arith),
    write-Becomes v i pbm_reserved l (omega arith) _ _
        (ground (arith, free-pos v i l, counters-le v))
        (ground (arith, available-pos v i l ne, counters-le v)),
  )
]

-- The loop reserves its frames, and only those.
mark_loop-Becomes :
    (n i : ℕ) {st : Pma}
    → IsValid st
    → i + n ≤ st.frame_desc_count
    → (st' : Pma) × (mark_loop n i st ≡ ok st')
      × Becomes st st' (λ j. if within i n j then pbm_reserved else cell st.bitmap j)
unfolding mark_loop
mark_loop-Becomes zero i {st} v l = (st, refl, Becomes-refl v _ (λ j. ground arith))
mark_loop-Becomes (suc n) i {st} v l =
    let (st1, e1, b1) = mark_step-Becomes i v (omega arith) in
    let (st2, e2, b2) =
      mark_loop-Becomes n (i + 1) {st = st1} b1.valid (omega (arith, b1.same_count)) in
    (st2, rw e1 e2, Becomes-trans b1 b2 (λ j. ground (arith, b1.cells j)))

module _ {st : Pma} (base_pfn limit_pfn : ℕ) (v : IsValid st)
    (m : Meets st base_pfn limit_pfn) where
  -- For a valid allocator and a range that meets its window, marking reserves exactly the frames of
  -- the range that lie in the window, leaves every other descriptor and the window as they are, and
  -- keeps both counters right.
  pub mark_reserved-Becomes :
      (st' : Pma) × (mark_reserved base_pfn limit_pfn st ≡ ok st')
      × Becomes st st'
          (λ j. if in_range st base_pfn limit_pfn j then pbm_reserved else cell st.bitmap j)
  unfolding mark_reserved
  mark_reserved-Becomes =
      let (st', e, b) =
        mark_loop-Becomes (rounds base_pfn limit_pfn v m) (first_index st base_pfn) v
          (in_window base_pfn limit_pfn v m) in
      (st', e, Becomes-congr b (λ j. rw (range_lem base_pfn limit_pfn v m j)))
