-- ===== src/Pma/Unmark.antt =====
-- mm_pma_unmark_reserved: the reserved frames of a range become free.
use emos.Base.{
  ap, ℕ, zero, suc, ◌+◌, ◌≤◌, ◌<◌, ◌≡◌, refl, Bool, arith, ◌==◌, if◌then◌else◌, ◌&&◌, ℕ_discrete,
}
use emos.Run.{ok}
use emos.Pma.Packed.{cell, written, pbm_get-ok, pbm_free, pbm_reserved}
use emos.Pma.Valid.{
  IsValid, Becomes, Becomes-trans, Becomes-congr, Becomes-refl, write-Becomes, write_lem, within,
  counters-le,
}
use emos.Pma.Range.{in_range, Meets, rounds, in_window, range_lem}
use emos.Pma.{Pma, unmark_step, unmark_loop, unmark_reserved, add32, first_index}

-- A reserved descriptor of the range becomes free.
abbrev pub freed : (inside : Bool) → ℕ → ℕ
freed inside d = if inside && (d == pbm_reserved) then pbm_free else d

-- One round of the loop frees its frame, if it is reserved.
unmark_step-Becomes :
    {st : Pma} (i : ℕ)
    → IsValid st
    → i < st.frame_desc_count
    → (st' : Pma) × (unmark_step i st ≡ ok st')
      × Becomes st st' (λ j. freed (i == j) (cell st.bitmap j))
unfolding unmark_step
unmark_step-Becomes {st} i v l = elim (ℕ_discrete (cell st.bitmap i) pbm_reserved) [
  | yes e ↦ (
    record st {
      bitmap = written st.bitmap i pbm_free;
      free_frames = add32 st.free_frames 1;
      available_frames = add32 st.available_frames 1;
    },
    rw (
      pbm_get-ok st.bitmap i (omega (arith, v.room)),
      e,
      (write_lem v i pbm_free l (omega arith)).runs,
    ),
    Becomes-congr
        (write-Becomes v i pbm_free l (omega arith) _ _ (ground (arith, counters-le v))
          (ground (arith, counters-le v)))
        (λ j. ground (arith, e)),
  )
  | no ne ↦ (
    st,
    rw (pbm_get-ok st.bitmap i (omega (arith, v.room))) (ground arith),
    Becomes-refl v _ (λ j. ground arith),
  )
]

unmark_loop-Becomes :
    (n i : ℕ) {st : Pma}
    → IsValid st
    → i + n ≤ st.frame_desc_count
    → (st' : Pma) × (unmark_loop n i st ≡ ok st')
      × Becomes st st' (λ j. freed (within i n j) (cell st.bitmap j))
unfolding unmark_loop
unmark_loop-Becomes zero i {st} v l = (st, refl, Becomes-refl v _ (λ j. ground arith))
unmark_loop-Becomes (suc n) i {st} v l =
    let (st1, e1, b1) = unmark_step-Becomes i v (omega arith) in
    let (st2, e2, b2) =
      unmark_loop-Becomes n (i + 1) {st = st1} b1.valid (omega (arith, b1.same_count)) in
    (st2, rw e1 e2, Becomes-trans b1 b2 (λ j. ground (arith, b1.cells j)))

module _ {st : Pma} (base_pfn limit_pfn : ℕ) (v : IsValid st)
    (m : Meets st base_pfn limit_pfn) where
  -- For a valid allocator and a range that meets its window, unmarking turns exactly the reserved
  -- frames of the range that lie in the window into free ones, leaves every other descriptor and
  -- the window as they are, and keeps both counters right.
  pub unmark_reserved-Becomes :
      (st' : Pma) × (unmark_reserved base_pfn limit_pfn st ≡ ok st')
      × Becomes st st' (λ j. freed (in_range st base_pfn limit_pfn j) (cell st.bitmap j))
  unfolding unmark_reserved
  unmark_reserved-Becomes =
      let (st', e, b) =
        unmark_loop-Becomes (rounds base_pfn limit_pfn v m) (first_index st base_pfn) v
          (in_window base_pfn limit_pfn v m) in
      (
        st',
        e,
        Becomes-congr b
            (λ j. ap (λ t. freed t (cell st.bitmap j)) (range_lem base_pfn limit_pfn v m j)),
      )
