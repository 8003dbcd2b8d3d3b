-- ===== src/Pma/Below.antt =====
-- mm_pma_unmark_reserved at a range below the window. `limit_pfn - pma_base_pfn` wraps, and the loop
-- leaves the bitmap. pma_bitmap_init makes such calls: it clears `pd[i].raw` before it reads
-- `pd[i].dir.base`, so it unmarks frame 0 each time.
use emos.Base.{
  ℕ, zero, suc, ◌+◌, ◌-◌, ◌*◌, ◌^◌, ◌≤◌, ◌<◌, ◌≡◌, refl, arith, length, ℕ_discrete, dec_le,
  ==-false,
}
use emos.Run.{ok, fault}
use emos.Pma.Packed.{
  AllBytes, cell, pbm_set-IsWrite, pbm_get-ok, pbm_get-fault, pbm_free, pbm_reserved, written,
}
use emos.Pma.Valid.{IsValid}
use emos.Pma.{Pma, unmark_step, unmark_loop, unmark_reserved, add32, first_index, last_index}

-- A round inside the bitmap leaves its bytes bytes, and its length.
unmark_step-ok :
    (i : ℕ) (st : Pma)
    → AllBytes st.bitmap
    → i < 4 * length st.bitmap
    → (st' : Pma) × (unmark_step i st ≡ ok st')
      × AllBytes st'.bitmap
      × (length st'.bitmap ≡ length st.bitmap)
unfolding unmark_step
unmark_step-ok i st a l = elim (ℕ_discrete (cell st.bitmap i) pbm_reserved) [
  | yes e ↦
      let w = pbm_set-IsWrite st.bitmap i pbm_free a l (omega arith) in
      (
        record st {
          bitmap = written st.bitmap i pbm_free;
          free_frames = add32 st.free_frames 1;
          available_frames = add32 st.available_frames 1;
        },
        rw (pbm_get-ok st.bitmap i l, e, w.runs),
        w.bytes,
        w.size,
      )
  | no ne ↦ (st, rw (pbm_get-ok st.bitmap i l, ==-false _ _ ne), a, refl)
]

unmark_step-fault : (i : ℕ) (st : Pma) → 4 * length st.bitmap ≤ i → unmark_step i st ≡ fault
unfolding unmark_step
unmark_step-fault i st p = rw (pbm_get-fault st.bitmap i p)

-- A loop that goes on past the bitmap ends in a fault.
unmark_loop-fault :
    (n i : ℕ) (st : Pma)
    → AllBytes st.bitmap
    → 4 * length st.bitmap < i + n
    → i ≤ 4 * length st.bitmap
    → unmark_loop n i st ≡ fault
unfolding unmark_loop
unmark_loop-fault zero i st a h l = absurd (omega arith)
unmark_loop-fault (suc n) i st a h l = elim (dec_le (4 * length st.bitmap) i) [
  | yes p ↦ rw (unmark_step-fault i st p)
  | no p ↦
      let (st', e, a', same) = unmark_step-ok i st a (omega arith) in
      rw e (unmark_loop-fault n (i + 1) st' a' (omega arith) (omega arith))
]

-- For a valid allocator whose bitmap is below 2 ^ 28 bytes, unmarking a range that ends below the
-- window reaches outside the bitmap.
pub unmark_reserved-below :
    {st : Pma} (base_pfn limit_pfn : ℕ)
    → IsValid st
    → length st.bitmap < 2 ^ 28
    → base_pfn ≤ limit_pfn
    → limit_pfn < st.base_pfn
    → unmark_reserved base_pfn limit_pfn st ≡ fault
unfolding unmark_reserved
unmark_reserved-below {st} base_pfn limit_pfn v small o below =
    let first : first_index st base_pfn ≡ 0 = ground (arith, v.window, v.small) in
    let last : last_index st limit_pfn ≡ 2 ^ 32 + limit_pfn - st.base_pfn =
      ground (arith, v.window, v.small, v.nonempty) in
    rw (first, last)
      (unmark_loop-fault _ 0 st v.bytes (omega (arith, v.window, v.small)) (omega arith))
