-- ===== src/Vma/Grant.antt =====
-- One allocation of virtual pages.
use emos.Base.{
  ℕ, ◌+◌, ◌^◌, ◌≤◌, ◌<◌, ◌≡◌, refl, Bool, true, false, arith, leb, if◌then◌else◌, Option, none,
  some, ◌⊎◌, inl, inr, Bool-cases, leb-false,
}
use emos.Status.{Status}
use emos.Vma.{
  Vma, wants_kernel, allocate_page, add32, get_free_kernel_page_count, get_free_user_page_count,
  get_available_kernel_page_count, get_available_user_page_count,
}

-- The mark of each area lies in its area, and the areas end below the last page number.
pub record IsValid (st : Vma) : Type 0 where
  pub user_low : st.user_base_vpn ≤ st.user_alloc_vpn
  pub user_high : st.user_alloc_vpn ≤ st.user_limit_vpn
  pub kernel_low : st.kernel_base_vpn ≤ st.kernel_alloc_vpn
  pub kernel_high : st.kernel_alloc_vpn ≤ st.kernel_limit_vpn
  pub user_small : st.user_limit_vpn < 2 ^ 20
  pub kernel_small : st.kernel_limit_vpn < 2 ^ 20

-- The area that a request is for: its mark and its limit.
abbrev pub mark : Bool → Vma → ℕ
mark kernel st = if kernel then st.kernel_alloc_vpn else st.user_alloc_vpn

abbrev pub limit : Bool → Vma → ℕ
limit kernel st = if kernel then st.kernel_limit_vpn else st.user_limit_vpn

-- What an allocation may do: grant the pages from the mark on, or refuse and change nothing.
pub record Granted (page_count : ℕ) (kernel : Bool) (st : Vma) (r : Status × Option ℕ × Vma)
    : Type 0 where
  pub status : r.0 ≡ Status.success
  pub page : r.1 ≡ some (mark kernel st)
  pub fits : mark kernel st + page_count < limit kernel st
  pub moved : mark kernel r.2 ≡ mark kernel st + page_count
  pub same_other :
      mark (if kernel then false else true) r.2 ≡ mark (if kernel then false else true) st
  pub same_kernel_limit : r.2.kernel_limit_vpn ≡ st.kernel_limit_vpn
  pub same_user_limit : r.2.user_limit_vpn ≡ st.user_limit_vpn
  pub valid : IsValid r.2

-- For a valid allocator and a page count with which the mark does not pass 2 ^ 32,
-- `mm_vma_allocate_page` grants the pages from the mark of the area on, moves this mark behind them
-- and keeps the invariant when they end below the limit; else the status is
-- STATUS_INSUFFICIENT_MEMORY and nothing changes.
pub allocate_page-Granted :
    (page_count flags : ℕ) {st : Vma}
    → IsValid st
    → mark (wants_kernel flags) st + page_count < 2 ^ 32
    → Granted page_count (wants_kernel flags) st (allocate_page page_count flags st)
      ⊎ ((limit (wants_kernel flags) st ≤ mark (wants_kernel flags) st + page_count)
          × (allocate_page page_count flags st ≡ (Status.insufficient_memory, none, st)))
unfolding allocate_page
allocate_page-Granted page_count flags {st} v small = elim (Bool-cases (wants_kernel flags)) [
  | inl k ↦
      let low : st.kernel_alloc_vpn + page_count < 2 ^ 32 = rw k at small in
      rw k (elim (Bool-cases (leb st.kernel_limit_vpn (add32 st.kernel_alloc_vpn page_count))) [
        | inl e ↦ inr (ground arith, rw e)
        | inr e ↦ inl (rw e (ground arith))
      ])
  | inr k ↦
      let low : st.user_alloc_vpn + page_count < 2 ^ 32 = rw k at small in
      rw k (elim (Bool-cases (leb st.user_limit_vpn (add32 st.user_alloc_vpn page_count))) [
        | inl e ↦ inr (ground arith, rw e)
        | inr e ↦ inl (rw e (ground arith))
      ])
]

-- For a valid allocator, a page count below 2 ^ 32 with which the mark of the kernel's area passes
-- 2 ^ 32 is granted all the same, and the mark moves down.
pub allocate_page-wraps :
    (page_count flags : ℕ) {st : Vma}
    → IsValid st
    → wants_kernel flags ≡ true
    → page_count < 2 ^ 32
    → 2 ^ 32 ≤ st.kernel_alloc_vpn + page_count
    → let (status, page, st') = allocate_page page_count flags st in
      (status ≡ Status.success)
      × (page ≡ some st.kernel_alloc_vpn)
      × (st'.kernel_alloc_vpn < st.kernel_alloc_vpn)
unfolding allocate_page
allocate_page-wraps page_count flags {st} v k l h = rw k (
    rw (leb-false st.kernel_limit_vpn (add32 st.kernel_alloc_vpn page_count) (λ p. omega arith))
      (refl, refl, omega arith))

-- For a valid allocator the four counts are the sizes of the areas and of what is left of them.
pub page_counts :
    {st : Vma}
    → IsValid st
    → ((get_available_kernel_page_count st).1 + st.kernel_base_vpn ≡ st.kernel_limit_vpn + 1)
      × ((get_free_kernel_page_count st).1 + st.kernel_alloc_vpn ≡ st.kernel_limit_vpn + 1)
      × ((get_available_user_page_count st).1 + st.user_base_vpn ≡ st.user_limit_vpn + 1)
      × ((get_free_user_page_count st).1 + st.user_alloc_vpn ≡ st.user_limit_vpn + 1)
unfolding get_available_kernel_page_count get_free_kernel_page_count get_available_user_page_count
    get_free_user_page_count
page_counts v = omega arith
