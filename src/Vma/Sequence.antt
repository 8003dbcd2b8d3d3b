-- ===== src/Vma/Sequence.antt =====
-- A sequence of allocations: what is granted never overlaps.
use emos.Base.{
  ℕ, ◌+◌, ◌^◌, ◌≤◌, ◌<◌, ◌≡◌, Bool, true, false, arith, Option, none, some, List, [], ◌∷◌,
  if◌then◌else◌, inl, inr,
}
use native.Mathlib.Nat.{le_refl}
use emos.Status.{Status}
use emos.Vma.{Vma, wants_kernel, allocate_page}
use emos.Vma.Grant.{IsValid, mark, Granted, allocate_page-Granted}

-- A call of `mm_vma_allocate_page`.
pub record Request : Type 0 where
  pub page_count : ℕ
  pub flags : ℕ

-- The pages that a call granted, and the area that they are of.
pub record Pages : Type 0 where
  pub kernel : Bool
  pub first : ℕ
  pub count : ℕ

abbrev pages_of : Request → Option ℕ → List Pages → List Pages
pages_of r none rest = rest
pages_of r (some vpn) rest =
    record { kernel = wants_kernel r.flags; first = vpn; count = r.page_count } ∷ rest

-- What a sequence of calls grants, in order.
pub grants : List Request → Vma → List Pages
grants [] st = []
grants (r ∷ rs) st =
    let (status, page, st') = allocate_page r.page_count r.flags st in
    pages_of r page (grants rs st')

-- No call asks for so many pages that the mark of its area passes 2 ^ 32.
abbrev pub AllSmall : List Request → Type 0
AllSmall [] = Unit {0}
AllSmall (r ∷ rs) = (r.page_count < 2 ^ 31) × AllSmall rs

-- Pages of the list lie at or above the mark of their area and end below its limit.
abbrev pub AllFrom : (kernel_mark user_mark kernel_limit user_limit : ℕ) → List Pages → Type 0
AllFrom k u kl ul [] = Unit {0}
AllFrom k u kl ul (p ∷ ps) =
    ((if p.kernel then k else u) ≤ p.first)
    × (p.first + p.count < (if p.kernel then kl else ul))
    × AllFrom k u kl ul ps

-- Each grant ends before the later grants of its area begin.
abbrev pub Apart : Pages → List Pages → Type 0
Apart p [] = Unit {0}
Apart p (q ∷ ps) = (p.kernel ≡ q.kernel → p.first + p.count ≤ q.first) × Apart p ps

abbrev pub AllApart : List Pages → Type 0
AllApart [] = Unit {0}
AllApart (p ∷ ps) = Apart p ps × AllApart ps

AllFrom-mono :
    (ps : List Pages) (k u k' u' kl ul : ℕ)
    → k ≤ k'
    → u ≤ u'
    → AllFrom k' u' kl ul ps
    → AllFrom k u kl ul ps
AllFrom-mono [] k u k' u' kl ul a b h = tt
AllFrom-mono (p ∷ ps) k u k' u' kl ul a b h =
    (ground (arith, h.0), h.1, AllFrom-mono ps k u k' u' kl ul a b h.2)

Apart-from :
    (p : Pages) (ps : List Pages) (k u kl ul : ℕ)
    → p.first + p.count ≤ (if p.kernel then k else u)
    → AllFrom k u kl ul ps
    → Apart p ps
Apart-from p [] k u kl ul e h = tt
Apart-from p (q ∷ ps) k u kl ul e h = (λ same. ground (arith, h.0), Apart-from p ps k u kl ul e h.2)

-- The grants of a state, seen from its marks and limits.
abbrev Fine : Vma → List Pages → Type 0
Fine st ps =
    AllFrom st.kernel_alloc_vpn st.user_alloc_vpn st.kernel_limit_vpn st.user_limit_vpn ps
    × AllApart ps

-- The marks move up.
marks_up :
    (count : ℕ) (kernel : Bool) {st : Vma} (r : Status × Option ℕ × Vma)
    → Granted count kernel st r
    → (st.kernel_alloc_vpn ≤ r.2.kernel_alloc_vpn)
      × (st.user_alloc_vpn ≤ r.2.user_alloc_vpn)
      × (mark kernel st + count ≤ (if kernel then r.2.kernel_alloc_vpn else r.2.user_alloc_vpn))
marks_up count true r g = omega (arith, g.moved, g.same_other)
marks_up count false r g = omega (arith, g.moved, g.same_other)

-- A grant in front of the grants of the state that it leaves.
Fine-cons :
    (r : Request) {st : Vma} (status : Status) (page : Option ℕ) (st' : Vma) (ps : List Pages)
    → Granted r.page_count (wants_kernel r.flags) st (status, page, st')
    → Fine st' ps
    → Fine st (pages_of r page ps)
Fine-cons r {st} status page st' ps g f =
    let (k, u, end) = marks_up r.page_count (wants_kernel r.flags) (status, page, st') g in
    let later : AllFrom st'.kernel_alloc_vpn st'.user_alloc_vpn st.kernel_limit_vpn
        st.user_limit_vpn ps =
      rw (g.same_kernel_limit, g.same_user_limit) at f.0 in
    rw g.page (
      (
        le_refl _,
        g.fits,
        AllFrom-mono ps st.kernel_alloc_vpn st.user_alloc_vpn st'.kernel_alloc_vpn
            st'.user_alloc_vpn st.kernel_limit_vpn st.user_limit_vpn k u later,
      ),
      (
        Apart-from _ ps st'.kernel_alloc_vpn st'.user_alloc_vpn st.kernel_limit_vpn
            st.user_limit_vpn end later,
        f.1,
      ),
    )

mark_small :
    (count : ℕ) (kernel : Bool) {st : Vma}
    → IsValid st
    → count < 2 ^ 31
    → mark kernel st + count < 2 ^ 32
mark_small count true v h = omega (arith, v.kernel_high, v.kernel_small)
mark_small count false v h = omega (arith, v.user_high, v.user_small)

-- For a valid allocator and requests of less than 2 ^ 31 pages each, every range of pages that a
-- sequence of calls grants lies between the mark and the limit of its area, and no two ranges of
-- one area overlap.
pub grants-Apart :
    (rs : List Request) {st : Vma}
    → IsValid st
    → AllSmall rs
    → AllFrom st.kernel_alloc_vpn st.user_alloc_vpn st.kernel_limit_vpn st.user_limit_vpn
        (grants rs st)
      × AllApart (grants rs st)
unfolding grants
grants-Apart [] v s = (tt, tt)
grants-Apart (r ∷ rs) {st} v s =
    elim (allocate_page-Granted r.page_count r.flags v
      (mark_small r.page_count (wants_kernel r.flags) v s.0)) [
        | inl g ↦
            Fine-cons r _ _ _ (grants rs (allocate_page r.page_count r.flags st).2) g
              (grants-Apart rs {st = (allocate_page r.page_count r.flags st).2} g.valid s.1)
        | inr h ↦ rw h.1 (grants-Apart rs {st = st} v s.1)
      ]
