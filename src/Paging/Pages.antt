-- ===== src/Paging/Pages.antt =====
-- `mm_allocate_pages_to` and `mm_allocate_pages`: pages that get frames of their own.
use emos.Base.{
  ℕ, zero, suc, ◌+◌, ◌^◌, ◌≤◌, ◌<◌, ◌≡◌, ◌≢◌, ◌⊎◌, inl, inr, refl, arith, if◌then◌else◌, none, some,
  subst, ◌∙◌, Option-cases, ℕ_discrete,
}
use mathlib.Core.Path.{subst₂}
use emos.Status.{Status, check_success}
use emos.Run.{Run, ok}
use emos.Pma.{Pma}
use emos.Paging.{
  Mm, map, map_loop, mm_map, back_page, back_loop, allocate_pages_to, allocate_pages, add32,
}
use emos.Paging.Frames.{Takes, allocate_frame-one}
use emos.Vma.{allocate_page}
use emos.Paging.Extend.{
  AllKept, Extends, Extends-refl, Extends-trans, Takes-IsPaged, Takes-Extends, Mapped-Extends,
}
use emos.Paging.Table.{lookup, window_vpn, IsPaged}
use emos.Paging.Map.{vpn_to_pfn-lookup, map-Mapped}

joined :
    {st st1 st2 : Mm} {lo mid mid' hi hi' : ℕ}
    → lo ≤ mid
    → mid ≤ hi
    → mid' ≡ mid
    → hi' ≡ hi
    → Extends lo mid st st1
    → Extends mid' hi' st1 st2
    → Extends lo hi st st2
joined {st1 = st1} {st2} {lo} {mid} {hi = hi} l m a b p q =
    Extends-trans lo mid hi l m p (subst₂ (λ x y. Extends x y st1 st2) a b q)

-- A range of one page.
one_page :
    (st : Mm) (v vpn f : ℕ) → vpn ≤ v → v < vpn + 1 → lookup st vpn ≡ some f → lookup st v ≢ none
one_page st v vpn f a b e = let same : v ≡ vpn = omega arith in rw same (ground (arith, e))

-- One page in `mm_map`.
mm_map-one :
    (pfn vpn flags : ℕ) (st st' : Mm) (s : Status)
    → pfn < 2 ^ 20
    → vpn < window_vpn
    → (s ≡ Status.success) ⊎ (s ≡ Status.insufficient_memory)
    → map pfn vpn flags st ≡ ok (s, st')
    → mm_map pfn vpn 1 flags st ≡ ok (s, st')
unfolding mm_map map_loop check_success
mm_map-one pfn vpn flags st st' s a b c e =
    let p : add32 pfn 0 ≡ pfn = omega arith in
    let v : add32 vpn 0 ≡ vpn = omega arith in
    elim c [
      | inl d ↦ rw (mm_map, map_loop, p, v, e, d) refl
      | inr d ↦ rw (mm_map, map_loop, p, v, e, d) refl
    ]

-- The round on a page without a frame, when the allocator grants one.
back_page-granted :
    (vpn f : ℕ) (st st' : Mm) (p : Pma) (s : Status)
    → lookup st vpn ≡ none
    → Takes st.pma f p
    → mm_map f vpn 1 0 (record st { pma = p }) ≡ ok (s, st')
    → back_page vpn st ≡ ok (s, st')
unfolding back_page check_success
back_page-granted vpn f st st' p s n t e = rw (back_page, vpn_to_pfn-lookup vpn st, n, t.runs) e

-- How a loop over pages ends: each of its pages has a frame, or memory is used up.
abbrev pub Ends : (Status → Mm → Type 0) → (lo hi : ℕ) → Mm → Type 0
Ends runs lo hi st =
    ((st' : Mm) × runs Status.success st'
      × Extends lo hi st st'
      × ((v : ℕ) → lo ≤ v → v < hi → lookup st' v ≢ none))
    ⊎ ((st' : Mm) × runs Status.insufficient_memory st' × Extends lo hi st st')

back_page-Ends :
    (vpn : ℕ) (st : Mm)
    → IsPaged st
    → AllKept st
    → vpn < window_vpn
    → Ends (λ s st'. back_page vpn st ≡ ok (s, st')) vpn (vpn + 1) st
unfolding back_page check_success
back_page-Ends vpn st h k l = elim (Option-cases (lookup st vpn)) [
  | inr (f, e) ↦ inl (
    st,
    rw (vpn_to_pfn-lookup vpn st, e, back_page) refl,
    Extends-refl vpn (vpn + 1) h k,
    λ v a b. one_page st v vpn f a b e,
  )
  | inl n ↦ elim (allocate_frame-one st.pma h.valid) [
    | inr (none_free, full) ↦ inr (
      st,
      rw (back_page, vpn_to_pfn-lookup vpn st, n, none_free) refl,
      Extends-refl vpn (vpn + 1) h k,
    )
    | inl (f, p, t) ↦
        let st1 : Mm = record st { pma = p } in
        elim (map-Mapped f vpn 0 st1 (Takes-IsPaged h k t) l t.small) [
          | inl (st', e, m) ↦ inl (
            st',
            back_page-granted vpn f st st' p Status.success n t
                (mm_map-one f vpn 0 st1 st' Status.success t.small l (inl refl) e),
            Mapped-Extends h k t vpn l m,
            λ v a b. one_page st' v vpn f a b (ground (arith, m.pages vpn l)),
          )
          | inr (inl (e, (g, busy))) ↦ absurd (ground (arith, n, busy))
          | inr (inr (e, none_there)) ↦ inr (
            st1,
            back_page-granted vpn f st st1 p Status.insufficient_memory n t
                (mm_map-one f vpn 0 st1 st1 Status.insufficient_memory t.small l (inr refl) e),
            Takes-Extends h k t vpn (vpn + 1),
          )
        ]
  ]
]

-- A round of the loop that goes on, and one that does not.
back_loop-next :
    (n i vpn : ℕ) (st st1 : Mm)
    → vpn + i < window_vpn
    → back_page (vpn + i) st ≡ ok (Status.success, st1)
    → back_loop (suc n) i vpn st ≡ back_loop n (i + 1) vpn st1
unfolding back_loop check_success
back_loop-next n i vpn st st1 l e =
    let at : add32 vpn i ≡ vpn + i = omega arith in rw (at, e, back_loop) refl

back_loop-stop :
    (n i vpn : ℕ) (st st1 : Mm)
    → vpn + i < window_vpn
    → back_page (vpn + i) st ≡ ok (Status.insufficient_memory, st1)
    → back_loop (suc n) i vpn st ≡ ok (Status.insufficient_memory, st1)
unfolding back_loop check_success
back_loop-stop n i vpn st st1 l e =
    let at : add32 vpn i ≡ vpn + i = omega arith in rw (at, e, back_loop) refl

pub back_loop-Ends :
    (n i vpn : ℕ) (st : Mm)
    → IsPaged st
    → AllKept st
    → vpn + i + n ≤ window_vpn
    → Ends (λ s st'. back_loop n i vpn st ≡ ok (s, st')) (vpn + i) (vpn + i + n) st
unfolding back_loop
back_loop-Ends zero i vpn st h k l =
    inl (st, refl, Extends-refl _ _ h k, λ v a b. absurd (omega arith))
back_loop-Ends (suc n) i vpn st h k l = elim (back_page-Ends (vpn + i) st h k (omega arith)) [
  | inr (st1, e1, x1) ↦ inr (
    st1,
    back_loop-stop n i vpn st st1 (omega arith) e1,
    Extends-trans (vpn + i) (vpn + i + 1) (vpn + i + suc n) (omega arith) (omega arith) x1
        (Extends-refl _ _ x1.paged x1.all_kept),
  )
  | inl (st1, e1, x1, s1) ↦
      let at : vpn + (i + 1) ≡ vpn + i + 1 = omega arith in
      let end : vpn + (i + 1) + n ≡ vpn + i + suc n = omega arith in
      elim (back_loop-Ends n (i + 1) vpn st1 x1.paged x1.all_kept (omega arith)) [
        | inr (st2, e2, x2) ↦ inr (
          st2,
          back_loop-next n i vpn st st1 (omega arith) e1 ∙ e2,
          joined (omega arith) (omega arith) at end x1 x2,
        )
        | inl (st2, e2, x2, s2) ↦ inl (
          st2,
          back_loop-next n i vpn st st1 (omega arith) e1 ∙ e2,
          joined (omega arith) (omega arith) at end x1 x2,
          λ v a b. elim (ℕ_discrete v (vpn + i)) [
            | yes e ↦ rw e (elim (Option-cases (lookup st1 (vpn + i))) [
              | inl gone ↦ absurd (s1 (vpn + i) (omega arith) (omega arith) gone)
              | inr (g, there) ↦ ground (arith, x2.old (vpn + i) g (omega arith) there)
            ])
            | no ne ↦ s2 v (omega arith) (omega arith)
          ],
        )
      ]
]

pub add_zero : (n : ℕ) → n + 0 ≡ n
add_zero n = omega arith

-- The page tables and the allocator are valid, no frame of a page is free for the allocator, and the
-- pages from `vpn` on are below the window at 0xffc00000. Then `mm_allocate_pages_to` either succeeds
-- and each of the pages has a frame, or returns STATUS_INSUFFICIENT_MEMORY. In both cases the pages
-- that had a frame keep it, no page outside the range changes, and each page that got a frame has one
-- that was free and that no other page has.
pub allocate_pages_to-Ends :
    (vpn page_count : ℕ) (st : Mm)
    → IsPaged st
    → AllKept st
    → vpn + page_count ≤ window_vpn
    → Ends (λ s st'. allocate_pages_to vpn page_count st ≡ ok (s, st')) vpn (vpn + page_count) st
unfolding allocate_pages_to
allocate_pages_to-Ends vpn n st h k l =
    subst (λ z. Ends (λ s st'. back_loop n 0 vpn st ≡ ok (s, st')) z (z + n) st) (add_zero vpn)
      (back_loop-Ends n 0 vpn st h k (omega arith))

-- The first of the pages that `mm_allocate_pages` works on: those that the virtual allocator grants,
-- or where it grants none what the uninitialised variable holds.
abbrev pub allocated_vpn : (garbage page_count : ℕ) → Mm → ℕ
allocated_vpn garbage page_count st = elim ((allocate_page page_count 0 st.vma).1) [
  | none ↦ garbage
  | some vpn ↦ vpn
]

-- The state with the virtual allocator after its call.
abbrev pub with_vma : (page_count : ℕ) → Mm → Mm
with_vma page_count st = record st { vma = (allocate_page page_count 0 st.vma).2 }

with_vma-IsPaged : (n : ℕ) (st : Mm) → IsPaged st → IsPaged (with_vma n st)
with_vma-IsPaged n st h = record {
  valid = h.valid;
  dir_kept = h.dir_kept;
  kept = h.kept;
  not_dir = h.not_dir;
  apart = h.apart;
}

allocate_pages_to-runs :
    (vpn n : ℕ) (st : Mm) (r : Run (Status × Mm))
    → allocate_pages_to vpn n st ≡ r
    → back_loop n 0 vpn st ≡ r
unfolding allocate_pages_to
allocate_pages_to-runs vpn n st r e = e

-- Where the pages from `allocated_vpn` on are below the window, `mm_allocate_pages` either returns
-- `allocated_vpn`, and each page from there on has a frame, or STATUS_INSUFFICIENT_MEMORY. In both
-- cases the pages change as in `mm_allocate_pages_to`. The status of the virtual allocator plays no
-- part: where it grants nothing, the call goes on with the pages at the uninitialised variable.
pub allocate_pages-Ends :
    (garbage page_count : ℕ) (st : Mm)
    → IsPaged st
    → AllKept st
    → allocated_vpn garbage page_count st + page_count ≤ window_vpn
    → let vpn : ℕ = allocated_vpn garbage page_count st in
      Ends
        (λ s st'.
          allocate_pages garbage page_count st
          ≡ ok (s, (if check_success s then some vpn else none), st'))
        vpn
        (vpn + page_count)
        (with_vma page_count st)
unfolding allocate_pages check_success
allocate_pages-Ends garbage n st h k l =
    let vpn : ℕ = allocated_vpn garbage n st in
    elim (allocate_pages_to-Ends vpn n (with_vma n st) (with_vma-IsPaged n st h) k l) [
      | inl (st', e, x, s) ↦
          inl (st', rw (allocate_pages_to-runs vpn n _ _ e, allocate_pages) refl, x, s)
      | inr (st', e, x) ↦ inr (st', rw (allocate_pages_to-runs vpn n _ _ e, allocate_pages) refl, x)
    ]
