-- ===== src/Paging/Unmap.antt =====
-- `mm_unmap`: the pages of a range lose their frames.
use emos.Base.{
  ℕ, zero, suc, ◌+◌, ◌≤◌, ◌<◌, ◌≡◌, refl, Bool, arith, ◌==◌, if◌then◌else◌, Option, none, subst,
  ◌∙◌, Bool-cases, inl, inr, ℕ_discrete, ==-true, ==-false,
}
use emos.Pma.Valid.{within}
use emos.Paging.{Mm, present, dir_index, pde, pte, unmap, unmap_loop, mm_unmap, add32}
use emos.Paging.Pages.{add_zero}
use emos.Paging.Table.{lookup, entry_frame, window_vpn, IsPaged, written-lookup, written-IsPaged}

-- The pages that a test names have no frame now, and nothing else has changed.
pub record Drops (dropped : ℕ → Bool) (st st' : Mm) : Type 0 where
  pub paged : IsPaged st'
  pub same_pma : st'.pma ≡ st.pma
  pub same_vma : st'.vma ≡ st.vma
  pub pages : (v : ℕ) → v < window_vpn → lookup st' v ≡ (if dropped v then none else lookup st v)

absent-Drops : (vpn : ℕ) (st : Mm) → IsPaged st → lookup st vpn ≡ none → Drops (λ v. v == vpn) st st
absent-Drops vpn st h e = record {
  paged = h;
  same_pma = refl;
  same_vma = refl;
  pages = λ v k. elim (ℕ_discrete v vpn) [
    | yes same ↦ rw (same, ==-true vpn vpn refl) e
    | no ne ↦ rw (==-false v vpn ne) refl
  ];
}

no_frame : (d : ℕ) → entry_frame d 0 ≡ none
no_frame d = ground arith

unmap-Drops :
    (vpn : ℕ) (st : Mm) → IsPaged st → vpn < window_vpn → Drops (λ v. v == vpn) st (unmap vpn st)
unfolding unmap
unmap-Drops vpn st h l = elim (Bool-cases (present (pde st (dir_index vpn)))) [
  | inr q ↦ rw (q, unmap) (absent-Drops vpn st h (rw q refl))
  | inl q ↦ elim (Bool-cases (present (pte st vpn))) [
    | inr e ↦ rw (q, e, unmap) (absent-Drops vpn st h (rw (q, e) refl))
    | inl e ↦
        rw (q, e, unmap)
          (record {
            paged = written-IsPaged vpn 0 h l q refl;
            same_pma = refl;
            same_vma = refl;
            pages = λ v k.
                written-lookup vpn 0 h l q refl v k ∙ rw (no_frame (pde st (dir_index vpn))) refl;
          })
  ]
]

shifted :
    (v a b n c : ℕ) (o : Option ℕ)
    → b ≡ a + 1
    → c ≡ a
    → (if within b n v then none else (if v == c then none else o))
      ≡ (if within a (suc n) v then none else o)
shifted v a b n c o e f = ground arith

unmap_loop-Drops :
    (n i vpn : ℕ) (st : Mm)
    → IsPaged st
    → vpn + i + n ≤ window_vpn
    → Drops (within (vpn + i) n) st (unmap_loop n i vpn st)
unfolding unmap_loop
unmap_loop-Drops zero i vpn st h l = record {
  paged = h;
  same_pma = refl;
  same_vma = refl;
  pages = λ v k. ground arith;
}
unmap_loop-Drops (suc n) i vpn st h l =
    let at : add32 vpn i ≡ vpn + i = omega arith in
    let d = unmap-Drops (add32 vpn i) st h (omega arith) in
    let e = unmap_loop-Drops n (i + 1) vpn (unmap (add32 vpn i) st) d.paged (omega arith) in
    record {
      paged = e.paged;
      same_pma = e.same_pma ∙ d.same_pma;
      same_vma = e.same_vma ∙ d.same_vma;
      pages = λ v k.
          e.pages v k
          ∙ rw (d.pages v k)
              (shifted v (vpn + i) (vpn + (i + 1)) n (add32 vpn i) (lookup st v) (omega arith) at);
    }

-- Of pages that end below the window, `mm_unmap` takes the frames: each page of the range has none
-- behind it, every other page has what it had, the allocators and the invariant stay.
pub mm_unmap-Drops :
    (vpn page_count : ℕ) (st : Mm)
    → IsPaged st
    → vpn + page_count ≤ window_vpn
    → Drops (within vpn page_count) st ((mm_unmap vpn page_count st).1)
unfolding mm_unmap
mm_unmap-Drops vpn n st h l =
    subst (λ z. Drops (within z n) st (unmap_loop n 0 vpn st)) (add_zero vpn)
      (unmap_loop-Drops n 0 vpn st h (omega arith))
