-- ===== src/Paging/Table.antt =====
-- The map from page numbers to frames that the tables stand for, the invariant of the tables, and
-- the two writes of `map`.
use emos.Base.{
  ℕ, zero, suc, ◌+◌, ◌^◌, ◌<◌, ◌≡◌, ◌≢◌, refl, true, false, arith, ltb, leb, ◌==◌, ◌&&◌,
  if◌then◌else◌, Option, none, some, subst, sym, ap, ◌∙◌, ==-true, ℕ_discrete, Bool-cases, inl, inr,
}
use emos.Pma.{Pma}
use emos.Pma.Valid.{IsValid}
use emos.Paging.{
  Mm, present, base, dir_index, table_index, pde, pte, put_word, table_entry, clear_loop, new_table,
}
use emos.Paging.Frames.{is_free, Takes}
use emos.Paging.Entry.{table_entry_lem}

-- The frame of a page. The pages of the window at 0xffc00000 are those from `window_vpn` on.
abbrev pub entry_frame : (dir_entry entry : ℕ) → Option ℕ
entry_frame d e = if present d && present e then some (base e) else none

abbrev pub lookup : Mm → (vpn : ℕ) → Option ℕ
lookup st vpn = entry_frame (pde st (dir_index vpn)) (pte st vpn)

abbrev pub window_vpn : ℕ
window_vpn = 0xffc00

-- The directory and the tables are frames of their own, and the allocator does not hand them out.
pub record IsPaged (st : Mm) : Type 0 where
  pub valid : IsValid st.pma
  pub dir_kept : is_free st.pma st.page_dir ≡ false
  pub kept :
      (i : ℕ) → i < 1023 → present (pde st i) ≡ true → is_free st.pma (base (pde st i)) ≡ false
  pub not_dir : (i : ℕ) → i < 1023 → present (pde st i) ≡ true → base (pde st i) ≢ st.page_dir
  pub apart :
      (i j : ℕ)
      → i < 1023
      → j < 1023
      → present (pde st i) ≡ true
      → present (pde st j) ≡ true
      → base (pde st i) ≡ base (pde st j)
      → i ≡ j

pub dir_index-lt : (vpn : ℕ) → vpn < window_vpn → dir_index vpn < 1023
dir_index-lt vpn l = omega arith

-- Two pages with the same indices are the same page.
pub indices :
    (v w : ℕ)
    → v < window_vpn
    → w < window_vpn
    → dir_index v ≡ dir_index w
    → table_index v ≡ table_index w
    → v ≡ w
indices v w a b p q = omega arith

-- The entry of a page, through a known entry of the directory.
pte-from :
    (st : Mm) (v : ℕ) {d : ℕ}
    → pde st (dir_index v) ≡ d
    → pte st v ≡ st.frames (base d) (table_index v)
pte-from st v e = ap (λ d. st.frames (base d) (table_index v)) e

clear_loop-cleared :
    (n i f : ℕ) (frames : ℕ → ℕ → ℕ) (g j : ℕ)
    → clear_loop n i f frames g j ≡ (if g == f && leb i j && ltb j (i + n) then 0 else frames g j)
unfolding clear_loop
clear_loop-cleared zero i f frames g j = ground arith
clear_loop-cleared (suc n) i f frames g j =
    ground (arith, clear_loop-cleared n (i + 1) f (put_word frames f i 0) g j)

cleared :
    (f : ℕ) (frames : ℕ → ℕ → ℕ) (g j : ℕ)
    → clear_loop 1024 0 f frames g j ≡ (if g == f && ltb j 1024 then 0 else frames g j)
cleared f frames g j = ground (arith, clear_loop-cleared 1024 0 f frames g j)

put_word-same :
    (frames : ℕ → ℕ → ℕ) (d i f : ℕ)
    → f < 2 ^ 20
    → base (put_word frames d i (table_entry f) d i) ≡ f
put_word-same frames d i f l = rw (==-true d d refl, ==-true i i refl) (table_entry_lem f l).1

-- `st'` is `st` with the table `f` for the entry `i`, and the words of memory are these.
pub record HasTable (i f : ℕ) (st st' : Mm) : Type 0 where
  pub same_pma : st'.pma ≡ st.pma
  pub same_vma : st'.vma ≡ st.vma
  pub same_dir : st'.page_dir ≡ st.page_dir
  pub words :
      (g j : ℕ)
      → st'.frames g j ≡ (
          if g == f && ltb j 1024
          then 0
          else if g == st.page_dir && j == i
          then table_entry f
          else st.frames g j)

pub new_table-HasTable : (i f : ℕ) (st : Mm) → f < 2 ^ 20 → HasTable i f st (new_table i f st)
unfolding new_table
new_table-HasTable i f st l = record {
  same_pma = refl;
  same_vma = refl;
  same_dir = refl;
  words = λ g j.
      let frames1 = put_word st.frames st.page_dir i (table_entry f) in
      subst
        (λ b. clear_loop 1024 0 b frames1 g j ≡ (if g == f && ltb j 1024 then 0 else frames1 g j))
        (sym (put_word-same st.frames st.page_dir i f l)) (cleared f frames1 g j);
}

-- A new table for a part of the address space that had none: no page changes, and the invariant is
-- kept, with the table there.
module _ {st st' : Mm} {f : ℕ} {p : Pma} (i : ℕ) (h : IsPaged st) (t : Takes st.pma f p)
    (n : HasTable i f (record st { pma = p }) st') (hole : present (pde st i) ≡ false) where
  f-fresh : st.page_dir ≢ f
  f-fresh = ground (arith, h.dir_kept, t.was_free)

  pub HasTable-pde : (k : ℕ) → pde st' k ≡ (if k == i then table_entry f else pde st k)
  HasTable-pde k = rw n.same_dir (ground (arith, n.words st.page_dir k, f-fresh))

  pub HasTable-table :
      (k j : ℕ)
      → k < 1023
      → present (pde st k) ≡ true
      → st'.frames (base (pde st k)) j ≡ st.frames (base (pde st k)) j
  HasTable-table k j l q =
      ground (arith, n.words (base (pde st k)) j, h.kept k l q, t.was_free, h.not_dir k l q)

  HasTable-new : (j : ℕ) → j < 1024 → st'.frames (base (table_entry f)) j ≡ 0
  HasTable-new j l = rw (table_entry_lem f t.small).1 (ground (arith, n.words f j))

  pub HasTable-lookup : (v : ℕ) → v < window_vpn → lookup st' v ≡ lookup st v
  HasTable-lookup v l = elim (ℕ_discrete (dir_index v) i) [
    | yes e ↦
        let new : pde st' (dir_index v) ≡ table_entry f =
          ground (arith, HasTable-pde (dir_index v)) in
        let none_there : present (pde st (dir_index v)) ≡ false = rw e hole in
        let empty : pte st' v ≡ 0 =
          pte-from st' v new ∙ HasTable-new (table_index v) (omega arith) in
        ground (arith, empty, none_there)
    | no ne ↦
        let old : pde st' (dir_index v) ≡ pde st (dir_index v) =
          ground (arith, HasTable-pde (dir_index v)) in
        elim (Bool-cases (present (pde st (dir_index v)))) [
          | inl q ↦
              let same = HasTable-table (dir_index v) (table_index v) (dir_index-lt v l) q in
              rw (pte-from st' v old ∙ same, old) refl
          | inr q ↦ rw (old, q) refl
        ]
  ]

  pub HasTable-IsPaged : IsPaged st'
  HasTable-IsPaged = record {
    valid = rw n.same_pma t.valid;
    dir_kept = rw (n.same_pma, n.same_dir) (ground (arith, t.free st.page_dir, h.dir_kept));
    kept = λ k l q. rw n.same_pma (
        ground (
          arith,
          HasTable-pde k,
          t.free (base (pde st' k)),
          h.kept k l,
          table_entry_lem f t.small,
        ));
    not_dir = λ k l q.
        rw n.same_dir
          (ground (arith, HasTable-pde k, h.not_dir k l, table_entry_lem f t.small, f-fresh));
    apart = λ a b l k q r e. ground (
      arith,
      HasTable-pde a,
      HasTable-pde b,
      h.apart a b l k,
      h.kept a l,
      h.kept b k,
      table_entry_lem f t.small,
      t.was_free,
    );
  }

-- The entry of a page is written: the page has what the entry says, no other page changes, and the
-- invariant is kept.
module _ {st st' : Mm} (vpn entry : ℕ) (h : IsPaged st) (low : vpn < window_vpn)
    (there : present (pde st (dir_index vpn)) ≡ true)
    (e : st' ≡ record st {
      frames = put_word st.frames (base (pde st (dir_index vpn))) (table_index vpn) entry;
    }) where
  written-pde : (k : ℕ) → pde st' k ≡ pde st k
  written-pde k = rw e (ground (arith, h.not_dir (dir_index vpn) (dir_index-lt vpn low) there))

  written-word :
      (g j : ℕ)
      → st'.frames g j
        ≡ put_word st.frames (base (pde st (dir_index vpn))) (table_index vpn) entry g j
  written-word g j = ap (λ s. s.frames g j) e

  written-pte :
      (v : ℕ)
      → v < window_vpn
      → present (pde st (dir_index v)) ≡ true
      → pte st' v ≡ (if v == vpn then entry else pte st v)
  written-pte v l q =
      pte-from st' v (written-pde (dir_index v))
      ∙ written-word (base (pde st (dir_index v))) (table_index v)
      ∙ elim (ℕ_discrete v vpn) [
        | yes same ↦ rw same (ground arith)
        | no ne ↦ ground (
          arith,
          h.apart (dir_index v) (dir_index vpn) (dir_index-lt v l) (dir_index-lt vpn low) q there,
          indices v vpn l low,
        )
      ]

  pub written-lookup :
      (v : ℕ)
      → v < window_vpn
      → lookup st' v
        ≡ (if v == vpn then entry_frame (pde st (dir_index vpn)) entry else lookup st v)
  written-lookup v l = elim (Bool-cases (present (pde st (dir_index v)))) [
    | inl q ↦ elim (ℕ_discrete v vpn) [
      | yes same ↦
          let now : pte st' v ≡ entry = ground (arith, written-pte v l q) in
          rw (now, written-pde (dir_index v)) (rw same (ground arith))
      | no ne ↦
          let old : pte st' v ≡ pte st v = ground (arith, written-pte v l q) in
          rw (old, written-pde (dir_index v)) (ground arith)
    ]
    | inr q ↦
        let ne : v ≢ vpn = λ same. ground (arith, ap (λ u. present (pde st (dir_index u))) same) in
        ground (arith, written-pde (dir_index v))
  ]

  pub written-IsPaged : IsPaged st'
  written-IsPaged = record {
    valid = rw e h.valid;
    dir_kept = rw e h.dir_kept;
    kept = λ k l q. rw e (ground (arith, written-pde k, h.kept k l));
    not_dir = λ k l q. rw e (ground (arith, written-pde k, h.not_dir k l));
    apart = λ a b l k q r p. ground (arith, written-pde a, written-pde b, h.apart a b l k);
  }
