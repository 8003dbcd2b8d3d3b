-- ===== src/Paging/Extend.antt =====
-- Pages that get frames of their own, and nothing else that changes in the map of pages.
use emos.Base.{
  ℕ, ◌+◌, ◌≤◌, ◌<◌, ◌≡◌, ◌⊎◌, inl, inr, refl, true, false, arith, none, some, ap, ◌∙◌, Option-cases,
  ℕ_discrete,
}
use emos.Pma.{Pma}
use emos.Paging.{Mm}
use emos.Paging.Frames.{is_free, Takes}
use emos.Paging.Table.{lookup, window_vpn, IsPaged}
use emos.Paging.Map.{Mapped, Takes-kept}

-- The frames of the pages are not handed out again.
abbrev pub AllKept : Mm → Type 0
AllKept st = (v f : ℕ) → v < window_vpn → lookup st v ≡ some f → is_free st.pma f ≡ false

-- From `st` to `st'` pages from `lo` to `hi` that had no frame got frames of their own, which were
-- free, and nothing else changed in the map of pages.
pub record Extends (lo hi : ℕ) (st st' : Mm) : Type 0 where
  pub paged : IsPaged st'
  pub all_kept : AllKept st'
  pub old : (v f : ℕ) → v < window_vpn → lookup st v ≡ some f → lookup st' v ≡ some f
  pub outside : (v : ℕ) → v < window_vpn → (v < lo) ⊎ (hi ≤ v) → lookup st' v ≡ lookup st v
  pub fresh :
      (v f : ℕ)
      → v < window_vpn
      → lookup st v ≡ none
      → lookup st' v ≡ some f
      → is_free st.pma f ≡ true
  pub apart :
      (v u f : ℕ)
      → v < window_vpn
      → u < window_vpn
      → lookup st v ≡ none
      → lookup st' v ≡ some f
      → lookup st' u ≡ some f
      → v ≡ u
  pub shrinks : (g : ℕ) → is_free st.pma g ≡ false → is_free st'.pma g ≡ false

pub Extends-refl : {st : Mm} (lo hi : ℕ) → IsPaged st → AllKept st → Extends lo hi st st
Extends-refl lo hi h k = record {
  paged = h;
  all_kept = k;
  old = λ v f l e. e;
  outside = λ v l o. refl;
  fresh = λ v f l n e. absurd (ground (arith, n, e));
  apart = λ v u f l m n e e'. absurd (ground (arith, n, e));
  shrinks = λ g e. e;
}

pub Extends-trans :
    {st st1 st2 : Mm} (lo mid hi : ℕ)
    → lo ≤ mid
    → mid ≤ hi
    → Extends lo mid st st1
    → Extends mid hi st1 st2
    → Extends lo hi st st2
Extends-trans {st} {st1} {st2} lo mid hi a b p q = record {
  paged = q.paged;
  all_kept = q.all_kept;
  old = λ v f l e. q.old v f l (p.old v f l e);
  outside = λ v l o.
      q.outside v l (elim o [ inl x ↦ inl (omega arith) | inr x ↦ inr x ])
      ∙ p.outside v l (elim o [ inl x ↦ inl x | inr x ↦ inr (omega arith) ]);
  fresh = λ v f l n e. elim (Option-cases (lookup st1 v)) [
    | inl n1 ↦ ground (arith, q.fresh v f l n1 e, p.shrinks f)
    | inr (g, e1) ↦
        let same : g ≡ f = ground (arith, q.old v g l e1, e) in p.fresh v f l n (rw same at e1)
  ];
  apart = λ v u f l m n e e'. elim (Option-cases (lookup st1 v)) [
    | inl n1 ↦ q.apart v u f l m n1 e e'
    | inr (g, e1) ↦
        let same : g ≡ f = ground (arith, q.old v g l e1, e) in
        let here : lookup st1 v ≡ some f = e1 ∙ ap some same in
        elim (Option-cases (lookup st1 u)) [
          | inl n2 ↦ absurd (ground (arith, q.fresh u f m n2 e', p.all_kept v f l here))
          | inr (g', e2) ↦
              let same' : g' ≡ f = ground (arith, q.old u g' m e2, e') in
              p.apart v u f l m n here (e2 ∙ ap some same')
        ]
  ];
  shrinks = λ g e. q.shrinks g (p.shrinks g e);
}

-- A frame is taken from the allocator.
module _ {st : Mm} {f : ℕ} {p : Pma} (h : IsPaged st) (k : AllKept st) (t : Takes st.pma f p) where
  pub Takes-IsPaged : IsPaged (record st { pma = p })
  Takes-IsPaged = record {
    valid = t.valid;
    dir_kept = Takes-kept f t st.page_dir h.dir_kept;
    kept = λ i l q. Takes-kept f t _ (h.kept i l q);
    not_dir = h.not_dir;
    apart = h.apart;
  }

  pub Takes-Extends : (lo hi : ℕ) → Extends lo hi st (record st { pma = p })
  Takes-Extends lo hi = record {
    paged = Takes-IsPaged;
    all_kept = λ v g l e. Takes-kept f t g (k v g l e);
    old = λ v g l e. e;
    outside = λ v l o. refl;
    fresh = λ v g l n e. absurd (ground (arith, n, e));
    apart = λ v u g l m n e e'. absurd (ground (arith, n, e));
    shrinks = Takes-kept f t;
  }

  -- And a page gets it.
  pub Mapped-Extends :
      {st' : Mm} (vpn : ℕ)
      → vpn < window_vpn
      → Mapped f vpn (record st { pma = p }) st'
      → Extends vpn (vpn + 1) st st'
  Mapped-Extends {st'} vpn low m = record {
    paged = m.grows.paged;
    all_kept = λ v g l e. m.grows.kept g (elim (ℕ_discrete v vpn) [
      | yes same ↦ ground (arith, m.pages v l, t.free f, e)
      | no ne ↦ ground (arith, m.pages v l, Takes-kept f t g, k v g l)
    ]);
    old = λ v g l e. ground (arith, m.pages v l, m.was_free);
    outside = λ v l o. ground (arith, m.pages v l);
    fresh = λ v g l n e. ground (arith, m.pages v l, t.was_free);
    apart = λ v u g l n none_there e e'. elim (ℕ_discrete u vpn) [
      | yes same ↦ ground (arith, m.pages v l)
      | no ne ↦ ground (arith, m.pages v l, m.pages u n, k u g n, t.was_free)
    ];
    shrinks = λ g e. m.grows.kept g (Takes-kept f t g e);
  }
