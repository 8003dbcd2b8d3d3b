-- ===== src/Ansiterm/Screen.antt =====
-- What the terminal does on a screen keeps the cursor on it and reaches no other cells.
use emos.Base.{
  ℕ, zero, suc, ◌+◌, ◌-◌, ◌*◌, ◌/◌, ◌%◌, ◌^◌, ◌≤◌, ◌<◌, ◌≡◌, refl, true, false, ltb-true, arith,
  dec_lt,
}
use emos.Words.{add, sub, mul, rounds}
use emos.Ends.{Ended, done, fails, outside, follow, Act, for_up}
use emos.Console.{Console, CharCell, cell_at, set_cell, set_diff, invalidate}
use emos.Ansiterm.{
  EscapeState, Term, raised, on_console, index, put_cell, get_cell, console_erase, copy_cell,
  ignored, ignoring_status, console_scroll,
}

-- The call ends with success, and its result and its state are so.
abbrev pub Returns : {S A : Type 0} → (A → S → Type 0) → Ended S A → Type 0
Returns P (done a s) = P a s
Returns P (fails st s) = ⊥
Returns P outside = ⊥

pub follow-Returns :
    {S A B : Type 0} (P : A → S → Type 0) (Q : B → S → Type 0) (e : Ended S A) (f : A → Act S B)
    → Returns P e
    → ((a : A) (s : S) → P a s → Returns Q (f a s))
    → Returns Q (follow e f)
follow-Returns P Q (done a s) f h k = k a s h
follow-Returns P Q (fails st s) f h k = elim h [ ]
follow-Returns P Q outside f h k = elim h [ ]

pub for_up-Returns :
    {S : Type 0} (P : Unit {0} → S → Type 0) (n i : ℕ) (body : ℕ → Act S (Unit {0})) (s : S)
    → i + n ≤ 2 ^ 31
    → ((j : ℕ) (s' : S) → i ≤ j → j < i + n → P tt s' → Returns P (body j s'))
    → P tt s
    → Returns P (for_up n i body s)
unfolding for_up
for_up-Returns P zero i body s b k h = h
for_up-Returns P (suc n) i body s b k h =
    let next : (i + 1) % 2 ^ 32 ≡ i + 1 = omega arith in
    follow-Returns P P (body i s) _ (k i s (omega arith) (omega arith) h) (λ u s' h'. rw next (
      for_up-Returns P n (i + 1) body s' (omega arith)
        (λ j s'' l m. k j s'' (omega arith) (omega arith)) h'))

-- A screen of `cols * rows` cells, whose marks fit their bytes, with the cursor on it.
pub record IsScreen (cols rows : ℕ) (c : Console) : Type 0 where
  pub cols_is : c.cols ≡ cols
  pub rows_is : c.rows ≡ rows
  pub is_shown : c.is_switching_mode ≡ false
  pub col_in : c.cursor_col < cols
  pub row_in : c.cursor_row < rows

-- The sizes of a screen.
pub record AreSizes (cols rows : ℕ) : Type 0 where
  pub wide : 2 ≤ cols
  pub cols_fit : cols < 2 ^ 31
  pub high : 1 ≤ rows
  pub rows_fit : rows < 2 ^ 31
  pub fits : cols * rows < 2 ^ 31
  pub whole : cols * rows % 8 ≡ 0

position : (x y cols rows : ℕ) → x < cols → y < rows → y * cols + x < cols * rows
position x y cols rows h k = grind arith

module _ (cols rows : ℕ) (sizes : AreSizes cols rows) where
  pub index-lt : (x y : ℕ) → x < cols → y < rows → (y * cols % 2 ^ 32 + x) % 2 ^ 32 < cols * rows
  index-lt x y h k = omega (arith, position x y cols rows h k, sizes.fits)

  abbrev pub Shown : Unit {0} → Console → Type 0
  Shown u c = IsScreen cols rows c

  abbrev pub ShownWith : CharCell → Console → Type 0
  ShownWith cell c = IsScreen cols rows c

  index-in :
      (x y width : ℕ) (c : Console)
      → width ≡ cols
      → x < cols
      → y < rows
      → IsScreen cols rows c
      → add (mul y width) x < c.cols * c.rows
  index-in x y width c w h k v = rw (w, v.cols_is, v.rows_is) (index-lt x y h k)

  mark-in :
      (x y width : ℕ) (c : Console)
      → width ≡ cols
      → x < cols
      → y < rows
      → IsScreen cols rows c
      → add (mul y width) x / 8 < c.cols * c.rows / 8
  mark-in x y width c w h k v =
      rw (w, v.cols_is, v.rows_is) (omega (arith, index-lt x y h k, sizes.whole))

  cell_at-Shown :
      (x y width : ℕ) (c : Console)
      → width ≡ cols
      → x < cols
      → y < rows
      → IsScreen cols rows c
      → Returns ShownWith (cell_at (add (mul y width) x) c)
  unfolding cell_at
  cell_at-Shown x y width c w h k v = rw (ltb-true _ _ (index-in x y width c w h k v)) v

  set_cell-Shown :
      (x y width : ℕ) (cell : CharCell) (c : Console)
      → width ≡ cols
      → x < cols
      → y < rows
      → IsScreen cols rows c
      → Returns Shown (set_cell (add (mul y width) x) cell c)
  unfolding set_cell
  set_cell-Shown x y width cell c w h k v =
      rw (ltb-true _ _ (index-in x y width c w h k v)) (record {
        cols_is = v.cols_is;
        rows_is = v.rows_is;
        is_shown = v.is_shown;
        col_in = v.col_in;
        row_in = v.row_in;
      })

  set_diff-Shown :
      (x y width : ℕ) (c : Console)
      → width ≡ cols
      → x < cols
      → y < rows
      → IsScreen cols rows c
      → Returns Shown (set_diff true (add (mul y width) x) c)
  unfolding set_diff
  set_diff-Shown x y width c w h k v = rw (ltb-true _ _ (mark-in x y width c w h k v)) (record {
    cols_is = v.cols_is;
    rows_is = v.rows_is;
    is_shown = v.is_shown;
    col_in = v.col_in;
    row_in = v.row_in;
  })

  -- The rounds of a loop over columns or rows of the screen.
  pub rounds-in :
      (lo hi size : ℕ) → lo ≤ hi → hi < size → size < 2 ^ 31 → lo + rounds lo hi ≡ suc hi
  rounds-in lo hi size l h s = ground arith

  -- A rectangle that is on the screen.
  pub record IsInside (x0 y0 x1 y1 : ℕ) : Type 0 where
    pub x_le : x0 ≤ x1
    pub x_in : x1 < cols
    pub y_le : y0 ≤ y1
    pub y_in : y1 < rows

  -- Two loops over a rectangle.
  pub for_each-Returns :
      {S : Type 0} (P : Unit {0} → S → Type 0) (x0 y0 x1 y1 : ℕ)
      (body : (y x : ℕ) → Act S (Unit {0})) (s : S)
      → IsInside x0 y0 x1 y1
      → ((y x : ℕ) (s' : S) → y ≤ y1 → x ≤ x1 → P tt s' → Returns P (body y x s'))
      → P tt s
      → Returns P (for_up (rounds y0 y1) y0 (λ y. for_up (rounds x0 x1) x0 (body y)) s)
  for_each-Returns P x0 y0 x1 y1 body s r k h =
      let high = rounds-in y0 y1 rows r.y_le r.y_in sizes.rows_fit in
      let wide = rounds-in x0 x1 cols r.x_le r.x_in sizes.cols_fit in
      for_up-Returns P (rounds y0 y1) y0 (λ y. for_up (rounds x0 x1) x0 (body y)) s
        (omega (arith, high, r.y_in, sizes.rows_fit))
        (λ y s' l m p.
          for_up-Returns P (rounds x0 x1) x0 (body y) s'
            (omega (arith, wide, r.x_in, sizes.cols_fit))
            (λ x s'' l' m'. k y x s'' (omega (arith, high)) (omega (arith, wide))) p)
        h

  pub invalidate-Shown :
      (x0 y0 x1 y1 : ℕ) (c : Console)
      → IsInside x0 y0 x1 y1
      → IsScreen cols rows c
      → Returns Shown (invalidate x0 y0 x1 y1 c)
  unfolding invalidate
  invalidate-Shown x0 y0 x1 y1 c r v = simp v.is_shown (
      for_each-Returns Shown x0 y0 x1 y1 (λ row col. set_diff true (add (mul row c.cols) col)) c r
        (λ y x c' k h v'.
          set_diff-Shown x y c.cols c' v.cols_is (omega (arith, r.x_in)) (omega (arith, r.y_in)) v')
        v)

  -- The terminal is outside of a sequence, and its console is such a screen.
  pub record IsReady (t : Term) : Type 0 where
    pub is_default : t.escape_seq_state ≡ EscapeState.default
    pub screen : IsScreen cols rows t.console

  abbrev pub Ready : Unit {0} → Term → Type 0
  Ready u t = IsReady t

  abbrev pub ReadyWith : {A : Type 0} → A → Term → Type 0
  ReadyWith a t = IsReady t

  pub on_console-Ready :
      {A : Type 0} (act : Act Console A) (t : Term)
      → IsReady t
      → Returns (λ a c. IsScreen cols rows c) (act t.console)
      → Returns ReadyWith (on_console act t)
  unfolding on_console
  on_console-Ready {A} act t r h = go (act t.console) h
    where
      go :
          (e : Ended Console A)
          → Returns (λ a c. IsScreen cols rows c) e
          → Returns ReadyWith (raised t e)
      go (done a c) h' = record { is_default = r.is_default; screen = h' }
      go (fails s c) h' = elim h' [ ]
      go outside h' = elim h' [ ]

  pub put_cell-Ready :
      (x y codepoint : ℕ) (t : Term)
      → x < cols
      → y < rows
      → IsReady t
      → Returns Ready (put_cell x y codepoint t)
  unfolding put_cell
  put_cell-Ready x y codepoint t h k r =
      let cell : CharCell = record { attr = t.attr_state; codepoint = codepoint } in
      on_console-Ready (set_cell (index t x y) cell) t r
        (set_cell-Shown x y t.console.cols cell t.console r.screen.cols_is h k r.screen)

  pub get_cell-Ready :
      (x y : ℕ) (t : Term) → x < cols → y < rows → IsReady t → Returns ReadyWith (get_cell x y t)
  unfolding get_cell
  get_cell-Ready x y t h k r =
      on_console-Ready (cell_at (index t x y)) t r
        (cell_at-Shown x y t.console.cols t.console r.screen.cols_is h k r.screen)

  copy_cell-Ready :
      (from x y : ℕ) (t : Term)
      → from < rows
      → x < cols
      → y < rows
      → IsReady t
      → Returns Ready (copy_cell from x y t)
  unfolding copy_cell
  copy_cell-Ready from x y t f h k r =
      follow-Returns ReadyWith Ready (get_cell x from t) _ (get_cell-Ready x from t h f r)
        (λ cell t' r'.
          on_console-Ready (set_cell (index t x y) cell) t' r'
            (set_cell-Shown x y t.console.cols cell t'.console r.screen.cols_is h k r'.screen))

  pub console_erase-Ready :
      (x0 y0 x1 y1 : ℕ) (t : Term)
      → IsInside x0 y0 x1 y1
      → IsReady t
      → Returns Ready (console_erase x0 y0 x1 y1 t)
  unfolding console_erase
  console_erase-Ready x0 y0 x1 y1 t i r =
      follow-Returns Ready Ready
        (for_up (rounds y0 y1) y0 (λ y. for_up (rounds x0 x1) x0 (λ x. put_cell x y 0)) t) _
        (for_each-Returns Ready x0 y0 x1 y1 (λ y x. put_cell x y 0) t i
          (λ y x t' k h r'.
            put_cell-Ready x y 0 t' (omega (arith, i.x_in)) (omega (arith, i.y_in)) r')
          r)
        (λ u t' r'.
          on_console-Ready (invalidate x0 y0 x1 y1) t' r'
            (invalidate-Shown x0 y0 x1 y1 t'.console i r'.screen))

  ignoring_status-Ready :
      (act : Act Term (Unit {0})) (t : Term)
      → Returns Ready (act t)
      → Returns Ready (ignoring_status act t)
  unfolding ignoring_status
  ignoring_status-Ready act t h = go (act t) h
    where
      go : (e : Ended Term (Unit {0})) → Returns Ready e → Returns Ready (ignored e)
      go (done a c) h' = h'
      go (fails s c) h' = elim h' [ ]
      go outside h' = elim h' [ ]

  last : (n : ℕ) → 1 ≤ n → n < 2 ^ 31 → sub n 1 ≡ n - 1
  last n h k = omega arith

  pub last_col : sub cols 1 ≡ cols - 1
  last_col = last cols (omega (arith, sizes.wide)) sizes.cols_fit

  pub last_row : sub rows 1 ≡ rows - 1
  last_row = last rows sizes.high sizes.rows_fit

  -- The loops of a scroll by one line.
  scroll_loops :
      (t : Term)
      → IsReady t
      → Returns Ready (
          for_up
            (rounds 0 (sub (rows - 1) 1))
            0
            (λ y. for_up (rounds 0 (cols - 1)) 0 (λ x. copy_cell (add y 1) x y))
            t)
  scroll_loops t r = elim (dec_lt 1 rows) [
    | yes h ↦
        let above : sub (rows - 1) 1 ≡ rows - 2 = omega (arith, sizes.rows_fit) in
        let inside : IsInside 0 0 (cols - 1) (rows - 2) = record {
          x_le = omega arith;
          x_in = omega (arith, sizes.wide);
          y_le = omega arith;
          y_in = omega arith;
        } in
        rw above (
          for_each-Returns Ready 0 0 (cols - 1) (rows - 2) (λ y x. copy_cell (add y 1) x y) t inside
            (λ y x t' h' k r'.
              copy_cell-Ready (add y 1) x y t' (omega (arith, sizes.rows_fit))
                (omega (arith, sizes.wide)) (omega arith) r')
            r)
    | no n ↦
        let one : rows ≡ 1 = omega (arith, sizes.high) in
        let idle : rounds 0 (sub (rows - 1) 1) ≡ 0 = rw one refl in
        rw idle (
          for_up-Returns Ready 0 0
            (λ y. for_up (rounds 0 (cols - 1)) 0 (λ x. copy_cell (add y 1) x y)) t (omega arith)
            (λ j s' l m. absurd (omega arith)) r)
  ]

  pub console_scroll-Ready :
      (t : Term) → IsReady t → Returns Ready (console_scroll 1 0 0 (cols - 1) (rows - 1) t)
  unfolding console_scroll
  console_scroll-Ready t r =
      let whole : IsInside 0 0 (cols - 1) (rows - 1) = record {
        x_le = omega arith;
        x_in = omega (arith, sizes.wide);
        y_le = omega arith;
        y_in = omega (arith, sizes.high);
      } in
      let row : add (sub (rows - 1) 1) 1 ≡ rows - 1 = omega (arith, sizes.high, sizes.rows_fit) in
      let below : IsInside 0 (rows - 1) (cols - 1) (rows - 1) = record {
        x_le = omega arith;
        x_in = omega (arith, sizes.wide);
        y_le = omega arith;
        y_in = omega (arith, sizes.high);
      } in
      follow-Returns Ready Ready _ (λ _. on_console (invalidate 0 0 (cols - 1) (rows - 1)))
        (follow-Returns Ready Ready _ _ (scroll_loops t r) (λ u t' r'.
          ignoring_status-Ready (console_erase 0 (add (sub (rows - 1) 1) 1) (cols - 1) (rows - 1))
            t' (rw row (console_erase-Ready 0 (rows - 1) (cols - 1) (rows - 1) t' below r'))))
        (λ u t' r'.
          on_console-Ready (invalidate 0 0 (cols - 1) (rows - 1)) t' r'
            (invalidate-Shown 0 0 (cols - 1) (rows - 1) t'.console whole r'.screen))
