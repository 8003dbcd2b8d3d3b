-- ===== src/Ansiterm/Write/Stays.antt =====
-- Text that the terminal writes stays on the screen.
use emos.Base.{
  ℕ, zero, suc, ◌+◌, ◌-◌, ◌%◌, ◌≤◌, ◌<◌, ◌≡◌, ◌≢◌, refl, Bool, true, false, List, [], ◌∷◌, ◌==◌,
  ◌&&◌, ==-false, if◌then◌else◌, arith,
}
use emos.Status.{Status}
use emos.Words.{add, sub, int_lt, minus_one, rounds}
use emos.Ends.{Ended, done, follow, ◌>>◌, pass}
use emos.Console.{set_cursor_pos, invalidate}
use emos.Ansiterm.{
  Term, on_console, put_cell, get_cell, console_putchar, console_scroll, console_backspace,
  backspace_loop,
}
use emos.Ansiterm.Write.{
  set_pos, feed_line, go_on, wrap_wide, put_plain, put_default, put_char, wwrite_loop,
}
use emos.Ansiterm.Screen.{
  Returns, follow-Returns, AreSizes, IsReady, Ready, ReadyWith, on_console-Ready, put_cell-Ready,
  get_cell-Ready, console_scroll-Ready, invalidate-Shown, last_col, last_row,
}

module _ (cols rows : ℕ) (sizes : AreSizes cols rows) where
  set_pos-Ready :
      (x y : ℕ) (t : Term)
      → x < cols
      → y < rows
      → IsReady cols rows sizes t
      → Returns (Ready cols rows sizes) (set_pos x y t)
  unfolding set_cursor_pos
  set_pos-Ready x y t h k r = on_console-Ready cols rows sizes (set_cursor_pos x y) t r (record {
    cols_is = r.screen.cols_is;
    rows_is = r.screen.rows_is;
    is_shown = r.screen.is_shown;
    col_in = h;
    row_in = k;
  })

  feed_line-Ready :
      (x y : ℕ) (t : Term)
      → x < cols
      → y < rows
      → IsReady cols rows sizes t
      → Returns (Ready cols rows sizes) (feed_line x y t)
  unfolding feed_line
  feed_line-Ready x y t h k r =
      simp (r.screen.cols_is, r.screen.rows_is, last_col cols rows sizes, last_row cols rows sizes)
        (line (int_lt (add y 1) rows) (ground (arith, sizes.rows_fit)))
    where
      line :
          (more : Bool)
          → (more ≡ true → add y 1 < rows)
          → Returns (Ready cols rows sizes) (
              if more
              then set_pos x (add y 1) t
              else follow
                  (console_scroll 1 0 0 (cols - 1) (rows - 1) t)
                  (λ _. set_pos x (rows - 1)))
      line true inside = set_pos-Ready x (add y 1) t h (inside refl) r
      line false inside =
          follow-Returns (Ready cols rows sizes) (Ready cols rows sizes) _ _
            (console_scroll-Ready cols rows sizes t r)
            (λ u t' r'. set_pos-Ready x (rows - 1) t' h (omega (arith, sizes.high)) r')

  go_on-Ready :
      (wcwidth : ℕ → ℕ) (below : Status) (cwidth x y : ℕ) (t : Term)
      → cwidth ≤ 2
      → x < cols
      → y < rows
      → IsReady cols rows sizes t
      → Returns (Ready cols rows sizes) (go_on wcwidth below cwidth x y t)
  unfolding go_on
  go_on-Ready wcwidth below cwidth x y t w h k r =
      simp r.screen.cols_is (line (int_lt (add x cwidth) cols) (ground (arith, sizes.cols_fit)))
    where
      line :
          (more : Bool)
          → (more ≡ true → add x cwidth < cols)
          → Returns
              (Ready cols rows sizes)
              (if more then set_pos (add x cwidth) y t else feed_line 0 y t)
      line true inside = set_pos-Ready (add x cwidth) y t (inside refl) k r
      line false inside = feed_line-Ready 0 y t (omega (arith, sizes.wide)) k r

  wrap_wide-Ready :
      (wcwidth : ℕ → ℕ) (below : Status) (cwidth x y : ℕ) (t : Term)
      → x < cols
      → y < rows
      → IsReady cols rows sizes t
      → Returns (Ready cols rows sizes) (wrap_wide wcwidth below cwidth x y t)
  unfolding wrap_wide
  wrap_wide-Ready wcwidth below cwidth x y t h k r =
      line (int_lt 1 cwidth && int_lt t.console.cols (add x cwidth))
    where
      line :
          (full : Bool)
          → Returns (Ready cols rows sizes) (if full then feed_line 0 y t else done tt t)
      line true = feed_line-Ready 0 y t (omega (arith, sizes.wide)) k r
      line false = r

  -- A cell at the cursor is put, and marked.
  put_marked :
      (x y mx ch : ℕ) (t : Term)
      → x < cols
      → mx < cols
      → y < rows
      → IsReady cols rows sizes t
      → Returns
          (Ready cols rows sizes)
          (follow (put_cell x y ch t) (λ _. on_console (invalidate mx y mx y)))
  put_marked x y mx ch t h m k r =
      follow-Returns (Ready cols rows sizes) (Ready cols rows sizes) _ _
        (put_cell-Ready cols rows sizes x y ch t h k r)
        (λ u t' r'. on_console-Ready cols rows sizes (invalidate mx y mx y) t' r' (
          invalidate-Shown cols rows sizes mx y mx y t'.console
            (record { x_le = omega arith; x_in = m; y_le = omega arith; y_in = k }) r'.screen))

  console_putchar-Ready :
      (is_wide : Bool) (ch : ℕ) (t : Term)
      → IsReady cols rows sizes t
      → Returns (Ready cols rows sizes) (console_putchar is_wide ch t)
  unfolding console_putchar
  console_putchar-Ready is_wide ch t r =
      let x = t.console.cursor_col in
      let y = t.console.cursor_row in
      follow-Returns (Ready cols rows sizes) (Ready cols rows sizes) _ _
        (put_cell-Ready cols rows sizes x y ch t r.screen.col_in r.screen.row_in r)
        (λ u t1 r1.
          follow-Returns (Ready cols rows sizes) (Ready cols rows sizes) _ _ (mark t1 r1)
            (λ v t2 r2.
              second (is_wide && int_lt (add x 1) t.console.cols)
                (ground (arith, r.screen.cols_is, r.screen.col_in, sizes.cols_fit)) t2 r2))
    where
      mark :
          (t' : Term)
          → IsReady cols rows sizes t'
          → Returns (Ready cols rows sizes) (
              on_console
                (invalidate t.console.cursor_col t.console.cursor_row t.console.cursor_col
                  t.console.cursor_row)
                t')
      mark t' r' =
          on_console-Ready cols rows sizes
            (invalidate t.console.cursor_col t.console.cursor_row t.console.cursor_col
              t.console.cursor_row)
            t' r'
            (invalidate-Shown cols rows sizes t.console.cursor_col t.console.cursor_row
              t.console.cursor_col t.console.cursor_row t'.console
              (record {
                x_le = omega arith;
                x_in = r.screen.col_in;
                y_le = omega arith;
                y_in = r.screen.row_in;
              })
              r'.screen)

      second :
          (both : Bool)
          → (both ≡ true → add t.console.cursor_col 1 < cols)
          → (t' : Term) → IsReady cols rows sizes t'
          → Returns (Ready cols rows sizes) (
              (if both
                  then (put_cell (add t.console.cursor_col 1) t.console.cursor_row minus_one
                      >> on_console (
                          invalidate t.console.cursor_col t.console.cursor_row t.console.cursor_col
                            t.console.cursor_row))
                  else pass)
                t')
      second true inside t' r' =
          put_marked (add t.console.cursor_col 1) t.console.cursor_row t.console.cursor_col
            minus_one t' (inside refl) r.screen.col_in r.screen.row_in r'
      second false inside t' r' = r'

  -- The loop of console_backspace reads cells left of the cursor.
  abbrev ColumnIn : ℕ → Term → Type 0
  ColumnIn x t = (x < cols) × IsReady cols rows sizes t

  backspace_loop-In :
      (n x stop y : ℕ) (t : Term)
      → (0 < n → (x + 1 < cols) × (n ≤ x + 1))
      → stop < cols
      → y < rows
      → IsReady cols rows sizes t
      → Returns ColumnIn (backspace_loop n x stop y t)
  unfolding backspace_loop
  backspace_loop-In zero x stop y t h s k r = (s, r)
  backspace_loop-In (suc n) x stop y t h s k r =
      let room = h (omega arith) in
      follow-Returns (ReadyWith cols rows sizes) ColumnIn _ _
        (get_cell-Ready cols rows sizes x y t (omega arith) k r)
        (λ cell t' r'. found (cell.codepoint == 0) t' r' (
          backspace_loop-In n (sub x 1) stop y t'
            (λ p. (omega (arith, sizes.cols_fit), omega (arith, sizes.cols_fit))) s k r'))
    where
      found :
          (blank : Bool) (t' : Term)
          → IsReady cols rows sizes t'
          → Returns ColumnIn (backspace_loop n (sub x 1) stop y t')
          → Returns ColumnIn (elim blank [
            | true ↦ backspace_loop n (sub x 1) stop y t'
            | false ↦ done (add x 1) t'
          ])
      found true t' r' rest = rest
      found false t' r' rest = (omega (arith, sizes.cols_fit, h (omega arith)), r')

  console_backspace-In :
      (t : Term) → IsReady cols rows sizes t → Returns ColumnIn (console_backspace t)
  unfolding console_backspace
  console_backspace-In t r =
      start (int_lt t.console.cursor_col 1) (ground (arith, r.screen.col_in, sizes.cols_fit))
    where
      behind :
          (blank : Bool) (t' : Term)
          → 1 ≤ t.console.cursor_col
          → IsReady cols rows sizes t'
          → Returns ColumnIn (
              (if blank
                  then backspace_loop
                      (rounds
                        (sub (sub t.console.cursor_col 1) (sub t.console.cursor_col 1 % 8))
                        (sub t.console.cursor_col 2))
                      (sub t.console.cursor_col 2)
                      (sub (sub t.console.cursor_col 1) (sub t.console.cursor_col 1 % 8))
                      t.console.cursor_row
                  else λ t''. done (sub t.console.cursor_col 1) t'')
                t')
      behind true t' p r' =
          backspace_loop-In _ _ _ _ t' (ground (arith, r.screen.col_in, sizes.cols_fit))
            (omega (arith, r.screen.col_in, sizes.cols_fit)) r.screen.row_in r'
      behind false t' p r' = (omega (arith, r.screen.col_in, sizes.cols_fit), r')

      start :
          (first : Bool)
          → (first ≡ false → 1 ≤ t.console.cursor_col)
          → Returns ColumnIn (
              if first
              then done t.console.cursor_col t
              else follow (get_cell (sub t.console.cursor_col 1) t.console.cursor_row t) (λ cell.
                if cell.codepoint == 0
                then backspace_loop
                    (rounds
                      (sub (sub t.console.cursor_col 1) (sub t.console.cursor_col 1 % 8))
                      (sub t.console.cursor_col 2))
                    (sub t.console.cursor_col 2)
                    (sub (sub t.console.cursor_col 1) (sub t.console.cursor_col 1 % 8))
                    t.console.cursor_row
                else λ t''. done (sub t.console.cursor_col 1) t''))
      start true p = (r.screen.col_in, r)
      start false p =
          follow-Returns (ReadyWith cols rows sizes) ColumnIn _ _
            (get_cell-Ready cols rows sizes (sub t.console.cursor_col 1) t.console.cursor_row t
              (omega (arith, p refl, r.screen.col_in, sizes.cols_fit)) r.screen.row_in r)
            (λ cell t' r'. behind (cell.codepoint == 0) t' (p refl) r')

  module _ (wcwidth : ℕ → ℕ) (below : Status) where
    -- Neither a tab nor an escape, and at most two columns wide.
    pub record IsSimple (ch : ℕ) : Type 0 where
      pub no_tab : ch ≢ 9
      pub no_escape : ch ≢ 27
      pub narrow : wcwidth ch ≤ 2

    abbrev pub AreSimple : List ℕ → Type 0
    AreSimple [] = Unit {0}
    AreSimple (ch ∷ text) = IsSimple ch × AreSimple text

    put_plain-Ready :
        (ch : ℕ) (t : Term)
        → wcwidth ch ≤ 2
        → IsReady cols rows sizes t
        → Returns (Ready cols rows sizes) (put_plain wcwidth below ch t)
    unfolding put_plain
    put_plain-Ready ch t w r = printed (int_lt ch 0x20)
      where
        printed :
            (control : Bool)
            → Returns (Ready cols rows sizes) (
                if control
                then set_pos t.console.cursor_col t.console.cursor_row t
                else (wrap_wide wcwidth below (wcwidth ch) t.console.cursor_col t.console.cursor_row
                      >> (console_putchar (int_lt 1 (wcwidth ch)) ch >> λ t'.
                          go_on wcwidth below
                            (wcwidth ch)
                            t'.console.cursor_col
                            t'.console.cursor_row
                            t'))
                    t)
        printed true =
            set_pos-Ready t.console.cursor_col t.console.cursor_row t r.screen.col_in
              r.screen.row_in r
        printed false =
            follow-Returns (Ready cols rows sizes) (Ready cols rows sizes) _ _
              (wrap_wide-Ready wcwidth below (wcwidth ch) t.console.cursor_col t.console.cursor_row
                t r.screen.col_in r.screen.row_in r)
              (λ u t1 r1.
                follow-Returns (Ready cols rows sizes) (Ready cols rows sizes) _ _
                  (console_putchar-Ready (int_lt 1 (wcwidth ch)) ch t1 r1)
                  (λ v t2 r2.
                    go_on-Ready wcwidth below (wcwidth ch) t2.console.cursor_col
                      t2.console.cursor_row t2 w r2.screen.col_in r2.screen.row_in r2))

    if-Returns :
        (b : Bool) (x y : Ended Term (Unit {0}))
        → Returns (Ready cols rows sizes) x
        → Returns (Ready cols rows sizes) y
        → Returns (Ready cols rows sizes) (if b then x else y)
    if-Returns true x y h k = h
    if-Returns false x y h k = k

    put_default-Ready :
        (ch : ℕ) (t : Term)
        → IsSimple ch
        → IsReady cols rows sizes t
        → Returns (Ready cols rows sizes) (put_default wcwidth below ch t)
    unfolding put_default
    put_default-Ready ch t s r =
        let x = t.console.cursor_col in
        let y = t.console.cursor_row in
        let here = set_pos-Ready x y t r.screen.col_in r.screen.row_in r in
        let start : 0 < cols = omega (arith, sizes.wide) in
        rw (==-false ch 9 s.no_tab, ==-false ch 27 s.no_escape)
          (if-Returns (ch == 7) _ _ here (
            if-Returns (ch == 8) _ _
              (follow-Returns ColumnIn (Ready cols rows sizes) _ _ (console_backspace-In t r)
                (λ x' t' c. set_pos-Ready x' y t' c.0 r.screen.row_in c.1))
              (if-Returns (ch == 10) _ _ (feed_line-Ready 0 y t start r.screen.row_in r) (
                if-Returns (ch == 11) _ _ (feed_line-Ready x y t r.screen.col_in r.screen.row_in r)
                  (if-Returns (ch == 12) _ _ here (
                    if-Returns (ch == 13) _ _ (set_pos-Ready 0 y t start r.screen.row_in r)
                      (put_plain-Ready ch t s.narrow r)))))))

    put_char-Ready :
        (ch : ℕ) (t : Term)
        → IsSimple ch
        → IsReady cols rows sizes t
        → Returns (Ready cols rows sizes) (put_char wcwidth below ch t)
    unfolding put_char
    put_char-Ready ch t s r = simp r.is_default (put_default-Ready ch t s r)

    -- On a screen that has two columns or more, fewer than 2 ^ 31 cells and a whole number of bytes of
    -- marks, outside of a change of the video mode, with the cursor on it and outside of a sequence,
    -- the loop of wwrite succeeds on every text without tabs and escapes whose characters have the
    -- width 0, 1 or 2, and not -1: no cell and no mark outside of the buffers is reached, and the
    -- cursor stays on the screen.
    pub wwrite_loop-Ready :
        (text : List ℕ) (t : Term)
        → AreSimple text
        → IsReady cols rows sizes t
        → Returns (Ready cols rows sizes) (wwrite_loop wcwidth below text t)
    unfolding wwrite_loop
    wwrite_loop-Ready [] t s r = r
    wwrite_loop-Ready (ch ∷ text) t (s, ss) r =
        follow-Returns (Ready cols rows sizes) (Ready cols rows sizes) _ _ (put_char-Ready ch t s r)
          (λ u t' r'. wwrite_loop-Ready text t' ss r')
