-- ===== src/Console.antt =====
-- boot/device/video/vconsole.c: the console that is drawn on a frame buffer, in a graphics mode, with
-- the cells of boot/include/eboot/interface/console.h. The drawing itself is left out.
use emos.Base.{ℕ, ◌*◌, ◌/◌, Bool, true, false, ◌==◌, not, ◌&&◌, ◌||◌, ltb, if◌then◌else◌}
use emos.Status.{Status, check_success}
use emos.Words.{add, mul, rounds}
use emos.Ends.{done, fails, outside, Act, ◌>>◌, for_up}

pub record CharAttributes : Type 0 where
  pub fg_color : ℕ
  pub text_blink_level : ℕ
  pub text_reversed : Bool
  pub text_bold : Bool
  pub text_dim : Bool
  pub text_italic : Bool
  pub text_underline : Bool
  pub text_strike : Bool
  pub bg_color : ℕ
  pub text_overlined : Bool

pub record CharCell : Type 0 where
  pub attr : CharAttributes
  pub codepoint : ℕ

-- The bits of `diff_buffer` are told apart; the buffers are functions from an index, and have
-- `cols * rows` cells and `cols * rows / 8` bytes.
pub record Console : Type 0 where
  pub cols : ℕ
  pub rows : ℕ
  pub is_switching_mode : Bool
  pub cursor_col : ℕ
  pub cursor_row : ℕ
  pub cursor_prev_col : ℕ
  pub cursor_prev_row : ℕ
  pub cursor_visible : Bool
  pub char_buffer : ℕ → CharCell
  pub diff_buffer : ℕ → Bool

unfoldable pub set_cursor_pos : (col row : ℕ) → Act Console (Unit {0})
set_cursor_pos col row c = done tt (record c { cursor_col = col; cursor_row = row })

-- A read and a write of `char_buffer[i]`.
unfoldable pub cell_at : (i : ℕ) → Act Console CharCell
cell_at i c = if ltb i (c.cols * c.rows) then done (c.char_buffer i) c else outside

unfoldable pub set_cell : (i : ℕ) → CharCell → Act Console (Unit {0})
set_cell i cell c =
    if ltb i (c.cols * c.rows)
    then done tt (record c { char_buffer = λ j. if j == i then cell else c.char_buffer j })
    else outside

-- `diff_buffer[i / 8] |= 1 << (i % 8)`, and the bit cleared.
unfoldable pub set_diff : (bit : Bool) (i : ℕ) → Act Console (Unit {0})
set_diff bit i c =
    if ltb (i / 8) (c.cols * c.rows / 8)
    then done tt (record c { diff_buffer = λ j. if j == i then bit else c.diff_buffer j })
    else outside

unfoldable pub invalidate : (x0 y0 x1 y1 : ℕ) → Act Console (Unit {0})
unfolding for_up set_diff
invalidate x0 y0 x1 y1 c =
    if c.is_switching_mode
    then fails Status.conflicting_state c
    else for_up (rounds y0 y1) y0
        (λ row. for_up (rounds x0 x1) x0 (λ col. set_diff true (add (mul row c.cols) col))) c

-- Whether `flush` draws the cell: it is marked, or the cursor has left it.
abbrev pub is_drawn : (col row : ℕ) → Console → Bool
is_drawn col row c =
    c.diff_buffer (add (mul row c.cols) col)
    || ((not (c.cursor_prev_col == c.cursor_col) || not (c.cursor_prev_row == c.cursor_row))
        && (c.cursor_prev_col == col && c.cursor_prev_row == row))

-- The body of the loops of `flush`: the byte of the cell is read, and its bit cleared behind the
-- drawing.
unfoldable pub flush_cell : (row col : ℕ) → Act Console (Unit {0})
unfolding set_diff
flush_cell row col c =
    let i = add (mul row c.cols) col in
    if ltb (i / 8) (c.cols * c.rows / 8)
    then (if is_drawn col row c then set_diff false i c else done tt c)
    else outside

-- The cursor is where it was drawn.
abbrev pub settle : Console → Console
settle c = record c { cursor_prev_col = c.cursor_col; cursor_prev_row = c.cursor_row }

-- With the status of the frame buffer's own `flush`.
unfoldable pub flush : Status → Act Console (Unit {0})
unfolding for_up flush_cell check_success
flush below c =
    if c.is_switching_mode
    then fails Status.conflicting_state c
    else (for_up c.rows 0 (λ row. for_up c.cols 0 (flush_cell row)) >> λ c'.
          if check_success below then done tt (settle c') else fails below (settle c'))
        c

-- `set_cursor_visibility` does not look at the status of `flush`.
unfoldable pub set_cursor_visibility : Status → Bool → Act Console (Unit {0})
unfolding flush
set_cursor_visibility below visibility c =
    elim (flush below (record c { cursor_visible = visibility })) [
      | done _ c' ↦ done tt c'
      | fails _ c' ↦ done tt c'
      | outside ↦ outside
    ]
