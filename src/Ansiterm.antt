-- ===== src/Ansiterm.antt =====
-- boot/device/char/ansiterm.c: the terminal with its escape sequences, over the console of
-- boot/device/video/vconsole.c. `wcwidth` is a parameter, and so is the status of the frame
-- buffer's `flush`. Here are the state and the functions on cells.
pub mod Escape
pub mod Screen
pub mod Write
mod Tests
use emos.Base.{
  ℕ, zero, suc, ◌+◌, ◌-◌, ◌*◌, ◌/◌, ◌%◌, ◌^◌, Bool, true, false, List, ◌&&◌, ◌==◌, ltb,
  if◌then◌else◌, length, get_or, set, get_elem?,
}
use emos.Status.{Status}
use emos.Words.{add, sub, mul, int_lt, int_le, minus_one, rounds}
use emos.Ends.{Ended, done, fails, outside, Act, ◌>>=◌, ◌>>◌, pass, for_up, for_down}
use emos.Console.{Console, CharAttributes, CharCell, set_cursor_pos, cell_at, set_cell, invalidate}

pub data EscapeState : Type 0 where
  default esc ss2 ss3 dcs csi st osc sos pm apc : EscapeState

-- `struct ansiterm_data`, but for the bytes of an unfinished character, and the console below.
pub record Term : Type 0 where
  pub escape_seq_args : List ℕ
  pub escape_seq_arg_count : ℕ
  pub escape_seq_state : EscapeState
  pub escape_seq_number_input : Bool
  pub saved_cursor_x : ℕ
  pub saved_cursor_y : ℕ
  pub attr_state : CharAttributes
  pub console : Console

-- The end of a call of the console, as one on the terminal.
abbrev pub raised : {A : Type 0} → Term → Ended Console A → Ended Term A
raised t (done a c) = done a (record t { console = c })
raised t (fails s c) = fails s (record t { console = c })
raised t outside = outside

unfoldable pub on_console : {A : Type 0} → Act Console A → Act Term A
on_console act t = raised t (act t.console)

-- `&buffer[y * width + x]` as an index.
abbrev pub index : Term → (x y : ℕ) → ℕ
index t x y = add (mul y t.console.cols) x

-- `buffer[y * width + x] = ...`
unfoldable pub put_cell : (x y codepoint : ℕ) → Act Term (Unit {0})
unfolding on_console set_cell
put_cell x y codepoint t =
    on_console (set_cell (index t x y) (record { attr = t.attr_state; codepoint = codepoint })) t

unfoldable pub get_cell : (x y : ℕ) → Act Term CharCell
unfolding on_console cell_at
get_cell x y t = on_console (cell_at (index t x y)) t

-- The loop of `console_backspace`: the column behind the first cell to the left with a character,
-- in columns above `(cursor_x - 1) & ~7`.
unfoldable pub backspace_loop : (rounds x stop y : ℕ) → Act Term ℕ
unfolding get_cell
backspace_loop zero x stop y t = done stop t
backspace_loop (suc n) x stop y t =
    (get_cell x y >>= λ cell t'. elim (cell.codepoint == 0) [
      | true ↦ backspace_loop n (sub x 1) stop y t'
      | false ↦ done (add x 1) t'
    ])
      t

-- The new column; the status 1 for a column below 1 counts as a success and leaves the column.
unfoldable pub console_backspace : Act Term ℕ
unfolding get_cell backspace_loop
console_backspace t =
    let x = t.console.cursor_col in
    let y = t.console.cursor_row in
    let stop = sub (sub x 1) (sub x 1 % 8) in
    if int_lt x 1
    then done x t
    else (get_cell (sub x 1) y >>= λ cell.
          if cell.codepoint == 0
          then backspace_loop (rounds stop (sub x 2)) (sub x 2) stop y
          else λ t'. done (sub x 1) t')
        t

unfoldable pub console_erase : (x0 y0 x1 y1 : ℕ) → Act Term (Unit {0})
unfolding for_up put_cell on_console invalidate
console_erase x0 y0 x1 y1 =
    for_up (rounds y0 y1) y0 (λ y. for_up (rounds x0 x1) x0 (λ x. put_cell x y 0))
    >> on_console (invalidate x0 y0 x1 y1)

-- `buffer[y * width + x] = buffer[from * width + x]`
unfoldable pub copy_cell : (from x y : ℕ) → Act Term (Unit {0})
unfolding get_cell on_console set_cell
copy_cell from x y t = (get_cell x from >>= λ cell. on_console (set_cell (index t x y) cell)) t

abbrev pub ignored : Ended Term (Unit {0}) → Ended Term (Unit {0})
ignored (done _ t) = done tt t
ignored (fails _ t) = done tt t
ignored outside = outside

-- `console_scroll` does not look at the status of `console_erase`.
unfoldable pub ignoring_status : Act Term (Unit {0}) → Act Term (Unit {0})
ignoring_status act t = ignored (act t)

abbrev pub scroll_up : (amount x0 y0 x1 y1 : ℕ) → Act Term (Unit {0})
scroll_up amount x0 y0 x1 y1 =
    for_up (rounds y0 (sub y1 amount)) y0
      (λ y. for_up (rounds x0 x1) x0 (λ x. copy_cell (add y amount) x y))
    >> ignoring_status (console_erase x0 (add (sub y1 amount) 1) x1 y1)

abbrev pub scroll_down : (amount x0 y0 x1 y1 : ℕ) → Act Term (Unit {0})
scroll_down amount x0 y0 x1 y1 =
    for_down (rounds y0 (sub y1 amount)) (sub y1 amount)
      (λ y. for_up (rounds x0 x1) x0 (λ x. copy_cell y x (add y amount)))
    >> ignoring_status (console_erase x0 y0 x1 (add y0 amount))

unfoldable pub console_scroll : (amount x0 y0 x1 y1 : ℕ) → Act Term (Unit {0})
unfolding for_up for_down copy_cell ignoring_status console_erase on_console invalidate
console_scroll amount x0 y0 x1 y1 =
    if amount == 0
    then pass
    else ((if int_lt 0 amount
          then scroll_up amount x0 y0 x1 y1
          else scroll_down (sub 0 amount) x0 y0 x1 y1)
        >> on_console (invalidate x0 y0 x1 y1))

-- A character of this width in columns at the cursor; the second half of a wide one gets a mark.
unfoldable pub console_putchar : (is_wide : Bool) → (ch : ℕ) → Act Term (Unit {0})
unfolding put_cell on_console invalidate
console_putchar is_wide ch t =
    let x = t.console.cursor_col in
    let y = t.console.cursor_row in
    let width = t.console.cols in
    (put_cell x y ch
        >> (on_console (invalidate x y x y)
            >> (if is_wide && int_lt (add x 1) width
                then (put_cell (add x 1) y minus_one >> on_console (invalidate x y x y))
                else pass)))
      t
