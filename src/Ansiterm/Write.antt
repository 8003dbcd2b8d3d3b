-- ===== src/Ansiterm/Write.antt =====
-- The part of boot/device/char/ansiterm.c that puts characters, and that reads UTF-8.
pub mod Args
pub mod Utf8
pub mod Overruns
pub mod Stays
use emos.Base.{
  ℕ, zero, suc, ◌+◌, ◌-◌, ◌*◌, ◌/◌, ◌%◌, ◌^◌, Bool, true, false, not, ◌&&◌, ◌||◌, List, [], ◌∷◌,
  ◌++◌, Option, none, some, ◌==◌, ltb, leb, if◌then◌else◌, length, drop,
}
use emos.Status.{Status}
use emos.Words.{add, sub, mul, int_lt}
use emos.Ends.{Ended, done, fails, outside, Act, ◌>>=◌, ◌>>◌, pass}
use emos.Console.{Console, set_cursor_pos, set_cursor_visibility, flush}
use emos.Ansiterm.{
  EscapeState, Term, on_console, console_backspace, console_erase, console_scroll, console_putchar,
}
use emos.Ansiterm.Escape.{
  handle_esc, handle_csi, to_state, move_to, handle_cuu, handle_cud, handle_cuf, handle_cub,
  handle_cnl, handle_cpl, handle_cha, handle_cup_hvp, handle_ed, handle_el, handle_su, handle_sd,
  handle_sgr, handle_dsr, handle_scosc, handle_scorc, handle_dectcem_show, handle_dectcem_hide,
  add_question, add_digit, flag_of, color_of, select_rendition,
}

abbrev pub set_pos : (x y : ℕ) → Act Term (Unit {0})
set_pos x y = on_console (set_cursor_pos x y)

-- A line feed at the row `y`: behind the last row the cells move up.
unfoldable pub feed_line : (x y : ℕ) → Act Term (Unit {0})
feed_line x y t =
    let width = t.console.cols in
    let height = t.console.rows in
    if int_lt (add y 1) height
    then set_pos x (add y 1) t
    else (console_scroll 1 0 0 (sub width 1) (sub height 1) >> set_pos x (sub height 1)) t

-- `x / 8`, which C cuts towards 0.
abbrev pub eighth : (x : ℕ) → ℕ
eighth x = if int_lt x 0 then sub 0 (sub 0 x / 8) else x / 8

-- The column of the next tab stop.
abbrev pub tab_stop : (x : ℕ) → ℕ
tab_stop x = mul (add (eighth x) 1) 8

unfoldable pub put_tab : (x y : ℕ) → Act Term (Unit {0})
put_tab x y t =
    (console_erase x y (tab_stop x) y
        >> (if int_lt (tab_stop x) t.console.cols then set_pos (tab_stop x) y else feed_line 0 y))
      t

-- `wcwidth` gives an `int`.
module _ (wcwidth : ℕ → ℕ) (below : Status) where
  -- The cursor goes on behind a character of the width `cwidth`.
  unfoldable pub go_on : (cwidth x y : ℕ) → Act Term (Unit {0})
  go_on cwidth x y t =
      if int_lt (add x cwidth) t.console.cols then set_pos (add x cwidth) y t else feed_line 0 y t

  -- A character that does not fit the row goes to the next one.
  unfoldable pub wrap_wide : (cwidth x y : ℕ) → Act Term (Unit {0})
  wrap_wide cwidth x y t =
      if int_lt 1 cwidth && int_lt t.console.cols (add x cwidth) then feed_line 0 y t else done tt t

  unfoldable pub put_plain : (ch : ℕ) → Act Term (Unit {0})
  put_plain ch t =
      if int_lt ch 0x20
      then set_pos t.console.cursor_col t.console.cursor_row t
      else (wrap_wide (wcwidth ch) t.console.cursor_col t.console.cursor_row
            >> (console_putchar (int_lt 1 (wcwidth ch)) ch >> λ t'.
                go_on (wcwidth ch) t'.console.cursor_col t'.console.cursor_row t'))
          t

  -- The switch of `put_char` outside of a sequence.
  unfoldable pub put_default : (ch : ℕ) → Act Term (Unit {0})
  put_default ch t =
      let x = t.console.cursor_col in
      let y = t.console.cursor_row in
      if ch == 7
      then set_pos x y t
      else if ch == 8
      then (console_backspace >>= λ x'. set_pos x' y) t
      else if ch == 9
      then put_tab x y t
      else if ch == 10
      then feed_line 0 y t
      else if ch == 11
      then feed_line x y t
      else if ch == 12
      then set_pos x y t
      else if ch == 13
      then set_pos 0 y t
      else if ch == 27
      then set_pos x y (to_state EscapeState.esc t)
      else put_plain ch t

  abbrev pub put_in : EscapeState → (ch : ℕ) → Act Term (Unit {0})
  put_in EscapeState.default ch = put_default ch
  put_in EscapeState.esc ch = handle_esc (ch % 256)
  put_in EscapeState.csi ch = handle_csi below (ch % 256)
  put_in other ch = λ t. done tt (to_state EscapeState.default t)

  unfoldable pub put_char : (ch : ℕ) → Act Term (Unit {0})
  put_char ch t = put_in t.escape_seq_state ch t

  -- The loop of `wwrite`.
  unfoldable pub wwrite_loop : (buf : List ℕ) → Act Term (Unit {0})
  wwrite_loop [] t = done tt t
  wwrite_loop (ch ∷ buf) t = (put_char ch >> wwrite_loop buf) t

  -- The result is the number of characters that were written.
  unfoldable pub wwrite : (buf : List ℕ) → Act Term ℕ
  unfolding wwrite_loop feed_line put_tab go_on wrap_wide put_plain put_default put_char on_console
      set_cursor_pos flush console_backspace console_erase console_scroll console_putchar handle_esc
      handle_csi move_to handle_cuu handle_cud handle_cuf handle_cub handle_cnl handle_cpl
      handle_cha handle_cup_hvp handle_ed handle_el handle_su handle_sd handle_sgr handle_dsr
      handle_scosc handle_scorc handle_dectcem_show handle_dectcem_hide add_question add_digit
      flag_of color_of select_rendition set_cursor_visibility
  wwrite buf = wwrite_loop buf >>= λ _. on_console (flush below) >>= λ _ t. done (length buf) t

-- The first byte of a character: the bytes of the character, none for -1, and its bits.
abbrev pub lead : (c : ℕ) → Option (ℕ × ℕ)
lead c =
    if ltb c 0x80
    then some (1, c % 0x80)
    else if ltb c 0xe0
    then some (2, c % 0x20 * 2 ^ 6)
    else if ltb c 0xf0
    then some (3, c % 0x10 * 2 ^ 12)
    else if ltb c 0xf8
    then some (4, c % 0x08 * 2 ^ 18)
    else none

-- The loop over the other bytes of a character: `left` bytes are to come, `i` were read. The
-- character, and how many bytes it has. The bits that are joined do not meet.
unfoldable pub read_rest : (left i wch : ℕ) → List ℕ → ℕ × ℕ
read_rest zero i wch bytes = (wch, i)
read_rest (suc k) i wch [] = (0xfffd, i)
read_rest (suc k) i wch (b ∷ bytes) =
    let rest = read_rest k (suc i) (wch + b % 64 * 64 ^ k) bytes in
    if b / 64 == 2 then rest else (0xfffd, i)

-- The bytes of an unfinished character, and the terminal.
pub record Tty : Type 0 where
  pub utf8_fragment : List ℕ
  pub term : Term

-- The bytes are kept, where they fit `utf8_fragment_buf`.
unfoldable pub keep_bytes : (buf : List ℕ) → Act Tty ℕ
keep_bytes buf s =
    if leb (length s.utf8_fragment + length buf) 6
    then done (length buf) (record s { utf8_fragment = s.utf8_fragment ++ buf })
    else outside

-- The byte at the front; the loop is at a text that is not empty.
abbrev pub front_of : List ℕ → ℕ
front_of [] = 0
front_of (c ∷ cs) = c

-- The end of a round, behind `put_char`: `char_len` bytes are passed over, those kept before being
-- the first; where it is less than they are the pointer moves before the buffer.
abbrev pub pass_over :
    (char_len : ℕ) (buf : List ℕ)
    → (List ℕ → Act Tty ℕ)
    → (fragment : List ℕ) → Ended Term (Unit {0})
    → Ended Tty ℕ
pass_over char_len buf next fragment (done _ t) =
    if leb (length fragment) char_len
    then next (drop (char_len - length fragment) buf) (record { utf8_fragment = []; term = t })
    else outside
pass_over char_len buf next fragment (fails st t) =
    fails st (record { utf8_fragment = fragment; term = t })
pass_over char_len buf next fragment outside = outside

-- What is left to do behind the loop of `write`, where it ended with success.
abbrev pub finish : (written : ℕ) → (fragment : List ℕ) → Ended Term (Unit {0}) → Ended Tty ℕ
finish written fragment (done _ t) = done written (record { utf8_fragment = fragment; term = t })
finish written fragment (fails st t) = fails st (record { utf8_fragment = fragment; term = t })
finish written fragment outside = outside

-- The bytes of a round, added to what the rest of the loop writes.
abbrev pub plus : (bytes : ℕ) → Ended Tty ℕ → Ended Tty ℕ
plus bytes (done left s) = done (bytes + left) s
plus bytes (fails st s) = fails st s
plus bytes outside = outside

module _ (wcwidth : ℕ → ℕ) (below : Status) where
  abbrev pub put_decoded : (buf : List ℕ) → ℕ × ℕ → (List ℕ → Act Tty ℕ) → Act Tty ℕ
  put_decoded buf (wch, char_len) next s =
      pass_over char_len buf next s.utf8_fragment (put_char wcwidth below wch s.term)

  -- A round of `write`. A `char_len` of -1 is greater than every length, since the sum is unsigned.
  abbrev pub round_with : Option (ℕ × ℕ) → (buf : List ℕ) → (List ℕ → Act Tty ℕ) → Act Tty ℕ
  round_with none buf next s = keep_bytes buf s
  round_with (some (char_len, wch)) buf next s =
      if ltb (length s.utf8_fragment + length buf) char_len
      then keep_bytes buf s
      else put_decoded buf (read_rest (char_len - 1) 1 wch (drop 1 (s.utf8_fragment ++ buf))) next s

  -- The loop of `write`, with the result.
  unfoldable pub write_loop : (rounds : ℕ) → (buf : List ℕ) → Act Tty ℕ
  write_loop zero buf s = done 0 s
  write_loop (suc n) [] s = done 0 s
  write_loop (suc n) (b ∷ buf) s =
      round_with (lead (front_of (s.utf8_fragment ++ b ∷ buf))) (b ∷ buf)
        (λ rest s'. plus (length (b ∷ buf) - length rest) (write_loop n rest s')) s

  -- A round passes over a byte at least, but for the first, where bytes were kept.
  unfoldable pub write : (buf : List ℕ) → Act Tty ℕ
  unfolding write_loop read_rest keep_bytes feed_line put_tab go_on wrap_wide put_plain put_default
      put_char on_console set_cursor_pos flush console_backspace console_erase console_scroll
      console_putchar handle_esc handle_csi move_to handle_cuu handle_cud handle_cuf handle_cub
      handle_cnl handle_cpl handle_cha handle_cup_hvp handle_ed handle_el handle_su handle_sd
      handle_sgr handle_dsr handle_scosc handle_scorc handle_dectcem_show handle_dectcem_hide
      add_question add_digit flag_of color_of select_rendition set_cursor_visibility
  write buf = write_loop (suc (length buf)) buf >>= λ written s.
      finish written s.utf8_fragment (on_console (flush below) s.term)
