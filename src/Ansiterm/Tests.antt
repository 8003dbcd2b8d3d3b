-- ===== src/Ansiterm/Tests.antt =====
-- Runs of the terminal, on a screen of eight columns and two rows.
use emos.Base.{
  ℕ, ◌-◌, ◌^◌, ◌≡◌, refl, true, false, [], ◌∷◌, ◌==◌, if◌then◌else◌, arith, Option, none, some,
}
use emos.Status.{Status}
use emos.Ends.{Ended, done, fails, outside}
use emos.Console.{Console, CharCell}
use emos.Ansiterm.{EscapeState, Term}
use emos.Ansiterm.Screen.{Returns, AreSizes, IsReady, Ready}
use emos.Ansiterm.Escape.{plain_attributes}
use emos.Ansiterm.Write.{wwrite_loop, wwrite, write}
use emos.Ansiterm.Write.Stays.{wwrite_loop-Ready}
use emos.Ansiterm.Write.Args.{Number, in_sequence, wwrite_loop-numbers}
use emos.Ansiterm.Write.Utf8.{encode, with_bytes, write-encode}
use emos.Ansiterm.Write.Overruns.{write-overrun, wwrite_loop-palette}

abbrev blank : CharCell
blank = record { attr = plain_attributes; codepoint = 0 }

abbrev small : Console
small = record {
  cols = 8;
  rows = 2;
  is_switching_mode = false;
  cursor_col = 0;
  cursor_row = 1;
  cursor_prev_col = 0;
  cursor_prev_row = 0;
  cursor_visible = true;
  char_buffer = λ i. blank;
  diff_buffer = λ i. false;
}

abbrev term : Term
term = record {
  escape_seq_args = [];
  escape_seq_arg_count = 0;
  escape_seq_state = EscapeState.default;
  escape_seq_number_input = false;
  saved_cursor_x = 0;
  saved_cursor_y = 0;
  attr_state = plain_attributes;
  console = small;
}

-- One column, and -1 for DEL.
abbrev width : ℕ → ℕ
width ch = if ch == 127 then 2 ^ 32 - 1 else 1

abbrev col_of : Ended Term ℕ → Option ℕ
col_of (done a t) = some t.console.cursor_col
col_of (fails s t) = none
col_of outside = none

abbrev row_of : Ended Term ℕ → Option ℕ
row_of (done a t) = some t.console.cursor_row
row_of (fails s t) = none
row_of outside = none

-- A text, and a position.
moved :
    (col_of (wwrite width Status.success (b'a' ∷ b'b' ∷ []) term) ≡ some 2)
    × (row_of (wwrite width Status.success (27 ∷ b'[' ∷ b'1' ∷ b';' ∷ b'5' ∷ b'H' ∷ []) term)
        ≡ some 0)
    × (col_of (wwrite width Status.success (27 ∷ b'[' ∷ b'1' ∷ b';' ∷ b'5' ∷ b'H' ∷ []) term)
        ≡ some 4)
unfolding wwrite
moved = (refl, refl, refl)

-- A tab on the last line reaches a cell behind the buffer, and scrolling by more lines than there are
-- one before it.
tab_overrun : wwrite width Status.success (9 ∷ []) term ≡ outside
unfolding wwrite
tab_overrun = refl

scroll_overrun : wwrite width Status.success (27 ∷ b'[' ∷ b'3' ∷ b'S' ∷ []) term ≡ outside
unfolding wwrite
scroll_overrun = refl

-- The console takes the -1 of handle_cuu as a column, and a DEL in the first column moves there.
up_column : col_of (wwrite width Status.success (27 ∷ b'[' ∷ b'A' ∷ []) term) ≡ some (2 ^ 32 - 1)
unfolding wwrite
up_column = refl

del_column : col_of (wwrite width Status.success (127 ∷ []) term) ≡ some (2 ^ 32 - 1)
unfolding wwrite
del_column = refl

-- U+015B is taken for the bracket behind an escape.
not_a_bracket : row_of (wwrite width Status.success (27 ∷ 0x15b ∷ b'H' ∷ []) term) ≡ some 0
unfolding wwrite
not_a_bracket = refl

sizes : AreSizes 8 2
sizes = omega arith

term-IsReady : IsReady 8 2 sizes term
term-IsReady = record {
  is_default = refl;
  screen = record {
    cols_is = refl;
    rows_is = refl;
    is_shown = refl;
    col_in = omega arith;
    row_in = omega arith;
  };
}

wwrite_loop-Ready_example :
    Returns (Ready 8 2 sizes) (wwrite_loop width Status.success (b'a' ∷ b'\n' ∷ b'b' ∷ []) term)
wwrite_loop-Ready_example =
    wwrite_loop-Ready 8 2 sizes width Status.success (b'a' ∷ b'\n' ∷ b'b' ∷ []) term
      (
        record { no_tab = omega arith; no_escape = omega arith; narrow = omega arith },
        (
          record { no_tab = omega arith; no_escape = omega arith; narrow = omega arith },
          (record { no_tab = omega arith; no_escape = omega arith; narrow = omega arith }, tt),
        ),
      )
      term-IsReady

-- The euro sign and a line feed.
write-encode_example :
    write width Status.success
      (0xe2 ∷ 0x82 ∷ 0xac ∷ 10 ∷ [])
      (record { utf8_fragment = []; term = term })
    ≡ with_bytes 4 (wwrite width Status.success (0x20ac ∷ 10 ∷ []) term)
unfolding encode
write-encode_example =
    write-encode width Status.success (0x20ac ∷ 10 ∷ []) term (omega arith, (omega arith, tt))

abbrev seven : Number
seven = record { head = 7; tail = [] }

wwrite_loop-numbers_example :
    wwrite_loop width Status.success (27 ∷ b'[' ∷ b'7' ∷ b';' ∷ b'7' ∷ b'H' ∷ []) term
    ≡ wwrite_loop width Status.success
        (b'H' ∷ [])
        (in_sequence (7 ∷ 7 ∷ 0 ∷ 0 ∷ 0 ∷ 0 ∷ 0 ∷ 0 ∷ []) 2 true term)
wwrite_loop-numbers_example =
    wwrite_loop-numbers width Status.success (seven ∷ []) seven 6 (b'H' ∷ []) term refl
      (record { digits = omega arith; fits = omega arith }, tt)
      (record { digits = omega arith; fits = omega arith }) refl (omega arith)

write-overrun_example :
    write width Status.success
      (0xff ∷ 1 ∷ 2 ∷ 3 ∷ 4 ∷ 5 ∷ 6 ∷ [])
      (record { utf8_fragment = []; term = term })
    ≡ outside
write-overrun_example =
    write-overrun width Status.success 0xff (1 ∷ 2 ∷ 3 ∷ 4 ∷ 5 ∷ 6 ∷ []) term (omega arith)
      (omega arith)

abbrev three_hundred : Number
three_hundred = record { head = 3; tail = 0 ∷ 0 ∷ [] }

wwrite_loop-palette_example :
    wwrite_loop width Status.success
      (27 ∷ b'[' ∷ b'3' ∷ b'8' ∷ b';' ∷ b'5' ∷ b';' ∷ b'3' ∷ b'0' ∷ b'0' ∷ b'm' ∷ [])
      term
    ≡ outside
wwrite_loop-palette_example =
    wwrite_loop-palette width Status.success three_hundred [] term refl
      (record { digits = omega arith; fits = omega arith }) (omega arith)
