-- ===== src/Ansiterm/Escape.antt =====
-- The part of boot/device/char/ansiterm.c that takes the bytes of an escape sequence.
use emos.Base.{
  ℕ, ◌+◌, ◌-◌, ◌*◌, ◌%◌, Bool, true, false, ◌&&◌, ◌||◌, List, [], ◌∷◌, Option, none, some, ◌==◌,
  leb, if◌then◌else◌, get_or, set, get_elem?, replicate,
}
use emos.Status.{Status}
use emos.Words.{add, sub, mul, int_lt, minus_one}
use emos.Ends.{done, outside, Act, ◌>>◌, pass}
use emos.Console.{CharAttributes, set_cursor_pos, set_cursor_visibility}
use emos.Ansiterm.{EscapeState, Term, on_console, console_erase, console_scroll}

unfoldable pub palette : List ℕ
palette =
    0x000000 ∷ 0xaa0000 ∷ 0x00aa00 ∷ 0xaa5500 ∷ 0x0000aa ∷ 0xaa00aa ∷ 0x00aaaa ∷ 0xaaaaaa ∷ 0x555555
    ∷ 0xff5555 ∷ 0x55ff55 ∷ 0xffff55 ∷ 0x5555ff ∷ 0xff55ff ∷ 0x55ffff ∷ 0xffffff ∷ 0x000000
    ∷ 0x00005f ∷ 0x000087 ∷ 0x0000af ∷ 0x0000d7 ∷ 0x0000ff ∷ 0x005f00 ∷ 0x005f5f ∷ 0x005f87
    ∷ 0x005faf ∷ 0x005fd7 ∷ 0x005fff ∷ 0x008700 ∷ 0x00875f ∷ 0x008787 ∷ 0x0087af ∷ 0x0087d7
    ∷ 0x0087ff ∷ 0x00af00 ∷ 0x00af5f ∷ 0x00af87 ∷ 0x00afaf ∷ 0x00afd7 ∷ 0x00afff ∷ 0x00d700
    ∷ 0x00d75f ∷ 0x00d787 ∷ 0x00d7af ∷ 0x00d7d7 ∷ 0x00d7ff ∷ 0x00ff00 ∷ 0x00ff5f ∷ 0x00ff87
    ∷ 0x00ffaf ∷ 0x00ffd7 ∷ 0x00ffff ∷ 0x5f0000 ∷ 0x5f005f ∷ 0x5f0087 ∷ 0x5f00af ∷ 0x5f00d7
    ∷ 0x5f00ff ∷ 0x5f5f00 ∷ 0x5f5f5f ∷ 0x5f5f87 ∷ 0x5f5faf ∷ 0x5f5fd7 ∷ 0x5f5fff ∷ 0x5f8700
    ∷ 0x5f875f ∷ 0x5f8787 ∷ 0x5f87af ∷ 0x5f87d7 ∷ 0x5f87ff ∷ 0x5faf00 ∷ 0x5faf5f ∷ 0x5faf87
    ∷ 0x5fafaf ∷ 0x5fafd7 ∷ 0x5fafff ∷ 0x5fd700 ∷ 0x5fd75f ∷ 0x5fd787 ∷ 0x5fd7af ∷ 0x5fd7d7
    ∷ 0x5fd7ff ∷ 0x5fff00 ∷ 0x5fff5f ∷ 0x5fff87 ∷ 0x5fffaf ∷ 0x5fffd7 ∷ 0x5fffff ∷ 0x870000
    ∷ 0x87005f ∷ 0x870087 ∷ 0x8700af ∷ 0x8700d7 ∷ 0x8700ff ∷ 0x875f00 ∷ 0x875f5f ∷ 0x875f87
    ∷ 0x875faf ∷ 0x875fd7 ∷ 0x875fff ∷ 0x878700 ∷ 0x87875f ∷ 0x878787 ∷ 0x8787af ∷ 0x8787d7
    ∷ 0x8787ff ∷ 0x87af00 ∷ 0x87af5f ∷ 0x87af87 ∷ 0x87afaf ∷ 0x87afd7 ∷ 0x87afff ∷ 0x87d700
    ∷ 0x87d75f ∷ 0x87d787 ∷ 0x87d7af ∷ 0x87d7d7 ∷ 0x87d7ff ∷ 0x87ff00 ∷ 0x87ff5f ∷ 0x87ff87
    ∷ 0x87ffaf ∷ 0x87ffd7 ∷ 0x87ffff ∷ 0xaf0000 ∷ 0xaf005f ∷ 0xaf0087 ∷ 0xaf00af ∷ 0xaf00d7
    ∷ 0xaf00ff ∷ 0xaf5f00 ∷ 0xaf5f5f ∷ 0xaf5f87 ∷ 0xaf5faf ∷ 0xaf5fd7 ∷ 0xaf5fff ∷ 0xaf8700
    ∷ 0xaf875f ∷ 0xaf8787 ∷ 0xaf87af ∷ 0xaf87d7 ∷ 0xaf87ff ∷ 0xafaf00 ∷ 0xafaf5f ∷ 0xafaf87
    ∷ 0xafafaf ∷ 0xafafd7 ∷ 0xafafff ∷ 0xafd700 ∷ 0xafd75f ∷ 0xafd787 ∷ 0xafd7af ∷ 0xafd7d7
    ∷ 0xafd7ff ∷ 0xafff00 ∷ 0xafff5f ∷ 0xafff87 ∷ 0xafffaf ∷ 0xafffd7 ∷ 0xafffff ∷ 0xd70000
    ∷ 0xd7005f ∷ 0xd70087 ∷ 0xd700af ∷ 0xd700d7 ∷ 0xd700ff ∷ 0xd75f00 ∷ 0xd75f5f ∷ 0xd75f87
    ∷ 0xd75faf ∷ 0xd75fd7 ∷ 0xd75fff ∷ 0xd78700 ∷ 0xd7875f ∷ 0xd78787 ∷ 0xd787af ∷ 0xd787d7
    ∷ 0xd787ff ∷ 0xd7af00 ∷ 0xd7af5f ∷ 0xd7af87 ∷ 0xd7afaf ∷ 0xd7afd7 ∷ 0xd7afff ∷ 0xd7d700
    ∷ 0xd7d75f ∷ 0xd7d787 ∷ 0xd7d7af ∷ 0xd7d7d7 ∷ 0xd7d7ff ∷ 0xd7ff00 ∷ 0xd7ff5f ∷ 0xd7ff87
    ∷ 0xd7ffaf ∷ 0xd7ffd7 ∷ 0xd7ffff ∷ 0xff0000 ∷ 0xff005f ∷ 0xff0087 ∷ 0xff00af ∷ 0xff00d7
    ∷ 0xff00ff ∷ 0xff5f00 ∷ 0xff5f5f ∷ 0xff5f87 ∷ 0xff5faf ∷ 0xff5fd7 ∷ 0xff5fff ∷ 0xff8700
    ∷ 0xff875f ∷ 0xff8787 ∷ 0xff87af ∷ 0xff87d7 ∷ 0xff87ff ∷ 0xffaf00 ∷ 0xffaf5f ∷ 0xffaf87
    ∷ 0xffafaf ∷ 0xffafd7 ∷ 0xffafff ∷ 0xffd700 ∷ 0xffd75f ∷ 0xffd787 ∷ 0xffd7af ∷ 0xffd7d7
    ∷ 0xffd7ff ∷ 0xffff00 ∷ 0xffff5f ∷ 0xffff87 ∷ 0xffffaf ∷ 0xffffd7 ∷ 0xffffff ∷ 0x080808
    ∷ 0x121212 ∷ 0x1c1c1c ∷ 0x262626 ∷ 0x303030 ∷ 0x3a3a3a ∷ 0x444444 ∷ 0x4e4e4e ∷ 0x585858
    ∷ 0x626262 ∷ 0x6c6c6c ∷ 0x767676 ∷ 0x808080 ∷ 0x8a8a8a ∷ 0x949494 ∷ 0x9e9e9e ∷ 0xa8a8a8
    ∷ 0xb2b2b2 ∷ 0xbcbcbc ∷ 0xc6c6c6 ∷ 0xd0d0d0 ∷ 0xdadada ∷ 0xe4e4e4 ∷ 0xeeeeee ∷ []

abbrev pub to_state : EscapeState → Term → Term
to_state s t = record t { escape_seq_state = s }

-- `data->escape_seq_state = STATE_DEFAULT;`
abbrev pub to_default : Act Term (Unit {0})
to_default t = done tt (to_state EscapeState.default t)

abbrev pub escape_of : (ch : ℕ) → EscapeState
escape_of ch =
    if ch == b'N'
    then EscapeState.ss2
    else if ch == b'O'
    then EscapeState.ss3
    else if ch == b'P'
    then EscapeState.dcs
    else if ch == b'['
    then EscapeState.csi
    else if ch == b'\\'
    then EscapeState.st
    else if ch == b']'
    then EscapeState.osc
    else if ch == b'X'
    then EscapeState.sos
    else if ch == b'^'
    then EscapeState.pm
    else if ch == b'_'
    then EscapeState.apc
    else EscapeState.default

unfoldable pub handle_esc : (ch : ℕ) → Act Term (Unit {0})
handle_esc ch t = done tt (record t {
  escape_seq_args = replicate 8 0;
  escape_seq_arg_count = 0;
  escape_seq_number_input = false;
  escape_seq_state = escape_of ch;
})

-- `(escape_seq_arg_count < count) ? otherwise : escape_seq_args[count - 1]`
abbrev pub arg : (count otherwise : ℕ) → Term → ℕ
arg count otherwise t =
    if int_lt t.escape_seq_arg_count count
    then otherwise
    else get_or t.escape_seq_args (count - 1) otherwise

-- `(count < room) ? count : room`
abbrev pub int_min : (count room : ℕ) → ℕ
int_min count room = if int_lt count room then count else room

-- The position is set behind the end of the sequence.
unfoldable pub move_to : (x y : ℕ) → Act Term (Unit {0})
move_to x y t = on_console (set_cursor_pos x y) (to_state EscapeState.default t)

unfoldable pub handle_cuu : Act Term (Unit {0})
handle_cuu t = let y = t.console.cursor_row in move_to minus_one (sub y (int_min (arg 1 1 t) y)) t

unfoldable pub handle_cud : Act Term (Unit {0})
handle_cud t =
    let y = t.console.cursor_row in
    move_to minus_one (add y (int_min (arg 1 1 t) (sub t.console.rows y))) t

unfoldable pub handle_cuf : Act Term (Unit {0})
handle_cuf t =
    let x = t.console.cursor_col in
    move_to (add x (int_min (arg 1 1 t) (sub t.console.cols x))) minus_one t

unfoldable pub handle_cub : Act Term (Unit {0})
handle_cub t = let x = t.console.cursor_col in move_to (sub x (int_min (arg 1 1 t) x)) minus_one t

unfoldable pub handle_cnl : Act Term (Unit {0})
handle_cnl t =
    let y = t.console.cursor_row in move_to 0 (add y (int_min (arg 1 1 t) (sub t.console.rows y))) t

unfoldable pub handle_cpl : Act Term (Unit {0})
handle_cpl t = let y = t.console.cursor_row in move_to 0 (sub y (int_min (arg 1 1 t) y)) t

-- `pos - 1`, or 0 where that is negative.
abbrev pub column_of : (pos : ℕ) → ℕ
column_of pos = if int_lt (sub pos 1) 0 then 0 else sub pos 1

unfoldable pub handle_cha : Act Term (Unit {0})
handle_cha t = move_to (column_of (arg 1 1 t)) minus_one t

unfoldable pub handle_cup_hvp : Act Term (Unit {0})
handle_cup_hvp t = move_to (column_of (arg 2 1 t)) (column_of (arg 1 1 t)) t

-- The switch of `handle_ed`: the lines below the cursor are erased only on the last line, and those
-- above only in the first column.
abbrev pub erase_display : (option x y width height : ℕ) → Act Term (Unit {0})
erase_display option x y width height =
    if option == 0
    then (console_erase x y (sub width 1) y
        >> (if int_lt y (sub height 1)
            then pass
            else console_erase 0 (add y 1) (sub width 1) (sub height 1)))
    else if option == 1
    then (console_erase 0 y x y
        >> (if int_lt 0 x then pass else console_erase 0 0 (sub width 1) (sub y 1)))
    else if option == 2 || option == 3
    then console_erase 0 0 (sub width 1) (sub height 1)
    else pass

unfoldable pub handle_ed : Act Term (Unit {0})
handle_ed t =
    (erase_display (arg 1 0 t) t.console.cursor_col t.console.cursor_row t.console.cols
          t.console.rows
        >> to_default)
      t

abbrev pub erase_line : (option x y width : ℕ) → Act Term (Unit {0})
erase_line option x y width =
    if option == 0
    then console_erase x y (sub width 1) y
    else if option == 1
    then console_erase 0 y x y
    else if option == 2
    then console_erase 0 y (sub width 1) y
    else pass

unfoldable pub handle_el : Act Term (Unit {0})
handle_el t =
    (erase_line (arg 1 0 t) t.console.cursor_col t.console.cursor_row t.console.cols >> to_default)
      t

unfoldable pub handle_su : Act Term (Unit {0})
handle_su t =
    (console_scroll (arg 1 1 t) 0 0 (sub t.console.cols 1) (sub t.console.rows 1) >> to_default) t

unfoldable pub handle_sd : Act Term (Unit {0})
handle_sd t =
    (console_scroll (sub 0 (arg 1 1 t)) 0 0 (sub t.console.cols 1) (sub t.console.rows 1)
        >> to_default)
      t

abbrev pub with_attr : CharAttributes → Act Term (Unit {0})
with_attr a t = done tt (record t { attr_state = a })

-- `palette[i]`
abbrev pub paint : (ℕ → CharAttributes) → Option ℕ → Act Term (Unit {0})
paint f none t = outside
paint f (some color) t = with_attr (f color) t

abbrev pub with_color : (i : ℕ) → (ℕ → CharAttributes) → Act Term (Unit {0})
with_color i f t = paint f (get_elem? palette i) t

-- `(r << 16) | (g << 8) | b` of the low bytes, which do not meet.
abbrev pub rgb : (r g b : ℕ) → ℕ
rgb r g b = r % 256 * 65536 + g % 256 * 256 + b % 256

-- The inner switch of the options 38 and 48.
abbrev pub extended : (List ℕ) → (count : ℕ) → (ℕ → CharAttributes) → Act Term (Unit {0})
extended args count f =
    let kind = get_or args 1 0 in
    if int_lt count 2
    then pass
    else if kind == 5
    then (if int_lt count 3 then pass else with_color (get_or args 2 0) f)
    else if kind == 2
    then (if int_lt count 5
        then pass
        else with_attr (f (rgb (get_or args 2 0) (get_or args 3 0) (get_or args 4 0))))
    else pass

abbrev pub between : (lo hi x : ℕ) → Bool
between lo hi x = leb lo x && leb x hi

-- What option 0 sets.
abbrev pub plain_attributes : CharAttributes
plain_attributes = record {
  fg_color = 0xffffff;
  text_blink_level = 0;
  text_reversed = false;
  text_bold = false;
  text_dim = false;
  text_italic = false;
  text_underline = false;
  text_strike = false;
  bg_color = 0x000000;
  text_overlined = false;
}

-- The options from 0 to 29, and 53 and 55, which set flags.
unfoldable pub flag_of : (option : ℕ) → CharAttributes → Option CharAttributes
flag_of option a =
    if option == 0
    then some plain_attributes
    else if option == 1
    then some (record a { text_bold = true })
    else if option == 2
    then some (record a { text_dim = true })
    else if option == 3
    then some (record a { text_italic = true })
    else if option == 4
    then some (record a { text_underline = true })
    else if option == 5
    then some (record a { text_blink_level = 1 })
    else if option == 6
    then some (record a { text_blink_level = 2 })
    else if option == 7
    then some (record a { text_reversed = true })
    else if option == 8
    then some (record a { text_blink_level = 3 })
    else if option == 9
    then some (record a { text_strike = true })
    else if option == 22
    then some (record a { text_bold = false; text_dim = false })
    else if option == 23
    then some (record a { text_italic = false })
    else if option == 24
    then some (record a { text_underline = false })
    else if option == 25
    then some (record a { text_blink_level = 0 })
    else if option == 27
    then some (record a { text_reversed = false })
    else if option == 28
    then some (record a { text_blink_level = 0 })
    else if option == 29
    then some (record a { text_strike = false })
    else if option == 53
    then some (record a { text_overlined = true })
    else if option == 55
    then some (record a { text_overlined = false })
    else none

-- The options that set a colour.
unfoldable pub color_of :
    (option : ℕ) → (args : List ℕ) → (count : ℕ) → CharAttributes → Act Term (Unit {0})
unfolding palette
color_of option args count a =
    let fg : ℕ → CharAttributes = λ c. record a { fg_color = c } in
    let bg : ℕ → CharAttributes = λ c. record a { bg_color = c } in
    if between 30 37 option
    then with_color (option - 30) fg
    else if option == 38
    then extended args count fg
    else if option == 39
    then with_color 7 fg
    else if between 40 47 option
    then with_color (option - 40) bg
    else if option == 48
    then extended args count bg
    else if option == 49
    then with_color 0 bg
    else if between 90 97 option
    then with_color (option - 90 + 8) fg
    else if between 100 107 option
    then with_color (option - 100 + 8) bg
    else pass

unfoldable pub select_rendition : (option : ℕ) → Act Term (Unit {0})
select_rendition option t = elim (flag_of option t.attr_state) [
  | some a ↦ with_attr a t
  | none ↦ color_of option t.escape_seq_args t.escape_seq_arg_count t.attr_state t
]

unfoldable pub handle_sgr : Act Term (Unit {0})
handle_sgr t = (select_rendition (arg 1 0 t) >> to_default) t

unfoldable pub handle_dsr : Act Term (Unit {0})
handle_dsr = to_default

unfoldable pub handle_scosc : Act Term (Unit {0})
handle_scosc t = done tt (record t {
  saved_cursor_x = t.console.cursor_col;
  saved_cursor_y = t.console.cursor_row;
  escape_seq_state = EscapeState.default;
})

unfoldable pub handle_scorc : Act Term (Unit {0})
handle_scorc t = (on_console (set_cursor_pos t.saved_cursor_x t.saved_cursor_y) >> to_default) t

-- With the status of the frame buffer's `flush`.
unfoldable pub handle_dectcem_show : Status → Act Term (Unit {0})
handle_dectcem_show below = on_console (set_cursor_visibility below true) >> to_default

unfoldable pub handle_dectcem_hide : Status → Act Term (Unit {0})
handle_dectcem_hide below = on_console (set_cursor_visibility below false) >> to_default

-- The cases `?`, a digit, and a separator of `handle_csi`. `ARRAY_SIZE` is unsigned, and so is the
-- comparison with it.
unfoldable pub add_question : Act Term (Unit {0})
add_question t =
    if leb 8 t.escape_seq_arg_count
    then done tt t
    else done tt (record t {
      escape_seq_args = set t.escape_seq_args t.escape_seq_arg_count (sub 0 b'?');
      escape_seq_arg_count = add t.escape_seq_arg_count 1;
    })

abbrev pub opened : Term → Term
opened t = record t {
  escape_seq_arg_count =
      if t.escape_seq_number_input then t.escape_seq_arg_count else add t.escape_seq_arg_count 1;
  escape_seq_number_input = true;
}

abbrev pub grow : (i digit : ℕ) → Option ℕ → Act Term (Unit {0})
grow i digit none t = outside
grow i digit (some n) t =
    done tt (record t { escape_seq_args = set t.escape_seq_args i (add (mul n 10) digit) })

abbrev pub add_to_last : (digit : ℕ) → Act Term (Unit {0})
add_to_last digit t =
    let i = sub t.escape_seq_arg_count 1 in grow i digit (get_elem? t.escape_seq_args i) t

unfoldable pub add_digit : (digit : ℕ) → Act Term (Unit {0})
add_digit digit t = if leb 8 t.escape_seq_arg_count then done tt t else add_to_last digit (opened t)

-- With the status of the frame buffer's `flush`.
unfoldable pub handle_csi : Status → (ch : ℕ) → Act Term (Unit {0})
handle_csi below ch =
    if ch == b'A'
    then handle_cuu
    else if ch == b'B'
    then handle_cud
    else if ch == b'C'
    then handle_cuf
    else if ch == b'D'
    then handle_cub
    else if ch == b'E'
    then handle_cnl
    else if ch == b'F'
    then handle_cpl
    else if ch == b'G'
    then handle_cha
    else if ch == b'f' || ch == b'H'
    then handle_cup_hvp
    else if ch == b'h'
    then handle_dectcem_show below
    else if ch == b'J'
    then handle_ed
    else if ch == b'K'
    then handle_el
    else if ch == b'l'
    then handle_dectcem_hide below
    else if ch == b'S'
    then handle_su
    else if ch == b'T'
    then handle_sd
    else if ch == b'm'
    then handle_sgr
    else if ch == b'n'
    then handle_dsr
    else if ch == b's'
    then handle_scosc
    else if ch == b'u'
    then handle_scorc
    else if ch == b'?'
    then add_question
    else if between b'0' b'9' ch
    then add_digit (ch - b'0')
    else if ch == b';' || ch == b':'
    then (λ t. done tt (record t { escape_seq_number_input = false }))
    else to_default
