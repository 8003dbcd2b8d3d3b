-- ===== src/Ansiterm/Write/Overruns.antt =====
-- Text with which the terminal reaches outside of its objects.
use emos.Base.{
  ℕ, zero, suc, ◌+◌, ◌^◌, ◌≤◌, ◌<◌, ◌≡◌, refl, ◌∙◌, true, List, [], ◌∷◌, none, ltb-false, leb-false,
  length, get_elem?, arith,
}
use emos.Status.{Status}
use emos.Ends.{outside}
use emos.Ansiterm.{EscapeState, Term}
use emos.Ansiterm.Escape.{handle_csi, handle_sgr, select_rendition, flag_of, color_of, palette}
use emos.Ansiterm.Write.{put_char, wwrite_loop, write}
use emos.Ansiterm.Write.Args.{
  Number, IsNumber, value, digits_of, numbers_text, in_sequence, wwrite_loop-numbers,
}

get_elem?-none : (xs : List ℕ) (i : ℕ) → length xs ≤ i → get_elem? xs i ≡ none
get_elem?-none [] i l = refl
get_elem?-none (x ∷ xs) zero l = absurd (omega arith)
get_elem?-none (x ∷ xs) (suc i) l = get_elem?-none xs i (omega arith)

abbrev thirty_eight : Number
thirty_eight = record { head = 3; tail = 8 ∷ [] }

abbrev five : Number
five = record { head = 5; tail = [] }

module _ (wcwidth : ℕ → ℕ) (below : Status) where
  -- With no bytes kept, a text of more than six bytes that begins with a byte from 0xf8 on makes write
  -- copy more than utf8_fragment_buf holds.
  pub write-overrun :
      (b : ℕ) (buf : List ℕ) (t : Term)
      → 0xf8 ≤ b
      → 6 ≤ length buf
      → write wcwidth below (b ∷ buf) (record { utf8_fragment = []; term = t }) ≡ outside
  unfolding write
  write-overrun b buf t h l =
      rw
        (
          ltb-false b 0x80 (omega arith),
          ltb-false b 0xe0 (omega arith),
          ltb-false b 0xf0 (omega arith),
          ltb-false b 0xf8 (omega arith),
          leb-false (0 + suc (length buf)) 6 (omega arith),
        )
        refl

  select-palette :
      (n : ℕ) (t : Term)
      → 256 ≤ n
      → put_char wcwidth below b'm' (in_sequence (38 ∷ 5 ∷ n ∷ 0 ∷ 0 ∷ 0 ∷ 0 ∷ 0 ∷ []) 3 true t)
        ≡ outside
  unfolding put_char handle_csi handle_sgr select_rendition flag_of color_of
  select-palette n t h = rw (get_elem?-none palette n h) refl

  write-palette :
      (n : ℕ) (rest : List ℕ) (t : Term)
      → 256 ≤ n
      → wwrite_loop wcwidth below
          (b'm' ∷ rest)
          (in_sequence (38 ∷ 5 ∷ n ∷ 0 ∷ 0 ∷ 0 ∷ 0 ∷ 0 ∷ []) 3 true t)
        ≡ outside
  unfolding wwrite_loop
  write-palette n rest t h = rw (select-palette n t h) refl

  -- Outside of a sequence, the sequence that selects the colour of an index from 256 on, below 2 ^ 31,
  -- makes handle_sgr read behind the palette.
  pub wwrite_loop-palette :
      (n : Number) (rest : List ℕ) (t : Term)
      → t.escape_seq_state ≡ EscapeState.default
      → IsNumber n
      → 256 ≤ value n
      → wwrite_loop wcwidth below
          (27
            ∷ b'['
            ∷ numbers_text (thirty_eight ∷ five ∷ []) (digits_of (n.head ∷ n.tail) (b'm' ∷ rest)))
          t
        ≡ outside
  wwrite_loop-palette n rest t h p l =
      let ready : (value thirty_eight < 2 ^ 31) × (value five < 2 ^ 31) = omega arith in
      wwrite_loop-numbers wcwidth below (thirty_eight ∷ five ∷ []) n 5 (b'm' ∷ rest) t h
        (
          record { digits = omega arith; fits = ready.0 },
          (record { digits = omega arith; fits = ready.1 }, tt),
        )
        p refl (omega arith)
      ∙ write-palette (value n) rest t l
