-- ===== src/Ansiterm/Write/Args.antt =====
-- The numbers of an escape sequence.
use emos.Base.{
  ℕ, suc, ◌+◌, ◌*◌, ◌%◌, ◌^◌, ◌≤◌, ◌<◌, ◌≡◌, refl, ap, ◌∙◌, Bool, true, false, List, [], ◌∷◌, ◌++◌,
  some, leb-false, length, get_elem?, set, replicate, length-append, arith,
}
use native.Mathlib.Nat.{mod-eq_of_lt, add-zero, zero-add}
use mathlib.Core.List.{append_assoc}
use emos.Status.{Status}
use emos.Words.{sub}
use emos.Ends.{done}
use emos.Console.{set_cursor_pos}
use emos.Strto.Digits.{AllBelow, horner, horner-le}
use emos.Ansiterm.{EscapeState, Term, on_console}
use emos.Ansiterm.Escape.{handle_esc, handle_csi, add_digit}
use emos.Ansiterm.Write.{put_char, put_default, wwrite_loop}

-- A number, by its digits; the first stands apart.
pub record Number : Type 0 where
  pub head : ℕ
  pub tail : List ℕ

abbrev pub value : Number → ℕ
value n = horner 10 0 (n.head ∷ n.tail)

-- Digits, and a value that fits an `int`.
pub record IsNumber (n : Number) : Type 0 where
  pub digits : AllBelow 10 (n.head ∷ n.tail)
  pub fits : value n < 2 ^ 31

abbrev pub AreNumbers : List Number → Type 0
AreNumbers [] = Unit {0}
AreNumbers (n ∷ ns) = IsNumber n × AreNumbers ns

abbrev pub values : List Number → List ℕ
values [] = []
values (n ∷ ns) = value n ∷ values ns

abbrev pub digits_of : (digits rest : List ℕ) → List ℕ
digits_of [] rest = rest
digits_of (d ∷ ds) rest = (b'0' + d) ∷ digits_of ds rest

-- The numbers in decimal, with a semicolon behind each.
abbrev pub numbers_text : List Number → (rest : List ℕ) → List ℕ
numbers_text [] rest = rest
numbers_text (n ∷ ns) rest = digits_of (n.head ∷ n.tail) (b';' ∷ numbers_text ns rest)

-- The terminal inside of a sequence, with these arguments, `open` in a number or not.
abbrev pub in_sequence : (args : List ℕ) (count : ℕ) (open' : Bool) → Term → Term
in_sequence args count open' t = record t {
  escape_seq_args = args;
  escape_seq_arg_count = count;
  escape_seq_number_input = open';
  escape_seq_state = EscapeState.csi;
}

get_elem?-middle :
    (xs : List ℕ) (y : ℕ) (zs : List ℕ) → get_elem? (xs ++ y ∷ zs) (length xs) ≡ some y
get_elem?-middle [] y zs = refl
get_elem?-middle (x ∷ xs) y zs = get_elem?-middle xs y zs

set-middle : (xs : List ℕ) (y v : ℕ) (zs : List ℕ) → set (xs ++ y ∷ zs) (length xs) v ≡ xs ++ v ∷ zs
set-middle [] y v zs = refl
set-middle (x ∷ xs) y v zs = ap (λ r. x ∷ r) (set-middle xs y v zs)

module _ (wcwidth : ℕ → ℕ) (below : Status) where
  -- A digit of a sequence is a byte for `add_digit`.
  put_char-digit :
      (d : ℕ) (args : List ℕ) (count : ℕ) (open' : Bool) (t : Term)
      → d < 10
      → put_char wcwidth below (b'0' + d) (in_sequence args count open' t)
        ≡ add_digit d (in_sequence args count open' t)
  unfolding put_char handle_csi
  put_char-digit d args count open' t l = ground arith

  add_digit-first :
      (d : ℕ) (xs zs : List ℕ) (t : Term)
      → d < 10
      → length xs < 8
      → add_digit d (in_sequence (xs ++ 0 ∷ zs) (length xs) false t)
        ≡ done tt (in_sequence (xs ++ d ∷ zs) (length xs + 1) true t)
  unfolding add_digit
  add_digit-first d xs zs t l b =
      let count : (length xs + 1) % 2 ^ 32 ≡ length xs + 1 = mod-eq_of_lt (omega arith) in
      let at : sub (length xs + 1) 1 ≡ length xs = omega arith in
      let digit : (0 + d) % 2 ^ 32 ≡ d = omega arith in
      rw
        (
          leb-false 8 (length xs) (omega arith),
          count,
          at,
          get_elem?-middle xs 0 zs,
          digit,
          set-middle xs 0 d zs,
        )
        refl

  add_digit-next :
      (d a : ℕ) (xs zs : List ℕ) (t : Term)
      → length xs < 7
      → a * 10 + d < 2 ^ 31
      → add_digit d (in_sequence (xs ++ a ∷ zs) (length xs + 1) true t)
        ≡ done tt (in_sequence (xs ++ (a * 10 + d) ∷ zs) (length xs + 1) true t)
  unfolding add_digit
  add_digit-next d a xs zs t b f =
      let at : sub (length xs + 1) 1 ≡ length xs = omega arith in
      let digit : (a * 10 % 2 ^ 32 + d) % 2 ^ 32 ≡ a * 10 + d = omega arith in
      rw
        (
          leb-false 8 (length xs + 1) (omega arith),
          at,
          get_elem?-middle xs a zs,
          digit,
          set-middle xs a (a * 10 + d) zs,
        )
        refl

  -- The digits behind the first one of a number.
  write-digits :
      (ds : List ℕ) (a : ℕ) (xs zs rest : List ℕ) (t : Term)
      → AllBelow 10 ds
      → length xs < 7
      → horner 10 a ds < 2 ^ 31
      → wwrite_loop wcwidth below
          (digits_of ds rest)
          (in_sequence (xs ++ a ∷ zs) (length xs + 1) true t)
        ≡ wwrite_loop wcwidth below rest
            (in_sequence (xs ++ horner 10 a ds ∷ zs) (length xs + 1) true t)
  unfolding wwrite_loop
  write-digits [] a xs zs rest t p b f = refl
  write-digits (d ∷ ds) a xs zs rest t (l, p) b f =
      let fits = horner-le 10 (a * 10 + d) ds (omega arith) in
      rw
        (
          put_char-digit d (xs ++ a ∷ zs) (length xs + 1) true t l,
          add_digit-next d a xs zs t b (omega (arith, fits)),
        )
        (write-digits ds (a * 10 + d) xs zs rest t p b f)

  -- A number, where the argument that it becomes is still 0.
  write-number :
      (n : Number) (xs zs rest : List ℕ) (t : Term)
      → IsNumber n
      → length xs < 7
      → wwrite_loop wcwidth below
          (digits_of (n.head ∷ n.tail) rest)
          (in_sequence (xs ++ 0 ∷ zs) (length xs) false t)
        ≡ wwrite_loop wcwidth below rest (in_sequence (xs ++ value n ∷ zs) (length xs + 1) true t)
  unfolding wwrite_loop
  write-number n xs zs rest t p b =
      let head : 0 * 10 + n.head ≡ n.head = omega arith in
      rw
        (
          put_char-digit n.head (xs ++ 0 ∷ zs) (length xs) false t p.digits.0,
          add_digit-first n.head xs zs t p.digits.0 (omega arith),
          head,
        )
        (write-digits n.tail n.head xs zs rest t p.digits.1 b (rw head at p.fits))

-- Zeros for these numbers, and `k` more.
abbrev zeros : List Number → (k : ℕ) → List ℕ
zeros [] k = replicate k 0
zeros (n ∷ ns) k = 0 ∷ zeros ns k

zeros-replicate : (ns : List Number) (k : ℕ) → replicate (length ns + k) 0 ≡ zeros ns k
zeros-replicate [] k = rw (zero-add k) refl
zeros-replicate (n ∷ ns) k =
    let step : suc (length ns) + k ≡ suc (length ns + k) = omega arith in
    rw step (ap (λ r. 0 ∷ r) (zeros-replicate ns k))

length-values : (ns : List Number) → length (values ns) ≡ length ns
length-values [] = refl
length-values (n ∷ ns) = ap suc (length-values ns)

module _ (wcwidth : ℕ → ℕ) (below : Status) where
  -- A semicolon ends a number.
  put_char-semicolon :
      (args : List ℕ) (count : ℕ) (t : Term)
      → put_char wcwidth below b';' (in_sequence args count true t)
        ≡ done tt (in_sequence args count false t)
  unfolding put_char handle_csi
  put_char-semicolon args count t = refl

  write-semicolon :
      (args : List ℕ) (count : ℕ) (text : List ℕ) (t : Term)
      → wwrite_loop wcwidth below (b';' ∷ text) (in_sequence args count true t)
        ≡ wwrite_loop wcwidth below text (in_sequence args count false t)
  unfolding wwrite_loop
  write-semicolon args count text t = rw (put_char-semicolon args count t) refl

  write-numbers :
      (ns : List Number) (k : ℕ) (xs rest : List ℕ) (t : Term)
      → AreNumbers ns
      → length xs + length ns ≤ 7
      → wwrite_loop wcwidth below
          (numbers_text ns rest)
          (in_sequence (xs ++ zeros ns k) (length xs) false t)
        ≡ wwrite_loop wcwidth below rest
            (in_sequence (xs ++ (values ns ++ replicate k 0)) (length xs + length ns) false t)
  write-numbers [] k xs rest t p b = rw (add-zero (length xs)) refl
  write-numbers (n ∷ ns) k xs rest t (p, ps) b =
      let seen : List ℕ = xs ++ value n ∷ [] in
      let count : length xs + 1 ≡ length seen = omega (arith, length-append xs (value n ∷ [])) in
      let all : length seen + length ns ≡ length xs + suc (length ns) = omega (arith, count) in
      let split = append_assoc xs (value n ∷ []) in
      write-number wcwidth below n xs (zeros ns k) (b';' ∷ numbers_text ns rest) t p (omega arith)
      ∙ write-semicolon (xs ++ value n ∷ zeros ns k) (length xs + 1) (numbers_text ns rest) t
      ∙ rw (← split (zeros ns k), ← split (values ns ++ replicate k 0), count, ← all)
          (write-numbers ns k seen rest t ps (omega (arith, count)))

  escape_start :
      (t : Term) (text : List ℕ)
      → t.escape_seq_state ≡ EscapeState.default
      → wwrite_loop wcwidth below (27 ∷ b'[' ∷ text) t
        ≡ wwrite_loop wcwidth below text (in_sequence (replicate 8 0) 0 false t)
  unfolding wwrite_loop put_char put_default on_console set_cursor_pos handle_esc
  escape_start t text h = rw h refl

  -- Outside of a sequence, an escape, a bracket and up to seven numbers below 2 ^ 31, in decimal with
  -- semicolons between them, leave the terminal inside of the sequence with these numbers as its first
  -- arguments, zeros behind them, and their count; all else is as before.
  pub wwrite_loop-numbers :
      (ns : List Number) (last : Number) (k : ℕ) (rest : List ℕ) (t : Term)
      → t.escape_seq_state ≡ EscapeState.default
      → AreNumbers ns
      → IsNumber last
      → length ns + (1 + k) ≡ 8
      → 1 ≤ k
      → wwrite_loop wcwidth below
          (27 ∷ b'[' ∷ numbers_text ns (digits_of (last.head ∷ last.tail) rest))
          t
        ≡ wwrite_loop wcwidth below rest
            (in_sequence (values ns ++ value last ∷ replicate k 0) (length ns + 1) true t)
  wwrite_loop-numbers ns last k rest t h ps p e more =
      let eight : length ns + suc k ≡ 8 = omega arith in
      let zeroed : replicate (length ns + suc k) 0 ≡ zeros ns (suc k) =
        zeros-replicate ns (suc k) in
      let args : replicate 8 0 ≡ zeros ns (suc k) = rw eight at zeroed in
      let behind : List ℕ = digits_of (last.head ∷ last.tail) rest in
      let count : 0 + length ns ≡ length (values ns) = omega (arith, length-values ns) in
      let before : wwrite_loop wcwidth below (numbers_text ns behind)
            (in_sequence (replicate 8 0) 0 false t)
          ≡ wwrite_loop wcwidth below behind
              (in_sequence (values ns ++ 0 ∷ replicate k 0) (length (values ns)) false t) =
        rw (args, ← count) (write-numbers ns (suc k) [] behind t ps (omega arith)) in
      rw (← length-values ns) (
        escape_start t (numbers_text ns behind) h
        ∙ before
        ∙ write-number wcwidth below last (values ns) (replicate k 0) rest t p
            (omega (arith, length-values ns)))
