-- ===== src/Ansiterm/Write/Utf8.antt =====
-- Text in UTF-8 that `write` reads.
use emos.Base.{
  ℕ, zero, suc, ◌+◌, ◌-◌, ◌*◌, ◌/◌, ◌%◌, ◌^◌, ◌≤◌, ◌<◌, ◌≡◌, refl, ap, false, List, [], ◌∷◌, ◌++◌,
  some, ltb, if◌then◌else◌, length, drop, length-append, arith, dec_lt, ltb-false, leb-true,
}
use emos.Status.{Status}
use emos.Ends.{Ended, done, fails, outside, View, view}
use emos.Console.{flush}
use emos.Ansiterm.{Term, on_console}
use emos.Ansiterm.Write.{
  put_char, wwrite_loop, wwrite, lead, read_rest, Tty, pass_over, plus, write_loop, write,
}

-- A code point in UTF-8.
unfoldable pub utf8 : (cp : ℕ) → List ℕ
utf8 cp =
    if ltb cp 0x80
    then cp ∷ []
    else if ltb cp 0x800
    then (0xc0 + cp / 64) ∷ (0x80 + cp % 64) ∷ []
    else if ltb cp 0x10000
    then (0xe0 + cp / 4096) ∷ (0x80 + cp / 64 % 64) ∷ (0x80 + cp % 64) ∷ []
    else (0xf0 + cp / 262144)
      ∷ (0x80 + cp / 4096 % 64)
      ∷ (0x80 + cp / 64 % 64)
      ∷ (0x80 + cp % 64)
      ∷ []

unfoldable pub encode : List ℕ → List ℕ
unfolding utf8
encode [] = []
encode (cp ∷ cps) = utf8 cp ++ encode cps

-- The code points of Unicode.
abbrev pub AreUnicode : List ℕ → Type 0
AreUnicode [] = Unit {0}
AreUnicode (cp ∷ cps) = (cp < 0x110000) × AreUnicode cps

-- The first byte of a code point, and the others read back, with `more` behind them.
pub record Reads (cp : ℕ) (more : List ℕ) : Type 0 where
  pub first : ℕ
  pub others : List ℕ
  pub bits : ℕ
  pub is_text : utf8 cp ≡ first ∷ others
  pub is_lead : lead first ≡ some (suc (length others), bits)
  pub is_read : read_rest (length others) 1 bits (others ++ more) ≡ (cp, suc (length others))

module _ (cp : ℕ) (more : List ℕ) where
  one_byte : cp < 0x80 → Reads cp more
  unfolding utf8 read_rest
  one_byte l = record {
    first = cp;
    others = [];
    bits = cp % 0x80;
    is_text = ground arith;
    is_lead = ground arith;
    is_read = ground arith;
  }

  two_bytes : 0x80 ≤ cp → cp < 0x800 → Reads cp more
  unfolding utf8 read_rest
  two_bytes h l = record {
    first = 0xc0 + cp / 64;
    others = (0x80 + cp % 64) ∷ [];
    bits = (0xc0 + cp / 64) % 0x20 * 2 ^ 6;
    is_text = ground arith;
    is_lead = ground arith;
    is_read = ground arith;
  }

  three_bytes : 0x800 ≤ cp → cp < 0x10000 → Reads cp more
  unfolding utf8 read_rest
  three_bytes h l = record {
    first = 0xe0 + cp / 4096;
    others = (0x80 + cp / 64 % 64) ∷ (0x80 + cp % 64) ∷ [];
    bits = (0xe0 + cp / 4096) % 0x10 * 2 ^ 12;
    is_text = ground arith;
    is_lead = ground arith;
    is_read = ground arith;
  }

  four_bytes : 0x10000 ≤ cp → cp < 0x110000 → Reads cp more
  unfolding utf8 read_rest
  four_bytes h l = record {
    first = 0xf0 + cp / 262144;
    others = (0x80 + cp / 4096 % 64) ∷ (0x80 + cp / 64 % 64) ∷ (0x80 + cp % 64) ∷ [];
    bits = (0xf0 + cp / 262144) % 0x08 * 2 ^ 18;
    is_text = ground arith;
    is_lead = ground arith;
    is_read = ground arith;
  }

  utf8-Reads : cp < 0x110000 → Reads cp more
  utf8-Reads l = elim (dec_lt cp 0x80) [
    | yes h ↦ one_byte h
    | no n1 ↦ elim (dec_lt cp 0x800) [
      | yes h ↦ two_bytes (omega arith) h
      | no n2 ↦ elim (dec_lt cp 0x10000) [
        | yes h ↦ three_bytes (omega arith) h
        | no n3 ↦ four_bytes (omega arith) l
      ]
    ]
  ]

drop-append : (xs ys : List ℕ) → drop (length xs) (xs ++ ys) ≡ ys
drop-append [] ys = refl
drop-append (x ∷ xs) ys = drop-append xs ys

-- What `wwrite` leaves, as the end of a `write` of so many bytes that keeps none.
abbrev pub with_bytes : {A : Type 0} → (n : ℕ) → Ended Term A → Ended Tty ℕ
with_bytes n (done a t) = done n (record { utf8_fragment = []; term = t })
with_bytes n (fails s t) = fails s (record { utf8_fragment = []; term = t })
with_bytes n outside = outside

plus-with_bytes :
    {A : Type 0} (a b c : ℕ) (e : Ended Term A)
    → a + b ≡ c
    → plus a (with_bytes b e) ≡ with_bytes c e
plus-with_bytes a b c (done u t) h = rw h refl
plus-with_bytes a b c (fails st t) h = refl
plus-with_bytes a b c outside h = refl

-- `wwrite` behind its first character.
abbrev then_write : (ℕ → ℕ) → Status → Ended Term (Unit {0}) → List ℕ → Ended Term (Unit {0})
then_write wcwidth below (done u t) cps = wwrite_loop wcwidth below cps t
then_write wcwidth below (fails st t) cps = fails st t
then_write wcwidth below outside cps = outside

module _ (wcwidth : ℕ → ℕ) (below : Status) where
  abbrev fresh : Term → Tty
  fresh t = record { utf8_fragment = []; term = t }

  write_loop-first :
      (n cp : ℕ) (more : List ℕ) (t : Term) (r : Reads cp more)
      → write_loop wcwidth below (suc n) (r.first ∷ (r.others ++ more)) (fresh t)
        ≡ pass_over
            (suc (length r.others))
            (r.first ∷ (r.others ++ more))
            (λ rest s'.
              plus
                (length (r.first ∷ (r.others ++ more)) - length rest)
                (write_loop wcwidth below n rest s'))
            []
            (put_char wcwidth below cp t)
  unfolding write_loop
  write_loop-first n cp more t r =
      let long : ltb (0 + length (r.first ∷ (r.others ++ more))) (suc (length r.others)) ≡ false =
        ltb-false _ _ (omega (arith, length-append r.others more)) in
      let short : suc (length r.others) - 1 ≡ length r.others = omega arith in
      rw (r.is_lead, long, short, r.is_read) refl

  wwrite_loop-first :
      (cp : ℕ) (cps : List ℕ) (t : Term)
      → wwrite_loop wcwidth below (cp ∷ cps) t
        ≡ then_write wcwidth below (put_char wcwidth below cp t) cps
  unfolding wwrite_loop
  wwrite_loop-first cp cps t = elim (view (put_char wcwidth below cp t)) [
    | View.is_done u t' e ↦ rw e refl
    | View.is_failure st s e ↦ rw e refl
    | View.is_outside e ↦ rw e refl
  ]

  -- The rest of a text, by what `put_char` does.
  rest-encode :
      (n cp : ℕ) (cps : List ℕ) (first : ℕ) (others : List ℕ) (e : Ended Term (Unit {0}))
      → ((t : Term)
          → write_loop wcwidth below n (encode cps) (fresh t)
            ≡ with_bytes (length (encode cps)) (wwrite_loop wcwidth below cps t))
      → pass_over
          (suc (length others))
          (first ∷ (others ++ encode cps))
          (λ rest s'.
            plus
              (length (first ∷ (others ++ encode cps)) - length rest)
              (write_loop wcwidth below n rest s'))
          []
          e
        ≡ with_bytes (length (first ∷ (others ++ encode cps))) (then_write wcwidth below e cps)
  rest-encode n cp cps first others (done u t) ih =
      let bytes : suc (length others) - 0 ≡ suc (length others) = omega arith in
      let sum : length (first ∷ (others ++ encode cps)) - length (encode cps) + length (encode cps)
          ≡ length (first ∷ (others ++ encode cps)) =
        omega (arith, length-append others (encode cps)) in
      rw
        (
          leb-true 0 (suc (length others)) (omega arith),
          bytes,
          drop-append others (encode cps),
          ih t,
        )
        (plus-with_bytes _ _ _ (wwrite_loop wcwidth below cps t) sum)
  rest-encode n cp cps first others (fails st t) ih = refl
  rest-encode n cp cps first others outside ih = refl

  write_loop-encode :
      (n : ℕ) (cps : List ℕ) (t : Term)
      → AreUnicode cps
      → length (encode cps) < n
      → write_loop wcwidth below n (encode cps) (fresh t)
        ≡ with_bytes (length (encode cps)) (wwrite_loop wcwidth below cps t)
  unfolding write_loop wwrite_loop encode
  write_loop-encode zero cps t u l = elim l [ ]
  write_loop-encode (suc n) [] t u l = refl
  write_loop-encode (suc n) (cp ∷ cps) t (here, u) l =
      let r = utf8-Reads cp (encode cps) here in
      let text : utf8 cp ++ encode cps ≡ r.first ∷ (r.others ++ encode cps) =
        ap (λ xs. xs ++ encode cps) r.is_text in
      rw (text, wwrite_loop-first cp cps t, write_loop-first n cp (encode cps) t r)
        (rest-encode n cp cps r.first r.others (put_char wcwidth below cp t) (λ t'.
          write_loop-encode n cps t' u
            (omega (arith, ap length text, length-append r.others (encode cps)))))

  -- On the UTF-8 of code points, with no bytes kept from before, write does what wwrite does on the
  -- code points, whatever put_char and flush do, keeps no bytes, and returns the number of bytes.
  pub write-encode :
      (cps : List ℕ) (t : Term)
      → AreUnicode cps
      → write wcwidth below (encode cps) (fresh t)
        ≡ with_bytes (length (encode cps)) (wwrite wcwidth below cps t)
  unfolding write wwrite
  write-encode cps t u =
      let loop = write_loop-encode (suc (length (encode cps))) cps t u (omega arith) in
      elim (view (wwrite_loop wcwidth below cps t)) [
        | View.is_done v t' e ↦ elim (view (on_console (flush below) t')) [
          | View.is_done w t'' e' ↦ rw (loop, e, e')
          | View.is_failure st s e' ↦ rw (loop, e, e')
          | View.is_outside e' ↦ rw (loop, e, e')
        ]
        | View.is_failure st s e ↦ rw (loop, e)
        | View.is_outside e ↦ rw (loop, e)
      ]
