-- ===== src/Strings/Tests.antt =====
-- Runs of the string functions, and the theorems at a small memory.
use emos.Base.{ℕ, ◌+◌, ◌^◌, ◌≡◌, inl, inr, refl, arith, ◌-◌, ◌==◌, ltb, if◌then◌else◌}
use emos.Strings.{Memory, copy_up, memmove, memcpy, mempcpy, memset, strncpy}
use emos.Strings.Move.{moved, memmove-moved}
use emos.Strings.Copy.{IsString, bounded, strncpy-bounded}

-- At each address below 6 its number and one more, and zeros behind.
abbrev numbers : Memory
numbers a = if ltb a 6 then a + 1 else 0

memset_test : (memset 2 300 2 numbers).1 3 ≡ 44
unfolding memset
memset_test = refl

memcpy_test : (memcpy 10 1 3 numbers).1 12 ≡ 4
unfolding memcpy copy_up
memcpy_test = refl

mempcpy_test : (mempcpy 10 1 3 numbers).0 ≡ 13
unfolding mempcpy
mempcpy_test = refl

-- A copy to the next address, across 2 ^ 31, repeats the first byte.
abbrev at_border : Memory
at_border a = if a == 2 ^ 31 - 1 then 7 else 5

memmove_border_test : (memmove (2 ^ 31) (2 ^ 31 - 1) 2 at_border).1 (2 ^ 31 + 1) ≡ 7
unfolding memmove copy_up
memmove_border_test = refl

memmove-moved_example :
    ((memmove 2 1 3 numbers).0 ≡ 2)
    × ((a : ℕ) → (memmove 2 1 3 numbers).1 a ≡ moved 2 1 3 numbers a)
memmove-moved_example =
    memmove-moved 2 1 3 numbers (omega arith) (omega arith) (omega arith)
      (inl (omega arith, omega arith))

four_bytes : IsString numbers 2 4
four_bytes = (ground arith, (ground arith, (ground arith, (ground arith, refl))))

-- A buffer of three bytes: the NUL is written behind it.
strncpy-bounded_example : (strncpy 10 2 3 numbers).1 13 ≡ bounded 10 2 3 4 numbers 13
strncpy-bounded_example = strncpy-bounded 10 2 3 4 numbers 13 four_bytes (inr (omega arith))

-- A buffer that the string and its NUL just fill: no NUL is written.
strncpy_fill_test : (strncpy 10 2 5 (λ a. if ltb a 10 then numbers a else 9)).1 14 ≡ 9
unfolding strncpy
strncpy_fill_test = refl
