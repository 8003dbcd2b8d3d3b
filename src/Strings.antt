-- ===== src/Strings.antt =====
-- kernel/stdc/string: the functions on bytes in memory. Memory is a function from addresses to
-- bytes, `size_t` and addresses are 32 bits wide, and no pointer of a theorem passes 2 ^ 32.
pub mod Move
pub mod Copy
mod Tests
use emos.Base.{
  ℕ, zero, suc, ◌+◌, ◌-◌, ◌%◌, ◌^◌, Bool, true, false, Option, none, some, ◌==◌, ltb, leb,
  if◌then◌else◌,
}

abbrev pub Memory : Type 0
Memory = ℕ → ℕ

abbrev pub store : Memory → (a v : ℕ) → Memory
store m a v b = if b == a then v else m b

-- `while (len--) *dest_c++ = *src_c++;`
unfoldable pub copy_up : (len dest src : ℕ) → Memory → Memory
copy_up zero dest src m = m
copy_up (suc n) dest src m = copy_up n (dest + 1) (src + 1) (store m dest (m src))

-- `while (len--) *--dest_c = *--src_c;` from `dest + len` and `src + len` on
unfoldable pub copy_down : (len dest src : ℕ) → Memory → Memory
copy_down zero dest src m = m
copy_down (suc n) dest src m = copy_down n dest src (store m (dest + n) (m (src + n)))

-- `(long)a > (long)b`: the numbers from 2 ^ 31 on are negative.
abbrev pub greater_long : (a b : ℕ) → Bool
greater_long a b = ltb ((b + 2 ^ 31) % 2 ^ 32) ((a + 2 ^ 31) % 2 ^ 32)

unfoldable pub memmove : (dest src len : ℕ) → Memory → ℕ × Memory
memmove dest src len m =
    if greater_long dest src
    then (dest, copy_down len dest src m)
    else (dest, copy_up len dest src m)

unfoldable pub memcpy : (dest src len : ℕ) → Memory → ℕ × Memory
memcpy dest src len m = (dest, copy_up len dest src m)

unfoldable pub mempcpy : (dest src len : ℕ) → Memory → ℕ × Memory
mempcpy dest src len m = (dest + len, copy_up len dest src m)

-- The loop of `memset`, which stores `c` as a byte.
unfoldable pub fill : (count dest c : ℕ) → Memory → Memory
fill zero dest c m = m
fill (suc n) dest c m = fill n (dest + 1) c (store m dest (c % 256))

unfoldable pub memset : (dest c count : ℕ) → Memory → ℕ × Memory
unfolding fill
memset dest c count m = (dest, fill count dest c m)

-- The loop of `strnlen`, with the rounds that it has: nothing where it still runs.
unfoldable pub strnlen_loop : (rounds str s maxlen : ℕ) → Memory → Option ℕ
strnlen_loop zero str s maxlen m = none
strnlen_loop (suc n) str s maxlen m =
    let rest = strnlen_loop n (str + 1) (s + 1) maxlen m in
    if m str == 0 then some s else if leb s maxlen then rest else some s

unfoldable pub strnlen : (rounds str maxlen : ℕ) → Memory → Option ℕ
unfolding strnlen_loop
strnlen rounds str maxlen m = strnlen_loop rounds str 0 maxlen m

-- `if (maxlen) *d = 0;`
unfoldable pub terminate : (maxlen d : ℕ) → Memory → Memory
terminate maxlen d m = if maxlen == 0 then m else store m d 0

-- `while (maxlen-- && *s) *d++ = *s++;` and what follows. The test that finds `maxlen` to be 0
-- leaves it at SIZE_MAX.
unfoldable pub strncpy_loop : (maxlen d s : ℕ) → Memory → Memory
unfolding terminate
strncpy_loop zero d s m = terminate (2 ^ 32 - 1) d m
strncpy_loop (suc n) d s m =
    let rest = strncpy_loop n (d + 1) (s + 1) (store m d (m s)) in
    if m s == 0 then terminate n d m else rest

unfoldable pub strncpy : (dest src maxlen : ℕ) → Memory → ℕ × Memory
unfolding strncpy_loop
strncpy dest src maxlen m = (dest, strncpy_loop maxlen dest src m)
