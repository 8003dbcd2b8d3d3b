-- ===== src/Strings/Copy.antt =====
-- kernel/stdc/string/strnlen.c and strncpy.c: what they do at the bound.
use emos.Base.{
  ℕ, zero, suc, ◌+◌, ◌≤◌, ◌<◌, ◌≡◌, ◌≢◌, ◌⊎◌, ap, ◌==◌, if◌then◌else◌, arith, ◌&&◌, min, some,
  dec_le, ℕ_discrete, not,
}
use emos.Strings.{Memory, store, strnlen, strnlen_loop, strncpy, strncpy_loop, terminate}
use emos.Strings.Move.{moved, src_at, next_at}

-- A string of `k` bytes and a NUL behind them.
abbrev pub IsString : Memory → (str k : ℕ) → Type 0
IsString m str zero = m str ≡ 0
IsString m str (suc k) = (m str ≢ 0) × IsString m (str + 1) k

strnlen_loop-IsString :
    (n str s maxlen k : ℕ) (m : Memory)
    → IsString m str k
    → s ≤ maxlen + 1
    → k < n
    → strnlen_loop n str s maxlen m ≡ some (min (s + k) (maxlen + 1))
unfolding strnlen_loop
strnlen_loop-IsString zero str s maxlen k m h l b = absurd (omega arith)
strnlen_loop-IsString (suc n) str s maxlen zero m h l b = ground (arith, h)
strnlen_loop-IsString (suc n) str s maxlen (suc k) m (h, hs) l b = elim (dec_le s maxlen) [
  | yes y ↦ ground (arith, strnlen_loop-IsString n (str + 1) (s + 1) maxlen k m hs (omega arith))
  | no g ↦ ground arith
]

-- On a string, with a round for each of its bytes and one more, strnlen returns the length of the
-- string where it is at most the bound, and one more than the bound for every longer string.
pub strnlen-min :
    (rounds str maxlen k : ℕ) (m : Memory)
    → IsString m str k
    → k < rounds
    → strnlen rounds str maxlen m ≡ some (min k (maxlen + 1))
unfolding strnlen
strnlen-min rounds str maxlen k m h b =
    ground (arith, strnlen_loop-IsString rounds str 0 maxlen k m h (omega arith) b)

store-IsString :
    (m : Memory) (str k a v : ℕ)
    → (a < str) ⊎ (str + k < a)
    → IsString m str k
    → IsString (store m a v) str k
store-IsString m str zero a v o h = ground (arith, o)
store-IsString m str (suc k) a v o (h, hs) =
    (ground (arith, o), store-IsString m (str + 1) k a v (ground (arith, o)) hs)

-- The memory with the bytes of the string put at `dest` on, `maxlen` of them at most, and a NUL
-- behind them, unless the string and its NUL fill the buffer.
abbrev pub bounded : (dest src maxlen k : ℕ) → Memory → Memory
bounded dest src maxlen k m a =
    if a == dest + min k maxlen && not (k + 1 == maxlen)
    then 0
    else moved dest src (min k maxlen) m a

strncpy_loop-bounded :
    (maxlen dest src k : ℕ) (m : Memory) (a : ℕ)
    → IsString m src k
    → (dest + maxlen ≤ src) ⊎ (src + k < dest)
    → strncpy_loop maxlen dest src m a ≡ bounded dest src maxlen k m a
unfolding strncpy_loop terminate
strncpy_loop-bounded zero dest src k m a h o = ground arith
strncpy_loop-bounded (suc n) dest src zero m a h o = ground (arith, h)
strncpy_loop-bounded (suc n) dest src (suc k) m a (h, hs) o =
    let m' = store m dest (m src) in
    let hs' = store-IsString m (src + 1) k dest (m src) (ground (arith, o)) hs in
    let ih = strncpy_loop-bounded n (dest + 1) (src + 1) k m' a hs' (ground (arith, o)) in
    elim (dec_le a dest) [
      | yes l ↦ elim (ℕ_discrete a dest) [
        | yes e ↦ ground (arith, ih, ap m (src_at a dest src l))
        | no ne ↦ ground (arith, ih)
      ]
      | no g ↦ ground (arith, ih, ap m' (next_at a dest src (omega arith)))
    ]

-- For a string and a buffer of `maxlen` bytes that do not meet, strncpy copies the bytes of the
-- string up to `maxlen` of them and writes a NUL behind them, also where this is the byte behind the
-- buffer; only where the string and its NUL just fill the buffer is no NUL written.
pub strncpy-bounded :
    (dest src maxlen k : ℕ) (m : Memory) (a : ℕ)
    → IsString m src k
    → (dest + maxlen ≤ src) ⊎ (src + k < dest)
    → (strncpy dest src maxlen m).1 a ≡ bounded dest src maxlen k m a
unfolding strncpy
strncpy-bounded dest src maxlen k m a h o = strncpy_loop-bounded maxlen dest src k m a h o
