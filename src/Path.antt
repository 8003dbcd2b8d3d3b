-- ===== src/Path.antt =====
-- boot/core/path.c: the elements of a path, joining two paths, and the normal form of a path. A text
-- is the list of its bytes up to the NUL. `path_normalize` moves its `write_pos` to and fro in the
-- buffer; the bytes before it are held as a list with the last one first, so that the length of the
-- list is `write_pos - dest`, and its rest is what an earlier `write_pos` had before it.
pub mod Canonical
pub mod Absolute
pub mod Normal
pub mod Bounds
mod Tests
use emos.Base.{
  ℕ, zero, suc, ◌+◌, ◌-◌, Bool, true, false, List, [], ◌∷◌, ◌++◌, Option, none, some, ◌==◌, ltb,
  leb, not, ◌&&◌, ◌||◌, if◌then◌else◌, length, take, drop,
}
use emos.Strto.{front, behind}

-- The bytes before the first `c`, or all.
abbrev pub until : (c : ℕ) → List ℕ → List ℕ
until c [] = []
until c (d ∷ ds) = if d == c then [] else d ∷ until c ds

-- `strchr`: the text from the first `c` on, [] for NULL.
abbrev pub from : (c : ℕ) → List ℕ → List ℕ
from c [] = []
from c (d ∷ ds) = if d == c then d ∷ ds else from c ds

abbrev pub is_nil : List ℕ → Bool
is_nil [] = true
is_nil (c ∷ cs) = false

-- FILENAME_MAX of boot/include/limits.h, and a name cut to fit it.
abbrev pub filename_max : ℕ
filename_max = 256

abbrev pub cut : List ℕ → List ℕ
cut name = take (filename_max - 1) name

pub record PathIterator : Type 0 where
  pub cursor : List ℕ
  pub element : List ℕ
  pub has_separator : Bool

-- Where there is no colon the element is empty.
abbrev pub init_at : (path at_colon : List ℕ) → PathIterator
init_at path [] = record { cursor = path; element = []; has_separator = false }
init_at path (colon ∷ rest) = record {
  cursor = rest;
  element = cut (until b':' path);
  has_separator = false;
}

unfoldable pub path_iter_init : (path : List ℕ) → PathIterator
path_iter_init path = init_at path (from b':' path)

-- The part of `path_iter_next` behind the separator; with what it returns.
abbrev pub next_at : (separator : Bool) (p : List ℕ) → Bool × PathIterator
next_at separator [] = (true, record { cursor = []; element = []; has_separator = separator })
next_at separator (c ∷ cs) = (
  is_nil (from b'/' (c ∷ cs)),
  record {
    cursor = from b'/' (c ∷ cs);
    element = cut (until b'/' (c ∷ cs));
    has_separator = separator;
  },
)

unfoldable pub path_iter_next : PathIterator → Bool × PathIterator
path_iter_next it =
    let separator = front it.cursor == b'/' in
    next_at separator (if separator then behind it.cursor else it.cursor)

-- A buffer: its bytes up to the NUL or to its end, and whether the function put a NUL behind them.
pub record Buffer : Type 0 where
  pub bytes : List ℕ
  pub terminated : Bool

-- `strnlen` of boot/stdc/string/strnlen.c, which may return `maxlen + 1`.
abbrev pub strnlen : (str : List ℕ) (maxlen : ℕ) → ℕ
strnlen str maxlen = if leb (length str) maxlen then length str else maxlen + 1

-- The loop over `src`, with the room that is left.
abbrev pub copy_loop : (room : ℕ) (src : List ℕ) → Buffer
copy_loop zero src = record { bytes = []; terminated = false }
copy_loop (suc room) [] = record { bytes = []; terminated = true }
copy_loop (suc room) (c ∷ cs) =
    let b = copy_loop room cs in record { bytes = c ∷ b.bytes; terminated = b.terminated }

-- `dest` has a NUL from the caller; the result tells whether there is one still.
unfoldable pub path_join : (dest : List ℕ) (len : ℕ) (src : List ℕ) → Buffer
path_join dest len src =
    let dest_slen = strnlen dest len in
    if ltb dest_slen len
    then (let b = copy_loop (len - 1 - dest_slen) src in
        record { bytes = dest ++ (b'/' ∷ b.bytes); terminated = b.terminated })
    else record { bytes = dest; terminated = true }

unfoldable pub path_is_absolute : (path : List ℕ) → Bool
path_is_absolute path =
    if front path == b'/'
    then true
    else (let colon = from b':' path in
        not (is_nil colon) && (front (behind colon) == b'/' || front (behind colon) == 0))

-- The bytes `path[0]` to `path[len - 1]`, none where the NUL is before the last of them.
abbrev pub first_bytes : (len : ℕ) (path : List ℕ) → Option (List ℕ)
first_bytes len path =
    if leb len (length path + 1) then some (take len (path ++ (0 ∷ []))) else none

-- What is written into the buffer: the loop compares `path`, which it does not move, with the colon.
unfoldable pub path_get_fsname : (len : ℕ) (path : List ℕ) → Option (List ℕ)
path_get_fsname len path =
    if is_nil (from b':' path)
    then some (0 ∷ [])
    else if is_nil (until b':' path)
    then some []
    else first_bytes len path

-- `dirname_end - path`: the index of the last slash, or the length.
abbrev pub last_slash : List ℕ → ℕ
last_slash [] = 0
last_slash (c ∷ cs) = if is_nil (from b'/' cs) then 0 else suc (last_slash cs)

abbrev pub dirname_len : List ℕ → ℕ
dirname_len path = if is_nil (from b'/' path) then length path else last_slash path

unfoldable pub path_get_dirname : (len : ℕ) (path : List ℕ) → Option (List ℕ)
path_get_dirname len path = if dirname_len path == 0 then some [] else first_bytes len path
