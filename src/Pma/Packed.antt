-- ===== src/Pma/Packed.antt =====
-- The packed bitmap of kernel/mm/pma.c: two bits for a frame, four frames to a byte.
use emos.Base.{
  ℕ, zero, suc, ◌-◌, ◌*◌, ◌/◌, ◌%◌, ◌^◌, ◌≤◌, ◌<◌, ◌≡◌, refl, Bool, true, List, [], ◌∷◌, arith, ltb,
  ◌==◌, if◌then◌else◌, bit_and, bit_or, length, get_or, set, holds_upto, holds_upto-at, ==_iff,
  length-set,
}
use emos.Run.{Run, ok, fault}

-- PBM_FREE, PBM_ALLOCATED, PBM_RESERVED
abbrev pub pbm_free : ℕ
pbm_free = 0

abbrev pub pbm_allocated : ℕ
pbm_allocated = 1

abbrev pub pbm_reserved : ℕ
pbm_reserved = 2

-- The shift `(idx & 3) * 2` as a factor.
abbrev pub lane : ℕ → ℕ
lane k = 2 ^ (k * 2)

-- `(byte >> shift) & 3`
unfoldable pub lane_get : ℕ → ℕ → ℕ
lane_get byte k = byte / lane k % 4

-- `byte &= ~(3 << shift); byte |= val << shift`, in a `uint8_t`.
unfoldable pub lane_set : ℕ → ℕ → ℕ → ℕ
lane_set byte k val = bit_or (bit_and byte (255 - 3 * lane k)) (val * lane k) % 256

abbrev pub Bitmap : Type 0
Bitmap = List ℕ

-- A `uint8_t` each.
abbrev pub AllBytes : Bitmap → Type 0
AllBytes [] = Unit {0}
AllBytes (b ∷ bs) = (b < 256) × AllBytes bs

-- `PBM_GET(idx)`. A read past the end has no value in C; `in_map` tells those apart.
unfoldable pub cell : Bitmap → ℕ → ℕ
cell bm idx = lane_get (get_or bm (idx / 4) 0) (idx % 4)

-- The byte of the index lies in the bitmap.
abbrev pub in_map : Bitmap → ℕ → Bool
in_map bm idx = ltb (idx / 4) (length bm)

-- `PBM_GET(idx)`, `fault` for a read outside the bitmap.
unfoldable pub pbm_get : Bitmap → ℕ → Run ℕ
pbm_get bm idx = if in_map bm idx then ok (cell bm idx) else fault

-- `PBM_SET(idx, val)`, `fault` for a write outside the bitmap.
unfoldable pub pbm_set : Bitmap → ℕ → ℕ → Run Bitmap
pbm_set bm idx val =
    if in_map bm idx
    then ok (set bm (idx / 4) (lane_set (get_or bm (idx / 4) 0) (idx % 4) val))
    else fault

-- Every byte, both lanes and every value of two bits.
lane_check : ℕ → ℕ → ℕ → ℕ → Bool
unfolding lane_get lane_set
lane_check k j val byte =
    lane_get (lane_set byte k val) j == (if k == j then val else lane_get byte j)

-- The checks of one value, of one lane read, and of one lane written.
by_value : (k j val : ℕ) → Bool
unfolding lane_check
by_value k j val = holds_upto (lane_check k j val) 256

by_read : (k j : ℕ) → Bool
unfolding by_value
by_read k j = holds_upto (by_value k j) 4

by_write : ℕ → Bool
unfolding by_read
by_write k = holds_upto (by_read k) 4

lane_table : holds_upto by_write 4 ≡ true
unfolding holds_upto by_write
lane_table = refl

pub lane_get-lane_set :
    (byte k j val : ℕ)
    → byte < 256
    → k < 4
    → j < 4
    → val < 4
    → lane_get (lane_set byte k val) j ≡ (if k == j then val else lane_get byte j)
unfolding by_write
lane_get-lane_set byte k j val hb hk hj hv =
    let written = holds_upto-at by_write k 4 hk lane_table in
    let read = holds_upto-at (by_read k) j 4 hj written in
    let stored = holds_upto-at (by_value k j) val 4 hv read in
    (==_iff _ _).0 (holds_upto-at (lane_check k j val) byte 256 hb stored)

pub lane_set-lt : (byte k val : ℕ) → lane_set byte k val < 256
unfolding lane_set
lane_set-lt byte k val = omega arith

pub lane_get-lt : (byte k : ℕ) → lane_get byte k < 4
unfolding lane_get
lane_get-lt byte k = omega arith

pub cell-lt : (bm : Bitmap) (i : ℕ) → cell bm i < 4
unfolding cell
cell-lt bm i = lane_get-lt _ _

pub get_or-lt : (bm : Bitmap) (i : ℕ) → AllBytes bm → get_or bm i 0 < 256
get_or-lt [] i h = omega arith
get_or-lt (b ∷ bs) zero h = h.0
get_or-lt (b ∷ bs) (suc i) h = get_or-lt bs i h.1

pub AllBytes-set : (bm : Bitmap) (i v : ℕ) → v < 256 → AllBytes bm → AllBytes (set bm i v)
AllBytes-set [] i v h a = tt
AllBytes-set (b ∷ bs) zero v h a = (h, a.1)
AllBytes-set (b ∷ bs) (suc i) v h a = (a.0, AllBytes-set bs i v h a.1)

get_or-set :
    (bm : Bitmap) (i j v : ℕ)
    → i < length bm
    → get_or (set bm i v) j 0 ≡ (if i == j then v else get_or bm j 0)
get_or-set [] i j v h = absurd (omega arith)
get_or-set (b ∷ bs) zero zero v h = refl
get_or-set (b ∷ bs) zero (suc j) v h = ground arith
get_or-set (b ∷ bs) (suc i) zero v h = ground arith
get_or-set (b ∷ bs) (suc i) (suc j) v h = ground (arith, get_or-set bs i j v)

-- What `PBM_SET` leaves: the value at its index, every other descriptor as it was.
pub record IsWrite (bm : Bitmap) (i v : ℕ) (bm' : Bitmap) : Type 0 where
  pub runs : pbm_set bm i v ≡ ok bm'
  pub size : length bm' ≡ length bm
  pub bytes : AllBytes bm'
  pub cells : (j : ℕ) → cell bm' j ≡ (if i == j then v else cell bm j)

abbrev pub written : Bitmap → ℕ → ℕ → Bitmap
written bm i v = set bm (i / 4) (lane_set (get_or bm (i / 4) 0) (i % 4) v)

cell-written :
    (bm : Bitmap) (i v j : ℕ)
    → AllBytes bm
    → i < 4 * length bm
    → v < 4
    → cell (written bm i v) j ≡ (if i == j then v else cell bm j)
unfolding cell
cell-written bm i v j a h hv = ground (
  arith,
  get_or-set bm (i / 4) (j / 4) (lane_set (get_or bm (i / 4) 0) (i % 4) v),
  lane_get-lane_set (get_or bm (i / 4) 0) (i % 4) (j % 4) v (get_or-lt bm (i / 4) a),
)

pub pbm_set-IsWrite :
    (bm : Bitmap) (i v : ℕ)
    → AllBytes bm
    → i < 4 * length bm
    → v < 4
    → IsWrite bm i v (written bm i v)
unfolding pbm_set
pbm_set-IsWrite bm i v a h hv = record {
  runs = ground arith;
  size = length-set bm (i / 4) _;
  bytes = AllBytes-set bm (i / 4) _ (lane_set-lt _ _ _) a;
  cells = λ j. cell-written bm i v j a h hv;
}

pub pbm_get-ok : (bm : Bitmap) (i : ℕ) → i < 4 * length bm → pbm_get bm i ≡ ok (cell bm i)
unfolding pbm_get
pbm_get-ok bm i h = ground arith

pub pbm_get-fault : (bm : Bitmap) (i : ℕ) → 4 * length bm ≤ i → pbm_get bm i ≡ fault
unfolding pbm_get
pbm_get-fault bm i h = ground arith
