-- ===== src/Strings/Move.antt =====
-- kernel/stdc/string/memmove.c: where source and destination overlap.
use emos.Base.{
  ℕ, zero, suc, ◌+◌, ◌-◌, ◌^◌, ◌≤◌, ◌<◌, ◌≡◌, ◌⊎◌, inl, inr, refl, Bool-cases, ltb, if◌then◌else◌,
  arith, ap, dec_le, ℕ_discrete, ◌&&◌, leb,
}
use emos.Strings.{Memory, store, copy_up, copy_down, greater_long, memmove}

-- The memory with the bytes of `m` at `src` on, `len` of them, put at `dest` on.
abbrev pub moved : (dest src len : ℕ) → Memory → Memory
moved dest src len m a = if leb dest a && ltb a (dest + len) then m (src + (a - dest)) else m a

pub src_at : (a dest src : ℕ) → a ≤ dest → src + (a - dest) ≡ src
src_at a dest src l = omega arith

pub next_at : (a dest src : ℕ) → dest < a → src + 1 + (a - (dest + 1)) ≡ src + (a - dest)
next_at a dest src l = omega arith

last_at : (a dest n src : ℕ) → a ≡ dest + n → src + (a - dest) ≡ src + n
last_at a dest n src e = omega arith

copy_up-moved :
    (len dest src : ℕ) (m : Memory) (a : ℕ)
    → (dest ≤ src) ⊎ (src + len ≤ dest)
    → copy_up len dest src m a ≡ moved dest src len m a
unfolding copy_up
copy_up-moved zero dest src m a h = ground arith
copy_up-moved (suc n) dest src m a h =
    let ih = copy_up-moved n (dest + 1) (src + 1) (store m dest (m src)) a (ground (arith, h)) in
    elim (dec_le a dest) [
      | yes l ↦ elim (ℕ_discrete a dest) [
        | yes e ↦ ground (arith, ap m (src_at a dest src l))
        | no ne ↦ ground arith
      ]
      | no g ↦ ground (arith, ap m (next_at a dest src (omega arith)))
    ]

copy_down-moved :
    (len dest src : ℕ) (m : Memory) (a : ℕ)
    → (src ≤ dest) ⊎ (dest + len ≤ src)
    → copy_down len dest src m a ≡ moved dest src len m a
unfolding copy_down
copy_down-moved zero dest src m a h = ground arith
copy_down-moved (suc n) dest src m a h =
    let ih = copy_down-moved n dest src (store m (dest + n) (m (src + n))) a (ground (arith, h)) in
    elim (ℕ_discrete a (dest + n)) [
      | yes e ↦ ground (arith, ap m (last_at a dest n src e))
      | no ne ↦ ground arith
    ]

-- Where neither range passes 2 ^ 32, and both addresses are on the same side of 2 ^ 31 or the ranges
-- do not meet, memmove returns `dest` and memory holds the old bytes of the source there; all other
-- bytes are as before.
pub memmove-moved :
    (dest src len : ℕ) (m : Memory)
    → dest + len ≤ 2 ^ 32
    → src + len ≤ 2 ^ 32
    → 0 < len
    → ((dest < 2 ^ 31) × (src < 2 ^ 31))
      ⊎ (((2 ^ 31 ≤ dest) × (2 ^ 31 ≤ src)) ⊎ ((dest + len ≤ src) ⊎ (src + len ≤ dest)))
    → ((memmove dest src len m).0 ≡ dest)
      × ((a : ℕ) → (memmove dest src len m).1 a ≡ moved dest src len m a)
unfolding memmove
memmove-moved dest src len m d s z h = elim (Bool-cases (greater_long dest src)) [
  | inl g ↦ rw (g, memmove) (refl, λ a. copy_down-moved len dest src m a (ground (arith, h)))
  | inr g ↦ rw (g, memmove) (refl, λ a. copy_up-moved len dest src m a (ground (arith, h)))
]
