-- ===== src/Fat/Block.antt =====
-- The block interface of kernel/include/emos/interface/block.h, whose implementations are drivers:
-- a parameter of the model. `fetch` pins a sector and shows its bytes; what the caller wrote into
-- the buffer counts when it releases the sector as dirty.
use emos.Base.{ℕ, ◌+◌, ◌-◌, ◌≡◌, Bool, true, false, ◌&&◌, ◌==◌, if◌then◌else◌}
use emos.Status.{Status}

-- The bytes of a sector, by index.
abbrev pub Sector : Type 0
Sector = ℕ → ℕ

-- What `fetch` says: the buffer, or a status that is a failure.
pub data Reply : Type 0 where
  got : Sector → Reply
  failed : Status → Reply

abbrev pub is_got : Reply → Bool
is_got (got b) = true
is_got (failed s) = false

pub record Block : Type 1 where
  -- the state of the device and its cache
  pub Dev : Type 0
  -- the reply of `fetch` to a sector number, and the state that it leaves
  pub reply : Dev → ℕ → Reply
  pub fetched : Dev → ℕ → Dev
  -- `release` with the bytes that the buffer holds by then, and the dirty flag
  pub release : Dev → ℕ → Sector → Bool → Dev
  -- how often a sector is pinned
  pub held : Dev → ℕ → ℕ
  -- A fetch changes no bytes; a release shows the bytes of a dirty buffer from then on.
  pub reply-fetched : (d : Dev) (l m : ℕ) → reply (fetched d l) m ≡ reply d m
  pub reply-release :
      (d : Dev) (l m : ℕ) (b : Sector) (dirty : Bool)
      → is_got (reply d l) ≡ true
      → reply (release d l b dirty) m ≡ (if dirty && (l == m) then got b else reply d m)
  -- A fetch that succeeds pins its sector once more, and a release unpins it.
  pub held-fetched :
      (d : Dev) (l m : ℕ)
      → held (fetched d l) m ≡ held d m + (if (l == m) && is_got (reply d l) then 1 else 0)
  pub held-release :
      (d : Dev) (l m : ℕ) (b : Sector) (dirty : Bool)
      → held (release d l b dirty) m ≡ held d m - (if l == m then 1 else 0)
