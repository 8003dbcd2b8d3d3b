-- ===== src/Vma.antt =====
-- kernel/mm/vma.c: the virtual page allocator, two areas with a mark each that only moves up.
-- `vpn_t` and `size_t` are 32 bits wide, as on i686.
pub mod Grant
pub mod Sequence
mod Tests
use emos.Base.{
  ℕ, ◌+◌, ◌-◌, ◌%◌, ◌^◌, ◌≡◌, Bool, true, false, leb, ◌==◌, if◌then◌else◌, bit_and, Option, none,
  some,
}
use emos.Status.{Status}

pub record Vma : Type 0 where
  pub user_base_vpn : ℕ
  pub user_limit_vpn : ℕ
  pub user_alloc_vpn : ℕ
  pub kernel_base_vpn : ℕ
  pub kernel_limit_vpn : ℕ
  pub kernel_alloc_vpn : ℕ

abbrev pub vaf_kernel : ℕ
vaf_kernel = 1

-- `alloc_flags & VAF_KERNEL`
abbrev pub wants_kernel : ℕ → Bool
wants_kernel flags = if bit_and flags vaf_kernel == 0 then false else true

abbrev pub add32 : ℕ → ℕ → ℕ
add32 a b = (a + b) % 2 ^ 32

-- `limit - from + 1`
abbrev pub span32 : ℕ → ℕ → ℕ
span32 limit from = (limit + 2 ^ 32 - from + 1) % 2 ^ 32

-- `mm_vma_init`
pub init : (user_base user_limit kernel_base kernel_limit : ℕ) → Status × Vma
init user_base user_limit kernel_base kernel_limit = (
  Status.success,
  record {
    user_base_vpn = user_base;
    user_limit_vpn = user_limit;
    user_alloc_vpn = user_base;
    kernel_base_vpn = kernel_base;
    kernel_limit_vpn = kernel_limit;
    kernel_alloc_vpn = kernel_base;
  },
)

pub get_available_kernel_page_count : Vma → Status × ℕ
get_available_kernel_page_count st = (Status.success, span32 st.kernel_limit_vpn st.kernel_base_vpn)

pub get_free_kernel_page_count : Vma → Status × ℕ
get_free_kernel_page_count st = (Status.success, span32 st.kernel_limit_vpn st.kernel_alloc_vpn)

pub get_available_user_page_count : Vma → Status × ℕ
get_available_user_page_count st = (Status.success, span32 st.user_limit_vpn st.user_base_vpn)

pub get_free_user_page_count : Vma → Status × ℕ
get_free_user_page_count st = (Status.success, span32 st.user_limit_vpn st.user_alloc_vpn)

-- `mm_vma_allocate_page`: the status, what `*vpn` is set to, and the new state.
unfoldable pub allocate_page : (page_count flags : ℕ) → Vma → Status × Option ℕ × Vma
allocate_page page_count flags st =
    if wants_kernel flags
    then (if leb st.kernel_limit_vpn (add32 st.kernel_alloc_vpn page_count)
        then (Status.insufficient_memory, none, st)
        else (
          Status.success,
          some st.kernel_alloc_vpn,
          record st { kernel_alloc_vpn = add32 st.kernel_alloc_vpn page_count },
        ))
    else if leb st.user_limit_vpn (add32 st.user_alloc_vpn page_count)
    then (Status.insufficient_memory, none, st)
    else (
      Status.success,
      some st.user_alloc_vpn,
      record st { user_alloc_vpn = add32 st.user_alloc_vpn page_count },
    )

-- `mm_vma_free_page` does nothing.
pub free_page : (vpn page_count : ℕ) → Vma → Vma
free_page vpn page_count st = st
