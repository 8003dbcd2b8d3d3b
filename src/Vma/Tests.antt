-- ===== src/Vma/Tests.antt =====
-- The page allocator with a user area from 0x400 to 0x410 and a kernel area from 0x800 to 0x820.
use emos.Base.{◌≡◌, refl, some, [], ◌∷◌, List, arith}
use emos.Status.{Status}
use emos.Vma.{Vma, init, allocate_page}
use emos.Vma.Grant.{IsValid}
use emos.Vma.Sequence.{Request, grants, AllFrom, AllApart, grants-Apart}

abbrev start : Vma
start = record {
  user_base_vpn = 0x400;
  user_limit_vpn = 0x410;
  user_alloc_vpn = 0x404;
  kernel_base_vpn = 0x800;
  kernel_limit_vpn = 0x820;
  kernel_alloc_vpn = 0x800;
}

init_start : (init 0x400 0x410 0x800 0x820).1 ≡ record start { user_alloc_vpn = 0x400 }
unfolding init
init_start = refl

allocate_user :
    allocate_page 4 0 start ≡ (Status.success, some 0x404, record start { user_alloc_vpn = 0x408 })
unfolding allocate_page
allocate_user = refl

start-IsValid : IsValid start
start-IsValid = omega arith

abbrev three_requests : List Request
three_requests =
    record { page_count = 4; flags = 0 }
    ∷ record { page_count = 100; flags = 1 }
    ∷ record { page_count = 2; flags = 0 }
    ∷ []

grants-Apart_example :
    AllFrom 0x800 0x404 0x820 0x410 (grants three_requests start)
    × AllApart (grants three_requests start)
grants-Apart_example = grants-Apart three_requests start-IsValid (omega arith)
