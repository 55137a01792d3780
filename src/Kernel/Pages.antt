-- ===== src/Kernel/Pages.antt =====
-- The physical pages of kernel.cc and k-hardware.cc (lab4-TheCarton-main): what may be allocated,
-- and kalloc.
pub mod Laws
use systems_projects.Base.{
  ℕ, zero, suc, ◌+◌, ◌-◌, ◌*◌, ◌/◌, Bool, not, ◌&&◌, ◌||◌, Option, none, some, List, ltb, leb, ◌==◌,
  if◌then◌else◌, get_or, set,
}

abbrev pub page_size : ℕ
page_size = 4096

-- The numbers of kernel.hh and of the linker, which are not part of the repository; `timer_intno` is
-- `INT_IRQ + IRQ_TIMER`.
pub record Machine : Type 0 where
  pub memsize_physical : ℕ
  pub proc_start_addr : ℕ
  pub nproc : ℕ
  pub kernel_start_addr : ℕ
  pub kernel_end : ℕ
  pub kernel_stack_top : ℕ
  pub timer_intno : ℕ

-- `refcount` of each of the `physpages`.
abbrev pub Refcounts : Type 0
Refcounts = List ℕ

abbrev pub reserved_physical_address : ℕ → Bool
reserved_physical_address pa = ltb pa page_size || leb 0xa0000 pa && ltb pa 0x100000

abbrev round_up : ℕ → ℕ → ℕ
round_up x m = (x + (m - 1)) / m * m

abbrev pub allocatable_physical_address : Machine → ℕ → Bool
allocatable_physical_address m pa =
    not (reserved_physical_address pa)
    && (ltb pa m.kernel_start_addr || leb (round_up m.kernel_end page_size) pa)
    && (ltb pa (m.kernel_stack_top - page_size) || leb m.kernel_stack_top pa)
    && ltb pa m.memsize_physical

-- `++physpages[page].refcount`
abbrev pub take_page : Refcounts → ℕ → Refcounts
take_page refs page = set refs page (1 + get_or refs page 0)

abbrev pub is_free_page : Machine → Refcounts → ℕ → Bool
is_free_page m refs page =
    allocatable_physical_address m (page * page_size) && (get_or refs page 1 == 0)

-- The loop of kalloc at a page, with the rounds that are left.
kalloc_from : Machine → Refcounts → (rounds page : ℕ) → Option (ℕ × Refcounts)
kalloc_from m refs zero page = none
kalloc_from m refs (suc k) page =
    let rest = kalloc_from m refs k (suc page) in
    if is_free_page m refs page then some (page * page_size, take_page refs page) else rest

-- A page at a time, so that every size up to a page is the same.
unfoldable pub kalloc : Machine → (sz : ℕ) → Refcounts → Option (ℕ × Refcounts)
unfolding kalloc_from
kalloc m sz refs =
    let found = kalloc_from m refs (m.memsize_physical / page_size) 0 in
    if ltb page_size sz then none else found
