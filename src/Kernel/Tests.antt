-- ===== src/Kernel/Tests.antt =====
-- The kernel of lab 4 on a small machine: a page is mapped, processes take turns, and one faults.
use mathlib.Core.Option
use mathlib.Core.Option.{some_inj, some-ne-none}
use systems_projects.Base.{
  ℕ, zero, suc, ◌+◌, ◌/◌, ◌%◌, ◌<◌, ◌≤◌, ◌≡◌, ◌≢◌, ◌⊎◌, ◌↔◌, ◌++◌, refl, sym, true, none, some, [],
  ◌∷◌, replicate, get_elem?, arith,
}
use systems_projects.Kernel.Pages.{Machine, Refcounts, page_size, kalloc}
use systems_projects.Kernel.Table.{
  Perm, pte_pwu, empty, PageTable, down, find, lookup, Mapped, mapped, failed, assertion, map_new,
  map_from, try_map, wipe,
}
use systems_projects.Kernel.Table.Wipe.{HasNo}
use systems_projects.Kernel.Table.Laws.{try_map-mapped}
use systems_projects.Kernel.Process.{
  ProcState, p_free, p_runnable, Regs, Proc, Kernel, Outcome, running, panicked, spinning,
  out_of_bounds, run, schedule_from, schedule, exception, Alloc, returned, asserted, beyond,
  syscall_page_alloc, wipe_page, syscall, by_exception, enter,
}
use systems_projects.Kernel.Start.{console_addr, map_kernel, map_kernel-lookup}
use systems_projects.Kernel.Process.Schedule.{IsNext, turn, schedule-IsNext}
use systems_projects.Kernel.Process.Grant.{
  IsGranted, IsTakenOnce, IsApart, syscall_page_alloc-IsGranted, syscall_page_alloc_end,
}

abbrev machine : Machine
machine = record {
  memsize_physical = 0x20000;
  proc_start_addr = 0x10000;
  nproc = 3;
  kernel_start_addr = 0x4000;
  kernel_end = 0x5800;
  kernel_stack_top = 0x10000;
  timer_intno = 32;
}

abbrev no_table : PageTable
no_table = λ _. empty

abbrev no_regs : Regs
no_regs = record { reg_rax = 0; reg_rdi = 0; reg_rip = 0; reg_intno = 0; reg_errcode = 0 }

abbrev proc : ℕ → ProcState → Proc
proc pid state = record {
  pid = pid;
  state = state;
  next_va = 0x10000;
  regs = no_regs;
  pagetable = no_table;
}

abbrev booted : Kernel
booted = record {
  ptable = proc 0 p_free ∷ proc 1 p_runnable ∷ proc 2 p_runnable ∷ [];
  current = 1;
  physpages = replicate 32 0;
  ticks = 1;
}

abbrev tree_of : Mapped PageTable → PageTable
tree_of (mapped t refs) = t
tree_of (failed t refs) = t
tree_of assertion = no_table

abbrev refs_of : Mapped PageTable → Refcounts
refs_of (mapped t refs) = refs
refs_of (failed t refs) = refs
refs_of assertion = []

abbrev kernel_of : Outcome → Kernel
kernel_of (running k) = k
kernel_of panicked = booted
kernel_of spinning = booted
kernel_of out_of_bounds = booted

abbrev granted_by : Alloc → Kernel
granted_by (returned value k) = k
granted_by asserted = booted
granted_by beyond = booted

abbrev one_page : Mapped PageTable
one_page = try_map machine no_table 0x10000 0x10000 pte_pwu booted.physpages

one_page_mapped : one_page ≡ mapped (tree_of one_page) (refs_of one_page)
unfolding try_map map_from map_new kalloc
one_page_mapped = refl

try_map-mapped_example :
    ((0x10000 / page_size ≡ 0x10008 / page_size)
      → lookup (tree_of one_page) 0x10008 ≡ some (0x10000 + 0x10008 % page_size, pte_pwu))
    × ((0x10000 / page_size ≢ 0x10008 / page_size)
        → lookup (tree_of one_page) 0x10008 ≡ lookup no_table 0x10008)
try_map-mapped_example =
    try_map-mapped machine no_table 0x10000 0x10000 pte_pwu booted.physpages (omega arith) refl
      one_page_mapped 0x10008 (omega arith)

schedule-IsNext_example :
    (d : ℕ) × (d < 3)
    × IsNext 3 booted 1 d
    × (schedule machine booted ≡ running (record booted { current = turn 3 (suc d) 1 }))
schedule-IsNext_example =
    schedule-IsNext machine booted (proc 1 p_runnable) 2 refl refl refl
      (proc 2 p_runnable, refl, refl)

abbrev after_grant : Alloc
after_grant = syscall_page_alloc machine 0x10000 booted (proc 1 p_runnable)

was_granted : after_grant ≡ returned 0 (granted_by after_grant)
unfolding syscall_page_alloc try_map map_from map_new kalloc
was_granted = refl

granted_once : IsTakenOnce (granted_by after_grant) 0x10000
unfolding syscall_page_alloc wipe_page try_map map_from map_new kalloc
granted_once = refl

booted-IsApart : IsApart booted 0x10000
unfolding HasNo
booted-IsApart zero p found = rw (sym (some_inj.0 found)) (λ j. tt)
booted-IsApart (suc zero) p found = rw (sym (some_inj.0 found)) (λ j. tt)
booted-IsApart (suc (suc zero)) p found = rw (sym (some_inj.0 found)) (λ j. tt)
booted-IsApart (suc (suc (suc i))) p found = absurd (some-ne-none p (sym found))

syscall_page_alloc-IsGranted_example : IsGranted booted (granted_by after_grant) 0x10000
syscall_page_alloc-IsGranted_example =
    syscall_page_alloc-IsGranted machine booted (proc 1 p_runnable) 0x10000 (omega arith) refl
      booted-IsApart was_granted granted_once

syscall_page_alloc_end_example :
    syscall_page_alloc machine 0x20000 booted (proc 1 p_runnable) ≡ beyond
syscall_page_alloc_end_example =
    syscall_page_alloc_end machine booted (proc 1 p_runnable) refl (omega arith)

-- Process 1 asks for a page, and the timer goes off; process 2 faults.
abbrev ask : Regs
ask = record no_regs { reg_rax = 4; reg_rdi = 0x10000 }

abbrev tick : Regs
tick = record no_regs { reg_intno = 32 }

abbrev fault : Regs
fault = record no_regs { reg_intno = 14; reg_errcode = 4 }

abbrev asked : Kernel
asked = kernel_of (syscall machine booted ask)

abbrev ticked : Kernel
ticked = kernel_of (exception machine asked tick)

abbrev faulted : Kernel
faulted = kernel_of (exception machine ticked fault)

took_turns : enter machine asked (by_exception tick) ≡ running ticked
unfolding exception schedule schedule_from run syscall syscall_page_alloc wipe_page try_map map_from
    map_new kalloc
took_turns = refl

gave_way : enter machine ticked (by_exception fault) ≡ running faulted
unfolding exception schedule schedule_from run syscall syscall_page_alloc wipe_page try_map map_from
    map_new kalloc
gave_way = refl

abbrev kernel_table : Mapped PageTable
kernel_table = map_kernel machine (machine.memsize_physical / page_size) 0 no_table booted.physpages

kernel_mapped : kernel_table ≡ mapped (tree_of kernel_table) (refs_of kernel_table)
unfolding map_kernel try_map map_from map_new kalloc
kernel_mapped = refl

map_kernel-lookup_example :
    (perm : Perm) × (lookup (tree_of kernel_table) 0xf008 ≡ some (0xf008, perm))
    × ((perm.user ≡ true)
        ↔ ((0xf008 / page_size ≡ console_addr / page_size) ⊎ (machine.proc_start_addr ≤ 0xf008)))
map_kernel-lookup_example =
    map_kernel-lookup machine no_table booted.physpages (omega arith) refl kernel_mapped 0xf008
      (omega arith) (omega arith)

-- The page at 0x10000 is the lowest free one: it becomes a page of the table, and the process gets
-- it as well.
abbrev tight : Kernel
tight = record booted { physpages = replicate 16 1 ++ replicate 16 0 }

taken_twice :
    (get_elem?
      (granted_by (syscall_page_alloc machine 0x10000 tight (proc 1 p_runnable))).physpages
      16)
    ≡ some 2
unfolding syscall_page_alloc wipe_page try_map map_from map_new kalloc
taken_twice = refl

-- Its entries are then filled with zeroes, and 0 is returned, but the process cannot use the page.
unusable :
    Option.map
      (λ (p : Proc). lookup p.pagetable 0x10000)
      (get_elem?
        (granted_by (syscall_page_alloc machine 0x10000 tight (proc 1 p_runnable))).ptable
        1)
    ≡ some none
unfolding syscall_page_alloc wipe_page wipe try_map map_from map_new kalloc lookup find down
unusable = refl
