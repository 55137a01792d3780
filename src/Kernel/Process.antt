-- ===== src/Kernel/Process.antt =====
-- The processes of kernel.cc (lab4-TheCarton-main): exceptions, system calls, and the scheduler. The
-- screen, the log, the keyboard and the checks of check_pagetable are left out, and so is the content
-- of the pages but for those of the page tables. What a process does between two entries is not here.
pub mod Schedule
pub mod Isolation
pub mod Grant
use mathlib.Core.List.{map}
use systems_projects.Base.{
  ℕ, zero, suc, ◌≡◌, ◌+◌, ◌-◌, ◌/◌, ◌%◌, ◌^◌, Bool, true, false, not, ◌||◌, Option, none, some,
  List, ltb, ◌==◌, if◌then◌else◌, get_elem?, set,
}
use systems_projects.Kernel.Pages.{Machine, Refcounts, page_size, take_page}
use systems_projects.Kernel.Table.{pte_pwu, PageTable, Mapped, mapped, failed, assertion, try_map}
use systems_projects.Kernel.Table.Wipe.{wipe_root}

-- The states that kernel.cc names.
pub data ProcState : Type 0 where
  p_free p_runnable p_faulted : ProcState

abbrev pub is_runnable : ProcState → Bool
is_runnable p_free = false
is_runnable p_runnable = true
is_runnable p_faulted = false

-- The registers that the kernel looks at.
pub record Regs : Type 0 where
  pub reg_rax : ℕ
  pub reg_rdi : ℕ
  pub reg_rip : ℕ
  pub reg_intno : ℕ
  pub reg_errcode : ℕ

pub record Proc : Type 0 where
  pub pid : ℕ
  pub state : ProcState
  pub next_va : ℕ
  pub regs : Regs
  pub pagetable : PageTable

-- `current` is an index of `ptable`.
pub record Kernel : Type 0 where
  pub ptable : List Proc
  pub current : ℕ
  pub physpages : Refcounts
  pub ticks : ℕ

-- How a call of the kernel ends: a process runs; the kernel panics, a failed `assert` included; no
-- process is ever found that can run; or an index is out of the bounds of its array.
pub data Outcome : Type 0 where
  running : Kernel → Outcome
  panicked : Outcome
  spinning : Outcome
  out_of_bounds : Outcome

abbrev pub update : Kernel → ℕ → Proc → Kernel
update k pid p = record k { ptable = set k.ptable pid p }

abbrev pub with_proc : Kernel → ℕ → (Proc → Outcome) → Outcome
with_proc k pid f = elim (get_elem? k.ptable pid) as (λ _. Outcome) [
  | none ↦ out_of_bounds
  | some p ↦ f p
]

-- `run(&ptable[pid])`
unfoldable pub run : Kernel → ℕ → Outcome
run k pid =
    with_proc k pid
      (λ p. if is_runnable p.state then running (record k { current = pid }) else panicked)

-- The loop of schedule behind `pid`, with the rounds that are left.
unfoldable pub schedule_from : (nproc : ℕ) → Kernel → (rounds pid : ℕ) → Outcome
unfolding run
schedule_from nproc k zero pid = spinning
schedule_from nproc k (suc r) pid =
    let next = (pid + 1) % nproc in
    let rest = schedule_from nproc k r next in
    with_proc k next (λ p. if is_runnable p.state then run k next else rest)

-- After as many rounds as there are processes the loop starts anew.
unfoldable pub schedule : Machine → Kernel → Outcome
schedule m k = with_proc k k.current (λ p. schedule_from m.nproc k m.nproc p.pid)

-- `current->regs = *regs`
abbrev pub save : Proc → Regs → Proc
save p regs = record p { regs = regs }

abbrev pub int_pf : ℕ
int_pf = 14

unfoldable pub exception : Machine → Kernel → Regs → Outcome
exception m k regs = with_proc k k.current (λ p.
    if regs.reg_intno == m.timer_intno
    then schedule m (record (update k k.current (save p regs)) { ticks = k.ticks + 1 })
    else if regs.reg_intno == int_pf
    then (if regs.reg_errcode / 4 % 2 == 0
        then panicked
        else schedule m (update k k.current (record (save p regs) { state = p_faulted })))
    else panicked)

-- What syscall_page_alloc returns, or the reason that it does not.
pub data Alloc : Type 0 where
  returned : ℕ → Kernel → Alloc
  asserted : Alloc
  beyond : Alloc

-- -1 as a `uintptr_t`.
abbrev pub minus_one : ℕ
minus_one = 2 ^ 64 - 1

-- `memset((void*) addr, 0, PAGESIZE)`: the page may be one of a table's. It is not the root of one, which
-- has a count of its own.
unfoldable pub wipe_page : (addr : ℕ) → Kernel → Kernel
wipe_page addr k = record k {
  ptable = map (λ (p : Proc). record p { pagetable = wipe_root addr p.pagetable }) k.ptable;
}

map_page : (addr : ℕ) → Kernel → Proc → Mapped PageTable → Alloc
map_page addr k p (mapped t refs) = returned 0 (
    wipe_page addr
      (record (update k k.current (record p { next_va = p.next_va + page_size; pagetable = t })) {
        physpages = take_page refs (addr / page_size);
      }))
map_page addr k p (failed t refs) =
    returned minus_one
      (record (update k k.current (record p { pagetable = t })) { physpages = refs })
map_page addr k p assertion = asserted

-- The check of the reference count, and the mapping of the page.
alloc_page : Machine → (addr : ℕ) → Kernel → Proc → Option ℕ → Alloc
unfolding map_page
alloc_page m addr k p none = beyond
alloc_page m addr k p (some refcount) =
    let result = map_page addr k p (try_map m p.pagetable addr addr pte_pwu k.physpages) in
    if refcount == 0 then result else asserted

-- syscall_page_alloc of the process `p`, which is the current one; `ptable[current->pid]` is that one
-- too, since kernel_start numbers the table.
unfoldable pub syscall_page_alloc : Machine → (addr : ℕ) → Kernel → Proc → Alloc
unfolding alloc_page
syscall_page_alloc m addr k p =
    let result = alloc_page m addr k p (get_elem? k.physpages (addr / page_size)) in
    if ltb addr m.proc_start_addr || ltb m.memsize_physical addr || not (addr % page_size == 0)
    then returned minus_one k
    else result

-- Back to the current process, with `value` in its `%rax`.
abbrev pub return_to : Kernel → ℕ → Outcome
return_to k value =
    with_proc k k.current
      (λ p. running (update k k.current (record p { regs = record p.regs { reg_rax = value } })))

abbrev pub after_alloc : Alloc → Outcome
after_alloc (returned value k) = return_to k value
after_alloc asserted = panicked
after_alloc beyond = out_of_bounds

-- The system calls of lib.hh: 1 is getpid, 2 yield, 4 page_alloc; a panic, fork, exit and what has no
-- number end in a panic.
unfoldable pub syscall : Machine → Kernel → Regs → Outcome
syscall m k regs = with_proc k k.current (λ p.
    let p' : Proc = save p regs in
    let k' : Kernel = update k k.current p' in
    if regs.reg_rax == 1
    then return_to k' p.pid
    else if regs.reg_rax == 2
    then schedule m (update k k.current (save p (record regs { reg_rax = 0 })))
    else if regs.reg_rax == 4
    then after_alloc (syscall_page_alloc m regs.reg_rdi k' p')
    else panicked)

-- An entry into the kernel.
pub data Entered : Type 0 where
  by_syscall : Regs → Entered
  by_exception : Regs → Entered

abbrev pub enter : Machine → Kernel → Entered → Outcome
enter m k (by_syscall regs) = syscall m k regs
enter m k (by_exception regs) = exception m k regs
