-- ===== src/Kernel/Process/Isolation.antt =====
-- What an entry into kernel.cc (lab4-TheCarton-main) keeps true of the processes and their tables.
use systems_projects.Base.{ℕ, ◌^◌, ◌<◌, ◌≤◌, ◌≡◌, true, Option, some, get_elem?, length}
use systems_projects.Kernel.Pages.{Machine}
use systems_projects.Kernel.Table.{Perm, PageTable, lookup}
use systems_projects.Kernel.Process.{
  Proc, Kernel, Outcome, running, panicked, spinning, out_of_bounds, Alloc, returned, asserted,
  beyond,
}
use systems_projects.Kernel.Process.Schedule.{CanRun}

-- What the process may use is mapped to itself, and is not below PROC_START_ADDR.
abbrev pub IsIsolated : Machine → PageTable → Type 0
IsIsolated m t =
    (va pa : ℕ) (perm : Perm)
    → va < 2 ^ 47
    → lookup t va ≡ some (pa, perm)
    → perm.user ≡ true
    → (pa ≡ va) × (m.proc_start_addr ≤ va)

pub record IsTable (m : Machine) (k : Kernel) : Type 0 where
  pub all : length k.ptable ≡ m.nproc
  pub numbered : (i : ℕ) (p : Proc) → get_elem? k.ptable i ≡ some p → p.pid ≡ i
  pub isolated : (i : ℕ) (p : Proc) → get_elem? k.ptable i ≡ some p → IsIsolated m p.pagetable

-- The process table is in order, and the current process can run.
pub record IsGood (m : Machine) (k : Kernel) : Type 0 where
  pub ok : IsTable m k
  pub can_run : CanRun k k.current

-- Where the kernel lets a process run.
abbrev Safe : Machine → Outcome → Type 0
Safe m (running k) = IsGood m k
Safe m panicked = Prim.Unit {0}
Safe m spinning = Prim.Unit {0}
Safe m out_of_bounds = Prim.Unit {0}

-- What syscall_page_alloc leaves behind.
abbrev AllocSafe : Machine → Alloc → Type 0
AllocSafe m (returned value k) = IsGood m k
AllocSafe m asserted = Prim.Unit {0}
AllocSafe m beyond = Prim.Unit {0}
