-- ===== src/Kernel/Process/Grant.antt =====
-- What syscall_page_alloc of kernel.cc (lab4-TheCarton-main) grants.
use mathlib.Core.List.{map}
use mathlib.Core.Option.{some_inj}
use mathlib.Core.Path.{fun_ext}
use systems_projects.Base.{
  ℕ, ◌+◌, ◌*◌, ◌/◌, ◌%◌, ◌^◌, ◌<◌, ◌≤◌, ◌≡◌, ◌≢◌, refl, sym, ap, ◌∙◌, Bool, true, false, not, ◌||◌,
  Option, none, some, List, [], ◌∷◌, ltb, ◌==◌, ==_iff, if◌then◌else◌, get_elem?, get_or, set,
  length, length-set, arith, inl, inr, Option-cases, get_elem?-lt, get_elem?-total,
  get_or-get_elem?, get_elem?-set_self, get_elem?-set_ne, get_elem?-map, get_elem?-map_none,
}
use systems_projects.Kernel.Pages.{Machine, Refcounts, page_size, take_page}
use systems_projects.Kernel.Table.{
  pte_pwu, PageTable, lookup, Mapped, mapped, failed, assertion, try_map,
}
use systems_projects.Kernel.Table.Laws.{try_map-mapped}
use systems_projects.Kernel.Table.Wipe.{HasNo, wipe-HasNo, wipe_root}
use systems_projects.Kernel.Table.Taken.{try_map-HasNo}
use systems_projects.Kernel.Process.{
  Proc, Kernel, Alloc, returned, asserted, beyond, map_page, alloc_page, wipe_page,
  syscall_page_alloc,
}

-- What is granted: the page had no user, the current process may now read and write it, at its
-- own address, and the other processes are as they were.
pub record IsGranted (k k' : Kernel) (addr : ℕ) : Type 0 where
  pub unused : get_elem? k.physpages (addr / page_size) ≡ some 0
  pub owner : Proc
  pub here : get_elem? k'.ptable k.current ≡ some owner
  pub usable : lookup owner.pagetable addr ≡ some (addr, pte_pwu)
  pub others : (i : ℕ) → i ≢ k.current → get_elem? k'.ptable i ≡ get_elem? k.ptable i

-- The page is counted once: it has not become a page of a table as well.
abbrev pub IsTakenOnce : Kernel → (addr : ℕ) → Type 0
IsTakenOnce k addr = get_elem? k.physpages (addr / page_size) ≡ some 1

-- No page of a table of any process stands at the address.
abbrev pub IsApart : Kernel → (addr : ℕ) → Type 0
IsApart k addr =
    (i : ℕ) (p : Proc) → get_elem? k.ptable i ≡ some p → (j : ℕ) → HasNo addr (p.pagetable j)

-- The count was 0 in front of the last increment.
taken_once :
    (refs : Refcounts) (i : ℕ) → get_elem? (take_page refs i) i ≡ some 1 → get_elem? refs i ≡ some 0
taken_once refs i e =
    let low : i < length refs =
      omega (arith, get_elem?-lt (take_page refs i) i e, length-set refs i (1 + get_or refs i 0)) in
    let (count, at) = get_elem?-total refs i low in
    let same = get_or-get_elem? refs i 0 count at in
    let new : 1 + get_or refs i 0 ≡ 1 =
      some_inj.0 (sym (get_elem?-set_self refs i (1 + get_or refs i 0) low) ∙ e) in
    at ∙ ap some (omega (arith, same, new))

abbrev wiped : (addr : ℕ) → Proc → Proc
wiped addr p = record p { pagetable = wipe_root addr p.pagetable }

wipe_root-HasNo : (addr : ℕ) (t : PageTable) → ((j : ℕ) → HasNo addr (t j)) → wipe_root addr t ≡ t
wipe_root-HasNo addr t h = fun_ext (λ j. wipe-HasNo addr (t j) (h j))

-- A process whose table has no page there stays as it is.
wiped-HasNo : (addr : ℕ) (p : Proc) → ((j : ℕ) → HasNo addr (p.pagetable j)) → wiped addr p ≡ p
wiped-HasNo addr p h =
    ap (λ (t : PageTable). record p { pagetable = t }) (wipe_root-HasNo addr p.pagetable h)

other-wiped :
    (k : Kernel) (addr i : ℕ) (p : Proc)
    → IsApart k addr
    → i ≢ k.current
    → get_elem? (map (wiped addr) (set k.ptable k.current p)) i ≡ get_elem? k.ptable i
other-wiped k addr i p apart other =
    let same = get_elem?-set_ne k.ptable k.current i p (λ e. other (sym e)) in
    elim (Option-cases (get_elem? k.ptable i)) [
      | inl nobody ↦
          get_elem?-map_none (wiped addr) (set k.ptable k.current p) i (same ∙ nobody) ∙ sym nobody
      | inr (q, at) ↦
          get_elem?-map (wiped addr) (set k.ptable k.current p) i q (same ∙ at)
          ∙ ap some (wiped-HasNo addr q (apart i q at))
          ∙ sym at
    ]

Grants : Kernel → (addr : ℕ) → Alloc → Type 0
Grants k addr (returned value k') = value ≡ 0 → IsTakenOnce k' addr → IsGranted k k' addr
Grants k addr asserted = Prim.Unit {0}
Grants k addr beyond = Prim.Unit {0}

if-Grants :
    (k : Kernel) (addr : ℕ) (b : Bool) (x y : Alloc)
    → (b ≡ true → Grants k addr x)
    → (b ≡ false → Grants k addr y)
    → Grants k addr (if b then x else y)
if-Grants k addr true x y h g = h refl
if-Grants k addr false x y h g = g refl

module _ (m : Machine) (k : Kernel) (p : Proc) (addr : ℕ)
    (found : get_elem? k.ptable k.current ≡ some p) (apart : IsApart k addr) where
  map_page-Grants :
      (r : Mapped PageTable)
      → addr < 2 ^ 47
      → addr % page_size ≡ 0
      → get_elem? k.physpages (addr / page_size) ≡ some 0
      → try_map m p.pagetable addr addr pte_pwu k.physpages ≡ r
      → Grants k addr (map_page addr k p r)
  unfolding map_page Grants wipe_page
  map_page-Grants (mapped t refs) low aligned free e = λ value once.
      let p' : Proc = record p { next_va = p.next_va + page_size; pagetable = t } in
      let unused = taken_once refs (addr / page_size) once in
      let clear =
        try_map-HasNo m p.pagetable addr addr pte_pwu k.physpages addr (apart k.current p found) e
          unused in
      record {
        unused = free;
        owner = wiped addr p';
        here =
            get_elem?-map (wiped addr) (set k.ptable k.current p') k.current p'
              (get_elem?-set_self k.ptable k.current p' (get_elem?-lt k.ptable k.current found));
        usable =
            ap (λ (x : PageTable). lookup x addr) (wipe_root-HasNo addr t clear)
            ∙ (try_map-mapped m p.pagetable addr addr pte_pwu k.physpages low refl e addr low).0
                refl
            ∙ ap (λ a. some (a, pte_pwu)) (omega (arith, aligned));
        others = λ i other. other-wiped k addr i p' apart other;
      }
  map_page-Grants (failed t refs) low aligned free e = λ value once. absurd (omega (arith, value))
  map_page-Grants assertion low aligned free e = tt

  alloc_page-Grants :
      (o : Option ℕ)
      → addr < 2 ^ 47
      → addr % page_size ≡ 0
      → get_elem? k.physpages (addr / page_size) ≡ o
      → Grants k addr (alloc_page m addr k p o)
  unfolding alloc_page Grants
  alloc_page-Grants none low aligned e = tt
  alloc_page-Grants (some refcount) low aligned e =
      if-Grants k addr (refcount == 0) _ _
        (λ free. map_page-Grants _ low aligned (e ∙ ap some ((==_iff refcount 0).0 free)) refl)
        (λ _. tt)

  syscall_page_alloc-Grants :
      m.memsize_physical < 2 ^ 47 → Grants k addr (syscall_page_alloc m addr k p)
  unfolding syscall_page_alloc Grants
  syscall_page_alloc-Grants small =
      if-Grants k addr
        (ltb addr m.proc_start_addr || ltb m.memsize_physical addr || not (addr % page_size == 0)) _
        _ (λ _ value once. absurd (omega (arith, value)))
        (λ fine.
          alloc_page-Grants (get_elem? k.physpages (addr / page_size)) (ground (arith, fine, small))
            (ground (arith, fine)) refl)

-- Where syscall_page_alloc returns 0, and the page was no page of a table and has a count of 1 in the
-- end, so that the mapping has not taken it for a table either, the page was in no use, the process
-- may then read and write it at the same virtual address, and the process table's entries of all
-- other processes are as they were, their page tables included.
pub syscall_page_alloc-IsGranted :
    {k' : Kernel} (m : Machine) (k : Kernel) (p : Proc) (addr : ℕ)
    → m.memsize_physical < 2 ^ 47
    → get_elem? k.ptable k.current ≡ some p
    → IsApart k addr
    → syscall_page_alloc m addr k p ≡ returned 0 k'
    → IsTakenOnce k' addr
    → IsGranted k k' addr
unfolding Grants
syscall_page_alloc-IsGranted m k p addr small found apart done once =
    (rw done at (syscall_page_alloc-Grants m k p addr found apart small)) refl once

get_elem?-length : (xs : List ℕ) → get_elem? xs (length xs) ≡ none
get_elem?-length [] = refl
get_elem?-length (x ∷ xs) = get_elem?-length xs

-- The address MEMSIZE_PHYSICAL itself passes the check of syscall_page_alloc: the kernel then reads
-- the reference count behind the end of `physpages`, where there is one count for each page.
pub syscall_page_alloc_end :
    (m : Machine) (k : Kernel) (p : Proc)
    → length k.physpages * page_size ≡ m.memsize_physical
    → m.proc_start_addr ≤ m.memsize_physical
    → syscall_page_alloc m m.memsize_physical k p ≡ beyond
unfolding syscall_page_alloc alloc_page
syscall_page_alloc_end m k p whole above =
    let refused : (ltb m.memsize_physical m.proc_start_addr
          || ltb m.memsize_physical m.memsize_physical
          || not (m.memsize_physical % page_size == 0))
        ≡ false =
      ground (arith, whole, above) in
    let last : m.memsize_physical / page_size ≡ length k.physpages = omega (arith, whole) in
    rw refused (
      ap (alloc_page m m.memsize_physical k p)
        (ap (get_elem? k.physpages) last ∙ get_elem?-length k.physpages))
