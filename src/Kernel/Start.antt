-- ===== src/Kernel/Start.antt =====
-- The kernel's page table in kernel_start of kernel.cc (lab4-TheCarton-main).
use systems_projects.Base.{
  ℕ, zero, suc, ◌+◌, ◌*◌, ◌/◌, ◌%◌, ◌^◌, ◌<◌, ◌≤◌, ◌≡◌, ◌⊎◌, ◌↔◌, refl, sym, ap, ◌∙◌, true, false,
  not, ◌&&◌, some, ltb, ◌==◌, ==_iff, if◌then◌else◌, arith, Bool-cases, inl, inr,
}
use systems_projects.Kernel.Pages.{Machine, Refcounts, page_size}
use systems_projects.Kernel.Table.{
  Perm, pte_pwu, no_perm, PageTable, lookup, Mapped, mapped, failed, assertion, try_map,
}
use systems_projects.Kernel.Table.Laws.{try_map-mapped, try_map_other}

abbrev pub console_addr : ℕ
console_addr = 0xb8000

-- The permissions of a page: none for the first one, and access for processes to the console and
-- from PROC_START_ADDR on.
unfoldable pub page_perm : Machine → ℕ → Perm
page_perm m addr =
    if addr == 0
    then no_perm
    else if ltb addr m.proc_start_addr && not (addr == console_addr)
    then record { present = true; writable = true; user = false }
    else pte_pwu

-- The loop of kernel_start at `page`, with the pages that are left. A mapping that fails is a failed
-- `assert`.
unfoldable pub map_kernel : Machine → (left page : ℕ) → PageTable → Refcounts → Mapped PageTable
unfolding page_perm
map_kernel m zero page t refs = mapped t refs
map_kernel m (suc n) page t refs =
    elim (try_map m t (page * page_size) (page * page_size) (page_perm m (page * page_size)) refs) [
      | mapped t' refs' ↦ map_kernel m n (suc page) t' refs'
      | failed t' refs' ↦ assertion
      | assertion ↦ assertion
    ]

-- What the loop does to the mapping of an address.
Loops : Machine → (left page : ℕ) → PageTable → Mapped PageTable → Type 0
Loops m n page t (mapped t' refs) =
    (va : ℕ)
    → va < 2 ^ 47
    → ((va / page_size < page) → lookup t' va ≡ lookup t va)
      × ((page ≤ va / page_size)
          → (va / page_size < page + n)
          → (0 < va / page_size)
          → lookup t' va ≡ some (va, page_perm m (va / page_size * page_size)))
Loops m n page t (failed t' refs) = Prim.Unit {0}
Loops m n page t assertion = Prim.Unit {0}

page_perm-present :
    (m : Machine) (page : ℕ) → 0 < page → (page_perm m (page * page_size)).present ≡ true
unfolding page_perm
page_perm-present m page pos = ground (arith, pos)

mapped_here :
    {t₁ : PageTable} {refs₁ : Refcounts} (m : Machine) (page : ℕ) (t : PageTable) (refs : Refcounts)
    → page * page_size < 2 ^ 47
    → try_map m t (page * page_size) (page * page_size) (page_perm m (page * page_size)) refs
      ≡ mapped t₁ refs₁
    → (va : ℕ) → va < 2 ^ 47
    → va / page_size ≡ page
    → 0 < page
    → lookup t₁ va ≡ some (va, page_perm m (va / page_size * page_size))
mapped_here m page t refs low done va low' here pos =
    let at : page * page_size + va % page_size ≡ va = omega (arith, here) in
    (try_map-mapped m t (page * page_size) (page * page_size) _ refs low
        (page_perm-present m page pos) done va low').0
      (omega (arith, here))
    ∙ ap (λ a. some (a, page_perm m (page * page_size))) at
    ∙ ap (λ x. some (va, page_perm m (x * page_size))) (sym here)

Loops-step :
    {t₁ : PageTable} {refs₁ : Refcounts} (m : Machine) (n page : ℕ) (t : PageTable)
    (refs : Refcounts) (r : Mapped PageTable)
    → page * page_size < 2 ^ 47
    → try_map m t (page * page_size) (page * page_size) (page_perm m (page * page_size)) refs
      ≡ mapped t₁ refs₁
    → Loops m n (suc page) t₁ r
    → Loops m (suc n) page t r
unfolding Loops
Loops-step m n page t refs (mapped t' refs') low done h = λ va low'. (
  λ below.
      (h va low').0 (omega (arith, below))
      ∙ try_map_other m t (page * page_size) (page * page_size) _ refs low done va low'
          (λ e. omega (arith, e, below)),
  λ from below pos. elim (Bool-cases (va / page_size == page)) [
    | inl here ↦
        let e = (==_iff (va / page_size) page).0 here in
        (h va low').0 (omega (arith, e))
        ∙ mapped_here m page t refs low done va low' e (omega (arith, pos, e))
    | inr beyond ↦ (h va low').1 (ground (arith, from, beyond)) (omega (arith, below)) pos
  ],
)
Loops-step m n page t refs (failed t' refs') low done h = tt
Loops-step m n page t refs assertion low done h = tt

failed_Loops : (m : Machine) (n page : ℕ) (t : PageTable) → Loops m n page t assertion
unfolding Loops
failed_Loops m n page t = tt

of_step :
    (m : Machine) (n page : ℕ) (t : PageTable) (refs : Refcounts) (r : Mapped PageTable)
    → page * page_size < 2 ^ 47
    → try_map m t (page * page_size) (page * page_size) (page_perm m (page * page_size)) refs ≡ r
    → ((t₁ : PageTable) (refs₁ : Refcounts)
        → Loops m n (suc page) t₁ (map_kernel m n (suc page) t₁ refs₁))
    → Loops m (suc n) page t (elim r as (λ _. Mapped PageTable) [
      | mapped t' refs' ↦ map_kernel m n (suc page) t' refs'
      | failed t' refs' ↦ assertion
      | assertion ↦ assertion
    ])
of_step m n page t refs (mapped t' refs') low done h =
    Loops-step m n page t refs _ low done (h t' refs')
of_step m n page t refs (failed t' refs') low done h = failed_Loops m (suc n) page t
of_step m n page t refs assertion low done h = failed_Loops m (suc n) page t

mapped-Loops :
    (m : Machine) (n page : ℕ) (t : PageTable) (refs : Refcounts)
    → (page + n) * page_size ≤ 2 ^ 47
    → Loops m n page t (map_kernel m n page t refs)
unfolding map_kernel Loops
mapped-Loops m zero page t refs low =
    λ va low'. (λ below. refl, λ from below pos. absurd (omega (arith, from, below)))
mapped-Loops m (suc n) page t refs low =
    of_step m n page t refs _ (omega (arith, low)) refl
      (λ t₁ refs₁. mapped-Loops m n (suc page) t₁ refs₁ (omega (arith, low)))

of_user :
    (m : Machine) (page va : ℕ)
    → va / page_size ≡ page
    → 0 < page
    → m.proc_start_addr % page_size ≡ 0
    → (page_perm m (page * page_size)).user ≡ true
    → (page ≡ console_addr / page_size) ⊎ (m.proc_start_addr ≤ va)
unfolding page_perm
of_user m page va e pos aligned user = elim (Bool-cases (page * page_size == console_addr)) [
  | inl console ↦ inl (omega (arith, (==_iff (page * page_size) console_addr).0 console))
  | inr other ↦ elim (Bool-cases (ltb (page * page_size) m.proc_start_addr)) [
    | inl below ↦ absurd (ground (arith, other, below, user, pos))
    | inr from ↦
        let le : m.proc_start_addr ≤ page * page_size = ground (arith, from) in
        inr (omega (arith, le, e))
  ]
]

to_user :
    (m : Machine) (page va : ℕ)
    → va / page_size ≡ page
    → 0 < page
    → m.proc_start_addr % page_size ≡ 0
    → (page ≡ console_addr / page_size) ⊎ (m.proc_start_addr ≤ va)
    → (page_perm m (page * page_size)).user ≡ true
unfolding page_perm
to_user m page va e pos aligned (inl console) =
    let here : page * page_size ≡ console_addr = omega (arith, console) in ground (arith, here, pos)
to_user m page va e pos aligned (inr from) =
    let le : m.proc_start_addr ≤ page * page_size = omega (arith, from, e, aligned) in
    ground (arith, le, pos)

-- If each mapping in the loop of kernel_start succeeds, as its `assert` demands, then below
-- MEMSIZE_PHYSICAL every address that is not on the first page is mapped to itself, and processes
-- have access to it exactly if it is on the page of the console or not below PROC_START_ADDR, which
-- is the start of a page.
pub map_kernel-lookup :
    {t' : PageTable} {refs' : Refcounts} (m : Machine) (t : PageTable) (refs : Refcounts)
    → m.memsize_physical ≤ 2 ^ 47
    → m.proc_start_addr % page_size ≡ 0
    → map_kernel m (m.memsize_physical / page_size) 0 t refs ≡ mapped t' refs'
    → (va : ℕ) → 0 < va / page_size
    → va / page_size < m.memsize_physical / page_size
    → (perm : Perm) × (lookup t' va ≡ some (va, perm))
      × ((perm.user ≡ true)
          ↔ ((va / page_size ≡ console_addr / page_size) ⊎ (m.proc_start_addr ≤ va)))
unfolding Loops page_perm
map_kernel-lookup m t refs small aligned done va pos below =
    let h =
      rw done at
        (mapped-Loops m (m.memsize_physical / page_size) 0 t refs (omega (arith, small))) in
    (
      page_perm m (va / page_size * page_size),
      (h va (omega (arith, below, small))).1 (omega arith) (omega (arith, below)) pos,
      (
        λ user. of_user m (va / page_size) va refl pos aligned user,
        λ open_to. to_user m (va / page_size) va refl pos aligned open_to,
      ),
    )
