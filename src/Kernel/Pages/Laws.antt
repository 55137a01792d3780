-- ===== src/Kernel/Pages/Laws.antt =====
-- What kalloc of kernel.cc (lab4-TheCarton-main) gives out.
use mathlib.Core.Option.{some_inj, some-ne-none}
use systems_projects.Base.{
  sym, ap, ==_iff, ◌==◌, ℕ, zero, suc, ◌+◌, ◌*◌, ◌/◌, ◌<◌, ◌≤◌, ◌≡◌, false, true, none, some, ltb,
  arith, Bool-cases, inl, inr,
}
use systems_projects.Kernel.Pages.{
  Machine, Refcounts, page_size, is_free_page, take_page, kalloc_from, kalloc,
}

-- The lowest free page from `page` on.
pub record IsLowest (m : Machine) (refs : Refcounts) (from page : ℕ) : Type 0 where
  pub above : from ≤ page
  pub free : is_free_page m refs page ≡ true
  pub lower : (j : ℕ) → from ≤ j → j < page → is_free_page m refs j ≡ false

IsLowest-step :
    (m : Machine) (refs : Refcounts) (from page : ℕ)
    → is_free_page m refs from ≡ false
    → IsLowest m refs (suc from) page
    → IsLowest m refs from page
IsLowest-step m refs from page taken low = record {
  above = omega (arith, low.above);
  free = low.free;
  lower = λ j above below. elim (Bool-cases (j == from)) [
    | inl here ↦ let e : j ≡ from = (==_iff j from).0 here in rw e taken
    | inr later ↦ low.lower j (ground (arith, above)) below
  ];
}

kalloc_from-IsLowest :
    (m : Machine) (refs refs' : Refcounts) (rounds from pa : ℕ)
    → kalloc_from m refs rounds from ≡ some (pa, refs')
    → (page : ℕ) × (pa ≡ page * page_size)
      × (refs' ≡ take_page refs page)
      × IsLowest m refs from page
unfolding kalloc_from
kalloc_from-IsLowest m refs refs' zero from pa h = absurd (ground arith)
kalloc_from-IsLowest m refs refs' (suc k) from pa h = elim (Bool-cases (is_free_page m refs from)) [
  | inl free ↦
      let e = some_inj.0 (rw free at h) in
      (
        from,
        sym (ap (λ p. p.0) e),
        sym (ap (λ p. p.1) e),
        record {
          above = omega arith;
          free = free;
          lower = λ j above below. absurd (omega (arith, above, below));
        },
      )
  | inr taken ↦
      let (page, at, used, low) =
        kalloc_from-IsLowest m refs refs' k (suc from) pa (rw taken at h) in
      (page, at, used, IsLowest-step m refs from page taken low)
]

kalloc_from-none :
    (m : Machine) (refs : Refcounts) (rounds from : ℕ)
    → kalloc_from m refs rounds from ≡ none
    → (j : ℕ) → from ≤ j
    → j < from + rounds
    → is_free_page m refs j ≡ false
unfolding kalloc_from
kalloc_from-none m refs zero from h j above below = absurd (omega (arith, above, below))
kalloc_from-none m refs (suc k) from h j above below =
    elim (Bool-cases (is_free_page m refs from)) [
      | inl free ↦ absurd (some-ne-none _ (rw free at h))
      | inr taken ↦ elim (Bool-cases (j == from)) [
        | inl here ↦ let e : j ≡ from = (==_iff j from).0 here in rw e taken
        | inr later ↦
            kalloc_from-none m refs k (suc from) (rw taken at h) j (ground (arith, above))
              (omega (arith, below))
      ]
    ]

-- kalloc returns the address of the lowest page that may be allocated and whose count is 0, and
-- raises its count; it is asked for no more than a page.
pub kalloc-IsLowest :
    (m : Machine) (refs refs' : Refcounts) (sz pa : ℕ)
    → kalloc m sz refs ≡ some (pa, refs')
    → (sz ≤ page_size)
      × ((page : ℕ) × (pa ≡ page * page_size)
          × (refs' ≡ take_page refs page)
          × IsLowest m refs 0 page)
unfolding kalloc
kalloc-IsLowest m refs refs' sz pa h = elim (Bool-cases (ltb page_size sz)) [
  | inl large ↦ absurd (some-ne-none (pa, refs') (sym (rw large at h)))
  | inr small ↦ (
    ground arith,
    kalloc_from-IsLowest m refs refs' (m.memsize_physical / page_size) 0 pa (rw small at h),
  )
]

-- kalloc fails for a size up to a page only if no page of the memory is free.
pub kalloc-none :
    (m : Machine) (refs : Refcounts) (sz page : ℕ)
    → sz ≤ page_size
    → kalloc m sz refs ≡ none
    → page < m.memsize_physical / page_size
    → is_free_page m refs page ≡ false
unfolding kalloc
kalloc-none m refs sz page small h below =
    let e : ltb page_size sz ≡ false = ground arith in
    kalloc_from-none m refs (m.memsize_physical / page_size) 0 (rw e at h) page (omega arith)
      (omega arith)
