-- ===== src/Kernel/Table/Taken.antt =====
-- Which pages try_map of k-vmiter.cc takes for a table (lab4-TheCarton-main): none whose reference
-- count is 0 in the end.
use systems_projects.Base.{
  ℕ, zero, suc, ◌+◌, ◌-◌, ◌/◌, ◌%◌, ◌^◌, refl, ◌≡◌, ◌≢◌, Bool, true, false, not, ◌&&◌, ◌||◌, Option,
  none, some, ltb, ◌==◌, if◌then◌else◌, get_elem?, get_or, arith, Bool-cases, inl, inr,
  get_elem?-set_cases,
}
use systems_projects.Kernel.Pages.{Machine, Refcounts, page_size, kalloc}
use systems_projects.Kernel.Pages.Laws.{kalloc-IsLowest}
use systems_projects.Kernel.Table.{
  Perm, pte_pwu, Entry, empty, page, table, PageTable, pageindex, both, Mapped, mapped, failed,
  assertion, map_mapped, with_entry, allowed, is_zero, is_present, map_new, stand, map_from,
  map_checked, try_map, va_is_canonical,
}
use systems_projects.Kernel.Table.Wipe.{HasNo}

-- The count of the page is 0.
abbrev pub IsUnused : Refcounts → ℕ → Type 0
IsUnused refs pa = get_elem? refs (pa / page_size) ≡ some 0

kalloc-IsUnused :
    (m : Machine) (refs refs' : Refcounts) (pt pa : ℕ)
    → kalloc m page_size refs ≡ some (pt, refs')
    → IsUnused refs' pa
    → IsUnused refs pa × (pt ≢ pa)
kalloc-IsUnused m refs refs' pt pa e unused =
    let (taken, at, new, low) = (kalloc-IsLowest m refs refs' page_size pt e).1 in
    elim (get_elem?-set_cases refs taken (pa / page_size) (1 + get_or refs taken 0)
      (rw new at unused)) [
        | inl (same, count) ↦ absurd (omega (arith, count))
        | inr (other, old) ↦ (old, λ here. other (omega (arith, at, here)))
      ]

-- Where a mapping succeeded and the page is unused in the end, it was so before and is none of the
-- table's.
Clean : (pa : ℕ) → Refcounts → Mapped Entry → Type 0
Clean pa refs (mapped e refs') = IsUnused refs' pa → IsUnused refs pa × HasNo pa e
Clean pa refs (failed e refs') = Prim.Unit {0}
Clean pa refs assertion = Prim.Unit {0}

with_entry-HasNo :
    (pa : ℕ) (entries : ℕ → Entry) (i : ℕ) (e : Entry)
    → ((j : ℕ) → HasNo pa (entries j))
    → HasNo pa e
    → (j : ℕ) → HasNo pa (with_entry entries i e j)
with_entry-HasNo pa entries i e h new j = elim (Bool-cases (j == i)) [
  | inl here ↦ rw here new
  | inr other ↦ rw other (h j)
]

table-Clean :
    (pa pt : ℕ) (p : Perm) (entries : ℕ → Entry) (i : ℕ) (refs : Refcounts) (r : Mapped Entry)
    → pt ≢ pa
    → ((j : ℕ) → HasNo pa (entries j))
    → Clean pa refs r
    → Clean pa refs (map_mapped (λ e. table pt p (with_entry entries i e)) r)
unfolding Clean HasNo
table-Clean pa pt p entries i refs (mapped e refs') ne h c =
    λ unused. let (before, new) = c unused in (before, (ne, with_entry-HasNo pa entries i e h new))
table-Clean pa pt p entries i refs (failed e refs') ne h c = tt
table-Clean pa pt p entries i refs assertion ne h c = tt

-- A page that is taken, and what is done with the counts behind it.
taken-Clean :
    (m : Machine) (pa pt i : ℕ) (refs refs' : Refcounts) (r : Mapped Entry)
    → kalloc m page_size refs ≡ some (pt, refs')
    → Clean pa refs' r
    → Clean pa refs (map_mapped (λ e. table pt pte_pwu (with_entry (λ _. empty) i e)) r)
unfolding Clean HasNo
taken-Clean m pa pt i refs refs' (mapped e refs'') got c = λ unused.
    let (between, new) = c unused in
    let (before, ne) = kalloc-IsUnused m refs refs' pt pa got between in
    (before, (ne, with_entry-HasNo pa (λ _. empty) i e (λ _. tt) new))
taken-Clean m pa pt i refs refs' (failed e refs'') got c = tt
taken-Clean m pa pt i refs refs' assertion got c = tt

by_kalloc-Clean :
    (m : Machine) (l va to : ℕ) (perm : Perm) (e : Entry) (refs : Refcounts) (pa : ℕ)
    (o : Option (ℕ × Refcounts))
    → kalloc m page_size refs ≡ o
    → ((refs' : Refcounts) → Clean pa refs' (map_new m l va to perm empty refs'))
    → Clean pa refs (elim o as (λ _. Mapped Entry) [
      | none ↦ failed e refs
      | some (pt, refs') ↦
          map_mapped
            (λ e'. table pt pte_pwu (with_entry (λ _. empty) (pageindex va l) e'))
            (map_new m l va to perm empty refs')
    ])
unfolding Clean
by_kalloc-Clean m l va to perm e refs pa none got below = tt
by_kalloc-Clean m l va to perm e refs pa (some (pt, refs')) got below =
    taken-Clean m pa pt (pageindex va l) refs refs' _ got (below refs')

map_new-Clean :
    (m : Machine) (l va to : ℕ) (perm : Perm) (e : Entry) (refs : Refcounts) (pa : ℕ)
    → Clean pa refs (map_new m l va to perm e refs)
unfolding map_new Clean HasNo
map_new-Clean m zero va to perm e refs pa = λ unused. (unused, tt)
map_new-Clean m (suc l) va to perm e refs pa =
    by_kalloc-Clean m l va to perm e refs pa (kalloc m page_size refs) refl
      (λ refs'. map_new-Clean m l va to perm empty refs' pa)

if-Clean :
    (pa : ℕ) (refs : Refcounts) (b : Bool) (x y : Mapped Entry)
    → Clean pa refs x
    → Clean pa refs y
    → Clean pa refs (if b then x else y)
if-Clean pa refs true x y h g = h
if-Clean pa refs false x y h g = g

stand-Clean :
    (m : Machine) (l va to : ℕ) (perm perm_ : Perm) (e : Entry) (refs : Refcounts) (pa : ℕ)
    → HasNo pa e
    → Clean pa refs (stand m l va to perm perm_ e refs)
unfolding stand Clean
stand-Clean m l va to perm perm_ e refs pa h = if-Clean pa refs (not (allowed perm perm_)) _ _ tt (
    if-Clean pa refs (not (l == 0) && is_zero perm) _ _ (λ unused. (unused, h))
      (if-Clean pa refs (not (l == 0) && is_present e) _ _ tt
        (map_new-Clean m l va to perm e refs pa)))

map_from-Clean :
    (m : Machine) (l va to : ℕ) (perm perm_ : Perm) (e : Entry) (refs : Refcounts) (pa : ℕ)
    → HasNo pa e
    → Clean pa refs (map_from m l va to perm perm_ e refs)
unfolding map_from HasNo
map_from-Clean m zero va to perm perm_ e refs pa h = stand-Clean m zero va to perm perm_ e refs pa h
map_from-Clean m (suc l) va to perm perm_ empty refs pa h =
    stand-Clean m (suc l) va to perm perm_ empty refs pa h
map_from-Clean m (suc l) va to perm perm_ (page b p) refs pa h =
    stand-Clean m (suc l) va to perm perm_ (page b p) refs pa h
map_from-Clean m (suc l) va to perm perm_ (table pt p entries) refs pa h =
    table-Clean pa pt p entries (pageindex va l) refs _ h.0 h.1 (
      map_from-Clean m l va to perm (both perm_ p) (entries (pageindex va l)) refs pa
        (h.1 (pageindex va l)))

CleanRoot : (pa : ℕ) → Refcounts → Mapped PageTable → Type 0
CleanRoot pa refs (mapped t refs') = IsUnused refs' pa → (i : ℕ) → HasNo pa (t i)
CleanRoot pa refs (failed t refs') = Prim.Unit {0}
CleanRoot pa refs assertion = Prim.Unit {0}

root-CleanRoot :
    (pa : ℕ) (t : PageTable) (i : ℕ) (refs : Refcounts) (r : Mapped Entry)
    → ((j : ℕ) → HasNo pa (t j))
    → Clean pa refs r
    → CleanRoot pa refs (map_mapped (with_entry t i) r)
unfolding Clean CleanRoot
root-CleanRoot pa t i refs (mapped e refs') h c = λ unused. with_entry-HasNo pa t i e h (c unused).1
root-CleanRoot pa t i refs (failed e refs') h c = tt
root-CleanRoot pa t i refs assertion h c = tt

if-CleanRoot :
    (pa : ℕ) (refs : Refcounts) (b : Bool) (r : Mapped PageTable)
    → CleanRoot pa refs r
    → CleanRoot pa refs (if b then assertion else r)
unfolding CleanRoot
if-CleanRoot pa refs true r h = tt
if-CleanRoot pa refs false r h = h

map_checked-CleanRoot :
    (m : Machine) (t : PageTable) (va to : ℕ) (perm : Perm) (refs : Refcounts) (pa : ℕ)
    → ((i : ℕ) → HasNo pa (t i))
    → CleanRoot pa refs (map_checked m t va to perm refs)
unfolding map_checked
map_checked-CleanRoot m t va to perm refs pa h =
    if-CleanRoot pa refs (not (va % page_size == 0) || not (va_is_canonical va)) _ (
      if-CleanRoot pa refs (perm.present && not (to % page_size == 0 && ltb to (2 ^ 52))) _ (
        if-CleanRoot pa refs (not perm.present && to % 2 == 1) _ (
          root-CleanRoot pa t (pageindex va 3) refs _ h (
            map_from-Clean m 3 va to perm pte_pwu (t (pageindex va 3)) refs pa
              (h (pageindex va 3))))))

try_map-CleanRoot :
    (m : Machine) (t : PageTable) (va to : ℕ) (perm : Perm) (refs : Refcounts) (pa : ℕ)
    → ((i : ℕ) → HasNo pa (t i))
    → CleanRoot pa refs (try_map m t va to perm refs)
unfolding try_map
try_map-CleanRoot m t va to perm refs pa h =
    map_checked-CleanRoot m t va (if is_zero perm && (to == 2 ^ 64 - 1) then 0 else to) perm refs pa
      h

-- A page that is unused after a mapping that succeeded is none of the table's, if it was none before.
pub try_map-HasNo :
    {t' : PageTable} {refs' : Refcounts} (m : Machine) (t : PageTable) (va to : ℕ) (perm : Perm)
    (refs : Refcounts) (pa : ℕ)
    → ((i : ℕ) → HasNo pa (t i))
    → try_map m t va to perm refs ≡ mapped t' refs'
    → IsUnused refs' pa
    → (i : ℕ) → HasNo pa (t' i)
unfolding CleanRoot
try_map-HasNo m t va to perm refs pa h done =
    rw done at (try_map-CleanRoot m t va to perm refs pa h)
