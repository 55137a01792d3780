-- ===== src/Kernel/Table/Laws.antt =====
-- What try_map of k-vmiter.cc (lab4-TheCarton-main) does to the mapping of a page table.
use systems_projects.Base.{
  ℕ, ◌-◌, ◌+◌, ◌*◌, ◌/◌, ◌%◌, ◌^◌, ◌<◌, ◌≡◌, ◌≢◌, ◌⊎◌, refl, sym, ap, ◌∙◌, Bool, true, false, not,
  ◌&&◌, ◌||◌, some, ltb, ◌==◌, ==_iff, if◌then◌else◌, arith, Bool-cases, inl, inr,
}
use systems_projects.Kernel.Pages.{Machine, Refcounts, page_size}
use systems_projects.Kernel.Table.{
  Perm, pte_pwu, Entry, table, PageTable, pageindex, down, va_is_canonical, find, lookup, Mapped,
  mapped, failed, assertion, map_mapped, with_entry, try_map, map_checked, is_zero,
}
use systems_projects.Kernel.Table.Tree.{Differs, Same, look, Maps, table-Maps, map_from-Maps}

ℕ_cases : (a b : ℕ) → (a ≢ b) ⊎ (a ≡ b)
ℕ_cases a b = elim (Bool-cases (a == b)) [
  | inl same ↦ inr ((==_iff a b).0 same)
  | inr other ↦ inl (λ e. ground (arith, other, (==_iff a b).1 e))
]

-- The digits of a page number.
page_digits :
    (a : ℕ)
    → a < 2 ^ 47
    → a / 4096
      ≡ a / 4096 % 512
        + 512 * (a / 2097152 % 512)
        + 262144 * (a / 1073741824 % 512)
        + 134217728 * (a / 549755813888 % 512)
page_digits a low = omega (arith, low)

same_page :
    (va va' : ℕ)
    → va < 2 ^ 47
    → va' < 2 ^ 47
    → pageindex va 3 ≡ pageindex va' 3
    → pageindex va 2 ≡ pageindex va' 2
    → pageindex va 1 ≡ pageindex va' 1
    → pageindex va 0 ≡ pageindex va' 0
    → va / page_size ≡ va' / page_size
same_page va va' low low' e₃ e₂ e₁ e₀ =
    omega (arith, page_digits va low, page_digits va' low', e₃, e₂, e₁, e₀)

-- Addresses below 2 ^ 47 on different pages part at some index.
Differs-root :
    (va va' : ℕ) → va < 2 ^ 47 → va' < 2 ^ 47 → va / page_size ≢ va' / page_size → Differs 4 va va'
unfolding Differs
Differs-root va va' low low' ne = elim (ℕ_cases (pageindex va 3) (pageindex va' 3)) [
  | inl d ↦ inl d
  | inr e₃ ↦ elim (ℕ_cases (pageindex va 2) (pageindex va' 2)) [
    | inl d ↦ inr (inl d)
    | inr e₂ ↦ elim (ℕ_cases (pageindex va 1) (pageindex va' 1)) [
      | inl d ↦ inr (inr (inl d))
      | inr e₁ ↦ inr (inr (inr (inl (λ e₀. ne (same_page va va' low low' e₃ e₂ e₁ e₀)))))
    ]
  ]
]

Same-root : (va va' : ℕ) → va / page_size ≡ va' / page_size → Same 4 va va'
unfolding Same
Same-root va va' e =
    (omega (arith, e), (omega (arith, e), (omega (arith, e), (omega (arith, e), tt))))

lookup-look :
    (t : PageTable) (va : ℕ) → va < 2 ^ 47 → lookup t va ≡ look 4 va pte_pwu (table 0 pte_pwu t)
unfolding lookup find look down
lookup-look t va low = let e : ltb va (2 ^ 47) ≡ true = ground arith in rw e refl

-- What a call of try_map has done to the mapping of the whole table.
MapsRoot : (t : PageTable) (va pa : ℕ) → Perm → Mapped PageTable → Type 0
MapsRoot t va pa perm (mapped t' refs') =
    (perm.present ≡ true
      → (va' : ℕ) → va' < 2 ^ 47
      → va / page_size ≡ va' / page_size
      → lookup t' va' ≡ some (pa + va' % page_size, perm))
    × ((va' : ℕ) → va' < 2 ^ 47 → va / page_size ≢ va' / page_size → lookup t' va' ≡ lookup t va')
MapsRoot t va pa perm (failed t' refs') = (va' : ℕ) → va' < 2 ^ 47 → lookup t' va' ≡ lookup t va'
MapsRoot t va pa perm assertion = Prim.Unit {0}

root-MapsRoot :
    (m : Machine) (t : PageTable) (va pa : ℕ) (perm : Perm) (r : Mapped Entry)
    → va < 2 ^ 47
    → Maps m 4 va pa perm pte_pwu
        (table 0 pte_pwu t)
        (map_mapped (λ e. table 0 pte_pwu (with_entry t (pageindex va 3) e)) r)
    → MapsRoot t va pa perm (map_mapped (with_entry t (pageindex va 3)) r)
unfolding MapsRoot Maps
root-MapsRoot m t va pa perm (mapped e refs) low h = (
  λ present va' low' e₁. lookup-look _ va' low' ∙ h.0 present va' (Same-root va va' e₁),
  λ va' low' ne.
      lookup-look _ va' low'
      ∙ h.1 va' (Differs-root va va' low low' ne)
      ∙ sym (lookup-look t va' low'),
)
root-MapsRoot m t va pa perm (failed e refs) low h =
    λ va' low'. lookup-look _ va' low' ∙ h va' ∙ sym (lookup-look t va' low')
root-MapsRoot m t va pa perm assertion low h = tt

if-MapsRoot :
    (t : PageTable) (va pa : ℕ) (perm : Perm) (b : Bool) (r : Mapped PageTable)
    → MapsRoot t va pa perm r
    → MapsRoot t va pa perm (if b then assertion else r)
unfolding MapsRoot
if-MapsRoot t va pa perm true r h = tt
if-MapsRoot t va pa perm false r h = h

map_checked-MapsRoot :
    (m : Machine) (t : PageTable) (va pa : ℕ) (perm : Perm) (refs : Refcounts)
    → va < 2 ^ 47
    → MapsRoot t va pa perm (map_checked m t va pa perm refs)
unfolding map_checked
map_checked-MapsRoot m t va pa perm refs low =
    if-MapsRoot t va pa perm (not (va % page_size == 0) || not (va_is_canonical va)) _ (
      if-MapsRoot t va pa perm (perm.present && not (pa % page_size == 0 && ltb pa (2 ^ 52))) _ (
        if-MapsRoot t va pa perm (not perm.present && pa % 2 == 1) _ (
          root-MapsRoot m t va pa perm _ low (
            table-Maps m 3 va pa 0 perm pte_pwu pte_pwu t _
              (map_from-Maps m 3 va pa perm pte_pwu (t (pageindex va 3)) refs)))))

-- The address counts only where something is mapped.
MapsRoot-pa :
    (t : PageTable) (va pa pa' : ℕ) (perm : Perm) (r : Mapped PageTable)
    → (perm.present ≡ true → pa' ≡ pa)
    → MapsRoot t va pa' perm r
    → MapsRoot t va pa perm r
unfolding MapsRoot
MapsRoot-pa t va pa pa' perm (mapped t' refs') e h = (
  λ present va' low' same.
      h.0 present va' low' same ∙ ap (λ a. some (a + va' % page_size, perm)) (e present),
  h.1,
)
MapsRoot-pa t va pa pa' perm (failed t' refs') e h = h
MapsRoot-pa t va pa pa' perm assertion e h = h

try_map-MapsRoot :
    (m : Machine) (t : PageTable) (va pa : ℕ) (perm : Perm) (refs : Refcounts)
    → va < 2 ^ 47
    → MapsRoot t va pa perm (try_map m t va pa perm refs)
unfolding try_map
try_map-MapsRoot m t va pa perm refs low =
    MapsRoot-pa t va pa (if is_zero perm && (pa == 2 ^ 64 - 1) then 0 else pa) perm _
      (λ present. ground (arith, present)) (map_checked-MapsRoot m t va _ perm refs low)

-- try_map with permissions that have P implements the update of a map: where it returns 0, the page of
-- `va`, below 2 ^ 47, is mapped to the page at `pa`, with exactly the permissions asked for, and every
-- other page below 2 ^ 47 is mapped as before.
pub try_map-mapped :
    {t' : PageTable} {refs' : Refcounts} (m : Machine) (t : PageTable) (va pa : ℕ) (perm : Perm)
    (refs : Refcounts)
    → va < 2 ^ 47
    → perm.present ≡ true
    → try_map m t va pa perm refs ≡ mapped t' refs'
    → (va' : ℕ) → va' < 2 ^ 47
    → ((va / page_size ≡ va' / page_size) → lookup t' va' ≡ some (pa + va' % page_size, perm))
      × ((va / page_size ≢ va' / page_size) → lookup t' va' ≡ lookup t va')
unfolding MapsRoot
try_map-mapped m t va pa perm refs low present done va' low' =
    let h = rw done at (try_map-MapsRoot m t va pa perm refs low) in
    (h.0 present va' low', h.1 va' low')

-- Where try_map returns -1, since no page is left for a table, every page below 2 ^ 47 is mapped as
-- before.
pub try_map-failed :
    {t' : PageTable} {refs' : Refcounts} (m : Machine) (t : PageTable) (va pa : ℕ) (perm : Perm)
    (refs : Refcounts)
    → va < 2 ^ 47
    → try_map m t va pa perm refs ≡ failed t' refs'
    → (va' : ℕ) → va' < 2 ^ 47
    → lookup t' va' ≡ lookup t va'
unfolding MapsRoot
try_map-failed m t va pa perm refs low done va' low' =
    let h = rw done at (try_map-MapsRoot m t va pa perm refs low) in h va' low'

-- Whatever the permissions: where try_map returns 0, the other pages are mapped as before.
pub try_map_other :
    {t' : PageTable} {refs' : Refcounts} (m : Machine) (t : PageTable) (va pa : ℕ) (perm : Perm)
    (refs : Refcounts)
    → va < 2 ^ 47
    → try_map m t va pa perm refs ≡ mapped t' refs'
    → (va' : ℕ) → va' < 2 ^ 47
    → va / page_size ≢ va' / page_size
    → lookup t' va' ≡ lookup t va'
unfolding MapsRoot
try_map_other m t va pa perm refs low done va' low' other =
    let h = rw done at (try_map-MapsRoot m t va pa perm refs low) in h.1 va' low' other
