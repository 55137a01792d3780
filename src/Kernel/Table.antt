-- ===== src/Kernel/Table.antt =====
-- The page tables of k-vmiter.cc and k-vmiter.hh (lab4-TheCarton-main). A table is a tree of pages of
-- entries, each with its physical address; an entry is an address and the bits P, W and U. No page
-- of entries stands at two places.
pub mod Tree
pub mod Laws
pub mod Wipe
pub mod Taken
use systems_projects.Base.{
  ℕ, zero, suc, ◌+◌, ◌-◌, ◌*◌, ◌/◌, ◌%◌, ◌^◌, Bool, true, false, not, ◌&&◌, ◌||◌, Option, none,
  some, ltb, leb, ◌==◌, if◌then◌else◌,
}
use systems_projects.Kernel.Pages.{Machine, Refcounts, page_size, kalloc}

pub record Perm : Type 0 where
  pub present : Bool
  pub writable : Bool
  pub user : Bool

-- `PTE_PWU`, and 0.
abbrev pub pte_pwu : Perm
pte_pwu = record { present = true; writable = true; user = true }

abbrev pub no_perm : Perm
no_perm = record { present = false; writable = false; user = false }

-- The `&` of two permissions.
abbrev pub both : Perm → Perm → Perm
both p q = record {
  present = q.present && p.present;
  writable = q.writable && p.writable;
  user = q.user && p.user;
}

-- `perm & ~perm_` is 0.
abbrev pub allowed : Perm → Perm → Bool
allowed perm upper =
    (not perm.present || upper.present)
    && (not perm.writable || upper.writable)
    && (not perm.user || upper.user)

abbrev pub is_zero : Perm → Bool
is_zero p = not p.present && not p.writable && not p.user

-- An entry: 0; an address with permissions, which at a level above 0 is a large page; or a page of
-- entries one level below.
pub data Entry : Type 0 where
  empty : Entry
  page : ℕ → Perm → Entry
  table : (pt : ℕ) → Perm → (ℕ → Entry) → Entry

abbrev pub PageTable : Type 0
PageTable = ℕ → Entry

abbrev pub pageindex : ℕ → ℕ → ℕ
pageindex va level = va / 2 ^ (12 + level * 9) % 512

-- Where the iterator stands: the level, the entry, and the permissions of the levels above.
pub record VmIter : Type 0 where
  pub level : ℕ
  pub pep : Entry
  pub perm_ : Perm

unfoldable pub down : (level va : ℕ) → Entry → Perm → VmIter
down zero va e perm = record { level = zero; pep = e; perm_ = perm }
down (suc l) va empty perm = record { level = suc l; pep = empty; perm_ = perm }
down (suc l) va (page pa p) perm = record { level = suc l; pep = page pa p; perm_ = perm }
down (suc l) va (table pt p entries) perm = down l va (entries (pageindex va l)) (both perm p)

abbrev pub va_is_canonical : ℕ → Bool
va_is_canonical va = ltb va (2 ^ 47) || leb (2 ^ 64 - 2 ^ 47) va

-- An iterator at `va`: real_find from the root.
unfoldable pub find : PageTable → ℕ → VmIter
unfolding down
find t va =
    let found = down 3 va (t (pageindex va 3)) pte_pwu in
    if va_is_canonical va then found else record { level = 3; pep = empty; perm_ = no_perm }

-- The base of a large page has its bit 12 cleared.
abbrev pub base : (level pa : ℕ) → ℕ
base zero pa = pa
base (suc l) pa = pa - pa / 4096 % 2 * 4096

abbrev pub mapping_at : (level pa : ℕ) → Perm → (perm_ : Perm) → ℕ → Option (ℕ × Perm)
mapping_at level pa p perm_ va =
    if p.present && perm_.present
    then some (base level pa + va % 2 ^ (12 + level * 9), both perm_ p)
    else none

-- pa() and perm() of an entry, if it is mapped.
abbrev pub mapping : Entry → (level : ℕ) → (perm_ : Perm) → ℕ → Option (ℕ × Perm)
mapping empty level perm_ va = none
mapping (page pa p) level perm_ va = mapping_at level pa p perm_ va
mapping (table pt p entries) level perm_ va = mapping_at level pt p perm_ va

-- The physical address and the permissions at a virtual address.
unfoldable pub lookup : PageTable → ℕ → Option (ℕ × Perm)
unfolding find
lookup t va = let it = find t va in mapping it.pep it.level it.perm_ va

-- How try_map ends: 0, -1, or a failed `assert`.
pub data Mapped (A : Type 0) : Type 0 where
  mapped : A → Refcounts → Mapped A
  failed : A → Refcounts → Mapped A
  assertion : Mapped A

abbrev pub map_mapped : {A B : Type 0} → (A → B) → Mapped A → Mapped B
map_mapped f (mapped a refs) = mapped (f a) refs
map_mapped f (failed a refs) = failed (f a) refs
map_mapped f assertion = assertion

-- An entry of a page of entries is replaced.
abbrev pub with_entry : (ℕ → Entry) → ℕ → Entry → ℕ → Entry
with_entry entries i e = λ j. if j == i then e else entries j

abbrev pub is_present : Entry → Bool
is_present empty = false
is_present (page pa p) = p.present
is_present (table pt p entries) = p.present

-- Below the entry at which the iterator stands: a page of entries is allocated for each level, and
-- at level 0 the entry is written.
unfoldable pub map_new : Machine → (level va pa : ℕ) → Perm → Entry → Refcounts → Mapped Entry
map_new m zero va pa perm e refs = mapped (page pa perm) refs
map_new m (suc l) va pa perm e refs = elim (kalloc m page_size refs) [
  | none ↦ failed e refs
  | some (pt, refs') ↦
      map_mapped (λ e'. table pt pte_pwu (with_entry (λ _. empty) (pageindex va l) e'))
        (map_new m l va pa perm empty refs')
]

-- The checks of try_map at the entry at which the iterator stands.
stand : Machine → (level va pa : ℕ) → Perm → (perm_ : Perm) → Entry → Refcounts → Mapped Entry
unfolding map_new
stand m level va pa perm perm_ e refs =
    let below = map_new m level va pa perm e refs in
    if not (allowed perm perm_)
    then assertion
    else if not (level == 0) && is_zero perm
    then mapped e refs
    else if not (level == 0) && is_present e
    then assertion
    else below

-- try_map, from an entry on.
unfoldable pub map_from :
    Machine → (level va pa : ℕ) → Perm → (perm_ : Perm) → Entry → Refcounts → Mapped Entry
unfolding stand
map_from m zero va pa perm perm_ e refs = stand m zero va pa perm perm_ e refs
map_from m (suc l) va pa perm perm_ empty refs = stand m (suc l) va pa perm perm_ empty refs
map_from m (suc l) va pa perm perm_ (page b p) refs =
    stand m (suc l) va pa perm perm_ (page b p) refs
map_from m (suc l) va pa perm perm_ (table pt p entries) refs =
    map_mapped (λ e. table pt p (with_entry entries (pageindex va l) e))
      (map_from m l va pa perm (both perm_ p) (entries (pageindex va l)) refs)

-- try_map behind its first test. An address with bit 0 set may not stand with permissions that have
-- no P, and with P it is that of a page.
map_checked : Machine → PageTable → (va pa : ℕ) → Perm → Refcounts → Mapped PageTable
unfolding map_from
map_checked m t va pa perm refs =
    let result =
      map_mapped (with_entry t (pageindex va 3))
        (map_from m 3 va pa perm pte_pwu (t (pageindex va 3)) refs) in
    if not (va % page_size == 0) || not (va_is_canonical va)
    then assertion
    else if perm.present && not (pa % page_size == 0 && ltb pa (2 ^ 52))
    then assertion
    else if not perm.present && pa % 2 == 1
    then assertion
    else result

-- `vmiter(t, va).try_map(pa, perm)` at a canonical address; -1 without permissions stands for 0.
unfoldable pub try_map : Machine → PageTable → (va pa : ℕ) → Perm → Refcounts → Mapped PageTable
unfolding map_checked
try_map m t va pa perm refs =
    map_checked m t va (if is_zero perm && (pa == 2 ^ 64 - 1) then 0 else pa) perm refs

-- `memset` of the physical page at `pa` with 0, as it shows in a table: if the page is one of entries,
-- all of them are 0 then.
unfoldable pub wipe : (pa : ℕ) → Entry → Entry
wipe pa empty = empty
wipe pa (page b p) = page b p
wipe pa (table pt p entries) =
    let rest : ℕ → Entry = λ i. wipe pa (entries i) in
    table pt p (if pt == pa then (λ _. empty) else rest)
