-- ===== src/Kernel/Table/Wipe.antt =====
-- A page that is filled with zeroes, in the tables of k-vmiter.cc (lab4-TheCarton-main).
use mathlib.Core.Path.{fun_ext}
use systems_projects.Base.{
  ℕ, zero, suc, ◌<◌, ◌^◌, ◌≡◌, ◌≢◌, ◌⊎◌, refl, ap, true, false, none, some, ltb, ◌==◌, arith,
  Bool-cases, inl, inr,
}
use systems_projects.Kernel.Table.{
  Perm, Entry, empty, page, table, PageTable, pageindex, both, down, find, lookup, wipe, pte_pwu,
}
use systems_projects.Kernel.Table.Tree.{look}

-- No page of the table stands at the address.
unfoldable pub HasNo : (pa : ℕ) → Entry → Type 0
HasNo pa empty = Prim.Unit {0}
HasNo pa (page b p) = Prim.Unit {0}
HasNo pa (table pt p entries) = (pt ≢ pa) × ((i : ℕ) → HasNo pa (entries i))

-- Then the table stays as it is.
pub wipe-HasNo : (pa : ℕ) (e : Entry) → HasNo pa e → wipe pa e ≡ e
unfolding wipe HasNo
wipe-HasNo pa empty h = refl
wipe-HasNo pa (page b p) h = refl
wipe-HasNo pa (table pt p entries) h =
    let other : (pt == pa) ≡ false = ground (arith, h.0) in
    rw other (ap (table pt p) (fun_ext (λ i. wipe-HasNo pa (entries i) (h.1 i))))

look-empty : (l va : ℕ) (perm_ : Perm) → look l va perm_ empty ≡ none
unfolding look down
look-empty zero va perm_ = refl
look-empty (suc l) va perm_ = refl

-- What is mapped after a page was filled with zeroes was mapped so before.
look-wipe :
    (pa l va : ℕ) (perm_ : Perm) (e : Entry)
    → (look l va perm_ (wipe pa e) ≡ look l va perm_ e) ⊎ (look l va perm_ (wipe pa e) ≡ none)
unfolding look down wipe
look-wipe pa l va perm_ empty = inl refl
look-wipe pa l va perm_ (page b p) = inl refl
look-wipe pa zero va perm_ (table pt p entries) = inl refl
look-wipe pa (suc l) va perm_ (table pt p entries) = elim (Bool-cases (pt == pa)) [
  | inl here ↦ inr (rw here (look-empty l va (both perm_ p)))
  | inr other ↦ rw other (look-wipe pa l va (both perm_ p) (entries (pageindex va l)))
]

abbrev pub wipe_root : (pa : ℕ) → PageTable → PageTable
wipe_root pa t = λ i. wipe pa (t i)

lookup-root :
    (t : PageTable) (va : ℕ) → va < 2 ^ 47 → lookup t va ≡ look 3 va pte_pwu (t (pageindex va 3))
unfolding lookup find look
lookup-root t va low = let e : ltb va (2 ^ 47) ≡ true = ground arith in rw e refl

pub lookup-wipe :
    (pa : ℕ) (t : PageTable) (va : ℕ) (x : ℕ × Perm)
    → va < 2 ^ 47
    → lookup (wipe_root pa t) va ≡ some x
    → lookup t va ≡ some x
lookup-wipe pa t va x low e =
    let now = lookup-root (wipe_root pa t) va low in
    let before = lookup-root t va low in
    elim (look-wipe pa 3 va pte_pwu (t (pageindex va 3))) [ inl same ↦ cc | inr gone ↦ cc ]
