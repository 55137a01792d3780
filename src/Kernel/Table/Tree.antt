-- ===== src/Kernel/Table/Tree.antt =====
-- What try_map of k-vmiter.cc (lab4-TheCarton-main) does below one entry of a page table.
use systems_projects.Base.{
  ℕ, zero, suc, ◌+◌, ◌%◌, ◌≡◌, ◌≢◌, ◌⊎◌, refl, sym, ap, ◌∙◌, true, false, not, ◌&&◌, Option, none,
  some, ◌==◌, ==_iff, arith, Bool-cases, inl, inr,
}
use systems_projects.Kernel.Pages.{Machine, Refcounts, page_size, kalloc}
use systems_projects.Kernel.Table.{
  Perm, pte_pwu, both, allowed, is_zero, Entry, empty, page, table, pageindex, down, mapping,
  Mapped, mapped, failed, assertion, map_mapped, with_entry, is_present, map_new, stand, map_from,
}

-- What an entry at a level maps an address to.
unfoldable pub look : (level va : ℕ) → (perm_ : Perm) → Entry → Option (ℕ × Perm)
look l va perm_ e = let it = down l va e perm_ in mapping it.pep it.level it.perm_ va

-- The addresses part at the indices below a level.
unfoldable pub Differs : ℕ → ℕ → ℕ → Type 0
Differs zero va va' = ⊥
Differs (suc l) va va' = (pageindex va l ≢ pageindex va' l) ⊎ Differs l va va'

-- The addresses have the indices below a level in common.
unfoldable pub Same : ℕ → ℕ → ℕ → Type 0
Same zero va va' = Prim.Unit {0}
Same (suc l) va va' = (pageindex va l ≡ pageindex va' l) × Same l va va'

-- What a call has done to the mapping below an entry `e`, where it returned.
unfoldable pub Maps :
    Machine → (l va pa : ℕ) → Perm → (perm_ : Perm) → Entry → Mapped Entry → Type 0
Maps m l va pa perm perm_ e (mapped e' refs) =
    (perm.present ≡ true
      → (va' : ℕ) → Same l va va'
      → look l va' perm_ e' ≡ some (pa + va' % 4096, perm))
    × ((va' : ℕ) → Differs l va va' → look l va' perm_ e' ≡ look l va' perm_ e)
Maps m l va pa perm perm_ e (failed e' refs) = (va' : ℕ) → look l va' perm_ e' ≡ look l va' perm_ e
Maps m l va pa perm perm_ e assertion = Prim.Unit {0}

look-empty : (l va : ℕ) (perm_ : Perm) → look l va perm_ empty ≡ none
unfolding look down
look-empty zero va perm_ = refl
look-empty (suc l) va perm_ = refl

Perm-eq : {p q : Perm} → p.present ≡ q.present → p.writable ≡ q.writable → p.user ≡ q.user → p ≡ q
Perm-eq e f g = λ i. record { present = e i; writable = f i; user = g i }

with_entry_self : (es : ℕ → Entry) (i : ℕ) (e : Entry) → with_entry es i e i ≡ e
with_entry_self es i e = let same : (i == i) ≡ true = (==_iff i i).1 refl in rw same refl

with_entry_ne : (es : ℕ → Entry) (i j : ℕ) (e : Entry) → i ≢ j → with_entry es i e j ≡ es j
with_entry_ne es i j e ne = let other : (j == i) ≡ false = ground arith in rw other refl

-- Where an address is looked up in a page of entries.
look-table :
    (l va pt : ℕ) (perm_ p : Perm) (es : ℕ → Entry)
    → look (suc l) va perm_ (table pt p es) ≡ look l va (both perm_ p) (es (pageindex va l))
unfolding look down
look-table l va pt perm_ p es = refl

look-away : (l va pa : ℕ) (p perm_ : Perm) → p.present ≡ false → look l va perm_ (page pa p) ≡ none
unfolding look down
look-away zero va pa p perm_ h = rw h refl
look-away (suc l) va pa p perm_ h = rw h refl

both-allowed : (perm perm_ : Perm) → allowed perm perm_ ≡ true → both perm_ perm ≡ perm
both-allowed perm perm_ h = Perm-eq (ground arith) (ground arith) (ground arith)

-- The entry is replaced by one that maps `va'` as it did.
at_any :
    (l va va' : ℕ) (q : Perm) (es : ℕ → Entry) (e : Entry)
    → look l va' q e ≡ look l va' q (es (pageindex va l))
    → look l va' q (with_entry es (pageindex va l) e (pageindex va' l))
      ≡ look l va' q (es (pageindex va' l))
at_any l va va' q es e h = elim (Bool-cases (pageindex va l == pageindex va' l)) [
  | inl here ↦
      let same : pageindex va l ≡ pageindex va' l =
        (==_iff (pageindex va l) (pageindex va' l)).0 here in
      ap (λ j. look l va' q (with_entry es (pageindex va l) e j)) (sym same)
      ∙ ap (look l va' q) (with_entry_self es (pageindex va l) e)
      ∙ h
      ∙ ap (λ j. look l va' q (es j)) same
  | inr there ↦ ap (look l va' q) (
      with_entry_ne es (pageindex va l) (pageindex va' l) e
        (λ same. ground (arith, there, (==_iff (pageindex va l) (pageindex va' l)).1 same)))
]

beside :
    (l va va' : ℕ) (q : Perm) (es : ℕ → Entry) (e : Entry)
    → Differs (suc l) va va'
    → (Differs l va va' → look l va' q e ≡ look l va' q (es (pageindex va l)))
    → look l va' q (with_entry es (pageindex va l) e (pageindex va' l))
      ≡ look l va' q (es (pageindex va' l))
unfolding Differs
beside l va va' q es e (inl ne) h =
    ap (look l va' q) (with_entry_ne es (pageindex va l) (pageindex va' l) e ne)
beside l va va' q es e (inr d) h = at_any l va va' q es e (h d)

-- One level up, in a page of entries.
pub table-Maps :
    (m : Machine) (l va pa pt : ℕ) (perm perm_ p : Perm) (entries : ℕ → Entry) (r : Mapped Entry)
    → Maps m l va pa perm (both perm_ p) (entries (pageindex va l)) r
    → Maps m
        (suc l)
        va
        pa
        perm
        perm_
        (table pt p entries)
        (map_mapped (λ e. table pt p (with_entry entries (pageindex va l) e)) r)
unfolding Maps Same
table-Maps m l va pa pt perm perm_ p entries (mapped e refs) h =
    let es = with_entry entries (pageindex va l) e in
    (
      λ present va' same.
          look-table l va' pt perm_ p es
          ∙ ap (λ j. look l va' (both perm_ p) (es j)) (sym same.0)
          ∙ ap (look l va' (both perm_ p)) (with_entry_self entries (pageindex va l) e)
          ∙ h.0 present va' same.1,
      λ va' d.
          look-table l va' pt perm_ p es
          ∙ beside l va va' (both perm_ p) entries e d (h.1 va')
          ∙ sym (look-table l va' pt perm_ p entries),
    )
table-Maps m l va pa pt perm perm_ p entries (failed e refs) h =
    let es = with_entry entries (pageindex va l) e in
    λ va'.
      look-table l va' pt perm_ p es
      ∙ at_any l va va' (both perm_ p) entries e (h va')
      ∙ sym (look-table l va' pt perm_ p entries)
table-Maps m l va pa pt perm perm_ p entries assertion h = tt

look-page :
    (va pa : ℕ) (perm perm_ : Perm)
    → perm.present ≡ true
    → perm_.present ≡ true
    → look 0 va perm_ (page pa perm) ≡ some (pa + va % 4096, both perm_ perm)
unfolding look down
look-page va pa perm perm_ h h' = rw (h, h') refl

-- The written entry.
page-Maps :
    (m : Machine) (va pa : ℕ) (perm perm_ : Perm) (e : Entry) (refs : Refcounts)
    → allowed perm perm_ ≡ true
    → Maps m 0 va pa perm perm_ e (mapped (page pa perm) refs)
unfolding Maps Differs
page-Maps m va pa perm perm_ e refs ok = (
  λ present va' same.
      look-page va' pa perm perm_ present (ground arith)
      ∙ ap (λ p. some (pa + va' % 4096, p)) (both-allowed perm perm_ ok),
  λ va' d. absurd d,
)

-- The statement is about what `e` maps, not about `e`.
Maps-base :
    (m : Machine) (l va pa : ℕ) (perm perm_ : Perm) (e e₂ : Entry) (r : Mapped Entry)
    → ((va' : ℕ) → look l va' perm_ e ≡ look l va' perm_ e₂)
    → Maps m l va pa perm perm_ e r
    → Maps m l va pa perm perm_ e₂ r
unfolding Maps
Maps-base m l va pa perm perm_ e e₂ (mapped e' refs) same h = (h.0, λ va' d. h.1 va' d ∙ same va')
Maps-base m l va pa perm perm_ e e₂ (failed e' refs) same h = λ va'. h va' ∙ same va'
Maps-base m l va pa perm perm_ e e₂ assertion same h = tt

kalloc-Maps :
    (m : Machine) (l va pa : ℕ) (perm perm_ : Perm) (e : Entry) (refs : Refcounts)
    (o : Option (ℕ × Refcounts)) (k : ℕ → Refcounts → Mapped Entry)
    → ((pt : ℕ) (refs' : Refcounts) → Maps m l va pa perm perm_ e (k pt refs'))
    → Maps m l va pa perm perm_ e
        (elim o as (λ _. Mapped Entry) [ none ↦ failed e refs | some x ↦ k x.0 x.1 ])
unfolding Maps
kalloc-Maps m l va pa perm perm_ e refs none k h = λ va'. refl
kalloc-Maps m l va pa perm perm_ e refs (some (pt, refs')) k h = h pt refs'

-- Pages of entries that are made on the way, where nothing was mapped.
map_new-Maps :
    (m : Machine) (l va pa : ℕ) (perm perm_ : Perm) (e : Entry) (refs : Refcounts)
    → allowed perm perm_ ≡ true
    → ((va' : ℕ) → (l ≡ 0) ⊎ (look l va' perm_ e ≡ none))
    → Maps m l va pa perm perm_ e (map_new m l va pa perm e refs)
unfolding map_new Maps
map_new-Maps m zero va pa perm perm_ e refs ok absent = page-Maps m va pa perm perm_ e refs ok
map_new-Maps m (suc l) va pa perm perm_ e refs ok absent =
    kalloc-Maps m (suc l) va pa perm perm_ e refs (kalloc m page_size refs) _ (λ pt refs'.
      Maps-base m (suc l) va pa perm perm_ (table pt pte_pwu (λ _. empty)) e _
        (λ va'.
          look-table l va' pt perm_ pte_pwu (λ _. empty)
          ∙ look-empty l va' perm_
          ∙ sym (elim (absent va') [ inl z ↦ absurd (ground arith) | inr n ↦ n ]))
        (table-Maps m l va pa pt perm perm_ pte_pwu (λ _. empty) _
          (map_new-Maps m l va pa perm perm_ empty refs' ok (λ va'. inr (look-empty l va' perm_)))))

stand-Maps :
    (m : Machine) (l va pa : ℕ) (perm perm_ : Perm) (e : Entry) (refs : Refcounts)
    → (is_present e ≡ false → (va' : ℕ) → (l ≡ 0) ⊎ (look l va' perm_ e ≡ none))
    → Maps m l va pa perm perm_ e (stand m l va pa perm perm_ e refs)
unfolding stand Maps
stand-Maps m l va pa perm perm_ e refs absent = elim (Bool-cases (allowed perm perm_)) [
  | inr refused ↦ rw refused tt
  | inl ok ↦ elim (Bool-cases (not (l == 0) && is_zero perm)) [
    | inl nothing_to_do ↦
        rw (ok, nothing_to_do) (λ present va' same. absurd (ground arith), λ va' d. refl)
    | inr some_perm ↦ elim (Bool-cases (not (l == 0) && is_present e)) [
      | inl there ↦ rw (ok, some_perm, there) tt
      | inr free ↦
          rw (ok, some_perm, free)
            (map_new-Maps m l va pa perm perm_ e refs ok (λ va'. elim (Bool-cases (l == 0)) [
              | inl zero_level ↦ inl ((==_iff l 0).0 zero_level)
              | inr above ↦ absent (ground arith) va'
            ]))
    ]
  ]
]

pub map_from-Maps :
    (m : Machine) (l va pa : ℕ) (perm perm_ : Perm) (e : Entry) (refs : Refcounts)
    → Maps m l va pa perm perm_ e (map_from m l va pa perm perm_ e refs)
unfolding map_from
map_from-Maps m zero va pa perm perm_ e refs =
    stand-Maps m zero va pa perm perm_ e refs (λ _ va'. inl refl)
map_from-Maps m (suc l) va pa perm perm_ empty refs =
    stand-Maps m (suc l) va pa perm perm_ empty refs (λ _ va'. inr (look-empty (suc l) va' perm_))
map_from-Maps m (suc l) va pa perm perm_ (page b p) refs =
    stand-Maps m (suc l) va pa perm perm_ (page b p) refs
      (λ away va'. inr (look-away (suc l) va' b p perm_ away))
map_from-Maps m (suc l) va pa perm perm_ (table pt p entries) refs =
    table-Maps m l va pa pt perm perm_ p entries _
      (map_from-Maps m l va pa perm (both perm_ p) (entries (pageindex va l)) refs)
