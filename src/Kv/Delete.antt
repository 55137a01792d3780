-- ===== src/Kv/Delete.antt =====
-- kv_delete and the fresh table of kvstore.c.
use systems_projects.Base.{
  ℕ, zero, suc, ◌≡◌, inl, inr, ◌∙◌, true, false, none, some, [], arith, Bytes, get_elem?, set,
  replicate, str_eq, str_eq→eq, str_eq_iff, Option-cases, Bool-cases, if◌then◌else◌, length-set,
  get_elem?-set_cases, get_elem?-set_ne, get_or-set_ne, get_or-get_elem?, length-replicate,
  first_from-eq_none, first_from-set,
}
use systems_projects.Kv.{
  unset, dangling, Entry, Store, table_max, holds_key, find_key, kv_read, kv_delete, release,
  empty_store,
}
use systems_projects.Kv.Find.{
  IsValid, IsUnique, FoundAt, find_key-FoundAt, find_key-live, find_key-injective,
}

abbrev pub freed : Store → ℕ → Entry → Store
freed kv i e = record {
  keys = set kv.keys i (record e { stat = 0 });
  values = set kv.values i dangling;
}

pub not_found : (kv : Store) (k : Bytes) → find_key kv k ≡ none → kv_delete kv k ≡ some kv
unfolding kv_delete
not_found kv k absent = rw absent

absent_reads :
    (kv : Store) (k : Bytes)
    → find_key kv k ≡ none
    → (j : Bytes) → kv_read kv j ≡ (if str_eq k j then unset else kv_read kv j)
unfolding kv_read
absent_reads kv k absent j = elim (Bool-cases (str_eq k j)) [
  | inl same ↦ rw (same, ← str_eq→eq k j same, absent)
  | inr other ↦ rw other
]

module _ {kv : Store} (valid : IsValid kv) where
  freed-IsValid : (n : ℕ) (e : Entry) → get_elem? kv.keys n ≡ some e → IsValid (freed kv n e)
  freed-IsValid n old there = record {
    width = length-set kv.keys n _ ∙ valid.width;
    values_width = length-set kv.values n dangling ∙ valid.values_width;
    stat_le = λ i e h. elim (get_elem?-set_cases kv.keys n i _ h) [
      | inl (same, new) ↦ rw new (omega arith)
      | inr (other, was) ↦ valid.stat_le i e was
    ];
    has_value = λ i e h used. elim (get_elem?-set_cases kv.keys n i _ h) [
      | inl (same, new) ↦ absurd (ground arith)
      | inr (other, was) ↦
          let (w, e') = valid.has_value i e was used in
          (w, get_elem?-set_ne kv.values n i dangling other ∙ e')
    ];
    key_le = λ i e h. elim (get_elem?-set_cases kv.keys n i _ h) [
      | inl (same, new) ↦ rw new (valid.key_le n old there)
      | inr (other, was) ↦ valid.key_le i e was
    ];
  }

  freed-IsUnique : (n : ℕ) (e : Entry) → IsUnique kv → IsUnique (freed kv n e)
  freed-IsUnique n old unique i j e f he hf ue uf same =
      elim (get_elem?-set_cases kv.keys n i _ he) [
        | inl (ni, new) ↦ absurd (ground arith)
        | inr (ni, was) ↦ elim (get_elem?-set_cases kv.keys n j _ hf) [
          | inl (nj, new) ↦ absurd (ground arith)
          | inr (nj, was') ↦ unique i j e f was was' ue uf same
        ]
      ]

  -- kv_delete takes the entry that was found, and frees a live string.
  pub kv_delete-found :
      (k : Bytes) (i : ℕ)
      → (found : find_key kv k ≡ some i)
      → kv_delete kv k ≡ some (freed kv i (find_key-FoundAt kv k i found).entry)
  unfolding kv_delete release
  kv_delete-found k i found =
      let f = find_key-FoundAt kv k i found in
      rw (
        found,
        (find_key-live valid k i found).2,
        get_or-get_elem? kv.keys i (record { stat = 0; key = [] }) f.entry f.there,
      )

  -- After the only entry of a key is freed, no entry matches the key.
  not_held :
      (k : Bytes) (i : ℕ) (f : FoundAt kv k i)
      → IsUnique kv
      → (m : ℕ) (y : Entry) → get_elem? (freed kv i f.entry).keys m ≡ some y
      → holds_key k y ≡ false
  not_held k i f unique m y e = elim (get_elem?-set_cases kv.keys i m _ e) [
    | inl (same, new) ↦ rw new
    | inr (other, old) ↦ elim (Bool-cases (holds_key k y)) [
      | inr miss ↦ miss
      | inl hit ↦ absurd (other (unique i m f.entry y f.there old one (two y old hit) (ends y hit)))
    ]
  ]
    where
      one : f.entry.stat ≡ 1
      one = omega (arith, valid.stat_le i f.entry f.there, f.used)

      two : (y : Entry) → get_elem? kv.keys m ≡ some y → holds_key k y ≡ true → y.stat ≡ 1
      two y old hit = ground (arith, valid.stat_le m y old)

      ends : (y : Entry) → holds_key k y ≡ true → f.entry.key ≡ y.key
      ends y hit = ground (arith, f.same_key, str_eq→eq y.key k)

  find_key-freed :
      (k : Bytes) (i : ℕ) (f : FoundAt kv k i) (j : Bytes)
      → IsUnique kv
      → find_key (freed kv i f.entry) j ≡ (if str_eq k j then none else find_key kv j)
  unfolding find_key
  find_key-freed k i f j unique = elim (Bool-cases (str_eq k j)) [
    | inl same ↦
        rw (same, ← str_eq→eq k j same)
          (first_from-eq_none (holds_key k) (freed kv i f.entry).keys 0 (not_held k i f unique))
    | inr other ↦ rw other (
        first_from-set (holds_key j) kv.keys 0 i f.entry _ f.there
          (ground (arith, f.same_key, str_eq_iff k j, str_eq→eq f.entry.key j)))
  ]

  kv_read-freed :
      (k : Bytes) (i : ℕ) (found : find_key kv k ≡ some i) (j : Bytes)
      → IsUnique kv
      → kv_read (freed kv i (find_key-FoundAt kv k i found).entry) j
        ≡ (if str_eq k j then unset else kv_read kv j)
  unfolding kv_read
  kv_read-freed k i found j unique =
      rw (find_key-freed k i (find_key-FoundAt kv k i found) j unique)
        (elim (Bool-cases (str_eq k j)) [
          | inl same ↦ rw same
          | inr other ↦ rw other (elim (Option-cases (find_key kv j)) [
            | inl e ↦ rw e
            | inr (m, e) ↦ rw e (
                get_or-set_ne kv.values i m unset dangling (λ im.
                  (ground (arith, str_eq_iff k j, find_key-injective kv k j m (rw im at found) e))))
          ])
        ])

-- Without the hypothesis on duplicates kv_delete still returns, and the table stays valid.
pub kv_delete-IsValid :
    {kv : Store} (k : Bytes)
    → IsValid kv
    → (kv' : Store) × (kv_delete kv k ≡ some kv') × IsValid kv'
kv_delete-IsValid {kv} k valid = elim (Option-cases (find_key kv k)) [
  | inl absent ↦ (kv, not_found kv k absent, valid)
  | inr (i, found) ↦
      let f = find_key-FoundAt kv k i found in
      (freed kv i f.entry, kv_delete-found valid k i found, freed-IsValid valid i f.entry f.there)
]

-- kv_delete never frees a pointer twice: on a valid table without duplicates it returns a valid
-- table without duplicates, in which the key reads as `NULL` and every other key as before.
pub kv_read-kv_delete :
    {kv : Store} (k : Bytes)
    → IsValid kv
    → IsUnique kv
    → (kv' : Store) × (kv_delete kv k ≡ some kv')
      × IsValid kv'
      × IsUnique kv'
      × ((j : Bytes) → kv_read kv' j ≡ (if str_eq k j then unset else kv_read kv j))
kv_read-kv_delete {kv} k valid unique = elim (Option-cases (find_key kv k)) [
  | inl absent ↦ (kv, gone absent, valid, unique, unread absent)
  | inr (i, found) ↦
      let f = find_key-FoundAt kv k i found in
      (
        freed kv i f.entry,
        kv_delete-found valid k i found,
        freed-IsValid valid i f.entry f.there,
        freed-IsUnique valid i f.entry unique,
        λ j. kv_read-freed valid k i found j unique,
      )
]
  where
    gone : find_key kv k ≡ none → kv_delete kv k ≡ some kv
    gone absent = not_found kv k absent

    unread :
        find_key kv k ≡ none
        → (j : Bytes) → kv_read kv j ≡ (if str_eq k j then unset else kv_read kv j)
    unread absent j = absent_reads kv k absent j

abbrev free_slot : Entry
free_slot = record { stat = 0; key = [] }

free_only : (n i : ℕ) (a : Entry) {e : Entry} → get_elem? (replicate n a) i ≡ some e → e ≡ a
free_only zero i a h = cc
free_only (suc n) zero a h = cc
free_only (suc n) (suc i) a h = free_only n i a h

find_key-empty : (k : Bytes) → find_key empty_store k ≡ none
unfolding find_key
find_key-empty k =
    first_from-eq_none (holds_key k) (replicate table_max free_slot) 0
      (λ i y e. rw (free_only table_max i free_slot e))

-- The table that the server starts with is valid, has no duplicates, and reads as `NULL` everywhere.
pub empty_store-IsValid :
    IsValid empty_store × IsUnique empty_store × ((k : Bytes) → kv_read empty_store k ≡ unset)
unfolding kv_read
empty_store-IsValid = (
  record {
    width = length-replicate table_max free_slot;
    values_width = length-replicate table_max unset;
    stat_le = λ i e h. rw (free_only table_max i free_slot h) (omega arith);
    has_value = λ i e h used. absurd (ground (arith, free_only table_max i free_slot h));
    key_le = λ i e h. rw (free_only table_max i free_slot h) (omega arith);
  },
  (λ i j e f he hf used _ _. absurd (ground (arith, free_only table_max i free_slot he))),
  λ k. rw (find_key-empty k),
)
