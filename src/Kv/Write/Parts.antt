-- ===== src/Kv/Write/Parts.antt =====
-- The two ways in which kv_write changes the table: a new entry, and a new value for an old one.
use systems_projects.Base.{
  ℕ, zero, suc, ◌≤◌, ◌<◌, ◌≡◌, refl, ◌≢◌, ◌⊎◌, inl, inr, sym, ap, ◌∙◌, Bool, true, false, Option,
  none, some, List, [], ◌∷◌, arith, Bytes, length, get_elem?, get_or, set, take, first_from, str_eq,
  str_eq→eq, str_eq_iff, Option-cases, Bool-cases, get_elem?-lt, str_eq_refl, if◌then◌else◌,
  length-set, length-take, take_all, get_elem?-set_cases, get_elem?-set_self, get_elem?-set_ne,
  get_elem?-total, first_from-IsFirst, first_from-none, first_from-set, first_from-set_new,
  get_or-set_self, get_or-set_ne,
}
use systems_projects.Kv.{
  unset, live, Store, table_max, is_free, holds_key, find_key, get_new_index, kv_read, new_entry,
}
use systems_projects.Kv.Find.{IsValid, IsUnique, find_key-FoundAt, find_key-injective}

abbrev pub inserted : Store → ℕ → Bytes → Bytes → Store
inserted kv n k v = record { keys = set kv.keys n (new_entry k); values = set kv.values n (live v) }

abbrev pub replaced : Store → ℕ → Bytes → Store
replaced kv i v = record kv { values = set kv.values i (live v) }

-- A free entry is not the one that a search found.
free_ne_found :
    (kv : Store) (j : Bytes) (n i : ℕ) → get_new_index kv ≡ some n → find_key kv j ≡ some i → n ≢ i
unfolding get_new_index
free_ne_found kv j n i room found ni =
    let f = first_from-IsFirst is_free kv.keys n room in
    let g = find_key-FoundAt kv j i found in ground (arith, f.there, f.passes, g.there, g.used)

module _ {kv : Store} (valid : IsValid kv) where
  -- The index of a free entry lies in the table.
  pub get_new_index-lt : (n : ℕ) → get_new_index kv ≡ some n → n < table_max
  unfolding get_new_index
  get_new_index-lt n h =
      let f = first_from-IsFirst is_free kv.keys n h in
      omega (arith, get_elem?-lt kv.keys n f.there, valid.width)

  pub find_key-lt : (k : Bytes) (i : ℕ) → find_key kv k ≡ some i → i < table_max
  find_key-lt k i h =
      let f = find_key-FoundAt kv k i h in
      omega (arith, get_elem?-lt kv.keys i f.there, valid.width)

  pub inserted-IsValid : (n : ℕ) (k v : Bytes) → n < table_max → IsValid (inserted kv n k v)
  inserted-IsValid n k v lt = record {
    width = length-set kv.keys n (new_entry k) ∙ valid.width;
    values_width = length-set kv.values n (live v) ∙ valid.values_width;
    stat_le = λ i e h. elim (get_elem?-set_cases kv.keys n i (new_entry k) h) [
      | inl (same, new) ↦ rw new (omega arith)
      | inr (other, old) ↦ valid.stat_le i e old
    ];
    has_value = λ i e h used. elim (get_elem?-set_cases kv.keys n i (new_entry k) h) [
      | inl (same, new) ↦ (
        v,
        rw (← same) (get_elem?-set_self kv.values n (live v) (omega (arith, valid.values_width))),
      )
      | inr (other, old) ↦
          let (w, e') = valid.has_value i e old used in
          (w, get_elem?-set_ne kv.values n i (live v) other ∙ e')
    ];
    key_le = λ i e h. elim (get_elem?-set_cases kv.keys n i (new_entry k) h) [
      | inl (same, new) ↦ rw new (omega (arith, length-take 31 k))
      | inr (other, old) ↦ valid.key_le i e old
    ];
  }

  pub replaced-IsValid : (i : ℕ) (v : Bytes) → i < table_max → IsValid (replaced kv i v)
  replaced-IsValid n v lt = record {
    width = valid.width;
    values_width = length-set kv.values n (live v) ∙ valid.values_width;
    stat_le = valid.stat_le;
    has_value = λ i e h used. elim (Bool-cases (systems_projects.Base.◌==◌ n i)) [
      | inl same ↦ (
        v,
        let e : n ≡ i = ground arith in
            rw (← e) (get_elem?-set_self kv.values n (live v) (omega (arith, valid.values_width))),
      )
      | inr other ↦
          let (w, e') = valid.has_value i e h used in
          (w, get_elem?-set_ne kv.values n i (live v) (ground arith) ∙ e')
    ];
    key_le = valid.key_le;
  }

  -- A new entry is found under its own key, and hides no other.
  pub find_key-inserted :
      (k v : Bytes) (n : ℕ)
      → find_key kv k ≡ none
      → length k ≤ 31
      → get_new_index kv ≡ some n
      → find_key (inserted kv n k v) k ≡ some n
  unfolding find_key
  find_key-inserted k v n absent short room = rw (take_all 31 k short) (
      first_from-set_new (holds_key k) kv.keys n _
        (omega (arith, valid.width, get_new_index-lt n room)) (str_eq_refl k)
        (first_from-none (holds_key k) kv.keys 0 absent) 0
      ∙ ap some (omega arith))

  pub find_key-inserted_ne :
      (k v j : Bytes) (n : ℕ)
      → length k ≤ 31
      → k ≢ j
      → get_new_index kv ≡ some n
      → find_key (inserted kv n k v) j ≡ find_key kv j
  unfolding find_key get_new_index
  find_key-inserted_ne k v j n short other room =
      let f = first_from-IsFirst is_free kv.keys n room in
      first_from-set (holds_key j) kv.keys 0 n f.item (new_entry k) f.there
        (rw (take_all 31 k short) (ground (arith, f.passes, str_eq→eq k j)))

  pub inserted-IsUnique :
      (k v : Bytes) (n : ℕ)
      → IsUnique kv
      → find_key kv k ≡ none
      → length k ≤ 31
      → IsUnique (inserted kv n k v)
  unfolding find_key
  inserted-IsUnique k v n unique absent short i j e f he hf ue uf same =
      let gone = first_from-none (holds_key k) kv.keys 0 absent in
      elim (get_elem?-set_cases kv.keys n i (new_entry k) he) [
        | inl (ni, new_e) ↦ elim (get_elem?-set_cases kv.keys n j (new_entry k) hf) [
          | inl (nj, new_f) ↦ sym ni ∙ nj
          | inr (nj, old_f) ↦
              absurd (ground (arith, gone j f old_f, take_all 31 k short, str_eq_iff f.key k))
        ]
        | inr (ni, old_e) ↦ elim (get_elem?-set_cases kv.keys n j (new_entry k) hf) [
          | inl (nj, new_f) ↦
              absurd (ground (arith, gone i e old_e, take_all 31 k short, str_eq_iff e.key k))
          | inr (nj, old_f) ↦ unique i j e f old_e old_f ue uf same
        ]
      ]

  pub kv_read-inserted :
      (k v : Bytes) (n : ℕ)
      → find_key kv k ≡ none
      → length k ≤ 31
      → get_new_index kv ≡ some n
      → (j : Bytes) → kv_read (inserted kv n k v) j ≡ (if str_eq k j then live v else kv_read kv j)
  unfolding kv_read
  kv_read-inserted k v n absent short room j = elim (Bool-cases (str_eq k j)) [
    | inl same ↦
        rw (same, ← str_eq→eq k j same, find_key-inserted k v n absent short room)
          (get_or-set_self kv.values n unset (live v)
            (omega (arith, valid.values_width, get_new_index-lt n room)))
    | inr other ↦
        let ne : k ≢ j = ground (arith, str_eq_iff k j) in
        rw (other, find_key-inserted_ne k v j n short ne room)
          (elim (Option-cases (find_key kv j)) [
            | inl e ↦ rw e
            | inr (i, e) ↦ rw e (get_or-set_ne kv.values n i unset (live v) (not_new i e))
          ])
  ]
    where
      not_new : (i : ℕ) → find_key kv j ≡ some i → n ≢ i
      not_new i e = free_ne_found kv j n i room e

  pub kv_read-replaced :
      (k v : Bytes) (i : ℕ)
      → find_key kv k ≡ some i
      → (j : Bytes) → kv_read (replaced kv i v) j ≡ (if str_eq k j then live v else kv_read kv j)
  unfolding kv_read find_key
  kv_read-replaced k v i found j = elim (Bool-cases (str_eq k j)) [
    | inl same ↦
        rw (same, ← str_eq→eq k j same, found)
          (get_or-set_self kv.values i unset (live v)
            (omega (arith, valid.values_width, find_key-lt k i found)))
    | inr other ↦
        let ne : k ≢ j = ground (arith, str_eq_iff k j) in
        rw other (elim (Option-cases (find_key kv j)) [
          | inl e ↦ rw e
          | inr (m, e) ↦ rw e (
              get_or-set_ne kv.values i m unset (live v)
                (λ im. ne (find_key-injective kv k j m (rw im at found) e)))
        ])
  ]
