-- ===== src/Kv/Find.antt =====
-- The invariant of the table, and what the three searches find in a table that meets it.
use systems_projects.Base.{
  ◌⊎◌, inl, inr, Option-cases, ℕ, ◌≤◌, ◌<◌, ◌≡◌, ◌≢◌, none, some, arith, Bytes, length, get_elem?,
  get_or, first_from-IsFirst, first_from-room, str_eq→eq, get_or-get_elem?,
}
use systems_projects.Kv.{
  unset, live, Entry, Store, table_max, is_free, is_used, holds_key, find_key, key_len,
  get_new_index, kv_read,
}

-- Both arrays have `TABLE_MAX` elements, an entry is free or used, a used entry has a live string
-- and a key of at most 31 characters.
pub record IsValid (kv : Store) : Type 0 where
  pub width : length kv.keys ≡ table_max
  pub values_width : length kv.values ≡ table_max
  pub stat_le : (i : ℕ) (e : Entry) → get_elem? kv.keys i ≡ some e → e.stat ≤ 1
  pub has_value :
      (i : ℕ) (e : Entry)
      → get_elem? kv.keys i ≡ some e
      → e.stat ≡ 1
      → (v : Bytes) × (get_elem? kv.values i ≡ some (live v))
  pub key_le : (i : ℕ) (e : Entry) → get_elem? kv.keys i ≡ some e → length e.key ≤ 31

-- No two used entries have the same key.
abbrev pub IsUnique : Store → Type 0
IsUnique kv =
    (i j : ℕ) (e f : Entry)
    → get_elem? kv.keys i ≡ some e
    → get_elem? kv.keys j ≡ some f
    → e.stat ≡ 1
    → f.stat ≡ 1
    → e.key ≡ f.key
    → i ≡ j

-- What a successful `find_key` says.
pub record FoundAt (kv : Store) (k : Bytes) (i : ℕ) : Type 0 where
  pub entry : Entry
  pub there : get_elem? kv.keys i ≡ some entry
  pub used : entry.stat ≢ 0
  pub same_key : entry.key ≡ k

pub find_key-FoundAt : (kv : Store) (k : Bytes) (i : ℕ) → find_key kv k ≡ some i → FoundAt kv k i
unfolding find_key
find_key-FoundAt kv k i h =
    let f = first_from-IsFirst (holds_key k) kv.keys i h in
    record {
      entry = f.item;
      there = f.there;
      used = ground (arith, f.passes);
      same_key = str_eq→eq f.item.key k (ground (arith, f.passes));
    }

-- One index holds one key.
pub find_key-injective :
    (kv : Store) (j k : Bytes) (i : ℕ) → find_key kv j ≡ some i → find_key kv k ≡ some i → j ≡ k
find_key-injective kv j k i p q =
    let a = find_key-FoundAt kv j i p in
    let b = find_key-FoundAt kv k i q in ground (arith, a.there, b.there, a.same_key, b.same_key)

module _ {kv : Store} (valid : IsValid kv) where
  pub get_new_index-total : key_len kv < table_max → get_new_index kv ≢ none
  unfolding key_len get_new_index
  get_new_index-total h =
      first_from-room is_used is_free kv.keys 0 (λ k y e miss. ground (arith, valid.stat_le k y e))
        (omega (arith, valid.width))

  -- A key that is found has a live string.
  pub find_key-live :
      (k : Bytes) (i : ℕ)
      → find_key kv k ≡ some i
      → (v : Bytes) × (get_elem? kv.values i ≡ some (live v)) × (get_or kv.values i unset ≡ live v)
  find_key-live k i h =
      let f = find_key-FoundAt kv k i h in
      let one : f.entry.stat ≡ 1 = omega (arith, valid.stat_le i f.entry f.there, f.used) in
      let (v, e) = valid.has_value i f.entry f.there one in
      (v, e, get_or-get_elem? kv.values i unset (live v) e)

  -- A read finds nothing, or a live string: never a pointer that was freed.
  pub kv_read-live : (k : Bytes) → (kv_read kv k ≡ unset) ⊎ ((v : Bytes) × (kv_read kv k ≡ live v))
  unfolding kv_read
  kv_read-live k = elim (Option-cases (find_key kv k)) [
    | inl absent ↦ inl (rw absent)
    | inr (i, found) ↦ let (v, there, e) = find_key-live k i found in inr (v, rw found e)
  ]
