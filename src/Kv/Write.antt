-- ===== src/Kv/Write.antt =====
-- kv_write of kvstore.c: the invariant, the abstract map and the failure.
pub mod Parts
use systems_projects.Base.{
  ℕ, zero, suc, ◌≤◌, ◌<◌, ◌≡◌, ◌≢◌, ◌↔◌, ◌⊎◌, inl, inr, none, some, arith, Bytes, length, str_eq,
  Option-cases, Bool-cases, if◌then◌else◌, ltb,
}
use systems_projects.Kv.{
  live, Store, table_max, find_key, key_len, get_new_index, kv_read, kv_write, insert, insert_at,
  release,
}
use systems_projects.Kv.Find.{IsValid, IsUnique, find_key-live, get_new_index-total}
use Parts.{
  inserted, replaced, inserted-IsValid, replaced-IsValid, inserted-IsUnique, find_key-lt,
  get_new_index-lt, kv_read-inserted, kv_read-replaced,
}

-- `key_index > 0` is false: the key is not found, or it is found at index 0.
abbrev pub NotAbove : Store → Bytes → Type 0
NotAbove kv k = (find_key kv k ≡ none) ⊎ (find_key kv k ≡ some 0)

-- The three ways through kv_write.
pub data WriteCase (kv : Store) (k v : Bytes) : Type 0 where
  full : NotAbove kv k → table_max ≤ key_len kv → kv_write kv k v ≡ some (1, kv) → WriteCase kv k v
  added :
      (n : ℕ)
      → NotAbove kv k
      → key_len kv < table_max
      → get_new_index kv ≡ some n
      → kv_write kv k v ≡ some (0, inserted kv n k v)
      → WriteCase kv k v
  renewed :
      (i : ℕ)
      → find_key kv k ≡ some (suc i)
      → kv_write kv k v ≡ some (0, replaced kv (suc i) v)
      → WriteCase kv k v

module _ {kv : Store} (valid : IsValid kv) (k v : Bytes) where
  insert-WriteCase : NotAbove kv k → kv_write kv k v ≡ insert kv k v → WriteCase kv k v
  unfolding insert insert_at
  insert-WriteCase above e = elim (Bool-cases (ltb (key_len kv) table_max)) [
    | inr no_room ↦ full above (ground arith) (rw (e, no_room))
    | inl room ↦ elim (Option-cases (get_new_index kv)) [
      | inl stuck ↦ absurd (get_new_index-total valid (ground arith) stuck)
      | inr (n, at) ↦ added n above (ground arith) at (rw (e, room, at))
    ]
  ]

  pub kv_write-WriteCase : WriteCase kv k v
  unfolding kv_write release
  kv_write-WriteCase = elim (Option-cases (find_key kv k)) [
    | inl absent ↦ insert-WriteCase (inl absent) (rw absent)
    | inr (i, found) ↦ above i found
  ]
    where
      above : (i : ℕ) → find_key kv k ≡ some i → WriteCase kv k v
      above zero found = insert-WriteCase (inr found) (rw found)
      above (suc i) found = renewed i found (rw (found, (find_key-live valid k (suc i) found).2))

-- kv_write never frees a pointer twice and never writes outside the table: on a valid table it
-- returns, and the table is valid again.
pub kv_write-IsValid :
    {kv : Store} (k v : Bytes)
    → IsValid kv
    → (r : ℕ × Store) × (kv_write kv k v ≡ some r) × IsValid r.1
kv_write-IsValid {kv} k v valid = elim (kv_write-WriteCase valid k v) [
  | full above no_room e ↦ ((1, kv), e, valid)
  | added n above room at e ↦
      ((0, inserted kv n k v), e, inserted-IsValid valid n k v (get_new_index-lt valid n at))
  | renewed i found e ↦ (
    (0, replaced kv (suc i) v),
    e,
    replaced-IsValid valid (suc i) v (find_key-lt valid k _ found),
  )
]

-- On a valid table a write that reports success is an update of the abstract map at its key and
-- nowhere else, if the key does not stand at index 0 and has at most 31 characters.
pub kv_read-kv_write :
    {kv kv' : Store} (k v : Bytes)
    → IsValid kv
    → length k ≤ 31
    → find_key kv k ≢ some 0
    → kv_write kv k v ≡ some (0, kv')
    → (j : Bytes) → kv_read kv' j ≡ (if str_eq k j then live v else kv_read kv j)
kv_read-kv_write {kv} {kv'} k v valid short not_first ok j = elim (kv_write-WriteCase valid k v) [
  | full above no_room e ↦ absurd (cc)
  | renewed i found e ↦
      let same : kv' ≡ replaced kv (suc i) v = ground arith in
      rw same (kv_read-replaced valid k v (suc i) found j)
  | added n (inr first) room at e ↦ absurd (not_first first)
  | added n (inl absent) room at e ↦
      let same : kv' ≡ inserted kv n k v = ground arith in
      rw same (kv_read-inserted valid k v n absent short at j)
]

-- On a valid table kv_write reports failure, with the store as before, exactly when the key is not
-- above index 0 and `TABLE_MAX` entries are used.
pub kv_write-full_iff :
    {kv : Store} (k v : Bytes)
    → IsValid kv
    → (kv_write kv k v ≡ some (1, kv)) ↔ (NotAbove kv k × (table_max ≤ key_len kv))
kv_write-full_iff {kv} k v valid = elim (kv_write-WriteCase valid k v) [
  | full above no_room e ↦ (λ _. (above, no_room), λ _. e)
  | added n above room at e ↦ (λ h. absurd (cc), λ h. absurd (omega (arith, h.1)))
  | renewed i found e ↦ (λ h. absurd (cc), λ h. ground (arith, h))
]

-- In a valid table a write of a key of at most 31 characters that does not stand at index 0 keeps
-- the keys of used entries distinct.
pub kv_write-IsUnique :
    {kv kv' : Store} (k v : Bytes) (r : ℕ)
    → IsValid kv
    → IsUnique kv
    → length k ≤ 31
    → find_key kv k ≢ some 0
    → kv_write kv k v ≡ some (r, kv')
    → IsUnique kv'
kv_write-IsUnique {kv} {kv'} k v r valid unique short not_first ok =
    elim (kv_write-WriteCase valid k v) [
      | full above no_room e ↦ let same : kv' ≡ kv = ground arith in rw same unique
      | renewed i found e ↦ let same : kv' ≡ replaced kv (suc i) v = ground arith in rw same unique
      | added n (inr first) room at e ↦ absurd (not_first first)
      | added n (inl absent) room at e ↦
          let same : kv' ≡ inserted kv n k v = ground arith in
          rw same (inserted-IsUnique valid k v n unique absent short)
    ]

-- While the table has room, a write succeeds.
pub kv_write-room :
    {kv : Store} (k v : Bytes)
    → IsValid kv
    → key_len kv < table_max
    → (kv' : Store) × (kv_write kv k v ≡ some (0, kv'))
kv_write-room {kv} k v valid room = elim (kv_write-WriteCase valid k v) [
  | full above no_room e ↦ absurd (omega arith)
  | added n above has_room at e ↦ (inserted kv n k v, e)
  | renewed i found e ↦ (replaced kv (suc i) v, e)
]
