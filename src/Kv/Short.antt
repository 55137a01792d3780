-- ===== src/Kv/Short.antt =====
-- The length of the values that kvstore.c keeps (lab3-TheCarton-main).
use systems_projects.Base.{
  ℕ, suc, ◌<◌, ◌≡◌, refl, sym, some, Bytes, length, get_elem?, set, arith, get_elem?-set_cases, inl,
  inr, Option-cases,
}
use systems_projects.Kv.{live, dangling, Value, Store, find_key, kv_read, kv_write, kv_delete}
use systems_projects.Kv.Find.{IsValid, find_key-live, find_key-FoundAt}
use systems_projects.Kv.Write.{kv_write-WriteCase, full, added, renewed}
use systems_projects.Kv.Write.Parts.{inserted, replaced}
use systems_projects.Kv.Delete.{freed, kv_delete-found, not_found}

-- Every string of the table is shorter than `n`.
abbrev pub IsShort : ℕ → Store → Type 0
IsShort n kv = (i : ℕ) (v : Bytes) → get_elem? kv.values i ≡ some (live v) → length v < n

module _ (n : ℕ) where
  -- A read gives a short string.
  pub kv_read-short :
      {kv : Store} (k v : Bytes) → IsValid kv → IsShort n kv → kv_read kv k ≡ live v → length v < n
  unfolding kv_read
  kv_read-short {kv} k v valid short e = elim (Option-cases (find_key kv k)) [
    | inl absent ↦ cc
    | inr (i, found) ↦
        let (w, there, at) = find_key-live valid k i found in
        let same : w ≡ v = ground (arith, at, found, e) in rw same at (short i w there)
  ]

  set-IsShort :
      (kv kv' : Store) (i : ℕ) (x : Value)
      → kv'.values ≡ set kv.values i x
      → ((v : Bytes) → x ≡ live v → length v < n)
      → IsShort n kv
      → IsShort n kv'
  set-IsShort kv kv' i x e new short j v at =
      elim (get_elem?-set_cases kv.values i j x (rw e at at)) [
        | inl (same, here) ↦ new v (sym here)
        | inr (other, old) ↦ short j v old
      ]

  -- A write of a short string keeps the strings short.
  pub kv_write-IsShort :
      {kv kv' : Store} (k v : Bytes) (r : ℕ)
      → IsValid kv
      → IsShort n kv
      → length v < n
      → kv_write kv k v ≡ some (r, kv')
      → IsShort n kv'
  kv_write-IsShort {kv} {kv'} k v r valid short fits e = elim (kv_write-WriteCase valid k v) [
    | full above no_room was ↦ let same : kv' ≡ kv = ground arith in rw same short
    | added m above room at was ↦
        let same : kv' ≡ inserted kv m k v = ground arith in
        rw same (
          set-IsShort kv (inserted kv m k v) m (live v) refl (λ w e'. rw (value w e') at fits)
            short)
    | renewed i found was ↦
        let same : kv' ≡ replaced kv (suc i) v = ground arith in
        rw same (
          set-IsShort kv (replaced kv (suc i) v) (suc i) (live v) refl
            (λ w e'. rw (value w e') at fits) short)
  ]
    where
      value : (w : Bytes) → live v ≡ live w → v ≡ w
      value w e' = ground arith

  pub kv_delete-IsShort :
      {kv kv' : Store} (k : Bytes)
      → IsValid kv
      → IsShort n kv
      → kv_delete kv k ≡ some kv'
      → IsShort n kv'
  kv_delete-IsShort {kv} {kv'} k valid short e = elim (Option-cases (find_key kv k)) [
    | inl absent ↦ let same : kv' ≡ kv = ground (arith, not_found kv k absent) in rw same short
    | inr (i, found) ↦
        let f = find_key-FoundAt kv k i found in
        let same : kv' ≡ freed kv i f.entry = ground (arith, kv_delete-found valid k i found) in
        rw same (
          set-IsShort kv (freed kv i f.entry) i dangling refl (λ w gone. absurd (ground arith))
            short)
  ]
