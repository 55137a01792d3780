-- ===== src/Kv/First.antt =====
-- What kv_write of kvstore.c does to the key at index 0.
use systems_projects.Base.{
  ℕ, ◌<◌, ◌≤◌, ◌≡◌, refl, ◌≢◌, sym, ◌∙◌, some, arith, Bytes, length, set, first_from-IsFirst,
  IsFirst-first_from, get_elem?-set_ne, get_elem?-set_self, get_or-set_ne, take_all,
}
use systems_projects.Kv.{
  Entry, Store, table_max, holds_key, find_key, key_len, get_new_index, kv_read, kv_write, live,
  unset, new_entry,
}
use systems_projects.Kv.Find.{IsValid, IsUnique, find_key-FoundAt}
use systems_projects.Kv.Write.Parts.{inserted, get_new_index-lt}
use systems_projects.Kv.Write.{full, added, renewed, kv_write-WriteCase}

module _ {kv : Store} (valid : IsValid kv) (k v : Bytes) (first : find_key kv k ≡ some 0) where
  -- The entry at index 0 stays the first that matches.
  find_key-first : (n : ℕ) → n ≢ 0 → find_key (inserted kv n k v) k ≡ some 0
  unfolding find_key
  find_key-first n other =
      let f = first_from-IsFirst (holds_key k) kv.keys 0 first in
      IsFirst-first_from (holds_key k) (set kv.keys n (new_entry k)) 0 0 (record {
        item = f.item;
        there = get_elem?-set_ne kv.keys n 0 (new_entry k) other ∙ f.there;
        passes = f.passes;
        least = λ i y lt e. elim lt [ ];
      })

  free_ne_zero : (n : ℕ) → get_new_index kv ≡ some n → n ≢ 0
  unfolding get_new_index
  free_ne_zero n at e =
      let free = first_from-IsFirst systems_projects.Kv.is_free kv.keys n at in
      let used = find_key-FoundAt kv k 0 first in
      ground (arith, free.there, free.passes, used.there, used.used)

  twice : (n : ℕ) → n ≢ 0 → get_new_index kv ≡ some n → ¬ IsUnique (inserted kv n k v)
  twice n ne at unique =
      let f = find_key-FoundAt kv k 0 first in
      let short : length k ≤ 31 = rw (← f.same_key) (valid.key_le 0 f.entry f.there) in
      let lt = get_new_index-lt valid n at in
      ne (
        sym (
          unique 0 n f.entry (new_entry k) (get_elem?-set_ne kv.keys n 0 (new_entry k) ne ∙ f.there)
            (get_elem?-set_self kv.keys n (new_entry k) (omega (arith, valid.width)))
            (omega (arith, valid.stat_le 0 f.entry f.there, f.used)) refl
            (f.same_key ∙ sym (take_all 31 k short))))

  -- The key at index 0 cannot be overwritten: while the table has room, writing it again reports
  -- success, yet a read still gives the old value and two used entries then have the same key.
  pub kv_write_first :
      key_len kv < table_max
      → (kv' : Store) × (kv_write kv k v ≡ some (0, kv'))
        × (kv_read kv' k ≡ kv_read kv k)
        × (¬ IsUnique kv')
  unfolding kv_read
  kv_write_first room = elim (kv_write-WriteCase valid k v) [
    | full above no_room e ↦ absurd (omega arith)
    | renewed i found e ↦ absurd (cc)
    | added n above has_room at e ↦
        let ne = free_ne_zero n at in
        (
          inserted kv n k v,
          e,
          rw (find_key-first n ne, first) (get_or-set_ne kv.values n 0 unset (live v) ne),
          twice n ne at,
        )
  ]
