-- ===== src/Kv.antt =====
-- lab3-TheCarton-main/kvstore.c and kvstore.h: the key-value store of the server. A string is the
-- list of its characters. The value pointers are modelled with what `free` leaves behind, so that a
-- second `free` shows as a fault, `none`. An index of -1 is `none`. `calloc` is taken to succeed.
-- Each operation runs under one mutex, so it is one step here.
pub mod Find
pub mod Write
pub mod Short
pub mod Delete
pub mod First
mod Tests
use systems_projects.Base.{
  ℕ, zero, suc, Bool, not, ◌&&◌, Option, none, some, List, [], Bytes, ◌==◌, ltb, if◌then◌else◌,
  str_eq, first_from, count, get_or, set, take, replicate,
}

abbrev pub table_max : ℕ
table_max = 200

-- A `char *` of the table: never set, pointing at a live string, or left behind by `free`.
pub data Value : Type 0 where
  unset : Value
  live : Bytes → Value
  dangling : Value

-- `stat` is 0 for a free entry and 1 for a used one.
pub record Entry : Type 0 where
  pub stat : ℕ
  pub key : Bytes

pub record Store : Type 0 where
  pub keys : List Entry
  pub values : List Value

abbrev pub is_free : Entry → Bool
is_free e = e.stat == 0

abbrev pub holds_key : Bytes → Entry → Bool
holds_key k e = not (is_free e) && str_eq e.key k

abbrev pub is_used : Entry → Bool
is_used e = e.stat == 1

unfoldable pub find_key : Store → Bytes → Option ℕ
find_key kv key = first_from (holds_key key) kv.keys 0

unfoldable pub key_len : Store → ℕ
key_len kv = count is_used kv.keys

unfoldable pub get_new_index : Store → Option ℕ
get_new_index kv = first_from is_free kv.keys 0

-- `free(p)`: nothing at `NULL`, a fault at a pointer that was freed before.
unfoldable pub release : {A : Type 0} → Value → A → Option A
release unset a = some a
release (live s) a = some a
release dangling a = none

value_at : Store → Option ℕ → Value
value_at kv none = unset
value_at kv (some i) = get_or kv.values i unset

-- `unset` is the `NULL` of a key that is not there.
unfoldable pub kv_read : Store → Bytes → Value
unfolding value_at
kv_read kv key = value_at kv (find_key kv key)

-- `new_key`: `strncpy` copies at most 31 characters, and the last byte is NUL.
abbrev pub new_entry : Bytes → Entry
new_entry key = record { stat = 1; key = take 31 key }

-- The write at the index of a free entry; at -1 it would be out of bounds.
insert_at : Store → Bytes → Bytes → Option ℕ → Option (ℕ × Store)
insert_at kv key val none = none
insert_at kv key val (some n) =
    some (0, record { keys = set kv.keys n (new_entry key); values = set kv.values n (live val) })

insert : Store → Bytes → Bytes → Option (ℕ × Store)
unfolding insert_at
insert kv key val =
    if ltb (key_len kv) table_max then insert_at kv key val (get_new_index kv) else some (1, kv)

-- The branches on `key_index > 0`, which is false at index 0.
write_at : Store → Bytes → Bytes → Option ℕ → Option (ℕ × Store)
unfolding insert
write_at kv key val none = insert kv key val
write_at kv key val (some zero) = insert kv key val
write_at kv key val (some (suc i)) =
    release (get_or kv.values (suc i) unset)
      (0, record kv { values = set kv.values (suc i) (live val) })

-- The status, 0 or 1, and the new store.
unfoldable pub kv_write : Store → Bytes → Bytes → Option (ℕ × Store)
unfolding write_at
kv_write kv key val = write_at kv key val (find_key kv key)

free_entry : Entry → Entry
free_entry e = record e { stat = 0 }

delete_at : Store → Option ℕ → Option Store
unfolding free_entry
delete_at kv none = some kv
delete_at kv (some i) = release (get_or kv.values i unset) (record {
  keys = set kv.keys i (free_entry (get_or kv.keys i (record { stat = 0; key = [] })));
  values = set kv.values i dangling;
})

unfoldable pub kv_delete : Store → Bytes → Option Store
unfolding delete_at
kv_delete kv key = delete_at kv (find_key kv key)

-- The store as `init` of dbserver.c leaves the global `kv`: every entry free, every pointer `NULL`.
abbrev pub empty_store : Store
empty_store = record {
  keys = replicate table_max (record { stat = 0; key = [] });
  values = replicate table_max unset;
}
