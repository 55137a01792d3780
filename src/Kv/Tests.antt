-- ===== src/Kv/Tests.antt =====
-- kvstore.c at concrete tables: runs, and the theorems at inputs that meet their hypotheses.
use systems_projects.Base.{
  ℕ, ◌≡◌, ◌≤◌, refl, ◌≢◌, ◌↔◌, some, arith, Bytes, codes, if◌then◌else◌, str_eq,
}
use systems_projects.Kv.{
  Store, unset, live, kv_read, kv_write, kv_delete, empty_store, find_key, key_len, get_new_index,
  table_max, release,
}
use systems_projects.Kv.Find.{IsValid, IsUnique}
use systems_projects.Kv.Write.{
  NotAbove, kv_write-IsValid, kv_read-kv_write, kv_write-full_iff, kv_write-IsUnique,
}
use systems_projects.Kv.Write.Parts.{inserted, replaced, inserted-IsValid}
use systems_projects.Kv.First.{kv_write_first}
use systems_projects.Kv.Delete.{kv_read-kv_delete, empty_store-IsValid}

abbrev a : Bytes
a = codes "a"

abbrev b : Bytes
b = codes "b"

abbrev one : Bytes
one = codes "1"

abbrev two : Bytes
two = codes "2"

-- `a` at index 0, then `b` at index 1.
abbrev just_a : Store
just_a = inserted empty_store 0 a one

abbrev both : Store
both = inserted just_a 1 b two

written_a : kv_write empty_store a one ≡ some (0, just_a)
unfolding kv_write find_key key_len get_new_index
written_a = refl

written_b : kv_write just_a b two ≡ some (0, both)
unfolding kv_write find_key key_len get_new_index
written_b = refl

rewritten_b : kv_write both b one ≡ some (0, replaced both 1 one)
unfolding kv_write find_key release
rewritten_b = refl

just_a-IsValid : IsValid just_a
just_a-IsValid = inserted-IsValid empty_store-IsValid.0 0 a one (omega arith)

both-IsValid : IsValid both
both-IsValid = inserted-IsValid just_a-IsValid 1 b two (omega arith)

find_b : find_key both b ≡ some 1
unfolding find_key
find_b = refl

find_a : find_key just_a a ≡ some 0
unfolding find_key
find_a = refl

room : key_len just_a ≡ 1
unfolding key_len
room = refl

b-ne_first : find_key both b ≢ some 0
b-ne_first h = ground (arith, find_b)

missing-ne_first : find_key just_a b ≢ some 0
unfolding find_key
missing-ne_first h = ground arith

empty-ne_first : find_key empty_store a ≢ some 0
unfolding find_key
empty-ne_first h = ground arith

just_a-IsUnique : IsUnique just_a
just_a-IsUnique =
    kv_write-IsUnique a one 0 empty_store-IsValid.0 empty_store-IsValid.1 (omega arith)
      empty-ne_first written_a

kv_write-IsValid_example : (r : ℕ × Store) × (kv_write both b one ≡ some r) × IsValid r.1
kv_write-IsValid_example = kv_write-IsValid b one both-IsValid

kv_read-kv_write_example : kv_read (replaced both 1 one) b ≡ live one
kv_read-kv_write_example =
    kv_read-kv_write b one both-IsValid (omega arith) b-ne_first rewritten_b b

kv_write-full_iff_example :
    (kv_write both b one ≡ some (1, both)) ↔ (NotAbove both b × (table_max ≤ key_len both))
kv_write-full_iff_example = kv_write-full_iff b one both-IsValid

kv_write-IsUnique_example : IsUnique both
kv_write-IsUnique_example =
    kv_write-IsUnique b two 0 just_a-IsValid just_a-IsUnique (omega arith) missing-ne_first
      written_b

kv_write_first_example :
    (kv' : Store) × (kv_write just_a a two ≡ some (0, kv'))
    × (kv_read kv' a ≡ kv_read just_a a)
    × (¬ IsUnique kv')
kv_write_first_example = kv_write_first just_a-IsValid a two find_a (omega (arith, room))

kv_read-kv_delete_example :
    (kv' : Store) × (kv_delete just_a a ≡ some kv')
    × IsValid kv'
    × IsUnique kv'
    × ((j : Bytes) → kv_read kv' j ≡ (if str_eq a j then unset else kv_read just_a j))
kv_read-kv_delete_example = kv_read-kv_delete a just_a-IsValid just_a-IsUnique
