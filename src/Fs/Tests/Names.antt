-- ===== src/Fs/Tests/Names.antt =====
-- Paths and directories at concrete values: a directory of three entries, in which `old`
-- has been removed and `b` is in use twice over.
use systems_projects.Base.{
  c_string, ℕ, zero, suc, ◌≡◌, refl, none, some, List, [], ◌∷◌, ◌++◌, Bytes, codes, arith, ap,
  replicate, length, length-replicate, ◌==◌, get_elem?, str_eq, if◌then◌else◌, true, first_from,
}
use systems_projects.Fs.Layout.{Dirent, num_dirent_block}
use systems_projects.Fs.Layout.RoundTrip.{AllFit}
use systems_projects.Fs.State.{Fs, done, read_dirents}
use systems_projects.Fs.Path.{tokens, parent_of}
use systems_projects.Fs.Path.Laws.{parent_of-tokens}
use systems_projects.Fs.Walk.{is_named, get_dirent_index, free_dirent, add_dirent}
use systems_projects.Fs.Walk.Laws.{inode_at, get_dirent_index-add_dirent}
use systems_projects.Fs.Tree.{rename_entry, drop_entry}
use systems_projects.Fs.Tree.Laws.{rename_entry_stale, dropped, get_dirent_index-drop_entry}

abbrev padded : Bytes → ℕ → Bytes
padded name n = name ++ replicate n 0

abbrev a_entry : Dirent
a_entry = record { valid = 1; inode = 4; name = padded (codes "a") 27 }

abbrev stale_entry : Dirent
stale_entry = record { valid = 0; inode = 6; name = padded (codes "old") 25 }

abbrev b_entry : Dirent
b_entry = record { valid = 1; inode = 8; name = padded (codes "b") 27 }

abbrev new_old_entry : Dirent
new_old_entry = record { valid = 1; inode = 9; name = padded (codes "old") 25 }

-- `old` has been removed once, and made again behind its old entry.
abbrev entries : List Dirent
entries = a_entry ∷ stale_entry ∷ b_entry ∷ new_old_entry ∷ []

abbrev all_entries : List Dirent
all_entries = a_entry ∷ replicate 127 stale_entry

AllFit-stale : (n : ℕ) → AllFit (replicate n stale_entry)
AllFit-stale zero = tt
AllFit-stale (suc n) =
    (record { valid = omega arith; inode = omega arith; name = refl }, AllFit-stale n)

all_whole : length all_entries ≡ num_dirent_block
all_whole = ap suc (length-replicate {A = Dirent} 127 stale_entry)

all-AllFit : AllFit all_entries
all-AllFit = (record { valid = omega arith; inode = omega arith; name = refl }, AllFit-stale 127)

parent_of-tokens_example :
    (parent_of (codes "/dir/file") ≡ codes "/dir")
    × (tokens (codes "/dir/file") ≡ tokens (parent_of (codes "/dir/file")) ++ codes "file" ∷ [])
parent_of-tokens_example =
    parent_of-tokens (codes "/dir") (codes "file") (refl, (refl, (refl, (refl, tt))))
      (λ e. ground (arith, e))

abbrev some_fs : Fs
some_fs = record { num_blocks = 0; bitmap = []; disk = [] }

free : free_dirent all_entries ≡ some 1
unfolding free_dirent
free = refl

absent : get_dirent_index all_entries (codes "c") ≡ none
unfolding get_dirent_index c_string
absent = refl

get_dirent_index-add_dirent_example :
    (t : Fs) × (es : List Dirent) × (add_dirent all_entries 3 7 (codes "c") some_fs ≡ done tt t)
    × (read_dirents 3 t ≡ done es t)
    × ((other : Bytes)
        → get_dirent_index es other
          ≡ (if str_eq (codes "c") other then some 1 else get_dirent_index all_entries other))
    × ((i : ℕ) → inode_at es i ≡ (if i == 1 then 7 else inode_at all_entries i))
get_dirent_index-add_dirent_example =
    get_dirent_index-add_dirent some_fs all_entries 3 7 1 (codes "c") (omega arith, omega arith)
      all_whole all-AllFit (omega arith) (refl, tt) (omega arith) free absent

old_first : first_from (λ (e : Dirent). str_eq (c_string e.name) (codes "old")) entries 0 ≡ some 1
unfolding c_string
old_first = refl

b_first : first_from (λ (e : Dirent). str_eq (c_string e.name) (codes "b")) entries 0 ≡ some 2
unfolding c_string
b_first = refl

rename_entry_stale_example :
    get_dirent_index (rename_entry entries (codes "old") (codes "new")) (codes "new")
    ≡ get_dirent_index entries (codes "new")
rename_entry_stale_example =
    rename_entry_stale entries (codes "old") (codes "new") (refl, (refl, (refl, tt))) 1 old_first
      refl (codes "new")

b_found : get_dirent_index entries (codes "b") ≡ some 2
unfolding get_dirent_index c_string
b_found = refl

once : (j : ℕ) (e : Dirent) → get_elem? entries j ≡ some e → is_named (codes "b") e ≡ true → j ≡ 2
unfolding c_string
once zero e at hit = ground arith
once (suc zero) e at hit = ground arith
once (suc (suc zero)) e at hit = refl
once (suc (suc (suc zero))) e at hit = ground arith
once (suc (suc (suc (suc j)))) e at hit = cc

get_dirent_index-drop_entry_example :
    (drop_entry entries (codes "b") some_fs ≡ done (dropped entries 2) some_fs)
    × ((other : Bytes)
        → get_dirent_index (dropped entries 2) other
          ≡ (if str_eq (codes "b") other then none else get_dirent_index entries other))
get_dirent_index-drop_entry_example =
    get_dirent_index-drop_entry some_fs entries (codes "b") 2 b_found once
