-- ===== src/Fs/Tree/Laws.antt =====
-- What fs_rename and the removal of an entry do to lookups in a directory.
use systems_projects.Base.{
  c_string, strcpy, NoNul, c_string-strcpy, ℕ, zero, suc, ◌≡◌, ◌≢◌, refl, ap, ◌∙◌, sym, Bool, true,
  false, none, some, List, [], ◌∷◌, Bytes, arith, get_elem?, get_or, set, if◌then◌else◌, str_eq,
  str_eq_iff, str_eq→eq, str_eq_refl, Bool-cases, inl, inr, first_from, IsFirst, first_from-IsFirst,
  first_from-none, first_from-set, first_from-set_new, first_from-eq_none, get_or-get_elem?,
  get_elem?-lt, get_elem?-set_cases,
}
use systems_projects.Fs.Layout.{Dirent}
use systems_projects.Fs.State.{Fs, done}
use systems_projects.Fs.Walk.{is_named, get_dirent_index, no_entry}
use systems_projects.Fs.Tree.{rename_entry, drop_entry}

abbrev is_src : Bytes → Dirent → Bool
is_src src e = str_eq (c_string e.name) src

abbrev renamed : Dirent → Bytes → Dirent
renamed e dst = record e { name = strcpy e.name dst }

-- The loop of fs_rename changes the first entry that has the name.
rename_entry-set :
    (es : List Dirent) (src dst : Bytes) (n : ℕ)
    → IsFirst (is_src src) es n
    → rename_entry es src dst ≡ set es n (renamed (get_or es n no_entry) dst)
unfolding rename_entry
rename_entry-set [] src dst n f = refl
rename_entry-set (e ∷ es) src dst zero f = ground (arith, f.there, f.passes)
rename_entry-set (e ∷ es) src dst (suc n) f = rw (f.least 0 e (omega arith) refl) (
    ap (◌∷◌ e) (
      rename_entry-set es src dst n (record {
        item = f.item;
        there = f.there;
        passes = f.passes;
        least = λ k y lt at. f.least (suc k) y (omega arith) at;
      })))

module _ (entries : List Dirent) (src dst : Bytes) (clean : NoNul dst) (n : ℕ)
    (first : first_from (is_src src) entries 0 ≡ some n) where
  found : IsFirst (is_src src) entries n
  found = first_from-IsFirst (is_src src) entries n first

  src_name : c_string (get_or entries n no_entry).name ≡ src
  src_name =
      rw (get_or-get_elem? entries n no_entry found.item found.there)
        (str_eq→eq (c_string found.item.name) src found.passes)

  -- If the first entry that holds the old name is not valid, the loop of fs_rename renames that
  -- one: then every lookup in the directory finds what it found before.
  pub rename_entry_stale :
      (get_or entries n no_entry).valid ≡ 0
      → (name : Bytes)
      → get_dirent_index (rename_entry entries src dst) name ≡ get_dirent_index entries name
  unfolding get_dirent_index
  rename_entry_stale stale name = rw (rename_entry-set entries src dst n found) (
      first_from-set (is_named name) entries 0 n (get_or entries n no_entry)
        (renamed (get_or entries n no_entry) dst)
        (found.there ∙ ap some (sym (get_or-get_elem? entries n no_entry found.item found.there)))
        (rw stale))

  -- Where the first entry that holds the old name is valid and the new name, which has no NUL, is
  -- free, the loop of fs_rename makes the new name found at that entry, and every name but these
  -- two is found where it was.
  pub rename_entry_valid :
      (get_or entries n no_entry).valid ≢ 0
      → get_dirent_index entries dst ≡ none
      → (get_dirent_index (rename_entry entries src dst) dst ≡ some n)
        × ((name : Bytes)
            → name ≢ src
            → name ≢ dst
            → get_dirent_index (rename_entry entries src dst) name ≡ get_dirent_index entries name)
  unfolding get_dirent_index
  rename_entry_valid used absent =
      let e = get_or entries n no_entry in
      let same = rename_entry-set entries src dst n found in
      let at =
        found.there ∙ ap some (sym (get_or-get_elem? entries n no_entry found.item found.there)) in
      (
        rw same (
            first_from-set_new (is_named dst) entries n (renamed e dst)
              (get_elem?-lt entries n found.there)
              (rw (c_string-strcpy e.name dst clean, str_eq_refl dst) (ground arith))
              (first_from-none (is_named dst) entries 0 absent) 0
            ∙ ap some (omega arith)),
        λ name not_src not_dst. rw same (
            first_from-set (is_named name) entries 0 n e (renamed e dst) at (
              rw (c_string-strcpy e.name dst clean)
                (ground (arith, str_eq→eq dst name, str_eq→eq (c_string e.name) name, src_name)))),
      )

dropped_run :
    (s : Fs) (entries : List Dirent) (name : Bytes) (i : ℕ)
    → get_dirent_index entries name ≡ some i
    → drop_entry entries name s
      ≡ done (set entries i (record (get_or entries i no_entry) { valid = 0 })) s
unfolding drop_entry
dropped_run s entries name i at = rw (at, drop_entry)

-- The entry that fs_unlink and fs_rmdir drop.
abbrev pub dropped : List Dirent → ℕ → List Dirent
dropped entries i = set entries i (record (get_or entries i no_entry) { valid = 0 })

-- Dropping the entry of a name that is there once makes the name unknown, and every other name is
-- found where it was.
pub get_dirent_index-drop_entry :
    (s : Fs) (entries : List Dirent) (name : Bytes) (i : ℕ)
    → get_dirent_index entries name ≡ some i
    → ((j : ℕ) (e : Dirent) → get_elem? entries j ≡ some e → is_named name e ≡ true → j ≡ i)
    → (drop_entry entries name s ≡ done (dropped entries i) s)
      × ((other : Bytes)
          → get_dirent_index (dropped entries i) other
            ≡ (if str_eq name other then none else get_dirent_index entries other))
unfolding get_dirent_index
get_dirent_index-drop_entry s entries name i at once =
    let f = first_from-IsFirst (is_named name) entries i at in
    (
      dropped_run s entries name i at,
      λ other. elim (Bool-cases (str_eq name other)) [
        | inl same ↦
            rw (same, ← str_eq→eq name other same)
              (first_from-eq_none (is_named name) (dropped entries i) 0 gone)
        | inr differ ↦ rw differ (
            first_from-set (is_named other) entries 0 i f.item
              (record (get_or entries i no_entry) { valid = 0 }) f.there
              (sym (
                ground (
                  arith,
                  f.passes,
                  str_eq→eq (c_string f.item.name) name,
                  str_eq_iff name other,
                  str_eq→eq (c_string f.item.name) other,
                ))))
      ],
    )
  where
    gone : (k : ℕ) (y : Dirent) → get_elem? (dropped entries i) k ≡ some y → is_named name y ≡ false
    gone k y e =
        elim (get_elem?-set_cases entries i k (record (get_or entries i no_entry) { valid = 0 })
          e) [
            | inl (here, new) ↦ rw new
            | inr (other, was) ↦ elim (Bool-cases (is_named name y)) [
              | inr miss ↦ miss
              | inl hit ↦ absurd (other (sym (once k y was hit)))
            ]
          ]
