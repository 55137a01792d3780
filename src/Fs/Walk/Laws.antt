-- ===== src/Fs/Walk/Laws.antt =====
-- Directory entries: what a lookup in the directory on the disk finds after add_dirent.
use mathlib.Core.Option.{some_inj}
use systems_projects.Base.{
  NoNul, c_string-strcpy, length-strcpy, has_room, ℕ, zero, suc, ◌<◌, ◌≤◌, ◌^◌, ◌≡◌, refl, ap, ◌∙◌,
  true, none, some, List, [], ◌∷◌, Bytes, arith, get_or, get_elem?, set, length, length-set, ◌==◌,
  if◌then◌else◌, str_eq, str_eq→eq, str_eq_refl, Bool-cases, inl, inr, first_from-IsFirst,
  first_from-none, first_from-set, first_from-set_new, get_elem?-lt, get_or-get_elem?,
  get_or-set_self, get_or-set_ne,
}
use systems_projects.Fs.Layout.{Dirent, num_dirent_block, encode_dirents}
use systems_projects.Fs.Layout.RoundTrip.{DirentFits, AllFit, decode_dirents-encode_dirents}
use systems_projects.Fs.State.{Fs, done, read_dirents, write_dirents}
use systems_projects.Fs.State.Laws.{IsWritable, written, block_read-written, load-done, store-done}
use systems_projects.Fs.Walk.{
  is_named, get_dirent_index, free_dirent, fill_dirent, no_entry, add_dirent,
}

-- The entries after add_dirent has filled index `n`.
abbrev entered : List Dirent → ℕ → ℕ → Bytes → List Dirent
entered entries n inum name = set entries n (fill_dirent (get_or entries n no_entry) inum name)

module _ (entries : List Dirent) (n inum : ℕ) (name : Bytes) (clean : NoNul name)
    (free : free_dirent entries ≡ some n) where
  filled_named :
      (other : Bytes)
      → is_named other (fill_dirent (get_or entries n no_entry) inum name) ≡ str_eq name other
  unfolding fill_dirent
  filled_named other = rw (c_string-strcpy (get_or entries n no_entry).name name clean)

  get_dirent_index-entered :
      get_dirent_index entries name ≡ none
      → (other : Bytes)
      → get_dirent_index (entered entries n inum name) other
        ≡ (if str_eq name other then some n else get_dirent_index entries other)
  unfolding get_dirent_index free_dirent
  get_dirent_index-entered absent other =
      let f = first_from-IsFirst (λ (e : Dirent). e.valid == 0) entries n free in
      elim (Bool-cases (str_eq name other)) [
        | inl same ↦
            rw (same, ← str_eq→eq name other same)
              (first_from-set_new (is_named name) entries n
                  (fill_dirent (get_or entries n no_entry) inum name)
                  (get_elem?-lt entries n f.there) (filled_named name ∙ str_eq_refl name)
                  (first_from-none (is_named name) entries 0 absent) 0
                ∙ ap some (omega arith))
        | inr differ ↦ rw differ (
            first_from-set (is_named other) entries 0 n f.item
              (fill_dirent (get_or entries n no_entry) inum name) f.there
              (filled_named other ∙ (ground (arith, f.passes))))
      ]

AllFit-get :
    (es : List Dirent) (i : ℕ) (e : Dirent) → AllFit es → get_elem? es i ≡ some e → DirentFits e
AllFit-get [] i e fit at = cc
AllFit-get (x ∷ es) zero e fit at = rw (← some_inj.0 at) fit.0
AllFit-get (x ∷ es) (suc i) e fit at = AllFit-get es i e fit.1 at

AllFit-set :
    (es : List Dirent) (i : ℕ) (v : Dirent) → AllFit es → DirentFits v → AllFit (set es i v)
AllFit-set [] i v fit new = tt
AllFit-set (x ∷ es) zero v fit new = (new, fit.1)
AllFit-set (x ∷ es) (suc i) v fit new = (fit.0, AllFit-set es i v fit.1 new)

fill_dirent-fits :
    (e : Dirent) (inum : ℕ) (name : Bytes)
    → inum < 2 ^ 31
    → length e.name ≡ 28
    → has_room e.name name ≡ true
    → DirentFits (fill_dirent e inum name)
unfolding fill_dirent
fill_dirent-fits e inum name small width room = record {
  valid = omega arith;
  inode = small;
  name = length-strcpy e.name name room ∙ width;
}

inode-fill_dirent : (e : Dirent) (inum : ℕ) (name : Bytes) → (fill_dirent e inum name).inode ≡ inum
unfolding fill_dirent
inode-fill_dirent e inum name = refl

-- The number of the inode that an entry names.
abbrev pub inode_at : List Dirent → ℕ → ℕ
inode_at es i = (get_or es i no_entry).inode

inode_at-set :
    (es : List Dirent) (n i : ℕ) (v : Dirent)
    → n < length es
    → inode_at (set es n v) i ≡ (if i == n then v.inode else inode_at es i)
inode_at-set es n i v low = elim (Bool-cases (i == n)) [
  | inl here ↦
      let e : i ≡ n = ground (arith, here) in
      rw (here, e) (ap (λ (d : Dirent). d.inode) (get_or-set_self es n no_entry v low))
  | inr other ↦
      rw other
        (ap (λ (d : Dirent). d.inode) (get_or-set_ne es n i no_entry v (ground (arith, other))))
]

-- The directory on the disk after a table of entries has been written to its block.
abbrev rewritten : Fs → ℕ → List Dirent → Fs
rewritten s dir es = record s { disk = written s.disk dir (encode_dirents es) }

read_dirents-rewritten :
    (s : Fs) (dir : ℕ) (es : List Dirent)
    → IsWritable dir
    → length es ≡ num_dirent_block
    → AllFit es
    → read_dirents dir (rewritten s dir es) ≡ done es (rewritten s dir es)
unfolding read_dirents
read_dirents-rewritten s dir es ok whole fit =
    rw (load-done (rewritten s dir es) dir (block_read-written s.disk dir (encode_dirents es) ok))
      (ap (λ x. done x (rewritten s dir es)) (decode_dirents-encode_dirents es whole fit))

add_dirent-done :
    (s : Fs) (entries : List Dirent) (dir inum n : ℕ) (name : Bytes)
    → IsWritable dir
    → free_dirent entries ≡ some n
    → has_room (get_or entries n no_entry).name name ≡ true
    → add_dirent entries dir inum name s ≡ done tt (rewritten s dir (entered entries n inum name))
unfolding add_dirent write_dirents
add_dirent-done s entries dir inum n name ok free room =
    rw (free, add_dirent)
      (rw room (store-done s dir (encode_dirents (entered entries n inum name)) ok))

-- In a directory with a free entry, add_dirent of a new name that has at most 27 characters and no
-- NUL succeeds, and in the entries that are then read back from the directory's block the name is
-- found at the first entry that was free, which names the inode that was given; every other name is
-- found where it was, and every other entry names the inode that it named. The directory has 128
-- entries whose values fit their fields, its block can be written, and the number of the inode fits
-- its field.
pub get_dirent_index-add_dirent :
    (s : Fs) (entries : List Dirent) (dir inum n : ℕ) (name : Bytes)
    → IsWritable dir
    → length entries ≡ num_dirent_block
    → AllFit entries
    → inum < 2 ^ 31
    → NoNul name
    → length name ≤ 27
    → free_dirent entries ≡ some n
    → get_dirent_index entries name ≡ none
    → (t : Fs) × (es : List Dirent) × (add_dirent entries dir inum name s ≡ done tt t)
      × (read_dirents dir t ≡ done es t)
      × ((other : Bytes)
          → get_dirent_index es other
            ≡ (if str_eq name other then some n else get_dirent_index entries other))
      × ((i : ℕ) → inode_at es i ≡ (if i == n then inum else inode_at entries i))
unfolding free_dirent
get_dirent_index-add_dirent s entries dir inum n name ok whole fit small clean short free absent =
    let f = first_from-IsFirst (λ (e : Dirent). e.valid == 0) entries n free in
    let old = get_or entries n no_entry in
    let at : old ≡ f.item = get_or-get_elem? entries n no_entry f.item f.there in
    let width : length old.name ≡ 28 =
      ap (λ (d : Dirent). length d.name) at ∙ (AllFit-get entries n f.item fit f.there).name in
    let room : has_room old.name name ≡ true = ground (arith, width, short) in
    let new = fill_dirent old inum name in
    let es = entered entries n inum name in
    (
      rewritten s dir es,
      es,
      add_dirent-done s entries dir inum n name ok free room,
      read_dirents-rewritten s dir es ok (length-set entries n new ∙ whole)
          (AllFit-set entries n new fit (fill_dirent-fits old inum name small width room)),
      get_dirent_index-entered entries n inum name clean free absent,
      λ i.
          inode_at-set entries n i new (get_elem?-lt entries n f.there)
          ∙ ap (λ k. if i == n then k else inode_at entries i) (inode-fill_dirent old inum name),
    )
