-- ===== src/Fs/Walk.antt =====
-- Directories and the walk of path_to_inum in fs5600.c.
pub mod Laws
pub mod Resolve
pub mod Way
use Prim.Native.Nat.{bit_and}
use systems_projects.Base.{
  c_string, strcpy, has_room, ℕ, Bool, not, ◌&&◌, Option, none, some, List, [], ◌∷◌, Bytes, codes,
  ◌==◌, if◌then◌else◌, str_eq, first_from, get_or, set, take,
}
use systems_projects.Fs.Layout.{Inode, Dirent}
use systems_projects.Fs.State.{
  ◌>>◌, Cmd, enoent, enotdir, enospc, pure, fail, abort, check, ◌>>=◌, read_inode, read_dirents,
  write_dirents,
}
use systems_projects.Fs.Path.{tokens, copy_rows}

-- `S_ISDIR(mode)`
abbrev pub is_dir : ℕ → Bool
is_dir mode = bit_and mode 0xf000 == 0x4000

abbrev pub is_named : Bytes → Dirent → Bool
is_named filename e = not (e.valid == 0) && str_eq (c_string e.name) filename

-- The index of a valid entry of that name; `none` is -ENOENT.
unfoldable pub get_dirent_index : List Dirent → Bytes → Option ℕ
get_dirent_index entries filename = first_from (is_named filename) entries 0

abbrev pub no_entry : Dirent
no_entry = record { valid = 0; inode = 0; name = [] }

-- The loop over the path's names. `inode` has been read, and `inum` is the block it came from.
unfoldable pub walk : List Bytes → Inode → ℕ → Cmd ℕ
walk [] inode inum = pure inum
walk (name ∷ names) inode inum = do
  check (not (is_dir inode.mode)) enotdir
  entries ← read_dirents (get_or inode.ptrs 0 0)
  elim (get_dirent_index entries name) [
    | none ↦ fail enoent
    | some i ↦
        let inum' = (get_or entries i no_entry).inode in
        read_inode inum' >>= λ inode'. walk names inode' inum'
  ]

unfoldable pub path_to_inum : Bytes → Cmd ℕ
path_to_inum path = if str_eq path (codes "/") then pure 2 else do
  names ← copy_rows (take 10 (tokens path))
  root ← read_inode 2
  if is_dir root.mode then pure tt else abort
  walk names root (get_or root.ptrs 0 0)

-- The entry that add_dirent fills: the first that is not valid.
unfoldable pub free_dirent : List Dirent → Option ℕ
free_dirent entries = first_from (λ (e : Dirent). e.valid == 0) entries 0

unfoldable pub fill_dirent : Dirent → ℕ → Bytes → Dirent
fill_dirent e inum name = record { valid = 1; inode = inum; name = strcpy e.name name }

-- A name that does not fit the array of the entry would be written behind it.
unfoldable pub add_dirent : List Dirent → (dir_inum entry_inum : ℕ) → Bytes → Cmd (Unit {0})
add_dirent entries dir_inum entry_inum name = elim (free_dirent entries) [
  | none ↦ fail enospc
  | some i ↦
      let e = get_or entries i no_entry in
      let filled = write_dirents (set entries i (fill_dirent e entry_inum name)) dir_inum in
      if has_room e.name name then filled else abort
]
