-- ===== src/Fs/Tree.antt =====
-- The calls of fs5600.c that change directories: fs_create, fs_mkdir, fs_unlink, fs_rmdir and
-- fs_rename.
pub mod Laws
use Prim.Native.Nat.{bit_or}
use systems_projects.Base.{
  c_string, strcpy, ◌||◌, ℕ, ◌%◌, ◌^◌, Bool, false, not, Option, none, some, List, [], ◌∷◌, Bytes,
  ◌==◌, if◌then◌else◌, str_eq, get_or, set, replicate,
}
use systems_projects.Fs.Layout.{num_ptrs_inode, Inode, Dirent}
use systems_projects.Fs.State.{
  ◌>>=◌, ◌>>◌, Cmd, enoent, enotdir, eisdir, eexist, einval, enotempty, pure, fail, abort, check,
  attempt, must, read_inode, write_inode, read_dirents, write_dirents, alloc_blk, free_blk,
}
use systems_projects.Fs.Path.{get_last_filename, get_parent_path}
use systems_projects.Fs.Walk.{is_dir, path_to_inum, get_dirent_index, add_dirent, no_entry}
use systems_projects.Fs.File.{free_all}

-- What the calls take from their surroundings: the clock, the caller, and what stands on the stack
-- where fs_mkdir lays out a directory without giving its names a value.
pub record Env : Type 0 where
  pub now : ℕ
  pub uid : ℕ
  pub gid : ℕ
  pub stack : List Dirent

abbrev pub s_ifreg : ℕ
s_ifreg = 0x8000

abbrev pub s_ifdir : ℕ
s_ifdir = 0x4000

-- `n > 0` for the result of path_to_inum.
abbrev pub is_positive : Option ℕ → Bool
is_positive none = false
is_positive (some n) = not (n == 0)

-- `if (dir_inum < 0) return -ENOENT;`
abbrev pub or_enoent : {A : Type 0} → Option A → Cmd A
or_enoent none = fail enoent
or_enoent (some a) = pure a

-- A buffer that the call before was to fill.
abbrev pub filled : {A : Type 0} → Option A → Cmd A
filled none = abort
filled (some a) = pure a

-- The first part of fs_create and fs_mkdir: the directory's inode and the new name.
unfoldable pub place_for : Bytes → Cmd (Inode × Bytes)
place_for path = do
  n ← attempt (path_to_inum path)
  check (is_positive n) eexist
  dir_path ← get_parent_path 280 path
  found ← attempt (path_to_inum dir_path)
  dir_inum ← or_enoent found
  dir ← read_inode dir_inum
  check (not (is_dir dir.mode)) enotdir
  name ← get_last_filename path
  pure (dir, name)

-- `FS_BLOCK_SIZE/4 - 5` pointers, all 0.
abbrev pub no_ptrs : List ℕ
no_ptrs = replicate num_ptrs_inode 0

abbrev pub new_inode : Env → ℕ → List ℕ → Inode
new_inode env mode ptrs = record {
  uid = env.uid % 2 ^ 16;
  gid = env.gid % 2 ^ 16;
  mode = mode;
  ctime = env.now % 2 ^ 32;
  mtime = env.now % 2 ^ 32;
  size = 0;
  ptrs = ptrs;
}

-- The last part: the new entry in the directory. The result of add_dirent is dropped.
unfoldable pub enter : Inode → ℕ → Bytes → Cmd (Unit {0})
enter dir inum name = do
  entries ← read_dirents (get_or dir.ptrs 0 0)
  added ← attempt (add_dirent entries (get_or dir.ptrs 0 0) inum name)
  pure tt

unfoldable pub fs_create : Env → Bytes → ℕ → Cmd (Unit {0})
fs_create env path mode = do
  (dir, name) ← place_for path
  inum ← alloc_blk
  write_inode (new_inode env (bit_or mode s_ifreg) no_ptrs) inum
  enter dir inum name

-- `new_dir_entries[i].valid = 0`, for every entry.
unfoldable pub all_invalid : List Dirent → List Dirent
all_invalid [] = []
all_invalid (e ∷ es) = record e { valid = 0 } ∷ all_invalid es

unfoldable pub fs_mkdir : Env → Bytes → ℕ → Cmd (Unit {0})
fs_mkdir env path mode = do
  (dir, name) ← place_for path
  inum ← alloc_blk
  entries ← alloc_blk
  write_inode (new_inode env (bit_or mode s_ifdir) (set no_ptrs 0 entries)) inum
  enter dir inum name
  write_dirents (all_invalid env.stack) entries

-- `entries[entry_index].valid = 0`; at -ENOENT the index is out of bounds.
unfoldable pub drop_entry : List Dirent → Bytes → Cmd (List Dirent)
drop_entry entries name = elim (get_dirent_index entries name) [
  | none ↦ abort
  | some i ↦ pure (set entries i (record (get_or entries i no_entry) { valid = 0 }))
]

unfoldable pub fs_unlink : Env → Bytes → Cmd (Unit {0})
fs_unlink env path = do
  inum ← path_to_inum path
  file ← read_inode inum
  check (is_dir file.mode) eisdir
  free_blk inum
  free_all file.ptrs
  dir_path ← get_parent_path 270 path
  named ← attempt (get_last_filename path)
  dir_inum ← must (path_to_inum dir_path)
  read ← read_inode dir_inum
  let dir : Inode = record read { mtime = env.now % 2 ^ 32 }
  write_inode dir dir_inum
  entries ← read_dirents (get_or dir.ptrs 0 0)
  name ← filled named
  entries' ← drop_entry entries name
  write_dirents entries' (get_or dir.ptrs 0 0)

unfoldable pub any_valid : List Dirent → Bool
any_valid [] = false
any_valid (e ∷ es) = not (e.valid == 0) || any_valid es

unfoldable pub fs_rmdir : Env → Bytes → Cmd (Unit {0})
fs_rmdir env path = do
  inum ← path_to_inum path
  file ← read_inode inum
  check (not (is_dir file.mode)) enotdir
  inside ← read_dirents (get_or file.ptrs 0 0)
  check (any_valid inside) enotempty
  free_blk inum
  free_blk (get_or file.ptrs 0 0)
  dir_path ← get_parent_path 270 path
  named ← attempt (get_last_filename path)
  dir_inum ← must (path_to_inum dir_path)
  read ← read_inode dir_inum
  let dir : Inode = record read { mtime = env.now % 2 ^ 32 }
  entries ← read_dirents (get_or dir.ptrs 0 0)
  name ← filled named
  entries' ← drop_entry entries name
  write_dirents entries' (get_or dir.ptrs 0 0)
  write_inode dir dir_inum

-- The loop of fs_rename: the first entry of that name, valid or not. The new name is one that
-- get_last_filename gave, of 26 characters at most, and fits the array.
unfoldable pub rename_entry : List Dirent → Bytes → Bytes → List Dirent
rename_entry [] src dst = []
rename_entry (e ∷ es) src dst =
    if str_eq (c_string e.name) src
    then record e { name = strcpy e.name dst } ∷ es
    else e ∷ rename_entry es src dst

unfoldable pub fs_rename : Bytes → Bytes → Cmd (Unit {0})
fs_rename src_path dst_path = do
  found ← attempt (path_to_inum src_path)
  src_inum ← or_enoent found
  src_named ← attempt (get_last_filename src_path)
  src_dir ← get_parent_path 280 src_path
  dst_inum ← attempt (path_to_inum dst_path)
  check (is_positive dst_inum) eexist
  dst_named ← attempt (get_last_filename dst_path)
  dst_dir ← get_parent_path 280 dst_path
  check (not (str_eq src_dir dst_dir)) einval
  dir_inum ← must (path_to_inum src_dir)
  dir ← read_inode dir_inum
  if is_dir dir.mode then pure tt else abort
  entries ← read_dirents (get_or dir.ptrs 0 0)
  src ← filled src_named
  dst ← filled dst_named
  write_dirents (rename_entry entries src dst) (get_or dir.ptrs 0 0)
