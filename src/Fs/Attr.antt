-- ===== src/Fs/Attr.antt =====
-- The calls of fs5600.c that read or change attributes: fs_init, fs_statfs, fs_getattr, fs_readdir,
-- fs_chmod and fs_utime.
pub mod Laws
use Prim.Native.Nat.{bit_and, bit_or}
use systems_projects.Base.{
  c_string, ℕ, zero, suc, ◌+◌, ◌-◌, ◌/◌, ◌%◌, ◌^◌, not, Option, none, some, List, [], ◌∷◌, Bytes,
  ◌==◌, if◌then◌else◌, get_or,
}
use systems_projects.Fs.Layout.{Block, block_size, fs_magic, Inode, Dirent, Super, decode_super}
use systems_projects.Fs.Bitmap.{bit_test}
use systems_projects.Fs.State.{
  ◌>>=◌, ◌>>◌, Fs, Cmd, enotdir, pure, check, block_read, read_inode, write_inode, read_dirents,
}
use systems_projects.Fs.Walk.{is_dir, path_to_inum}

-- `none` is `exit(1)`.
mount : Super → Option Block → List Block → Option Fs
mount sb none disk = none
mount sb (some map) disk =
    if sb.magic == fs_magic
    then some (record { num_blocks = sb.disk_size; bitmap = map; disk = disk })
    else none

init_from : Option Block → List Block → Option Fs
unfolding mount
init_from none disk = none
init_from (some b) disk = mount (decode_super b) (block_read 1 disk) disk

unfoldable pub fs_init : List Block → Option Fs
unfolding init_from
fs_init disk = init_from (block_read 0 disk) disk

pub record Statvfs : Type 0 where
  pub bsize : ℕ
  pub namemax : ℕ
  pub blocks : ℕ
  pub bfree : ℕ
  pub bavail : ℕ

-- The loop over `i < FS_BLOCK_SIZE`, with `left` rounds to go.
unfoldable pub used_from : Bytes → (left i : ℕ) → ℕ
used_from map zero i = 0
used_from map (suc left) i = (if bit_test map i == 0 then 0 else 1) + used_from map left (suc i)

-- `blocks_used` is a `uint16_t`, and the difference is of 64 bits.
unfoldable pub fs_statfs : Fs → Statvfs
fs_statfs s =
    let used = used_from s.bitmap block_size 0 % 2 ^ 16 in
    let free = (s.num_blocks + 2 ^ 64 - used) % 2 ^ 64 in
    record { bsize = block_size; namemax = 27; blocks = s.num_blocks; bfree = free; bavail = free }

pub record Stat : Type 0 where
  pub ino : ℕ
  pub mode : ℕ
  pub nlink : ℕ
  pub uid : ℕ
  pub gid : ℕ
  pub size : ℕ
  pub blksize : ℕ
  pub atime : ℕ
  pub mtime : ℕ
  pub ctime : ℕ

-- `DIV_ROUND_UP`
abbrev pub div_round_up : ℕ → ℕ → ℕ
div_round_up n m = (n + m - 1) / m

unfoldable pub inode_to_stat : Inode → ℕ → Stat
inode_to_stat i inum = record {
  ino = inum;
  mode = i.mode;
  nlink = 1;
  uid = i.uid;
  gid = i.gid;
  size = i.size;
  blksize = div_round_up i.size block_size;
  atime = i.mtime;
  mtime = i.mtime;
  ctime = i.ctime;
}

unfoldable pub fs_getattr : Bytes → Cmd Stat
fs_getattr path = do inum ← path_to_inum path; i ← read_inode inum; pure (inode_to_stat i inum)

-- What `filler` is called with, in order.
unfoldable pub fill_from : List Dirent → Cmd (List (Bytes × Stat))
fill_from [] = pure []
fill_from (e ∷ es) =
    let rest = fill_from es in
    if e.valid == 0 then rest else (do
      i ← read_inode e.inode
      more ← rest
      pure ((c_string e.name, inode_to_stat i e.inode) ∷ more))

unfoldable pub fs_readdir : Bytes → Cmd (List (Bytes × Stat))
fs_readdir path = do
  inum ← path_to_inum path
  dir ← read_inode inum
  check (not (is_dir dir.mode)) enotdir
  entries ← read_dirents (get_or dir.ptrs 0 0)
  fill_from entries

-- `mode | (prev_mode & S_IFMT)`
unfoldable pub with_type : ℕ → ℕ → ℕ
with_type mode prev = bit_or mode (bit_and prev 0xf000)

unfoldable pub fs_chmod : Bytes → ℕ → Cmd (Unit {0})
fs_chmod path mode = do
  inum ← path_to_inum path
  i ← read_inode inum
  write_inode (record i { mode = with_type mode i.mode }) inum

-- `now` is `time(NULL)`; a missing `ut` is `none`. The time is cut to 32 bits.
unfoldable pub new_mtime : ℕ → Option ℕ → ℕ
new_mtime now none = now % 2 ^ 32
new_mtime now (some modtime) = modtime % 2 ^ 32

unfoldable pub fs_utime : (now : ℕ) → Bytes → Option ℕ → Cmd (Unit {0})
unfolding new_mtime
fs_utime now path ut = do
  inum ← path_to_inum path
  i ← read_inode inum
  write_inode (record i { mtime = new_mtime now ut }) inum
