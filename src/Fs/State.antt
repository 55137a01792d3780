-- ===== src/Fs/State.antt =====
-- What the file system keeps, and the block access of misc.c (lab5-TheCarton-main).
-- `fault` is an abort, or behaviour that C leaves undefined. A value that an operation returns is
-- `done`; an error code below 0 is `err`. `block_read` and `block_write` are only ever called for
-- one block.
pub mod Laws
use systems_projects.Base.{
  ℕ, suc, ◌+◌, ◌-◌, ◌*◌, ◌^◌, Bool, Option, none, some, List, ◌++◌, Bytes, ◌==◌, ltb, if◌then◌else◌,
  get_elem?, set, length, replicate,
}
use systems_projects.Fs.Layout.{
  Block, block_size, Inode, Dirent, decode_inode, encode_inode, decode_dirents, encode_dirents,
}
use systems_projects.Fs.Bitmap

-- The error numbers that the functions return, each with a minus sign.
pub data Errno : Type 0 where
  enoent enotdir eisdir eexist einval enospc enotempty : Errno

pub record Fs : Type 0 where
  pub num_blocks : ℕ
  pub bitmap : Bytes
  pub disk : List Block

pub data Run (A : Type 0) : Type 0 where
  done : A → Fs → Run A
  err : Errno → Fs → Run A
  fault : Run A

abbrev pub Cmd : Type 0 → Type 0
Cmd A = Fs → Run A

abbrev pub pure : {A : Type 0} → A → Cmd A
pure = done

abbrev pub fail : {A : Type 0} → Errno → Cmd A
fail = err

abbrev pub abort : {A : Type 0} → Cmd A
abort _ = fault

abbrev pub check : Bool → Errno → Cmd (Unit {0})
check b e = if b then fail e else pure tt

module _ {A B : Type 0} where
  abbrev pub and_then : Run A → (A → Cmd B) → Run B
  and_then (done a s) k = k a s
  and_then (err e s) k = err e s
  and_then fault k = fault

  infixl 5 ◌>>=◌ ◌>>◌
  abbrev pub ◌>>=◌ : Cmd A → (A → Cmd B) → Cmd B
  m >>= k = λ s. and_then (m s) k

  abbrev pub ◌>>◌ : Cmd A → Cmd B → Cmd B
  m >> n = m >>= λ _. n

-- A call whose error code is looked at and then dropped.
abbrev pub attempted : {A : Type 0} → Run A → Run (Option A)
attempted (done a s) = done (some a) s
attempted (err e s) = done none s
attempted fault = fault

abbrev pub attempt : {A : Type 0} → Cmd A → Cmd (Option A)
attempt m s = attempted (m s)

-- `lba * FS_BLOCK_SIZE` and the end of the block fit an `int`.
abbrev pub in_reach : ℕ → Bool
in_reach lba = ltb (lba + 1) (2 ^ 19)

-- `none` is -EIO: `lseek` or `read` fails.
unfoldable pub block_read : ℕ → List Block → Option Block
block_read lba disk = if in_reach lba then get_elem? disk lba else none

-- A write behind the end of the image extends the file.
abbrev pub extended : List Block → ℕ → List Block
extended disk n = disk ++ replicate (n - length disk) (replicate block_size 0)

-- `none` is the failed `assert(lba > 0)`, or an offset that overflows.
unfoldable pub block_write : Block → ℕ → List Block → Option (List Block)
block_write buf lba disk =
    if lba == 0
    then none
    else if in_reach lba
    then some (set (extended disk (suc lba)) lba buf)
    else none

-- A read whose result is not checked: after -EIO the caller goes on with an uninitialised buffer.
unfoldable pub load : ℕ → Cmd Block
load lba s = elim (block_read lba s.disk) [ none ↦ fault | some b ↦ done b s ]

unfoldable pub store : Block → ℕ → Cmd (Unit {0})
store b lba s = elim (block_write b lba s.disk) [
  | none ↦ fault
  | some d ↦ done tt (record s { disk = d })
]

unfoldable pub read_inode : ℕ → Cmd Inode
read_inode inum = do b ← load inum; pure (decode_inode b)

unfoldable pub write_inode : Inode → ℕ → Cmd (Unit {0})
write_inode i = store (encode_inode i)

unfoldable pub read_dirents : ℕ → Cmd (List Dirent)
read_dirents lba = do b ← load lba; pure (decode_dirents b)

unfoldable pub write_dirents : List Dirent → ℕ → Cmd (Unit {0})
write_dirents es = store (encode_dirents es)

-- alloc_blk on the global bitmap. No caller looks at -ENOSPC: as a block number it is negative, so
-- the `assert` of the next block_write fails.
unfoldable pub alloc_blk : Cmd ℕ
alloc_blk s = elim (Bitmap.alloc_blk s.bitmap) [
  | none ↦ fault
  | some (id, map) ↦ done id (record s { bitmap = map })
]

-- A number behind the bitmap would be a write out of its bounds.
unfoldable pub free_blk : ℕ → Cmd (Unit {0})
free_blk i s =
    if ltb i (block_size * 8)
    then done tt (record s { bitmap = Bitmap.free_blk s.bitmap i })
    else fault

-- An error code that is used as a block number: the block access that follows cannot succeed, and
-- what it was to read is not initialised.
abbrev pub certain : {A : Type 0} → Run A → Run A
certain (done a s) = done a s
certain (err e s) = fault
certain fault = fault

abbrev pub must : {A : Type 0} → Cmd A → Cmd A
must m s = certain (m s)
