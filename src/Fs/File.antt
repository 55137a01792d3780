-- ===== src/Fs/File.antt =====
-- The contents of a file in fs5600.c: fs_read, fs_write and fs_truncate. Lengths and offsets are
-- below 2 ^ 63, so their sums do not wrap. A loop takes as fuel one round more than there are bytes:
-- every round moves at least one. At fuel 0 the result is `fault`.
pub mod Chunk
pub mod Owned
pub mod Round
pub mod Store
pub mod Write
pub mod Loop
pub mod Patch
pub mod Start
pub mod Trip
pub mod Read
pub mod Truncate
use systems_projects.Base.{
  ℕ, zero, suc, ◌+◌, ◌-◌, ◌*◌, ◌/◌, ◌%◌, ◌^◌, not, ◌&&◌, List, [], ◌∷◌, ◌++◌, Bytes, ◌==◌, ltb, leb,
  if◌then◌else◌, get_or, set, length, take, drop,
}
use systems_projects.Fs.Layout.{block_size, num_ptrs_inode, Inode}
use systems_projects.Fs.State.{
  ◌>>=◌, ◌>>◌, Cmd, eisdir, einval, enospc, pure, abort, check, load, store, read_inode,
  write_inode, alloc_blk, free_blk,
}
use systems_projects.Fs.Walk.{is_dir, path_to_inum}

-- `norm_len`: what one round moves, of `len` bytes of which `moved` are done, at `offset`.
unfoldable pub chunk_len : (len moved offset : ℕ) → ℕ
chunk_len len moved offset =
    let within = offset % block_size in
    let fit = if ltb block_size (within + len) then block_size - within else len in
    if ltb len (moved + fit) then len - moved else fit

-- `inode.ptrs[index]`, which is out of bounds from `NUM_PTRS_INODE` on.
unfoldable pub ptr_at : Inode → ℕ → Cmd ℕ
ptr_at i index = if ltb index num_ptrs_inode then pure (get_or i.ptrs index 0) else abort

-- The `while` of fs_read: what it puts into `buf` from here on.
unfoldable pub read_loop : (fuel : ℕ) → Inode → (len moved offset : ℕ) → Cmd Bytes
read_loop zero i len moved offset = abort
read_loop (suc fuel) i len moved offset =
    let n = chunk_len len moved offset in
    let more = (do
      p ← ptr_at i (offset / block_size)
      b ← load p
      rest ← read_loop fuel i len (moved + n) (offset + n)
      pure (take n (drop (offset % block_size) b) ++ rest)) in
    if moved == len then pure [] else more

-- `len` after it has been cut at the end of the file.
unfoldable pub clipped : (len offset size : ℕ) → ℕ
clipped len offset size = if ltb size (offset + len) then size - offset else len

-- What stands in `buf`; its length is the result.
unfoldable pub fs_read : Bytes → (len offset : ℕ) → Cmd Bytes
fs_read path len offset = do
  inum ← path_to_inum path
  i ← read_inode inum
  check (is_dir i.mode) eisdir
  if leb i.size offset
      then pure []
      else (let n = clipped len offset i.size in read_loop (suc n) i n 0 offset)

-- `memcpy` of a chunk into the block.
unfoldable pub overlay : Bytes → ℕ → Bytes → Bytes
overlay b at chunk = take at b ++ (chunk ++ drop (at + length chunk) b)

-- A block for the index if there is none yet, with the inode that then has it.
unfoldable pub ensure_block : Inode → (inum index : ℕ) → Cmd Inode
ensure_block i inum index = do
  p ← ptr_at i index
  if p == 0
      then (do
        new_blk ← alloc_blk
        let i' : Inode = record i { ptrs = set i.ptrs index new_blk }
        write_inode i' inum
        pure i')
      else pure i

-- The `while` of fs_write; `buf` is what is left to write. The result is `wrote_len`.
unfoldable pub write_loop : (fuel : ℕ) → Inode → (inum len wrote offset : ℕ) → Bytes → Cmd ℕ
write_loop zero i inum len wrote offset buf = abort
write_loop (suc fuel) i inum len wrote offset buf =
    let n = chunk_len len wrote offset in
    let index = offset / block_size in
    let more = (do
      i' ← ensure_block i inum index
      p ← ptr_at i' index
      b ← load p
      store (overlay b (offset % block_size) (take n buf)) p
      write_loop fuel i' inum len (wrote + n) (offset + n) (drop n buf)) in
    if wrote == len then pure wrote else more

-- The size after `len` bytes have been written at `offset`.
unfoldable pub grown : (size len offset : ℕ) → ℕ
grown size len offset =
    if offset == size
    then size + len
    else if ltb size (offset + len) && ltb offset size
    then size + (len - (size - offset))
    else size

unfoldable pub fs_write : (now : ℕ) → Bytes → Bytes → ℕ → Cmd ℕ
fs_write now path buf offset = do
  let len : ℕ = length buf
  inum ← path_to_inum path
  i ← read_inode inum
  check (is_dir i.mode) eisdir
  check (ltb i.size offset) einval
  check (ltb (num_ptrs_inode * block_size) (i.size + len)) enospc
  let i' : Inode = record i { size = grown i.size len offset; mtime = now % 2 ^ 32 }
  write_inode i' inum
  write_loop (suc len) i' inum len 0 offset buf

-- `if (ptrs[i] != 0) free_blk(ptrs[i]);` for every pointer.
unfoldable pub free_all : List ℕ → Cmd (Unit {0})
free_all [] = pure tt
free_all (p ∷ ps) = do if p == 0 then pure tt else free_blk p; free_all ps

-- The loop of fs_truncate leaves every pointer 0.
unfoldable pub cleared : List ℕ → List ℕ
cleared [] = []
cleared (p ∷ ps) = (if p == 0 then p else 0) ∷ cleared ps

unfoldable pub fs_truncate : (now : ℕ) → Bytes → ℕ → Cmd (Unit {0})
fs_truncate now path len = do
  check (not (len == 0)) einval
  inum ← path_to_inum path
  i ← read_inode inum
  check (is_dir i.mode) eisdir
  free_all i.ptrs
  write_inode (record i { size = 0; mtime = now % 2 ^ 32; ptrs = cleared i.ptrs }) inum
