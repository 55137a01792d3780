-- ===== src/Fs/File/Read.antt =====
-- fs_read returns the bytes of the file.
use systems_projects.Base.{
  ℕ, zero, suc, ◌+◌, ◌-◌, ◌%◌, ◌/◌, ◌*◌, ◌<◌, ◌≤◌, ◌≡◌, ap, ◌∙◌, Option, none, some, List, [],
  Bytes, arith, get_or, length, take, drop, ltb, leb, if◌then◌else◌, ◌==◌, true, false, Bool-cases,
  inl, inr, min,
}
use systems_projects.Fs.Layout.{num_ptrs_inode, Inode, Block}
use systems_projects.Fs.State.{Fs, done, err, eisdir, block_read}
use systems_projects.Fs.State.Laws.{load-done}
use systems_projects.Fs.Walk.Resolve.{Resolves}
use systems_projects.Fs.Walk.{is_dir}
use systems_projects.Fs.File.{chunk_len, ptr_at, read_loop, clipped, fs_read}
use systems_projects.Fs.File.Chunk.{
  chunk_len-ChunkFits, bytes_from, bytes_from_congr, bytes_from-append, take-drop_bytes,
}

-- The block that a file's pointer at `index` leads to, and the byte of the file at `o`.
abbrev pub block_of : List Block → Inode → ℕ → Option Block
block_of disk i index = block_read (get_or i.ptrs index 0) disk

abbrev pub or_empty : Option Block → Block
or_empty none = []
or_empty (some b) = b

unfoldable pub file_byte : List Block → Inode → ℕ → ℕ
file_byte disk i o = get_or (or_empty (block_of disk i (o / 4096))) (o % 4096) 0

-- Every index up to the block of byte `end - 1` has a pointer to a whole block of the image.
abbrev pub IsReadable : List Block → Inode → ℕ → Type 0
IsReadable disk i end =
    (index : ℕ)
    → index * 4096 < end
    → (index < num_ptrs_inode) × (b : Block) × (block_of disk i index ≡ some b) × (length b ≡ 4096)

-- One chunk is a range of the file.
chunk_bytes :
    (disk : List Block) (i : Inode) (offset n : ℕ) (b : Block)
    → block_of disk i (offset / 4096) ≡ some b
    → length b ≡ 4096
    → offset % 4096 + n ≤ 4096
    → take n (drop (offset % 4096) b) ≡ bytes_from (file_byte disk i) offset n
unfolding file_byte
chunk_bytes disk i offset n b e whole inside =
    take-drop_bytes b (offset % 4096) n (omega arith)
    ∙ bytes_from_congr (λ k. get_or b k 0) (file_byte disk i) (offset % 4096) offset n
        (λ k lt.
          let same_block : (offset + k) / 4096 ≡ offset / 4096 = omega arith in
          let within : (offset + k) % 4096 ≡ offset % 4096 + k = omega arith in
          rw (same_block, within, e))

ptr_at-done :
    (s : Fs) (i : Inode) (index : ℕ)
    → index < num_ptrs_inode
    → ptr_at i index s ≡ done (get_or i.ptrs index 0) s
unfolding ptr_at
ptr_at-done s i index lt = ground arith

read_loop-bytes :
    (fuel : ℕ) (s : Fs) (i : Inode) (len moved offset left : ℕ)
    → moved + left ≡ len
    → left < fuel
    → IsReadable s.disk i (offset + left)
    → read_loop fuel i len moved offset s ≡ done (bytes_from (file_byte s.disk i) offset left) s
unfolding read_loop
read_loop-bytes zero s i len moved offset left e fuel ready = absurd (omega arith)
read_loop-bytes (suc f) s i len moved offset zero e fuel ready = ground arith
read_loop-bytes (suc f) s i len moved offset (suc left) e fuel ready =
    let n = chunk_len len moved offset in
    let fits = chunk_len-ChunkFits len moved offset (omega arith) in
    let (index_lt, b, at, whole) = ready (offset / 4096) (omega arith) in
    let rest : ℕ = suc left - n in
    let ih =
      read_loop-bytes f s i len (moved + n) (offset + n) rest (omega (arith, fits.left))
        (omega (arith, fits.positive)) (λ index lt. ready index (omega (arith, fits.left))) in
    rw
      (
        not_done,
        ptr_at-done s i (offset / 4096) index_lt,
        load-done s (get_or i.ptrs (offset / 4096) 0) at,
        ih,
        chunk_bytes s.disk i offset n b at whole fits.inside,
        bytes_from-append (file_byte s.disk i) offset n rest,
      )
      (let all : n + rest ≡ suc left = omega (arith, fits.left) in rw all)
  where
    not_done : (moved == len) ≡ false
    not_done = ground arith

-- If the path leads to an inode that is no directory, and every block up to its size is there,
-- fs_read returns the bytes of the file from `offset` on: as many as were asked for, or as there
-- are up to the end. It never runs out of rounds, and changes nothing.
pub fs_read-bytes :
    (s : Fs) (path : Bytes) (inum len offset : ℕ) (i : Inode)
    → Resolves s path inum i
    → is_dir i.mode ≡ false
    → IsReadable s.disk i i.size
    → fs_read path len offset s
      ≡ done (bytes_from (file_byte s.disk i) offset (min len (i.size - offset))) s
unfolding fs_read clipped
fs_read-bytes s path inum len offset i at file ready =
    rw (at.walked, at.holds, file)
      (elim (Bool-cases (leb i.size offset)) [
        | inl behind ↦ rw behind (let e : min len (i.size - offset) ≡ 0 = ground arith in rw e)
        | inr before ↦
            let n : ℕ = if ltb i.size (offset + len) then i.size - offset else len in
            let e : n ≡ min len (i.size - offset) = ground arith in
            let lt : offset < i.size = ground arith in
            rw before (
              read_loop-bytes (suc n) s i n 0 offset n (omega arith) (omega arith)
                (λ index h. ready index (omega arith))
              ∙ ap (λ (k : ℕ). done (bytes_from (file_byte s.disk i) offset k) s) e)
      ])

-- A directory is not read.
pub fs_read_dir :
    (s : Fs) (path : Bytes) (inum len offset : ℕ) (i : Inode)
    → Resolves s path inum i
    → is_dir i.mode ≡ true
    → fs_read path len offset s ≡ err eisdir s
unfolding fs_read
fs_read_dir s path inum len offset i at dir = rw (at.walked, at.holds, dir)
