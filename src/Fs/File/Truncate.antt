-- ===== src/Fs/File/Truncate.antt =====
-- fs_truncate: the inode is emptied, and exactly the file's blocks become free.
use systems_projects.Base.{
  ℕ, zero, suc, ◌*◌, ◌%◌, ◌^◌, ◌<◌, ◌≡◌, refl, Bool, false, not, ◌&&◌, ◌||◌, List, [], ◌∷◌, Bytes,
  arith, length, replicate, ◌==◌, Bool-cases, inl, inr, length-replicate, some, ◌≢◌,
}
use systems_projects.Fs.Layout.{block_size, num_ptrs_inode, Inode, encode_inode}
use systems_projects.Fs.Layout.RoundTrip.{InodeFits, AllWords}
use systems_projects.Fs.Bitmap
use systems_projects.Fs.Bitmap.Laws.{IsBitmap, is_clear, bit_clear-IsBitmap, is_clear-bit_clear}
use systems_projects.Fs.State.{Fs, Run, done, err, einval, free_blk, read_inode, block_read}
use systems_projects.Fs.State.Laws.{
  written, IsWritable, write_inode-done, read_inode-write_inode, block_read-written_ne,
}
use systems_projects.Fs.Walk.{is_dir}
use systems_projects.Fs.File.{free_all, cleared, fs_truncate}
use systems_projects.Fs.Walk.Resolve.{Resolves}

-- `j` is one of the nonzero pointers.
abbrev pub points_to : ℕ → List ℕ → Bool
points_to j [] = false
points_to j (p ∷ ps) = (not (p == 0) && (p == j)) || points_to j ps

-- Every pointer is a number that the bitmap covers.
abbrev pub AllCovered : List ℕ → Type 0
AllCovered [] = Prim.Unit {0}
AllCovered (p ∷ ps) = (p < block_size * 8) × AllCovered ps

pub cleared-replicate : (ps : List ℕ) → cleared ps ≡ replicate (length ps) 0
unfolding cleared
cleared-replicate [] = refl
cleared-replicate (p ∷ ps) = rw (cleared-replicate ps) (ground arith)

pub free_blk-done :
    (s : Fs) (p : ℕ)
    → p < block_size * 8
    → free_blk p s ≡ done tt (record s { bitmap = Bitmap.free_blk s.bitmap p })
unfolding free_blk
free_blk-done s p lt = ground arith

-- The outcome of freeing pointers: only the bitmap has changed, and in it just their bits.
pub record Frees (s : Fs) (ps : List ℕ) (r : Run (Unit {0})) : Type 0 where
  pub map : Bytes
  pub result : r ≡ done tt (record s { bitmap = map })
  pub valid : IsBitmap map
  pub bits : (j : ℕ) → is_clear map j ≡ (points_to j ps || is_clear s.bitmap j)

pub free_all-Frees :
    (s : Fs) (ps : List ℕ) → IsBitmap s.bitmap → AllCovered ps → Frees s ps (free_all ps s)
unfolding free_all
free_all-Frees s [] valid covered = record {
  map = s.bitmap;
  result = refl;
  valid = valid;
  bits = λ j. refl;
}
free_all-Frees s (p ∷ ps) valid covered = elim (Bool-cases (p == 0)) [
  | inl zero_ptr ↦
      let f = free_all-Frees s ps valid covered.1 in
      record {
        map = f.map;
        result = rw (zero_ptr, f.result);
        valid = f.valid;
        bits = λ j. ground (arith, f.bits j);
      }
  | inr used ↦
      let s' : Fs = record s { bitmap = Bitmap.free_blk s.bitmap p } in
      let f = free_all-Frees s' ps (freed_valid p) covered.1 in
      record {
        map = f.map;
        result = rw (used, free_blk-done s p covered.0, f.result);
        valid = f.valid;
        bits = λ j. ground (arith, f.bits j, freed_bits p covered.0 j);
      }
]
  where
    freed_valid : (p : ℕ) → IsBitmap (Bitmap.free_blk s.bitmap p)
    freed_valid p = unfold Bitmap.free_blk in bit_clear-IsBitmap valid p

    freed_bits :
        (p : ℕ)
        → p < block_size * 8
        → (j : ℕ) → is_clear (Bitmap.free_blk s.bitmap p) j ≡ ((p == j) || is_clear s.bitmap j)
    freed_bits p lt j = unfold Bitmap.free_blk in is_clear-bit_clear valid p lt j

AllWords-zero : (n : ℕ) → AllWords (replicate n 0)
AllWords-zero zero = tt
AllWords-zero (suc n) = (omega arith, AllWords-zero n)

-- The inode of an emptied file.
abbrev pub emptied : ℕ → Inode → Inode
emptied now i = record i { size = 0; mtime = now % 2 ^ 32; ptrs = replicate num_ptrs_inode 0 }

emptied-InodeFits : (now : ℕ) (i : Inode) → InodeFits i → InodeFits (emptied now i)
emptied-InodeFits now i f = record {
  uid = f.uid;
  gid = f.gid;
  mode = f.mode;
  ctime = f.ctime;
  mtime = omega arith;
  size = omega arith;
  ptrs = AllWords-zero num_ptrs_inode;
  width = length-replicate {A = ℕ} num_ptrs_inode 0;
}

-- What a truncation to 0 leaves behind.
pub record Truncated (now inum : ℕ) (i : Inode) (s s' : Fs) : Type 0 where
  pub holds : read_inode inum s' ≡ done (emptied now i) s'
  pub valid : IsBitmap s'.bitmap
  pub bits : (j : ℕ) → is_clear s'.bitmap j ≡ (points_to j i.ptrs || is_clear s.bitmap j)
  pub others :
      (lba : ℕ) {c : Bytes}
      → inum ≢ lba
      → block_read lba s.disk ≡ some c
      → block_read lba s'.disk ≡ some c

-- fs_truncate to length 0, at a path that leads to an inode that is no directory, empties the inode
-- and frees exactly the blocks that it pointed to; every other block of the image stays as it was.
-- The bitmap has 4096 bytes, it covers the pointers, the inode can be written to its block, and its
-- values fit their fields.
pub fs_truncate-Truncated :
    (now : ℕ) (s : Fs) (path : Bytes) (inum : ℕ) (i : Inode)
    → Resolves s path inum i
    → is_dir i.mode ≡ false
    → IsBitmap s.bitmap
    → IsWritable inum
    → InodeFits i
    → AllCovered i.ptrs
    → (s' : Fs) × (fs_truncate now path 0 s ≡ done tt s') × Truncated now inum i s s'
unfolding fs_truncate
fs_truncate-Truncated now s path inum i at file valid ok fits covered =
    let f = free_all-Frees s i.ptrs valid covered in
    let s₁ : Fs = record s { bitmap = f.map } in
    let s₂ : Fs = record s₁ { disk = written s.disk inum (encode_inode (emptied now i)) } in
    (
      s₂,
      rw (
        at.walked,
        at.holds,
        file,
        f.result,
        cleared-replicate i.ptrs,
        fits.width,
        write_inode-done s₁ (emptied now i) inum ok,
      ),
      record {
        holds = read_inode-write_inode s₁ (emptied now i) inum ok (emptied-InodeFits now i fits);
        valid = f.valid;
        bits = f.bits;
        others = λ lba {c} ne e.
            block_read-written_ne s.disk inum (encode_inode (emptied now i)) ok lba ne e;
      },
    )

-- Any other length is turned down before the path is looked at.
pub fs_truncate_length :
    (now : ℕ) (s : Fs) (path : Bytes) (len : ℕ)
    → 0 < len
    → fs_truncate now path len s ≡ err einval s
unfolding fs_truncate
fs_truncate_length now s path len h = ground arith
