-- ===== src/Fs/Attr/Laws.antt =====
-- fs_statfs counts, and fs_utime as fs_getattr shows it.
use systems_projects.Base.{
  ℕ, zero, suc, ◌+◌, ◌*◌, ◌^◌, ◌<◌, ◌≤◌, ◌≡◌, ◌≢◌, refl, Option, none, some, Bytes, arith,
}
use systems_projects.Fs.Layout.{block_size, Inode, encode_inode}
use systems_projects.Fs.Layout.RoundTrip.{InodeFits}
use systems_projects.Fs.Bitmap.{bit_set}
use systems_projects.Fs.Bitmap.Laws.{IsBitmap, is_clear-bit_set}
use systems_projects.Fs.State.{Fs, done, read_inode, block_read}
use systems_projects.Fs.State.Laws.{
  written, IsWritable, write_inode-done, read_inode-write_inode, block_read-written_ne,
}
use systems_projects.Fs.Attr.{used_from, fs_statfs, fs_utime, new_mtime}
use systems_projects.Fs.Walk.Resolve.{Resolves}

used_from-le : (map : Bytes) (n i : ℕ) → used_from map n i ≤ n
unfolding used_from
used_from-le map zero i = omega arith
used_from-le map (suc n) i = ground (arith, used_from-le map n (suc i))

used_from-bit_set :
    (map : Bytes) (b : ℕ)
    → IsBitmap map
    → b < block_size * 8
    → (n i : ℕ) → i + n ≤ b
    → used_from (bit_set map b) n i ≡ used_from map n i
unfolding used_from
used_from-bit_set map b valid lt zero i h = refl
used_from-bit_set map b valid lt (suc n) i h =
    ground (arith, is_clear-bit_set valid b lt i, used_from-bit_set map b valid lt n (suc i))

-- The free blocks that fs_statfs reports are all blocks less those among the first 4096 whose bit
-- is set, and it reports as many available ones, if there are at least that many blocks and fewer
-- than 2 ^ 64.
pub fs_statfs-bfree :
    (s : Fs)
    → used_from s.bitmap block_size 0 ≤ s.num_blocks
    → s.num_blocks < 2 ^ 64
    → ((fs_statfs s).bfree + used_from s.bitmap block_size 0 ≡ (fs_statfs s).blocks)
      × ((fs_statfs s).bavail ≡ (fs_statfs s).bfree)
unfolding fs_statfs
fs_statfs-bfree s h small = let le = used_from-le s.bitmap block_size 0 in (omega (arith, le), refl)

-- fs_statfs does not see the blocks from 4096 on: setting the bit of one, in a bitmap of 4096
-- bytes, leaves the report as it was.
pub fs_statfs_high :
    (s : Fs) (b : ℕ)
    → IsBitmap s.bitmap
    → block_size ≤ b
    → b < block_size * 8
    → fs_statfs (record s { bitmap = bit_set s.bitmap b }) ≡ fs_statfs s
unfolding fs_statfs
fs_statfs_high s b valid high lt =
    rw (used_from-bit_set s.bitmap b valid lt block_size 0 (omega arith))

-- The inode with its new time.
abbrev pub touched : Inode → ℕ → Inode
touched i t = record i { mtime = t }

-- fs_utime, at a path that leads to an inode, sets its modification time, to the clock's or to the
-- one it is given, cut to 32 bits; the inode is otherwise as it was, and so are every other block
-- and the bitmap. The inode can be written to its block, and its values fit their fields.
pub fs_utime-read_inode :
    (now : ℕ) (s : Fs) (path : Bytes) (ut : Option ℕ) (inum : ℕ) (i : Inode)
    → Resolves s path inum i
    → IsWritable inum
    → InodeFits i
    → (s' : Fs) × (fs_utime now path ut s ≡ done tt s')
      × (read_inode inum s' ≡ done (touched i (new_mtime now ut)) s')
      × (s'.bitmap ≡ s.bitmap)
      × ((lba : ℕ) (c : Bytes)
          → inum ≢ lba
          → block_read lba s.disk ≡ some c
          → block_read lba s'.disk ≡ some c)
unfolding fs_utime
fs_utime-read_inode now s path ut inum i at ok fits =
    let i' = touched i (new_mtime now ut) in
    (
      record s { disk = written s.disk inum (encode_inode i') },
      rw (at.walked, at.holds, write_inode-done s i' inum ok),
      read_inode-write_inode s i' inum ok (touched_fits ut),
      refl,
      λ lba c ne e. block_read-written_ne s.disk inum (encode_inode i') ok lba ne e,
    )
  where
    touched_fits : (ut : Option ℕ) → InodeFits (touched i (new_mtime now ut))
    touched_fits none = record {
      uid = fits.uid;
      gid = fits.gid;
      mode = fits.mode;
      ctime = fits.ctime;
      mtime = omega arith;
      size = fits.size;
      ptrs = fits.ptrs;
      width = fits.width;
    }
    touched_fits (some t) = record {
      uid = fits.uid;
      gid = fits.gid;
      mode = fits.mode;
      ctime = fits.ctime;
      mtime = omega arith;
      size = fits.size;
      ptrs = fits.ptrs;
      width = fits.width;
    }
