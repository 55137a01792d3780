-- ===== src/Fs/File/Start.antt =====
-- fs_write of fs5600.c as a whole: the inode with its new size and time, then the loop.
use systems_projects.Base.{
  ℕ, suc, ◌+◌, ◌*◌, ◌/◌, ◌%◌, ◌^◌, ◌≤◌, ◌≡◌, ◌≢◌, refl, sym, ap, ◌∙◌, false, Bytes, arith, get_or,
  length, ltb, inl, inr,
}
use systems_projects.Fs.Layout.{num_ptrs_inode, block_size, Inode, encode_inode}
use systems_projects.Fs.Layout.RoundTrip.{length-encode_inode}
use systems_projects.Fs.State.{Fs, done}
use systems_projects.Fs.State.Laws.{
  written, write_inode-done, block_read-written, block_read-written_ne,
}
use systems_projects.Fs.Walk.{is_dir}
use systems_projects.Fs.Walk.Resolve.{Resolves}
use systems_projects.Fs.File.{grown, fs_write}
use systems_projects.Fs.File.Read.{or_empty, file_byte}
use systems_projects.Fs.File.Owned.{clear_below, IsWhole, ptr, IsOwner}
use systems_projects.Fs.File.Round.{whole_after}
use systems_projects.Fs.File.Write.{needed, needed_congr, Wrote}
use systems_projects.Fs.File.Patch.{GrownFits, grown-GrownFits}
use systems_projects.Fs.File.Loop.{write_loop-Wrote}

-- How many blocks `len` bytes at `offset` stretch over.
abbrev pub blocks_over : (offset len : ℕ) → ℕ
blocks_over offset len = (offset % 4096 + len + 4095) / 4096

-- fs_write first writes the inode with its new size and time.
module _ (n now : ℕ) (s : Fs) (i : Inode) (inum offset : ℕ) (buf : Bytes) (own : IsOwner n s i inum)
    (start : offset ≤ i.size) (cap : i.size + length buf ≤ num_ptrs_inode * block_size) where
  abbrev pub touched : Inode
  touched = record i { size = grown i.size (length buf) offset; mtime = now % 2 ^ 32 }

  abbrev pub dated : Fs
  dated = record s { disk = written s.disk inum (encode_inode touched) }

  pub grown_fits : GrownFits i.size (length buf) offset (grown i.size (length buf) offset)
  grown_fits = grown-GrownFits i.size (length buf) offset start

  whole : (lba : ℕ) → IsWhole s.disk lba → IsWhole dated.disk lba
  whole lba w =
      whole_after s.disk inum lba (encode_inode touched) own.ok
        (length-encode_inode touched own.fits.width) w

  dated-IsOwner : IsOwner n dated touched inum
  dated-IsOwner = record {
    valid = own.valid;
    fits = record {
      uid = own.fits.uid;
      gid = own.fits.gid;
      mode = own.fits.mode;
      ctime = own.fits.ctime;
      mtime = omega arith;
      size = elim grown_fits.either [
        | inl same ↦ omega (arith, same, own.fits.size)
        | inr longer ↦ omega (arith, longer, start, cap)
      ];
      ptrs = own.fits.ptrs;
      width = own.fits.width;
    };
    ok = own.ok;
    used = own.used;
    stored = block_read-written s.disk inum (encode_inode touched) own.ok;
    blocks = λ index some_block.
        let d = own.blocks index some_block in
        record { used = d.used; other = d.other; ok = d.ok; whole = whole (ptr i index) d.whole };
    apart = own.apart;
    free = λ lba lt clear. let f = own.free lba lt clear in (f.0, whole lba f.1);
    range = own.range;
  }

  -- The bytes of the file are where they were.
  pub dated_byte :
      (o : ℕ) → ptr i (o / 4096) ≢ 0 → file_byte dated.disk touched o ≡ file_byte s.disk i o
  unfolding file_byte
  dated_byte o some_block =
      let d = own.blocks (o / 4096) some_block in
      let (c, at, _) = d.whole in
      let kept =
        block_read-written_ne s.disk inum (encode_inode touched) own.ok (ptr i (o / 4096))
          (λ same. d.other (sym same)) at in
      ap (λ x. get_or (or_empty x) (o % 4096) 0) (kept ∙ sym at)

  pub fs_write-Wrote :
      (path : Bytes)
      → Resolves s path inum i
      → is_dir i.mode ≡ false
      → needed i (offset / 4096) (blocks_over offset (length buf)) ≤ clear_below s.bitmap n
      → (s' : Fs) × (i' : Inode) × (fs_write now path buf offset s ≡ done (length buf) s')
        × Wrote n dated s' touched i' inum offset (length buf) buf
  unfolding fs_write
  fs_write-Wrote path at file room =
      let len = length buf in
      let same : needed touched (offset / 4096) (blocks_over offset len)
          ≡ needed i (offset / 4096) (blocks_over offset len) =
        needed_congr i touched (offset / 4096) (blocks_over offset len) (λ j le. refl) in
      let (s', i', ran, w) =
        write_loop-Wrote (suc len) n dated touched inum len 0 offset len (blocks_over offset len)
          buf dated-IsOwner (omega arith) (omega arith) (omega (arith, start, cap)) refl
          (λ lt. omega arith) (omega (arith, same, room)) in
      let in_file : ltb i.size offset ≡ false = ground (arith, start) in
      let fits : ltb (num_ptrs_inode * block_size) (i.size + len) ≡ false = ground (arith, cap) in
      (
        s',
        i',
        rw (at.walked, at.holds, file, in_file, fits, write_inode-done s touched inum own.ok) ran,
        w,
      )
