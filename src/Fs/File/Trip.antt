-- ===== src/Fs/File/Trip.antt =====
-- fs_read after fs_write, of fs5600.c.
use mathlib.Core.Path.{subst}
use systems_projects.Base.{
  ℕ, ◌+◌, ◌-◌, ◌*◌, ◌/◌, ◌<◌, ◌≤◌, ◌≡◌, ◌≢◌, sym, ap, ◌∙◌, false, ◌++◌, Bytes, arith, length, take,
  drop, ltb, Bool-cases, inl, inr, min,
}
use systems_projects.Fs.Layout.{num_ptrs_inode, block_size, Inode, encode_inode}
use systems_projects.Fs.Layout.RoundTrip.{decode_inode-encode_inode}
use systems_projects.Fs.Bitmap.Laws.{is_clear}
use systems_projects.Fs.State.{Fs, done}
use systems_projects.Fs.State.Laws.{read_inode-done, block_read-written_ne}
use systems_projects.Fs.Walk.{is_dir}
use systems_projects.Fs.Walk.Resolve.{Resolves}
use systems_projects.Fs.Walk.Way.{Leads, path_to_inum-Leads}
use systems_projects.Fs.File.{fs_read, fs_write}
use systems_projects.Fs.File.Chunk.{bytes_from}
use systems_projects.Fs.File.Read.{file_byte, IsReadable, fs_read-bytes}
use systems_projects.Fs.File.Owned.{clear_below, ptr, IsOwner}
use systems_projects.Fs.File.Write.{needed, Wrote}
use systems_projects.Fs.File.Patch.{GrownFits, patched}
use systems_projects.Fs.File.Start.{
  blocks_over, touched, dated, grown_fits, dated_byte, fs_write-Wrote,
}

-- Blocks that fs_write leaves alone: in use, but not by the file.
pub record IsElsewhere (s : Fs) (i : Inode) (inum lba : ℕ) : Type 0 where
  pub other : lba ≢ inum
  pub used : is_clear s.bitmap lba ≡ false
  pub apart : (index : ℕ) → ptr i index ≢ lba

-- Every index below the file's size has a block.
abbrev pub HasNoHoles : Inode → Type 0
HasNoHoles i = (index : ℕ) → index * 4096 < i.size → ptr i index ≢ 0

module _ (n now : ℕ) (s : Fs) (i : Inode) (path : Bytes) (inum offset : ℕ) (buf : Bytes)
    (own : IsOwner n s i inum) (dense : HasNoHoles i) (start : offset ≤ i.size)
    (cap : i.size + length buf ≤ num_ptrs_inode * block_size)
    (way : Leads (IsElsewhere s i inum) s path inum) (file : is_dir i.mode ≡ false) where
  old_IsReadable : IsReadable s.disk i i.size
  old_IsReadable index lt =
      let d = own.blocks index (dense index lt) in
      let (b, at, size) = d.whole in (omega (arith, cap, lt), b, at, size)

  old_Resolves : Resolves s path inum i
  old_Resolves =
      path_to_inum-Leads s (λ lba b kept e. e)
        (read_inode-done s inum own.stored
          ∙ ap (λ x. done x s) (decode_inode-encode_inode i own.fits))
        path way

  abbrev now_in : Inode
  now_in = touched n now s i inum offset buf own start cap

  abbrev s₀ : Fs
  s₀ = dated n now s i inum offset buf own start cap

  module _ (s' : Fs) (i' : Inode) (w : Wrote n s₀ s' now_in i' inum offset (length buf) buf) where
    size_fits : GrownFits i.size (length buf) offset i'.size
    size_fits =
        subst (GrownFits i.size (length buf) offset) (sym w.size)
          (grown_fits n now s i inum offset buf own start cap)

    new_block : (index : ℕ) → index * 4096 < i'.size → ptr i' index ≢ 0
    new_block index lt z = elim (Bool-cases (ltb (index * 4096) i.size)) [
      | inl inside ↦
          let some_block = dense index (ground (arith, inside)) in
          some_block (sym (w.held index some_block) ∙ z)
      | inr behind ↦
          let le : i.size ≤ index * 4096 = ground (arith, behind) in
          let k : ℕ = index * 4096 - offset in
          let k_lt : k < length buf = elim size_fits.either [
            | inl same ↦ absurd (omega (arith, same, lt, le))
            | inr longer ↦ omega (arith, longer, lt, le, start)
          ] in
          let at : (offset + k) / 4096 ≡ index = omega (arith, le, start) in
          w.there k k_lt (ap (ptr i') at ∙ z)
    ]

    new_IsReadable : IsReadable s'.disk i' i'.size
    new_IsReadable index lt =
        let (b, at, size) = (w.owner.blocks index (new_block index lt)).whole in
        let index_lt : index < num_ptrs_inode = elim size_fits.either [
          | inl same ↦ omega (arith, same, lt, cap)
          | inr longer ↦ omega (arith, longer, lt, cap, start)
        ] in
        (index_lt, b, at, size)

    new_Resolves : Resolves s' path inum i'
    new_Resolves =
        path_to_inum-Leads s'
          (λ lba b kept e. w.disk lba kept.other kept.used kept.apart (
            block_read-written_ne s.disk inum (encode_inode now_in) own.ok lba
              (λ same. kept.other (sym same)) e))
          (read_inode-done s' inum w.owner.stored
            ∙ ap (λ x. done x s') (decode_inode-encode_inode i' w.owner.fits))
          path way

    new_bytes :
        bytes_from (file_byte s'.disk i') 0 i'.size
        ≡ take offset (bytes_from (file_byte s.disk i) 0 i.size)
          ++ (buf ++ drop (offset + length buf) (bytes_from (file_byte s.disk i) 0 i.size))
    new_bytes =
        patched (file_byte s.disk i) (file_byte s'.disk i') offset i.size i'.size buf start
          size_fits w.bytes
          (λ o out lt.
            let some_block = dense (o / 4096) (omega (arith, lt)) in
            w.outside o out some_block
            ∙ dated_byte n now s i inum offset buf own start cap o some_block)

    new_read :
        fs_read path (i.size + length buf) 0 s'
        ≡ done (bytes_from (file_byte s'.disk i') 0 i'.size) s'
    new_read =
        let all : min (i.size + length buf) (i'.size - 0) ≡ i'.size = elim size_fits.either [
          | inl same ↦ omega (arith, same)
          | inr longer ↦ omega (arith, longer, start)
        ] in
        fs_read-bytes s' path inum (i.size + length buf) 0 i' new_Resolves (ap is_dir w.mode ∙ file)
          new_IsReadable
        ∙ ap (λ m. done (bytes_from (file_byte s'.disk i') 0 m) s') all

  -- If a path leads to a file through directories whose blocks are in use and not the file's, the
  -- file has a block for every index below its size, its blocks are whole, in use, each for one
  -- index, and there are enough free blocks for the indices that have none, then fs_write of bytes that start inside the file or at its end, and
  -- whose number with the size is no more than the greatest size of a file, writes them all; and
  -- fs_read of the whole file afterwards returns what it returned before, with the bytes in their
  -- place and all others kept. Neither runs out of rounds.
  pub fs_read-fs_write :
      needed i (offset / 4096) (blocks_over offset (length buf)) ≤ clear_below s.bitmap n
      → (old : Bytes) × (s' : Fs) × (fs_read path i.size 0 s ≡ done old s)
        × (fs_write now path buf offset s ≡ done (length buf) s')
        × (fs_read path (i.size + length buf) 0 s'
            ≡ done (take offset old ++ (buf ++ drop (offset + length buf) old)) s')
  fs_read-fs_write room =
      let (s', i', ran, w) =
        fs_write-Wrote n now s i inum offset buf own start cap path old_Resolves file room in
      let all : min i.size (i.size - 0) ≡ i.size = omega arith in
      (
        bytes_from (file_byte s.disk i) 0 i.size,
        s',
        fs_read-bytes s path inum i.size 0 i old_Resolves file old_IsReadable
            ∙ ap (λ m. done (bytes_from (file_byte s.disk i) 0 m) s) all,
        ran,
        new_read s' i' w ∙ ap (λ b. done b s') (new_bytes s' i' w),
      )
