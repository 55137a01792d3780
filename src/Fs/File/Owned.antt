-- ===== src/Fs/File/Owned.antt =====
-- What a file owns in fs5600.c: its inode block, its data blocks, and the blocks that are free.
use systems_projects.Base.{
  ℕ, zero, suc, ◌+◌, ◌<◌, ◌≤◌, ◌≡◌, ◌≢◌, refl, true, false, not, ◌&&◌, some, List, Bytes, arith,
  get_or, length, ◌==◌, if◌then◌else◌, Bool-cases, Option-cases, ltb, inl, inr,
}
use systems_projects.Fs.Layout.{Block, Inode, encode_inode}
use systems_projects.Fs.Layout.RoundTrip.{InodeFits}
use systems_projects.Fs.Bitmap
use systems_projects.Fs.Bitmap.Laws.{IsBitmap, is_clear}
use systems_projects.Fs.Bitmap.Alloc.{Allocated, alloc_blk-Allocated, alloc_blk-full_iff}
use systems_projects.Fs.State.{Fs, done, alloc_blk, block_read}
use systems_projects.Fs.State.Laws.{IsWritable}

-- How many of the first `n` bits are clear.
unfoldable pub clear_below : Bytes → ℕ → ℕ
clear_below map zero = 0
clear_below map (suc n) = (if is_clear map n then 1 else 0) + clear_below map n

clear_below-hit :
    (map : Bytes) (n : ℕ) → 0 < clear_below map n → (j : ℕ) × (j < n) × (is_clear map j ≡ true)
unfolding clear_below
clear_below-hit map zero h = absurd (omega (arith, h))
clear_below-hit map (suc n) h = elim (Bool-cases (is_clear map n)) [
  | inl hit ↦ (n, omega arith, hit)
  | inr miss ↦
      let (j, lt, hit) = clear_below-hit map n (ground (arith, h, miss)) in
      (j, omega (arith, lt), hit)
]

clear_below_congr :
    (map map' : Bytes) (n : ℕ)
    → ((j : ℕ) → j < n → is_clear map' j ≡ is_clear map j)
    → clear_below map' n ≡ clear_below map n
unfolding clear_below
clear_below_congr map map' zero h = refl
clear_below_congr map map' (suc n) h =
    rw (h n (omega arith), clear_below_congr map map' n (λ j lt. h j (omega (arith, lt)))) refl

-- Setting one bit takes at most one away.
pub clear_below-taken :
    (map map' : Bytes) (id n : ℕ)
    → ((j : ℕ) → is_clear map' j ≡ (not (id == j) && is_clear map j))
    → clear_below map n ≤ suc (clear_below map' n)
unfolding clear_below
clear_below-taken map map' id zero h = omega arith
clear_below-taken map map' id (suc n) h = elim (Bool-cases (id == n)) [
  | inl here ↦
      let same = clear_below_congr map map' n (λ j lt. ground (arith, h j, here, lt)) in
      ground (arith, same)
  | inr other ↦ ground (arith, h n, other, clear_below-taken map map' id n h)
]

-- A block of the image, with all its bytes.
abbrev pub IsWhole : List Block → ℕ → Type 0
IsWhole disk lba = (b : Block) × (block_read lba disk ≡ some b) × (length b ≡ 4096)

-- A block of the file's data.
pub record IsData (s : Fs) (inum lba : ℕ) : Type 0 where
  pub used : is_clear s.bitmap lba ≡ false
  pub other : lba ≢ inum
  pub ok : IsWritable lba
  pub whole : IsWhole s.disk lba

abbrev pub ptr : Inode → ℕ → ℕ
ptr i index = get_or i.ptrs index 0

-- The inode `i` stands in block `inum`, its blocks are in use, each for one index, and the first
-- `n` blocks whose bits are clear are there to be taken.
pub record IsOwner (n : ℕ) (s : Fs) (i : Inode) (inum : ℕ) : Type 0 where
  pub valid : IsBitmap s.bitmap
  pub fits : InodeFits i
  pub ok : IsWritable inum
  pub used : is_clear s.bitmap inum ≡ false
  pub stored : block_read inum s.disk ≡ some (encode_inode i)
  pub blocks : (index : ℕ) → ptr i index ≢ 0 → IsData s inum (ptr i index)
  pub apart : (a b : ℕ) → ptr i a ≢ 0 → ptr i a ≡ ptr i b → a ≡ b
  pub free :
      (lba : ℕ) → lba < n → is_clear s.bitmap lba ≡ true → IsWritable lba × IsWhole s.disk lba
  pub range : n ≤ 32768

below :
    {map : Bytes} (id j n : ℕ) (map' : Bytes)
    → Allocated map id map'
    → j < n
    → is_clear map j ≡ true
    → id < n
below id j n map' a lt hit = elim (Bool-cases (ltb j id)) [
  | inl before ↦ absurd (ground (arith, hit, a.lowest j (ground (arith, before))))
  | inr after ↦ ground (arith, lt, after)
]

-- alloc_blk finds a block as long as one of the first `n` is free, and it is one of those.
pub alloc_blk-done :
    (n : ℕ) (s : Fs)
    → IsBitmap s.bitmap
    → n ≤ 32768
    → 0 < clear_below s.bitmap n
    → (id : ℕ) × (map : Bytes) × (alloc_blk s ≡ done id (record s { bitmap = map }))
      × (id < n)
      × Allocated s.bitmap id map
unfolding alloc_blk
alloc_blk-done n s valid range some_left =
    let (j, lt, hit) = clear_below-hit s.bitmap n some_left in
    elim (Option-cases (Bitmap.alloc_blk s.bitmap)) [
      | inl full ↦
          absurd
            (ground (arith, hit, (alloc_blk-full_iff s.bitmap).0 full j (omega (arith, lt, range))))
      | inr ((id, map), e) ↦
          let a = alloc_blk-Allocated id valid e in
          (id, map, rw (alloc_blk, e) refl, below id j n map a lt hit, a)
    ]
