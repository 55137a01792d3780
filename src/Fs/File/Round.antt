-- ===== src/Fs/File/Round.antt =====
-- One round of the loop of fs_write in fs5600.c: a block for the index, and the chunk put into it.
use mathlib.Core.Path.{subst}
use systems_projects.Base.{
  ℕ, zero, suc, ◌+◌, ◌^◌, ◌<◌, ◌≤◌, ◌≡◌, ◌≢◌, ◌⊎◌, refl, sym, ap, ◌∙◌, true, false, some, List, [],
  ◌∷◌, Bytes, arith, set, length, ◌==◌, ==_iff, if◌then◌else◌, Bool-cases, inl, inr,
  get_or-set_self, get_or-set_ne, length-set,
}
use systems_projects.Fs.Layout.{Block, num_ptrs_inode, Inode, encode_inode}
use systems_projects.Fs.Layout.RoundTrip.{AllWords, length-encode_inode}
use systems_projects.Fs.Bitmap.Laws.{is_clear}
use systems_projects.Fs.Bitmap.Alloc.{Allocated}
use systems_projects.Fs.State.{Fs, done, block_read}
use systems_projects.Fs.State.Laws.{
  IsWritable, written, write_inode-done, block_read-written, block_read-written_ne,
}
use systems_projects.Fs.File.{ptr_at, ensure_block}
use systems_projects.Fs.File.Owned.{
  clear_below, clear_below-taken, IsWhole, IsData, ptr, IsOwner, alloc_blk-done,
}

-- A write to a block keeps all others whole.
pub whole_after :
    (disk : List Block) (at lba : ℕ) (b : Block)
    → IsWritable at
    → length b ≡ 4096
    → IsWhole disk lba
    → IsWhole (written disk at b) lba
whole_after disk at lba b ok size (c, there, whole) = elim (Bool-cases (at == lba)) [
  | inl here ↦
      let e : at ≡ lba = (==_iff at lba).0 here in
      rw (sym e) (b, block_read-written disk at b ok, size)
  | inr other ↦ (
    c,
    block_read-written_ne disk at b ok lba (λ e. ground (arith, other, (==_iff at lba).1 e)) there,
    whole,
  )
]

AllWords-set : (ps : List ℕ) (index p : ℕ) → AllWords ps → p < 2 ^ 32 → AllWords (set ps index p)
AllWords-set [] index p h lt = tt
AllWords-set (q ∷ ps) zero p h lt = (lt, h.1)
AllWords-set (q ∷ ps) (suc index) p h lt = (h.0, AllWords-set ps index p h.1 lt)

-- What a round may take, and what it leaves as it was.
pub record Ensured (n : ℕ) (s s' : Fs) (i i' : Inode) (inum index : ℕ) : Type 0 where
  pub owner : IsOwner n s' i' inum
  pub there : ptr i' index ≢ 0
  pub others : (j : ℕ) → j ≢ index → ptr i' j ≡ ptr i j
  pub kept : ptr i index ≢ 0 → ptr i' index ≡ ptr i index
  pub fresh : ptr i index ≡ 0 → is_clear s.bitmap (ptr i' index) ≡ true
  pub used : (lba : ℕ) → is_clear s.bitmap lba ≡ false → is_clear s'.bitmap lba ≡ false
  pub size : i'.size ≡ i.size
  pub mode : i'.mode ≡ i.mode
  pub left : clear_below s.bitmap n ≤ (if ptr i index == 0 then 1 else 0) + clear_below s'.bitmap n
  pub disk :
      (lba : ℕ) {b : Block}
      → lba ≢ inum
      → block_read lba s.disk ≡ some b
      → block_read lba s'.disk ≡ some b

-- The inode with a block for the index.
abbrev pub with_ptr : Inode → ℕ → ℕ → Inode
with_ptr i index id = record i { ptrs = set i.ptrs index id }

-- A block that was free is given to an index that had none.
module _ (n : ℕ) (s : Fs) (i : Inode) (inum index id : ℕ) (map : Bytes) (own : IsOwner n s i inum)
    (lt : index < num_ptrs_inode) (absent : ptr i index ≡ 0) (below : id < n)
    (a : Allocated s.bitmap id map) where
  abbrev i' : Inode
  i' = with_ptr i index id

  abbrev s' : Fs
  s' = record s { bitmap = map; disk = written s.disk inum (encode_inode i') }

  ptr_self : ptr i' index ≡ id
  ptr_self = get_or-set_self i.ptrs index 0 id (omega (arith, lt, own.fits.width))

  ptr_ne : (j : ℕ) → j ≢ index → ptr i' j ≡ ptr i j
  ptr_ne j ne = get_or-set_ne i.ptrs index j 0 id (λ e. ne (sym e))

  still_used : (lba : ℕ) → is_clear s.bitmap lba ≡ false → is_clear map lba ≡ false
  still_used lba used = ground (arith, a.bits lba, used)

  whole : (lba : ℕ) → IsWhole s.disk lba → IsWhole s'.disk lba
  whole lba w =
      whole_after s.disk inum lba (encode_inode i') own.ok
        (length-encode_inode i' (length-set i.ptrs index id ∙ own.fits.width)) w

  given-IsData : IsData s' inum id
  given-IsData = record {
    used = ground (arith, a.bits id);
    other = λ e. ground (arith, a.was_clear, own.used, ap (is_clear s.bitmap) e);
    ok = (own.free id below a.was_clear).0;
    whole = whole id (own.free id below a.was_clear).1;
  }

  kept-IsData : (lba : ℕ) → IsData s inum lba → IsData s' inum lba
  kept-IsData lba d = record {
    used = still_used lba d.used;
    other = d.other;
    ok = d.ok;
    whole = whole lba d.whole;
  }

  -- No index had the block.
  new_block : (j : ℕ) → ptr i j ≢ id
  new_block j e =
      let d = own.blocks j (λ z. ground (arith, (own.free id below a.was_clear).0.0, e, z)) in
      ground (arith, a.was_clear, d.used, ap (is_clear s.bitmap) e)

  -- An index is the one that was served, or another.
  at_index : (j : ℕ) → ((j ≡ index) × (ptr i' j ≡ id)) ⊎ ((j ≢ index) × (ptr i' j ≡ ptr i j))
  at_index j = elim (Bool-cases (j == index)) [
    | inl here ↦ let e : j ≡ index = (==_iff j index).0 here in inl (e, ap (ptr i') e ∙ ptr_self)
    | inr other ↦
        let ne : j ≢ index = λ same. ground (arith, other, (==_iff j index).1 same) in
        inr (ne, ptr_ne j ne)
  ]

  blocks : (j : ℕ) → ptr i' j ≢ 0 → IsData s' inum (ptr i' j)
  blocks j some_block = elim (at_index j) [
    | inl (e, p) ↦ subst (IsData s' inum) (sym p) given-IsData
    | inr (ne, p) ↦
        subst (IsData s' inum) (sym p)
          (kept-IsData (ptr i j) (own.blocks j (λ z. some_block (p ∙ z))))
  ]

  apart : (b c : ℕ) → ptr i' b ≢ 0 → ptr i' b ≡ ptr i' c → b ≡ c
  apart b c some_block same = elim (at_index b) [
    | inl (e, p) ↦ elim (at_index c) [
      | inl (f, q) ↦ e ∙ sym f
      | inr (ne, q) ↦ absurd (new_block c (sym q ∙ (sym same ∙ p)))
    ]
    | inr (ne, p) ↦ elim (at_index c) [
      | inl (f, q) ↦ absurd (new_block b (sym p ∙ (same ∙ q)))
      | inr (ne', q) ↦ own.apart b c (λ z. some_block (p ∙ z)) (sym p ∙ (same ∙ q))
    ]
  ]

  given-Ensured : Ensured n s s' i i' inum index
  given-Ensured = record {
    owner = record {
      valid = a.valid;
      fits = record {
        uid = own.fits.uid;
        gid = own.fits.gid;
        mode = own.fits.mode;
        ctime = own.fits.ctime;
        mtime = own.fits.mtime;
        size = own.fits.size;
        ptrs = AllWords-set i.ptrs index id own.fits.ptrs (omega (arith, below, own.range));
        width = length-set i.ptrs index id ∙ own.fits.width;
      };
      ok = own.ok;
      used = still_used inum own.used;
      stored = block_read-written s.disk inum (encode_inode i') own.ok;
      blocks = blocks;
      apart = apart;
      free = λ lba lt' clear.
          let f = own.free lba lt' (ground (arith, a.bits lba, clear)) in (f.0, whole lba f.1);
      range = own.range;
    };
    there = λ z. ground (arith, (own.free id below a.was_clear).0.0, ptr_self, z);
    others = ptr_ne;
    kept = λ some_block. absurd (some_block absent);
    fresh = λ none_yet. ap (is_clear s.bitmap) ptr_self ∙ a.was_clear;
    used = still_used;
    size = refl;
    mode = refl;
    left = ground (arith, absent, clear_below-taken s.bitmap map id n a.bits);
    disk = λ lba {b} ne e.
        block_read-written_ne s.disk inum (encode_inode i') own.ok lba (λ same. ne (sym same)) e;
  }

pub ptr_at-done :
    (s : Fs) (i : Inode) (index : ℕ)
    → index < num_ptrs_inode
    → ptr_at i index s ≡ done (ptr i index) s
unfolding ptr_at
ptr_at-done s i index lt = ground arith

-- ensure_block succeeds if there is a block for the index, or a free one among the first `n`.
pub ensure_block-Ensured :
    (n : ℕ) (s : Fs) (i : Inode) (inum index : ℕ)
    → IsOwner n s i inum
    → index < num_ptrs_inode
    → (if ptr i index == 0 then 1 else 0) ≤ clear_below s.bitmap n
    → (i' : Inode) × (s' : Fs) × (ensure_block i inum index s ≡ done i' s')
      × Ensured n s s' i i' inum index
unfolding ensure_block
ensure_block-Ensured n s i inum index own lt room = elim (Bool-cases (ptr i index == 0)) [
  | inl absent ↦
      let (id, map, got, below, a) =
        alloc_blk-done n s own.valid own.range (ground (arith, absent, room)) in
      let i' = with_ptr i index id in
      (
        i',
        record s { bitmap = map; disk = written s.disk inum (encode_inode i') },
        rw
            (
              ptr_at-done s i index lt,
              absent,
              got,
              write_inode-done (record s { bitmap = map }) i' inum own.ok,
            )
            refl,
        given-Ensured n s i inum index id map own lt ((==_iff (ptr i index) 0).0 absent) below a,
      )
  | inr present ↦ (
    i,
    s,
    rw (ptr_at-done s i index lt, present) refl,
    record {
      owner = own;
      there = λ z. ground (arith, present, (==_iff (ptr i index) 0).1 z);
      others = λ j ne. refl;
      kept = λ some_block. refl;
      fresh = λ none_yet. ground (arith, present, (==_iff (ptr i index) 0).1 none_yet);
      used = λ lba used. used;
      size = refl;
      mode = refl;
      left = omega arith;
      disk = λ lba {b} ne e. e;
    },
  )
]
