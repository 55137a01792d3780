-- ===== src/Fs/File/Write.antt =====
-- The loop of fs_write in fs5600.c: what it leaves in the file, and that it ends.
use mathlib.Core.Path.{subst}
use systems_projects.Base.{
  ℕ, zero, suc, ◌+◌, ◌-◌, ◌/◌, ◌%◌, ◌<◌, ◌≤◌, ◌≡◌, ◌≢◌, ◌⊎◌, refl, sym, ap, ◌∙◌, false, some, Bytes,
  arith, get_or, length, take, drop, ltb, ◌==◌, ==_iff, if◌then◌else◌, Bool-cases, inl, inr,
  length-take,
}
use systems_projects.Fs.Layout.{Block, Inode}
use systems_projects.Fs.Bitmap.Laws.{is_clear}
use systems_projects.Fs.State.{Fs, block_read}
use systems_projects.Fs.State.Laws.{block_read-written_ne}
use systems_projects.Fs.File.Read.{block_of, or_empty, file_byte}
use systems_projects.Fs.File.Owned.{ptr, IsOwner}
use systems_projects.Fs.File.Round.{Ensured}
use systems_projects.Fs.File.Store.{stored_at, stored_in, stored_out, get_or-take, get_or-drop}

-- How many of `r` indices, from `index` on, have no block yet.
unfoldable pub needed : Inode → (index r : ℕ) → ℕ
needed i index zero = 0
needed i index (suc r) = (if ptr i index == 0 then 1 else 0) + needed i (suc index) r

pub needed_congr :
    (i i' : Inode) (index r : ℕ)
    → ((j : ℕ) → index ≤ j → ptr i' j ≡ ptr i j)
    → needed i' index r ≡ needed i index r
unfolding needed
needed_congr i i' index zero h = refl
needed_congr i i' index (suc r) h =
    rw (h index (omega arith), needed_congr i i' (suc index) r (λ j le. h j (omega (arith, le))))
      refl

-- What has become of the file once `left` bytes have been written at `offset`.
pub record Wrote (n : ℕ) (s s' : Fs) (i i' : Inode) (inum offset left : ℕ) (buf : Bytes)
    : Type 0 where
  pub owner : IsOwner n s' i' inum
  pub size : i'.size ≡ i.size
  pub mode : i'.mode ≡ i.mode
  pub bytes : (k : ℕ) → k < left → file_byte s'.disk i' (offset + k) ≡ get_or buf k 0
  pub outside :
      (o : ℕ)
      → (o < offset) ⊎ (offset + left ≤ o)
      → ptr i (o / 4096) ≢ 0
      → file_byte s'.disk i' o ≡ file_byte s.disk i o
  pub held : (index : ℕ) → ptr i index ≢ 0 → ptr i' index ≡ ptr i index
  pub there : (k : ℕ) → k < left → ptr i' ((offset + k) / 4096) ≢ 0
  pub disk :
      (lba : ℕ) {b : Block}
      → lba ≢ inum
      → is_clear s.bitmap lba ≡ false
      → ((index : ℕ) → ptr i index ≢ lba)
      → block_read lba s.disk ≡ some b
      → block_read lba s'.disk ≡ some b

pub Wrote-none :
    (n : ℕ) (s : Fs) (i : Inode) (inum offset : ℕ) (buf : Bytes)
    → IsOwner n s i inum
    → Wrote n s s i i inum offset 0 buf
Wrote-none n s i inum offset buf own = record {
  owner = own;
  size = refl;
  mode = refl;
  bytes = λ k lt. absurd (omega (arith, lt));
  outside = λ o out some_block. refl;
  held = λ index some_block. refl;
  there = λ k lt. absurd (omega (arith, lt));
  disk = λ lba {b} ne used apart e. e;
}

held_ptr :
    {n : ℕ} {s s₁ : Fs} {i i₁ : Inode} {inum index : ℕ}
    → Ensured n s s₁ i i₁ inum index
    → (j : ℕ) → ptr i j ≢ 0
    → ptr i₁ j ≡ ptr i j
held_ptr {i = i} {i₁ = i₁} {index = index} e j some_block = elim (Bool-cases (j == index)) [
  | inl here ↦
      let same : j ≡ index = (==_iff j index).0 here in
      subst (λ x. ptr i₁ x ≡ ptr i x) (sym same) (e.kept (λ z. some_block (ap (ptr i) same ∙ z)))
  | inr other ↦ e.others j (λ same. ground (arith, other, (==_iff j index).1 same))
]

-- A byte of a block that has not been touched.
kept_byte :
    (n : ℕ) (s s₁ : Fs) (i i₁ : Inode) (inum index : ℕ)
    → IsOwner n s i inum
    → Ensured n s s₁ i i₁ inum index
    → (o : ℕ) → ptr i (o / 4096) ≢ 0
    → file_byte s₁.disk i₁ o ≡ file_byte s.disk i o
unfolding file_byte
kept_byte n s s₁ i i₁ inum index own e o some_block =
    let d = own.blocks (o / 4096) some_block in
    let (c, at, _) = d.whole in
    ap (λ x. get_or (or_empty x) (o % 4096) 0)
      (ap (λ p. block_read p s₁.disk) (held_ptr e (o / 4096) some_block)
        ∙ (e.disk (ptr i (o / 4096)) d.other at ∙ sym at))

-- A round, and what comes after it.
module _ (n : ℕ) (s s₁ s' : Fs) (i i₁ i' : Inode) (inum offset c left : ℕ) (buf b : Bytes)
    (own : IsOwner n s i inum) (e : Ensured n s s₁ i i₁ inum (offset / 4096))
    (holds : block_of s₁.disk i₁ (offset / 4096) ≡ some b) (size : length b ≡ 4096)
    (all : length buf ≡ c + left) (fits : offset % 4096 + c ≤ 4096)
    (w : Wrote n
      (stored_at s₁ i₁ offset (take c buf) b)
      s'
      i₁
      i'
      inum
      (offset + c)
      left
      (drop c buf)) where
  length_chunk : length (take c buf) ≡ c
  length_chunk = length-take c buf ∙ omega (arith, all)

  chunk_fits : offset % 4096 + length (take c buf) ≤ 4096
  chunk_fits = omega (arith, fits, length_chunk)

  -- A byte outside the chunk, up to here.
  round_outside :
      (o : ℕ)
      → (o < offset) ⊎ (offset + c ≤ o)
      → ptr i (o / 4096) ≢ 0
      → file_byte (stored_at s₁ i₁ offset (take c buf) b).disk i₁ o ≡ file_byte s.disk i o
  round_outside o out some_block =
      stored_out n s₁ i₁ inum offset (take c buf) b e.owner e.there holds size chunk_fits o
        (elim out [
          | inl before ↦ inl before
          | inr behind ↦ inr (omega (arith, behind, length_chunk))
        ])
        (λ z. some_block (sym (held_ptr e (o / 4096) some_block) ∙ z))
      ∙ kept_byte n s s₁ i i₁ inum (offset / 4096) own e o some_block

  first_bytes : (k : ℕ) → k < c → file_byte s'.disk i' (offset + k) ≡ get_or buf k 0
  first_bytes k lt =
      let same_block : (offset + k) / 4096 ≡ offset / 4096 = omega (arith, fits, lt) in
      w.outside (offset + k) (inl (omega (arith, lt)))
        (λ z. e.there (sym (ap (ptr i₁) same_block) ∙ z))
      ∙ stored_in n s₁ i₁ inum offset (take c buf) b e.owner e.there holds size chunk_fits k
          (omega (arith, lt, length_chunk))
      ∙ get_or-take buf c k lt

  bytes : (k : ℕ) → k < c + left → file_byte s'.disk i' (offset + k) ≡ get_or buf k 0
  bytes k lt = elim (Bool-cases (ltb k c)) [
    | inl first ↦ first_bytes k (ground (arith, first))
    | inr later ↦
        let le : c ≤ k = ground (arith, later) in
        let at : offset + k ≡ offset + c + (k - c) = omega (arith, le) in
        ap (file_byte s'.disk i') at
        ∙ w.bytes (k - c) (omega (arith, le, lt))
        ∙ get_or-drop buf c k (k - c) (omega (arith, le))
  ]

  there : (k : ℕ) → k < c + left → ptr i' ((offset + k) / 4096) ≢ 0
  there k lt z = elim (Bool-cases (ltb k c)) [
    | inl first ↦
        let k_lt : k < c = ground (arith, first) in
        let same_block : (offset + k) / 4096 ≡ offset / 4096 = omega (arith, fits, k_lt) in
        e.there (sym (w.held (offset / 4096) e.there) ∙ (ap (ptr i') (sym same_block) ∙ z))
    | inr later ↦
        let le : c ≤ k = ground (arith, later) in
        let at : (offset + k) / 4096 ≡ (offset + c + (k - c)) / 4096 = omega (arith, le) in
        w.there (k - c) (omega (arith, le, lt)) (ap (ptr i') (sym at) ∙ z)
  ]

  -- A block that was in use, and not the file's, is not the one that was given to it.
  apart₁ :
      (lba : ℕ)
      → is_clear s.bitmap lba ≡ false
      → ((index : ℕ) → ptr i index ≢ lba)
      → (index : ℕ) → ptr i₁ index ≢ lba
  apart₁ lba used apart index same = elim (Bool-cases (index == offset / 4096)) [
    | inl here ↦
        let at : ptr i₁ (offset / 4096) ≡ lba =
          sym (ap (ptr i₁) ((==_iff index (offset / 4096)).0 here)) ∙ same in
        elim (Bool-cases (ptr i (offset / 4096) == 0)) [
          | inl none_yet ↦
              let free = e.fresh ((==_iff (ptr i (offset / 4096)) 0).0 none_yet) in
              ground (arith, used, free, ap (is_clear s.bitmap) at)
          | inr present ↦
              let some_block : ptr i (offset / 4096) ≢ 0 =
                λ z. ground (arith, present, (==_iff (ptr i (offset / 4096)) 0).1 z) in
              apart (offset / 4096) (sym (e.kept some_block) ∙ at)
        ]
    | inr other ↦
        let ne : index ≢ offset / 4096 =
          λ z. ground (arith, other, (==_iff index (offset / 4096)).1 z) in
        apart index (sym (e.others index ne) ∙ same)
  ]

  pub round-Wrote : Wrote n s s' i i' inum offset (c + left) buf
  round-Wrote = record {
    owner = w.owner;
    size = w.size ∙ e.size;
    mode = w.mode ∙ e.mode;
    bytes = bytes;
    outside = λ o out some_block.
        w.outside o
          (elim out [
            | inl before ↦ inl (omega (arith, before))
            | inr behind ↦ inr (omega (arith, behind))
          ])
          (λ z. some_block (sym (held_ptr e (o / 4096) some_block) ∙ z))
        ∙ round_outside o
            (elim out [ inl before ↦ inl before | inr behind ↦ inr (omega (arith, behind)) ])
            some_block;
    held = λ index some_block.
        w.held index (λ z. some_block (sym (held_ptr e index some_block) ∙ z))
        ∙ held_ptr e index some_block;
    there = there;
    disk = λ lba {b = blk} ne used apart at.
        w.disk lba ne (e.used lba used) (apart₁ lba used apart) (
          block_read-written_ne s₁.disk (ptr i₁ (offset / 4096)) _
            (e.owner.blocks (offset / 4096) e.there).ok lba (apart₁ lba used apart (offset / 4096))
            (e.disk lba ne at));
  }
