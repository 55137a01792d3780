-- ===== src/Fs/File/Store.antt =====
-- A chunk put into a block of a file: the `memcpy` and the block_write of fs_write in fs5600.c.
use systems_projects.Base.{
  ℕ, zero, suc, ◌+◌, ◌-◌, ◌/◌, ◌%◌, ◌<◌, ◌≤◌, ◌≡◌, ◌≢◌, ◌⊎◌, refl, sym, ap, ◌∙◌, some, [], ◌∷◌,
  ◌++◌, Bytes, arith, get_or, length, take, drop, ◌==◌, ==_iff, Bool-cases, inl, inr, length-append,
  length-take, length-drop,
}
use systems_projects.Fs.Layout.{Inode}
use systems_projects.Fs.State.{Fs}
use systems_projects.Fs.State.Laws.{written, block_read-written, block_read-written_ne}
use systems_projects.Fs.File.{overlay}
use systems_projects.Fs.File.Read.{block_of, or_empty, file_byte}
use systems_projects.Fs.File.Owned.{IsWhole, IsData, ptr, IsOwner}
use systems_projects.Fs.File.Round.{whole_after}

get_or-append_left : (xs ys : Bytes) (k : ℕ) → k < length xs → get_or (xs ++ ys) k 0 ≡ get_or xs k 0
get_or-append_left [] ys k lt = absurd (omega (arith, lt))
get_or-append_left (x ∷ xs) ys zero lt = refl
get_or-append_left (x ∷ xs) ys (suc k) lt = get_or-append_left xs ys k (omega (arith, lt))

get_or-append_right :
    (xs ys : Bytes) (j k : ℕ) → j ≡ length xs + k → get_or (xs ++ ys) j 0 ≡ get_or ys k 0
get_or-append_right [] ys j k e =
    let same : j ≡ k = omega (arith, e) in ap (λ x. get_or ys x 0) same
get_or-append_right (x ∷ xs) ys zero k e = absurd (omega (arith, e))
get_or-append_right (x ∷ xs) ys (suc j) k e = get_or-append_right xs ys j k (omega (arith, e))

pub get_or-drop : (b : Bytes) (m j k : ℕ) → j ≡ m + k → get_or (drop m b) k 0 ≡ get_or b j 0
get_or-drop b zero j k e = let same : k ≡ j = omega (arith, e) in ap (λ x. get_or b x 0) same
get_or-drop [] (suc m) j k e = refl
get_or-drop (x ∷ xs) (suc m) zero k e = absurd (omega (arith, e))
get_or-drop (x ∷ xs) (suc m) (suc j) k e = get_or-drop xs m j k (omega (arith, e))

pub get_or-take : (b : Bytes) (m k : ℕ) → k < m → get_or (take m b) k 0 ≡ get_or b k 0
get_or-take [] zero k lt = absurd (omega (arith, lt))
get_or-take [] (suc m) k lt = refl
get_or-take (x ∷ xs) zero k lt = absurd (omega (arith, lt))
get_or-take (x ∷ xs) (suc m) zero lt = refl
get_or-take (x ∷ xs) (suc m) (suc k) lt = get_or-take xs m k (omega (arith, lt))

-- What is written, and what stays.
module _ (b chunk : Bytes) (at : ℕ) (fits : at + length chunk ≤ length b) where
  length-overlay : length (overlay b at chunk) ≡ length b
  unfolding overlay
  length-overlay = simp (length-append, length-take, length-drop) (omega (arith, fits))

  length_front : length (take at b) ≡ at
  length_front = length-take at b ∙ omega (arith, fits)

  overlay_in :
      (k : ℕ) → k < length chunk → get_or (overlay b at chunk) (at + k) 0 ≡ get_or chunk k 0
  unfolding overlay
  overlay_in k lt =
      get_or-append_right (take at b) _ (at + k) k (omega (arith, length_front))
      ∙ get_or-append_left chunk _ k lt

  overlay_out :
      (k : ℕ) → (k < at) ⊎ (at + length chunk ≤ k) → get_or (overlay b at chunk) k 0 ≡ get_or b k 0
  unfolding overlay
  overlay_out k (inl before) =
      get_or-append_left (take at b) _ k (omega (arith, length_front, before))
      ∙ get_or-take b at k before
  overlay_out k (inr behind) =
      get_or-append_right (take at b) _ k (k - at) (omega (arith, length_front, behind))
      ∙ get_or-append_right chunk _ (k - at) (k - at - length chunk) (omega (arith, behind))
      ∙ get_or-drop b (at + length chunk) k (k - at - length chunk) (omega (arith, behind))

-- The state after the chunk has been stored in a block `b`.
abbrev pub stored_at : Fs → Inode → ℕ → Bytes → Bytes → Fs
stored_at s i offset chunk b = record s {
  disk = written s.disk (ptr i (offset / 4096)) (overlay b (offset % 4096) chunk);
}

-- The block of an index is replaced.
module _ (n : ℕ) (s : Fs) (i : Inode) (inum offset : ℕ) (chunk b : Bytes) (own : IsOwner n s i inum)
    (there : ptr i (offset / 4096) ≢ 0) (holds : block_of s.disk i (offset / 4096) ≡ some b)
    (size : length b ≡ 4096) (fits : offset % 4096 + length chunk ≤ 4096) where
  abbrev block : Bytes
  block = overlay b (offset % 4096) chunk

  abbrev stored : Fs
  stored = stored_at s i offset chunk b

  inside : offset % 4096 + length chunk ≤ length b
  inside = omega (arith, fits, size)

  data_ok : IsData s inum (ptr i (offset / 4096))
  data_ok = own.blocks (offset / 4096) there

  whole : (lba : ℕ) → IsWhole s.disk lba → IsWhole stored.disk lba
  whole lba w =
      whole_after s.disk (ptr i (offset / 4096)) lba block data_ok.ok
        (length-overlay b chunk (offset % 4096) inside ∙ size) w

  pub stored-IsOwner : IsOwner n (stored_at s i offset chunk b) i inum
  stored-IsOwner = record {
    valid = own.valid;
    fits = own.fits;
    ok = own.ok;
    used = own.used;
    stored =
        block_read-written_ne s.disk (ptr i (offset / 4096)) block data_ok.ok inum data_ok.other
          own.stored;
    blocks = λ index some_block.
        let d = own.blocks index some_block in
        record { used = d.used; other = d.other; ok = d.ok; whole = whole (ptr i index) d.whole };
    apart = own.apart;
    free = λ lba lt clear. let f = own.free lba lt clear in (f.0, whole lba f.1);
    range = own.range;
  }

  read_back : block_of stored.disk i (offset / 4096) ≡ some block
  read_back = block_read-written s.disk (ptr i (offset / 4096)) block data_ok.ok

  pub stored_in :
      (k : ℕ)
      → k < length chunk
      → file_byte (stored_at s i offset chunk b).disk i (offset + k) ≡ get_or chunk k 0
  unfolding file_byte
  stored_in k lt =
      let same_block : (offset + k) / 4096 ≡ offset / 4096 = omega (arith, fits, lt) in
      let within : (offset + k) % 4096 ≡ offset % 4096 + k = omega (arith, fits, lt) in
      rw (same_block, within, read_back) (overlay_in b chunk (offset % 4096) inside k lt)

  in_block :
      (o : ℕ)
      → (o < offset) ⊎ (offset + length chunk ≤ o)
      → o / 4096 ≡ offset / 4096
      → (o % 4096 < offset % 4096) ⊎ (offset % 4096 + length chunk ≤ o % 4096)
  in_block o (inl before) e = inl (omega (arith, before, e))
  in_block o (inr behind) e = inr (omega (arith, behind, e))

  pub stored_out :
      (o : ℕ)
      → (o < offset) ⊎ (offset + length chunk ≤ o)
      → ptr i (o / 4096) ≢ 0
      → file_byte (stored_at s i offset chunk b).disk i o ≡ file_byte s.disk i o
  unfolding file_byte
  stored_out o out some_block = elim (Bool-cases (offset / 4096 == o / 4096)) [
    | inl here ↦
        let e : o / 4096 ≡ offset / 4096 = sym ((==_iff (offset / 4096) (o / 4096)).0 here) in
        rw (e, read_back, holds)
          (overlay_out b chunk (offset % 4096) inside (o % 4096) (in_block o out e))
    | inr other ↦
        let d = own.blocks (o / 4096) some_block in
        let (c, at, _) = d.whole in
        let kept =
          block_read-written_ne s.disk (ptr i (offset / 4096)) block data_ok.ok (ptr i (o / 4096))
            (λ same. ground (
              arith,
              other,
              (==_iff (offset / 4096) (o / 4096)).1
                  (own.apart (offset / 4096) (o / 4096) there same),
            ))
            at in
        ap (λ x. get_or (or_empty x) (o % 4096) 0) (kept ∙ sym at)
  ]
