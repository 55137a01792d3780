-- ===== src/Fs/Bitmap/Alloc.antt =====
-- alloc_blk and free_blk of fs5600.c over the bitmap.
use systems_projects.Base.{
  ℕ, zero, suc, ◌+◌, ◌*◌, ◌<◌, ◌≤◌, ◌≡◌, ◌↔◌, inl, inr, true, false, not, ◌&&◌, none, some, Bytes,
  ◌==◌, arith, Bool-cases, Option-cases,
}
use systems_projects.Fs.Layout.{block_size}
use systems_projects.Fs.Bitmap.{bit_set, find_clear, alloc_blk, free_blk}
use systems_projects.Fs.Bitmap.Laws.{
  IsBitmap, is_clear, bit_set-IsBitmap, is_clear-bit_set, is_clear-bit_clear,
}

-- `id` is the first clear bit at or behind `from`, below `end`.
record FirstClear (map : Bytes) (from end id : ℕ) : Type 0 where
  lower : from ≤ id
  upper : id < end
  clear : is_clear map id ≡ true
  least : (j : ℕ) → from ≤ j → j < id → is_clear map j ≡ false

find_clear-FirstClear :
    (map : Bytes) (n i end id : ℕ)
    → i + n ≡ end
    → find_clear map n i ≡ some id
    → FirstClear map i end id
unfolding find_clear
find_clear-FirstClear map zero i end id e h = cc
find_clear-FirstClear map (suc n) i end id e h = elim (Bool-cases (is_clear map i)) [
  | inl hit ↦
      let same : i ≡ id = ground arith in
      rw (← same) (record {
        lower = omega arith;
        upper = omega arith;
        clear = hit;
        least = λ j lo hi. absurd (omega arith);
      })
  | inr miss ↦
      let f = find_clear-FirstClear map n (suc i) end id (omega arith) (rw miss at h) in
      record {
        lower = omega (arith, f.lower);
        upper = f.upper;
        clear = f.clear;
        least = λ j lo hi. elim (Bool-cases (i == j)) [
          | inl here ↦ let same : i ≡ j = ground arith in rw (← same) miss
          | inr later ↦ f.least j (ground arith) hi
        ];
      }
]

find_clear-none :
    (map : Bytes) (n i j : ℕ)
    → find_clear map n i ≡ none
    → i ≤ j
    → j < i + n
    → is_clear map j ≡ false
unfolding find_clear
find_clear-none map zero i j h lo hi = absurd (omega arith)
find_clear-none map (suc n) i j h lo hi = elim (Bool-cases (is_clear map i)) [
  | inl hit ↦ absurd (ground arith)
  | inr miss ↦ elim (Bool-cases (i == j)) [
    | inl here ↦ let same : i ≡ j = ground arith in rw (← same) miss
    | inr later ↦ find_clear-none map n (suc i) j (rw miss at h) (ground arith) (omega arith)
  ]
]

-- What a successful alloc_blk promises.
pub record Allocated (map : Bytes) (id : ℕ) (map' : Bytes) : Type 0 where
  pub in_range : id < block_size * 8
  pub was_clear : is_clear map id ≡ true
  pub lowest : (j : ℕ) → j < id → is_clear map j ≡ false
  pub valid : IsBitmap map'
  pub bits : (j : ℕ) → is_clear map' j ≡ (not (id == j) && is_clear map j)

-- If alloc_blk succeeds on a bitmap of 4096 bytes, it has given out the lowest block whose bit is
-- clear, set its bit and changed no other.
pub alloc_blk-Allocated :
    {map map' : Bytes} (id : ℕ)
    → IsBitmap map
    → alloc_blk map ≡ some (id, map')
    → Allocated map id map'
unfolding alloc_blk
alloc_blk-Allocated {map} {map'} id valid h =
    elim (Option-cases (find_clear map (block_size * 8) 0)) [
      | inl full ↦ absurd (ground arith)
      | inr (i, found) ↦
          let f =
            find_clear-FirstClear map (block_size * 8) 0 (block_size * 8) i (omega arith) found in
          let same : i ≡ id = ground arith in
          let result : map' ≡ bit_set map i = ground arith in
          rw (← same, result)
            (record {
              in_range = f.upper;
              was_clear = f.clear;
              lowest = λ j lt. f.least j (omega arith) lt;
              valid = bit_set-IsBitmap valid i;
              bits = λ j. is_clear-bit_set valid i f.upper j;
            })
    ]

-- alloc_blk fails exactly when none of the 32768 bits is clear.
pub alloc_blk-full_iff :
    (map : Bytes) → (alloc_blk map ≡ none) ↔ ((j : ℕ) → j < block_size * 8 → is_clear map j ≡ false)
unfolding alloc_blk
alloc_blk-full_iff map = (
  (λ h j lt. find_clear-none map (block_size * 8) 0 j (ground arith) (omega arith) (omega arith)),
  λ full. elim (Option-cases (find_clear map (block_size * 8) 0)) [
    | inl none_left ↦ rw none_left
    | inr (i, found) ↦
        let f =
          find_clear-FirstClear map (block_size * 8) 0 (block_size * 8) i (omega arith) found in
        absurd (ground (arith, f.clear, full i f.upper))
  ],
)

-- On a bitmap of 4096 bytes, freeing the block that alloc_blk gave out makes every bit test as it
-- did before the allocation.
pub free_blk-alloc_blk :
    {map map' : Bytes} (id : ℕ)
    → IsBitmap map
    → alloc_blk map ≡ some (id, map')
    → (j : ℕ) → is_clear (free_blk map' id) j ≡ is_clear map j
unfolding free_blk
free_blk-alloc_blk id valid h j =
    let a = alloc_blk-Allocated id valid h in
    ground (arith, is_clear-bit_clear a.valid id a.in_range j, a.bits j, a.was_clear)
