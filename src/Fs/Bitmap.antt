-- ===== src/Fs/Bitmap.antt =====
-- The block bitmap of fs5600.c: 4096 bytes, bit `i % 8` of byte `i / 8` for block `i`.
pub mod Laws
pub mod Alloc
use Prim.Native.Nat.{bit_and, bit_or}
use systems_projects.Base.{
  ℕ, zero, suc, ◌-◌, ◌*◌, ◌/◌, ◌%◌, ◌^◌, Option, none, some, Bytes, ◌==◌, if◌then◌else◌, get_or,
  set,
}
use systems_projects.Fs.Layout.{block_size}

abbrev pub byte_at : Bytes → ℕ → ℕ
byte_at map i = get_or map (i / 8) 0

-- `map[i/8] |= (1 << (i%8))`
unfoldable pub bit_set : Bytes → ℕ → Bytes
bit_set map i = set map (i / 8) (bit_or (byte_at map i) (2 ^ (i % 8)))

-- `map[i/8] &= ~(1 << (i%8))`, cut to an `unsigned char`
unfoldable pub bit_clear : Bytes → ℕ → Bytes
bit_clear map i = set map (i / 8) (bit_and (byte_at map i) (255 - 2 ^ (i % 8)))

-- `map[i/8] & (1 << (i%8))`
unfoldable pub bit_test : Bytes → ℕ → ℕ
bit_test map i = bit_and (byte_at map i) (2 ^ (i % 8))

-- The loop of alloc_blk at `id`, with `left` rounds to go: the first id whose bit is clear.
unfoldable pub find_clear : Bytes → (left id : ℕ) → Option ℕ
find_clear map zero id = none
find_clear map (suc left) id =
    let rest = find_clear map left (suc id) in if bit_test map id == 0 then some id else rest

mark : Bytes → Option ℕ → Option (ℕ × Bytes)
mark map none = none
mark map (some id) = some (id, bit_set map id)

-- The block that is given out with the new bitmap; `none` is -ENOSPC.
unfoldable pub alloc_blk : Bytes → Option (ℕ × Bytes)
unfolding mark
alloc_blk map = mark map (find_clear map (block_size * 8) 0)

unfoldable pub free_blk : Bytes → ℕ → Bytes
free_blk map i = bit_clear map i
