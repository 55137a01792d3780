-- ===== src/Fs/Layout.antt =====
-- fs5600.h of lab5-TheCarton-main: the blocks of the disk image. A block is the list of its bytes,
-- and the structures are read and written in it as the compiler lays them out: little-endian, no
-- padding, and the bit field `valid` below the bit field `inode` in the first word of an entry.
-- The functions between records and bytes stand for that layout, and for no function of the program.
-- `size` is an `int32_t` that the program keeps nonnegative; it is a plain number here.
pub mod RoundTrip
use systems_projects.Base.{ℕ, zero, suc, ◌+◌, ◌*◌, ◌/◌, ◌%◌, List, [], ◌∷◌, ◌++◌, Bytes, take, drop}

abbrev pub block_size : ℕ
block_size = 4096

abbrev pub fs_magic : ℕ
fs_magic = 0x30303635

abbrev pub num_ptrs_inode : ℕ
num_ptrs_inode = 1019

abbrev pub num_dirent_block : ℕ
num_dirent_block = 128

abbrev pub Block : Type 0
Block = Bytes

-- A number in `n` bytes, the lowest first, and back.
unfoldable pub le_bytes : ℕ → ℕ → Bytes
le_bytes zero v = []
le_bytes (suc n) v = (v % 256) ∷ le_bytes n (v / 256)

unfoldable pub le_value : Bytes → ℕ
le_value [] = 0
le_value (b ∷ bs) = b + 256 * le_value bs

pub record Super : Type 0 where
  pub magic : ℕ
  pub disk_size : ℕ

pub record Inode : Type 0 where
  pub uid : ℕ
  pub gid : ℕ
  pub mode : ℕ
  pub ctime : ℕ
  pub mtime : ℕ
  pub size : ℕ
  pub ptrs : List ℕ

-- `name` is the array of 28 characters, with what stands behind the NUL.
pub record Dirent : Type 0 where
  pub valid : ℕ
  pub inode : ℕ
  pub name : Bytes

-- `n` words of four bytes.
unfoldable pub words : ℕ → Bytes → List ℕ
words zero bs = []
words (suc n) bs = le_value (take 4 bs) ∷ words n (drop 4 bs)

unfoldable pub word_bytes : List ℕ → Bytes
word_bytes [] = []
word_bytes (w ∷ ws) = le_bytes 4 w ++ word_bytes ws

unfoldable pub decode_super : Block → Super
unfolding le_value
decode_super b = record { magic = le_value (take 4 b); disk_size = le_value (take 4 (drop 4 b)) }

unfoldable pub decode_inode : Block → Inode
decode_inode b =
    let b₂ = drop 2 b in
    let b₄ = drop 2 b₂ in
    let b₈ = drop 4 b₄ in
    let b₁₂ = drop 4 b₈ in
    let b₁₆ = drop 4 b₁₂ in
    record {
      uid = le_value (take 2 b);
      gid = le_value (take 2 b₂);
      mode = le_value (take 4 b₄);
      ctime = le_value (take 4 b₈);
      mtime = le_value (take 4 b₁₂);
      size = le_value (take 4 b₁₆);
      ptrs = words num_ptrs_inode (drop 4 b₁₆);
    }

unfoldable pub encode_inode : Inode → Block
encode_inode i =
    le_bytes 2 i.uid
    ++ (le_bytes 2 i.gid
        ++ (le_bytes 4 i.mode
            ++ (le_bytes 4 i.ctime
                ++ (le_bytes 4 i.mtime ++ (le_bytes 4 i.size ++ word_bytes i.ptrs)))))

unfoldable pub decode_dirent : Bytes → Dirent
decode_dirent b =
    let w = le_value (take 4 b) in
    record { valid = w % 2; inode = w / 2; name = take 28 (drop 4 b) }

unfoldable pub encode_dirent : Dirent → Bytes
encode_dirent e = le_bytes 4 (e.valid + 2 * e.inode) ++ e.name

unfoldable pub dirents : ℕ → Block → List Dirent
dirents zero b = []
dirents (suc n) b = decode_dirent b ∷ dirents n (drop 32 b)

unfoldable pub decode_dirents : Block → List Dirent
decode_dirents b = dirents num_dirent_block b

unfoldable pub encode_dirents : List Dirent → Block
encode_dirents [] = []
encode_dirents (e ∷ es) = encode_dirent e ++ encode_dirents es
