-- ===== src/Fs/Tests.antt =====
-- The file system at a concrete image: the root in block 2 with its entries in block 3, and the file
-- `/a` with its inode in block 4 and its two bytes in block 5.
mod Names
mod Trip
use systems_projects.Fs.Attr.{fs_getattr, fs_readdir}
use systems_projects.Fs.Reads.{EndsIn, fs_read-EndsIn}
use systems_projects.Base.{
  c_string, ℕ, ◌≡◌, ◌<◌, refl, some, List, [], ◌∷◌, ◌++◌, Bytes, codes, arith, replicate,
  length-replicate, ap, get_or, zero, suc,
}
use systems_projects.Fs.Layout.{
  Block, Inode, Dirent, encode_inode, decode_inode, encode_dirents, decode_dirents, le_bytes,
  word_bytes, le_value, words, dirents, decode_dirent, encode_dirent,
}
use systems_projects.Fs.Layout.RoundTrip.{InodeFits, AllWords}
use systems_projects.Fs.State.{Fs, done, block_read, load, read_inode, read_dirents}
use systems_projects.Fs.Path.{tokens, tokens_from, copy_rows}
use systems_projects.Fs.Walk.{path_to_inum, walk, get_dirent_index}
use systems_projects.Fs.Walk.Resolve.{Resolves}
use systems_projects.Fs.File.Read.{fs_read-bytes, IsReadable, file_byte}
use systems_projects.Fs.File.Chunk.{bytes_from}
use systems_projects.Fs.File.{fs_read, fs_truncate}
use systems_projects.Fs.File.Truncate.{AllCovered, Truncated, fs_truncate-Truncated}
use systems_projects.Fs.Bitmap.{alloc_blk, bit_set, bit_test, find_clear}
use systems_projects.Fs.Bitmap.Laws.{IsBitmap}
use systems_projects.Fs.Bitmap.Alloc.{Allocated, alloc_blk-Allocated}

abbrev a_name : Bytes
a_name = codes "a" ++ replicate 27 0

abbrev a_entry : Dirent
a_entry = record { valid = 1; inode = 4; name = a_name }

abbrev unused : Dirent
unused = record { valid = 0; inode = 0; name = replicate 28 0 }

abbrev root_entries : List Dirent
root_entries = a_entry ∷ replicate 127 unused

abbrev root : Inode
root = record {
  uid = 0;
  gid = 0;
  mode = 0x41ff;
  ctime = 1;
  mtime = 2;
  size = 0;
  ptrs = 3 ∷ replicate 1018 0;
}

abbrev file : Inode
file = record {
  uid = 500;
  gid = 500;
  mode = 0x81ff;
  ctime = 1;
  mtime = 2;
  size = 2;
  ptrs = 5 ∷ replicate 1018 0;
}

abbrev hi_block : Block
hi_block = b'h' ∷ b'i' ∷ replicate 4094 0

abbrev image : Fs
image = record {
  num_blocks = 6;
  bitmap = 63 ∷ replicate 4095 0;
  disk =
      replicate 4096 0
      ∷ (63 ∷ replicate 4095 0)
      ∷ encode_inode root
      ∷ encode_dirents root_entries
      ∷ encode_inode file
      ∷ hi_block
      ∷ [];
}

a_walked : path_to_inum (codes "/a") image ≡ done 4 image
unfolding path_to_inum walk c_string get_dirent_index tokens tokens_from copy_rows read_inode
    read_dirents load block_read decode_inode encode_inode le_bytes le_value words word_bytes
    dirents decode_dirent encode_dirent decode_dirents encode_dirents
a_walked = refl

a_read : read_inode 4 image ≡ done file image
unfolding read_inode load block_read decode_inode encode_inode le_bytes le_value words word_bytes
a_read = refl

a_Resolves : Resolves image (codes "/a") 4 file
a_Resolves = record { walked = a_walked; holds = a_read }

file-IsReadable : IsReadable image.disk file 2
unfolding block_read
file-IsReadable index lt =
    let e : index ≡ 0 = omega arith in
    rw e (omega arith, hi_block, refl, ap (λ n. suc (suc n)) (length-replicate {A = ℕ} 4094 0))

fs_read-bytes_example :
    fs_read (codes "/a") 10 1 image ≡ done (bytes_from (file_byte image.disk file) 1 1) image
fs_read-bytes_example = fs_read-bytes image (codes "/a") 4 10 1 file a_Resolves refl file-IsReadable

get_or-zeros : (n i : ℕ) → get_or {A = ℕ} (replicate n 0) i 0 ≡ 0
get_or-zeros zero i = refl
get_or-zeros (suc n) zero = refl
get_or-zeros (suc n) (suc i) = get_or-zeros n i

bitmap_byte : (i : ℕ) → get_or image.bitmap i 0 < 256
bitmap_byte zero = omega arith
bitmap_byte (suc i) = omega (arith, get_or-zeros 4095 i)

bitmap-IsBitmap : IsBitmap image.bitmap
bitmap-IsBitmap = record { width = ap suc (length-replicate {A = ℕ} 4095 0); bytes = bitmap_byte }

AllWords-zeros : (n : ℕ) → AllWords (replicate n 0)
AllWords-zeros zero = tt
AllWords-zeros (suc n) = (omega arith, AllWords-zeros n)

AllCovered-zeros : (n : ℕ) → AllCovered (replicate n 0)
AllCovered-zeros zero = tt
AllCovered-zeros (suc n) = (omega arith, AllCovered-zeros n)

file-InodeFits : InodeFits file
file-InodeFits = record {
  uid = omega arith;
  gid = omega arith;
  mode = omega arith;
  ctime = omega arith;
  mtime = omega arith;
  size = omega arith;
  ptrs = (omega arith, AllWords-zeros 1018);
  width = ap suc (length-replicate {A = ℕ} 1018 0);
}

fs_truncate-Truncated_example :
    (s' : Fs) × (fs_truncate 7 (codes "/a") 0 image ≡ done tt s') × Truncated 7 4 file image s'
fs_truncate-Truncated_example =
    fs_truncate-Truncated 7 image (codes "/a") 4 file a_Resolves refl bitmap-IsBitmap (omega arith)
      file-InodeFits (omega arith, AllCovered-zeros 1018)

allocated : alloc_blk image.bitmap ≡ some (6, bit_set image.bitmap 6)
unfolding alloc_blk find_clear bit_test
allocated = refl

alloc_blk-Allocated_example : Allocated image.bitmap 6 (bit_set image.bitmap 6)
alloc_blk-Allocated_example = alloc_blk-Allocated 6 bitmap-IsBitmap allocated

fs_read-EndsIn_example :
    EndsIn image (fs_getattr (codes "/a") image)
    × EndsIn image (fs_readdir (codes "/a") image)
    × EndsIn image (fs_read (codes "/a") 10 1 image)
fs_read-EndsIn_example = fs_read-EndsIn (codes "/a") 10 1 image
