-- ===== src/Fs/Tests/Trip.antt =====
-- fs_write at a concrete image: `/a` is empty and has no block, and block 5 is free.
use systems_projects.Base.{
  ℕ, zero, suc, ◌<◌, ◌≤◌, ◌≡◌, refl, ap, true, false, [], ◌∷◌, ◌++◌, Bytes, codes, arith, replicate,
  length-replicate, get_or, take, drop, c_string,
}
use systems_projects.Fs.Layout.{
  Inode, encode_inode, decode_inode, encode_dirents, decode_dirents, le_bytes, word_bytes, le_value,
  words, dirents, decode_dirent, encode_dirent,
}
use systems_projects.Fs.Bitmap.{bit_test}
use systems_projects.Fs.Bitmap.Laws.{is_clear}
use systems_projects.Fs.State.{Fs, done, block_read}
use systems_projects.Fs.Path.{tokens, tokens_from, copy_rows}
use systems_projects.Fs.Walk.{get_dirent_index}
use systems_projects.Fs.Walk.Way.{Leads, last}
use systems_projects.Fs.File.{fs_read, fs_write}
use systems_projects.Fs.File.Owned.{clear_below, ptr, IsOwner}
use systems_projects.Fs.File.Write.{needed}
use systems_projects.Fs.File.Trip.{IsElsewhere, fs_read-fs_write}
use systems_projects.Fs.Tests.{root, root_entries, AllWords-zeros, get_or-zeros}

abbrev empty : Inode
empty = record {
  uid = 500;
  gid = 500;
  mode = 0x81ff;
  ctime = 1;
  mtime = 2;
  size = 0;
  ptrs = replicate 1019 0;
}

abbrev image : Fs
image = record {
  num_blocks = 6;
  bitmap = 31 ∷ replicate 4095 0;
  disk =
      replicate 4096 0
      ∷ (31 ∷ replicate 4095 0)
      ∷ encode_inode root
      ∷ encode_dirents root_entries
      ∷ encode_inode empty
      ∷ replicate 4096 0
      ∷ [];
}

no_ptr : (index : ℕ) → ptr empty index ≡ 0
no_ptr index = get_or-zeros 1019 index

bitmap_byte : (i : ℕ) → get_or image.bitmap i 0 < 256
bitmap_byte zero = omega arith
bitmap_byte (suc i) = omega (arith, get_or-zeros 4095 i)

only_free : (lba : ℕ) → lba < 6 → is_clear image.bitmap lba ≡ true → lba ≡ 5
unfolding bit_test
only_free zero lt clear = absurd (ground (arith, clear))
only_free (suc zero) lt clear = absurd (ground (arith, clear))
only_free (suc (suc zero)) lt clear = absurd (ground (arith, clear))
only_free (suc (suc (suc zero))) lt clear = absurd (ground (arith, clear))
only_free (suc (suc (suc (suc zero)))) lt clear = absurd (ground (arith, clear))
only_free (suc (suc (suc (suc (suc zero))))) lt clear = refl
only_free (suc (suc (suc (suc (suc (suc lba)))))) lt clear = absurd (omega (arith, lt))

empty-IsOwner : IsOwner 6 image empty 4
unfolding bit_test block_read
empty-IsOwner = record {
  valid = record { width = ap suc (length-replicate {A = ℕ} 4095 0); bytes = bitmap_byte };
  fits = record {
    uid = omega arith;
    gid = omega arith;
    mode = omega arith;
    ctime = omega arith;
    mtime = omega arith;
    size = omega arith;
    ptrs = AllWords-zeros 1019;
    width = length-replicate {A = ℕ} 1019 0;
  };
  ok = (omega arith, omega arith);
  used = refl;
  stored = refl;
  blocks = λ index some_block. absurd (some_block (no_ptr index));
  apart = λ a b some_block same. absurd (some_block (no_ptr a));
  free = λ lba lt clear.
      let e = only_free lba lt clear in
      rw e ((omega arith, omega arith), (replicate 4096 0, refl, length-replicate {A = ℕ} 4096 0));
  range = omega arith;
}

elsewhere :
    (lba : ℕ)
    → 0 < lba
    → lba < 4
    → is_clear image.bitmap lba ≡ false
    → IsElsewhere image empty 4 lba
elsewhere lba pos lt used = record {
  other = λ e. omega (arith, e, lt);
  used = used;
  apart = λ index same. omega (arith, pos, same, no_ptr index);
}

a_Leads : Leads (IsElsewhere image empty 4) image (codes "/a") 4
unfolding bit_test c_string get_dirent_index tokens tokens_from copy_rows block_read decode_inode
    encode_inode le_bytes le_value words word_bytes dirents decode_dirent encode_dirent
    decode_dirents encode_dirents
a_Leads = record {
  below = refl;
  names = codes "a" ∷ [];
  copied = λ t. refl;
  kept = elsewhere 2 (omega arith) (omega arith) refl;
  root = encode_inode root;
  readable = refl;
  is_directory = refl;
  way = last (codes "a") (decode_inode (encode_inode root)) (record {
    is_directory = refl;
    kept = elsewhere 3 (omega arith) (omega arith) refl;
    entries = encode_dirents root_entries;
    readable = refl;
    index = 0;
    found = refl;
    leads = refl;
  });
}

room : needed empty 0 1 ≤ clear_below image.bitmap 6
unfolding needed clear_below bit_test
room = omega arith

fs_read-fs_write_example :
    (old : Bytes) × (s' : Fs) × (fs_read (codes "/a") 0 0 image ≡ done old image)
    × (fs_write 7 (codes "/a") (codes "hi") 0 image ≡ done 2 s')
    × (fs_read (codes "/a") 2 0 s' ≡ done (take 0 old ++ (codes "hi" ++ drop 2 old)) s')
fs_read-fs_write_example =
    fs_read-fs_write 6 7 image empty (codes "/a") 4 0 (codes "hi") empty-IsOwner
      (λ index lt. absurd (omega (arith, lt))) (omega arith) (omega arith) a_Leads refl room
