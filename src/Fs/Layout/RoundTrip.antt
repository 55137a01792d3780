-- ===== src/Fs/Layout/RoundTrip.antt =====
-- What is written into a block is what is read back from it.
use systems_projects.Base.{
  ℕ, zero, suc, ◌+◌, ◌*◌, ◌/◌, ◌<◌, ◌^◌, ◌≡◌, refl, ap, List, [], ◌∷◌, ◌++◌, arith, Bytes, length,
  take, drop, length-append,
}
use native.Mathlib.Nat.{pow-suc}
use mathlib.Core.List.{append_assoc}
use systems_projects.Fs.Layout.{
  block_size, num_ptrs_inode, num_dirent_block, le_bytes, le_value, Inode, Dirent, words,
  word_bytes, decode_inode, encode_inode, decode_dirent, encode_dirent, dirents, decode_dirents,
  encode_dirents,
}

take-append {ℓ} : {A : Type ℓ} (xs ys : List A) (n : ℕ) → length xs ≡ n → take n (xs ++ ys) ≡ xs
take-append [] ys zero h = refl
take-append [] ys (suc n) h = absurd (omega arith)
take-append (x ∷ xs) ys zero h = absurd (omega arith)
take-append (x ∷ xs) ys (suc n) h = ap (◌∷◌ x) (take-append xs ys n (omega arith))

drop-append {ℓ} : {A : Type ℓ} (xs ys : List A) (n : ℕ) → length xs ≡ n → drop n (xs ++ ys) ≡ ys
drop-append [] ys zero h = refl
drop-append [] ys (suc n) h = absurd (omega arith)
drop-append (x ∷ xs) ys zero h = absurd (omega arith)
drop-append (x ∷ xs) ys (suc n) h = drop-append xs ys n (omega arith)

pub length-le_bytes : (n v : ℕ) → length (le_bytes n v) ≡ n
unfolding le_bytes
length-le_bytes zero v = refl
length-le_bytes (suc n) v = ap suc (length-le_bytes n (v / 256))

pub le_value-le_bytes : (n v : ℕ) → v < 256 ^ n → le_value (le_bytes n v) ≡ v
unfolding le_bytes le_value
le_value-le_bytes zero v h = omega arith
le_value-le_bytes (suc n) v h =
    omega (arith, le_value-le_bytes n (v / 256) (omega (arith, pow-suc 256 n)))

-- Reading a field of `n` bytes that stands in front.
field_read : (n v : ℕ) (rest : Bytes) → v < 256 ^ n → le_value (take n (le_bytes n v ++ rest)) ≡ v
field_read n v rest h =
    rw (take-append (le_bytes n v) rest n (length-le_bytes n v)) (le_value-le_bytes n v h)

field_skip : (n v : ℕ) (rest : Bytes) → drop n (le_bytes n v ++ rest) ≡ rest
field_skip n v rest = drop-append (le_bytes n v) rest n (length-le_bytes n v)

abbrev pub AllWords : List ℕ → Type 0
AllWords [] = Prim.Unit {0}
AllWords (w ∷ ws) = (w < 2 ^ 32) × AllWords ws

words-word_bytes :
    (ws : List ℕ) (n : ℕ) → length ws ≡ n → AllWords ws → words n (word_bytes ws) ≡ ws
unfolding words word_bytes
words-word_bytes [] zero h fit = refl
words-word_bytes [] (suc n) h fit = absurd (omega arith)
words-word_bytes (w ∷ ws) zero h fit = absurd (omega arith)
words-word_bytes (w ∷ ws) (suc n) h fit =
    rw (field_read 4 w (word_bytes ws) fit.0, field_skip 4 w (word_bytes ws))
      (ap (◌∷◌ w) (words-word_bytes ws n (omega arith) fit.1))

-- The values of an inode fit their fields.
pub record InodeFits (i : Inode) : Type 0 where
  pub uid : i.uid < 2 ^ 16
  pub gid : i.gid < 2 ^ 16
  pub mode : i.mode < 2 ^ 32
  pub ctime : i.ctime < 2 ^ 32
  pub mtime : i.mtime < 2 ^ 32
  pub size : i.size < 2 ^ 31
  pub ptrs : AllWords i.ptrs
  pub width : length i.ptrs ≡ num_ptrs_inode

-- An inode whose values fit its fields is read back from the block as it was written.
pub decode_inode-encode_inode : (i : Inode) → InodeFits i → decode_inode (encode_inode i) ≡ i
unfolding decode_inode encode_inode
decode_inode-encode_inode i fit = simp (
  field_read 2 i.uid _ fit.uid,
  field_skip 2 i.uid,
  field_read 2 i.gid _ fit.gid,
  field_skip 2 i.gid,
  field_read 4 i.mode _ fit.mode,
  field_skip 4 i.mode,
  field_read 4 i.ctime _ fit.ctime,
  field_skip 4 i.ctime,
  field_read 4 i.mtime _ fit.mtime,
  field_skip 4 i.mtime,
  field_read 4 i.size _ (omega (arith, fit.size)),
  field_skip 4 i.size,
  words-word_bytes i.ptrs num_ptrs_inode fit.width fit.ptrs,
)

-- The values of a directory entry fit their fields.
pub record DirentFits (e : Dirent) : Type 0 where
  pub valid : e.valid < 2
  pub inode : e.inode < 2 ^ 31
  pub name : length e.name ≡ 28

decode_dirent-encode_dirent :
    (e : Dirent) (rest : Bytes)
    → DirentFits e
    → (decode_dirent (encode_dirent e ++ rest) ≡ e) × (drop 32 (encode_dirent e ++ rest) ≡ rest)
unfolding decode_dirent encode_dirent
decode_dirent-encode_dirent e rest fit =
    let w = e.valid + 2 * e.inode in
    (
      rw
          (
            append_assoc (le_bytes 4 w) e.name rest,
            field_read 4 w (e.name ++ rest) (omega (arith, fit.valid, fit.inode)),
            field_skip 4 w (e.name ++ rest),
            take-append e.name rest 28 fit.name,
          )
          (same_dirent (omega (arith, fit.valid)) (omega (arith, fit.valid))),
      drop-append (le_bytes 4 w ++ e.name) rest 32
          (omega (arith, length-append (le_bytes 4 w) e.name, length-le_bytes 4 w, fit.name)),
    )
  where
    same_dirent :
        {v n : ℕ} → v ≡ e.valid → n ≡ e.inode → record { valid = v; inode = n; name = e.name } ≡ e
    same_dirent p q = λ i. record { valid = p i; inode = q i; name = e.name }

abbrev pub AllFit : List Dirent → Type 0
AllFit [] = Prim.Unit {0}
AllFit (e ∷ es) = DirentFits e × AllFit es

dirents-encode_dirents :
    (es : List Dirent) (n : ℕ) → length es ≡ n → AllFit es → dirents n (encode_dirents es) ≡ es
unfolding dirents encode_dirents
dirents-encode_dirents [] zero h fit = refl
dirents-encode_dirents [] (suc n) h fit = absurd (omega arith)
dirents-encode_dirents (e ∷ es) zero h fit = absurd (omega arith)
dirents-encode_dirents (e ∷ es) (suc n) h fit =
    let (same, rest) = decode_dirent-encode_dirent e (encode_dirents es) fit.0 in
    rw (same, rest) (ap (◌∷◌ e) (dirents-encode_dirents es n (omega arith) fit.1))

-- A table of 128 entries whose values fit their fields is read back from the block as it was
-- written.
pub decode_dirents-encode_dirents :
    (es : List Dirent)
    → length es ≡ num_dirent_block
    → AllFit es
    → decode_dirents (encode_dirents es) ≡ es
unfolding decode_dirents
decode_dirents-encode_dirents es h fit = dirents-encode_dirents es num_dirent_block h fit

length-word_bytes : (ws : List ℕ) → length (word_bytes ws) ≡ 4 * length ws
unfolding word_bytes
length-word_bytes [] = refl
length-word_bytes (w ∷ ws) =
    omega (
      arith,
      length-append (le_bytes 4 w) (word_bytes ws),
      length-le_bytes 4 w,
      length-word_bytes ws,
    )

-- An inode fills a block exactly.
pub length-encode_inode :
    (i : Inode) → length i.ptrs ≡ num_ptrs_inode → length (encode_inode i) ≡ block_size
unfolding encode_inode
length-encode_inode i h = simp (length-append, length-le_bytes, length-word_bytes) (omega arith)
