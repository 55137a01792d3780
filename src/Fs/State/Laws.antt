-- ===== src/Fs/State/Laws.antt =====
-- Blocks read and written: what a load after a store sees.
use systems_projects.Base.{
  ℕ, zero, suc, ◌+◌, ◌-◌, ◌<◌, ◌≤◌, ◌^◌, ◌≡◌, ◌≢◌, ap, ◌∙◌, some, List, [], ◌∷◌, ◌++◌, arith,
  get_elem?, set, length, replicate, length-append, length-replicate, get_elem?-set_self,
  get_elem?-set_ne,
}
use systems_projects.Fs.Layout.{Block, block_size, Inode, decode_inode, encode_inode}
use systems_projects.Fs.Layout.RoundTrip.{InodeFits, decode_inode-encode_inode}
use systems_projects.Fs.State.{
  Fs, done, block_read, block_write, extended, load, store, read_inode, write_inode,
}

pub load-done :
    (s : Fs) (lba : ℕ) {b : Block} → block_read lba s.disk ≡ some b → load lba s ≡ done b s
unfolding load
load-done s lba e = rw (e, load)

pub read_inode-done :
    (s : Fs) (inum : ℕ) {b : Block}
    → block_read inum s.disk ≡ some b
    → read_inode inum s ≡ done (decode_inode b) s
unfolding read_inode
read_inode-done s inum e = rw (load-done s inum e)

get_elem?-append {ℓ} :
    {A : Type ℓ} (xs ys : List A) (i : ℕ) {x : A}
    → get_elem? xs i ≡ some x
    → get_elem? (xs ++ ys) i ≡ some x
get_elem?-append [] ys i h = cc
get_elem?-append (x ∷ xs) ys zero h = h
get_elem?-append (x ∷ xs) ys (suc i) h = get_elem?-append xs ys i h

abbrev zeros : Block
zeros = replicate block_size 0

length-extended : (disk : List Block) (n : ℕ) → n ≤ length (extended disk n)
length-extended disk n = omega (
  arith,
  length-append disk (replicate (n - length disk) zeros),
  length-replicate (n - length disk) zeros,
)

-- The image after a write to `lba`.
abbrev pub written : List Block → ℕ → Block → List Block
written disk lba b = set (extended disk (suc lba)) lba b

-- A block number that block_write accepts.
abbrev pub IsWritable : ℕ → Type 0
IsWritable lba = (0 < lba) × (lba + 1 < 2 ^ 19)

module _ (disk : List Block) (lba : ℕ) (b : Block) (ok : IsWritable lba) where
  pub block_write-some : block_write b lba disk ≡ some (written disk lba b)
  unfolding block_write
  block_write-some = ground arith

  -- A block that has been written is read back.
  pub block_read-written : block_read lba (written disk lba b) ≡ some b
  unfolding block_read
  block_read-written = ground (
    arith,
    get_elem?-set_self (extended disk (suc lba)) lba b
        (omega (arith, length-extended disk (suc lba))),
  )

  -- A write leaves every other block that could be read before as it was.
  pub block_read-written_ne :
      (other : ℕ) {c : Block}
      → lba ≢ other
      → block_read other disk ≡ some c
      → block_read other (written disk lba b) ≡ some c
  unfolding block_read
  block_read-written_ne other ne e = ground (
    arith,
    get_elem?-set_ne (extended disk (suc lba)) lba other b ne,
    get_elem?-append disk (replicate (suc lba - length disk) zeros) other (found e),
  )
    where
      found : {c : Block} → block_read other disk ≡ some c → get_elem? disk other ≡ some c
      found e = ground arith

pub store-done :
    (s : Fs) (lba : ℕ) (b : Block)
    → IsWritable lba
    → store b lba s ≡ done tt (record s { disk = written s.disk lba b })
unfolding store
store-done s lba b ok = rw (block_write-some s.disk lba b ok, store)

pub write_inode-done :
    (s : Fs) (i : Inode) (inum : ℕ)
    → IsWritable inum
    → write_inode i inum s ≡ done tt (record s { disk = written s.disk inum (encode_inode i) })
unfolding write_inode
write_inode-done s i inum ok = store-done s inum (encode_inode i) ok

-- An inode that has been written is read back.
pub read_inode-write_inode :
    (s : Fs) (i : Inode) (inum : ℕ)
    → IsWritable inum
    → InodeFits i
    → let s' : Fs = record s { disk = written s.disk inum (encode_inode i) } in
      read_inode inum s' ≡ done i s'
read_inode-write_inode s i inum ok fits =
    read_inode-done (record s { disk = written s.disk inum (encode_inode i) }) inum
      (block_read-written s.disk inum (encode_inode i) ok)
    ∙ ap (λ x. done x (record s { disk = written s.disk inum (encode_inode i) }))
        (decode_inode-encode_inode i fits)
