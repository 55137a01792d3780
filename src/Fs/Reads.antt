-- ===== src/Fs/Reads.antt =====
-- The calls of fs5600.c that only look: fs_getattr, fs_readdir and fs_read.
use systems_projects.Base.{
  ℕ, zero, suc, ◌+◌, ◌/◌, ◌≡◌, refl, Bool, true, false, Option, none, some, List, [], ◌∷◌, Bytes,
  Option-cases, inl, inr, if◌then◌else◌, ◌==◌, leb, get_or, not, str_eq, codes, length, ltb, take,
}
use systems_projects.Fs.Layout.{Inode, Dirent, num_ptrs_inode}
use systems_projects.Fs.State.{
  Fs, Run, Cmd, Errno, done, err, fault, pure, abort, check, enotdir, eisdir, and_then, ◌>>=◌,
  block_read, load, read_inode, read_dirents,
}
use systems_projects.Fs.Path.{copy_rows, tokens}
use systems_projects.Fs.Walk.{is_dir, get_dirent_index, no_entry, walk, path_to_inum}
use systems_projects.Fs.Attr.{fs_getattr, fs_readdir, fill_from, inode_to_stat}
use systems_projects.Fs.File.{ptr_at, chunk_len, read_loop, clipped, fs_read}

-- A run that ends in the state `s`, with a value or an error code, or not at all.
abbrev pub EndsIn : {A : Type 0} → Fs → Run A → Type 0
EndsIn s (done a s') = s' ≡ s
EndsIn s (err e s') = s' ≡ s
EndsIn s fault = Prim.Unit {0}

-- A command that leaves every state as it is.
abbrev pub Reads : {A : Type 0} → Cmd A → Type 0
Reads m = (s : Fs) → EndsIn s (m s)

and_then-EndsIn :
    {A B : Type 0} (s : Fs) (r : Run A) (k : A → Cmd B)
    → EndsIn s r
    → ((a : A) → Reads (k a))
    → EndsIn s (and_then r k)
and_then-EndsIn s (done a s') k same h = rw same (h a s)
and_then-EndsIn s (err e s') k same h = same
and_then-EndsIn s fault k same h = tt

module _ {A B : Type 0} where
  bind-Reads : (m : Cmd A) (k : A → Cmd B) → Reads m → ((a : A) → Reads (k a)) → Reads (m >>= k)
  bind-Reads m k h h' s = and_then-EndsIn s (m s) k (h s) h'

if-Reads : {A : Type 0} (b : Bool) (m n : Cmd A) → Reads m → Reads n → Reads (if b then m else n)
if-Reads true m n h h' = h
if-Reads false m n h h' = h'

load-Reads : (lba : ℕ) → Reads (load lba)
unfolding load
load-Reads lba s = elim (Option-cases (block_read lba s.disk)) [
  | inl none_read ↦ rw (none_read, load) tt
  | inr (b, found) ↦ rw (found, load) refl
]

read_inode-Reads : (inum : ℕ) → Reads (read_inode inum)
unfolding read_inode
read_inode-Reads inum = bind-Reads (load inum) _ (load-Reads inum) (λ b s. refl)

read_dirents-Reads : (lba : ℕ) → Reads (read_dirents lba)
unfolding read_dirents
read_dirents-Reads lba = bind-Reads (load lba) _ (load-Reads lba) (λ b s. refl)

check-Reads : (b : Bool) (e : Errno) → Reads (check b e)
check-Reads true e s = refl
check-Reads false e s = refl

copy_rows-Reads : (ts : List Bytes) → Reads (copy_rows ts)
unfolding copy_rows
copy_rows-Reads [] s = refl
copy_rows-Reads (t ∷ ts) s =
    bind-Reads (if ltb 26 (length t) then abort else pure tt) _
      (if-Reads (ltb 26 (length t)) abort (pure tt) (λ s. tt) (λ s. refl))
      (λ u. bind-Reads (copy_rows ts) _ (copy_rows-Reads ts) (λ rest s. refl)) s

option-Reads :
    {A : Type 0} (o : Option ℕ) (n : Cmd A) (k : ℕ → Cmd A)
    → Reads n
    → ((i : ℕ) → Reads (k i))
    → Reads (elim o [ none ↦ n | some i ↦ k i ])
option-Reads none n k h h' = h
option-Reads (some i) n k h h' = h' i

-- `inum ← path_to_inum path`, and so on: the first steps of every call.
walk-Reads : (names : List Bytes) (inode : Inode) (inum : ℕ) → Reads (walk names inode inum)
unfolding walk
walk-Reads [] inode inum s = refl
walk-Reads (name ∷ names) inode inum s =
    bind-Reads (check (not (is_dir inode.mode)) enotdir) _
      (check-Reads (not (is_dir inode.mode)) enotdir)
      (λ u.
        bind-Reads (read_dirents (get_or inode.ptrs 0 0)) _
          (read_dirents-Reads (get_or inode.ptrs 0 0))
          (λ entries.
            option-Reads (get_dirent_index entries name) _ _ (λ s. refl)
              (λ i.
                bind-Reads (read_inode (get_or entries i no_entry).inode) _
                  (read_inode-Reads (get_or entries i no_entry).inode)
                  (λ inode'. walk-Reads names inode' (get_or entries i no_entry).inode))))
      s

path_to_inum-Reads : (path : Bytes) → Reads (path_to_inum path)
unfolding path_to_inum
path_to_inum-Reads path =
    if-Reads (str_eq path (codes "/")) _ _ (λ s. refl)
      (bind-Reads (copy_rows (take 10 (tokens path))) _ (copy_rows-Reads (take 10 (tokens path)))
        (λ names. bind-Reads (read_inode 2) _ (read_inode-Reads 2) (λ root.
          bind-Reads (if is_dir root.mode then pure tt else abort) _
            (if-Reads (is_dir root.mode) _ _ (λ s. refl) (λ s. tt))
            (λ u. walk-Reads names root (get_or root.ptrs 0 0)))))

-- A call that starts with the walk to an inode and the reading of it.
at_inode-Reads :
    {A : Type 0} (path : Bytes) (k : ℕ → Inode → Cmd A)
    → ((inum : ℕ) (i : Inode) → Reads (k inum i))
    → Reads (path_to_inum path >>= λ inum. read_inode inum >>= k inum)
at_inode-Reads path k h =
    bind-Reads (path_to_inum path) _ (path_to_inum-Reads path)
      (λ inum. bind-Reads (read_inode inum) (k inum) (read_inode-Reads inum) (h inum))

fill_from-Reads : (es : List Dirent) → Reads (fill_from es)
unfolding fill_from
fill_from-Reads [] s = refl
fill_from-Reads (e ∷ es) s =
    if-Reads (e.valid == 0) _ _ (fill_from-Reads es)
      (bind-Reads (read_inode e.inode) _ (read_inode-Reads e.inode)
        (λ i. bind-Reads (fill_from es) _ (fill_from-Reads es) (λ more s. refl)))
      s

read_loop-Reads :
    (fuel : ℕ) (i : Inode) (len moved offset : ℕ) → Reads (read_loop fuel i len moved offset)
unfolding read_loop ptr_at
read_loop-Reads zero i len moved offset s = tt
read_loop-Reads (suc f) i len moved offset s =
    let n = chunk_len len moved offset in
    if-Reads (moved == len) _ _ (λ s. refl)
      (bind-Reads (ptr_at i (offset / 4096)) _
        (if-Reads (ltb (offset / 4096) num_ptrs_inode) _ _ (λ s. refl) (λ s. tt))
        (λ p. bind-Reads (load p) _ (load-Reads p) (λ b.
          bind-Reads (read_loop f i len (moved + n) (offset + n)) _
            (read_loop-Reads f i len (moved + n) (offset + n)) (λ rest s. refl))))
      s

-- fs_getattr, fs_readdir and fs_read leave the image, the bitmap and the number of blocks as they
-- were, for every path and every state, whenever they return, be it a value or an error code.
pub fs_read-EndsIn :
    (path : Bytes) (len offset : ℕ) (s : Fs)
    → EndsIn s (fs_getattr path s)
      × EndsIn s (fs_readdir path s)
      × EndsIn s (fs_read path len offset s)
unfolding fs_getattr fs_readdir fs_read
fs_read-EndsIn path len offset s = (
  at_inode-Reads path (λ inum i. pure (inode_to_stat i inum)) (λ inum i s. refl) s,
  at_inode-Reads path _
      (λ inum dir.
        bind-Reads (check (not (is_dir dir.mode)) enotdir) _
          (check-Reads (not (is_dir dir.mode)) enotdir)
          (λ u.
            bind-Reads (read_dirents (get_or dir.ptrs 0 0)) _
              (read_dirents-Reads (get_or dir.ptrs 0 0)) fill_from-Reads))
      s,
  at_inode-Reads path _
      (λ inum i.
        bind-Reads (check (is_dir i.mode) eisdir) _ (check-Reads (is_dir i.mode) eisdir) (λ u.
          if-Reads (leb i.size offset) _ _ (λ s. refl)
            (read_loop-Reads (suc (clipped len offset i.size)) i (clipped len offset i.size) 0
              offset)))
      s,
)
