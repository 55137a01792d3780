-- ===== src/Fs/Walk/Way.antt =====
-- A way through the directories, for path_to_inum of fs5600.c: the blocks that the walk reads, and
-- what another state has to agree on for the walk to end in the same place.
use systems_projects.Base.{
  ℕ, ◌≡◌, refl, ap, ◌∙◌, true, false, Option, none, some, List, [], ◌∷◌, Bytes, codes, str_eq,
  get_or, take,
}
use systems_projects.Fs.Layout.{Block, Inode, Dirent, decode_inode, decode_dirents}
use systems_projects.Fs.State.{
  Fs, done, block_read, read_inode, read_dirents, Cmd, fail, enoent, ◌>>=◌,
}
use systems_projects.Fs.State.Laws.{load-done, read_inode-done}
use systems_projects.Fs.Path.{tokens, copy_rows}
use systems_projects.Fs.Walk.{is_dir, no_entry, get_dirent_index, walk, path_to_inum}
use systems_projects.Fs.Walk.Resolve.{Resolves}

read_dirents-done :
    (s : Fs) (lba : ℕ) {b : Block}
    → block_read lba s.disk ≡ some b
    → read_dirents lba s ≡ done (decode_dirents b) s
unfolding read_dirents
read_dirents-done s lba e = rw (load-done s lba e)

-- The entry `name` of the directory `dir` is found, and leads to block `inum`. The block of the
-- entries is one that `keep` speaks of.
pub record Finds (keep : ℕ → Type 0) (s : Fs) (dir : Inode) (name : Bytes) (inum : ℕ) : Type 0 where
  pub is_directory : is_dir dir.mode ≡ true
  pub kept : keep (get_or dir.ptrs 0 0)
  pub entries : Block
  pub readable : block_read (get_or dir.ptrs 0 0) s.disk ≡ some entries
  pub index : ℕ
  pub found : get_dirent_index (decode_dirents entries) name ≡ some index
  pub leads : (get_or (decode_dirents entries) index no_entry).inode ≡ inum

-- From the directory `dir` the names lead to block `inum`.
pub data Way (keep : ℕ → Type 0) (s : Fs) (inum : ℕ) : List Bytes → Inode → Type 0 where
  last : (name : Bytes) (dir : Inode) → Finds keep s dir name inum → Way keep s inum (name ∷ []) dir
  down :
      (name : Bytes) (names : List Bytes) (dir : Inode) (at : ℕ) (b : Block)
      → Finds keep s dir name at
      → keep at
      → block_read at s.disk ≡ some b
      → Way keep s inum names (decode_inode b)
      → Way keep s inum (name ∷ names) dir

-- The path is not "/", its names are short enough, and they lead from the root to `inum`.
pub record Leads (keep : ℕ → Type 0) (s : Fs) (path : Bytes) (inum : ℕ) : Type 0 where
  pub below : str_eq path (codes "/") ≡ false
  pub names : List Bytes
  pub copied : (t : Fs) → copy_rows (take 10 (tokens path)) t ≡ done names t
  pub kept : keep 2
  pub root : Block
  pub readable : block_read 2 s.disk ≡ some root
  pub is_directory : is_dir (decode_inode root).mode ≡ true
  pub way : Way keep s inum names (decode_inode root)

-- What is done with the entry that a lookup finds.
abbrev onward : List Bytes → List Dirent → Option ℕ → Cmd ℕ
onward names entries none = fail enoent
onward names entries (some i) = read_inode (get_or entries i no_entry).inode >>= λ inode'.
    walk names inode' (get_or entries i no_entry).inode

walk-onward :
    (name : Bytes) (names : List Bytes) (dir : Inode) (n at : ℕ) (t : Fs) (es : List Dirent) (j : ℕ)
    → is_dir dir.mode ≡ true
    → read_dirents (get_or dir.ptrs 0 0) t ≡ done es t
    → get_dirent_index es name ≡ some j
    → (get_or es j no_entry).inode ≡ at
    → walk (name ∷ names) dir n t ≡ (read_inode at >>= λ inode'. walk names inode' at) t
unfolding walk
walk-onward name names dir n at t es j directory read found leads =
    rw (directory, read) refl
    ∙ ap (λ o. onward names es o t) found
    ∙ ap (λ x. (read_inode x >>= λ inode'. walk names inode' x) t) leads

-- A state that agrees with `s` on the blocks that `keep` speaks of, and holds an inode in `inum`.
module _ {keep : ℕ → Type 0} {s : Fs} (t : Fs) {inum : ℕ} {i : Inode}
    (same : (lba : ℕ) (b : Block)
      → keep lba
      → block_read lba s.disk ≡ some b
      → block_read lba t.disk ≡ some b)
    (holds : read_inode inum t ≡ done i t) where
  walk-Way :
      (names : List Bytes) (dir : Inode) (n : ℕ)
      → Way keep s inum names dir
      → walk names dir n t ≡ done inum t
  unfolding walk
  walk-Way _ _ n (last name dir f) =
      walk-onward name [] dir n inum t (decode_dirents f.entries) f.index f.is_directory
        (read_dirents-done t (get_or dir.ptrs 0 0)
          (same (get_or dir.ptrs 0 0) f.entries f.kept f.readable))
        f.found f.leads
      ∙ rw (holds) refl
  walk-Way _ _ n (down name names dir at b f kept readable w) =
      walk-onward name names dir n at t (decode_dirents f.entries) f.index f.is_directory
        (read_dirents-done t (get_or dir.ptrs 0 0)
          (same (get_or dir.ptrs 0 0) f.entries f.kept f.readable))
        f.found f.leads
      ∙ (rw (read_inode-done t at (same at b kept readable)) refl
          ∙ walk-Way names (decode_inode b) at w)

  pub path_to_inum-Leads : (path : Bytes) → Leads keep s path inum → Resolves t path inum i
  unfolding path_to_inum
  path_to_inum-Leads path l = record {
    walked =
        rw
          (
            l.below,
            l.copied t,
            read_inode-done t 2 (same 2 l.root l.kept l.readable),
            l.is_directory,
          )
          (walk-Way l.names (decode_inode l.root) (get_or (decode_inode l.root).ptrs 0 0) l.way);
    holds = holds;
  }
