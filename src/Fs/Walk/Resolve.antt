-- ===== src/Fs/Walk/Resolve.antt =====
-- Where a path leads: path_to_inum of fs5600.c and the inode found there.
use systems_projects.Base.{ℕ, ◌≡◌, Bytes}
use systems_projects.Fs.Layout.{Inode}
use systems_projects.Fs.State.{Fs, done, read_inode}
use systems_projects.Fs.Walk.{path_to_inum}

-- The path leads to the block `inum`, which holds the inode `i`.
pub record Resolves (s : Fs) (path : Bytes) (inum : ℕ) (i : Inode) : Type 0 where
  pub walked : path_to_inum path s ≡ done inum s
  pub holds : read_inode inum s ≡ done i s
