-- ===== src/Fs/Path.antt =====
-- Path names in fs5600.c: the splitting by `strtok`, get_last_filename and get_parent_path.
pub mod Laws
use systems_projects.Base.{
  ℕ, zero, suc, ◌+◌, List, [], ◌∷◌, ◌++◌, Bytes, ◌==◌, ltb, leb, if◌then◌else◌, get_or, length,
  take,
}
use systems_projects.Fs.State.{◌>>=◌, ◌>>◌, Cmd, einval, pure, fail, abort}

abbrev pub slash : ℕ
slash = b'/'

abbrev pub flush : Bytes → List Bytes → List Bytes
flush [] ts = ts
flush (c ∷ cs) ts = (c ∷ cs) ∷ ts

-- What the calls of `strtok(p, "/")` return: the pieces between slashes that are not empty. `cur`
-- is the piece that has been read so far.
unfoldable pub tokens_from : Bytes → Bytes → List Bytes
tokens_from cur [] = flush cur []
tokens_from cur (c ∷ cs) =
    let next = flush cur (tokens_from [] cs) in
    let more = tokens_from (cur ++ c ∷ []) cs in if c == slash then next else more

unfoldable pub tokens : Bytes → List Bytes
tokens path = tokens_from [] path

-- `strcpy(filenames[i], token)`: a row has 27 characters, the NUL included.
unfoldable pub copy_rows : List Bytes → Cmd (List Bytes)
copy_rows [] = pure []
copy_rows (t ∷ ts) = do
  if ltb 26 (length t) then abort else pure tt
  rest ← copy_rows ts
  pure (t ∷ rest)

-- The loop of get_last_filename, which first turns down names of more than 27 letters.
unfoldable pub copy_checked : List Bytes → Cmd (List Bytes)
copy_checked [] = pure []
copy_checked (t ∷ ts) = do
  if ltb 27 (length t) then fail einval else pure tt
  if ltb 26 (length t) then abort else pure tt
  rest ← copy_checked ts
  pure (t ∷ rest)

-- `filenames[pathc - 1]`
last_row : List Bytes → Cmd Bytes
last_row [] = abort
last_row (t ∷ []) = pure t
last_row (t ∷ u ∷ us) = last_row (u ∷ us)

unfoldable pub get_last_filename : Bytes → Cmd Bytes
unfolding last_row
get_last_filename path = do names ← copy_checked (take 10 (tokens path)); last_row names

-- The loop of get_parent_path at `i`, which goes down from the end and never looks at index 0.
unfoldable pub cut_from : Bytes → ℕ → Bytes
cut_from p zero = take 1 p
cut_from p (suc i) =
    let rest = cut_from p i in if get_or p (suc i) 0 == slash then take (suc i) p else rest

unfoldable pub parent_of : Bytes → Bytes
parent_of path = cut_from path (length path)

-- `cap` is the size of the caller's buffer.
unfoldable pub get_parent_path : ℕ → Bytes → Cmd Bytes
get_parent_path cap path =
    let p = parent_of path in if leb (length p + 1) cap then pure p else abort
