-- ===== src/Fs/File/Chunk.antt =====
-- Sizes of chunks, and ranges of bytes.
use systems_projects.Base.{
  ℕ, zero, suc, ◌+◌, ◌%◌, ◌<◌, ◌≤◌, ◌≡◌, refl, ap, ◌∙◌, [], ◌∷◌, ◌++◌, Bytes, arith, get_or, length,
  take, drop,
}
use systems_projects.Fs.File.{chunk_len}

-- A round that has something to do moves at least one byte, no more than is left, and stays in the
-- block of its offset.
pub record ChunkFits (len moved offset n : ℕ) : Type 0 where
  pub positive : 0 < n
  pub left : moved + n ≤ len
  pub inside : offset % 4096 + n ≤ 4096

pub chunk_len-ChunkFits :
    (len moved offset : ℕ) → moved < len → ChunkFits len moved offset (chunk_len len moved offset)
unfolding chunk_len
chunk_len-ChunkFits len moved offset h = ground arith

-- `f` at `n` places from `o` on.
abbrev pub bytes_from : (ℕ → ℕ) → ℕ → ℕ → Bytes
bytes_from f o zero = []
bytes_from f o (suc n) = f o ∷ bytes_from f (suc o) n

pub length-bytes_from : (f : ℕ → ℕ) (o n : ℕ) → length (bytes_from f o n) ≡ n
length-bytes_from f o zero = refl
length-bytes_from f o (suc n) = ap suc (length-bytes_from f (suc o) n)

pub bytes_from_congr :
    (f g : ℕ → ℕ) (a b n : ℕ)
    → ((k : ℕ) → k < n → f (a + k) ≡ g (b + k))
    → bytes_from f a n ≡ bytes_from g b n
bytes_from_congr f g a b zero h = refl
bytes_from_congr f g a b (suc n) h =
    let here : f a ≡ g b = ap f (omega arith) ∙ (h 0 (omega arith) ∙ ap g (omega arith)) in
    rw (
      here,
      bytes_from_congr f g (suc a) (suc b) n
          (λ k lt. ap f (omega arith) ∙ (h (suc k) (omega arith) ∙ ap g (omega arith))),
    )

pub bytes_from-append :
    (f : ℕ → ℕ) (o n m : ℕ) → bytes_from f o n ++ bytes_from f (o + n) m ≡ bytes_from f o (n + m)
bytes_from-append f o zero m =
    let e : o + 0 ≡ o = omega arith in let e' : 0 + m ≡ m = omega arith in rw (e, e')
bytes_from-append f o (suc n) m =
    let e : o + suc n ≡ suc o + n = omega arith in
    let e' : suc n + m ≡ suc (n + m) = omega arith in
    rw (e, e') (ap (◌∷◌ (f o)) (bytes_from-append f (suc o) n m))

get_or-suc :
    (x : ℕ) (xs : Bytes) (a b : ℕ)
    → b ≡ suc a
    → (k : ℕ) → get_or xs (a + k) 0 ≡ get_or (x ∷ xs) (b + k) 0
get_or-suc x xs a b e k =
    ap (λ (j : ℕ). get_or (x ∷ xs) j 0) (let e' : suc (a + k) ≡ b + k = omega arith in e')

pub take-drop_bytes :
    (b : Bytes) (w n : ℕ)
    → w + n ≤ length b
    → take n (drop w b) ≡ bytes_from (λ k. get_or b k 0) w n
take-drop_bytes [] zero zero h = refl
take-drop_bytes [] zero (suc n) h = absurd (omega arith)
take-drop_bytes [] (suc w) n h = absurd (omega arith)
take-drop_bytes (x ∷ xs) zero zero h = refl
take-drop_bytes (x ∷ xs) zero (suc n) h = ap (◌∷◌ x) (
    take-drop_bytes xs zero n (omega arith)
    ∙ bytes_from_congr (λ k. get_or xs k 0) (λ k. get_or (x ∷ xs) k 0) 0 1 n
        (λ k lt. get_or-suc x xs 0 1 (omega arith) k))
take-drop_bytes (x ∷ xs) (suc w) n h =
    take-drop_bytes xs w n (omega arith)
    ∙ bytes_from_congr (λ k. get_or xs k 0) (λ k. get_or (x ∷ xs) k 0) w (suc w) n
        (λ k lt. get_or-suc x xs w (suc w) refl k)
