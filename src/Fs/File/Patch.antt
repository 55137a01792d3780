-- ===== src/Fs/File/Patch.antt =====
-- The bytes of a file before and after fs_write of fs5600.c, as lists.
use systems_projects.Base.{
  ℕ, zero, suc, ◌+◌, ◌-◌, ◌<◌, ◌≤◌, ◌≡◌, ◌⊎◌, refl, sym, ap, ◌∙◌, [], ◌∷◌, ◌++◌, Bytes, arith,
  get_or, length, take, drop, inl, inr,
}
use systems_projects.Fs.File.{grown}
use systems_projects.Fs.File.Chunk.{
  bytes_from, bytes_from_congr, bytes_from-append, take-drop_bytes,
}

-- The file ends where it did, or where the new bytes end.
pub record GrownFits (size len offset m : ℕ) : Type 0 where
  pub old : size ≤ m
  pub new : offset + len ≤ m
  pub either : (m ≡ size) ⊎ (m ≡ offset + len)

pub grown-GrownFits :
    (size len offset : ℕ) → offset ≤ size → GrownFits size len offset (grown size len offset)
unfolding grown
grown-GrownFits size len offset le = record {
  old = ground (arith, le);
  new = ground (arith, le);
  either = ground (arith, le);
}

take-bytes_from : (f : ℕ → ℕ) (o m n : ℕ) → m ≤ n → take m (bytes_from f o n) ≡ bytes_from f o m
take-bytes_from f o zero n le = refl
take-bytes_from f o (suc m) zero le = absurd (omega (arith, le))
take-bytes_from f o (suc m) (suc n) le =
    ap (◌∷◌ (f o)) (take-bytes_from f (suc o) m n (omega (arith, le)))

drop-bytes_from : (f : ℕ → ℕ) (o m n : ℕ) → drop m (bytes_from f o n) ≡ bytes_from f (o + m) (n - m)
drop-bytes_from f o zero n =
    let e : o ≡ o + 0 = omega arith in
    let e' : n ≡ n - 0 = omega arith in ap (λ x. bytes_from f x n) e ∙ ap (bytes_from f (o + 0)) e'
drop-bytes_from f o (suc m) zero =
    let e : 0 ≡ 0 - suc m = omega arith in ap (bytes_from f (o + suc m)) e
drop-bytes_from f o (suc m) (suc n) =
    let e : suc o + m ≡ o + suc m = omega arith in
    let e' : n - m ≡ suc n - suc m = omega arith in
    drop-bytes_from f (suc o) m n
    ∙ (ap (λ x. bytes_from f x (n - m)) e ∙ ap (bytes_from f (o + suc m)) e')

take-all : (b : Bytes) → take (length b) b ≡ b
take-all [] = refl
take-all (x ∷ b) = ap (◌∷◌ x) (take-all b)

bytes_from-all : (b : Bytes) → bytes_from (λ k. get_or b k 0) 0 (length b) ≡ b
bytes_from-all b = sym (take-drop_bytes b 0 (length b) (omega arith)) ∙ take-all b

from_zero : (b : Bytes) (k : ℕ) → get_or b (0 + k) 0 ≡ get_or b k 0
from_zero b k = let e : 0 + k ≡ k = omega arith in ap (λ x. get_or b x 0) e

-- Bytes that agree with `buf` for its length from `offset` on, and with `f` outside.
pub patched :
    (f g : ℕ → ℕ) (offset size m : ℕ) (buf : Bytes)
    → offset ≤ size
    → GrownFits size (length buf) offset m
    → ((k : ℕ) → k < length buf → g (offset + k) ≡ get_or buf k 0)
    → ((o : ℕ) → (o < offset) ⊎ (offset + length buf ≤ o) → o < size → g o ≡ f o)
    → bytes_from g 0 m
      ≡ take offset (bytes_from f 0 size)
        ++ (buf ++ drop (offset + length buf) (bytes_from f 0 size))
patched f g offset size m buf start fits inner outer =
    let len = length buf in
    let rest : ℕ = size - (offset + len) in
    let parts : offset + (len + rest) ≡ m = elim fits.either [
      | inl same ↦ omega (arith, same, fits.new)
      | inr longer ↦ omega (arith, longer, fits.old)
    ] in
    let first : take offset (bytes_from f 0 size) ≡ bytes_from g 0 offset =
      take-bytes_from f 0 offset size start
      ∙ bytes_from_congr f g 0 0 offset
          (λ k lt. sym (outer (0 + k) (inl (omega (arith, lt))) (omega (arith, start, lt)))) in
    let middle : buf ≡ bytes_from g offset len =
      sym (bytes_from-all buf)
      ∙ bytes_from_congr (λ k. get_or buf k 0) g 0 offset len
          (λ k lt. from_zero buf k ∙ sym (inner k lt)) in
    let last : drop (offset + len) (bytes_from f 0 size) ≡ bytes_from g (offset + len) rest =
      drop-bytes_from f 0 (offset + len) size
      ∙ ap (λ x. bytes_from f x rest) (let e : 0 + (offset + len) ≡ offset + len = omega arith in e)
      ∙ bytes_from_congr f g (offset + len) (offset + len) rest
          (λ k lt. sym (outer (offset + len + k) (inr (omega arith)) (omega (arith, lt)))) in
    ap (bytes_from g 0) (sym parts)
    ∙ (sym (bytes_from-append g 0 offset (len + rest))
        ∙ ap (λ x. bytes_from g 0 offset ++ bytes_from g x (len + rest))
            (let e : 0 + offset ≡ offset = omega arith in e)
        ∙ ap (◌++◌ (bytes_from g 0 offset)) (sym (bytes_from-append g offset len rest))
        ∙ sym (ap (λ x. x ++ (bytes_from g offset len ++ bytes_from g (offset + len) rest)) first)
        ∙ sym (
            ap (λ x. take offset (bytes_from f 0 size) ++ (x ++ bytes_from g (offset + len) rest))
              middle)
        ∙ sym (ap (λ x. take offset (bytes_from f 0 size) ++ (buf ++ x)) last))
