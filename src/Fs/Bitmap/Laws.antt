-- ===== src/Fs/Bitmap/Laws.antt =====
-- Setting and clearing a bit changes the test of that bit and of no other.
use Prim.Native.Nat.{bit_and, bit_or}
use mathlib.Core.List.{[], ◌∷◌}
use systems_projects.Base.{
  if◌then◌else◌, ◌∙◌, ℕ, zero, suc, ◌-◌, ◌*◌, ◌/◌, ◌%◌, ◌^◌, ◌<◌, ◌≡◌, refl, inl, inr, Bool, true,
  false, not, ◌&&◌, ◌||◌, Bytes, ◌==◌, get_or, set, length, arith, Bool-cases, get_or-set_self,
  get_or-set_ne, length-set,
}
use systems_projects.Fs.Bitmap.{byte_at, bit_set, bit_clear, bit_test}

-- The test holds of every number under the bound.
holds_under : (ℕ → Bool) → ℕ → Bool
holds_under test zero = true
holds_under test (suc top) = let below = holds_under test top in if test top then below else false

holds_under-lookup :
    (test : ℕ → Bool) (v bound : ℕ) → v < bound → holds_under test bound ≡ true → test v ≡ true
unfolding holds_under
holds_under-lookup test v zero lt all = absurd (omega arith)
holds_under-lookup test v (suc top) lt all = elim (Bool-cases (v == top)) [
  | inl last ↦ let e : v ≡ top = ground arith in rw e (ground arith)
  | inr earlier ↦ holds_under-lookup test v top (ground arith) (ground arith)
]

abbrev same : Bool → Bool → Bool
same true b = b
same false b = not b

same→eq : (a b : Bool) → same a b ≡ true → a ≡ b
same→eq a b h = ground arith

-- All bytes `b`, with bit `k` changed and bit `l` tested.
abbrev set_row : ℕ → ℕ → ℕ → Bool
set_row b k l =
    same (bit_and (bit_or b (2 ^ k)) (2 ^ l) == 0) (not (k == l) && (bit_and b (2 ^ l) == 0))

abbrev clear_row : ℕ → ℕ → ℕ → Bool
clear_row b k l =
    same (bit_and (bit_and b (255 - 2 ^ k)) (2 ^ l) == 0) ((k == l) || (bit_and b (2 ^ l) == 0))

abbrev small_row : ℕ → ℕ → Bool
small_row b k = (bit_or b (2 ^ k) / 256 == 0) && (bit_and b (255 - 2 ^ k) / 256 == 0)

abbrev each_bit : (ℕ → Bool) → Bool
each_bit test = holds_under test 8

abbrev each_byte : (ℕ → Bool) → Bool
each_byte test = holds_under test 256

set_table : each_byte (λ b. each_bit (λ k. each_bit (set_row b k))) ≡ true
unfolding holds_under
set_table = refl

clear_table : each_byte (λ b. each_bit (λ k. each_bit (clear_row b k))) ≡ true
unfolding holds_under
clear_table = refl

small_table : each_byte (λ b. each_bit (small_row b)) ≡ true
unfolding holds_under
small_table = refl

-- A table of bytes and two bits, looked up.
table_entry :
    (row : ℕ → ℕ → ℕ → Bool) (b k l : ℕ)
    → b < 256
    → k < 8
    → l < 8
    → each_byte (λ b. each_bit (λ k. each_bit (row b k))) ≡ true
    → row b k l ≡ true
table_entry row b k l hb hk hl table = holds_under-lookup (row b k) l 8 hl (
    holds_under-lookup (λ k. each_bit (row b k)) k 8 hk
      (holds_under-lookup (λ b. each_bit (λ k. each_bit (row b k))) b 256 hb table))

set_bit : (b k l : ℕ) → b < 256 → k < 8 → l < 8 → set_row b k l ≡ true
set_bit b k l hb hk hl = table_entry set_row b k l hb hk hl set_table

clear_bit : (b k l : ℕ) → b < 256 → k < 8 → l < 8 → clear_row b k l ≡ true
clear_bit b k l hb hk hl = table_entry clear_row b k l hb hk hl clear_table

small_bit : (b k : ℕ) → b < 256 → k < 8 → small_row b k ≡ true
small_bit b k hb hk =
    holds_under-lookup (small_row b) k 8 hk
      (holds_under-lookup (λ b. each_bit (small_row b)) b 256 hb small_table)

-- 4096 bytes.
pub record IsBitmap (map : Bytes) : Type 0 where
  pub width : length map ≡ 4096
  pub bytes : (i : ℕ) → get_or map i 0 < 256

abbrev pub is_clear : Bytes → ℕ → Bool
is_clear map i = bit_test map i == 0

get_or-set-lt :
    (map : Bytes) (n v i : ℕ)
    → ((i : ℕ) → get_or map i 0 < 256)
    → v < 256
    → get_or (set map n v) i 0 < 256
get_or-set-lt [] n v i h small = h i
get_or-set-lt (b ∷ bs) zero v zero h small = small
get_or-set-lt (b ∷ bs) zero v (suc i) h small = h (suc i)
get_or-set-lt (b ∷ bs) (suc n) v zero h small = h 0
get_or-set-lt (b ∷ bs) (suc n) v (suc i) h small = get_or-set-lt bs n v i (λ i. h (suc i)) small

write_byte-IsBitmap : {map : Bytes} (n v : ℕ) → IsBitmap map → v < 256 → IsBitmap (set map n v)
write_byte-IsBitmap {map} n v valid small = record {
  width = length-set map n v ∙ valid.width;
  bytes = λ i. get_or-set-lt map n v i valid.bytes small;
}

module _ {map : Bytes} (valid : IsBitmap map) (i : ℕ) where
  pub bit_set-IsBitmap : IsBitmap (bit_set map i)
  unfolding bit_set
  bit_set-IsBitmap =
      write_byte-IsBitmap (i / 8) _ valid
        (ground (arith, small_bit (byte_at map i) (i % 8) (valid.bytes (i / 8))))

  pub bit_clear-IsBitmap : IsBitmap (bit_clear map i)
  unfolding bit_clear
  bit_clear-IsBitmap =
      write_byte-IsBitmap (i / 8) _ valid
        (ground (arith, small_bit (byte_at map i) (i % 8) (valid.bytes (i / 8))))

  module _ (fits : i < 4096 * 8) (j : ℕ) where
    -- bit_set makes its own bit test as set, and leaves the test of every other bit as it was.
    pub is_clear-bit_set : is_clear (bit_set map i) j ≡ (not (i == j) && is_clear map j)
    unfolding bit_set bit_test
    is_clear-bit_set = elim (Bool-cases (i / 8 == j / 8)) [
      | inr apart ↦ rw (get_or-set_ne map (i / 8) (j / 8) 0 _ (ground arith)) (ground arith)
      | inl together ↦
          let e : j / 8 ≡ i / 8 = ground arith in
          rw (e, get_or-set_self map (i / 8) 0 _ (omega (arith, valid.width)))
            (ground (
              arith,
              set_bit (byte_at map i) (i % 8) (j % 8) (valid.bytes (i / 8)) (omega arith)
                  (omega arith),
            ))
    ]

    -- bit_clear makes its own bit test as clear, and leaves the test of every other bit as it was.
    pub is_clear-bit_clear : is_clear (bit_clear map i) j ≡ ((i == j) || is_clear map j)
    unfolding bit_clear bit_test
    is_clear-bit_clear = elim (Bool-cases (i / 8 == j / 8)) [
      | inr apart ↦ rw (get_or-set_ne map (i / 8) (j / 8) 0 _ (ground arith)) (ground arith)
      | inl together ↦
          let e : j / 8 ≡ i / 8 = ground arith in
          rw (e, get_or-set_self map (i / 8) 0 _ (omega (arith, valid.width)))
            (ground (
              arith,
              clear_bit (byte_at map i) (i % 8) (j % 8) (valid.bytes (i / 8)) (omega arith)
                  (omega arith),
            ))
    ]
