-- ===== src/Cipher/RoundTrip.antt =====
-- encode and decode of caesar.c on whole strings.
use systems_projects.Base.{
  ◌≡◌, refl, Bool, true, false, ◌&&◌, [], ◌∷◌, Bytes, codes, arith, ℤ, negate, negate_int,
  HasOpposite, negate_int-negate,
}
use systems_projects.Cipher.{is_alphanumeric, shift_all, encode, decode}
use systems_projects.Cipher.Shift.{shift_char-negate}

-- Every character is a letter or a digit.
abbrev pub all_alphanumeric : Bytes → Bool
all_alphanumeric [] = true
all_alphanumeric (c ∷ cs) = is_alphanumeric c && all_alphanumeric cs

shift_all-whole : (s : Bytes) (k : ℤ) → (shift_all s k).0 ≡ all_alphanumeric s
unfolding shift_all
shift_all-whole [] k = refl
shift_all-whole (c ∷ cs) k = ground (arith, shift_all-whole cs k)

shift_all-negate :
    (s : Bytes) (k : ℤ)
    → all_alphanumeric s ≡ true
    → (all_alphanumeric (shift_all s k).1 ≡ true) × ((shift_all (shift_all s k).1 (negate k)).1 ≡ s)
unfolding shift_all
shift_all-negate [] k h = (refl, refl)
shift_all-negate (c ∷ cs) k h = ground (arith, shift_char-negate c k, shift_all-negate cs k)

-- A string of letters and digits that is encoded is decoded with the same key to what it was,
-- whatever its sign and size, if the key is an `int` other than INT_MIN.
pub decode-encode :
    (s : Bytes) (k : ℤ)
    → HasOpposite k
    → all_alphanumeric s ≡ true
    → (decode (encode s k).0 k).0 ≡ s
unfolding decode encode
decode-encode s k small h =
    let (clean, back) = shift_all-negate s k h in
    rw (negate_int-negate k small) (
      ground
        (arith, shift_all-whole s k, shift_all-whole (shift_all s k).1 (negate k), clean, back))

-- A string with another character in it is answered with the error word, by both functions.
pub encode_illegal :
    (s : Bytes) (k : ℤ)
    → all_alphanumeric s ≡ false
    → ((encode s k).0 ≡ codes "ILLCHAR") × ((decode s k).0 ≡ codes "ILLCHAR\n")
unfolding decode encode
encode_illegal s k h =
    (ground (arith, shift_all-whole s k), ground (arith, shift_all-whole s (negate_int k)))
