-- ===== src/Cipher.antt =====
-- lab1-TheCarton-main/part2/caesar.c: the Caesar cipher on strings of letters and digits. A
-- character is its code; a string is worked on in place, so each function returns the string that
-- the caller gets and what is left in the buffer. A key is an `int`.
pub mod Shift
pub mod RoundTrip
mod Tests
use systems_projects.Base.{
  ◌||◌, ℕ, ◌+◌, ◌-◌, Bool, true, false, not, ◌&&◌, [], ◌∷◌, Bytes, codes, ltb, leb, if◌then◌else◌,
  ℤ, pos, negsuc, negate_int, rem,
}

abbrev pub between : ℕ → ℕ → ℕ → Bool
between lo hi c = leb lo c && leb c hi

unfoldable pub is_alpha : ℕ → Bool
is_alpha c = between b'a' b'z' c

unfoldable pub is_upper_alpha : ℕ → Bool
is_upper_alpha c = between b'A' b'Z' c

unfoldable pub is_numeric : ℕ → Bool
is_numeric c = between b'0' b'9' c

unfoldable pub is_alphanumeric : ℕ → Bool
unfolding is_alpha is_upper_alpha is_numeric
is_alphanumeric c = is_alpha c || is_upper_alpha c || is_numeric c

-- `ascii + norm_shift`, which is not negative: a letter or digit is at least 48, and the shift is
-- above -26.
unfoldable pub add_shift : ℕ → ℤ → ℕ
add_shift c (pos n) = c + n
add_shift c (negsuc n) = c - (n + 1)

-- The rest of shift_char, once `len`, `first_char` and `last_char` are set.
unfoldable pub rotate : (len first last : ℕ) → ℕ → ℤ → ℕ
unfolding add_shift
rotate len first last c shift =
    let d = add_shift c (rem shift len) in
    if ltb last d then d - len else if ltb d first then d + len else d

unfoldable pub shift_char : ℕ → ℤ → ℕ
unfolding is_alpha is_upper_alpha rotate
shift_char c shift =
    if is_alpha c
    then rotate 26 b'a' b'z' c shift
    else if is_upper_alpha c
    then rotate 26 b'A' b'Z' c shift
    else rotate 10 b'0' b'9' c shift

-- The loop of both functions: whether it reached the end, and the buffer.
unfoldable pub shift_all : Bytes → ℤ → Bool × Bytes
shift_all [] shift = (true, [])
shift_all (c ∷ cs) shift =
    let (whole, rest) = shift_all cs shift in
    if not (is_alphanumeric c) then (false, c ∷ cs) else (whole, shift_char c shift ∷ rest)

-- The string that is returned, and the buffer.
unfoldable pub encode : Bytes → ℤ → Bytes × Bytes
encode plaintext key =
    let (whole, buffer) = shift_all plaintext key in
    (if whole then buffer else codes "ILLCHAR", buffer)

unfoldable pub decode : Bytes → ℤ → Bytes × Bytes
decode ciphertext key =
    let (whole, buffer) = shift_all ciphertext (negate_int key) in
    (if whole then buffer else codes "ILLCHAR\n", buffer)
