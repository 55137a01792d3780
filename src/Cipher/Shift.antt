-- ===== src/Cipher/Shift.antt =====
-- shift_char moves a character along its own alphabet.
use systems_projects.Base.{
  ℕ, zero, suc, ◌+◌, ◌-◌, ◌%◌, ◌<◌, ◌≤◌, ◌≡◌, refl, inl, inr, true, false, arith, ltb,
  if◌then◌else◌, ℤ, pos, negsuc, negate, Bool-cases, minus,
}
use systems_projects.Cipher.{
  is_alpha, is_upper_alpha, is_numeric, is_alphanumeric, shift_char, rotate, add_shift, between,
}

-- A shift forth, and as far back, in an alphabet of `len` characters from `first` on.
module _ (len first : ℕ) where
  -- The character at a distance of `n` behind `c`, round the alphabet.
  abbrev pub ahead : ℕ → ℕ → ℕ
  ahead c n = first + (c - first + n) % len

-- A shift that is not negative moves a letter or digit that many places along its own alphabet,
-- closed to a ring.
pub shift_char-ahead :
    (c n : ℕ)
    → ((is_alpha c ≡ true) → shift_char c (pos n) ≡ ahead 26 b'a' c n)
      × ((is_upper_alpha c ≡ true) → shift_char c (pos n) ≡ ahead 26 b'A' c n)
      × ((is_numeric c ≡ true) → shift_char c (pos n) ≡ ahead 10 b'0' c n)
unfolding shift_char is_numeric
shift_char-ahead c n = (λ h. ground arith, λ h. ground arith, λ h. ground arith)

add_shift-minus : (c m : ℕ) → add_shift c (minus m) ≡ c - m
unfolding add_shift
add_shift-minus c zero = omega arith
add_shift-minus c (suc m) = omega arith

-- An alphabet: `len` characters from `first` to `last`, far enough from 0.
abbrev IsRing : ℕ → ℕ → ℕ → Type 0
IsRing len first last = (0 < len) × (len ≤ first) × (last + 1 ≡ first + len)

abbrev wrapped : (len first last d : ℕ) → ℕ
wrapped len first last d = if ltb last d then d - len else if ltb d first then d + len else d

module _ (len first last c : ℕ) (ring : IsRing len first last) (lo : first ≤ c)
    (hi : c ≤ last) where
  rotate_ahead : (n : ℕ) → rotate len first last c (pos n) ≡ wrapped len first last (c + n % len)
  unfolding rotate
  rotate_ahead n = refl

  rotate_behind : (n : ℕ) → rotate len first last c (minus n) ≡ wrapped len first last (c - n % len)
  unfolding rotate
  rotate_behind zero = let e : c + 0 % len ≡ c - 0 % len = grind arith in rw e
  rotate_behind (suc n) = rw (add_shift-minus c (suc n % len))

  rotate_in : (k : ℤ) → (first ≤ rotate len first last c k) × (rotate len first last c k ≤ last)
  rotate_in (pos n) = rw (rotate_ahead n) (ground arith)
  rotate_in (negsuc n) = rw (rotate_behind (suc n)) (ground arith)

module _ (len first last c : ℕ) (ring : IsRing len first last) (lo : first ≤ c)
    (hi : c ≤ last) where
  rotate_back : (k : ℤ) → rotate len first last (rotate len first last c k) (negate k) ≡ c
  rotate_back (pos n) =
      let here = rotate_in len first last c ring lo hi (pos n) in
      rw
        (
          rotate_behind len first last (rotate len first last c (pos n)) ring here.0 here.1 n,
          rotate_ahead len first last c ring lo hi n,
        )
        (ground arith)
  rotate_back (negsuc n) =
      let here = rotate_in len first last c ring lo hi (negsuc n) in
      rw
        (
          rotate_ahead len first last (rotate len first last c (negsuc n)) ring here.0 here.1
              (suc n),
          rotate_behind len first last c ring lo hi (suc n),
        )
        (ground arith)

-- What shift_char does in each class.
shift_lower : (c : ℕ) (k : ℤ) → b'a' ≤ c → c ≤ b'z' → shift_char c k ≡ rotate 26 b'a' b'z' c k
unfolding shift_char
shift_lower c k lo hi = let e : between b'a' b'z' c ≡ true = ground arith in rw e

shift_upper : (c : ℕ) (k : ℤ) → b'A' ≤ c → c ≤ b'Z' → shift_char c k ≡ rotate 26 b'A' b'Z' c k
unfolding shift_char
shift_upper c k lo hi =
    let e : between b'a' b'z' c ≡ false = ground arith in
    let e' : between b'A' b'Z' c ≡ true = ground arith in rw (e, e')

shift_digit : (c : ℕ) (k : ℤ) → b'0' ≤ c → c ≤ b'9' → shift_char c k ≡ rotate 10 b'0' b'9' c k
unfolding shift_char
shift_digit c k lo hi =
    let e : between b'a' b'z' c ≡ false = ground arith in
    let e' : between b'A' b'Z' c ≡ false = ground arith in rw (e, e')

data Class (c : ℕ) : Type 0 where
  lower : b'a' ≤ c → c ≤ b'z' → Class c
  upper : b'A' ≤ c → c ≤ b'Z' → Class c
  digit : b'0' ≤ c → c ≤ b'9' → Class c

is_alphanumeric-Class : (c : ℕ) → is_alphanumeric c ≡ true → Class c
unfolding is_alphanumeric
is_alphanumeric-Class c h = elim (Bool-cases (is_alpha c)) [
  | inl small ↦ lower (ground arith) (ground arith)
  | inr not_small ↦ elim (Bool-cases (is_upper_alpha c)) [
    | inl big ↦ upper (ground arith) (ground arith)
    | inr not_big ↦ digit (ground arith) (ground arith)
  ]
]

lower-IsRing : IsRing 26 b'a' b'z'
lower-IsRing = omega arith

upper-IsRing : IsRing 26 b'A' b'Z'
upper-IsRing = omega arith

digit-IsRing : IsRing 10 b'0' b'9'
digit-IsRing = omega arith

-- A shift turns a letter or digit into a letter or digit, and the shift back undoes it.
pub shift_char-negate :
    (c : ℕ) (k : ℤ)
    → is_alphanumeric c ≡ true
    → (is_alphanumeric (shift_char c k) ≡ true) × (shift_char (shift_char c k) (negate k) ≡ c)
unfolding is_alphanumeric
shift_char-negate c k h = elim (is_alphanumeric-Class c h) [
  | lower lo hi ↦
      let r = rotate_in 26 b'a' b'z' c lower-IsRing lo hi k in
      rw (shift_lower c k lo hi, shift_lower (rotate 26 b'a' b'z' c k) (negate k) r.0 r.1)
        (ground (arith, r), rotate_back 26 b'a' b'z' c lower-IsRing lo hi k)
  | upper lo hi ↦
      let r = rotate_in 26 b'A' b'Z' c upper-IsRing lo hi k in
      rw (shift_upper c k lo hi, shift_upper (rotate 26 b'A' b'Z' c k) (negate k) r.0 r.1)
        (ground (arith, r), rotate_back 26 b'A' b'Z' c upper-IsRing lo hi k)
  | digit lo hi ↦
      let r = rotate_in 10 b'0' b'9' c digit-IsRing lo hi k in
      rw (shift_digit c k lo hi, shift_digit (rotate 10 b'0' b'9' c k) (negate k) r.0 r.1)
        (ground (arith, r), rotate_back 10 b'0' b'9' c digit-IsRing lo hi k)
]
