-- ===== src/Base/Strings.antt =====
-- C strings: the characters in front of the terminating NUL, as numbers. `codes` reads a literal.
use Prim.Native.Nat.{ℕ, zero, suc, ◌≤◌, ◌<◌}
use Prim.Native.Char.{code}
use Prim.Native.String.{String}
use mathlib.Core.Bool.{Bool, true, false, ◌&&◌, ◌||◌}
use mathlib.Core.List.{List, [], ◌∷◌, ◌++◌}
use mathlib.Core.Path.{◌≡◌, refl, ap}
use mathlib.Core.Logic.{◌↔◌}
use native.Mathlib.Omega.{arith}
use systems_projects.Base.Tests.{◌==◌, ltb, if◌then◌else◌}
use systems_projects.Base.Lists.{length, drop, set, length-append, length-drop}

abbrev pub Bytes : Type 0
Bytes = List ℕ

abbrev pub codes : String → Bytes
codes String.[] = []
codes (String.◌∷◌ c s) = code c ∷ codes s

-- `strcmp(a, b) == 0`
abbrev pub str_eq : Bytes → Bytes → Bool
str_eq [] [] = true
str_eq [] (y ∷ ys) = false
str_eq (x ∷ xs) [] = false
str_eq (x ∷ xs) (y ∷ ys) = (x == y) && str_eq xs ys

pub str_eq_refl : (a : Bytes) → str_eq a a ≡ true
str_eq_refl [] = refl
str_eq_refl (x ∷ xs) = ground (arith, str_eq_refl xs)

pub str_eq→eq : (a b : Bytes) → str_eq a b ≡ true → a ≡ b
str_eq→eq [] [] h = refl
str_eq→eq [] (y ∷ ys) h = cc
str_eq→eq (x ∷ xs) [] h = cc
str_eq→eq (x ∷ xs) (y ∷ ys) h = ground (arith, str_eq→eq xs ys)

pub eq→str_eq : (a b : Bytes) → a ≡ b → str_eq a b ≡ true
eq→str_eq a b e = ground (arith, str_eq_refl a)

pub str_eq_iff : (a b : Bytes) → (str_eq a b ≡ true) ↔ (a ≡ b)
str_eq_iff a b = (str_eq→eq a b, eq→str_eq a b)

-- A string as it stands in an array: the characters in front of the first NUL.
unfoldable pub c_string : Bytes → Bytes
c_string [] = []
c_string (c ∷ cs) = let rest = c ∷ c_string cs in if c == 0 then [] else rest

-- `strcpy(buf, s)`: the characters and a NUL, and behind them what was there, if the array has room
-- for them.
abbrev pub has_room : Bytes → Bytes → Bool
has_room buf s = ltb (length s) (length buf)

unfoldable pub strcpy : Bytes → Bytes → Bytes
strcpy buf s = s ++ (0 ∷ drop (suc (length s)) buf)

-- A C string has no NUL inside.
abbrev pub NoNul : Bytes → Type 0
NoNul [] = Prim.Unit {0}
NoNul (c ∷ cs) = ((c == 0) ≡ false) × NoNul cs

pub c_string-append : (s rest : Bytes) → NoNul s → c_string (s ++ 0 ∷ rest) ≡ s
unfolding c_string
c_string-append [] rest clean = refl
c_string-append (c ∷ cs) rest clean = rw clean.0 (ap (◌∷◌ c) (c_string-append cs rest clean.1))

-- What `strcpy` puts into an array is read back from it.
pub c_string-strcpy : (buf s : Bytes) → NoNul s → c_string (strcpy buf s) ≡ s
unfolding strcpy
c_string-strcpy buf s clean = c_string-append s (drop (suc (length s)) buf) clean

pub length-strcpy : (buf s : Bytes) → has_room buf s ≡ true → length (strcpy buf s) ≡ length buf
unfolding strcpy
length-strcpy buf s room =
    let lt : length s < length buf = ground (arith, room) in
    omega
      (arith, lt, length-append s (0 ∷ drop (suc (length s)) buf), length-drop (suc (length s)) buf)

-- The array holds a string: there is a NUL in it.
abbrev pub has_nul : Bytes → Bool
has_nul [] = false
has_nul (c ∷ cs) = (c == 0) || has_nul cs

-- A NUL that is written into an array bounds the string in it.
pub length-c_string-set :
    (buf : Bytes) (n : ℕ) → n < length buf → length (c_string (set buf n 0)) ≤ n
unfolding c_string
length-c_string-set [] n h = elim h [ ]
length-c_string-set (c ∷ cs) zero h = omega arith
length-c_string-set (c ∷ cs) (suc n) h = ground (arith, length-c_string-set cs n (omega (arith, h)))

pub length-c_string : (buf : Bytes) → length (c_string buf) ≤ length buf
unfolding c_string
length-c_string [] = omega arith
length-c_string (c ∷ cs) = ground (arith, length-c_string cs)
