-- ===== src/Kernel/Numbers.antt =====
-- lab4-TheCarton-main/lib.cc: from_chars for `unsigned long`, which reads a number in a base from 2 to
-- 36. The text is what stands from `first` on, up to `last` or to a NUL.
pub mod Digits
pub mod Laws
mod Tests
use systems_projects.Base.{
  ℕ, suc, ◌+◌, ◌-◌, ◌*◌, ◌/◌, ◌%◌, ◌^◌, Bool, true, false, ◌&&◌, Option, none, some, [], ◌∷◌, Bytes,
  ◌==◌, ltb, leb, if◌then◌else◌,
}

-- The value of a digit; `none` ends the number.
unfoldable pub digit_of : (base c : ℕ) → Option ℕ
digit_of base c =
    if leb b'0' c && ltb c (b'0' + base)
    then some (c - b'0')
    else if leb b'a' c && ltb c (b'a' + base - 10)
    then some (c - b'a' + 10)
    else if leb b'A' c && ltb c (b'A' + base - 10)
    then some (c - b'A' + 10)
    else none

-- `x`, `overflow` and `s - first`.
pub record Scan : Type 0 where
  pub x : ℕ
  pub overflow : Bool
  pub used : ℕ

-- The body of the loop.
unfoldable pub take_digit : (base digit : ℕ) → Scan → Scan
take_digit base digit s =
    if ltb ((2 ^ 64 - 1 - digit) / base) s.x
    then record s { overflow = true; used = suc s.used }
    else record s { x = (s.x * base + digit) % 2 ^ 64; used = suc s.used }

unfoldable pub scan : (base : ℕ) → Bytes → Scan → Scan
scan base [] s = s
scan base (c ∷ cs) s = elim (digit_of base c) [
  | none ↦ s
  | some digit ↦ scan base cs (take_digit base digit s)
]

-- E_INVAL, E_RANGE, and success with `value`; each but the first with how far the number went.
pub data FromChars : Type 0 where
  invalid : FromChars
  out_of_range : ℕ → FromChars
  converted : (value used : ℕ) → FromChars

unfoldable pub concluded : Scan → FromChars
concluded s =
    if s.used == 0
    then invalid
    else if s.overflow
    then out_of_range s.used
    else converted s.x s.used

unfoldable pub from_chars : (base : ℕ) → Bytes → FromChars
from_chars base s = concluded (scan base s (record { x = 0; overflow = false; used = 0 }))
