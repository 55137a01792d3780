-- ===== src/Base/Decimal.antt =====
-- Numbers as decimal text: `atoi`, and `sprintf` with `%d` at a number that is not negative.
use Prim.Native.Nat.{ℕ, zero, suc, ◌+◌, ◌-◌, ◌*◌, ◌/◌, ◌%◌, ◌^◌, ◌≤◌, ◌<◌}
use mathlib.Core.Path.{◌≡◌, refl, ap, ◌∙◌}
use mathlib.Core.Bool.{Bool, true, ◌&&◌, ◌||◌}
use mathlib.Core.List.{[], ◌∷◌, ◌++◌}
use mathlib.Core.Logic.{inl, inr}
use native.Mathlib.Omega.{arith}
use native.Mathlib.Nat.{pow-suc}
use systems_projects.Base.Tests.{◌==◌, ltb, leb, if◌then◌else◌, Bool-cases}
use systems_projects.Base.Strings.{Bytes, codes, NoNul}
use systems_projects.Base.Lists.{length}
use systems_projects.Base.Int.{ℤ, pos, minus}

abbrev is_digit : ℕ → Bool
is_digit c = leb b'0' c && leb c b'9'

-- The digits in front, with `acc` read before them.
unfoldable pub digits_value : Bytes → ℕ → ℕ
digits_value [] acc = acc
digits_value (c ∷ cs) acc =
    let rest = digits_value cs (10 * acc + (c - b'0')) in if is_digit c then rest else acc

signed : ℕ → Bytes → ℤ
signed c cs =
    if c == b'-'
    then minus (digits_value cs 0)
    else if c == b'+'
    then pos (digits_value cs 0)
    else pos (digits_value (c ∷ cs) 0)

-- White space, a sign, and the digits that follow.
unfoldable pub atoi : Bytes → ℤ
unfolding digits_value signed
atoi [] = pos 0
atoi (c ∷ cs) = let rest = atoi cs in if c == b' ' || leb 9 c && leb c 13 then rest else signed c cs

-- The digits of `n` in front of `rest`, with a round for each digit.
digits_from : (fuel n : ℕ) → Bytes → Bytes
digits_from zero n rest = rest
digits_from (suc f) n rest =
    let more = digits_from f (n / 10) ((b'0' + n % 10) ∷ rest) in
    if ltb n 10 then (b'0' + n) ∷ rest else more

unfoldable pub decimal : ℕ → Bytes
unfolding digits_from
decimal n = digits_from (suc n) n []

digits_value-digits_from :
    (f n : ℕ) (rest : Bytes) → n < f → digits_value (digits_from f n rest) 0 ≡ digits_value rest n
unfolding digits_from digits_value
digits_value-digits_from zero n rest h = absurd (omega arith)
digits_value-digits_from (suc f) n rest h = elim (Bool-cases (ltb n 10)) [
  | inl last ↦ rw last (ground arith)
  | inr more ↦
      rw more
        (digits_value-digits_from f (n / 10) ((b'0' + n % 10) ∷ rest) (ground arith) ∙ ground arith)
]

atoi_head :
    (c : ℕ) (cs : Bytes) → b'0' ≤ c → c ≤ b'9' → atoi (c ∷ cs) ≡ pos (digits_value (c ∷ cs) 0)
unfolding atoi
atoi_head c cs lo hi = ground arith

atoi-digits_from :
    (f n : ℕ) (rest : Bytes)
    → n < f
    → atoi (digits_from f n rest) ≡ pos (digits_value (digits_from f n rest) 0)
unfolding digits_from
atoi-digits_from zero n rest h = absurd (omega arith)
atoi-digits_from (suc f) n rest h = elim (Bool-cases (ltb n 10)) [
  | inl last ↦ rw last (atoi_head (b'0' + n) rest (omega arith) (ground arith))
  | inr more ↦ rw more (atoi-digits_from f (n / 10) ((b'0' + n % 10) ∷ rest) (ground arith))
]

-- A number that has been printed is read back.
pub atoi-decimal : (n : ℕ) → atoi (decimal n) ≡ pos n
unfolding decimal
atoi-decimal n =
    atoi-digits_from (suc n) n [] (omega arith)
    ∙ ap pos (digits_value-digits_from (suc n) n [] (omega arith) ∙ unfold digits_value in refl)

digits_from-NoNul : (f n : ℕ) (rest : Bytes) → NoNul rest → NoNul (digits_from f n rest)
unfolding digits_from
digits_from-NoNul zero n rest clean = clean
digits_from-NoNul (suc f) n rest clean = elim (Bool-cases (ltb n 10)) [
  | inl last ↦ rw last (ground arith, clean)
  | inr more ↦ rw more (digits_from-NoNul f (n / 10) ((b'0' + n % 10) ∷ rest) (ground arith, clean))
]

pub decimal-NoNul : (n : ℕ) → NoNul (decimal n)
unfolding decimal
decimal-NoNul n = digits_from-NoNul (suc n) n [] tt

-- A newline ends the number.
digits_value_line :
    (cs : Bytes) (acc : ℕ) → digits_value (cs ++ codes "\n") acc ≡ digits_value cs acc
unfolding digits_value
digits_value_line [] acc = refl
digits_value_line (c ∷ cs) acc = rw (digits_value_line cs (10 * acc + (c - 48))) refl

signed_line : (c : ℕ) (cs : Bytes) → signed c (cs ++ codes "\n") ≡ signed c cs
unfolding signed
signed_line c cs = rw (digits_value_line cs 0, digits_value_line (c ∷ cs) 0) refl

pub atoi_line : (cs : Bytes) → atoi (cs ++ codes "\n") ≡ atoi cs
unfolding atoi signed digits_value
atoi_line [] = refl
atoi_line (c ∷ cs) = rw (atoi_line cs, signed_line c cs) refl

length-digits_from :
    (f k n : ℕ) (rest : Bytes)
    → n < 10 ^ suc k
    → length (digits_from f n rest) ≤ suc k + length rest
unfolding digits_from
length-digits_from zero k n rest h = omega arith
length-digits_from (suc f) zero n rest h =
    let last : ltb n 10 ≡ true = ground (arith, h) in rw last (omega arith)
length-digits_from (suc f) (suc k) n rest h = elim (Bool-cases (ltb n 10)) [
  | inl last ↦ rw last (omega arith)
  | inr more ↦
      let small : n / 10 < 10 ^ suc k = omega (arith, h, pow-suc 10 (suc k)) in
      rw more (omega (arith, length-digits_from f k (n / 10) ((b'0' + n % 10) ∷ rest) small))
]

-- A number has at most `suc k` digits below 10 ^ suc k.
pub length-decimal : (k n : ℕ) → n < 10 ^ suc k → length (decimal n) ≤ suc k
unfolding decimal
length-decimal k n h = omega (arith, length-digits_from (suc n) k n [] h)
