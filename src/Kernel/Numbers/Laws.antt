-- ===== src/Kernel/Numbers/Laws.antt =====
-- from_chars of lab4-TheCarton-main/lib.cc against the value of the digits as a natural number.
use native.Mathlib.Nat.{le-div_iff_mul-le, mul-le-mul_left, mod-eq_of_lt}
use mathlib.Core.Path.{subst}
use systems_projects.Base.{
  ℕ, suc, ◌+◌, ◌-◌, ◌*◌, ◌/◌, ◌^◌, ◌<◌, ◌≤◌, ◌≡◌, ◌⊎◌, refl, sym, ap, ◌∙◌, true, false, Option,
  none, some, List, [], ◌∷◌, Bytes, arith, length, ◌==◌, ltb, leb, if◌then◌else◌, Bool-cases,
  Option-cases, inl, inr,
}
use systems_projects.Kernel.Numbers.Digits.{digit_value, all_plain, digit_of-digit_value}
use systems_projects.Kernel.Numbers.{
  digit_of, Scan, take_digit, scan, FromChars, invalid, out_of_range, converted, concluded,
  from_chars,
}

-- What the code reads as the digits in front.
abbrev read_digits : (base : ℕ) → Bytes → List ℕ
read_digits base [] = []
read_digits base (c ∷ cs) =
    let rest = read_digits base cs in
    elim (digit_of base c) [ none ↦ [] | some digit ↦ digit ∷ rest ]

-- The digits in front, by their places in the alphabet.
abbrev pub digits : (base : ℕ) → Bytes → List ℕ
digits base [] = []
digits base (c ∷ cs) =
    let rest = digits base cs in elim (digit_value base c) [ none ↦ [] | some digit ↦ digit ∷ rest ]

read_digits-digits :
    (base : ℕ) (cs : Bytes)
    → base ≤ 36
    → all_plain base cs ≡ true
    → read_digits base cs ≡ digits base cs
read_digits-digits base [] le plain = refl
read_digits-digits base (c ∷ cs) le plain =
    let first = digit_of-digit_value base c le (ground (arith, plain)) in
    let rest = read_digits-digits base cs le (ground (arith, plain)) in
    λ i. elim (first i) [ none ↦ [] | some digit ↦ digit ∷ rest i ]

-- The value of digits behind `v`, with no bound.
abbrev pub value : (base : ℕ) → List ℕ → (v : ℕ) → ℕ
value base [] v = v
value base (d ∷ ds) v = value base ds (v * base + d)

-- What the loop has so far, where the value is `v`.
pub record IsScan (s : Scan) (v n : ℕ) : Type 0 where
  pub used : s.used ≡ n
  pub either :
      ((s.overflow ≡ false) × (s.x ≡ v) × (v < 2 ^ 64)) ⊎ ((s.overflow ≡ true) × (2 ^ 64 ≤ v))

mul_grows : (v b : ℕ) → 0 < b → v ≤ v * b
mul_grows v b pos = let h = mul-le-mul_left v pos in omega (arith, h)

digit_of-small : (base c d : ℕ) → base ≤ 36 → digit_of base c ≡ some d → d < 36
unfolding digit_of
digit_of-small base c d le e = ground (arith, le, e)

take_digit-IsScan :
    (base d : ℕ) (s : Scan) (v n : ℕ)
    → 0 < base
    → d < 36
    → IsScan s v n
    → IsScan (take_digit base d s) (v * base + d) (suc n)
unfolding take_digit
take_digit-IsScan base d s v n pos small h = elim (Bool-cases (ltb ((2 ^ 64 - 1 - d) / base) s.x)) [
  | inl too_big ↦ rw too_big (record {
    used = ap suc h.used;
    either = inr (
      refl,
      elim h.either [
        | inl (o, same, below) ↦
            let e : v * base ≡ s.x * base = ap (λ y. y * base) (sym same) in
            omega (arith, e, beyond too_big)
        | inr (o, above) ↦ omega (arith, above, mul_grows v base pos)
      ],
    );
  })
  | inr fits ↦ rw fits (record {
    used = ap suc h.used;
    either = elim h.either [
      | inl (o, same, below) ↦
          let e : v * base ≡ s.x * base = ap (λ y. y * base) (sym same) in
          let lt : s.x * base + d < 2 ^ 64 = within fits in
          inl (o, mod-eq_of_lt lt ∙ ap (λ y. y + d) (sym e), omega (arith, e, lt))
      | inr (o, above) ↦ inr (o, omega (arith, above, mul_grows v base pos))
    ];
  })
]
  where
    within : ltb ((2 ^ 64 - 1 - d) / base) s.x ≡ false → s.x * base + d < 2 ^ 64
    within fits =
        let le =
          (le-div_iff_mul-le pos).0
            (let h : s.x ≤ (2 ^ 64 - 1 - d) / base = ground (arith, fits) in h) in
        omega (arith, le, small)

    beyond : ltb ((2 ^ 64 - 1 - d) / base) s.x ≡ true → 2 ^ 64 ≤ s.x * base + d
    beyond big = elim (Bool-cases (leb (s.x * base) (2 ^ 64 - 1 - d))) [
      | inl low ↦
          let le : s.x * base ≤ 2 ^ 64 - 1 - d = ground (arith, low) in
          absurd (ground (arith, big, (le-div_iff_mul-le pos).1 le))
      | inr high ↦ ground (arith, high, small)
    ]

-- The state and the value after a character that may be a digit.
abbrev scanned : (base : ℕ) → Bytes → Scan → Option ℕ → Scan
scanned base cs s o = elim o [ none ↦ s | some digit ↦ scan base cs (take_digit base digit s) ]

abbrev digits_by : (base : ℕ) → Bytes → Option ℕ → List ℕ
digits_by base cs o =
    let rest = read_digits base cs in elim o [ none ↦ [] | some digit ↦ digit ∷ rest ]

abbrev Follows : (base : ℕ) → Bytes → Scan → (v n : ℕ) → Option ℕ → Type 0
Follows base cs s v n o =
    IsScan (scanned base cs s o) (value base (digits_by base cs o) v)
      (n + length (digits_by base cs o))

scan-IsScan :
    (base : ℕ) (cs : Bytes) (s : Scan) (v n : ℕ)
    → 0 < base
    → base ≤ 36
    → IsScan s v n
    → IsScan
        (scan base cs s)
        (value base (read_digits base cs) v)
        (n + length (read_digits base cs))
unfolding scan
scan-IsScan base [] s v n pos le h = let e : n ≡ n + 0 = omega arith in subst (IsScan s v) e h
scan-IsScan base (c ∷ cs) s v n pos le h = elim (Option-cases (digit_of base c)) [
  | inl stop ↦
      let e : n ≡ n + 0 = omega arith in
      subst (Follows base cs s v n) (sym stop) (subst (IsScan s v) e h)
  | inr (d, more) ↦
      let small = digit_of-small base c d le more in
      let ih =
        scan-IsScan base cs (take_digit base d s) (v * base + d) (suc n) pos le
          (take_digit-IsScan base d s v n pos small h) in
      let e : suc n + length (read_digits base cs) ≡ n + suc (length (read_digits base cs)) =
        omega arith in
      subst (Follows base cs s v n) (sym more) (
        subst
          (IsScan (scan base cs (take_digit base d s))
            (value base (read_digits base cs) (v * base + d)))
          e ih)
]

-- What from_chars should answer: the value of the digits, if there are any and it fits.
abbrev pub answer : (n v : ℕ) → FromChars
answer n v = if n == 0 then invalid else if ltb v (2 ^ 64) then converted v n else out_of_range n

concluded-answer : (s : Scan) (v n : ℕ) → IsScan s v n → concluded s ≡ answer n v
unfolding concluded
concluded-answer s v n h = rw (h.used) (elim h.either [
  | inl (o, same, below) ↦
      let lt : ltb v (2 ^ 64) ≡ true = ground (arith, below) in rw (o, lt, same) refl
  | inr (o, above) ↦ let ge : ltb v (2 ^ 64) ≡ false = ground (arith, above) in rw (o, ge) refl
])

from_chars-read_digits :
    (base : ℕ) (s : Bytes)
    → 0 < base
    → base ≤ 36
    → from_chars base s ≡ answer (length (read_digits base s)) (value base (read_digits base s) 0)
unfolding from_chars
from_chars-read_digits base s pos le =
    let first : Scan = record { x = 0; overflow = false; used = 0 } in
    let h =
      scan-IsScan base s first 0 0 pos le
        (record { used = refl; either = inl (refl, refl, omega arith) }) in
    concluded-answer (scan base s first) (value base (read_digits base s) 0)
      (0 + length (read_digits base s)) h
    ∙ (let e : 0 + length (read_digits base s) ≡ length (read_digits base s) = omega arith in
        ap (λ k. answer k (value base (read_digits base s) 0)) e)

-- from_chars in a base from 1 to 36 converts the digits in front of the text, each by its place in
-- 0 to 9 and a to z, in either case of letters, to their value if it is less than 2 ^ 64, reports
-- E_RANGE for every other value, and E_INVAL if there is no digit; and it stops behind the last
-- digit in each case. The text has none of the characters behind '9' and below '0' + base, such as
-- ':' in base 16 or 'A' in base 18, which the code takes for digits too.
pub from_chars-answer :
    (base : ℕ) (s : Bytes)
    → 0 < base
    → base ≤ 36
    → all_plain base s ≡ true
    → from_chars base s ≡ answer (length (digits base s)) (value base (digits base s) 0)
from_chars-answer base s pos le plain =
    from_chars-read_digits base s pos le
    ∙ ap (λ ds. answer (length ds) (value base ds 0)) (read_digits-digits base s le plain)
