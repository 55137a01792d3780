-- ===== src/Kernel/Numbers/Digits.antt =====
-- What the digits of a number are, apart from the code of from_chars in lab4-TheCarton-main/lib.cc,
-- and where digit_of reads a character as one of them.
use systems_projects.Base.{
  ℕ, zero, suc, ◌+◌, ◌<◌, ◌≤◌, ◌≡◌, refl, sym, ◌∙◌, Bool, true, false, ◌&&◌, ◌||◌, Option, none,
  some, [], ◌∷◌, Bytes, codes, arith, ◌==◌, ltb, leb, if◌then◌else◌, Bool-cases, inl, inr, take,
  first_from,
}
use systems_projects.Kernel.Numbers.{digit_of}

-- The digits of base 36 in the order of their values, in both spellings.
abbrev pub lower_digits : Bytes
lower_digits = codes "0123456789abcdefghijklmnopqrstuvwxyz"

abbrev pub upper_digits : Bytes
upper_digits = codes "0123456789ABCDEFGHIJKLMNOPQRSTUVWXYZ"

abbrev pub place : Bytes → ℕ → Option ℕ
place alphabet c = first_from (λ (x : ℕ). x == c) alphabet 0

abbrev or_else : Option ℕ → Option ℕ → Option ℕ
or_else none b = b
or_else (some d) b = some d

or_else-none : (a b : Option ℕ) → a ≡ none → b ≡ none → or_else a b ≡ none
or_else-none none b p q = q
or_else-none (some d) b p q = p

-- The value of a digit is its place in the alphabet.
unfoldable pub digit_value : (base c : ℕ) → Option ℕ
digit_value base c = or_else (place (take base lower_digits) c) (place (take base upper_digits) c)

-- None of the characters behind '9' that stand below '0' + base: from_chars takes those for digits.
abbrev pub is_plain : (base c : ℕ) → Bool
is_plain base c = leb c b'9' || leb (b'0' + base) c

abbrev pub all_plain : (base : ℕ) → Bytes → Bool
all_plain base [] = true
all_plain base (c ∷ cs) = is_plain base c && all_plain base cs

abbrev same : Option ℕ → Option ℕ → Bool
same none none = true
same none (some y) = false
same (some x) none = false
same (some x) (some y) = x == y

same→eq : (a b : Option ℕ) → same a b ≡ true → a ≡ b
same→eq none none h = refl
same→eq none (some y) h = cc
same→eq (some x) none h = cc
same→eq (some x) (some y) h = ground (arith, h)

-- A test at all numbers below a bound, by evaluation.
holds_below : (ℕ → Bool) → (bound : ℕ) → Bool
holds_below test zero = true
holds_below test (suc k) = holds_below test k && test k

holds_at : (test : ℕ → Bool) (k c : ℕ) → c < k → holds_below test k ≡ true → test c ≡ true
unfolding holds_below
holds_at test zero c low table = elim low [ ]
holds_at test (suc k) c low table = elim (Bool-cases (c == k)) [
  | inl last ↦ let here : c ≡ k = ground (arith, last) in rw here (ground (arith, table))
  | inr before ↦ holds_at test k c (ground (arith, before, low)) (ground (arith, table))
]

all_lt : ℕ → Bytes → Bool
all_lt n [] = true
all_lt n (x ∷ xs) = ltb x n && all_lt n xs

first_from-beyond :
    (xs : Bytes) (n c i : ℕ)
    → all_lt n xs ≡ true
    → n ≤ c
    → first_from (λ (x : ℕ). x == c) xs i ≡ none
unfolding all_lt
first_from-beyond [] n c i h le = refl
first_from-beyond (x ∷ xs) n c i h le =
    let miss : (x == c) ≡ false = ground (arith, h) in
    rw miss (first_from-beyond xs n c (suc i) (ground (arith, h)) le)

-- What is behind 'z' is no digit.
abbrev ends_at_z : ℕ → Bool
ends_at_z base = all_lt 123 (take base lower_digits) && all_lt 123 (take base upper_digits)

ends_at_z_table : holds_below ends_at_z 37 ≡ true
unfolding holds_below all_lt
ends_at_z_table = refl

abbrev agrees : (base c : ℕ) → Bool
agrees base c = if is_plain base c then same (digit_of base c) (digit_value base c) else true

agrees_table : holds_below (λ base. holds_below (agrees base) 123) 37 ≡ true
unfolding holds_below digit_of digit_value
agrees_table = refl

beyond_alphabet : (base c : ℕ) → 123 ≤ c → ends_at_z base ≡ true → digit_value base c ≡ none
unfolding digit_value
beyond_alphabet base c far small =
    let lower = first_from-beyond (take base lower_digits) 123 c 0 (ground (arith, small)) far in
    let upper = first_from-beyond (take base upper_digits) 123 c 0 (ground (arith, small)) far in
    or_else-none (place (take base lower_digits) c) (place (take base upper_digits) c) lower upper

-- In a base up to 36 the code reads every plain character as the digit that it is.
pub digit_of-digit_value :
    (base c : ℕ) → base ≤ 36 → is_plain base c ≡ true → digit_of base c ≡ digit_value base c
digit_of-digit_value base c le plain = elim (Bool-cases (ltb c 123)) [
  | inl below ↦
      let row =
        holds_at (λ b. holds_below (agrees b) 123) 37 base (omega (arith, le)) agrees_table in
      let at = holds_at (agrees base) 123 c (ground (arith, below)) row in
      same→eq (digit_of base c) (digit_value base c) (rw plain at at)
  | inr above ↦
      let far : 123 ≤ c = ground (arith, above) in
      let small = holds_at ends_at_z 37 base (omega (arith, le)) ends_at_z_table in
      beyond_code far ∙ sym (beyond_alphabet base c far small)
]
  where
    beyond_code : 123 ≤ c → digit_of base c ≡ none
    beyond_code far = unfold digit_of in ground (arith, far, le)
