-- ===== src/Base/Search.antt =====
-- `for (i = 0; i < N; i++) if (test(a[i])) return i;` and what it returns.
use Prim.Native.Nat.{ℕ, zero, suc, ◌+◌, ◌<◌}
use mathlib.Core.Path.{◌≡◌, refl, ap, ◌∙◌}
use mathlib.Core.Logic.{◌≢◌, inl, inr}
use mathlib.Core.Bool.{Bool, true, false}
use mathlib.Core.List.{List, [], ◌∷◌}
use mathlib.Core.Option.{Option, none, some}
use native.Mathlib.Omega.{arith}
use systems_projects.Base.Tests.{if◌then◌else◌, Bool-cases}
use systems_projects.Base.Lists.{length, get_elem?, set}

module _ {ℓ} {A : Type ℓ} where
  -- The loop at index `i`, with the elements from there on.
  abbrev pub first_from : (A → Bool) → List A → ℕ → Option ℕ
  first_from p [] i = none
  first_from p (x ∷ xs) i = let rest = first_from p xs (suc i) in if p x then some i else rest

  abbrev pub count : (A → Bool) → List A → ℕ
  count p [] = 0
  count p (x ∷ xs) = (if p x then 1 else 0) + count p xs

  -- `j` is the least index whose element passes the test, and `x` the element there.
  pub record IsFirst (p : A → Bool) (xs : List A) (j : ℕ) : Type ℓ where
    pub item : A
    pub there : get_elem? xs j ≡ some item
    pub passes : p item ≡ true
    pub least : (k : ℕ) (y : A) → k < j → get_elem? xs k ≡ some y → p y ≡ false

  IsFirst-cons :
      (p : A → Bool) (x : A) (xs : List A) (j : ℕ)
      → p x ≡ false
      → IsFirst p xs j
      → IsFirst p (x ∷ xs) (suc j)
  IsFirst-cons p x xs j miss f = record {
    item = f.item;
    there = f.there;
    passes = f.passes;
    least = before;
  }
    where
      before : (k : ℕ) (y : A) → k < suc j → get_elem? (x ∷ xs) k ≡ some y → p y ≡ false
      before zero y h e = ground arith
      before (suc k) y h e = f.least k y (omega arith) e

  first_from-shift :
      (p : A → Bool) (xs : List A) (i j : ℕ)
      → first_from p xs i ≡ some j
      → (k : ℕ) × (j ≡ i + k) × IsFirst p xs k
  first_from-shift p [] i j h = cc
  first_from-shift p (x ∷ xs) i j h = elim (Bool-cases (p x)) [
    | inl hit ↦ (
      0,
      ground arith,
      record { item = x; there = refl; passes = hit; least = λ k y lt e. elim lt [ ] },
    )
    | inr miss ↦
        let (k, e, f) = first_from-shift p xs (suc i) j (rw miss at h) in
        (suc k, omega arith, IsFirst-cons p x xs k miss f)
  ]

  pub first_from-IsFirst :
      (p : A → Bool) (xs : List A) (j : ℕ) → first_from p xs 0 ≡ some j → IsFirst p xs j
  first_from-IsFirst p xs j h =
      let (k, e, f) = first_from-shift p xs 0 j h in let e' : k ≡ j = omega arith in rw e' at f

  pub first_from-none :
      (p : A → Bool) (xs : List A) (i : ℕ)
      → first_from p xs i ≡ none
      → (k : ℕ) (y : A) → get_elem? xs k ≡ some y
      → p y ≡ false
  first_from-none p [] i h k y e = cc
  first_from-none p (x ∷ xs) i h zero y e = ground arith
  first_from-none p (x ∷ xs) i h (suc k) y e = first_from-none p xs (suc i) (ground arith) k y e

  pub IsFirst-first_from :
      (p : A → Bool) (xs : List A) (i j : ℕ) → IsFirst p xs j → first_from p xs i ≡ some (i + j)
  IsFirst-first_from p [] i j f = cc f.there
  IsFirst-first_from p (x ∷ xs) i zero f = ground (arith, f.there, f.passes)
  IsFirst-first_from p (x ∷ xs) i (suc j) f = rw (f.least 0 x (omega arith) refl) (
      IsFirst-first_from p xs (suc i) j (record {
        item = f.item;
        there = f.there;
        passes = f.passes;
        least = λ k y lt e. f.least (suc k) y (omega arith) e;
      })
      ∙ ap some (omega arith))

  pub first_from-eq_none :
      (p : A → Bool) (xs : List A) (i : ℕ)
      → ((k : ℕ) (y : A) → get_elem? xs k ≡ some y → p y ≡ false)
      → first_from p xs i ≡ none
  first_from-eq_none p [] i h = refl
  first_from-eq_none p (x ∷ xs) i h =
      rw (h 0 x refl) (first_from-eq_none p xs (suc i) (λ k y e. h (suc k) y e))

  -- Replacing an element that passes as the old one did changes nothing.
  pub first_from-set :
      (p : A → Bool) (xs : List A) (i n : ℕ) (x v : A)
      → get_elem? xs n ≡ some x
      → p v ≡ p x
      → first_from p (set xs n v) i ≡ first_from p xs i
  first_from-set p [] i n x v e h = refl
  first_from-set p (y ∷ ys) i zero x v e h = ground arith
  first_from-set p (y ∷ ys) i (suc n) x v e h = rw (first_from-set p ys (suc i) n x v e h)

  -- An element that passes has been put where none passed.
  pub first_from-set_new :
      (p : A → Bool) (xs : List A) (n : ℕ) (v : A)
      → n < length xs
      → p v ≡ true
      → ((k : ℕ) (y : A) → get_elem? xs k ≡ some y → p y ≡ false)
      → (i : ℕ) → first_from p (set xs n v) i ≡ some (i + n)
  first_from-set_new p [] n v lt pass none_passes i = elim lt [ ]
  first_from-set_new p (x ∷ xs) zero v lt pass none_passes i = ground arith
  first_from-set_new p (x ∷ xs) (suc n) v lt pass none_passes i = rw (none_passes 0 x refl) (
      first_from-set_new p xs n v (omega arith) pass (λ k y e. none_passes (suc k) y e) (suc i)
      ∙ ap some (omega arith))

  pub count_le : (p : A → Bool) (xs : List A) → Prim.Native.Nat.◌≤◌ (count p xs) (length xs)
  count_le p [] = omega arith
  count_le p (x ∷ xs) = ground (arith, count_le p xs)

  -- Fewer pass `p` than there are elements, and what fails `p` passes `q`.
  pub first_from-room :
      (p q : A → Bool) (xs : List A) (i : ℕ)
      → ((k : ℕ) (y : A) → get_elem? xs k ≡ some y → p y ≡ false → q y ≡ true)
      → count p xs < length xs
      → first_from q xs i ≢ none
  first_from-room p q [] i h lt = elim lt [ ]
  first_from-room p q (x ∷ xs) i h lt =
      ground (arith, h 0 x refl, first_from-room p q xs (suc i) (λ k y e. h (suc k) y e))
