-- ===== src/Kernel/Library/Laws.antt =====
-- memcpy, memmove, memset and memcmp of lab4-TheCarton-main/lib.cc.
use systems_projects.Base.{
  ℕ, zero, suc, ◌+◌, ◌-◌, ◌<◌, ◌≤◌, ◌≡◌, ◌≢◌, ◌⊎◌, ◌↔◌, refl, sym, ap, ◌∙◌, true, false, ◌&&◌, inl,
  inr, arith, ◌==◌, ==_iff, ltb, leb, if◌then◌else◌, Bool-cases, pos,
}
use systems_projects.Kernel.Library.{
  Memory, poke, copy_up, copy_down, memcpy, memmove, sign, memcmp,
}

-- The memory in which the bytes at `dst` are those that were at `src`.
abbrev pub copied : (dst src n : ℕ) → Memory → Memory
copied dst src n m = λ x. if leb dst x && ltb x (dst + n) then m (src + (x - dst)) else m x

poke_self : (m : Memory) (a v : ℕ) → poke m a v a ≡ v
poke_self m a v = ground arith

poke_ne : (m : Memory) (a v x : ℕ) → x ≢ a → poke m a v x ≡ m x
poke_ne m a v x ne = ground arith

-- Inside the range, and outside.
copied_in :
    (d s n : ℕ) (m : Memory) (x k : ℕ)
    → d ≤ x
    → x < d + n
    → k ≡ s + (x - d)
    → copied d s n m x ≡ m k
copied_in d s n m x k le lt e =
    let inside : (leb d x && ltb x (d + n)) ≡ true = ground (arith, le, lt) in
    rw inside (ap m (sym e))

copied_out : (d s n : ℕ) (m : Memory) (x : ℕ) → (x < d) ⊎ (d + n ≤ x) → copied d s n m x ≡ m x
copied_out d s n m x out =
    let outside : (leb d x && ltb x (d + n)) ≡ false = ground (arith, out) in rw outside refl

-- Where an address is, of a range with a first byte.
at_front : (d n x : ℕ) → (x ≡ d) ⊎ (((d < x) × (x < d + suc n)) ⊎ ((x < d) ⊎ (d + suc n ≤ x)))
at_front d n x = ground arith

copy_up-copied :
    (n d s : ℕ) (m : Memory)
    → (d ≤ s) ⊎ (s + n ≤ d)
    → (x : ℕ) → copy_up n d s m x ≡ copied d s n m x
unfolding copy_up
copy_up-copied zero d s m apart x = sym (
    copied_out d s 0 m x (elim (Bool-cases (ltb x d)) [
      | inl before ↦ inl (ground (arith, before))
      | inr behind ↦ inr (ground (arith, behind))
    ]))
copy_up-copied (suc n) d s m apart x =
    let m' = poke m d (m s) in
    let still : (suc d ≤ suc s) ⊎ (suc s + n ≤ suc d) = elim apart [
      | inl below ↦ inl (omega (arith, below))
      | inr above ↦ inr (omega (arith, above))
    ] in
    copy_up-copied n (suc d) (suc s) m' still x ∙ elim (at_front d n x) [
      | inl here ↦
          copied_out (suc d) (suc s) n m' x (inl (omega (arith, here)))
          ∙ ap m' here
          ∙ poke_self m d (m s)
          ∙ sym (
              copied_in d s (suc n) m x s (omega (arith, here)) (omega (arith, here))
                (omega (arith, here)))
      | inr (inl (lo, hi)) ↦
          let k = s + (x - d) in
          let ne : k ≢ d = elim apart [
            | inl below ↦ λ z. omega (arith, below, lo, hi, z)
            | inr above ↦ λ z. omega (arith, above, lo, hi, z)
          ] in
          copied_in (suc d) (suc s) n m' x k (omega (arith, lo)) (omega (arith, hi))
            (omega (arith, lo))
          ∙ poke_ne m d (m s) k ne
          ∙ sym (copied_in d s (suc n) m x k (omega (arith, lo)) hi refl)
      | inr (inr out) ↦
          let far : (x < suc d) ⊎ (suc d + n ≤ x) = elim out [
            | inl before ↦ inl (omega (arith, before))
            | inr behind ↦ inr (omega (arith, behind))
          ] in
          let ne : x ≢ d = elim out [
            | inl before ↦ λ z. omega (arith, before, z)
            | inr behind ↦ λ z. omega (arith, behind, z)
          ] in
          copied_out (suc d) (suc s) n m' x far
          ∙ poke_ne m d (m s) x ne
          ∙ sym (copied_out d s (suc n) m x out)
    ]

at_back : (d n x : ℕ) → (x ≡ d + n) ⊎ (((d ≤ x) × (x < d + n)) ⊎ ((x < d) ⊎ (d + suc n ≤ x)))
at_back d n x = ground arith

-- From the back, if the source stands before the destination.
copy_down-copied :
    (n d s de se : ℕ) (m : Memory)
    → s ≤ d
    → de ≡ d + n
    → se ≡ s + n
    → (x : ℕ) → copy_down n de se m x ≡ copied d s n m x
unfolding copy_down
copy_down-copied zero d s de se m le e e' x = sym (
    copied_out d s 0 m x (elim (Bool-cases (ltb x d)) [
      | inl before ↦ inl (ground (arith, before))
      | inr behind ↦ inr (ground (arith, behind))
    ]))
copy_down-copied (suc n) d s de se m le e e' x =
    let v = m (se - 1) in
    let m' = poke m (de - 1) v in
    copy_down-copied n d s (de - 1) (se - 1) m' le (omega (arith, e)) (omega (arith, e')) x
    ∙ elim (at_back d n x) [
      | inl here ↦
          let same : x ≡ de - 1 = omega (arith, here, e) in
          copied_out d s n m' x (inr (omega (arith, here)))
          ∙ ap m' same
          ∙ poke_self m (de - 1) v
          ∙ sym (
              copied_in d s (suc n) m x (se - 1) (omega (arith, here)) (omega (arith, here))
                (omega (arith, here, e')))
      | inr (inl (lo, hi)) ↦
          let k = s + (x - d) in
          copied_in d s n m' x k lo hi refl
          ∙ poke_ne m (de - 1) v k (λ z. omega (arith, le, lo, hi, e, z))
          ∙ sym (copied_in d s (suc n) m x k lo (omega (arith, hi)) refl)
      | inr (inr out) ↦
          let far : (x < d) ⊎ (d + n ≤ x) = elim out [
            | inl before ↦ inl before
            | inr behind ↦ inr (omega (arith, behind))
          ] in
          let ne : x ≢ de - 1 = elim out [
            | inl before ↦ λ z. omega (arith, before, e, z)
            | inr behind ↦ λ z. omega (arith, behind, e, z)
          ] in
          copied_out d s n m' x far
          ∙ poke_ne m (de - 1) v x ne
          ∙ sym (copied_out d s (suc n) m x out)
    ]

not_over :
    (dst src n : ℕ) → (ltb src dst && ltb dst (src + n)) ≡ false → (dst ≤ src) ⊎ (src + n ≤ dst)
not_over dst src n clear = ground (arith, clear)

-- memcpy, if the destination does not begin inside the source behind its first byte.
pub memcpy-copied :
    (dst src n : ℕ) (m : Memory)
    → (ltb src dst && ltb dst (src + n)) ≡ false
    → (x : ℕ) → memcpy dst src n m x ≡ copied dst src n m x
unfolding memcpy
memcpy-copied dst src n m clear x = copy_up-copied n dst src m (not_over dst src n clear) x

-- memmove leaves at the destination the bytes that were at the source before the call, however the
-- two ranges overlap, and changes no other byte.
pub memmove-copied :
    (dst src n : ℕ) (m : Memory) (x : ℕ)
    → memmove dst src n m x ≡ (if leb dst x && ltb x (dst + n) then m (src + (x - dst)) else m x)
unfolding memmove
memmove-copied dst src n m x = elim (Bool-cases (ltb src dst && ltb dst (src + n))) [
  | inl over ↦
      rw over (copy_down-copied n dst src (dst + n) (src + n) m (ground (arith, over)) refl refl x)
  | inr clear ↦ rw clear (copy_up-copied n dst src m (not_over dst src n clear) x)
]

-- A byte of the first range and its counterpart in the second.
abbrev pub Alike : (a b n : ℕ) → Memory → Type 0
Alike a b n m = (k : ℕ) → k < n → m (a + k) ≡ m (b + k)

sign_same : (x y : ℕ) → sign x y ≡ pos 0 → x ≡ y
sign_same x y e = ground (arith, e)

memcmp_step :
    (a b n : ℕ) (m : Memory)
    → memcmp a b (suc n) m ≡ pos 0
    → (m a ≡ m b) × (memcmp (suc a) (suc b) n m ≡ pos 0)
unfolding memcmp
memcmp_step a b n m e = elim (Bool-cases (m a == m b)) [
  | inl same ↦ ((==_iff (m a) (m b)).0 same, ground (arith, e, same))
  | inr other ↦
      let equal : m a ≡ m b = sign_same (m a) (m b) (ground (arith, e, other)) in
      absurd (ground (arith, other, (==_iff (m a) (m b)).1 equal))
]

memcmp-Alike : (n a b : ℕ) (m : Memory) → memcmp a b n m ≡ pos 0 → Alike a b n m
memcmp-Alike zero a b m e k lt = absurd (omega (arith, lt))
memcmp-Alike (suc n) a b m e zero lt =
    let first : a + 0 ≡ a = omega arith in
    let second : b + 0 ≡ b = omega arith in
    ap m first ∙ (memcmp_step a b n m e).0 ∙ sym (ap m second)
memcmp-Alike (suc n) a b m e (suc k) lt =
    let first : a + suc k ≡ suc a + k = omega arith in
    let second : b + suc k ≡ suc b + k = omega arith in
    ap m first
    ∙ memcmp-Alike n (suc a) (suc b) m (memcmp_step a b n m e).1 k (omega (arith, lt))
    ∙ sym (ap m second)

Alike-memcmp : (n a b : ℕ) (m : Memory) → Alike a b n m → memcmp a b n m ≡ pos 0
unfolding memcmp
Alike-memcmp zero a b m h = refl
Alike-memcmp (suc n) a b m h =
    let first : a ≡ a + 0 = omega arith in
    let second : b ≡ b + 0 = omega arith in
    let same : m a ≡ m b = ap m first ∙ h 0 (omega arith) ∙ sym (ap m second) in
    rw ((==_iff (m a) (m b)).1 same) (
      Alike-memcmp n (suc a) (suc b) m (λ k lt.
        let left : suc a + k ≡ a + suc k = omega arith in
        let right : suc b + k ≡ b + suc k = omega arith in
        ap m left ∙ h (suc k) (omega (arith, lt)) ∙ sym (ap m right)))

-- memcmp returns 0 exactly if the two ranges hold the same bytes.
pub memcmp-equal_iff : (a b n : ℕ) (m : Memory) → (memcmp a b n m ≡ pos 0) ↔ Alike a b n m
memcmp-equal_iff a b n m = (memcmp-Alike n a b m, Alike-memcmp n a b m)
