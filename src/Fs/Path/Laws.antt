-- ===== src/Fs/Path/Laws.antt =====
-- How a path falls apart into the directory's path and the last name.
use systems_projects.Base.{
  ℕ, zero, suc, ◌+◌, ◌≡◌, refl, ap, ◌∙◌, false, List, [], ◌∷◌, ◌++◌, Bytes, arith, length, get_or,
  take, ◌==◌, Bool-cases, inl, inr, length-append, ◌≢◌,
}
use mathlib.Core.List.{append_assoc, append-nil}
use systems_projects.Fs.Path.{slash, flush, tokens_from, tokens, cut_from, parent_of}

-- No slash in the name.
abbrev pub NoSlash : Bytes → Type 0
NoSlash [] = Prim.Unit {0}
NoSlash (c ∷ cs) = ((c == slash) ≡ false) × NoSlash cs

tokens_from-name : (name cur : Bytes) → NoSlash name → tokens_from cur name ≡ flush (cur ++ name) []
unfolding tokens_from
tokens_from-name [] cur plain = rw append-nil
tokens_from-name (c ∷ cs) cur plain = rw plain.0 (
    tokens_from-name cs (cur ++ c ∷ []) plain.1
    ∙ ap (λ z. flush z []) (append_assoc cur (c ∷ []) cs))

flush-append : (cur : Bytes) (ts us : List Bytes) → flush cur (ts ++ us) ≡ flush cur ts ++ us
flush-append [] ts us = refl
flush-append (c ∷ cs) ts us = refl

flush-name : (name : Bytes) → name ≢ [] → flush name [] ≡ name ∷ []
flush-name [] h = absurd (h refl)
flush-name (c ∷ cs) h = refl

-- The last name of a path is its last piece.
tokens_from-split :
    (dir cur name : Bytes)
    → NoSlash name
    → name ≢ []
    → tokens_from cur (dir ++ slash ∷ name) ≡ tokens_from cur dir ++ (name ∷ [])
unfolding tokens_from
tokens_from-split [] cur name plain some_name =
    rw (tokens_from-name name [] plain, flush-name name some_name) (flush-append cur [] (name ∷ []))
tokens_from-split (c ∷ cs) cur name plain some_name = elim (Bool-cases (c == slash)) [
  | inl hit ↦
      rw (hit, tokens_from-split cs [] name plain some_name)
        (flush-append cur (tokens_from [] cs) (name ∷ []))
  | inr miss ↦ rw miss (tokens_from-split cs (cur ++ c ∷ []) name plain some_name)
]

-- Going down from index `i` past a name, the loop ends at the slash in front of it.
get_or-append {ℓ} :
    {A : Type ℓ} (xs ys : List A) (i : ℕ) (d : A)
    → get_or (xs ++ ys) (length xs + i) d ≡ get_or ys i d
get_or-append [] ys i d = let e : 0 + i ≡ i = omega arith in rw e
get_or-append (x ∷ xs) ys i d =
    let e : suc (length xs) + i ≡ suc (length xs + i) = omega arith in
    rw e (get_or-append xs ys i d)

get_or-NoSlash : (name : Bytes) (i : ℕ) → NoSlash name → (get_or name i 0 == slash) ≡ false
get_or-NoSlash [] i plain = refl
get_or-NoSlash (c ∷ cs) zero plain = plain.0
get_or-NoSlash (c ∷ cs) (suc i) plain = get_or-NoSlash cs i plain.1

take-length {ℓ} : {A : Type ℓ} (xs ys : List A) → take (length xs) (xs ++ ys) ≡ xs
take-length [] ys = refl
take-length (x ∷ xs) ys = ap (◌∷◌ x) (take-length xs ys)

cut_from-name :
    (dir name : Bytes) (i : ℕ)
    → NoSlash name
    → cut_from (dir ++ slash ∷ name) (length dir + i) ≡ cut_from (dir ++ slash ∷ name) (length dir)
unfolding cut_from
cut_from-name dir name zero plain = let e : length dir + 0 ≡ length dir = omega arith in rw e
cut_from-name dir name (suc i) plain =
    let e : length dir + suc i ≡ suc (length dir + i) = omega arith in
    let miss : (get_or (dir ++ slash ∷ name) (length dir + suc i) 0 == slash) ≡ false =
      rw (get_or-append dir (slash ∷ name) (suc i) 0) (get_or-NoSlash name i plain) in
    rw e (rw (rw e at miss) (cut_from-name dir name i plain))

at_slash :
    (c : ℕ) (cs name : Bytes) → cut_from ((c ∷ cs) ++ slash ∷ name) (length (c ∷ cs)) ≡ c ∷ cs
unfolding cut_from
at_slash c cs name =
    let e : length (c ∷ cs) + 0 ≡ suc (length cs) = omega arith in
    let hit : get_or ((c ∷ cs) ++ slash ∷ name) (suc (length cs)) 0 ≡ slash =
      rw e at (get_or-append (c ∷ cs) (slash ∷ name) 0 0) in
    rw hit (take-length (c ∷ cs) (slash ∷ name))

-- The loop starts behind the name.
length-path : (dir name : Bytes) → length (dir ++ slash ∷ name) ≡ length dir + suc (length name)
length-path dir name = length-append dir (slash ∷ name)

parent_of_dir :
    (c : ℕ) (cs name : Bytes) → NoSlash name → parent_of ((c ∷ cs) ++ slash ∷ name) ≡ c ∷ cs
unfolding parent_of
parent_of_dir c cs name plain =
    let p = (c ∷ cs) ++ slash ∷ name in
    ap (cut_from p) (length-path (c ∷ cs) name)
    ∙ (cut_from-name (c ∷ cs) name (suc (length name)) plain ∙ at_slash c cs name)

parent_of_root : (name : Bytes) → NoSlash name → parent_of (slash ∷ name) ≡ slash ∷ []
unfolding parent_of cut_from
parent_of_root name plain =
    ap (cut_from (slash ∷ name)) (length-path [] name)
    ∙ cut_from-name [] name (suc (length name)) plain

-- The path of a directory, as get_parent_path returns it: `/` for the root.
abbrev pub or_root : Bytes → Bytes
or_root [] = slash ∷ []
or_root (c ∷ cs) = c ∷ cs

-- For a path `dir/name` with a name that is not empty and has no slash, the loop of get_parent_path
-- leaves `dir`, or `/` for a name in the root, and the pieces of the path are those of its parent
-- followed by the name.
pub parent_of-tokens :
    (dir name : Bytes)
    → NoSlash name
    → name ≢ []
    → (parent_of (dir ++ slash ∷ name) ≡ or_root dir)
      × (tokens (dir ++ slash ∷ name) ≡ tokens (parent_of (dir ++ slash ∷ name)) ++ name ∷ [])
unfolding tokens
parent_of-tokens [] name plain some_name =
    let e = parent_of_root name plain in
    (e, tokens_from-split [] [] name plain some_name ∙ rw e (unfold tokens_from in refl))
parent_of-tokens (c ∷ cs) name plain some_name =
    let e = parent_of_dir c cs name plain in
    (e, tokens_from-split (c ∷ cs) [] name plain some_name ∙ rw e)
