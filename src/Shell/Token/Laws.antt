-- ===== src/Shell/Token/Laws.antt =====
-- Tokens: their length, the progress they make, and the rollback.
use systems_projects.Base.{
  sym, ℕ, suc, ◌<◌, ◌≤◌, ◌≡◌, ◌≢◌, refl, false, not, ◌&&◌, none, some, [], ◌∷◌, Bytes, ◌==◌, ltb,
  leb, length, length-append, arith, Bool-cases, inl, inr,
}
use systems_projects.Shell.Token.{
  tok_error, tok_end, ParseState, token_size, classify, is_space, is_special, skip_space, Scan,
  Scanned, too_long, stopped, scan, finish_token, token_at, parse_gettoken, parse_ungettoken,
  quoted, scan_start, push, on_char, on_double, at_special,
}

-- What a scan of `text` may end with: the buffer fits, and the rest is a part of the text.
abbrev Fits : ℕ → Scanned → Type 0
Fits n too_long = Prim.Unit {0}
Fits n (stopped s rest) = (length s.buffer ≤ 1023) × (length rest ≤ n)

Fits-suc : (n : ℕ) (r : Scanned) → Fits n r → Fits (suc n) r
Fits-suc n too_long f = tt
Fits-suc n (stopped s rest) f = (f.0, omega arith)

room : (s : Scan) (c : ℕ) → length s.buffer ≤ 1023 → length (on_char s c).buffer ≤ 1023
room s c h = ground arith

room_after :
    (s : Scan) (c : ℕ) → length s.buffer < 1023 → length (push (on_char s c) c).buffer ≤ 1023
room_after s c h =
    let e : (on_char s c).buffer ≡ s.buffer = ground arith in
    rw (e, length-append s.buffer (c ∷ [])) (omega arith)

at_special-Fits :
    (s : Scan) (c : ℕ) (cs : Bytes)
    → length s.buffer ≤ 1023
    → length (push s c).buffer ≤ 1023
    → Fits (suc (length cs)) (at_special s c cs)
at_special-Fits s c cs h h' = elim (Bool-cases (ltb 1 (length (push s c).buffer))) [
  | inl later ↦ rw later (h, omega arith)
  | inr first ↦ rw first (h', omega arith)
]

scan-Fits : (cs : Bytes) (s : Scan) → length s.buffer ≤ 1023 → Fits (length cs) (scan cs s)
unfolding scan
scan-Fits [] s h = (h, omega arith)
scan-Fits (c ∷ cs) s h = elim (Bool-cases (not (quoted s) && is_space c)) [
  | inl space ↦ rw space (h, omega arith)
  | inr no_space ↦ elim (Bool-cases (c == b'"')) [
    | inl quote ↦
        rw (no_space, quote)
          (Fits-suc (length cs) (scan cs (on_double s)) (scan-Fits cs (on_double s) h))
    | inr no_quote ↦ elim (Bool-cases (leb 1023 (length s.buffer))) [
      | inl long ↦ rw (no_space, no_quote, long) tt
      | inr short ↦ elim (Bool-cases (is_special c && not (quoted (on_char s c)))) [
        | inl special ↦
            rw (no_space, no_quote, short, special)
              (at_special-Fits (on_char s c) c cs (room s c h) (room_after s c (ground arith)))
        | inr plain ↦
            rw (no_space, no_quote, short, plain)
              (Fits-suc (length cs) (scan cs (push (on_char s c) c))
                (scan-Fits cs (push (on_char s c) c) (room_after s c (ground arith))))
      ]
    ]
  ]
]

pub skip_space-le : (cs : Bytes) → length (skip_space cs) ≤ length cs
unfolding skip_space
skip_space-le [] = omega arith
skip_space-le (c ∷ cs) = ground (arith, skip_space-le cs)

first_special : (c : ℕ) (cs : Bytes) → Fits (length cs) (at_special (on_char scan_start c) c cs)
first_special c cs = let e : (on_char scan_start c).buffer ≡ [] = ground arith in rw e (omega arith)

-- The first character of a token is always taken: it is no space, so the text gets shorter.
scan-shorter :
    (c : ℕ) (cs : Bytes) → is_space c ≡ false → Fits (length cs) (scan (c ∷ cs) scan_start)
unfolding scan
scan-shorter c cs no_space = elim (Bool-cases (c == b'"')) [
  | inl quote ↦ rw (no_space, quote) (scan-Fits cs (on_double scan_start) (omega arith))
  | inr no_quote ↦ elim (Bool-cases (is_special c && not (quoted (on_char scan_start c)))) [
    | inl special ↦ rw (no_space, no_quote, special) (first_special c cs)
    | inr plain ↦
        rw (no_space, no_quote, plain)
          (scan-Fits cs (push (on_char scan_start c) c) (room_after scan_start c (omega arith)))
  ]
]

skip_space-head :
    (text : Bytes) {c : ℕ} {cs : Bytes} → skip_space text ≡ c ∷ cs → is_space c ≡ false
unfolding skip_space
skip_space-head [] {c} {cs} h = cc
skip_space-head (d ∷ ds) {c} {cs} h = elim (Bool-cases (is_space d)) [
  | inl space ↦ skip_space-head ds {c = c} {cs = cs} (ground arith)
  | inr no_space ↦ ground arith
]

finish_token-shorter :
    (ps : ParseState) (r : Scanned) (n : ℕ)
    → Fits n r
    → (finish_token ps r).0.type ≢ tok_error
    → length (finish_token ps r).1.position ≤ n
unfolding finish_token
finish_token-shorter ps too_long n f fine = absurd (fine refl)
finish_token-shorter ps (stopped s rest) n f fine = elim (Bool-cases (quoted s)) [
  | inl unclosed ↦ absurd (fine (rw unclosed refl))
  | inr closed ↦ rw closed f.1
]

token_at-shorter :
    (ps : ParseState) (text : Bytes)
    → ((c : ℕ) (cs : Bytes) → text ≡ c ∷ cs → is_space c ≡ false)
    → (token_at ps text).0.type ≢ tok_error
    → (token_at ps text).0.type ≢ tok_end
    → length (token_at ps text).1.position < length text
unfolding token_at
token_at-shorter ps [] head fine more = absurd (more refl)
token_at-shorter ps (c ∷ cs) head fine more = omega (
  arith,
  finish_token-shorter ps (scan (c ∷ cs) scan_start) (length cs)
      (scan-shorter c cs (head c cs refl)) fine,
)

-- parse_gettoken makes progress: unless it reports an error or the end, the text that is left is
-- shorter than before.
pub parse_gettoken-shorter :
    (ps : ParseState)
    → (parse_gettoken ps).0.type ≢ tok_error
    → (parse_gettoken ps).0.type ≢ tok_end
    → length (parse_gettoken ps).1.position < length ps.position
unfolding parse_gettoken
parse_gettoken-shorter ps fine more = omega (
  arith,
  skip_space-le ps.position,
  token_at-shorter ps (skip_space ps.position) (λ c cs h. skip_space-head ps.position h) fine more,
)

finish_token-length :
    (ps : ParseState) (r : Scanned) (n : ℕ) → Fits n r → length (finish_token ps r).0.buffer ≤ 1023
unfolding finish_token
finish_token-length ps too_long n f = omega arith
finish_token-length ps (stopped s rest) n f = elim (Bool-cases (quoted s)) [
  | inl unclosed ↦ rw unclosed (omega arith)
  | inr closed ↦ rw closed f.0
]

token_at-length : (ps : ParseState) (text : Bytes) → length (token_at ps text).0.buffer ≤ 1023
unfolding token_at
token_at-length ps [] = omega arith
token_at-length ps (c ∷ cs) =
    finish_token-length ps (scan (c ∷ cs) scan_start) (length (c ∷ cs))
      (scan-Fits (c ∷ cs) scan_start (omega arith))

finish_token-last :
    (ps : ParseState) (r : Scanned)
    → (finish_token ps r).0.type ≢ tok_error
    → (finish_token ps r).1.last_position ≡ some ps.position
unfolding finish_token
finish_token-last ps too_long fine = absurd (fine refl)
finish_token-last ps (stopped s rest) fine = elim (Bool-cases (quoted s)) [
  | inl unclosed ↦ absurd (fine (rw unclosed refl))
  | inr closed ↦ rw closed refl
]

token_at-last :
    (ps : ParseState) (text : Bytes)
    → (token_at ps text).0.type ≢ tok_error
    → (token_at ps text).1.last_position ≡ some ps.position
unfolding token_at
token_at-last ps [] fine = refl
token_at-last ps (c ∷ cs) fine = finish_token-last ps (scan (c ∷ cs) scan_start) fine

-- The token does not depend on what could be given back before.
finish_token-same :
    (ps ps' : ParseState) (r : Scanned) → (finish_token ps r).0 ≡ (finish_token ps' r).0
unfolding finish_token
finish_token-same ps ps' too_long = refl
finish_token-same ps ps' (stopped s rest) = elim (Bool-cases (quoted s)) [
  | inl unclosed ↦ rw unclosed refl
  | inr closed ↦ rw closed refl
]

token_at-same : (ps ps' : ParseState) (text : Bytes) → (token_at ps text).0 ≡ (token_at ps' text).0
unfolding token_at
token_at-same ps ps' [] = refl
token_at-same ps ps' (c ∷ cs) = finish_token-same ps ps' (scan (c ∷ cs) scan_start)

-- A token is never longer than its array: at most 1023 characters are stored.
pub parse_gettoken-length : (ps : ParseState) → length (parse_gettoken ps).0.buffer < token_size
unfolding parse_gettoken
parse_gettoken-length ps = omega (arith, token_at-length ps (skip_space ps.position))

-- A token that is no error, given back, leaves the position at which it was read, and is read again
-- from there.
pub parse_ungettoken-parse_gettoken :
    (ps : ParseState)
    → (parse_gettoken ps).0.type ≢ tok_error
    → (back : ParseState) × (parse_ungettoken (parse_gettoken ps).1 ≡ some back)
      × (back.position ≡ ps.position)
      × ((parse_gettoken back).0 ≡ (parse_gettoken ps).0)
unfolding parse_gettoken parse_ungettoken
parse_ungettoken-parse_gettoken ps fine =
    let back : ParseState = record { position = ps.position; last_position = none } in
    (
      back,
      rw (token_at-last ps (skip_space ps.position) fine) refl,
      refl,
      token_at-same back ps (skip_space ps.position),
    )

classify_fine : (b : Bytes) → classify b ≢ tok_error
unfolding classify
classify_fine b = ground arith

pub finish_token_closed :
    (ps : ParseState) (s : Scan) (rest : Bytes)
    → quoted s ≡ false
    → (finish_token ps (stopped s rest)).0.type ≢ tok_error
unfolding finish_token
finish_token_closed ps s rest closed e = elim (Bool-cases s.any_quotes) [
  | inl quotes ↦ ground (arith, closed, quotes, e)
  | inr none_of_it ↦ classify_fine s.buffer (ground (arith, closed, none_of_it, e))
]

-- An error leaves the state as it was.
finish_token_error :
    (ps : ParseState) (r : Scanned)
    → (finish_token ps r).0.type ≡ tok_error
    → (finish_token ps r).1 ≡ ps
unfolding finish_token
finish_token_error ps too_long e = refl
finish_token_error ps (stopped s rest) e = elim (Bool-cases (quoted s)) [
  | inl unclosed ↦ rw unclosed refl
  | inr closed ↦ absurd (finish_token_closed ps s rest closed e)
]

token_at_error :
    (ps : ParseState) (text : Bytes)
    → (token_at ps text).0.type ≡ tok_error
    → (token_at ps text).1 ≡ ps
unfolding token_at
token_at_error ps [] e = absurd (ground arith)
token_at_error ps (c ∷ cs) e = finish_token_error ps (scan (c ∷ cs) scan_start) e

pub parse_gettoken_error :
    (ps : ParseState) → (parse_gettoken ps).0.type ≡ tok_error → (parse_gettoken ps).1 ≡ ps
unfolding parse_gettoken
parse_gettoken_error ps e = token_at_error ps (skip_space ps.position) e

-- Where a token ends depends on the position only.
finish_token_state :
    (ps ps' : ParseState) (r : Scanned)
    → ps.position ≡ ps'.position
    → (finish_token ps r).0.type ≢ tok_error
    → (finish_token ps r).1 ≡ (finish_token ps' r).1
unfolding finish_token
finish_token_state ps ps' too_long same fine = absurd (fine refl)
finish_token_state ps ps' (stopped s rest) same fine = elim (Bool-cases (quoted s)) [
  | inl unclosed ↦ absurd (fine (rw unclosed refl))
  | inr closed ↦ rw (closed, same) refl
]

token_at_state :
    (ps ps' : ParseState) (text : Bytes)
    → ps.position ≡ ps'.position
    → (token_at ps text).0.type ≢ tok_error
    → (token_at ps text).0.type ≢ tok_end
    → (token_at ps text).1 ≡ (token_at ps' text).1
unfolding token_at
token_at_state ps ps' [] same fine more = absurd (more refl)
token_at_state ps ps' (c ∷ cs) same fine more =
    finish_token_state ps ps' (scan (c ∷ cs) scan_start) same fine

-- A token given back is read again as it was, and leads to the same state.
pub parse_gettoken_again :
    (ps : ParseState)
    → (parse_gettoken ps).0.type ≢ tok_error
    → (parse_gettoken ps).0.type ≢ tok_end
    → (back : ParseState) × (parse_ungettoken (parse_gettoken ps).1 ≡ some back)
      × (parse_gettoken back ≡ parse_gettoken ps)
unfolding parse_gettoken parse_ungettoken
parse_gettoken_again ps fine more =
    let back : ParseState = record { position = ps.position; last_position = none } in
    let text = skip_space ps.position in
    (
      back,
      rw (token_at-last ps text fine) refl,
      λ i. (token_at-same back ps text i, sym (token_at_state ps back text refl fine more) i),
    )

finish_token_le :
    (ps : ParseState) (r : Scanned) (n : ℕ)
    → Fits n r
    → n ≤ length ps.position
    → length (finish_token ps r).1.position ≤ length ps.position
unfolding finish_token
finish_token_le ps too_long n f le = omega arith
finish_token_le ps (stopped s rest) n f le = elim (Bool-cases (quoted s)) [
  | inl unclosed ↦ rw unclosed (omega arith)
  | inr closed ↦ rw closed (omega (arith, f.1))
]

token_at_le :
    (ps : ParseState) (text : Bytes)
    → length text ≤ length ps.position
    → length (token_at ps text).1.position ≤ length ps.position
unfolding token_at
token_at_le ps [] le = omega arith
token_at_le ps (c ∷ cs) le =
    finish_token_le ps (scan (c ∷ cs) scan_start) (length (c ∷ cs))
      (scan-Fits (c ∷ cs) scan_start (omega arith)) le

pub parse_gettoken_le :
    (ps : ParseState) → length (parse_gettoken ps).1.position ≤ length ps.position
unfolding parse_gettoken
parse_gettoken_le ps = token_at_le ps (skip_space ps.position) (skip_space-le ps.position)
