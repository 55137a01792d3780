-- ===== src/Shell/Token/Plain.antt =====
-- Tokens of a text without quotes that is short enough for a token (cmdparse.c,
-- lab2-TheCarton-main).
use systems_projects.Base.{
  ℕ, ◌+◌, ◌≤◌, ◌≡◌, ◌≢◌, refl, false, not, ◌&&◌, ◌||◌, [], ◌∷◌, Bytes, ◌==◌, ltb, leb, length,
  length-append, arith, Bool-cases, inl, inr,
}
use systems_projects.Shell.Token.{
  tok_error, ParseState, Token, is_space, is_special, skip_space, Scan, Scanned, too_long, stopped,
  scan, finish_token, token_at, parse_gettoken, quoted, scan_start, push, on_char, at_special,
}
use systems_projects.Shell.Token.Laws.{finish_token_closed, skip_space-le}

-- No double quote and no back quote.
abbrev pub NoQuote : Bytes → Type 0
NoQuote [] = Prim.Unit {0}
NoQuote (c ∷ cs) = ((c == b'"' || c == b'`') ≡ false) × NoQuote cs

-- The token ended outside of quotes, and no quote is left.
abbrev EndsPlain : Scanned → Type 0
EndsPlain too_long = ⊥
EndsPlain (stopped s rest) = (quoted s ≡ false) × NoQuote rest

at_special-EndsPlain :
    (s : Scan) (c : ℕ) (cs : Bytes)
    → quoted s ≡ false
    → NoQuote (c ∷ cs)
    → EndsPlain (at_special s c cs)
at_special-EndsPlain s c cs q h = elim (Bool-cases (ltb 1 (length (push s c).buffer))) [
  | inl later ↦ rw later (q, h)
  | inr first ↦ rw first (q, h.1)
]

on_char_plain : (s : Scan) (c : ℕ) → (c == b'`') ≡ false → on_char s c ≡ s
on_char_plain s c h = rw h refl

scan-EndsPlain :
    (cs : Bytes) (s : Scan)
    → quoted s ≡ false
    → NoQuote cs
    → length s.buffer + length cs ≤ 1023
    → EndsPlain (scan cs s)
unfolding scan
scan-EndsPlain [] s q h short = (q, tt)
scan-EndsPlain (c ∷ cs) s q h short =
    let no_double : (c == b'"') ≡ false = ground (arith, h) in
    let no_back : (c == b'`') ≡ false = ground (arith, h) in
    let fits : leb 1023 (length s.buffer) ≡ false = ground arith in
    elim (Bool-cases (not (quoted s) && is_space c)) [
      | inl space ↦ rw space (q, h)
      | inr no_space ↦ elim (Bool-cases (is_special c && not (quoted s))) [
        | inl special ↦
            rw (no_space, no_double, fits, no_back, special) (at_special-EndsPlain s c cs q h)
        | inr plain ↦
            rw (no_space, no_double, fits, no_back, plain)
              (scan-EndsPlain cs (push s c) q h.1
                (rw (length-append s.buffer (c ∷ [])) (omega arith)))
      ]
    ]

skip_space-NoQuote : (cs : Bytes) → NoQuote cs → NoQuote (skip_space cs)
unfolding skip_space
skip_space-NoQuote [] h = tt
skip_space-NoQuote (c ∷ cs) h = elim (Bool-cases (is_space c)) [
  | inl space ↦ rw space (skip_space-NoQuote cs h.1)
  | inr no_space ↦ rw no_space h
]

-- What can be read as a token, and leaves what can be read again.
abbrev Plain : Token × ParseState → Type 0
Plain (token, ps) = (token.type ≢ tok_error) × NoQuote ps.position

finish_token-Plain : (ps : ParseState) (r : Scanned) → EndsPlain r → Plain (finish_token ps r)
unfolding finish_token
finish_token-Plain ps too_long h = absurd h
finish_token-Plain ps (stopped s rest) h = (finish_token_closed ps s rest h.0, rw h.0 h.1)

token_at-Plain :
    (ps : ParseState) (text : Bytes)
    → NoQuote ps.position
    → NoQuote text
    → length text ≤ 1023
    → Plain (token_at ps text)
unfolding token_at
token_at-Plain ps [] h' h short = (λ e. ground arith, h')
token_at-Plain ps (c ∷ cs) h' h short =
    finish_token-Plain ps (scan (c ∷ cs) scan_start)
      (scan-EndsPlain (c ∷ cs) scan_start refl h (omega (arith, short)))

-- A text of at most 1023 characters without quotes: the next token is no error, and what is left
-- has no quotes.
pub parse_gettoken-NoQuote :
    (ps : ParseState)
    → NoQuote ps.position
    → length ps.position ≤ 1023
    → ((parse_gettoken ps).0.type ≢ tok_error) × NoQuote (parse_gettoken ps).1.position
unfolding parse_gettoken
parse_gettoken-NoQuote ps h short =
    token_at-Plain ps (skip_space ps.position) h (skip_space-NoQuote ps.position h)
      (omega (arith, skip_space-le ps.position))

-- Text of which at most `n` characters are left, without quotes.
pub record IsShort (n : ℕ) (ps : ParseState) : Type 0 where
  pub no_quote : NoQuote ps.position
  pub short : length ps.position ≤ n
  pub fits : n ≤ 1023
