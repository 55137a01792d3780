-- ===== src/Shell/Parse/Ends.antt =====
-- That cmd_parse and cmd_line_parse of cmdparse.c (lab2-TheCarton-main) return, on a line that is
-- short and has no quotes.
use mathlib.Core.Option.{some_inj, some-ne-none}
use systems_projects.Base.{
  ℕ, zero, suc, ◌+◌, ◌-◌, ◌*◌, ◌≤◌, ◌≡◌, ◌≢◌, ◌⊎◌, refl, sym, Bool, true, not, ◌&&◌, ◌||◌, Option,
  none, some, Bytes, leb, ◌==◌, if◌then◌else◌, length, arith, inl, inr, ◌∙◌,
}
use systems_projects.Shell.Exec.{ControlOp, cmd_end, cmd_semicolon, cmd_background, is_op}
use systems_projects.Shell.Token.{
  TokenType, tok_error, tok_end, ParseState, parse_init, parse_gettoken, parse_ungettoken,
}
use systems_projects.Shell.Token.Laws.{
  parse_gettoken-shorter, parse_gettoken_le, parse_ungettoken-parse_gettoken,
}
use systems_projects.Shell.Token.Plain.{NoQuote, IsShort, parse_gettoken-NoQuote}
use systems_projects.Shell.Parse.Cases.{
  if_cases, next_cases, cmd_step_cases, line_step_cases, unget_cases,
}
use systems_projects.Shell.Parse.{
  is_normal, max_tokens, Command, Line, Draft, cmd_alloc, Parsed, parsed, rejected, aborted,
  no_fuel, is_null, CmdStep, finish, cmd_step, finish_cmd, LineStep, stop, line_step, with_op,
  in_front, finish_line, cmd_parse, cmd_line_parse, is_end, is_close,
}

-- The call returns, with at most `n` characters left to read.
abbrev Returns : {A : Type 0} → ℕ → Parsed A → Type 0
Returns n (parsed a ps) = IsShort n ps
Returns n (rejected ps) = IsShort n ps
Returns n aborted = ⊥
Returns n no_fuel = ⊥

IsShort-le : {m n : ℕ} {ps : ParseState} → m ≤ n → n ≤ 1023 → IsShort m ps → IsShort n ps
IsShort-le le fits h = record {
  no_quote = h.no_quote;
  short = omega (arith, le, h.short);
  fits = fits;
}

Returns-le : {A : Type 0} {m n : ℕ} (p : Parsed A) → m ≤ n → n ≤ 1023 → Returns m p → Returns n p
Returns-le (parsed a ps) le fits h = IsShort-le le fits h
Returns-le (rejected ps) le fits h = IsShort-le le fits h
Returns-le aborted le fits h = h
Returns-le no_fuel le fits h = h

-- A step that reads a token is taken at a token.
cmd_step_more : {k : CmdStep} (t : TokenType) → cmd_step t ≡ k → k ≢ finish → t ≢ tok_end
unfolding cmd_step
cmd_step_more t e other end = let f : finish ≡ cmd_step t = rw end refl in other (sym (f ∙ e))

line_step_more : {k : LineStep} (t : TokenType) → line_step t ≡ k → k ≢ stop → t ≢ tok_end
unfolding line_step
line_step_more t e other end = let s : stop ≡ line_step t = rw end refl in other (sym (s ∙ e))

token_fine : {n : ℕ} {ps : ParseState} → IsShort n ps → (parse_gettoken ps).0.type ≢ tok_error
token_fine {ps = ps} h = (parse_gettoken-NoQuote ps h.no_quote (omega (arith, h.short, h.fits))).0

token_shorter :
    {n : ℕ} {ps : ParseState}
    → IsShort n ps
    → (parse_gettoken ps).0.type ≢ tok_end
    → (1 ≤ n) × IsShort (n - 1) (parse_gettoken ps).1
token_shorter {n = n} {ps = ps} h more =
    let less = parse_gettoken-shorter ps (token_fine h) more in
    (
      omega (arith, less, h.short),
      record {
        no_quote = (parse_gettoken-NoQuote ps h.no_quote (omega (arith, h.short, h.fits))).1;
        short = omega (arith, less, h.short);
        fits = omega (arith, h.fits);
      },
    )

-- The state behind any token, the end included.
token-IsShort : {n : ℕ} {ps : ParseState} → IsShort n ps → IsShort n (parse_gettoken ps).1
token-IsShort {ps = ps} h = record {
  no_quote = (parse_gettoken-NoQuote ps h.no_quote (omega (arith, h.short, h.fits))).1;
  short = omega (arith, parse_gettoken_le ps, h.short);
  fits = h.fits;
}

-- A token given back.
unget-IsShort :
    {n : ℕ} {ps back : ParseState}
    → IsShort n ps
    → parse_ungettoken (parse_gettoken ps).1 ≡ some back
    → IsShort n back
unget-IsShort {ps = ps} {back = back} h e =
    let (back', given, same, _) = parse_ungettoken-parse_gettoken ps (token_fine h) in
    let it : back' ≡ back = some_inj.0 (sym given ∙ e) in
    rw (sym it) (record { no_quote = rw same h.no_quote; short = rw same h.short; fits = h.fits })

unget_fine :
    {n : ℕ} {ps : ParseState} → IsShort n ps → parse_ungettoken (parse_gettoken ps).1 ≢ none
unget_fine {ps = ps} h e =
    let (back', given, same, _) = parse_ungettoken-parse_gettoken ps (token_fine h) in
    some-ne-none back' (sym given ∙ e)

finish_cmd-Returns :
    {n : ℕ} (d : Draft) (o : Option ParseState)
    → o ≢ none
    → ((back : ParseState) → o ≡ some back → IsShort n back)
    → Returns n (finish_cmd d o)
unfolding finish_cmd
finish_cmd-Returns d none fine h = absurd (fine refl)
finish_cmd-Returns {n = n} d (some back) fine h =
    if_cases (Returns n) (length d.argv == 0 && is_null d.subshell) _ _ (λ _. h back refl)
      (λ _. h back refl)

finish_line-Returns :
    {n : ℕ} {ps : ParseState} (in_parens : Bool) (type : TokenType) (c : Command) (op : ControlOp)
    → IsShort n ps
    → Returns n (finish_line in_parens type c op ps)
unfolding finish_line
finish_line-Returns {n = n} {ps = ps} in_parens type c op h =
    if_cases (Returns n) (if is_end type then in_parens else not in_parens) _ _ (λ _. h)
      (λ _.
        if_cases (Returns n) (is_op op cmd_end || is_op op cmd_semicolon || is_op op cmd_background)
          _ _ (λ _. h) (λ _. h))

in_front-Returns : (n : ℕ) (c : Command) (p : Parsed Line) → Returns n p → Returns n (in_front c p)
unfolding in_front
in_front-Returns n c (parsed l ps) h = h
in_front-Returns n c (rejected ps) h = h
in_front-Returns n c aborted h = h
in_front-Returns n c no_fuel h = h

mutual
  unfolding cmd_parse cmd_line_parse

  cmd_parse-Returns :
      (n f : ℕ) (ps : ParseState) (d : Draft)
      → IsShort n ps
      → 2 * n + 1 ≤ f
      → Returns n (cmd_parse f ps d)
  cmd_parse-Returns n zero ps d h enough = absurd (omega (arith, enough))
  cmd_parse-Returns n (suc f) ps d h enough =
      let (token, ps') = parse_gettoken ps in
      let (file, ps'') = parse_gettoken ps' in
      cmd_step_cases (Returns n) (cmd_step token.type) _ _ _ _
        (λ k.
          let (pos, h') = token_shorter h (cmd_step_more token.type k (λ e. ground arith)) in
          if_cases (Returns n) (leb max_tokens (length d.argv) || not (is_null d.subshell)) _ _
            (λ _. token-IsShort h)
            (λ _.
              Returns-le _ (omega arith) h.fits
                (cmd_parse-Returns (n - 1) f ps' _ h' (omega (arith, pos, enough)))))
        (λ k.
          let (pos, h') = token_shorter h (cmd_step_more token.type k (λ e. ground arith)) in
          if_cases (Returns n) (length d.argv == 0 && is_null d.subshell) _ _ (λ _. token-IsShort h)
            (λ _.
              if_cases (Returns n) (is_normal file.type) _ _
                (λ _. Returns-le _ (omega arith) h.fits (
                  cmd_parse-Returns (n - 1) f ps'' _ (token-IsShort h')
                    (omega (arith, pos, enough))))
                (λ _. token-IsShort (token-IsShort h))))
        (λ k.
          let (pos, h') = token_shorter h (cmd_step_more token.type k (λ e. ground arith)) in
          next_cases (Returns n) (Returns (n - 1)) (cmd_line_parse f ps' true) _ _
            (cmd_line_parse-Returns (n - 1) f ps' true h' (omega (arith, pos, enough)))
            (λ l ps₁ h₁.
              Returns-le _ (omega arith) h.fits
                (cmd_parse-Returns (n - 1) f ps₁ _ h₁ (omega (arith, pos, enough))))
            (λ ps₁ h₁.
              Returns-le _ (omega arith) h.fits
                (cmd_parse-Returns (n - 1) f ps₁ _ h₁ (omega (arith, pos, enough))))
            (λ e. e) (λ e. e))
        (finish_cmd-Returns d (parse_ungettoken ps') (unget_fine h) (λ back e. unget-IsShort h e))

  cmd_line_parse-Returns :
      (n f : ℕ) (ps : ParseState) (in_parens : Bool)
      → IsShort n ps
      → 2 * n + 2 ≤ f
      → Returns n (cmd_line_parse f ps in_parens)
  cmd_line_parse-Returns n zero ps in_parens h enough = absurd (omega (arith, enough))
  cmd_line_parse-Returns n (suc f) ps in_parens h enough =
      next_cases (Returns n) (Returns n) (cmd_parse f ps cmd_alloc) _ _
        (cmd_parse-Returns n f ps cmd_alloc h (omega (arith, enough)))
        (λ c ps₁ h₁.
          let (token, ps₂) = parse_gettoken ps₁ in
          let (next, ps₃) = parse_gettoken ps₂ in
          line_step_cases (Returns n) (line_step token.type) _ _ _ _
            (λ op k.
              let (pos, h₂) = token_shorter h₁ (line_step_more token.type k (λ e. ground arith)) in
              in_front-Returns n (with_op c op) _ (
                Returns-le _ (omega arith) h.fits
                  (cmd_line_parse-Returns (n - 1) f ps₂ in_parens h₂ (omega (arith, pos, enough)))))
            (λ op k.
              let (pos, h₂) = token_shorter h₁ (line_step_more token.type k (λ e. ground arith)) in
              if_cases (Returns n) (is_end next.type || is_close next.type) _ _
                (λ _.
                  finish_line-Returns in_parens next.type c op (token-IsShort (token-IsShort h₁)))
                (λ _.
                  unget_cases (Returns n) (parse_ungettoken ps₃) _ (λ gone. unget_fine h₂ gone)
                    (λ ps₄ e. in_front-Returns n (with_op c op) _ (
                      Returns-le _ (omega arith) h.fits (
                        cmd_line_parse-Returns (n - 1) f ps₄ in_parens (unget-IsShort h₂ e)
                          (omega (arith, pos, enough)))))))
            (finish_line-Returns in_parens token.type c cmd_end (token-IsShort h₁))
            (token-IsShort h₁))
        (λ ps₁ h₁. h₁) (λ e. e) (λ e. e)

-- The two ways to return.
of_Returns :
    (n : ℕ) (p : Parsed Line)
    → Returns n p
    → ((l : Line) × (ps : ParseState) × (p ≡ parsed l ps)) ⊎ ((ps : ParseState) × (p ≡ rejected ps))
of_Returns n (parsed l ps) h = inl (l, ps, refl)
of_Returns n (rejected ps) h = inr (ps, refl)
of_Returns n aborted h = absurd h
of_Returns n no_fuel h = absurd h

-- On a line of at most 1023 characters without quotes, cmd_line_parse returns a command line or
-- NULL: with fuel for twice the characters and two, it neither runs out of fuel nor fails an
-- `assert`.
pub cmd_line_parse_returns :
    (line : Bytes) (in_parens : Bool) (fuel : ℕ)
    → NoQuote line
    → length line ≤ 1023
    → 2 * length line + 2 ≤ fuel
    → ((l : Line) × (ps : ParseState) × (cmd_line_parse fuel (parse_init line) in_parens
          ≡ parsed l ps))
      ⊎ ((ps : ParseState) × (cmd_line_parse fuel (parse_init line) in_parens ≡ rejected ps))
unfolding parse_init
cmd_line_parse_returns line in_parens fuel plain short enough = of_Returns (length line) _ (
    cmd_line_parse-Returns (length line) fuel _ in_parens
      (record { no_quote = plain; short = omega arith; fits = short }) enough)
