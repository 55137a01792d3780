-- ===== src/Shell/Parse/WellFormed.antt =====
-- What cmd_parse and cmd_line_parse accept is well formed.
use systems_projects.Base.{
  ℕ, zero, suc, ◌≤◌, ◌≡◌, refl, Bool, true, false, not, ◌&&◌, ◌||◌, Option, none, some, [], ◌∷◌,
  ◌++◌, Bytes, leb, ◌==◌, if◌then◌else◌, length, length-append, arith, sym,
}
use systems_projects.Shell.Exec.{ControlOp, cmd_end, cmd_semicolon, cmd_background, is_op}
use systems_projects.Shell.Token.{
  TokenType, tok_error, tok_end, tok_normal, tok_less_than, tok_greater_than, tok_2_greater_than,
  tok_semicolon, tok_ampersand, tok_pipe, tok_doubleamp, tok_doublepipe, tok_open_paren,
  tok_close_paren, ParseState, parse_gettoken, parse_ungettoken,
}
use systems_projects.Shell.Parse.Cases.{
  if_cases, next_cases, cmd_step_cases, line_step_cases, unget_cases,
}
use systems_projects.Shell.Parse.{
  is_normal, max_tokens, Command, command, Line, nothing, chain, Draft, cmd_alloc, Parsed, parsed,
  rejected, aborted, no_fuel, is_null, redirected, cmd_step, finish_cmd, LineStep, join, close,
  stop, bad, line_step, with_op, in_front, finish_line, cmd_parse, cmd_line_parse, is_end, is_close,
}

-- The operators that may stand at the end of a line.
abbrev pub ends_line : ControlOp → Bool
ends_line op = is_op op cmd_end || is_op op cmd_semicolon || is_op op cmd_background

abbrev pub OpFits : ControlOp → Line → Type 0
OpFits op nothing = ends_line op ≡ true
OpFits op (chain c l) = is_op op cmd_end ≡ false

-- At most 512 words, a word or a subshell, and so in the subshell and in the rest of the line; the
-- operator `end` only at the end of a line, and `&&`, `||` and `|` only inside.
abbrev pub IsLine : Line → Type 0
IsLine nothing = Prim.Unit {0}
IsLine (chain (command argv r sub op) rest) =
    (length argv ≤ max_tokens)
    × ((length argv == 0 && is_null sub) ≡ false)
    × IsLine sub
    × OpFits op rest
    × IsLine rest

-- A command, with whatever operator.
abbrev IsCommand : Command → Type 0
IsCommand (command argv r sub op) =
    (length argv ≤ max_tokens) × ((length argv == 0 && is_null sub) ≡ false) × IsLine sub

-- What a call accepts has the property.
abbrev pub Accepts : {A : Type 0} → (A → Type 0) → Parsed A → Type 0
Accepts P (parsed a ps) = P a
Accepts P (rejected ps) = Prim.Unit {0}
Accepts P aborted = Prim.Unit {0}
Accepts P no_fuel = Prim.Unit {0}

record IsDraft (d : Draft) : Type 0 where
  few : length d.argv ≤ max_tokens
  inside : IsLine d.subshell

-- An operator that joins is never `end`.
abbrev inner : LineStep → Bool
inner (join op) = not (is_op op cmd_end)
inner (close op) = not (is_op op cmd_end)
inner stop = true
inner bad = true

line_step-inner : (t : TokenType) → inner (line_step t) ≡ true
unfolding line_step
line_step-inner tok_error = refl
line_step-inner tok_end = refl
line_step-inner tok_normal = refl
line_step-inner tok_less_than = refl
line_step-inner tok_greater_than = refl
line_step-inner tok_2_greater_than = refl
line_step-inner tok_semicolon = refl
line_step-inner tok_ampersand = refl
line_step-inner tok_pipe = refl
line_step-inner tok_doubleamp = refl
line_step-inner tok_doublepipe = refl
line_step-inner tok_open_paren = refl
line_step-inner tok_close_paren = refl

inner_of : (t : TokenType) (k : LineStep) → line_step t ≡ k → inner k ≡ true
inner_of t k e = rw (sym e) (line_step-inner t)

join_inner : {op : ControlOp} (t : TokenType) → line_step t ≡ join op → is_op op cmd_end ≡ false
join_inner {op = op} t e = let i : inner (join op) ≡ true = inner_of t (join op) e in ground arith

close_inner : {op : ControlOp} (t : TokenType) → line_step t ≡ close op → is_op op cmd_end ≡ false
close_inner {op = op} t e =
    let i : inner (close op) ≡ true = inner_of t (close op) e in ground arith

-- A line with a command in it.
abbrev pub IsWhole : Line → Type 0
IsWhole l = (is_null l ≡ false) × IsLine l

finish_cmd-Accepts :
    (d : Draft) (o : Option ParseState) → IsDraft d → Accepts IsCommand (finish_cmd d o)
unfolding finish_cmd
finish_cmd-Accepts d none ok = tt
finish_cmd-Accepts d (some ps) ok =
    if_cases (Accepts IsCommand) (length d.argv == 0 && is_null d.subshell) _ _ (λ e. tt)
      (λ e. (ok.few, e, ok.inside))

finish_line-Accepts :
    (in_parens : Bool) (type : TokenType) (c : Command) (op : ControlOp) (ps : ParseState)
    → IsCommand c
    → Accepts IsWhole (finish_line in_parens type c op ps)
unfolding finish_line
finish_line-Accepts in_parens type (command argv r sub op') op ps ok =
    if_cases (Accepts IsWhole) (if is_end type then in_parens else not in_parens) _ _ (λ e. tt)
      (λ e.
        if_cases (Accepts IsWhole) (ends_line op) _ _ (λ last. (refl, (ok.0, ok.1, ok.2, last, tt)))
          (λ no. tt))

in_front-Accepts :
    (c : Command) (op : ControlOp) (p : Parsed Line)
    → is_op op cmd_end ≡ false
    → IsCommand c
    → Accepts IsWhole p
    → Accepts IsWhole (in_front (with_op c op) p)
unfolding in_front
in_front-Accepts (command argv r sub op') op (parsed nothing ps) inner ok h = absurd (ground arith)
in_front-Accepts (command argv r sub op') op (parsed (chain c l) ps) inner ok h =
    (refl, (ok.0, ok.1, ok.2, inner, h.1))
in_front-Accepts (command argv r sub op') op (rejected ps) inner ok h = tt
in_front-Accepts (command argv r sub op') op aborted inner ok h = tt
in_front-Accepts (command argv r sub op') op no_fuel inner ok h = tt

word-IsDraft :
    (d : Draft) (w : Bytes)
    → IsDraft d
    → (leb max_tokens (length d.argv) || not (is_null d.subshell)) ≡ false
    → IsDraft (record d { argv = d.argv ++ w ∷ [] })
word-IsDraft d w ok room = record {
  few = rw (length-append d.argv (w ∷ [])) (ground arith);
  inside = ok.inside;
}

mutual
  unfolding cmd_parse cmd_line_parse

  cmd_parse-Accepts :
      (f : ℕ) (ps : ParseState) (d : Draft) → IsDraft d → Accepts IsCommand (cmd_parse f ps d)
  cmd_parse-Accepts zero ps d ok = tt
  cmd_parse-Accepts (suc f) ps d ok =
      let (token, ps') = parse_gettoken ps in
      let (file, ps'') = parse_gettoken ps' in
      cmd_step_cases (Accepts IsCommand) (cmd_step token.type) _ _ _ _
        (λ _.
          if_cases (Accepts IsCommand) (leb max_tokens (length d.argv) || not (is_null d.subshell))
            _ _ (λ e. tt)
            (λ e.
              cmd_parse-Accepts f ps' (record d { argv = d.argv ++ token.buffer ∷ [] })
                (word-IsDraft d token.buffer ok e)))
        (λ _.
          if_cases (Accepts IsCommand) (length d.argv == 0 && is_null d.subshell) _ _ (λ e. tt)
            (λ e.
              if_cases (Accepts IsCommand) (is_normal file.type) _ _
                (λ normal.
                  cmd_parse-Accepts f ps''
                    (record d { redirects = redirected token.type file.buffer d.redirects })
                    (record { few = ok.few; inside = ok.inside }))
                (λ no. tt)))
        (λ _.
          next_cases (Accepts IsCommand) (Accepts IsWhole) (cmd_line_parse f ps' true) _ _
            (cmd_line_parse-Accepts f ps' true)
            (λ l ps₁ h.
              cmd_parse-Accepts f ps₁ (record d { subshell = l })
                (record { few = ok.few; inside = h.1 }))
            (λ ps₁ _.
              cmd_parse-Accepts f ps₁ (record d { subshell = nothing })
                (record { few = ok.few; inside = tt }))
            (λ _. tt) (λ _. tt))
        (finish_cmd-Accepts d (parse_ungettoken ps') ok)

  cmd_line_parse-Accepts :
      (f : ℕ) (ps : ParseState) (in_parens : Bool) → Accepts IsWhole (cmd_line_parse f ps in_parens)
  cmd_line_parse-Accepts zero ps in_parens = tt
  cmd_line_parse-Accepts (suc f) ps in_parens =
      next_cases (Accepts IsWhole) (Accepts IsCommand) (cmd_parse f ps cmd_alloc) _ _
        (cmd_parse-Accepts f ps cmd_alloc (record { few = omega arith; inside = tt }))
        (λ c ps₁ ok.
          let (token, ps₂) = parse_gettoken ps₁ in
          let (next, ps₃) = parse_gettoken ps₂ in
          line_step_cases (Accepts IsWhole) (line_step token.type) _ _ _ _
            (λ op k.
              in_front-Accepts c op (cmd_line_parse f ps₂ in_parens) (join_inner token.type k) ok
                (cmd_line_parse-Accepts f ps₂ in_parens))
            (λ op k.
              if_cases (Accepts IsWhole) (is_end next.type || is_close next.type) _ _
                (λ e. finish_line-Accepts in_parens next.type c op ps₃ ok)
                (λ e.
                  unget_cases (Accepts IsWhole) (parse_ungettoken ps₃) _ (λ _. tt)
                    (λ ps₄ _.
                      in_front-Accepts c op (cmd_line_parse f ps₄ in_parens)
                        (close_inner token.type k) ok (cmd_line_parse-Accepts f ps₄ in_parens))))
            (finish_line-Accepts in_parens token.type c cmd_end ps₂ ok) tt)
        (λ ps₁ _. tt) (λ _. tt) (λ _. tt)

of_Accepts :
    {l : Line} {ps' : ParseState} (p : Parsed Line)
    → Accepts IsWhole p
    → p ≡ parsed l ps'
    → IsWhole l
of_Accepts {l = l} (parsed l' ps₁) h e = let same : l' ≡ l = cc in rw (sym same) h
of_Accepts (rejected ps₁) h e = absurd (ground arith)
of_Accepts aborted h e = absurd (ground arith)
of_Accepts no_fuel h e = absurd (ground arith)

-- A line that cmd_line_parse returns is not empty, and at every depth a command has at most 512
-- words, and a word or a subshell; its operator is `end` only at the end of its line, and `&&`, `||`
-- or `|` only in front of another command.
pub cmd_line_parse-IsWhole :
    {l : Line} {ps' : ParseState} (fuel : ℕ) (ps : ParseState) (in_parens : Bool)
    → cmd_line_parse fuel ps in_parens ≡ parsed l ps'
    → IsWhole l
cmd_line_parse-IsWhole fuel ps in_parens e =
    of_Accepts (cmd_line_parse fuel ps in_parens) (cmd_line_parse-Accepts fuel ps in_parens) e
