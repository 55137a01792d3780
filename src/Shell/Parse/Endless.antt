-- ===== src/Shell/Parse/Endless.antt =====
-- What cmd_parse and cmd_line_parse of cmdparse.c (lab2-TheCarton-main) do at a token that
-- parse_gettoken refuses.
use systems_projects.Base.{ℕ, zero, suc, ◌≡◌, refl, Bool, true, none, some, Bytes, arith}
use systems_projects.Shell.Token.{
  tok_error, tok_open_paren, ParseState, parse_init, parse_gettoken, parse_ungettoken,
}
use systems_projects.Shell.Token.Laws.{parse_gettoken_error, parse_gettoken_again}
use systems_projects.Shell.Parse.{
  nothing, Draft, rejected, aborted, no_fuel, cmd_step, finish_cmd, cmd_parse, cmd_line_parse,
}

inner_rejected :
    (f : ℕ) (ps : ParseState) (back : ParseState)
    → (parse_gettoken ps).0.type ≡ tok_error
    → parse_ungettoken (parse_gettoken ps).1 ≡ some back
    → cmd_line_parse (suc (suc f)) ps true ≡ rejected back
unfolding cmd_line_parse cmd_parse cmd_step finish_cmd
inner_rejected f ps back e b = rw (cmd_line_parse, cmd_parse, e, b) refl

-- A parenthesis, and behind it a token that is refused: cmd_parse gives the parenthesis back, takes
-- the subshell for absent, and reads the same parenthesis again, so that it never returns: no fuel
-- is enough, whatever was read before.
pub cmd_parse_endless :
    (fuel : ℕ) (ps : ParseState) (d : Draft)
    → (parse_gettoken ps).0.type ≡ tok_open_paren
    → (parse_gettoken (parse_gettoken ps).1).0.type ≡ tok_error
    → cmd_parse fuel ps d ≡ no_fuel
unfolding cmd_line_parse cmd_parse cmd_step finish_cmd
cmd_parse_endless zero ps d paren refused = refl
cmd_parse_endless (suc zero) ps d paren refused = rw (cmd_parse, paren) refl
cmd_parse_endless (suc (suc zero)) ps d paren refused = rw (cmd_parse, paren, cmd_line_parse) refl
cmd_parse_endless (suc (suc (suc f))) ps d paren refused =
    let (back, given, again) = parse_gettoken_again ps (λ e. ground arith) (λ e. ground arith) in
    let left = parse_gettoken_error (parse_gettoken ps).1 refused in
    rw (cmd_parse, paren, inner_rejected f (parse_gettoken ps).1 back refused (rw left given))
      (cmd_parse_endless (suc (suc f)) back (record d { subshell = nothing }) (rw again paren)
        (rw again refused))

-- A first token that is refused: cmd_line_parse does not return NULL. It fails the `assert` of
-- parse_ungettoken, which has nothing to give back.
pub cmd_line_parse_refused :
    (fuel : ℕ) (line : Bytes) (in_parens : Bool)
    → (parse_gettoken (parse_init line)).0.type ≡ tok_error
    → cmd_line_parse (suc (suc fuel)) (parse_init line) in_parens ≡ aborted
unfolding cmd_line_parse cmd_parse cmd_step finish_cmd parse_ungettoken parse_init
cmd_line_parse_refused fuel line in_parens refused =
    rw
      (
        cmd_line_parse,
        cmd_parse,
        refused,
        parse_gettoken_error (record { position = line; last_position = none }) refused,
      )
      refl
