-- ===== src/Shell/Parse.antt =====
-- cmd_alloc, cmd_parse and cmd_line_parse of cmdparse.c (lab2-TheCarton-main). A command line is a
-- list of commands, each with the operator behind it; `nothing` is NULL, and the allocation of a
-- command is taken to succeed. The two functions call one another, so they run on fuel.
pub mod WellFormed
pub mod Print
mod Cases
mod Ends
mod Endless
mod Tests
use systems_projects.Base.{
  ℕ, zero, suc, Bool, true, false, not, ◌&&◌, ◌||◌, Option, none, some, List, [], ◌∷◌, ◌++◌, Bytes,
  leb, ◌==◌, if◌then◌else◌, length,
}
use systems_projects.Shell.Exec.{
  ControlOp, cmd_end, cmd_semicolon, cmd_background, cmd_pipe, cmd_and, cmd_or, is_op,
}
use systems_projects.Shell.Token.{
  TokenType, tok_end, tok_normal, tok_less_than, tok_greater_than, tok_2_greater_than,
  tok_semicolon, tok_ampersand, tok_pipe, tok_doubleamp, tok_doublepipe, tok_open_paren,
  tok_close_paren, ParseState, parse_gettoken, parse_ungettoken,
}

abbrev pub max_tokens : ℕ
max_tokens = 512

-- `redirect_filename`, by file descriptor.
pub record Redirects : Type 0 where
  pub input : Option Bytes
  pub output : Option Bytes
  pub errors : Option Bytes

mutual
  -- `struct command`
  pub data Command : Type 0 where
    command : (argv : List Bytes) → Redirects → (subshell : Line) → ControlOp → Command

  pub data Line : Type 0 where
    nothing : Line
    chain : Command → Line → Line

-- The command that cmd_parse fills.
pub record Draft : Type 0 where
  pub argv : List Bytes
  pub redirects : Redirects
  pub subshell : Line

-- cmd_alloc: a blank command.
abbrev pub cmd_alloc : Draft
cmd_alloc = record {
  argv = [];
  redirects = record { input = none; output = none; errors = none };
  subshell = nothing;
}

-- What a call returns: a value, NULL, or nothing at all, since an `assert` failed or the fuel ran
-- out.
pub data Parsed (A : Type 0) : Type 0 where
  parsed : A → ParseState → Parsed A
  rejected : ParseState → Parsed A
  aborted : Parsed A
  no_fuel : Parsed A

abbrev pub is_null : Line → Bool
is_null nothing = true
is_null (chain c l) = false

-- `token.type - TOK_LESS_THAN` as an index of `redirect_filename`.
redirected : TokenType → Bytes → Redirects → Redirects
redirected tok_less_than file r = record r { input = some file }
redirected tok_greater_than file r = record r { output = some file }
redirected tok_2_greater_than file r = record r { errors = some file }
redirected _ file r = r

-- The cases of the switch in cmd_parse.
pub data CmdStep : Type 0 where
  word redirect subshell finish : CmdStep

unfoldable pub cmd_step : TokenType → CmdStep
cmd_step tok_normal = word
cmd_step tok_less_than = redirect
cmd_step tok_greater_than = redirect
cmd_step tok_2_greater_than = redirect
cmd_step tok_open_paren = subshell
cmd_step _ = finish

-- An empty command is NULL; the operator of a fresh command is 0, `CMD_END`.
finish_cmd : Draft → Option ParseState → Parsed Command
finish_cmd d none = aborted
finish_cmd d (some ps) =
    if length d.argv == 0 && is_null d.subshell
    then rejected ps
    else parsed (command d.argv d.redirects d.subshell cmd_end) ps

-- The cases of the switch in cmd_line_parse.
pub data LineStep : Type 0 where
  join : ControlOp → LineStep
  close : ControlOp → LineStep
  stop : LineStep
  bad : LineStep

unfoldable pub line_step : TokenType → LineStep
line_step tok_doubleamp = join cmd_and
line_step tok_doublepipe = join cmd_or
line_step tok_pipe = join cmd_pipe
line_step tok_semicolon = close cmd_semicolon
line_step tok_ampersand = close cmd_background
line_step tok_end = stop
line_step tok_close_paren = stop
line_step _ = bad

abbrev pub is_end : TokenType → Bool
is_end tok_end = true
is_end _ = false

abbrev pub is_normal : TokenType → Bool
is_normal tok_normal = true
is_normal _ = false

abbrev pub is_close : TokenType → Bool
is_close tok_close_paren = true
is_close _ = false

-- `cmd->controlop = op`
abbrev pub with_op : Command → ControlOp → Command
with_op (command argv r sub _) op = command argv r sub op

-- A command put in front of what the rest of the line was parsed to.
in_front : Command → Parsed Line → Parsed Line
in_front c (parsed l ps) = parsed (chain c l) ps
in_front c (rejected ps) = rejected ps
in_front c aborted = aborted
in_front c no_fuel = no_fuel

-- The label `ender`, and the check under `done`.
finish_line : (in_parens : Bool) → TokenType → Command → ControlOp → ParseState → Parsed Line
finish_line in_parens type c op ps =
    if (if is_end type then in_parens else not in_parens)
    then rejected ps
    else if is_op op cmd_end || is_op op cmd_semicolon || is_op op cmd_background
    then parsed (chain (with_op c op) nothing) ps
    else rejected ps

unfoldable mutual
  unfolding finish_cmd redirected in_front finish_line cmd_step line_step

  pub cmd_parse : (fuel : ℕ) → ParseState → Draft → Parsed Command
  cmd_parse zero ps d = no_fuel
  cmd_parse (suc f) ps d =
      let (token, ps') = parse_gettoken ps in
      elim (cmd_step token.type) [
        | word ↦
            let more = cmd_parse f ps' (record d { argv = d.argv ++ token.buffer ∷ [] }) in
            if leb max_tokens (length d.argv) || not (is_null d.subshell)
            then rejected ps'
            else more
        | redirect ↦
            let (file, ps'') = parse_gettoken ps' in
            let more =
              cmd_parse f ps''
                (record d { redirects = redirected token.type file.buffer d.redirects }) in
            if length d.argv == 0 && is_null d.subshell
            then rejected ps'
            else if is_normal file.type
            then more
            else rejected ps''
        | subshell ↦ elim (cmd_line_parse f ps' true) [
          | parsed l ps'' ↦ cmd_parse f ps'' (record d { subshell = l })
          | rejected ps'' ↦ cmd_parse f ps'' (record d { subshell = nothing })
          | aborted ↦ aborted
          | no_fuel ↦ no_fuel
        ]
        | finish ↦ finish_cmd d (parse_ungettoken ps')
      ]

  pub cmd_line_parse : (fuel : ℕ) → ParseState → (in_parens : Bool) → Parsed Line
  cmd_line_parse zero ps in_parens = no_fuel
  cmd_line_parse (suc f) ps in_parens = elim (cmd_parse f ps cmd_alloc) [
    | rejected ps₁ ↦ rejected ps₁
    | aborted ↦ aborted
    | no_fuel ↦ no_fuel
    | parsed c ps₁ ↦
        let (token, ps₂) = parse_gettoken ps₁ in
        elim (line_step token.type) [
          | join op ↦ in_front (with_op c op) (cmd_line_parse f ps₂ in_parens)
          | close op ↦
              let (next, ps₃) = parse_gettoken ps₂ in
              let more = elim (parse_ungettoken ps₃) as (λ _. Parsed Line) [
                | none ↦ aborted
                | some ps₄ ↦ in_front (with_op c op) (cmd_line_parse f ps₄ in_parens)
              ] in
              if is_end next.type || is_close next.type
              then finish_line in_parens next.type c op ps₃
              else more
          | stop ↦ finish_line in_parens token.type c cmd_end ps₂
          | bad ↦ rejected ps₂
        ]
  ]
