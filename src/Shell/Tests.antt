-- ===== src/Shell/Tests.antt =====
-- Tokens and runs of concrete lines: cmdparse.c and cmdrun.c.
use systems_projects.Shell.Exec.{
  ControlOp, Command, cmd_end, cmd_semicolon, cmd_and, cmd_or, cmd_line_exec, exec_from,
  is_wait_cmd, is_continue_cmd, is_blocked,
}
use systems_projects.Shell.Exec.Laws.{alternates, shell_rule, cmd_line_exec-shell_rule}
use systems_projects.Base.{
  ℕ, Bytes, List, [], ◌∷◌, ◌++◌, str_eq, get_or, if◌then◌else◌, true, false, ◌≡◌, refl, none, some,
  codes,
}
use systems_projects.Shell.Token.{
  ParseState, tok_normal, skip_space, scan, classify, finish_token, token_at, parse_gettoken,
}

abbrev line : ParseState
line = record { position = codes " \"a b\"c && d"; last_position = none }

line_token : parse_gettoken line ≡ (
  record { type = tok_normal; buffer = codes "a bc" },
  record { position = codes " && d"; last_position = some line.position },
)
unfolding parse_gettoken skip_space scan classify finish_token token_at
line_token = refl

-- `false && a ; b || d`, where every command but `false` succeeds and the world is the list of what
-- has been run.
abbrev traced : Command (List Bytes) → List (List Bytes) → List (List Bytes) × ℕ
traced c w = (w ++ c.body ∷ [], if str_eq (get_or c.body 0 []) (codes "false") then 1 else 0)

abbrev job : Bytes → ControlOp → Command (List Bytes)
job name op = record { body = name ∷ []; controlop = op }

abbrev jobs : List (Command (List Bytes))
jobs =
    job (codes "false") cmd_and
    ∷ job (codes "a") cmd_semicolon
    ∷ job (codes "b") cmd_or
    ∷ job (codes "d") cmd_end
    ∷ []

jobs_alternate : alternates jobs ≡ true
unfolding alternates is_wait_cmd
jobs_alternate = refl

cmd_line_exec-shell_rule_example : cmd_line_exec traced jobs [] ≡ shell_rule traced jobs false 0 []
cmd_line_exec-shell_rule_example = cmd_line_exec-shell_rule traced jobs [] jobs_alternate

-- `false && a && b` runs `b`.
chain_run :
    cmd_line_exec traced
      (job (codes "false") cmd_and ∷ job (codes "a") cmd_and ∷ job (codes "b") cmd_end ∷ [])
      []
    ≡ ((codes "false" ∷ []) ∷ (codes "b" ∷ []) ∷ [], 0)
unfolding cmd_line_exec exec_from is_wait_cmd is_continue_cmd is_blocked
chain_run = refl
