-- ===== src/Shell/Parse/Tests.antt =====
-- Concrete command lines: cmdparse.c (lab2-TheCarton-main).
use systems_projects.Base.{◌≡◌, ◌⊎◌, refl, false, none, some, [], ◌∷◌, Bytes, codes, arith}
use systems_projects.Shell.Exec.{cmd_end, cmd_semicolon, cmd_pipe}
use systems_projects.Shell.Token.{
  ParseState, parse_init, parse_gettoken, parse_ungettoken, skip_space, scan, classify,
  finish_token, token_at,
}
use systems_projects.Shell.Token.Plain.{NoQuote}
use systems_projects.Shell.Parse.{
  Redirects, command, Line, nothing, chain, cmd_alloc, parsed, rejected, no_fuel, cmd_step,
  line_step, cmd_parse, cmd_line_parse,
}
use systems_projects.Shell.Parse.WellFormed.{IsWhole, cmd_line_parse-IsWhole}
use systems_projects.Shell.Parse.Print.{cmd_print, cmd_print-cmd_line_parse}
use systems_projects.Shell.Parse.Ends.{cmd_line_parse_returns}
use systems_projects.Shell.Parse.Endless.{cmd_parse_endless}

abbrev text : Bytes
text = codes "( a ; b ) > f | c"

abbrev no_files : Redirects
no_files = record { input = none; output = none; errors = none }

abbrev to_file : Redirects
to_file = record { input = none; output = some (codes "f"); errors = none }

abbrev inside : Line
inside =
    chain (command (codes "a" ∷ []) no_files nothing cmd_semicolon)
      (chain (command (codes "b" ∷ []) no_files nothing cmd_end) nothing)

abbrev whole : Line
whole =
    chain (command [] to_file inside cmd_pipe)
      (chain (command (codes "c" ∷ []) no_files nothing cmd_end) nothing)

text_parsed :
    cmd_line_parse 36 (parse_init text) false
    ≡ parsed whole (record { position = []; last_position = some [] })
unfolding cmd_line_parse cmd_parse cmd_step line_step parse_init parse_gettoken skip_space scan
    classify finish_token token_at parse_ungettoken
text_parsed = refl

cmd_line_parse-IsWhole_example : IsWhole whole
cmd_line_parse-IsWhole_example = cmd_line_parse-IsWhole 36 (parse_init text) false text_parsed

cmd_print-cmd_line_parse_example : (printed : Bytes) × (cmd_print whole 0 ≡ some printed)
cmd_print-cmd_line_parse_example = cmd_print-cmd_line_parse 36 (parse_init text) false 0 text_parsed

text-NoQuote : NoQuote text
text-NoQuote = (
  refl,
  (
    refl,
    (
      refl,
      (
        refl,
        (
          refl,
          (
            refl,
            (
              refl,
              (refl, (refl, (refl, (refl, (refl, (refl, (refl, (refl, (refl, (refl, tt)))))))))),
            ),
          ),
        ),
      ),
    ),
  ),
)

cmd_line_parse_returns_example :
    ((l : Line) × (ps : ParseState) × (cmd_line_parse 36 (parse_init text) false ≡ parsed l ps))
    ⊎ ((ps : ParseState) × (cmd_line_parse 36 (parse_init text) false ≡ rejected ps))
cmd_line_parse_returns_example =
    cmd_line_parse_returns text false 36 text-NoQuote (omega arith) (omega arith)

-- A parenthesis, and a quote that is not closed.
abbrev unclosed : ParseState
unclosed = record { position = codes "( \"a"; last_position = none }

cmd_parse_endless_example : cmd_parse 1000 unclosed cmd_alloc ≡ no_fuel
unfolding parse_gettoken skip_space scan classify finish_token token_at
cmd_parse_endless_example = cmd_parse_endless 1000 unclosed cmd_alloc refl refl

-- Words in front of a parenthesis, which the comment in cmd_parse takes for a syntax error.
words_and_parens :
    cmd_line_parse 20 (parse_init (codes "a ( b )")) false
    ≡ parsed
        (chain
          (command
            (codes "a" ∷ [])
            no_files
            (chain (command (codes "b" ∷ []) no_files nothing cmd_end) nothing)
            cmd_end)
          nothing)
        (record { position = []; last_position = some [] })
unfolding cmd_line_parse cmd_parse cmd_step line_step parse_init parse_gettoken skip_space scan
    classify finish_token token_at parse_ungettoken
words_and_parens = refl
