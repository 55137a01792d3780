-- ===== src/Shell/Token.antt =====
-- The tokens of cmdparse.c and cmdparse.h (lab2-TheCarton-main): parse_init, parse_gettoken and
-- parse_ungettoken. A position in the line is the text from there to the NUL.
pub mod Laws
pub mod Plain
use systems_projects.Base.{
  ◌||◌, ℕ, ◌-◌, Bool, true, false, not, ◌&&◌, Option, none, some, [], ◌∷◌, ◌++◌, Bytes, codes, ◌==◌,
  ltb, leb, if◌then◌else◌, str_eq, length,
}

pub data TokenType : Type 0 where
  tok_error tok_end tok_normal tok_less_than tok_greater_than tok_2_greater_than : TokenType
  tok_semicolon tok_ampersand tok_pipe tok_doubleamp tok_doublepipe : TokenType
  tok_open_paren tok_close_paren : TokenType

pub record ParseState : Type 0 where
  pub position : Bytes
  pub last_position : Option Bytes

pub record Token : Type 0 where
  pub type : TokenType
  pub buffer : Bytes

abbrev pub token_size : ℕ
token_size = 1024

unfoldable pub parse_init : Bytes → ParseState
parse_init line = record { position = line; last_position = none }

-- `isspace` in the C locale.
abbrev pub is_space : ℕ → Bool
is_space c = c == b' ' || leb 9 c && leb c 13

unfoldable pub skip_space : Bytes → Bytes
skip_space [] = []
skip_space (c ∷ cs) = let rest = skip_space cs in if is_space c then rest else c ∷ cs

-- `*str == '(' || *str == ')' || *str == ';'`
abbrev pub is_special : ℕ → Bool
is_special c = c == b'(' || c == b')' || c == b';'

-- The loop's variables: the bits 1 and 2 of `quote_state`, `any_quotes`, and what is in the buffer.
pub record Scan : Type 0 where
  pub double : Bool
  pub back : Bool
  pub any_quotes : Bool
  pub buffer : Bytes

-- How the loop ends: too long, or stopped in front of the text that is left.
pub data Scanned : Type 0 where
  too_long : Scanned
  stopped : Scan → Bytes → Scanned

abbrev pub quoted : Scan → Bool
quoted s = s.double || s.back

-- A double quote is dropped, and turns its bit over.
abbrev pub on_double : Scan → Scan
on_double s = record s { double = not s.double; any_quotes = true }

-- A back quote turns its bit over.
abbrev pub on_char : Scan → ℕ → Scan
on_char s c = if c == b'`' then record s { back = not s.back; any_quotes = true } else s

abbrev pub push : Scan → ℕ → Scan
push s c = record s { buffer = s.buffer ++ c ∷ [] }

-- Where a special character ends the token: it is the token if it is the first character, and
-- otherwise it is left for the next one.
abbrev pub at_special : Scan → ℕ → Bytes → Scanned
at_special s c cs =
    if ltb 1 (length (push s c).buffer) then stopped s (c ∷ cs) else stopped (push s c) cs

unfoldable pub scan : Bytes → Scan → Scanned
scan [] s = stopped s []
scan (c ∷ cs) s =
    let skipped = scan cs (on_double s) in
    let s' = on_char s c in
    let stored = scan cs (push s' c) in
    if not (quoted s) && is_space c
    then stopped s (c ∷ cs)
    else if c == b'"'
    then skipped
    else if leb (token_size - 1) (length s.buffer)
    then too_long
    else if is_special c && not (quoted s')
    then at_special s' c cs
    else stored

-- The type of an unquoted token.
unfoldable pub classify : Bytes → TokenType
classify b =
    if str_eq b (codes "<")
    then tok_less_than
    else if str_eq b (codes ">")
    then tok_greater_than
    else if str_eq b (codes "2>")
    then tok_2_greater_than
    else if str_eq b (codes "&")
    then tok_ampersand
    else if str_eq b (codes ";")
    then tok_semicolon
    else if str_eq b (codes "|")
    then tok_pipe
    else if str_eq b (codes "&&")
    then tok_doubleamp
    else if str_eq b (codes "||")
    then tok_doublepipe
    else if str_eq b (codes "(")
    then tok_open_paren
    else if str_eq b (codes ")")
    then tok_close_paren
    else tok_normal

abbrev pub error_token : Token
error_token = record { type = tok_error; buffer = [] }

-- The end of parse_gettoken. An error leaves the parse state as it was.
unfoldable pub finish_token : ParseState → Scanned → Token × ParseState
finish_token ps too_long = (error_token, ps)
finish_token ps (stopped s rest) = if quoted s then (error_token, ps) else (
  record { type = if s.any_quotes then tok_normal else classify s.buffer; buffer = s.buffer },
  record { position = rest; last_position = some ps.position },
)

abbrev pub scan_start : Scan
scan_start = record { double = false; back = false; any_quotes = false; buffer = [] }

unfoldable pub token_at : ParseState → Bytes → Token × ParseState
token_at ps [] =
    (record { type = tok_end; buffer = [] }, record ps { last_position = some ps.position })
token_at ps (c ∷ cs) = finish_token ps (scan (c ∷ cs) scan_start)

unfoldable pub parse_gettoken : ParseState → Token × ParseState
unfolding skip_space scan classify finish_token token_at
parse_gettoken ps = token_at ps (skip_space ps.position)

-- `none` is the failed `assert(parsestate->last_position != NULL)`.
back_to : Option Bytes → Option ParseState
back_to none = none
back_to (some p) = some (record { position = p; last_position = none })

unfoldable pub parse_ungettoken : ParseState → Option ParseState
unfolding back_to
parse_ungettoken ps = back_to ps.last_position
