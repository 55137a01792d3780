-- ===== src/Shell/Parse/Print.antt =====
-- cmd_print of cmdparse.c (lab2-TheCarton-main), up to the text it writes. `none` is a failed
-- `assert`.
use systems_projects.Base.{
  ℕ, zero, suc, ◌+◌, ◌≡◌, refl, Bool, true, not, ◌||◌, Option, none, some, List, [], ◌∷◌, ◌++◌,
  Bytes, codes, if◌then◌else◌, take, length, arith, decimal,
}
use systems_projects.Shell.Exec.{
  ControlOp, cmd_end, cmd_semicolon, cmd_background, cmd_pipe, cmd_and, cmd_or, is_op,
}
use systems_projects.Shell.Token.{ParseState}
use systems_projects.Shell.Parse.{
  max_tokens, Redirects, command, Line, nothing, chain, parsed, is_null, cmd_line_parse,
}
use systems_projects.Shell.Parse.WellFormed.{IsLine, OpFits, cmd_line_parse-IsWhole}

-- `printf("%*s", indent, "")`
spaces : ℕ → Bytes
spaces zero = []
spaces (suc n) = b' ' ∷ spaces n

-- The words, each in double quotes.
print_args : List Bytes → Bytes
print_args [] = []
print_args (a ∷ argv) = codes " \"" ++ a ++ codes "\"" ++ print_args argv

print_file : Bytes → Option Bytes → Bytes
print_file sign none = []
print_file sign (some name) = sign ++ name

print_redirects : Redirects → Bytes
unfolding print_file
print_redirects r =
    print_file (codes " <") r.input
    ++ print_file (codes " >") r.output
    ++ print_file (codes " 2>") r.errors

print_op : ControlOp → Bytes
print_op cmd_semicolon = codes ";"
print_op cmd_background = codes "&"
print_op cmd_pipe = codes "|"
print_op cmd_and = codes "&&"
print_op cmd_or = codes "||"
print_op cmd_end = codes "."

-- The last `assert`.
ends_well : Line → ControlOp → Bool
ends_well next op =
    not (is_null next) || is_op op cmd_end || is_op op cmd_background || is_op op cmd_semicolon

module _ {A B : Type 0} where
  infixl 5 ◌>>=◌
  abbrev ◌>>=◌ : Option A → (A → Option B) → Option B
  none >>= k = none
  some a >>= k = k a

-- `argc` counts at most MAXTOKENS words, so the first `assert` holds.
unfoldable pub cmd_print : Line → (indent : ℕ) → Option Bytes
unfolding spaces print_args print_redirects print_op ends_well
cmd_print nothing indent = some (spaces indent ++ codes "[NULL]\n")
cmd_print (chain (command argv r sub op) next) indent =
    let args = take max_tokens argv in
    let inside = cmd_print sub (2 + indent) in
    let behind = cmd_print next indent in
    do
      nested ← if is_null sub then some [] else inside
      rest ← if not (ends_well next op) then none else if is_null next then some [] else behind
      some (
          spaces indent
          ++ codes "["
          ++ decimal (length args)
          ++ codes " args"
          ++ print_args args
          ++ print_redirects r
          ++ (if is_null sub then [] else codes "\n")
          ++ nested
          ++ codes "] "
          ++ print_op op
          ++ codes "\n"
          ++ rest)

ends_well_lem : (next : Line) (op : ControlOp) → OpFits op next → ends_well next op ≡ true
unfolding ends_well
ends_well_lem nothing op h = ground arith
ends_well_lem (chain c l) op h = refl

print_line : (l : Line) (indent : ℕ) → IsLine l → (text : Bytes) × (cmd_print l indent ≡ some text)
unfolding cmd_print
print_line nothing indent h = (_, refl)
print_line (chain (command argv r nothing op) nothing) indent h =
    rw (ends_well_lem nothing op h.3) (_, refl)
print_line (chain (command argv r nothing op) (chain c l)) indent h =
    let (rest, e) = print_line (chain c l) indent h.4 in rw (e) (_, refl)
print_line (chain (command argv r (chain d m) op) nothing) indent h =
    let (nested, e) = print_line (chain d m) (2 + indent) h.2 in
    rw (ends_well_lem nothing op h.3, e) (_, refl)
print_line (chain (command argv r (chain d m) op) (chain c l)) indent h =
    let (nested, e) = print_line (chain d m) (2 + indent) h.2 in
    let (rest, e') = print_line (chain c l) indent h.4 in rw (e, e') (_, refl)

-- What cmd_line_parse accepts, cmd_print prints: no `assert` of cmd_print fails, in the line, in its
-- subshells, or in the rest of it.
pub cmd_print-cmd_line_parse :
    {l : Line} {ps' : ParseState} (fuel : ℕ) (ps : ParseState) (in_parens : Bool) (indent : ℕ)
    → cmd_line_parse fuel ps in_parens ≡ parsed l ps'
    → (text : Bytes) × (cmd_print l indent ≡ some text)
cmd_print-cmd_line_parse {l = l} fuel ps in_parens indent e =
    print_line l indent (cmd_line_parse-IsWhole fuel ps in_parens e).1
