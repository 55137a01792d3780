-- ===== src/Shell/Parse/Cases.antt =====
-- The branches of cmd_parse and cmd_line_parse (cmdparse.c, lab2-TheCarton-main), for a statement
-- that is to hold whichever of them is taken.
use systems_projects.Base.{Bool, true, false, ◌≡◌, refl, Option, none, some, if◌then◌else◌}
use systems_projects.Shell.Exec.{ControlOp}
use systems_projects.Shell.Token.{ParseState}
use systems_projects.Shell.Parse.{
  Parsed, parsed, rejected, aborted, no_fuel, CmdStep, word, redirect, subshell, finish, LineStep,
  join, close, stop, bad,
}

module _ {A : Type 0} (P : Parsed A → Type 0) where
  pub if_cases :
      (b : Bool) (m n : Parsed A) → (b ≡ true → P m) → (b ≡ false → P n) → P (if b then m else n)
  if_cases true m n h k = h refl
  if_cases false m n h k = k refl

  -- What follows a call that may have been rejected.
  pub next_cases :
      {B : Type 0} (Q : Parsed B → Type 0) (p : Parsed B) (k : B → ParseState → Parsed A)
      (r : ParseState → Parsed A)
      → Q p
      → ((b : B) (ps : ParseState) → Q (parsed b ps) → P (k b ps))
      → ((ps : ParseState) → Q (rejected ps) → P (r ps))
      → (Q aborted → P aborted)
      → (Q no_fuel → P no_fuel)
      → P (elim p [
        | parsed b ps ↦ k b ps
        | rejected ps ↦ r ps
        | aborted ↦ aborted
        | no_fuel ↦ no_fuel
      ])
  next_cases Q (parsed b ps) k r h hk hr ha hf = hk b ps h
  next_cases Q (rejected ps) k r h hk hr ha hf = hr ps h
  next_cases Q aborted k r h hk hr ha hf = ha h
  next_cases Q no_fuel k r h hk hr ha hf = hf h

  pub cmd_step_cases :
      (k : CmdStep) (a b c e : Parsed A)
      → (k ≡ word → P a)
      → (k ≡ redirect → P b)
      → (k ≡ subshell → P c)
      → P e
      → P (elim k [ word ↦ a | redirect ↦ b | subshell ↦ c | finish ↦ e ])
  cmd_step_cases word a b c e ha hb hc he = ha refl
  cmd_step_cases redirect a b c e ha hb hc he = hb refl
  cmd_step_cases subshell a b c e ha hb hc he = hc refl
  cmd_step_cases finish a b c e ha hb hc he = he

  pub line_step_cases :
      (k : LineStep) (a b : ControlOp → Parsed A) (c e : Parsed A)
      → ((op : ControlOp) → k ≡ join op → P (a op))
      → ((op : ControlOp) → k ≡ close op → P (b op))
      → P c
      → P e
      → P (elim k [ join op ↦ a op | close op ↦ b op | stop ↦ c | bad ↦ e ])
  line_step_cases (join op) a b c e ha hb hc he = ha op refl
  line_step_cases (close op) a b c e ha hb hc he = hb op refl
  line_step_cases stop a b c e ha hb hc he = hc
  line_step_cases bad a b c e ha hb hc he = he

  pub unget_cases :
      (o : Option ParseState) (k : ParseState → Parsed A)
      → (o ≡ none → P aborted)
      → ((ps : ParseState) → o ≡ some ps → P (k ps))
      → P (elim o as (λ _. Parsed A) [ none ↦ aborted | some ps ↦ k ps ])
  unget_cases none k h hk = h refl
  unget_cases (some ps) k h hk = hk ps refl
