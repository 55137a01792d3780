-- ===== src/Shell/Exec/Laws.antt =====
-- cmd_line_exec against the rule for `&&` and `||` in a shell.
use systems_projects.Base.{
  ◌==◌, ℕ, ◌≡◌, refl, Bool, true, false, not, ◌&&◌, ◌||◌, List, [], ◌∷◌, arith, ap, sym,
  if◌then◌else◌, ◌∙◌, Bool-cases, inl, inr,
}
use systems_projects.Shell.Exec.{
  ControlOp, cmd_end, cmd_semicolon, cmd_background, cmd_pipe, cmd_and, cmd_or, Command, is_op,
  is_wait_cmd, is_blocked, exec_from, cmd_line_exec,
}

-- The operator is repeated: `a && b && c`, or `a || b || c`.
abbrev pub repeats : {A : Type 0} → Command A → List (Command A) → Bool
repeats c [] = false
repeats c (d ∷ rest) =
    is_op c.controlop cmd_and && is_op d.controlop cmd_and
    || is_op c.controlop cmd_or && is_op d.controlop cmd_or

-- A line without pipes and background jobs, in which neither `&&` nor `||` follows on itself.
unfoldable pub alternates : {A : Type 0} → List (Command A) → Bool
alternates [] = true
alternates (c ∷ rest) = is_wait_cmd c && not (repeats c rest) && alternates rest

-- `&&` stops at a failure, and `||` at a success.
abbrev pub stops : ControlOp → ℕ → Bool
stops cmd_and status = not (status == 0)
stops cmd_or status = status == 0
stops _ status = false

is_blocked-stops : (op : ControlOp) (n : ℕ) → is_blocked op n ≡ stops op n
unfolding is_blocked
is_blocked-stops cmd_end n = refl
is_blocked-stops cmd_semicolon n = refl
is_blocked-stops cmd_background n = refl
is_blocked-stops cmd_pipe n = refl
is_blocked-stops cmd_and n = ground arith
is_blocked-stops cmd_or n = refl

module _ {A W : Type 0} (run : Command A → W → W × ℕ) where
  -- The rule: a command is left out if the operator in front of it stops, with the status of the
  -- last command that was run; an operator behind a command that was left out is judged by the same
  -- status.
  unfoldable pub shell_rule : List (Command A) → (blocked : Bool) → ℕ → W → W × ℕ
  shell_rule [] blocked status w = (w, status)
  shell_rule (c ∷ rest) true status w = shell_rule rest (stops c.controlop status) status w
  shell_rule (c ∷ rest) false status w =
      let (w', code) = run c w in shell_rule rest (stops c.controlop code) code w'

-- Where an operator blocks, another one behind it does not.
unblocked :
    {A : Type 0} (c d : Command A) (rest : List (Command A)) (n : ℕ)
    → stops c.controlop n ≡ true
    → repeats c (d ∷ rest) ≡ false
    → stops d.controlop n ≡ false
unfolding is_blocked
unblocked c d rest n h apart =
    ground (arith, is_blocked-stops c.controlop n, is_blocked-stops d.controlop n)

module _ {A W : Type 0} (run : Command A → W → W × ℕ) where
  -- One round at a command that is waited for, with another one behind it.
  exec_from_wait :
      (c d : Command A) (rest : List (Command A)) (status : ℕ) (w : W)
      → is_wait_cmd c ≡ true
      → exec_from run (c ∷ d ∷ rest) status w ≡ (
          if stops c.controlop (run c w).1
          then exec_from run rest (run c w).1 (run c w).0
          else exec_from run (d ∷ rest) (run c w).1 (run c w).0)
  unfolding exec_from
  exec_from_wait c d rest status w wait = rw wait (
      ap
        (λ b.
          if b
          then exec_from run rest (run c w).1 (run c w).0
          else exec_from run (d ∷ rest) (run c w).1 (run c w).0)
        (is_blocked-stops c.controlop (run c w).1))

  -- The rule at a command that follows a blocking operator.
  shell_rule_skip :
      (c d : Command A) (rest : List (Command A)) (n : ℕ) (w : W)
      → stops c.controlop n ≡ true
      → repeats c (d ∷ rest) ≡ false
      → shell_rule run (d ∷ rest) (stops c.controlop n) n w ≡ shell_rule run rest false n w
  unfolding shell_rule
  shell_rule_skip c d rest n w hit apart =
      ap (λ b. shell_rule run (d ∷ rest) b n w) hit
      ∙ ap (λ b. shell_rule run rest b n w) (unblocked c d rest n hit apart)

  exec_from-shell_rule :
      (l : List (Command A)) (status : ℕ) (w : W)
      → alternates l ≡ true
      → exec_from run l status w ≡ shell_rule run l false status w
  unfolding exec_from shell_rule alternates
  exec_from-shell_rule [] status w h = refl
  exec_from-shell_rule (c ∷ []) status w h =
      let wait : is_wait_cmd c ≡ true = ground arith in rw wait
  exec_from-shell_rule (c ∷ d ∷ rest) status w h =
      let (w', code) = run c w in
      let round = exec_from_wait c d rest status w (ground arith) in
      elim (Bool-cases (stops c.controlop code)) [
        | inl hit ↦
            round
            ∙ (ap (λ b. if b then exec_from run rest code w' else exec_from run (d ∷ rest) code w')
                  hit
                ∙ (exec_from-shell_rule rest code w' (ground arith)
                    ∙ sym (shell_rule_skip c d rest code w' hit (ground arith))))
        | inr miss ↦
            round
            ∙ (ap (λ b. if b then exec_from run rest code w' else exec_from run (d ∷ rest) code w')
                  miss
                ∙ (exec_from-shell_rule (d ∷ rest) code w' (ground arith)
                    ∙ ap (λ b. shell_rule run (d ∷ rest) b code w') (sym miss)))
      ]

  -- On a line without pipes and background jobs, in which neither `&&` nor `||` follows on itself,
  -- cmd_line_exec runs the commands that the shell's rule says, in that order, and returns the
  -- status of the last one, whatever the commands do.
  pub cmd_line_exec-shell_rule :
      (l : List (Command A)) (w : W)
      → alternates l ≡ true
      → cmd_line_exec run l w ≡ shell_rule run l false 0 w
  unfolding cmd_line_exec
  cmd_line_exec-shell_rule l w h = exec_from-shell_rule l 0 w h
