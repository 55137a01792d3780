-- ===== src/Shell/Exec.antt =====
-- cmd_line_exec of cmdrun.c, with is_wait_cmd and is_continue_cmd (lab2-TheCarton-main). A command
-- line is the list of its commands, and of a command only its control operator is looked at here.
-- `run` stands for cmd_exec and the wait for the process: the new state of the world, and the exit
-- status that `waitpid` reports.
pub mod Laws
use systems_projects.Base.{
  ℕ, Bool, true, false, not, ◌&&◌, ◌||◌, List, [], ◌∷◌, ◌==◌, if◌then◌else◌,
}

-- `controlop_t`
pub data ControlOp : Type 0 where
  cmd_end cmd_semicolon cmd_background cmd_pipe cmd_and cmd_or : ControlOp

-- `body` stands for `argv`, `redirect_filename` and `subshell`, which only cmd_exec looks at; `next`
-- is the list.
pub record Command (A : Type 0) : Type 0 where
  pub body : A
  pub controlop : ControlOp

abbrev pub is_op : ControlOp → ControlOp → Bool
is_op cmd_end cmd_end = true
is_op cmd_semicolon cmd_semicolon = true
is_op cmd_background cmd_background = true
is_op cmd_pipe cmd_pipe = true
is_op cmd_and cmd_and = true
is_op cmd_or cmd_or = true
is_op _ _ = false

unfoldable pub is_wait_cmd : {A : Type 0} → Command A → Bool
is_wait_cmd c =
    is_op c.controlop cmd_and
    || is_op c.controlop cmd_or
    || is_op c.controlop cmd_end
    || is_op c.controlop cmd_semicolon

unfoldable pub is_continue_cmd : {A : Type 0} → Command A → Bool
is_continue_cmd c = is_op c.controlop cmd_pipe || is_op c.controlop cmd_background

-- The test behind which the next command is skipped.
unfoldable pub is_blocked : ControlOp → ℕ → Bool
is_blocked op status = is_op op cmd_and && not (status == 0) || is_op op cmd_or && status == 0

module _ {A W : Type 0} (run : Command A → W → W × ℕ) where
  -- The loop; `status` is `cmd_status`.
  unfoldable pub exec_from : List (Command A) → ℕ → W → W × ℕ
  exec_from [] status w = (w, status)
  exec_from (c ∷ []) status w =
      let (w', code) = run c w in
      let status' = if is_wait_cmd c then code else status in
      if not (is_wait_cmd c) && is_continue_cmd c then (w', 0) else (w', status')
  exec_from (c ∷ d ∷ rest) status w =
      let (w', code) = run c w in
      let status' = if is_wait_cmd c then code else status in
      let behind = exec_from rest status' w' in
      let next = exec_from (d ∷ rest) status' w' in
      let at_once = exec_from (d ∷ rest) 0 w' in
      if not (is_wait_cmd c) && is_continue_cmd c
      then at_once
      else if is_blocked c.controlop status'
      then behind
      else next

  unfoldable pub cmd_line_exec : List (Command A) → W → W × ℕ
  cmd_line_exec cmdlist w = exec_from cmdlist 0 w
