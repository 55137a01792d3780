-- ===== src/Shell/Launch.antt =====
-- cmd_exec and subshell_exec of cmdrun.c (lab2-TheCarton-main): where the file descriptors of a
-- command lead. fork copies the table of descriptors, so a launch has the child's and the parent's.
-- What the system calls answer is an argument: `open` succeeds or not, getcwd and execve succeed,
-- and paths fit their buffers.
pub mod Wired
pub mod Started
pub mod Pipeline
mod Tests
use systems_projects.Base.{
  ℕ, Option, none, some, List, [], ◌∷◌, ◌++◌, Bytes, codes, ◌==◌, if◌then◌else◌, str_eq, ℤ, pos,
  atoi,
}
use systems_projects.Shell.Exec.{ControlOp, cmd_pipe, is_op}
use systems_projects.Shell.Parse.{Redirects, Command, command, Line, nothing, chain}

-- Where a descriptor leads: to what it led in the shell at first, to a file, or to an end of a pipe.
pub data Source : Type 0 where
  inherited : ℕ → Source
  file : Bytes → Source
  read_end write_end : ℕ → Source

abbrev pub Fds : Type 0
Fds = ℕ → Option Source

abbrev pub set_fd : Fds → ℕ → Option Source → Fds
set_fd fds fd s = λ x. if x == fd then s else fds x

-- A descriptor that is not open is refused, and nothing changes.
unfoldable pub dup2 : Fds → (old new : ℕ) → Fds
dup2 fds old new = elim (fds old) [ none ↦ fds | some s ↦ set_fd fds new (some s) ]

abbrev pub close : Fds → ℕ → Fds
close fds fd = set_fd fds fd none

-- The answers of the system for one command: the pipe and its descriptors, the descriptor that
-- `open` returns for each redirection, or -1 as `none`, and the working directory.
pub record Answers : Type 0 where
  pub pipe_id : ℕ
  pub read_fd : ℕ
  pub write_fd : ℕ
  pub opened : ℕ → Option ℕ
  pub cwd : Bytes

abbrev pub path_of : Answers → Bytes → Bytes
path_of a name = a.cwd ++ (codes "/" ++ name)

-- `open`, `dup2` and `close` for the redirection of the descriptor `target`.
redirect_to : Answers → (target : ℕ) → Bytes → Option ℕ → Fds → Fds
redirect_to a target name none fds = fds
redirect_to a target name (some fd) fds =
    close (dup2 (set_fd fds fd (some (file (path_of a name)))) fd target) fd

unfoldable pub redirect : Answers → (target : ℕ) → Option Bytes → Fds → Fds
unfolding redirect_to
redirect a target none fds = fds
redirect a target (some name) fds = redirect_to a target name (a.opened target) fds

-- `pipe(pipefd)`, for a command with a pipe behind it.
unfoldable pub with_pipe : Answers → ControlOp → Fds → Fds
with_pipe a op fds =
    if is_op op cmd_pipe
    then set_fd (set_fd fds a.read_fd (some (read_end a.pipe_id))) a.write_fd
        (some (write_end a.pipe_id))
    else fds

-- The left side of a pipe, in the child.
unfoldable pub into_pipe : Answers → ControlOp → Fds → Fds
into_pipe a op fds =
    if is_op op cmd_pipe then close (dup2 (close fds a.read_fd) a.write_fd 1) a.write_fd else fds

-- The redirection of the input, and else the pipe behind the command.
unfoldable pub input_or_pipe : Answers → ControlOp → Option Bytes → Fds → Fds
input_or_pipe a op none fds = into_pipe a op fds
input_or_pipe a op (some name) fds = redirect a 0 (some name) fds

-- The right side of a pipe.
unfoldable pub from_pipe : (pass : ℕ) → Fds → Fds
from_pipe pass fds = if pass == 0 then fds else close (dup2 fds pass 0) pass

-- The descriptors of the child, up to execve.
unfoldable pub child_fds : Answers → ControlOp → Redirects → (pass : ℕ) → Fds → Fds
child_fds a op r pass fds = from_pipe pass (
    input_or_pipe a op r.input (redirect a 2 r.errors (redirect a 1 r.output (with_pipe a op fds))))

-- The same in subshell_exec: the pipe comes last, and `*pass_pipefd` is not looked at.
unfoldable pub subshell_fds : Answers → ControlOp → Redirects → Fds → Fds
subshell_fds a op r fds =
    into_pipe a op
      (redirect a 2 r.errors (redirect a 0 r.input (redirect a 1 r.output (with_pipe a op fds))))

-- What the child does.
pub data Child : Type 0 where
  execs : Bytes → List Bytes → Fds → Child
  runs_line : Line → Fds → Child
  prints : Bytes → Child
  moves : Option Bytes → Child

-- What has become of the shell: it has ended, has followed `argv[0]` which is NULL, or has a child.
-- `moved` is the argument of its own chdir, if it makes the call.
pub data Launch : Type 0 where
  ended : ℤ → Launch
  strayed : Launch
  launched : Child → (pass : ℕ) → Fds → (moved : Option (Option Bytes)) → Launch

abbrev pub first_arg : List Bytes → Option Bytes
first_arg [] = none
first_arg (x ∷ xs) = some x

-- The parent, after the fork: `*pass_pipefd` is set, and the write end is closed.
unfoldable pub in_parent : Answers → ControlOp → Child → Fds → Option (Option Bytes) → Launch
in_parent a op child fds moved =
    if is_op op cmd_pipe
    then launched child a.read_fd (close (with_pipe a op fds) a.write_fd) moved
    else launched child 0 fds moved

unfoldable pub subshell_exec : Answers → Redirects → Line → ControlOp → Fds → Launch
subshell_exec a r subshell op fds =
    in_parent a op (runs_line subshell (subshell_fds a op r fds)) fds none

-- From the fork on, for a command with a name.
unfoldable pub forked :
    Answers → Bytes → List Bytes → Redirects → ControlOp → (pass : ℕ) → Fds → Launch
forked a name args r op pass fds =
    if str_eq name (codes "our_pwd")
    then in_parent a op (prints a.cwd) fds none
    else if str_eq name (codes "cd")
    then in_parent a op (moves (first_arg args)) fds (some (first_arg args))
    else in_parent a op
        (execs (codes "/usr/bin/" ++ name) (name ∷ args) (child_fds a op r pass fds)) fds none

-- The arguments of `exit`; with more than one the command is run like any other.
unfoldable pub exit_or : List Bytes → Launch → Launch
exit_or [] rest = ended (pos 0)
exit_or (status ∷ []) rest = ended (atoi status)
exit_or (x ∷ y ∷ ys) rest = rest

unfoldable pub cmd_exec : Answers → Command → (pass : ℕ) → Fds → Launch
cmd_exec a (command argv r (chain c l) op) pass fds = subshell_exec a r (chain c l) op fds
cmd_exec a (command [] r nothing op) pass fds = strayed
cmd_exec a (command (name ∷ args) r nothing op) pass fds =
    let rest = forked a name args r op pass fds in
    if str_eq name (codes "exit") then exit_or args rest else rest
