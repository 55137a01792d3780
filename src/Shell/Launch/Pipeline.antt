-- ===== src/Shell/Launch/Pipeline.antt =====
-- Commands that cmd_exec of cmdrun.c (lab2-TheCarton-main) starts, and a pipe between two of them.
use systems_projects.Base.{
  ℕ, ◌≡◌, ◌≢◌, refl, ap, ◌∙◌, Bool, false, none, some, List, ◌∷◌, ◌++◌, Bytes, codes, ◌||◌, ◌==◌,
  if◌then◌else◌, str_eq, arith, Bool-cases, inl, inr,
}
use systems_projects.Shell.Exec.{ControlOp, cmd_pipe, is_op}
use systems_projects.Shell.Parse.{Redirects, Command, command, nothing}
use systems_projects.Shell.Launch.{
  Source, read_end, write_end, Fds, set_fd, close, Answers, with_pipe, child_fds, Child, execs,
  launched, in_parent, forked, cmd_exec,
}
use systems_projects.Shell.Launch.Wired.{AreFree, set_self, set_ne, redirected_to}
use systems_projects.Shell.Launch.Started.{piped_out, Wires, child_fds-Wires}
use systems_projects.Shell.Exec.{cmd_pipe}

-- The commands that the shell carries out itself.
abbrev pub is_builtin : Bytes → Bool
is_builtin name =
    str_eq name (codes "exit") || str_eq name (codes "our_pwd") || str_eq name (codes "cd")

abbrev pub child_of : Answers → Bytes → List Bytes → Redirects → ControlOp → ℕ → Fds → Child
child_of a name args r op pass fds =
    execs (codes "/usr/bin/" ++ name) (name ∷ args) (child_fds a op r pass fds)

cmd_exec-child :
    (a : Answers) (name : Bytes) (args : List Bytes) (r : Redirects) (op : ControlOp) (pass : ℕ)
    (fds : Fds)
    → is_builtin name ≡ false
    → cmd_exec a (command (name ∷ args) r nothing op) pass fds
      ≡ in_parent a op (child_of a name args r op pass fds) fds none
unfolding cmd_exec forked
cmd_exec-child a name args r op pass fds plain =
    let no_exit : str_eq name (codes "exit") ≡ false = ground (arith, plain) in
    let no_pwd : str_eq name (codes "our_pwd") ≡ false = ground (arith, plain) in
    let no_cd : str_eq name (codes "cd") ≡ false = ground (arith, plain) in
    rw (no_exit, no_pwd, no_cd) refl

-- A launch of this program with these arguments, whose first three descriptors are wired.
pub record Runs (a : Answers) (name : Bytes) (args : List Bytes) (r : Redirects) (op : ControlOp)
    (pass : ℕ) (fds : Fds) : Type 0 where
  pub its_fds : Fds
  pub pass' : ℕ
  pub fds' : Fds
  pub ran :
      cmd_exec a (command (name ∷ args) r nothing op) pass fds
      ≡ launched (execs (codes "/usr/bin/" ++ name) (name ∷ args) its_fds) pass' fds' none
  pub wires : Wires a op r pass fds its_fds

in_parent-launched :
    (a : Answers) (op : ControlOp) (child : Child) (fds : Fds)
    → (pass' : ℕ) × (fds' : Fds) × (in_parent a op child fds none ≡ launched child pass' fds' none)
unfolding in_parent
in_parent-launched a op child fds = elim (Bool-cases (is_op op cmd_pipe)) [
  | inl piped ↦ (a.read_fd, close (with_pipe a op fds) a.write_fd, rw piped refl)
  | inr plain ↦ (0, fds, rw plain refl)
]

-- A command that is none of the built-in ones is started as the program of that name under /usr/bin,
-- if the descriptors that the system hands out are not in use. Its input is the read end of the pipe
-- before it, or else the file it is redirected from, or what the shell's input is. Its output is the
-- write end of the pipe behind it, unless its input is redirected, or else the file it is redirected
-- to, or the shell's; and its errors go to their file or to where the shell's go.
pub cmd_exec-Runs :
    (a : Answers) (name : Bytes) (args : List Bytes) (r : Redirects) (op : ControlOp) (pass : ℕ)
    (fds : Fds)
    → AreFree a pass
    → (pass ≢ 0 → (s : Source) × (fds pass ≡ some s))
    → is_builtin name ≡ false
    → Runs a name args r op pass fds
cmd_exec-Runs a name args r op pass fds free live plain =
    let (pass', fds', e) = in_parent-launched a op (child_of a name args r op pass fds) fds in
    record {
      its_fds = child_fds a op r pass fds;
      pass' = pass';
      fds' = fds';
      ran = cmd_exec-child a name args r op pass fds plain ∙ e;
      wires = child_fds-Wires a op r pass free fds live;
    }

-- What the shell keeps after the left side of a pipe.
abbrev between : Answers → Fds → Fds
between a fds = close (with_pipe a cmd_pipe fds) a.write_fd

between_read :
    (a : Answers) (fds : Fds)
    → a.read_fd ≢ a.write_fd
    → between a fds a.read_fd ≡ some (read_end a.pipe_id)
unfolding with_pipe
between_read a fds ne =
    let f = set_fd fds a.read_fd (some (read_end a.pipe_id)) in
    set_ne (set_fd f a.write_fd (some (write_end a.pipe_id))) a.write_fd a.read_fd none ne
    ∙ set_ne f a.write_fd a.read_fd (some (write_end a.pipe_id)) ne
    ∙ set_self fds a.read_fd (some (read_end a.pipe_id))

-- Two commands, of which the left is followed by a pipe, are the two ends of one pipe.
pub record Joined (a a₂ : Answers) (left right : Command) (pass : ℕ) (fds : Fds) : Type 0 where
  pub program : Bytes
  pub program₂ : Bytes
  pub argv : List Bytes
  pub argv₂ : List Bytes
  pub writer : Fds
  pub reader : Fds
  pub middle : Fds
  pub after_both : Fds
  pub pass₂ : ℕ
  pub left_ran :
      cmd_exec a left pass fds ≡ launched (execs program argv writer) a.read_fd middle none
  pub right_ran :
      cmd_exec a₂ right a.read_fd middle
      ≡ launched (execs program₂ argv₂ reader) pass₂ after_both none
  pub output : writer 1 ≡ some (write_end a.pipe_id)
  pub input : reader 0 ≡ some (read_end a.pipe_id)

module _ (a a₂ : Answers) (name : Bytes) (args : List Bytes) (r : Redirects) (name₂ : Bytes)
    (args₂ : List Bytes) (r₂ : Redirects) (op : ControlOp) (pass : ℕ) (fds : Fds) where
  -- Of two commands that are started one after the other with a pipe between them, neither of them
  -- built in and the left without a redirected input, the left writes into the pipe from which the
  -- right reads, whatever its other redirections are, if the descriptors that the system hands out
  -- are not in use.
  pub cmd_exec-Joined :
      AreFree a pass
      → AreFree a₂ a.read_fd
      → (pass ≢ 0 → (s : Source) × (fds pass ≡ some s))
      → is_builtin name ≡ false
      → is_builtin name₂ ≡ false
      → r.input ≡ none
      → Joined a a₂
          (command (name ∷ args) r nothing cmd_pipe)
          (command (name₂ ∷ args₂) r₂ nothing op)
          pass
          fds
  unfolding in_parent
  cmd_exec-Joined free free₂ live plain plain₂ no_input =
      let w = child_fds-Wires a cmd_pipe r pass free fds live in
      let held = between_read a fds free.ends in
      let right =
        cmd_exec-Runs a₂ name₂ args₂ r₂ op a.read_fd (between a fds) free₂
          (λ ne. (read_end a.pipe_id, held)) plain₂ in
      let from_pipe_now : (a.read_fd == 0) ≡ false = ground (arith, free.read_high) in
      record {
        program = codes "/usr/bin/" ++ name;
        program₂ = codes "/usr/bin/" ++ name₂;
        argv = name ∷ args;
        argv₂ = name₂ ∷ args₂;
        writer = child_fds a cmd_pipe r pass fds;
        reader = right.its_fds;
        middle = between a fds;
        after_both = right.fds';
        pass₂ = right.pass';
        left_ran = cmd_exec-child a name args r cmd_pipe pass fds plain;
        right_ran = right.ran;
        output =
            w.output
            ∙ ap (λ x. piped_out a cmd_pipe x (redirected_to a 1 r.output (fds 1))) no_input;
        input =
            right.wires.input
            ∙ ap
                (λ b.
                  if b
                  then redirected_to a₂ 0 r₂.input (between a fds 0)
                  else between a fds a.read_fd)
                from_pipe_now
            ∙ held;
      }
