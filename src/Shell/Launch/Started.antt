-- ===== src/Shell/Launch/Started.antt =====
-- The descriptors of the child that cmd_exec of cmdrun.c (lab2-TheCarton-main) starts, and the two
-- ends of a pipe between two commands.
use systems_projects.Base.{
  ℕ, ◌<◌, ◌≡◌, ◌≢◌, refl, ap, ◌∙◌, sym, true, Option, none, some, Bytes, ◌==◌, ==_iff,
  if◌then◌else◌, arith, Bool-cases, inl, inr,
}
use systems_projects.Shell.Exec.{ControlOp, cmd_pipe, is_op}
use systems_projects.Shell.Parse.{Redirects}
use systems_projects.Shell.Launch.{
  Source, write_end, Fds, dup2, Answers, redirect, with_pipe, input_or_pipe, from_pipe, child_fds,
}
use systems_projects.Shell.Launch.Wired.{
  AreFree, set_ne, dup2_new, dup2_ne, redirected_to, redirect_at, redirect_ne, not_opened,
  with_pipe_ne, with_pipe_write, into_pipe_out, into_pipe_ne, low_read, low_write,
}

-- The output of a command whose input is redirected does not go into the pipe.
abbrev pub piped_out : Answers → ControlOp → (input : Option Bytes) → Option Source → Option Source
piped_out a op none old = if is_op op cmd_pipe then some (write_end a.pipe_id) else old
piped_out a op (some name) old = old

-- Where the first three descriptors lead after a launch.
pub record Wires (a : Answers) (op : ControlOp) (r : Redirects) (pass : ℕ) (fds fds' : Fds)
    : Type 0 where
  pub input : fds' 0 ≡ (if pass == 0 then redirected_to a 0 r.input (fds 0) else fds pass)
  pub output : fds' 1 ≡ piped_out a op r.input (redirected_to a 1 r.output (fds 1))
  pub errors : fds' 2 ≡ redirected_to a 2 r.errors (fds 2)

module _ (a : Answers) (op : ControlOp) (r : Redirects) (pass : ℕ) (free : AreFree a pass)
    (fds : Fds) (live : pass ≢ 0 → (s : Source) × (fds pass ≡ some s)) where
  abbrev outputs : Fds
  outputs = redirect a 1 r.output (with_pipe a op fds)

  abbrev before : Fds
  before = redirect a 2 r.errors outputs

  outputs_ne : (x : ℕ) → x ≢ 1 → a.opened 1 ≢ some x → outputs x ≡ with_pipe a op fds x
  outputs_ne x ne away = redirect_ne a op r pass free (with_pipe a op fds) 1 r.output x ne away

  before_ne : (x : ℕ) → x ≢ 2 → a.opened 2 ≢ some x → before x ≡ outputs x
  before_ne x ne away = redirect_ne a op r pass free outputs 2 r.errors x ne away

  first : (x : ℕ) → x < 3 → with_pipe a op fds x ≡ fds x
  first x low =
      with_pipe_ne a op r pass free fds x (low_read a op r pass free x low)
        (low_write a op r pass free x low)

  before_in : before 0 ≡ fds 0
  before_in =
      before_ne 0 (λ z. omega (arith, z)) (not_opened a op r pass free 2 0 (omega arith))
      ∙ outputs_ne 0 (λ z. omega (arith, z)) (not_opened a op r pass free 1 0 (omega arith))
      ∙ first 0 (omega arith)

  before_out : before 1 ≡ redirected_to a 1 r.output (fds 1)
  before_out =
      before_ne 1 (λ z. omega (arith, z)) (not_opened a op r pass free 2 1 (omega arith))
      ∙ redirect_at a op r pass free (with_pipe a op fds) 1 r.output (omega arith)
      ∙ ap (redirected_to a 1 r.output) (first 1 (omega arith))

  before_err : before 2 ≡ redirected_to a 2 r.errors (fds 2)
  before_err =
      redirect_at a op r pass free outputs 2 r.errors (omega arith)
      ∙ ap (redirected_to a 2 r.errors) (
          outputs_ne 2 (λ z. omega (arith, z)) (not_opened a op r pass free 1 2 (omega arith))
          ∙ first 2 (omega arith))

  before_write : is_op op cmd_pipe ≡ true → before a.write_fd ≡ some (write_end a.pipe_id)
  before_write piped =
      before_ne a.write_fd (λ z. omega (arith, z, free.write_high)) (free.opened_write 2)
      ∙ outputs_ne a.write_fd (λ z. omega (arith, z, free.write_high)) (free.opened_write 1)
      ∙ with_pipe_write a op r pass free fds piped

  before_pass : pass ≢ 0 → before pass ≡ fds pass
  before_pass some_pass =
      let high = free.pass_high some_pass in
      before_ne pass (λ z. omega (arith, z, high)) (free.opened_pass 2)
      ∙ outputs_ne pass (λ z. omega (arith, z, high)) (free.opened_pass 1)
      ∙ with_pipe_ne a op r pass free fds pass free.pass_read free.pass_write

  abbrev third : Option Bytes → Fds
  third name = input_or_pipe a op name before

  third_out : (name : Option Bytes) → third name 1 ≡ piped_out a op name (before 1)
  unfolding input_or_pipe
  third_out none = elim (Bool-cases (is_op op cmd_pipe)) [
    | inl piped ↦ into_pipe_out a op r pass free before piped (before_write piped) ∙ rw piped refl
    | inr plain ↦
        into_pipe_ne a op r pass free before 1 (λ piped. ground (arith, plain, piped))
          (low_read a op r pass free 1 (omega arith)) (low_write a op r pass free 1 (omega arith))
        ∙ rw plain refl
  ]
  third_out (some name) =
      redirect_ne a op r pass free before 0 (some name) 1 (λ z. omega (arith, z))
        (not_opened a op r pass free 0 1 (omega arith))

  -- The others, but for the input.
  third_ne :
      (name : Option Bytes) (x : ℕ)
      → x ≢ 0
      → x ≢ 1
      → x ≢ a.read_fd
      → x ≢ a.write_fd
      → a.opened 0 ≢ some x
      → third name x ≡ before x
  unfolding input_or_pipe
  third_ne none x ne ne' ne_read ne_write away =
      into_pipe_ne a op r pass free before x (λ piped. ne') ne_read ne_write
  third_ne (some name) x ne ne' ne_read ne_write away =
      redirect_ne a op r pass free before 0 (some name) x ne away

  third_in : (name : Option Bytes) → third name 0 ≡ redirected_to a 0 name (before 0)
  unfolding input_or_pipe
  third_in none =
      into_pipe_ne a op r pass free before 0 (λ piped z. omega (arith, z))
        (low_read a op r pass free 0 (omega arith)) (low_write a op r pass free 0 (omega arith))
  third_in (some name) = redirect_at a op r pass free before 0 (some name) (omega arith)

  -- The read end of the pipe before, if there is one, is the input.
  from_pipe_in :
      (f : Fds)
      → (pass ≢ 0 → f pass ≡ fds pass)
      → from_pipe pass f 0 ≡ (if pass == 0 then f 0 else fds pass)
  unfolding from_pipe
  from_pipe_in f same = elim (Bool-cases (pass == 0)) [
    | inl none_before ↦ rw none_before refl
    | inr one ↦
        let some_pass : pass ≢ 0 = λ z. ground (arith, one, (==_iff pass 0).1 z) in
        let (s, e) = live some_pass in
        rw one (
          set_ne (dup2 f pass 0) pass 0 none (λ z. some_pass (sym z))
          ∙ dup2_new f pass 0 (same some_pass ∙ e)
          ∙ sym e)
  ]

  from_pipe_ne : (f : Fds) (x : ℕ) → x ≢ 0 → x < 3 → from_pipe pass f x ≡ f x
  unfolding from_pipe
  from_pipe_ne f x ne low = elim (Bool-cases (pass == 0)) [
    | inl none_before ↦ rw none_before refl
    | inr one ↦
        let some_pass : pass ≢ 0 = λ z. ground (arith, one, (==_iff pass 0).1 z) in
        rw one (
          set_ne (dup2 f pass 0) pass x none (λ z. omega (arith, free.pass_high some_pass, low, z))
          ∙ dup2_ne f pass 0 x ne)
  ]

  pub child_fds-Wires : Wires a op r pass fds (child_fds a op r pass fds)
  unfolding child_fds
  child_fds-Wires = record {
    input =
        from_pipe_in (third r.input) (λ ne.
          third_ne r.input pass ne (λ z. omega (arith, z, free.pass_high ne)) free.pass_read
            free.pass_write (free.opened_pass 0)
          ∙ before_pass ne)
        ∙ ap (λ x. if pass == 0 then x else fds pass)
            (third_in r.input ∙ ap (redirected_to a 0 r.input) before_in);
    output =
        from_pipe_ne (third r.input) 1 (λ z. omega (arith, z)) (omega arith)
        ∙ third_out r.input
        ∙ ap (piped_out a op r.input) before_out;
    errors =
        from_pipe_ne (third r.input) 2 (λ z. omega (arith, z)) (omega arith)
        ∙ third_ne r.input 2 (λ z. omega (arith, z)) (λ z. omega (arith, z))
            (low_read a op r pass free 2 (omega arith)) (low_write a op r pass free 2 (omega arith))
            (not_opened a op r pass free 0 2 (omega arith))
        ∙ before_err;
  }
