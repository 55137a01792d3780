-- ===== src/Shell/Launch/Wired.antt =====
-- Where the input, output and error descriptors of a command lead once cmd_exec of cmdrun.c
-- (lab2-TheCarton-main) has launched it.
use systems_projects.Base.{
  ℕ, ◌<◌, ◌≡◌, ◌≢◌, refl, ap, ◌∙◌, sym, true, Option, none, some, Bytes, arith, Bool-cases, inl,
  inr, Option-cases,
}
use systems_projects.Shell.Exec.{ControlOp, cmd_pipe, is_op}
use systems_projects.Shell.Parse.{Redirects}
use systems_projects.Shell.Launch.{
  Source, file, read_end, write_end, Fds, set_fd, dup2, close, Answers, path_of, redirect_to,
  redirect, with_pipe, into_pipe,
}

-- The descriptors that the system hands out are not in use: none of the first three, nor one
-- another, nor the read end of the pipe before.
pub record AreFree (a : Answers) (pass : ℕ) : Type 0 where
  pub read_high : 2 < a.read_fd
  pub write_high : 2 < a.write_fd
  pub pass_high : pass ≢ 0 → 2 < pass
  pub ends : a.read_fd ≢ a.write_fd
  pub pass_read : pass ≢ a.read_fd
  pub pass_write : pass ≢ a.write_fd
  pub opened_high : (target fd : ℕ) → a.opened target ≡ some fd → 2 < fd
  pub opened_read : (target : ℕ) → a.opened target ≢ some a.read_fd
  pub opened_write : (target : ℕ) → a.opened target ≢ some a.write_fd
  pub opened_pass : (target : ℕ) → a.opened target ≢ some pass

pub set_self : (fds : Fds) (fd : ℕ) (s : Option Source) → set_fd fds fd s fd ≡ s
set_self fds fd s = ground arith

pub set_ne : (fds : Fds) (fd x : ℕ) (s : Option Source) → x ≢ fd → set_fd fds fd s x ≡ fds x
set_ne fds fd x s ne = ground arith

pub dup2_new :
    (fds : Fds) (old new : ℕ) {s : Source} → fds old ≡ some s → dup2 fds old new new ≡ some s
unfolding dup2
dup2_new fds old new {s} e =
    ap (λ o. (elim o as (λ x. Fds) [ none ↦ fds | some s ↦ set_fd fds new (some s) ]) new) e
    ∙ set_self fds new (some s)

pub dup2_ne : (fds : Fds) (old new x : ℕ) → x ≢ new → dup2 fds old new x ≡ fds x
unfolding dup2
dup2_ne fds old new x ne = elim (Option-cases (fds old)) [
  | inl e ↦ ap (λ o. (elim o as (λ x. Fds) [ none ↦ fds | some s ↦ set_fd fds new (some s) ]) x) e
  | inr (s, e) ↦
      ap (λ o. (elim o as (λ x. Fds) [ none ↦ fds | some s ↦ set_fd fds new (some s) ]) x) e
      ∙ set_ne fds new x (some s) ne
]

-- Where a redirection leads, if it is there and the file can be opened.
abbrev pub redirected_to : Answers → (target : ℕ) → Option Bytes → Option Source → Option Source
redirected_to a target none old = old
redirected_to a target (some name) old = elim (a.opened target) [
  | none ↦ old
  | some fd ↦ some (file (path_of a name))
]

redirect_to-at :
    (a : Answers) (target : ℕ) (name : Bytes) (o : Option ℕ) (fds : Fds)
    → ((fd : ℕ) → o ≡ some fd → target ≢ fd)
    → redirect_to a target name o fds target
      ≡ elim o [ none ↦ fds target | some fd ↦ some (file (path_of a name)) ]
unfolding redirect_to
redirect_to-at a target name none fds away = refl
redirect_to-at a target name (some fd) fds away =
    let v = some (file (path_of a name)) in
    set_ne (dup2 (set_fd fds fd v) fd target) fd target none (away fd refl)
    ∙ dup2_new (set_fd fds fd v) fd target (set_self fds fd v)

redirect_to_ne :
    (a : Answers) (target : ℕ) (name : Bytes) (o : Option ℕ) (fds : Fds) (x : ℕ)
    → x ≢ target
    → ((fd : ℕ) → o ≡ some fd → x ≢ fd)
    → redirect_to a target name o fds x ≡ fds x
unfolding redirect_to
redirect_to_ne a target name none fds x ne away = refl
redirect_to_ne a target name (some fd) fds x ne away =
    let v = some (file (path_of a name)) in
    set_ne (dup2 (set_fd fds fd v) fd target) fd x none (away fd refl)
    ∙ dup2_ne (set_fd fds fd v) fd target x ne
    ∙ set_ne fds fd x v (away fd refl)

module _ (a : Answers) (op : ControlOp) (r : Redirects) (pass : ℕ) (free : AreFree a pass) where
  pub redirect_at :
      (fds : Fds) (target : ℕ) (name : Option Bytes)
      → target < 3
      → redirect a target name fds target ≡ redirected_to a target name (fds target)
  unfolding redirect
  redirect_at fds target none low = refl
  redirect_at fds target (some name) low =
      redirect_to-at a target name (a.opened target) fds
        (λ fd e z. omega (arith, free.opened_high target fd e, low, z))

  pub redirect_ne :
      (fds : Fds) (target : ℕ) (name : Option Bytes) (x : ℕ)
      → x ≢ target
      → a.opened target ≢ some x
      → redirect a target name fds x ≡ fds x
  unfolding redirect
  redirect_ne fds target none x ne away = refl
  redirect_ne fds target (some name) x ne away =
      redirect_to_ne a target name (a.opened target) fds x ne (λ fd e z. away (e ∙ ap some (sym z)))

  pub not_opened : (target x : ℕ) → x < 3 → a.opened target ≢ some x
  not_opened target x low e = omega (arith, free.opened_high target x e, low)

  -- The pipe behind the command changes none of the descriptors that were there.
  pub with_pipe_ne :
      (fds : Fds) (x : ℕ) → x ≢ a.read_fd → x ≢ a.write_fd → with_pipe a op fds x ≡ fds x
  unfolding with_pipe
  with_pipe_ne fds x ne ne' = elim (Bool-cases (is_op op cmd_pipe)) [
    | inl piped ↦ rw piped (
        set_ne (set_fd fds a.read_fd (some (read_end a.pipe_id))) a.write_fd x
          (some (write_end a.pipe_id)) ne'
        ∙ set_ne fds a.read_fd x (some (read_end a.pipe_id)) ne)
    | inr plain ↦ rw plain refl
  ]

  pub with_pipe_write :
      (fds : Fds)
      → is_op op cmd_pipe ≡ true
      → with_pipe a op fds a.write_fd ≡ some (write_end a.pipe_id)
  unfolding with_pipe
  with_pipe_write fds piped = rw piped (
      set_self (set_fd fds a.read_fd (some (read_end a.pipe_id))) a.write_fd
        (some (write_end a.pipe_id)))

  pub into_pipe_out :
      (fds : Fds)
      → is_op op cmd_pipe ≡ true
      → fds a.write_fd ≡ some (write_end a.pipe_id)
      → into_pipe a op fds 1 ≡ some (write_end a.pipe_id)
  unfolding into_pipe
  into_pipe_out fds piped there = rw piped (
      set_ne (dup2 (close fds a.read_fd) a.write_fd 1) a.write_fd 1 none
        (λ z. omega (arith, free.write_high, z))
      ∙ dup2_new (close fds a.read_fd) a.write_fd 1
          (set_ne fds a.read_fd a.write_fd none (λ z. free.ends (sym z)) ∙ there))

  pub into_pipe_ne :
      (fds : Fds) (x : ℕ)
      → (is_op op cmd_pipe ≡ true → x ≢ 1)
      → x ≢ a.read_fd
      → x ≢ a.write_fd
      → into_pipe a op fds x ≡ fds x
  unfolding into_pipe
  into_pipe_ne fds x not_out ne ne' = elim (Bool-cases (is_op op cmd_pipe)) [
    | inl piped ↦ rw piped (
        set_ne (dup2 (close fds a.read_fd) a.write_fd 1) a.write_fd x none ne'
        ∙ dup2_ne (close fds a.read_fd) a.write_fd 1 x (not_out piped)
        ∙ set_ne fds a.read_fd x none ne)
    | inr plain ↦ rw plain refl
  ]

  pub low_read : (x : ℕ) → x < 3 → x ≢ a.read_fd
  low_read x low z = omega (arith, low, free.read_high, z)

  pub low_write : (x : ℕ) → x < 3 → x ≢ a.write_fd
  low_write x low z = omega (arith, low, free.write_high, z)
