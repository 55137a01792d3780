-- ===== src/Shell/Launch/Tests.antt =====
-- `ls -l 2> log | wc` as cmd_exec starts it: the pipe has the descriptors 3 and 4, and files open as 5.
use systems_projects.Base.{refl, none, some, [], ◌∷◌, codes, arith}
use systems_projects.Shell.Exec.{cmd_pipe, cmd_end}
use systems_projects.Shell.Parse.{Redirects, command, nothing}
use systems_projects.Shell.Launch.{inherited, Fds, Answers}
use systems_projects.Shell.Launch.Wired.{AreFree}
use systems_projects.Shell.Launch.Pipeline.{Runs, cmd_exec-Runs, Joined, cmd_exec-Joined}

abbrev answers : Answers
answers = record {
  pipe_id = 0;
  read_fd = 3;
  write_fd = 4;
  opened = λ target. some 5;
  cwd = codes "/home";
}

-- The answers for the command behind it, while 3 is open.
abbrev answers₂ : Answers
answers₂ = record {
  pipe_id = 1;
  read_fd = 4;
  write_fd = 5;
  opened = λ target. some 6;
  cwd = codes "/home";
}

answers-AreFree : AreFree answers 0
answers-AreFree = record {
  read_high = omega arith;
  write_high = omega arith;
  pass_high = λ ne. absurd (ne refl);
  ends = λ z. omega (arith, z);
  pass_read = λ z. omega (arith, z);
  pass_write = λ z. omega (arith, z);
  opened_high = λ target fd e. ground (arith, e);
  opened_read = λ target e. ground (arith, e);
  opened_write = λ target e. ground (arith, e);
  opened_pass = λ target e. ground (arith, e);
}

answers₂-AreFree : AreFree answers₂ 3
answers₂-AreFree = record {
  read_high = omega arith;
  write_high = omega arith;
  pass_high = λ ne. omega arith;
  ends = λ z. omega (arith, z);
  pass_read = λ z. omega (arith, z);
  pass_write = λ z. omega (arith, z);
  opened_high = λ target fd e. ground (arith, e);
  opened_read = λ target e. ground (arith, e);
  opened_write = λ target e. ground (arith, e);
  opened_pass = λ target e. ground (arith, e);
}

abbrev to_log : Redirects
to_log = record { input = none; output = none; errors = some (codes "log") }

abbrev no_redirects : Redirects
no_redirects = record { input = none; output = none; errors = none }

abbrev terminal : Fds
terminal = λ fd. some (inherited fd)

cmd_exec-Runs_example : Runs answers (codes "ls") (codes "-l" ∷ []) to_log cmd_end 0 terminal
cmd_exec-Runs_example =
    cmd_exec-Runs answers (codes "ls") (codes "-l" ∷ []) to_log cmd_end 0 terminal answers-AreFree
      (λ ne. absurd (ne refl)) refl

cmd_exec-Joined_example :
    Joined answers answers₂
      (command (codes "ls" ∷ codes "-l" ∷ []) to_log nothing cmd_pipe)
      (command (codes "wc" ∷ []) no_redirects nothing cmd_end)
      0
      terminal
cmd_exec-Joined_example =
    cmd_exec-Joined answers answers₂ (codes "ls") (codes "-l" ∷ []) to_log (codes "wc") []
      no_redirects cmd_end 0 terminal answers-AreFree answers₂-AreFree (λ ne. absurd (ne refl)) refl
      refl refl
