-- ===== src/Shell.antt =====
-- lab2-TheCarton-main: the shell, with its tokens (Token) and the loop over a command line (Exec).
pub mod Token
pub mod Exec
pub mod Launch
pub mod Parse
mod Tests
