-- ===== src/Kernel.antt =====
-- lab4-TheCarton-main: the parts of the WeensyOS kernel that decide which memory a process may use
-- and which process runs.
pub mod Library
pub mod Numbers
pub mod Pages
pub mod Table
pub mod Process
pub mod Start
mod Tests
