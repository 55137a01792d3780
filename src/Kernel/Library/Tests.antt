-- ===== src/Kernel/Library/Tests.antt =====
-- memmove where the ranges overlap: three bytes at 10 are moved to 11.
use systems_projects.Base.{◌+◌, ◌-◌, ◌≡◌, ◌&&◌, leb, ltb, if◌then◌else◌}
use systems_projects.Kernel.Library.{memmove}
use systems_projects.Kernel.Library.Laws.{memmove-copied}

memmove-copied_example :
    memmove 11 10 3 (λ a. a) 12 ≡ (if leb 11 12 && ltb 12 (11 + 3) then 10 + (12 - 11) else 12)
memmove-copied_example = memmove-copied 11 10 3 (λ a. a) 12
