-- ===== src/Jobs/Tests.antt =====
-- The queue of jobs with two tasks, and a third that comes in.
use systems_projects.Base.{◌≡◌, refl, none, some, [], ◌∷◌, arith}
use systems_projects.Jobs.{Task, Memory, JobQueue, put, enqueue, fetched, dequeue}
use systems_projects.Jobs.Laws.{Holds, enqueue-Holds, dequeue-Holds}

abbrev task_7 : Task
task_7 = record { next = some 8; fd = 4 }

abbrev task_8 : Task
task_8 = record { next = none; fd = 5 }

abbrev task_9 : Task
task_9 = record { next = none; fd = 6 }

abbrev memory : Memory
memory = put (put (put (λ x. none) 7 task_7) 8 task_8) 9 task_9

abbrev two_jobs : JobQueue
two_jobs = record { tasks = memory; head = some 7; tail = some 8; count = 0 }

two_jobs-Holds : Holds two_jobs (7 ∷ 8 ∷ [])
two_jobs-Holds = record {
  chain = (refl, task_7, refl, (refl, task_8, refl, refl));
  tail = λ some_task. refl;
  distinct = ((λ e. absurd (omega arith), tt), (tt, tt));
}

enqueue-Holds_example : (q' : JobQueue) × (enqueue two_jobs 9 ≡ some q') × Holds q' (7 ∷ 8 ∷ 9 ∷ [])
enqueue-Holds_example =
    enqueue-Holds two_jobs (7 ∷ 8 ∷ []) 9 task_9 two_jobs-Holds refl refl
      (λ e. absurd (omega arith), (λ e. absurd (omega arith), tt))

dequeue-Holds_example : (q' : JobQueue) × (dequeue two_jobs ≡ fetched 7 q') × Holds q' (8 ∷ [])
dequeue-Holds_example = dequeue-Holds two_jobs 7 (8 ∷ []) two_jobs-Holds
