-- ===== src/Jobs.antt =====
-- lab3-TheCarton-main/queue.c and queue.h: the queue of jobs between the listener and the workers. A
-- task lives at an address; `tasks` is the part of the memory that holds them, and `none` there, or
-- as a result, is a pointer that cannot be followed. Each operation runs under one mutex, so it is
-- one step; the wait for the condition is a result of its own.
pub mod Laws
mod Tests
use systems_projects.Base.{ℕ, zero, suc, ◌+◌, Option, none, some, ◌==◌, if◌then◌else◌}

pub record Task : Type 0 where
  pub next : Option ℕ
  pub fd : ℕ

abbrev pub Memory : Type 0
Memory = ℕ → Option Task

pub record JobQueue : Type 0 where
  pub tasks : Memory
  pub head : Option ℕ
  pub tail : Option ℕ
  pub count : ℕ

abbrev pub put : Memory → ℕ → Task → Memory
put m a t = λ x. if x == a then some t else m x

-- `q->tail->next = t; q->tail = t;`
link : JobQueue → ℕ → Option ℕ → Option JobQueue
link q t none = none
link q t (some l) = elim (q.tasks l) [
  | none ↦ none
  | some last ↦
      some (record q { tasks = put q.tasks l (record last { next = some t }); tail = some t })
]

enqueue_at : JobQueue → ℕ → Option ℕ → Option JobQueue
unfolding link
enqueue_at q t none = some (record q { head = some t; tail = some t })
enqueue_at q t (some h) = link q t q.tail

unfoldable pub enqueue : JobQueue → ℕ → Option JobQueue
unfolding enqueue_at
enqueue q t = enqueue_at q t q.head

-- The thread waits, or has a task, or followed a pointer to nothing.
pub data Dequeued : Type 0 where
  waiting : Dequeued
  fetched : ℕ → JobQueue → Dequeued
  broken : Dequeued

dequeue_at : JobQueue → Option ℕ → Dequeued
dequeue_at q none = waiting
dequeue_at q (some a) = elim (q.tasks a) [
  | none ↦ broken
  | some task ↦ fetched a (record q { head = task.next })
]

unfoldable pub dequeue : JobQueue → Dequeued
unfolding dequeue_at
dequeue q = dequeue_at q q.head

-- The loop of queue_count; `none` is a pointer to nothing, or no fuel.
count_from : (fuel : ℕ) → Memory → Option ℕ → ℕ → Option ℕ
count_from fuel m none count = some count
count_from zero m (some a) count = none
count_from (suc fuel) m (some a) count = elim (m a) [
  | none ↦ none
  | some task ↦ count_from fuel m task.next (count + 1)
]

unfoldable pub queue_count : (fuel : ℕ) → JobQueue → Option ℕ
unfolding count_from
queue_count fuel q = count_from fuel q.tasks q.head 0
