-- ===== src/Jobs/Laws.antt =====
-- The queue of jobs implements a list: first in, first out.
use systems_projects.Base.{
  ℕ, zero, suc, ◌+◌, ◌≤◌, ◌≡◌, ◌≢◌, refl, ap, ◌∙◌, sym, Option, none, some, List, [], ◌∷◌, ◌++◌,
  length, arith,
}
use systems_projects.Jobs.{
  Task, Memory, JobQueue, put, enqueue, fetched, dequeue, count_from, queue_count,
}

-- The addresses that follow one another from `p` to NULL.
abbrev pub Chain : Memory → Option ℕ → List ℕ → Type 0
Chain m p [] = p ≡ none
Chain m p (a ∷ rest) = (p ≡ some a) × (t : Task) × (m a ≡ some t) × Chain m t.next rest

abbrev pub last_of : List ℕ → Option ℕ
last_of [] = none
last_of (a ∷ []) = some a
last_of (a ∷ b ∷ bs) = last_of (b ∷ bs)

abbrev pub Fresh : ℕ → List ℕ → Type 0
Fresh a [] = Prim.Unit {0}
Fresh a (b ∷ bs) = (a ≢ b) × Fresh a bs

abbrev pub Distinct : List ℕ → Type 0
Distinct [] = Prim.Unit {0}
Distinct (a ∷ rest) = Fresh a rest × Distinct rest

-- The queue holds these addresses, in this order.
pub record Holds (q : JobQueue) (xs : List ℕ) : Type 0 where
  pub chain : Chain q.tasks q.head xs
  pub tail : xs ≢ [] → q.tail ≡ last_of xs
  pub distinct : Distinct xs

put_self : (m : Memory) (a : ℕ) (t : Task) → put m a t a ≡ some t
put_self m a t = ground arith

put_ne : (m : Memory) (a x : ℕ) (t : Task) → x ≢ a → put m a t x ≡ m x
put_ne m a x t ne = ground arith

Fresh-last_of : (a l : ℕ) (xs : List ℕ) → Fresh a xs → last_of xs ≡ some l → a ≢ l
Fresh-last_of a l [] fresh e = absurd (cc)
Fresh-last_of a l (b ∷ []) fresh e = λ h. fresh.0 (ground arith)
Fresh-last_of a l (b ∷ c ∷ cs) fresh e = Fresh-last_of a l (c ∷ cs) fresh.1 e

Fresh-append : (a b : ℕ) (xs : List ℕ) → Fresh a xs → a ≢ b → Fresh a (xs ++ b ∷ [])
Fresh-append a b [] fresh ne = (ne, tt)
Fresh-append a b (x ∷ xs) fresh ne = (fresh.0, Fresh-append a b xs fresh.1 ne)

Distinct-append : (xs : List ℕ) (a : ℕ) → Distinct xs → Fresh a xs → Distinct (xs ++ a ∷ [])
Distinct-append [] a d fresh = (tt, tt)
Distinct-append (x ∷ xs) a d fresh =
    (Fresh-append x a xs d.0 (λ e. fresh.0 (sym e)), Distinct-append xs a d.1 fresh.1)

last_of-append : (xs : List ℕ) (a : ℕ) → last_of (xs ++ a ∷ []) ≡ some a
last_of-append [] a = refl
last_of-append (x ∷ []) a = refl
last_of-append (x ∷ y ∷ ys) a = last_of-append (y ∷ ys) a

-- Every chain has its last task in memory.
last_task :
    (m : Memory) (p : Option ℕ) (a : ℕ) (rest : List ℕ)
    → Chain m p (a ∷ rest)
    → (l : ℕ) × (t : Task) × (last_of (a ∷ rest) ≡ some l) × (m l ≡ some t)
last_task m p a [] c = (a, c.1, refl, c.2)
last_task m p a (b ∷ bs) c = last_task m c.1.next b bs c.3

module _ (m : Memory) (l t : ℕ) (last new : Task) (is_new : m t ≡ some new)
    (no_next : new.next ≡ none) where
  -- Linking a new task behind the last one.
  Chain-link :
      (p : Option ℕ) (a : ℕ) (rest : List ℕ)
      → Chain m p (a ∷ rest)
      → last_of (a ∷ rest) ≡ some l
      → Distinct (a ∷ rest)
      → Fresh t (a ∷ rest)
      → Chain (put m l (record last { next = some t })) p ((a ∷ rest) ++ t ∷ [])
  Chain-link p a [] c e d fresh =
      let same : a ≡ l = ground arith in
      (
        c.0,
        record last { next = some t },
        rw same (put_self m l (record last { next = some t })),
        (
          refl,
          new,
          put_ne m l t (record last { next = some t }) (λ h. fresh.0 (h ∙ sym same)) ∙ is_new,
          no_next,
        ),
      )
  Chain-link p a (b ∷ bs) c e d fresh = (
    c.0,
    c.1,
    put_ne m l a (record last { next = some t }) (Fresh-last_of a l (b ∷ bs) d.0 e) ∙ c.2,
    Chain-link c.1.next b bs c.3 e d.1 fresh.1,
  )

-- enqueue puts a task that is in memory, has no successor and is not in the queue at the end of a
-- queue of distinct tasks.
pub enqueue-Holds :
    (q : JobQueue) (xs : List ℕ) (t : ℕ) (new : Task)
    → Holds q xs
    → q.tasks t ≡ some new
    → new.next ≡ none
    → Fresh t xs
    → (q' : JobQueue) × (enqueue q t ≡ some q') × Holds q' (xs ++ t ∷ [])
unfolding enqueue
enqueue-Holds q [] t new h is_new no_next fresh = (
  record q { head = some t; tail = some t },
  rw h.chain refl,
  record { chain = (refl, new, is_new, no_next); tail = λ some_task. refl; distinct = (tt, tt) },
)
enqueue-Holds q (a ∷ rest) t new h is_new no_next fresh =
    let (l, last, at_end, there) = last_task q.tasks q.head a rest h.chain in
    let at_tail : q.tail ≡ some l = h.tail (λ e. ground arith) ∙ at_end in
    (
      record q { tasks = put q.tasks l (record last { next = some t }); tail = some t },
      rw (h.chain.0, at_tail, there),
      record {
        chain =
            Chain-link q.tasks l t last new is_new no_next q.head a rest h.chain at_end h.distinct
              fresh;
        tail = λ some_task. sym (last_of-append (a ∷ rest) t);
        distinct = Distinct-append (a ∷ rest) t h.distinct fresh;
      },
    )

-- dequeue takes the first task of a queue that is not empty, and leaves the others in their order.
pub dequeue-Holds :
    (q : JobQueue) (a : ℕ) (rest : List ℕ)
    → Holds q (a ∷ rest)
    → (q' : JobQueue) × (dequeue q ≡ fetched a q') × Holds q' rest
unfolding dequeue
dequeue-Holds q a rest h = (
  record q { head = h.chain.1.next },
  rw (h.chain.0, h.chain.2),
  record {
    chain = h.chain.3;
    tail = λ some_task. h.tail (λ e. ground arith) ∙ rest_last rest some_task;
    distinct = h.distinct.1;
  },
)
  where
    rest_last : (rest : List ℕ) → rest ≢ [] → last_of (a ∷ rest) ≡ last_of rest
    rest_last [] some_task = absurd (some_task refl)
    rest_last (b ∷ bs) some_task = refl

count_from-Chain :
    (xs : List ℕ) (fuel : ℕ) (m : Memory) (p : Option ℕ) (count : ℕ)
    → Chain m p xs
    → length xs ≤ fuel
    → count_from fuel m p count ≡ some (count + length xs)
unfolding count_from
count_from-Chain [] fuel m p count c enough = rw c (ap some (omega arith))
count_from-Chain (a ∷ rest) zero m p count c enough = absurd (omega arith)
count_from-Chain (a ∷ rest) (suc f) m p count c enough =
    rw (c.0, c.2, count_from)
      (count_from-Chain rest f m c.1.next (count + 1) c.3 (omega arith) ∙ ap some (omega arith))

-- queue_count returns the number of tasks, if the fuel is at least that number.
pub queue_count-length :
    (q : JobQueue) (xs : List ℕ) (fuel : ℕ)
    → Holds q xs
    → length xs ≤ fuel
    → queue_count fuel q ≡ some (length xs)
unfolding queue_count
queue_count-length q xs fuel h enough =
    count_from-Chain xs fuel q.tasks q.head 0 h.chain enough ∙ ap some (omega arith)
