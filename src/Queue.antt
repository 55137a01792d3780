-- ===== src/Queue.antt =====
-- lab1-TheCarton-main/part2: the queue of strings (queue.c, queue.h) and the programs that keep one
-- (queue_main.c, ciphered_queue_main.c). The queue is here with the heap it lives in: `nodes` and
-- `strings` hold what is allocated, and `none` is an address that is not. `none` as a result is a
-- pointer that cannot be followed, or a block that is freed and was not allocated. malloc never
-- fails; the addresses it returns are arguments. A loop takes as fuel the number of nodes at least.
pub mod Holds
pub mod Steps
pub mod Program
pub mod Matches
pub mod Expected
pub mod Trip
mod Tests
use systems_projects.Base.{
  ℕ, zero, suc, Option, none, some, List, [], ◌∷◌, ◌++◌, Bytes, codes, ◌==◌, if◌then◌else◌,
}

pub record Node : Type 0 where
  pub next : Option ℕ
  pub data_at : Option ℕ

-- A part of the heap: what has been stored at the addresses, the latest first.
abbrev pub Heap : Type 0 → Type 0
Heap A = List (ℕ × Option A)

unfoldable pub fetch : {A : Type 0} → Heap A → ℕ → Option A
fetch [] x = none
fetch ((a, v) ∷ m) x = if x == a then v else fetch m x

abbrev pub put : {A : Type 0} → Heap A → ℕ → Option A → Heap A
put m a v = (a, v) ∷ m

pub record Queue : Type 0 where
  pub nodes : Heap Node
  pub strings : Heap Bytes
  pub head : Option ℕ
  pub tail : Option ℕ

-- The branch of enqueue in which `q->tail` is followed.
link : Queue → ℕ → Option ℕ → Option Queue
link q new none = none
link q new (some l) = elim (fetch q.nodes l) [
  | none ↦ none
  | some last ↦
      some (record q {
        nodes = put q.nodes l (some (record last { next = some new }));
        tail = some new;
      })
]

enqueue_at : Queue → ℕ → Option ℕ → Option Queue
unfolding link
enqueue_at q new none = some (record q { head = some new; tail = some new })
enqueue_at q new (some h) = link q new q.tail

-- `new` and `text` are the addresses of the node and of the copy of the string.
unfoldable pub enqueue : Queue → (new text : ℕ) → Bytes → Option Queue
unfolding enqueue_at
enqueue q new text word =
    enqueue_at
      (record q {
        nodes = put q.nodes new (some (record { next = none; data_at = some text }));
        strings = put q.strings text (some word);
      })
      new q.head

dequeue_at : Queue → Option ℕ → Option (Option ℕ × Queue)
dequeue_at q none = some (none, q)
dequeue_at q (some h) = elim (fetch q.nodes h) [
  | none ↦ none
  | some node ↦ some (some h, record q { head = node.next })
]

-- The node is still allocated, and `q->tail` stays as it is.
unfoldable pub dequeue : Queue → Option (Option ℕ × Queue)
unfolding dequeue_at
dequeue q = dequeue_at q q.head

free_data : Queue → Option ℕ → Option Queue
free_data q none = some q
free_data q (some d) = elim (fetch q.strings d) [
  | none ↦ none
  | some word ↦ some (record q { strings = put q.strings d none })
]

free_rest : Option Queue → ℕ → Option Queue
free_rest none a = none
free_rest (some q) a = some (record q { nodes = put q.nodes a none })

unfoldable pub free_node : Queue → ℕ → Option Queue
unfolding free_data free_rest
free_node q a = elim (fetch q.nodes a) [
  | none ↦ none
  | some node ↦ free_rest (free_data q node.data_at) a
]

-- The loop of free_queue.
unfoldable pub free_from : (fuel : ℕ) → Queue → Option ℕ → Option Queue
free_from fuel q none = some q
free_from zero q (some a) = none
free_from (suc fuel) q (some a) = elim (fetch q.nodes a) [
  | none ↦ none
  | some node ↦ elim (free_node q a) [ none ↦ none | some q' ↦ free_from fuel q' node.next ]
]

unfoldable pub free_queue : (fuel : ℕ) → Queue → Option Queue
free_queue fuel q = free_from fuel q q.head

-- `node->data` as a string.
abbrev pub string_of : Queue → Node → Option Bytes
string_of q node = elim node.data_at [ none ↦ none | some d ↦ fetch q.strings d ]

-- "[%s]", and "->" if another node follows.
abbrev pub bracketed : Bytes → Option ℕ → Bytes
bracketed word none = codes "[" ++ (word ++ codes "]")
bracketed word (some a) = codes "[" ++ (word ++ codes "]->")

-- What the loop of print_queue prints.
unfoldable pub print_from : (fuel : ℕ) → Queue → Option ℕ → Option Bytes
print_from fuel q none = some []
print_from zero q (some a) = none
print_from (suc fuel) q (some a) = elim (fetch q.nodes a) [
  | none ↦ none
  | some node ↦ elim (string_of q node) [
    | none ↦ none
    | some word ↦ elim (print_from fuel q node.next) [
      | none ↦ none
      | some rest ↦ some (bracketed word node.next ++ rest)
    ]
  ]
]

labelled : Option Bytes → Option Bytes
labelled none = none
labelled (some text) = some (codes "finally: " ++ (text ++ codes "\n"))

unfoldable pub print_queue : (fuel : ℕ) → Queue → Option Bytes
unfolding labelled
print_queue fuel q = labelled (print_from fuel q q.head)
