-- ===== src/Queue/Steps.antt =====
-- The queue of lab1-TheCarton-main/part2/queue.c implements a list of words.
use systems_projects.Base.{
  ℕ, zero, suc, ◌≤◌, ◌≡◌, ◌≢◌, refl, ap, ◌∙◌, sym, Option, none, some, List, [], ◌∷◌, ◌++◌, Bytes,
  codes, length, arith,
}
use mathlib.Core.List.{append_assoc}
use systems_projects.Queue.{
  dequeue_at, Heap, fetch, labelled, link, free_data, free_rest, Node, Queue, put, enqueue, dequeue,
  free_node, free_from, free_queue, bracketed, print_from, print_queue,
}
use systems_projects.Queue.Holds.{
  Cell, first, node_of, last_of, Apart, Stored, words_of, Holds, put_self, put_ne, Unused,
  Stored-put, Stored-Unused, Apart-Unused, Apart-append, last_of-append, last_cell,
}

Apart-last_of :
    (c : Cell) (cells : List Cell) (l : ℕ) → Apart c cells → last_of cells ≡ some l → c.at ≢ l
Apart-last_of c [] l away e = absurd (cc)
Apart-last_of c (d ∷ []) l away e = λ h. away.0 (ground (arith, e, h))
Apart-last_of c (d ∷ b ∷ cs) l away e = Apart-last_of c (b ∷ cs) l away.2 e

-- The last node, and what is stored once the new one is linked behind it.
module _ (nodes : Heap Node) (strings : Heap Bytes) (l : ℕ) (new : Cell)
    (is_new : fetch nodes new.at ≡ some (node_of new none))
    (is_text : fetch strings new.data_at ≡ some new.word) where
  abbrev Linked : List Cell → Type 0
  Linked cells =
      (node : Node) × (fetch nodes l ≡ some node)
      × Stored (put nodes l (some (record node { next = some new.at }))) strings (cells ++ new ∷ [])
          none

  Stored-link :
      (c : Cell) (cells : List Cell)
      → last_of (c ∷ cells) ≡ some l
      → Stored nodes strings (c ∷ cells) none
      → Unused new.at new.data_at (c ∷ cells)
      → Linked (c ∷ cells)
  Stored-link c [] e st un =
      let same : c.at ≡ l = ground (arith, e) in
      let v : Option Node = some (node_of c (some new.at)) in
      (
        node_of c none,
        ap (fetch nodes) (sym same) ∙ st.0,
        (
          ap (fetch (put nodes l v)) same ∙ put_self nodes l v,
          st.1,
          (un.0, un.1, tt),
          (put_ne nodes l new.at v (λ h. un.0 (same ∙ sym h)) ∙ is_new, is_text, tt, tt),
        ),
      )
  Stored-link c (d ∷ ds) e st un =
      let (node, there, linked) = Stored-link d ds e st.3 un.2 in
      let v : Option Node = some (record node { next = some new.at }) in
      (
        node,
        there,
        (
          put_ne nodes l c.at v (Apart-last_of c (d ∷ ds) l st.2 e) ∙ st.0,
          st.1,
          Apart-append c new (d ∷ ds) st.2 un.0 un.1,
          linked,
        ),
      )

link-done :
    (q : Queue) (new l : ℕ) (node : Node)
    → fetch q.nodes l ≡ some node
    → link q new (some l)
      ≡ some (record q {
        nodes = put q.nodes l (some (record node { next = some new }));
        tail = some new;
      })
unfolding link
link-done q new l node there = rw (link, there)

abbrev pub cell : (new text : ℕ) → Bytes → Cell
cell new text word = record { at = new; data_at = text; word = word }

-- enqueue with the addresses of two blocks that were not allocated puts the word at the end.
pub enqueue-Holds :
    (q : Queue) (cells : List Cell) (new text : ℕ) (word : Bytes)
    → Holds q cells
    → fetch q.nodes new ≡ none
    → fetch q.strings text ≡ none
    → (q' : Queue) × (enqueue q new text word ≡ some q')
      × Holds q' (cells ++ cell new text word ∷ [])
unfolding enqueue
enqueue-Holds q [] new text word h no_node no_string =
    let n : Option Node = some (record { next = none; data_at = some text }) in
    (
      record q {
        nodes = put q.nodes new n;
        strings = put q.strings text (some word);
        head = some new;
        tail = some new;
      },
      rw (h.head) refl,
      record {
        head = refl;
        tail = λ some_cell. refl;
        stored = (put_self q.nodes new n, put_self q.strings text (some word), tt, tt);
      },
    )
enqueue-Holds q (c ∷ cells) new text word h no_node no_string =
    let n : Option Node = some (record { next = none; data_at = some text }) in
    let un = Stored-Unused q.nodes q.strings (c ∷ cells) none new text no_node no_string h.stored in
    let st = Stored-put q.nodes q.strings (c ∷ cells) none new text n (some word) un h.stored in
    let (l, at_end) = last_cell c cells in
    let at_tail : q.tail ≡ some l.at = h.tail (λ e. ground arith) ∙ at_end in
    let (node, there, linked) =
      Stored-link (put q.nodes new n) (put q.strings text (some word)) l.at (cell new text word)
        (put_self q.nodes new n) (put_self q.strings text (some word)) c cells at_end st un in
    (
      record q {
        nodes = put (put q.nodes new n) l.at (some (record node { next = some new }));
        strings = put q.strings text (some word);
        tail = some new;
      },
      rw (h.head, at_tail)
          (link-done
            (record q {
              nodes = put q.nodes new n;
              strings = put q.strings text (some word);
              head = some c.at;
              tail = some l.at;
            })
            new l.at node there),
      record {
        head = h.head;
        tail = λ some_cell. sym (last_of-append (c ∷ cells) (cell new text word));
        stored = linked;
      },
    )

-- The state after a node has been freed.
abbrev without : Queue → Cell → Queue
without q c = record q { nodes = put q.nodes c.at none; strings = put q.strings c.data_at none }

free_node-done :
    (q : Queue) (c : Cell) (next : Option ℕ)
    → fetch q.nodes c.at ≡ some (node_of c next)
    → fetch q.strings c.data_at ≡ some c.word
    → free_node q c.at ≡ some (without q c)
unfolding free_node free_data free_rest
free_node-done q c next there text =
    ap (λ o. elim o [ none ↦ none | some node ↦ free_rest (free_data q node.data_at) c.at ]) there
    ∙ ap
        (λ o.
          free_rest
            (elim o [
              | none ↦ none
              | some word ↦ some (record q { strings = put q.strings c.data_at none })
            ])
            c.at)
        text

-- What dequeue takes off, before and after its node is freed.
pub record Taken (q : Queue) (c : Cell) (cells : List Cell) : Type 0 where
  pub taken : Queue
  pub left : Queue
  pub dequeued : dequeue q ≡ some (some c.at, taken)
  pub next : Option ℕ
  pub there : fetch taken.nodes c.at ≡ some (node_of c next)
  pub text : fetch taken.strings c.data_at ≡ some c.word
  pub freed : free_node taken c.at ≡ some left
  pub holds : Holds left cells

pub dequeue-Taken :
    (q : Queue) (c : Cell) (cells : List Cell) → Holds q (c ∷ cells) → Taken q c cells
unfolding dequeue dequeue_at
dequeue-Taken q c cells h =
    let taken : Queue = record q { head = first cells none } in
    record {
      taken = taken;
      left = without taken c;
      dequeued = rw (h.head, dequeue_at, h.stored.0);
      next = first cells none;
      there = h.stored.0;
      text = h.stored.1;
      freed = free_node-done taken c (first cells none) h.stored.0 h.stored.1;
      holds = record {
        head = refl;
        tail = λ some_cell. h.tail (λ e. ground arith) ∙ rest_last cells some_cell;
        stored =
            Stored-put q.nodes q.strings cells none c.at c.data_at none none
              (Apart-Unused c cells h.stored.2) h.stored.3;
      };
    }
  where
    rest_last : (rest : List Cell) → rest ≢ [] → last_of (c ∷ rest) ≡ last_of rest
    rest_last [] some_cell = absurd (some_cell refl)
    rest_last (b ∷ bs) some_cell = refl

pub dequeue_empty : (q : Queue) → Holds q [] → dequeue q ≡ some (none, q)
unfolding dequeue
dequeue_empty q h = rw (h.head) refl

-- What print_queue prints between "finally: " and the end of the line.
abbrev pub joined : List Bytes → Bytes
joined [] = []
joined (w ∷ []) = codes "[" ++ (w ++ codes "]")
joined (w ∷ v ∷ ws) = (codes "[" ++ (w ++ codes "]->")) ++ joined (v ∷ ws)

joined_cons :
    (c : Cell) (cells : List Cell)
    → bracketed c.word (first cells none) ++ joined (words_of cells) ≡ joined (words_of (c ∷ cells))
joined_cons c [] = ap (λ x. 91 ∷ x) (append_assoc c.word (93 ∷ []) [])
joined_cons c (d ∷ cells) = refl

print_from-joined :
    (fuel : ℕ) (q : Queue) (cells : List Cell)
    → Stored q.nodes q.strings cells none
    → length cells ≤ fuel
    → print_from fuel q (first cells none) ≡ some (joined (words_of cells))
unfolding print_from
print_from-joined fuel q [] st enough = refl
print_from-joined zero q (c ∷ cells) st enough = absurd (omega (arith, enough))
print_from-joined (suc f) q (c ∷ cells) st enough =
    rw (print_from, st.0, st.1, print_from-joined f q cells st.3 (omega (arith, enough)))
      (ap some (joined_cons c cells))

-- print_queue prints the words, each in brackets, with arrows between them.
pub print_queue-joined :
    (fuel : ℕ) (q : Queue) (cells : List Cell)
    → Holds q cells
    → length cells ≤ fuel
    → print_queue fuel q ≡ some (codes "finally: " ++ (joined (words_of cells) ++ codes "\n"))
unfolding print_queue labelled
print_queue-joined fuel q cells h enough =
    ap (λ p. labelled (print_from fuel q p)) h.head
    ∙ ap labelled (print_from-joined fuel q cells h.stored enough)

free_from-some :
    (fuel : ℕ) (q : Queue) (cells : List Cell)
    → Stored q.nodes q.strings cells none
    → length cells ≤ fuel
    → (q' : Queue) × (free_from fuel q (first cells none) ≡ some q')
unfolding free_from
free_from-some fuel q [] st enough = (q, refl)
free_from-some zero q (c ∷ cells) st enough = absurd (omega (arith, enough))
free_from-some (suc f) q (c ∷ cells) st enough =
    let (q', e) =
      free_from-some f (without q c) cells
        (Stored-put q.nodes q.strings cells none c.at c.data_at none none
          (Apart-Unused c cells st.2) st.3)
        (omega (arith, enough)) in
    (q', rw (free_from, st.0, free_node-done q c (first cells none) st.0 st.1) e)

-- free_queue follows no pointer to a block that has been freed, and frees none twice.
pub free_queue-some :
    (fuel : ℕ) (q : Queue) (cells : List Cell)
    → Holds q cells
    → length cells ≤ fuel
    → (q' : Queue) × (free_queue fuel q ≡ some q')
unfolding free_queue
free_queue-some fuel q cells h enough =
    let (q', e) = free_from-some fuel q cells h.stored enough in
    (q', ap (free_from fuel q) h.head ∙ e)
