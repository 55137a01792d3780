-- ===== src/Queue/Matches.antt =====
-- What each call of the programs in lab1-TheCarton-main/part2 does to a list of words.
use mathlib.Core.Path.{subst}
use systems_projects.Base.{
  ℕ, suc, ◌≤◌, ◌≡◌, refl, ap, sym, none, List, [], ◌∷◌, ◌++◌, Bytes, codes, length, arith, ℤ,
}
use systems_projects.Cipher.{encode}
use systems_projects.Queue.{fetch, Queue, enqueue}
use systems_projects.Queue.Holds.{Cell, words_of, Holds, words_of-append}
use systems_projects.Queue.Steps.{
  cell, enqueue-Holds, Taken, dequeue-Taken, dequeue_empty, free_queue-some,
}
use systems_projects.Queue.Program.{
  Order, encode_put, decode_get, put_word, get_word, refused, astray, Called, going, stopped,
  crashed, print_node, after_enqueue, error, encode_enqueue, decoded, dequeue_decode, dequeue_print,
  obey,
}

-- What an order does to a list of words: what it prints, and the words afterwards.
pub data Effect : Type 0 where
  leaves : Bytes → List Bytes → Effect
  ends : Bytes → Effect
  lost : Effect

abbrev pub effect : Order → List Bytes → Effect
effect (encode_put key word) ws = leaves [] (ws ++ (encode word key).0 ∷ [])
effect (decode_get key) [] = lost
effect (decode_get key) (w ∷ ws) = leaves (decoded key w ++ codes "\n") ws
effect (put_word word) ws = leaves [] (ws ++ word ∷ [])
effect get_word [] = leaves (codes "NULL\n") []
effect get_word (w ∷ ws) = leaves (w ++ codes "\n") ws
effect refused ws = ends (codes "ERROR\n")
effect astray ws = lost

-- The addresses that malloc returns are not allocated.
abbrev pub IsMalloc : (Queue → ℕ × ℕ) → Type 0
IsMalloc malloc =
    (q : Queue) → (fetch q.nodes (malloc q).0 ≡ none) × (fetch q.strings (malloc q).1 ≡ none)

-- The outcome of a call is the effect on the words.
abbrev pub Matches : Called → Effect → ℕ → Type 0
Matches (going text q) (leaves text' ws) n =
    (text ≡ text')
    × (cells : List Cell) × Holds q cells
    × (words_of cells ≡ ws)
    × (length cells ≤ suc n)
Matches (stopped text) (ends text') n = text ≡ text'
Matches crashed lost n = Prim.Unit {0}
Matches _ _ n = ⊥

print_node-done :
    (shown : Bytes → Bytes) (q : Queue) (c : Cell) (cells : List Cell) (t : Taken q c cells)
    → print_node shown t.taken c.at ≡ going (shown c.word ++ codes "\n") t.left
unfolding print_node
print_node-done shown q c cells t = rw (print_node, t.there, t.text, t.freed)

length-words_of : (cells : List Cell) → length (words_of cells) ≡ length cells
length-words_of [] = refl
length-words_of (c ∷ cells) = ap suc (length-words_of cells)

length_end : (cells : List Cell) (c : Cell) → length (cells ++ c ∷ []) ≤ suc (length cells)
length_end [] c = omega arith
length_end (d ∷ cells) c = let ih = length_end cells c in omega (arith, ih)

-- A word at the end.
put-Matches :
    (q : Queue) (cells : List Cell) (new text : ℕ) (word : Bytes)
    → Holds q cells
    → fetch q.nodes new ≡ none
    → fetch q.strings text ≡ none
    → Matches
        (after_enqueue (enqueue q new text word))
        (leaves [] (words_of cells ++ word ∷ []))
        (length cells)
unfolding after_enqueue
put-Matches q cells new text word h no_node no_string =
    let (q', ran, holds) = enqueue-Holds q cells new text word h no_node no_string in
    subst (λ o. Matches (after_enqueue o) (leaves [] (words_of cells ++ word ∷ [])) (length cells))
      (sym ran)
      (
        refl,
        cells ++ cell new text word ∷ [],
        holds,
        words_of-append cells (cell new text word),
        length_end cells (cell new text word),
      )

-- The first word is printed and taken off.
get-Matches :
    (shown : Bytes → Bytes) (q : Queue) (c : Cell) (cells : List Cell) (t : Taken q c cells)
    → Matches
        (print_node shown t.taken c.at)
        (leaves (shown c.word ++ codes "\n") (words_of cells))
        (suc (length cells))
get-Matches shown q c cells t =
    subst
      (λ o. Matches o (leaves (shown c.word ++ codes "\n") (words_of cells)) (suc (length cells)))
      (sym (print_node-done shown q c cells t)) (refl, cells, t.holds, refl, omega arith)

dequeue_decode-some :
    (q : Queue) (key : ℤ) (c : Cell) (cells : List Cell) (t : Taken q c cells)
    → dequeue_decode q key ≡ print_node (decoded key) t.taken c.at
unfolding dequeue_decode
dequeue_decode-some q key c cells t = rw (dequeue_decode, t.dequeued)

dequeue_print-some :
    (q : Queue) (c : Cell) (cells : List Cell) (t : Taken q c cells)
    → dequeue_print q ≡ print_node (λ word. word) t.taken c.at
unfolding dequeue_print
dequeue_print-some q c cells t = rw (dequeue_print, t.dequeued)

dequeue_decode-none : (q : Queue) (key : ℤ) → Holds q [] → dequeue_decode q key ≡ crashed
unfolding dequeue_decode
dequeue_decode-none q key h = rw (dequeue_decode, dequeue_empty q h)

dequeue_print-none : (q : Queue) → Holds q [] → dequeue_print q ≡ going (codes "NULL\n") q
unfolding dequeue_print
dequeue_print-none q h = rw (dequeue_print, dequeue_empty q h)

module _ (fuel : ℕ) (malloc : Queue → ℕ × ℕ) (fresh : IsMalloc malloc) where
  pub obey-effect :
      (order : Order) (q : Queue) (cells : List Cell)
      → Holds q cells
      → length cells ≤ fuel
      → Matches (obey fuel (malloc q) order q) (effect order (words_of cells)) (length cells)
  unfolding obey error encode_enqueue
  obey-effect (encode_put key word) q cells h enough =
      put-Matches q cells (malloc q).0 (malloc q).1 (encode word key).0 h (fresh q).0 (fresh q).1
  obey-effect (put_word word) q cells h enough =
      put-Matches q cells (malloc q).0 (malloc q).1 word h (fresh q).0 (fresh q).1
  obey-effect (decode_get key) q [] h enough =
      subst (λ o. Matches o lost 0) (sym (dequeue_decode-none q key h)) tt
  obey-effect (decode_get key) q (c ∷ cells) h enough =
      let t = dequeue-Taken q c cells h in
      subst
        (λ o.
          Matches o (leaves (decoded key c.word ++ codes "\n") (words_of cells))
            (suc (length cells)))
        (sym (dequeue_decode-some q key c cells t)) (get-Matches (decoded key) q c cells t)
  obey-effect get_word q [] h enough =
      subst (λ o. Matches o (leaves (codes "NULL\n") []) 0) (sym (dequeue_print-none q h))
        (refl, [], h, refl, omega arith)
  obey-effect get_word q (c ∷ cells) h enough =
      let t = dequeue-Taken q c cells h in
      subst (λ o. Matches o (leaves (c.word ++ codes "\n") (words_of cells)) (suc (length cells)))
        (sym (dequeue_print-some q c cells t)) (get-Matches (λ word. word) q c cells t)
  obey-effect refused q cells h enough =
      let (q', e) = free_queue-some fuel q cells h enough in
      subst (λ o. Matches (error o) (ends (codes "ERROR\n")) (length cells)) (sym e) refl
  obey-effect astray q cells h enough = tt
