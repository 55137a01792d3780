-- ===== src/Queue/Expected.antt =====
-- queue_main.c and ciphered_queue_main.c of lab1-TheCarton-main/part2 against a list of words: what
-- they print, and that they follow no pointer to nothing and free nothing twice.
use systems_projects.Base.{
  ℕ, suc, ◌+◌, ◌≤◌, ◌≡◌, refl, ap, ◌∙◌, List, [], ◌∷◌, ◌++◌, Bytes, codes, length, arith,
}
use systems_projects.Queue.{Queue}
use systems_projects.Queue.Holds.{Cell, words_of, Holds}
use systems_projects.Queue.Steps.{joined, print_queue-joined, free_queue-some}
use systems_projects.Queue.Program.{
  Order, process_line, process_line2, Called, going, stopped, crashed, freed_text, obey, Ended,
  finished, failed, broken, after, finish, run_lines, new_queue, queue_program,
  ciphered_queue_program,
}
use systems_projects.Queue.Matches.{
  Effect, leaves, ends, lost, effect, IsMalloc, Matches, obey-effect,
}

-- All that is printed for the lines, and how it ends.
abbrev pub expected : (Bytes → Order) → List Bytes → List Bytes → Ended
expected order_of [] ws = finished (codes "finally: " ++ (joined ws ++ codes "\n"))
expected order_of (line ∷ lines) ws = elim (effect (order_of line) ws) [
  | leaves text ws' ↦ after text (expected order_of lines ws')
  | ends text ↦ failed text
  | lost ↦ broken
]

module _ (fuel : ℕ) where
  finish-expected :
      (q : Queue) (cells : List Cell)
      → Holds q cells
      → length cells ≤ fuel
      → finish fuel q ≡ finished (codes "finally: " ++ (joined (words_of cells) ++ codes "\n"))
  unfolding finish freed_text
  finish-expected q cells h enough =
      let (q', e) = free_queue-some fuel q cells h enough in
      rw (finish, print_queue-joined fuel q cells h enough, e)

-- What is done with the outcome of a call, if `rest` follows.
abbrev continued : Called → (Queue → Ended) → Ended
continued o rest = elim o [
  | going text q ↦ after text (rest q)
  | stopped text ↦ failed text
  | crashed ↦ broken
]

abbrev pub continued_words : Effect → (List Bytes → Ended) → Ended
continued_words e rest = elim e [
  | leaves text ws ↦ after text (rest ws)
  | ends text ↦ failed text
  | lost ↦ broken
]

continue-Matches :
    (o : Called) (e : Effect) (n : ℕ) (rest : Queue → Ended) (rest' : List Bytes → Ended)
    → Matches o e n
    → ((q : Queue) (cells : List Cell)
        → Holds q cells
        → length cells ≤ suc n
        → rest q ≡ rest' (words_of cells))
    → continued o rest ≡ continued_words e rest'
continue-Matches (going text q) (leaves text' ws) n rest rest' (same, cells, holds, e, small) h =
    ap (λ x. after x (rest q)) same ∙ ap (after text') (h q cells holds small ∙ ap rest' e)
continue-Matches (stopped text) (ends text') n rest rest' m h = ap failed m
continue-Matches crashed lost n rest rest' m h = refl
continue-Matches (going text q) (ends text') n rest rest' m h = absurd m
continue-Matches (going text q) lost n rest rest' m h = absurd m
continue-Matches (stopped text) (leaves text' ws) n rest rest' m h = absurd m
continue-Matches (stopped text) lost n rest rest' m h = absurd m
continue-Matches crashed (leaves text' ws) n rest rest' m h = absurd m
continue-Matches crashed (ends text') n rest rest' m h = absurd m

module _ (malloc : Queue → ℕ × ℕ) (fresh : IsMalloc malloc) (order_of : Bytes → Order)
    (fuel : ℕ) where
  run_lines-expected :
      (lines : List Bytes) (q : Queue) (cells : List Cell)
      → Holds q cells
      → length cells + length lines ≤ fuel
      → run_lines malloc order_of fuel lines q ≡ expected order_of lines (words_of cells)
  unfolding run_lines
  run_lines-expected [] q cells h enough = finish-expected fuel q cells h (omega (arith, enough))
  run_lines-expected (line ∷ lines) q cells h enough =
      continue-Matches (obey fuel (malloc q) (order_of line) q)
        (effect (order_of line) (words_of cells)) (length cells)
        (run_lines malloc order_of fuel lines) (expected order_of lines)
        (obey-effect fuel malloc fresh (order_of line) q cells h (omega (arith, enough)))
        (λ q' cells' h' small. run_lines-expected lines q' cells' h' (omega (arith, small, enough)))

new_queue-Holds : Holds new_queue []
new_queue-Holds = record { head = refl; tail = λ some_cell. refl; stored = tt }

-- queue_main with a malloc that returns addresses which are not allocated: on any file it prints,
-- and ends, as the list of words says.
pub queue_program-expected :
    (malloc : Queue → ℕ × ℕ)
    → IsMalloc malloc
    → (lines : List Bytes) → queue_program malloc lines ≡ expected process_line lines []
unfolding queue_program
queue_program-expected malloc fresh lines =
    run_lines-expected malloc fresh process_line (length lines) lines new_queue [] new_queue-Holds
      (omega arith)

-- With a malloc that returns addresses which are not allocated, ciphered_queue_main on any file
-- prints, and ends, as its orders say on a list of words: enqueue and encode_enqueue put a word or
-- its code at the end, dequeue and dequeue_decode print the first and take it off, and at the end
-- the words are printed and freed. It follows a pointer to nothing only where a line ends before
-- its arguments or dequeue_decode finds no word, frees nothing twice, and as many rounds as there
-- are lines are enough for its loops.
pub ciphered_queue_program-expected :
    (malloc : Queue → ℕ × ℕ)
    → IsMalloc malloc
    → (lines : List Bytes) → ciphered_queue_program malloc lines ≡ expected process_line2 lines []
unfolding ciphered_queue_program
ciphered_queue_program-expected malloc fresh lines =
    run_lines-expected malloc fresh process_line2 (length lines) lines new_queue [] new_queue-Holds
      (omega arith)
