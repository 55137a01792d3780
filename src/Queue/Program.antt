-- ===== src/Queue/Program.antt =====
-- queue_main.c and ciphered_queue_main.c of lab1-TheCarton-main/part2: the loops over the lines of a
-- file. A line is a C string, with its newline if it has one. Numbers fit an `int`.
use systems_projects.Base.{
  ℕ, Option, none, some, List, [], ◌∷◌, ◌++◌, Bytes, codes, length, ◌==◌, if◌then◌else◌, str_eq, ℤ,
  atoi,
}
use systems_projects.Cipher.{encode, decode}
use systems_projects.Queue.{
  fetch, Queue, enqueue, dequeue, free_node, free_queue, string_of, print_queue,
}

abbrev pub skip : ℕ → Bytes → Bytes
skip d [] = []
skip d (c ∷ cs) = let rest = skip d cs in if c == d then rest else c ∷ cs

abbrev pub split_at : ℕ → Bytes → Bytes × Bytes
split_at d [] = ([], [])
split_at d (c ∷ cs) =
    let (token, rest) = split_at d cs in if c == d then ([], cs) else (c ∷ token, rest)

unfoldable pub token_in : ℕ → Bytes → Option (Bytes × Bytes)
token_in d [] = none
token_in d (c ∷ cs) = some (split_at d (c ∷ cs))

-- `strtok` for one separator, from where the last call has stopped: the token, and where it stops.
unfoldable pub strtok : ℕ → Bytes → Option (Bytes × Bytes)
unfolding token_in
strtok d s = token_in d (skip d s)

-- What a line asks for: the call that is made. `refused` is the call of error(), and `astray` a
-- NULL from strtok that is followed.
pub data Order : Type 0 where
  encode_put : ℤ → Bytes → Order
  decode_get : ℤ → Order
  put_word : Bytes → Order
  get_word refused astray : Order

unfoldable pub word_order : Option (Bytes × Bytes) → Order
word_order none = astray
word_order (some (word, rest)) = put_word word

-- The branches that both programs have.
unfoldable pub plain_order : Bytes → Bytes → Order
unfolding word_order
plain_order action rest =
    if str_eq action (codes "enqueue\n")
    then refused
    else if str_eq action (codes "enqueue")
    then word_order (strtok b'\n' rest)
    else if str_eq action (codes "dequeue\n")
    then get_word
    else refused

-- The tests of process_line.
unfoldable pub process_line : Bytes → Order
process_line line = elim (strtok b' ' line) [
  | none ↦ astray
  | some (action, rest) ↦ plain_order action rest
]

unfoldable pub encode_word : ℤ → Option (Bytes × Bytes) → Order
encode_word key none = astray
encode_word key (some (word, rest)) = encode_put key word

unfoldable pub encode_order : Option (Bytes × Bytes) → Order
unfolding encode_word
encode_order none = astray
encode_order (some (key, rest)) = encode_word (atoi key) (strtok b'\n' rest)

unfoldable pub decode_order : Option (Bytes × Bytes) → Order
decode_order none = astray
decode_order (some (key, rest)) = decode_get (atoi key)

unfoldable pub second_order : Option (Bytes × Bytes) → Order
unfolding encode_order decode_order
second_order none = astray
second_order (some (action, rest)) =
    if str_eq action (codes "encode_enqueue")
    then encode_order (strtok b' ' rest)
    else if str_eq action (codes "dequeue_decode")
    then decode_order (strtok b' ' rest)
    else plain_order action rest

-- The tests of process_line2.
unfoldable pub process_line2 : Bytes → Order
unfolding second_order
process_line2 line = second_order (strtok b' ' line)

-- A call goes on with what it has printed, stops the program, or goes where C has no meaning.
pub data Called : Type 0 where
  going : Bytes → Queue → Called
  stopped : Bytes → Called
  crashed : Called

unfoldable pub after_enqueue : Option Queue → Called
after_enqueue none = crashed
after_enqueue (some q) = going [] q

-- `printf("%s\n", ...)` of the node's string, which `shown` turns into what is printed, and free_node.
unfoldable pub print_node : (Bytes → Bytes) → Queue → ℕ → Called
print_node shown q a = elim (fetch q.nodes a) [
  | none ↦ crashed
  | some node ↦ elim (string_of q node) [
    | none ↦ crashed
    | some word ↦ elim (free_node q a) [
      | none ↦ crashed
      | some q' ↦ going (shown word ++ codes "\n") q'
    ]
  ]
]

unfoldable pub encode_enqueue : Queue → (new text : ℕ) → Bytes → ℤ → Option Queue
encode_enqueue q new text word key = enqueue q new text (encode word key).0

-- What dequeue_decode prints of a word: the error word is not decoded.
abbrev pub decoded : ℤ → Bytes → Bytes
decoded key word = if str_eq word (codes "ILLCHAR") then word else (decode word key).0

-- There is no test for an empty queue.
unfoldable pub dequeue_decode : Queue → ℤ → Called
unfolding print_node
dequeue_decode q key = elim (dequeue q) [
  | none ↦ crashed
  | some (none, q') ↦ crashed
  | some (some a, q') ↦ print_node (decoded key) q' a
]

-- The branch of "dequeue\n".
unfoldable pub dequeue_print : Queue → Called
unfolding print_node
dequeue_print q = elim (dequeue q) [
  | none ↦ crashed
  | some (none, q') ↦ going (codes "NULL\n") q'
  | some (some a, q') ↦ print_node (λ word. word) q' a
]

-- error(), which frees the queue and ends the program.
unfoldable pub error : Option Queue → Called
error none = crashed
error (some q) = stopped (codes "ERROR\n")

unfoldable pub obey : (fuel : ℕ) → ℕ × ℕ → Order → Queue → Called
unfolding after_enqueue error
obey fuel (new, text) (encode_put key word) q = after_enqueue (encode_enqueue q new text word key)
obey fuel (new, text) (decode_get key) q = dequeue_decode q key
obey fuel (new, text) (put_word word) q = after_enqueue (enqueue q new text word)
obey fuel (new, text) get_word q = dequeue_print q
obey fuel (new, text) refused q = error (free_queue fuel q)
obey fuel (new, text) astray q = crashed

-- How a program ends, with all that it has printed.
pub data Ended : Type 0 where
  finished : Bytes → Ended
  failed : Bytes → Ended
  broken : Ended

abbrev pub after : Bytes → Ended → Ended
after text (finished rest) = finished (text ++ rest)
after text (failed rest) = failed (text ++ rest)
after text broken = broken

unfoldable pub freed_text : Bytes → Option Queue → Ended
freed_text text none = broken
freed_text text (some q) = finished text

-- final_print and free_and_close.
unfoldable pub finish : (fuel : ℕ) → Queue → Ended
unfolding freed_text
finish fuel q = elim (print_queue fuel q) [
  | none ↦ broken
  | some text ↦ freed_text text (free_queue fuel q)
]

-- The loop of main(). `order_of` is process_line or process_line2, and `malloc` gives the addresses
-- of the node and the string that a call allocates.
module _ (malloc : Queue → ℕ × ℕ) (order_of : Bytes → Order) (fuel : ℕ) where
  unfoldable pub run_lines : List Bytes → Queue → Ended
  run_lines [] q = finish fuel q
  run_lines (line ∷ lines) q = elim (obey fuel (malloc q) (order_of line) q) [
    | going text q' ↦ after text (run_lines lines q')
    | stopped text ↦ failed text
    | crashed ↦ broken
  ]

abbrev pub new_queue : Queue
new_queue = record { nodes = []; strings = []; head = none; tail = none }

-- main() of queue_main.c, on the lines of the file.
unfoldable pub queue_program : (Queue → ℕ × ℕ) → List Bytes → Ended
queue_program malloc lines = run_lines malloc process_line (length lines) lines new_queue

-- main() of ciphered_queue_main.c.
unfoldable pub ciphered_queue_program : (Queue → ℕ × ℕ) → List Bytes → Ended
ciphered_queue_program malloc lines = run_lines malloc process_line2 (length lines) lines new_queue
