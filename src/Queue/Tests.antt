-- ===== src/Queue/Tests.antt =====
-- The queue programs at concrete files. malloc gives the first address behind all that was used.
use systems_projects.Base.{
  ℕ, suc, ◌+◌, ◌≤◌, ◌≡◌, refl, none, List, [], ◌∷◌, ◌++◌, Bytes, codes, arith, true, false, str_eq,
  ◌==◌, atoi, digits_value, HasOpposite,
}
use systems_projects.Cipher.{
  encode, shift_all, shift_char, rotate, add_shift, is_alphanumeric, is_alpha, is_upper_alpha,
  is_numeric,
}
use systems_projects.Cipher.RoundTrip.{all_alphanumeric}
use systems_projects.Queue.{Heap, fetch, Queue}
use systems_projects.Queue.Program.{
  finished, process_line, process_line2, ciphered_queue_program, strtok, plain_order, word_order,
}
use systems_projects.Queue.Matches.{IsMalloc}
use systems_projects.Queue.Expected.{expected, ciphered_queue_program-expected}
use systems_projects.Queue.Trip.{encode_line, decode_line, ciphered_queue_program_back}

above : {A : Type 0} → Heap A → ℕ
above [] = 0
above ((a, v) ∷ m) = suc a + above m

fetch_above : {A : Type 0} (m : Heap A) (x : ℕ) → above m ≤ x → fetch m x ≡ none
unfolding fetch above
fetch_above [] x le = refl
fetch_above ((a, v) ∷ m) x le =
    let ne : (x == a) ≡ false = ground (arith, le) in rw ne (fetch_above m x (omega (arith, le)))

first_free : Queue → ℕ × ℕ
unfolding above
first_free q = (above q.nodes, above q.strings)

first_free-IsMalloc : IsMalloc first_free
unfolding first_free
first_free-IsMalloc q = (
  fetch_above q.nodes (above q.nodes) (omega arith),
  fetch_above q.strings (above q.strings) (omega arith),
)

abbrev file_lines : List Bytes
file_lines =
    codes "enqueue ABC\n" ∷ codes "dequeue\n" ∷ codes "dequeue\n" ∷ codes "enqueue CS\n" ∷ []

-- What is expected of that file.
printed : expected process_line file_lines [] ≡ finished (codes "ABC\nNULL\nfinally: [CS]\n")
unfolding process_line strtok plain_order word_order
printed = refl

ciphered_queue_program-expected_example :
    ciphered_queue_program first_free (codes "dequeue_decode 3\n" ∷ [])
    ≡ expected process_line2 (codes "dequeue_decode 3\n" ∷ []) []
ciphered_queue_program-expected_example =
    ciphered_queue_program-expected first_free first_free-IsMalloc (codes "dequeue_decode 3\n" ∷ [])

clean : all_alphanumeric (codes "Zulu9") ≡ true
unfolding is_alphanumeric is_alpha is_upper_alpha is_numeric
clean = refl

code_differs : str_eq (encode (codes "Zulu9") (atoi (codes "29"))).0 (codes "ILLCHAR") ≡ false
unfolding encode shift_all shift_char rotate add_shift atoi digits_value is_alphanumeric is_alpha
    is_upper_alpha is_numeric
code_differs = refl

key_small : HasOpposite (atoi (codes "29"))
unfolding atoi
key_small = omega arith

ciphered_queue_program_back_example :
    ciphered_queue_program first_free
      (encode_line (codes "29") (codes "Zulu9") ∷ decode_line (codes "29") ∷ [])
    ≡ finished (codes "Zulu9" ++ codes "\nfinally: \n")
ciphered_queue_program_back_example =
    ciphered_queue_program_back first_free first_free-IsMalloc (codes "29") (codes "Zulu9")
      (refl, (refl, tt)) (λ e. ground (arith, e)) (λ e. ground (arith, e)) clean key_small
      code_differs
