-- ===== src/Queue/Trip.antt =====
-- ciphered_queue_main.c of lab1-TheCarton-main/part2: a word that is encoded and put into the queue
-- comes back.
use mathlib.Core.List.{append_assoc}
use systems_projects.Base.{
  ℕ, ◌≡◌, ◌≢◌, refl, ap, ◌∙◌, some, List, [], ◌∷◌, ◌++◌, Bytes, codes, arith, atoi, atoi_line,
  str_eq, true, false, ◌==◌, HasOpposite,
}
use systems_projects.Cipher.{encode, is_alphanumeric, is_alpha, is_upper_alpha, is_numeric}
use systems_projects.Cipher.RoundTrip.{all_alphanumeric, decode-encode}
use systems_projects.Queue.{Queue}
use systems_projects.Queue.Program.{
  second_order, after, split_at, strtok, token_in, Order, encode_put, decode_get, encode_order,
  encode_word, decode_order, process_line2, finished, ciphered_queue_program,
}
use systems_projects.Queue.Matches.{effect, IsMalloc}
use systems_projects.Queue.Expected.{expected, continued_words, ciphered_queue_program-expected}

-- The separator does not stand in the text.
abbrev pub Without : ℕ → Bytes → Type 0
Without d [] = Prim.Unit {0}
Without d (c ∷ cs) = ((c == d) ≡ false) × Without d cs

split_at-token :
    (d : ℕ) (token rest : Bytes) → Without d token → split_at d (token ++ d ∷ rest) ≡ (token, rest)
split_at-token d [] rest h = let e : (d == d) ≡ true = ground arith in rw e refl
split_at-token d (c ∷ cs) rest h = rw (h.0, split_at-token d cs rest h.1) refl

split_at-end : (d : ℕ) (token : Bytes) → Without d token → split_at d token ≡ (token, [])
split_at-end d [] h = refl
split_at-end d (c ∷ cs) h = rw (h.0, split_at-end d cs h.1) refl

-- strtok takes a token up to the separator, or to the end of the text.
strtok-token :
    (d c : ℕ) (cs rest : Bytes)
    → Without d (c ∷ cs)
    → strtok d ((c ∷ cs) ++ d ∷ rest) ≡ some (c ∷ cs, rest)
unfolding strtok token_in
strtok-token d c cs rest h = rw (h.0) (ap some (split_at-token d (c ∷ cs) rest h))

strtok-end : (d c : ℕ) (cs : Bytes) → Without d (c ∷ cs) → strtok d (c ∷ cs) ≡ some (c ∷ cs, [])
unfolding strtok token_in
strtok-end d c cs h = rw (h.0) (ap some (split_at-end d (c ∷ cs) h))

-- A line of the program: the name of the call, the key, and the word.
abbrev pub encode_line : (key word : Bytes) → Bytes
encode_line key word = codes "encode_enqueue " ++ (key ++ b' ' ∷ (word ++ codes "\n"))

abbrev pub decode_line : Bytes → Bytes
decode_line key = codes "dequeue_decode " ++ (key ++ codes "\n")

between_not : (c : ℕ) → is_alphanumeric c ≡ true → (c == b'\n') ≡ false
unfolding is_alphanumeric is_alpha is_upper_alpha is_numeric
between_not c h = ground (arith, h)

alphanumeric-Without : (w : Bytes) → all_alphanumeric w ≡ true → Without b'\n' w
alphanumeric-Without [] h = tt
alphanumeric-Without (c ∷ cs) h =
    (between_not c (ground (arith, h)), alphanumeric-Without cs (ground (arith, h)))

encode_named :
    (rest : Bytes)
    → strtok b' ' (codes "encode_enqueue " ++ rest) ≡ some (codes "encode_enqueue", rest)
unfolding strtok token_in
encode_named rest = refl

decode_named :
    (rest : Bytes)
    → strtok b' ' (codes "dequeue_decode " ++ rest) ≡ some (codes "dequeue_decode", rest)
unfolding strtok token_in
decode_named rest = refl

Without-line : (key : Bytes) → Without b' ' key → Without b' ' (key ++ codes "\n")
Without-line [] h = (refl, tt)
Without-line (k ∷ ks) h = (h.0, Without-line ks h.1)

process_line2-encode :
    (k c : ℕ) (ks cs : Bytes)
    → Without b' ' (k ∷ ks)
    → Without b'\n' (c ∷ cs)
    → process_line2 (encode_line (k ∷ ks) (c ∷ cs)) ≡ encode_put (atoi (k ∷ ks)) (c ∷ cs)
unfolding process_line2 second_order encode_order encode_word
process_line2-encode k c ks cs no_space no_line =
    ap second_order (encode_named ((k ∷ ks) ++ b' ' ∷ ((c ∷ cs) ++ codes "\n")))
    ∙ ap encode_order (strtok-token b' ' k ks ((c ∷ cs) ++ codes "\n") no_space)
    ∙ ap (encode_word (atoi (k ∷ ks))) (strtok-token b'\n' c cs [] no_line)

process_line2-decode :
    (k : ℕ) (ks : Bytes)
    → Without b' ' (k ∷ ks)
    → process_line2 (decode_line (k ∷ ks)) ≡ decode_get (atoi (k ∷ ks))
unfolding process_line2 second_order decode_order
process_line2-decode k ks no_space =
    ap second_order (decode_named ((k ∷ ks) ++ codes "\n"))
    ∙ ap decode_order (strtok-end b' ' k (ks ++ codes "\n") (Without-line (k ∷ ks) no_space))
    ∙ ap decode_get (atoi_line (k ∷ ks))

-- The line is an order that is known.
expected_cons :
    (order_of : Bytes → Order) (line : Bytes) (lines ws : List Bytes) (order : Order)
    → order_of line ≡ order
    → expected order_of (line ∷ lines) ws
      ≡ continued_words (effect order ws) (expected order_of lines)
expected_cons order_of line lines ws order e =
    ap (λ o. continued_words (effect o ws) (expected order_of lines)) e

-- A word of letters and digits that is put in encoded comes back decoded with the same key, if its
-- code is not the error word: for every key without a space that atoi reads as an `int` other than
-- INT_MIN, the program prints the word and an empty queue.
pub ciphered_queue_program_back :
    (malloc : Queue → ℕ × ℕ)
    → IsMalloc malloc
    → (key word : Bytes) → Without b' ' key
    → key ≢ []
    → word ≢ []
    → all_alphanumeric word ≡ true
    → HasOpposite (atoi key)
    → str_eq (encode word (atoi key)).0 (codes "ILLCHAR") ≡ false
    → ciphered_queue_program malloc (encode_line key word ∷ decode_line key ∷ [])
      ≡ finished (word ++ codes "\nfinally: \n")
ciphered_queue_program_back malloc fresh [] word no_space key_some word_some clean small code =
    absurd (key_some refl)
ciphered_queue_program_back malloc fresh (k ∷ ks) [] no_space key_some word_some clean small code =
    absurd (word_some refl)
ciphered_queue_program_back malloc fresh (k ∷ ks) (c ∷ cs) no_space key_some word_some clean small
      code =
    ciphered_queue_program-expected malloc fresh
      (encode_line (k ∷ ks) (c ∷ cs) ∷ decode_line (k ∷ ks) ∷ [])
    ∙ expected_cons process_line2 (encode_line (k ∷ ks) (c ∷ cs)) (decode_line (k ∷ ks) ∷ []) []
        (encode_put (atoi (k ∷ ks)) (c ∷ cs))
        (process_line2-encode k c ks cs no_space (alphanumeric-Without (c ∷ cs) clean))
    ∙ ap (after []) (
        expected_cons process_line2 (decode_line (k ∷ ks)) []
          ((encode (c ∷ cs) (atoi (k ∷ ks))).0 ∷ []) (decode_get (atoi (k ∷ ks)))
          (process_line2-decode k ks no_space))
    ∙ rw (code, decode-encode (c ∷ cs) (atoi (k ∷ ks)) small clean)
        (ap (λ x. finished (c ∷ x)) (append_assoc cs (codes "\n") (codes "finally: \n")))
