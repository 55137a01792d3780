-- ===== src/Server/Tests.antt =====
-- The server at concrete connections: a write, a read of what was written, a write that comes in two
-- parts, and a request that is too short.
use systems_projects.Base.{
  ◌<◌, ◌≡◌, ◌≢◌, refl, none, some, List, [], ◌∷◌, ◌++◌, Bytes, codes, replicate, length, take,
  get_elem?, zero, suc, arith, c_string, pos, atoi, ℕ,
}
use systems_projects.Kv.{unset, live, empty_store, find_key, key_len, table_max}
use systems_projects.Kv.Delete.{empty_store-IsValid}
use systems_projects.Server.{
  Stats, Request, Reply, Server, chunk, Connection, at_zero, above_zero, dispatch, served, worker,
  receive,
}
use systems_projects.Server.Bounds.{IsRequest, too_long}
use systems_projects.Server.Laws.{IsSound}
use systems_projects.Server.Counting.{Sound, IsProper, worker-Sound}
use systems_projects.Server.Trip.{receive_split, dispatch_write_read}

abbrev no_stats : Stats
no_stats = record { n_writes = 0; n_reads = 0; n_deletes = 0; n_fails = 0 }

abbrev start : Server
start = record { kv = empty_store; stats = no_stats }

abbrev request : ℕ → Bytes → Request
request op len = record {
  op_status = op;
  name = codes "key" ++ replicate 28 0;
  len = len ++ replicate 7 0;
}

abbrev write_5 : Request
write_5 = request b'W' (codes "5")

abbrev read_key : Request
read_key = request b'R' (codes "0")

abbrev five : Bytes
five = codes "hello"

abbrev writes : Connection
writes = record {
  request = some write_5;
  reads = chunk five ∷ [];
  buf = replicate 6 9;
  n = at_zero;
  rq = read_key;
}

abbrev reads : Connection
reads = record { request = some read_key; reads = []; buf = 0 ∷ []; n = at_zero; rq = write_5 }

abbrev writes_in_two : Connection
writes_in_two = record writes { reads = chunk (codes "he") ∷ chunk (codes "llo") ∷ [] }

abbrev too_short : Connection
too_short = record reads { request = none }

absent : find_key empty_store (c_string write_5.name) ≢ some 0
unfolding find_key c_string
absent e = ground arith

room : key_len empty_store < table_max
unfolding key_len
room = omega arith

number_5 : atoi (c_string write_5.len) ≡ pos 5
unfolding atoi c_string
number_5 = refl

number_0 : atoi (c_string read_key.len) ≡ pos 0
unfolding atoi c_string
number_0 = refl

write_5-IsRequest : IsRequest write_5
write_5-IsRequest = record {
  name_width = refl;
  len_width = refl;
  name_ends = refl;
  len_ends = refl;
}

read_key-IsRequest : IsRequest read_key
read_key-IsRequest = record {
  name_width = refl;
  len_width = refl;
  name_ends = refl;
  len_ends = refl;
}

dispatch_write_read_example :
    (t u : Server) × (r q : Reply) × (dispatch writes start ≡ served t r)
    × (r.request.op_status ≡ b'K')
    × (dispatch reads t ≡ served u q)
    × (q.request.op_status ≡ b'K')
    × (q.body ≡ five)
    × (atoi (c_string q.request.len) ≡ pos 5)
dispatch_write_read_example =
    dispatch_write_read start write_5 read_key writes reads five [] empty_store-IsValid.0 room
      write_5-IsRequest read_key-IsRequest absent refl refl refl number_5 (omega arith)
      (refl, (refl, (refl, (refl, (refl, tt))))) (omega arith) (omega arith) refl refl refl

receive_split_example :
    (receive (chunk (codes "he") ∷ chunk (codes "llo") ∷ []) 5 0 (replicate 6 9) at_zero
      ≡ (codes "llo" ++ 9 ∷ 9 ∷ 9 ∷ [], above_zero))
    × (take 5 (codes "llo" ++ 9 ∷ 9 ∷ 9 ∷ []) ≢ codes "hello")
receive_split_example =
    receive_split b'h' b'l' (codes "e") (codes "lo") [] (replicate 6 9) at_zero (omega arith)

proper :
    (c : Connection) (w rq : Request) (n : ℕ)
    → IsRequest w
    → atoi (c_string w.len) ≡ pos n
    → n < too_long
    → n < length c.buf
    → some w ≡ some rq
    → IsProper c rq
proper c w rq n asked number small fits same =
    let w≡rq : w ≡ rq = ground arith in
    rw (← w≡rq) (record { asked = asked; size = n; number = number; small = small; fits = fits })

values_unset : (n i : ℕ) (v : Bytes) → get_elem? (replicate n unset) i ≢ some (live v)
values_unset zero i v e = cc
values_unset (suc n) zero v e = ground (arith, e)
values_unset (suc n) (suc i) v e = values_unset n i v e

start-IsSound : IsSound start.kv
start-IsSound = record {
  valid = empty_store-IsValid.0;
  short = λ i v e. absurd (values_unset table_max i v e);
}

abbrev connections : List Connection
connections = writes ∷ writes_in_two ∷ too_short ∷ reads ∷ []

worker-Sound_example : Sound start connections (worker connections start)
worker-Sound_example = worker-Sound connections start start-IsSound (
  (λ rq e. proper writes write_5 rq 5 write_5-IsRequest number_5 (omega arith) (omega arith) e),
  (
    (λ rq e.
        proper writes_in_two write_5 rq 5 write_5-IsRequest number_5 (omega arith) (omega arith) e),
    (
      (λ rq e. absurd (ground arith)),
      (
        (λ rq e.
            proper reads read_key rq 0 read_key-IsRequest number_0 (omega arith) (omega arith) e),
        tt,
      ),
    ),
  ),
)
