-- ===== src/Server.antt =====
-- lab3-TheCarton-main/worker.c and stats.c: what a worker does with a connection, while no other
-- worker changes the store. The trace, the messages on stderr and the sleeps are left out. `none` is
-- a fault, or behaviour that C leaves undefined: a field of a request that is read as a string and
-- has no NUL in it, a number that is printed behind the end of its field, an array that is larger
-- than the stack has room for.
pub mod Laws
pub mod Bounds
pub mod Counting
pub mod Trip
mod Tests
use systems_projects.Base.{
  ℕ, ◌+◌, Option, none, some, List, [], ◌∷◌, ◌++◌, Bytes, ◌==◌, ltb, if◌then◌else◌, length, set,
  take, drop, c_string, strcpy, has_room, has_nul, ◌&&◌, ℤ, pos, negsuc, atoi, decimal,
}
use systems_projects.Kv.{Store, Value, unset, live, dangling, kv_read, kv_write, kv_delete}

-- The counters. Each has a mutex of its own, so that an increment is one step.
pub record Stats : Type 0 where
  pub n_writes : ℕ
  pub n_reads : ℕ
  pub n_deletes : ℕ
  pub n_fails : ℕ

unfoldable pub inc_write : Stats → Stats
inc_write s = record s { n_writes = s.n_writes + 1 }

unfoldable pub inc_read : Stats → Stats
inc_read s = record s { n_reads = s.n_reads + 1 }

unfoldable pub inc_delete : Stats → Stats
inc_delete s = record s { n_deletes = s.n_deletes + 1 }

unfoldable pub inc_fail : Stats → Stats
inc_fail s = record s { n_fails = s.n_fails + 1 }

-- `struct request`: `name` is an array of 31 characters, and `len` one of 8, with what stands behind
-- the NUL.
pub record Request : Type 0 where
  pub op_status : ℕ
  pub name : Bytes
  pub len : Bytes

-- What is written to the socket: the request as it then is, and the bytes behind it.
pub record Reply : Type 0 where
  pub request : Request
  pub body : Bytes

pub record Server : Type 0 where
  pub kv : Store
  pub stats : Stats

-- What one `read` of a value returns; at the end of the list the stream is at its end.
pub data Received : Type 0 where
  chunk : Bytes → Received
  failed : Received

-- A connection: the request, or a read that is too short for one; the reads that follow; and what
-- stands in the variables `n` and `rq` before they are written, and in `buf` the stack from the
-- array of handle_write to its end.
pub data Last : Type 0 where
  below_zero : Last
  at_zero : Last
  above_zero : Last

pub record Connection : Type 0 where
  pub request : Option Request
  pub reads : List Received
  pub buf : Bytes
  pub n : Last
  pub rq : Request

-- The result of a handler: the server, and the answer.
abbrev pub Answered : Type 0
Answered = Option (Server × Reply)

unfoldable pub resp_fail : Request → Server → Answered
unfolding inc_fail
resp_fail rq s = some (
  record s { stats = inc_fail s.stats },
  record { request = record rq { op_status = b'X' }; body = [] },
)

unfoldable pub resp_okay : Request → Bytes → Server → Answered
resp_okay rq body s =
    let text = decimal (length body) in
    if has_room rq.len text
    then some (
      s,
      record { request = record rq { op_status = b'K'; len = strcpy rq.len text }; body = body },
    )
    else none

-- `read(sock, buf, len)`: what comes goes to the front of the buffer, each time.
unfoldable pub read_into : Bytes → (len : ℕ) → Bytes → Bytes
read_into buf len c = take len c ++ drop (length (take len c)) buf

-- The loop of handle_write, with `got` bytes counted: the buffer, and what `n` is in the end.
unfoldable pub receive : List Received → (len got : ℕ) → Bytes → Last → Bytes × Last
unfolding read_into
receive [] len got buf n = if ltb got len then (buf, at_zero) else (buf, n)
receive (failed ∷ rs) len got buf n = if ltb got len then (buf, below_zero) else (buf, n)
receive (chunk c ∷ rs) len got buf n =
    let count = length (take len c) in
    let more = receive rs len (got + count) (read_into buf len c) above_zero in
    if ltb got len then (if count == 0 then (buf, at_zero) else more) else (buf, n)

written : Request → Server → Option (ℕ × Store) → Answered
unfolding resp_okay resp_fail
written rq s none = none
written rq s (some (ret, kv')) =
    let s' : Server = record s { kv = kv' } in
    if ret == 0 then resp_okay rq [] s' else resp_fail rq s'

-- The branches on `n`, with the buffer closed by a NUL.
finish_write : Request → Bytes → Server → Last → Answered
unfolding written resp_fail
finish_write rq buf s below_zero = resp_fail rq s
finish_write rq buf s at_zero = resp_fail rq s
finish_write rq buf s above_zero = written rq s (kv_write s.kv (c_string rq.name) (c_string buf))

-- `char buf[len + 1]`: an array of negative size has no meaning, and one that is larger than what is
-- left of the stack, `conn.buf`, does not fit.
sized_write : Request → Connection → Server → ℤ → Answered
unfolding finish_write receive
sized_write rq conn s (negsuc k) = none
sized_write rq conn s (pos len) =
    let (buf, n) = receive conn.reads len 0 conn.buf conn.n in
    if ltb len (length conn.buf) then finish_write rq (set buf len 0) s n else none

unfoldable pub handle_write : Request → Connection → Server → Answered
unfolding inc_write sized_write
handle_write rq conn s =
    if has_nul rq.name && has_nul rq.len
    then sized_write rq conn (record s { stats = inc_write s.stats }) (atoi (c_string rq.len))
    else none

-- The answer to a read. A pointer that was freed is not to be followed.
answer_read : Request → Server → Value → Answered
unfolding resp_okay resp_fail
answer_read rq s unset = resp_fail rq s
answer_read rq s (live v) = resp_okay rq v s
answer_read rq s dangling = none

unfoldable pub handle_read : Request → Server → Answered
unfolding inc_read answer_read
handle_read rq s =
    if has_nul rq.name
    then answer_read rq (record s { stats = inc_read s.stats }) (kv_read s.kv (c_string rq.name))
    else none

deleted : Request → Server → Option Store → Answered
unfolding resp_okay
deleted rq s none = none
deleted rq s (some kv') = resp_okay rq [] (record s { kv = kv' })

unfoldable pub handle_delete : Request → Server → Answered
unfolding inc_delete deleted
handle_delete rq s =
    if has_nul rq.name
    then deleted rq (record s { stats = inc_delete s.stats }) (kv_delete s.kv (c_string rq.name))
    else none

-- How a connection ends: `quitting` is the `exit` in cleanup.
pub data Outcome : Type 0 where
  served : Server → Reply → Outcome
  quitting : Outcome
  broken : Outcome

abbrev pub outcome : Answered → Outcome
outcome none = broken
outcome (some (s, r)) = served s r

on_request : Option Request → Connection → Server → Outcome
unfolding handle_write handle_read handle_delete resp_fail
on_request none conn s = outcome (resp_fail conn.rq s)
on_request (some rq) conn s =
    if rq.op_status == b'W'
    then outcome (handle_write rq conn s)
    else if rq.op_status == b'R'
    then outcome (handle_read rq s)
    else if rq.op_status == b'D'
    then outcome (handle_delete rq s)
    else if rq.op_status == b'Q'
    then quitting
    else outcome (resp_fail rq s)

unfoldable pub dispatch : Connection → Server → Outcome
unfolding on_request
dispatch conn s = on_request conn.request conn s

-- The loop of a worker over the connections that it takes from the queue, with what it answered.
pub data Session : Type 0 where
  waiting : Server → List Reply → Session
  exited : List Reply → Session
  crashed : Session

answered : Reply → Session → Session
answered r (waiting s rs) = waiting s (r ∷ rs)
answered r (exited rs) = exited (r ∷ rs)
answered r crashed = crashed

unfoldable pub worker : List Connection → Server → Session
unfolding answered
worker [] s = waiting s []
worker (c ∷ cs) s = elim (dispatch c s) [
  | served s' r ↦ answered r (worker cs s')
  | quitting ↦ exited []
  | broken ↦ crashed
]
