-- ===== src/Server/Counting.antt =====
-- Whatever comes in, the loop of a worker keeps the table valid and the counters true.
use systems_projects.Base.{
  ℕ, ◌+◌, ◌<◌, ◌≡◌, refl, ap, ◌⊎◌, inl, inr, Option, none, some, List, [], ◌∷◌, ◌==◌, if◌then◌else◌,
  arith, length, c_string, pos, atoi, Bool-cases,
}
use systems_projects.Server.{
  Stats, inc_write, inc_read, inc_delete, inc_fail, Request, Reply, Server, Connection, Answered,
  resp_fail, handle_write, handle_read, handle_delete, Outcome, served, quitting, outcome, dispatch,
  on_request, waiting, exited, crashed, worker, Session, answered,
}
use systems_projects.Server.Bounds.{IsRequest, too_long}
use systems_projects.Server.Laws.{
  IsSound, Handled, status_of, resp_fail-Handled, handle_write-Handled, handle_read-Handled,
  handle_delete-Handled,
}

-- 1 if the connection brings a request with this operation.
abbrev asks : ℕ → Option Request → ℕ
asks op none = 0
asks op (some rq) = if rq.op_status == op then 1 else 0

abbrev fails : Reply → ℕ
fails r = if status_of r == b'X' then 1 else 0

-- How many of the connections ask for an operation, and how many answers are failures.
abbrev pub asked : ℕ → List Connection → ℕ
asked op [] = 0
asked op (c ∷ cs) = asks op c.request + asked op cs

abbrev pub failures : List Reply → ℕ
failures [] = 0
failures (r ∷ rs) = fails r + failures rs

-- What a request must be like: both fields end, and the length is a number that is not negative, has
-- at most seven digits, and is below the room that the thread has on its stack.
pub record IsProper (c : Connection) (rq : Request) : Type 0 where
  pub asked : IsRequest rq
  pub size : ℕ
  pub number : atoi (c_string rq.len) ≡ pos size
  pub small : size < too_long
  pub fits : size < length c.buf

abbrev pub AllProper : List Connection → Type 0
AllProper [] = Prim.Unit {0}
AllProper (c ∷ cs) = ((rq : Request) → c.request ≡ some rq → IsProper c rq) × AllProper cs

-- The counters between two states of the server, when these connections were taken and these
-- answers given.
pub record Counted (s : Stats) (cs : List Connection) (rs : List Reply) (t : Stats) : Type 0 where
  pub writes : t.n_writes ≡ s.n_writes + asked b'W' cs
  pub reads : t.n_reads ≡ s.n_reads + asked b'R' cs
  pub deletes : t.n_deletes ≡ s.n_deletes + asked b'D' cs
  pub fails : t.n_fails ≡ s.n_fails + failures rs
  pub answers : length rs ≡ length cs

-- What a dispatch comes to.
data Dispatched (c : Connection) (s : Server) (o : Outcome) : Type 0 where
  answer :
      (t : Server) (r : Reply)
      → o ≡ served t r
      → IsSound t.kv
      → Counted s.stats (c ∷ []) (r ∷ []) t.stats
      → Dispatched c s o
  quit : o ≡ quitting → asks b'Q' c.request ≡ 1 → Dispatched c s o

-- The counters that a handler starts from.
record Starts (c : Connection) (s st : Stats) : Type 0 where
  writes : st.n_writes ≡ s.n_writes + asks b'W' c.request
  reads : st.n_reads ≡ s.n_reads + asks b'R' c.request
  deletes : st.n_deletes ≡ s.n_deletes + asks b'D' c.request
  same_fails : st.n_fails ≡ s.n_fails

Handled-Dispatched :
    (c : Connection) (s : Server) (st : Stats) (a : Answered)
    → Starts c s.stats st
    → Handled st a
    → Dispatched c s (outcome a)
unfolding inc_fail
Handled-Dispatched c s st a at h =
    answer h.server h.reply (rw h.result refl) h.valid (count h.counted)
  where
    count :
        ((h.server.stats ≡ st) × (status_of h.reply ≡ b'K'))
          ⊎ ((h.server.stats ≡ inc_fail st) × (status_of h.reply ≡ b'X'))
        → Counted s.stats (c ∷ []) (h.reply ∷ []) h.server.stats
    count (inl (same, okay)) = record {
      writes = omega (arith, at.writes, ap Stats.n_writes same);
      reads = omega (arith, at.reads, ap Stats.n_reads same);
      deletes = omega (arith, at.deletes, ap Stats.n_deletes same);
      fails = rw okay (omega (arith, at.same_fails, ap Stats.n_fails same));
      answers = omega arith;
    }
    count (inr (more, failure)) = record {
      writes = omega (arith, at.writes, ap Stats.n_writes more);
      reads = omega (arith, at.reads, ap Stats.n_reads more);
      deletes = omega (arith, at.deletes, ap Stats.n_deletes more);
      fails = rw failure (omega (arith, at.same_fails, ap Stats.n_fails more));
      answers = omega arith;
    }

abbrev Proper : Connection → Option Request → Type 0
Proper c o = (rq : Request) → o ≡ some rq → IsProper c rq

request-Dispatched :
    (c : Connection) (s : Server) (o : Option Request)
    → c.request ≡ o
    → Proper c o
    → IsSound s.kv
    → Dispatched c s (on_request o c s)
unfolding on_request inc_write inc_read inc_delete
request-Dispatched c s none at proper valid =
    Handled-Dispatched c s s.stats (resp_fail c.rq s) (rw at (omega arith))
      (resp_fail-Handled c.rq s valid)
request-Dispatched c s (some rq) at proper valid =
    let good = proper rq refl in
    elim (Bool-cases (rq.op_status == b'W')) [
      | inl write ↦ rw write (
          Handled-Dispatched c s (inc_write s.stats) (handle_write rq c s) (rw at (ground arith)) (
            handle_write-Handled rq c s good.size good.asked good.number good.small good.fits
              valid))
      | inr not_write ↦ elim (Bool-cases (rq.op_status == b'R')) [
        | inl read ↦
            rw (not_write, read)
              (Handled-Dispatched c s (inc_read s.stats) (handle_read rq s) (rw at (ground arith))
                (handle_read-Handled rq s good.asked valid))
        | inr not_read ↦ elim (Bool-cases (rq.op_status == b'D')) [
          | inl delete ↦
              rw (not_write, not_read, delete)
                (Handled-Dispatched c s (inc_delete s.stats) (handle_delete rq s)
                  (rw at (ground arith)) (handle_delete-Handled rq s good.asked valid))
          | inr not_delete ↦ elim (Bool-cases (rq.op_status == b'Q')) [
            | inl leave ↦
                rw (not_write, not_read, not_delete, leave) (quit refl (rw at (ground arith)))
            | inr unknown ↦
                rw (not_write, not_read, not_delete, unknown)
                  (Handled-Dispatched c s s.stats (resp_fail rq s) (rw at (ground arith))
                    (resp_fail-Handled rq s valid))
          ]
        ]
      ]
    ]

dispatch-Dispatched :
    (c : Connection) (s : Server)
    → Proper c c.request
    → IsSound s.kv
    → Dispatched c s (dispatch c s)
unfolding dispatch
dispatch-Dispatched c s proper valid = request-Dispatched c s c.request refl proper valid

Counted-cons :
    (c : Connection) (cs : List Connection) (r : Reply) (rs : List Reply) (s t u : Stats)
    → Counted s (c ∷ []) (r ∷ []) t
    → Counted t cs rs u
    → Counted s (c ∷ cs) (r ∷ rs) u
Counted-cons c cs r rs s t u h k = record {
  writes = omega (arith, h.writes, k.writes);
  reads = omega (arith, h.reads, k.reads);
  deletes = omega (arith, h.deletes, k.deletes);
  fails = omega (arith, h.fails, k.fails);
  answers = omega (arith, k.answers);
}

-- The worker waits for more, with the table valid and every counter true, or a request to quit has
-- ended the program; it has not crashed.
abbrev pub Sound : Server → List Connection → Session → Type 0
Sound s cs (waiting t rs) = IsSound t.kv × Counted s.stats cs rs t.stats
Sound s cs (exited rs) = 0 < asked b'Q' cs
Sound s cs crashed = ⊥

answered-Sound :
    (c : Connection) (cs : List Connection) (s t : Server) (r : Reply) (e : Session)
    → Counted s.stats (c ∷ []) (r ∷ []) t.stats
    → Sound t cs e
    → Sound s (c ∷ cs) (answered r e)
unfolding answered
answered-Sound c cs s t r (waiting u rs) h k =
    (k.0, Counted-cons c cs r rs s.stats t.stats u.stats h k.1)
answered-Sound c cs s t r (exited rs) h k = omega arith
answered-Sound c cs s t r crashed h k = k

-- However many connections a worker takes, with whatever operations and interrupted values, it does
-- not crash: the table stays valid and its values shorter than 10 ^ 7, every connection has an
-- answer, the counters of writes, reads and deletes go up by the requests for them, and the counter
-- of failures by the answers that report one; or one of the requests was to quit, and the program
-- has exited. The table is so at the start; no other worker changes it meanwhile; and in every
-- request that comes in whole both fields end with a NUL, and the length field reads as a number
-- from 0 to 10 ^ 7 - 1 for which the thread's stack has room.
pub worker-Sound :
    (cs : List Connection) (s : Server) → IsSound s.kv → AllProper cs → Sound s cs (worker cs s)
unfolding worker
worker-Sound [] s valid proper = (valid, omega arith)
worker-Sound (c ∷ cs) s valid proper = elim (dispatch-Dispatched c s proper.0 valid) [
  | answer t r e valid' count ↦
      rw (e, Sound)
        (answered-Sound c cs s t r (worker cs t) count (worker-Sound cs t valid' proper.1))
  | quit e asks_quit ↦ rw (e, Sound) (omega arith)
]
