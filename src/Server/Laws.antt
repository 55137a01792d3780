-- ===== src/Server/Laws.antt =====
-- Every handler of worker.c answers, keeps the table valid and its values short, and counts its
-- failure.
use systems_projects.Base.{
  ℕ, ◌<◌, ◌≡◌, refl, ◌⊎◌, inl, inr, true, some, [], Bytes, ◌==◌, ltb, set, length, c_string,
  decimal, has_room, strcpy, pos, atoi, Bool-cases, arith,
}
use systems_projects.Kv.{Store}
use systems_projects.Kv.Find.{IsValid, kv_read-live}
use systems_projects.Kv.Write.{kv_write-IsValid}
use systems_projects.Kv.Delete.{kv_delete-IsValid}
use systems_projects.Kv.Short.{IsShort, kv_read-short, kv_write-IsShort, kv_delete-IsShort}
use systems_projects.Server.{
  Stats, inc_write, inc_read, inc_delete, inc_fail, Request, Reply, Server, Connection, Last,
  below_zero, at_zero, above_zero, Answered, resp_fail, resp_okay, receive, finish_write,
  handle_write, handle_read, handle_delete, written,
}
use systems_projects.Server.Bounds.{IsRequest, too_long, len_has_room, length-received}

abbrev pub status_of : Reply → ℕ
status_of r = r.request.op_status

-- The table is valid, and its values are shorter than the length field of a request can say.
pub record IsSound (kv : Store) : Type 0 where
  pub valid : IsValid kv
  pub short : IsShort too_long kv

-- The answer is there and the table is sound; a success leaves the counters as they were, and a
-- failure is counted.
pub record Handled (st : Stats) (a : Answered) : Type 0 where
  pub server : Server
  pub reply : Reply
  pub result : a ≡ some (server, reply)
  pub valid : IsSound server.kv
  pub counted :
      ((server.stats ≡ st) × (status_of reply ≡ b'K'))
      ⊎ ((server.stats ≡ inc_fail st) × (status_of reply ≡ b'X'))

pub resp_fail-Handled :
    (rq : Request) (s : Server) → IsSound s.kv → Handled s.stats (resp_fail rq s)
unfolding resp_fail
resp_fail-Handled rq s valid = record {
  server = record s { stats = inc_fail s.stats };
  reply = record { request = record rq { op_status = b'X' }; body = [] };
  result = refl;
  valid = valid;
  counted = inr (refl, refl);
}

resp_okay-Handled :
    (rq : Request) (body : Bytes) (s : Server)
    → has_room rq.len (decimal (length body)) ≡ true
    → IsSound s.kv
    → Handled s.stats (resp_okay rq body s)
unfolding resp_okay
resp_okay-Handled rq body s room valid = record {
  server = s;
  reply = record {
    request = record rq { op_status = b'K'; len = strcpy rq.len (decimal (length body)) };
    body = body;
  };
  result = rw room refl;
  valid = valid;
  counted = inl (refl, refl);
}

-- An answer without a value.
bare_room : (rq : Request) → IsRequest rq → has_room rq.len (decimal 0) ≡ true
bare_room rq asked = len_has_room rq 0 asked.len_width (omega arith)

written-Handled :
    (rq : Request) (s : Server) (ret : ℕ) (kv' : Store)
    → IsRequest rq
    → IsSound kv'
    → Handled s.stats (written rq s (some (ret, kv')))
unfolding written
written-Handled rq s ret kv' asked valid = elim (Bool-cases (ret == 0)) [
  | inl done ↦ rw done (resp_okay-Handled rq [] (record s { kv = kv' }) (bare_room rq asked) valid)
  | inr full ↦ rw full (resp_fail-Handled rq (record s { kv = kv' }) valid)
]

finish_write-Handled :
    (rq : Request) (buf : Bytes) (s : Server) (n : Last)
    → IsRequest rq
    → length (c_string buf) < too_long
    → IsSound s.kv
    → Handled s.stats (finish_write rq buf s n)
unfolding finish_write
finish_write-Handled rq buf s below_zero asked small sound = resp_fail-Handled rq s sound
finish_write-Handled rq buf s at_zero asked small sound = resp_fail-Handled rq s sound
finish_write-Handled rq buf s above_zero asked small sound =
    let key = c_string rq.name in
    let (r, e, valid') = kv_write-IsValid key (c_string buf) sound.valid in
    let short' = kv_write-IsShort too_long key (c_string buf) r.0 sound.valid sound.short small e in
    rw e (written-Handled rq s r.0 r.1 asked (record { valid = valid'; short = short' }))

pub handle_write-Handled :
    (rq : Request) (conn : Connection) (s : Server) (len : ℕ)
    → IsRequest rq
    → atoi (c_string rq.len) ≡ pos len
    → len < too_long
    → len < length conn.buf
    → IsSound s.kv
    → Handled (inc_write s.stats) (handle_write rq conn s)
unfolding handle_write
handle_write-Handled rq conn s len asked e small room sound =
    let (buf, n) = receive conn.reads len 0 conn.buf conn.n in
    let at_most = length-received conn.reads len conn.buf conn.n room in
    let fits : ltb len (length conn.buf) ≡ true = ground (arith, room) in
    rw (asked.name_ends, asked.len_ends, e, fits)
      (finish_write-Handled rq (set buf len 0) (record s { stats = inc_write s.stats }) n asked
        (omega (arith, at_most, small)) sound)

pub handle_read-Handled :
    (rq : Request) (s : Server)
    → IsRequest rq
    → IsSound s.kv
    → Handled (inc_read s.stats) (handle_read rq s)
unfolding handle_read
handle_read-Handled rq s asked sound =
    let s' : Server = record s { stats = inc_read s.stats } in
    rw (asked.name_ends) (elim (kv_read-live sound.valid (c_string rq.name)) [
      | inl missing ↦ rw missing (resp_fail-Handled rq s' sound)
      | inr (v, found) ↦
          let small = kv_read-short too_long (c_string rq.name) v sound.valid sound.short found in
          rw found
            (resp_okay-Handled rq v s' (len_has_room rq (length v) asked.len_width small) sound)
    ])

pub handle_delete-Handled :
    (rq : Request) (s : Server)
    → IsRequest rq
    → IsSound s.kv
    → Handled (inc_delete s.stats) (handle_delete rq s)
unfolding handle_delete
handle_delete-Handled rq s asked sound =
    let (kv', e, valid') = kv_delete-IsValid (c_string rq.name) sound.valid in
    let short' = kv_delete-IsShort too_long (c_string rq.name) sound.valid sound.short e in
    rw (asked.name_ends, e)
      (resp_okay-Handled rq [] (record s { stats = inc_delete s.stats; kv = kv' })
        (bare_room rq asked) (record { valid = valid'; short = short' }))
