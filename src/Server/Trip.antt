-- ===== src/Server/Trip.antt =====
-- A value that is written over one connection is read over another; a value that comes in two parts
-- is not stored.
use systems_projects.Base.{
  ℕ, ◌+◌, ◌<◌, ◌≤◌, ◌≡◌, ◌≢◌, refl, ap, ◌∙◌, true, false, some, List, [], ◌∷◌, ◌++◌, Bytes, ◌==◌,
  ltb, arith, length, set, take, drop, take_all, length-c_string, length-drop, strcpy, decimal,
  c_string-strcpy, decimal-NoNul, atoi-decimal, c_string, c_string-append, NoNul, pos, atoi,
  str_eq_refl,
}
use systems_projects.Kv.{Store, live, table_max, find_key, key_len, kv_read, kv_write}
use systems_projects.Kv.Find.{IsValid}
use systems_projects.Kv.Write.{kv_write-room, kv_read-kv_write}
use systems_projects.Server.Bounds.{IsRequest, too_long, len_has_room}
use systems_projects.Server.{
  inc_write, inc_read, Request, Reply, Server, Received, chunk, Connection, Last, above_zero,
  resp_okay, receive, finish_write, handle_write, handle_read, served, dispatch, on_request,
  written,
}

-- Once all bytes are counted the loop ends.
receive_done :
    (rs : List Received) (len got : ℕ) (buf : Bytes) (n : Last)
    → len ≤ got
    → receive rs len got buf n ≡ (buf, n)
unfolding receive
receive_done [] len got buf n h = ground arith
receive_done (chunk c ∷ rs) len got buf n h = ground arith
receive_done (Received.failed ∷ rs) len got buf n h = ground arith

receive_step :
    (c : Bytes) (rs : List Received) (len got : ℕ) (buf : Bytes) (n : Last)
    → 0 < length c
    → length c ≤ len
    → got < len
    → receive (chunk c ∷ rs) len got buf n
      ≡ receive rs len (got + length c) (c ++ drop (length c) buf) above_zero
unfolding receive
receive_step c rs len got buf n some_bytes fits more =
    let first : ltb got len ≡ true = ground arith in
    let count : (length c == 0) ≡ false = ground arith in
    rw (first, take_all len c fits, count) refl

-- A value that comes in one piece fills the buffer.
receive_whole :
    (c : Bytes) (rs : List Received) (buf : Bytes) (n : Last)
    → 0 < length c
    → receive (chunk c ∷ rs) (length c) 0 buf n ≡ (c ++ drop (length c) buf, above_zero)
receive_whole c rs buf n some_bytes =
    receive_step c rs (length c) 0 buf n some_bytes (omega arith) some_bytes
    ∙ receive_done rs (length c) (0 + length c) (c ++ drop (length c) buf) above_zero (omega arith)

-- A value that comes in two pieces that begin differently is not put together: the second piece
-- stands at the front of the buffer, over what the first left there, which differs from the value;
-- and the loop ends as if all of it had come.
pub receive_split :
    (a b : ℕ) (c d : Bytes) (rs : List Received) (buf : Bytes) (n : Last)
    → a ≢ b
    → (receive (chunk (a ∷ c) ∷ chunk (b ∷ d) ∷ rs) (length (a ∷ c) + length (b ∷ d)) 0 buf n
        ≡ ((b ∷ d) ++ drop (length (b ∷ d)) ((a ∷ c) ++ drop (length (a ∷ c)) buf), above_zero))
      × (take
            (length ((a ∷ c) ++ b ∷ d))
            ((b ∷ d) ++ drop (length (b ∷ d)) ((a ∷ c) ++ drop (length (a ∷ c)) buf))
          ≢ (a ∷ c) ++ b ∷ d)
receive_split a b c d rs buf n ne =
    let len : ℕ = length (a ∷ c) + length (b ∷ d) in
    let first = (a ∷ c) ++ drop (length (a ∷ c)) buf in
    let second = (b ∷ d) ++ drop (length (b ∷ d)) first in
    (
      receive_step (a ∷ c) (chunk (b ∷ d) ∷ rs) len 0 buf n (omega arith) (omega arith)
            (omega arith)
          ∙ (receive_step (b ∷ d) rs len (0 + length (a ∷ c)) first above_zero (omega arith)
                (omega arith) (omega arith)
              ∙ receive_done rs len (0 + length (a ∷ c) + length (b ∷ d)) second above_zero
                  (omega arith)),
      λ e. ne (ground (arith, e)),
    )

set-append : (c : Bytes) (b : ℕ) (bs : Bytes) → set (c ++ b ∷ bs) (length c) 0 ≡ c ++ 0 ∷ bs
set-append [] b bs = refl
set-append (x ∷ c) b bs = ap (◌∷◌ x) (set-append c b bs)

-- The NUL behind the value ends it.
c_string_closed :
    (c : Bytes) (rest : Bytes)
    → NoNul c
    → 0 < length rest
    → c_string (set (c ++ rest) (length c) 0) ≡ c
c_string_closed c [] clean room = absurd (omega arith)
c_string_closed c (b ∷ bs) clean room = rw (set-append c b bs) (c_string-append c bs clean)

-- A connection that brings the request and the value in one piece.
module _ (s : Server) (wr : Request) (cw : Connection) (c : Bytes) (rs : List Received)
    (asked : cw.request ≡ some wr) (came : cw.reads ≡ chunk c ∷ rs) (write : wr.op_status ≡ b'W')
    (len : atoi (c_string wr.len) ≡ pos (length c)) (some_bytes : 0 < length c) (clean : NoNul c)
    (room_in_buf : length c < length cw.buf) (asked_well : IsRequest wr) where
  write_run :
      {kv' : Store}
      → kv_write s.kv (c_string wr.name) c ≡ some (0, kv')
      → (r : Reply) × (dispatch cw s ≡ served (record s { kv = kv'; stats = inc_write s.stats }) r)
        × (r.request.op_status ≡ b'K')
  unfolding dispatch on_request handle_write finish_write written resp_okay
  write_run {kv'} stored =
      let closed =
        c_string_closed c (drop (length c) cw.buf) clean
          (omega (arith, length-drop (length c) cw.buf)) in
      let fits : ltb (length c) (length cw.buf) ≡ true = ground (arith, room_in_buf) in
      let room_for_0 = len_has_room wr 0 asked_well.len_width (omega arith) in
      (
        record {
          request = record wr { op_status = b'K'; len = strcpy wr.len (decimal 0) };
          body = [];
        },
        rw
            (
              asked,
              write,
              asked_well.name_ends,
              asked_well.len_ends,
              len,
              came,
              fits,
              receive_whole c rs cw.buf cw.n some_bytes,
              closed,
              stored,
              room_for_0,
            )
            refl,
        refl,
      )

-- A request to read a key that has a value.
read_run :
    (s : Server) (rd : Request) (cr : Connection) (v : Bytes)
    → cr.request ≡ some rd
    → rd.op_status ≡ b'R'
    → IsRequest rd
    → length v < too_long
    → kv_read s.kv (c_string rd.name) ≡ live v
    → (q : Reply) × (dispatch cr s ≡ served (record s { stats = inc_read s.stats }) q)
      × (q.request.op_status ≡ b'K')
      × (q.body ≡ v)
      × (q.request.len ≡ strcpy rd.len (decimal (length v)))
unfolding dispatch on_request handle_read resp_okay
read_run s rd cr v asked read asked_well small found = (
  record {
    request = record rd { op_status = b'K'; len = strcpy rd.len (decimal (length v)) };
    body = v;
  },
  rw
      (
        asked,
        read,
        asked_well.name_ends,
        found,
        len_has_room rd (length v) asked_well.len_width small,
      )
      refl,
  refl,
  refl,
  refl,
)

-- A value that one connection writes is what another then reads: while the table is valid and has
-- room, a write request for a key that does not stand at index 0, with the value's length in its
-- length field and the whole value in one piece, is answered with `K`; and a read request for the
-- same key after that with `K`, the value, and its length in the length field. In both requests the
-- fields end with a NUL, the name within its 31 characters, so that a key has 30 at most. The value
-- is not empty, holds no NUL, is shorter than 10 ^ 7, and the thread's stack has room for it.
pub dispatch_write_read :
    (s : Server) (wr rd : Request) (cw cr : Connection) (c : Bytes) (rs : List Received)
    → IsValid s.kv
    → key_len s.kv < table_max
    → IsRequest wr
    → IsRequest rd
    → find_key s.kv (c_string wr.name) ≢ some 0
    → cw.request ≡ some wr
    → cw.reads ≡ chunk c ∷ rs
    → wr.op_status ≡ b'W'
    → atoi (c_string wr.len) ≡ pos (length c)
    → 0 < length c
    → NoNul c
    → length c < length cw.buf
    → length c < too_long
    → cr.request ≡ some rd
    → rd.op_status ≡ b'R'
    → c_string rd.name ≡ c_string wr.name
    → (t u : Server) × (r q : Reply) × (dispatch cw s ≡ served t r)
      × (r.request.op_status ≡ b'K')
      × (dispatch cr t ≡ served u q)
      × (q.request.op_status ≡ b'K')
      × (q.body ≡ c)
      × (atoi (c_string q.request.len) ≡ pos (length c))
dispatch_write_read s wr rd cw cr c rs valid room asked_well asked_well' not_first asked came write
      len some_bytes clean room_in_buf small asked' read same_key =
    let (kv', stored) = kv_write-room (c_string wr.name) c valid room in
    let t : Server = record s { kv = kv'; stats = inc_write s.stats } in
    let short : length (c_string wr.name) ≤ 31 =
      omega (arith, length-c_string wr.name, asked_well.name_width) in
    let reads = kv_read-kv_write (c_string wr.name) c valid short not_first stored in
    let found : kv_read kv' (c_string rd.name) ≡ live c =
      reads (c_string rd.name) ∙ rw (same_key, str_eq_refl (c_string wr.name)) refl in
    let (r, one, okay) =
      write_run s wr cw c rs asked came write len some_bytes clean room_in_buf asked_well stored in
    let (q, two, okay', body, text) = read_run t rd cr c asked' read asked_well' small found in
    (t, record t { stats = inc_read t.stats }, r, q, one, okay, two, okay', body, number q text)
  where
    number :
        (q : Reply)
        → q.request.len ≡ strcpy rd.len (decimal (length c))
        → atoi (c_string q.request.len) ≡ pos (length c)
    number q text =
        rw (text, c_string-strcpy rd.len (decimal (length c)) (decimal-NoNul (length c)))
          (atoi-decimal (length c))
