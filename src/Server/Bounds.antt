-- ===== src/Server/Bounds.antt =====
-- What the arrays of worker.c have room for (lab3-TheCarton-main).
use systems_projects.Base.{
  ℕ, ◌+◌, ◌^◌, ◌≤◌, ◌<◌, ◌≡◌, true, List, [], ◌∷◌, Bytes, arith, length, set, take, drop, c_string,
  has_nul, has_room, decimal, length-decimal, length-append, length-take, length-drop,
  length-c_string-set,
}
use systems_projects.Server.{Request, Received, chunk, failed, Last, above_zero, read_into, receive}

-- A request as lab3.h describes it: both fields end within their arrays.
pub record IsRequest (rq : Request) : Type 0 where
  pub name_width : length rq.name ≡ 31
  pub len_width : length rq.len ≡ 8
  pub name_ends : has_nul rq.name ≡ true
  pub len_ends : has_nul rq.len ≡ true

-- The length of a value has seven digits at most.
abbrev pub too_long : ℕ
too_long = 10 ^ 7

pub len_has_room :
    (rq : Request) (n : ℕ) → length rq.len ≡ 8 → n < too_long → has_room rq.len (decimal n) ≡ true
len_has_room rq n width h =
    let short : length (decimal n) ≤ 7 = length-decimal 6 n h in ground (arith, short, width)

length-read_into :
    (buf : Bytes) (len : ℕ) (c : Bytes)
    → len ≤ length buf
    → length (read_into buf len c) ≡ length buf
unfolding read_into
length-read_into buf len c h = omega (
  arith,
  h,
  length-append (take len c) (drop (length (take len c)) buf),
  length-take len c,
  length-drop (length (take len c)) buf,
)

-- The loop of handle_write stays within the buffer.
pub length-receive :
    (rs : List Received) (len got : ℕ) (buf : Bytes) (n : Last)
    → len ≤ length buf
    → length (receive rs len got buf n).0 ≡ length buf
unfolding receive
length-receive [] len got buf n h = ground arith
length-receive (failed ∷ rs) len got buf n h = ground arith
length-receive (chunk c ∷ rs) len got buf n h =
    let stays = length-read_into buf len c h in
    ground (
      arith,
      stays,
      length-receive rs len (got + length (take len c)) (read_into buf len c) above_zero,
    )

-- The string that is stored has no more characters than the request says.
pub length-received :
    (rs : List Received) (len : ℕ) (buf : Bytes) (n : Last)
    → len < length buf
    → length (c_string (set (receive rs len 0 buf n).0 len 0)) ≤ len
length-received rs len buf n h =
    length-c_string-set (receive rs len 0 buf n).0 len
      (omega (arith, h, length-receive rs len 0 buf n (omega (arith, h))))
