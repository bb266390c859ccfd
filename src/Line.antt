-- ===== src/Line.antt =====
-- soj_stratum_transport.c: `send_line`, `stratum_buffer_append`, `stratum_recv_line` and
-- `stratum_disconnect`, the lines of a stratum connection. The socket and curl are parameters: what
-- their calls return is given as a list of events.
pub mod Framing
pub mod Limits
mod Tests
use soj_civic_light.Prelude.{
  ℕ, zero, suc, ◌+◌, ◌-◌, ◌*◌, ◌/◌, ◌%◌, Bool, true, false, not, ◌&&◌, ◌||◌, Option, none, some,
  List, [], ◌∷◌, ◌++◌, ltb, leb, ◌==◌, if◌then◌else◌, length, take, drop,
}

-- What `curl_easy_send` or `curl_easy_recv` returns.
pub data Code (A : Type 0) : Type 0 where
  ok : A → Code A
  again : Code A
  broken : Code A

-- One turn of `send_line`: whether the socket is ready, and how much curl sends.
abbrev pub SendTurn : Type 0
SendTurn = Bool × Code ℕ

-- The loop of `send_line` over what is left of the line: the result, none while the events last, and
-- the bytes that went out.
pub send_loop : List SendTurn → List ℕ → Option Bool × List ℕ
send_loop turns [] = (some true, [])
send_loop [] (b ∷ left) = (none, [])
send_loop ((ready, rc) ∷ turns) (b ∷ left) =
    let n : ℕ = elim rc [ ok n ↦ n | again ↦ 0 | broken ↦ 0 ] in
    let (result, out) = send_loop turns (drop n (b ∷ left)) in
    let failed : Bool = elim rc [ ok n ↦ false | again ↦ false | broken ↦ true ] in
    if not ready || failed then (some false, []) else (result, take n (b ∷ left) ++ out)

pub send_line : (sock : Option ℕ) → List SendTurn → List ℕ → Option Bool × List ℕ
unfolding send_loop
send_line none turns s = (some false, [])
send_line (some sock) turns s = send_loop turns (s ++ (10 ∷ []))

-- The part of `struct stratum_ctx` that belongs to the connection, with the two counters of the file.
-- `sockbuf` is the C string in the buffer, and `failures` is `consecutive_stratum_failures`.
pub record Conn : Type 0 where
  pub curl : Bool
  pub sock : Option ℕ
  pub sockbuf : List ℕ
  pub sockbuf_size : ℕ
  pub new_job : Bool
  pub session_id : Option (List ℕ)
  pub xnonce1 : Option (List ℕ)
  pub xnonce1_size : ℕ
  pub xnonce2_size : ℕ
  pub job_id : Option (List ℕ)
  pub failures : ℕ
  pub pause_until : ℕ

unfoldable pub stratum_disconnect : Conn → Conn
stratum_disconnect c = record c {
  curl = false;
  sock = none;
  sockbuf = [];
  new_job = false;
  session_id = none;
  xnonce1 = none;
  xnonce1_size = elim c.xnonce1 [ none ↦ c.xnonce1_size | some x ↦ 0 ];
  xnonce2_size = 0;
  job_id = none;
}

-- `RBUFSIZE` is 2048. The result of `realloc`, which the code does not test, is taken to be a block.
pub stratum_buffer_append : List ℕ → Conn → Conn
stratum_buffer_append s c =
    let n = length c.sockbuf + length s + 1 in
    record c {
      sockbuf = c.sockbuf ++ s;
      sockbuf_size = if leb c.sockbuf_size n then n + (2048 - n % 2048) else c.sockbuf_size;
    }

-- `strstr(s, "\n")`.
pub has_newline : List ℕ → Bool
has_newline [] = false
has_newline (b ∷ s) = b == 10 || has_newline s

-- The string before the first NUL.
pub c_string : List ℕ → List ℕ
c_string [] = []
c_string (b ∷ s) = if b == 0 then [] else b ∷ c_string s

-- The string before the first newline, and the string after it.
pub before_newline : List ℕ → List ℕ
before_newline [] = []
before_newline (b ∷ s) = if b == 10 then [] else b ∷ before_newline s

pub after_newline : List ℕ → List ℕ
after_newline [] = []
after_newline (b ∷ s) = if b == 10 then s else after_newline s

-- One turn of the receiving loop: what curl receives, `socket_full(sock, 1)`, and whether less than
-- 60 seconds have passed.
abbrev pub RecvTurn : Type 0
RecvTurn = Code (List ℕ) × Bool × Bool

-- The receiving loop: `ret`, the connection, and the turns that are left.
pub recv_loop : List RecvTurn → Conn → Option Bool × Conn × List RecvTurn
unfolding stratum_buffer_append has_newline c_string
recv_loop [] c = (none, c, [])
recv_loop ((rc, full, early) ∷ turns) c =
    let chunk : List ℕ = elim rc [ ok s ↦ c_string s | again ↦ [] | broken ↦ [] ] in
    let closed : Bool = elim rc [ ok s ↦ length s == 0 | again ↦ not full | broken ↦ true ] in
    let c1 : Conn = elim rc [ ok s ↦ stratum_buffer_append chunk c | again ↦ c | broken ↦ c ] in
    let (result, c2, rest) = recv_loop turns c1 in
    if closed
    then (some false, c, turns)
    else if early && not (has_newline c1.sockbuf)
    then (result, c2, rest)
    else (some true, c1, turns)

-- The start of the next period of four minutes.
pub next_boundary : ℕ → ℕ
next_boundary now = (now / 240 + 1) * 240

-- What both failures of `stratum_recv_line` do, at the time `now`.
pub count_failure : ℕ → Conn → Conn
unfolding stratum_disconnect next_boundary
count_failure now c =
    let c1 = record c { failures = c.failures + 1 } in
    let c2 = if leb 2 c1.failures then stratum_disconnect c1 else c1 in
    if leb 3 c1.failures then record c2 { pause_until = next_boundary now; failures = 0 } else c2

-- From the buffer on: a line, or a failure if there is none.
pub take_line : ℕ → Conn → Option (List ℕ) × Conn
unfolding count_failure has_newline before_newline after_newline
take_line now c =
    if has_newline c.sockbuf
    then (
      some (before_newline c.sockbuf),
      record c { sockbuf = after_newline c.sockbuf; failures = 0 },
    )
    else (none, count_failure now c)

-- `ready` is `socket_full(sock, 60)`. The result is none while the events last; then it is the line,
-- if there is one, the connection, and the turns that are left.
pub stratum_recv_line :
    (ready : Bool)
    → List RecvTurn
    → (now : ℕ) → Conn
    → Option (Option (List ℕ)) × Conn × List RecvTurn
unfolding recv_loop take_line
stratum_recv_line ready turns now c =
    let (result, c1, rest) = recv_loop turns c in
    let (line, c2) = take_line now c1 in
    let (line0, c0) = take_line now c in
    if has_newline c.sockbuf
    then (some line0, c0, turns)
    else if not ready
    then (some none, c, turns)
    else elim result [
      | none ↦ (none, c1, rest)
      | some false ↦ (some none, count_failure now c1, rest)
      | some true ↦ (some line, c2, rest)
    ]
