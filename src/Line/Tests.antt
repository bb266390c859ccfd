-- ===== src/Line/Tests.antt =====
-- soj_stratum_transport.c: a line that comes in two pieces with the start of the next, and one that
-- goes out in two.
use soj_civic_light.Prelude.{
  ◌+◌, ◌≡◌, ◌≤◌, ◌<◌, ◌%◌, refl, true, none, some, List, [], ◌∷◌, ◌++◌, arith,
}
use soj_civic_light.Line.{
  Conn, ok, again, SendTurn, RecvTurn, send_line, stratum_recv_line, stratum_disconnect,
  count_failure,
}
use soj_civic_light.Line.Framing.{Sent, Framed, send_line-Sent, recv_line-Framed}
use soj_civic_light.Line.Limits.{Fits, recv_line-Fits, three_failures}

abbrev conn : Conn
conn = record {
  curl = true;
  sock = some 5;
  sockbuf = 123 ∷ [];
  sockbuf_size = 2048;
  new_job = true;
  session_id = none;
  xnonce1 = some (1 ∷ []);
  xnonce1_size = 1;
  xnonce2_size = 4;
  job_id = some (65 ∷ 66 ∷ []);
  failures = 0;
  pause_until = 0;
}

abbrev pieces : List RecvTurn
pieces =
    (again, true, true) ∷ (ok (34 ∷ []), true, true) ∷ (ok (125 ∷ 10 ∷ 91 ∷ []), true, true) ∷ []

reads_line : (stratum_recv_line true pieces 7 conn).0 ≡ some (some (123 ∷ 34 ∷ 125 ∷ []))
unfolding stratum_recv_line
reads_line = refl

abbrev turns : List SendTurn
turns = (true, ok 2) ∷ (true, again) ∷ (true, ok 1) ∷ (true, ok 5) ∷ []

sends_line : send_line (some 5) turns (1 ∷ 2 ∷ 3 ∷ []) ≡ (some true, 1 ∷ 2 ∷ 3 ∷ 10 ∷ [])
unfolding send_line
sends_line = refl

send_line-Sent_example :
    Sent (send_line (some 5) turns (1 ∷ 2 ∷ 3 ∷ [])) ((1 ∷ 2 ∷ 3 ∷ []) ++ (10 ∷ []))
send_line-Sent_example = send_line-Sent (some 5) turns (1 ∷ 2 ∷ 3 ∷ [])

recv_line-Framed_example : Framed 7 conn pieces (stratum_recv_line true pieces 7 conn)
recv_line-Framed_example = recv_line-Framed true pieces 7 conn

recv_line-Fits_example : Fits (stratum_recv_line true pieces 7 conn).1
recv_line-Fits_example = recv_line-Fits true pieces 7 conn (omega arith)

three_failures_example :
    let c1 = count_failure 100 conn in
    let c2 = count_failure 200 c1 in
    let c3 = count_failure 300 c2 in
    (c1 ≡ record conn { failures = 1 })
    × (c2 ≡ record (stratum_disconnect c1) { failures = 2 })
    × (c3.failures ≡ 0)
    × (c2.pause_until ≡ 0)
    × (c3.pause_until % 240 ≡ 0)
    × (300 < c3.pause_until)
    × (c3.pause_until ≤ 300 + 240)
three_failures_example = three_failures 100 200 300 conn refl
