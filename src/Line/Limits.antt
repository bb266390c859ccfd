-- ===== src/Line/Limits.antt =====
-- soj_stratum_transport.c: the receive buffer never overflows, and failures lead to a pause.
use soj_civic_light.Prelude.{
  ℕ, ◌+◌, ◌%◌, ◌≤◌, ◌<◌, ◌≡◌, refl, ap, ◌∙◌, Bool, true, false, not, ◌&&◌, inl, inr, Bool-cases,
  Option, none, some, List, [], ◌∷◌, arith, ◌==◌, if◌then◌else◌, length, length-append,
}
use soj_civic_light.Line.{
  ok, again, broken, Conn, stratum_disconnect, stratum_buffer_append, has_newline, c_string,
  after_newline, RecvTurn, recv_loop, next_boundary, count_failure, take_line, stratum_recv_line,
}

-- The string and its NUL are inside the buffer.
abbrev pub Fits : Conn → Type 0
Fits c = length c.sockbuf < c.sockbuf_size

append-Fits : (s : List ℕ) (c : Conn) → Fits c → Fits (stratum_buffer_append s c)
unfolding stratum_buffer_append
append-Fits s c h = ground (arith, length-append c.sockbuf s)

length-after : (s : List ℕ) → length (after_newline s) ≤ length s
unfolding after_newline
length-after [] = omega arith
length-after (b ∷ s) = ground (arith, length-after s)

failure-Fits : (now : ℕ) (c : Conn) → Fits c → Fits (count_failure now c)
unfolding count_failure stratum_disconnect
failure-Fits now c h = ground arith

line-Fits : (now : ℕ) (c : Conn) → Fits c → Fits (take_line now c).1
unfolding take_line
line-Fits now c h = elim (Bool-cases (has_newline c.sockbuf)) [
  | inl line ↦ rw line (omega (arith, length-after c.sockbuf))
  | inr nothing ↦ rw nothing (failure-Fits now c h)
]

turn-Fits :
    (closed on : Bool) (c c1 c2 : Conn) (turns rest : List RecvTurn) (r : Option Bool)
    → Fits c
    → Fits c1
    → Fits c2
    → let result : Option Bool × Conn × List RecvTurn =
        if closed
        then (some false, c, turns)
        else if on
        then (r, c2, rest)
        else (some true, c1, turns) in
      Fits result.1
turn-Fits true on c c1 c2 turns rest r h h1 h2 = h
turn-Fits false true c c1 c2 turns rest r h h1 h2 = h2
turn-Fits false false c c1 c2 turns rest r h h1 h2 = h1

loop-Fits : (turns : List RecvTurn) (c : Conn) → Fits c → Fits (recv_loop turns c).1
unfolding recv_loop
loop-Fits [] c h = h
loop-Fits ((ok s, full, early) ∷ turns) c h =
    let c1 = stratum_buffer_append (c_string s) c in
    let h1 = append-Fits (c_string s) c h in
    turn-Fits (length s == 0) (early && not (has_newline c1.sockbuf)) c c1 (recv_loop turns c1).1
      turns (recv_loop turns c1).2 (recv_loop turns c1).0 h h1 (loop-Fits turns c1 h1)
loop-Fits ((again, full, early) ∷ turns) c h =
    turn-Fits (not full) (early && not (has_newline c.sockbuf)) c c (recv_loop turns c).1 turns
      (recv_loop turns c).2 (recv_loop turns c).0 h h (loop-Fits turns c h)
loop-Fits ((broken, full, early) ∷ turns) c h = h

result-Fits :
    (now : ℕ) (d : Conn) (rest : List RecvTurn) (r : Option Bool)
    → Fits d
    → let result : Option (Option (List ℕ)) × Conn × List RecvTurn = elim r [
      | none ↦ (none, d, rest)
      | some false ↦ (some none, count_failure now d, rest)
      | some true ↦ (some (take_line now d).0, (take_line now d).1, rest)
    ] in
      Fits result.1
result-Fits now d rest none h = h
result-Fits now d rest (some false) h = failure-Fits now d h
result-Fits now d rest (some true) h = line-Fits now d h

choice-Fits :
    (buffered ready : Bool) (x y z : Option (Option (List ℕ)) × Conn × List RecvTurn)
    → Fits x.1
    → Fits y.1
    → Fits z.1
    → let result = if buffered then x else if not ready then y else z in Fits result.1
choice-Fits true ready x y z hx hy hz = hx
choice-Fits false true x y z hx hy hz = hz
choice-Fits false false x y z hx hy hz = hy

-- If the string and its NUL fit into the receive buffer before a call of stratum_recv_line, they fit
-- after it, for every course of its reads.
pub recv_line-Fits :
    (ready : Bool) (turns : List RecvTurn) (now : ℕ) (c : Conn)
    → Fits c
    → Fits (stratum_recv_line ready turns now c).1
unfolding stratum_recv_line
recv_line-Fits ready turns now c h =
    choice-Fits (has_newline c.sockbuf) ready _ _ _ (line-Fits now c h) h (
      result-Fits now (recv_loop turns c).1 (recv_loop turns c).2 (recv_loop turns c).0
        (loop-Fits turns c h))

first_failure : (t : ℕ) (c : Conn) → c.failures ≡ 0 → count_failure t c ≡ record c { failures = 1 }
unfolding count_failure
first_failure t c h = rw h refl

second_failure :
    (t : ℕ) (c : Conn)
    → c.failures ≡ 1
    → count_failure t c ≡ record (stratum_disconnect c) { failures = 2 }
unfolding count_failure stratum_disconnect
second_failure t c h = rw h refl

third_failure :
    (t : ℕ) (c : Conn)
    → c.failures ≡ 2
    → count_failure t c
      ≡ record (stratum_disconnect c) { pause_until = next_boundary t; failures = 0 }
unfolding count_failure stratum_disconnect
third_failure t c h = rw h refl

pub next_boundary-lt :
    (t : ℕ) → (next_boundary t % 240 ≡ 0) × (t < next_boundary t) × (next_boundary t ≤ t + 240)
unfolding next_boundary
next_boundary-lt t = (omega arith, omega arith, omega arith)

-- Of three failures in a row after a success the first only counts, the second also disconnects, and
-- the third sets a pause that ends at the next multiple of four minutes, at most four minutes later,
-- and starts the count again.
pub three_failures :
    (t1 t2 t3 : ℕ) (c : Conn)
    → c.failures ≡ 0
    → let c1 = count_failure t1 c in
      let c2 = count_failure t2 c1 in
      let c3 = count_failure t3 c2 in
      (c1 ≡ record c { failures = 1 })
      × (c2 ≡ record (stratum_disconnect c1) { failures = 2 })
      × (c3.failures ≡ 0)
      × (c2.pause_until ≡ c.pause_until)
      × (c3.pause_until % 240 ≡ 0)
      × (t3 < c3.pause_until)
      × (c3.pause_until ≤ t3 + 240)
unfolding stratum_disconnect
three_failures t1 t2 t3 c h =
    let e1 = first_failure t1 c h in
    let c1 = count_failure t1 c in
    let e2 = second_failure t2 c1 (ap (λ x. x.failures) e1) in
    let c2 = count_failure t2 c1 in
    let e3 = third_failure t3 c2 (ap (λ x. x.failures) e2) in
    let pause = ap (λ x. x.pause_until) e3 in
    let (whole, later, soon) = next_boundary-lt t3 in
    (
      e1,
      e2,
      ap (λ x. x.failures) e3,
      ap (λ x. x.pause_until) e2 ∙ ap (λ x. x.pause_until) e1,
      omega arith,
      omega arith,
      omega arith,
    )
