-- ===== src/Line/Framing.antt =====
-- soj_stratum_transport.c: what `stratum_send_line` sends, which lines `stratum_recv_line` gives, and
-- when repeated failures lead to a pause.
use soj_civic_light.Prelude.{
  ℕ, ◌≡◌, ◌≢◌, refl, sym, ap, ◌∙◌, Bool, true, false, not, ◌&&◌, ◌⊎◌, inl, inr, Bool-cases, Option,
  none, some, List, [], ◌∷◌, ◌++◌, append_assoc, arith, ◌==◌, ==_iff, if◌then◌else◌, length, take,
  drop, take-append-drop,
}
use soj_civic_light.Line.{
  ok, again, broken, SendTurn, send_loop, send_line, Conn, stratum_buffer_append, has_newline,
  c_string, before_newline, after_newline, RecvTurn, recv_loop, count_failure, take_line,
  stratum_recv_line,
}

-- All of the line went out and the result is true, or a part did not go out and it is not.
abbrev pub Sent : Option Bool × List ℕ → List ℕ → Type 0
Sent (result, out) line =
    ((result ≡ some true) × (out ≡ line))
    ⊎ ((result ≢ some true) × ((b : ℕ) × (rest : List ℕ) × (out ++ (b ∷ rest) ≡ line)))

prepend-Sent :
    (n : ℕ) (left : List ℕ) (r : Option Bool × List ℕ)
    → Sent r (drop n left)
    → Sent (r.0, take n left ++ r.1) left
prepend-Sent n left (result, out) (inl (sent, all)) =
    inl (sent, ap (λ t. take n left ++ t) all ∙ take-append-drop n left)
prepend-Sent n left (result, out) (inr (unsent, (b, rest, part))) = inr (
  unsent,
  (
    b,
    rest,
    append_assoc (take n left) out (b ∷ rest)
        ∙ ap (λ t. take n left ++ t) part
        ∙ take-append-drop n left,
  ),
)

send_loop-Sent : (turns : List SendTurn) (left : List ℕ) → Sent (send_loop turns left) left
unfolding send_loop
send_loop-Sent [] [] = inl (refl, refl)
send_loop-Sent (turn ∷ turns) [] = inl (refl, refl)
send_loop-Sent [] (b ∷ left) = inr ((λ e. ground arith), (b, left, refl))
send_loop-Sent ((false, rc) ∷ turns) (b ∷ left) = inr ((λ e. ground arith), (b, left, refl))
send_loop-Sent ((true, ok n) ∷ turns) (b ∷ left) =
    prepend-Sent n (b ∷ left) (send_loop turns (drop n (b ∷ left)))
      (send_loop-Sent turns (drop n (b ∷ left)))
send_loop-Sent ((true, again) ∷ turns) (b ∷ left) =
    prepend-Sent 0 (b ∷ left) (send_loop turns (b ∷ left)) (send_loop-Sent turns (b ∷ left))
send_loop-Sent ((true, broken) ∷ turns) (b ∷ left) = inr ((λ e. ground arith), (b, left, refl))

-- However curl splits a line, stratum_send_line returns true exactly when the line and its newline
-- went out, in order and once; else a proper part of it from the front went out.
pub send_line-Sent :
    (sock : Option ℕ) (turns : List SendTurn) (s : List ℕ)
    → Sent (send_line sock turns s) (s ++ (10 ∷ []))
unfolding send_line
send_line-Sent none turns [] = inr ((λ e. ground arith), (10, [], refl))
send_line-Sent none turns (b ∷ s) = inr ((λ e. ground arith), (b, s ++ (10 ∷ []), refl))
send_line-Sent (some sock) turns s = send_loop-Sent turns (s ++ (10 ∷ []))

newline-split :
    (s : List ℕ)
    → has_newline s ≡ true
    → (before_newline s ++ (10 ∷ after_newline s) ≡ s) × (has_newline (before_newline s) ≡ false)
unfolding has_newline before_newline after_newline
newline-split [] h = absurd (ground arith)
newline-split (b ∷ s) h = elim (Bool-cases (b == 10)) [
  | inl here ↦ rw here (ap (λ x. x ∷ s) (sym ((==_iff b 10).0 here)), refl)
  | inr other ↦
      let later : has_newline s ≡ true = ground arith in
      let (whole, clean) = newline-split s later in
      rw other (ap (◌∷◌ b) whole, rw (other, has_newline) clean)
]

-- The strings of the reads, one after another: each is what was read up to its first NUL.
pub arrived : List RecvTurn → List ℕ
arrived [] = []
arrived ((ok s, full, early) ∷ turns) = c_string s ++ arrived turns
arrived ((again, full, early) ∷ turns) = arrived turns
arrived ((broken, full, early) ∷ turns) = arrived turns

-- The bytes that are buffered and those that come later are, in order, what they were.
pub Flows : Conn → List RecvTurn → Conn → List RecvTurn → Type 0
Flows c turns d rest = c.sockbuf ++ arrived turns ≡ d.sockbuf ++ arrived rest

-- What one call may do to the connection `c` with the reads `turns`.
abbrev pub Framed :
    ℕ → Conn → List RecvTurn → Option (Option (List ℕ)) × Conn × List RecvTurn → Type 0
Framed now c turns (none, c1, rest) = Flows c turns c1 rest
Framed now c turns (some (some line), c1, rest) =
    (c.sockbuf ++ arrived turns ≡ line ++ (10 ∷ (c1.sockbuf ++ arrived rest)))
    × (has_newline line ≡ false)
    × (c1.failures ≡ 0)
Framed now c turns (some none, c1, rest) =
    ((c1 ≡ c) × (rest ≡ turns))
    ⊎ ((d : Conn) × Flows c turns d rest × (d.failures ≡ c.failures) × (c1 ≡ count_failure now d))

Read : Conn → List RecvTurn → Conn → List RecvTurn → Type 0
Read c turns d rest = Flows c turns d rest × (d.failures ≡ c.failures)

Read-trans :
    (c c1 c2 : Conn) (turns mid rest : List RecvTurn)
    → Read c turns c1 mid
    → Read c1 mid c2 rest
    → Read c turns c2 rest
unfolding Read Flows
Read-trans c c1 c2 turns mid rest (flow1, fail1) (flow2, fail2) = (flow1 ∙ flow2, fail2 ∙ fail1)

turn-Read :
    (closed on : Bool) (c c1 c2 : Conn) (all turns rest : List RecvTurn) (r : Option Bool)
    → (closed ≡ true → Read c all c turns)
    → Read c all c1 turns
    → Read c1 turns c2 rest
    → let result : Option Bool × Conn × List RecvTurn =
        if closed
        then (some false, c, turns)
        else if on
        then (r, c2, rest)
        else (some true, c1, turns) in
      Read c all result.1 result.2
turn-Read true on c c1 c2 all turns rest r h0 h1 h2 = h0 refl
turn-Read false true c c1 c2 all turns rest r h0 h1 h2 = Read-trans c c1 c2 all turns rest h1 h2
turn-Read false false c c1 c2 all turns rest r h0 h1 h2 = h1

nothing_read :
    (s : List ℕ) (full early : Bool) (turns : List RecvTurn) (c : Conn)
    → (length s == 0) ≡ true
    → Read c ((ok s, full, early) ∷ turns) c turns
unfolding Read Flows arrived c_string
nothing_read [] full early turns c e = (refl, refl)
nothing_read (b ∷ s) full early turns c e = absurd (ground (arith, e))

recv_loop-Read :
    (turns : List RecvTurn) (c : Conn) → Read c turns (recv_loop turns c).1 (recv_loop turns c).2
unfolding recv_loop stratum_buffer_append Read Flows arrived
recv_loop-Read [] c = (refl, refl)
recv_loop-Read ((ok s, full, early) ∷ turns) c =
    let c1 = stratum_buffer_append (c_string s) c in
    turn-Read (length s == 0) (early && not (has_newline c1.sockbuf)) c c1 (recv_loop turns c1).1
      ((ok s, full, early) ∷ turns) turns (recv_loop turns c1).2 (recv_loop turns c1).0
      (nothing_read s full early turns c)
      (sym (append_assoc c.sockbuf (c_string s) (arrived turns)), refl) (recv_loop-Read turns c1)
recv_loop-Read ((again, full, early) ∷ turns) c =
    turn-Read (not full) (early && not (has_newline c.sockbuf)) c c (recv_loop turns c).1
      ((again, full, early) ∷ turns) turns (recv_loop turns c).2 (recv_loop turns c).0
      (λ e. (refl, refl)) (refl, refl) (recv_loop-Read turns c)
recv_loop-Read ((broken, full, early) ∷ turns) c = (refl, refl)

take_line-Framed :
    (now : ℕ) (c d : Conn) (turns rest : List RecvTurn)
    → Read c turns d rest
    → Framed now c turns (some (take_line now d).0, (take_line now d).1, rest)
unfolding take_line Read Flows
take_line-Framed now c d turns rest (flow, fail) = elim (Bool-cases (has_newline d.sockbuf)) [
  | inl line ↦
      let (whole, clean) = newline-split d.sockbuf line in
      rw line (
        flow
            ∙ ap (λ t. t ++ arrived rest) (sym whole)
            ∙ append_assoc (before_newline d.sockbuf) (10 ∷ after_newline d.sockbuf) (arrived rest),
        clean,
        refl,
      )
  | inr none_yet ↦ rw none_yet (inr (d, flow, fail, refl))
]

result-Framed :
    (now : ℕ) (c d : Conn) (turns rest : List RecvTurn) (r : Option Bool)
    → Read c turns d rest
    → Framed now c turns (elim r [
      | none ↦ (none, d, rest)
      | some false ↦ (some none, count_failure now d, rest)
      | some true ↦ (some (take_line now d).0, (take_line now d).1, rest)
    ])
unfolding Read
result-Framed now c d turns rest none h = h.0
result-Framed now c d turns rest (some false) h = inr (d, h.0, h.1, refl)
result-Framed now c d turns rest (some true) h = take_line-Framed now c d turns rest h

choice-Framed :
    (now : ℕ) (c : Conn) (turns : List RecvTurn) (buffered ready : Bool)
    (x y z : Option (Option (List ℕ)) × Conn × List RecvTurn)
    → Framed now c turns x
    → Framed now c turns y
    → Framed now c turns z
    → Framed now c turns (if buffered then x else if not ready then y else z)
choice-Framed now c turns true ready x y z hx hy hz = hx
choice-Framed now c turns false true x y z hx hy hz = hz
choice-Framed now c turns false false x y z hx hy hz = hy

-- One call of stratum_recv_line, for every course of its reads, ends in one of these ways, where each
-- read counts up to its first NUL. It gives what comes before the first newline of the bytes that are
-- buffered and come in; the buffer with what is still to come is exactly what follows that newline,
-- and the count of failures is 0. Or it times out, changes nothing and reads nothing. Or it counts one
-- failure, on a connection whose buffer, with what is still to come, had every byte in order. While it
-- waits this is so too.
pub recv_line-Framed :
    (ready : Bool) (turns : List RecvTurn) (now : ℕ) (c : Conn)
    → Framed now c turns (stratum_recv_line ready turns now c)
unfolding stratum_recv_line Read Flows
recv_line-Framed ready turns now c =
    choice-Framed now c turns (has_newline c.sockbuf) ready _ _ _
      (take_line-Framed now c c turns turns (refl, refl)) (inl (refl, refl))
      (result-Framed now c (recv_loop turns c).1 turns (recv_loop turns c).2 (recv_loop turns c).0
        (recv_loop-Read turns c))
