-- ===== src/Reauth/Outcome.antt =====
-- soj_stratum_transport.c: how `stratum_reauthenticate` ends, and what a failure leaves behind.
use soj_civic_light.Prelude.{
  ℕ, zero, suc, ◌+◌, ◌%◌, ◌^◌, ◌≡◌, refl, sym, ap, ◌⊎◌, inl, inr, Bool-cases, ◌∙◌, Bool, true,
  false, not, none, some, List, [], arith, if◌then◌else◌, take,
}
use soj_civic_light.Line.{Conn}
use soj_civic_light.Reauth.{
  Session, attempts, suspend, clear_session, connect_failed, resume, drop_connection,
  stratum_reauthenticate,
}

-- The same session but for the connection, the sleeps and the count of failed attempts.
Kept : Session → Session → Type 0
Kept s t =
    (t.last_rejected_job_id ≡ s.last_rejected_job_id)
    × (t.reauth_in_progress ≡ s.reauth_in_progress)
    × (t.solution_submission_suspended ≡ s.solution_submission_suspended)
    × (t.stratum_down ≡ s.stratum_down)
    × (t.pre_reauth_job_id ≡ s.pre_reauth_job_id)
    × (t.reauth_job_rejection_epoch ≡ s.reauth_job_rejection_epoch)

Kept-trans : (s t u : Session) → Kept s t → Kept t u → Kept s u
unfolding Kept
Kept-trans s t u (a, b, c, d, e, f) (a', b', c', d', e', f') =
    (a' ∙ a, b' ∙ b, c' ∙ c, d' ∙ d, e' ∙ e, f' ∙ f)

choice-Kept :
    (b : Bool) (s : Session) (x y : Bool × Session)
    → Kept s x.1
    → Kept s y.1
    → Kept s (if b then x else y).1
choice-Kept true s x y hx hy = hx
choice-Kept false s x y hx hy = hy

attempts-Kept :
    (step : ℕ → Conn → Bool × Conn) (left n : ℕ) (s : Session) → Kept s (attempts step left n s).1
unfolding attempts Kept
attempts-Kept step zero n s = (refl, refl, refl, refl, refl, refl)
attempts-Kept step (suc left) n s =
    choice-Kept (step n s.conn).0 s _ _ (refl, refl, refl, refl, refl, refl)
      (attempts-Kept step left (n + 1) _)

-- The job of before the call, as far as its buffer holds it.
abbrev pub saved_job : Session → List ℕ
saved_job s = elim s.conn.job_id [ none ↦ [] | some job ↦ take 63 job ]

-- The end of a call that worked, and of one that did not.
abbrev pub Resumed : Session → Session → Type 0
Resumed s t =
    (t.reauth_in_progress ≡ false)
    × (t.solution_submission_suspended ≡ false)
    × (t.stratum_down ≡ false)
    × (t.pre_reauth_job_id ≡ saved_job s)
    × (t.reauth_job_rejection_epoch ≡ (s.reauth_job_rejection_epoch + 1) % 2 ^ 64)

abbrev pub Stuck : Session → Session → Type 0
Stuck s t =
    (t.reauth_in_progress ≡ true)
    × (t.solution_submission_suspended ≡ true)
    × (t.stratum_down ≡ true)
    × (t.pre_reauth_job_id ≡ saved_job s)
    × (t.reauth_job_rejection_epoch ≡ s.reauth_job_rejection_epoch)

abbrev pub Ends : Session → Bool × Session → Type 0
Ends s (true, t) = Resumed s t
Ends s (false, t) = Stuck s t

Kept-Stuck : (now : ℕ) (s t : Session) → Kept (clear_session (suspend now s)) t → Stuck s t
unfolding Kept clear_session suspend
Kept-Stuck now s t (a, b, c, d, e, f) = (b, c, d, e, f)

failed-Stuck : (now : ℕ) (s t : Session) → Stuck s t → Stuck s (connect_failed t)
unfolding connect_failed
failed-Stuck now s t h = ground arith

choice-Ends :
    (b : Bool) (s : Session) (x y : Bool × Session)
    → Ends s x
    → Ends s y
    → Ends s (if b then x else y)
choice-Ends true s x y hx hy = hx
choice-Ends false s x y hx hy = hy

-- A call with its arguments, while no other is in progress, ends in one of two ways, whatever the
-- attempts do. It returns true, with mining and submissions resumed, the old job kept for rejection
-- and the rejection epoch raised by one; or it returns false, and leaves the flag of a call in
-- progress set, submissions suspended and the stratum marked as down.
pub reauthenticate-Ends :
    (connect subscribe authorize : ℕ → Conn → Bool × Conn) (now : ℕ) (s : Session)
    → s.reauth_in_progress ≡ false
    → Ends s (stratum_reauthenticate connect subscribe authorize true now s)
unfolding stratum_reauthenticate resume drop_connection
reauthenticate-Ends connect subscribe authorize now s idle =
    let s0 = clear_session (suspend now s) in
    let s1 = (attempts connect 3 0 s0).1 in
    let s2 = (attempts subscribe 3 0 s1).1 in
    let s3 = (attempts authorize 3 0 s2).1 in
    let k1 = attempts-Kept connect 3 0 s0 in
    let k2 = Kept-trans s0 s1 s2 k1 (attempts-Kept subscribe 3 0 s1) in
    let k3 = Kept-trans s0 s2 s3 k2 (attempts-Kept authorize 3 0 s2) in
    let h1 = Kept-Stuck now s s1 k1 in
    let h2 = Kept-Stuck now s s2 k2 in
    let (b3, c3, d3, e3, f3) = Kept-Stuck now s s3 k3 in
    rw idle (
      choice-Ends (not (attempts connect 3 0 s0).0) s _ _ (failed-Stuck now s s1 h1) (
        choice-Ends (not (attempts subscribe 3 0 s1).0) s _ _ h2 (
          choice-Ends (not (attempts authorize 3 0 s2).0) s _ _ (b3, c3, d3, e3, f3)
            (refl, refl, refl, e3, ap (λ x. (x + 1) % 2 ^ 64) f3))))

failure_case : (s : Session) (r : Bool × Session) → Ends s r → r.0 ≡ false → Stuck s r.1
failure_case s (true, t) h e = absurd (ground arith)
failure_case s (false, t) h e = h

choice-true : (b : Bool) (x y : Bool × Session) → b ≡ true → (if b then x else y) ≡ x
choice-true true x y h = refl
choice-true false x y h = absurd (ground arith)

busy_returns :
    (connect subscribe authorize : ℕ → Conn → Bool × Conn) (now : ℕ) (s : Session)
    → s.reauth_in_progress ≡ true
    → stratum_reauthenticate connect subscribe authorize true now s ≡ (true, s)
unfolding stratum_reauthenticate
busy_returns connect subscribe authorize now s busy = choice-true s.reauth_in_progress _ _ busy

-- After a call that failed, each later call returns true and does nothing: no attempt is made, and
-- the stratum stays marked as down.
pub reauthenticate-Stuck :
    (connect subscribe authorize : ℕ → Conn → Bool × Conn) (now : ℕ) (s : Session)
    (connect1 subscribe1 authorize1 : ℕ → Conn → Bool × Conn) (later : ℕ)
    → s.reauth_in_progress ≡ false
    → (stratum_reauthenticate connect subscribe authorize true now s).0 ≡ false
    → let t = (stratum_reauthenticate connect subscribe authorize true now s).1 in
      (stratum_reauthenticate connect1 subscribe1 authorize1 true later t ≡ (true, t))
      × (t.stratum_down ≡ true)
reauthenticate-Stuck connect subscribe authorize now s connect1 subscribe1 authorize1 later idle
      failed =
    let (busy, suspended, down, job, epoch) =
      failure_case s (stratum_reauthenticate connect subscribe authorize true now s)
        (reauthenticate-Ends connect subscribe authorize now s idle) failed in
    (busy_returns connect1 subscribe1 authorize1 later _ busy, down)

pub reauthenticate-Resumed :
    (connect subscribe authorize : ℕ → Conn → Bool × Conn) (now : ℕ) (s : Session)
    → s.reauth_in_progress ≡ false
    → (stratum_reauthenticate connect subscribe authorize true now s).0 ≡ true
    → Resumed s (stratum_reauthenticate connect subscribe authorize true now s).1
reauthenticate-Resumed connect subscribe authorize now s idle worked =
    success_case s _ (reauthenticate-Ends connect subscribe authorize now s idle) worked
  where
    success_case : (s : Session) (r : Bool × Session) → Ends s r → r.0 ≡ true → Resumed s r.1
    success_case s (true, t) h e = h
    success_case s (false, t) h e = absurd (ground (arith, e))

not_given :
    (connect subscribe authorize : ℕ → Conn → Bool × Conn) (now : ℕ) (s : Session)
    → stratum_reauthenticate connect subscribe authorize false now s ≡ (false, s)
unfolding stratum_reauthenticate
not_given connect subscribe authorize now s = refl

-- A call that returns true resumed the session, or found another call in progress and did nothing.
pub success_ends :
    (connect subscribe authorize : ℕ → Conn → Bool × Conn) (given : Bool) (now : ℕ) (s : Session)
    → let r = stratum_reauthenticate connect subscribe authorize given now s in
      r.0 ≡ true → Resumed s r.1 ⊎ ((s.reauth_in_progress ≡ true) × (r.1 ≡ s))
success_ends connect subscribe authorize false now s worked = absurd (
    ground (
      arith,
      sym worked ∙ ap (λ (r : Bool × Session). r.0) (not_given connect subscribe authorize now s),
    ))
success_ends connect subscribe authorize true now s worked =
    elim (Bool-cases s.reauth_in_progress) [
      | inl busy ↦ inr (
        busy,
        ap (λ (r : Bool × Session). r.1) (busy_returns connect subscribe authorize now s busy),
      )
      | inr idle ↦ inl (reauthenticate-Resumed connect subscribe authorize now s idle worked)
    ]

-- Where a call returns true, submissions run, or it did nothing.
pub success_cases :
    (connect subscribe authorize : ℕ → Conn → Bool × Conn) (given : Bool) (now : ℕ) (s : Session)
    → let r = stratum_reauthenticate connect subscribe authorize given now s in
      r.0 ≡ true → (r.1.solution_submission_suspended ≡ false) ⊎ (r.1 ≡ s)
success_cases connect subscribe authorize given now s worked =
    elim (success_ends connect subscribe authorize given now s worked) [
      | inl resumed ↦ inl resumed.1
      | inr (busy, same) ↦ inr same
    ]
