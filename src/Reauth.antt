-- ===== src/Reauth.antt =====
-- soj_stratum_transport.c: `stratum_reauthenticate`. The attempts to connect, subscribe and authorize
-- are any functions on the connection.
pub mod Outcome
mod Tests
use soj_civic_light.Prelude.{
  ℕ, zero, suc, ◌+◌, ◌%◌, ◌^◌, Bool, true, false, not, ◌&&◌, Option, none, some, List, [], ltb, leb,
  if◌then◌else◌, take,
}
use soj_civic_light.Line.{Conn, stratum_disconnect}

-- The connection and the globals. `slept` is the time the calls of `sleep` took.
pub record Session : Type 0 where
  pub conn : Conn
  pub last_rejected_job_id : Option (List ℕ)
  pub reauth_in_progress : Bool
  pub solution_submission_suspended : Bool
  pub stratum_down : Bool
  pub pre_reauth_job_id : List ℕ
  pub reauth_job_rejection_epoch : ℕ
  pub last_ban_check : ℕ
  pub consecutive_failures : ℕ
  pub slept : ℕ

-- One of the three loops: up to `left` attempts, two seconds apart, from number `n` on.
pub attempts : (ℕ → Conn → Bool × Conn) → (left n : ℕ) → Session → Bool × Session
attempts step zero n s = (false, s)
attempts step (suc left) n s =
    let (worked, conn) = step n s.conn in
    let s1 = record s { conn = conn } in
    let wait = if ltb 0 left then 2 else 0 in
    let again = attempts step left (n + 1) (record s1 { slept = s1.slept + wait }) in
    if worked then (true, s1) else again

-- From the flag on: what the sequence sets before it disconnects.
pub suspend : (now : ℕ) → Session → Session
suspend now s = record s {
  reauth_in_progress = true;
  solution_submission_suspended = true;
  pre_reauth_job_id = elim s.conn.job_id [ none ↦ [] | some job ↦ take 63 job ];
  consecutive_failures = if ltb (s.last_ban_check + 300) now then 0 else s.consecutive_failures;
  last_ban_check = now;
  stratum_down = true;
}

pub clear_session : Session → Session
unfolding stratum_disconnect
clear_session s = record s {
  conn = stratum_disconnect s.conn;
  last_rejected_job_id = none;
  slept = s.slept + 3;
}

pub connect_failed : Session → Session
connect_failed s =
    let s1 = record s { consecutive_failures = s.consecutive_failures + 1 } in
    if leb 3 s1.consecutive_failures
    then record s1 { consecutive_failures = 0; slept = s1.slept + 180 }
    else s1

pub resume : Session → Session
resume s = record s {
  stratum_down = false;
  reauth_in_progress = false;
  slept = s.slept + 1;
  solution_submission_suspended = false;
  reauth_job_rejection_epoch = (s.reauth_job_rejection_epoch + 1) % 2 ^ 64;
}

pub drop_connection : Session → Session
unfolding stratum_disconnect
drop_connection s = record s { conn = stratum_disconnect s.conn }

-- `given` is that none of the four arguments is NULL.
unfoldable pub stratum_reauthenticate :
    (connect subscribe authorize : ℕ → Conn → Bool × Conn)
    → (given : Bool) → (now : ℕ) → Session
    → Bool × Session
unfolding attempts suspend clear_session connect_failed resume drop_connection
stratum_reauthenticate connect subscribe authorize given now s =
    let (connected, s1) = attempts connect 3 0 (clear_session (suspend now s)) in
    let (subscribed, s2) = attempts subscribe 3 0 s1 in
    let (authorized, s3) = attempts authorize 3 0 s2 in
    if not given
    then (false, s)
    else if s.reauth_in_progress
    then (true, s)
    else if not connected
    then (false, connect_failed s1)
    else if not subscribed
    then (false, drop_connection s2)
    else if not authorized
    then (false, drop_connection s3)
    else (true, resume s3)
