-- ===== src/Reauth/Tests.antt =====
-- soj_stratum_transport.c: a reauthentication whose connection fails three times, and the one after it.
use soj_civic_light.Prelude.{ℕ, ◌≡◌, refl, Bool, true, false, none, some, [], ◌∷◌}
use soj_civic_light.Line.{Conn}
use soj_civic_light.Reauth.{Session, stratum_reauthenticate}
use soj_civic_light.Reauth.Outcome.{Ends, reauthenticate-Ends, reauthenticate-Stuck}

abbrev conn : Conn
conn = record {
  curl = true;
  sock = some 5;
  sockbuf = [];
  sockbuf_size = 2048;
  new_job = true;
  session_id = none;
  xnonce1 = some (1 ∷ []);
  xnonce1_size = 1;
  xnonce2_size = 4;
  job_id = some (65 ∷ 66 ∷ []);
  failures = 0;
  pause_until = 0;
}

abbrev session : Session
session = record {
  conn = conn;
  last_rejected_job_id = none;
  reauth_in_progress = false;
  solution_submission_suspended = false;
  stratum_down = false;
  pre_reauth_job_id = [];
  reauth_job_rejection_epoch = 0;
  last_ban_check = 0;
  consecutive_failures = 0;
  slept = 0;
}

abbrev works : ℕ → Conn → Bool × Conn
works n c = (true, c)

abbrev fails : ℕ → Conn → Bool × Conn
fails n c = (false, c)

fails_thrice : (stratum_reauthenticate fails works works true 1000 session).0 ≡ false
unfolding stratum_reauthenticate
fails_thrice = refl

sleeps_between : (stratum_reauthenticate fails works works true 1000 session).1.slept ≡ 7
unfolding stratum_reauthenticate
sleeps_between = refl

reauthenticate-Ends_example :
    Ends session (stratum_reauthenticate works works works true 1000 session)
reauthenticate-Ends_example = reauthenticate-Ends works works works 1000 session refl

reauthenticate-Stuck_example :
    (stratum_reauthenticate works works works true 1300
        (stratum_reauthenticate fails works works true 1000 session).1
      ≡ (true, (stratum_reauthenticate fails works works true 1000 session).1))
    × ((stratum_reauthenticate fails works works true 1000 session).1.stratum_down ≡ true)
reauthenticate-Stuck_example =
    reauthenticate-Stuck fails works works 1000 session works works works 1300 refl fails_thrice
