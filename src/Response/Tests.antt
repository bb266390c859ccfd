-- ===== src/Response/Tests.antt =====
-- soj.c: the theorems at lines of a small stand-in for JSON.
use soj_civic_light.Prelude.{
  ℕ, ◌≡◌, refl, Bool, true, false, ◌==◌, inl, Option, none, some, List, [], ◌∷◌, All, if◌then◌else◌,
}
use soj_civic_light.Line.{Conn}
use soj_civic_light.Reauth.{Session, stratum_reauthenticate}
use soj_civic_light.Json.Trees.{Tree, text, number, flag, fields, missing, same, trees}
use soj_civic_light.Json.{pos, Jansson, at_least}
use soj_civic_light.Response.Cycles.{IsCycleError, three_cycles}
use soj_civic_light.Response.Watched.{IsWatched, response-IsWatched}
use soj_civic_light.Response.Epoch.{undecoded-keeps_epoch}
use soj_civic_light.Response.{
  Miner, strstr, stale, incorrect_cycle, id_key, result_key, error_key, message_key, decode_failed,
  stratum_handle_response,
}

-- A response to request 4 with an error.
abbrev error_line : List ℕ → Tree
error_line message = fields λ key.
    if same key id_key
    then number (pos 4)
    else if same key error_key
    then fields (λ k. if same k message_key then text message else missing)
    else missing

abbrev accepted_line : Tree
accepted_line = fields λ key.
    if same key id_key then number (pos 4) else if same key result_key then flag true else missing

-- Line 0 is an error "incorrect cycle", line 1 an error "stale", line 2 an accepted share.
abbrev load : List ℕ → Option Tree
load [] = none
load (n ∷ rest) =
    if n == 0
    then some (error_line incorrect_cycle)
    else if n == 1
    then some (error_line stale)
    else if n == 2
    then some accepted_line
    else none

abbrev json : Jansson
json = trees load

abbrev conn : Conn
conn = record {
  curl = true;
  sock = some 5;
  sockbuf = [];
  sockbuf_size = 2048;
  new_job = true;
  session_id = none;
  xnonce1 = some (1 ∷ []);
  xnonce1_size = 1;
  xnonce2_size = 4;
  job_id = some (65 ∷ []);
  failures = 0;
  pause_until = 0;
}

abbrev session : Session
session = record {
  conn = conn;
  last_rejected_job_id = none;
  reauth_in_progress = false;
  solution_submission_suspended = false;
  stratum_down = false;
  pre_reauth_job_id = [];
  reauth_job_rejection_epoch = 0;
  last_ban_check = 0;
  consecutive_failures = 0;
  slept = 0;
}

abbrev miner : Miner
miner = record {
  session = session;
  guard = record { pause_until = 0; restart = false ∷ false ∷ [] };
  reauth_epoch = 7;
  g_work_time = 900;
  stratum_need_reset = false;
  mining_suspended_for_new_job = false;
  consecutive_duplicate_errors = 2;
  consecutive_incorrect_cycle_errors = 0;
  accepted_share_count = 10;
  rejected_share_count = 1;
}

abbrev works : ℕ → Conn → Bool × Conn
works n c = (true, c)

abbrev fails : ℕ → Conn → Bool × Conn
fails n c = (false, c)

-- An accepted share is counted, and the errors before it no longer count.
accepts :
    stratum_handle_response works works works true 1000 json (2 ∷ []) miner
    ≡ some (true, record miner { accepted_share_count = 11; consecutive_duplicate_errors = 0 })
unfolding stratum_handle_response at_least
accepts = refl

cycle_line : IsCycleError json (0 ∷ [])
unfolding strstr
cycle_line = record {
  val = error_line incorrect_cycle;
  id_val = number (pos 4);
  err_val = fields λ k. if same k message_key then text incorrect_cycle else missing;
  message = text incorrect_cycle;
  text = incorrect_cycle;
  decoded = refl;
  id_there = refl;
  id_value = refl;
  error_there = refl;
  message_there = refl;
  is_text = refl;
  says_cycle = refl;
  not_twice = refl;
  no_result = refl;
}

abbrev handle : ℕ → List ℕ → Miner → Option (Bool × Miner)
handle now buf m = stratum_handle_response works works works true now json buf m

abbrev counted : ℕ → Miner
counted n = record miner {
  consecutive_duplicate_errors = 0;
  consecutive_incorrect_cycle_errors = n;
}

three_cycles_example :
    (q : Miner) × (handle 10 (0 ∷ []) miner ≡ some (false, counted 1))
    × (handle 20 (0 ∷ []) (counted 1) ≡ some (false, counted 2))
    × (handle 30 (0 ∷ []) (counted 2) ≡ some (false, q))
    × (q.session ≡ (stratum_reauthenticate works works works true 30 session).1)
    × (q.mining_suspended_for_new_job ≡ true)
    × (q.consecutive_incorrect_cycle_errors ≡ 0)
    × All (λ r. r ≡ true) q.guard.restart
three_cycles_example =
    three_cycles works works works true 10 20 30 json (0 ∷ []) (0 ∷ []) (0 ∷ []) miner cycle_line
      cycle_line cycle_line refl

-- A line that is not JSON, at a time when the pool does not answer.
abbrev failed : Miner
failed = decode_failed fails works works true 1000 miner

lost : stratum_handle_response fails works works true 1000 json [] miner ≡ some (false, failed)
unfolding stratum_handle_response
lost = refl

response-IsWatched_example : IsWatched failed
response-IsWatched_example =
    response-IsWatched fails works works true 1000 json [] miner failed false lost (inl refl)

undecoded-keeps_epoch_example :
    let q = decode_failed works works works true 1000 miner in
    (handle 1000 [] miner ≡ some (false, q))
    × (q.session.solution_submission_suspended ≡ false)
    × (q.session.reauth_job_rejection_epoch ≡ 1)
    × (q.reauth_epoch ≡ 7)
unfolding stratum_reauthenticate
undecoded-keeps_epoch_example =
    undecoded-keeps_epoch works works works 1000 json [] miner refl refl refl

-- An error "stale" renews the session.
abbrev after_stale : Miner
after_stale = record miner {
  session = (stratum_reauthenticate works works works true 1000 session).1;
  guard = record { pause_until = 0; restart = true ∷ true ∷ [] };
  reauth_epoch = 8;
  g_work_time = 0;
  consecutive_duplicate_errors = 0;
}
