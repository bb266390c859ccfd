-- ===== src/Response.antt =====
-- soj.c: `stratum_handle_response` and `share_result`, what the miner does with a response of the pool:
-- it counts shares, counts errors, and renews the session where an error calls for it.
-- Left out: the log and the message of a refused share, which is only printed. The two counters of
-- errors in a row are taken not to overflow.
pub mod Changes
pub mod Cycles
pub mod Watched
pub mod Epoch
mod Tests
use soj_civic_light.Prelude.{
  ℕ, zero, suc, ◌+◌, ◌%◌, ◌^◌, Bool, true, false, ◌&&◌, ◌||◌, Option, none, some, List, [], ◌∷◌,
  ltb, ◌==◌, if◌then◌else◌,
}
use soj_civic_light.Line.{Conn}
use soj_civic_light.Reauth.{Session, stratum_reauthenticate}
use soj_civic_light.Backoff.{Guard, restart_threads}
use soj_civic_light.Json.{Jansson, at_least}

-- The globals that a response can change.
pub record Miner : Type 0 where
  pub session : Session
  pub guard : Guard
  pub reauth_epoch : ℕ
  pub g_work_time : ℕ
  pub stratum_need_reset : Bool
  pub mining_suspended_for_new_job : Bool
  pub consecutive_duplicate_errors : ℕ
  pub consecutive_incorrect_cycle_errors : ℕ
  pub accepted_share_count : ℕ
  pub rejected_share_count : ℕ

-- `strstr`, as a test.
pub starts_with : List ℕ → List ℕ → Bool
starts_with [] text = true
starts_with (c ∷ cs) [] = false
starts_with (c ∷ cs) (t ∷ text) = (c == t) && starts_with cs text

pub strstr : List ℕ → List ℕ → Bool
unfolding starts_with
strstr [] needle = starts_with needle []
strstr (t ∷ text) needle = starts_with needle (t ∷ text) || strstr text needle

-- "stale", "incorrect cycle", "job not found" and "duplicate".
abbrev pub stale : List ℕ
stale = 115 ∷ 116 ∷ 97 ∷ 108 ∷ 101 ∷ []

abbrev pub incorrect_cycle : List ℕ
incorrect_cycle =
    105 ∷ 110 ∷ 99 ∷ 111 ∷ 114 ∷ 114 ∷ 101 ∷ 99 ∷ 116 ∷ 32 ∷ 99 ∷ 121 ∷ 99 ∷ 108 ∷ 101 ∷ []

abbrev pub job_not_found : List ℕ
job_not_found = 106 ∷ 111 ∷ 98 ∷ 32 ∷ 110 ∷ 111 ∷ 116 ∷ 32 ∷ 102 ∷ 111 ∷ 117 ∷ 110 ∷ 100 ∷ []

abbrev pub duplicate : List ℕ
duplicate = 100 ∷ 117 ∷ 112 ∷ 108 ∷ 105 ∷ 99 ∷ 97 ∷ 116 ∷ 101 ∷ []

-- "id", "result", "error" and "message".
abbrev pub id_key : List ℕ
id_key = 105 ∷ 100 ∷ []

abbrev pub result_key : List ℕ
result_key = 114 ∷ 101 ∷ 115 ∷ 117 ∷ 108 ∷ 116 ∷ []

abbrev pub error_key : List ℕ
error_key = 101 ∷ 114 ∷ 114 ∷ 111 ∷ 114 ∷ []

abbrev pub message_key : List ℕ
message_key = 109 ∷ 101 ∷ 115 ∷ 115 ∷ 97 ∷ 103 ∷ 101 ∷ []

pub share_result : Bool → Miner → Miner
share_result accepted m =
    if accepted
    then record m { accepted_share_count = (m.accepted_share_count + 1) % 2 ^ 32 }
    else record m { rejected_share_count = (m.rejected_share_count + 1) % 2 ^ 32 }

-- The end of the function: the result of a submission.
pub handle_result : (has_result is_submission accepted : Bool) → Miner → Bool × Miner
unfolding share_result
handle_result has_result is_submission accepted m =
    let counted = share_result accepted m in
    if has_result && is_submission
    then (
      true,
      if accepted
          then record counted {
            consecutive_duplicate_errors = 0;
            consecutive_incorrect_cycle_errors = 0;
          }
          else counted,
    )
    else (false, m)

-- Whether the function returns at once, with true, or goes on.
pub data After : Type 0 where
  returns_true : Miner → After
  goes_on : Miner → After

-- The arguments of `stratum_reauthenticate`, with the time and the attempts it makes.
module _ (connect subscribe authorize : ℕ → Conn → Bool × Conn) (given : Bool) (now : ℕ) where
  -- The session after a line that is not JSON.
  pub decode_failed : Miner → Miner
  unfolding stratum_reauthenticate
  decode_failed m =
      let (worked, session) =
        stratum_reauthenticate connect subscribe authorize given now m.session in
      if worked
      then record m { session = session }
      else record m { session = session; stratum_need_reset = true }

  -- The part "Perform reauthentication if needed".
  pub renew_session : Miner → Miner
  unfolding restart_threads
  renew_session m =
      let (worked, session) =
        stratum_reauthenticate connect subscribe authorize given now m.session in
      let failed : Miner = record m { session = session; stratum_need_reset = true } in
      let renewed : Miner = record m {
        session = session;
        reauth_epoch = (m.reauth_epoch + 1) % 2 ^ 64;
        g_work_time = 0;
        guard = restart_threads m.guard;
      } in
      record (if worked then renewed else failed) { consecutive_incorrect_cycle_errors = 0 }

  -- More than two errors "incorrect cycle" in a row renew the session.
  pub count_cycle : Miner → Miner
  unfolding renew_session restart_threads
  count_cycle m =
      let count = m.consecutive_incorrect_cycle_errors + 1 in
      let counted = record m { consecutive_incorrect_cycle_errors = count } in
      if ltb 2 count
      then renew_session
          (record counted { guard = restart_threads m.guard; mining_suspended_for_new_job = true })
      else counted

  pub handle_error : (error_msg : List ℕ) → Miner → After
  unfolding strstr count_cycle renew_session
  handle_error error_msg m =
      let twice = record m { consecutive_duplicate_errors = m.consecutive_duplicate_errors + 1 } in
      let m1 = record m { consecutive_duplicate_errors = 0 } in
      if strstr error_msg stale
        || (strstr error_msg incorrect_cycle || strstr error_msg job_not_found)
      then (if strstr error_msg duplicate
          then returns_true twice
          else if strstr error_msg incorrect_cycle
          then goes_on (count_cycle m1)
          else goes_on (renew_session (record m1 { consecutive_incorrect_cycle_errors = 0 })))
      else goes_on m

  module _ (json : Jansson) where
    -- The error of a response. none: `strstr` is called with NULL.
    pub read_error : Option json.Value → Miner → Option After
    unfolding handle_error
    read_error none m = some (goes_on m)
    read_error (some err_val) m = elim (json.object_get err_val message_key) [
      | none ↦ some (goes_on m)
      | some message ↦ elim (json.string_value message) [
        | none ↦ none
        | some error_msg ↦ some (handle_error error_msg m)
      ]
    ]

    pub read_result : (id_val : json.Value) → Option json.Value → Miner → Bool × Miner
    unfolding handle_result
    read_result id_val none m = handle_result false false false m
    read_result id_val (some res_val) m =
        handle_result true (at_least 4 (json.integer_value id_val)) (json.is_true res_val) m

    pub handle_fields : (val id_val : json.Value) → Miner → Option (Bool × Miner)
    unfolding read_error read_result
    handle_fields val id_val m = elim (read_error (json.object_get val error_key) m) [
      | none ↦ none
      | some (returns_true m1) ↦ some (true, m1)
      | some (goes_on m1) ↦ some (read_result id_val (json.object_get val result_key) m1)
    ]

    -- none where the behaviour is undefined.
    pub stratum_handle_response : List ℕ → Miner → Option (Bool × Miner)
    unfolding decode_failed handle_fields
    stratum_handle_response buf m = elim (json.loads buf) [
      | none ↦ some (false, decode_failed m)
      | some val ↦ elim (json.object_get val id_key) [
        | none ↦ some (false, m)
        | some id_val ↦ if json.is_null id_val then some (false, m) else handle_fields val id_val m
      ]
    ]
