-- ===== src/Response/Cycles.antt =====
-- soj.c: errors "incorrect cycle" in a row.
use soj_civic_light.Prelude.{
  ℕ, ◌+◌, ◌≡◌, refl, ap, ◌∙◌, Bool, true, false, inl, inr, Bool-cases, none, some, List,
  if◌then◌else◌, ltb, ◌||◌, All, arith,
}
use soj_civic_light.Line.{Conn}
use soj_civic_light.Reauth.{stratum_reauthenticate}
use soj_civic_light.Backoff.{restart_threads}
use soj_civic_light.Json.{Jansson}
use soj_civic_light.Response.Epoch.{all_restarted}
use soj_civic_light.Response.{
  Miner, strstr, stale, incorrect_cycle, job_not_found, duplicate, After, goes_on, handle_result,
  renew_session, count_cycle, handle_error, read_error, read_result, handle_fields,
  stratum_handle_response, id_key, result_key, error_key, message_key,
}

-- A response without a result, whose error says "incorrect cycle" and not "duplicate".
pub record IsCycleError (json : Jansson) (buf : List ℕ) : Type 0 where
  pub val : json.Value
  pub id_val : json.Value
  pub err_val : json.Value
  pub message : json.Value
  pub text : List ℕ
  pub decoded : json.loads buf ≡ some val
  pub id_there : json.object_get val id_key ≡ some id_val
  pub id_value : json.is_null id_val ≡ false
  pub error_there : json.object_get val error_key ≡ some err_val
  pub message_there : json.object_get err_val message_key ≡ some message
  pub is_text : json.string_value message ≡ some text
  pub says_cycle : strstr text incorrect_cycle ≡ true
  pub not_twice : strstr text duplicate ≡ false
  pub no_result : json.object_get val result_key ≡ none

-- Which branch an error with these texts takes.
chosen :
    (s c j d : Bool) (twice cycle other unknown : After)
    → c ≡ true
    → d ≡ false
    → (if s || (c || j) then (if d then twice else if c then cycle else other) else unknown) ≡ cycle
chosen true c j d twice cycle other unknown hc hd = rw (hc, hd) refl
chosen false c j d twice cycle other unknown hc hd = rw (hc, hd) refl

module _ (connect subscribe authorize : ℕ → Conn → Bool × Conn) (given : Bool) where
  cycle_text :
      (now : ℕ) (text : List ℕ) (m : Miner)
      → strstr text incorrect_cycle ≡ true
      → strstr text duplicate ≡ false
      → handle_error connect subscribe authorize given now text m
        ≡ goes_on (
            count_cycle connect subscribe authorize given now
              (record m { consecutive_duplicate_errors = 0 }))
  unfolding handle_error
  cycle_text now text m yes_cycle not_twice =
      chosen (strstr text stale) (strstr text incorrect_cycle) (strstr text job_not_found)
        (strstr text duplicate) _ _ _ _ yes_cycle not_twice

  cycle_response :
      (now : ℕ) (json : Jansson) (buf : List ℕ) (m : Miner)
      → IsCycleError json buf
      → stratum_handle_response connect subscribe authorize given now json buf m
        ≡ some (
          false,
          count_cycle connect subscribe authorize given now
              (record m { consecutive_duplicate_errors = 0 }),
        )
  unfolding stratum_handle_response handle_fields read_error read_result handle_result
  cycle_response now json buf m h =
      rw
        (
          h.decoded,
          stratum_handle_response,
          h.id_there,
          h.id_value,
          handle_fields,
          h.error_there,
          read_error,
          h.message_there,
          h.is_text,
          cycle_text now h.text m h.says_cycle h.not_twice,
          h.no_result,
        )
        refl

  module _ (now : ℕ) where
    first_ones :
        (m : Miner)
        → ltb 2 (m.consecutive_incorrect_cycle_errors + 1) ≡ false
        → count_cycle connect subscribe authorize given now m ≡ record m {
          consecutive_incorrect_cycle_errors = m.consecutive_incorrect_cycle_errors + 1;
        }
    unfolding count_cycle
    first_ones m few = rw (few, count_cycle) refl

    -- The miner that renews its session after one error too many.
    abbrev halted : Miner → Miner
    halted m = record m {
      consecutive_incorrect_cycle_errors = m.consecutive_incorrect_cycle_errors + 1;
      guard = restart_threads m.guard;
      mining_suspended_for_new_job = true;
    }

    one_too_many :
        (m : Miner)
        → ltb 2 (m.consecutive_incorrect_cycle_errors + 1) ≡ true
        → count_cycle connect subscribe authorize given now m
          ≡ renew_session connect subscribe authorize given now (halted m)
    unfolding count_cycle
    one_too_many m many = rw (many, count_cycle) refl

    -- What a renewal leaves of a miner whose threads start again.
    renewal_of :
        (m : Miner)
        → All (λ r. r ≡ true) m.guard.restart
        → let q = renew_session connect subscribe authorize given now m in
          (q.session ≡ (stratum_reauthenticate connect subscribe authorize given now m.session).1)
          × (q.mining_suspended_for_new_job ≡ m.mining_suspended_for_new_job)
          × (q.consecutive_incorrect_cycle_errors ≡ 0)
          × All (λ r. r ≡ true) q.guard.restart
    unfolding renew_session
    renewal_of m restarted =
        elim (Bool-cases
          (stratum_reauthenticate connect subscribe authorize given now m.session).0) [
            | inl worked ↦ rw (worked, renew_session) (refl, refl, refl, all_restarted m.guard)
            | inr failed ↦ rw (failed, renew_session) (refl, refl, refl, restarted)
          ]

  -- Of three responses in a row without a result, whose errors say "incorrect cycle" and not
  -- "duplicate", with the count of such errors at 0 before, the first two change the counters only. The
  -- third tells every mining thread to start again, sets mining_suspended_for_new_job, calls the renewal
  -- of the session once, and sets the count back to 0.
  pub three_cycles :
      (now0 now1 now2 : ℕ) (json : Jansson) (b0 b1 b2 : List ℕ) (m : Miner)
      → IsCycleError json b0
      → IsCycleError json b1
      → IsCycleError json b2
      → m.consecutive_incorrect_cycle_errors ≡ 0
      → let handle = λ (now : ℕ) (buf : List ℕ).
        stratum_handle_response connect subscribe authorize given now json buf in
        let counted = λ (n : ℕ). record m {
          consecutive_duplicate_errors = 0;
          consecutive_incorrect_cycle_errors = n;
        } in
        (q : Miner) × (handle now0 b0 m ≡ some (false, counted 1))
        × (handle now1 b1 (counted 1) ≡ some (false, counted 2))
        × (handle now2 b2 (counted 2) ≡ some (false, q))
        × (q.session ≡ (stratum_reauthenticate connect subscribe authorize given now2 m.session).1)
        × (q.mining_suspended_for_new_job ≡ true)
        × (q.consecutive_incorrect_cycle_errors ≡ 0)
        × All (λ r. r ≡ true) q.guard.restart
  three_cycles now0 now1 now2 json b0 b1 b2 m h0 h1 h2 none_yet =
      let counted = λ (n : ℕ). record m {
        consecutive_duplicate_errors = 0;
        consecutive_incorrect_cycle_errors = n;
      } in
      let zero_count = record m { consecutive_duplicate_errors = 0 } in
      let few : ltb 2 (m.consecutive_incorrect_cycle_errors + 1) ≡ false =
        ground (arith, none_yet) in
      let done : (m.consecutive_incorrect_cycle_errors + 1) ≡ 1 = omega (arith, none_yet) in
      let (session, suspended, cycles, restarted) =
        renewal_of now2 (halted now2 (counted 2)) (all_restarted m.guard) in
      (
        renew_session connect subscribe authorize given now2 (halted now2 (counted 2)),
        cycle_response now0 json b0 m h0
            ∙ ap (λ q. some (false, q)) (first_ones now0 zero_count few ∙ ap counted done),
        cycle_response now1 json b1 (counted 1) h1
            ∙ ap (λ q. some (false, q)) (first_ones now1 (counted 1) refl),
        cycle_response now2 json b2 (counted 2) h2
            ∙ ap (λ q. some (false, q)) (one_too_many now2 (counted 2) refl),
        session,
        suspended,
        cycles,
        restarted,
      )
