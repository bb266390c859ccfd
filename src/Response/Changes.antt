-- ===== src/Response/Changes.antt =====
-- soj.c: the changes that one response can make, as a relation.
use soj_civic_light.Prelude.{
  ℕ, ◌+◌, ◌%◌, ◌^◌, ◌≡◌, refl, sym, inl, inr, Option-cases, subst, Bool, true, false, ◌&&◌, ◌||◌,
  Option, none, some, List, ltb, if◌then◌else◌, choice,
}
use soj_civic_light.Line.{Conn}
use soj_civic_light.Reauth.{Session, stratum_reauthenticate}
use soj_civic_light.Backoff.{restart_threads}
use soj_civic_light.Json.{Jansson, at_least}
use soj_civic_light.Response.{
  Miner, strstr, stale, incorrect_cycle, job_not_found, duplicate, share_result, handle_result,
  After, returns_true, goes_on, decode_failed, renew_session, count_cycle, handle_error, read_error,
  read_result, handle_fields, stratum_handle_response, id_key, error_key, message_key, result_key,
}

-- What holds of the program that a call leaves, where its behaviour is defined.
abbrev pub Leaves : (Miner → Type 0) → Option (Bool × Miner) → Type 0
Leaves P none = Unit
Leaves P (some (ret, m)) = P m

-- The four counters, with new values.
abbrev pub counts : (twice cycles accepted rejected : ℕ) → Miner → Miner
counts twice cycles accepted rejected m = record m {
  consecutive_duplicate_errors = twice;
  consecutive_incorrect_cycle_errors = cycles;
  accepted_share_count = accepted;
  rejected_share_count = rejected;
}

-- The threads are told to start again, and `mining_suspended_for_new_job` is set.
abbrev pub stop : Miner → Miner
stop m = record m { guard = restart_threads m.guard; mining_suspended_for_new_job = true }

module _ (connect subscribe authorize : ℕ → Conn → Bool × Conn) (given : Bool) (now : ℕ) where
  abbrev renew : Miner → Miner
  renew = renew_session connect subscribe authorize given now

  -- Counters aside, a response changes nothing, or the session is renewed, in one of three ways.
  pub data Changes (m : Miner) : Miner → Type 0 where
    counted : (d c a r : ℕ) → Changes m (counts d c a r m)
    undecoded :
        (d c a r : ℕ)
        → Changes m (counts d c a r (decode_failed connect subscribe authorize given now m))
    renewed :
        (d c a r : ℕ)
        → Changes m (counts d c a r (renew_session connect subscribe authorize given now m))
    stopped :
        (d c a r : ℕ)
        → Changes m (counts d c a r (renew_session connect subscribe authorize given now (stop m)))

  recount : {m q : Miner} (d c a r : ℕ) → Changes m q → Changes m (counts d c a r q)
  recount d c a r (counted d' c' a' r') = counted d c a r
  recount d c a r (undecoded d' c' a' r') = undecoded d c a r
  recount d c a r (renewed d' c' a' r') = renewed d c a r
  recount d c a r (stopped d' c' a' r') = stopped d c a r

  unchanged : (m : Miner) → Changes m m
  unchanged m =
      counted m.consecutive_duplicate_errors m.consecutive_incorrect_cycle_errors
        m.accepted_share_count m.rejected_share_count

  failure : (m : Miner) → Changes m (decode_failed connect subscribe authorize given now m)
  failure m =
      let q = decode_failed connect subscribe authorize given now m in
      undecoded q.consecutive_duplicate_errors q.consecutive_incorrect_cycle_errors
        q.accepted_share_count q.rejected_share_count

  -- What the counters are does not matter to a renewal.
  renew-counts : (d c a r : ℕ) (m : Miner) → renew (counts d c a r m) ≡ counts d 0 a r (renew m)
  unfolding renew_session
  renew-counts d c a r m =
      by_result (stratum_reauthenticate connect subscribe authorize given now m.session).0 _
    where
      by_result :
          (worked : Bool) (session : Session)
          → record (if worked
              then record (counts d c a r m) {
                session = session;
                reauth_epoch = (m.reauth_epoch + 1) % 2 ^ 64;
                g_work_time = 0;
                guard = restart_threads m.guard;
              }
              else record (counts d c a r m) { session = session; stratum_need_reset = true }) {
                consecutive_incorrect_cycle_errors = 0;
              }
            ≡ counts d 0 a r
                (record (if worked
                  then record m {
                    session = session;
                    reauth_epoch = (m.reauth_epoch + 1) % 2 ^ 64;
                    g_work_time = 0;
                    guard = restart_threads m.guard;
                  }
                  else record m { session = session; stratum_need_reset = true }) {
                    consecutive_incorrect_cycle_errors = 0;
                  })
      by_result true session = refl
      by_result false session = refl

  -- The program that either end of the handling of an error leaves.
  abbrev left : After → Miner
  left (returns_true m) = m
  left (goes_on m) = m

  abbrev LeftBy : Miner → Option After → Type 0
  LeftBy m none = Unit
  LeftBy m (some a) = Changes m (left a)

  count_cycle-Changes :
      (d : ℕ) (m : Miner)
      → Changes m (
          count_cycle connect subscribe authorize given now
            (record m { consecutive_duplicate_errors = d }))
  unfolding count_cycle
  count_cycle-Changes d m =
      let c = m.consecutive_incorrect_cycle_errors + 1 in
      choice (Changes m) (ltb 2 c) _ _
        (subst (Changes m)
          (sym (renew-counts d c m.accepted_share_count m.rejected_share_count (stop m)))
          (stopped d 0 m.accepted_share_count m.rejected_share_count))
        (counted d c m.accepted_share_count m.rejected_share_count)

  handle_error-Changes :
      (error_msg : List ℕ) (m : Miner)
      → Changes m (left (handle_error connect subscribe authorize given now error_msg m))
  unfolding handle_error
  handle_error-Changes error_msg m =
      let m1 = record m { consecutive_duplicate_errors = 0 } in
      let cycles = goes_on (count_cycle connect subscribe authorize given now m1) in
      let others = goes_on (renew (record m1 { consecutive_incorrect_cycle_errors = 0 })) in
      let again =
        returns_true
          (record m { consecutive_duplicate_errors = m.consecutive_duplicate_errors + 1 }) in
      let by_cycle = if strstr error_msg incorrect_cycle then cycles else others in
      let by_text = if strstr error_msg duplicate then again else by_cycle in
      let P = λ (a : After). Changes m (left a) in
      choice P
        (strstr error_msg stale
          || (strstr error_msg incorrect_cycle || strstr error_msg job_not_found))
        by_text (goes_on m)
        (choice P (strstr error_msg duplicate) again by_cycle
          (counted (m.consecutive_duplicate_errors + 1) m.consecutive_incorrect_cycle_errors
            m.accepted_share_count m.rejected_share_count)
          (choice P (strstr error_msg incorrect_cycle) cycles others (count_cycle-Changes 0 m) (
            subst (Changes m)
              (sym (renew-counts 0 0 m.accepted_share_count m.rejected_share_count m))
              (renewed 0 0 m.accepted_share_count m.rejected_share_count))))
        (unchanged m)

  handle_result-Changes :
      (m q : Miner) (has_result is_submission accepted : Bool)
      → Changes m q
      → Changes m (handle_result has_result is_submission accepted q).1
  unfolding handle_result share_result
  handle_result-Changes m q has_result is_submission true h =
      choice (λ (r : Bool × Miner). Changes m r.1) (has_result && is_submission) _ (false, q)
        (recount 0 0 ((q.accepted_share_count + 1) % 2 ^ 32) q.rejected_share_count h) h
  handle_result-Changes m q has_result is_submission false h =
      choice (λ (r : Bool × Miner). Changes m r.1) (has_result && is_submission) _ (false, q)
        (recount q.consecutive_duplicate_errors q.consecutive_incorrect_cycle_errors
          q.accepted_share_count ((q.rejected_share_count + 1) % 2 ^ 32) h)
        h

  module _ (json : Jansson) where
    read_result-Changes :
        (m q : Miner) (id_val : json.Value) (res_val : Option json.Value)
        → Changes m q
        → Changes m (read_result connect subscribe authorize given now json id_val res_val q).1
    unfolding read_result
    read_result-Changes m q id_val none h = handle_result-Changes m q false false false h
    read_result-Changes m q id_val (some res_val) h =
        handle_result-Changes m q true (at_least 4 (json.integer_value id_val))
          (json.is_true res_val) h

    after-Changes :
        (m : Miner) (id_val : json.Value) (res_val : Option json.Value) (error : Option After)
        → LeftBy m error
        → Leaves (Changes m) (elim error [
          | none ↦ none
          | some (returns_true m1) ↦ some (true, m1)
          | some (goes_on m1) ↦
              some (read_result connect subscribe authorize given now json id_val res_val m1)
        ])
    after-Changes m id_val res_val none h = tt
    after-Changes m id_val res_val (some (returns_true m1)) h = h
    after-Changes m id_val res_val (some (goes_on m1)) h = read_result-Changes m m1 id_val res_val h

    error-Changes :
        (m : Miner) (err_val : Option json.Value)
        → LeftBy m (read_error connect subscribe authorize given now json err_val m)
    unfolding read_error
    error-Changes m none = unchanged m
    error-Changes m (some err_val) = elim (Option-cases (json.object_get err_val message_key)) [
      | inl e ↦ rw (e, read_error) (unchanged m)
      | inr (message, e) ↦ elim (Option-cases (json.string_value message)) [
        | inl f ↦ rw (e, read_error, f) tt
        | inr (error_msg, f) ↦ rw (e, read_error, f) (handle_error-Changes error_msg m)
      ]
    ]

    fields-Changes :
        (m : Miner) (val id_val : json.Value)
        → Leaves (Changes m) (handle_fields connect subscribe authorize given now json val id_val m)
    unfolding handle_fields
    fields-Changes m val id_val =
        after-Changes m id_val (json.object_get val result_key)
          (read_error connect subscribe authorize given now json (json.object_get val error_key) m)
          (error-Changes m (json.object_get val error_key))

    -- A response makes one of the changes, where its behaviour is defined.
    pub response-Changes :
        (buf : List ℕ) (m : Miner)
        → Leaves
            (Changes m)
            (stratum_handle_response connect subscribe authorize given now json buf m)
    unfolding stratum_handle_response
    response-Changes buf m = elim (Option-cases (json.loads buf)) [
      | inl e ↦ rw (e, stratum_handle_response) (failure m)
      | inr (val, e) ↦ elim (Option-cases (json.object_get val id_key)) [
        | inl f ↦ rw (e, stratum_handle_response, f) (unchanged m)
        | inr (id_val, f) ↦
            rw (e, stratum_handle_response, f)
              (choice (Leaves (Changes m)) (json.is_null id_val) (some (false, m))
                (handle_fields connect subscribe authorize given now json val id_val m)
                (unchanged m) (fields-Changes m val id_val))
      ]
    ]
