-- ===== src/Response/Watched.antt =====
-- soj.c: a session that a response leaves down is marked for a reset.
use soj_civic_light.Prelude.{
  ℕ, ◌≡◌, refl, ap, ◌∙◌, subst, Bool, true, false, ◌⊎◌, inl, inr, Bool-cases, some, List,
}
use soj_civic_light.Line.{Conn}
use soj_civic_light.Reauth.{Session, stratum_reauthenticate}
use soj_civic_light.Reauth.Outcome.{success_cases}
use soj_civic_light.Json.{Jansson}
use soj_civic_light.Response.Changes.{
  stop, Changes, counted, undecoded, renewed, stopped, Leaves, response-Changes,
}
use soj_civic_light.Response.{Miner, decode_failed, renew_session, stratum_handle_response}

-- Submissions run, or the stratum thread will reset the connection.
abbrev pub IsWatched : Miner → Type 0
IsWatched m = (m.session.solution_submission_suspended ≡ false) ⊎ (m.stratum_need_reset ≡ true)

module _ (connect subscribe authorize : ℕ → Conn → Bool × Conn) (given : Bool) (now : ℕ) where
  abbrev renewal : Session → Bool × Session
  renewal s = stratum_reauthenticate connect subscribe authorize given now s

  after_success :
      (m : Miner)
      → IsWatched m
      → (renewal m.session).0 ≡ true
      → ((renewal m.session).1.solution_submission_suspended ≡ false)
        ⊎ (m.stratum_need_reset ≡ true)
  after_success m h worked =
      elim (success_cases connect subscribe authorize given now m.session worked) [
        | inl on ↦ inl on
        | inr same ↦ elim h [
          | inl on ↦ inl (ap (λ (s : Session). s.solution_submission_suspended) same ∙ on)
          | inr reset ↦ inr reset
        ]
      ]

  decode-IsWatched :
      (m : Miner) → IsWatched m → IsWatched (decode_failed connect subscribe authorize given now m)
  unfolding decode_failed
  decode-IsWatched m h = elim (Bool-cases (renewal m.session).0) [
    | inl worked ↦ rw (worked, decode_failed) (after_success m h worked)
    | inr failed ↦ rw (failed, decode_failed) (inr refl)
  ]

  renew-IsWatched :
      (m : Miner) → IsWatched m → IsWatched (renew_session connect subscribe authorize given now m)
  unfolding renew_session
  renew-IsWatched m h = elim (Bool-cases (renewal m.session).0) [
    | inl worked ↦ rw (worked, renew_session) (after_success m h worked)
    | inr failed ↦ rw (failed, renew_session) (inr refl)
  ]

  Changes-IsWatched :
      (m q : Miner) → Changes connect subscribe authorize given now m q → IsWatched m → IsWatched q
  Changes-IsWatched m q (counted d c a r) h = h
  Changes-IsWatched m q (undecoded d c a r) h = decode-IsWatched m h
  Changes-IsWatched m q (renewed d c a r) h = renew-IsWatched m h
  Changes-IsWatched m q (stopped d c a r) h = renew-IsWatched (stop m) h

  -- Where submissions run or the mark that makes the stratum thread reset the connection is set, the
  -- same is so after a response, whatever it is and whatever the attempts to renew the session do, as
  -- long as the behaviour is defined: a response that leaves submissions suspended leaves the mark.
  pub response-IsWatched :
      (json : Jansson) (buf : List ℕ) (m q : Miner) (ret : Bool)
      → stratum_handle_response connect subscribe authorize given now json buf m ≡ some (ret, q)
      → IsWatched m
      → IsWatched q
  response-IsWatched json buf m q ret e h =
      Changes-IsWatched m q
        (subst (Leaves (Changes connect subscribe authorize given now m)) e
          (response-Changes connect subscribe authorize given now json buf m))
        h
