-- ===== src/Response/Epoch.antt =====
-- soj.c: when a response raises `reauth_epoch`, by which solutions of an old session are told.
use soj_civic_light.Prelude.{
  ℕ, ◌+◌, ◌%◌, ◌^◌, ◌≡◌, refl, Bool, true, false, ◌⊎◌, inl, inr, Bool-cases, none, some, List, [],
  ◌∷◌, All, map,
}
use soj_civic_light.Line.{Conn}
use soj_civic_light.Reauth.{Session, stratum_reauthenticate}
use soj_civic_light.Reauth.Outcome.{Resumed, reauthenticate-Resumed}
use soj_civic_light.Backoff.{Guard, restart_threads}
use soj_civic_light.Json.{Jansson}
use soj_civic_light.Response.Changes.{Changes}
use soj_civic_light.Response.{Miner, decode_failed, stratum_handle_response}

pub all_restarted : (g : Guard) → All (λ r. r ≡ true) (restart_threads g).restart
unfolding restart_threads
all_restarted g = by_list g.restart
  where
    by_list : (rs : List Bool) → All (λ r. r ≡ true) (map (λ (r : Bool). true) rs)
    by_list [] = tt
    by_list (r ∷ rs) = (refl, by_list rs)

-- The epoch is raised, all mining threads are told to start again, and the work counts as old.
abbrev pub Raised : Miner → Miner → Type 0
Raised m q =
    (q.reauth_epoch ≡ (m.reauth_epoch + 1) % 2 ^ 64)
    × All (λ r. r ≡ true) q.guard.restart
    × (q.g_work_time ≡ 0)

-- The session was resumed, or another renewal is in progress and the session is as it was.
abbrev pub RenewedOrBusy : Session → Session → Type 0
RenewedOrBusy s t = Resumed s t ⊎ ((s.reauth_in_progress ≡ true) × (t ≡ s))

module _ (connect subscribe authorize : ℕ → Conn → Bool × Conn) (given : Bool) (now : ℕ) where
  abbrev renewal : Session → Bool × Session
  renewal s = stratum_reauthenticate connect subscribe authorize given now s

  decode_keeps :
      (m : Miner)
      → (decode_failed connect subscribe authorize given now m).reauth_epoch ≡ m.reauth_epoch
  unfolding decode_failed
  decode_keeps m = elim (Bool-cases (renewal m.session).0) [
    | inl worked ↦ rw (worked, decode_failed) refl
    | inr failed ↦ rw (failed, decode_failed) refl
  ]

-- A line that is not JSON makes the miner renew its session. Where that works, while no other renewal
-- is in progress, submissions go on and the session is a new one, but the epoch is the old one.
pub undecoded-keeps_epoch :
    (connect subscribe authorize : ℕ → Conn → Bool × Conn) (now : ℕ) (json : Jansson) (buf : List ℕ)
    (m : Miner)
    → json.loads buf ≡ none
    → m.session.reauth_in_progress ≡ false
    → (stratum_reauthenticate connect subscribe authorize true now m.session).0 ≡ true
    → let q = decode_failed connect subscribe authorize true now m in
      (stratum_handle_response connect subscribe authorize true now json buf m ≡ some (false, q))
      × (q.session.solution_submission_suspended ≡ false)
      × (q.session.reauth_job_rejection_epoch ≡ (m.session.reauth_job_rejection_epoch + 1) % 2 ^ 64)
      × (q.reauth_epoch ≡ m.reauth_epoch)
unfolding stratum_handle_response decode_failed
undecoded-keeps_epoch connect subscribe authorize now json buf m bad idle worked =
    let h = reauthenticate-Resumed connect subscribe authorize now m.session idle worked in
    (
      rw (bad, stratum_handle_response) refl,
      rw (worked, decode_failed) h.1,
      rw (worked, decode_failed) h.4,
      decode_keeps connect subscribe authorize true now m,
    )
