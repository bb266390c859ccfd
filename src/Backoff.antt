-- ===== src/Backoff.antt =====
-- util.c: `activate_protection_backoff` and `enforce_backoff_wait_if_needed`, and soj.c:
-- `restart_threads`. The time is a parameter; the logging is left out.
pub mod Wait
mod Tests
use soj_civic_light.Prelude.{
  ℕ, zero, suc, ◌+◌, ◌-◌, Bool, true, false, ◌||◌, Option, none, some, List, ltb, leb, ◌==◌,
  if◌then◌else◌, map,
}
use soj_civic_light.Line.{next_boundary}

-- `pause_until_time` and the restart flag of each thread.
pub record Guard : Type 0 where
  pub pause_until : ℕ
  pub restart : List Bool

unfoldable pub restart_threads : Guard → Guard
restart_threads g = record g { restart = map (λ r. true) g.restart }

pub activate_protection_backoff : (now : ℕ) → Guard → Guard
unfolding restart_threads
activate_protection_backoff now g = restart_threads (record g { pause_until = next_boundary now })

-- The waiting loop from turn `k` on. Turn `k` reads `pause_until k` of the variable that other threads
-- move, and a sleep of some seconds in it takes `sleep k seconds`. The result is the turn and the time
-- at which the loop ends, none if the fuel runs out.
pub enforce_backoff_wait_if_needed :
    (sleep : ℕ → ℕ → ℕ) → (pause_until : ℕ → ℕ) → (fuel k now : ℕ) → Option (ℕ × ℕ)
enforce_backoff_wait_if_needed sleep pause_until zero k now = none
enforce_backoff_wait_if_needed sleep pause_until (suc fuel) k now =
    let until = pause_until k in
    let remaining = until - now in
    let slice = if ltb remaining 5 then remaining else 5 in
    let rest =
      enforce_backoff_wait_if_needed sleep pause_until fuel (k + 1) (now + sleep k slice) in
    if until == 0 || leb until now then some (k, now) else rest
