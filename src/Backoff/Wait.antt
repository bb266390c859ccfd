-- ===== src/Backoff/Wait.antt =====
-- util.c: the wait ends, and ends at the next boundary of four minutes.
use soj_civic_light.Prelude.{
  ℕ, zero, suc, ◌+◌, ◌-◌, ◌%◌, ◌≤◌, ◌<◌, ◌≡◌, ◌⊎◌, refl, Bool, true, ◌||◌, inl, inr, Bool-cases,
  some, List, [], ◌∷◌, arith, ltb, leb, ◌==◌, if◌then◌else◌, map, All,
}
use soj_civic_light.Line.{next_boundary}
use soj_civic_light.Line.Limits.{next_boundary-lt}
use soj_civic_light.Backoff.{
  Guard, restart_threads, activate_protection_backoff, enforce_backoff_wait_if_needed,
}

-- The loop ended at a turn that found no pause, or one that was over.
abbrev pub Over : (pause_until : ℕ → ℕ) → (now : ℕ) → ℕ × ℕ → Type 0
Over pause_until now (k, t) = (now ≤ t) × ((pause_until k ≡ 0) ⊎ (pause_until k ≤ t))

over_cases : (until now : ℕ) → (until == 0 || leb until now) ≡ true → (until ≡ 0) ⊎ (until ≤ now)
over_cases until now h = ground (arith, h)

wait_ends :
    (sleep : ℕ → ℕ → ℕ) (pause_until : ℕ → ℕ) (last fuel k now : ℕ)
    → ((j seconds : ℕ) → 0 < seconds → 0 < sleep j seconds)
    → ((j : ℕ) → pause_until j ≤ last)
    → last - now < fuel
    → (e : ℕ × ℕ) × (enforce_backoff_wait_if_needed sleep pause_until fuel k now ≡ some e)
      × Over pause_until now e
unfolding enforce_backoff_wait_if_needed
wait_ends sleep pause_until last zero k now passes bound enough = absurd (omega arith)
wait_ends sleep pause_until last (suc fuel) k now passes bound enough =
    let until = pause_until k in
    elim (Bool-cases (until == 0 || leb until now)) [
      | inl over ↦ rw over ((k, now), refl, (omega arith, over_cases until now over))
      | inr wait ↦
          let slice = if ltb (until - now) 5 then until - now else 5 in
          let before : now < until = ground (arith, wait) in
          let moves : 0 < slice = ground arith in
          let slept = passes k slice moves in
          let limit = bound k in
          let (e, ends, (later, reached)) =
            wait_ends sleep pause_until last fuel (k + 1) (now + sleep k slice) passes bound
              (omega (arith, slept, limit, before)) in
          rw wait (e, ends, (omega (arith, later), reached))
    ]

each_flag_set : (flags : List Bool) → All (λ r. r ≡ true) (map (λ r. true) flags)
each_flag_set [] = tt
each_flag_set (r ∷ flags) = (refl, each_flag_set flags)

-- After a backoff is activated every thread is told to restart, and the pause ends at a multiple of
-- four minutes, at most four minutes after the activation. A wait ends where no sleep is cut short
-- below a second and no value of the pause that it reads is beyond the end of that pause, as when
-- this was the last activation: with as many turns as there are seconds from its begin to 240 after
-- the activation, and one more. It ends in a turn that finds no pause or one that is over.
pub backoff-wait_ends :
    (sleep : ℕ → ℕ → ℕ) (pause_until : ℕ → ℕ) (activated now : ℕ) (g : Guard)
    → ((j seconds : ℕ) → 0 < seconds → 0 < sleep j seconds)
    → ((j : ℕ) → pause_until j ≤ (activate_protection_backoff activated g).pause_until)
    → let g1 = activate_protection_backoff activated g in
      All (λ r. r ≡ true) g1.restart
      × (g1.pause_until % 240 ≡ 0)
      × (activated < g1.pause_until)
      × (g1.pause_until ≤ activated + 240)
      × ((e : ℕ × ℕ) × (enforce_backoff_wait_if_needed sleep pause_until
              (activated + 240 - now + 1)
              0
              now
            ≡ some e)
          × Over pause_until now e)
unfolding activate_protection_backoff restart_threads
backoff-wait_ends sleep pause_until activated now g passes bound =
    let (whole, later, soon) = next_boundary-lt activated in
    (
      each_flag_set g.restart,
      whole,
      later,
      soon,
      wait_ends sleep pause_until (next_boundary activated) (activated + 240 - now + 1) 0 now passes
          bound (omega (arith, soon)),
    )
