-- ===== src/Backoff/Tests.antt =====
-- util.c: a backoff at second 1000 of two threads, and a wait from second 1003 on.
use soj_civic_light.Prelude.{
  choice, ◌+◌, ◌%◌, ◌≤◌, ◌<◌, ◌≡◌, ltb, if◌then◌else◌, ℕ, refl, true, false, some, [], ◌∷◌, arith,
  All,
}
use soj_civic_light.Line.Limits.{next_boundary-lt}
use soj_civic_light.Backoff.{Guard, activate_protection_backoff, enforce_backoff_wait_if_needed}
use soj_civic_light.Backoff.Wait.{Over, backoff-wait_ends}

abbrev guard : Guard
guard = record { pause_until = 0; restart = false ∷ true ∷ [] }

waits_in_slices : enforce_backoff_wait_if_needed (λ k s. s) (λ k. 1015) 4 0 1003 ≡ some (3, 1015)
unfolding enforce_backoff_wait_if_needed
waits_in_slices = refl

-- Each sleep lasts one second, and a thread moves the pause from 1020 to 1200 in the sixth turn.
abbrev moved : ℕ → ℕ
moved k = if ltb k 6 then 1020 else 1200

moved_le : (k : ℕ) → moved k ≤ (activate_protection_backoff 1000 guard).pause_until
unfolding activate_protection_backoff
moved_le k =
    let (whole, later, soon) = next_boundary-lt 1000 in
    let enough : 1200 ≤ (activate_protection_backoff 1000 guard).pause_until =
      omega (arith, whole, later) in
    choice (λ x. x ≤ (activate_protection_backoff 1000 guard).pause_until) (ltb k 6) 1020 1200
      (omega (arith, enough)) enough

backoff-wait_ends_example :
    let g1 = activate_protection_backoff 1000 guard in
    All (λ r. r ≡ true) g1.restart
    × (g1.pause_until % 240 ≡ 0)
    × (1000 < g1.pause_until)
    × (g1.pause_until ≤ 1000 + 240)
    × ((e : ℕ × ℕ) × (enforce_backoff_wait_if_needed (λ k s. 1) moved 238 0 1003 ≡ some e)
        × Over moved 1003 e)
backoff-wait_ends_example =
    backoff-wait_ends (λ k s. 1) moved 1000 1003 guard (λ j s h. omega arith) moved_le
