-- ===== src/Jobs/Tests.antt =====
-- soj_work.c and soj.c: the second of four threads gets work and scans.
use soj_civic_light.Prelude.{
  ℕ, ◌+◌, ◌-◌, ◌^◌, ◌≤◌, ◌<◌, ◌≡◌, refl, true, inl, none, some, List, [], ◌∷◌, arith, replicate,
  set,
}
use soj_civic_light.Jobs.{
  Work, nonce_of, first_nonce, end_nonce, needs_new_work, std_get_new_work, max_nonce_of,
}
use soj_civic_light.Jobs.Ranges.{
  InRange, first_nonce-end_nonce, get_new_work-InRange, round-InRange,
}

abbrev strtoul : List ℕ → ℕ
strtoul s = 0

abbrev old_work : Work
old_work = record { words = replicate 20 0; job_id = none }

abbrev new_work : Work
new_work = record { words = replicate 20 7; job_id = some (65 ∷ []) }

needs_it : needs_new_work strtoul true old_work new_work 0 ≡ true
unfolding needs_new_work
needs_it = refl

first_nonce-end_nonce_example :
    (first_nonce 4 1 < end_nonce 4 1)
    × (end_nonce 4 1 + 0x20 ≤ first_nonce 4 2)
    × (first_nonce 4 2 < end_nonce 4 2)
    × (end_nonce 4 2 < 2 ^ 32 - 0x20)
first_nonce-end_nonce_example =
    first_nonce-end_nonce 4 1 2 (omega arith) (omega arith) (omega arith)

get_new_work-InRange_example :
    InRange 4 1
      (std_get_new_work strtoul true 4 1 old_work new_work 0).0
      (std_get_new_work strtoul true 4 1 old_work new_work 0).1
get_new_work-InRange_example =
    get_new_work-InRange strtoul true 4 1 old_work new_work 0 (omega arith) (omega arith) refl
      (inl needs_it)

abbrev in_range : Work
in_range = record { words = set (replicate 20 7) 19 0x40000000; job_id = some (65 ∷ []) }

at_start : InRange 4 1 in_range 0x7fffffde
unfolding first_nonce end_nonce
at_start = record { words = refl; range_end = refl; low = omega arith; high = omega arith }

room_for_three : 3 ≤ max_nonce_of (nonce_of in_range) 10 0x7fffffde - 1 - nonce_of in_range
unfolding max_nonce_of
room_for_three = omega arith

round-InRange_example :
    (first_nonce 4 1 ≤ nonce_of in_range)
    × (nonce_of in_range + 3 ≤ end_nonce 4 1)
    × InRange 4 1
        (record in_range { words = set in_range.words 19 (nonce_of in_range + 3) })
        0x7fffffde
round-InRange_example =
    round-InRange 4 1 10 3 in_range 0x7fffffde (omega arith) (omega arith) at_start room_for_three
