-- ===== src/Jobs.antt =====
-- soj_work.c: `std_get_new_work`, and soj.c: the choice of the next nonces in `main_entry_thread`, the
-- part of a mining thread that decides which nonces it scans. `strtoul` is a parameter.
pub mod Ranges
mod Tests
use soj_civic_light.Prelude.{
  ℕ, zero, suc, ◌+◌, ◌-◌, ◌*◌, ◌/◌, ◌%◌, ◌^◌, Bool, true, false, not, ◌&&◌, ◌||◌, Option, none,
  some, List, ltb, leb, ◌==◌, if◌then◌else◌, get_or, set, take,
}
use soj_civic_light.Pow.{same_bytes}

-- A `struct work` as far as the choice of nonces depends on it; the strings are by value.
pub record Work : Type 0 where
  pub words : List ℕ
  pub job_id : Option (List ℕ)

abbrev pub nonce_of : Work → ℕ
nonce_of w = get_or w.words 19 0

-- The nonces of a thread, of `threads`.
pub first_nonce : (threads thr_id : ℕ) → ℕ
first_nonce threads thr_id = 0xffffffff / threads * thr_id % 2 ^ 32

pub end_nonce : (threads thr_id : ℕ) → ℕ
end_nonce threads thr_id = (0xffffffff / threads * (thr_id + 1) + (2 ^ 32 - 0x20)) % 2 ^ 32

-- `memcmp(work->data, g_work->data, 76)` is not 0: the words before the nonce differ.
pub header_differs : Work → Work → Bool
header_differs w g = not (same_bytes (take 19 w.words) (take 19 g.words))

module _ (strtoul : List ℕ → ℕ) where
  pub other_job : Option (List ℕ) → Option (List ℕ) → Bool
  other_job none job = true
  other_job (some id) none = true
  other_job (some id) (some job) = not (strtoul id == strtoul job)

  pub needs_new_work : (have_stratum : Bool) → Work → Work → ℕ → Bool
  unfolding other_job header_differs
  needs_new_work have_stratum w g end =
      (have_stratum && other_job w.job_id g.job_id) || (leb end (nonce_of w) || header_differs w g)

  -- The thread's work and the end of its nonces, from the work `g` of the program.
  pub std_get_new_work : (have_stratum : Bool) → (threads thr_id : ℕ) → Work → Work → ℕ → Work × ℕ
  unfolding needs_new_work first_nonce end_nonce
  std_get_new_work have_stratum threads thr_id w g end =
      if needs_new_work have_stratum w g end
      then (
        record g { words = set g.words 19 (first_nonce threads thr_id) },
        end_nonce threads thr_id,
      )
      else (record w { words = set w.words 19 ((nonce_of w + 1) % 2 ^ 32) }, end)

-- The bound for the next scan, for an estimate of `max64` hashes.
pub max_nonce_of : (work_nonce max64 end : ℕ) → ℕ
max_nonce_of work_nonce max64 end =
    let max = if max64 == 0 then 1000 else max64 in
    if ltb end (work_nonce + max) then end else (work_nonce + max % 2 ^ 32) % 2 ^ 32
