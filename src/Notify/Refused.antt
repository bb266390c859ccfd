-- ===== src/Notify/Refused.antt =====
-- soj_stratum_methods.c: what `stratum_notify` leaves of a job with an invalid Merkle branch.
use soj_civic_light.Prelude.{
  ℕ, ◌≡◌, ◌==◌, ◌⊎◌, inl, inr, [], ◌∷◌, refl, Bool, true, false, Option, none, some, List, ltb,
  if◌then◌else◌, length, replicate,
}
use soj_civic_light.Notify.{
  Pool, Params, Strings, check_strings, read_branches, take_job, stratum_notify,
}

-- A branch that is not a string of 64 characters, and a list with one.
abbrev IsBad : Option (List ℕ) → Type 0
IsBad none = Unit
IsBad (some s) = (length s == 64) ≡ false

abbrev pub HasBad : List (Option (List ℕ)) → Type 0
HasBad [] = ⊥
HasBad (s ∷ ss) = IsBad s ⊎ HasBad ss

not_if :
    (b : Bool) (x y : Bool × List (List ℕ))
    → x.0 ≡ false
    → y.0 ≡ false
    → (if b then x else y).0 ≡ false
not_if true x y h k = h
not_if false x y h k = k

read_branches-HasBad :
    (ss : List (Option (List ℕ))) (bufs : List (List ℕ))
    → HasBad ss
    → (read_branches ss bufs).0 ≡ false
unfolding read_branches
read_branches-HasBad [] bufs h = absurd h
read_branches-HasBad (s ∷ ss) [] h = refl
read_branches-HasBad (none ∷ ss) (m ∷ ms) h = refl
read_branches-HasBad (some s ∷ ss) (m ∷ ms) (inl bad) = rw bad refl
read_branches-HasBad (some s ∷ ss) (m ∷ ms) (inr rest) =
    not_if (length s == 64) _ (false, m ∷ ms) (read_branches-HasBad ss ms rest) refl

pub refused_branches :
    (junk fresh : List ℕ) (p : Params) (pool : Pool) (branches : List (Option (List ℕ)))
    (t : Strings)
    → p.merkle ≡ some branches
    → check_strings p ≡ some t
    → HasBad branches
    → let r = stratum_notify junk fresh p pool in
      (r.0 ≡ false)
      × (r.1.job.job_id ≡ pool.job.job_id)
      × (r.1.job.coinbase ≡ pool.job.coinbase)
      × (r.1.job.prevhash ≡ pool.job.prevhash)
      × (r.1.job.merkle_count ≡ 0)
unfolding stratum_notify take_job
refused_branches junk fresh p pool branches t listed valid bad =
    let bufs =
      if ltb (length pool.job.merkle) (length branches)
      then replicate (length branches) fresh
      else pool.job.merkle in
    rw (listed, stratum_notify, valid, take_job, read_branches-HasBad branches bufs bad)
      (refl, refl, refl, refl, refl)
