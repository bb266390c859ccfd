-- ===== src/Methods/Invalid.antt =====
-- soj_stratum_methods.c: a job with an invalid Merkle branch.
use soj_civic_light.Prelude.{ℕ, ◌≡◌, refl, true, false, Option, some, List}
use soj_civic_light.Notify.{Strings, check_strings}
use soj_civic_light.Notify.Refused.{HasBad, refused_branches}
use soj_civic_light.Methods.{World, Client, read_params, pool_of, notify_method}

module _ (w : World) where
  -- A job whose strings are all valid, and one of whose Merkle branches is not a string of 64
  -- characters, is refused, and all the same the connection is marked as having a new job: it is the job
  -- of before, with its id, its coinbase and its previous hash, but without Merkle branches.
  pub invalid_branch-new_job :
      (junk fresh : List ℕ) (params : Option w.json.Value) (c : Client)
      (branches : List (Option (List ℕ))) (t : Strings)
      → (read_params w params).merkle ≡ some branches
      → check_strings (read_params w params) ≡ some t
      → HasBad branches
      → let (ret, q) = notify_method w junk fresh params c in
        (ret ≡ false)
        × (q.conn.new_job ≡ true)
        × (q.conn.job_id ≡ c.conn.job_id)
        × (q.job.coinbase ≡ c.job.coinbase)
        × (q.job.prevhash ≡ c.job.prevhash)
        × (q.job.merkle_count ≡ 0)
  unfolding notify_method
  invalid_branch-new_job junk fresh params c branches t listed valid bad =
      let (ret, job_id, coinbase, prevhash, count) =
        refused_branches junk fresh (read_params w params) (pool_of w c) branches t listed valid
          bad in
      (ret, refl, job_id, coinbase, prevhash, count)
