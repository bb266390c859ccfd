-- ===== src/Notify/Branches.antt =====
-- soj_stratum_methods.c: what `stratum_notify` changes when it takes a job and when it refuses one.
use soj_civic_light.Prelude.{
  bind-some, if-some, ℕ, suc, ◌≤◌, ◌≡◌, refl, sym, ap, ◌∙◌, Bool, true, false, inl, inr, Bool-cases,
  Option-cases, Option, none, some, List, [], ◌∷◌, arith, ltb, ◌==◌, if◌then◌else◌, length,
  replicate, length-replicate,
}
use soj_civic_light.Notify.{
  Job, Pool, Params, Strings, check_strings, read_branches, take_job, stratum_notify,
}

length-read_branches :
    (ss : List (Option (List ℕ))) (bufs : List (List ℕ))
    → length (read_branches ss bufs).1 ≡ length bufs
unfolding read_branches
length-read_branches [] bufs = refl
length-read_branches (s ∷ ss) [] = refl
length-read_branches (none ∷ ss) (m ∷ ms) = refl
length-read_branches (some s ∷ ss) (m ∷ ms) = elim (Bool-cases (length s == 64)) [
  | inl fits ↦ rw fits (ap suc (length-read_branches ss ms))
  | inr other ↦ rw other refl
]

-- Each Merkle branch of the job has a buffer.
abbrev pub HasBuffers : Job → Type 0
HasBuffers job = job.merkle_count ≤ length job.merkle

-- A job is taken with the id of the message, or the job of before is kept but for its version and its
-- Merkle branches.
abbrev pub Taken : Params → Pool → Bool × Pool → Type 0
Taken p pool (true, q) = (q.job.job_id ≡ p.job_id) × (q.job.clean ≡ p.clean)
Taken p pool (false, q) =
    (q.job.job_id ≡ pool.job.job_id)
    × (q.job.coinbase ≡ pool.job.coinbase)
    × (q.job.xnonce2_at ≡ pool.job.xnonce2_at)
    × (q.job.prevhash ≡ pool.job.prevhash)
    × (q.job.nbits ≡ pool.job.nbits)
    × (q.job.ntime ≡ pool.job.ntime)

abbrev Result : Params → Pool → Bool × Pool → Type 0
Result p pool r =
    Taken p pool r
    × HasBuffers r.1.job
    × (r.1.xnonce1 ≡ pool.xnonce1)
    × (r.1.xnonce2_size ≡ pool.xnonce2_size)

buffers-le :
    (branches : List (Option (List ℕ))) (old : List (List ℕ)) (fresh : List ℕ)
    → length branches
      ≤ length
          (if ltb (length old) (length branches) then replicate (length branches) fresh else old)
buffers-le branches old fresh = ground (arith, length-replicate (length branches) fresh)

choice-Result :
    (p : Params) (b : Bool) (pool : Pool) (x y : Bool × Pool)
    → Result p pool x
    → Result p pool y
    → Result p pool (if b then x else y)
choice-Result p true pool x y hx hy = hx
choice-Result p false pool x y hx hy = hy

take_job-Result :
    (junk fresh : List ℕ) (branches : List (Option (List ℕ))) (p : Params) (t : Strings)
    (pool : Pool)
    → some t.job_id ≡ p.job_id
    → Result p pool (take_job junk fresh branches p.clean t pool)
unfolding take_job
take_job-Result junk fresh branches p t pool same =
    let bufs =
      if ltb (length pool.job.merkle) (length branches)
      then replicate (length branches) fresh
      else pool.job.merkle in
    choice-Result p (read_branches branches bufs).0 pool _ _
      (
        (same, refl),
        omega
            (arith, length-read_branches branches bufs, buffers-le branches pool.job.merkle fresh),
        refl,
        refl,
      )
      ((refl, refl, refl, refl, refl, refl), omega arith, refl, refl)

check_strings-job_id :
    (p : Params) (t : Strings) → check_strings p ≡ some t → some t.job_id ≡ p.job_id
unfolding check_strings
check_strings-job_id p t h =
    let (job_id, got, h1) = bind-some p.job_id _ t h in
    let (_, _, h2) = bind-some p.prevhash _ t h1 in
    let (_, _, h3) = bind-some p.coinb1 _ t h2 in
    let (_, _, h4) = bind-some p.coinb2 _ t h3 in
    let (_, _, h5) = bind-some p.version _ t h4 in
    let (_, _, h6) = bind-some p.nbits _ t h5 in
    let (_, _, h7) = bind-some p.stime _ t h6 in
    ap (λ (x : Strings). some x.job_id) (sym (if-some _ _ t h7)) ∙ sym got

-- stratum_notify either takes the message, with its job id and its clean flag, or returns false and
-- keeps the coinbase, the job id, the previous hash, the bits and the time of before. In both cases
-- each Merkle branch that the job counts has a buffer afterwards, and the extranonces stay as they
-- were set.
pub notify-Taken :
    (junk fresh : List ℕ) (p : Params) (pool : Pool)
    → HasBuffers pool.job
    → let r = stratum_notify junk fresh p pool in
      Taken p pool r
      × HasBuffers r.1.job
      × (r.1.xnonce1 ≡ pool.xnonce1)
      × (r.1.xnonce2_size ≡ pool.xnonce2_size)
unfolding stratum_notify
notify-Taken junk fresh p pool room = elim (Option-cases p.merkle) [
  | inl nothing ↦
      rw (nothing, stratum_notify) ((refl, refl, refl, refl, refl, refl), room, refl, refl)
  | inr (branches, listed) ↦ elim (Option-cases (check_strings p)) [
    | inl invalid ↦
        rw (listed, stratum_notify, invalid)
          ((refl, refl, refl, refl, refl, refl), room, refl, refl)
    | inr (t, valid) ↦
        rw (listed, stratum_notify, valid)
          (take_job-Result junk fresh branches p t pool (check_strings-job_id p t valid))
  ]
]
