-- ===== src/Notify/Tests.antt =====
-- soj_stratum_methods.c: a job with one Merkle branch.
use soj_civic_light.Prelude.{
  ℕ, ◌+◌, ◌≡◌, refl, true, false, some, List, [], ◌∷◌, ◌++◌, arith, take, replicate, if◌then◌else◌,
}
use soj_civic_light.Hex.Spec.{decode}
use soj_civic_light.Notify.{Job, Pool, Params, Strings, is_same_job, build_coinbase, stratum_notify}
use soj_civic_light.Notify.Layout.{behind, build_coinbase-layout}
use soj_civic_light.Notify.Branches.{Taken, HasBuffers, notify-Taken}

abbrev zeros : ℕ → List ℕ
zeros n = replicate n 48

abbrev job : Job
job = record {
  prevhash = replicate 32 0;
  job_id = some (49 ∷ []);
  coinbase = [];
  xnonce2_at = 0;
  merkle_count = 0;
  merkle = [];
  version = replicate 4 0;
  nbits = replicate 4 0;
  ntime = replicate 4 0;
  clean = false;
}

abbrev pool : Pool
pool = record { job = job; xnonce1 = 1 ∷ 2 ∷ []; xnonce2_size = 2 }

-- "0a0b" and "ff".
abbrev strings : Strings
strings = record {
  job_id = 50 ∷ [];
  prevhash = zeros 64;
  coinb1 = 48 ∷ 97 ∷ 48 ∷ 98 ∷ [];
  coinb2 = 102 ∷ 102 ∷ [];
  version = zeros 8;
  nbits = zeros 8;
  stime = zeros 8;
}

abbrev params : Params
params = record {
  job_id = some strings.job_id;
  prevhash = some strings.prevhash;
  coinb1 = some strings.coinb1;
  coinb2 = some strings.coinb2;
  merkle = some (some (zeros 64) ∷ []);
  version = some strings.version;
  nbits = some strings.nbits;
  stime = some strings.stime;
  clean = true;
}

abbrev junk : List ℕ
junk = replicate 16 0xcc

abbrev fresh : List ℕ
fresh = replicate 32 0xdd

reads_coinb1 : decode strings.coinb1 ≡ some (10 ∷ 11 ∷ [])
unfolding decode
reads_coinb1 = refl

reads_coinb2 : decode strings.coinb2 ≡ some (255 ∷ [])
unfolding decode
reads_coinb2 = refl

build_coinbase-layout_example :
    build_coinbase junk pool strings
    ≡ ((10 ∷ 11 ∷ []) ++ (1 ∷ 2 ∷ []))
      ++ ((if is_same_job (some (49 ∷ [])) (50 ∷ [])
            then take 2 (behind junk [] (10 ∷ 11 ∷ []) (1 ∷ 2 ∷ []) (2 + 1))
            else replicate 2 0)
          ++ (255 ∷ []))
build_coinbase-layout_example =
    build_coinbase-layout junk pool strings (10 ∷ 11 ∷ []) (255 ∷ [])
      (omega arith, (omega arith, (omega arith, (omega arith, tt))))
      (omega arith, (omega arith, tt)) reads_coinb1 reads_coinb2 (omega arith)

notify-Taken_example :
    Taken params pool (stratum_notify junk fresh params pool)
    × HasBuffers (stratum_notify junk fresh params pool).1.job
    × ((stratum_notify junk fresh params pool).1.xnonce1 ≡ 1 ∷ 2 ∷ [])
    × ((stratum_notify junk fresh params pool).1.xnonce2_size ≡ 2)
notify-Taken_example = notify-Taken junk fresh params pool (omega arith)
