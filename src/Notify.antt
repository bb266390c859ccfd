-- ===== src/Notify.antt =====
-- soj_stratum_methods.c: `stratum_notify`, which takes a job from the parameters of mining.notify.
-- What jansson reads from the parameters is given: a string that is not there is none. The locks,
-- the height of the block and the difficulty are left out.
pub mod Layout
pub mod Branches
pub mod Refused
mod Tests
use soj_civic_light.Prelude.{
  ℕ, zero, suc, ◌+◌, ◌-◌, ◌/◌, Bool, true, false, not, ◌&&◌, ◌||◌, Option, none, some, List, [],
  ◌∷◌, ◌++◌, ltb, ◌==◌, ◌>>=◌, if◌then◌else◌, length, take, drop, replicate,
}
use soj_civic_light.Hex.{hex2bin}
use soj_civic_light.Pow.{same_bytes}

-- `merkle` has `merkle_buf_size` buffers.
pub record Job : Type 0 where
  pub prevhash : List ℕ
  pub job_id : Option (List ℕ)
  pub coinbase : List ℕ
  pub xnonce2_at : ℕ
  pub merkle_count : ℕ
  pub merkle : List (List ℕ)
  pub version : List ℕ
  pub nbits : List ℕ
  pub ntime : List ℕ
  pub clean : Bool

pub record Pool : Type 0 where
  pub job : Job
  pub xnonce1 : List ℕ
  pub xnonce2_size : ℕ

pub record Params : Type 0 where
  pub job_id : Option (List ℕ)
  pub prevhash : Option (List ℕ)
  pub coinb1 : Option (List ℕ)
  pub coinb2 : Option (List ℕ)
  pub merkle : Option (List (Option (List ℕ)))
  pub version : Option (List ℕ)
  pub nbits : Option (List ℕ)
  pub stime : Option (List ℕ)
  pub clean : Bool

-- The seven strings, once they are checked.
pub record Strings : Type 0 where
  pub job_id : List ℕ
  pub prevhash : List ℕ
  pub coinb1 : List ℕ
  pub coinb2 : List ℕ
  pub version : List ℕ
  pub nbits : List ℕ
  pub stime : List ℕ

unfoldable pub check_strings : Params → Option Strings
check_strings p = do
  job_id ← p.job_id
  prevhash ← p.prevhash
  coinb1 ← p.coinb1
  coinb2 ← p.coinb2
  version ← p.version
  nbits ← p.nbits
  stime ← p.stime
  if not (length prevhash == 64)
        || (not (length version == 8) || (not (length nbits == 8) || not (length stime == 8)))
      then none
      else some record {
        job_id = job_id;
        prevhash = prevhash;
        coinb1 = coinb1;
        coinb2 = coinb2;
        version = version;
        nbits = nbits;
        stime = stime;
      }

-- `hex2bin(buf, s, len)`, its result ignored.
abbrev pub stored : List ℕ → List ℕ → ℕ → List ℕ
stored buf s len = (hex2bin buf (some s) len).buf

-- The loop over the Merkle branches: whether all are valid, and the buffers.
pub read_branches : List (Option (List ℕ)) → List (List ℕ) → Bool × List (List ℕ)
read_branches [] bufs = (true, bufs)
read_branches (s ∷ ss) [] = (false, [])
read_branches (none ∷ ss) (m ∷ ms) = (false, m ∷ ms)
read_branches (some s ∷ ss) (m ∷ ms) =
    let (valid, rest) = read_branches ss ms in
    if length s == 64 then (valid, stored m s 32 ∷ rest) else (false, m ∷ ms)

-- A copy of the bytes into the buffer.
abbrev pub overlay : ℕ → List ℕ → List ℕ → List ℕ
overlay at bytes buf = take at buf ++ (bytes ++ drop (at + length bytes) buf)

pub is_same_job : Option (List ℕ) → List ℕ → Bool
is_same_job none id = false
is_same_job (some old) id = same_bytes old id

-- The block of the new size with coinb1 and the first extranonce in it. `junk` is what memory holds
-- behind a block that grew.
pub first_parts : (junk : List ℕ) → Pool → Strings → List ℕ
first_parts junk pool t =
    let n1 = length t.coinb1 / 2 in
    let n2 = length t.coinb2 / 2 in
    let size = n1 + length pool.xnonce1 + pool.xnonce2_size + n2 in
    let grown = take size (pool.job.coinbase ++ junk) in
    overlay n1 pool.xnonce1 (stored grown t.coinb1 n1)

pub reset_xnonce2 : (at size : ℕ) → (same_job : Bool) → List ℕ → List ℕ
reset_xnonce2 at size same_job buf = if same_job then buf else overlay at (replicate size 0) buf

pub last_part : (at : ℕ) → List ℕ → List ℕ → List ℕ
last_part at s buf = take at buf ++ stored (drop at buf) s (length s / 2)

pub build_coinbase : (junk : List ℕ) → Pool → Strings → List ℕ
unfolding is_same_job first_parts reset_xnonce2 last_part
build_coinbase junk pool t =
    let at = length t.coinb1 / 2 + length pool.xnonce1 in
    last_part (at + pool.xnonce2_size) t.coinb2 (
      reset_xnonce2 at pool.xnonce2_size (is_same_job pool.job.job_id t.job_id)
        (first_parts junk pool t))

-- From the version on. `fresh` is what a new buffer of 32 bytes holds.
pub take_job :
    (junk fresh : List ℕ) → List (Option (List ℕ)) → (clean : Bool) → Strings → Pool → Bool × Pool
unfolding read_branches build_coinbase
take_job junk fresh branches clean t pool =
    let job = record pool.job { version = stored pool.job.version t.version 4 } in
    let bufs =
      if ltb (length job.merkle) (length branches)
      then replicate (length branches) fresh
      else job.merkle in
    let (valid, merkle) = read_branches branches bufs in
    if valid
    then (
      true,
      record pool {
        job = record {
          prevhash = stored job.prevhash t.prevhash 32;
          job_id = some t.job_id;
          coinbase = build_coinbase junk pool t;
          xnonce2_at = length t.coinb1 / 2 + length pool.xnonce1;
          merkle_count = length branches;
          merkle = merkle;
          version = job.version;
          nbits = stored job.nbits t.nbits 4;
          ntime = stored job.ntime t.stime 4;
          clean = clean;
        };
      },
    )
    else (false, record pool { job = record job { merkle_count = 0; merkle = merkle } })

pub stratum_notify : (junk fresh : List ℕ) → Params → Pool → Bool × Pool
unfolding check_strings take_job
stratum_notify junk fresh p pool = elim p.merkle [
  | none ↦ (false, pool)
  | some branches ↦ elim (check_strings p) [
    | none ↦ (false, pool)
    | some t ↦ take_job junk fresh branches p.clean t pool
  ]
]
