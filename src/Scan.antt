-- ===== src/Scan.antt =====
-- algo/civiclight/civiclight.c: `scanhash_civiclight`, the loop of a mining thread over nonces, in
-- the build that hashes one header at a time and in the build that hashes two.
pub mod Loop
pub mod Result
pub mod Headers
mod Tests
use soj_civic_light.Prelude.{
  ℕ, zero, suc, ◌+◌, ◌-◌, ◌*◌, ◌/◌, ◌%◌, ◌^◌, Bool, true, false, not, ◌&&◌, List, [], ◌∷◌, ◌++◌,
  ltb, leb, ◌==◌, if◌then◌else◌, get_or, set, take, drop, map,
}
use soj_civic_light.Target.{Hash, valid_hash}
use soj_civic_light.Sha.{Ctx, sha256_ctx_init, sha256_update}
use soj_civic_light.Pow.{
  Impl, activation_time, civiclight_powhash_from_midstate, civiclight_powhash_2way_midstate,
}

-- `stats` is the global counter `civiclight_hashes`, `nonce` is `pdata[19]`, `reads` counts the reads
-- of the restart flag, and `submitted` holds the nonce and the hash of each `submit_solution`.
pub record Scan : Type 0 where
  pub n : ℕ
  pub stats_batch : ℕ
  pub stats : ℕ
  pub nonce : ℕ
  pub reads : ℕ
  pub submitted : List (ℕ × Hash)

unfoldable pub bswap_32 : ℕ → ℕ
bswap_32 w =
    w % 2 ^ 8 * 2 ^ 24
    + w / 2 ^ 8 % 2 ^ 8 * 2 ^ 16
    + w / 2 ^ 16 % 2 ^ 8 * 2 ^ 8
    + w / 2 ^ 24 % 2 ^ 8

pub civiclight_stats_add_hashes : ℕ → Scan → Scan
civiclight_stats_add_hashes count s = record s { stats = (s.stats + count) % 2 ^ 64 }

-- `restart k` is what the k-th read of `work_restart[thr_id].restart` gives.
module _ (hash_one : ℕ → Hash) (hash_two : ℕ → ℕ → Hash × Hash) (target : Hash) (bench : Bool)
    (last_nonce : ℕ) (restart : ℕ → Bool) where
  -- A condition of a loop, `test && !restart`, reads the flag only where the test holds.
  pub goes_on : Bool → Scan → Bool
  goes_on test s = test && not (restart s.reads)

  pub looked : Bool → Scan → Scan
  looked test s = if test then record s { reads = s.reads + 1 } else s

  pub count_hashes : ℕ → Scan → Scan
  unfolding civiclight_stats_add_hashes
  count_hashes k s =
      let s1 = record s { stats_batch = (s.stats_batch + k) % 2 ^ 32 } in
      if bench
      then s
      else if leb 256 s1.stats_batch
      then record (civiclight_stats_add_hashes s1.stats_batch s1) { stats_batch = 0 }
      else s1

  pub submit_valid : ℕ → Hash → Scan → Scan
  unfolding bswap_32
  submit_valid n hash s =
      if valid_hash hash target && not bench
      then record s { nonce = bswap_32 n; submitted = s.submitted ++ ((bswap_32 n, hash) ∷ []) }
      else s

  pub one_step : Scan → Scan
  unfolding count_hashes submit_valid
  one_step s =
      let next = submit_valid s.n (hash_one s.n) (count_hashes 1 s) in
      record next { n = (s.n + 1) % 2 ^ 32 }

  pub two_step : Scan → Scan
  unfolding count_hashes submit_valid
  two_step s =
      let n1 = (s.n + 1) % 2 ^ 32 in
      let (h0, h1) = hash_two s.n n1 in
      let next = submit_valid n1 h1 (submit_valid s.n h0 (count_hashes 2 s)) in
      record next { n = (s.n + 2) % 2 ^ 32 }

  -- The loops of the two builds, on fuel.
  pub oneway_loop : ℕ → Scan → Scan
  unfolding one_step goes_on looked
  oneway_loop zero s = s
  oneway_loop (suc fuel) s =
      let test = ltb s.n last_nonce in
      let rest = oneway_loop fuel (one_step (looked test s)) in
      if goes_on test s then rest else looked test s

  pub twoway_loop : ℕ → Scan → Scan
  unfolding two_step goes_on looked
  twoway_loop zero s = s
  twoway_loop (suc fuel) s =
      let test = ltb ((s.n + 1) % 2 ^ 32) last_nonce in
      let rest = twoway_loop fuel (two_step (looked test s)) in
      if goes_on test s then rest else looked test s

  -- The nonce that the pairs left over, hashed alone.
  pub odd_nonce : Scan → Scan
  unfolding goes_on looked submit_valid
  odd_nonce s =
      let test = ltb s.n last_nonce in
      let s1 = looked test s in
      let s2 = if bench then s1 else record s1 { stats_batch = (s1.stats_batch + 1) % 2 ^ 32 } in
      let next = submit_valid s.n (hash_one s.n) s2 in
      if goes_on test s then record next { n = (s.n + 1) % 2 ^ 32 } else s1

  pub flush_stats : Scan → Scan
  unfolding civiclight_stats_add_hashes
  flush_stats s =
      if not bench && not (s.stats_batch == 0)
      then civiclight_stats_add_hashes s.stats_batch s
      else s

  -- The scan, with `*hashes_done`. Each turn of a loop raises `n`, so `last_nonce` turns are enough.
  pub scan : Bool → ℕ → ℕ → ℕ → Scan × ℕ
  unfolding oneway_loop twoway_loop odd_nonce flush_stats
  scan oneway first_nonce nonce stats =
      let s : Scan = record {
        n = first_nonce;
        stats_batch = 0;
        stats = stats;
        nonce = nonce;
        reads = 0;
        submitted = [];
      } in
      let looped = if oneway then oneway_loop last_nonce s else twoway_loop last_nonce s in
      let done = flush_stats (odd_nonce looped) in
      (record done { nonce = done.n }, (done.n + (2 ^ 32 - first_nonce)) % 2 ^ 32)

-- The bytes of 32-bit words in memory, lowest byte first.
unfoldable pub memory : List ℕ → List ℕ
memory [] = []
memory (w ∷ ws) =
    w % 2 ^ 8 ∷ w / 2 ^ 8 % 2 ^ 8 ∷ w / 2 ^ 16 % 2 ^ 8 ∷ w / 2 ^ 24 % 2 ^ 8 ∷ memory ws

pub from_memory : List ℕ → ℕ
from_memory [] = 0
from_memory (b ∷ bs) = b + from_memory bs * 2 ^ 8

-- A hash of 32 bytes, as `valid_hash` reads it.
pub as_hash : List ℕ → Hash
unfolding from_memory
as_hash bytes = record {
  w0 = from_memory (take 8 bytes);
  w1 = from_memory (take 8 (drop 8 bytes));
  w2 = from_memory (take 8 (drop 16 bytes));
  w3 = from_memory (take 8 (drop 24 bytes));
}

-- `v128_bswap32_80` and the time that benchmark work gets.
unfoldable pub edata_of : Bool → List ℕ → List ℕ
unfolding bswap_32
edata_of bench pdata =
    let edata = map bswap_32 pdata in if bench then set edata 17 activation_time else edata

-- The header with a nonce stored in its last word.
unfoldable pub header_at : List ℕ → ℕ → List ℕ
unfolding memory
header_at edata n = memory (set edata 19 n)

module _ (iv fresh : List ℕ) (transform : List ℕ → List ℕ → List ℕ)
    (transform2 : List ℕ → List ℕ → List ℕ → List ℕ → List ℕ × List ℕ) (impl : Impl) where
  pub midstate_of : List ℕ → Ctx
  unfolding memory
  midstate_of edata =
      sha256_update iv transform (sha256_ctx_init iv transform fresh) (take 64 (memory edata))

  pub hash_nonce : List ℕ → ℕ → Hash
  unfolding midstate_of header_at as_hash
  hash_nonce edata n = as_hash (
      civiclight_powhash_from_midstate iv fresh transform transform2 impl (header_at edata n)
        (midstate_of edata))

  pub hash_nonces : List ℕ → ℕ → ℕ → Hash × Hash
  unfolding midstate_of header_at as_hash
  hash_nonces edata n0 n1 =
      let (h0, h1) =
        civiclight_powhash_2way_midstate iv fresh transform transform2 impl (header_at edata n0)
          (header_at edata n1) (midstate_of edata) in
      (as_hash h0, as_hash h1)

  -- `oneway` is the build with `CIVIC_ONEWAY`.
  pub scanhash_civiclight :
      (oneway bench : Bool)
      → List ℕ
      → Hash
      → (max_nonce : ℕ) → (restart : ℕ → Bool) → (stats : ℕ) → Scan × ℕ
  unfolding scan edata_of hash_nonce hash_nonces
  scanhash_civiclight oneway bench pdata ptarget max_nonce restart stats =
      let edata = edata_of bench pdata in
      scan (hash_nonce edata) (hash_nonces edata) ptarget bench
        ((max_nonce + (2 ^ 32 - 1)) % 2 ^ 32) restart oneway (get_or pdata 19 0) (get_or pdata 19 0)
        stats
