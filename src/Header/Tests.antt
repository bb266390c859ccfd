-- ===== src/Header/Tests.antt =====
-- soj_protocol.c: the theorems at a small job, with a stand-in for the compression.
use soj_civic_light.Prelude.{
  ℕ, ◌+◌, ◌*◌, ◌%◌, ◌≡◌, refl, ◌^◌, true, false, some, List, [], ◌∷◌, ◌++◌, take, replicate, get_or,
  arith,
}
use soj_civic_light.Hex.Encode.{encode}
use soj_civic_light.Sha.{be32}
use soj_civic_light.Sha.Digest.{digest}
use soj_civic_light.Scan.{memory, bswap_32, edata_of, header_at}
use soj_civic_light.Notify.{Job}
use soj_civic_light.Header.Merkle.{Starts, twice, merkle_root, gen_merkle_root-Starts}
use soj_civic_light.Header.Layout.{swap4, IsSized, extraheader-bytes}
use soj_civic_light.Header.Request.{whole_text, build_stratum_request-text}
use soj_civic_light.Header.{
  Share, Words, sha256d_gen_merkle_root, sha256_gen_merkle_root, std_build_extraheader,
  std_le_build_stratum_request, std_be_build_stratum_request, std_le_work_decode,
}

abbrev mix : List ℕ → List ℕ → List ℕ
mix st b = (get_or st 0 0 + get_or b 0 0) % 256 ∷ replicate 7 (get_or b 15 0)

abbrev iv : List ℕ
iv = replicate 8 1

abbrev junk : List ℕ
junk = replicate 64 0xcc

abbrev job : Job
job = record {
  prevhash = replicate 28 7 ++ (1 ∷ 2 ∷ 3 ∷ 4 ∷ []);
  job_id = some (97 ∷ []);
  coinbase = 9 ∷ 8 ∷ [];
  xnonce2_at = 0;
  merkle_count = 1;
  merkle = replicate 32 5 ∷ replicate 32 6 ∷ [];
  version = 0 ∷ 0 ∷ 0 ∷ 32 ∷ [];
  nbits = 29 ∷ 0 ∷ 255 ∷ 255 ∷ [];
  ntime = 104 ∷ 0 ∷ 0 ∷ 1 ∷ [];
  clean = true;
}

job-IsSized : IsSized job
job-IsSized = record {
  version = (refl, omega arith);
  prevhash = (refl, omega arith);
  ntime = (refl, omega arith);
  nbits = (refl, omega arith);
  branches = (refl, tt);
}

gen_merkle_root-Starts_example :
    Starts
      (sha256d_gen_merkle_root iv junk mix (replicate 64 0) job)
      (merkle_root iv mix (twice iv mix job.coinbase) (replicate 32 5 ∷ []))
    × Starts
        (sha256_gen_merkle_root iv junk mix (replicate 64 0) job)
        (merkle_root iv mix (digest iv mix job.coinbase) (replicate 32 5 ∷ []))
gen_merkle_root-Starts_example =
    gen_merkle_root-Starts iv junk mix refl refl (λ st b. refl) (replicate 64 0) job refl (refl, tt)

extraheader-bytes_example :
    header_at (edata_of false (take 20 (std_build_extraheader iv junk mix true job))) 258
    ≡ swap4 job.version
      ++ (swap4 job.prevhash
          ++ (merkle_root iv mix (twice iv mix job.coinbase) (take 1 job.merkle)
              ++ (swap4 job.ntime ++ (swap4 job.nbits ++ memory (258 ∷ [])))))
extraheader-bytes_example =
    extraheader-bytes iv junk mix refl refl (λ st b. refl) true job 258 job-IsSized

abbrev share : Share
share = record {
  words = replicate 17 0 ++ (5 ∷ 6 ∷ 2 ^ 24 * 3 ∷ []);
  job_id = 97 ∷ [];
  xnonce2 = 0 ∷ 1 ∷ [];
  user = 98 ∷ [];
}

build_stratum_request-text_example :
    (std_le_build_stratum_request (λ n. some (replicate n 0)) (replicate 9 1) share
      ≡ some (whole_text share (encode (0 ∷ 1 ∷ [])) (encode (memory (5 ∷ []))) (encode (be32 3))))
    × (std_be_build_stratum_request (λ n. some (replicate n 0)) (replicate 9 1) share
        ≡ some
            (whole_text share (encode (0 ∷ 1 ∷ [])) (encode (be32 5)) (encode (memory (3 ∷ [])))))
unfolding bswap_32
build_stratum_request-text_example =
    build_stratum_request-text (λ n. some (replicate n 0)) (replicate 9 1) (replicate 5 0) share 3
      refl refl refl (omega arith) (omega arith) refl (omega arith) (omega arith)

abbrev work : Words
work = record { words = replicate 48 (2 ^ 24); target = replicate 8 1 }

-- A work in the order of the processor stays as it is.
le_decode : (std_le_work_decode work).words ≡ replicate 48 (2 ^ 24)
unfolding std_le_work_decode memory
le_decode = refl
