-- ===== src/Pow.antt =====
-- algo/civiclight/civiclight.c: the proof-of-work hash, one header at a time, from a midstate and
-- two headers at a time. The compression of SHA-256 and yespower are parameters.
pub mod Blocks
pub mod TwoWay
mod Tests
use soj_civic_light.Prelude.{
  ℕ, zero, suc, ◌+◌, ◌*◌, ◌^◌, ◌%◌, Bool, true, false, ◌&&◌, List, [], ◌∷◌, ◌++◌, leb, ◌==◌,
  if◌then◌else◌, length, set, get_or, take, drop, replicate, map, bit_or, bit_xor,
}
use soj_civic_light.Sha.{
  Ctx, store_state, sha256_ctx_init, sha256_update, sha256_final, sha256_full,
}

-- `YESPOWER_1_0`, 2048, 8 and no personalisation.
pub record Params : Type 0 where
  pub version : ℕ
  pub n : ℕ
  pub r : ℕ

abbrev pub params_v2 : Params
params_v2 = record { version = 10; n = 2048; r = 8 }

abbrev pub activation_time : ℕ
activation_time = 1784797200

-- The four yespower functions that the file can call.
pub record Yespower : Type 0 where
  pub tls : Params → List ℕ → List ℕ
  pub tls2 : Params → List ℕ → List ℕ → List ℕ × List ℕ
  pub tls_avx512 : Params → List ℕ → List ℕ
  pub tls2_avx512 : Params → List ℕ → List ℕ → List ℕ × List ℕ

pub data Mode : Type 0 where
  avx2 avx512_vl : Mode

-- `civic_yespower_impl`, `civic_yespower2_impl` and `civic_yespower_mode`.
pub record Impl : Type 0 where
  pub one : Params → List ℕ → List ℕ
  pub two : Params → List ℕ → List ℕ → List ℕ × List ℕ
  pub mode : Mode

pub select_yespower_impl : Yespower → (avx512f avx512vl allow_avx512 : Bool) → Impl
select_yespower_impl y avx512f avx512vl allow_avx512 =
    if allow_avx512 && (avx512f && avx512vl)
    then record { one = y.tls_avx512; two = y.tls2_avx512; mode = avx512_vl }
    else record { one = y.tls; two = y.tls2; mode = avx2 }

-- `memcmp(a, b, n) == 0` for blocks of the same length.
unfoldable pub same_bytes : List ℕ → List ℕ → Bool
same_bytes [] [] = true
same_bytes [] (y ∷ ys) = false
same_bytes (x ∷ xs) [] = false
same_bytes (x ∷ xs) (y ∷ ys) = x == y && same_bytes xs ys

-- `a[i] ^ b[i]` for each index.
pub xor_bytes : List ℕ → List ℕ → List ℕ
xor_bytes [] b = []
xor_bytes (x ∷ a) [] = []
xor_bytes (x ∷ a) (y ∷ b) = bit_xor x y ∷ xor_bytes a b

-- Bytes 68 to 71 of the header, little endian.
pub extract_ntime : List ℕ → ℕ
extract_ntime header80 =
    bit_or
      (bit_or (bit_or (get_or header80 68 0) (get_or header80 69 0 * 2 ^ 8 % 2 ^ 32))
        (get_or header80 70 0 * 2 ^ 16 % 2 ^ 32))
      (get_or header80 71 0 * 2 ^ 24 % 2 ^ 32)

-- The blocks that the two-way functions build: a copy, zeros, and single stores.
pub block_32 : List ℕ → List ℕ
block_32 x = set (set (take 32 x ++ replicate 32 0) 32 0x80) 62 0x01

pub block_80 : List ℕ → List ℕ
block_80 header =
    set (set (set (take 16 (drop 64 header) ++ replicate 48 0) 16 0x80) 62 0x02) 63 0x80

-- `fresh` is what an uninitialised context buffer holds.
module _ (iv fresh : List ℕ) (transform : List ℕ → List ℕ → List ℕ)
    (transform2 : List ℕ → List ℕ → List ℕ → List ℕ → List ℕ × List ℕ) (impl : Impl) where
  pub sha256d_local : List ℕ → List ℕ
  sha256d_local input = sha256_full iv transform fresh (sha256_full iv transform fresh input)

  pub sha256_32_2way : List ℕ → List ℕ → List ℕ × List ℕ
  unfolding block_32
  sha256_32_2way in0 in1 =
      let (st0, st1) = transform2 iv iv (block_32 in0) (block_32 in1) in
      (store_state st0, store_state st1)

  pub sha256d_80_2way_midstate : List ℕ → List ℕ → Ctx → List ℕ × List ℕ
  unfolding sha256_32_2way block_80
  sha256d_80_2way_midstate header0 header1 midstate =
      let (st0, st1) =
        transform2 midstate.state midstate.state (block_80 header0) (block_80 header1) in
      sha256_32_2way (store_state st0) (store_state st1)

  pub sha256d_80_midstate : List ℕ → Ctx → List ℕ
  sha256d_80_midstate header80 midstate =
      let ctx = sha256_update iv transform midstate (take 16 (drop 64 header80)) in
      sha256_full iv transform fresh (sha256_final iv transform ctx)

  pub civiclight_core_v1 : List ℕ → List ℕ
  civiclight_core_v1 input =
      let hash1 = sha256_full iv transform fresh input in
      sha256_full iv transform fresh (map (λ b. bit_xor b 0x5a) hash1)

  pub civiclight_core_v2 : List ℕ → List ℕ
  unfolding xor_bytes
  civiclight_core_v2 input =
      let hash1 = sha256_full iv transform fresh input in
      let yp_out = impl.one params_v2 hash1 in
      sha256_full iv transform fresh (xor_bytes yp_out hash1)

  pub civiclight_core_v2_2way : List ℕ → List ℕ → List ℕ × List ℕ
  unfolding sha256_32_2way xor_bytes
  civiclight_core_v2_2way input0 input1 =
      let (h0, h1) =
        if length input0 == 32
        then sha256_32_2way input0 input1
        else (sha256_full iv transform fresh input0, sha256_full iv transform fresh input1) in
      let (yp0, yp1) = impl.two params_v2 h0 h1 in
      sha256_32_2way (xor_bytes yp0 h0) (xor_bytes yp1 h1)

  -- The choice of algorithm by the time in the header.
  abbrev pub core_at : List ℕ → List ℕ → List ℕ
  core_at header intermediate =
      if leb activation_time (extract_ntime header)
      then civiclight_core_v2 intermediate
      else civiclight_core_v1 intermediate

  pub civiclight_powhash : List ℕ → List ℕ
  unfolding sha256d_local civiclight_core_v1 civiclight_core_v2 extract_ntime
  civiclight_powhash header80 = core_at header80 (sha256d_local header80)

  pub civiclight_powhash_from_midstate : List ℕ → Ctx → List ℕ
  unfolding sha256d_80_midstate civiclight_core_v1 civiclight_core_v2 extract_ntime
  civiclight_powhash_from_midstate header80 midstate =
      core_at header80 (sha256d_80_midstate header80 midstate)

  pub civiclight_powhash_2way_midstate : List ℕ → List ℕ → Ctx → List ℕ × List ℕ
  unfolding sha256d_80_2way_midstate civiclight_core_v2_2way civiclight_core_v1 civiclight_core_v2
      extract_ntime
  civiclight_powhash_2way_midstate header0 header1 midstate =
      let (i0, i1) = sha256d_80_2way_midstate header0 header1 midstate in
      if leb activation_time (extract_ntime header0) && leb activation_time (extract_ntime header1)
      then civiclight_core_v2_2way i0 i1
      else (core_at header0 i0, core_at header1 i1)

  pub civiclight_hash_2way : List ℕ → List ℕ → List ℕ × List ℕ
  unfolding civiclight_powhash civiclight_powhash_2way_midstate same_bytes
  civiclight_hash_2way input0 input1 =
      if same_bytes (take 64 input0) (take 64 input1)
      then civiclight_powhash_2way_midstate input0 input1
          (sha256_update iv transform (sha256_ctx_init iv transform fresh) (take 64 input0))
      else (civiclight_powhash input0, civiclight_powhash input1)
