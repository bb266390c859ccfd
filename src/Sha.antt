-- ===== src/Sha.antt =====
-- algo/sha/sha256-hash.c: `sha256_ctx_init`, `sha256_update`, `sha256_final`, `sha256_full`, the
-- streaming interface. The compression of one block is a parameter.
pub mod Spec
pub mod Stream
pub mod Digest
mod Tests
use soj_civic_light.Prelude.{
  ℕ, zero, suc, ◌+◌, ◌-◌, ◌*◌, ◌/◌, ◌%◌, ◌^◌, Bool, true, false, List, [], ◌∷◌, ◌++◌, ltb,
  if◌then◌else◌, length, set, take, drop, replicate, bit_and,
}

-- `memcpy` of `src` to offset `o` of a buffer.
abbrev pub copy_at : List ℕ → ℕ → List ℕ → List ℕ
copy_at buf o src = take o buf ++ (src ++ drop (o + length src) buf)

-- The four bytes of a word, highest first, and a `uint32_t` stored after `bswap_32`.
abbrev pub be32 : ℕ → List ℕ
be32 w = w / 2 ^ 24 % 2 ^ 8 ∷ w / 2 ^ 16 % 2 ^ 8 ∷ w / 2 ^ 8 % 2 ^ 8 ∷ w % 2 ^ 8 ∷ []

abbrev pub store32 : ℕ → List ℕ
store32 w = w % 2 ^ 8 ∷ w / 2 ^ 8 % 2 ^ 8 ∷ w / 2 ^ 16 % 2 ^ 8 ∷ w / 2 ^ 24 % 2 ^ 8 ∷ []

abbrev pub bswap_32 : ℕ → ℕ
bswap_32 w =
    w % 2 ^ 8 * 2 ^ 24
    + w / 2 ^ 8 % 2 ^ 8 * 2 ^ 16
    + w / 2 ^ 16 % 2 ^ 8 * 2 ^ 8
    + w / 2 ^ 24 % 2 ^ 8

-- `bswap_64(x)` stored in memory: the eight bytes of `x`, highest first.
abbrev pub be64 : ℕ → List ℕ
be64 x = be32 (x / 2 ^ 32 % 2 ^ 32) ++ be32 (x % 2 ^ 32)

-- `((uint32_t *)hash)[i] = bswap_32(state[i])` for each word.
pub store_state : List ℕ → List ℕ
store_state [] = []
store_state (w ∷ ws) = store32 (bswap_32 w) ++ store_state ws

pub record Ctx : Type 0 where
  pub buf : List ℕ
  pub state : List ℕ
  pub count : ℕ

module _ (iv : List ℕ) (transform : List ℕ → List ℕ → List ℕ) where
  -- `buf` is what the uninitialised buffer holds.
  pub sha256_ctx_init : List ℕ → Ctx
  sha256_ctx_init buf = record { buf = buf; state = iv; count = 0 }

  -- The loop of `sha256_update` over whole blocks, with the copy of what is left.
  pub block_loop : ℕ → List ℕ → List ℕ → List ℕ → Ctx → Ctx
  block_loop zero st buf src c = c
  block_loop (suc fuel) st buf src c =
      let next = block_loop fuel (transform st (take 64 src)) buf (drop 64 src) c in
      if ltb (length src) 64
      then record { buf = copy_at buf 0 src; state = st; count = c.count }
      else next

  pub sha256_update : Ctx → List ℕ → Ctx
  unfolding block_loop
  sha256_update c src =
      let ptr = bit_and c.count 0x3f in
      let count = (c.count + length src) % 2 ^ 64 in
      if ltb (length src) (64 - ptr)
      then record { buf = copy_at c.buf ptr src; state = c.state; count = count }
      else let buf = copy_at c.buf ptr (take (64 - ptr) src) in
        let st = transform c.state buf in
        let rest = drop (64 - ptr) src in
        block_loop (suc (length rest)) st buf rest (record { buf = buf; state = st; count = count })

  -- The words of the state after the last block.
  pub final_state : Ctx → List ℕ
  final_state c =
      let ptr = bit_and c.count 0x3f in
      let buf = set c.buf ptr 0x80 in
      let ptr = ptr + 1 in
      let length_bytes = be64 (c.count * 2 ^ 3 % 2 ^ 64) in
      if ltb 56 ptr
      then (let buf = copy_at buf ptr (replicate (64 - ptr) 0) in
          let st = transform c.state buf in
          let buf = copy_at buf 0 (replicate 56 0) in transform st (copy_at buf 56 length_bytes))
      else (let buf = copy_at buf ptr (replicate (56 - ptr) 0) in
          transform c.state (copy_at buf 56 length_bytes))

  pub sha256_final : Ctx → List ℕ
  unfolding final_state store_state
  sha256_final c = store_state (final_state c)

  pub sha256_full : List ℕ → List ℕ → List ℕ
  unfolding sha256_ctx_init sha256_update sha256_final
  sha256_full buf msg = sha256_final (sha256_update (sha256_ctx_init buf) msg)
