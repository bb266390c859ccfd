-- ===== src/Header/Merkle.antt =====
-- soj_protocol.c: `sha256d_gen_merkle_root` and `sha256_gen_merkle_root` against a fold over the branches.
use soj_civic_light.Prelude.{
  ℕ, ◌+◌, ◌<◌, ◌≡◌, refl, sym, ap, ap₂, ◌∙◌, subst, List, [], ◌∷◌, ◌++◌, arith, length, take, drop,
  All, length-append, length-drop, append-nil, take-length,
}
use soj_civic_light.Sha.{copy_at, sha256_full}
use soj_civic_light.Sha.Spec.{be_words}
use soj_civic_light.Sha.Digest.{digest}
use soj_civic_light.Sha.Stream.{take-append, copy_at-append, drop-all}
use soj_civic_light.Pow.Blocks.{full-digest, length-full}
use soj_civic_light.Notify.{Job}
use soj_civic_light.Header.{sha256d, merkle_loop, sha256d_gen_merkle_root, sha256_gen_merkle_root}

module _ (iv : List ℕ) (transform : List ℕ → List ℕ → List ℕ) where
  -- The digest of the digest, and the root over the branches from a first hash.
  abbrev pub twice : List ℕ → List ℕ
  twice m = digest iv transform (digest iv transform m)

  abbrev pub merkle_root : List ℕ → List (List ℕ) → List ℕ
  merkle_root h [] = h
  merkle_root h (branch ∷ branches) = merkle_root (twice (h ++ branch)) branches

abbrev pub IsBytes : List ℕ → Type 0
IsBytes bs = All (λ b. b < 256) bs

-- The first bytes of a buffer are the hash.
abbrev pub Starts : List ℕ → List ℕ → Type 0
Starts buf h = (rest : List ℕ) × (length rest ≡ 32) × (buf ≡ h ++ rest)

copy_front : (buf src : List ℕ) → length buf ≡ 64 → length src ≡ 32 → Starts (copy_at buf 0 src) src
copy_front buf src size n =
    (drop (0 + length src) buf, omega (arith, length-drop (0 + length src) buf), refl)

-- A digest is made of bytes.
be_words-IsBytes : (ws : List ℕ) → IsBytes (be_words ws)
be_words-IsBytes [] = tt
be_words-IsBytes (w ∷ ws) =
    (omega arith, (omega arith, (omega arith, (omega arith, be_words-IsBytes ws))))

pub root-IsBytes :
    (iv : List ℕ) (transform : List ℕ → List ℕ → List ℕ) (branches : List (List ℕ)) (h : List ℕ)
    → IsBytes h
    → IsBytes (merkle_root iv transform h branches)
root-IsBytes iv transform [] h bytes = bytes
root-IsBytes iv transform (branch ∷ branches) h bytes =
    root-IsBytes iv transform branches _ (be_words-IsBytes _)

pub twice-IsBytes :
    (iv : List ℕ) (transform : List ℕ → List ℕ → List ℕ) (m : List ℕ)
    → IsBytes (twice iv transform m)
twice-IsBytes iv transform m = be_words-IsBytes _

module _ (iv fresh : List ℕ) (transform : List ℕ → List ℕ → List ℕ) (room : length fresh ≡ 64)
    (iv_words : length iv ≡ 8)
    (transform_words : (st b : List ℕ) → length (transform st b) ≡ 8) where
  sha256d-Starts :
      (buf m : List ℕ)
      → length buf ≡ 64
      → Starts (sha256d iv fresh transform buf m) (twice iv transform m)
  unfolding sha256d
  sha256d-Starts buf m size =
      let full = sha256_full iv transform fresh in
      let as_digest = full-digest iv fresh transform room iv_words transform_words in
      let size_of = length-full iv fresh transform room iv_words transform_words in
      let (rest, n, e) = copy_front buf (full m) size (size_of m) in
      let once : take 32 (copy_at buf 0 (full m)) ≡ digest iv transform m =
        ap (take 32) e
        ∙ ap (λ k. take k (full m ++ rest)) (sym (size_of m))
        ∙ take-append (full m) rest
        ∙ as_digest m in
      let both = as_digest (take 32 (copy_at buf 0 (full m))) ∙ ap (digest iv transform) once in
      subst (Starts (sha256d iv fresh transform buf m)) both (
        copy_front (copy_at buf 0 (full m)) (full (take 32 (copy_at buf 0 (full m))))
          (omega (arith, ap length e, length-append (full m) rest, size_of m)) (size_of _))

  pub length-twice : (m : List ℕ) → length (twice iv transform m) ≡ 32
  length-twice m =
      sym (
        ap length
          (full-digest iv fresh transform room iv_words transform_words (digest iv transform m)))
      ∙ length-full iv fresh transform room iv_words transform_words (digest iv transform m)

  pub length-root :
      (branches : List (List ℕ)) (h : List ℕ)
      → length h ≡ 32
      → length (merkle_root iv transform h branches) ≡ 32
  length-root [] h n = n
  length-root (branch ∷ branches) h n = length-root branches _ (length-twice (h ++ branch))

  merkle_loop-Starts :
      (branches : List (List ℕ)) (buf h : List ℕ)
      → All (λ b. length b ≡ 32) branches
      → length h ≡ 32
      → Starts buf h
      → Starts (merkle_loop iv fresh transform branches buf) (merkle_root iv transform h branches)
  unfolding merkle_loop
  merkle_loop-Starts [] buf h sizes n start = start
  merkle_loop-Starts (branch ∷ branches) buf h sizes n (rest, size, e) =
      let whole : take 32 branch ≡ branch =
        ap (λ k. take k branch) (sym sizes.0) ∙ take-length branch in
      let both : copy_at buf 32 (take 32 branch) ≡ h ++ branch =
        ap₂ (λ b s. copy_at b 32 s) e whole
        ∙ copy_at-append h rest branch 32 (sym n)
        ∙ ap (λ t. h ++ (branch ++ t)) (drop-all rest (length branch) (omega (arith, sizes.0)))
        ∙ ap (◌++◌ h) (append-nil branch) in
      let total : length (h ++ branch) ≡ 64 = omega (arith, length-append h branch, sizes.0) in
      let read : take 64 (copy_at buf 32 (take 32 branch)) ≡ h ++ branch =
        ap (take 64) both
        ∙ ap (λ k. take k (h ++ branch)) (sym total)
        ∙ take-length (h ++ branch) in
      let next = λ (m : List ℕ).
        sha256d-Starts (copy_at buf 32 (take 32 branch)) m (ap length both ∙ total) in
      merkle_loop-Starts branches _ (twice iv transform (h ++ branch)) sizes.1
        (length-twice (h ++ branch))
        (subst
          (λ m.
            Starts
              (sha256d iv fresh transform (copy_at buf 32 (take 32 branch))
                (take 64 (copy_at buf 32 (take 32 branch))))
              (twice iv transform m))
          read (next _))

  -- For a buffer of 64 bytes and branches of 32 bytes, both functions leave the Merkle root of the
  -- branches in the first 32 bytes of the buffer, from the double hash of the coinbase and from its
  -- single hash.
  pub gen_merkle_root-Starts :
      (root : List ℕ) (job : Job)
      → length root ≡ 64
      → All (λ b. length b ≡ 32) (take job.merkle_count job.merkle)
      → let branches = take job.merkle_count job.merkle in
        Starts
          (sha256d_gen_merkle_root iv fresh transform root job)
          (merkle_root iv transform (twice iv transform job.coinbase) branches)
        × Starts
            (sha256_gen_merkle_root iv fresh transform root job)
            (merkle_root iv transform (digest iv transform job.coinbase) branches)
  unfolding sha256d_gen_merkle_root sha256_gen_merkle_root
  gen_merkle_root-Starts root job size sizes =
      let branches = take job.merkle_count job.merkle in
      let as_digest = full-digest iv fresh transform room iv_words transform_words job.coinbase in
      let n = length-full iv fresh transform room iv_words transform_words job.coinbase in
      (
        merkle_loop-Starts branches _ _ sizes (length-twice job.coinbase)
            (sha256d-Starts root job.coinbase size),
        merkle_loop-Starts branches _ _ sizes (sym (ap length as_digest) ∙ n) (
            subst (Starts (copy_at root 0 (sha256_full iv transform fresh job.coinbase))) as_digest
              (copy_front root _ size n)),
      )
