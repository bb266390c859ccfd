-- ===== src/Pow/Blocks.antt =====
-- algo/civiclight/civiclight.c: the hand-built SHA-256 blocks of the two-way functions are the
-- padded blocks of SHA-256.
use soj_civic_light.Prelude.{
  ℕ, ◌+◌, ◌*◌, ◌/◌, ◌%◌, ◌^◌, ◌≡◌, refl, sym, ap, ap₂, ◌∙◌, List, [], ◌∷◌, ◌++◌, arith, length, set,
  take, drop, replicate, All-append, length-append, length-take, length-drop, set-append,
  take-length, take-append-drop, append-nil, append_assoc,
}
use soj_civic_light.Sha.{Ctx, be64, sha256_full}
use soj_civic_light.Sha.Spec.{zeros, pad, blocks, concat, be_words, fold, digest_state, Holds}
use soj_civic_light.Sha.Stream.{concat-append, length-concat, fold-append}
use soj_civic_light.Sha.Digest.{digest, digest-blocks, stream-digest}
use soj_civic_light.Pow.{block_32, block_80}

nil_of_length : (xs : List ℕ) → length xs ≡ 0 → xs ≡ []
nil_of_length [] h = refl
nil_of_length (x ∷ xs) h = absurd (omega arith)

-- The padding of a message of `n` bytes.
abbrev padding : ℕ → List ℕ
padding n = 0x80 ∷ (replicate (zeros n) 0 ++ be64 (n * 8 % 2 ^ 64))

block_32-pad : (x : List ℕ) → length x ≡ 32 → block_32 x ≡ pad x
unfolding block_32
block_32-pad x n =
    let whole : take 32 x ≡ x = ap (λ k. take k x) (sym n) ∙ take-length x in
    ap (λ t. set (set (t ++ replicate 32 0) 32 0x80) 62 1) whole
    ∙ ap (λ o. set (set (x ++ replicate 32 0) o 0x80) 62 1)
        (let e : 32 ≡ length x + 0 = omega arith in e)
    ∙ ap (λ b. set b 62 1) (set-append x (replicate 32 0) 0 0x80)
    ∙ ap (λ o. set (x ++ set (replicate 32 0) 0 0x80) o 1)
        (let e : 62 ≡ length x + 30 = omega arith in e)
    ∙ set-append x (set (replicate 32 0) 0 0x80) 30 1
    ∙ ap (λ k. x ++ padding k) (sym n)

-- The last 16 bytes of a header, padded as the end of an 80-byte message.
block_80-pad :
    (header : List ℕ) → length header ≡ 80 → block_80 header ≡ drop 64 header ++ padding 80
unfolding block_80
block_80-pad header n =
    let x = drop 64 header in
    let len : length x ≡ 16 = omega (arith, length-drop 64 header) in
    let whole : take 16 x ≡ x = ap (λ k. take k x) (sym len) ∙ take-length x in
    let z = replicate {A = ℕ} 48 0 in
    let z1 = set z 0 0x80 in
    let z2 = set z1 46 0x02 in
    let e0 : 16 ≡ length x + 0 = omega arith in
    let e1 : 62 ≡ length x + 46 = omega arith in
    let e2 : 63 ≡ length x + 47 = omega arith in
    ap (λ t. set (set (set (t ++ z) 16 0x80) 62 0x02) 63 0x80) whole
    ∙ ap (λ o. set (set (set (x ++ z) o 0x80) 62 0x02) 63 0x80) e0
    ∙ ap (λ b. set (set b 62 0x02) 63 0x80) (set-append x z 0 0x80)
    ∙ ap (λ o. set (set (x ++ z1) o 0x02) 63 0x80) e1
    ∙ ap (λ b. set b 63 0x80) (set-append x z1 46 0x02)
    ∙ ap (λ o. set (x ++ z2) o 0x80) e2
    ∙ set-append x z2 47 0x80

module _ (transform : List ℕ → List ℕ → List ℕ) (iv : List ℕ) where
  pub digest_32 :
      (x : List ℕ) → length x ≡ 32 → transform iv (block_32 x) ≡ digest_state transform iv x
  digest_32 x n =
      let same = block_32-pad x n in
      digest-blocks transform iv x (block_32 x ∷ [])
        (
          ap length (same ∙ ap (λ k. x ++ padding k) n)
              ∙ omega (arith, length-append x (padding 32)),
          tt,
        )
        (append-nil (block_32 x) ∙ same)

  -- From a context that holds the first 64 bytes of a header, one block gives the header's digest.
  pub digest_80 :
      (header : List ℕ) (c : Ctx)
      → length header ≡ 80
      → Holds transform iv (take 64 header) c
      → transform c.state (block_80 header) ≡ digest_state transform iv header
  digest_80 header c n h =
      let m = take 64 header in
      let end = drop 64 header in
      let len_m : length m ≡ 64 = omega (arith, length-take 64 header) in
      let len_end : length end ≡ 16 = omega (arith, length-drop 64 header) in
      let no_tail : h.tail ≡ [] = nil_of_length h.tail (
        omega (
          arith,
          h.short,
          len_m,
          ap length h.message,
          length-append (concat h.full) h.tail,
          length-concat h.full h.whole,
        )) in
      let same = block_80-pad header n in
      let b = block_80 header in
      let size : length b ≡ 64 = ap length same ∙ omega (arith, length-append end (padding 80)) in
      ap (λ s. transform s b) h.state
      ∙ sym (fold-append transform iv h.full (b ∷ []))
      ∙ digest-blocks transform iv header (h.full ++ (b ∷ []))
          (All-append (λ x. length x ≡ 64) h.full (b ∷ []) h.whole (size, tt))
          (concat-append h.full (b ∷ [])
            ∙ ap₂ ◌++◌
                (sym (append-nil (concat h.full))
                  ∙ ap (◌++◌ (concat h.full)) (sym no_tail)
                  ∙ sym h.message)
                (append-nil b ∙ same)
            ∙ sym (append_assoc m end (padding 80))
            ∙ ap₂ (λ x k. x ++ padding k) (take-append-drop 64 header) (sym n))

  fold-length :
      ((st b : List ℕ) → length (transform st b) ≡ 8)
      → (st : List ℕ) (bs : List (List ℕ)) → length st ≡ 8
      → length (fold transform st bs) ≡ 8
  fold-length words st [] n = n
  fold-length words st (b ∷ bs) n = fold-length words (transform st b) bs (words st b)

length-be_words : (ws : List ℕ) → length (be_words ws) ≡ length ws * 4
length-be_words [] = refl
length-be_words (w ∷ ws) = omega (arith, length-be_words ws)

-- What `sha256_full` gives is the digest, of 32 bytes.
module _ (iv fresh : List ℕ) (transform : List ℕ → List ℕ → List ℕ) (room : length fresh ≡ 64)
    (iv_words : length iv ≡ 8)
    (transform_words : (st b : List ℕ) → length (transform st b) ≡ 8) where
  pub full-digest : (m : List ℕ) → sha256_full iv transform fresh m ≡ digest iv transform m
  full-digest m = (stream-digest iv transform fresh m [] room).1

  pub length-full : (m : List ℕ) → length (sha256_full iv transform fresh m) ≡ 32
  length-full m =
      let bs = blocks (length (pad m) / 64) (pad m) in
      ap length (full-digest m)
      ∙ omega (
        arith,
        length-be_words (digest_state transform iv m),
        fold-length transform iv transform_words iv bs iv_words,
      )
