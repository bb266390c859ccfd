-- ===== src/Header/Layout.antt =====
-- soj.c: the bytes of the header that a work of `std_build_extraheader` gives to the scan.
use soj_civic_light.Prelude.{
  ℕ, zero, suc, ◌+◌, ◌*◌, ◌≡◌, refl, sym, ap, ap₂, ◌∙◌, Bool, true, false, List, [], ◌∷◌, ◌++◌,
  arith, if◌then◌else◌, length, take, drop, All, replicate, append_assoc, append-nil, map, reverse,
  reverse-cons,
}
use soj_civic_light.Scan.{memory, bswap_32, edata_of, header_at}
use soj_civic_light.Notify.{Job}
use soj_civic_light.Header.Merkle.{
  IsBytes, twice, merkle_root, root-IsBytes, twice-IsBytes, length-root, length-twice,
  gen_merkle_root-Starts,
}
use soj_civic_light.Header.{
  le32dec, be32dec, store_loop, std_build_block_header, std_build_extraheader,
}

-- The bytes of each group of four, turned round.
abbrev pub swap4 : List ℕ → List ℕ
swap4 (a ∷ b ∷ c ∷ d ∷ bs) = d ∷ c ∷ b ∷ a ∷ swap4 bs
swap4 bs = bs

-- The same words, the pointer moved.
words : (List ℕ → ℕ) → ℕ → List ℕ → List ℕ
words dec zero p = []
words dec (suc n) p = dec p ∷ words dec n (drop 4 p)

-- The words that a pointer to words reads with `dec`, `n` from index `i` on.
words_at : (List ℕ → ℕ) → List ℕ → ℕ → ℕ → List ℕ
words_at dec p i zero = []
words_at dec p i (suc n) = dec (drop (4 * i) p) ∷ words_at dec p (i + 1) n

drop-drop : (m n : ℕ) (xs : List ℕ) → drop m (drop n xs) ≡ drop (n + m) xs
drop-drop m zero xs = ap (λ j. drop j xs) (let e : m ≡ 0 + m = omega arith in e)
drop-drop zero (suc n) [] =
    ap (λ j. drop {A = ℕ} j []) (let e : suc n ≡ suc n + 0 = omega arith in e)
drop-drop (suc m) (suc n) [] =
    ap (λ j. drop {A = ℕ} j []) (let e : suc (n + suc m) ≡ suc n + suc m = omega arith in e)
drop-drop m (suc n) (x ∷ xs) =
    drop-drop m n xs
    ∙ ap (λ j. drop j (x ∷ xs)) (let e : suc (n + m) ≡ suc n + m = omega arith in e)

le_word :
    (a b c d : ℕ) (r : List ℕ)
    → IsBytes (a ∷ b ∷ c ∷ d ∷ [])
    → memory (bswap_32 (le32dec (a ∷ b ∷ c ∷ d ∷ r)) ∷ []) ≡ d ∷ c ∷ b ∷ a ∷ []
unfolding memory bswap_32 le32dec
le_word a b c d r h = ground arith

be_word :
    (a b c d : ℕ) (r : List ℕ)
    → IsBytes (a ∷ b ∷ c ∷ d ∷ [])
    → memory (bswap_32 (be32dec (a ∷ b ∷ c ∷ d ∷ r)) ∷ []) ≡ a ∷ b ∷ c ∷ d ∷ []
unfolding memory bswap_32 be32dec
be_word a b c d r h = ground arith

words_at-words :
    (dec : List ℕ → ℕ) (p : List ℕ) (n i : ℕ) → words_at dec p i n ≡ words dec n (drop (4 * i) p)
unfolding words_at words
words_at-words dec p zero i = refl
words_at-words dec p (suc n) i =
    let moved : drop (4 * (i + 1)) p ≡ drop 4 (drop (4 * i) p) =
      ap (λ j. drop j p) (let e : 4 * (i + 1) ≡ 4 * i + 4 = omega arith in e)
      ∙ sym (drop-drop 4 (4 * i) p) in
    ap (◌∷◌ (dec (drop (4 * i) p))) (words_at-words dec p n (i + 1) ∙ ap (words dec n) moved)

-- What the scan stores for the words that were read.
abbrev stored : List ℕ → List ℕ
stored ws = memory (map bswap_32 ws)

stored-append : (ws vs : List ℕ) → stored (ws ++ vs) ≡ stored ws ++ stored vs
unfolding memory
stored-append [] vs = refl
stored-append (w ∷ ws) vs = ap (λ t. memory (bswap_32 w ∷ []) ++ t) (stored-append ws vs)

-- `n` groups of four bytes.
data Fours : ℕ → List ℕ → Type 0 where
  none_left : Fours 0 []
  four_more :
      {n : ℕ} {p : List ℕ} (a b c d : ℕ)
      → IsBytes (a ∷ b ∷ c ∷ d ∷ [])
      → Fours n p
      → Fours (suc n) (a ∷ b ∷ c ∷ d ∷ p)

length-Fours : (n : ℕ) (p : List ℕ) → length p ≡ 4 * n → IsBytes p → Fours n p
length-Fours zero [] size bytes = none_left
length-Fours zero (a ∷ p) size bytes = absurd (omega arith)
length-Fours (suc n) [] size bytes = absurd (omega arith)
length-Fours (suc n) (a ∷ []) size bytes = absurd (omega arith)
length-Fours (suc n) (a ∷ b ∷ []) size bytes = absurd (omega arith)
length-Fours (suc n) (a ∷ b ∷ c ∷ []) size bytes = absurd (omega arith)
length-Fours (suc n) (a ∷ b ∷ c ∷ d ∷ p) size (ha, (hb, (hc, (hd, bytes)))) =
    four_more a b c d (ha, (hb, (hc, (hd, tt)))) (length-Fours n p (omega arith) bytes)

stored-le :
    {n : ℕ} {p : List ℕ} (r : List ℕ) → Fours n p → stored (words le32dec n (p ++ r)) ≡ swap4 p
unfolding words memory
stored-le r none_left = refl
stored-le r (four_more {p = p} a b c d bytes rest) =
    ap₂ ◌++◌ (le_word a b c d (p ++ r) bytes) (stored-le r rest)

stored-be : {n : ℕ} {p : List ℕ} (r : List ℕ) → Fours n p → stored (words be32dec n (p ++ r)) ≡ p
unfolding words memory
stored-be r none_left = refl
stored-be r (four_more {p = p} a b c d bytes rest) =
    ap₂ ◌++◌ (be_word a b c d (p ++ r) bytes) (stored-be r rest)

-- All bytes turned round, for words taken from the last on.
turned :
    (a b c d : ℕ) (p : List ℕ) → reverse p ++ (d ∷ c ∷ b ∷ a ∷ []) ≡ reverse (a ∷ b ∷ c ∷ d ∷ p)
turned a b c d p = sym (
    reverse-cons a (b ∷ c ∷ d ∷ p)
    ∙ ap (λ t. t ++ (a ∷ []))
        (reverse-cons b (c ∷ d ∷ p)
          ∙ ap (λ t. t ++ (b ∷ []))
              (reverse-cons c (d ∷ p) ∙ ap (λ t. t ++ (c ∷ [])) (reverse-cons d p)))
    ∙ ap (λ t. (t ++ (b ∷ [])) ++ (a ∷ [])) (append_assoc (reverse p) (d ∷ []) (c ∷ []))
    ∙ ap (λ t. t ++ (a ∷ [])) (append_assoc (reverse p) (d ∷ c ∷ []) (b ∷ []))
    ∙ append_assoc (reverse p) (d ∷ c ∷ b ∷ []) (a ∷ []))

stored-turned : {n : ℕ} {p : List ℕ} → Fours n p → stored (reverse (words le32dec n p)) ≡ reverse p
unfolding words memory
stored-turned none_left = refl
stored-turned (four_more {n = n} {p = p} a b c d bytes fours) =
    let first = le32dec (a ∷ b ∷ c ∷ d ∷ p) in
    let rest = words le32dec n p in
    ap stored (reverse-cons first rest)
    ∙ stored-append (reverse rest) (first ∷ [])
    ∙ ap₂ ◌++◌ (stored-turned fours) (le_word a b c d p bytes)
    ∙ turned a b c d p

-- The words of the header, as the scan stores them.
block_header-stored :
    (st : Bool) (version ntime nbits nonce : ℕ) (p m : List ℕ)
    → header_at (edata_of false (take 20 (std_build_block_header st version p m ntime nbits))) nonce
      ≡ stored (version ∷ [])
        ++ (stored (if st then words_at le32dec p 0 8 else reverse (words_at le32dec p 0 8))
            ++ (stored (words_at be32dec m 0 8)
                ++ (stored (ntime ∷ []) ++ (stored (nbits ∷ []) ++ memory (nonce ∷ [])))))
unfolding header_at edata_of memory std_build_block_header store_loop words_at
block_header-stored true version ntime nbits nonce p m = refl
block_header-stored false version ntime nbits nonce p m = refl

stored-field : (p : List ℕ) → length p ≡ 4 → IsBytes p → stored (le32dec p ∷ []) ≡ swap4 p
unfolding words
stored-field p size bytes =
    ap (λ q. stored (le32dec q ∷ [])) (sym (append-nil p))
    ∙ stored-le [] (length-Fours 1 p size bytes)

-- A job whose fields have their lengths, in bytes.
pub record IsSized (job : Job) : Type 0 where
  pub version : (length job.version ≡ 4) × IsBytes job.version
  pub prevhash : (length job.prevhash ≡ 32) × IsBytes job.prevhash
  pub ntime : (length job.ntime ≡ 4) × IsBytes job.ntime
  pub nbits : (length job.nbits ≡ 4) × IsBytes job.nbits
  pub branches : All (λ b. length b ≡ 32) (take job.merkle_count job.merkle)

prevhash-stored :
    (st : Bool) (p : List ℕ)
    → length p ≡ 32
    → IsBytes p
    → stored (if st then words_at le32dec p 0 8 else reverse (words_at le32dec p 0 8))
      ≡ (if st then swap4 p else reverse p)
prevhash-stored true p size bytes =
    ap stored (words_at-words le32dec p 8 0)
    ∙ ap (λ q. stored (words le32dec 8 q)) (sym (append-nil p))
    ∙ stored-le [] (length-Fours 8 p size bytes)
prevhash-stored false p size bytes =
    ap (λ ws. stored (reverse ws)) (words_at-words le32dec p 8 0)
    ∙ stored-turned (length-Fours 8 p size bytes)

module _ (iv fresh : List ℕ) (transform : List ℕ → List ℕ → List ℕ) (room : length fresh ≡ 64)
    (iv_words : length iv ≡ 8)
    (transform_words : (st b : List ℕ) → length (transform st b) ≡ 8) where
  -- For a job whose fields have their lengths, the header that the scan hashes from the work's first
  -- 20 words is: the version with its four bytes turned round, the previous hash with the bytes of
  -- each word turned round (without a stratum, all 32), the Merkle root of the double hash of the
  -- coinbase and the branches, the time and the bits with their bytes turned round, and the nonce.
  pub extraheader-bytes :
      (st : Bool) (job : Job) (nonce : ℕ)
      → IsSized job
      → header_at (edata_of false (take 20 (std_build_extraheader iv fresh transform st job))) nonce
        ≡ swap4 job.version
          ++ ((if st then swap4 job.prevhash else reverse job.prevhash)
              ++ (merkle_root iv transform
                    (twice iv transform job.coinbase)
                    (take job.merkle_count job.merkle)
                  ++ (swap4 job.ntime ++ (swap4 job.nbits ++ memory (nonce ∷ [])))))
  unfolding std_build_extraheader
  extraheader-bytes st job nonce h =
      let branches = take job.merkle_count job.merkle in
      let first = twice iv transform job.coinbase in
      let root = merkle_root iv transform first branches in
      let (rest, n, tree) =
        (gen_merkle_root-Starts iv fresh transform room iv_words transform_words (replicate 64 0)
          job refl h.branches).0 in
      let root_words =
        length-Fours 8 root
          (length-root iv fresh transform room iv_words transform_words branches first
            (length-twice iv fresh transform room iv_words transform_words job.coinbase))
          (root-IsBytes iv transform branches first (twice-IsBytes iv transform job.coinbase)) in
      block_header-stored st (le32dec job.version) (le32dec job.ntime) (le32dec job.nbits) nonce
        job.prevhash _
      ∙ ap₂ ◌++◌ (stored-field job.version h.version.0 h.version.1) (
          ap₂ ◌++◌ (prevhash-stored st job.prevhash h.prevhash.0 h.prevhash.1) (
            ap₂ ◌++◌
              (ap stored (words_at-words be32dec _ 8 0)
                ∙ ap (λ t. stored (words be32dec 8 t)) tree
                ∙ stored-be rest root_words)
              (ap₂ ◌++◌ (stored-field job.ntime h.ntime.0 h.ntime.1)
                (ap₂ ◌++◌ (stored-field job.nbits h.nbits.0 h.nbits.1) refl))))
