-- ===== src/Hex/Lanes.antt =====
-- A 64-bit word as the list of its bytes, lowest first (a little-endian load), and the word
-- operations as operations on the bytes.
use soj_civic_light.Prelude.{
  ℕ, zero, suc, ◌+◌, ◌-◌, ◌*◌, ◌^◌, ◌≤◌, ◌<◌, ◌≡◌, refl, ap, ◌∙◌, List, [], ◌∷◌, map, arith, length,
  All, bit_and, bit_or,
}
use soj_civic_light.Prelude.Bits.{bit_and-fields, bit_or-fields}

abbrev pub word : List ℕ → ℕ
word [] = 0
word (c ∷ cs) = c + word cs * 2 ^ 8

-- The byte `k` in each of `n` lanes.
abbrev pub rep : ℕ → ℕ → ℕ
rep zero k = 0
rep (suc n) k = k + rep n k * 2 ^ 8

abbrev pub AreBytes : List ℕ → Type 0
AreBytes = All (λ c. c < 2 ^ 8)

pub and-rep :
    (k : ℕ) (cs : List ℕ)
    → k < 2 ^ 8
    → AreBytes cs
    → bit_and (word cs) (rep (length cs) k) ≡ word (map (λ c. bit_and c k) cs)
and-rep k [] hk h = refl
and-rep k (c ∷ cs) hk h =
    bit_and-fields 8 c k (word cs) (rep (length cs) k) h.0 hk
    ∙ ap (λ t. bit_and c k + t * 2 ^ 8) (and-rep k cs hk h.1)

pub or-rep :
    (k : ℕ) (cs : List ℕ)
    → k < 2 ^ 8
    → AreBytes cs
    → bit_or (word cs) (rep (length cs) k) ≡ word (map (λ c. bit_or c k) cs)
or-rep k [] hk h = refl
or-rep k (c ∷ cs) hk h =
    bit_or-fields 8 c k (word cs) (rep (length cs) k) h.0 hk
    ∙ ap (λ t. bit_or c k + t * 2 ^ 8) (or-rep k cs hk h.1)

-- The bytes of two functions of one list.
module _ (f g : ℕ → ℕ) where
  pub and-map :
      (cs : List ℕ)
      → AreBytes (map f cs)
      → AreBytes (map g cs)
      → bit_and (word (map f cs)) (word (map g cs)) ≡ word (map (λ c. bit_and (f c) (g c)) cs)
  and-map [] p q = refl
  and-map (c ∷ cs) p q =
      bit_and-fields 8 (f c) (g c) (word (map f cs)) (word (map g cs)) p.0 q.0
      ∙ ap (λ t. bit_and (f c) (g c) + t * 2 ^ 8) (and-map cs p.1 q.1)

  pub or-map :
      (cs : List ℕ)
      → AreBytes (map f cs)
      → AreBytes (map g cs)
      → bit_or (word (map f cs)) (word (map g cs)) ≡ word (map (λ c. bit_or (f c) (g c)) cs)
  or-map [] p q = refl
  or-map (c ∷ cs) p q =
      bit_or-fields 8 (f c) (g c) (word (map f cs)) (word (map g cs)) p.0 q.0
      ∙ ap (λ t. bit_or (f c) (g c) + t * 2 ^ 8) (or-map cs p.1 q.1)

-- Facts about the bytes `f c`, with the word kept as a list of `c`.
module _ (f : ℕ → ℕ) where
  pub add-map :
      (k : ℕ) (cs : List ℕ) → word (map f cs) + rep (length cs) k ≡ word (map (λ c. f c + k) cs)
  add-map k [] = refl
  add-map k (c ∷ cs) = omega (arith, add-map k cs)

  pub sub-map :
      (k : ℕ) (cs : List ℕ)
      → All (λ c. k ≤ f c) cs
      → word (map f cs) ≡ rep (length cs) k + word (map (λ c. f c - k) cs)
  sub-map k [] h = refl
  sub-map k (c ∷ cs) h = omega (arith, sub-map k cs h.1, h.0)

  pub word-map-le :
      (cs : List ℕ) → All (λ c. f c < 2 ^ 8) cs → word (map f cs) ≤ rep (length cs) 255
  word-map-le [] h = omega arith
  word-map-le (c ∷ cs) h = omega (arith, word-map-le cs h.1, h.0)

  pub word-complement :
      (cs : List ℕ)
      → All (λ c. f c < 2 ^ 8) cs
      → rep (length cs) 255 - word (map f cs) ≡ word (map (λ c. 255 - f c) cs)
  word-complement [] h = refl
  word-complement (c ∷ cs) h = omega (arith, word-complement cs h.1, h.0, word-map-le cs h.1)

  pub word-eq-zero : (cs : List ℕ) → word (map f cs) ≡ 0 → All (λ c. f c ≡ 0) cs
  word-eq-zero [] h = tt
  word-eq-zero (c ∷ cs) h = (omega arith, word-eq-zero cs (omega arith))

  pub zero-word : (cs : List ℕ) → All (λ c. f c ≡ 0) cs → word (map f cs) ≡ 0
  zero-word [] h = refl
  zero-word (c ∷ cs) h = omega (arith, h.0, zero-word cs h.1)

  pub AreBytes-map : (cs : List ℕ) → All (λ c. f c < 2 ^ 8) cs → AreBytes (map f cs)
  AreBytes-map [] h = tt
  AreBytes-map (c ∷ cs) h = (h.0, AreBytes-map cs h.1)

pub rep-map : (k : ℕ) (cs : List ℕ) → word (map (λ c. k) cs) ≡ rep (length cs) k
rep-map k [] = refl
rep-map k (c ∷ cs) = ap (λ t. k + t * 2 ^ 8) (rep-map k cs)
