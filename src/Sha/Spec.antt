-- ===== src/Sha/Spec.antt =====
-- What a SHA-256 context promises: the words of the state after the padded message, block by block.
use soj_civic_light.Prelude.{
  ℕ, zero, suc, ◌-◌, ◌*◌, ◌/◌, ◌%◌, ◌^◌, ◌<◌, ◌≡◌, List, [], ◌∷◌, ◌++◌, length, take, drop,
  replicate, All,
}
use soj_civic_light.Sha.{Ctx, be32, be64}

-- Zeros between the 0x80 and the length, as few as fill the last block.
abbrev pub zeros : ℕ → ℕ
zeros n = (119 - n % 64) % 64

abbrev pub pad : List ℕ → List ℕ
pad m = m ++ (0x80 ∷ (replicate (zeros (length m)) 0 ++ be64 (length m * 8 % 2 ^ 64)))

abbrev pub blocks : ℕ → List ℕ → List (List ℕ)
blocks zero m = []
blocks (suc n) m = take 64 m ∷ blocks n (drop 64 m)

abbrev pub concat : List (List ℕ) → List ℕ
concat [] = []
concat (b ∷ bs) = b ++ concat bs

abbrev pub be_words : List ℕ → List ℕ
be_words [] = []
be_words (w ∷ ws) = be32 w ++ be_words ws

module _ (transform : List ℕ → List ℕ → List ℕ) where
  abbrev pub fold : List ℕ → List (List ℕ) → List ℕ
  fold st [] = st
  fold st (b ∷ bs) = fold (transform st b) bs

  -- The state after a message and its padding.
  abbrev pub digest_state : List ℕ → List ℕ → List ℕ
  digest_state iv m = fold iv (blocks (length (pad m) / 64) (pad m))

  -- A context stands for the message `m` that it was given.
  pub record Holds (iv m : List ℕ) (c : Ctx) : Type 0 where
    pub full : List (List ℕ)
    pub tail : List ℕ
    pub junk : List ℕ
    pub whole : All (λ b. length b ≡ 64) full
    pub short : length tail < 64
    pub message : m ≡ concat full ++ tail
    pub state : c.state ≡ fold iv full
    pub buf : c.buf ≡ tail ++ junk
    pub room : length c.buf ≡ 64
    pub count : c.count ≡ length m % 2 ^ 64
