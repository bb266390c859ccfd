-- ===== src/Sha/Tests.antt =====
-- algo/sha/sha256-hash.c: the theorems at a small compression function.
use soj_civic_light.Prelude.{ℕ, ◌+◌, ◌≡◌, refl, List, [], ◌∷◌, ◌++◌, get_or, replicate}
use soj_civic_light.Sha.{sha256_ctx_init, sha256_update, sha256_final, sha256_full}
use soj_civic_light.Sha.Digest.{digest, stream-digest}

-- A toy compression: it adds the first and the last byte of the block to the first two words.
abbrev mix : List ℕ → List ℕ → List ℕ
mix st b =
    (get_or st 0 0 + get_or b 0 0) ∷ (get_or st 1 0 + get_or b 63 0) ∷ 2 ∷ 3 ∷ 4 ∷ 5 ∷ 6 ∷ 7 ∷ []

abbrev iv : List ℕ
iv = replicate 8 1

abbrev junk : List ℕ
junk = replicate 64 0xcc

abbrev first : List ℕ
first = replicate 60 17

abbrev second : List ℕ
second = replicate 70 34

stream-digest_example :
    (sha256_final iv mix
        (sha256_update iv mix (sha256_update iv mix (sha256_ctx_init iv mix junk) first) second)
      ≡ digest iv mix (first ++ second))
    × (sha256_full iv mix junk first ≡ digest iv mix first)
stream-digest_example = stream-digest iv mix junk first second refl
