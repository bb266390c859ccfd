-- ===== src/Pow/Tests.antt =====
-- algo/civiclight/civiclight.c: the theorems at small stand-ins for the compression and yespower.
use soj_civic_light.Prelude.{ℕ, ◌+◌, ◌≡◌, refl, List, [], ◌∷◌, ◌++◌, get_or, replicate}
use soj_civic_light.Pow.TwoWay.{hash_2way-powhash}
use soj_civic_light.Pow.{Params, Impl, avx2, civiclight_powhash, civiclight_hash_2way}

abbrev mix : List ℕ → List ℕ → List ℕ
mix st b =
    (get_or st 0 0 + get_or b 0 0) ∷ (get_or st 1 0 + get_or b 63 0) ∷ 2 ∷ 3 ∷ 4 ∷ 5 ∷ 6 ∷ 7 ∷ []

abbrev mix2 : List ℕ → List ℕ → List ℕ → List ℕ → List ℕ × List ℕ
mix2 s t x y = (mix s x, mix t y)

abbrev spread : Params → List ℕ → List ℕ
spread p a = replicate 32 (get_or a 0 0)

abbrev impl : Impl
impl = record { one = spread; two = λ p a b. (spread p a, spread p b); mode = avx2 }

abbrev iv : List ℕ
iv = replicate 8 1

abbrev junk : List ℕ
junk = replicate 64 0xcc

abbrev header0 : List ℕ
header0 = replicate 76 17 ++ (1 ∷ 0 ∷ 0 ∷ 0 ∷ [])

abbrev header1 : List ℕ
header1 = replicate 76 17 ++ (2 ∷ 0 ∷ 0 ∷ 0 ∷ [])

hash_2way-powhash_example : civiclight_hash_2way iv junk mix mix2 impl header0 header1 ≡ (
  civiclight_powhash iv junk mix mix2 impl header0,
  civiclight_powhash iv junk mix mix2 impl header1,
)
hash_2way-powhash_example =
    hash_2way-powhash iv junk mix mix2 impl refl refl (λ st b. refl) (λ s t x y. refl) (λ a b. refl)
      (λ a. refl) header0 header1 refl refl
