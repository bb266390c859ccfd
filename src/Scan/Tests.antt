-- ===== src/Scan/Tests.antt =====
-- algo/civiclight/civiclight.c: a scan of three nonces, with small stand-ins for the compression and
-- yespower.
use soj_civic_light.Prelude.{
  ℕ, ◌+◌, ◌-◌, ◌%◌, ◌^◌, ◌≤◌, ◌≡◌, refl, true, false, ◌⊎◌, List, [], ◌∷◌, ◌++◌, arith, get_or,
  replicate,
}
use soj_civic_light.Target.{Hash, valid_hash}
use soj_civic_light.Pow.{Params, Impl, avx2}
use soj_civic_light.Scan.Loop.{shares}
use soj_civic_light.Scan.Headers.{pow_at, scanhash-shares}
use soj_civic_light.Scan.{bswap_32, edata_of, scan, scanhash_civiclight}

abbrev mix : List ℕ → List ℕ → List ℕ
mix st b = (get_or st 0 0 + get_or b 0 0) % 256 ∷ replicate 7 (get_or b 15 0)

abbrev mix2 : List ℕ → List ℕ → List ℕ → List ℕ → List ℕ × List ℕ
mix2 s t x y = (mix s x, mix t y)

abbrev spread : Params → List ℕ → List ℕ
spread p a = replicate 32 (get_or a 0 0)

abbrev impl : Impl
impl = record { one = spread; two = λ p a b. (spread p a, spread p b); mode = avx2 }

abbrev iv : List ℕ
iv = replicate 8 1

abbrev junk : List ℕ
junk = replicate 64 0xcc

abbrev pdata : List ℕ
pdata = replicate 19 17 ++ (5 ∷ [])

abbrev easy : Hash
easy = record { w0 = 0; w1 = 0; w2 = 0; w3 = 2 ^ 64 - 1 }

-- Nonces 5, 6 and 7 where each hash meets the target.
scan_three :
    (scan (λ n. easy) (λ a b. (easy, easy)) easy false 8 (λ i. false) false 5 5 10).0.submitted
    ≡ (bswap_32 5, easy) ∷ (bswap_32 6, easy) ∷ (bswap_32 7, easy) ∷ []
unfolding scan valid_hash
scan_three = refl

scanhash-shares_example :
    let (s, hashes_done) =
      scanhash_civiclight iv junk mix mix2 impl false false pdata easy 9 (λ i. false) 10 in
    (k : ℕ) × (hashes_done ≡ k)
    × (k ≤ 9 - 1 - 5)
    × ((k ≡ 9 - 1 - 5) ⊎ ((i : ℕ) × (false ≡ true)))
    × (s.submitted ≡ shares (pow_at iv junk mix mix2 impl (edata_of false pdata)) easy 5 k)
    × (s.nonce ≡ 5 + k)
    × (s.stats ≡ (10 + k) % 2 ^ 64)
scanhash-shares_example =
    scanhash-shares iv junk mix mix2 impl refl refl (λ st b. refl) (λ s t x y. refl) (λ a b. refl)
      (λ a. refl) false false pdata easy 9 (λ i. false) 10 refl (omega arith) (omega arith)
      (omega arith) (omega arith)
