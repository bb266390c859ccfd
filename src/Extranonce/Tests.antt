-- ===== src/Extranonce/Tests.antt =====
-- soj.c: an extranonce of two bytes that carries.
use soj_civic_light.Prelude.{ℕ, ◌≡◌, refl, List, [], ◌∷◌, arith}
use soj_civic_light.Extranonce.{after_works}
use soj_civic_light.Extranonce.Counter.{Stepped, after_works-Stepped}

abbrev coinbase : List ℕ
coinbase = 7 ∷ 254 ∷ 0 ∷ 9 ∷ []

carries : after_works 3 1 2 coinbase ≡ 7 ∷ 1 ∷ 1 ∷ 9 ∷ []
unfolding after_works
carries = refl

after_works-Stepped_example : Stepped 3 1 2 coinbase (after_works 3 1 2 coinbase)
after_works-Stepped_example =
    after_works-Stepped 3 1 2 coinbase
      (omega arith, (omega arith, (omega arith, (omega arith, tt)))) (omega arith) (omega arith)
