-- ===== src/Extranonce.antt =====
-- soj.c: the second extranonce that `stratum_gen_work` steps on after each work.
pub mod Counter
mod Tests
use soj_civic_light.Prelude.{
  ℕ, zero, suc, ◌+◌, ◌%◌, List, [], ◌∷◌, ◌++◌, ◌==◌, if◌then◌else◌, take, drop,
}

-- The loop over the bytes, up to the first that does not become 0.
pub step_bytes : ℕ → List ℕ → List ℕ
step_bytes zero xs = xs
step_bytes (suc size) [] = []
step_bytes (suc size) (x ∷ xs) =
    let x1 = (x + 1) % 256 in
    let rest = step_bytes size xs in if x1 == 0 then x1 ∷ rest else x1 ∷ xs

-- The extranonce is `size` bytes of the coinbase from `at` on.
pub step_xnonce2 : (at size : ℕ) → List ℕ → List ℕ
unfolding step_bytes
step_xnonce2 at size coinbase = take at coinbase ++ step_bytes size (drop at coinbase)

-- The coinbase after some works.
pub after_works : (works at size : ℕ) → List ℕ → List ℕ
unfolding step_xnonce2
after_works zero at size coinbase = coinbase
after_works (suc works) at size coinbase = after_works works at size (step_xnonce2 at size coinbase)
