-- ===== src/Extranonce/Counter.antt =====
-- soj.c: the second extranonce is a counter, lowest byte first, and nothing else changes.
use soj_civic_light.Prelude.{
  ℕ, zero, suc, ◌+◌, ◌*◌, ◌%◌, ◌^◌, ◌≤◌, ◌<◌, ◌≡◌, refl, ap, ◌∙◌, inl, inr, Bool-cases, List, [],
  ◌∷◌, arith, ◌==◌, ==_iff, length, take, drop, All,
}
use native.Mathlib.Nat.{pow-suc}
use soj_civic_light.Extranonce.{step_bytes, step_xnonce2, after_works}

-- The number that the first `size` bytes stand for, lowest first.
abbrev pub number : ℕ → List ℕ → ℕ
number zero xs = 0
number (suc size) [] = 0
number (suc size) (x ∷ xs) = x + 256 * number size xs

abbrev pub Bytes : List ℕ → Type 0
Bytes xs = All (λ x. x < 256) xs

-- One step, where the counter does not overflow.
step_bytes-number :
    (size : ℕ) (xs : List ℕ)
    → Bytes xs
    → size ≤ length xs
    → number size xs + 1 < 256 ^ size
    → (number size (step_bytes size xs) ≡ number size xs + 1)
      × (drop size (step_bytes size xs) ≡ drop size xs)
      × (length (step_bytes size xs) ≡ length xs)
      × Bytes (step_bytes size xs)
unfolding step_bytes
step_bytes-number zero xs h long low = absurd (omega arith)
step_bytes-number (suc size) [] h long low = absurd (omega arith)
step_bytes-number (suc size) (x ∷ xs) (hx, hs) long low = elim (Bool-cases ((x + 1) % 256 == 0)) [
  | inl carry ↦
      let full : x ≡ 255 = omega (arith, (==_iff ((x + 1) % 256) 0).0 carry) in
      let (value, behind, long1, small) =
        step_bytes-number size xs hs (omega arith) (omega (arith, pow-suc 256 size)) in
      rw carry (
        omega (arith, value, (==_iff ((x + 1) % 256) 0).0 carry),
        behind,
        ap suc long1,
        (omega arith, small),
      )
  | inr stays ↦
      let room : x + 1 < 256 = ground (arith, stays) in
      rw stays (omega arith, refl, refl, (omega arith, hs))
]

-- The coinbase `d` is `c` with its extranonce `works` higher.
abbrev pub Stepped : (works at size : ℕ) → List ℕ → List ℕ → Type 0
Stepped works at size c d =
    (number size (drop at d) ≡ number size (drop at c) + works)
    × (take at d ≡ take at c)
    × (drop size (drop at d) ≡ drop size (drop at c))
    × (length d ≡ length c)

step-Stepped :
    (at size : ℕ) (c : List ℕ)
    → Bytes c
    → at + size ≤ length c
    → number size (drop at c) + 1 < 256 ^ size
    → Stepped 1 at size c (step_xnonce2 at size c) × Bytes (step_xnonce2 at size c)
unfolding step_xnonce2
step-Stepped zero size c h long low =
    let (value, behind, long1, small) = step_bytes-number size c h (omega arith) low in
    ((value, refl, behind, long1), small)
step-Stepped (suc at) size [] h long low = absurd (omega arith)
step-Stepped (suc at) size (x ∷ c) (hx, hs) long low =
    let ((value, front, behind, long1), small) = step-Stepped at size c hs (omega arith) low in
    ((value, ap (◌∷◌ x) front, behind, ap suc long1), (hx, small))

-- After any number of works that does not overflow it, the second extranonce stands for that much
-- more, lowest byte first; all the other bytes of the coinbase are as before.
pub after_works-Stepped :
    (works at size : ℕ) (c : List ℕ)
    → Bytes c
    → at + size ≤ length c
    → number size (drop at c) + works < 256 ^ size
    → Stepped works at size c (after_works works at size c)
unfolding after_works
after_works-Stepped zero at size c h long low = (omega arith, refl, refl, refl)
after_works-Stepped (suc works) at size c h long low =
    let ((value, front, behind, long1), small) = step-Stepped at size c h long (omega arith) in
    let (value2, front2, behind2, long2) =
      after_works-Stepped works at size (step_xnonce2 at size c) small (omega (arith, long1))
        (omega (arith, value)) in
    (omega (arith, value, value2), front2 ∙ front, behind2 ∙ behind, long2 ∙ long1)
