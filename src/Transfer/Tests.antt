-- ===== src/Transfer/Tests.antt =====
-- util.c: `all_data_cb` on an answer in three parts.
use soj_civic_light.Prelude.{
  Bool, true, ℕ, ◌-◌, ◌≡◌, ◌≤◌, refl, ap, arith, Option, some, List, [], ◌∷◌, ◌++◌, length,
  length-append, length-replicate, replicate, sym, ◌∙◌, false, ltb, if◌then◌else◌,
}
use mathlib.Core.Option.{some-injective}
use soj_civic_light.Transfer.Parts.{Holds, taken_none, taken_one, all_data_cb-Holds}
use soj_civic_light.Transfer.{DataBuffer, all_data_cb}

-- `realloc` that never fails, for blocks that grow.
abbrev realloc : List ℕ → ℕ → Option (List ℕ)
realloc old n =
    if ltb n (length old) then some (replicate n 0) else some (old ++ replicate (n - length old) 7)

size : (old new : List ℕ) (n : ℕ) → realloc old n ≡ some new → length new ≡ n
size old new n e = by_test (ltb n (length old)) refl e
  where
    by_test :
        (smaller : Bool)
        → ltb n (length old) ≡ smaller
        → (if smaller then some (replicate n 0) else some (old ++ replicate (n - length old) 7))
          ≡ some new
        → length new ≡ n
    by_test true t f = ap length (sym (some-injective _ _ f)) ∙ length-replicate n 0
    by_test false t f =
        let room : length old ≤ n = ground (arith, t) in
        let both = length-append old (replicate (n - length old) 7) in
        let added = length-replicate {A = ℕ} (n - length old) 7 in
        ap length (sym (some-injective _ _ f)) ∙ omega (arith, both, added, room)

keeps :
    (old new : List ℕ) (n : ℕ)
    → realloc old n ≡ some new
    → length old ≤ n
    → (more : List ℕ) × (new ≡ old ++ more)
keeps old new n e big =
    let larger : ltb n (length old) ≡ false = ground (arith, big) in
    (replicate (n - length old) 7, sym (some-injective _ _ (sym (rw (larger) refl) ∙ e)))

abbrev parts : List (List ℕ)
parts = (123 ∷ 34 ∷ []) ∷ [] ∷ (97 ∷ 34 ∷ 125 ∷ []) ∷ []

-- The announced length is too small by one, so the last part makes the block grow.
abbrev after_one : DataBuffer
after_one = record { buf = 123 ∷ 34 ∷ 0 ∷ 7 ∷ 7 ∷ []; len = 2; allocated = 5; headers = some 4 }

abbrev full : DataBuffer
full = record {
  buf = 123 ∷ 34 ∷ 97 ∷ 34 ∷ 125 ∷ 0 ∷ 7 ∷ 7 ∷ 7 ∷ 7 ∷ [];
  len = 5;
  allocated = 10;
  headers = some 4;
}

abbrev empty : DataBuffer
empty = record { buf = []; len = 0; allocated = 0; headers = some 4 }

first_part : all_data_cb realloc (123 ∷ 34 ∷ []) empty ≡ some (2, after_one)
unfolding all_data_cb
first_part = refl

no_part : all_data_cb realloc [] after_one ≡ some (0, after_one)
unfolding all_data_cb
no_part = refl

last_part : all_data_cb realloc (97 ∷ 34 ∷ 125 ∷ []) after_one ≡ some (3, full)
unfolding all_data_cb
last_part = refl

all_data_cb-Holds_example : Holds full (123 ∷ 34 ∷ 97 ∷ 34 ∷ 125 ∷ [])
all_data_cb-Holds_example =
    all_data_cb-Holds realloc (some 4) parts full (record { fits = size; keeps = keeps })
      (omega arith)
      (taken_one _ first_part (taken_one _ no_part (taken_one _ last_part taken_none)))
