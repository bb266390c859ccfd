-- ===== src/Scan/Headers.antt =====
-- algo/civiclight/civiclight.c: the headers that `scanhash_civiclight` hashes, and its result in
-- terms of the proof-of-work hash of each.
use soj_civic_light.Prelude.{
  ℕ, zero, suc, ◌+◌, ◌-◌, ◌*◌, ◌/◌, ◌%◌, ◌^◌, ◌≤◌, ◌<◌, ◌≡◌, refl, sym, ap, ap₂, ◌∙◌, subst, Bool,
  true, false, ◌⊎◌, List, [], ◌∷◌, arith, if◌then◌else◌, length, length-set, get_or, set, take, map,
}
use soj_civic_light.Target.{Hash}
use soj_civic_light.Sha.Spec.{Holds}
use soj_civic_light.Sha.Stream.{init-Holds, update-Holds}
use soj_civic_light.Pow.{Impl, params_v2, civiclight_powhash}
use soj_civic_light.Pow.TwoWay.{midstate-powhash, two_powhash}
use soj_civic_light.Scan.Loop.{shares}
use soj_civic_light.Scan.Result.{scan-Outcome}
use soj_civic_light.Scan.{
  bswap_32, memory, as_hash, edata_of, header_at, midstate_of, hash_nonce, hash_nonces,
  scanhash_civiclight,
}

length-memory : (ws : List ℕ) → length (memory ws) ≡ 4 * length ws
unfolding memory
length-memory [] = refl
length-memory (w ∷ ws) = omega (arith, length-memory ws)

-- A store in a later word leaves the bytes of the first `k` words.
memory_front :
    (k i : ℕ) (ws : List ℕ) (v : ℕ)
    → k ≤ i
    → take (k * 4) (memory (set ws i v)) ≡ take (k * 4) (memory ws)
unfolding memory
memory_front zero i ws v h = refl
memory_front (suc k) i [] v h = refl
memory_front (suc k) zero (w ∷ ws) v h = absurd (omega arith)
memory_front (suc k) (suc i) (w ∷ ws) v h =
    let e : suc k * 4 ≡ suc (suc (suc (suc (k * 4)))) = omega arith in
    let ih = memory_front k i ws v (omega arith) in
    ap (λ n. take n (memory (w ∷ set ws i v))) e
    ∙ ap (λ t. w % 2 ^ 8 ∷ w / 2 ^ 8 % 2 ^ 8 ∷ w / 2 ^ 16 % 2 ^ 8 ∷ w / 2 ^ 24 % 2 ^ 8 ∷ t) ih
    ∙ ap (λ n. take n (memory (w ∷ ws))) (sym e)

length-bswap : (ws : List ℕ) → length (map bswap_32 ws) ≡ length ws
length-bswap [] = refl
length-bswap (w ∷ ws) = ap suc (length-bswap ws)

length-edata_of : (bench : Bool) (pdata : List ℕ) → length (edata_of bench pdata) ≡ length pdata
unfolding edata_of
length-edata_of true pdata = length-set (map bswap_32 pdata) 17 _ ∙ length-bswap pdata
length-edata_of false pdata = length-bswap pdata

module _ (iv fresh : List ℕ) (transform : List ℕ → List ℕ → List ℕ)
    (transform2 : List ℕ → List ℕ → List ℕ → List ℕ → List ℕ × List ℕ) (impl : Impl) where
  -- The hash of the header with a nonce.
  abbrev pub pow_at : List ℕ → ℕ → Hash
  pow_at edata n =
      as_hash (civiclight_powhash iv fresh transform transform2 impl (header_at edata n))

module _ (iv fresh : List ℕ) (transform : List ℕ → List ℕ → List ℕ)
    (transform2 : List ℕ → List ℕ → List ℕ → List ℕ → List ℕ × List ℕ) (impl : Impl)
    (room : length fresh ≡ 64) (iv_words : length iv ≡ 8)
    (transform_words : (st b : List ℕ) → length (transform st b) ≡ 8)
    (two_transforms : (s t x y : List ℕ) → transform2 s t x y ≡ (transform s x, transform t y))
    (two_yespowers : (a b : List ℕ)
      → impl.two params_v2 a b ≡ (impl.one params_v2 a, impl.one params_v2 b))
    (yespower_bytes : (a : List ℕ) → length (impl.one params_v2 a) ≡ 32) where
  length-header_at : (edata : List ℕ) (n : ℕ) → length edata ≡ 20 → length (header_at edata n) ≡ 80
  unfolding header_at
  length-header_at edata n h = omega (arith, length-memory (set edata 19 n), length-set edata 19 n)

  midstate-Holds :
      (edata : List ℕ) (n : ℕ)
      → Holds transform iv
          (take 64 (header_at edata n))
          (midstate_of iv fresh transform transform2 impl edata)
  unfolding header_at midstate_of
  midstate-Holds edata n =
      subst (λ m. Holds transform iv m (midstate_of iv fresh transform transform2 impl edata))
        (sym (memory_front 16 19 edata n (omega arith)))
        (update-Holds transform iv [] _ (take 64 (memory edata))
          (init-Holds transform iv fresh room))

  hash_nonce-pow :
      (edata : List ℕ) (n : ℕ)
      → length edata ≡ 20
      → hash_nonce iv fresh transform transform2 impl edata n
        ≡ pow_at iv fresh transform transform2 impl edata n
  unfolding hash_nonce
  hash_nonce-pow edata n h = ap as_hash (
      midstate-powhash iv fresh transform transform2 impl room iv_words transform_words
        two_transforms two_yespowers yespower_bytes (header_at edata n) _
        (length-header_at edata n h) (midstate-Holds edata n))

  hash_nonces-pow :
      (edata : List ℕ) (a b : ℕ)
      → length edata ≡ 20
      → hash_nonces iv fresh transform transform2 impl edata a b ≡ (
        pow_at iv fresh transform transform2 impl edata a,
        pow_at iv fresh transform transform2 impl edata b,
      )
  unfolding hash_nonces header_at
  hash_nonces-pow edata a b h =
      let front = λ (n : ℕ). memory_front 16 19 edata n (omega arith) in
      ap (λ p. (as_hash p.0, as_hash p.1))
        (two_powhash iv fresh transform transform2 impl room iv_words transform_words two_transforms
          two_yespowers yespower_bytes (header_at edata a) (header_at edata b) _
          (length-header_at edata a h) (length-header_at edata b h) (front a ∙ sym (front b))
          (midstate-Holds edata a))

  -- On a work of 20 words, for max_nonce from 1 to 2 ^ 32 - 1 and a first nonce below 2 ^ 32 - 1, both
  -- builds of the scan hash `k` nonces from the first on, in order and each once, and report `k`: all
  -- up to max_nonce - 1, or fewer only if the restart flag was set. They submit exactly the shares
  -- among these by the proof-of-work hash of the header with the nonce, in order, leave the next
  -- nonce in the work, and count `k` hashes. A benchmark submits and counts nothing.
  pub scanhash-shares :
      (oneway bench : Bool) (pdata : List ℕ) (target : Hash) (max_nonce : ℕ) (restart : ℕ → Bool)
      (stats : ℕ)
      → length pdata ≡ 20
      → 1 ≤ max_nonce
      → max_nonce < 2 ^ 32
      → get_or pdata 19 0 < 2 ^ 32 - 1
      → stats < 2 ^ 64
      → let first = get_or pdata 19 0 in
        let (s, hashes_done) =
          scanhash_civiclight iv fresh transform transform2 impl oneway bench pdata target max_nonce
            restart stats in
        (k : ℕ) × (hashes_done ≡ k)
        × (k ≤ max_nonce - 1 - first)
        × ((k ≡ max_nonce - 1 - first) ⊎ ((i : ℕ) × (restart i ≡ true)))
        × (s.submitted ≡ (
            if bench
            then []
            else shares
                (pow_at iv fresh transform transform2 impl (edata_of bench pdata))
                target
                first
                k))
        × (s.nonce ≡ first + k)
        × (s.stats ≡ (if bench then stats else (stats + k) % 2 ^ 64))
  unfolding scanhash_civiclight
  scanhash-shares oneway bench pdata target max_nonce restart stats size low high start word =
      let first = get_or pdata 19 0 in
      let edata = edata_of bench pdata in
      let size_e = length-edata_of bench pdata ∙ size in
      let one = hash_nonce iv fresh transform transform2 impl edata in
      let one_pow : one ≡ pow_at iv fresh transform transform2 impl edata =
        λ i n. hash_nonce-pow edata n size_e i in
      let two_one = λ (a b : ℕ).
        hash_nonces-pow edata a b size_e
        ∙ sym
            (ap₂ (λ x y. (x, y)) (hash_nonce-pow edata a size_e) (hash_nonce-pow edata b size_e)) in
      let last : (max_nonce + (2 ^ 32 - 1)) % 2 ^ 32 ≡ max_nonce - 1 = omega arith in
      let (k, (inside, whole, place, found, total), nonce, done) =
        scan-Outcome one (hash_nonces iv fresh transform transform2 impl edata) target bench
          ((max_nonce + (2 ^ 32 - 1)) % 2 ^ 32) restart first stats two_one oneway first
          (omega arith) start word in
      (
        k,
        done,
        omega arith,
        subst (λ l. (k ≡ l - first) ⊎ ((i : ℕ) × (restart i ≡ true))) last whole,
        found ∙ ap (λ f. if bench then [] else shares f target first k) one_pow,
        nonce,
        total,
      )
