-- ===== src/Scan/Loop.antt =====
-- algo/civiclight/civiclight.c: what the loops of `scanhash_civiclight` hash, submit and count.
use soj_civic_light.Prelude.{
  ◌⊎◌, refl, ℕ, zero, suc, ◌+◌, ◌-◌, ◌%◌, ◌^◌, ◌≤◌, ◌<◌, ◌≡◌, sym, ap, ap₂, ◌∙◌, Bool, true, false,
  inl, inr, Bool-cases, List, [], ◌∷◌, ◌++◌, append-nil, arith, ltb, ltb_iff, subst, if◌then◌else◌,
}
use soj_civic_light.Target.{Hash, valid_hash}
use soj_civic_light.Scan.{
  Scan, bswap_32, civiclight_stats_add_hashes, goes_on, looked, count_hashes, submit_valid,
  one_step, two_step, oneway_loop,
}

-- The share that a nonce gives, if its hash meets the target.
pub share_of : (ℕ → Hash) → Hash → ℕ → List (ℕ × Hash)
share_of hash_one target n =
    if valid_hash (hash_one n) target then (bswap_32 n, hash_one n) ∷ [] else []

-- The shares among `k` nonces from `first` on, in order.
pub shares : (ℕ → Hash) → Hash → ℕ → ℕ → List (ℕ × Hash)
unfolding share_of
shares hash_one target first zero = []
shares hash_one target first (suc k) =
    shares hash_one target first k ++ share_of hash_one target (first + k)

pub shares_next :
    (hash_one : ℕ → Hash) (target : Hash) (first k : ℕ)
    → shares hash_one target first (k + 1)
      ≡ shares hash_one target first k ++ share_of hash_one target (first + k)
unfolding shares
shares_next hash_one target first k =
    ap (shares hash_one target first) (let e : k + 1 ≡ suc k = omega arith in e)

pub shares_none :
    (hash_one : ℕ → Hash) (target : Hash) (first : ℕ) → shares hash_one target first 0 ≡ []
unfolding shares
shares_none hash_one target first = refl

module _ (hash_one : ℕ → Hash) (hash_two : ℕ → ℕ → Hash × Hash) (target : Hash) (bench : Bool)
    (last_nonce : ℕ) (restart : ℕ → Bool) (first stats : ℕ) where
  -- After `k` nonces from `first` on.
  pub record Scanned (k : ℕ) (s : Scan) : Type 0 where
    pub place : s.n ≡ first + k
    pub found : s.submitted ≡ (if bench then [] else shares hash_one target first k)
    pub total : (s.stats + s.stats_batch) % 2 ^ 64 ≡ (if bench then stats else (stats + k) % 2 ^ 64)
    pub fits : s.stats < 2 ^ 64
    pub batch : s.stats_batch < 256
    pub quiet : bench ≡ true → s.stats_batch ≡ 0

  pub looked-Scanned :
      (k : ℕ) (s : Scan) (test : Bool)
      → Scanned k s
      → Scanned k (looked hash_one hash_two target bench last_nonce restart test s)
  unfolding looked
  looked-Scanned k s true h = record {
    place = h.place;
    found = h.found;
    total = h.total;
    fits = h.fits;
    batch = h.batch;
    quiet = h.quiet;
  }
  looked-Scanned k s false h = h

  count-total :
      (j k : ℕ) (s : Scan)
      → Scanned k s
      → j ≤ 2
      → let next = count_hashes hash_one hash_two target bench last_nonce restart j s in
        ((next.stats + next.stats_batch) % 2 ^ 64
          ≡ (if bench then stats else (stats + (k + j)) % 2 ^ 64))
        × (next.stats < 2 ^ 64)
        × (next.stats_batch < 256)
        × (next.submitted ≡ s.submitted)
        × (bench ≡ true → next.stats_batch ≡ 0)
  unfolding count_hashes civiclight_stats_add_hashes
  count-total j k s h small = ground (arith, h.quiet)

  pub submit-found :
      (n : ℕ) (s : Scan) (before : List (ℕ × Hash))
      → s.submitted ≡ (if bench then [] else before)
      → let next =
          submit_valid hash_one hash_two target bench last_nonce restart n (hash_one n) s in
        (next.submitted ≡ (if bench then [] else before ++ share_of hash_one target n))
        × (next.stats ≡ s.stats)
        × (next.stats_batch ≡ s.stats_batch)
  unfolding submit_valid share_of
  submit-found n s before h = ground (arith, append-nil before)

  -- A state that hashed `j` more nonces.
  advance :
      (j k : ℕ) (s next : Scan)
      → next.n ≡ first + (k + j)
      → next.submitted ≡ (if bench then [] else shares hash_one target first (k + j))
      → (let counted = count_hashes hash_one hash_two target bench last_nonce restart j s in
          (next.stats ≡ counted.stats) × (next.stats_batch ≡ counted.stats_batch))
      → Scanned k s
      → j ≤ 2
      → Scanned (k + j) next
  advance j k s next place found (stats_kept, batch_kept) h small =
      let (total, fits, batch, same, quiet) = count-total j k s h small in
      record {
        place = place;
        found = found;
        total = ap₂ (λ x y. (x + y) % 2 ^ 64) stats_kept batch_kept ∙ total;
        fits = omega arith;
        batch = omega arith;
        quiet = λ b. omega (arith, quiet b);
      }

  one_step-Scanned :
      (k : ℕ) (s : Scan)
      → Scanned k s
      → first + k + 1 < 2 ^ 32
      → Scanned (k + 1) (one_step hash_one hash_two target bench last_nonce restart s)
  unfolding one_step shares
  one_step-Scanned k s h bound =
      let (total, fits, batch, same, quiet) = count-total 1 k s h (omega arith) in
      let counted = count_hashes hash_one hash_two target bench last_nonce restart 1 s in
      let all = shares hash_one target first in
      let (found, stats_kept, batch_kept) = submit-found s.n counted (all k) (same ∙ h.found) in
      let upto =
        ap (λ n. if bench then [] else all k ++ share_of hash_one target n) h.place
        ∙ ap (λ i. if bench then [] else all i) (let e : suc k ≡ k + 1 = omega arith in e) in
      advance 1 k s _ (omega (arith, h.place)) (found ∙ upto) (stats_kept, batch_kept) h
        (omega arith)

  module _ (two_one : (a b : ℕ) → hash_two a b ≡ (hash_one a, hash_one b)) where
    pub two_step-Scanned :
        (k : ℕ) (s : Scan)
        → Scanned k s
        → first + k + 2 < 2 ^ 32
        → Scanned (k + 2) (two_step hash_one hash_two target bench last_nonce restart s)
    unfolding two_step shares
    two_step-Scanned k s h bound =
        let (total, fits, batch, same, quiet) = count-total 2 k s h (omega arith) in
        let counted = count_hashes hash_one hash_two target bench last_nonce restart 2 s in
        let submit = submit_valid hash_one hash_two target bench last_nonce restart in
        let n1 = (s.n + 1) % 2 ^ 32 in
        let all = shares hash_one target first in
        let share = share_of hash_one target in
        let (found0, stats0, batch0) = submit-found s.n counted (all k) (same ∙ h.found) in
        let s1 = submit s.n (hash_one s.n) counted in
        let (found1, stats1, batch1) = submit-found n1 s1 (all k ++ share s.n) found0 in
        let upto =
          ap₂ (λ n m. if bench then [] else (all k ++ share n) ++ share m) h.place
            (let e : n1 ≡ first + suc k = omega (arith, h.place) in e)
          ∙ ap (λ i. if bench then [] else all i)
              (let e : suc (suc k) ≡ k + 2 = omega arith in e) in
        let pair =
          ap (λ p. record (submit n1 p.1 (submit s.n p.0 counted)) { n = (s.n + 2) % 2 ^ 32 })
            (two_one s.n n1) in
        subst (Scanned (k + 2)) (sym pair) (
          advance 2 k s (record (submit n1 (hash_one n1) s1) { n = (s.n + 2) % 2 ^ 32 })
            (omega (arith, h.place)) (found1 ∙ upto) (stats1 ∙ stats0, batch1 ∙ batch0) h
            (omega arith))

  -- Where a loop ends: all but `left` nonces were hashed, unless the flag was seen.
  pub record Ended (left : ℕ) (s : Scan) : Type 0 where
    pub count : ℕ
    pub scanned : Scanned count s
    pub inside : count ≤ last_nonce - first
    pub whole : (last_nonce ≤ first + count + left) ⊎ ((i : ℕ) × (restart i ≡ true))

  pub goes_on-test :
      (test : Bool) (s : Scan)
      → goes_on hash_one hash_two target bench last_nonce restart test s ≡ false
      → (test ≡ false) ⊎ ((i : ℕ) × (restart i ≡ true))
  unfolding goes_on
  goes_on-test true s h = inr (s.reads, ground arith)
  goes_on-test false s h = inl refl

  pub test-goes_on :
      (test : Bool) (s : Scan)
      → goes_on hash_one hash_two target bench last_nonce restart test s ≡ true
      → test ≡ true
  unfolding goes_on
  test-goes_on test s h = ground arith

  pub oneway_loop-Ended :
      (fuel k : ℕ) (s : Scan)
      → last_nonce < 2 ^ 32
      → Scanned k s
      → k ≤ last_nonce - first
      → last_nonce ≤ first + k + fuel
      → Ended 0 (oneway_loop hash_one hash_two target bench last_nonce restart fuel s)
  unfolding oneway_loop
  oneway_loop-Ended zero k s word h inside enough = record {
    count = k;
    scanned = h;
    inside = inside;
    whole = inl (omega arith);
  }
  oneway_loop-Ended (suc fuel) k s word h inside enough =
      let test = ltb s.n last_nonce in
      let s1 = looked hash_one hash_two target bench last_nonce restart test s in
      let h1 = looked-Scanned k s test h in
      elim (Bool-cases (goes_on hash_one hash_two target bench last_nonce restart test s)) [
        | inl on ↦
            let before = (ltb_iff s.n last_nonce).0 (test-goes_on test s on) in
            rw on (
              oneway_loop-Ended fuel (k + 1) _ word
                (one_step-Scanned k s1 h1 (omega (arith, h.place))) (omega (arith, h.place))
                (omega arith))
        | inr off ↦ rw off record {
          count = k;
          scanned = h1;
          inside = inside;
          whole = elim (goes_on-test test s off) [
            | inl done ↦ inl (ground (arith, h.place))
            | inr seen ↦ inr seen
          ];
        }
      ]
