-- ===== src/Scan/Result.antt =====
-- algo/civiclight/civiclight.c: what a whole run of `scanhash_civiclight` has done when it returns.
use soj_civic_light.Prelude.{
  ℕ, zero, suc, ◌+◌, ◌-◌, ◌%◌, ◌^◌, ◌≤◌, ◌<◌, ◌≡◌, refl, sym, ap, ap₂, ◌∙◌, Bool, true, false, ◌⊎◌,
  inl, inr, Bool-cases, [], ◌++◌, arith, ltb, ltb_iff, if◌then◌else◌,
}
use soj_civic_light.Target.{Hash}
use soj_civic_light.Scan.Loop.{
  share_of, shares, shares_next, shares_none, Scanned, Ended, looked-Scanned, submit-found,
  two_step-Scanned, goes_on-test, test-goes_on, oneway_loop-Ended,
}
use soj_civic_light.Scan.{
  Scan, civiclight_stats_add_hashes, goes_on, looked, submit_valid, twoway_loop, odd_nonce,
  flush_stats, scan,
}

module _ (hash_one : ℕ → Hash) (hash_two : ℕ → ℕ → Hash × Hash) (target : Hash) (bench : Bool)
    (last_nonce : ℕ) (restart : ℕ → Bool) (first stats : ℕ)
    (two_one : (a b : ℕ) → hash_two a b ≡ (hash_one a, hash_one b)) where
  twoway_loop-Ended :
      (fuel k : ℕ) (s : Scan)
      → last_nonce < 2 ^ 32 - 1
      → first < 2 ^ 32 - 1
      → Scanned hash_one hash_two target bench last_nonce restart first stats k s
      → k ≤ last_nonce - first
      → last_nonce ≤ first + k + fuel
      → Ended hash_one hash_two target bench last_nonce restart first stats 1
          (twoway_loop hash_one hash_two target bench last_nonce restart fuel s)
  unfolding twoway_loop
  twoway_loop-Ended zero k s word start h inside enough = record {
    count = k;
    scanned = h;
    inside = inside;
    whole = inl (omega arith);
  }
  twoway_loop-Ended (suc fuel) k s word start h inside enough =
      let test = ltb ((s.n + 1) % 2 ^ 32) last_nonce in
      let s1 = looked hash_one hash_two target bench last_nonce restart test s in
      let h1 =
        looked-Scanned hash_one hash_two target bench last_nonce restart first stats k s test h in
      elim (Bool-cases (goes_on hash_one hash_two target bench last_nonce restart test s)) [
        | inl on ↦
            let before = (ltb_iff ((s.n + 1) % 2 ^ 32) last_nonce).0 (
              test-goes_on hash_one hash_two target bench last_nonce restart first stats test s
                on) in
            rw on (
              twoway_loop-Ended fuel (k + 2) _ word start
                (two_step-Scanned hash_one hash_two target bench last_nonce restart first stats
                  two_one k s1 h1 (omega (arith, h.place)))
                (omega (arith, h.place)) (omega arith))
        | inr off ↦ rw off record {
          count = k;
          scanned = h1;
          inside = inside;
          whole =
              elim (goes_on-test hash_one hash_two target bench last_nonce restart first stats test
                s off) [ inl done ↦ inl (ground (arith, h.place)) | inr seen ↦ inr seen ];
        }
      ]

  -- What a run leaves behind: `k` nonces were hashed, each share among them was submitted in order,
  -- and each hash was counted.
  abbrev pub Outcome : ℕ → Scan → Type 0
  Outcome k s =
      (k ≤ last_nonce - first)
      × ((k ≡ last_nonce - first) ⊎ ((i : ℕ) × (restart i ≡ true)))
      × (s.n ≡ first + k)
      × (s.submitted ≡ (if bench then [] else shares hash_one target first k))
      × (s.stats ≡ (if bench then stats else (stats + k) % 2 ^ 64))

  flush-stats :
      (s : Scan)
      → s.stats < 2 ^ 64
      → (bench ≡ true → s.stats_batch ≡ 0)
      → let s1 = flush_stats hash_one hash_two target bench last_nonce restart s in
        (s1.stats ≡ (s.stats + s.stats_batch) % 2 ^ 64)
        × (s1.n ≡ s.n)
        × (s1.submitted ≡ s.submitted)
  unfolding flush_stats civiclight_stats_add_hashes
  flush-stats s fits quiet = ground arith

  abbrev one_more : Scan → Scan
  one_more s = if bench then s else record s { stats_batch = (s.stats_batch + 1) % 2 ^ 32 }

  one_more-total :
      (k : ℕ) (s : Scan)
      → Scanned hash_one hash_two target bench last_nonce restart first stats k s
      → let s2 = one_more s in
        ((s2.stats + s2.stats_batch) % 2 ^ 64
          ≡ (if bench then stats else (stats + (k + 1)) % 2 ^ 64))
        × (s2.stats < 2 ^ 64)
        × (bench ≡ true → s2.stats_batch ≡ 0)
        × (s2.submitted ≡ s.submitted)
  one_more-total k s h = ground (arith, h.quiet, h.total, h.fits, h.batch)

  odd_flush-Outcome :
      (left : ℕ) (s : Scan)
      → last_nonce < 2 ^ 32
      → stats < 2 ^ 64
      → left ≤ 1
      → Ended hash_one hash_two target bench last_nonce restart first stats left s
      → (k : ℕ) × Outcome k (
          flush_stats hash_one hash_two target bench last_nonce restart
            (odd_nonce hash_one hash_two target bench last_nonce restart s))
  unfolding odd_nonce
  odd_flush-Outcome left s word stats_word small h =
      let k = h.count in
      let test = ltb s.n last_nonce in
      let all = shares hash_one target first in
      let s1 = looked hash_one hash_two target bench last_nonce restart test s in
      let h1 =
        looked-Scanned hash_one hash_two target bench last_nonce restart first stats k s test
          h.scanned in
      elim (Bool-cases (goes_on hash_one hash_two target bench last_nonce restart test s)) [
        | inl on ↦
            let before = (ltb_iff s.n last_nonce).0 (
              test-goes_on hash_one hash_two target bench last_nonce restart first stats test s
                on) in
            let (total, fits, quiet, same) = one_more-total k s1 h1 in
            let (found, stats_kept, batch_kept) =
              submit-found hash_one hash_two target bench last_nonce restart first stats s.n
                (one_more s1) (all k) (same ∙ h1.found) in
            let sent =
              submit_valid hash_one hash_two target bench last_nonce restart s.n (hash_one s.n)
                (one_more s1) in
            let s3 = record sent { n = (s.n + 1) % 2 ^ 32 } in
            let (total3, place3, found3) =
              flush-stats s3 (omega arith) (λ b. omega (arith, quiet b)) in
            let upto =
              ap (λ n. if bench then [] else all k ++ share_of hash_one target n) h.scanned.place
              ∙ ap (λ x. if bench then [] else x) (sym (shares_next hash_one target first k)) in
            rw on (
              k + 1,
              (
                omega (arith, h.scanned.place),
                elim h.whole [
                  | inl all_but ↦ inl (omega (arith, h.scanned.place))
                  | inr seen ↦ inr seen
                ],
                place3 ∙ omega (arith, h.scanned.place),
                found3 ∙ found ∙ upto,
                total3 ∙ ap₂ (λ x y. (x + y) % 2 ^ 64) stats_kept batch_kept ∙ total,
              ),
            )
        | inr off ↦
            let (total, place, found) = flush-stats s1 h1.fits h1.quiet in
            rw off (
              k,
              (
                h.inside,
                elim (goes_on-test hash_one hash_two target bench last_nonce restart first stats
                    test s off) [
                      | inr seen ↦ inr seen
                      | inl done ↦ elim h.whole [
                        | inr seen ↦ inr seen
                        | inl all_but ↦ inl (ground (arith, h.scanned.place, h.inside))
                      ]
                    ],
                place ∙ h1.place,
                found ∙ h1.found,
                total ∙ h1.total,
              ),
            )
      ]

  abbrev start : ℕ → Scan
  start nonce = record {
    n = first;
    stats_batch = 0;
    stats = stats;
    nonce = nonce;
    reads = 0;
    submitted = [];
  }

  start-Scanned :
      (nonce : ℕ)
      → stats < 2 ^ 64
      → Scanned hash_one hash_two target bench last_nonce restart first stats 0 (start nonce)
  start-Scanned nonce word = record {
    place = omega arith;
    found = ground (arith, shares_none hash_one target first);
    total = ground arith;
    fits = word;
    batch = omega arith;
    quiet = λ b. refl;
  }

  -- In both builds a scan of the nonces from `first` up to `last_nonce` hashes `k` of them, in order
  -- and each once, reports `k`, submits exactly the shares among them, and counts `k` hashes; it
  -- stops early only when the restart flag is set. A benchmark submits and counts nothing.
  pub scan-Outcome :
      (oneway : Bool) (nonce : ℕ)
      → last_nonce < 2 ^ 32 - 1
      → first < 2 ^ 32 - 1
      → stats < 2 ^ 64
      → let result =
          scan hash_one hash_two target bench last_nonce restart oneway first nonce stats in
        (k : ℕ) × Outcome k result.0 × (result.0.nonce ≡ first + k) × (result.1 ≡ k)
  unfolding scan
  scan-Outcome true nonce word low stats_word =
      let h = start-Scanned nonce stats_word in
      let (k, result) = odd_flush-Outcome 0 _ (omega arith) stats_word (omega arith) (
        oneway_loop-Ended hash_one hash_two target bench last_nonce restart first stats last_nonce 0
          (start nonce) (omega arith) h (omega arith) (omega arith)) in
      (k, result, result.2, omega (arith, result.0, result.2))
  scan-Outcome false nonce word low stats_word =
      let h = start-Scanned nonce stats_word in
      let (k, result) =
        odd_flush-Outcome 1 _ (omega arith) stats_word (omega arith)
          (twoway_loop-Ended last_nonce 0 (start nonce) word low h (omega arith) (omega arith)) in
      (k, result, result.2, omega (arith, result.0, result.2))
