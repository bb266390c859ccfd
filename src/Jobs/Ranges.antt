-- ===== src/Jobs/Ranges.antt =====
-- soj_work.c and soj.c: the threads scan disjoint nonces.
use soj_civic_light.Prelude.{
  ℕ, zero, suc, ◌+◌, ◌-◌, ◌*◌, ◌/◌, ◌%◌, ◌^◌, ◌≤◌, ◌<◌, ◌≡◌, refl, ◌∙◌, Bool, true, false, inl, inr,
  Bool-cases, List, [], ◌∷◌, arith, length, ◌⊎◌, get_or, set, length-set,
}
use native.Mathlib.Nat.{mul-add, mul-le-mul_left, div-mul-le_self, le-div_iff_mul-le}
use soj_civic_light.Jobs.{
  Work, nonce_of, first_nonce, end_nonce, needs_new_work, std_get_new_work, max_nonce_of,
}

-- The products behind a range: `s` nonces for each thread.
share_bounds :
    (threads thr_id : ℕ)
    → 0 < threads
    → threads ≤ 2 ^ 20
    → thr_id < threads
    → let s = 0xffffffff / threads in
      (4095 ≤ s) × (s * (thr_id + 1) ≡ s * thr_id + s) × (s * thr_id + s ≤ 0xffffffff)
share_bounds threads thr_id some_thread few inside =
    let s = 0xffffffff / threads in
    let next : s * (thr_id + 1) ≡ s * thr_id + s = mul-add s thr_id 1 ∙ omega arith in
    let below = mul-le-mul_left s (let e : thr_id + 1 ≤ threads = omega arith in e) in
    let all = div-mul-le_self 0xffffffff threads in
    ((le-div_iff_mul-le some_thread).1 (omega arith), next, omega (arith, below, all, next))

-- The ranges of two threads, of at most 2 ^ 20, are not empty and lie one behind the other below
-- 2 ^ 32 - 0x20, with 0x20 nonces of each thread left out between them.
pub first_nonce-end_nonce :
    (threads thr_id other : ℕ)
    → threads ≤ 2 ^ 20
    → thr_id < other
    → other < threads
    → (first_nonce threads thr_id < end_nonce threads thr_id)
      × (end_nonce threads thr_id + 0x20 ≤ first_nonce threads other)
      × (first_nonce threads other < end_nonce threads other)
      × (end_nonce threads other < 2 ^ 32 - 0x20)
unfolding first_nonce end_nonce
first_nonce-end_nonce threads thr_id other few before last =
    let s = 0xffffffff / threads in
    let (big, next, top) = share_bounds threads thr_id (omega arith) few (omega arith) in
    let (_, next1, top1) = share_bounds threads other (omega arith) few last in
    let order = mul-le-mul_left s (let e : thr_id + 1 ≤ other = omega arith in e) in
    (
      omega (arith, big, next, top),
      omega (arith, big, next, top, top1, order),
      omega (arith, big, next1, top1),
      omega (arith, big, next1, top1),
    )

range-lt :
    (threads thr_id : ℕ)
    → threads ≤ 2 ^ 20
    → thr_id < threads
    → (first_nonce threads thr_id < end_nonce threads thr_id)
      × (end_nonce threads thr_id < 2 ^ 32 - 0x20)
unfolding first_nonce end_nonce
range-lt threads thr_id few inside =
    let (big, next, top) = share_bounds threads thr_id (omega arith) few inside in
    (omega (arith, big, next, top), omega (arith, big, next, top))

-- The thread's place: its nonce is in its range or at the end of it.
pub record InRange (threads thr_id : ℕ) (w : Work) (end : ℕ) : Type 0 where
  pub words : length w.words ≡ 20
  pub range_end : end ≡ end_nonce threads thr_id
  pub low : first_nonce threads thr_id ≤ nonce_of w
  pub high : nonce_of w ≤ end

get_or-set : (xs : List ℕ) (i v : ℕ) → i < length xs → get_or (set xs i v) i 0 ≡ v
get_or-set [] i v h = absurd (omega arith)
get_or-set (x ∷ xs) zero v h = refl
get_or-set (x ∷ xs) (suc i) v h = get_or-set xs i v (omega arith)

new-InRange :
    (threads thr_id : ℕ) (g : Work)
    → threads ≤ 2 ^ 20
    → thr_id < threads
    → length g.words ≡ 20
    → InRange threads thr_id
        (record g { words = set g.words 19 (first_nonce threads thr_id) })
        (end_nonce threads thr_id)
new-InRange threads thr_id g few inside size =
    let at = get_or-set g.words 19 (first_nonce threads thr_id) (omega arith) in
    record {
      words = length-set g.words 19 _ ∙ size;
      range_end = refl;
      low = omega (arith, at);
      high = omega (arith, at, range-lt threads thr_id few inside);
    }

next-InRange :
    (threads thr_id : ℕ) (w : Work) (end : ℕ)
    → threads ≤ 2 ^ 20
    → thr_id < threads
    → InRange threads thr_id w end
    → nonce_of w < end
    → InRange threads thr_id (record w { words = set w.words 19 ((nonce_of w + 1) % 2 ^ 32) }) end
next-InRange threads thr_id w end few inside h before =
    let at = get_or-set w.words 19 ((nonce_of w + 1) % 2 ^ 32) (omega (arith, h.words)) in
    let range = range-lt threads thr_id few inside in
    record {
      words = length-set w.words 19 _ ∙ h.words;
      range_end = h.range_end;
      low = omega (arith, at, range, h.range_end, h.low);
      high = omega (arith, at, range, h.range_end);
    }

in_range : {A : Type 0} {b : Bool} → b ≡ false → (b ≡ true) ⊎ A → A
in_range none_new (inl new) = absurd (ground arith)
in_range none_new (inr h) = h

nonce_before :
    (strtoul : List ℕ → ℕ) (have_stratum : Bool) (w g : Work) (end : ℕ)
    → needs_new_work strtoul have_stratum w g end ≡ false
    → nonce_of w < end
unfolding needs_new_work
nonce_before strtoul have_stratum w g end same = ground arith

-- std_get_new_work puts a thread at a nonce of its range, for a work of 20 words: whatever the old
-- work was where the program has new work, and else where the old nonce was in the range.
pub get_new_work-InRange :
    (strtoul : List ℕ → ℕ) (have_stratum : Bool) (threads thr_id : ℕ) (w g : Work) (end : ℕ)
    → threads ≤ 2 ^ 20
    → thr_id < threads
    → length g.words ≡ 20
    → (needs_new_work strtoul have_stratum w g end ≡ true) ⊎ InRange threads thr_id w end
    → let (w1, end1) = std_get_new_work strtoul have_stratum threads thr_id w g end in
      InRange threads thr_id w1 end1
unfolding std_get_new_work
get_new_work-InRange strtoul have_stratum threads thr_id w g end few inside size start =
    elim (Bool-cases (needs_new_work strtoul have_stratum w g end)) [
      | inl new ↦ rw (new, std_get_new_work) (new-InRange threads thr_id g few inside size)
      | inr same ↦
          let h = in_range same start in
          let before = nonce_before strtoul have_stratum w g end same in
          rw (same, std_get_new_work) (next-InRange threads thr_id w end few inside h before)
    ]

max_nonce_of-le : (n max64 end : ℕ) → n ≤ end → end < 2 ^ 32 → max_nonce_of n max64 end ≤ end
unfolding max_nonce_of
max_nonce_of-le n max64 end h word = ground arith

-- A scan that starts where std_get_new_work put the thread, and hashes `k` nonces below its bound,
-- hashes nonces of the thread's range only, and leaves the thread in its range.
pub round-InRange :
    (threads thr_id max64 k : ℕ) (w : Work) (end : ℕ)
    → threads ≤ 2 ^ 20
    → thr_id < threads
    → InRange threads thr_id w end
    → k ≤ max_nonce_of (nonce_of w) max64 end - 1 - nonce_of w
    → (first_nonce threads thr_id ≤ nonce_of w)
      × (nonce_of w + k ≤ end_nonce threads thr_id)
      × InRange threads thr_id (record w { words = set w.words 19 (nonce_of w + k) }) end
round-InRange threads thr_id max64 k w end few inside h below =
    let range = range-lt threads thr_id few inside in
    let bound = max_nonce_of-le (nonce_of w) max64 end h.high (omega (arith, range, h.range_end)) in
    let at = get_or-set w.words 19 (nonce_of w + k) (omega (arith, h.words)) in
    let stop : nonce_of w + k ≤ end = omega (arith, h.high) in
    (
      h.low,
      omega (arith, h.range_end),
      record {
        words = length-set w.words 19 _ ∙ h.words;
        range_end = h.range_end;
        low = omega (arith, at, h.low);
        high = omega (arith, at);
      },
    )
