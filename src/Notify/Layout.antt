-- ===== src/Notify/Layout.antt =====
-- soj_stratum_methods.c: the coinbase that `stratum_notify` lays out, and the job on every branch.
use soj_civic_light.Prelude.{
  ℕ, zero, suc, ◌+◌, ◌-◌, ◌/◌, ◌≤◌, ◌<◌, ◌≡◌, refl, sym, ap, ap₂, ◌∙◌, Bool, true, false, some,
  List, [], ◌∷◌, ◌++◌, append_assoc, append-nil, arith, if◌then◌else◌, length, take, drop,
  replicate, All, length-append, length-replicate, length-take, length-drop, take-append-drop,
}
use soj_civic_light.Hex.Spec.{decode}
use soj_civic_light.Hex.Decode.{decode-length, hex2bin-decode}
use soj_civic_light.Notify.{
  first_parts, reset_xnonce2, last_part, Pool, Strings, stored, overlay, is_same_job,
  build_coinbase,
}

take-front : (xs ys : List ℕ) → take (length xs) (xs ++ ys) ≡ xs
take-front [] ys = refl
take-front (x ∷ xs) ys = ap (◌∷◌ x) (take-front xs ys)

drop-front : (xs ys : List ℕ) (k : ℕ) → drop (length xs + k) (xs ++ ys) ≡ drop k ys
drop-front [] ys k = ap (λ n. drop n ys) (let e : 0 + k ≡ k = omega arith in e)
drop-front (x ∷ xs) ys k =
    ap (λ n. drop n (x ∷ (xs ++ ys)))
      (let e : suc (length xs) + k ≡ suc (length xs + k) = omega arith in e)
    ∙ drop-front xs ys k

overlay-front :
    (xs bytes ys : List ℕ)
    → overlay (length xs) bytes (xs ++ ys) ≡ xs ++ (bytes ++ drop (length bytes) ys)
overlay-front xs bytes ys =
    ap₂ (λ a b. a ++ (bytes ++ b)) (take-front xs ys) (drop-front xs ys (length bytes))

-- A string of hexadecimal digits for as many bytes as the buffer is told to take.
stored-decode :
    (buf s bs : List ℕ)
    → All (λ c. c < 128) s
    → decode s ≡ some bs
    → stored buf s (length s / 2) ≡ bs ++ drop (length bs) buf
stored-decode buf s bs small e =
    let n = decode-length s e in
    let half : length s / 2 ≡ length bs = omega (arith, n) in
    let none_left : length bs - length bs ≡ 0 = omega arith in
    ap (λ k. stored buf s k) half
    ∙ ap (λ w. w.buf) (hex2bin-decode buf s bs (length bs) small e (omega arith))
    ∙ ap (λ k. bs ++ (replicate k 0 ++ drop (length bs) buf)) none_left

take-past : (xs ys : List ℕ) (k : ℕ) → take (length xs + k) (xs ++ ys) ≡ xs ++ take k ys
take-past [] ys k = ap (λ n. take n ys) (let e : 0 + k ≡ k = omega arith in e)
take-past (x ∷ xs) ys k =
    ap (λ n. take n (x ∷ (xs ++ ys)))
      (let e : suc (length xs) + k ≡ suc (length xs + k) = omega arith in e)
    ∙ ap (◌∷◌ x) (take-past xs ys k)

drop-all : (n : ℕ) (xs : List ℕ) → length xs ≤ n → drop n xs ≡ []
drop-all zero [] h = refl
drop-all zero (x ∷ xs) h = absurd (omega arith)
drop-all (suc n) [] h = refl
drop-all (suc n) (x ∷ xs) h = drop-all n xs (omega arith)

-- The last part of the coinbase, on a buffer that has just room for it behind the extranonce.
finish :
    (front middle end s bs : List ℕ) (size : ℕ)
    → length middle ≡ size
    → length end ≡ length bs
    → All (λ c. c < 128) s
    → decode s ≡ some bs
    → let buf = front ++ (middle ++ end) in
      last_part (length front + size) s buf ≡ front ++ (middle ++ bs)
unfolding last_part
finish front middle end s bs size len_middle len_end small e =
    let buf = front ++ (middle ++ end) in
    let head =
      take-past front (middle ++ end) size
      ∙ ap (λ n. front ++ take n (middle ++ end)) (sym len_middle)
      ∙ ap (λ t. front ++ t) (take-front middle end) in
    let zero_more : size ≡ length middle + 0 = omega (arith, len_middle) in
    let rest =
      drop-front front (middle ++ end) size
      ∙ ap (λ n. drop n (middle ++ end)) zero_more
      ∙ drop-front middle end 0 in
    ap₂ (λ a b. a ++ stored b s (length s / 2)) head rest
    ∙ ap (λ t. (front ++ middle) ++ t) (stored-decode end s bs small e)
    ∙ ap (λ t. (front ++ middle) ++ (bs ++ t)) (drop-all (length bs) end (omega (arith, len_end)))
    ∙ ap (λ t. (front ++ middle) ++ t) (append-nil bs)
    ∙ append_assoc front middle bs

-- The memory behind the first extranonce, once the block has its new size.
abbrev pub behind : (junk old b1 xnonce1 : List ℕ) → (more : ℕ) → List ℕ
behind junk old b1 xnonce1 more =
    drop (length xnonce1)
      (drop (length b1) (take (length b1 + length xnonce1 + more) (old ++ junk)))

behind-length :
    (junk : List ℕ) (pool : Pool) (b1 : List ℕ) (more : ℕ)
    → length b1 + length pool.xnonce1 + more ≤ length junk
    → length (behind junk pool.job.coinbase b1 pool.xnonce1 more) ≡ more
behind-length junk pool b1 more room =
    let size = length b1 + length pool.xnonce1 + more in
    let grown = take size (pool.job.coinbase ++ junk) in
    omega (
      arith,
      length-drop (length pool.xnonce1) (drop (length b1) grown),
      length-drop (length b1) grown,
      length-take size (pool.job.coinbase ++ junk),
      length-append pool.job.coinbase junk,
    )

middle-length :
    (same : Bool) (rest : List ℕ) (size more : ℕ)
    → length rest ≡ size + more
    → length (if same then take size rest else replicate size 0) ≡ size
middle-length true rest size more h = omega (arith, length-take size rest)
middle-length false rest size more h = length-replicate {A = ℕ} size 0

first_parts-layout :
    (junk : List ℕ) (pool : Pool) (t : Strings) (b1 b2 : List ℕ)
    → All (λ c. c < 128) t.coinb1
    → decode t.coinb1 ≡ some b1
    → decode t.coinb2 ≡ some b2
    → first_parts junk pool t
      ≡ (b1 ++ pool.xnonce1)
        ++ behind junk pool.job.coinbase b1 pool.xnonce1 (pool.xnonce2_size + length b2)
unfolding first_parts
first_parts-layout junk pool t b1 b2 small1 e1 e2 =
    let n1 = length t.coinb1 / 2 in
    let half1 : n1 ≡ length b1 = omega (arith, decode-length t.coinb1 e1) in
    let size : n1 + length pool.xnonce1 + pool.xnonce2_size + length t.coinb2 / 2
        ≡ length b1 + length pool.xnonce1 + (pool.xnonce2_size + length b2) =
      omega (arith, half1, decode-length t.coinb2 e2) in
    let grown =
      take (length b1 + length pool.xnonce1 + (pool.xnonce2_size + length b2))
        (pool.job.coinbase ++ junk) in
    ap (λ n. overlay n1 pool.xnonce1 (stored (take n (pool.job.coinbase ++ junk)) t.coinb1 n1)) size
    ∙ ap (overlay n1 pool.xnonce1) (stored-decode grown t.coinb1 b1 small1 e1)
    ∙ ap (λ n. overlay n pool.xnonce1 (b1 ++ drop (length b1) grown)) half1
    ∙ overlay-front b1 pool.xnonce1 (drop (length b1) grown)
    ∙ sym (append_assoc b1 pool.xnonce1 _)

-- What stands at the place of the second extranonce, and behind it.
reset_xnonce2-layout :
    (front rest : List ℕ) (size : ℕ) (same_job : Bool)
    → reset_xnonce2 (length front) size same_job (front ++ rest)
      ≡ front ++ ((if same_job then take size rest else replicate size 0) ++ drop size rest)
unfolding reset_xnonce2
reset_xnonce2-layout front rest size true = ap (λ t. front ++ t) (sym (take-append-drop size rest))
reset_xnonce2-layout front rest size false =
    overlay-front front (replicate size 0) rest
    ∙ ap (λ n. front ++ (replicate size 0 ++ drop n rest)) (length-replicate {A = ℕ} size 0)

-- Where coinb1 and coinb2 are hexadecimal digits for b1 and b2, and memory grows by enough, the
-- coinbase of a job is b1, the first extranonce, a second extranonce of the size that the pool set,
-- and b2, and nothing more. The second extranonce is zero, unless the pool sends the job that is
-- already there: then it is what the block held at its place.
pub build_coinbase-layout :
    (junk : List ℕ) (pool : Pool) (t : Strings) (b1 b2 : List ℕ)
    → All (λ c. c < 128) t.coinb1
    → All (λ c. c < 128) t.coinb2
    → decode t.coinb1 ≡ some b1
    → decode t.coinb2 ≡ some b2
    → length b1 + length pool.xnonce1 + pool.xnonce2_size + length b2 ≤ length junk
    → let same = is_same_job pool.job.job_id t.job_id in
      let kept =
        take pool.xnonce2_size
          (behind junk pool.job.coinbase b1 pool.xnonce1 (pool.xnonce2_size + length b2)) in
      build_coinbase junk pool t
      ≡ (b1 ++ pool.xnonce1) ++ ((if same then kept else replicate pool.xnonce2_size 0) ++ b2)
unfolding build_coinbase
build_coinbase-layout junk pool t b1 b2 small1 small2 e1 e2 room =
    let same = is_same_job pool.job.job_id t.job_id in
    let x2 = pool.xnonce2_size in
    let front = b1 ++ pool.xnonce1 in
    let rest = behind junk pool.job.coinbase b1 pool.xnonce1 (x2 + length b2) in
    let len_rest : length rest ≡ x2 + length b2 =
      behind-length junk pool b1 (x2 + length b2) (omega arith) in
    let at : length t.coinb1 / 2 + length pool.xnonce1 ≡ length front =
      omega (arith, decode-length t.coinb1 e1, length-append b1 pool.xnonce1) in
    let middle = if same then take x2 rest else replicate x2 0 in
    let len_middle : length middle ≡ x2 = middle-length same rest x2 (length b2) len_rest in
    ap₂ (λ n buf. last_part (n + x2) t.coinb2 (reset_xnonce2 n x2 same buf)) at
      (first_parts-layout junk pool t b1 b2 small1 e1 e2)
    ∙ ap (last_part (length front + x2) t.coinb2) (reset_xnonce2-layout front rest x2 same)
    ∙ finish front middle (drop x2 rest) t.coinb2 b2 x2 len_middle
        (length-drop x2 rest ∙ omega (arith, len_rest)) small2 e2
