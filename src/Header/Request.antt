-- ===== src/Header/Request.antt =====
-- soj_protocol.c and soj_work.c: the text of a request, and the word orders undone.
use soj_civic_light.Prelude.{
  ℕ, zero, suc, ◌+◌, ◌*◌, ◌^◌, ◌≤◌, ◌<◌, ◌≡◌, refl, ap, ap₂, ◌∙◌, Option, some, List, [], ◌∷◌, ◌++◌,
  arith, length, take, drop, All, get_or, length-append,
}
use soj_civic_light.Hex.{bin2hex}
use soj_civic_light.Hex.Encode.{encode, c_string, c_string-bin2hex, length-encode, abin2hex-some}
use soj_civic_light.Sha.{be32}
use soj_civic_light.Scan.{memory, bswap_32}
use soj_civic_light.Header.Merkle.{IsBytes}
use soj_civic_light.Header.{
  le32dec, be32dec, enc_word, words_loop, Words, Share, std_be_work_decode,
  set_work_data_big_endian, submit_head, submit_tail, comma, submit_text, word_text,
  std_le_build_stratum_request, std_be_build_stratum_request,
}

take-all : (n : ℕ) (xs : List ℕ) → length xs ≤ n → take n xs ≡ xs
take-all zero [] h = refl
take-all zero (x ∷ xs) h = absurd (omega arith)
take-all (suc n) [] h = refl
take-all (suc n) (x ∷ xs) h = ap (◌∷◌ x) (take-all n xs (omega arith))

-- A request whole, with the texts of the second extranonce, of the time and of the nonce.
abbrev pub whole_text : (share : Share) → (xnonce2str ntimestr noncestr : List ℕ) → List ℕ
whole_text share xnonce2str ntimestr noncestr =
    submit_head
    ++ (share.user
        ++ (comma
            ++ (share.job_id
                ++ (comma
                    ++ (xnonce2str
                        ++ (comma ++ (ntimestr ++ (comma ++ (noncestr ++ submit_tail)))))))))

submit_text-whole :
    (share : Share) (x t n : List ℕ)
    → length x ≡ length share.xnonce2 * 2
    → length t ≡ 8
    → length n ≡ 8
    → length share.user + length share.job_id + length share.xnonce2 * 2 ≤ 8000
    → submit_text share x t n ≡ whole_text share x t n
unfolding submit_text
submit_text-whole share x t n hx ht hn fits =
    let l = λ (a b : List ℕ). length-append a b in
    let e1 = l n submit_tail in
    let e2 = l t (comma ++ (n ++ submit_tail)) in
    let e3 = l x (comma ++ (t ++ (comma ++ (n ++ submit_tail)))) in
    let e4 = l share.job_id (comma ++ (x ++ (comma ++ (t ++ (comma ++ (n ++ submit_tail)))))) in
    let e5 = l share.user (
      comma
      ++ (share.job_id ++ (comma ++ (x ++ (comma ++ (t ++ (comma ++ (n ++ submit_tail)))))))) in
    take-all 8191 (whole_text share x t n) (omega (arith, e1, e2, e3, e4, e5))

le_text :
    (junk : List ℕ) (w : ℕ)
    → length junk ≡ 9
    → word_text junk (memory (w ∷ [])) ≡ encode (memory (w ∷ []))
unfolding word_text memory
le_text junk w room =
    c_string-bin2hex junk (memory (w ∷ []))
      (omega arith, (omega arith, (omega arith, (omega arith, tt)))) (omega arith) (omega arith)

be_text : (junk : List ℕ) (w : ℕ) → length junk ≡ 9 → word_text junk (be32 w) ≡ encode (be32 w)
unfolding word_text
be_text junk w room =
    c_string-bin2hex junk (be32 w) (omega arith, (omega arith, (omega arith, (omega arith, tt))))
      (omega arith) (omega arith)

memory-bswap_32 : (n : ℕ) → n < 2 ^ 32 → memory (bswap_32 n ∷ []) ≡ be32 n
unfolding memory bswap_32
memory-bswap_32 n h = ground arith

be32-bswap_32 : (n : ℕ) → n < 2 ^ 32 → be32 (bswap_32 n) ≡ memory (n ∷ [])
unfolding memory bswap_32
be32-bswap_32 n h = ground arith

-- Where malloc gives a block and user and job leave room, a work with a second extranonce and with the
-- nonce `n` stored by the scan becomes the whole request: its texts are the digits of the second
-- extranonce, of the time and of the nonce. std_le prints the bytes of `n` highest first and those of
-- the time's word lowest first, std_be the other way round.
pub build_stratum_request-text :
    (fresh : ℕ → Option (List ℕ)) (junk block : List ℕ) (share : Share) (n : ℕ)
    → fresh (length share.xnonce2 * 2 + 1) ≡ some block
    → length block ≡ length share.xnonce2 * 2 + 1
    → length junk ≡ 9
    → IsBytes share.xnonce2
    → 0 < length share.xnonce2
    → get_or share.words 19 0 ≡ bswap_32 n
    → n < 2 ^ 32
    → length share.user + length share.job_id + length share.xnonce2 * 2 ≤ 8000
    → let ntime = get_or share.words 17 0 in
      let xnonce2 = encode share.xnonce2 in
      (std_le_build_stratum_request fresh junk share
        ≡ some (whole_text share xnonce2 (encode (memory (ntime ∷ []))) (encode (be32 n))))
      × (std_be_build_stratum_request fresh junk share
          ≡ some (whole_text share xnonce2 (encode (be32 ntime)) (encode (memory (n ∷ [])))))
unfolding memory std_le_build_stratum_request std_be_build_stratum_request
build_stratum_request-text fresh junk block share n got grown room bytes some_byte at word fits =
    let ntime = get_or share.words 17 0 in
    let x = encode share.xnonce2 in
    let text = c_string-bin2hex block share.xnonce2 bytes some_byte (omega arith) in
    let whole = λ (t m : List ℕ) (ht : length t ≡ 8) (hm : length m ≡ 8).
      submit_text-whole share x t m (length-encode share.xnonce2) ht hm fits in
    let le_nonce =
      le_text junk (get_or share.words 19 0) room
      ∙ ap (λ w. encode (memory (w ∷ []))) at
      ∙ ap encode (memory-bswap_32 n word) in
    let be_nonce =
      be_text junk (get_or share.words 19 0) room
      ∙ ap (λ w. encode (be32 w)) at
      ∙ ap encode (be32-bswap_32 n word) in
    let digits = c_string (bin2hex block share.xnonce2) in
    let built = abin2hex-some fresh block share.xnonce2 got in
    let four = λ (bs : List ℕ) (h : length bs ≡ 4).
      length-encode bs ∙ (let e : length bs * 2 ≡ 8 = omega (arith, h) in e) in
    let texts = λ (t m : List ℕ). ap (λ s. submit_text share s t m) text in
    let time_le = ap₂ (submit_text share digits) (le_text junk ntime room) le_nonce in
    let time_be = ap₂ (submit_text share digits) (be_text junk ntime room) be_nonce in
    rw (built, std_le_build_stratum_request, std_be_build_stratum_request)
      (
        ap some (
            time_le
            ∙ texts _ _
            ∙ whole (encode (memory (ntime ∷ []))) (encode (be32 n)) (four _ refl) (four _ refl)),
        ap some (
            time_be
            ∙ texts _ _
            ∙ whole (encode (be32 ntime)) (encode (memory (n ∷ []))) (four _ refl) (four _ refl)),
      )

undone :
    (f g : ℕ → ℕ)
    → ((w : ℕ) → w < 2 ^ 32 → f (g w) ≡ w)
    → (n m : ℕ) (ws : List ℕ) → n ≤ m
    → All (λ w. w < 2 ^ 32) ws
    → take n (words_loop f n (words_loop g m ws)) ≡ take n ws
unfolding words_loop
undone f g back zero m ws le words = refl
undone f g back (suc n) zero ws le words = absurd (omega arith)
undone f g back (suc n) (suc m) [] le words = refl
undone f g back (suc n) (suc m) (w ∷ ws) le words =
    ap₂ ◌∷◌ (back w words.0) (undone f g back n m ws (omega arith) words.1)

behind : (f : ℕ → ℕ) (n : ℕ) (ws : List ℕ) → drop n (words_loop f n ws) ≡ drop n ws
unfolding words_loop
behind f zero ws = refl
behind f (suc n) [] = refl
behind f (suc n) (w ∷ ws) = behind f n ws

enc-dec : (w : ℕ) → w < 2 ^ 32 → enc_word (be32dec (memory (w ∷ []))) ≡ w
unfolding enc_word be32dec le32dec memory
enc-dec w word = ground arith

-- After `std_be_work_decode` and then `set_work_data_big_endian`, the 19 words before the nonce are as
-- they came, and the other words and the target are as the first of the two left them.
pub decode-big_endian :
    (work : Words)
    → All (λ w. w < 2 ^ 32) work.words
    → let done = set_work_data_big_endian (std_be_work_decode work) in
      (take 19 done.words ≡ take 19 work.words)
      × (drop 19 done.words ≡ drop 19 (std_be_work_decode work).words)
      × (done.target ≡ (std_be_work_decode work).target)
unfolding set_work_data_big_endian std_be_work_decode
decode-big_endian work words = (
  undone enc_word (λ w. be32dec (memory (w ∷ []))) enc-dec 19 32 work.words (omega arith) words,
  behind enc_word 19 (std_be_work_decode work).words,
  refl,
)
