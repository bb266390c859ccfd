-- ===== src/Sha/Digest.antt =====
-- algo/sha/sha256-hash.c: `sha256_final` and `sha256_full` against the padded message.
use soj_civic_light.Prelude.{
  ℕ, zero, suc, ◌+◌, ◌-◌, ◌*◌, ◌/◌, ◌%◌, ◌^◌, ◌≤◌, ◌<◌, ◌≡◌, refl, sym, ap, ap₂, ◌∙◌, inl, inr,
  Bool-cases, List, [], ◌∷◌, ◌++◌, arith, ltb, length, set, take, drop, replicate, All, All-append,
  length-append, length-drop, length-replicate, set-append, append-nil, append_assoc,
}
use soj_civic_light.Sha.{
  Ctx, copy_at, be32, be64, store32, bswap_32, store_state, sha256_ctx_init, sha256_update,
  final_state, sha256_final, sha256_full,
}
use soj_civic_light.Sha.Spec.{zeros, pad, blocks, concat, be_words, fold, digest_state, Holds}
use soj_civic_light.Sha.Stream.{
  take-append, drop-append, copy_at-append, drop-all, concat-append, length-concat, fold-append,
  init-Holds, Holds-ptr, update-Holds,
}

blocks-concat :
    (bs : List (List ℕ)) → All (λ b. length b ≡ 64) bs → blocks (length bs) (concat bs) ≡ bs
blocks-concat [] h = refl
blocks-concat (b ∷ bs) h =
    let first : take 64 (b ++ concat bs) ≡ b =
      ap (λ k. take k (b ++ concat bs)) (sym h.0) ∙ take-append b (concat bs) in
    let at : 64 ≡ length b + 0 = omega (arith, h.0) in
    let rest : drop 64 (b ++ concat bs) ≡ concat bs =
      ap (λ k. drop k (b ++ concat bs)) at ∙ drop-append b (concat bs) 0 in
    ap₂ (λ s t. s ∷ blocks (length bs) t) first rest ∙ ap (◌∷◌ b) (blocks-concat bs h.1)

replicate-add :
    (n k : ℕ) (r : List ℕ) → replicate (n + k) 0 ++ r ≡ replicate n 0 ++ (replicate k 0 ++ r)
replicate-add zero k r = ap (λ j. replicate j 0 ++ r) (let e : 0 + k ≡ k = omega arith in e)
replicate-add (suc n) k r =
    ap (λ j. replicate j 0 ++ r) (let e : suc n + k ≡ suc (n + k) = omega arith in e)
    ∙ ap (◌∷◌ 0) (replicate-add n k r)

cons_of_pos : (xs : List ℕ) → 0 < length xs → (y : ℕ) × (ys : List ℕ) × (xs ≡ y ∷ ys)
cons_of_pos [] h = absurd (omega arith)
cons_of_pos (y ∷ ys) h = (y, ys, refl)

module _ (transform : List ℕ → List ℕ → List ℕ) (iv : List ℕ) where
  -- Any division of the padded message into blocks gives its digest.
  pub digest-blocks :
      (m : List ℕ) (bs : List (List ℕ))
      → All (λ b. length b ≡ 64) bs
      → concat bs ≡ pad m
      → fold transform iv bs ≡ digest_state transform iv m
  digest-blocks m bs whole same =
      let count : length bs ≡ length (pad m) / 64 =
        omega (arith, ap length same, length-concat bs whole) in
      ap (fold transform iv) (sym (blocks-concat bs whole))
      ∙ ap₂ (λ n t. fold transform iv (blocks n t)) count same

  module _ (m : List ℕ) (c : Ctx) (h : Holds transform iv m c) where
    abbrev t : ℕ
    t = length h.tail

    abbrev bits : List ℕ
    bits = be64 (length m * 8 % 2 ^ 64)

    size : length m ≡ length h.full * 64 + t
    size = omega (
      arith,
      ap length h.message,
      length-append (concat h.full) h.tail,
      length-concat h.full h.whole,
    )

    same_bits : c.count * 2 ^ 3 % 2 ^ 64 ≡ length m * 8 % 2 ^ 64
    same_bits = omega (arith, h.count)

    -- The buffer with the 0x80 and `z` zeros behind it.
    marked :
        (z : ℕ)
        → (rest : List ℕ) × (copy_at (set c.buf t 0x80) (t + 1) (replicate z 0)
            ≡ h.tail ++ (0x80 ∷ (replicate z 0 ++ rest)))
          × (length rest ≡ 63 - t - z)
    marked z =
        let (y, ys, split) =
          cons_of_pos h.junk
            (omega (arith, h.room, ap length h.buf, length-append h.tail h.junk, h.short)) in
        let one = h.tail ++ (0x80 ∷ []) in
        let zs = replicate {A = ℕ} z 0 in
        let stored : set c.buf t 0x80 ≡ one ++ ys =
          ap₂ (λ b o. set b o 0x80) (h.buf ∙ ap (◌++◌ h.tail) split)
            (let e : t ≡ t + 0 = omega arith in e)
          ∙ set-append h.tail (y ∷ ys) 0 0x80
          ∙ sym (append_assoc h.tail (0x80 ∷ []) ys) in
        (
          drop (length zs) ys,
          ap (λ b. copy_at b (t + 1) zs) stored
              ∙ copy_at-append one ys zs (t + 1) (omega (arith, length-append h.tail (0x80 ∷ [])))
              ∙ append_assoc h.tail (0x80 ∷ []) (zs ++ drop (length zs) ys),
          omega (
            arith,
            length-drop (length zs) ys,
            length-replicate {A = ℕ} z 0,
            h.room,
            ap length h.buf,
            ap length split,
            length-append h.tail h.junk,
          ),
        )

    -- What the padding adds to the tail is the blocks `bs`.
    ending :
        (bs : List (List ℕ))
        → All (λ b. length b ≡ 64) bs
        → concat bs ≡ h.tail ++ (0x80 ∷ (replicate (zeros (length m)) 0 ++ bits))
        → fold transform c.state bs ≡ digest_state transform iv m
    ending bs whole same =
        ap (λ s. fold transform s bs) h.state
        ∙ sym (fold-append transform iv h.full bs)
        ∙ digest-blocks m (h.full ++ bs) (All-append (λ b. length b ≡ 64) h.full bs h.whole whole) (
            concat-append h.full bs
            ∙ ap (◌++◌ (concat h.full)) same
            ∙ sym (
                append_assoc (concat h.full) h.tail
                  (0x80 ∷ (replicate (zeros (length m)) 0 ++ bits)))
            ∙ ap (λ x. x ++ (0x80 ∷ (replicate (zeros (length m)) 0 ++ bits))) (sym h.message))

    -- The length goes behind a prefix of 56 bytes, over what stands there.
    with_length :
        (p rest : List ℕ)
        → length p ≡ 56
        → length rest ≡ 8
        → copy_at (p ++ rest) 56 bits ≡ p ++ bits
    with_length p rest n k =
        copy_at-append p rest bits 56 (sym n)
        ∙ ap (λ x. p ++ (bits ++ x)) (drop-all rest 8 (omega arith))
        ∙ ap (◌++◌ p) (append-nil bits)

    final-short :
        t < 56
        → transform c.state
            (copy_at (copy_at (set c.buf t 0x80) (t + 1) (replicate (56 - (t + 1)) 0)) 56 bits)
          ≡ digest_state transform iv m
    final-short less =
        let z = 56 - (t + 1) in
        let (rest, e, n) = marked z in
        let p = h.tail ++ (0x80 ∷ replicate z 0) in
        let len_p : length p ≡ 56 =
          omega
            (arith, length-append h.tail (0x80 ∷ replicate z 0), length-replicate {A = ℕ} z 0) in
        let block =
          ap (λ b. copy_at b 56 bits) (e ∙ sym (append_assoc h.tail (0x80 ∷ replicate z 0) rest))
          ∙ with_length p rest len_p (omega arith) in
        let z_eq : z ≡ zeros (length m) = omega (arith, size) in
        ap (transform c.state) block
        ∙ ending ((p ++ bits) ∷ []) (omega (arith, length-append p bits, len_p), tt)
            (append-nil (p ++ bits)
              ∙ append_assoc h.tail (0x80 ∷ replicate z 0) bits
              ∙ ap (λ k. h.tail ++ (0x80 ∷ (replicate k 0 ++ bits))) z_eq)

    final-long :
        56 ≤ t
        → let b1 = copy_at (set c.buf t 0x80) (t + 1) (replicate (64 - (t + 1)) 0) in
          transform (transform c.state b1) (copy_at (copy_at b1 0 (replicate 56 0)) 56 bits)
          ≡ digest_state transform iv m
    final-long more =
        let z = 64 - (t + 1) in
        let (rest, e, n) = marked z in
        let b1 = copy_at (set c.buf t 0x80) (t + 1) (replicate z 0) in
        let p = h.tail ++ (0x80 ∷ replicate z 0) in
        let block : b1 ≡ p =
          e
          ∙ ap (λ x. h.tail ++ (0x80 ∷ (replicate z 0 ++ x))) (drop-all rest 0 (omega arith))
          ∙ ap (λ x. h.tail ++ (0x80 ∷ x)) (append-nil (replicate z 0)) in
        let len_p : length p ≡ 64 = omega (
          arith,
          length-append h.tail (0x80 ∷ replicate z 0),
          length-replicate {A = ℕ} z 0,
          h.short,
        ) in
        let zs = replicate {A = ℕ} 56 0 in
        let len_b1 = ap length block ∙ len_p in
        let second =
          with_length zs (drop (0 + length zs) b1) refl
            (omega (arith, length-drop (0 + length zs) b1, len_b1)) in
        let z_eq : z + 56 ≡ zeros (length m) = omega (arith, size, h.short) in
        ap₂ (λ a b. transform (transform c.state a) b) block second
        ∙ ending (p ∷ (zs ++ bits) ∷ []) (len_p, (refl, tt))
            (ap (◌++◌ p) (append-nil (zs ++ bits))
              ∙ append_assoc h.tail (0x80 ∷ replicate z 0) (zs ++ bits)
              ∙ ap (λ x. h.tail ++ (0x80 ∷ x)) (sym (replicate-add z 56 bits))
              ∙ ap (λ k. h.tail ++ (0x80 ∷ (replicate k 0 ++ bits))) z_eq)

pub store_state-be_words : (ws : List ℕ) → store_state ws ≡ be_words ws
unfolding store_state
store_state-be_words [] = refl
store_state-be_words (w ∷ ws) = ap₂ ◌++◌ (swapped w) (store_state-be_words ws)
  where
    swapped : (w : ℕ) → store32 (bswap_32 w) ≡ be32 w
    swapped w = ground arith

module _ (iv : List ℕ) (transform : List ℕ → List ℕ → List ℕ) where
  final_state-digest :
      (m : List ℕ) (c : Ctx)
      → Holds transform iv m c
      → final_state iv transform c ≡ digest_state transform iv m
  unfolding final_state
  final_state-digest m c h =
      rw (Holds-ptr transform iv h, same_bits transform iv m c h)
        (elim (Bool-cases (ltb 56 (length h.tail + 1))) [
          | inl long ↦ rw long (final-long transform iv m c h (ground (arith, long)))
          | inr short ↦ rw short (final-short transform iv m c h (ground (arith, short)))
        ])

  -- The digest of a message, in bytes.
  abbrev pub digest : List ℕ → List ℕ
  digest m = be_words (digest_state transform iv m)

  -- `sha256_final` of a context that stands for a message gives the digest of the message.
  pub final-digest :
      (m : List ℕ) (c : Ctx) → Holds transform iv m c → sha256_final iv transform c ≡ digest m
  unfolding sha256_final
  final-digest m c h =
      ap store_state (final_state-digest m c h) ∙ store_state-be_words (digest_state transform iv m)

  -- Whatever parts a message is fed to `sha256_update` in, `sha256_final` gives the digest of the
  -- padded message; `sha256_full` is the case of one part.
  pub stream-digest :
      (buf a b : List ℕ)
      → length buf ≡ 64
      → (sha256_final iv transform (
            sha256_update iv transform
              (sha256_update iv transform (sha256_ctx_init iv transform buf) a)
              b)
          ≡ digest (a ++ b))
        × (sha256_full iv transform buf a ≡ digest a)
  unfolding sha256_full
  stream-digest buf a b room =
      let empty = init-Holds transform iv buf room in
      let one = update-Holds transform iv [] _ a empty in
      (final-digest (a ++ b) _ (update-Holds transform iv a _ b one), final-digest a _ one)
