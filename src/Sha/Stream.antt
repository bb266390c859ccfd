-- ===== src/Sha/Stream.antt =====
-- algo/sha/sha256-hash.c: `sha256_update` appends to the message that a context stands for.
use soj_civic_light.Prelude.{
  ℕ, zero, suc, ◌+◌, ◌-◌, ◌*◌, ◌%◌, ◌^◌, ◌≤◌, ◌<◌, ◌≡◌, refl, sym, ap, ap₂, ◌∙◌, subst, inl, inr,
  Bool-cases, List, [], ◌∷◌, ◌++◌, arith, ltb, length, take, drop, All, All-append, length-append,
  length-take, length-drop, take-append-drop, append-nil, append_assoc, bit_and,
}
use soj_civic_light.Prelude.Bits.{bit_and_mask}
use soj_civic_light.Sha.{Ctx, copy_at, sha256_ctx_init, block_loop, sha256_update}
use soj_civic_light.Sha.Spec.{concat, fold, Holds}

pub take-append : (pre r : List ℕ) → take (length pre) (pre ++ r) ≡ pre
take-append [] r = refl
take-append (x ∷ pre) r = ap (◌∷◌ x) (take-append pre r)

pub drop-append : (pre r : List ℕ) (k : ℕ) → drop (length pre + k) (pre ++ r) ≡ drop k r
drop-append [] r k = ap (λ j. drop j r) (let e : 0 + k ≡ k = omega arith in e)
drop-append (x ∷ pre) r k =
    ap (λ j. drop j (x ∷ (pre ++ r)))
      (let e : suc (length pre) + k ≡ suc (length pre + k) = omega arith in e)
    ∙ drop-append pre r k

-- A copy to the end of a known prefix.
pub copy_at-append :
    (pre r src : List ℕ) (o : ℕ)
    → o ≡ length pre
    → copy_at (pre ++ r) o src ≡ pre ++ (src ++ drop (length src) r)
copy_at-append pre r src o e =
    ap (λ j. copy_at (pre ++ r) j src) e
    ∙ ap₂ (λ s t. s ++ (src ++ t)) (take-append pre r) (drop-append pre r (length src))

pub drop-all : (xs : List ℕ) (n : ℕ) → length xs ≤ n → drop n xs ≡ []
drop-all [] zero h = refl
drop-all [] (suc n) h = refl
drop-all (x ∷ xs) zero h = absurd (omega arith)
drop-all (x ∷ xs) (suc n) h = drop-all xs n (omega arith)

pub concat-append : (xs ys : List (List ℕ)) → concat (xs ++ ys) ≡ concat xs ++ concat ys
concat-append [] ys = refl
concat-append (x ∷ xs) ys =
    ap (◌++◌ x) (concat-append xs ys) ∙ sym (append_assoc x (concat xs) (concat ys))

pub length-concat :
    (bs : List (List ℕ)) → All (λ b. length b ≡ 64) bs → length (concat bs) ≡ length bs * 64
length-concat [] h = refl
length-concat (b ∷ bs) h = omega (arith, length-append b (concat bs), length-concat bs h.1, h.0)

module _ (transform : List ℕ → List ℕ → List ℕ) where
  pub fold-append :
      (st : List ℕ) (xs ys : List (List ℕ))
      → fold transform st (xs ++ ys) ≡ fold transform (fold transform st xs) ys
  fold-append st [] ys = refl
  fold-append st (x ∷ xs) ys = fold-append (transform st x) xs ys

  module _ (iv : List ℕ) where
    loop-Holds :
        (fuel : ℕ) (full : List (List ℕ)) (st buf src : List ℕ) (c : Ctx)
        → length src < fuel
        → All (λ b. length b ≡ 64) full
        → st ≡ fold transform iv full
        → length buf ≡ 64
        → c.count ≡ length (concat full ++ src) % 2 ^ 64
        → Holds transform iv (concat full ++ src) (block_loop iv transform fuel st buf src c)
    unfolding block_loop
    loop-Holds zero full st buf src c enough whole run room counted = absurd (omega arith)
    loop-Holds (suc fuel) full st buf src c enough whole run room counted =
        elim (Bool-cases (ltb (length src) 64)) [
          | inl less ↦
              let short : length src < 64 = ground (arith, less) in
              rw less (record {
                full = full;
                tail = src;
                junk = drop (0 + length src) buf;
                whole = whole;
                short = short;
                message = refl;
                state = run;
                buf = refl;
                room = omega (
                  arith,
                  length-append src (drop (0 + length src) buf),
                  length-drop (0 + length src) buf,
                );
                count = counted;
              })
          | inr more ↦
              let long : 64 ≤ length src = ground (arith, more) in
              let b = take 64 src in
              let full' = full ++ (b ∷ []) in
              let size : length b ≡ 64 = omega (arith, length-take 64 src) in
              let same : concat full' ++ drop 64 src ≡ concat full ++ src =
                ap (λ t. t ++ drop 64 src) (concat-append full (b ∷ []))
                ∙ append_assoc (concat full) (b ++ []) (drop 64 src)
                ∙ ap (λ t. concat full ++ (t ++ drop 64 src)) (append-nil b)
                ∙ ap (◌++◌ (concat full)) (take-append-drop 64 src) in
              rw more (
                subst
                  (λ m.
                    Holds transform iv m
                      (block_loop iv transform fuel (transform st b) buf (drop 64 src) c))
                  same
                  (loop-Holds fuel full' (transform st b) buf (drop 64 src) c
                    (omega (arith, length-drop 64 src))
                    (All-append (λ x. length x ≡ 64) full (b ∷ []) whole (size, tt))
                    (ap (λ s. transform s b) run ∙ sym (fold-append iv full (b ∷ []))) room
                    (counted ∙ ap (λ m. length m % 2 ^ 64) (sym same))))
        ]

    -- An empty context stands for the empty message, whatever its buffer holds.
    pub init-Holds :
        (buf : List ℕ) → length buf ≡ 64 → Holds transform iv [] (sha256_ctx_init iv transform buf)
    unfolding sha256_ctx_init
    init-Holds buf room = record {
      full = [];
      tail = [];
      junk = buf;
      whole = tt;
      short = omega arith;
      message = refl;
      state = refl;
      buf = refl;
      room = room;
      count = refl;
    }

    -- Where the next byte goes.
    pub Holds-ptr :
        {m : List ℕ} {c : Ctx} (h : Holds transform iv m c) → bit_and c.count 0x3f ≡ length h.tail
    Holds-ptr {m} {c} h = omega (
      arith,
      bit_and_mask 6 c.count,
      h.count,
      ap length h.message,
      length-append (concat h.full) h.tail,
      length-concat h.full h.whole,
      h.short,
    )

    -- The bytes fit into the buffer.
    fill-Holds :
        (m : List ℕ) (c : Ctx) (src : List ℕ) (h : Holds transform iv m c)
        → length src < 64 - length h.tail
        → Holds transform iv (m ++ src) (record {
          buf = copy_at c.buf (length h.tail) src;
          state = c.state;
          count = (c.count + length src) % 2 ^ 64;
        })
    fill-Holds m c src h less =
        let filled =
          ap (λ b. copy_at b (length h.tail) src) h.buf
          ∙ copy_at-append h.tail h.junk src (length h.tail) refl in
        record {
          full = h.full;
          tail = h.tail ++ src;
          junk = drop (length src) h.junk;
          whole = h.whole;
          short = omega (arith, length-append h.tail src);
          message = ap (λ t. t ++ src) h.message ∙ append_assoc (concat h.full) h.tail src;
          state = h.state;
          buf = filled ∙ sym (append_assoc h.tail src (drop (length src) h.junk));
          room = omega (
            arith,
            ap length filled,
            length-append h.tail (src ++ drop (length src) h.junk),
            length-append src (drop (length src) h.junk),
            length-drop (length src) h.junk,
            ap length h.buf,
            length-append h.tail h.junk,
            h.room,
          );
          count = omega (arith, h.count, length-append m src);
        }

    -- The bytes fill the buffer, and the rest goes through the loop.
    pass-Holds :
        (m : List ℕ) (c : Ctx) (src : List ℕ) (h : Holds transform iv m c)
        → 64 - length h.tail ≤ length src
        → let k = 64 - length h.tail in
          let buf = copy_at c.buf (length h.tail) (take k src) in
          let rest = drop k src in
          Holds transform iv (m ++ src) (
            block_loop iv transform (suc (length rest)) (transform c.state buf) buf rest (record {
              buf = buf;
              state = transform c.state buf;
              count = (c.count + length src) % 2 ^ 64;
            }))
    pass-Holds m c src h more =
        let k = 64 - length h.tail in
        let buf = copy_at c.buf (length h.tail) (take k src) in
        let rest = drop k src in
        let b = h.tail ++ take k src in
        let full' = h.full ++ (b ∷ []) in
        let size_k : length (take k src) ≡ k = omega (arith, length-take k src) in
        let junk_k : length h.junk ≡ k =
          omega (arith, h.room, ap length h.buf, length-append h.tail h.junk, h.short) in
        let block : buf ≡ b =
          ap (λ t. copy_at t (length h.tail) (take k src)) h.buf
          ∙ copy_at-append h.tail h.junk (take k src) (length h.tail) refl
          ∙ ap (λ t. h.tail ++ (take k src ++ t))
              (drop-all h.junk (length (take k src)) (omega arith))
          ∙ ap (◌++◌ h.tail) (append-nil (take k src)) in
        let size : length b ≡ 64 = omega (arith, length-append h.tail (take k src), h.short) in
        let same : concat full' ++ rest ≡ m ++ src =
          ap (λ t. t ++ rest)
            (concat-append h.full (b ∷ []) ∙ ap (◌++◌ (concat h.full)) (append-nil b))
          ∙ append_assoc (concat h.full) b rest
          ∙ ap (◌++◌ (concat h.full))
              (append_assoc h.tail (take k src) rest ∙ ap (◌++◌ h.tail) (take-append-drop k src))
          ∙ sym (append_assoc (concat h.full) h.tail src)
          ∙ ap (λ t. t ++ src) (sym h.message) in
        let c' : Ctx = record {
          buf = buf;
          state = transform c.state buf;
          count = (c.count + length src) % 2 ^ 64;
        } in
        subst
          (λ t.
            Holds transform iv t
              (block_loop iv transform (suc (length rest)) (transform c.state buf) buf rest c'))
          same
          (loop-Holds (suc (length rest)) full' (transform c.state buf) buf rest c' (omega arith)
            (All-append (λ x. length x ≡ 64) h.full (b ∷ []) h.whole (size, tt))
            (ap₂ transform h.state block ∙ sym (fold-append iv h.full (b ∷ [])))
            (ap length block ∙ size) (omega (arith, h.count, ap length same, length-append m src)))

    -- `sha256_update` appends `src` to the message.
    pub update-Holds :
        (m : List ℕ) (c : Ctx) (src : List ℕ)
        → Holds transform iv m c
        → Holds transform iv (m ++ src) (sha256_update iv transform c src)
    unfolding sha256_update
    update-Holds m c src h =
        rw (Holds-ptr h) (elim (Bool-cases (ltb (length src) (64 - length h.tail))) [
          | inl less ↦ rw less (fill-Holds m c src h (ground (arith, less)))
          | inr more ↦ rw more (pass-Holds m c src h (ground (arith, more)))
        ])
