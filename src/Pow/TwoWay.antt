-- ===== src/Pow/TwoWay.antt =====
-- algo/civiclight/civiclight.c: hashing from a midstate, and two headers at a time, gives what
-- hashing each header from the start gives.
use soj_civic_light.Prelude.{
  ℕ, suc, ◌≡◌, refl, sym, ap, ap₂, ◌∙◌, subst, Bool, true, false, ◌&&◌, inl, inr, Bool-cases,
  &&-true, List, [], ◌∷◌, ◌++◌, arith, leb, ◌==◌, ==_iff, if◌then◌else◌, length, take, drop,
  take-append-drop, take-length, length-drop,
}
use soj_civic_light.Sha.{
  Ctx, store_state, sha256_ctx_init, sha256_update, sha256_final, sha256_full,
}
use soj_civic_light.Sha.Spec.{digest_state, Holds}
use soj_civic_light.Sha.Stream.{init-Holds, update-Holds}
use soj_civic_light.Sha.Digest.{digest, final-digest, store_state-be_words}
use soj_civic_light.Pow.Blocks.{digest_32, digest_80, full-digest, length-full}
use soj_civic_light.Pow.{
  Impl, params_v2, same_bytes, xor_bytes, extract_ntime, activation_time, block_32, block_80,
  sha256d_local, sha256_32_2way, sha256d_80_2way_midstate, sha256d_80_midstate, civiclight_core_v1,
  civiclight_core_v2, civiclight_core_v2_2way, core_at, civiclight_powhash,
  civiclight_powhash_from_midstate, civiclight_powhash_2way_midstate, civiclight_hash_2way,
}

same_bytes-eq : (a b : List ℕ) → same_bytes a b ≡ true → a ≡ b
unfolding same_bytes
same_bytes-eq [] [] h = refl
same_bytes-eq [] (y ∷ b) h = cc
same_bytes-eq (x ∷ a) [] h = cc
same_bytes-eq (x ∷ a) (y ∷ b) h =
    let (p, q) = &&-true (x == y) (same_bytes a b) h in
    ap₂ ◌∷◌ ((==_iff x y).0 p) (same_bytes-eq a b q)

length-xor_bytes : (a b : List ℕ) → length a ≡ length b → length (xor_bytes a b) ≡ length a
unfolding xor_bytes
length-xor_bytes [] b h = refl
length-xor_bytes (x ∷ a) [] h = absurd (omega arith)
length-xor_bytes (x ∷ a) (y ∷ b) h = ap suc (length-xor_bytes a b (omega arith))

both_late {ℓ} :
    {A : Type ℓ} (t0 t1 : Bool) (x0 x1 y0 y1 : A) (pair : A × A)
    → pair ≡ (x0, x1)
    → (if t0 && t1 then pair else (if t0 then x0 else y0, if t1 then x1 else y1))
      ≡ (if t0 then x0 else y0, if t1 then x1 else y1)
both_late true true x0 x1 y0 y1 pair h = h
both_late true false x0 x1 y0 y1 pair h = refl
both_late false t1 x0 x1 y0 y1 pair h = refl

-- What the code relies on: the two-way compression is two compressions, a state has eight words,
-- and the two-way yespower is two calls of the one-way one, of 32 bytes each.
module _ (iv fresh : List ℕ) (transform : List ℕ → List ℕ → List ℕ)
    (transform2 : List ℕ → List ℕ → List ℕ → List ℕ → List ℕ × List ℕ) (impl : Impl)
    (room : length fresh ≡ 64) (iv_words : length iv ≡ 8)
    (transform_words : (st b : List ℕ) → length (transform st b) ≡ 8)
    (two_transforms : (s t x y : List ℕ) → transform2 s t x y ≡ (transform s x, transform t y))
    (two_yespowers : (a b : List ℕ)
      → impl.two params_v2 a b ≡ (impl.one params_v2 a, impl.one params_v2 b))
    (yespower_bytes : (a : List ℕ) → length (impl.one params_v2 a) ≡ 32) where
  size_of : (m : List ℕ) → length (sha256_full iv transform fresh m) ≡ 32
  size_of = length-full iv fresh transform room iv_words transform_words

  -- The digest of 32 bytes is one block.
  one_32 :
      (a : List ℕ)
      → length a ≡ 32
      → store_state (transform iv (block_32 a)) ≡ sha256_full iv transform fresh a
  one_32 a n =
      ap store_state (digest_32 transform iv a n)
      ∙ store_state-be_words (digest_state transform iv a)
      ∙ sym (full-digest iv fresh transform room iv_words transform_words a)

  two_32 :
      (a b : List ℕ)
      → length a ≡ 32
      → length b ≡ 32
      → sha256_32_2way iv fresh transform transform2 impl a b
        ≡ (sha256_full iv transform fresh a, sha256_full iv transform fresh b)
  unfolding sha256_32_2way
  two_32 a b na nb =
      ap (λ p. (store_state p.0, store_state p.1)) (two_transforms iv iv (block_32 a) (block_32 b))
      ∙ ap₂ (λ x y. (x, y)) (one_32 a na) (one_32 b nb)

  -- A context that holds the first 64 bytes of a header.
  one_80 :
      (header : List ℕ) (c : Ctx)
      → length header ≡ 80
      → Holds transform iv (take 64 header) c
      → store_state (transform c.state (block_80 header)) ≡ sha256_full iv transform fresh header
  one_80 header c n h =
      ap store_state (digest_80 transform iv header c n h)
      ∙ store_state-be_words (digest_state transform iv header)
      ∙ sym (full-digest iv fresh transform room iv_words transform_words header)

  two_80 :
      (header0 header1 : List ℕ) (c : Ctx)
      → length header0 ≡ 80
      → length header1 ≡ 80
      → take 64 header0 ≡ take 64 header1
      → Holds transform iv (take 64 header0) c
      → sha256d_80_2way_midstate iv fresh transform transform2 impl header0 header1 c ≡ (
        sha256d_local iv fresh transform transform2 impl header0,
        sha256d_local iv fresh transform transform2 impl header1,
      )
  unfolding sha256d_80_2way_midstate sha256d_local
  two_80 header0 header1 c n0 n1 same h =
      let h1 = subst (λ m. Holds transform iv m c) same h in
      ap
        (λ p. sha256_32_2way iv fresh transform transform2 impl (store_state p.0) (store_state p.1))
        (two_transforms c.state c.state (block_80 header0) (block_80 header1))
      ∙ ap₂ (sha256_32_2way iv fresh transform transform2 impl) (one_80 header0 c n0 h)
          (one_80 header1 c n1 h1)
      ∙ two_32 _ _ (size_of header0) (size_of header1)

  two_v2 :
      (a b : List ℕ)
      → length a ≡ 32
      → length b ≡ 32
      → civiclight_core_v2_2way iv fresh transform transform2 impl a b ≡ (
        civiclight_core_v2 iv fresh transform transform2 impl a,
        civiclight_core_v2 iv fresh transform transform2 impl b,
      )
  unfolding civiclight_core_v2_2way civiclight_core_v2
  two_v2 a b na nb =
      let pair = sha256_32_2way iv fresh transform transform2 impl in
      let full = sha256_full iv transform fresh in
      let body = λ (p : List ℕ × List ℕ).
        pair (xor_bytes (impl.two params_v2 p.0 p.1).0 p.0)
          (xor_bytes (impl.two params_v2 p.0 p.1).1 p.1) in
      let mixed = λ (x : List ℕ). xor_bytes (impl.one params_v2 (full x)) (full x) in
      let size : (x : List ℕ) → length (mixed x) ≡ 32 = λ x.
        length-xor_bytes (impl.one params_v2 (full x)) (full x)
          (yespower_bytes (full x) ∙ sym (size_of x))
        ∙ yespower_bytes (full x) in
      ap (λ t. body (if t then pair a b else (full a, full b))) ((==_iff (length a) 32).1 na)
      ∙ ap body (two_32 a b na nb)
      ∙ ap (λ q. pair (xor_bytes q.0 (full a)) (xor_bytes q.1 (full b)))
          (two_yespowers (full a) (full b))
      ∙ two_32 (mixed a) (mixed b) (size a) (size b)

  -- Hashing from the midstate of the first 64 bytes of an 80-byte header gives its proof-of-work hash.
  pub midstate-powhash :
      (header : List ℕ) (c : Ctx)
      → length header ≡ 80
      → Holds transform iv (take 64 header) c
      → civiclight_powhash_from_midstate iv fresh transform transform2 impl header c
        ≡ civiclight_powhash iv fresh transform transform2 impl header
  unfolding civiclight_powhash_from_midstate civiclight_powhash sha256d_80_midstate sha256d_local
  midstate-powhash header c n h =
      let end = drop 64 header in
      let len_end : length end ≡ 16 = omega (arith, length-drop 64 header) in
      let all : take 16 end ≡ end = ap (λ k. take k end) (sym len_end) ∙ take-length end in
      let run =
        ap (λ x. sha256_final iv transform (sha256_update iv transform c x)) all
        ∙ final-digest iv transform (take 64 header ++ end) _ (update-Holds transform iv _ c end h)
        ∙ ap (digest iv transform) (take-append-drop 64 header)
        ∙ sym (full-digest iv fresh transform room iv_words transform_words header) in
      ap (λ x. core_at iv fresh transform transform2 impl header (sha256_full iv transform fresh x))
        run

  pub two_powhash :
      (header0 header1 : List ℕ) (c : Ctx)
      → length header0 ≡ 80
      → length header1 ≡ 80
      → take 64 header0 ≡ take 64 header1
      → Holds transform iv (take 64 header0) c
      → civiclight_powhash_2way_midstate iv fresh transform transform2 impl header0 header1 c ≡ (
        civiclight_powhash iv fresh transform transform2 impl header0,
        civiclight_powhash iv fresh transform transform2 impl header1,
      )
  unfolding civiclight_powhash_2way_midstate civiclight_powhash sha256d_local
  two_powhash header0 header1 c n0 n1 same h =
      let local = sha256d_local iv fresh transform transform2 impl in
      let late = λ (x : List ℕ). leb activation_time (extract_ntime x) in
      let v1 = civiclight_core_v1 iv fresh transform transform2 impl in
      let v2 = civiclight_core_v2 iv fresh transform transform2 impl in
      let body = λ (p : List ℕ × List ℕ).
        if late header0 && late header1
        then civiclight_core_v2_2way iv fresh transform transform2 impl p.0 p.1
        else (
          core_at iv fresh transform transform2 impl header0 p.0,
          core_at iv fresh transform transform2 impl header1 p.1,
        ) in
      ap body (two_80 header0 header1 c n0 n1 same h)
      ∙ both_late (late header0) (late header1) (v2 (local header0)) (v2 (local header1))
          (v1 (local header0)) (v1 (local header1)) _
          (two_v2 (local header0) (local header1) (size_of _) (size_of _))

  -- Hashing two 80-byte headers at once gives the proof-of-work hash of each, whether or not they
  -- share their first 64 bytes and on either side of the activation time.
  pub hash_2way-powhash :
      (input0 input1 : List ℕ)
      → length input0 ≡ 80
      → length input1 ≡ 80
      → civiclight_hash_2way iv fresh transform transform2 impl input0 input1 ≡ (
        civiclight_powhash iv fresh transform transform2 impl input0,
        civiclight_powhash iv fresh transform transform2 impl input1,
      )
  unfolding civiclight_hash_2way
  hash_2way-powhash input0 input1 n0 n1 =
      elim (Bool-cases (same_bytes (take 64 input0) (take 64 input1))) [
        | inr other ↦ rw other refl
        | inl same ↦ rw same (
            two_powhash input0 input1
              (sha256_update iv transform (sha256_ctx_init iv transform fresh) (take 64 input0)) n0
              n1 (same_bytes-eq (take 64 input0) (take 64 input1) same)
              (update-Holds transform iv [] _ (take 64 input0)
                (init-Holds transform iv fresh room)))
      ]
