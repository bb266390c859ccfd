-- ===== src/Hex/Decode.antt =====
-- util.c: `hex2bin` against its specification, on ASCII strings.
use soj_civic_light.Prelude.{
  ℕ, zero, suc, ◌+◌, ◌-◌, ◌*◌, ◌/◌, ◌%◌, ◌≤◌, ◌<◌, ◌≡◌, refl, sym, ap, ◌∙◌, subst, true, false,
  ◌&&◌, ltb, ◌==◌, ==_iff, ◌⊎◌, inl, inr, Bool-cases, &&-true, Option-cases, Option, none, some,
  List, [], ◌∷◌, ◌++◌, arith, length, All, set, replicate, drop, length-append, length-replicate,
  ◌↔◌,
}
use mathlib.Core.Bool.{true≢false}
use mathlib.Core.Option.{some-injective}
use soj_civic_light.Prelude.Bits.{bit_and_mask}
use soj_civic_light.Hex.Lanes.{word}
use soj_civic_light.Hex.Swar.{mask-is_hex}
use soj_civic_light.Hex.Pack.{nibbles, scalar_byte, store_pack-nibbles}
use soj_civic_light.Hex.Spec.{hex_value, byte_value, prepend, decode, put, Agrees}
use soj_civic_light.Hex.{
  Written, written, is_hex, hex_decode_nibble_branchless, hex_swar_invalid_mask, scalar_loop,
  chunk_loop, clear, hex2bin,
}

hex_value-is_hex : (c : ℕ) → is_hex c ≡ true → hex_value c ≡ some (hex_decode_nibble_branchless c)
unfolding is_hex hex_decode_nibble_branchless
hex_value-is_hex c h = ground (arith, bit_and_mask 4 c, bit_and_mask 1 (c / 64))

hex_value-not_hex : (c : ℕ) → is_hex c ≡ false → hex_value c ≡ none
unfolding is_hex
hex_value-not_hex c h = ground arith

-- Two hexadecimal characters add their byte to whatever the rest of the string gives.
module _ (p : List ℕ) (j : ℕ) (w : Written) where
  Agrees-prepend :
      (v : ℕ) (o : Option (List ℕ))
      → Agrees (set p j v) (j + 1) o w
      → Agrees p j (prepend (some v) o) w
  Agrees-prepend v none h = h
  Agrees-prepend v (some bs) h = h

  Agrees-pair :
      (a b : ℕ) (rest : List ℕ)
      → is_hex a ≡ true
      → is_hex b ≡ true
      → Agrees (set p j (nibbles a b)) (j + 1) (decode rest) w
      → Agrees p j (decode (a ∷ b ∷ rest)) w
  unfolding decode
  Agrees-pair a b rest ha hb h =
      rw (hex_value-is_hex a ha, hex_value-is_hex b hb)
        (Agrees-prepend (nibbles a b) (decode rest) h)

pub decode-bad :
    (a b : ℕ) (rest : List ℕ) → (is_hex a && is_hex b) ≡ false → decode (a ∷ b ∷ rest) ≡ none
unfolding decode
decode-bad a b rest h = elim (Bool-cases (is_hex a)) [
  | inr no_a ↦ rw (hex_value-not_hex a no_a) refl
  | inl ok_a ↦
      let no_b : is_hex b ≡ false = ground arith in
      rw (hex_value-is_hex a ok_a, hex_value-not_hex b no_b) refl
]

decode-skip : (a b : ℕ) (rest : List ℕ) → decode rest ≡ none → decode (a ∷ b ∷ rest) ≡ none
unfolding decode
decode-skip a b rest h = rw h (prepend-none (byte_value (hex_value a) (hex_value b)))
  where
    prepend-none : (o : Option ℕ) → prepend o none ≡ none
    prepend-none none = refl
    prepend-none (some x) = refl

Agrees-none :
    (p : List ℕ) (j : ℕ) (s q : List ℕ) → decode s ≡ none → Agrees p j (decode s) (written q false)
Agrees-none p j s q h = rw h refl

pub scalar_loop-decode : (s p : List ℕ) (j : ℕ) → Agrees p j (decode s) (scalar_loop s p j)
unfolding scalar_loop
scalar_loop-decode [] p j = unfold decode in refl
scalar_loop-decode (c ∷ []) p j = unfold decode in refl
scalar_loop-decode (a ∷ b ∷ rest) p j = elim (Bool-cases (is_hex a && is_hex b)) [
  | inr bad ↦ rw bad (Agrees-none p j (a ∷ b ∷ rest) p (decode-bad a b rest bad))
  | inl good ↦
      let (ha, hb) = &&-true (is_hex a) (is_hex b) good in
      let v = scalar_byte a b ha hb in
      let ih = scalar_loop-decode rest (set p j (nibbles a b)) (j + 1) in
      rw (good, v)
        (Agrees-pair p j (scalar_loop rest (set p j (nibbles a b)) (j + 1)) a b rest ha hb ih)
]

-- Eight characters of which one is no digit stand for nothing.
decode-eight :
    (a b c d e f g h : ℕ) (rest : List ℕ)
    → (All (λ x. is_hex x ≡ true) (a ∷ b ∷ c ∷ d ∷ e ∷ f ∷ g ∷ h ∷ []))
      ⊎ (decode (a ∷ b ∷ c ∷ d ∷ e ∷ f ∷ g ∷ h ∷ rest) ≡ none)
decode-eight a b c d e f g h rest = elim (Bool-cases (is_hex a && is_hex b)) [
  | inr bad ↦ inr (decode-bad a b _ bad)
  | inl p ↦ elim (Bool-cases (is_hex c && is_hex d)) [
    | inr bad ↦ inr (decode-skip a b _ (decode-bad c d _ bad))
    | inl q ↦ elim (Bool-cases (is_hex e && is_hex f)) [
      | inr bad ↦ inr (decode-skip a b _ (decode-skip c d _ (decode-bad e f _ bad)))
      | inl r ↦ elim (Bool-cases (is_hex g && is_hex h)) [
        | inr bad ↦
            inr (decode-skip a b _ (decode-skip c d _ (decode-skip e f _ (decode-bad g h _ bad))))
        | inl s ↦
            let (ha, hb) = &&-true (is_hex a) (is_hex b) p in
            let (hc, hd) = &&-true (is_hex c) (is_hex d) q in
            let (he, hf) = &&-true (is_hex e) (is_hex f) r in
            let (hg, hh) = &&-true (is_hex g) (is_hex h) s in
            inl (ha, (hb, (hc, (hd, (he, (hf, (hg, (hh, tt))))))))
      ]
    ]
  ]
]

-- Eight hexadecimal characters add their four bytes.
Agrees-eight :
    (a b c d e f g h : ℕ) (rest p : List ℕ) (j : ℕ) (w : Written)
    → All (λ x. is_hex x ≡ true) (a ∷ b ∷ c ∷ d ∷ e ∷ f ∷ g ∷ h ∷ [])
    → Agrees
        (set
          (set (set (set p j (nibbles a b)) (j + 1) (nibbles c d)) (j + 2) (nibbles e f))
          (j + 3)
          (nibbles g h))
        (j + 4)
        (decode rest)
        w
    → Agrees p j (decode (a ∷ b ∷ c ∷ d ∷ e ∷ f ∷ g ∷ h ∷ rest)) w
Agrees-eight a b c d e f g h rest p j w (ha, (hb, (hc, (hd, (he, (hf, (hg, (hh, _)))))))) ih =
    let e2 : j + 1 + 1 ≡ j + 2 = omega arith in
    let e3 : j + 2 + 1 ≡ j + 3 = omega arith in
    let e4 : j + 3 + 1 ≡ j + 4 = omega arith in
    let p1 = set p j (nibbles a b) in
    let p2 = set p1 (j + 1) (nibbles c d) in
    let p3 = set p2 (j + 2) (nibbles e f) in
    let at_3 = Agrees-pair p3 (j + 3) w g h rest hg hh (rw e4 ih) in
    let at_2 = Agrees-pair p2 (j + 2) w e f (g ∷ h ∷ rest) he hf (rw e3 at_3) in
    let at_1 = Agrees-pair p1 (j + 1) w c d (e ∷ f ∷ g ∷ h ∷ rest) hc hd (rw e2 at_2) in
    Agrees-pair p j w a b (c ∷ d ∷ e ∷ f ∷ g ∷ h ∷ rest) ha hb at_1

chunk_loop-decode :
    (s p : List ℕ) (j : ℕ) → All (λ c. c < 128) s → Agrees p j (decode s) (chunk_loop s p j)
unfolding chunk_loop
chunk_loop-decode (a ∷ b ∷ c ∷ d ∷ e ∷ f ∷ g ∷ h ∷ rest) p j
      (sa, (sb, (sc, (sd, (se, (sf, (sg, (sh, small)))))))) =
    let cs = a ∷ b ∷ c ∷ d ∷ e ∷ f ∷ g ∷ h ∷ [] in
    let eight = mask-is_hex cs refl (sa, (sb, (sc, (sd, (se, (sf, (sg, (sh, tt)))))))) in
    let mask = hex_swar_invalid_mask (word cs) in
    elim (Bool-cases (mask == 0)) [
      | inl ok ↦
          let hex = eight.0 ((==_iff mask 0).0 ok) in
          rw (ok, store_pack-nibbles a b c d e f g h hex p j)
            (Agrees-eight a b c d e f g h rest p j _ hex (chunk_loop-decode rest _ (j + 4) small))
      | inr bad ↦ elim (decode-eight a b c d e f g h rest) [
        | inl hex ↦ absurd (true≢false (sym ((==_iff mask 0).1 (eight.1 hex)) ∙ bad))
        | inr none_8 ↦ rw bad (Agrees-none p j (a ∷ b ∷ c ∷ d ∷ e ∷ f ∷ g ∷ h ∷ rest) p none_8)
      ]
    ]
chunk_loop-decode s p j small = scalar_loop-decode s p j

Agrees-same :
    (p : List ℕ) (j : ℕ) (o : Option (List ℕ)) (v w : Written)
    → Agrees p j o v
    → Agrees p j o w
    → (v.ok ≡ w.ok) × (v.ok ≡ true → v ≡ w)
Agrees-same p j none v w hv hw = (hv ∙ sym hw, λ t. absurd (true≢false (sym t ∙ hv)))
Agrees-same p j (some bs) v w hv hw = (ap (λ x. x.ok) (hv ∙ sym hw), λ _. hv ∙ sym hw)

-- On ASCII characters the loop over eight at a time and the scalar loop return the same, and
-- where they succeed they leave the same buffer.
pub chunk_loop-scalar_loop :
    (s p : List ℕ) (j : ℕ)
    → All (λ c. c < 128) s
    → ((chunk_loop s p j).ok ≡ (scalar_loop s p j).ok)
      × ((chunk_loop s p j).ok ≡ true → chunk_loop s p j ≡ scalar_loop s p j)
chunk_loop-scalar_loop s p j small =
    Agrees-same p j (decode s) (chunk_loop s p j) (scalar_loop s p j)
      (chunk_loop-decode s p j small) (scalar_loop-decode s p j)

put-suc : (x : ℕ) (xs : List ℕ) (j : ℕ) (bs : List ℕ) → put (x ∷ xs) (suc j) bs ≡ x ∷ put xs j bs
put-suc x xs j [] = refl
put-suc x xs j (b ∷ bs) =
    ap (λ k. put (x ∷ set xs j b) k bs) (let e : suc j + 1 ≡ suc (j + 1) = omega arith in e)
    ∙ put-suc x (set xs j b) (j + 1) bs

put-zero : (bs xs : List ℕ) → length bs ≤ length xs → put xs 0 bs ≡ bs ++ drop (length bs) xs
put-zero [] xs h = refl
put-zero (b ∷ bs) [] h = absurd (omega arith)
put-zero (b ∷ bs) (x ∷ xs) h = put-suc b xs 0 bs ∙ ap (◌∷◌ b) (put-zero bs xs (omega arith))

drop-replicate :
    (n len : ℕ) (r : List ℕ) → n ≤ len → drop n (replicate len 0 ++ r) ≡ replicate (len - n) 0 ++ r
drop-replicate zero len r h =
    ap (λ k. replicate k 0 ++ r) (let e : len ≡ len - 0 = omega arith in e)
drop-replicate (suc n) zero r h = absurd (omega arith)
drop-replicate (suc n) (suc len) r h =
    drop-replicate n len r (omega arith)
    ∙ ap (λ k. replicate k 0 ++ r) (let e : len - n ≡ suc len - suc n = omega arith in e)

-- The buffer that `hex2bin` leaves: the bytes, zeros up to `len`, and what was behind them.
abbrev pub filled : List ℕ → List ℕ → ℕ → List ℕ
filled p bs len = bs ++ (replicate (len - length bs) 0 ++ drop len p)

clear-put : (p bs : List ℕ) (len : ℕ) → length bs ≤ len → put (clear p len) 0 bs ≡ filled p bs len
unfolding clear
clear-put p bs len h =
    put-zero bs (replicate len 0 ++ drop len p)
      (omega (arith, length-append (replicate len 0) (drop len p), length-replicate {A = ℕ} len 0))
    ∙ ap (◌++◌ bs) (drop-replicate (length bs) len (drop len p) h)

prepend-eq-some :
    (o : Option ℕ) (q : Option (List ℕ)) {bs : List ℕ}
    → prepend o q ≡ some bs
    → (x : ℕ) × (xs : List ℕ) × (q ≡ some xs) × (bs ≡ x ∷ xs)
prepend-eq-some none q h = cc
prepend-eq-some (some x) none h = cc
prepend-eq-some (some x) (some xs) h = (x, xs, refl, sym (some-injective _ _ h))

pub decode-length : (s : List ℕ) {bs : List ℕ} → decode s ≡ some bs → length s ≡ length bs * 2
unfolding decode
decode-length [] h = omega (arith, ap length (some-injective _ _ h))
decode-length (c ∷ []) h = cc
decode-length (a ∷ b ∷ rest) {bs} h =
    let (x, xs, e, f) = prepend-eq-some (byte_value (hex_value a) (hex_value b)) (decode rest) h in
    omega (arith, decode-length rest e, ap length f)

-- On an ASCII string that stands for some bytes, with room for them, `hex2bin` succeeds: the
-- buffer holds the bytes, zeros up to `len`, and its old contents behind `len`.
pub hex2bin-decode :
    (p s bs : List ℕ) (len : ℕ)
    → All (λ c. c < 128) s
    → decode s ≡ some bs
    → length bs ≤ len
    → hex2bin p (some s) len ≡ written (filled p bs len) true
unfolding hex2bin
hex2bin-decode p s bs len small e fits =
    let n = decode-length s e in
    let even : ((length s % 2) == 0) ≡ true = ground (arith, n) in
    let room : ltb len (length s / 2) ≡ false = ground (arith, n) in
    let run : Agrees (clear p len) 0 (some bs) (chunk_loop s (clear p len) 0) =
      subst (λ o. Agrees (clear p len) 0 o (chunk_loop s (clear p len) 0)) e
        (chunk_loop-decode s (clear p len) 0 small) in
    rw (even, room) (run ∙ ap (λ q. written q true) (clear-put p bs len fits))

hex2bin-rejected :
    (p s : List ℕ) (len : ℕ)
    → All (λ c. c < 128) s
    → decode s ≡ none
    → (hex2bin p (some s) len).ok ≡ false
unfolding hex2bin
hex2bin-rejected p s len small e =
    let run : (chunk_loop s (clear p len) 0).ok ≡ false =
      subst (λ o. Agrees (clear p len) 0 o (chunk_loop s (clear p len) 0)) e
        (chunk_loop-decode s (clear p len) 0 small) in
    elim (Bool-cases ((length s % 2) == 0)) [
      | inr odd ↦ rw odd refl
      | inl even ↦ elim (Bool-cases (ltb len (length s / 2))) [
        | inl long ↦ rw (even, long) refl
        | inr room ↦ rw (even, room) run
      ]
    ]

hex2bin-fits : (p s : List ℕ) (len : ℕ) → (hex2bin p (some s) len).ok ≡ true → length s / 2 ≤ len
unfolding hex2bin
hex2bin-fits p s len ok = elim (Bool-cases (ltb len (length s / 2))) [
  | inr room ↦ ground (arith, room)
  | inl long ↦ elim (Bool-cases ((length s % 2) == 0)) [
    | inr odd ↦ absurd (true≢false (sym ok ∙ rw odd refl))
    | inl even ↦ absurd (true≢false (sym ok ∙ rw (even, long) refl))
  ]
]

-- On an ASCII string `hex2bin` returns true exactly when the string stands for some bytes that
-- fit in `len`.
pub hex2bin_ok_iff :
    (p s : List ℕ) (len : ℕ)
    → All (λ c. c < 128) s
    → ((hex2bin p (some s) len).ok ≡ true)
      ↔ ((bs : List ℕ) × (decode s ≡ some bs) × (length bs ≤ len))
hex2bin_ok_iff p s len small = (
  λ ok. succeeded ok (Option-cases (decode s)),
  λ (bs, e, fits). ap (λ w. w.ok) (hex2bin-decode p s bs len small e fits),
)
  where
    succeeded :
        (hex2bin p (some s) len).ok ≡ true
        → (decode s ≡ none) ⊎ ((bs : List ℕ) × (decode s ≡ some bs))
        → (bs : List ℕ) × (decode s ≡ some bs) × (length bs ≤ len)
    succeeded ok (inl e) = absurd (true≢false (sym ok ∙ hex2bin-rejected p s len small e))
    succeeded ok (inr (bs, e)) = (bs, e, omega (arith, decode-length s e, hex2bin-fits p s len ok))
