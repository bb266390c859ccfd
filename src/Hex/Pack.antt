-- ===== src/Hex/Pack.antt =====
-- util.c: the arithmetic by which `hex2bin` turns eight digits into four bytes.
use soj_civic_light.Prelude.{
  ℕ, suc, ◌+◌, ◌*◌, ◌/◌, ◌%◌, ◌^◌, ◌<◌, ◌≡◌, refl, ap, ap₂, ◌∙◌, true, ltb, if◌then◌else◌, List, [],
  ◌∷◌, map, arith, length, All, All-mono, set, bit_and, bit_or,
}
use soj_civic_light.Prelude.Bits.{
  bit_and-fields, bit_or-fields, bit_or_sum, bit_and_mask, passes_below, passes_below_at,
}
use soj_civic_light.Hex.Lanes.{word, rep, AreBytes}
use soj_civic_light.Hex.Swar.{and_rep}
use soj_civic_light.Hex.{add64, mul64, pack, store_pack, is_hex, hex_decode_nibble_branchless}

nibble_table :
    passes_below (λ c. if is_hex c then ltb (hex_decode_nibble_branchless c) 16 else true) 128
    ≡ true
unfolding passes_below is_hex hex_decode_nibble_branchless
nibble_table = refl

pub is_hex-lt : (c : ℕ) → is_hex c ≡ true → c < 128
unfolding is_hex
is_hex-lt c h = ground arith

pub nibble-lt : (c : ℕ) → is_hex c ≡ true → hex_decode_nibble_branchless c < 16
nibble-lt c h = ground (arith, passes_below_at _ 128 c (is_hex-lt c h) nibble_table)

-- The value of a character as the eight-byte code computes it.
value : ℕ → ℕ
value c = bit_and c 0x0f + c / 64 % 2 * 9

value_nibble : (c : ℕ) → value c ≡ hex_decode_nibble_branchless c
unfolding value hex_decode_nibble_branchless
value_nibble c = omega (arith, bit_and_mask 4 c, bit_and_mask 1 (c / 64))

module _ (c w : ℕ) (h : c < 256) where
  bit6_lane : (c + w * 2 ^ 8) / 2 ^ 6 ≡ c / 64 + 4 * (w % 64) + w / 2 ^ 6 * 2 ^ 8
  bit6_lane = omega arith

is_hex-byte : (c : ℕ) → is_hex c ≡ true → c < 2 ^ 8
is_hex-byte c h = omega (arith, is_hex-lt c h)

value-lt : (c : ℕ) → is_hex c ≡ true → value c < 16
value-lt c h = omega (arith, value_nibble c, nibble-lt c h)

-- The bits 6 of the bytes, by one shift of the whole word.
bit6_lanes :
    (cs : List ℕ)
    → AreBytes cs
    → bit_and (word cs / 2 ^ 6) (rep (length cs) 1) ≡ word (map (λ c. c / 64 % 2) cs)
bit6_lanes [] h = refl
bit6_lanes (c ∷ cs) h =
    let w = word cs in
    let fits : c / 64 + 4 * (w % 64) < 2 ^ 8 = omega (arith, h.0) in
    ap (λ t. bit_and t (rep (suc (length cs)) 1)) (bit6_lane c w h.0)
    ∙ bit_and-fields 8 (c / 64 + 4 * (w % 64)) 1 (w / 2 ^ 6) (rep (length cs) 1) fits (omega arith)
    ∙ omega (arith, bit6_lanes cs h.1, bit_and_mask 1 (c / 64 + 4 * (w % 64)))

-- Four 16-bit fields.
abbrev wide : ℕ → ℕ → ℕ → ℕ → ℕ
wide a b c d = a + (b + (c + d * 2 ^ 16) * 2 ^ 16) * 2 ^ 16

module _ (op : ℕ → ℕ → ℕ)
    (op_fields : (a b x y : ℕ)
      → a < 2 ^ 16
      → b < 2 ^ 16
      → op (a + x * 2 ^ 16) (b + y * 2 ^ 16) ≡ op a b + op x y * 2 ^ 16) where
  op-wide :
      (a b c d a' b' c' d' : ℕ)
      → (a < 2 ^ 16) × (b < 2 ^ 16) × (c < 2 ^ 16)
      → (a' < 2 ^ 16) × (b' < 2 ^ 16) × (c' < 2 ^ 16)
      → op (wide a b c d) (wide a' b' c' d') ≡ wide (op a a') (op b b') (op c c') (op d d')
  op-wide a b c d a' b' c' d' h h' =
      op_fields a a' _ _ h.0 h'.0
      ∙ ap (λ t. op a a' + t * 2 ^ 16)
          (op_fields b b' _ _ h.1 h'.1
            ∙ ap (λ t. op b b' + t * 2 ^ 16) (op_fields c c' d d' h.2 h'.2))

-- Every second byte of a word.
even_bytes :
    (p q r s t u v w : ℕ)
    → AreBytes (p ∷ q ∷ r ∷ s ∷ t ∷ u ∷ v ∷ w ∷ [])
    → bit_and (word (p ∷ q ∷ r ∷ s ∷ t ∷ u ∷ v ∷ w ∷ [])) 0x00ff00ff00ff00ff ≡ wide p r t v
even_bytes p q r s t u v w k =
    let split : word (p ∷ q ∷ r ∷ s ∷ t ∷ u ∷ v ∷ w ∷ [])
        ≡ wide (p + q * 256) (r + s * 256) (t + u * 256) (v + w * 256) =
      omega arith in
    ap (λ x. bit_and x (wide 255 255 255 255)) split
    ∙ op-wide bit_and (bit_and-fields 16) (p + q * 256) (r + s * 256) (t + u * 256) (v + w * 256)
        255 255 255 255 (omega arith) (omega arith)
    ∙ omega (
      arith,
      bit_and_mask 8 (p + q * 256),
      bit_and_mask 8 (r + s * 256),
      bit_and_mask 8 (t + u * 256),
      bit_and_mask 8 (v + w * 256),
    )

-- Two digits side by side.
join :
    (p q r s t u v w : ℕ)
    → All (λ x. x < 16) (p ∷ q ∷ r ∷ s ∷ t ∷ u ∷ v ∷ w ∷ [])
    → bit_or (mul64 (wide p r t v) (2 ^ 4)) (wide q s u w)
      ≡ wide (p * 16 + q) (r * 16 + s) (t * 16 + u) (v * 16 + w)
join p q r s t u v w k =
    let shifted : mul64 (wide p r t v) (2 ^ 4)
        ≡ wide (p * 2 ^ 4) (r * 2 ^ 4) (t * 2 ^ 4) (v * 2 ^ 4) =
      omega arith in
    ap (λ x. bit_or x (wide q s u w)) shifted
    ∙ op-wide bit_or (bit_or-fields 16) (p * 2 ^ 4) (r * 2 ^ 4) (t * 2 ^ 4) (v * 2 ^ 4) q s u w
        (omega arith) (omega arith)
    ∙ omega (
      arith,
      bit_or_sum 4 p q (omega arith),
      bit_or_sum 4 r s (omega arith),
      bit_or_sum 4 t u (omega arith),
      bit_or_sum 4 v w (omega arith),
    )

-- Eight hexadecimal characters.
module _ (a b c d e f g h : ℕ)
    (hex : All (λ x. is_hex x ≡ true) (a ∷ b ∷ c ∷ d ∷ e ∷ f ∷ g ∷ h ∷ [])) where
  abbrev cs : List ℕ
  cs = a ∷ b ∷ c ∷ d ∷ e ∷ f ∷ g ∷ h ∷ []

  bytes : AreBytes cs
  bytes = All-mono {Q = λ x. x < 2 ^ 8} is_hex-byte cs hex

  small : All (λ x. value x < 16) cs
  small = All-mono {Q = λ x. value x < 16} value-lt cs hex

  lo4_lanes : bit_and (word cs) 0x0f0f0f0f0f0f0f0f ≡ word (map (λ x. bit_and x 15) cs)
  lo4_lanes = ap (λ t. bit_and t (rep 8 15)) refl ∙ and_rep (λ x. x) cs refl 15 (omega arith) bytes

  vals_lanes :
      add64
        (bit_and (word cs) 0x0f0f0f0f0f0f0f0f)
        (mul64 (bit_and (word cs / 2 ^ 6) 0x0101010101010101) 9)
      ≡ word (map value cs)
  unfolding value
  vals_lanes =
      ap₂ (λ s t. add64 s (mul64 t 9)) lo4_lanes (bit6_lanes cs bytes) ∙ omega (arith, small)

  -- The word of packed bytes, four 16-bit fields.
  pack-wide :
      pack (word cs)
      ≡ wide
          (value a * 16 + value b)
          (value c * 16 + value d)
          (value e * 16 + value f)
          (value g * 16 + value h)
  unfolding pack
  pack-wide =
      ap
        (λ vals.
          bit_or (mul64 (bit_and vals 0x00ff00ff00ff00ff) (2 ^ 4))
            (bit_and (vals / 2 ^ 8) 0x00ff00ff00ff00ff))
        vals_lanes
      ∙ ap₂ (λ s t. bit_or (mul64 s (2 ^ 4)) t)
          (even_bytes (value a) (value b) (value c) (value d) (value e) (value f) (value g)
            (value h) (omega (arith, small)))
          (ap (λ t. bit_and t 0x00ff00ff00ff00ff) odd
            ∙ even_bytes (value b) (value c) (value d) (value e) (value f) (value g) (value h) 0
                (omega (arith, small)))
      ∙ join (value a) (value b) (value c) (value d) (value e) (value f) (value g) (value h) small
    where
      odd :
          word (map value cs) / 2 ^ 8
          ≡ word (value b ∷ value c ∷ value d ∷ value e ∷ value f ∷ value g ∷ value h ∷ 0 ∷ [])
      odd = omega (arith, small)

-- The byte that two characters stand for, by the scalar code.
abbrev pub nibbles : ℕ → ℕ → ℕ
nibbles a b = hex_decode_nibble_branchless a * 16 + hex_decode_nibble_branchless b

-- The scalar code's `|` is this sum.
pub scalar_byte :
    (a b : ℕ)
    → is_hex a ≡ true
    → is_hex b ≡ true
    → bit_or (hex_decode_nibble_branchless a * 2 ^ 4) (hex_decode_nibble_branchless b) % 2 ^ 8
      ≡ nibbles a b
scalar_byte a b ha hb =
    let la = nibble-lt a ha in
    let lb : hex_decode_nibble_branchless b < 2 ^ 4 = nibble-lt b hb in
    omega (arith, bit_or_sum 4 (hex_decode_nibble_branchless a) (hex_decode_nibble_branchless b) lb)

-- The four stores of the eight-byte code write what the scalar code writes.
pub store_pack-nibbles :
    (a b c d e f g h : ℕ)
    → All (λ x. is_hex x ≡ true) (a ∷ b ∷ c ∷ d ∷ e ∷ f ∷ g ∷ h ∷ [])
    → (p : List ℕ) (j : ℕ)
    → store_pack p j (pack (word (a ∷ b ∷ c ∷ d ∷ e ∷ f ∷ g ∷ h ∷ [])))
      ≡ set
          (set (set (set p j (nibbles a b)) (j + 1) (nibbles c d)) (j + 2) (nibbles e f))
          (j + 3)
          (nibbles g h)
unfolding store_pack
store_pack-nibbles a b c d e f g h hex p j =
    let s = small a b c d e f g h hex in
    let w = pack-wide a b c d e f g h hex in
    let b0 : pack (word (a ∷ b ∷ c ∷ d ∷ e ∷ f ∷ g ∷ h ∷ [])) % 2 ^ 8 ≡ nibbles a b =
      omega (arith, s, w, value_nibble a, value_nibble b) in
    let b1 : pack (word (a ∷ b ∷ c ∷ d ∷ e ∷ f ∷ g ∷ h ∷ [])) / 2 ^ 16 % 2 ^ 8 ≡ nibbles c d =
      omega (arith, s, w, value_nibble c, value_nibble d) in
    let b2 : pack (word (a ∷ b ∷ c ∷ d ∷ e ∷ f ∷ g ∷ h ∷ [])) / 2 ^ 32 % 2 ^ 8 ≡ nibbles e f =
      omega (arith, s, w, value_nibble e, value_nibble f) in
    let b3 : pack (word (a ∷ b ∷ c ∷ d ∷ e ∷ f ∷ g ∷ h ∷ [])) / 2 ^ 48 % 2 ^ 8 ≡ nibbles g h =
      omega (arith, s, w, value_nibble g, value_nibble h) in
    λ i. set (set (set (set p j (b0 i)) (j + 1) (b1 i)) (j + 2) (b2 i)) (j + 3) (b3 i)
