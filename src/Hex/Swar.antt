-- ===== src/Hex/Swar.antt =====
-- util.c: `hex_swar_invalid_mask` on eight ASCII characters, byte by byte.
use soj_civic_light.Prelude.{
  ℕ, ◌+◌, ◌-◌, ◌*◌, ◌^◌, ◌≤◌, ◌<◌, ◌≡◌, refl, sym, ap, ap₂, ◌∙◌, ◌↔◌, true, not, ltb, if◌then◌else◌,
  ◌&&◌, leb, leb_iff, List, [], ◌∷◌, map, arith, length, All, All-mono, All-always, All-zip,
  bit_and, bit_or, ◌==◌,
}
use soj_civic_light.Prelude.Bits.{bit_or-fields, bit_or-zero, passes_below, passes_below_at}
use soj_civic_light.Hex.Lanes.{
  word, rep, AreBytes, and-map, or-map, add-map, sub-map, word-map-le, word-complement,
  word-eq-zero, zero-word, AreBytes-map, rep-map,
}
use soj_civic_light.Hex.{
  high, not64, add64, sub64, not_digit, not_alpha, hex_swar_invalid_mask, is_hex,
}

-- One of the two pairs of tests, on a chunk and on a byte below 128.
pair : ℕ → ℕ → ℕ → ℕ
pair above below chunk =
    bit_or (bit_and (add64 chunk (rep 8 above)) high)
      (bit_and (not64 (sub64 (bit_or chunk high) (rep 8 below))) high)

lane : ℕ → ℕ → ℕ → ℕ
lane above below c = bit_or (bit_and (c + above) 128) (bit_and (255 - (bit_or c 128 - below)) 128)

or_128 : (c : ℕ) → c < 128 → bit_or c 128 ≡ c + 128
or_128 c h = omega (
  arith,
  ap₂ bit_or (let e : c ≡ c + 0 * 2 ^ 7 = omega arith in e)
        (let e : 128 ≡ 0 + 1 * 2 ^ 7 = refl in e)
      ∙ bit_or-fields 7 c 0 0 1 h (omega arith),
  bit_or-zero c,
)

and_128_table : passes_below (λ x. leb (bit_and x 128) 128) 256 ≡ true
unfolding passes_below
and_128_table = refl

and_128-le : (x : ℕ) → x < 256 → bit_and x 128 ≤ 128
and_128-le x h = (leb_iff _ _).0 (passes_below_at _ 256 x h and_128_table)

map_same : (cs : List ℕ) → map (λ c. c) cs ≡ cs
map_same [] = refl
map_same (c ∷ cs) = ap (◌∷◌ c) (map_same cs)

-- The word operations of the source on the eight bytes `f c`.
module _ (f : ℕ → ℕ) (cs : List ℕ) (n : length cs ≡ 8) where
  rep_8 : (k : ℕ) → rep (length cs) k ≡ rep 8 k
  rep_8 k = ap (λ m. rep m k) n

  constant : (k : ℕ) → k < 256 → AreBytes (map (λ c. k) cs)
  constant k hk = AreBytes-map (λ c. k) cs (All-always (λ c. hk) cs)

  pub and_rep :
      (k : ℕ)
      → k < 256
      → AreBytes (map f cs)
      → bit_and (word (map f cs)) (rep 8 k) ≡ word (map (λ c. bit_and (f c) k) cs)
  and_rep k hk b =
      ap (bit_and (word (map f cs))) (sym (rep-map k cs ∙ rep_8 k))
      ∙ and-map f (λ c. k) cs b (constant k hk)

  pub or_rep :
      (k : ℕ)
      → k < 256
      → AreBytes (map f cs)
      → bit_or (word (map f cs)) (rep 8 k) ≡ word (map (λ c. bit_or (f c) k) cs)
  or_rep k hk b =
      ap (bit_or (word (map f cs))) (sym (rep-map k cs ∙ rep_8 k))
      ∙ or-map f (λ c. k) cs b (constant k hk)

  add_rep :
      (k : ℕ)
      → All (λ c. f c + k < 256) cs
      → add64 (word (map f cs)) (rep 8 k) ≡ word (map (λ c. f c + k) cs)
  add_rep k h = omega (arith, add-map f k cs, rep_8 k, rep_8 255, word-map-le (λ c. f c + k) cs h)

  sub_rep :
      (k : ℕ)
      → All (λ c. (k ≤ f c) × (f c < 256)) cs
      → sub64 (word (map f cs)) (rep 8 k) ≡ word (map (λ c. f c - k) cs)
  sub_rep k h = omega (
    arith,
    sub-map f k cs (All-mono (λ c p. p.0) cs h),
    rep_8 k,
    rep_8 255,
    word-map-le f cs (All-mono (λ c p. p.1) cs h),
  )

  complement : All (λ c. f c < 256) cs → not64 (word (map f cs)) ≡ word (map (λ c. 255 - f c) cs)
  complement h = omega (arith, word-complement f cs h, rep_8 255)

module _ (f : ℕ → ℕ) (cs : List ℕ) (n : length cs ≡ 8) (small : All (λ c. f c < 128) cs) where
  above_lanes :
      (above : ℕ)
      → above ≤ 128
      → bit_and (add64 (word (map f cs)) (rep 8 above)) high
        ≡ word (map (λ c. bit_and (f c + above) 128) cs)
  above_lanes above ha =
      let fits = All-mono {Q = λ c. f c + above < 256} (λ c p. omega arith) cs small in
      ap (λ t. bit_and t high) (add_rep f cs n above fits)
      ∙ and_rep (λ c. f c + above) cs n 128 (omega arith) (AreBytes-map (λ c. f c + above) cs fits)

  below_lanes :
      (below : ℕ)
      → below ≤ 128
      → bit_and (not64 (sub64 (bit_or (word (map f cs)) high) (rep 8 below))) high
        ≡ word (map (λ c. bit_and (255 - (bit_or (f c) 128 - below)) 128) cs)
  below_lanes below hb =
      let bytes = AreBytes-map f cs (All-mono (λ c p. omega arith) cs small) in
      let set_high =
        All-mono {Q = λ c. bit_or (f c) 128 ≡ f c + 128} (λ c p. or_128 (f c) p) cs small in
      let both = All-zip (λ c. f c < 128) (λ c. bit_or (f c) 128 ≡ f c + 128) cs small set_high in
      let fits =
        All-mono {Q = λ c. (below ≤ bit_or (f c) 128) × (bit_or (f c) 128 < 256)}
          (λ c p. (omega arith, omega arith)) cs both in
      let left = All-mono {Q = λ c. bit_or (f c) 128 - below < 256} (λ c p. omega arith) cs fits in
      ap (λ t. bit_and (not64 (sub64 t (rep 8 below))) high) (or_rep f cs n 128 (omega arith) bytes)
      ∙ ap (λ t. bit_and (not64 t) high) (sub_rep (λ c. bit_or (f c) 128) cs n below fits)
      ∙ ap (λ t. bit_and t high) (complement (λ c. bit_or (f c) 128 - below) cs n left)
      ∙ and_rep (λ c. 255 - (bit_or (f c) 128 - below)) cs n 128 (omega arith)
          (AreBytes-map (λ c. 255 - (bit_or (f c) 128 - below)) cs
            (All-always (λ c. omega arith) cs))

  pair-lanes :
      (above below : ℕ)
      → above ≤ 128
      → below ≤ 128
      → pair above below (word (map f cs)) ≡ word (map (λ c. lane above below (f c)) cs)
  unfolding pair lane
  pair-lanes above below ha hb =
      ap₂ bit_or (above_lanes above ha) (below_lanes below hb)
      ∙ or-map (λ c. bit_and (f c + above) 128)
          (λ c. bit_and (255 - (bit_or (f c) 128 - below)) 128) cs
          (AreBytes-map (λ c. bit_and (f c + above) 128) cs
            (All-mono (λ c p. omega (arith, and_128-le (f c + above) (omega arith))) cs small))
          (AreBytes-map (λ c. bit_and (255 - (bit_or (f c) 128 - below)) 128) cs
            (All-always
              (λ c. omega (arith, and_128-le (255 - (bit_or (f c) 128 - below)) (omega arith))) cs))

-- What the mask holds of one byte.
flag : ℕ → ℕ
unfolding lane
flag c = bit_and (lane 0x46 0x30 c) (lane 0x19 0x61 (bit_or c 0x20))

bytes_table :
    passes_below
      (λ c.
        ltb (lane 0x46 0x30 c) 256
        && (ltb (lane 0x19 0x61 (bit_or c 0x20)) 256 && ltb (bit_or c 0x20) 128))
      128
    ≡ true
unfolding passes_below lane
bytes_table = refl

flag_table : passes_below (λ c. if is_hex c then flag c == 0 else not (flag c == 0)) 128 ≡ true
unfolding passes_below flag is_hex
flag_table = refl

lanes_fit :
    (c : ℕ)
    → c < 128
    → (lane 0x46 0x30 c < 256) × (lane 0x19 0x61 (bit_or c 0x20) < 256) × (bit_or c 0x20 < 128)
lanes_fit c h = ground (arith, passes_below_at _ 128 c h bytes_table)

flag-is_hex : (c : ℕ) → c < 128 → (flag c ≡ 0) ↔ (is_hex c ≡ true)
flag-is_hex c h = ground (arith, passes_below_at _ 128 c h flag_table)

module _ (cs : List ℕ) (n : length cs ≡ 8) (small : All (λ c. c < 128) cs) where
  not_digit-lanes : not_digit (word cs) ≡ word (map (lane 0x46 0x30) cs)
  unfolding not_digit pair
  not_digit-lanes =
      ap not_digit (sym (ap word (map_same cs)))
      ∙ pair-lanes (λ c. c) cs n small 0x46 0x30 (omega arith) (omega arith)

  norm_lanes : bit_or (word cs) (rep 8 0x20) ≡ word (map (λ c. bit_or c 0x20) cs)
  norm_lanes =
      ap (λ t. bit_or t (rep 8 0x20)) (sym (ap word (map_same cs)))
      ∙ or_rep (λ c. c) cs n 0x20 (omega arith)
          (AreBytes-map (λ c. c) cs (All-mono (λ c p. omega arith) cs small))

  not_alpha-lanes : not_alpha (word cs) ≡ word (map (λ c. lane 0x19 0x61 (bit_or c 0x20)) cs)
  unfolding not_alpha pair
  not_alpha-lanes =
      ap (pair 0x19 0x61) norm_lanes
      ∙ pair-lanes (λ c. bit_or c 0x20) cs n (All-mono (λ c p. (lanes_fit c p).2) cs small) 0x19
          0x61 (omega arith) (omega arith)

  mask-lanes : hex_swar_invalid_mask (word cs) ≡ word (map flag cs)
  unfolding hex_swar_invalid_mask flag
  mask-lanes =
      ap₂ bit_and not_digit-lanes not_alpha-lanes
      ∙ and-map (lane 0x46 0x30) (λ c. lane 0x19 0x61 (bit_or c 0x20)) cs
          (AreBytes-map (lane 0x46 0x30) cs (All-mono (λ c p. (lanes_fit c p).0) cs small))
          (AreBytes-map (λ c. lane 0x19 0x61 (bit_or c 0x20)) cs
            (All-mono (λ c p. (lanes_fit c p).1) cs small))

  -- The eight-byte test accepts eight ASCII characters exactly when the scalar test accepts each.
  pub mask-is_hex : (hex_swar_invalid_mask (word cs) ≡ 0) ↔ All (λ c. is_hex c ≡ true) cs
  mask-is_hex = (
    λ e.
        All-mono (λ c p. (flag-is_hex c p.0).0 p.1) cs
          (All-zip (λ c. c < 128) (λ c. flag c ≡ 0) cs small
            (word-eq-zero flag cs (sym mask-lanes ∙ e))),
    λ a.
        mask-lanes
        ∙ zero-word flag cs (
            All-mono (λ c p. (flag-is_hex c p.0).1 p.1) cs
              (All-zip (λ c. c < 128) (λ c. is_hex c ≡ true) cs small a)),
  )
