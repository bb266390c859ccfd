-- ===== src/Hex/High.antt =====
-- util.c: what the eight-byte test of `hex2bin` does with bytes that are not ASCII.
use soj_civic_light.Prelude.{
  ℕ, ◌+◌, ◌-◌, ◌*◌, ◌^◌, ◌≤◌, ◌<◌, ◌≡◌, refl, ap, ap₂, ◌∙◌, subst, true, false, leb, ltb, ◌==◌,
  if◌then◌else◌, some, none, List, [], ◌∷◌, map, arith, All-mono, ==_iff, length, All, bit_and,
  bit_or,
}
use soj_civic_light.Prelude.Bits.{zero-bit_and, passes_below, passes_below_at}
use soj_civic_light.Hex.Lanes.{word, zero-word, AreBytes-map}
use soj_civic_light.Hex.Swar.{and_rep, or_rep}
use soj_civic_light.Hex.Spec.{decode, Agrees}
use soj_civic_light.Hex.Decode.{decode-bad, scalar_loop-decode}
use soj_civic_light.Hex.{
  is_hex, high, ones, mul64, add64, sub64, not64, not_digit, not_alpha, hex_swar_invalid_mask,
  hex2bin, scalar_loop,
}

-- The top half of the byte range, from 0xba on.
abbrev pub IsHigh : ℕ → Type 0
IsHigh c = (186 ≤ c) × (c < 256)

high_table : passes_below (λ x. bit_and x 128 == 0) 128 ≡ true
unfolding passes_below
high_table = refl

and_128 : (x : ℕ) → x < 128 → bit_and x 128 ≡ 0
and_128 x h = (==_iff _ _).0 (passes_below_at _ 128 x h high_table)

or_table : passes_below (λ x. if leb 128 x then bit_or x 128 == x else true) 256 ≡ true
unfolding passes_below
or_table = refl

or_128 : (x : ℕ) → IsHigh x → bit_or x 128 ≡ x
or_128 x h = ground (arith, passes_below_at _ 256 x h.1 or_table)

-- Bytes below 128 have no high bit.
no_high_bit :
    (cs : List ℕ)
    → length cs ≡ 8
    → All (λ x. x < 128) cs
    → bit_and (word (map (λ x. x) cs)) high ≡ 0
no_high_bit cs n small =
    and_rep (λ x. x) cs n 128 (omega arith)
      (AreBytes-map (λ x. x) cs (All-mono {Q = λ x. x < 2 ^ 8} (λ x p. omega arith) cs small))
    ∙ zero-word (λ x. bit_and x 128) cs (All-mono and_128 cs small)

high_or_same :
    (cs : List ℕ) → All IsHigh cs → word (map (λ x. bit_or x 128) cs) ≡ word (map (λ x. x) cs)
high_or_same [] h = refl
high_or_same (c ∷ cs) h = ap₂ (λ s t. s + t * 2 ^ 8) (or_128 c h.0) (high_or_same cs h.1)

module _ (a b c d e f g h : ℕ) (hi : All IsHigh (a ∷ b ∷ c ∷ d ∷ e ∷ f ∷ g ∷ h ∷ [])) where
  abbrev cs : List ℕ
  cs = a ∷ b ∷ c ∷ d ∷ e ∷ f ∷ g ∷ h ∷ []

  abbrev up : List ℕ
  up =
      (a - 186)
      ∷ (b - 185)
      ∷ (c - 185)
      ∷ (d - 185)
      ∷ (e - 185)
      ∷ (f - 185)
      ∷ (g - 185)
      ∷ (h - 185)
      ∷ []

  abbrev down : List ℕ
  down =
      (303 - a)
      ∷ (303 - b)
      ∷ (303 - c)
      ∷ (303 - d)
      ∷ (303 - e)
      ∷ (303 - f)
      ∷ (303 - g)
      ∷ (303 - h)
      ∷ []

  -- Each byte overflows into the next, and the sums have no high bit.
  above_39 : bit_and (add64 (word cs) (mul64 ones (0x7f - 0x39))) high ≡ 0
  above_39 =
      let sums : add64 (word cs) (mul64 ones (0x7f - 0x39)) ≡ word up = omega (arith, hi) in
      ap (λ t. bit_and t high) sums ∙ no_high_bit up refl (omega (arith, hi))

  below_30 : bit_and (not64 (sub64 (bit_or (word cs) high) (mul64 ones 0x30))) high ≡ 0
  below_30 =
      let same =
        or_rep (λ x. x) cs refl 128 (omega arith)
          (AreBytes-map (λ x. x) cs (All-mono {P = IsHigh} {Q = λ x. x < 2 ^ 8} (λ x p. p.1) cs hi))
        ∙ high_or_same cs hi in
      let left : not64 (sub64 (word cs) (mul64 ones 0x30)) ≡ word down = omega (arith, hi) in
      ap (λ t. bit_and (not64 (sub64 t (mul64 ones 0x30))) high) same
      ∙ ap (λ t. bit_and t high) left
      ∙ no_high_bit down refl (omega (arith, hi))

  mask-zero : hex_swar_invalid_mask (word cs) ≡ 0
  unfolding hex_swar_invalid_mask not_digit
  mask-zero =
      ap₂ (λ s t. bit_and (bit_or s t) (not_alpha (word cs))) above_39 below_30
      ∙ zero-bit_and (not_alpha (word cs))

  -- Eight bytes from 0xba on are no hexadecimal digits, and the scalar loop refuses them, but
  -- `hex2bin` takes them for digits and returns true.
  pub hex2bin_accepts_high :
      (p : List ℕ) (len : ℕ)
      → 4 ≤ len
      → (decode cs ≡ none)
        × ((scalar_loop cs p 0).ok ≡ false)
        × ((hex2bin p (some cs) len).ok ≡ true)
  unfolding hex2bin
  hex2bin_accepts_high p len room =
      let no_a : is_hex a ≡ false = unfold is_hex in ground (arith, hi.0) in
      let none_8 = decode-bad a b (c ∷ d ∷ e ∷ f ∷ g ∷ h ∷ []) (rw no_a refl) in
      let room_8 : ltb len 4 ≡ false = ground (arith, room) in
      (
        none_8,
        subst (λ o. Agrees p 0 o (scalar_loop cs p 0)) none_8 (scalar_loop-decode cs p 0),
        rw (room_8, mask-zero) refl,
      )
