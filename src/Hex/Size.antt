-- ===== src/Hex/Size.antt =====
-- util.c: `hex2bin` does not change the size of its buffer.
use soj_civic_light.Prelude.{
  ℕ, ◌+◌, ◌*◌, ◌/◌, ◌%◌, ◌^◌, ◌≤◌, ◌≡◌, refl, ◌∙◌, false, ◌&&◌, choice, some, List, [], ◌∷◌, arith,
  ltb, ◌==◌, length, set, drop, replicate, length-set, length-append, length-replicate, length-drop,
  bit_or,
}
use soj_civic_light.Hex.Lanes.{word}
use soj_civic_light.Hex.{
  Written, written, hex_decode_nibble_branchless, hex_swar_invalid_mask, is_hex, pack, store_pack,
  scalar_loop, chunk_loop, clear, hex2bin,
}

length-scalar_loop : (s p : List ℕ) (j : ℕ) → length (scalar_loop s p j).buf ≡ length p
unfolding scalar_loop
length-scalar_loop [] p j = refl
length-scalar_loop (c ∷ []) p j = refl
length-scalar_loop (hi ∷ lo ∷ rest) p j =
    let byte =
      bit_or (hex_decode_nibble_branchless hi * 2 ^ 4) (hex_decode_nibble_branchless lo) % 2 ^ 8 in
    choice (λ (w : Written). length w.buf ≡ length p) (is_hex hi && is_hex lo) _ (written p false)
      (length-scalar_loop rest (set p j byte) (j + 1) ∙ length-set p j byte) refl

length-store_pack : (p : List ℕ) (j pk : ℕ) → length (store_pack p j pk) ≡ length p
unfolding store_pack
length-store_pack p j pk =
    length-set _ (j + 3) _ ∙ length-set _ (j + 2) _ ∙ length-set _ (j + 1) _ ∙ length-set p j _

length-chunk_loop : (s p : List ℕ) (j : ℕ) → length (chunk_loop s p j).buf ≡ length p
unfolding chunk_loop
length-chunk_loop (a ∷ b ∷ c ∷ d ∷ e ∷ f ∷ g ∷ h ∷ rest) p j =
    let chunk = word (a ∷ b ∷ c ∷ d ∷ e ∷ f ∷ g ∷ h ∷ []) in
    choice (λ (w : Written). length w.buf ≡ length p) (hex_swar_invalid_mask chunk == 0) _
      (written p false)
      (length-chunk_loop rest (store_pack p j (pack chunk)) (j + 4)
        ∙ length-store_pack p j (pack chunk))
      refl
length-chunk_loop [] p j = length-scalar_loop [] p j
length-chunk_loop (a ∷ []) p j = length-scalar_loop (a ∷ []) p j
length-chunk_loop (a ∷ b ∷ []) p j = length-scalar_loop (a ∷ b ∷ []) p j
length-chunk_loop (a ∷ b ∷ c ∷ []) p j = length-scalar_loop (a ∷ b ∷ c ∷ []) p j
length-chunk_loop (a ∷ b ∷ c ∷ d ∷ []) p j = length-scalar_loop (a ∷ b ∷ c ∷ d ∷ []) p j
length-chunk_loop (a ∷ b ∷ c ∷ d ∷ e ∷ []) p j = length-scalar_loop (a ∷ b ∷ c ∷ d ∷ e ∷ []) p j
length-chunk_loop (a ∷ b ∷ c ∷ d ∷ e ∷ f ∷ []) p j =
    length-scalar_loop (a ∷ b ∷ c ∷ d ∷ e ∷ f ∷ []) p j
length-chunk_loop (a ∷ b ∷ c ∷ d ∷ e ∷ f ∷ g ∷ []) p j =
    length-scalar_loop (a ∷ b ∷ c ∷ d ∷ e ∷ f ∷ g ∷ []) p j

pub length-hex2bin :
    (p s : List ℕ) (len : ℕ) → len ≤ length p → length (hex2bin p (some s) len).buf ≡ length p
unfolding hex2bin clear
length-hex2bin p s len fits =
    let size : length (clear p len) ≡ length p = omega (
      arith,
      fits,
      length-append (replicate len 0) (drop len p),
      length-replicate {A = ℕ} len 0,
      length-drop len p,
    ) in
    let P = λ (w : Written). length w.buf ≡ length p in
    choice P ((length s % 2) == 0) _ (written p false)
      (choice P (ltb len (length s / 2)) (written p false) (chunk_loop s (clear p len) 0) refl
        (length-chunk_loop s (clear p len) 0 ∙ size))
      refl
