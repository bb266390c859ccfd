-- ===== src/Hex/Tests.antt =====
-- util.c, the hexadecimal functions: runs on concrete inputs, and the theorems at them.
use soj_civic_light.Prelude.{
  ℕ, ◌≡◌, refl, true, false, none, some, Option, List, [], ◌∷◌, ◌++◌, arith, replicate,
}
use soj_civic_light.Hex.Spec.{decode}
use soj_civic_light.Hex.Decode.{filled, chunk_loop-scalar_loop, hex2bin-decode}
use soj_civic_light.Hex.Encode.{c_string, hex2bin-bin2hex}
use soj_civic_light.Hex.High.{hex2bin_accepts_high}
use soj_civic_light.Hex.{written, bin2hex, scalar_loop, chunk_loop, hex2bin}

-- "0aF9c3D71e", as one chunk and a tail.
abbrev text : List ℕ
text = 48 ∷ 97 ∷ 70 ∷ 57 ∷ 99 ∷ 51 ∷ 68 ∷ 55 ∷ 49 ∷ 101 ∷ []

abbrev bytes : List ℕ
bytes = 0x0a ∷ 0xf9 ∷ 0xc3 ∷ 0xd7 ∷ 0x1e ∷ []

abbrev buffer : List ℕ
buffer = replicate 7 0xee

reads_text : hex2bin buffer (some text) 6 ≡ written (bytes ++ (0 ∷ 0xee ∷ [])) true
unfolding hex2bin
reads_text = refl

hex2bin_odd : hex2bin buffer (some (48 ∷ [])) 6 ≡ written buffer false
unfolding hex2bin
hex2bin_odd = refl

bin2hex_bytes : c_string (bin2hex (replicate 12 0xee) (0x0a ∷ 0xf9 ∷ [])) ≡ 48 ∷ 97 ∷ 102 ∷ 57 ∷ []
unfolding bin2hex
bin2hex_bytes = refl

chunk_loop-scalar_loop_example :
    ((chunk_loop text buffer 0).ok ≡ (scalar_loop text buffer 0).ok)
    × ((chunk_loop text buffer 0).ok ≡ true → chunk_loop text buffer 0 ≡ scalar_loop text buffer 0)
chunk_loop-scalar_loop_example = chunk_loop-scalar_loop text buffer 0 (omega arith)

text-decode : decode text ≡ some bytes
unfolding decode
text-decode = refl

hex2bin-decode_example : hex2bin buffer (some text) 6 ≡ written (filled buffer bytes 6) true
hex2bin-decode_example = hex2bin-decode buffer text bytes 6 (omega arith) text-decode (omega arith)

hex2bin-bin2hex_example :
    hex2bin buffer (some (c_string (bin2hex (replicate 12 0xee) bytes))) 6
    ≡ written (filled buffer bytes 6) true
hex2bin-bin2hex_example =
    hex2bin-bin2hex (replicate 12 0xee) buffer bytes 6 (omega arith) (omega arith) (omega arith)
      (omega arith)

abbrev heap : ℕ → Option (List ℕ)
heap n = some (replicate n 0xee)

-- Four times U+00FA in UTF-8, the bytes c3 ba.
hex2bin_accepts_high_example :
    (decode (195 ∷ 186 ∷ 195 ∷ 186 ∷ 195 ∷ 186 ∷ 195 ∷ 186 ∷ []) ≡ none)
    × ((scalar_loop (195 ∷ 186 ∷ 195 ∷ 186 ∷ 195 ∷ 186 ∷ 195 ∷ 186 ∷ []) buffer 0).ok ≡ false)
    × ((hex2bin buffer (some (195 ∷ 186 ∷ 195 ∷ 186 ∷ 195 ∷ 186 ∷ 195 ∷ 186 ∷ [])) 6).ok ≡ true)
hex2bin_accepts_high_example =
    hex2bin_accepts_high 195 186 195 186 195 186 195 186 (omega arith) buffer 6 (omega arith)
