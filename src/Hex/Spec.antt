-- ===== src/Hex/Spec.antt =====
-- What `hex2bin` promises, with no reference to how it computes: the bytes that a string of
-- hexadecimal digits stands for.
use soj_civic_light.Prelude.{
  ℕ, ◌+◌, ◌-◌, ◌*◌, ◌≡◌, true, false, Option, none, some, List, [], ◌∷◌, leb, ◌&&◌, if◌then◌else◌,
  set,
}
use soj_civic_light.Hex.{Written, written}

abbrev pub hex_value : ℕ → Option ℕ
hex_value c =
    if leb 48 c && leb c 57
    then some (c - 48)
    else if leb 97 c && leb c 102
    then some (c - 87)
    else if leb 65 c && leb c 70
    then some (c - 55)
    else none

abbrev pub byte_value : Option ℕ → Option ℕ → Option ℕ
byte_value (some x) (some y) = some (x * 16 + y)
byte_value _ _ = none

abbrev pub prepend : Option ℕ → Option (List ℕ) → Option (List ℕ)
prepend (some x) (some xs) = some (x ∷ xs)
prepend _ _ = none

unfoldable pub decode : List ℕ → Option (List ℕ)
decode [] = some []
decode (c ∷ []) = none
decode (a ∷ b ∷ rest) = prepend (byte_value (hex_value a) (hex_value b)) (decode rest)

-- The stores of a list of bytes from index `j` on.
abbrev pub put : List ℕ → ℕ → List ℕ → List ℕ
put p j [] = p
put p j (b ∷ bs) = put (set p j b) (j + 1) bs

-- A run agrees with the specification: it fails, or it has stored the bytes.
abbrev pub Agrees : List ℕ → ℕ → Option (List ℕ) → Written → Type 0
Agrees p j none w = w.ok ≡ false
Agrees p j (some bs) w = w ≡ written (put p j bs) true
