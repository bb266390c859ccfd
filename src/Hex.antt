-- ===== src/Hex.antt =====
-- util.c: `bin2hex`, `abin2hex`, `bebin2hex`, `hex2bin` and the helpers of `hex2bin`.
-- A C string is the list of its bytes before the NUL; a buffer is the list of its bytes.
pub mod Lanes
pub mod Swar
pub mod Pack
pub mod Spec
pub mod Decode
pub mod Encode
pub mod High
pub mod Size
mod Tests
use soj_civic_light.Prelude.{
  ℕ, zero, suc, ◌+◌, ◌-◌, ◌*◌, ◌/◌, ◌%◌, ◌^◌, Bool, true, false, ◌&&◌, ◌||◌, Option, none, some,
  List, [], ◌∷◌, ◌++◌, ltb, leb, ◌==◌, if◌then◌else◌, length, set, get_or, replicate, drop, bit_and,
  bit_or,
}
use soj_civic_light.Hex.Lanes.{word}

-- One digit that `%02x` prints.
pub hex_digit : ℕ → ℕ
hex_digit n = if ltb n 10 then 48 + n else 87 + n

-- `sprintf(s + o, "%02x", b)`: two digits and the NUL.
pub sprintf_02x : List ℕ → ℕ → ℕ → List ℕ
sprintf_02x s o b = set (set (set s o (hex_digit (b / 16))) (o + 1) (hex_digit (b % 16))) (o + 2) 0

-- The loop of `bin2hex` from index `i`, over the bytes left.
pub bin2hex_loop : List ℕ → ℕ → List ℕ → List ℕ
bin2hex_loop s i [] = s
bin2hex_loop s i (b ∷ p) = bin2hex_loop (sprintf_02x s (i * 2) b) (i + 1) p

pub bin2hex : List ℕ → List ℕ → List ℕ
unfolding bin2hex_loop sprintf_02x hex_digit
bin2hex s p = bin2hex_loop s 0 p

-- `fresh` is what `malloc` returns for a size: the buffer with its old contents, or NULL.
pub abin2hex : (fresh : ℕ → Option (List ℕ)) → List ℕ → Option (List ℕ)
unfolding bin2hex
abin2hex fresh p = elim (fresh (length p * 2 + 1)) [ none ↦ none | some s ↦ some (bin2hex s p) ]

-- The loop of `bebin2hex`: `i` goes up, `j` down, and the last `j--` wraps.
pub bebin2hex_loop : List ℕ → ℕ → ℕ → ℕ → List ℕ → List ℕ
bebin2hex_loop p zero i j s = s
bebin2hex_loop p (suc left) i j s =
    bebin2hex_loop p left (i + 1) ((j + 2 ^ 64 - 1) % 2 ^ 64) (sprintf_02x s (i * 2) (get_or p j 0))

pub bebin2hex : (fresh : ℕ → Option (List ℕ)) → List ℕ → Option (List ℕ)
unfolding bebin2hex_loop sprintf_02x hex_digit
bebin2hex fresh p = elim (fresh (length p * 2 + 1)) [
  | none ↦ none
  | some s ↦ some (bebin2hex_loop p (length p) 0 ((length p + 2 ^ 64 - 1) % 2 ^ 64) s)
]

pub hex_decode_nibble_branchless : ℕ → ℕ
hex_decode_nibble_branchless c = (bit_and c 0x0f + bit_and (c / 2 ^ 6) 1 * 9) % 2 ^ 8

-- `~x` and the wrapping sum, difference and left shift of `uint64_t`.
abbrev pub not64 : ℕ → ℕ
not64 x = 2 ^ 64 - 1 - x

abbrev pub add64 : ℕ → ℕ → ℕ
add64 x y = (x + y) % 2 ^ 64

abbrev pub sub64 : ℕ → ℕ → ℕ
sub64 x y = (x + 2 ^ 64 - y) % 2 ^ 64

abbrev pub mul64 : ℕ → ℕ → ℕ
mul64 x y = x * y % 2 ^ 64

abbrev pub high : ℕ
high = 0x8080808080808080

abbrev pub ones : ℕ
ones = 0x0101010101010101

-- The four tests of `hex_swar_invalid_mask`, in two pairs.
pub not_digit : ℕ → ℕ
not_digit chunk =
    let above_39 = bit_and (add64 chunk (mul64 ones (0x7f - 0x39))) high in
    let below_30 = bit_and (not64 (sub64 (bit_or chunk high) (mul64 ones 0x30))) high in
    bit_or above_39 below_30

pub not_alpha : ℕ → ℕ
not_alpha chunk =
    let norm = bit_or chunk (mul64 ones 0x20) in
    let above_66 = bit_and (add64 norm (mul64 ones (0x7f - 0x66))) high in
    let below_61 = bit_and (not64 (sub64 (bit_or norm high) (mul64 ones 0x61))) high in
    bit_or above_66 below_61

pub hex_swar_invalid_mask : ℕ → ℕ
unfolding not_digit not_alpha
hex_swar_invalid_mask chunk = bit_and (not_digit chunk) (not_alpha chunk)

-- The packing of eight digits into four bytes, as the 64-bit word `pack` of the source.
pub pack : ℕ → ℕ
pack chunk =
    let lo4 = bit_and chunk 0x0f0f0f0f0f0f0f0f in
    let bit6 = bit_and (chunk / 2 ^ 6) 0x0101010101010101 in
    let vals = add64 lo4 (mul64 bit6 9) in
    let hi = mul64 (bit_and vals 0x00ff00ff00ff00ff) (2 ^ 4) in
    let lo = bit_and (vals / 2 ^ 8) 0x00ff00ff00ff00ff in bit_or hi lo

-- The four stores `p[j] = (unsigned char)(pack)` and so on.
pub store_pack : List ℕ → ℕ → ℕ → List ℕ
store_pack p j pk =
    let p = set p j (pk % 2 ^ 8) in
    let p = set p (j + 1) (pk / 2 ^ 16 % 2 ^ 8) in
    let p = set p (j + 2) (pk / 2 ^ 32 % 2 ^ 8) in set p (j + 3) (pk / 2 ^ 48 % 2 ^ 8)

pub is_hex : ℕ → Bool
is_hex c = (leb 48 c && leb c 57) || (leb 97 c && leb c 102) || (leb 65 c && leb c 70)

-- The buffer after the call, and what the call returns.
pub record Written : Type 0 where
  pub buf : List ℕ
  pub ok : Bool

abbrev pub written : List ℕ → Bool → Written
written p b = record { buf = p; ok = b }

-- The scalar tail. The character after the last is the NUL.
pub scalar_loop : List ℕ → List ℕ → ℕ → Written
scalar_loop [] p j = written p true
scalar_loop (c ∷ []) p j = written p false
scalar_loop (hi_c ∷ lo_c ∷ rest) p j =
    let byte =
      bit_or (hex_decode_nibble_branchless hi_c * 2 ^ 4) (hex_decode_nibble_branchless lo_c)
      % 2 ^ 8 in
    let next = scalar_loop rest (set p j byte) (j + 1) in
    if is_hex hi_c && is_hex lo_c then next else written p false

-- The loop over chunks of eight characters, then the scalar tail.
pub chunk_loop : List ℕ → List ℕ → ℕ → Written
chunk_loop (a ∷ b ∷ c ∷ d ∷ e ∷ f ∷ g ∷ h ∷ rest) p j =
    let chunk = word (a ∷ b ∷ c ∷ d ∷ e ∷ f ∷ g ∷ h ∷ []) in
    let next = chunk_loop rest (store_pack p j (pack chunk)) (j + 4) in
    if hex_swar_invalid_mask chunk == 0 then next else written p false
chunk_loop s p j = scalar_loop s p j

-- `memset(p, 0, len)`.
pub clear : List ℕ → ℕ → List ℕ
clear p len = replicate len 0 ++ drop len p

-- `none` for the string is NULL.
unfoldable pub hex2bin : List ℕ → Option (List ℕ) → ℕ → Written
unfolding chunk_loop scalar_loop clear hex_swar_invalid_mask pack store_pack is_hex
    hex_decode_nibble_branchless
hex2bin p none len = written p false
hex2bin p (some s) len =
    if (length s % 2) == 0
    then (if ltb len (length s / 2) then written p false else chunk_loop s (clear p len) 0)
    else written p false
