-- ===== src/Json.antt =====
-- The part of jansson's interface that the stratum code calls, a library outside the program.
pub mod Trees
use soj_civic_light.Prelude.{ℕ, ◌-◌, ◌%◌, ◌^◌, Bool, false, Option, List, ltb, leb, if◌then◌else◌}

-- `json_int_t`.
pub data ℤ : Type 0 where
  pos : ℕ → ℤ
  negsuc : ℕ → ℤ

-- `a ≥ n`.
unfoldable pub at_least : ℕ → ℤ → Bool
at_least n (pos a) = leb n a
at_least n (negsuc a) = false

-- The cast of one to `int`.
unfoldable pub to_int : ℤ → ℤ
to_int (pos a) =
    if ltb (a % 2 ^ 32) (2 ^ 31) then pos (a % 2 ^ 32) else negsuc (2 ^ 32 - 1 - a % 2 ^ 32)
to_int (negsuc a) =
    if ltb (a % 2 ^ 32) (2 ^ 31) then negsuc (a % 2 ^ 32) else pos (2 ^ 32 - 1 - a % 2 ^ 32)

-- A number that is not negative.
abbrev pub to_nat : ℤ → ℕ
to_nat (pos a) = a
to_nat (negsuc a) = 0

-- Values, and what the functions of the same names, with `json_` before them, read from one: NULL is
-- none. A string is its bytes.
pub record Jansson : Type 1 where
  pub Value : Type 0
  pub loads : List ℕ → Option Value
  pub object_get : Value → List ℕ → Option Value
  pub array_get : Value → ℕ → Option Value
  pub array_size : Value → ℕ
  pub is_array : Value → Bool
  pub string_value : Value → Option (List ℕ)
  pub integer_value : Value → ℤ
  pub is_null : Value → Bool
  pub is_true : Value → Bool
  pub is_false : Value → Bool
