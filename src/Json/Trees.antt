-- ===== src/Json/Trees.antt =====
-- Values to try the code on that reads jansson's.
use soj_civic_light.Prelude.{
  ℕ, Bool, true, false, ◌&&◌, ◌==◌, Option, none, some, List, [], ◌∷◌, if◌then◌else◌, ltb,
}
use soj_civic_light.Json.{ℤ, pos, Jansson}

pub data Tree : Type 0 where
  text : List ℕ → Tree
  number : ℤ → Tree
  flag : Bool → Tree
  fields : (List ℕ → Tree) → Tree
  items : ℕ → (ℕ → Tree) → Tree
  missing : Tree

abbrev pub same : List ℕ → List ℕ → Bool
same [] [] = true
same [] (b ∷ bs) = false
same (a ∷ rest) [] = false
same (a ∷ rest) (b ∷ bs) = (a == b) && same rest bs

abbrev present : Tree → Option Tree
present missing = none
present (text s) = some (text s)
present (number n) = some (number n)
present (flag b) = some (flag b)
present (fields f) = some (fields f)
present (items n f) = some (items n f)

abbrev get : Tree → List ℕ → Option Tree
get (fields f) key = present (f key)
get (text s) key = none
get (number n) key = none
get (flag b) key = none
get (items n f) key = none
get missing key = none

abbrev item : Tree → ℕ → Option Tree
item (items n f) i = if ltb i n then present (f i) else none
item (text s) i = none
item (number n) i = none
item (flag b) i = none
item (fields f) i = none
item missing i = none

abbrev string_of : Tree → Option (List ℕ)
string_of (text s) = some s
string_of (number n) = none
string_of (flag b) = none
string_of (fields f) = none
string_of (items n f) = none
string_of missing = none

abbrev number_of : Tree → ℤ
number_of (number n) = n
number_of (text s) = pos 0
number_of (flag b) = pos 0
number_of (fields f) = pos 0
number_of (items n f) = pos 0
number_of missing = pos 0

abbrev is_flag : Bool → Tree → Bool
is_flag true (flag b) = b
is_flag false (flag b) = if b then false else true
is_flag b (text s) = false
is_flag b (number n) = false
is_flag b (fields f) = false
is_flag b (items n f) = false
is_flag b missing = false

abbrev size_of : Tree → Option ℕ
size_of (items n f) = some n
size_of (text s) = none
size_of (number n) = none
size_of (flag b) = none
size_of (fields f) = none
size_of missing = none

-- The library, for a reading of lines.
abbrev pub trees : (List ℕ → Option Tree) → Jansson
trees load = record {
  Value = Tree;
  loads = load;
  object_get = get;
  array_get = item;
  array_size = λ t. elim (size_of t) [ none ↦ 0 | some n ↦ n ];
  is_array = λ t. elim (size_of t) [ none ↦ false | some n ↦ true ];
  string_value = string_of;
  integer_value = number_of;
  is_null = λ t. false;
  is_true = is_flag true;
  is_false = is_flag false;
}
