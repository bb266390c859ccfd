-- ===== src/Handshake/Sizes.antt =====
-- soj_stratum_transport.c: the sizes of the extranonces that a pool gives.
use soj_civic_light.Prelude.{
  ℕ, ◌+◌, ◌/◌, ◌≤◌, ◌≡◌, refl, ◌∙◌, Bool, true, false, not, ◌||◌, ◌⊎◌, inl, inr, Option, none, some,
  List, ◌>>=◌, arith, if◌then◌else◌, length, replicate, length-replicate,
}
use soj_civic_light.Hex.{hex2bin}
use soj_civic_light.Hex.Size.{length-hex2bin}
use soj_civic_light.Line.{Conn}
use soj_civic_light.Json.{Jansson, ℤ, pos, negsuc, to_int, to_nat, at_least}
use soj_civic_light.Handshake.{stratum_parse_extranonce}

-- A connection with both extranonces: the first a block of the size that is noted, the second of 2 to
-- 16 bytes.
pub record HasExtranonce (c : Conn) : Type 0 where
  pub xnonce1 : List ℕ
  pub held : c.xnonce1 ≡ some xnonce1
  pub size : length xnonce1 ≡ c.xnonce1_size
  pub low : 2 ≤ c.xnonce2_size
  pub high : c.xnonce2_size ≤ 16

in_range :
    (n : ℤ) → (not (at_least 2 n) || at_least 17 n) ≡ false → (2 ≤ to_nat n) × (to_nat n ≤ 16)
unfolding at_least
in_range (pos a) h = ground (arith, h)
in_range (negsuc a) h = ground (arith, h)

-- The connection that the two values of a pool give.
abbrev taken : (xnonce1 : List ℕ) → (n : ℤ) → Conn → Conn
taken xnonce1 n c = record c {
  xnonce1_size = length xnonce1 / 2;
  xnonce1 =
      some ((hex2bin (replicate (length xnonce1 / 2) 0) (some xnonce1) (length xnonce1 / 2)).buf);
  xnonce2_size = to_nat n;
}

taken-HasExtranonce :
    (xnonce1 : List ℕ) (n : ℤ) (c : Conn)
    → (not (at_least 2 n) || at_least 17 n) ≡ false
    → HasExtranonce (taken xnonce1 n c)
taken-HasExtranonce xnonce1 n c range =
    let size = length xnonce1 / 2 in
    let room = length-replicate {A = ℕ} size 0 in
    let (low, high) = in_range n range in
    record {
      xnonce1 = (hex2bin (replicate size 0) (some xnonce1) size).buf;
      held = refl;
      size = length-hex2bin (replicate size 0) xnonce1 size (omega (arith, room)) ∙ room;
      low = low;
      high = high;
    }

-- A call either returns false, with the connection as it was or, for want of memory, without its first
-- extranonce; or it returns true, and the connection has both extranonces.
abbrev pub Parsed : (calloc : Bool) → Conn → Bool × Conn → Type 0
Parsed calloc c r =
    ((r.0 ≡ false) × ((r.1 ≡ c) ⊎ ((calloc ≡ false) × (r.1.xnonce1 ≡ none))))
    ⊎ ((r.0 ≡ true) × HasExtranonce r.1)

by_tests :
    (calloc bad : Bool) (c small good : Conn)
    → small.xnonce1 ≡ none
    → (bad ≡ false → HasExtranonce good)
    → Parsed calloc c (if bad then (false, c) else if calloc then (true, good) else (false, small))
by_tests calloc true c small good h k = inl (refl, inl refl)
by_tests true false c small good h k = inr (refl, k refl)
by_tests false false c small good h k = inl (refl, inr (refl, h))

module _ (json : Jansson) where
  -- Whatever a pool sends as its extranonces, `stratum_parse_extranonce` either returns false, with the
  -- connection as it was or, for want of memory, without a first extranonce; or it returns true, and the
  -- connection has a first extranonce in a block of the size that is noted, and a size of 2 to 16
  -- bytes for the second.
  pub parse_extranonce-Parsed :
      (calloc : Bool) (params : Option json.Value) (pndx : ℕ) (c : Conn)
      → Parsed calloc c (stratum_parse_extranonce json calloc params pndx c)
  unfolding stratum_parse_extranonce
  parse_extranonce-Parsed calloc params pndx c =
      let string_at = params >>= λ p. json.array_get p pndx >>= json.string_value in
      let number_at = params >>= λ p. json.array_get p (pndx + 1) in
      let n = to_int (elim number_at [ none ↦ pos 0 | some v ↦ json.integer_value v ]) in
      by_string string_at n
    where
      by_string :
          (s : Option (List ℕ)) (n : ℤ)
          → Parsed calloc c (elim s [
            | none ↦ (false, c)
            | some xnonce1 ↦
                if not (at_least 2 n) || at_least 17 n
                then (false, c)
                else if calloc
                then (true, taken xnonce1 n c)
                else (false, record c { xnonce1_size = length xnonce1 / 2; xnonce1 = none })
          ])
      by_string none n = inl (refl, inl refl)
      by_string (some xnonce1) n =
          by_tests calloc (not (at_least 2 n) || at_least 17 n) c _ (taken xnonce1 n c) refl
            (taken-HasExtranonce xnonce1 n c)
