-- ===== src/Hex/Encode.antt =====
-- util.c: `bin2hex`, `abin2hex` and `bebin2hex`, and the round trip through `hex2bin`.
use soj_civic_light.Prelude.{
  ℕ, zero, suc, ◌+◌, ◌-◌, ◌*◌, ◌/◌, ◌%◌, ◌^◌, ◌≤◌, ◌<◌, ◌≡◌, refl, sym, ap, ◌∙◌, true, false, ◌==◌,
  inl, inr, Option-cases, Option, some, List, [], ◌∷◌, ◌++◌, arith, length, All, set, get_or, drop,
  append_assoc, length-append, set-append, reverse, reverse-cons, length-reverse,
}
use soj_civic_light.Hex.Spec.{hex_value, decode}
use soj_civic_light.Hex.Decode.{filled, hex2bin-decode}
use soj_civic_light.Hex.{
  written, hex_digit, sprintf_02x, bin2hex_loop, bin2hex, abin2hex, bebin2hex_loop, bebin2hex,
  hex2bin,
}

-- Two digits to a byte.
pub encode : List ℕ → List ℕ
unfolding hex_digit
encode [] = []
encode (b ∷ bs) = hex_digit (b / 16) ∷ hex_digit (b % 16) ∷ encode bs

-- The string at the start of a buffer: what stands before the first NUL.
abbrev pub c_string : List ℕ → List ℕ
c_string [] = []
c_string (c ∷ cs) = elim (c == 0) [ true ↦ [] | false ↦ c ∷ c_string cs ]

hex_digit-ascii :
    (n : ℕ) → n < 16 → (hex_digit n < 128) × (0 < hex_digit n) × (hex_value (hex_digit n) ≡ some n)
unfolding hex_digit
hex_digit-ascii n h = ground arith

encode-ascii : (bs : List ℕ) → All (λ b. b < 256) bs → All (λ c. c < 128) (encode bs)
unfolding encode
encode-ascii [] h = tt
encode-ascii (b ∷ bs) h = (
  (hex_digit-ascii (b / 16) (omega (arith, h.0))).0,
  ((hex_digit-ascii (b % 16) (omega arith)).0, encode-ascii bs h.1),
)

decode-encode : (bs : List ℕ) → All (λ b. b < 256) bs → decode (encode bs) ≡ some bs
unfolding decode encode
decode-encode [] h = refl
decode-encode (b ∷ bs) h =
    let e : b / 16 * 16 + b % 16 ≡ b = omega arith in
    rw
      (
        (hex_digit-ascii (b / 16) (omega (arith, h.0))).2,
        (hex_digit-ascii (b % 16) (omega arith)).2,
        decode-encode bs h.1,
      )
      (ap (λ x. some (x ∷ bs)) e)

-- The two digits and the NUL, written at the start of the part of a buffer behind `pre`.
sprintf_02x-append :
    (pre : List ℕ) (x y z : ℕ) (r : List ℕ) (o b : ℕ)
    → length pre ≡ o
    → sprintf_02x (pre ++ (x ∷ y ∷ z ∷ r)) o b
      ≡ pre ++ (hex_digit (b / 16) ∷ hex_digit (b % 16) ∷ 0 ∷ r)
unfolding sprintf_02x
sprintf_02x-append pre x y z r o b n =
    let d1 = hex_digit (b / 16) in
    let d2 = hex_digit (b % 16) in
    let at_0 : o ≡ length pre + 0 = omega arith in
    let at_1 : o + 1 ≡ length pre + 1 = omega arith in
    let at_2 : o + 2 ≡ length pre + 2 = omega arith in
    ap (λ j. set (set (set (pre ++ (x ∷ y ∷ z ∷ r)) j d1) (o + 1) d2) (o + 2) 0) at_0
    ∙ ap (λ s. set (set s (o + 1) d2) (o + 2) 0) (set-append pre (x ∷ y ∷ z ∷ r) 0 d1)
    ∙ ap (λ j. set (set (pre ++ (d1 ∷ y ∷ z ∷ r)) j d2) (o + 2) 0) at_1
    ∙ ap (λ s. set s (o + 2) 0) (set-append pre (d1 ∷ y ∷ z ∷ r) 1 d2)
    ∙ ap (λ j. set (pre ++ (d1 ∷ d2 ∷ z ∷ r)) j 0) at_2
    ∙ set-append pre (d1 ∷ d2 ∷ z ∷ r) 2 0

-- A buffer after `n` bytes were printed at its start, without the digits: the NUL and the rest.
abbrev pub terminated : ℕ → List ℕ → List ℕ
terminated zero buf = buf
terminated (suc n) buf = 0 ∷ drop (suc (suc n * 2)) buf

terminated-nul : (n : ℕ) (r : List ℕ) → terminated n (0 ∷ r) ≡ 0 ∷ drop (n * 2) r
terminated-nul zero r = refl
terminated-nul (suc n) r = refl

terminated-cons :
    (n x y z : ℕ) (r : List ℕ) → terminated (suc n) (x ∷ y ∷ z ∷ r) ≡ 0 ∷ drop (n * 2) r
terminated-cons n x y z r =
    ap (λ k. 0 ∷ drop (suc k) (x ∷ y ∷ z ∷ r))
      (let e : suc n * 2 ≡ suc (suc (n * 2)) = omega arith in e)

bin2hex_loop-encode :
    (bs pre buf : List ℕ) (i : ℕ)
    → length pre ≡ i * 2
    → length bs * 2 < length buf
    → bin2hex_loop (pre ++ buf) i bs ≡ pre ++ (encode bs ++ terminated (length bs) buf)
unfolding bin2hex_loop encode
bin2hex_loop-encode [] pre buf i n room = refl
bin2hex_loop-encode (b ∷ bs) pre [] i n room = absurd (omega arith)
bin2hex_loop-encode (b ∷ bs) pre (x ∷ []) i n room = absurd (omega arith)
bin2hex_loop-encode (b ∷ bs) pre (x ∷ y ∷ []) i n room = absurd (omega arith)
bin2hex_loop-encode (b ∷ bs) pre (x ∷ y ∷ z ∷ r) i n room =
    let d1 = hex_digit (b / 16) in
    let d2 = hex_digit (b % 16) in
    let pair = d1 ∷ d2 ∷ [] in
    let tail = terminated-nul (length bs) r ∙ sym (terminated-cons (length bs) x y z r) in
    ap (λ s. bin2hex_loop s (i + 1) bs)
      (sprintf_02x-append pre x y z r (i * 2) b n ∙ sym (append_assoc pre pair (0 ∷ r)))
    ∙ bin2hex_loop-encode bs (pre ++ pair) (0 ∷ r) (i + 1) (omega (arith, length-append pre pair))
        (omega arith)
    ∙ append_assoc pre pair (encode bs ++ terminated (length bs) (0 ∷ r))
    ∙ ap (λ t. pre ++ (d1 ∷ d2 ∷ (encode bs ++ t))) tail

-- In a buffer with room for the NUL, `bin2hex` writes two digits for each byte and a NUL, and
-- leaves the rest of the buffer; with no byte to print it writes nothing.
pub bin2hex-encode :
    (s bs : List ℕ)
    → length bs * 2 < length s
    → bin2hex s bs ≡ encode bs ++ terminated (length bs) s
unfolding bin2hex
bin2hex-encode s bs room = bin2hex_loop-encode bs [] s 0 refl room

c_string-append : (xs r : List ℕ) → All (λ c. 0 < c) xs → c_string (xs ++ (0 ∷ r)) ≡ xs
c_string-append [] r h = refl
c_string-append (x ∷ xs) r h =
    let e : (x == 0) ≡ false = ground (arith, h.0) in
    rw (e, c_string) (ap (◌∷◌ x) (c_string-append xs r h.1))

encode-pos : (bs : List ℕ) → All (λ b. b < 256) bs → All (λ c. 0 < c) (encode bs)
unfolding encode
encode-pos [] h = tt
encode-pos (b ∷ bs) h = (
  (hex_digit-ascii (b / 16) (omega (arith, h.0))).1,
  ((hex_digit-ascii (b % 16) (omega arith)).1, encode-pos bs h.1),
)

-- The string that `bin2hex` leaves in its buffer, for at least one byte.
pub c_string-bin2hex :
    (s bs : List ℕ)
    → All (λ b. b < 256) bs
    → 0 < length bs
    → length bs * 2 < length s
    → c_string (bin2hex s bs) ≡ encode bs
c_string-bin2hex s [] bytes some_byte room = absurd (omega arith)
c_string-bin2hex s (b ∷ bs) bytes some_byte room =
    ap c_string (bin2hex-encode s (b ∷ bs) room)
    ∙ c_string-append (encode (b ∷ bs)) (drop (suc (suc (length bs) * 2)) s)
        (encode-pos (b ∷ bs) bytes)

pub length-encode : (bs : List ℕ) → length (encode bs) ≡ length bs * 2
unfolding encode
length-encode [] = omega arith
length-encode (b ∷ bs) = omega (arith, length-encode bs)

pub abin2hex-some :
    (fresh : ℕ → Option (List ℕ)) (block p : List ℕ)
    → fresh (length p * 2 + 1) ≡ some block
    → abin2hex fresh p ≡ some (bin2hex block p)
unfolding abin2hex
abin2hex-some fresh block p got = rw (got, abin2hex) refl

-- `hex2bin` reads back what `bin2hex` printed: for at least one byte, a buffer of twice as many
-- characters and one more, and a target with room, it succeeds and stores the same bytes.
pub hex2bin-bin2hex :
    (s p bs : List ℕ) (len : ℕ)
    → All (λ b. b < 256) bs
    → 0 < length bs
    → length bs * 2 < length s
    → length bs ≤ len
    → hex2bin p (some (c_string (bin2hex s bs))) len ≡ written (filled p bs len) true
hex2bin-bin2hex s p bs len bytes some_byte room fits =
    ap (λ t. hex2bin p (some t) len) (c_string-bin2hex s bs bytes some_byte room)
    ∙ hex2bin-decode p (encode bs) bs len (encode-ascii bs bytes) (decode-encode bs bytes) fits

-- The bytes that `bebin2hex` visits, from index `n - 1` down.
downto : List ℕ → ℕ → List ℕ
downto p zero = []
downto p (suc n) = get_or p n 0 ∷ downto p n

downto-cons : (x : ℕ) (xs : List ℕ) (n : ℕ) → downto (x ∷ xs) (suc n) ≡ downto xs n ++ (x ∷ [])
unfolding downto
downto-cons x xs zero = refl
downto-cons x xs (suc n) = ap (◌∷◌ (get_or xs n 0)) (downto-cons x xs n)

downto-reverse : (xs : List ℕ) → downto xs (length xs) ≡ reverse xs
unfolding downto
downto-reverse [] = refl
downto-reverse (x ∷ xs) =
    downto-cons x xs (length xs)
    ∙ ap (λ t. t ++ (x ∷ [])) (downto-reverse xs)
    ∙ sym (reverse-cons x xs)

bebin2hex_loop-downto :
    (p : List ℕ) (left i j : ℕ) (s : List ℕ)
    → left < 2 ^ 64
    → (0 < left → j + 1 ≡ left)
    → bebin2hex_loop p left i j s ≡ bin2hex_loop s i (downto p left)
unfolding bebin2hex_loop bin2hex_loop downto
bebin2hex_loop-downto p zero i j s h e = refl
bebin2hex_loop-downto p (suc left) i j s h e =
    let at : j ≡ left = omega (arith, e (omega arith)) in
    bebin2hex_loop-downto p left (i + 1) ((j + 2 ^ 64 - 1) % 2 ^ 64)
      (sprintf_02x s (i * 2) (get_or p j 0)) (omega arith) (λ pos. omega arith)
    ∙ ap (λ k. bin2hex_loop (sprintf_02x s (i * 2) (get_or p k 0)) (i + 1) (downto p left)) at

-- `bebin2hex` prints the bytes in reverse order, and fails exactly where `abin2hex` does.
pub bebin2hex-abin2hex :
    (fresh : ℕ → Option (List ℕ)) (p : List ℕ)
    → length p < 2 ^ 64
    → bebin2hex fresh p ≡ abin2hex fresh (reverse p)
unfolding bebin2hex abin2hex bin2hex
bebin2hex-abin2hex fresh p h = elim (Option-cases (fresh (length p * 2 + 1))) [
  | inl no_memory ↦ rw (length-reverse p, no_memory, bebin2hex, abin2hex) refl
  | inr (s, got) ↦
      rw (length-reverse p, got, bebin2hex, abin2hex)
        (ap some (
          bebin2hex_loop-downto p (length p) 0 ((length p + 2 ^ 64 - 1) % 2 ^ 64) s h
            (λ pos. omega arith)
          ∙ ap (bin2hex_loop s 0) (downto-reverse p)))
]
