-- ===== src/Prelude/Bits.antt =====
-- `&`, `|` and `^` of C at variables: one equation for the lowest digit, and the law that they
-- act on the fields of a word separately.
use Prim.Native.Nat.{
  ℕ, zero, suc, ◌+◌, ◌-◌, ◌*◌, ◌/◌, ◌%◌, ◌^◌, ◌≤◌, ◌<◌, min, max, bit_and, bit_or, bit_xor, digits,
  differ, bit_and-bitwise, bit_or-bitwise, bit_xor-bitwise,
}
use mathlib.Core.Path.{◌≡◌, refl, ap, ap₂, ◌∙◌, sym}
use native.Mathlib.Nat.{pow-suc, one-le-pow, mod-lt, mod-add-div'}
use native.Mathlib.Omega.{arith}
use mathlib.Core.Bool.{Bool, true, ◌&&◌}

module _ (z : ℕ → ℕ) (f : ℕ → ℕ → ℕ) where
  digits-zero : (n b : ℕ) → digits z f n 0 b ≡ z b
  digits-zero zero b = refl
  digits-zero (suc n) b = refl

  -- Two counts of digits that both suffice give one result.
  digits-agree : (n m a b : ℕ) → a ≤ n → a ≤ m → digits z f n a b ≡ digits z f m a b
  digits-agree n m zero b h k = digits-zero n b ∙ sym (digits-zero m b)
  digits-agree zero m (suc a) b h k = absurd (omega arith)
  digits-agree (suc n) zero (suc a) b h k = absurd (omega arith)
  digits-agree (suc n) (suc m) (suc a) b h k =
      ap (λ t. t * 2 + f (suc a % 2) (b % 2))
        (digits-agree n m (suc a / 2) (b / 2) (omega arith) (omega arith))

  digits-step :
      (a b : ℕ)
      → digits z f (suc a) (suc a) b
        ≡ digits z f (suc a / 2) (suc a / 2) (b / 2) * 2 + f (suc a % 2) (b % 2)
  digits-step a b =
      ap (λ t. t * 2 + f (suc a % 2) (b % 2))
        (digits-agree a (suc a / 2) (suc a / 2) (b / 2) (omega arith) (omega arith))

pub bit_and-half : (m n : ℕ) → bit_and m n ≡ bit_and (m / 2) (n / 2) * 2 + min (m % 2) (n % 2)
bit_and-half zero n = omega (arith, bit_and-bitwise 0 n, bit_and-bitwise 0 (n / 2))
bit_and-half (suc a) b = omega (
  arith,
  bit_and-bitwise (suc a) b,
  bit_and-bitwise (suc a / 2) (b / 2),
  digits-step (λ t. zero) min a b,
)

pub bit_or-half : (a b : ℕ) → bit_or a b ≡ bit_or (a / 2) (b / 2) * 2 + max (a % 2) (b % 2)
bit_or-half zero b = omega (arith, bit_or-bitwise 0 b, bit_or-bitwise 0 (b / 2))
bit_or-half (suc a) b = omega (
  arith,
  bit_or-bitwise (suc a) b,
  bit_or-bitwise (suc a / 2) (b / 2),
  digits-step (λ t. t) max a b,
)

pub bit_xor-half : (a b : ℕ) → bit_xor a b ≡ bit_xor (a / 2) (b / 2) * 2 + differ (a % 2) (b % 2)
bit_xor-half zero b = omega (arith, bit_xor-bitwise 0 b, bit_xor-bitwise 0 (b / 2))
bit_xor-half (suc a) b = omega (
  arith,
  bit_xor-bitwise (suc a) b,
  bit_xor-bitwise (suc a / 2) (b / 2),
  digits-step (λ t. t) differ a b,
)

-- What holds of an operation that works digit by digit.
module _ (op f : ℕ → ℕ → ℕ)
    (op_half : (a b : ℕ) → op a b ≡ op (a / 2) (b / 2) * 2 + f (a % 2) (b % 2))
    (op_zero : op 0 0 ≡ 0) where
  fields :
      (k a b x y : ℕ)
      → a < 2 ^ k
      → b < 2 ^ k
      → op (a + x * 2 ^ k) (b + y * 2 ^ k) ≡ op a b + op x y * 2 ^ k
  fields zero a b x y ha hb =
      let za : a ≡ 0 = omega arith in
      let zb : b ≡ 0 = omega arith in
      let ea : a + x * 2 ^ 0 ≡ x = omega arith in
      let eb : b + y * 2 ^ 0 ≡ y = omega arith in rw (ea, eb, za, zb, op_zero) (omega arith)
  fields (suc k) a b x y ha hb =
      let pa = ap (λ (t : ℕ). x * t) (pow-suc 2 k) in
      let pb = ap (λ (t : ℕ). y * t) (pow-suc 2 k) in
      let po = ap (λ (t : ℕ). op x y * t) (pow-suc 2 k) in
      let la = a + x * 2 ^ suc k in
      let lb = b + y * 2 ^ suc k in
      let ea : la / 2 ≡ a / 2 + x * 2 ^ k = omega arith in
      let eb : lb / 2 ≡ b / 2 + y * 2 ^ k = omega arith in
      let ra : la % 2 ≡ a % 2 = omega arith in
      let rb : lb % 2 ≡ b % 2 = omega arith in
      let ih =
        fields k (a / 2) (b / 2) x y (omega (arith, pow-suc 2 k)) (omega (arith, pow-suc 2 k)) in
      let s = ap₂ op ea eb ∙ ih in
      let t = ap₂ f ra rb in omega (arith, op_half la lb, op_half a b, s, t, po)

pub bit_and-fields :
    (k a b x y : ℕ)
    → a < 2 ^ k
    → b < 2 ^ k
    → bit_and (a + x * 2 ^ k) (b + y * 2 ^ k) ≡ bit_and a b + bit_and x y * 2 ^ k
bit_and-fields = fields bit_and min bit_and-half refl

pub bit_or-fields :
    (k a b x y : ℕ)
    → a < 2 ^ k
    → b < 2 ^ k
    → bit_or (a + x * 2 ^ k) (b + y * 2 ^ k) ≡ bit_or a b + bit_or x y * 2 ^ k
bit_or-fields = fields bit_or max bit_or-half refl

pub bit_xor-fields :
    (k a b x y : ℕ)
    → a < 2 ^ k
    → b < 2 ^ k
    → bit_xor (a + x * 2 ^ k) (b + y * 2 ^ k) ≡ bit_xor a b + bit_xor x y * 2 ^ k
bit_xor-fields = fields bit_xor differ bit_xor-half refl

bit_and-zero_below : (n a : ℕ) → a ≤ n → bit_and a 0 ≡ 0
bit_and-zero_below n zero h = refl
bit_and-zero_below zero (suc a) h = absurd (omega arith)
bit_and-zero_below (suc n) (suc a) h =
    omega (arith, bit_and-half (suc a) 0, bit_and-zero_below n (suc a / 2) (omega arith))

pub bit_and-zero : (a : ℕ) → bit_and a 0 ≡ 0
bit_and-zero a = bit_and-zero_below a a (omega arith)

bit_or-zero_below : (n a : ℕ) → a ≤ n → bit_or a 0 ≡ a
bit_or-zero_below n zero h = refl
bit_or-zero_below zero (suc a) h = absurd (omega arith)
bit_or-zero_below (suc n) (suc a) h =
    omega (arith, bit_or-half (suc a) 0, bit_or-zero_below n (suc a / 2) (omega arith))

pub bit_or-zero : (a : ℕ) → bit_or a 0 ≡ a
bit_or-zero a = bit_or-zero_below a a (omega arith)

pub zero-bit_and : (a : ℕ) → bit_and 0 a ≡ 0
zero-bit_and a = bit_and-bitwise 0 a

pub zero-bit_or : (a : ℕ) → bit_or 0 a ≡ a
zero-bit_or a = bit_or-bitwise 0 a

-- `hi | lo` is a sum where `lo` lies below the bits of `hi`.
pub bit_or_sum : (k hi lo : ℕ) → lo < 2 ^ k → bit_or (hi * 2 ^ k) lo ≡ lo + hi * 2 ^ k
bit_or_sum k hi lo h =
    let ea : hi * 2 ^ k ≡ 0 + hi * 2 ^ k = omega arith in
    let eb : lo ≡ lo + 0 * 2 ^ k = omega arith in
    ap₂ bit_or ea eb
    ∙ bit_or-fields k 0 lo hi 0 (omega arith) h
    ∙ ap₂ (λ s t. s + t * 2 ^ k) (zero-bit_or lo) (bit_or-zero hi)

bit_and-ones : (k a : ℕ) → a < 2 ^ k → bit_and a (2 ^ k - 1) ≡ a
bit_and-ones zero a h = bit_and-zero a ∙ omega arith
bit_and-ones (suc k) a h =
    let e : (2 ^ suc k - 1) / 2 ≡ 2 ^ k - 1 = omega (arith, pow-suc 2 k) in
    let r : (2 ^ suc k - 1) % 2 ≡ 1 = omega (arith, pow-suc 2 k) in
    let ih = bit_and-ones k (a / 2) (omega (arith, pow-suc 2 k)) in
    omega (arith, bit_and-half a (2 ^ suc k - 1), ap (bit_and (a / 2)) e ∙ ih, r)

-- A mask of `k` low ones takes the remainder.
pub bit_and_mask : (k a : ℕ) → bit_and a (2 ^ k - 1) ≡ a % 2 ^ k
bit_and_mask k a =
    let p : 0 < 2 ^ k = one-le-pow k 2 (omega arith) in
    let ea : a ≡ a % 2 ^ k + a / 2 ^ k * 2 ^ k = grind (arith, mod-add-div' a (2 ^ k)) in
    let em : 2 ^ k - 1 ≡ 2 ^ k - 1 + 0 * 2 ^ k = omega arith in
    ap₂ bit_and ea em
    ∙ bit_and-fields k (a % 2 ^ k) (2 ^ k - 1) (a / 2 ^ k) 0 (mod-lt a p) (omega arith)
    ∙ omega (
      arith,
      bit_and-ones k (a % 2 ^ k) (mod-lt a p),
      ap (λ t. t * 2 ^ k) (bit_and-zero (a / 2 ^ k)),
    )

-- A test of every number below a bound, by evaluation.
unfoldable pub passes_below : (ℕ → Bool) → ℕ → Bool
passes_below test zero = true
passes_below test (suc limit) = passes_below test limit && test limit

pub passes_below_at :
    (test : ℕ → Bool) (limit i : ℕ) → i < limit → passes_below test limit ≡ true → test i ≡ true
unfolding passes_below
passes_below_at test zero i below all = absurd (omega arith)
passes_below_at test (suc limit) i below all = ground (arith, passes_below_at test limit i)
