-- ===== src/Target.antt =====
-- util.c: `valid_hash`, the test of a 256-bit hash against a target, in both of its builds.
mod Tests
use soj_civic_light.Prelude.{
  ℕ, ◌+◌, ◌*◌, ◌^◌, ◌≤◌, ◌<◌, ◌≡◌, ◌↔◌, Bool, true, not, arith, ltb, leb, ◌==◌, if◌then◌else◌,
}

-- The 32 bytes as four `uint64_t`, lowest first.
pub record Hash : Type 0 where
  pub w0 : ℕ
  pub w1 : ℕ
  pub w2 : ℕ
  pub w3 : ℕ

abbrev pub IsHash : Hash → Type 0
IsHash h = (h.w0 < 2 ^ 64) × (h.w1 < 2 ^ 64) × (h.w2 < 2 ^ 64) × (h.w3 < 2 ^ 64)

-- The build without 128-bit integers.
unfoldable pub valid_hash : Hash → Hash → Bool
valid_hash h t =
    if not (h.w3 == t.w3)
    then ltb h.w3 t.w3
    else if not (h.w2 == t.w2)
    then ltb h.w2 t.w2
    else if not (h.w1 == t.w1)
    then ltb h.w1 t.w1
    else leb h.w0 t.w0

-- Two `uint64_t` as one `uint128_t`.
abbrev pub wide : ℕ → ℕ → ℕ
wide lo hi = lo + hi * 2 ^ 64

-- The build with 128-bit integers.
pub valid_hash_128 : Hash → Hash → Bool
valid_hash_128 h t =
    let h1 = wide h.w2 h.w3 in
    let t1 = wide t.w2 t.w3 in
    if not (h1 == t1) then ltb h1 t1 else leb (wide h.w0 h.w1) (wide t.w0 t.w1)

-- The number that the 32 bytes stand for.
abbrev pub value : Hash → ℕ
value h = h.w0 + h.w1 * 2 ^ 64 + h.w2 * 2 ^ 128 + h.w3 * 2 ^ 192

-- Both builds accept a hash exactly when it is at most the target, as 256-bit numbers.
pub valid_hash_iff :
    (h t : Hash)
    → IsHash h
    → IsHash t
    → ((valid_hash h t ≡ true) ↔ (value h ≤ value t))
      × ((valid_hash_128 h t ≡ true) ↔ (value h ≤ value t))
unfolding valid_hash valid_hash_128
valid_hash_iff h t vh vt = ground arith
