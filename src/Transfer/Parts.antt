-- ===== src/Transfer/Parts.antt =====
-- util.c: what the buffer holds behind the parts of an answer.
use soj_civic_light.Prelude.{
  ℕ, ◌+◌, ◌%◌, ◌^◌, ◌≤◌, ◌<◌, ◌≡◌, refl, sym, ap, ap₂, ◌∙◌, subst, arith, Bool-cases, ◌⊎◌, inl, inr,
  Option, none, some, Option-cases, bind-some, List, [], ◌∷◌, ◌++◌, append-nil, append_assoc,
  length, length-append, length-drop, take, drop, ltb, ltb_iff, if◌then◌else◌,
}
use mathlib.Core.Option.{some-injective}
use soj_civic_light.Sha.Spec.{concat}
use soj_civic_light.Sha.Stream.{take-append}
use soj_civic_light.Transfer.{DataBuffer, newalloc, store, grow, all_data_cb}

-- No block and no bytes, or the bytes and a NUL at the start of a block.
pub record Holds (db : DataBuffer) (bytes : List ℕ) : Type 0 where
  pub size : length db.buf ≡ db.allocated
  pub len : db.len ≡ length bytes
  pub text : ((db.buf ≡ []) × (bytes ≡ [])) ⊎ ((rest : List ℕ) × (db.buf ≡ bytes ++ (0 ∷ rest)))

-- A block that `realloc` gives has the size asked for, and starts with the old one where it is not
-- smaller.
pub record Reallocs (realloc : List ℕ → ℕ → Option (List ℕ)) : Type 0 where
  pub fits : (old new : List ℕ) (n : ℕ) → realloc old n ≡ some new → length new ≡ n
  pub keeps :
      (old new : List ℕ) (n : ℕ)
      → realloc old n ≡ some new
      → length old ≤ n
      → (more : List ℕ) × (new ≡ old ++ more)

-- The buffer starts with the bytes.
starts :
    (db : DataBuffer) (bytes : List ℕ) → Holds db bytes → (rest : List ℕ) × (db.buf ≡ bytes ++ rest)
starts db bytes h = elim h.text [
  | inl (no_block, nothing) ↦ ([], no_block ∙ sym (ap (λ b. b ++ []) nothing))
  | inr (rest, e) ↦ (0 ∷ rest, e)
]

store-Holds :
    (part bytes rest : List ℕ) (db : DataBuffer)
    → length db.buf ≡ db.allocated
    → db.len ≡ length bytes
    → db.buf ≡ bytes ++ rest
    → db.len + length part + 1 ≤ db.allocated
    → db.len + length part < 2 ^ 64
    → Holds (store part db) (bytes ++ part)
unfolding store
store-Holds part bytes rest db size len e room small =
    let front : take db.len db.buf ≡ bytes = ap₂ take len e ∙ take-append bytes rest in
    let behind = length-drop (db.len + length part + 1) db.buf in
    let whole = length-append part (0 ∷ drop (db.len + length part + 1) db.buf) in
    record {
      size =
          ap (λ t. length (t ++ (part ++ (0 ∷ drop (db.len + length part + 1) db.buf)))) front
          ∙ (let all = length-append bytes (part ++ (0 ∷ drop (db.len + length part + 1) db.buf)) in
              omega (arith, all, whole, behind, len, size, room));
      len = (let both = length-append bytes part in omega (arith, both, len, small));
      text = inr (
        drop (db.len + length part + 1) db.buf,
        ap (λ t. t ++ (part ++ (0 ∷ drop (db.len + length part + 1) db.buf))) front
            ∙ sym (append_assoc bytes part (0 ∷ drop (db.len + length part + 1) db.buf)),
      );
    }

enough : (limited req : ℕ) → req ≤ (if ltb limited req then req else limited)
enough limited req = ground arith

newalloc-enough : (db : DataBuffer) (req n : ℕ) → newalloc db req ≡ some n → req ≤ n
unfolding newalloc
newalloc-enough db req n e =
    let (content_length, _, f) = bind-some db.headers _ n e in
    subst (λ k. req ≤ k) (some-injective _ _ f) (enough _ req)

module _ (realloc : List ℕ → ℕ → Option (List ℕ)) where
  -- Calls that take the whole of each part, in order.
  pub data Taken : List (List ℕ) → DataBuffer → DataBuffer → Type 0 where
    taken_none : {db : DataBuffer} → Taken [] db db
    taken_one :
        {db d r : DataBuffer} {parts : List (List ℕ)} (part : List ℕ)
        → all_data_cb realloc part db ≡ some (length part, d)
        → Taken parts d r
        → Taken (part ∷ parts) db r

module _ (realloc : List ℕ → ℕ → Option (List ℕ)) (memory : Reallocs realloc) where
  grow-Holds :
      (part bytes : List ℕ) (db : DataBuffer) (n : ℕ)
      → Holds db bytes
      → db.allocated < n
      → db.len + length part + 1 ≤ n
      → db.len + length part < 2 ^ 64
      → (newmem : Option (List ℕ)) → realloc db.buf n ≡ newmem
      → (grow realloc part db n newmem ≡ (0, db))
        ⊎ ((r : DataBuffer) × (grow realloc part db n newmem ≡ (length part, r))
            × Holds r (bytes ++ part))
  unfolding grow
  grow-Holds part bytes db n h more room small none e = inl refl
  grow-Holds part bytes db n h more room small (some newmem) e =
      let (rest, f) = starts db bytes h in
      let (added, g) = memory.keeps db.buf newmem n e (omega (arith, h.size, more)) in
      inr (
        _,
        refl,
        store-Holds part bytes (rest ++ added) (record db { buf = newmem; allocated = n })
            (memory.fits db.buf newmem n e) h.len
            (g ∙ (ap (λ b. b ++ added) f ∙ append_assoc bytes rest added)) room small,
      )

  -- What a call leaves: the buffer as it was, or with the part behind the bytes.
  Leaves : (part bytes : List ℕ) → DataBuffer → Option (ℕ × DataBuffer) → Type 0
  Leaves part bytes db none = Unit
  Leaves part bytes db (some (n, r)) =
      ((n ≡ 0) × (r ≡ db)) ⊎ ((n ≡ length part) × Holds r (bytes ++ part))

  grown-Leaves :
      (part bytes : List ℕ) (db : DataBuffer) (p : ℕ × DataBuffer)
      → (p ≡ (0, db)) ⊎ ((r : DataBuffer) × (p ≡ (length part, r)) × Holds r (bytes ++ part))
      → Leaves part bytes db (some p)
  unfolding Leaves
  grown-Leaves part bytes db p (inl e) = inl (ap (λ x. x.0) e, ap (λ x. x.1) e)
  grown-Leaves part bytes db p (inr (r, e, h)) =
      inr (ap (λ x. x.0) e, subst (λ x. Holds x (bytes ++ part)) (sym (ap (λ x. x.1) e)) h)

  all_data_cb-Leaves :
      (part bytes : List ℕ) (db : DataBuffer)
      → Holds db bytes
      → db.len + length part + 1 < 2 ^ 64
      → Leaves part bytes db (all_data_cb realloc part db)
  unfolding all_data_cb Leaves
  all_data_cb-Leaves part bytes db h small =
      let req = (db.len + length part + 1) % 2 ^ 64 in
      let same : req ≡ db.len + length part + 1 = omega (arith, small) in
      elim (Bool-cases (ltb db.allocated req)) [
        | inl more ↦ elim (Option-cases (newalloc db req)) [
          | inl undefined ↦ rw (all_data_cb, more, undefined) tt
          | inr (n, e) ↦
              let big = newalloc-enough db req n e in
              let below = (ltb_iff db.allocated req).0 more in
              rw (all_data_cb, more, e)
                (grown-Leaves part bytes db _ (
                  grow-Holds part bytes db n h (omega (arith, below, big))
                    (omega (arith, same, big)) (omega (arith, small)) _ refl))
        ]
        | inr room ↦
            let (rest, f) = starts db bytes h in
            let fits : db.len + length part + 1 ≤ db.allocated = ground (arith, room, same) in
            rw (all_data_cb, room)
              (inr
                (refl, store-Holds part bytes rest db h.size h.len f fits (omega (arith, small))))
      ]

  one-Holds :
      (part bytes : List ℕ) (db d : DataBuffer)
      → Holds db bytes
      → Leaves part bytes db (some (length part, d))
      → Holds d (bytes ++ part)
  unfolding Leaves
  one-Holds [] bytes db d h (inl (zero_taken, same)) =
      subst (λ x. Holds x (bytes ++ [])) (sym same) (subst (Holds db) (sym (append-nil bytes)) h)
  one-Holds (b ∷ part) bytes db d h (inl (zero_taken, same)) = absurd (omega (arith, zero_taken))
  one-Holds part bytes db d h (inr (whole, k)) = k

  Taken-Holds :
      (parts : List (List ℕ)) (bytes : List ℕ) (db r : DataBuffer)
      → Holds db bytes
      → length bytes + length (concat parts) + 1 < 2 ^ 64
      → Taken realloc parts db r
      → Holds r (bytes ++ concat parts)
  Taken-Holds [] bytes db _ h small taken_none = subst (Holds db) (sym (append-nil bytes)) h
  Taken-Holds (part ∷ parts) bytes db r h small (taken_one {d = d} _ e rest) =
      let both = length-append part (concat parts) in
      let ahead = length-append bytes part in
      let one = one-Holds part bytes db d h (
        subst (Leaves part bytes db) e
          (all_data_cb-Leaves part bytes db h (omega (arith, both, small, h.len)))) in
      subst (Holds r) (append_assoc bytes part (concat parts))
        (Taken-Holds parts (bytes ++ part) d r one (omega (arith, both, ahead, small)) rest)

-- Where realloc does what it should and the parts of an answer have fewer than 2^64 - 1 bytes in all:
-- once all_data_cb has taken each part, from an empty buffer on, the buffer holds the parts in order
-- and a NUL behind them within the size that is noted, or there were no bytes and it has no block.
pub all_data_cb-Holds :
    (realloc : List ℕ → ℕ → Option (List ℕ)) (headers : Option ℕ) (parts : List (List ℕ))
    (r : DataBuffer)
    → Reallocs realloc
    → length (concat parts) + 1 < 2 ^ 64
    → Taken realloc parts record { buf = []; len = 0; allocated = 0; headers = headers } r
    → Holds r (concat parts)
all_data_cb-Holds realloc headers parts r memory small taken =
    Taken-Holds realloc memory parts [] _ r
      (record { size = refl; len = refl; text = inl (refl, refl) }) (omega (arith, small)) taken

-- The first part reads the announced length, whether or not there is a place for it.
no_headers :
    (realloc : List ℕ → ℕ → Option (List ℕ)) (part : List ℕ)
    → length part + 1 < 2 ^ 64
    → all_data_cb realloc part record { buf = []; len = 0; allocated = 0; headers = none } ≡ none
unfolding all_data_cb newalloc
no_headers realloc part small = ground (arith, small)
