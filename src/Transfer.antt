-- ===== src/Transfer.antt =====
-- util.c: the buffer for the body of an HTTP answer, `all_data_cb`, which curl calls for each part of
-- it, and `databuf_free`. `realloc` is a parameter.
pub mod Parts
mod Tests
use soj_civic_light.Prelude.{
  ℕ, ◌+◌, ◌*◌, ◌%◌, ◌^◌, Bool, ◌&&◌, Option, none, some, List, [], ◌∷◌, ◌++◌, length, take, drop,
  ltb, ◌==◌, if◌then◌else◌, ◌-◌, ◌>>=◌,
}

-- `buf` is the block, [] for NULL, and `headers` the announced length, if the pointer is not NULL.
pub record DataBuffer : Type 0 where
  pub buf : List ℕ
  pub len : ℕ
  pub allocated : ℕ
  pub headers : Option ℕ

abbrev pub max_realloc_increase : ℕ
max_realloc_increase = 8 * 1024 * 1024

abbrev pub initial_alloc : ℕ
initial_alloc = 16 * 1024

-- none: `headers` is NULL, and is read.
pub newalloc : DataBuffer → (reqalloc : ℕ) → Option ℕ
newalloc db reqalloc = db.headers >>= λ content_length.
    let wanted =
      if ltb 0 db.len
      then db.allocated * 2 % 2 ^ 64
      else if ltb 0 content_length
      then (content_length + 1) % 2 ^ 64
      else initial_alloc in
    let limited =
      if (content_length == 0)
        && ltb max_realloc_increase ((wanted + (2 ^ 64 - db.allocated)) % 2 ^ 64)
      then (db.allocated + max_realloc_increase) % 2 ^ 64
      else wanted in
    some (if ltb limited reqalloc then reqalloc else limited)

-- The two calls of `memcpy` and the new length.
pub store : List ℕ → DataBuffer → DataBuffer
store part db = record db {
  buf = take db.len db.buf ++ (part ++ (0 ∷ drop (db.len + length part + 1) db.buf));
  len = (db.len + length part) % 2 ^ 64;
}

module _ (realloc : (old : List ℕ) → (n : ℕ) → Option (List ℕ)) where
  pub grow : List ℕ → DataBuffer → (n : ℕ) → (newmem : Option (List ℕ)) → ℕ × DataBuffer
  unfolding store
  grow part db n none = (0, db)
  grow part db n (some newmem) =
      (length part, store part (record db { buf = newmem; allocated = n }))

  pub all_data_cb : (part : List ℕ) → DataBuffer → Option (ℕ × DataBuffer)
  unfolding newalloc grow
  all_data_cb part db =
      let reqalloc = (db.len + length part + 1) % 2 ^ 64 in
      if ltb db.allocated reqalloc
      then (newalloc db reqalloc >>= λ n. some (grow part db n (realloc db.buf n)))
      else some (length part, store part db)

abbrev databuf_free : DataBuffer → DataBuffer
databuf_free db = record { buf = []; len = 0; allocated = 0; headers = none }
