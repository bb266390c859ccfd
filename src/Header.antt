-- ===== src/Header.antt =====
-- soj_protocol.c, with `std_build_block_header` and `std_build_extraheader` of soj.c and the word orders
-- of soj_work.c: from a job to the header of a work, and from a work to the request that submits it.
-- The difficulties, computed in floating point, and the locks are left out.
pub mod Merkle
pub mod Layout
pub mod Request
mod Tests
use soj_civic_light.Prelude.{
  ℕ, zero, suc, ◌+◌, ◌-◌, ◌*◌, ◌/◌, ◌%◌, ◌^◌, Bool, Option, none, some, List, [], ◌∷◌, ◌++◌,
  if◌then◌else◌, length, get_or, set, take, drop, replicate,
}
use soj_civic_light.Sha.{copy_at, be32, sha256_full}
use soj_civic_light.Scan.{memory}
use soj_civic_light.Hex.{bin2hex, abin2hex}
use soj_civic_light.Hex.Encode.{c_string}
use soj_civic_light.Notify.{Job}

-- `le32dec` and `be32dec` of the bytes from a pointer on.
pub le32dec : List ℕ → ℕ
le32dec p =
    (get_or p 0 0 + get_or p 1 0 * 2 ^ 8 + get_or p 2 0 * 2 ^ 16 + get_or p 3 0 * 2 ^ 24) % 2 ^ 32

pub be32dec : List ℕ → ℕ
be32dec p =
    (get_or p 3 0 + get_or p 2 0 * 2 ^ 8 + get_or p 1 0 * 2 ^ 16 + get_or p 0 0 * 2 ^ 24) % 2 ^ 32

module _ (iv fresh : List ℕ) (transform : List ℕ → List ℕ → List ℕ) where
  -- `sha256d(hash, data, len)`: what the memory at `hash` then holds.
  pub sha256d : List ℕ → List ℕ → List ℕ
  sha256d hash message =
      let once = copy_at hash 0 (sha256_full iv transform fresh message) in
      copy_at once 0 (sha256_full iv transform fresh (take 32 once))

  pub merkle_loop : List (List ℕ) → List ℕ → List ℕ
  unfolding sha256d
  merkle_loop [] root = root
  merkle_loop (branch ∷ branches) root =
      let both = copy_at root 32 (take 32 branch) in
      merkle_loop branches (sha256d both (take 64 both))

  -- `root` is the buffer of 64 bytes.
  pub sha256d_gen_merkle_root : List ℕ → Job → List ℕ
  unfolding merkle_loop
  sha256d_gen_merkle_root root job =
      merkle_loop (take job.merkle_count job.merkle) (sha256d root job.coinbase)

  pub sha256_gen_merkle_root : List ℕ → Job → List ℕ
  unfolding merkle_loop
  sha256_gen_merkle_root root job =
      merkle_loop (take job.merkle_count job.merkle)
        (copy_at root 0 (sha256_full iv transform fresh job.coinbase))

-- `for (i = 0; i < n; i++) data[place(i)] = value(i)`.
pub store_loop : (place value : ℕ → ℕ) → ℕ → List ℕ → List ℕ
store_loop place value zero words = words
store_loop place value (suc n) words = set (store_loop place value n words) (place n) (value n)

-- The 48 words of `work->data`.
pub std_build_block_header :
    (have_stratum : Bool)
    → (version : ℕ) → (prevhash merkle_tree : List ℕ) → (ntime nbits : ℕ) → List ℕ
unfolding store_loop le32dec be32dec
std_build_block_header have_stratum version prevhash merkle_tree ntime nbits =
    let words = set (replicate 48 0) 0 version in
    let word = λ (i : ℕ). le32dec (drop (4 * i) prevhash) in
    let words =
      if have_stratum
      then store_loop (λ i. 1 + i) word 8 words
      else store_loop (λ i. 8 - i) word 8 words in
    let words = store_loop (λ i. 9 + i) (λ i. be32dec (drop (4 * i) merkle_tree)) 8 words in
    set (set (set (set words 17 ntime) 18 nbits) 20 0x80000000) 31 0x00000280

module _ (iv fresh : List ℕ) (transform : List ℕ → List ℕ → List ℕ) where
  pub std_build_extraheader : (have_stratum : Bool) → Job → List ℕ
  unfolding std_build_block_header sha256d_gen_merkle_root le32dec
  std_build_extraheader have_stratum job =
      let merkle_tree = sha256d_gen_merkle_root iv fresh transform (replicate 64 0) job in
      std_build_block_header have_stratum (le32dec job.version) job.prevhash merkle_tree
        (le32dec job.ntime) (le32dec job.nbits)

-- A word stored by `be32enc` and read back from memory, and a word read by `le32dec` or `be32dec`.
pub enc_word : ℕ → ℕ
unfolding le32dec
enc_word w = le32dec (be32 w)

pub words_loop : (ℕ → ℕ) → ℕ → List ℕ → List ℕ
words_loop f zero words = words
words_loop f (suc n) [] = []
words_loop f (suc n) (w ∷ words) = f w ∷ words_loop f n words

-- A work's words and its target.
pub record Words : Type 0 where
  pub words : List ℕ
  pub target : List ℕ

pub std_le_work_decode : Words → Words
unfolding words_loop le32dec
std_le_work_decode work =
    let le = λ (w : ℕ). le32dec (memory (w ∷ [])) in
    record { words = words_loop le 32 work.words; target = words_loop le 8 work.target }

pub std_be_work_decode : Words → Words
unfolding words_loop le32dec be32dec
std_be_work_decode work =
    let le = λ (w : ℕ). le32dec (memory (w ∷ [])) in
    let be = λ (w : ℕ). be32dec (memory (w ∷ [])) in
    record { words = words_loop be 32 work.words; target = words_loop le 8 work.target }

pub set_work_data_big_endian : Words → Words
unfolding words_loop enc_word
set_work_data_big_endian work = record work { words = words_loop enc_word 19 work.words }

-- The parts of a work that are submitted, and the name of the user.
pub record Share : Type 0 where
  pub words : List ℕ
  pub job_id : List ℕ
  pub xnonce2 : List ℕ
  pub user : List ℕ

-- `{"method":"mining.submit","params":["`, `","` and `"],"id":4}`.
abbrev pub submit_head : List ℕ
submit_head =
    123 ∷ 34 ∷ 109 ∷ 101 ∷ 116 ∷ 104 ∷ 111 ∷ 100 ∷ 34 ∷ 58 ∷ 34 ∷ 109 ∷ 105 ∷ 110 ∷ 105 ∷ 110 ∷ 103
    ∷ 46 ∷ 115 ∷ 117 ∷ 98 ∷ 109 ∷ 105 ∷ 116 ∷ 34 ∷ 44 ∷ 34 ∷ 112 ∷ 97 ∷ 114 ∷ 97 ∷ 109 ∷ 115 ∷ 34
    ∷ 58 ∷ 91 ∷ 34 ∷ []

abbrev pub comma : List ℕ
comma = 34 ∷ 44 ∷ 34 ∷ []

abbrev pub submit_tail : List ℕ
submit_tail = 34 ∷ 93 ∷ 44 ∷ 34 ∷ 105 ∷ 100 ∷ 34 ∷ 58 ∷ 52 ∷ 125 ∷ []

-- `snprintf` of the request, cut to JSON_BUF_LEN with its NUL.
pub submit_text : (share : Share) → (xnonce2str ntimestr noncestr : List ℕ) → List ℕ
submit_text share xnonce2str ntimestr noncestr = take 8191 (
    submit_head
    ++ (share.user
        ++ (comma
            ++ (share.job_id
                ++ (comma
                    ++ (xnonce2str
                        ++ (comma ++ (ntimestr ++ (comma ++ (noncestr ++ submit_tail))))))))))

-- The text of a word in a buffer of nine bytes, which first holds `junk`.
pub word_text : (junk bytes : List ℕ) → List ℕ
word_text junk bytes = c_string (bin2hex junk bytes)

-- none where `abin2hex` gives NULL, which the code passes to `%s`.
pub std_le_build_stratum_request :
    (fresh : ℕ → Option (List ℕ)) → (junk : List ℕ) → Share → Option (List ℕ)
unfolding word_text submit_text
std_le_build_stratum_request fresh junk share = elim (abin2hex fresh share.xnonce2) [
  | none ↦ none
  | some xnonce2str ↦ some (
      submit_text share (c_string xnonce2str)
        (word_text junk (memory (get_or share.words 17 0 ∷ [])))
        (word_text junk (memory (get_or share.words 19 0 ∷ []))))
]

pub std_be_build_stratum_request :
    (fresh : ℕ → Option (List ℕ)) → (junk : List ℕ) → Share → Option (List ℕ)
unfolding word_text submit_text
std_be_build_stratum_request fresh junk share = elim (abin2hex fresh share.xnonce2) [
  | none ↦ none
  | some xnonce2str ↦ some (
      submit_text share (c_string xnonce2str) (word_text junk (be32 (get_or share.words 17 0)))
        (word_text junk (be32 (get_or share.words 19 0))))
]
