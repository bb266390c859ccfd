-- ===== src/Methods/Tests.antt =====
-- soj_stratum_methods.c: the theorems at a job with an invalid branch and at a change of the extranonces.
use soj_civic_light.Prelude.{
  ◌≡◌, refl, true, false, inl, none, some, [], ◌∷◌, ◌++◌, ◌==◌, if◌then◌else◌, replicate, arith,
}
use soj_civic_light.Pow.{same_bytes}
use soj_civic_light.Hex.{hex2bin}
use soj_civic_light.Line.{Conn}
use soj_civic_light.Notify.{Job, Strings, check_strings}
use soj_civic_light.Json.Trees.{Tree, text, number, flag, fields, items, missing, same, trees}
use soj_civic_light.Json.{pos, Jansson, at_least, to_int}
use soj_civic_light.Handshake.{strcasecmp_equal, stratum_parse_extranonce}
use soj_civic_light.Handshake.Sizes.{HasExtranonce}
use soj_civic_light.Methods.Texts.{mining, set_extranonce, method_key, params_key}
use soj_civic_light.Methods.Keeps.{IsSubscribed, handle_method-IsSubscribed}
use soj_civic_light.Methods.Invalid.{invalid_branch-new_job}
use soj_civic_light.Methods.{World, Client, read_params, notify_method, stratum_handle_method}

-- The first branch has a character only.
abbrev bad_job : Tree
bad_job = items 9 λ i.
    if i == 0
    then text (98 ∷ [])
    else if i == 1
    then text (replicate 64 48)
    else if i == 4
    then items 1 (λ j. text (48 ∷ []))
    else if i == 8
    then flag true
    else text (replicate 8 49)

-- {"method":"mining.set_extranonce","params":["0a1b",3]}
abbrev new_extranonce : Tree
new_extranonce = fields λ key.
    if same key method_key
    then text (mining ++ (46 ∷ set_extranonce))
    else if same key params_key
    then items 2 (λ i. if i == 0 then text (48 ∷ 97 ∷ 49 ∷ 98 ∷ []) else number (pos 3))
    else missing

abbrev json : Jansson
json = trees λ line. elim line [ [] ↦ none | n ∷ rest ↦ some new_extranonce ]

abbrev world : World
world = record {
  json = json;
  is_zero = λ v. false;
  dumps = λ v r. [];
  decimal = λ n. [];
  atoi = λ s. pos 0;
  sends = λ line. true;
  calloc = true;
  opt_redirect = false;
}

abbrev conn : Conn
conn = record {
  curl = true;
  sock = some 5;
  sockbuf = [];
  sockbuf_size = 2048;
  new_job = false;
  session_id = none;
  xnonce1 = some (1 ∷ []);
  xnonce1_size = 1;
  xnonce2_size = 4;
  job_id = some (97 ∷ []);
  failures = 0;
  pause_until = 0;
}

abbrev job : Job
job = record {
  prevhash = replicate 32 7;
  job_id = some (97 ∷ []);
  coinbase = 9 ∷ 8 ∷ [];
  xnonce2_at = 0;
  merkle_count = 1;
  merkle = replicate 32 5 ∷ [];
  version = 0 ∷ 0 ∷ 0 ∷ 32 ∷ [];
  nbits = 29 ∷ 0 ∷ 255 ∷ 255 ∷ [];
  ntime = 104 ∷ 0 ∷ 0 ∷ 1 ∷ [];
  clean = true;
}

abbrev client : Client
client = record { conn = conn; job = job; url = []; sent = [] }

abbrev strings : Strings
strings = record {
  job_id = 98 ∷ [];
  prevhash = replicate 64 48;
  coinb1 = replicate 8 49;
  coinb2 = replicate 8 49;
  version = replicate 8 49;
  nbits = replicate 8 49;
  stime = replicate 8 49;
}

invalid_branch-new_job_example :
    let (ret, q) = notify_method world [] [] (some bad_job) client in
    (ret ≡ false)
    × (q.conn.new_job ≡ true)
    × (q.conn.job_id ≡ some (97 ∷ []))
    × (q.job.coinbase ≡ 9 ∷ 8 ∷ [])
    × (q.job.prevhash ≡ replicate 32 7)
    × (q.job.merkle_count ≡ 0)
unfolding read_params check_strings
invalid_branch-new_job_example =
    invalid_branch-new_job world [] [] (some bad_job) client (some (48 ∷ []) ∷ []) strings refl refl
      (inl refl)

abbrev after : Client
after = record client {
  conn = record conn { xnonce1 = some (10 ∷ 27 ∷ []); xnonce1_size = 2; xnonce2_size = 3 };
}

taken : stratum_handle_method world [] [] (1 ∷ []) client ≡ some (true, after)
unfolding stratum_handle_method strcasecmp_equal stratum_parse_extranonce same_bytes hex2bin
    at_least to_int
taken = refl

both : HasExtranonce conn
both = record { xnonce1 = 1 ∷ []; held = refl; size = refl; low = omega arith; high = omega arith }

handle_method-IsSubscribed_example : IsSubscribed after.conn
handle_method-IsSubscribed_example =
    handle_method-IsSubscribed world [] [] (1 ∷ []) client after true refl taken (inl both)
