-- ===== src/Authorize/Tests.antt =====
-- soj_stratum_transport.c: `stratum_authorize` on a notice, an accepted answer and two answers to the
-- subscription to extranonces.
use soj_civic_light.Prelude.{
  ℕ, ◌≡◌, refl, Bool, true, false, none, some, List, [], ◌∷◌, ◌++◌, ◌==◌, if◌then◌else◌,
}
use soj_civic_light.Line.{Conn}
use soj_civic_light.Pow.{same_bytes}
use soj_civic_light.Hex.{hex2bin}
use soj_civic_light.Json.Trees.{Tree, text, number, flag, fields, items, missing, same, trees}
use soj_civic_light.Json.{pos, Jansson, at_least, to_int}
use soj_civic_light.Response.{id_key, result_key}
use soj_civic_light.Handshake.{strcasecmp_equal, stratum_parse_extranonce}
use soj_civic_light.Methods.Texts.{mining, set_extranonce, method_key, params_key}
use soj_civic_light.Methods.{World, Client, stratum_handle_method}
use soj_civic_light.Authorize.{Left, authorize_text, extranonce_subscribe, stratum_authorize}
use soj_civic_light.Authorize.Answer.{Authorized, authorize-Authorized}

-- {"method":"mining.set_extranonce","params":["0a1b",3]}
abbrev notice : Tree
notice = fields λ key.
    if same key method_key
    then text (mining ++ (46 ∷ set_extranonce))
    else if same key params_key
    then items 2 (λ i. if i == 0 then text (48 ∷ 97 ∷ 49 ∷ 98 ∷ []) else number (pos 3))
    else missing

-- {"id":n,"result":ok}
abbrev answer_of : ℕ → Bool → Tree
answer_of n ok = fields λ key.
    if same key id_key then number (pos n) else if same key result_key then flag ok else missing

-- Lines of one byte: the notice, the answers to request 2 (yes, no) and to request 3.
abbrev json : Jansson
json = trees λ line. elim line [
  | [] ↦ none
  | n ∷ rest ↦
      if n == 1
      then some notice
      else if n == 2
      then some (answer_of 2 true)
      else if n == 3
      then some (answer_of 2 false)
      else some (answer_of 3 false)
]

abbrev world : World
world = record {
  json = json;
  is_zero = λ v. false;
  dumps = λ v r. [];
  decimal = λ n. [];
  atoi = λ s. pos 0;
  sends = λ line. true;
  calloc = true;
  opt_redirect = false;
}

abbrev conn : Conn
conn = record {
  curl = true;
  sock = some 5;
  sockbuf = [];
  sockbuf_size = 2048;
  new_job = false;
  session_id = none;
  xnonce1 = some (1 ∷ []);
  xnonce1_size = 1;
  xnonce2_size = 4;
  job_id = some (97 ∷ []);
  failures = 0;
  pause_until = 0;
}

abbrev renewed : Conn
renewed = record conn { xnonce1 = some (10 ∷ 27 ∷ []); xnonce1_size = 2; xnonce2_size = 3 }

abbrev client : Client
client = record {
  conn = conn;
  job = record {
    prevhash = [];
    job_id = some (97 ∷ []);
    coinbase = [];
    xnonce2_at = 0;
    merkle_count = 0;
    merkle = [];
    version = [];
    nbits = [];
    ntime = [];
    clean = false;
  };
  url = [];
  sent = [];
}

abbrev user : List ℕ
user = 117 ∷ []

abbrev pass : List ℕ
pass = 120 ∷ []

abbrev pool_lines : List (List ℕ)
pool_lines = (1 ∷ []) ∷ (2 ∷ []) ∷ (4 ∷ []) ∷ (1 ∷ []) ∷ []

abbrev left : Left
left = record {
  ret = true;
  opt_extranonce = true;
  client = record client {
    conn = renewed;
    sent = authorize_text user pass ∷ extranonce_subscribe ∷ [];
  };
  unread = (1 ∷ []) ∷ [];
}

authorized :
    stratum_authorize world [] [] (λ c. c) true user pass true true pool_lines client ≡ some left
unfolding stratum_authorize stratum_handle_method strcasecmp_equal stratum_parse_extranonce
    same_bytes hex2bin at_least to_int
authorized = refl

-- The notice may come for the answer to the subscription.
noticed :
    stratum_authorize world [] []
      (λ c. c)
      true
      user
      pass
      true
      true
      ((2 ∷ []) ∷ (1 ∷ []) ∷ [])
      client
    ≡ some record left { unread = [] }
unfolding stratum_authorize stratum_handle_method strcasecmp_equal stratum_parse_extranonce
    same_bytes hex2bin at_least to_int
noticed = refl

not_ready :
    stratum_authorize world [] [] (λ c. c) true user pass true false ((2 ∷ []) ∷ []) client
    ≡ some record left {
      opt_extranonce = false;
      client = record left.client { conn = conn };
      unread = [];
    }
unfolding stratum_authorize stratum_handle_method strcasecmp_equal
not_ready = refl

denied :
    stratum_authorize world [] [] (λ c. c) true user pass true true ((3 ∷ []) ∷ []) client
    ≡ some record {
      ret = false;
      opt_extranonce = true;
      client = record client { sent = authorize_text user pass ∷ [] };
      unread = [];
    }
unfolding stratum_authorize stratum_handle_method strcasecmp_equal
denied = refl

authorize-Authorized_example : Authorized world [] [] user pass pool_lines client
authorize-Authorized_example =
    authorize-Authorized world [] [] (λ c. c) true user pass true true pool_lines client left
      authorized refl
