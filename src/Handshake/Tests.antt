-- ===== src/Handshake/Tests.antt =====
-- soj_stratum_transport.c: the theorems at two answers of a pool.
use soj_civic_light.Prelude.{ℕ, ◌≡◌, refl, true, false, none, some, [], ◌∷◌, ◌==◌, if◌then◌else◌}
use soj_civic_light.Line.{Conn}
use soj_civic_light.Json.Trees.{Tree, text, number, fields, items, missing, same, trees}
use soj_civic_light.Hex.{hex2bin}
use soj_civic_light.Pow.{same_bytes}
use soj_civic_light.Json.{ℤ, pos, Jansson, at_least, to_int}
use soj_civic_light.Response.{result_key}
use soj_civic_light.Handshake.Sizes.{Parsed, parse_extranonce-Parsed}
use soj_civic_light.Handshake.Attempts.{Subscribed, subscribe-Subscribed}
use soj_civic_light.Handshake.{
  Try, mining_notify, stratum_parse_extranonce, stratum_subscribe, get_stratum_session_id,
}

-- [["mining.notify","s"]], "0a1b" and the size of the second extranonce.
abbrev session_entry : Tree
session_entry = items 1 λ i. items 2 λ j. if j == 0 then text mining_notify else text (115 ∷ [])

abbrev answer : ℤ → Tree
answer size = items 3 λ i.
    if i == 0 then session_entry else if i == 1 then text (48 ∷ 97 ∷ 49 ∷ 98 ∷ []) else number size

abbrev reply : ℤ → Tree
reply size = fields λ key. if same key result_key then answer size else missing

abbrev json : Jansson
json = trees λ line. elim line [ [] ↦ none | n ∷ rest ↦ some (reply (pos n)) ]

abbrev conn : Conn
conn = record {
  curl = true;
  sock = some 5;
  sockbuf = [];
  sockbuf_size = 2048;
  new_job = false;
  session_id = none;
  xnonce1 = none;
  xnonce1_size = 0;
  xnonce2_size = 0;
  job_id = none;
  failures = 0;
  pause_until = 0;
}

abbrev answered : ℕ → Try
answered size = record {
  sends = λ request. true;
  ready = true;
  recv = λ c. (some (size ∷ []), c);
  calloc = true;
}

session_found : get_stratum_session_id json (answer (pos 4)) ≡ some (115 ∷ [])
unfolding get_stratum_session_id same_bytes
session_found = refl

-- A size of 20 bytes is refused, and the second request gets 4.
second_request :
    let r = stratum_subscribe json (83 ∷ []) (answered 20) (answered 4) conn in
    (r.0 ≡ true) × (r.2.xnonce1 ≡ some (10 ∷ 27 ∷ [])) × (r.2.xnonce2_size ≡ 4)
unfolding stratum_subscribe same_bytes at_least to_int hex2bin
second_request = (refl, refl, refl)

parse_extranonce-Parsed_example :
    Parsed true conn (stratum_parse_extranonce json true (some (answer (pos 4))) 1 conn)
parse_extranonce-Parsed_example = parse_extranonce-Parsed json true (some (answer (pos 4))) 1 conn

subscribe-Subscribed_example :
    Subscribed json
      (83 ∷ [])
      conn
      (stratum_subscribe json (83 ∷ []) (answered 20) (answered 4) conn)
subscribe-Subscribed_example = subscribe-Subscribed json (83 ∷ []) (answered 20) (answered 4) conn
