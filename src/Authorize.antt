-- ===== src/Authorize.antt =====
-- soj_stratum_transport.c: `stratum_authorize`, on the methods of Methods.antt. The lines of the pool
-- are a list, which ends where the connection does: there `stratum_recv_line` gives NULL, and does
-- `lost` to the connection. The log is left out.
pub mod Answer
mod Tests
use soj_civic_light.Prelude.{
  ℕ, Bool, true, false, not, ◌&&◌, ◌||◌, Option, none, some, List, [], ◌∷◌, ◌++◌, ◌>>=◌, ◌==◌,
  if◌then◌else◌,
}
use soj_civic_light.Line.{Conn}
use soj_civic_light.Json.{Jansson, ℤ, pos, negsuc}
use soj_civic_light.Response.{id_key, result_key, error_key}
use soj_civic_light.Handshake.{quoted}
use soj_civic_light.Methods.{World, Client, send, stratum_handle_method}

-- `{"id":2,"method":"mining.authorize","params":[`.
abbrev pub authorize_head : List ℕ
authorize_head =
    123 ∷ 34 ∷ 105 ∷ 100 ∷ 34 ∷ 58 ∷ 50 ∷ 44 ∷ 34 ∷ 109 ∷ 101 ∷ 116 ∷ 104 ∷ 111 ∷ 100 ∷ 34 ∷ 58 ∷ 34
    ∷ 109 ∷ 105 ∷ 110 ∷ 105 ∷ 110 ∷ 103 ∷ 46 ∷ 97 ∷ 117 ∷ 116 ∷ 104 ∷ 111 ∷ 114 ∷ 105 ∷ 122 ∷ 101
    ∷ 34 ∷ 44 ∷ 34 ∷ 112 ∷ 97 ∷ 114 ∷ 97 ∷ 109 ∷ 115 ∷ 34 ∷ 58 ∷ 91 ∷ []

-- `{"id":3,"method":"mining.extranonce.subscribe","params":[]}`.
abbrev pub extranonce_subscribe : List ℕ
extranonce_subscribe =
    123 ∷ 34 ∷ 105 ∷ 100 ∷ 34 ∷ 58 ∷ 51 ∷ 44 ∷ 34 ∷ 109 ∷ 101 ∷ 116 ∷ 104 ∷ 111 ∷ 100 ∷ 34 ∷ 58 ∷ 34
    ∷ 109 ∷ 105 ∷ 110 ∷ 105 ∷ 110 ∷ 103 ∷ 46 ∷ 101 ∷ 120 ∷ 116 ∷ 114 ∷ 97 ∷ 110 ∷ 111 ∷ 110 ∷ 99
    ∷ 101 ∷ 46 ∷ 115 ∷ 117 ∷ 98 ∷ 115 ∷ 99 ∷ 114 ∷ 105 ∷ 98 ∷ 101 ∷ 34 ∷ 44 ∷ 34 ∷ 112 ∷ 97 ∷ 114
    ∷ 97 ∷ 109 ∷ 115 ∷ 34 ∷ 58 ∷ 91 ∷ 93 ∷ 125 ∷ []

pub authorize_text : (user pass : List ℕ) → List ℕ
authorize_text user pass =
    authorize_head ++ (quoted user ++ (44 ∷ (quoted pass ++ (93 ∷ 125 ∷ []))))

-- What the call leaves: its result, `opt_extranonce`, the client, and the lines that were not read.
pub record Left : Type 0 where
  pub ret : Bool
  pub opt_extranonce : Bool
  pub client : Client
  pub unread : List (List ℕ)

-- The end of the loop over lines: the first that is no method, or NULL.
pub record Read : Type 0 where
  pub line : Option (List ℕ)
  pub client : Client
  pub unread : List (List ℕ)

module _ (w : World) (junk fresh : List ℕ) (lost : Conn → Conn) where
  -- none where the behaviour of a method is undefined.
  pub method_loop : List (List ℕ) → Client → Option Read
  method_loop [] c =
      some record { line = none; client = record c { conn = lost c.conn }; unread = [] }
  method_loop (line ∷ lines) c = elim (stratum_handle_method w junk fresh line c) [
    | none ↦ none
    | some (is_method, c1) ↦
        let rest = method_loop lines c1 in
        if is_method then rest else some record { line = some line; client = c1; unread = lines }
  ]

  -- "Stratum authentication failed": no result, the result false, or an error.
  pub refused : (res_val err_val : Option w.json.Value) → Bool
  refused none err_val = true
  refused (some res_val) none = w.json.is_false res_val
  refused (some res_val) (some err_val) = w.json.is_false res_val || not (w.json.is_null err_val)

  pub is_accepted : (line : List ℕ) → Bool
  unfolding refused
  is_accepted line = elim (w.json.loads line) [
    | none ↦ false
    | some val ↦ not (refused (w.json.object_get val result_key) (w.json.object_get val error_key))
  ]

  -- The line after the optional subscription to extranonces.
  pub extra_line : List ℕ → Client → Option Client
  extra_line line c = elim (w.json.loads line) [
    | none ↦ some c
    | some extra ↦
        let id : ℤ = elim (w.json.object_get extra id_key) [
          | none ↦ pos 0
          | some v ↦ w.json.integer_value v
        ] in
        let is_three : Bool = elim id [ pos n ↦ n == 3 | negsuc n ↦ false ] in
        let handled = stratum_handle_method w junk fresh line c >>= λ r. some r.1 in
        if is_three then some c else handled
  ]

  pub read_extra : List (List ℕ) → Client → Option Left
  unfolding extra_line
  read_extra [] c = some record {
    ret = true;
    opt_extranonce = true;
    client = record c { conn = lost c.conn };
    unread = [];
  }
  read_extra (line ∷ lines) c = extra_line line c >>= λ c1.
      some record { ret = true; opt_extranonce = true; client = c1; unread = lines }

  -- From `ret = true` on. `ready` is `socket_full(sctx->sock, 3)`.
  pub subscribe_extranonce : (opt_extranonce ready : Bool) → List (List ℕ) → Client → Option Left
  unfolding read_extra
  subscribe_extranonce opt_extranonce ready lines c =
      let (sent, c1) = send w extranonce_subscribe c in
      let ends : Bool → Client → Left =
        λ opt q. record { ret = true; opt_extranonce = opt; client = q; unread = lines } in
      if not opt_extranonce
      then some (ends false c)
      else if not sent
      then some (ends true c1)
      else if ready
      then read_extra lines c1
      else some (ends false c1)

  -- What is done with the answer.
  pub take_authorization : (opt_extranonce ready : Bool) → Read → Option Left
  unfolding is_accepted subscribe_extranonce
  take_authorization opt_extranonce ready r =
      let fails : Left = record {
        ret = false;
        opt_extranonce = opt_extranonce;
        client = r.client;
        unread = r.unread;
      } in
      elim r.line [
        | none ↦ some fails
        | some line ↦
            if is_accepted line
            then subscribe_extranonce opt_extranonce ready r.unread r.client
            else some fails
      ]

  pub stratum_authorize :
      (malloc : Bool)
      → (user pass : List ℕ) → (opt_extranonce ready : Bool) → List (List ℕ)
      → Client
      → Option Left
  unfolding authorize_text method_loop take_authorization
  stratum_authorize malloc user pass opt_extranonce ready lines c =
      let (sent, c1) = send w (authorize_text user pass) c in
      let fails : Client → Left =
        λ q. record { ret = false; opt_extranonce = opt_extranonce; client = q; unread = lines } in
      if not malloc
      then some (fails c)
      else if sent
      then method_loop lines c1 >>= take_authorization opt_extranonce ready
      else some (fails c1)
