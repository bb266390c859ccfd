-- ===== src/Methods.antt =====
-- soj_stratum_methods.c: `stratum_handle_method`, which takes the pool's calls, with the handlers that
-- Notify.antt and Handshake.antt do not have. The pool's difficulty, a number in floating point, the
-- height of a block, the locks and the log are left out.
pub mod Texts
pub mod Keeps
pub mod Invalid
mod Tests
use soj_civic_light.Prelude.{
  ℕ, zero, suc, ◌+◌, Bool, true, false, not, ◌&&◌, ◌||◌, Option, none, some, List, [], ◌∷◌, ◌++◌,
  ◌>>=◌, ◌==◌, if◌then◌else◌, take, is_some,
}
use soj_civic_light.Line.{Conn, stratum_disconnect}
use soj_civic_light.Notify.{Job, Pool, Params, stratum_notify}
use soj_civic_light.Json.{Jansson, ℤ, pos, negsuc, to_int}
use soj_civic_light.Response.{id_key, starts_with}
use soj_civic_light.Handshake.{strcasecmp_equal, stratum_parse_extranonce}
use Texts.{
  mining, notify, ping, set_difficulty, set_extranonce, client_reconnect, client_get_algo,
  client_get_version, client_show_message, method_key, params_key, pong_head, pong_tail,
}

-- The connection, the job, the URL, and the lines that were given to `stratum_send_line`. The job's id
-- is that of the connection, and both stand for one field of the code.
pub record Client : Type 0 where
  pub conn : Conn
  pub job : Job
  pub url : List ℕ
  pub sent : List (List ℕ)

-- The objects that the code builds for `json_dumps`, beside the request's id.
pub data Reply : Type 0 where
  unknown_method : Reply
  algo : Reply
  version : Reply
  shown : Reply

-- What the code calls: jansson, `json_number_value(v) == 0`, `json_dumps` of a reply, `sprintf` of a
-- number, `atoi`, whether a line goes out, and whether there is memory.
pub record World : Type 1 where
  pub json : Jansson
  pub is_zero : json.Value → Bool
  pub dumps : json.Value → Reply → List ℕ
  pub decimal : ℤ → List ℕ
  pub atoi : List ℕ → ℤ
  pub sends : List ℕ → Bool
  pub calloc : Bool
  pub opt_redirect : Bool

pub method_eq2 : (method left right : List ℕ) → Bool
method_eq2 method left right = strcasecmp_equal method (take 63 (left ++ (46 ∷ right)))

-- `url` up to "://" with it, where that stands in its first 15 bytes.
pub scheme : (left : ℕ) → List ℕ → Option (List ℕ)
scheme zero url = none
scheme (suc left) [] = none
scheme (suc left) (c ∷ url) =
    if starts_with (58 ∷ 47 ∷ 47 ∷ []) (take (suc left) (c ∷ url))
    then some (58 ∷ 47 ∷ 47 ∷ [])
    else scheme left url >>= λ rest. some (c ∷ rest)

module _ (w : World) where
  -- `stratum_send_line`, kept in the list of the lines.
  unfoldable pub send : List ℕ → Client → Bool × Client
  send line c = (w.sends line, record c { sent = c.sent ++ (line ∷ []) })

  -- A reply to a request that has an id, else `silent`.
  pub reply : (silent : Bool) → Reply → (id : Option w.json.Value) → Client → Bool × Client
  unfolding send
  reply silent r none c = (silent, c)
  reply silent r (some id) c = if w.json.is_null id then (silent, c) else send (w.dumps id r) c

  pub stratum_pong : (id : Option w.json.Value) → Client → Bool × Client
  unfolding send
  stratum_pong none c = (false, c)
  stratum_pong (some id) c =
      if w.json.is_null id
      then (false, c)
      else send (pong_head ++ (w.decimal (to_int (w.json.integer_value id)) ++ pong_tail)) c

  pub stratum_set_difficulty : (params : Option w.json.Value) → Client → Bool × Client
  stratum_set_difficulty params c = elim (params >>= λ p. w.json.array_get p 0) [
    | none ↦ (false, c)
    | some diff ↦ (not (w.is_zero diff), c)
  ]

  pub string_at : (params : Option w.json.Value) → (i : ℕ) → Option (List ℕ)
  string_at params i = params >>= λ p. w.json.array_get p i >>= w.json.string_value

  -- The strings of an array, from index `i` on.
  pub strings_from : (arr : w.json.Value) → (left i : ℕ) → List (Option (List ℕ))
  strings_from arr zero i = []
  strings_from arr (suc left) i =
      (w.json.array_get arr i >>= w.json.string_value) ∷ strings_from arr left (i + 1)

  -- What `stratum_notify` reads of the parameters.
  unfoldable pub read_params : (params : Option w.json.Value) → Params
  unfolding string_at strings_from
  read_params params = record {
    job_id = string_at params 0;
    prevhash = string_at params 1;
    coinb1 = string_at params 2;
    coinb2 = string_at params 3;
    merkle = params >>= λ p. w.json.array_get p 4 >>= λ arr.
        if w.json.is_array arr then some (strings_from arr (w.json.array_size arr) 0) else none;
    version = string_at params 5;
    nbits = string_at params 6;
    stime = string_at params 7;
    clean = elim (params >>= λ p. w.json.array_get p 8) [
      | none ↦ false
      | some v ↦ w.json.is_true v
    ];
  }

  abbrev pub pool_of : Client → Pool
  pool_of c = record {
    job = record c.job { job_id = c.conn.job_id };
    xnonce1 = elim c.conn.xnonce1 [ none ↦ [] | some x ↦ x ];
    xnonce2_size = c.conn.xnonce2_size;
  }

  -- `stratum_notify` and the store behind it, `sctx->new_job = true`. `junk` and `fresh` are what new
  -- memory holds.
  pub notify_method :
      (junk fresh : List ℕ) → (params : Option w.json.Value) → Client → Bool × Client
  unfolding read_params
  notify_method junk fresh params c =
      let (ret, pool) = stratum_notify junk fresh (read_params params) (pool_of c) in
      (
        ret,
        record c {
          job = pool.job;
          conn = record c.conn { job_id = pool.job.job_id; new_job = true };
        },
      )

  pub extranonce_method : (params : Option w.json.Value) → Client → Bool × Client
  extranonce_method params c =
      let (ret, conn) = stratum_parse_extranonce w.json w.calloc params 0 c.conn in
      (ret, record c { conn = conn })

  -- The port of a reconnect, and the URL it makes of the old one.
  pub port_of : (params : Option w.json.Value) → ℤ
  port_of params = elim (params >>= λ p. w.json.array_get p 1) [
    | none ↦ pos 0
    | some v ↦ elim (w.json.string_value v) [
      | none ↦ to_int (w.json.integer_value v)
      | some text ↦ w.atoi text
    ]
  ]

  pub no_port : ℤ → Bool
  no_port (pos n) = n == 0
  no_port (negsuc n) = false

  pub new_url : (url host : List ℕ) → (port : ℤ) → Option (List ℕ)
  unfolding scheme
  new_url url host port = scheme 15 url >>= λ s. some (s ++ (host ++ (58 ∷ w.decimal port)))

  -- none: the URL has no "://" where the code looks for it, and it writes near the null pointer.
  pub redirect : (url : Option (List ℕ)) → Client → Option (Bool × Client)
  unfolding stratum_disconnect
  redirect none c = none
  redirect (some there) c =
      if w.opt_redirect
      then some (true, record c { url = there; conn = stratum_disconnect c.conn })
      else some (true, c)

  pub reconnect_to : (host : Option (List ℕ)) → (port : ℤ) → Client → Option (Bool × Client)
  unfolding no_port new_url redirect
  reconnect_to none port c = some (false, c)
  reconnect_to (some host) port c =
      if no_port port then some (false, c) else redirect (new_url c.url host port) c

  pub stratum_reconnect : (params : Option w.json.Value) → Client → Option (Bool × Client)
  unfolding string_at port_of reconnect_to
  stratum_reconnect params c = reconnect_to (string_at params 0) (port_of params) c

  -- The chain of tests of a method's name.
  pub dispatch :
      (junk fresh method : List ℕ)
      → (params id : Option w.json.Value) → Client
      → Option (Bool × Client)
  unfolding method_eq2 notify_method stratum_pong stratum_set_difficulty extranonce_method
      stratum_reconnect reply
  dispatch junk fresh method params id c =
      if method_eq2 method mining notify
      then some (notify_method junk fresh params c)
      else if method_eq2 method mining ping
      then some (stratum_pong id c)
      else if method_eq2 method mining set_difficulty
      then some (stratum_set_difficulty params c)
      else if method_eq2 method mining set_extranonce
      then some (extranonce_method params c)
      else if strcasecmp_equal method client_reconnect
      then stratum_reconnect params c
      else if strcasecmp_equal method client_get_algo
      then some (reply false algo id c)
      else if strcasecmp_equal method client_get_version
      then some (reply false version id c)
      else if strcasecmp_equal method client_show_message
      then some (reply true shown id c)
      else some (reply false unknown_method id c)

  unfoldable pub stratum_handle_method :
      (junk fresh line : List ℕ) → Client → Option (Bool × Client)
  unfolding dispatch
  stratum_handle_method junk fresh line c = elim (w.json.loads line) [
    | none ↦ some (false, c)
    | some val ↦ elim (w.json.object_get val method_key >>= w.json.string_value) [
      | none ↦ some (false, c)
      | some method ↦
          dispatch junk fresh method (w.json.object_get val params_key)
            (w.json.object_get val id_key) c
    ]
  ]
