-- ===== src/Handshake.antt =====
-- soj_stratum_transport.c: `stratum_parse_extranonce`, `get_stratum_session_id` and
-- `stratum_subscribe`, the first exchange with a pool. What the connection does with a line is a
-- parameter of each attempt. The locks, the log and the difficulty are left out.
pub mod Sizes
pub mod Attempts
mod Tests
use soj_civic_light.Prelude.{
  ℕ, zero, suc, ◌+◌, ◌-◌, ◌/◌, Bool, true, false, not, ◌&&◌, ◌||◌, Option, none, some, List, [],
  ◌∷◌, ◌++◌, ◌>>=◌, ◌==◌, if◌then◌else◌, length, replicate, map, is_some, ltb, leb,
}
use soj_civic_light.Hex.{hex2bin}
use soj_civic_light.Pow.{same_bytes}
use soj_civic_light.Line.{Conn}
use soj_civic_light.Json.{Jansson, to_int, to_nat, at_least, pos}
use soj_civic_light.Response.{result_key, error_key}

-- `strcasecmp(a, b)` is 0.
pub lower : ℕ → ℕ
lower c = if leb 65 c && leb c 90 then c + 32 else c

unfoldable pub strcasecmp_equal : List ℕ → List ℕ → Bool
unfolding lower
strcasecmp_equal a b = same_bytes (map lower a) (map lower b)

-- "mining.notify".
abbrev pub mining_notify : List ℕ
mining_notify = 109 ∷ 105 ∷ 110 ∷ 105 ∷ 110 ∷ 103 ∷ 46 ∷ 110 ∷ 111 ∷ 116 ∷ 105 ∷ 102 ∷ 121 ∷ []

-- `{"id":1,"method":"mining.subscribe","params":[`.
abbrev pub subscribe_head : List ℕ
subscribe_head =
    123 ∷ 34 ∷ 105 ∷ 100 ∷ 34 ∷ 58 ∷ 49 ∷ 44 ∷ 34 ∷ 109 ∷ 101 ∷ 116 ∷ 104 ∷ 111 ∷ 100 ∷ 34 ∷ 58 ∷ 34
    ∷ 109 ∷ 105 ∷ 110 ∷ 105 ∷ 110 ∷ 103 ∷ 46 ∷ 115 ∷ 117 ∷ 98 ∷ 115 ∷ 99 ∷ 114 ∷ 105 ∷ 98 ∷ 101 ∷ 34
    ∷ 44 ∷ 34 ∷ 112 ∷ 97 ∷ 114 ∷ 97 ∷ 109 ∷ 115 ∷ 34 ∷ 58 ∷ 91 ∷ []

-- A string with its quotes.
abbrev pub quoted : List ℕ → List ℕ
quoted s = 34 ∷ (s ++ (34 ∷ []))

-- The request of an attempt. `agent` is USER_AGENT.
pub subscribe_text : (agent : List ℕ) → (retry : Bool) → (session_id : Option (List ℕ)) → List ℕ
subscribe_text agent true session_id = subscribe_head ++ (93 ∷ 125 ∷ [])
subscribe_text agent false none = subscribe_head ++ (quoted agent ++ (93 ∷ 125 ∷ []))
subscribe_text agent false (some session_id) =
    subscribe_head ++ (quoted agent ++ (44 ∷ (quoted session_id ++ (93 ∷ 125 ∷ []))))

-- What an attempt meets: whether `stratum_send_line` gets the request out, whether an answer comes in
-- time, what `stratum_recv_line` gives, and whether there is memory.
pub record Try : Type 0 where
  pub sends : List ℕ → Bool
  pub ready : Bool
  pub recv : Conn → Option (List ℕ) × Conn
  pub calloc : Bool

-- What an attempt leaves: its result, whether a line came, the request, and the connection.
pub record Tried : Type 0 where
  pub ret : Bool
  pub line : Bool
  pub request : List ℕ
  pub conn : Conn

module _ (json : Jansson) where
  unfoldable pub stratum_parse_extranonce :
      (calloc : Bool) → (params : Option json.Value) → (pndx : ℕ) → Conn → Bool × Conn
  stratum_parse_extranonce calloc params pndx c =
      let string_at = params >>= λ p. json.array_get p pndx >>= json.string_value in
      let number_at = params >>= λ p. json.array_get p (pndx + 1) in
      let xn2_size = to_int (elim number_at [ none ↦ pos 0 | some v ↦ json.integer_value v ]) in
      elim string_at [
        | none ↦ (false, c)
        | some xnonce1 ↦
            let size = length xnonce1 / 2 in
            if not (at_least 2 xn2_size) || at_least 17 xn2_size
            then (false, c)
            else if calloc
            then (
              true,
              record c {
                xnonce1_size = size;
                xnonce1 = some ((hex2bin (replicate size 0) (some xnonce1) size).buf);
                xnonce2_size = to_nat xn2_size;
              },
            )
            else (false, record c { xnonce1_size = size; xnonce1 = none })
      ]

  -- The loop from index `i` on, with `left` elements to go.
  pub session_loop : (arr_val : json.Value) → (left i : ℕ) → Option (List ℕ)
  unfolding strcasecmp_equal
  session_loop arr_val zero i = none
  session_loop arr_val (suc left) i =
      let rest = session_loop arr_val left (i + 1) in
      elim (json.array_get arr_val i) [
        | none ↦ none
        | some arr ↦
            let notify = json.array_get arr 0 >>= json.string_value in
            if not (json.is_array arr) then none else elim notify [
              | none ↦ rest
              | some name ↦
                  if strcasecmp_equal name mining_notify
                  then json.array_get arr 1 >>= json.string_value
                  else rest
            ]
      ]

  pub get_stratum_session_id : (val : json.Value) → Option (List ℕ)
  unfolding session_loop
  get_stratum_session_id val = elim (json.array_get val 0) [
    | none ↦ none
    | some arr_val ↦
        if json.is_array arr_val then session_loop arr_val (json.array_size arr_val) 0 else none
  ]

  -- "JSON-RPC call failed": there is no result, or there is an error.
  pub call_failed : (res_val err_val : Option json.Value) → Bool
  call_failed none err_val = true
  call_failed (some res_val) none = json.is_null res_val
  call_failed (some res_val) (some err_val) = json.is_null res_val || not (json.is_null err_val)

  -- The answer of a pool to mining.subscribe.
  pub take_answer : (calloc : Bool) → (line : List ℕ) → Conn → Bool × Conn
  unfolding call_failed get_stratum_session_id stratum_parse_extranonce
  take_answer calloc line c = elim (json.loads line) [
    | none ↦ (false, c)
    | some val ↦
        if call_failed (json.object_get val result_key) (json.object_get val error_key)
        then (false, c)
        else elim (json.object_get val result_key) [
          | none ↦ (false, c)
          | some res_val ↦
              stratum_parse_extranonce calloc (some res_val) 1
                (record c { session_id = get_stratum_session_id res_val })
        ]
  ]

  -- From `start` to `out`.
  pub subscribe_once : (agent : List ℕ) → (retry : Bool) → Try → Conn → Tried
  unfolding subscribe_text take_answer
  subscribe_once agent retry t c =
      let request = subscribe_text agent retry c.session_id in
      let stays : Tried = record { ret = false; line = false; request = request; conn = c } in
      let (answer, c1) = t.recv c in
      if not (t.sends request && t.ready) then stays else elim answer [
        | none ↦ record stays { conn = c1 }
        | some line ↦
            let (ret, c2) = take_answer t.calloc line c1 in
            record { ret = ret; line = true; request = request; conn = c2 }
      ]

  -- The result, the requests that were tried, and the connection.
  pub stratum_subscribe : (agent : List ℕ) → Try → Try → Conn → Bool × List (List ℕ) × Conn
  unfolding subscribe_once
  stratum_subscribe agent t0 t1 c =
      let first = subscribe_once agent false t0 c in
      let second = subscribe_once agent true t1 first.conn in
      if not (is_some c.sock)
      then (false, [], c)
      else if not first.ret && first.line
      then (second.ret, first.request ∷ second.request ∷ [], second.conn)
      else (first.ret, first.request ∷ [], first.conn)
