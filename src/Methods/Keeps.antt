-- ===== src/Methods/Keeps.antt =====
-- soj_stratum_methods.c: no method takes the extranonces of a connection away.
use soj_civic_light.Prelude.{
  ℕ, ◌≡◌, arith, refl, sym, subst, Bool, true, false, ◌⊎◌, inl, inr, Option-cases, Option, none,
  some, List, ◌>>=◌, if◌then◌else◌, choice, not,
}
use soj_civic_light.Line.{Conn, stratum_disconnect}
use soj_civic_light.Handshake.{strcasecmp_equal, stratum_parse_extranonce}
use soj_civic_light.Handshake.Sizes.{HasExtranonce, Parsed, parse_extranonce-Parsed}
use soj_civic_light.Methods.Texts.{
  mining, notify, ping, set_difficulty, set_extranonce, client_reconnect, client_get_algo,
  client_get_version, client_show_message, method_key,
}
use soj_civic_light.Methods.{
  World, Client, Reply, unknown_method, algo, version, shown, method_eq2, send, reply, stratum_pong,
  stratum_set_difficulty, string_at, port_of, no_port, new_url, redirect, reconnect_to,
  notify_method, extranonce_method, stratum_reconnect, dispatch, stratum_handle_method,
}

-- A connection has both extranonces, or it is closed.
abbrev pub IsSubscribed : Conn → Type 0
IsSubscribed c = HasExtranonce c ⊎ (c.sock ≡ none)

-- What is so of the client that a call leaves, where its behaviour is defined.
abbrev Leaves : Option (Bool × Client) → Type 0
Leaves none = Unit
Leaves (some (ret, q)) = IsSubscribed q.conn

same_extranonce :
    (c : Conn) (job_id : Option (List ℕ)) (new_job : Bool)
    → IsSubscribed c
    → IsSubscribed (record c { job_id = job_id; new_job = new_job })
same_extranonce c job_id new_job (inl h) =
    inl (record { xnonce1 = h.xnonce1; held = h.held; size = h.size; low = h.low; high = h.high })
same_extranonce c job_id new_job (inr closed) = inr closed

parsed : (c : Conn) (r : Bool × Conn) → Parsed true c r → IsSubscribed c → IsSubscribed r.1
parsed c r (inl (refused, inl same)) h = subst IsSubscribed (sym same) h
parsed c r (inl (refused, inr (no_memory, gone))) h = absurd (ground (arith, no_memory))
parsed c r (inr (worked, both)) h = inl both

module _ (w : World) (memory : w.calloc ≡ true) (c : Client) (h : IsSubscribed c.conn) where
  reply-Leaves :
      (silent : Bool) (r : Reply) (id : Option w.json.Value) → Leaves (some (reply w silent r id c))
  unfolding reply send
  reply-Leaves silent r none = h
  reply-Leaves silent r (some id) =
      choice (λ (x : Bool × Client). IsSubscribed x.1.conn) (w.json.is_null id) (silent, c) _ h h

  pong-Leaves : (id : Option w.json.Value) → Leaves (some (stratum_pong w id c))
  unfolding stratum_pong send
  pong-Leaves none = h
  pong-Leaves (some id) =
      choice (λ (x : Bool × Client). IsSubscribed x.1.conn) (w.json.is_null id) (false, c) _ h h

  difficulty-Leaves :
      (params : Option w.json.Value) → Leaves (some (stratum_set_difficulty w params c))
  unfolding stratum_set_difficulty
  difficulty-Leaves params = by_value (params >>= λ p. w.json.array_get p 0)
    where
      by_value :
          (v : Option w.json.Value)
          → Leaves (some (elim v [ none ↦ (false, c) | some diff ↦ (not (w.is_zero diff), c) ]))
      by_value none = h
      by_value (some diff) = h

  extranonce-Leaves : (params : Option w.json.Value) → Leaves (some (extranonce_method w params c))
  unfolding extranonce_method
  extranonce-Leaves params =
      parsed c.conn _
        (subst (λ b. Parsed b c.conn (stratum_parse_extranonce w.json w.calloc params 0 c.conn))
          memory (parse_extranonce-Parsed w.json w.calloc params 0 c.conn))
        h

  notify-Leaves :
      (junk fresh : List ℕ) (params : Option w.json.Value)
      → Leaves (some (notify_method w junk fresh params c))
  unfolding notify_method
  notify-Leaves junk fresh params = same_extranonce c.conn _ true h

  redirect-Leaves : (url : Option (List ℕ)) → Leaves (redirect w url c)
  unfolding redirect
  redirect-Leaves none = tt
  redirect-Leaves (some there) =
      choice Leaves w.opt_redirect
        (some (true, record c { url = there; conn = stratum_disconnect c.conn })) (some (true, c))
        (inr refl) h

  reconnect-Leaves : (params : Option w.json.Value) → Leaves (stratum_reconnect w params c)
  unfolding stratum_reconnect reconnect_to stratum_disconnect
  reconnect-Leaves params = by_host (string_at w params 0)
    where
      by_host : (host : Option (List ℕ)) → Leaves (reconnect_to w host (port_of w params) c)
      by_host none = h
      by_host (some host) =
          choice Leaves (no_port w (port_of w params)) (some (false, c))
            (redirect w (new_url w c.url host (port_of w params)) c) h
            (redirect-Leaves (new_url w c.url host (port_of w params)))

  dispatch-Leaves :
      (junk fresh method : List ℕ) (params id : Option w.json.Value)
      → Leaves (dispatch w junk fresh method params id c)
  unfolding dispatch
  dispatch-Leaves junk fresh method params id =
      let is = λ (right : List ℕ). method_eq2 method mining right in
      let named = λ (name : List ℕ). strcasecmp_equal method name in
      let r9 = some (reply w false unknown_method id c) in
      let r8 = some (reply w true shown id c) in
      let c8 = if named client_show_message then r8 else r9 in
      let r7 = some (reply w false version id c) in
      let c7 = if named client_get_version then r7 else c8 in
      let r6 = some (reply w false algo id c) in
      let c6 = if named client_get_algo then r6 else c7 in
      let r5 = stratum_reconnect w params c in
      let c5 = if named client_reconnect then r5 else c6 in
      let r4 = some (extranonce_method w params c) in
      let c4 = if is set_extranonce then r4 else c5 in
      let r3 = some (stratum_set_difficulty w params c) in
      let c3 = if is set_difficulty then r3 else c4 in
      let r2 = some (stratum_pong w id c) in
      let c2 = if is ping then r2 else c3 in
      choice Leaves (is notify) (some (notify_method w junk fresh params c)) c2
        (notify-Leaves junk fresh params)
        (choice Leaves (is ping) r2 c3 (pong-Leaves id) (
          choice Leaves (is set_difficulty) r3 c4 (difficulty-Leaves params) (
            choice Leaves (is set_extranonce) r4 c5 (extranonce-Leaves params) (
              choice Leaves (named client_reconnect) r5 c6 (reconnect-Leaves params) (
                choice Leaves (named client_get_algo) r6 c7 (reply-Leaves false algo id) (
                  choice Leaves (named client_get_version) r7 c8 (reply-Leaves false version id) (
                    choice Leaves (named client_show_message) r8 r9 (reply-Leaves true shown id)
                      (reply-Leaves false unknown_method id))))))))

  method-Leaves : (junk fresh line : List ℕ) → Leaves (stratum_handle_method w junk fresh line c)
  unfolding stratum_handle_method
  method-Leaves junk fresh line = elim (Option-cases (w.json.loads line)) [
    | inl e ↦ rw (e, stratum_handle_method) h
    | inr (val, e) ↦
        elim (Option-cases (w.json.object_get val method_key >>= w.json.string_value)) [
          | inl f ↦ rw (e, stratum_handle_method, f) h
          | inr (method, f) ↦
              rw (e, stratum_handle_method, f) (dispatch-Leaves junk fresh method _ _)
        ]
  ]

-- While there is memory, a line from the pool that the miner handles as a method leaves a connection
-- that has both extranonces, or is closed, with both extranonces or closed.
pub handle_method-IsSubscribed :
    (w : World) (junk fresh line : List ℕ) (c q : Client) (ret : Bool)
    → w.calloc ≡ true
    → stratum_handle_method w junk fresh line c ≡ some (ret, q)
    → IsSubscribed c.conn
    → IsSubscribed q.conn
handle_method-IsSubscribed w junk fresh line c q ret memory e h =
    subst Leaves e (method-Leaves w memory c h junk fresh line)
