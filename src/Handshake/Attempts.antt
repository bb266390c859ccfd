-- ===== src/Handshake/Attempts.antt =====
-- soj_stratum_transport.c: how `stratum_subscribe` ends, and what it asks the pool for.
use soj_civic_light.Prelude.{
  ℕ, ◌≡◌, refl, ap, ap₂, Bool, true, false, not, ◌&&◌, ◌⊎◌, inl, inr, Option-cases, Option, none,
  some, List, [], ◌∷◌, ◌++◌, choice, is_some,
}
use soj_civic_light.Line.{Conn}
use soj_civic_light.Json.{Jansson}
use soj_civic_light.Response.{result_key, error_key}
use soj_civic_light.Handshake.Sizes.{HasExtranonce, parse_extranonce-Parsed}
use soj_civic_light.Handshake.{
  Try, Tried, subscribe_head, subscribe_text, call_failed, take_answer, subscribe_once,
  stratum_parse_extranonce, stratum_subscribe,
}

-- A result of true comes with both extranonces.
abbrev Ends : Bool × Conn → Type 0
Ends r = (r.0 ≡ false) ⊎ HasExtranonce r.1

module _ (json : Jansson) where
  parsed-Ends :
      (calloc : Bool) (params : Option json.Value) (pndx : ℕ) (c : Conn)
      → Ends (stratum_parse_extranonce json calloc params pndx c)
  parsed-Ends calloc params pndx c = elim (parse_extranonce-Parsed json calloc params pndx c) [
    | inl (refused, rest) ↦ inl refused
    | inr (worked, both) ↦ inr both
  ]

  take_answer-Ends :
      (calloc : Bool) (line : List ℕ) (c : Conn) → Ends (take_answer json calloc line c)
  unfolding take_answer
  take_answer-Ends calloc line c = elim (Option-cases (json.loads line)) [
    | inl bad ↦ rw (bad, take_answer) (inl refl)
    | inr (val, e) ↦ elim (Option-cases (json.object_get val result_key)) [
      | inl f ↦
          rw (e, take_answer, f)
            (choice Ends (call_failed json none (json.object_get val error_key)) (false, c)
              (false, c) (inl refl) (inl refl))
      | inr (res_val, f) ↦
          rw (e, take_answer, f)
            (choice Ends (call_failed json (some res_val) (json.object_get val error_key))
              (false, c) _ (inl refl) (parsed-Ends calloc (some res_val) 1 _))
    ]
  ]

  module _ (agent : List ℕ) where
    AsksOnce : (retry : Bool) → Conn → Tried → Type 0
    AsksOnce retry c r =
        Ends (r.ret, r.conn) × (r.request ≡ subscribe_text agent retry c.session_id)

    once-AsksOnce :
        (retry : Bool) (t : Try) (c : Conn) → AsksOnce retry c (subscribe_once json agent retry t c)
    unfolding subscribe_once AsksOnce
    once-AsksOnce retry t c =
        choice (AsksOnce retry c)
          (not (t.sends (subscribe_text agent retry c.session_id) && t.ready)) _ _ (inl refl, refl)
          (by_answer (t.recv c).0 (t.recv c).1)
      where
        by_answer :
            (answer : Option (List ℕ)) (c1 : Conn)
            → AsksOnce retry c (elim answer [
              | none ↦ record {
                ret = false;
                line = false;
                request = subscribe_text agent retry c.session_id;
                conn = c1;
              }
              | some line ↦ record {
                ret = (take_answer json t.calloc line c1).0;
                line = true;
                request = subscribe_text agent retry c.session_id;
                conn = (take_answer json t.calloc line c1).1;
              }
            ])
        by_answer none c1 = (inl refl, refl)
        by_answer (some line) c1 = (take_answer-Ends t.calloc line c1, refl)

    -- What one call of `stratum_subscribe` ends with.
    abbrev pub Subscribed : Conn → Bool × List (List ℕ) × Conn → Type 0
    Subscribed c (ret, requests, after) =
        let first = subscribe_text agent false c.session_id in
        ((ret ≡ false) ⊎ HasExtranonce after)
        × ((requests ≡ [])
            ⊎ ((requests ≡ first ∷ [])
                ⊎ (requests ≡ first ∷ (subscribe_head ++ (93 ∷ 125 ∷ [])) ∷ [])))

    -- Whatever the attempts meet, `stratum_subscribe` returns true only with both extranonces there, and
    -- it asks at most twice: first with the session that the connection has, then without parameters.
    pub subscribe-Subscribed :
        (t0 t1 : Try) (c : Conn) → Subscribed c (stratum_subscribe json agent t0 t1 c)
    unfolding stratum_subscribe AsksOnce subscribe_text
    subscribe-Subscribed t0 t1 c =
        let first = subscribe_once json agent false t0 c in
        let second = subscribe_once json agent true t1 first.conn in
        let (end0, asks0) = once-AsksOnce false t0 c in
        let (end1, asks1) = once-AsksOnce true t1 first.conn in
        choice (Subscribed c) (not (is_some c.sock)) (false, [], c) _ (inl refl, inl refl)
          (choice (Subscribed c) (not first.ret && first.line)
            (second.ret, first.request ∷ second.request ∷ [], second.conn)
            (first.ret, first.request ∷ [], first.conn)
            (end1, inr (inr (ap₂ (λ x y. x ∷ y ∷ []) asks0 asks1)))
            (end0, inr (inl (ap (λ x. x ∷ []) asks0))))
