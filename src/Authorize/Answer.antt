-- ===== src/Authorize/Answer.antt =====
-- soj_stratum_transport.c: what the result of `stratum_authorize` means.
use soj_civic_light.Prelude.{
  ℕ, ◌≡◌, ◌⊎◌, not, refl, ap, subst, Bool, true, false, inl, inr, Bool-cases, Option-cases, Option,
  none, some, List, [], ◌∷◌, ◌++◌, ◌>>=◌, arith,
}
use soj_civic_light.Line.{Conn}
use soj_civic_light.Response.{result_key, error_key}
use soj_civic_light.Methods.{World, Client, send, stratum_handle_method}
use soj_civic_light.Authorize.{
  Left, Read, authorize_text, method_loop, is_accepted, take_authorization, stratum_authorize,
  refused,
}

module _ (w : World) (junk fresh : List ℕ) where
  -- The pool's calls, each handled as a method with success, in their order.
  pub data Handled : List (List ℕ) → Client → Client → Type 0 where
    handled_none : {c : Client} → Handled [] c c
    handled_one :
        {c d e : Client} {calls : List (List ℕ)} (line : List ℕ)
        → stratum_handle_method w junk fresh line c ≡ some (true, d)
        → Handled calls d e
        → Handled (line ∷ calls) c e

  -- The lines up to the answer: some calls, then a line for which the result is false.
  pub record Answered (lines : List (List ℕ)) (c d : Client) (answer : List ℕ) : Type 0 where
    pub calls : List (List ℕ)
    pub unread : List (List ℕ)
    pub before : Client
    pub handled : Handled calls c before
    pub no_method : stratum_handle_method w junk fresh answer before ≡ some (false, d)
    pub split : lines ≡ calls ++ (answer ∷ unread)

  -- What is so of the lines where the loop ends at one that is no method.
  abbrev EndsAt : List (List ℕ) → (c d : Client) → Option (List ℕ) → Type 0
  EndsAt lines c d none = Unit
  EndsAt lines c d (some answer) = Answered lines c d answer

  abbrev Ends : List (List ℕ) → Client → Option Read → Type 0
  Ends lines c none = Unit
  Ends lines c (some r) = EndsAt lines c r.client r.line

  after_call :
      (line : List ℕ) (lines : List (List ℕ)) (c d : Client)
      → stratum_handle_method w junk fresh line c ≡ some (true, d)
      → (r : Option Read) → Ends lines d r
      → Ends (line ∷ lines) c r
  after_call line lines c d g none h = tt
  after_call line lines c d g (some r) h = by_line r.line h
    where
      by_line :
          (answer : Option (List ℕ))
          → EndsAt lines d r.client answer
          → EndsAt (line ∷ lines) c r.client answer
      by_line none h = tt
      by_line (some answer) h = record {
        calls = line ∷ h.calls;
        unread = h.unread;
        before = h.before;
        handled = handled_one line g h.handled;
        no_method = h.no_method;
        split = ap (λ rest. line ∷ rest) h.split;
      }

  -- The answer has a result that is not false, and no error but null.
  pub record Accepted (answer : List ℕ) : Type 0 where
    pub val : w.json.Value
    pub res_val : w.json.Value
    pub decoded : w.json.loads answer ≡ some val
    pub result : w.json.object_get val result_key ≡ some res_val
    pub not_false : w.json.is_false res_val ≡ false
    pub no_error :
        (w.json.object_get val error_key ≡ none)
        ⊎ ((err_val : w.json.Value) × (w.json.object_get val error_key ≡ some err_val)
            × (w.json.is_null err_val ≡ true))

  -- What a result of true comes with.
  pub record Authorized (user pass : List ℕ) (lines : List (List ℕ)) (c : Client) : Type 0 where
    pub answer : List ℕ
    pub after : Client
    pub sent : w.sends (authorize_text user pass) ≡ true
    pub answered :
        Answered lines (record c { sent = c.sent ++ (authorize_text user pass ∷ []) }) after answer
    pub accepted : Accepted answer

  module _ (lost : Conn → Conn) where
    loop-Ends :
        (lines : List (List ℕ)) (c : Client) → Ends lines c (method_loop w junk fresh lost lines c)
    unfolding method_loop
    loop-Ends [] c = tt
    loop-Ends (line ∷ lines) c = elim (Option-cases (stratum_handle_method w junk fresh line c)) [
      | inl undefined ↦ rw (undefined, method_loop) tt
      | inr ((true, d), g) ↦ rw (g, method_loop) (after_call line lines c d g _ (loop-Ends lines d))
      | inr ((false, d), g) ↦
          rw (g, method_loop)
            (record {
              calls = [];
              unread = lines;
              before = c;
              handled = handled_none;
              no_method = g;
              split = refl;
            })
    ]

    no_error_cases :
        (res_val : w.json.Value) (error : Option w.json.Value)
        → not (refused w junk fresh lost (some res_val) error) ≡ true
        → (w.json.is_false res_val ≡ false)
          × ((error ≡ none)
              ⊎ ((err_val : w.json.Value) × (error ≡ some err_val)
                  × (w.json.is_null err_val ≡ true)))
    unfolding refused
    no_error_cases res_val none e = (ground (arith, e), inl refl)
    no_error_cases res_val (some err_val) e =
        (ground (arith, e), inr (err_val, refl, ground (arith, e)))

    fields-Accepted :
        (answer : List ℕ) (val : w.json.Value) (result : Option w.json.Value)
        → w.json.loads answer ≡ some val
        → w.json.object_get val result_key ≡ result
        → not (refused w junk fresh lost result (w.json.object_get val error_key)) ≡ true
        → Accepted answer
    unfolding refused
    fields-Accepted answer val none decoded result e = absurd (ground (arith, e))
    fields-Accepted answer val (some res_val) decoded result e =
        let (not_false, no_error) = no_error_cases res_val (w.json.object_get val error_key) e in
        record {
          val = val;
          res_val = res_val;
          decoded = decoded;
          result = result;
          not_false = not_false;
          no_error = no_error;
        }

    is_accepted-Accepted :
        (answer : List ℕ) → is_accepted w junk fresh lost answer ≡ true → Accepted answer
    unfolding is_accepted
    is_accepted-Accepted answer = by_value (w.json.loads answer) refl
      where
        by_value :
            (loaded : Option w.json.Value)
            → w.json.loads answer ≡ loaded
            → is_accepted w junk fresh lost answer ≡ true
            → Accepted answer
        by_value none decoded e = absurd (ground (arith, e, decoded))
        by_value (some val) decoded e =
            fields-Accepted answer val (w.json.object_get val result_key) decoded refl
              (rw (is_accepted, decoded) at e)

    -- What comes with a result of true that an answer left.
    abbrev Accepts : List (List ℕ) → (c d : Client) → Option Left → Type 0
    Accepts lines c d none = Unit
    Accepts lines c d (some l) =
        l.ret ≡ true → (answer : List ℕ) × Answered lines c d answer × Accepted answer

    Accepted-Accepts :
        (lines : List (List ℕ)) (c d : Client) (answer : List ℕ)
        → Answered lines c d answer
        → Accepted answer
        → (l : Option Left) → Accepts lines c d l
    Accepted-Accepts lines c d answer h allowed none = tt
    Accepted-Accepts lines c d answer h allowed (some l) = λ t. (answer, h, allowed)

    take-Accepts :
        (lines : List (List ℕ)) (c : Client) (opt ready : Bool) (r : Read)
        → Ends lines c (some r)
        → Accepts lines c r.client (take_authorization w junk fresh lost opt ready r)
    unfolding take_authorization
    take-Accepts lines c opt ready r h = elim (Option-cases r.line) [
      | inl f ↦ rw (take_authorization, f) (λ t. absurd (ground (arith, t)))
      | inr (answer, f) ↦ elim (Bool-cases (is_accepted w junk fresh lost answer)) [
        | inl allowed ↦
            rw (take_authorization, f, allowed)
              (Accepted-Accepts lines c r.client answer (subst (EndsAt lines c r.client) f h)
                (is_accepted-Accepted answer allowed) _)
        | inr denied ↦ rw (take_authorization, f, denied) (λ t. absurd (ground (arith, t)))
      ]
    ]

    module _ (user pass : List ℕ) (lines : List (List ℕ)) (c : Client) where
      abbrev Authorizes : Option Left → Type 0
      Authorizes none = Unit
      Authorizes (some l) = l.ret ≡ true → Authorized user pass lines c

      abbrev asked : Client
      asked = record c { sent = c.sent ++ (authorize_text user pass ∷ []) }

      Accepts-Authorizes :
          w.sends (authorize_text user pass) ≡ true
          → (d : Client) (l : Option Left) → Accepts lines asked d l
          → Authorizes l
      Accepts-Authorizes sent d none h = tt
      Accepts-Authorizes sent d (some l) h = λ t.
          let (answer, answered, accepted) = h t in
          record {
            answer = answer;
            after = d;
            sent = sent;
            answered = answered;
            accepted = accepted;
          }

      loop-Authorizes :
          w.sends (authorize_text user pass) ≡ true
          → (opt ready : Bool) (o : Option Read) → Ends lines asked o
          → Authorizes (o >>= take_authorization w junk fresh lost opt ready)
      loop-Authorizes sent opt ready none h = tt
      loop-Authorizes sent opt ready (some r) h =
          Accepts-Authorizes sent r.client _ (take-Accepts lines asked opt ready r h)

      authorize-Authorizes :
          (malloc opt ready : Bool)
          → Authorizes (stratum_authorize w junk fresh lost malloc user pass opt ready lines c)
      unfolding stratum_authorize send
      authorize-Authorizes false opt ready = λ t. absurd (ground (arith, t))
      authorize-Authorizes true opt ready = elim (Bool-cases (w.sends (authorize_text user pass))) [
        | inl sent ↦
            rw (stratum_authorize, send, sent)
              (loop-Authorizes sent opt ready _ (loop-Ends lines asked))
        | inr unsent ↦ rw (stratum_authorize, send, unsent) (λ t. absurd (ground (arith, t)))
      ]

  -- Where stratum_authorize returns true, its request went out, and the lines of the pool are some
  -- lines that stratum_handle_method took with a result of true, in order, then an answer for which it
  -- returned false, and lines that may be unread. The answer is JSON with a result that is there and is
  -- not false, and its error is not there or null.
  pub authorize-Authorized :
      (lost : Conn → Conn) (malloc : Bool) (user pass : List ℕ) (opt ready : Bool)
      (lines : List (List ℕ)) (c : Client) (l : Left)
      → stratum_authorize w junk fresh lost malloc user pass opt ready lines c ≡ some l
      → l.ret ≡ true
      → Authorized user pass lines c
  authorize-Authorized lost malloc user pass opt ready lines c l e =
      subst (Authorizes lost user pass lines c) e
        (authorize-Authorizes lost user pass lines c malloc opt ready)
