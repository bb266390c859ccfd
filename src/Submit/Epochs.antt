-- ===== src/Submit/Epochs.antt =====
-- soj.c: what a raised `reauth_epoch` keeps from being sent.
use soj_civic_light.Prelude.{
  choice, ℕ, ◌+◌, ◌^◌, ◌≤◌, ◌<◌, ◌≡◌, refl, sym, ap, ◌∙◌, subst, Bool, Bool-cases, inl, inr, true,
  false, not, ◌&&◌, Option, none, some, List, [], ◌∷◌, ◌++◌, arith, ltb, All, All-append,
  append-nil, append_assoc,
}
use soj_civic_light.Submit.{
  Solution, Command, no_command, closes, wc_get_work, wc_submit_work, Hand, idle, asking, taken,
  allowed, checked, ended, Program, push, submit_work, request_work, update_submit_stats,
  submit_solution, done, ends, take_command, next_command, work_on, ask_upstream, check_suspended,
  check_epoch, workio_step, Event, solved, requested, raised, stopped, resumed, closed, worked,
  raise_epoch, step, run,
}

unfoldable pub raises : List Event → ℕ
raises [] = 0
raises (raised ∷ es) = raises es + 1
raises (e ∷ es) = raises es

pub raises_split :
    (event : Event) (es : List Event) → raises (event ∷ es) ≡ raises (event ∷ []) + raises es
unfolding raises
raises_split (solved calloc aligned entry work) es = omega arith
raises_split (requested calloc entry thr) es = omega arith
raises_split raised es = omega arith
raises_split stopped es = omega arith
raises_split resumed es = omega arith
raises_split (closed entry) es = omega arith
raises_split (worked aligned sends) es = omega arith

abbrev pub ShowsFresh : ℕ → Hand → Type 0
ShowsFresh e (checked work token) = e ≤ work.reauth_epoch
ShowsFresh e idle = Unit
ShowsFresh e (asking thr failures) = Unit
ShowsFresh e (taken work token) = Unit
ShowsFresh e (allowed work token) = Unit
ShowsFresh e ended = Unit

-- A program after one that had sent `before`: what was sent since is of epoch `e` or later, and so is what goes out next.
pub record Later (e : ℕ) (before : List Solution) (now : ℕ) (q : Program) : Type 0 where
  pub more : List Solution
  pub sent : q.sent ≡ before ++ more
  pub fresh : All (λ w. e ≤ w.reauth_epoch) more
  pub hand : ShowsFresh e q.hand
  pub same : q.reauth_epoch ≡ now

still : (e : ℕ) (q : Program) → ShowsFresh e q.hand → Later e q.sent q.reauth_epoch q
still e q hand = record {
  more = [];
  sent = sym (append-nil q.sent);
  fresh = tt;
  hand = hand;
  same = refl;
}

kept :
    (e : ℕ) (p q : Program)
    → Later e p.sent p.reauth_epoch q
    → Later e p.sent (p.reauth_epoch + 0) q
kept e p q h =
    subst (λ n. Later e p.sent n q)
      (let same : p.reauth_epoch ≡ p.reauth_epoch + 0 = omega arith in same) h

module _ (e : ℕ) (p : Program) (hand : ShowsFresh e p.hand) (epoch : e ≤ p.reauth_epoch) where
  here : Later e p.sent p.reauth_epoch p
  here = still e p hand

  push-Later : (entry : Bool) (c : Command) → Later e p.sent p.reauth_epoch (push entry c p).1
  unfolding push
  push-Later entry c =
      choice (λ (r : Bool × Program). Later e p.sent p.reauth_epoch r.1) (entry && not p.frozen)
        (true, record p { queue = p.queue ++ (c ∷ []) }) (false, p) (still e _ hand) here

  submit_work-Later :
      (calloc aligned entry : Bool) (work : Solution)
      → Later e p.sent p.reauth_epoch (submit_work calloc aligned entry work p).1
  unfolding submit_work
  submit_work-Later calloc aligned entry work =
      choice (λ (r : Bool × Program). Later e p.sent p.reauth_epoch r.1) (calloc && aligned) _
        (false, p) (push-Later entry _) here

  request_work-Later :
      (calloc entry : Bool) (thr : ℕ)
      → Later e p.sent p.reauth_epoch (request_work calloc entry thr p).1
  unfolding request_work
  request_work-Later calloc entry thr =
      choice (λ (r : Bool × Program). Later e p.sent p.reauth_epoch r.1) calloc _ (false, p)
        (push-Later entry _) here

  done-Later : Later e p.sent p.reauth_epoch (done p)
  unfolding done
  done-Later = still e (done p) tt

  ends-Later : Later e p.sent p.reauth_epoch (ends p)
  unfolding ends
  ends-Later = still e (ends p) tt

  ask-Later :
      (have_stratum : Bool) (opt_retries : Option ℕ) (thr failures : ℕ)
      → Later e p.sent p.reauth_epoch (ask_upstream have_stratum opt_retries thr failures p)
  unfolding ask_upstream done
  ask-Later true opt_retries thr failures = still e _ tt
  ask-Later false none thr failures = still e _ tt
  ask-Later false (some limit) thr failures =
      choice (Later e p.sent p.reauth_epoch) (ltb limit (failures + 1)) _ _ ends-Later
        (still e _ tt)

  take-Later :
      (have_stratum aligned : Bool) (c : Command)
      → Later e p.sent p.reauth_epoch (take_command have_stratum aligned c p)
  unfolding take_command closes
  take-Later have_stratum aligned no_command = still e (closes p) tt
  take-Later have_stratum aligned (wc_get_work thr) =
      choice (Later e p.sent p.reauth_epoch) aligned _ _ (still e _ tt) ends-Later
  take-Later have_stratum aligned (wc_submit_work work token) =
      choice (Later e p.sent p.reauth_epoch) (ltb token p.reauth_epoch) _ _ done-Later
        (still e _ tt)

  suspended-Later :
      (have_stratum : Bool) (work : Solution) (token : ℕ)
      → Later e p.sent p.reauth_epoch (check_suspended have_stratum work token p)
  unfolding check_suspended
  suspended-Later have_stratum work token =
      choice (Later e p.sent p.reauth_epoch) (not have_stratum) _ _ done-Later
        (choice (Later e p.sent p.reauth_epoch) p.suspended _ _ done-Later (still e _ tt))

  check_epoch-Later :
      (have_stratum : Bool) (work : Solution) (token : ℕ)
      → Later e p.sent p.reauth_epoch (check_epoch have_stratum work token p)
  unfolding check_epoch
  check_epoch-Later have_stratum work token =
      elim (Bool-cases (ltb work.reauth_epoch p.reauth_epoch)) [
        | inl old ↦ rw (old, check_epoch) done-Later
        | inr new ↦ rw (new, check_epoch) (still e _ (ground (arith, new)))
      ]

module _ (have_stratum : Bool) (opt_retries : Option ℕ) where
  submit_solution-Later :
      (e : ℕ) (p : Program) (calloc aligned entry : Bool) (work : Solution)
      → ShowsFresh e p.hand
      → e ≤ p.reauth_epoch
      → Later e p.sent p.reauth_epoch (submit_solution have_stratum calloc aligned entry work p).1
  unfolding submit_solution update_submit_stats
  submit_solution-Later e p calloc aligned entry work hand epoch =
      let h = submit_work-Later e p hand epoch calloc aligned entry work in
      let (queued, next) = submit_work calloc aligned entry work p in
      choice (λ (r : Bool × Program). Later e p.sent p.reauth_epoch r.1) queued
        (true, update_submit_stats have_stratum work next) (false, next)
        (record { more = h.more; sent = h.sent; fresh = h.fresh; hand = h.hand; same = h.same }) h

  next-Later :
      (e : ℕ) (p : Program) (aligned : Bool) (cs : List Command)
      → ShowsFresh e p.hand
      → e ≤ p.reauth_epoch
      → Later e p.sent p.reauth_epoch (next_command have_stratum aligned cs p)
  unfolding next_command
  next-Later e p aligned [] hand epoch = here e p hand epoch
  next-Later e p aligned (c ∷ cs) hand epoch =
      take-Later e (record p { queue = cs }) hand epoch have_stratum aligned c

  work_on-Later :
      (e : ℕ) (p : Program) (aligned sends : Bool) (hand : Hand)
      → p.hand ≡ hand
      → ShowsFresh e hand
      → e ≤ p.reauth_epoch
      → Later e p.sent p.reauth_epoch (work_on have_stratum opt_retries aligned sends hand p)
  unfolding work_on done
  work_on-Later e p aligned sends idle same fresh epoch =
      next-Later e p aligned p.queue (subst (ShowsFresh e) (sym same) fresh) epoch
  work_on-Later e p aligned sends (asking thr failures) same fresh epoch =
      ask-Later e p (subst (ShowsFresh e) (sym same) fresh) epoch have_stratum opt_retries thr
        failures
  work_on-Later e p aligned sends (taken work token) same fresh epoch =
      suspended-Later e p (subst (ShowsFresh e) (sym same) fresh) epoch have_stratum work token
  work_on-Later e p aligned sends (allowed work token) same fresh epoch =
      check_epoch-Later e p (subst (ShowsFresh e) (sym same) fresh) epoch have_stratum work token
  work_on-Later e p aligned sends (checked work token) same fresh epoch = record {
    more = work ∷ [];
    sent = refl;
    fresh = (fresh, tt);
    hand = tt;
    same = refl;
  }
  work_on-Later e p aligned sends ended same fresh epoch =
      here e p (subst (ShowsFresh e) (sym same) fresh) epoch

  -- One event, on an epoch that does not wrap.
  step-Later :
      (e : ℕ) (p : Program) (event : Event)
      → p.reauth_epoch + raises (event ∷ []) < 2 ^ 64
      → ShowsFresh e p.hand
      → e ≤ p.reauth_epoch
      → Later e p.sent
          (p.reauth_epoch + raises (event ∷ []))
          (step have_stratum opt_retries event p)
  unfolding step raise_epoch workio_step raises
  step-Later e p (solved calloc aligned entry work) small hand epoch =
      kept e p _ (submit_solution-Later e p calloc aligned entry work hand epoch)
  step-Later e p (requested calloc entry thr) small hand epoch =
      kept e p _ (request_work-Later e p hand epoch calloc entry thr)
  step-Later e p raised small hand epoch = record {
    more = [];
    sent = sym (append-nil p.sent);
    fresh = tt;
    hand = hand;
    same = omega arith;
  }
  step-Later e p stopped small hand epoch = kept e p _ (still e _ hand)
  step-Later e p resumed small hand epoch = kept e p _ (still e _ hand)
  step-Later e p (closed entry) small hand epoch =
      kept e p _ (push-Later e p hand epoch entry no_command)
  step-Later e p (worked aligned sends) small hand epoch =
      kept e p _ (work_on-Later e p aligned sends p.hand refl hand epoch)

  pub run-Later :
      (e : ℕ) (p : Program) (es : List Event)
      → p.reauth_epoch + raises es < 2 ^ 64
      → ShowsFresh e p.hand
      → e ≤ p.reauth_epoch
      → Later e p.sent (p.reauth_epoch + raises es) (run have_stratum opt_retries es p)
  unfolding run raises
  run-Later e p [] small hand epoch = kept e p p (still e p hand)
  run-Later e p (event ∷ es) small hand epoch =
      let first = step-Later e p event (omega (arith, raises_split event es)) hand epoch in
      let q = step have_stratum opt_retries event p in
      let rest =
        run-Later e q es (omega (arith, raises_split event es, first.same)) first.hand
          (omega (arith, first.same)) in
      record {
        more = first.more ++ rest.more;
        sent =
            rest.sent
            ∙ ap (λ t. t ++ rest.more) first.sent
            ∙ append_assoc p.sent first.more rest.more;
        fresh = All-append (λ w. e ≤ w.reauth_epoch) first.more rest.more first.fresh rest.fresh;
        hand = rest.hand;
        same = omega (arith, raises_split event es, first.same, rest.same);
      }
