-- ===== src/Submit/Renewal.antt =====
-- soj.c: the solution that the I/O thread has ready when the epoch is raised.
use soj_civic_light.Prelude.{
  ℕ, ◌+◌, ◌^◌, ◌≤◌, ◌<◌, ◌≡◌, refl, sym, ap, ◌∙◌, subst, Bool, ◌⊎◌, inl, inr, Option, List, [], ◌∷◌,
  ◌++◌, arith, All, append-nil, append_assoc,
}
use soj_civic_light.Submit.Others.{push-Untouched, solution-Untouched, request-Untouched}
use soj_civic_light.Submit.Epochs.{raises, raises_split, ShowsFresh, run-Later}
use soj_civic_light.Submit.{
  Solution, Hand, idle, asking, taken, allowed, checked, ended, Program, done, workio_step, work_on,
  Event, solved, requested, raised, stopped, resumed, closed, no_command, worked, raise_epoch, step,
  run,
}

-- What goes out although the epoch is raised.
abbrev pub in_flight : Hand → List Solution
in_flight (checked work token) = work ∷ []
in_flight idle = []
in_flight (asking thr failures) = []
in_flight (taken work token) = []
in_flight (allowed work token) = []
in_flight ended = []

hand_cases :
    (e : ℕ) (hand : Hand)
    → ShowsFresh e hand ⊎ ((work : Solution) × (token : ℕ) × (hand ≡ checked work token))
hand_cases e (checked work token) = inr (work, token, refl)
hand_cases e idle = inl tt
hand_cases e (asking thr failures) = inl tt
hand_cases e (taken work token) = inl tt
hand_cases e (allowed work token) = inl tt
hand_cases e ended = inl tt

module _ (have_stratum : Bool) (opt_retries : Option ℕ) where
  -- An event of another thread, or the solution goes out.
  step-ready :
      (p : Program) (event : Event) (work : Solution) (token : ℕ)
      → p.hand ≡ checked work token
      → p.reauth_epoch + raises (event ∷ []) < 2 ^ 64
      → let q = step have_stratum opt_retries event p in
        (q.reauth_epoch ≡ p.reauth_epoch + raises (event ∷ []))
        × (((q.hand ≡ p.hand) × (q.sent ≡ p.sent))
            ⊎ ((q.hand ≡ idle) × (q.sent ≡ p.sent ++ (work ∷ []))))
  unfolding step raise_epoch workio_step work_on done raises
  step-ready p (solved calloc aligned entry solution) work token ready small =
      let h = solution-Untouched have_stratum calloc aligned entry solution p in
      (omega (arith, h.epoch), inl (h.hand, h.sent))
  step-ready p (requested calloc entry thr) work token ready small =
      let h = request-Untouched calloc entry thr p in (omega (arith, h.epoch), inl (h.hand, h.sent))
  step-ready p raised work token ready small = (omega arith, inl (refl, refl))
  step-ready p stopped work token ready small = (omega arith, inl (refl, refl))
  step-ready p resumed work token ready small = (omega arith, inl (refl, refl))
  step-ready p (closed entry) work token ready small =
      let h = push-Untouched entry no_command p in (omega (arith, h.epoch), inl (h.hand, h.sent))
  step-ready p (worked aligned sends) work token ready small =
      rw (ready, work_on) (omega arith, inr (refl, refl))

  -- What went out from a program `p` on, where the epoch `e` had begun.
  abbrev pub Sent : ℕ → Program → Program → Type 0
  Sent e p q =
      (old : List Solution) × (more : List Solution) × (q.sent ≡ p.sent ++ (old ++ more))
      × ((old ≡ []) ⊎ (old ≡ in_flight p.hand))
      × All (λ w. e ≤ w.reauth_epoch) more

  ready-Sent :
      (e : ℕ) (p : Program) (es : List Event) (work : Solution) (token : ℕ)
      → p.hand ≡ checked work token
      → p.reauth_epoch + raises es < 2 ^ 64
      → e ≤ p.reauth_epoch
      → Sent e p (run have_stratum opt_retries es p)
  unfolding run
  ready-Sent e p [] work token ready small epoch = ([], [], sym (append-nil p.sent), inl refl, tt)
  ready-Sent e p (event ∷ es) work token ready small epoch =
      let q = step have_stratum opt_retries event p in
      let (now, cases) =
        step-ready p event work token ready (omega (arith, raises_split event es)) in
      let bound : q.reauth_epoch + raises es < 2 ^ 64 = omega (arith, raises_split event es, now) in
      elim cases [
        | inl (hand, sent) ↦
            let (old, more, all_sent, flight, fresh) =
              ready-Sent e q es work token (hand ∙ ready) bound (omega (arith, now)) in
            (
              old,
              more,
              all_sent ∙ ap (λ t. t ++ (old ++ more)) sent,
              subst (λ h. (old ≡ []) ⊎ (old ≡ in_flight h)) hand flight,
              fresh,
            )
        | inr (hand, sent) ↦
            let later =
              run-Later have_stratum opt_retries e q es bound (subst (ShowsFresh e) (sym hand) tt)
                (omega (arith, now)) in
            (
              work ∷ [],
              later.more,
              later.sent
                  ∙ ap (λ t. t ++ later.more) sent
                  ∙ append_assoc p.sent (work ∷ []) later.more,
              inr (sym (ap in_flight ready)),
              later.fresh,
            )
      ]

  idle-Sent :
      (p : Program) (es : List Event)
      → ShowsFresh (p.reauth_epoch + 1) p.hand
      → p.reauth_epoch + 1 + raises es < 2 ^ 64
      → Sent (p.reauth_epoch + 1) p (run have_stratum opt_retries es (raise_epoch p))
  unfolding raise_epoch
  idle-Sent p es hand small =
      let later =
        run-Later have_stratum opt_retries (p.reauth_epoch + 1) (raise_epoch p) es (omega arith)
          hand (omega arith) in
      ([], later.more, later.sent, inl refl, later.fresh)

  -- From the moment `reauth_epoch` is raised, in every order of the threads' events in which it does not
  -- wrap, each solution that is given to stratum_send_line was made in the raised epoch or a later one,
  -- but for at most one, which goes before the others: the one that had passed all tests by then.
  pub raise_epoch-Sent :
      (p : Program) (es : List Event)
      → p.reauth_epoch + 1 + raises es < 2 ^ 64
      → let q = run have_stratum opt_retries es (raise_epoch p) in
        (old : List Solution) × (more : List Solution) × (q.sent ≡ p.sent ++ (old ++ more))
        × ((old ≡ []) ⊎ (old ≡ in_flight p.hand))
        × All (λ w. p.reauth_epoch + 1 ≤ w.reauth_epoch) more
  unfolding raise_epoch
  raise_epoch-Sent p es small = elim (hand_cases (p.reauth_epoch + 1) p.hand) [
    | inl fresh ↦ idle-Sent p es fresh small
    | inr (work, token, ready) ↦
        ready-Sent (p.reauth_epoch + 1) (raise_epoch p) es work token ready (omega arith)
          (omega arith)
  ]
