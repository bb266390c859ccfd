-- ===== src/Submit/Shares.antt =====
-- soj.c: what the I/O thread sends when it works through its queue.
use soj_civic_light.Prelude.{
  ℕ, zero, suc, ◌+◌, ◌*◌, ◌≤◌, ◌≡◌, ◌⊎◌, refl, sym, ap, ap₂, ◌∙◌, Bool, true, false, not, ◌&&◌, inl,
  inr, Bool-cases, Option, List, [], ◌∷◌, ◌++◌, arith, ltb, leb, if◌then◌else◌, length, All,
  replicate, append-nil, append_assoc,
}
use soj_civic_light.Submit.{
  Solution, Command, wc_get_work, wc_submit_work, no_command, idle, taken, allowed, checked,
  Program, done, take_command, next_command, ask_upstream, check_suspended, check_epoch,
  workio_step, work_on, worked, step, run,
}

-- The solutions that belong out: of the epoch, by their own number and by the command's token.
unfoldable pub fresh_solutions : (suspended : Bool) → (epoch : ℕ) → List Command → List Solution
fresh_solutions suspended epoch [] = []
fresh_solutions suspended epoch (no_command ∷ cs) = fresh_solutions suspended epoch cs
fresh_solutions suspended epoch (wc_get_work thr ∷ cs) = fresh_solutions suspended epoch cs
fresh_solutions suspended epoch (wc_submit_work work token ∷ cs) =
    let rest = fresh_solutions suspended epoch cs in
    if not suspended && (leb epoch token && leb epoch work.reauth_epoch) then work ∷ rest else rest

-- The command is there.
abbrev pub IsCommand : Command → Type 0
IsCommand no_command = ⊥
IsCommand (wc_get_work thr) = Unit
IsCommand (wc_submit_work work token) = Unit

unfoldable pub waiting_threads : List Command → List ℕ
waiting_threads [] = []
waiting_threads (no_command ∷ cs) = waiting_threads cs
waiting_threads (wc_get_work thr ∷ cs) = thr ∷ waiting_threads cs
waiting_threads (wc_submit_work work token ∷ cs) = waiting_threads cs

module _ (opt_retries : Option ℕ) where
  -- `n` events of the I/O thread alone, each line going out.
  abbrev pub alone : ℕ → Program → Program
  alone n p = run true opt_retries (replicate n (worked true true)) p

  abbrev at_command : Program → List Command → Program
  at_command p cs = record p { hand = idle; queue = cs }

  -- The program when the first command is done with.
  abbrev after : Program → List Command → List Solution → List ℕ → Program
  after p cs sent answered = record p {
    hand = idle;
    queue = cs;
    served = p.served + 1;
    sent = p.sent ++ sent;
    delivered = p.delivered ++ sent;
    answered = p.answered ++ answered;
  }

  alone-nothing : (n : ℕ) (p : Program) → alone n (at_command p []) ≡ at_command p []
  unfolding run step workio_step work_on next_command
  alone-nothing zero p = refl
  alone-nothing (suc n) p = alone-nothing n p

  -- A command that sends nothing, at its first event.
  dropped_at :
      (p : Program) (cs : List Command) (n : ℕ)
      → alone n (done (record p { queue = cs; hand = idle })) ≡ alone n (after p cs [] [])
  unfolding done
  dropped_at p cs n =
      ap₂
        (λ s a. alone n (record p {
          hand = idle;
          queue = cs;
          served = p.served + 1;
          sent = s;
          delivered = p.delivered;
          answered = a;
        }))
        (sym (append-nil p.sent)) (sym (append-nil p.answered))
      ∙ ap (λ d. alone n (record (after p cs [] []) { delivered = d }))
          (sym (append-nil p.delivered))

  module _ (work : Solution) (token : ℕ) (p : Program) where
    abbrev submission : Command
    submission = wc_submit_work work token

    abbrev fresh : List Solution
    fresh = fresh_solutions p.suspended p.reauth_epoch (submission ∷ [])

    -- What becomes of a solution, test by test.
    took-old :
        ltb token p.reauth_epoch ≡ true
        → (take_command true true submission p ≡ done p) × (fresh ≡ [])
    unfolding take_command fresh_solutions
    took-old h = (rw h refl, ground (arith, h))

    took-new :
        ltb token p.reauth_epoch ≡ false
        → take_command true true submission p ≡ record p { hand = taken work token }
    unfolding take_command
    took-new h = rw h refl

    suspended-cases :
        ltb token p.reauth_epoch ≡ false
        → ((check_suspended true work token p ≡ done p) × (fresh ≡ []))
          ⊎ ((check_suspended true work token p ≡ record p { hand = allowed work token })
              × (p.suspended ≡ false))
    unfolding check_suspended fresh_solutions
    suspended-cases h = ground (arith, h)

    epoch-cases :
        ltb token p.reauth_epoch ≡ false
        → p.suspended ≡ false
        → ((check_epoch true work token p ≡ done p) × (fresh ≡ []))
          ⊎ ((check_epoch true work token p ≡ record p { hand = checked work token })
              × (fresh ≡ work ∷ []))
    unfolding check_epoch fresh_solutions
    epoch-cases h on = ground (arith, h, on)

  submitted_command :
      (p : Program) (work : Solution) (token : ℕ) (cs : List Command) (n : ℕ)
      → let c = wc_submit_work work token in
        (k : ℕ) × (n ≤ k)
        × (alone (suc (suc (suc (suc n)))) (at_command p (c ∷ cs))
            ≡ alone k (after p cs (fresh_solutions p.suspended p.reauth_epoch (c ∷ [])) []))
  unfolding run step workio_step work_on next_command done
  submitted_command p work token cs n =
      let q = at_command p cs in
      let ready = λ (h : ltb token p.reauth_epoch ≡ false).
        ap (alone (suc (suc (suc n)))) (took-new work token q h) in
      let nothing = λ (k : ℕ) (none_fresh : fresh work token q ≡ []).
        dropped_at p cs k ∙ ap (λ s. alone k (after p cs s [])) (sym none_fresh) in
      elim (Bool-cases (ltb token p.reauth_epoch)) [
        | inl old ↦
            let (dropped, none_fresh) = took-old work token q old in
            (
              suc (suc (suc n)),
              omega arith,
              ap (alone (suc (suc (suc n)))) dropped ∙ nothing (suc (suc (suc n))) none_fresh,
            )
        | inr new ↦ elim (suspended-cases work token (record q { hand = taken work token }) new) [
          | inl (dropped, none_fresh) ↦ (
            suc (suc n),
            omega arith,
            ready new ∙ ap (alone (suc (suc n))) dropped ∙ nothing (suc (suc n)) none_fresh,
          )
          | inr (passed, on) ↦
              elim (epoch-cases work token (record q { hand = allowed work token }) new on) [
                | inl (dropped, none_fresh) ↦ (
                  suc n,
                  omega arith,
                  ready new
                      ∙ ap (alone (suc (suc n))) passed
                      ∙ ap (alone (suc n)) dropped
                      ∙ nothing (suc n) none_fresh,
                )
                | inr (all, one_fresh) ↦ (
                  n,
                  omega arith,
                  ready new
                      ∙ ap (alone (suc (suc n))) passed
                      ∙ ap (alone (suc n)) all
                      ∙ ap (λ a. alone n (record (after p cs (work ∷ []) []) { answered = a }))
                          (sym (append-nil p.answered))
                      ∙ ap (λ s. alone n (after p cs s [])) (sym one_fresh),
                )
              ]
        ]
      ]

  one_command :
      (p : Program) (c : Command) (cs : List Command) (n : ℕ)
      → IsCommand c
      → (k : ℕ) × (n ≤ k)
        × (alone (suc (suc (suc (suc n)))) (at_command p (c ∷ cs))
            ≡ alone k (
                after p cs
                  (fresh_solutions p.suspended p.reauth_epoch (c ∷ []))
                  (waiting_threads (c ∷ []))))
  unfolding run step workio_step work_on next_command take_command ask_upstream done fresh_solutions
      waiting_threads
  one_command p no_command cs n there = absurd there
  one_command p (wc_submit_work work token) cs n there = submitted_command p work token cs n
  one_command p (wc_get_work thr) cs n there = (
    suc (suc n),
    omega arith,
    ap₂ (λ s d. alone (suc (suc n)) (record (after p cs [] (thr ∷ [])) { sent = s; delivered = d }))
        (sym (append-nil p.sent)) (sym (append-nil p.delivered)),
  )

  fresh_first :
      (s : Bool) (e : ℕ) (c : Command) (cs : List Command)
      → fresh_solutions s e (c ∷ cs) ≡ fresh_solutions s e (c ∷ []) ++ fresh_solutions s e cs
  unfolding fresh_solutions
  fresh_first s e no_command cs = refl
  fresh_first s e (wc_get_work thr) cs = refl
  fresh_first s e (wc_submit_work work token) cs = ground arith

  waiting_first :
      (c : Command) (cs : List Command)
      → waiting_threads (c ∷ cs) ≡ waiting_threads (c ∷ []) ++ waiting_threads cs
  unfolding waiting_threads
  waiting_first no_command cs = refl
  waiting_first (wc_get_work thr) cs = refl
  waiting_first (wc_submit_work work token) cs = refl

  -- The I/O thread waits, its queue empty, and four fields have their new values.
  abbrev pub emptied : Program → ℕ → (sent delivered : List Solution) → List ℕ → Program
  emptied p served sent delivered answered = record p {
    hand = idle;
    queue = [];
    served = served;
    sent = sent;
    delivered = delivered;
    answered = answered;
  }

  emptied-ap :
      (p : Program) {v v' : ℕ} {s s' d d' : List Solution} {a a' : List ℕ}
      → v ≡ v'
      → s ≡ s'
      → d ≡ d'
      → a ≡ a'
      → emptied p v s d a ≡ emptied p v' s' d' a'
  emptied-ap p {v' = v'} {s' = s'} {d = d} {d' = d'} {a = a} same_v same_s same_d same_a =
      ap₂ (λ v s. emptied p v s d a) same_v same_s ∙ ap₂ (emptied p v' s') same_d same_a

  queue-alone :
      (cs : List Command) (p : Program) (n : ℕ)
      → All IsCommand cs
      → 4 * length cs ≤ n
      → let fresh = fresh_solutions p.suspended p.reauth_epoch cs in
        alone n (at_command p cs)
        ≡ emptied p
            (p.served + length cs)
            (p.sent ++ fresh)
            (p.delivered ++ fresh)
            (p.answered ++ waiting_threads cs)
  unfolding fresh_solutions waiting_threads
  queue-alone [] p n there enough =
      alone-nothing n p
      ∙ emptied-ap p (omega arith) (sym (append-nil p.sent)) (sym (append-nil p.delivered))
          (sym (append-nil p.answered))
  queue-alone (c ∷ cs) p zero there enough = absurd (omega arith)
  queue-alone (c ∷ cs) p (suc zero) there enough = absurd (omega arith)
  queue-alone (c ∷ cs) p (suc (suc zero)) there enough = absurd (omega arith)
  queue-alone (c ∷ cs) p (suc (suc (suc zero))) there enough = absurd (omega arith)
  queue-alone (c ∷ cs) p (suc (suc (suc (suc n)))) (one, rest) enough =
      let (k, more, first) = one_command p c cs n one in
      let fresh = fresh_solutions p.suspended p.reauth_epoch in
      let joined = λ (old : List Solution).
        append_assoc old (fresh (c ∷ [])) (fresh cs)
        ∙ ap (◌++◌ old) (sym (fresh_first p.suspended p.reauth_epoch c cs)) in
      first
      ∙ queue-alone cs (after p cs (fresh (c ∷ [])) (waiting_threads (c ∷ []))) k rest
          (omega (arith, more, enough))
      ∙ emptied-ap p (omega arith) (joined p.sent) (joined p.delivered) (
          append_assoc p.answered (waiting_threads (c ∷ [])) (waiting_threads cs)
          ∙ ap (◌++◌ p.answered) (sym (waiting_first c cs)))

  -- With a stratum, memory, and a connection on which every line goes out, the I/O thread that waits for
  -- a command, with no NULL in its queue, and then runs alone is through with its queue after four
  -- events for each command, and waits again. It has then sent, in their order and once each, and
  -- delivered, the solutions of the program's epoch or later by their own number and by the command's
  -- token, or none while submissions are suspended; it has answered each request for work.
  pub alone-emptied :
      (p : Program) (n : ℕ)
      → p.hand ≡ idle
      → All IsCommand p.queue
      → 4 * length p.queue ≤ n
      → let fresh = fresh_solutions p.suspended p.reauth_epoch p.queue in
        alone n p
        ≡ emptied p
            (p.served + length p.queue)
            (p.sent ++ fresh)
            (p.delivered ++ fresh)
            (p.answered ++ waiting_threads p.queue)
  alone-emptied p n at there enough =
      ap (λ h. alone n (record p { hand = h })) at ∙ queue-alone p.queue p n there enough
