-- ===== src/Submit/Served.antt =====
-- soj.c: every command in the queue of the I/O thread has its turn.
use soj_civic_light.Prelude.{
  ℕ, zero, suc, ◌+◌, ◌*◌, ◌≤◌, ◌≡◌, refl, ap, Bool, true, ◌⊎◌, inl, inr, Option, List, [], ◌∷◌,
  arith, All,
}
use soj_civic_light.Submit.Others.{commands, push-Untouched, solution-Untouched, request-Untouched}
use soj_civic_light.Submit.{
  Command, Hand, idle, asking, taken, allowed, checked, ended, Program, done, next_command,
  ask_upstream, workio_step, work_on, Event, solved, requested, raised, stopped, resumed, closed,
  no_command, worked, raise_epoch, step, run,
}
use soj_civic_light.Submit.Commands.{
  HasMemory, IsAlive, weight, busy, busy_le, Serves, others, moves, nothing_watched, take_mono,
  first-Serves, suspended-Serves, check_epoch-Serves, turns,
}

module _ (opt_retries : Option ℕ) where
  next-Serves :
      (p : Program) (m : ℕ) (cs : List Command)
      → p.hand ≡ idle
      → p.queue ≡ cs
      → m ≤ commands p.queue
      → Serves 1 p m (next_command true true cs p)
  unfolding next_command
  next-Serves p m [] at queue room =
      nothing_watched p p m (omega (arith, ap commands queue)) at (omega arith)
  next-Serves p zero (c ∷ cs) at queue room =
      nothing_watched p _ 0 refl at (take_mono (record p { queue = cs }) true c)
  next-Serves p (suc m) (c ∷ cs) at queue room = first-Serves p m c cs at queue room

  work_on-Serves :
      (p : Program) (m : ℕ) (sends : Bool) (hand : Hand)
      → p.hand ≡ hand
      → IsAlive hand
      → m ≤ commands p.queue
      → Serves 1 p m (work_on true opt_retries true sends hand p)
  unfolding work_on ask_upstream done
  work_on-Serves p m sends idle at alive room = next-Serves p m p.queue at refl room
  work_on-Serves p m sends (asking thr failures) at alive room =
      moves p _ m m room tt (omega (arith, ap busy at)) (omega (arith, ap weight at)) (omega arith)
  work_on-Serves p m sends (taken work token) at alive room =
      suspended-Serves p m work token room at
  work_on-Serves p m sends (allowed work token) at alive room =
      check_epoch-Serves p m work token room at
  work_on-Serves p m sends (checked work token) at alive room =
      moves p _ m m room tt (omega (arith, ap busy at)) (omega (arith, ap weight at)) (omega arith)
  work_on-Serves p m sends ended at alive room = absurd alive

  step-Serves :
      (p : Program) (m : ℕ) (event : Event)
      → HasMemory event
      → IsAlive p.hand
      → m ≤ commands p.queue
      → Serves (turns (event ∷ [])) p m (step true opt_retries event p)
  unfolding step raise_epoch workio_step turns
  step-Serves p m (solved calloc aligned entry work) memory alive room =
      let h = solution-Untouched true calloc aligned entry work p in
      others p _ m alive room h.hand h.served h.queue
  step-Serves p m (requested calloc entry thr) memory alive room =
      let h = request-Untouched calloc entry thr p in
      others p _ m alive room h.hand h.served h.queue
  step-Serves p m raised memory alive room = others p _ m alive room refl refl (omega arith)
  step-Serves p m stopped memory alive room = others p _ m alive room refl refl (omega arith)
  step-Serves p m resumed memory alive room = others p _ m alive room refl refl (omega arith)
  step-Serves p m (closed entry) memory alive room =
      let h = push-Untouched entry no_command p in others p _ m alive room h.hand h.served h.queue
  step-Serves p m (worked aligned sends) memory alive room =
      rw memory (work_on-Serves p m sends p.hand refl alive room)

  turns_split :
      (event : Event) (es : List Event) → turns (event ∷ es) ≡ turns (event ∷ []) + turns es
  unfolding turns
  turns_split (solved calloc aligned entry work) es = omega arith
  turns_split (requested calloc entry thr) es = omega arith
  turns_split raised es = omega arith
  turns_split stopped es = omega arith
  turns_split resumed es = omega arith
  turns_split (closed entry) es = omega arith
  turns_split (worked aligned sends) es = omega arith

  IsAlive-cases : (h : Hand) → IsAlive h ⊎ (h ≡ ended)
  IsAlive-cases ended = inr refl
  IsAlive-cases idle = inl tt
  IsAlive-cases (asking thr failures) = inl tt
  IsAlive-cases (taken work token) = inl tt
  IsAlive-cases (allowed work token) = inl tt
  IsAlive-cases (checked work token) = inl tt

  ended_mono :
      (p : Program) (event : Event)
      → p.hand ≡ ended
      → p.served ≤ (step true opt_retries event p).served
  unfolding step raise_epoch workio_step work_on
  ended_mono p (solved calloc aligned entry work) at =
      omega (arith, (solution-Untouched true calloc aligned entry work p).served)
  ended_mono p (requested calloc entry thr) at =
      omega (arith, (request-Untouched calloc entry thr p).served)
  ended_mono p raised at = omega arith
  ended_mono p stopped at = omega arith
  ended_mono p resumed at = omega arith
  ended_mono p (closed entry) at = omega (arith, (push-Untouched entry no_command p).served)
  ended_mono p (worked aligned sends) at = rw (at, work_on) (omega arith)

  served_mono :
      (p : Program) (es : List Event)
      → All HasMemory es
      → p.served ≤ (run true opt_retries es p).served
  unfolding run
  served_mono p [] memory = omega arith
  served_mono p (event ∷ es) (memory, rest) =
      let later = served_mono (step true opt_retries event p) es rest in
      elim (IsAlive-cases p.hand) [
        | inl alive ↦ omega (arith, (step-Serves p 0 event memory alive (omega arith)).mono, later)
        | inr at ↦ omega (arith, ended_mono p event at, later)
      ]

  -- With a stratum, and memory for a work where one is asked for, while the I/O thread has not ended, in
  -- every order of the threads' events: once it has had four events for each of the first `m` commands in
  -- its queue, none of which is NULL, and those that the command in its hand still takes, three at most,
  -- it is done with all of these commands.
  pub run-served :
      (p : Program) (m : ℕ) (es : List Event)
      → All HasMemory es
      → IsAlive p.hand
      → m ≤ commands p.queue
      → 4 * m + weight p.hand ≤ turns es
      → p.served + m + busy p.hand ≤ (run true opt_retries es p).served
  unfolding run turns
  run-served p m [] memory alive room enough = omega (arith, busy_le p.hand)
  run-served p m (event ∷ es) (memory, rest) alive room enough =
      let q = step true opt_retries event p in
      let h = step-Serves p m event memory alive room in
      elim h.less [
        | inl (live, less) ↦ omega (
          arith,
          h.kept,
          run-served q h.left es rest live h.room
              (omega (arith, turns_split event es, less, enough)),
        )
        | inr nothing ↦ omega (arith, nothing, busy_le p.hand, h.mono, served_mono q es rest)
      ]
