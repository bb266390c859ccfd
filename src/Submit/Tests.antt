-- ===== src/Submit/Tests.antt =====
-- soj.c: the theorems at a small program, whose epoch is raised once.
use soj_civic_light.Prelude.{
  ℕ, ◌≤◌, ◌≡◌, refl, true, false, ◌⊎◌, none, List, [], ◌∷◌, ◌++◌, arith, length, All, replicate,
}
use soj_civic_light.Header.{Share}
use soj_civic_light.Submit.Epochs.{raises}
use soj_civic_light.Submit.Renewal.{raise_epoch-Sent}
use soj_civic_light.Submit.Served.{run-served}
use soj_civic_light.Submit.Commands.{turns}
use soj_civic_light.Submit.Shares.{fresh_solutions, waiting_threads, alone, emptied, alone-emptied}
use soj_civic_light.Submit.{
  Solution, no_command, ended, wc_get_work, wc_submit_work, idle, checked, Program, Event, solved,
  raised, worked, raise_epoch, run, no_stats,
}

abbrev share : Share
share = record { words = []; job_id = 97 ∷ []; xnonce2 = []; user = [] }

abbrev made_at : ℕ → Solution
made_at epoch = record { share = share; height = 5; reauth_epoch = epoch }

abbrev program : Program
program = record {
  reauth_epoch = 3;
  suspended = false;
  queue = wc_submit_work (made_at 2) 2 ∷ wc_get_work 7 ∷ wc_submit_work (made_at 3) 3 ∷ [];
  frozen = false;
  hand = idle;
  served = 0;
  sent = [];
  delivered = [];
  answered = [];
  submitted_share_count = 0;
  share_stats = replicate 256 no_stats;
  s_put_ptr = 255;
}

abbrev alone_events : List Event
alone_events = replicate 12 (worked true true)

-- The old solution is dropped, the new one is sent.
sent_alone : (run true none alone_events program).sent ≡ made_at 3 ∷ []
unfolding run
sent_alone = refl

-- A solution is queued and counted in the last slot, and the pointer goes back to the first.
counted :
    let p = run true none (solved true true true (made_at 3) ∷ []) program in
    (length p.queue ≡ 4) × (p.submitted_share_count ≡ 1) × (p.s_put_ptr ≡ 0)
unfolding run
counted = (refl, refl, refl)

alone-emptied_example :
    alone none 12 program ≡ emptied none program 3 (made_at 3 ∷ []) (made_at 3 ∷ []) (7 ∷ [])
unfolding fresh_solutions waiting_threads
alone-emptied_example = alone-emptied none program 12 refl (tt, (tt, (tt, tt))) (omega arith)

-- A NULL ends the thread, and the command behind it stays.
closed_at_once :
    let p =
      run true none
        (worked true true ∷ worked true true ∷ [])
        (record program { queue = no_command ∷ wc_get_work 7 ∷ [] }) in
    (p.hand ≡ ended) × (p.frozen ≡ true) × (p.served ≡ 0) × (length p.queue ≡ 1)
unfolding run
closed_at_once = (refl, refl, refl, refl)

abbrev in_order : List Event
in_order =
    worked true true ∷ solved true true true (made_at 3) ∷ raised ∷ replicate 11 (worked true true)

run-served_example : 3 ≤ (run true none in_order program).served
unfolding turns
run-served_example =
    run-served none program 3 in_order
      (
        refl,
        (
          tt,
          (
            tt,
            (
              refl,
              (refl, (refl, (refl, (refl, (refl, (refl, (refl, (refl, (refl, (refl, tt)))))))))),
            ),
          ),
        ),
      )
      tt (omega arith) (omega arith)

abbrev at_the_raise : Program
at_the_raise = record program { hand = checked (made_at 3) 3 }

raise_epoch-Sent_example :
    let q = run true none in_order (raise_epoch at_the_raise) in
    (old : List Solution) × (more : List Solution) × (q.sent ≡ old ++ more)
    × ((old ≡ []) ⊎ (old ≡ made_at 3 ∷ []))
    × All (λ w. 4 ≤ w.reauth_epoch) more
unfolding raises
raise_epoch-Sent_example = raise_epoch-Sent true none at_the_raise in_order (omega arith)
