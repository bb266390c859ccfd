-- ===== src/Submit/Others.antt =====
-- soj.c: what a mining thread leaves alone when it hands the I/O thread a command.
use soj_civic_light.Prelude.{
  choice, ℕ, ◌≤◌, ◌≡◌, refl, Bool, true, false, not, ◌&&◌, [], ◌∷◌, ◌++◌, arith, ◌+◌, List,
}
use soj_civic_light.Submit.{
  Solution, Command, no_command, wc_get_work, wc_submit_work, Program, push, submit_work,
  request_work, update_submit_stats, submit_solution,
}

-- How many commands come before the first NULL.
abbrev pub commands : List Command → ℕ
commands [] = 0
commands (no_command ∷ cs) = 0
commands (wc_get_work thr ∷ cs) = commands cs + 1
commands (wc_submit_work work token ∷ cs) = commands cs + 1

commands-append : (cs : List Command) (c : Command) → commands cs ≤ commands (cs ++ (c ∷ []))
commands-append [] c = omega arith
commands-append (no_command ∷ cs) c = omega arith
commands-append (wc_get_work thr ∷ cs) c = omega (arith, commands-append cs c)
commands-append (wc_submit_work work token ∷ cs) c = omega (arith, commands-append cs c)

pub record Untouched (p q : Program) : Type 0 where
  pub hand : q.hand ≡ p.hand
  pub sent : q.sent ≡ p.sent
  pub epoch : q.reauth_epoch ≡ p.reauth_epoch
  pub served : q.served ≡ p.served
  pub queue : commands p.queue ≤ commands q.queue

pub untouched : (p : Program) → Untouched p p
untouched p = record { hand = refl; sent = refl; epoch = refl; served = refl; queue = omega arith }

pub push-Untouched : (entry : Bool) (c : Command) (p : Program) → Untouched p (push entry c p).1
unfolding push
push-Untouched entry c p =
    choice (λ (r : Bool × Program). Untouched p r.1) (entry && not p.frozen)
      (true, record p { queue = p.queue ++ (c ∷ []) }) (false, p)
      (record {
        hand = refl;
        sent = refl;
        epoch = refl;
        served = refl;
        queue = commands-append p.queue c;
      })
      (untouched p)

module _ (have_stratum : Bool) where
  pub solution-Untouched :
      (calloc aligned entry : Bool) (work : Solution) (p : Program)
      → Untouched p (submit_solution have_stratum calloc aligned entry work p).1
  unfolding submit_solution submit_work update_submit_stats
  solution-Untouched calloc aligned entry work p =
      let (queued, next) = submit_work calloc aligned entry work p in
      let h : Untouched p next =
        choice (λ (r : Bool × Program). Untouched p r.1) (calloc && aligned) _ (false, p)
          (push-Untouched entry _ p) (untouched p) in
      choice (λ (r : Bool × Program). Untouched p r.1) queued
        (true, update_submit_stats have_stratum work next) (false, next)
        (record {
          hand = h.hand;
          sent = h.sent;
          epoch = h.epoch;
          served = h.served;
          queue = h.queue;
        })
        h

pub request-Untouched :
    (calloc entry : Bool) (thr : ℕ) (p : Program) → Untouched p (request_work calloc entry thr p).1
unfolding request_work
request-Untouched calloc entry thr p =
    choice (λ (r : Bool × Program). Untouched p r.1) calloc _ (false, p) (push-Untouched entry _ p)
      (untouched p)
