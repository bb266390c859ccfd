-- ===== src/Submit.antt =====
-- soj.c: the way of a solution from a mining thread through the queue of the I/O thread to the pool,
-- `submit_solution`, `submit_work`, `get_work`, `workio_thread` and the functions they call. The threads
-- run as one sequence of events: the I/O thread takes one for each part of a command between two reads
-- of what other threads write, and the others one for each operation. The queue is the list that
-- Queue.antt's ring implements. `enforce_backoff_wait_if_needed`, which is Backoff.antt's, changes
-- nothing here: its wait lies between the test of a token and the next test. Left out: the blocks that
-- a command owns, the log, and the difficulties in floating point.
pub mod Commands
pub mod Epochs
pub mod Others
pub mod Renewal
pub mod Served
pub mod Shares
mod Tests
use soj_civic_light.Prelude.{
  ℕ, zero, suc, ◌+◌, ◌%◌, ◌^◌, Bool, true, false, not, ◌&&◌, Option, none, some, List, [], ◌∷◌,
  ◌++◌, ltb, if◌then◌else◌, length, get_or, set, take,
}
use soj_civic_light.Header.{Share}

-- A work with a solution. `reauth_epoch` is the program's epoch when the work was made.
pub record Solution : Type 0 where
  pub share : Share
  pub height : ℕ
  pub reauth_epoch : ℕ

-- `struct workio_cmd`, by its `cmd`, or the NULL that the stratum thread pushes. Threads are numbers.
pub data Command : Type 0 where
  no_command : Command
  wc_get_work : ℕ → Command
  wc_submit_work : (work : Solution) → (epoch_token : ℕ) → Command

-- Where the I/O thread stands: it waits for a command, asks for work after some failures, has a
-- solution that passed the test of its token, has one that found submissions not suspended too, has
-- one that passed all tests, or has ended.
pub data Hand : Type 0 where
  idle : Hand
  asking : (thr failures : ℕ) → Hand
  taken : Solution → ℕ → Hand
  allowed : Solution → ℕ → Hand
  checked : Solution → ℕ → Hand
  ended : Hand

-- `struct share_stats_t` without its doubles and its time.
pub record ShareStats : Type 0 where
  pub share_count : ℕ
  pub height : ℕ
  pub job_id : List ℕ

-- `served` counts the commands that the I/O thread is done with, `sent` has the solutions that it gave
-- to `stratum_send_line`, `delivered` those for which the result was true, and `answered` the threads
-- that it pushed a work for.
pub record Program : Type 0 where
  pub reauth_epoch : ℕ
  pub suspended : Bool
  pub queue : List Command
  pub frozen : Bool
  pub hand : Hand
  pub served : ℕ
  pub sent : List Solution
  pub delivered : List Solution
  pub answered : List ℕ
  pub submitted_share_count : ℕ
  pub share_stats : List ShareStats
  pub s_put_ptr : ℕ

-- `tq_push` to the I/O thread. `entry` is whether there is memory for the entry.
pub push : (entry : Bool) → Command → Program → Bool × Program
push entry command p =
    if entry && not p.frozen
    then (true, record p { queue = p.queue ++ (command ∷ []) })
    else (false, p)

pub submit_work : (calloc aligned entry : Bool) → Solution → Program → Bool × Program
unfolding push
submit_work calloc aligned entry work p =
    if calloc && aligned then push entry (wc_submit_work work p.reauth_epoch) p else (false, p)

-- The request of `get_work`, before it waits for the answer.
pub request_work : (calloc entry : Bool) → (thr : ℕ) → Program → Bool × Program
unfolding push
request_work calloc entry thr p = if calloc then push entry (wc_get_work thr) p else (false, p)

pub stats_ptr_incr : ℕ → ℕ
stats_ptr_incr p = (p + 1) % 256

abbrev pub no_stats : ShareStats
no_stats = record { share_count = 0; height = 0; job_id = [] }

-- The command is freed and the next one awaited, whatever became of it.
pub done : Program → Program
done p = record p { hand = idle; served = p.served + 1 }

-- The loop ends without a command.
pub closes : Program → Program
closes p = record p { hand = ended; frozen = true }

-- The loop ends, with a freeze of the queue.
pub ends : Program → Program
ends p = record p { hand = ended; frozen = true; served = p.served + 1 }

module _ (have_stratum : Bool) where
  -- The slot keeps its old job where there is no stratum.
  pub update_submit_stats : Solution → Program → Program
  unfolding stats_ptr_incr
  update_submit_stats work p =
      let count = (p.submitted_share_count + 1) % 2 ^ 32 in
      let old = get_or p.share_stats p.s_put_ptr no_stats in
      let entry : ShareStats = record {
        share_count = count;
        height = work.height;
        job_id = if have_stratum then take 30 work.share.job_id else old.job_id;
      } in
      record p {
        submitted_share_count = count;
        share_stats = set p.share_stats p.s_put_ptr entry;
        s_put_ptr = stats_ptr_incr p.s_put_ptr;
      }

  pub submit_solution : (calloc aligned entry : Bool) → Solution → Program → Bool × Program
  unfolding submit_work update_submit_stats
  submit_solution calloc aligned entry work p =
      let (queued, next) = submit_work calloc aligned entry work p in
      if queued then (true, update_submit_stats work next) else (false, next)

  pub take_command : (aligned : Bool) → Command → Program → Program
  unfolding done ends closes
  take_command aligned no_command p = closes p
  take_command aligned (wc_get_work thr) p =
      if aligned then record p { hand = asking thr 0 } else ends p
  take_command aligned (wc_submit_work work epoch_token) p =
      if ltb epoch_token p.reauth_epoch then done p else record p { hand = taken work epoch_token }

  -- One turn of the loop of `workio_get_work`. `opt_retries` is none where it is negative.
  pub ask_upstream : (opt_retries : Option ℕ) → (thr failures : ℕ) → Program → Program
  unfolding done ends
  ask_upstream opt_retries thr failures p =
      let again = record p { hand = asking thr (failures + 1) } in
      if have_stratum
      then done (record p { answered = p.answered ++ (thr ∷ []) })
      else elim opt_retries [
        | none ↦ again
        | some limit ↦ if ltb limit (failures + 1) then ends p else again
      ]

  -- The first tests of `submit_upstream_work`. Its result is not used.
  pub check_suspended : Solution → ℕ → Program → Program
  unfolding done
  check_suspended work token p =
      if not have_stratum
      then done p
      else if p.suspended
      then done p
      else record p { hand = allowed work token }

  -- Its last test, of the epoch that it then reads.
  pub check_epoch : Solution → ℕ → Program → Program
  unfolding done
  check_epoch work token p =
      if ltb work.reauth_epoch p.reauth_epoch
      then done p
      else record p { hand = checked work token }

  pub next_command : (aligned : Bool) → List Command → Program → Program
  unfolding take_command
  next_command aligned [] p = p
  next_command aligned (c ∷ cs) p = take_command aligned c (record p { queue = cs })

  -- `sends` is the result of `stratum_send_line`.
  pub work_on : (opt_retries : Option ℕ) → (aligned sends : Bool) → Hand → Program → Program
  unfolding next_command ask_upstream check_suspended check_epoch done
  work_on opt_retries aligned sends idle p = next_command aligned p.queue p
  work_on opt_retries aligned sends (asking thr failures) p =
      ask_upstream opt_retries thr failures p
  work_on opt_retries aligned sends (taken work token) p = check_suspended work token p
  work_on opt_retries aligned sends (allowed work token) p = check_epoch work token p
  work_on opt_retries aligned sends (checked work token) p = done (record p {
    sent = p.sent ++ (work ∷ []);
    delivered = if sends then p.delivered ++ (work ∷ []) else p.delivered;
  })
  work_on opt_retries aligned sends ended p = p

  -- The next part of `workio_thread`.
  pub workio_step : (opt_retries : Option ℕ) → (aligned sends : Bool) → Program → Program
  unfolding work_on
  workio_step opt_retries aligned sends p = work_on opt_retries aligned sends p.hand p

-- What the threads do next: a mining thread has a solution or asks for work, the stratum thread raises
-- the epoch, suspends submissions, resumes them or pushes NULL as it ends, and the I/O thread does its
-- next part.
pub data Event : Type 0 where
  solved : (calloc aligned entry : Bool) → Solution → Event
  requested : (calloc entry : Bool) → (thr : ℕ) → Event
  raised : Event
  stopped : Event
  resumed : Event
  closed : (entry : Bool) → Event
  worked : (aligned sends : Bool) → Event

-- `atomic_fetch_add(&reauth_epoch, 1)`, which follows the renewal of the session after an error of the
-- pool. The other renewals leave the epoch alone.
pub raise_epoch : Program → Program
raise_epoch p = record p { reauth_epoch = (p.reauth_epoch + 1) % 2 ^ 64 }

module _ (have_stratum : Bool) (opt_retries : Option ℕ) where
  pub step : Event → Program → Program
  unfolding submit_solution request_work push raise_epoch workio_step
  step (solved calloc aligned entry work) p =
      (submit_solution have_stratum calloc aligned entry work p).1
  step (requested calloc entry thr) p = (request_work calloc entry thr p).1
  step raised p = raise_epoch p
  step stopped p = record p { suspended = true }
  step resumed p = record p { suspended = false }
  step (closed entry) p = (push entry no_command p).1
  step (worked aligned sends) p = workio_step have_stratum opt_retries aligned sends p

  pub run : List Event → Program → Program
  unfolding step
  run [] p = p
  run (e ∷ es) p = run es (step e p)
