-- ===== src/Submit/Commands.antt =====
-- soj.c: what an event of the I/O thread does to the commands that wait.
use soj_civic_light.Prelude.{
  choice, ℕ, suc, ◌+◌, ◌*◌, ◌≤◌, ◌≡◌, sym, ap, subst, Bool, true, ◌⊎◌, inl, inr, List, [], ◌∷◌,
  arith, ltb,
}
use soj_civic_light.Submit.Others.{commands}
use soj_civic_light.Submit.{
  Solution, Command, wc_get_work, wc_submit_work, Hand, idle, asking, taken, allowed, checked,
  ended, Program, done, take_command, check_suspended, check_epoch, Event, solved, requested,
  raised, stopped, resumed, closed, no_command, closes, ends, worked,
}

-- The events of the I/O thread.
unfoldable pub turns : List Event → ℕ
turns [] = 0
turns (worked aligned sends ∷ es) = turns es + 1
turns (e ∷ es) = turns es

-- There is memory for a work whenever the I/O thread asks for it.
abbrev pub HasMemory : Event → Type 0
HasMemory (worked aligned sends) = aligned ≡ true
HasMemory (solved calloc aligned entry work) = Unit
HasMemory (requested calloc entry thr) = Unit
HasMemory (closed entry) = Unit
HasMemory raised = Unit
HasMemory stopped = Unit
HasMemory resumed = Unit

abbrev pub IsAlive : Hand → Type 0
IsAlive ended = ⊥
IsAlive idle = Unit
IsAlive (asking thr failures) = Unit
IsAlive (taken work token) = Unit
IsAlive (allowed work token) = Unit
IsAlive (checked work token) = Unit

-- The events that the command in hand still takes, and whether there is one.
abbrev pub weight : Hand → ℕ
weight idle = 0
weight (asking thr failures) = 1
weight (taken work token) = 3
weight (allowed work token) = 2
weight (checked work token) = 1
weight ended = 0

abbrev pub busy : Hand → ℕ
busy idle = 0
busy (asking thr failures) = 1
busy (taken work token) = 1
busy (allowed work token) = 1
busy (checked work token) = 1
busy ended = 0

pub busy_le : (h : Hand) → busy h ≤ weight h
busy_le idle = omega arith
busy_le (asking thr failures) = omega arith
busy_le (taken work token) = omega arith
busy_le (allowed work token) = omega arith
busy_le (checked work token) = omega arith
busy_le ended = omega arith

-- `q` follows `p`, of whose queue the first `m` commands and the one in hand are watched; `cost` events
-- of the I/O thread lie between.
pub record Serves (cost : ℕ) (p : Program) (m : ℕ) (q : Program) : Type 0 where
  pub left : ℕ
  pub room : left ≤ commands q.queue
  pub kept : p.served + m + busy p.hand ≤ q.served + left + busy q.hand
  pub less :
      (IsAlive q.hand × (4 * left + weight q.hand + cost ≤ 4 * m + weight p.hand))
      ⊎ (4 * m + weight p.hand ≡ 0)
  pub mono : p.served ≤ q.served

pub others :
    (p q : Program) (m : ℕ)
    → IsAlive p.hand
    → m ≤ commands p.queue
    → q.hand ≡ p.hand
    → q.served ≡ p.served
    → commands p.queue ≤ commands q.queue
    → Serves 0 p m q
others p q m alive room hand served queue = record {
  left = m;
  room = omega (arith, queue);
  kept = omega (arith, served, ap busy hand);
  less = inl (subst IsAlive (sym hand) alive, omega (arith, ap weight hand));
  mono = omega (arith, served);
}

-- The command in hand, or the first of the queue, moves on.
pub moves :
    (p q : Program) (m left : ℕ)
    → left ≤ commands q.queue
    → IsAlive q.hand
    → p.served + m + busy p.hand ≤ q.served + left + busy q.hand
    → 4 * left + weight q.hand + 1 ≤ 4 * m + weight p.hand
    → p.served ≤ q.served
    → Serves 1 p m q
moves p q m left room alive kept less mono = record {
  left = left;
  room = room;
  kept = kept;
  less = inl (alive, less);
  mono = mono;
}

pub nothing_watched :
    (p q : Program) (m : ℕ) → m ≡ 0 → p.hand ≡ idle → p.served ≤ q.served → Serves 1 p m q
nothing_watched p q m zero_m at mono = record {
  left = 0;
  room = omega arith;
  kept = omega (arith, zero_m, ap busy at, mono);
  less = inr (omega (arith, zero_m, ap weight at));
  mono = mono;
}

pub take_mono :
    (p : Program) (aligned : Bool) (c : Command) → p.served ≤ (take_command true aligned c p).served
unfolding take_command done ends closes
take_mono p aligned no_command = omega arith
take_mono p aligned (wc_get_work thr) =
    choice (λ (q : Program). p.served ≤ q.served) aligned _ _ (omega arith) (omega arith)
take_mono p aligned (wc_submit_work work token) =
    choice (λ (q : Program). p.served ≤ q.served) (ltb token p.reauth_epoch) _ _ (omega arith)
      (omega arith)

pub first-Serves :
    (p : Program) (m : ℕ) (c : Command) (cs : List Command)
    → p.hand ≡ idle
    → p.queue ≡ c ∷ cs
    → suc m ≤ commands p.queue
    → Serves 1 p (suc m) (take_command true true c (record p { queue = cs }))
unfolding take_command done
first-Serves p m no_command cs at queue room = absurd (omega (arith, ap commands queue, room))
first-Serves p m (wc_get_work thr) cs at queue room =
    let e = ap commands queue in
    moves p _ (suc m) m (omega (arith, e)) tt (omega (arith, ap busy at))
      (omega (arith, ap weight at)) (omega arith)
first-Serves p m (wc_submit_work work token) cs at queue room =
    let e = ap commands queue in
    choice (Serves 1 p (suc m)) (ltb token p.reauth_epoch) _ _
      (moves p _ (suc m) m (omega (arith, e)) tt (omega (arith, ap busy at))
        (omega (arith, ap weight at)) (omega arith))
      (moves p _ (suc m) m (omega (arith, e)) tt (omega (arith, ap busy at))
        (omega (arith, ap weight at)) (omega arith))

pub suspended-Serves :
    (p : Program) (m : ℕ) (work : Solution) (token : ℕ)
    → m ≤ commands p.queue
    → p.hand ≡ taken work token
    → Serves 1 p m (check_suspended true work token p)
unfolding check_suspended done
suspended-Serves p m work token room at =
    choice (Serves 1 p m) p.suspended _ _
      (moves p _ m m room tt (omega (arith, ap busy at)) (omega (arith, ap weight at))
        (omega arith))
      (moves p _ m m room tt (omega (arith, ap busy at)) (omega (arith, ap weight at))
        (omega arith))

pub check_epoch-Serves :
    (p : Program) (m : ℕ) (work : Solution) (token : ℕ)
    → m ≤ commands p.queue
    → p.hand ≡ allowed work token
    → Serves 1 p m (check_epoch true work token p)
unfolding check_epoch done
check_epoch-Serves p m work token room at =
    choice (Serves 1 p m) (ltb work.reauth_epoch p.reauth_epoch) _ _
      (moves p _ m m room tt (omega (arith, ap busy at)) (omega (arith, ap weight at))
        (omega arith))
      (moves p _ m m room tt (omega (arith, ap busy at)) (omega (arith, ap weight at))
        (omega arith))
