-- ===== src/Queue/Tests.antt =====
-- soj_queue.c: a queue that gets two items, and its theorems at it.
use soj_civic_light.Prelude.{
  ℕ, ◌+◌, ◌≤◌, ◌<◌, ◌≡◌, ◌≢◌, refl, true, false, Option, some, List, [], ◌∷◌, arith, length,
}
use mathlib.Core.Option.{some-injective}
use soj_civic_light.Queue.Ring.{Apart}
use soj_civic_light.Queue.Refine.{Fifo, Rep, fifo_push, push-Rep}
use soj_civic_light.Queue.Pop.{fifo_pop, pop-Rep, tq_free-blocks}
use soj_civic_light.Queue.{
  Links, ThreadQ, init_list_head, Op, pushes, freezes, tq_push, tq_pop, tq_free, popped,
}

abbrev total : List ℕ → ℕ
total [] = 1
total (x ∷ xs) = x + total xs

abbrev calloc : List ℕ → Option ℕ
calloc live = some (total live)

total_pos : (xs : List ℕ) → 0 < total xs
total_pos [] = omega arith
total_pos (x ∷ xs) = omega (arith, total_pos xs)

above : (n : ℕ) (xs : List ℕ) → total xs ≤ n → Apart n xs
above n [] h = tt
above n (x ∷ xs) h = ((λ e. absurd (omega (arith, total_pos xs))), above n xs (omega arith))

new_block : (live : List ℕ) (a : ℕ) → calloc live ≡ some a → Apart a live × (a ≢ 0)
new_block live a h =
    let e = some-injective _ _ h in
    (above a live (omega arith), λ z. absurd (omega (arith, total_pos live)))

abbrev nowhere : Links
nowhere = record { next = λ x. 0; prev = λ x. 0 }

abbrev start : ThreadQ
start = record {
  head = 1;
  links = init_list_head 1 nowhere;
  data_of = λ x. 0;
  live = 1 ∷ [];
  frozen = false;
  stop = false;
}

abbrev empty : Fifo
empty = record { items = []; frozen = false; stop = false }

start_holds : Rep start empty
unfolding init_list_head
start_holds = (
  [],
  record {
    ring = (refl, refl);
    blocks = refl;
    distinct = (tt, tt);
    nonnull = ((λ e. absurd (omega arith)), tt);
    data_items = refl;
    same_frozen = refl;
    same_stop = refl;
  },
)

push_seven : Rep (tq_push calloc 7 start).0 (fifo_push 7 true empty).0
push_seven = (push-Rep calloc new_block 7 start empty start_holds).0

push-Rep_example :
    Rep (tq_push calloc 7 start).0 (fifo_push 7 true empty).0
    × ((tq_push calloc 7 start).1 ≡ (fifo_push 7 true empty).1)
push-Rep_example = push-Rep calloc new_block 7 start empty start_holds

-- A pop of the empty queue that waits while another thread pushes 7 and freezes the queue.
abbrev waits : List (ℕ × List Op)
waits = (0, pushes 7 ∷ freezes ∷ []) ∷ []

pop_pushed : (tq_pop calloc waits start).0 ≡ popped 7
unfolding tq_pop init_list_head
pop_pushed = refl

pop-Rep_example :
    ((tq_pop calloc waits start).0 ≡ (fifo_pop waits empty).0)
    × Rep (tq_pop calloc waits start).1 (fifo_pop waits empty).1
pop-Rep_example = pop-Rep calloc new_block (λ live. refl) waits start empty start_holds

one_item : length (fifo_push 7 true empty).0.items ≤ 1
unfolding fifo_push
one_item = omega arith

tq_free-blocks_example : (tq_free calloc 1 (tq_push calloc 7 start).0).live ≡ []
tq_free-blocks_example =
    tq_free-blocks calloc 1 (tq_push calloc 7 start).0 (fifo_push 7 true empty).0 push_seven
      one_item
