-- ===== src/Queue.antt =====
-- elist.h and soj_queue.c: the doubly linked list in memory and the thread queue on it. An entry and
-- its `q_node` are named by one address, and 0 is NULL.
pub mod Ring
pub mod Refine
pub mod Pop
mod Tests
use soj_civic_light.Prelude.{
  ℕ, zero, suc, Bool, true, false, not, ◌&&◌, ◌||◌, Option, none, some, List, [], ◌∷◌, ◌++◌, ◌==◌,
  if◌then◌else◌,
}

abbrev pub update : (ℕ → ℕ) → ℕ → ℕ → ℕ → ℕ
update f a v x = if x == a then v else f x

-- The `next` and `prev` field at each address.
pub record Links : Type 0 where
  pub next : ℕ → ℕ
  pub prev : ℕ → ℕ

abbrev pub set_next : ℕ → ℕ → Links → Links
set_next a v m = record m { next = update m.next a v }

abbrev pub set_prev : ℕ → ℕ → Links → Links
set_prev a v m = record m { prev = update m.prev a v }

-- `INIT_LIST_HEAD`.
pub init_list_head : ℕ → Links → Links
init_list_head p m = set_prev p p (set_next p p m)

-- `__list_add`.
pub insert_between : (node before after : ℕ) → Links → Links
insert_between node before after m =
    set_next before node (set_prev node before (set_next node after (set_prev after node m)))

pub list_add_tail : (node head : ℕ) → Links → Links
unfolding insert_between
list_add_tail node head m = insert_between node (m.prev head) head m

-- `__list_del`.
pub join : (before after : ℕ) → Links → Links
join before after m = set_next before after (set_prev after before m)

pub list_del : ℕ → Links → Links
unfolding join
list_del entry m = set_prev entry 0 (set_next entry 0 (join (m.prev entry) (m.next entry) m))

pub list_empty : ℕ → Links → Bool
list_empty head m = m.next head == head

-- A `thread_q` at the address `head`, the `data` of the entries, and the blocks of memory that the
-- queue has allocated, oldest first.
pub record ThreadQ : Type 0 where
  pub head : ℕ
  pub links : Links
  pub data_of : ℕ → ℕ
  pub live : List ℕ
  pub frozen : Bool
  pub stop : Bool

pub free : ℕ → List ℕ → List ℕ
free a [] = []
free a (x ∷ xs) = if x == a then xs else x ∷ free a xs

-- What another thread does to the queue.
pub data Op : Type 0 where
  pushes : ℕ → Op
  freezes : Op
  stops : Op

-- `corrupt` is a NULL after a message on a corrupted list, `waiting` a pop that still waits.
pub data Popped : Type 0 where
  popped : ℕ → Popped
  null : Popped
  corrupt : Popped
  waiting : Popped

-- `calloc` for a block: given the blocks in use, the address of another, or none for want of memory.
module _ (calloc : List ℕ → Option ℕ) where
  pub tq_new : Links → (ℕ → ℕ) → Option ThreadQ
  unfolding init_list_head
  tq_new m data_of = elim (calloc []) [
    | none ↦ none
    | some tq ↦ some record {
      head = tq;
      links = init_list_head tq m;
      data_of = data_of;
      live = tq ∷ [];
      frozen = false;
      stop = false;
    }
  ]

  pub tq_freezethaw : Bool → ThreadQ → ThreadQ
  tq_freezethaw frozen q = record q { frozen = frozen }

  pub tq_freeze : ThreadQ → ThreadQ
  unfolding tq_freezethaw
  tq_freeze q = tq_freezethaw true q

  pub tq_push : ℕ → ThreadQ → ThreadQ × Bool
  unfolding list_add_tail init_list_head free
  tq_push x q = elim (calloc q.live) [
    | none ↦ (q, false)
    | some ent ↦
        let q1 = record q {
          live = q.live ++ (ent ∷ []);
          data_of = update q.data_of ent x;
          links = init_list_head ent q.links;
        } in
        if not q.frozen
        then (record q1 { links = list_add_tail ent q.head q1.links }, true)
        else (record q1 { live = free ent q1.live }, false)
  ]

  pub run_op : Op → ThreadQ → ThreadQ
  unfolding tq_push tq_freeze
  run_op (pushes x) q = (tq_push x q).0
  run_op freezes q = tq_freeze q
  run_op stops q = record q { stop = true }

  pub run_ops : List Op → ThreadQ → ThreadQ
  unfolding run_op
  run_ops [] q = q
  run_ops (op ∷ ops) q = run_ops ops (run_op op q)

  -- An entry and the node in it share one number, which is not 0 behind the first two tests, so that
  -- the test of what `list_entry` gives fails.
  pub take_first : ThreadQ → Popped × ThreadQ
  unfolding list_empty list_del free
  take_first q =
      let ent = q.links.next q.head in
      if list_empty q.head q.links
      then (null, q)
      else if q.links.next q.head == 0 || q.links.prev q.head == 0
      then (corrupt, q)
      else if q.links.next q.head == q.head
      then (corrupt, q)
      else (
        popped (q.data_of ent),
        record q { links = list_del ent q.links; live = free ent q.live },
      )

  -- Each wait ends with a return code, after other threads have run.
  pub tq_pop : List (ℕ × List Op) → ThreadQ → Popped × ThreadQ
  unfolding list_empty take_first run_ops
  tq_pop [] q = if list_empty q.head q.links && not q.stop then (waiting, q) else take_first q
  tq_pop ((rc, ops) ∷ waits) q =
      let woken = run_ops ops q in
      let rest = tq_pop waits woken in
      if list_empty q.head q.links && not q.stop
      then (if not (rc == 0) then (null, woken) else rest)
      else take_first q

  -- The loop of `tq_free` over the entries; `iter` is read before `pos` is freed.
  pub free_loop : ℕ → (pos iter : ℕ) → ThreadQ → ThreadQ
  unfolding list_del free
  free_loop zero pos iter q = q
  free_loop (suc fuel) pos iter q =
      let q1 = record q { links = list_del pos q.links; live = free pos q.live } in
      let rest = free_loop fuel iter (q1.links.next iter) q1 in if pos == q.head then q else rest

  pub tq_free : ℕ → ThreadQ → ThreadQ
  unfolding free_loop init_list_head
  tq_free fuel q =
      let pos = q.links.next q.head in
      let q1 = free_loop fuel pos (q.links.next pos) (record q { stop = true }) in
      record q1 { links = init_list_head q.head q1.links; live = free q.head q1.live }
