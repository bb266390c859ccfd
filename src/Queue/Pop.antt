-- ===== src/Queue/Pop.antt =====
-- soj_queue.c: tq_pop with the waits in it, and tq_free.
use soj_civic_light.Prelude.{
  ℕ, zero, suc, ◌≤◌, ◌≡◌, ◌≢◌, refl, sym, ap, ap₂, ◌∙◌, subst, Bool, true, false, not, ◌&&◌, Option,
  some, is_some, List, [], ◌∷◌, map, arith, ◌==◌, ==_iff, if◌then◌else◌, length,
}
use soj_civic_light.Queue.Ring.{Apart, NoDup, Chain, Chain-next, list_del-Chain}
use soj_civic_light.Queue.Refine.{
  free-first, Fifo, Rep, fifo_push, push-Rep, take_first-none, list_empty-some, take_first-some,
}
use soj_civic_light.Queue.{
  ThreadQ, Op, Popped, pushes, freezes, stops, popped, null, waiting, list_empty, list_del, free,
  tq_push, tq_freezethaw, tq_freeze, run_op, run_ops, take_first, tq_pop, free_loop, tq_free,
}

pub fifo_op : Op → Fifo → Fifo
unfolding fifo_push
fifo_op (pushes x) f = (fifo_push x true f).0
fifo_op freezes f = record f { frozen = true }
fifo_op stops f = record f { stop = true }

pub fifo_ops : List Op → Fifo → Fifo
unfolding fifo_op
fifo_ops [] f = f
fifo_ops (op ∷ ops) f = fifo_ops ops (fifo_op op f)

is_empty : List ℕ → Bool
is_empty [] = true
is_empty (x ∷ xs) = false

fifo_first : Fifo → Popped × Fifo
fifo_first f = elim f.items [ [] ↦ (null, f) | x ∷ xs ↦ (popped x, record f { items = xs }) ]

-- A pop of an empty list waits, unless the queue is stopped; a wait that fails gives NULL.
pub fifo_pop : List (ℕ × List Op) → Fifo → Popped × Fifo
unfolding fifo_first fifo_ops is_empty
fifo_pop [] f = if is_empty f.items && not f.stop then (waiting, f) else fifo_first f
fifo_pop ((rc, ops) ∷ waits) f =
    let woken = fifo_ops ops f in
    let rest = fifo_pop waits woken in
    if is_empty f.items && not f.stop
    then (if not (rc == 0) then (null, woken) else rest)
    else fifo_first f

module _ (calloc : List ℕ → Option ℕ)
    (new_block : (live : List ℕ) (a : ℕ) → calloc live ≡ some a → Apart a live × (a ≢ 0))
    (memory : (live : List ℕ) → is_some (calloc live) ≡ true) where
  op-Rep : (op : Op) (q : ThreadQ) (f : Fifo) → Rep q f → Rep (run_op calloc op q) (fifo_op op f)
  unfolding run_op fifo_op tq_freeze tq_freezethaw
  op-Rep (pushes x) q f h =
      subst (λ m. Rep (tq_push calloc x q).0 (fifo_push x m f).0) (memory q.live)
        (push-Rep calloc new_block x q f h).0
  op-Rep freezes q f (nodes, h) = (
    nodes,
    record {
      ring = h.ring;
      blocks = h.blocks;
      distinct = h.distinct;
      nonnull = h.nonnull;
      data_items = h.data_items;
      same_frozen = refl;
      same_stop = h.same_stop;
    },
  )
  op-Rep stops q f (nodes, h) = (
    nodes,
    record {
      ring = h.ring;
      blocks = h.blocks;
      distinct = h.distinct;
      nonnull = h.nonnull;
      data_items = h.data_items;
      same_frozen = h.same_frozen;
      same_stop = refl;
    },
  )

  ops-Rep :
      (ops : List Op) (q : ThreadQ) (f : Fifo)
      → Rep q f
      → Rep (run_ops calloc ops q) (fifo_ops ops f)
  unfolding run_ops fifo_ops
  ops-Rep [] q f h = h
  ops-Rep (op ∷ ops) q f h = ops-Rep ops _ _ (op-Rep op q f h)

  Agree : Popped × ThreadQ → Popped × Fifo → Type 0
  Agree (r, q) (s, f) = (r ≡ s) × Rep q f

  first-Agree :
      (q : ThreadQ) (f : Fifo)
      → Rep q f
      → (list_empty q.head q.links ≡ is_empty f.items) × Agree (take_first calloc q) (fifo_first f)
  unfolding fifo_first is_empty Agree take_first
  first-Agree q f ([], h) =
      rw (sym h.data_items, take_first-none calloc new_block q f h, take_first)
        (
          refl,
          (
            refl,
            (
              [],
              record {
                ring = h.ring;
                blocks = h.blocks;
                distinct = h.distinct;
                nonnull = h.nonnull;
                data_items = refl;
                same_frozen = h.same_frozen;
                same_stop = h.same_stop;
              },
            ),
          ),
        )
  first-Agree q f (a ∷ nodes, h) =
      let (got, rest) = take_first-some calloc new_block q f a nodes h in
      rw (sym h.data_items) (list_empty-some calloc new_block q f a nodes h, (got, (nodes, rest)))

  choice-Agree :
      (b c : Bool) (p p' : Popped × ThreadQ) (r r' : Popped × Fifo)
      → b ≡ c
      → Agree p r
      → Agree p' r'
      → Agree (if b then p else p') (if c then r else r')
  choice-Agree true true p p' r r' e h h' = h
  choice-Agree true false p p' r r' e h h' = ground arith
  choice-Agree false true p p' r r' e h h' = ground arith
  choice-Agree false false p p' r r' e h h' = h'

  -- tq_pop gives what a first-in first-out list gives, for every course of its waits and of what other
  -- threads do meanwhile, where memory does not run out: the oldest item, NULL where a wait fails or
  -- the queue is stopped and empty. It never finds the list corrupted, and frees the entry it takes.
  pub pop-Rep :
      (waits : List (ℕ × List Op)) (q : ThreadQ) (f : Fifo)
      → Rep q f
      → ((tq_pop calloc waits q).0 ≡ (fifo_pop waits f).0)
        × Rep (tq_pop calloc waits q).1 (fifo_pop waits f).1
  unfolding tq_pop fifo_pop Agree
  pop-Rep [] q f h =
      let (same, first) = first-Agree q f h in
      choice-Agree _ _ (waiting, q) (take_first calloc q) (waiting, f) (fifo_first f)
        (ap₂ (λ x y. x && not y) same h.1.same_stop) (refl, h) first
  pop-Rep ((rc, ops) ∷ waits) q f h =
      let (same, first) = first-Agree q f h in
      let woken = ops-Rep ops q f h in
      let q1 = run_ops calloc ops q in
      let f1 = fifo_ops ops f in
      choice-Agree _ _ _ (take_first calloc q) _ (fifo_first f)
        (ap₂ (λ x y. x && not y) same h.1.same_stop)
        (choice-Agree (not (rc == 0)) (not (rc == 0)) (null, q1) (tq_pop calloc waits q1) (null, f1)
          (fifo_pop waits f1) refl (refl, woken) (pop-Rep waits q1 f1 woken))
        first

free-head : (a : ℕ) (xs : List ℕ) → free a (a ∷ xs) ≡ xs
unfolding free
free-head a xs = ground arith

length-map_data : (d : ℕ → ℕ) (xs : List ℕ) → length (map d xs) ≡ length xs
length-map_data d [] = refl
length-map_data d (x ∷ xs) = ap suc (length-map_data d xs)

module _ (calloc : List ℕ → Option ℕ) where
  free_loop-blocks :
      (fuel : ℕ) (nodes : List ℕ) (pos iter : ℕ) (q : ThreadQ)
      → Chain q.links q.head nodes q.head
      → q.live ≡ q.head ∷ nodes
      → NoDup (q.head ∷ nodes)
      → pos ≡ q.links.next q.head
      → iter ≡ q.links.next pos
      → length nodes ≤ fuel
      → let q1 = free_loop calloc fuel pos iter q in (q1.live ≡ q.head ∷ []) × (q1.head ≡ q.head)
  unfolding free_loop
  free_loop-blocks zero [] pos iter q ring blocks distinct at_pos at_iter enough = (blocks, refl)
  free_loop-blocks zero (a ∷ nodes) pos iter q ring blocks distinct at_pos at_iter enough =
      absurd (omega arith)
  free_loop-blocks (suc fuel) [] pos iter q ring blocks distinct at_pos at_iter enough =
      rw ((==_iff pos q.head).1 (at_pos ∙ ring.0)) (blocks, refl)
  free_loop-blocks (suc fuel) (a ∷ nodes) pos iter q ring blocks distinct at_pos at_iter enough =
      let here : pos ≡ a = at_pos ∙ ring.0 in
      let other : (pos == q.head) ≡ false = ground (arith, distinct.0.0) in
      let next_ring = list_del-Chain q.links q.head a nodes ring distinct in
      let links = list_del pos q.links in
      let same : links ≡ list_del a q.links = ap (λ x. list_del x q.links) here in
      let step : iter ≡ links.next q.head =
        at_iter
        ∙ ap q.links.next here
        ∙ Chain-next q.links a nodes q.head ring.2
        ∙ sym (Chain-next (list_del a q.links) q.head nodes q.head next_ring)
        ∙ sym (ap (λ l. l.next q.head) same) in
      rw other (
        free_loop-blocks fuel nodes iter (links.next iter)
          (record q { links = links; live = free pos q.live })
          (subst (λ l. Chain l q.head nodes q.head) (sym same) next_ring)
          (ap₂ free here blocks ∙ free-first a q.head nodes distinct.0.0)
          (distinct.0.1, distinct.1.1) step refl (omega arith))

  -- tq_free, with fuel for as many entries as the queue has, frees the entries and the queue: of the
  -- blocks in use none is left.
  pub tq_free-blocks :
      (fuel : ℕ) (q : ThreadQ) (f : Fifo)
      → Rep q f
      → length f.items ≤ fuel
      → (tq_free calloc fuel q).live ≡ []
  unfolding tq_free
  tq_free-blocks fuel q f (nodes, h) enough =
      let size = ap length h.data_items in
      let (left, same) =
        free_loop-blocks fuel nodes (q.links.next q.head) (q.links.next (q.links.next q.head))
          (record q { stop = true }) h.ring h.blocks h.distinct refl refl
          (omega (arith, size, length-map_data q.data_of nodes)) in
      ap₂ free (refl {a = q.head}) left ∙ free-head q.head []
