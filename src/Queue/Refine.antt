-- ===== src/Queue/Refine.antt =====
-- soj_queue.c: the thread queue is a first-in first-out list.
use soj_civic_light.Prelude.{
  ℕ, ◌≡◌, ◌≢◌, refl, sym, ap, ap₂, ◌∙◌, subst, Bool, true, false, not, ◌&&◌, inl, inr, Bool-cases,
  Option-cases, Option, some, is_some, List, [], ◌∷◌, ◌++◌, map, arith, ◌==◌, if◌then◌else◌,
  All-append,
}
use soj_civic_light.Queue.Ring.{
  Apart, NoDup, Chain, list_add_tail-Chain, list_del-Chain, init-Chain, prev-nonnull,
}
use soj_civic_light.Queue.{
  Links, ThreadQ, popped, update, init_list_head, list_empty, free, tq_push, take_first, tq_new,
}

-- What a queue promises.
pub record Fifo : Type 0 where
  pub items : List ℕ
  pub frozen : Bool
  pub stop : Bool

-- A queue in memory that holds the items: a ring of distinct nodes other than NULL, which with the
-- queue are all the blocks in use.
pub record RepBy (nodes : List ℕ) (q : ThreadQ) (f : Fifo) : Type 0 where
  pub ring : Chain q.links q.head nodes q.head
  pub blocks : q.live ≡ q.head ∷ nodes
  pub distinct : NoDup (q.head ∷ nodes)
  pub nonnull : Apart 0 (q.head ∷ nodes)
  pub data_items : map q.data_of nodes ≡ f.items
  pub same_frozen : q.frozen ≡ f.frozen
  pub same_stop : q.stop ≡ f.stop

abbrev pub Rep : ThreadQ → Fifo → Type 0
Rep q f = (nodes : List ℕ) × RepBy nodes q f

unfoldable pub fifo_push : (x : ℕ) (memory : Bool) → Fifo → Fifo × Bool
fifo_push x memory f =
    if memory && not f.frozen then (record f { items = f.items ++ (x ∷ []) }, true) else (f, false)

map-update : (d : ℕ → ℕ) (a v : ℕ) (xs : List ℕ) → Apart a xs → map (update d a v) xs ≡ map d xs
map-update d a v [] h = refl
map-update d a v (x ∷ xs) (h, hs) = ap₂ ◌∷◌ (ground arith) (map-update d a v xs hs)

map-snoc :
    (d : ℕ → ℕ) (a v : ℕ) (xs : List ℕ)
    → Apart a xs
    → map (update d a v) (xs ++ (a ∷ [])) ≡ map d xs ++ (v ∷ [])
map-snoc d a v [] h = ap (λ y. y ∷ []) (ground arith)
map-snoc d a v (x ∷ xs) (h, hs) = ap₂ ◌∷◌ (ground arith) (map-snoc d a v xs hs)

free-snoc : (a : ℕ) (xs : List ℕ) → Apart a xs → free a (xs ++ (a ∷ [])) ≡ xs
unfolding free
free-snoc a [] h = ground arith
free-snoc a (x ∷ xs) (h, hs) = ground (arith, free-snoc a xs hs)

pub free-first : (a x : ℕ) (xs : List ℕ) → x ≢ a → free a (x ∷ a ∷ xs) ≡ x ∷ xs
unfolding free
free-first a x xs h = ground arith

NoDup-snoc : (a : ℕ) (xs : List ℕ) → NoDup xs → Apart a xs → NoDup (xs ++ (a ∷ []))
NoDup-snoc a [] d h = (tt, tt)
NoDup-snoc a (x ∷ xs) (dx, ds) (h, hs) =
    (All-append (λ y. x ≢ y) xs (a ∷ []) dx ((λ e. h (sym e)), tt), NoDup-snoc a xs ds hs)

-- What the code relies on: a new block is not NULL and none of those in use.
module _ (calloc : List ℕ → Option ℕ)
    (new_block : (live : List ℕ) (a : ℕ) → calloc live ≡ some a → Apart a live × (a ≢ 0)) where
  push-RepBy :
      (x : ℕ) (q : ThreadQ) (f : Fifo) (nodes : List ℕ) (ent : ℕ)
      → RepBy nodes q f
      → calloc q.live ≡ some ent
      → let (q1, pushed) = tq_push calloc x q in
        let (f1, wanted) = fifo_push x true f in Rep q1 f1 × (pushed ≡ wanted)
  unfolding tq_push fifo_push
  push-RepBy x q f nodes ent h got =
      let (apart, nonnull) = new_block q.live ent got in
      let new = subst (Apart ent) h.blocks apart in
      let ring = init-Chain q.links ent q.head nodes h.ring new in
      rw (got, tq_push)
        (elim (Bool-cases q.frozen) [
          | inl ice ↦
              rw (ice, tq_push, sym h.same_frozen ∙ ice, fifo_push)
                (
                  (
                    nodes,
                    record {
                      ring = ring;
                      blocks = free-snoc ent q.live apart ∙ h.blocks;
                      distinct = h.distinct;
                      nonnull = h.nonnull;
                      data_items = map-update q.data_of ent x nodes new.1 ∙ h.data_items;
                      same_frozen = refl;
                      same_stop = h.same_stop;
                    },
                  ),
                  refl,
                )
          | inr warm ↦
              rw (warm, tq_push, sym h.same_frozen ∙ warm, fifo_push)
                (
                  (
                    nodes ++ (ent ∷ []),
                    record {
                      ring = list_add_tail-Chain _ q.head ent nodes ring h.distinct new;
                      blocks = ap (λ l. l ++ (ent ∷ [])) h.blocks;
                      distinct = NoDup-snoc ent (q.head ∷ nodes) h.distinct new;
                      nonnull =
                          All-append (λ y. 0 ≢ y) (q.head ∷ nodes) (ent ∷ []) h.nonnull
                            ((λ e. nonnull (sym e)), tt);
                      data_items =
                          map-snoc q.data_of ent x nodes new.1
                          ∙ ap (λ l. l ++ (x ∷ [])) h.data_items;
                      same_frozen = refl;
                      same_stop = h.same_stop;
                    },
                  ),
                  refl,
                )
        ])

  -- tq_push appends the item where the queue is not frozen and memory is there, and else changes
  -- nothing and returns false; in each case the blocks in use are the queue and its entries.
  pub push-Rep :
      (x : ℕ) (q : ThreadQ) (f : Fifo)
      → Rep q f
      → let (q1, pushed) = tq_push calloc x q in
        let (f1, wanted) = fifo_push x (is_some (calloc q.live)) f in Rep q1 f1 × (pushed ≡ wanted)
  unfolding tq_push fifo_push
  push-Rep x q f (nodes, h) = elim (Option-cases (calloc q.live)) [
    | inl full ↦ rw (full, tq_push, fifo_push) ((nodes, h), refl)
    | inr (ent, got) ↦
        subst
          (λ o.
            Rep (tq_push calloc x q).0 (fifo_push x (is_some o) f).0
            × ((tq_push calloc x q).1 ≡ (fifo_push x (is_some o) f).1))
          (sym got) (push-RepBy x q f nodes ent h got)
  ]

  pub take_first-none : (q : ThreadQ) (f : Fifo) → RepBy [] q f → list_empty q.head q.links ≡ true
  unfolding list_empty
  take_first-none q f h = ground (arith, h.ring)

  pub list_empty-some :
      (q : ThreadQ) (f : Fifo) (a : ℕ) (nodes : List ℕ)
      → RepBy (a ∷ nodes) q f
      → list_empty q.head q.links ≡ false
  unfolding list_empty
  list_empty-some q f a nodes h = ground (arith, h.ring.0, h.distinct.0.0)

  pub take_first-some :
      (q : ThreadQ) (f : Fifo) (a : ℕ) (nodes : List ℕ)
      → RepBy (a ∷ nodes) q f
      → let (r, q1) = take_first calloc q in
        (r ≡ popped (q.data_of a)) × RepBy nodes q1 (record f { items = map q.data_of nodes })
  unfolding take_first
  take_first-some q f a nodes h =
      let next = h.ring.0 in
      let nonempty = list_empty-some q f a nodes h in
      let back = prev-nonnull q.links q.head (a ∷ nodes) h.ring h.nonnull in
      let zero_next : (q.links.next q.head == 0) ≡ false = ground (arith, h.nonnull.1.0) in
      let zero_prev : (q.links.prev q.head == 0) ≡ false = ground (arith, back) in
      rw (nonempty, take_first, zero_next, zero_prev, next)
        (
          refl,
          record {
            ring = list_del-Chain q.links q.head a nodes h.ring h.distinct;
            blocks = ap (free a) h.blocks ∙ free-first a q.head nodes h.distinct.0.0;
            distinct = (h.distinct.0.1, h.distinct.1.1);
            nonnull = (h.nonnull.0, h.nonnull.1.1);
            data_items = refl;
            same_frozen = h.same_frozen;
            same_stop = h.same_stop;
          },
        )

  -- Where calloc gives a block, tq_new gives an empty queue, neither frozen nor stopped.
  pub new-Rep :
      (m : Links) (data_of : ℕ → ℕ) (tq : ℕ)
      → calloc [] ≡ some tq
      → (q : ThreadQ) × (tq_new calloc m data_of ≡ some q)
        × Rep q record { items = []; frozen = false; stop = false }
  unfolding tq_new init_list_head
  new-Rep m data_of tq got = (
    record {
      head = tq;
      links = init_list_head tq m;
      data_of = data_of;
      live = tq ∷ [];
      frozen = false;
      stop = false;
    },
    rw (got, tq_new) refl,
    (
      [],
      record {
        ring = (ground arith, ground arith);
        blocks = refl;
        distinct = (tt, tt);
        nonnull = ((λ e. (new_block [] tq got).1 (sym e)), tt);
        data_items = refl;
        same_frozen = refl;
        same_stop = refl;
      },
    ),
  )
