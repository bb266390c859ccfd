-- ===== src/Queue/Ring.antt =====
-- elist.h: the links of a ring through a list of nodes, and what the list operations make of it.
use soj_civic_light.Prelude.{
  ap₂, subst, ℕ, ◌≡◌, ◌≢◌, sym, ◌∙◌, List, [], ◌∷◌, ◌++◌, arith, All, All-append,
}
use soj_civic_light.Queue.{
  Links, update, set_next, set_prev, init_list_head, insert_between, list_add_tail, join, list_del,
}

abbrev pub Apart : ℕ → List ℕ → Type 0
Apart a xs = All (λ x. a ≢ x) xs

abbrev pub NoDup : List ℕ → Type 0
NoDup [] = Unit
NoDup (x ∷ xs) = Apart x xs × NoDup xs

-- From `x` along the nodes to `end`, in both directions.
abbrev pub Chain : Links → ℕ → List ℕ → ℕ → Type 0
Chain m x [] end = (m.next x ≡ end) × (m.prev end ≡ x)
Chain m x (a ∷ xs) end = (m.next x ≡ a) × (m.prev a ≡ x) × Chain m a xs end

abbrev pub first_of : List ℕ → ℕ → ℕ
first_of [] end = end
first_of (a ∷ xs) end = a

abbrev last_of : ℕ → List ℕ → ℕ
last_of x [] = x
last_of x (a ∷ xs) = last_of a xs

abbrev Same : (ℕ → ℕ) → (ℕ → ℕ) → List ℕ → Type 0
Same f g xs = All (λ x. f x ≡ g x) xs

pub Chain-next :
    (m : Links) (x : ℕ) (xs : List ℕ) (end : ℕ) → Chain m x xs end → m.next x ≡ first_of xs end
Chain-next m x [] end h = h.0
Chain-next m x (a ∷ xs) end h = h.0

Chain-last :
    (m : Links) (x : ℕ) (xs : List ℕ) (end : ℕ) → Chain m x xs end → m.prev end ≡ last_of x xs
Chain-last m x [] end h = h.1
Chain-last m x (a ∷ xs) end h = Chain-last m a xs end h.2

Chain-Same :
    (m n : Links) (x : ℕ) (xs : List ℕ) (end : ℕ)
    → Same m.next n.next (x ∷ xs)
    → Same m.prev n.prev (xs ++ (end ∷ []))
    → Chain m x xs end
    → Chain n x xs end
Chain-Same m n x [] end (fx, _) (be, _) (h, k) = (sym fx ∙ h, sym be ∙ k)
Chain-Same m n x (a ∷ xs) end (fx, fs) (ba, bs) (h, k, rest) =
    (sym fx ∙ h, sym ba ∙ k, Chain-Same m n a xs end fs bs rest)

Apart-last : (x a : ℕ) (xs : List ℕ) → Apart x (a ∷ xs) → x ≢ last_of a xs
Apart-last x a [] (h, _) = h
Apart-last x a (b ∷ xs) (h, hs) = Apart-last x b xs hs

last_of-nonnull : (x : ℕ) (xs : List ℕ) → Apart 0 (x ∷ xs) → 0 ≢ last_of x xs
last_of-nonnull x [] (h, _) = h
last_of-nonnull x (a ∷ xs) (_, hs) = last_of-nonnull a xs hs

update-Same : (f : ℕ → ℕ) (a v : ℕ) (xs : List ℕ) → Apart a xs → Same f (update f a v) xs
update-Same f a v [] ha = tt
update-Same f a v (x ∷ xs) (ha, has) = (ground arith, update-Same f a v xs has)

-- Two stores in fields of nodes that are not in the list.
update_twice-Same :
    (f : ℕ → ℕ) (a v b w : ℕ) (xs : List ℕ)
    → Apart a xs
    → Apart b xs
    → Same f (update (update f a v) b w) xs
update_twice-Same f a v b w [] ha hb = tt
update_twice-Same f a v b w (x ∷ xs) (ha, has) (hb, hbs) =
    (ground arith, update_twice-Same f a v b w xs has hbs)

insert-Chain :
    (m : Links) (x : ℕ) (xs : List ℕ) (end node : ℕ)
    → Chain m x xs end
    → NoDup (x ∷ xs)
    → Apart node (x ∷ xs)
    → node ≢ end
    → Apart end xs
    → Chain (insert_between node (last_of x xs) end m) x (xs ++ (node ∷ [])) end
unfolding insert_between
insert-Chain m x [] end node h distinct (apart, _) new out =
    (ground arith, ground arith, (ground arith, ground arith))
insert-Chain m x (a ∷ xs) end node (hn, hp, h) (dx, ds) (ax, as_new) new (oa, os) =
    let far = Apart-last x a xs dx in
    (ground (arith, far), ground (arith, as_new.0), insert-Chain m a xs end node h ds as_new new os)

-- `list_add_tail` puts a new node at the end of the ring.
pub list_add_tail-Chain :
    (m : Links) (head node : ℕ) (nodes : List ℕ)
    → Chain m head nodes head
    → NoDup (head ∷ nodes)
    → Apart node (head ∷ nodes)
    → Chain (list_add_tail node head m) head (nodes ++ (node ∷ [])) head
unfolding list_add_tail
list_add_tail-Chain m head node nodes h distinct (new, news) =
    rw (Chain-last m head nodes head h)
      (insert-Chain m head nodes head node h distinct (new, news) new distinct.0)

Apart-other :
    (x a : ℕ) (xs : List ℕ) → NoDup (a ∷ xs) → x ≢ a → Apart x xs → Apart a (xs ++ (x ∷ []))
Apart-other x a xs distinct other h =
    All-append (λ y. a ≢ y) xs (x ∷ []) distinct.0 ((λ e. other (sym e)), tt)

-- `list_del` of the first node leaves the ring through the others.
pub list_del-Chain :
    (m : Links) (head a : ℕ) (nodes : List ℕ)
    → Chain m head (a ∷ nodes) head
    → NoDup (head ∷ a ∷ nodes)
    → Chain (list_del a m) head nodes head
unfolding list_del join
list_del-Chain m head a [] (h, k, (n, p)) ((other, _), _) = rw (k, n) (ground arith, ground arith)
list_del-Chain m head a (b ∷ nodes) (h, k, (n, p, rest))
      ((other, (far, out)), ((away, outs), (b_new, ds))) =
    let next_same = update_twice-Same m.next head b a 0 (b ∷ nodes) (far, out) (away, outs) in
    let prev_same =
      update_twice-Same m.prev b head a 0 (nodes ++ (head ∷ []))
        (Apart-other head b nodes (b_new, ds) far out)
        (Apart-other head a nodes (outs, ds) other out) in
    let e = ap₂ (λ x y. set_prev a 0 (set_next a 0 (join x y m))) k n in
    subst (λ l. Chain l head (b ∷ nodes) head) (sym e)
      (ground arith, ground arith, Chain-Same m _ b nodes head next_same prev_same rest)

-- A node that stands in no ring gets links of its own.
pub init-Chain :
    (m : Links) (node head : ℕ) (nodes : List ℕ)
    → Chain m head nodes head
    → Apart node (head ∷ nodes)
    → Chain (init_list_head node m) head nodes head
unfolding init_list_head
init-Chain m node head nodes h (new, news) =
    Chain-Same m _ head nodes head (update-Same m.next node node (head ∷ nodes) (new, news))
      (update-Same m.prev node node (nodes ++ (head ∷ []))
        (All-append (λ y. node ≢ y) nodes (head ∷ []) news (new, tt)))
      h

pub prev-nonnull :
    (m : Links) (head : ℕ) (nodes : List ℕ)
    → Chain m head nodes head
    → Apart 0 (head ∷ nodes)
    → m.prev head ≢ 0
prev-nonnull m head nodes h nonnull e =
    last_of-nonnull head nodes nonnull (sym (sym (Chain-last m head nodes head h) ∙ e))
