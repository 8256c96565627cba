-- ===== src/Ir/Worklist/Laws.antt =====
-- What enqueueing and popping do to the engine.
use sbpf.Base.{ℕ, ◌<◌, ◌≡◌, ◌∙◌, refl, sym, ap, subst, arith, ==_refl}
use sbpf.Base.{true, false, ◌||◌, Bool-cases, List, [], ◌∷◌, inl, inr}
use sbpf.Base.Sets.{contains, contains-append, contains-cons, Distinct, Distinct-append}
use sbpf.Ir.Worklist.{WorklistEngine, push, enqueue, enqueue_all}

-- The worklist is the pending set, without repetition; it holds nodes below the bound that are not
-- visited; and no node is visited twice.
pub record IsConsistent (n : ℕ) (e : WorklistEngine) : Type 0 where
  pub same : (x : ℕ) → contains e.pending x ≡ contains e.worklist x
  pub fresh : (x : ℕ) → contains e.worklist x ≡ true → contains e.visited x ≡ false
  pub below : (x : ℕ) → contains e.worklist x ≡ true → x < n
  pub distinct : Distinct e.worklist
  pub once : Distinct e.visited

-- What enqueueing some nodes does.
pub record IsEnqueued (n : ℕ) (items : List ℕ) (e e' : WorklistEngine) : Type 0 where
  pub consistent : IsConsistent n e'
  pub visited : e'.visited ≡ e.visited
  pub grows : (x : ℕ) → contains e.worklist x ≡ true → contains e'.worklist x ≡ true
  pub covers :
      (x : ℕ) → contains items x ≡ true → (contains e'.visited x || contains e'.worklist x) ≡ true
  pub from :
      (x : ℕ) → contains e'.worklist x ≡ true → (contains e.worklist x || contains items x) ≡ true

IsEnqueued-self : (n : ℕ) (e : WorklistEngine) → IsConsistent n e → IsEnqueued n [] e e
unfolding contains
IsEnqueued-self n e c = record {
  consistent = c;
  visited = refl;
  grows = λ x h. h;
  covers = λ x h. cc;
  from = λ x h. ground (arith, h);
}

push-IsConsistent :
    (n item : ℕ) (e : WorklistEngine)
    → IsConsistent n e
    → item < n
    → contains e.visited item ≡ false
    → contains e.pending item ≡ false
    → IsConsistent n (push item e)
push-IsConsistent n item e c small unseen idle = record {
  same = λ x.
      ground (arith, contains-cons item x e.pending, contains-append e.worklist item x, c.same x);
  fresh = λ x h. ground (arith, contains-append e.worklist item x, c.fresh x, unseen, h);
  below = λ x h. ground (arith, contains-append e.worklist item x, c.below x, small, h);
  distinct = Distinct-append e.worklist item c.distinct (sym (c.same item) ∙ idle);
  once = c.once;
}

contains-one : (item x : ℕ) → contains (item ∷ []) x ≡ true → item ≡ x
unfolding contains
contains-one item x h = ground arith

kept-IsEnqueued :
    (n item : ℕ) (e : WorklistEngine)
    → IsConsistent n e
    → (contains e.visited item || contains e.worklist item) ≡ true
    → IsEnqueued n (item ∷ []) e e
kept-IsEnqueued n item e c known = record {
  consistent = c;
  visited = refl;
  grows = λ x h. h;
  covers = λ x h.
      subst (λ y. (contains e.visited y || contains e.worklist y) ≡ true) (contains-one item x h)
        known;
  from = λ x h. ground (arith, h);
}

push-IsEnqueued :
    (n item : ℕ) (e : WorklistEngine)
    → IsConsistent n e
    → item < n
    → contains e.visited item ≡ false
    → contains e.pending item ≡ false
    → IsEnqueued n (item ∷ []) e (push item e)
unfolding contains
push-IsEnqueued n item e c small unseen idle = record {
  consistent = push-IsConsistent n item e c small unseen idle;
  visited = refl;
  grows = λ x h. ground (arith, contains-append e.worklist item x, h);
  covers = λ x h. ground (arith, contains-append e.worklist item x, h);
  from = λ x h. ground (arith, contains-append e.worklist item x, h);
}

enqueue-IsEnqueued :
    (n item : ℕ) (e : WorklistEngine)
    → IsConsistent n e
    → item < n
    → IsEnqueued n (item ∷ []) e (enqueue item e)
unfolding enqueue
enqueue-IsEnqueued n item e c small = elim (Bool-cases (contains e.visited item)) [
  | inl seen ↦ rw seen (kept-IsEnqueued n item e c (ground (arith, seen)))
  | inr unseen ↦ elim (Bool-cases (contains e.pending item)) [
    | inl waits ↦
        rw (unseen, waits) (kept-IsEnqueued n item e c (ground (arith, waits, c.same item)))
    | inr idle ↦ rw (unseen, idle) (push-IsEnqueued n item e c small unseen idle)
  ]
]

IsEnqueued-then :
    (n item : ℕ) (items : List ℕ) (e e1 e2 : WorklistEngine)
    → IsEnqueued n (item ∷ []) e e1
    → IsEnqueued n items e1 e2
    → IsEnqueued n (item ∷ items) e e2
unfolding contains
IsEnqueued-then n item items e e1 e2 h g = record {
  consistent = g.consistent;
  visited = g.visited ∙ h.visited;
  grows = λ x p. g.grows x (h.grows x p);
  covers =
      λ x p. ground (arith, g.covers x, h.covers x, g.grows x, ap (λ s. contains s x) g.visited, p);
  from = λ x p. ground (arith, g.from x p, h.from x);
}

pub enqueue_all-IsEnqueued :
    (n : ℕ) (items : List ℕ) (e : WorklistEngine)
    → IsConsistent n e
    → ((x : ℕ) → contains items x ≡ true → x < n)
    → IsEnqueued n items e (enqueue_all items e)
unfolding enqueue_all
enqueue_all-IsEnqueued n [] e c small = IsEnqueued-self n e c
enqueue_all-IsEnqueued n (item ∷ items) e c small =
    let first =
      enqueue-IsEnqueued n item e c
        (small item (ground (arith, contains-cons item item items, ==_refl item))) in
    IsEnqueued-then n item items e (enqueue item e) (enqueue_all items (enqueue item e)) first (
      enqueue_all-IsEnqueued n items (enqueue item e) first.consistent
        λ x h. small x (ground (arith, contains-cons item x items, h)))
