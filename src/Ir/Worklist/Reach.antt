-- ===== src/Ir/Worklist/Reach.antt =====
-- The engine visits the nodes that can be reached, each of them once.
use sbpf.Base.{ℕ, suc, ◌<◌, ◌≡◌, ◌∙◌, ◌↔◌, refl, sym, ap, subst, arith, ◌==◌}
use sbpf.Base.{Bool, true, false, ◌||◌, Bool-cases, ==_iff, inl, inr, List, [], ◌∷◌, some}
use sbpf.Base.Sets.{contains, Distinct, unseen-le}
use sbpf.Ir.Worklist.{DfsGraph, WorklistEngine, closure, new, enqueue_all, run}
use sbpf.Ir.Worklist.Laws.{IsConsistent, IsEnqueued, enqueue_all-IsEnqueued}
use sbpf.Ir.Worklist.Run.{IsRound, run-ends}

-- What can be reached from the seeds along the edges.
pub data Reachable (graph : DfsGraph) (seeds : List ℕ) : ℕ → Type 0 where
  seed : (y : ℕ) → contains seeds y ≡ true → Reachable graph seeds y
  edge : (x y : ℕ) → Reachable graph seeds x → contains (graph x) y ≡ true → Reachable graph seeds y

-- The visitor after it was called for nodes, the last of them first in the list.
unfoldable pub visits : {V : Type 0} → (V → ℕ → V) → V → List ℕ → V
visits f v [] = v
visits f v (node ∷ nodes) = f (visits f v nodes) node

pub new-IsConsistent : (n : ℕ) → IsConsistent n new
unfolding new contains
new-IsConsistent n = record {
  same = λ x. refl;
  fresh = λ x h. refl;
  below = λ x h. absurd (cc);
  distinct = tt;
  once = tt;
}

true-ne-false : true ≡ false → ⊥
true-ne-false h = cc

-- A node that a round puts on the worklist can be reached where those before it can.
from-Reachable :
    (graph : DfsGraph) (seeds : List ℕ) (node x : ℕ) (was : Bool)
    → Reachable graph seeds node
    → (was ≡ true → Reachable graph seeds x)
    → (was || contains (graph node) x || contains [] x) ≡ true
    → Reachable graph seeds x
unfolding contains
from-Reachable graph seeds node x true r h p = h refl
from-Reachable graph seeds node x false r h p = Reachable.edge node x r (ground arith)

module _ {V : Type 0} (n : ℕ) (graph : DfsGraph) (f : V → ℕ → V) (start : V) (seeds : List ℕ) where
  -- All that is found can be reached, the seeds are found, and so is what an edge of a visited node leads
  -- to; the visitor was called for each visited node, in the order of the visits.
  record IsSearched (e : WorklistEngine) (v : V) : Type 0 where
    pub sound :
        (x : ℕ) → (contains e.visited x || contains e.worklist x) ≡ true → Reachable graph seeds x
    pub started :
        (x : ℕ) → contains seeds x ≡ true → (contains e.visited x || contains e.worklist x) ≡ true
    pub closed :
        (x y : ℕ)
        → contains e.visited x ≡ true
        → contains (graph x) y ≡ true
        → (contains e.visited y || contains e.worklist y) ≡ true
    pub called : v ≡ visits f start e.visited

  IsSearched-start : (e : WorklistEngine) → IsEnqueued n seeds new e → IsSearched e start
  unfolding new contains visits
  IsSearched-start e h = record {
    sound = λ x p. Reachable.seed x (ground (arith, h.from x, ap (λ s. contains s x) h.visited, p));
    started = h.covers;
    closed = λ x y p. absurd (true-ne-false (sym p ∙ ap (λ s. contains s x) h.visited));
    called = rw h.visited refl;
  }

  IsSearched-round :
      (node : ℕ) (e e' : WorklistEngine) (v : V)
      → IsConsistent n e
      → contains e.worklist node ≡ true
      → IsRound n graph node [] e e'
      → IsSearched e v
      → IsSearched e' (f v node)
  unfolding contains visits
  IsSearched-round node e e' v c w r s = record {
    sound = λ x p. elim (Bool-cases (contains e'.worklist x)) [
      | inl waits ↦
          from-Reachable graph seeds node x (contains e.worklist x)
            (s.sound node (ground (arith, w))) (λ q. s.sound x (ground (arith, q))) (r.from x waits)
      | inr idle ↦ elim (Bool-cases (node == x)) [
        | inl same ↦
            subst (Reachable graph seeds) ((==_iff node x).0 same)
              (s.sound node (ground (arith, w)))
        | inr other ↦ s.sound x (ground (arith, ap (λ l. contains l x) r.visited, idle, other, p))
      ]
    ];
    started = λ x p. r.keeps x (s.started x p);
    closed = λ x y p q. elim (Bool-cases (node == x)) [
      | inl same ↦ r.covers y (
          ground (arith, subst (λ z. contains (graph z) y ≡ true) (sym ((==_iff node x).0 same)) q))
      | inr other ↦
          r.keeps y (s.closed x y (ground (arith, ap (λ l. contains l x) r.visited, other, p)) q)
    ];
    called = rw (r.visited, s.called) refl;
  }

  complete :
      (e : WorklistEngine) (v : V)
      → e.worklist ≡ []
      → IsSearched e v
      → (x : ℕ) → Reachable graph seeds x
      → contains e.visited x ≡ true
  unfolding contains
  complete e v empty s _ (Reachable.seed x h) =
      ground (arith, s.started x h, ap (λ l. contains l x) empty)
  complete e v empty s _ (Reachable.edge z x r h) =
      ground (arith, s.closed z x (complete e v empty s z r) h, ap (λ l. contains l x) empty)

  -- From seeds below a bound, in a graph whose edges stay below it, the engine comes to its end in as
  -- many rounds as there are nodes and one; it has then visited the nodes that can be reached
  -- from the seeds and no other, each of them once, and has called the visitor, a closure, for them in that order.
  pub run-Reachable :
      ((x : ℕ) → contains seeds x ≡ true → x < n)
      → ((x y : ℕ) → contains (graph x) y ≡ true → y < n)
      → (e : WorklistEngine) × (v : V) × (run graph
            (closure f)
            (suc n)
            (enqueue_all seeds new)
            start
          ≡ some (e, v))
        × ((x : ℕ) → (contains e.visited x ≡ true) ↔ Reachable graph seeds x)
        × Distinct e.visited
        × (v ≡ visits f start e.visited)
  unfolding contains
  run-Reachable small edges =
      let begun = enqueue_all-IsEnqueued n seeds new (new-IsConsistent n) small in
      let first = enqueue_all seeds new in
      let (e, v, ran, empty, c, s) =
        run-ends n graph (closure f) IsSearched
          (record { successors = edges; extra = λ w node x h. absurd (true-ne-false (sym h)) })
          (λ node e e' w. IsSearched-round node e e' w) (suc n) first start begun.consistent
          (omega (arith, unseen-le n first.visited)) (IsSearched-start first begun) in
      (
        e,
        v,
        ran,
        λ x. (λ h. s.sound x (ground (arith, h)), λ h. complete e v empty s x h),
        c.once,
        s.called,
      )
