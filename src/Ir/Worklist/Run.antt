-- ===== src/Ir/Worklist/Run.antt =====
-- The loop of the engine ends, and what each of its rounds keeps holds at its end.
use sbpf.Base.{ℕ, zero, suc, ◌<◌, ◌≡◌, ◌∙◌, refl, sym, ap, subst, arith, ◌==◌}
use sbpf.Base.{true, false, ◌||◌, List, [], ◌∷◌, Option, some, ◌⊎◌, inl, inr}
use sbpf.Base.Sets.{
  contains, remove, contains-cons, contains-remove_ne, contains-remove_self, Distinct, unseen,
  unseen-insert,
}
use sbpf.Ir.Worklist.{
  DfsGraph, WorklistVisitor, WorklistEngine, enqueue_all, visit_node, round, run,
}
use sbpf.Ir.Worklist.Laws.{IsConsistent, IsEnqueued, enqueue_all-IsEnqueued}

-- The engine with a node taken from its worklist, and the one that has visited it.
abbrev pub popped : ℕ → List ℕ → WorklistEngine → WorklistEngine
popped node rest e = record e { pending = remove node e.pending; worklist = rest }

abbrev pub seen : ℕ → WorklistEngine → WorklistEngine
seen node e = record e { visited = node ∷ e.visited }

remove-rest :
    (node x : ℕ) (s rest : List ℕ)
    → contains s x ≡ (node == x || contains rest x)
    → contains rest node ≡ false
    → contains (remove node s) x ≡ contains rest x
remove-rest node x s rest h g =
    ground (arith, contains-remove_self node s, contains-remove_ne node x s, h, g)

seen-IsConsistent :
    (n node : ℕ) (rest : List ℕ) (e : WorklistEngine)
    → e.worklist ≡ node ∷ rest
    → IsConsistent n e
    → IsConsistent n (seen node (popped node rest e))
unfolding contains
seen-IsConsistent n node rest e w c =
    let d : Distinct (node ∷ rest) = subst Distinct w c.distinct in
    let was : (x : ℕ) → contains e.worklist x ≡ (node == x || contains rest x) =
      λ x. ap (λ l. contains l x) w in
    record {
      same = λ x. remove-rest node x e.pending rest (c.same x ∙ was x) d.0;
      fresh = λ x h. ground (arith, contains-cons node x e.visited, c.fresh x, was x, d.0, h);
      below = λ x h. ground (arith, c.below x, was x, h);
      distinct = d.1;
      once = (c.fresh node (ground (arith, was node)), c.once);
    }

-- What a round does that visits a node, with the nodes that the visitor asks for.
pub record IsRound (n : ℕ) (graph : DfsGraph) (node : ℕ) (extra : List ℕ) (e e' : WorklistEngine)
    : Type 0 where
  pub consistent : IsConsistent n e'
  pub visited : e'.visited ≡ node ∷ e.visited
  pub covers :
      (x : ℕ)
      → (contains (graph node) x || contains extra x) ≡ true
      → (contains e'.visited x || contains e'.worklist x) ≡ true
  pub keeps :
      (x : ℕ)
      → (contains e.visited x || contains e.worklist x) ≡ true
      → (contains e'.visited x || contains e'.worklist x) ≡ true
  pub from :
      (x : ℕ)
      → contains e'.worklist x ≡ true
      → (contains e.worklist x || contains (graph node) x || contains extra x) ≡ true

IsRound-enqueued :
    (n : ℕ) (graph : DfsGraph) (node : ℕ) (rest extra : List ℕ) (e e1 e2 : WorklistEngine)
    → e.worklist ≡ node ∷ rest
    → IsEnqueued n (graph node) (seen node (popped node rest e)) e1
    → IsEnqueued n extra e1 e2
    → IsRound n graph node extra e e2
unfolding contains
IsRound-enqueued n graph node rest extra e e1 e2 w h g =
    let was : (x : ℕ) → contains e.worklist x ≡ (node == x || contains rest x) =
      λ x. ap (λ l. contains l x) w in
    let all_seen : e2.visited ≡ node ∷ e.visited = g.visited ∙ h.visited in
    let now : (x : ℕ) → contains e2.visited x ≡ (node == x || contains e.visited x) =
      λ x. ap (λ l. contains l x) all_seen in
    let mid : (x : ℕ) → contains e1.visited x ≡ (node == x || contains e.visited x) =
      λ x. ap (λ l. contains l x) h.visited in
    record {
      consistent = g.consistent;
      visited = all_seen;
      covers = λ x p. ground (arith, h.covers x, g.covers x, g.grows x, now x, mid x, p);
      keeps = λ x p. ground (arith, h.grows x, g.grows x, now x, was x, p);
      from = λ x p. ground (arith, g.from x p, h.from x, was x);
    }

head_worklist :
    (node : ℕ) (rest : List ℕ) (e : WorklistEngine)
    → e.worklist ≡ node ∷ rest
    → contains e.worklist node ≡ true
unfolding contains
head_worklist node rest e w = rw w (ground arith)

List-cases : (l : List ℕ) → (l ≡ []) ⊎ ((x : ℕ) × (rest : List ℕ) × (l ≡ x ∷ rest))
List-cases [] = inl refl
List-cases (x ∷ rest) = inr (x, rest, refl)

module _ {V : Type 0} (n : ℕ) (graph : DfsGraph) (visitor : WorklistVisitor V) where
  -- All nodes that the graph and the visitor lead to lie below the bound.
  pub record IsBounded : Type 0 where
    pub successors : (node x : ℕ) → contains (graph node) x ≡ true → x < n
    pub extra : (v : V) (node x : ℕ) → contains (visitor v node).1 x ≡ true → x < n

  round-IsRound :
      (node : ℕ) (rest : List ℕ) (e : WorklistEngine) (v : V)
      → IsBounded
      → e.worklist ≡ node ∷ rest
      → IsConsistent n e
      → IsRound n graph node (visitor v node).1 e (round graph visitor node rest e v).0
        × ((round graph visitor node rest e v).1 ≡ (visitor v node).0)
  unfolding round visit_node
  round-IsRound node rest e v b w c =
      let start = seen node (popped node rest e) in
      let first =
        enqueue_all-IsEnqueued n (graph node) start (seen-IsConsistent n node rest e w c)
          (b.successors node) in
      let e1 = enqueue_all (graph node) start in
      let second =
        enqueue_all-IsEnqueued n (visitor v node).1 e1 first.consistent (b.extra v node) in
      let unseen_node = c.fresh node (head_worklist node rest e w) in
      rw unseen_node (
        IsRound-enqueued n graph node rest (visitor v node).1 e e1
            (enqueue_all (visitor v node).1 e1) w first second,
        refl,
      )

  -- A turn of the loop, by the worklist.
  stepped : ℕ → WorklistEngine → V → List ℕ → Option (WorklistEngine × V)
  stepped fuel e v [] = some (e, v)
  stepped fuel e v (node ∷ rest) =
      let after = round graph visitor node rest e v in run graph visitor fuel after.0 after.1

  run-stepped :
      (fuel : ℕ) (e : WorklistEngine) (v : V) {l : List ℕ}
      → e.worklist ≡ l
      → run graph visitor (suc fuel) e v ≡ stepped fuel e v l
  unfolding run stepped
  run-stepped fuel e v w = turn e.worklist ∙ ap (stepped fuel e v) w
    where
      turn :
          (l : List ℕ)
          → (elim l [
            | [] ↦ some (e, v)
            | node ∷ rest ↦
                let after = round graph visitor node rest e v in
                run graph visitor fuel after.0 after.1
          ])
            ≡ stepped fuel e v l
      turn [] = refl
      turn (node ∷ rest) = refl

  -- What holds at the start, and is kept by a round that visits a node, holds at the end; and the
  -- end comes after no more rounds than there are nodes to visit.
  pub run-ends :
      (P : WorklistEngine → V → Type 0)
      → IsBounded
      → ((node : ℕ) (e e' : WorklistEngine) (v : V)
          → IsConsistent n e
          → contains e.worklist node ≡ true
          → IsRound n graph node (visitor v node).1 e e'
          → P e v
          → P e' (visitor v node).0)
      → (fuel : ℕ) (e : WorklistEngine) (v : V) → IsConsistent n e
      → unseen n e.visited < fuel
      → P e v
      → (e' : WorklistEngine) × (v' : V) × (run graph visitor fuel e v ≡ some (e', v'))
        × (e'.worklist ≡ [])
        × IsConsistent n e'
        × P e' v'
  unfolding run stepped
  run-ends P b keep zero e v c enough p = absurd (omega arith)
  run-ends P b keep (suc fuel) e v c enough p = elim (List-cases e.worklist) [
    | inl w ↦ (e, v, run-stepped fuel e v w, w, c, p)
    | inr (node, rest, w) ↦
        let after = round graph visitor node rest e v in
        let (r, turned) = round-IsRound node rest e v b w c in
        let fresh = c.fresh node (head_worklist node rest e w) in
        let small = c.below node (head_worklist node rest e w) in
        let (e', v', ran, empty, c', q) =
          run-ends P b keep fuel after.0 after.1 r.consistent
            (rw r.visited (omega (arith, unseen-insert n node e.visited small fresh)))
            (subst (P after.0) (sym turned)
              (keep node e after.0 v c (head_worklist node rest e w) r p)) in
        (e', v', run-stepped fuel e v w ∙ ran, empty, c', q)
  ]
