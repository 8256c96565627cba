-- ===== src/Ir/Worklist.antt =====
-- crates/ir/src/graph_engine/worklist.rs: the breadth-first worklist engine.
pub mod Laws
pub mod Run
pub mod Reach
use sbpf.Base.{
  ℕ, zero, suc, Bool, not, ◌&&◌, if◌then◌else◌, List, [], ◌∷◌, ◌++◌, Option, some, none,
}
use sbpf.Base.Sets.{contains, remove}

-- `DfsGraph`, with the nodes numbered (`BlockId`).
abbrev pub DfsGraph : Type 0
DfsGraph = ℕ → List ℕ

-- `WorklistVisitor`: what a visit makes of the visitor, and the nodes that it enqueues.
abbrev pub WorklistVisitor : Type 0 → Type 0
WorklistVisitor V = V → ℕ → V × List ℕ

-- A closure as a visitor, which enqueues nothing.
abbrev pub closure : {V : Type 0} → (V → ℕ → V) → WorklistVisitor V
closure f v node = (f v node, [])

pub record WorklistEngine : Type 0 where
  pub pending : List ℕ
  pub worklist : List ℕ
  pub visited : List ℕ

unfoldable pub new : WorklistEngine
new = record { pending = []; worklist = []; visited = [] }

-- `pending.insert(item)` of a new item, and `worklist.push_back(item)`.
abbrev pub push : ℕ → WorklistEngine → WorklistEngine
push item e = record e { pending = item ∷ e.pending; worklist = e.worklist ++ (item ∷ []) }

unfoldable pub enqueue : ℕ → WorklistEngine → WorklistEngine
unfolding contains
enqueue item e =
    if not (contains e.visited item) && not (contains e.pending item) then push item e else e

-- `initialize`, and the loops over the successors and over the nodes that a visit asks for.
unfoldable pub enqueue_all : List ℕ → WorklistEngine → WorklistEngine
unfolding enqueue
enqueue_all [] e = e
enqueue_all (item ∷ items) e = enqueue_all items (enqueue item e)

module _ {V : Type 0} (graph : DfsGraph) (visitor : WorklistVisitor V) where
  -- The round of `run` for a node that is not visited.
  unfoldable pub visit_node : ℕ → WorklistEngine → V → WorklistEngine × V
  unfolding enqueue_all
  visit_node node e v =
      let seen = record e { visited = node ∷ e.visited } in
      let (v', extra) = visitor v node in (enqueue_all extra (enqueue_all (graph node) seen), v')

  -- The round of `run` after a node is popped.
  unfoldable pub round : ℕ → List ℕ → WorklistEngine → V → WorklistEngine × V
  unfolding visit_node remove
  round node rest e v =
      let popped = record e { pending = remove node e.pending; worklist = rest } in
      if contains e.visited node then (popped, v) else visit_node node popped v

  -- `none` stands for a loop that has not ended when its fuel has.
  unfoldable pub run : ℕ → WorklistEngine → V → Option (WorklistEngine × V)
  unfolding round
  run zero e v = none
  run (suc fuel) e v = elim e.worklist [
    | [] ↦ some (e, v)
    | node ∷ rest ↦ let after = round node rest e v in run fuel after.0 after.1
  ]
