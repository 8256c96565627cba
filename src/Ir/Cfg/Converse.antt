-- ===== src/Ir/Cfg/Converse.antt =====
-- The successors of the graph are the edges that were collected, and the predecessors their converse.
use sbpf.Base.{
  ℕ, zero, suc, ◌<◌, ◌≡◌, ◌≢◌, ◌∙◌, refl, sym, subst, arith, Bool, true, false, ◌&&◌, ◌||◌, ◌==◌,
  ==_iff,
}
use sbpf.Base.{Bool-cases, List, [], ◌∷◌, All, length, replicate, Option, some, none, String}
use sbpf.Base.{
  get_elem?, get_elem?-set_self, get_elem?-set_ne, get_elem?-of_lt, length-set, length-replicate,
  inl, inr,
}
use sbpf.Base.Sets.{contains, contains-append}
use sbpf.Errors.{ok, ok-injective, >>=-eq-ok}
use sbpf.Ir.Cfg.{
  InputNode, Block, CfgFunction, Cfg, or_empty, successors, predecessors, all_blocks,
  collect_blocks,
}
use sbpf.Ir.Cfg.Functions.{collect_functions}
use sbpf.Ir.Cfg.Edges.{
  pushed, updated, link, add_edge, add_edges, collect_edges, control_flow_graph,
}
use sbpf.Ir.Cfg.Bounds.{IsOwner, collect_functions-IsOwner, blocks_of-below}
use sbpf.Ir.Cfg.EdgeBounds.{IsEdge, collect_edges-IsEdge}

-- The entry of an adjacency.
abbrev row : List (List ℕ) → ℕ → List ℕ
row adjacency x = or_empty (get_elem? adjacency x)

contains-pushed :
    (id : ℕ) (ids : List ℕ) (y : ℕ) → contains (pushed id ids) y ≡ (contains ids y || id == y)
contains-pushed id ids y = elim (Bool-cases (contains ids id)) [
  | inl there ↦ rw there (ground (arith, there))
  | inr new ↦ rw new (contains-append ids id y)
]

length-updated :
    (adjacency : List (List ℕ)) (at id : ℕ) (o : Option (List ℕ))
    → length (updated adjacency at id o) ≡ length adjacency
length-updated adjacency at id (some ids) = length-set adjacency at (pushed id ids)
length-updated adjacency at id none = refl

length-link :
    (adjacency : List (List ℕ)) (at id : ℕ) → length (link adjacency at id) ≡ length adjacency
unfolding link
length-link adjacency at id = length-updated adjacency at id (get_elem? adjacency at)

contains-link_self :
    (adjacency : List (List ℕ)) (at id y : ℕ)
    → at < length adjacency
    → contains (row (link adjacency at id) at) y ≡ (contains (row adjacency at) y || id == y)
unfolding link
contains-link_self adjacency at id y small =
    let (ids, e) = get_elem?-of_lt adjacency at small in
    rw (e, get_elem?-set_self adjacency at (pushed id ids) small) (contains-pushed id ids y)

contains-link_ne :
    (adjacency : List (List ℕ)) (at id x y : ℕ)
    → at < length adjacency
    → at ≢ x
    → contains (row (link adjacency at id) x) y ≡ contains (row adjacency x) y
unfolding link
contains-link_ne adjacency at id x y small ne =
    let (ids, e) = get_elem?-of_lt adjacency at small in
    rw (e, get_elem?-set_ne adjacency at x (pushed id ids) ne) refl

-- A link is put in, and nothing else changes.
contains-link :
    (adjacency : List (List ℕ)) (at id x y : ℕ)
    → at < length adjacency
    → contains (row (link adjacency at id) x) y
      ≡ (contains (row adjacency x) y || (at == x && id == y))
contains-link adjacency at id x y small = elim (Bool-cases (at == x)) [
  | inl same ↦ rw (same, sym ((==_iff at x).0 same)) (contains-link_self adjacency at id y small)
  | inr other ↦
      contains-link_ne adjacency at id x y small (ground (arith, other)) ∙ ground (arith, other)
]

-- There is an edge between two blocks.
unfoldable has_edge : List (ℕ × ℕ) → ℕ → ℕ → Bool
has_edge [] x y = false
has_edge (edge ∷ edges) x y = let rest = has_edge edges x y in (edge.0 == x && edge.1 == y) || rest

add_edges-IsConverse :
    (n : ℕ) (edges : List (ℕ × ℕ)) (cfg : Cfg)
    → length cfg.successors ≡ n
    → length cfg.predecessors ≡ n
    → All (IsEdge n) edges
    → (x y : ℕ)
    → (contains (successors (add_edges edges cfg) x) y
        ≡ (contains (successors cfg x) y || has_edge edges x y))
      × (contains (predecessors (add_edges edges cfg) y) x
          ≡ (contains (predecessors cfg y) x || has_edge edges x y))
unfolding add_edges has_edge successors predecessors add_edge
add_edges-IsConverse n [] cfg p q h x y = (ground arith, ground arith)
add_edges-IsConverse n ((from, to) ∷ edges) cfg p q h x y =
    let (a, b) =
      add_edges-IsConverse n edges (add_edge (from, to) cfg)
        (length-link cfg.successors from to ∙ p) (length-link cfg.predecessors to from ∙ q) h.1 x
        y in
    let (small, small') = h.0 in
    (
      ground (arith, a, contains-link cfg.successors from to x y (omega (arith, p, small))),
      ground (arith, b, contains-link cfg.predecessors to from y x (omega (arith, q, small'))),
    )

has_edge-IsEdge :
    (n : ℕ) (edges : List (ℕ × ℕ)) (x y : ℕ)
    → All (IsEdge n) edges
    → has_edge edges x y ≡ true
    → (x < n) × (y < n)
unfolding has_edge
has_edge-IsEdge n [] x y h e = absurd (cc)
has_edge-IsEdge n ((from, to) ∷ edges) x y h e =
    let (small, small') = h.0 in
    elim (Bool-cases (has_edge edges x y)) [
      | inl later ↦ has_edge-IsEdge n edges x y h.1 later
      | inr first ↦ (ground (arith, small, e, first), ground (arith, small', e, first))
    ]

row-replicate : (n x y : ℕ) → contains (row (replicate n []) x) y ≡ false
unfolding contains
row-replicate zero x y = refl
row-replicate (suc n) zero y = refl
row-replicate (suc n) (suc x) y = row-replicate n x y

add_edges-functions :
    (edges : List (ℕ × ℕ)) (cfg : Cfg) → (add_edges edges cfg).functions ≡ cfg.functions
unfolding add_edges add_edge
add_edges-functions [] cfg = refl
add_edges-functions (edge ∷ edges) cfg = add_edges-functions edges (add_edge edge cfg)

length-add_edges :
    (edges : List (ℕ × ℕ)) (cfg : Cfg)
    → length (add_edges edges cfg).successors ≡ length cfg.successors
unfolding add_edges add_edge
length-add_edges [] cfg = refl
length-add_edges ((from, to) ∷ edges) cfg =
    length-add_edges edges (add_edge (from, to) cfg) ∙ length-link cfg.successors from to

-- A graph of so many blocks: its functions own blocks of it, its edges join blocks of it, and the
-- predecessors are the converse of the successors.
pub record IsGraph (n : ℕ) (cfg : Cfg) : Type 0 where
  pub size : length cfg.successors ≡ n
  pub owners : All (IsOwner n) cfg.functions
  pub bounded : (x y : ℕ) → contains (successors cfg x) y ≡ true → (x < n) × (y < n)
  pub converse : (x y : ℕ) → contains (predecessors cfg y) x ≡ contains (successors cfg x) y

-- The graph of no edges, and the one with the edges that are collected.
abbrev edgeless : ℕ → List CfgFunction → Cfg
edgeless n functions = record {
  functions = functions;
  successors = replicate n [];
  predecessors = replicate n [];
}

add_edges-IsGraph :
    (n : ℕ) (functions : List CfgFunction) (edges : List (ℕ × ℕ))
    → All (IsOwner n) functions
    → All (IsEdge n) edges
    → IsGraph n (add_edges edges (edgeless n functions))
unfolding successors predecessors
add_edges-IsGraph n functions edges owners joined =
    let cfg = edgeless n functions in
    let linked =
      add_edges-IsConverse n edges cfg (length-replicate n []) (length-replicate n []) joined in
    record {
      size = length-add_edges edges cfg ∙ length-replicate n [];
      owners = subst (All (IsOwner n)) (sym (add_edges-functions edges cfg)) owners;
      bounded = λ x y h.
          has_edge-IsEdge n edges x y joined
            (ground (arith, (linked x y).0, row-replicate n x y, h));
      converse = λ x y.
          ground (arith, (linked x y).0, (linked x y).1, row-replicate n x y, row-replicate n y x);
    }

-- A control flow graph that is built has as many blocks as were collected: its functions own some of them, its edges
-- join some of them, and its predecessors are the converse of its successors.
pub control_flow_graph-IsGraph :
    (nodes : List InputNode) (entries : List String) (entry : Option String) {cfg : Cfg}
    → control_flow_graph nodes entries entry ≡ ok cfg
    → (blocks : List Block) × (collect_blocks nodes ≡ ok blocks) × IsGraph (length blocks) cfg
unfolding control_flow_graph all_blocks
control_flow_graph-IsGraph nodes entries entry {cfg} h =
    let (blocks, collected, h1) = >>=-eq-ok (collect_blocks nodes) _ h in
    let (functions, grouped, h2) = >>=-eq-ok (collect_functions blocks entries entry) _ h1 in
    let n = length blocks in
    let owners = collect_functions-IsOwner blocks entries entry grouped in
    (
      blocks,
      collected,
      subst (IsGraph n) (ok-injective h2) (
          add_edges-IsGraph n functions (collect_edges (edgeless n functions)) owners (
            collect_edges-IsEdge n (edgeless n functions) (length-replicate n [])
              (blocks_of-below n functions owners))),
    )
