-- ===== src/Ir/Cfg/EdgeBounds.antt =====
-- The edges that are collected join blocks of the graph.
use text.Mathlib.Text.{◌==◌ as str_eq}
use sbpf.Base.{ℕ, suc, ◌<◌, ◌≡◌, arith, not, ◌||◌}
use sbpf.Base.{if◌then◌else◌, if-intro, String, List, [], ◌∷◌, All, All-append}
use sbpf.Base.{Option, some, none, length, leb, leb-false→lt, Bool-cases, ◌⊎◌, inl, inr}
use sbpf.Opcode.{Opcode, opcode_eq}
use sbpf.Instruction.{Instruction, Number}
use sbpf.Ir.Cfg.{Block, InstructionNode, Cfg, function_of_block, all_blocks, jumps}
use sbpf.Ir.Cfg.Edges.{
  labels_to, label_to_block_map, or_else, get, edge_to, same_function, fallthrough_edge,
  call_target, jump_target, instruction_edges, last_edge, node_edges, from_block, edges_of,
  collect_edges,
}

abbrev IsTarget : ℕ → String × ℕ → Type 0
IsTarget n p = p.1 < n

abbrev Below : ℕ → List ℕ → Type 0
Below n ids = All (λ id. id < n) ids

labels_to-below :
    (n id : ℕ) (labels : List (String × ℕ)) → id < n → All (IsTarget n) (labels_to id labels)
unfolding labels_to
labels_to-below n id [] h = tt
labels_to-below n id ((label, node) ∷ labels) h = (h, labels_to-below n id labels h)

label_to_block_map-below :
    (n : ℕ) (blocks : List (ℕ × Block))
    → All (λ (p : ℕ × Block). p.0 < n) blocks
    → All (IsTarget n) (label_to_block_map blocks)
unfolding label_to_block_map
label_to_block_map-below n [] h = tt
label_to_block_map-below n ((id, block) ∷ blocks) h =
    All-append (IsTarget n) (labels_to id block.labels) (label_to_block_map blocks)
      (labels_to-below n id block.labels h.0) (label_to_block_map-below n blocks h.1)

module _ (n : ℕ) where
  or_else-Below :
      (o p : Option ℕ) → Below n (edge_to o) → Below n (edge_to p) → Below n (edge_to (or_else o p))
  or_else-Below (some x) p h g = h
  or_else-Below none p h g = g

  get-Below :
      (labels : List (String × ℕ)) (s : String)
      → All (IsTarget n) labels
      → Below n (edge_to (get labels s))
  unfolding get
  get-Below [] s h = tt
  get-Below ((label, id) ∷ labels) s h =
      or_else-Below (get labels s) (if str_eq label s then some id else none)
        (get-Below labels s h.1) (if-intro (λ o. Below n (edge_to o)) (str_eq label s) (h.0, tt) tt)

  fallthrough_edge-Below :
      (cfg : Cfg) (id : ℕ) → length cfg.successors ≡ n → Below n (fallthrough_edge cfg id)
  unfolding fallthrough_edge
  fallthrough_edge-Below cfg id e = elim (Bool-cases (leb (length cfg.successors) (suc id))) [
    | inl over ↦ rw over tt
    | inr fits ↦ rw fits (
        if-intro (Below n)
          (same_function (function_of_block cfg id) (function_of_block cfg (suc id)))
          (omega (arith, e, leb-false→lt fits), tt) tt)
  ]

  module _ (cfg : Cfg) (labels : List (String × ℕ)) (size : length cfg.successors ≡ n)
      (targets : All (IsTarget n) labels) where
    call_target-Below : (o : Option (String ⊎ Number)) → Below n (call_target labels o)
    call_target-Below (some (inl label)) = get-Below labels label targets
    call_target-Below (some (inr number)) = tt
    call_target-Below none = tt

    jump_target-Below {ℓ} : {A : Type ℓ} (o : Option (String ⊎ A)) → Below n (jump_target labels o)
    jump_target-Below (some (inl label)) = get-Below labels label targets
    jump_target-Below (some (inr off)) = tt
    jump_target-Below none = tt

    instruction_edges-Below :
        (id : ℕ) (o : Option Instruction) → Below n (instruction_edges cfg labels id o)
    unfolding instruction_edges
    instruction_edges-Below id none = tt
    instruction_edges-Below id (some inst) =
        if-intro (Below n) (opcode_eq inst.opcode Opcode.call) (call_target-Below inst.imm) (
          if-intro (Below n) (jumps inst)
            (All-append (λ i. i < n) (jump_target labels inst.off) _ (jump_target-Below inst.off)
              (if-intro (Below n) (not (opcode_eq inst.opcode Opcode.ja))
                (fallthrough_edge-Below cfg id size) tt))
            tt)

    last_edge-Below : (id : ℕ) (o : Option Instruction) → Below n (last_edge cfg id o)
    unfolding last_edge
    last_edge-Below id none = tt
    last_edge-Below id (some inst) =
        if-intro (Below n) (opcode_eq inst.opcode Opcode.exit || jumps inst) tt
          (fallthrough_edge-Below cfg id size)

    node_edges-Below :
        (id : ℕ) (nodes : List InstructionNode) → Below n (node_edges cfg labels id nodes)
    unfolding node_edges
    node_edges-Below id [] = tt
    node_edges-Below id (node ∷ []) =
        All-append (λ i. i < n) (instruction_edges cfg labels id node.instruction) _
          (instruction_edges-Below id node.instruction) (last_edge-Below id node.instruction)
    node_edges-Below id (node ∷ node' ∷ nodes) =
        All-append (λ i. i < n) (instruction_edges cfg labels id node.instruction) _
          (instruction_edges-Below id node.instruction) (node_edges-Below id (node' ∷ nodes))

-- Both ends of an edge are blocks.
abbrev pub IsEdge : ℕ → ℕ × ℕ → Type 0
IsEdge n edge = (edge.0 < n) × (edge.1 < n)

from_block-IsEdge :
    (n id : ℕ) (targets : List ℕ)
    → id < n
    → Below n targets
    → All (IsEdge n) (from_block id targets)
from_block-IsEdge n id [] h g = tt
from_block-IsEdge n id (target ∷ targets) h g = ((h, g.0), from_block-IsEdge n id targets h g.1)

edges_of-IsEdge :
    (n : ℕ) (cfg : Cfg) (labels : List (String × ℕ)) (blocks : List (ℕ × Block))
    → length cfg.successors ≡ n
    → All (IsTarget n) labels
    → All (λ (p : ℕ × Block). p.0 < n) blocks
    → All (IsEdge n) (edges_of cfg labels blocks)
unfolding edges_of
edges_of-IsEdge n cfg labels [] size targets h = tt
edges_of-IsEdge n cfg labels ((id, block) ∷ blocks) size targets h =
    All-append (IsEdge n) (from_block id (node_edges cfg labels id block.instructions)) _
      (from_block-IsEdge n id (node_edges cfg labels id block.instructions) h.0
        (node_edges-Below n cfg labels size targets id block.instructions))
      (edges_of-IsEdge n cfg labels blocks size targets h.1)

pub collect_edges-IsEdge :
    (n : ℕ) (cfg : Cfg)
    → length cfg.successors ≡ n
    → All (λ (p : ℕ × Block). p.0 < n) (all_blocks cfg)
    → All (IsEdge n) (collect_edges cfg)
unfolding collect_edges
collect_edges-IsEdge n cfg size h =
    edges_of-IsEdge n cfg (label_to_block_map (all_blocks cfg)) (all_blocks cfg) size
      (label_to_block_map-below n (all_blocks cfg) h) h
