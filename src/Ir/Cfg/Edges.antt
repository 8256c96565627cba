-- ===== src/Ir/Cfg/Edges.antt =====
-- crates/ir/src/cfg.rs: the edges between blocks, and the graph.
use text.Mathlib.Text.{◌==◌ as str_eq}
use sbpf.Base.{ℕ, suc, Bool, true, not, ◌||◌, if◌then◌else◌, leb, ◌==◌, set, replicate}
use sbpf.Base.{String, List, [], ◌∷◌, ◌++◌, Option, some, none, length, get_elem?, ◌⊎◌, inl, inr}
use sbpf.Base.Sets.{contains}
use sbpf.Errors.{Result, ok, ◌>>=◌}
use sbpf.Opcode.{Opcode, opcode_eq}
use sbpf.Instruction.{Instruction, Number}
use sbpf.Ir.Cfg.{
  InputNode, InstructionNode, Block, Cfg, function_of_block, all_blocks, jumps, collect_blocks,
}
use sbpf.Ir.Cfg.Functions.{collect_functions}

-- `label_to_block_map`: the labels of the blocks, of which the last counts where two are the same.
unfoldable pub labels_to : ℕ → List (String × ℕ) → List (String × ℕ)
labels_to block_id [] = []
labels_to block_id ((label, node_id) ∷ labels) = (label, block_id) ∷ labels_to block_id labels

unfoldable pub label_to_block_map : List (ℕ × Block) → List (String × ℕ)
unfolding labels_to
label_to_block_map [] = []
label_to_block_map ((block_id, block) ∷ blocks) =
    labels_to block_id block.labels ++ label_to_block_map blocks

abbrev pub or_else : Option ℕ → Option ℕ → Option ℕ
or_else (some x) y = some x
or_else none y = y

unfoldable pub get : List (String × ℕ) → String → Option ℕ
get [] s = none
get ((label, block_id) ∷ labels) s =
    or_else (get labels s) (if str_eq label s then some block_id else none)

-- The edges that go out from a block, as a list of targets.
abbrev pub edge_to : Option ℕ → List ℕ
edge_to (some target) = target ∷ []
edge_to none = []

-- Two blocks are of one function, or one of them is of none.
abbrev pub same_function : Option ℕ → Option ℕ → Bool
same_function (some f) (some g) = f == g
same_function (some f) none = true
same_function none o = true

unfoldable pub fallthrough_edge : Cfg → ℕ → List ℕ
unfolding function_of_block
fallthrough_edge cfg block_id =
    let next = suc block_id in
    if leb (length cfg.successors) next
    then []
    else if same_function (function_of_block cfg block_id) (function_of_block cfg next)
    then next ∷ []
    else []

abbrev pub call_target : List (String × ℕ) → Option (String ⊎ Number) → List ℕ
call_target labels (some (inl label)) = edge_to (get labels label)
call_target labels (some (inr number)) = []
call_target labels none = []

abbrev pub jump_target {ℓ} : {A : Type ℓ} → List (String × ℕ) → Option (String ⊎ A) → List ℕ
jump_target labels (some (inl label)) = edge_to (get labels label)
jump_target labels (some (inr off)) = []
jump_target labels none = []

-- `walk_instruction_node` with `visit_call` and `visit_jump`.
unfoldable pub instruction_edges : Cfg → List (String × ℕ) → ℕ → Option Instruction → List ℕ
unfolding fallthrough_edge opcode_eq
instruction_edges cfg labels block_id none = []
instruction_edges cfg labels block_id (some inst) =
    if opcode_eq inst.opcode Opcode.call
    then call_target labels inst.imm
    else if jumps inst
    then jump_target labels inst.off
      ++ (if not (opcode_eq inst.opcode Opcode.ja) then fallthrough_edge cfg block_id else [])
    else []

-- The edges of the instructions of a block, and the one to the next block after its last.
unfoldable pub last_edge : Cfg → ℕ → Option Instruction → List ℕ
unfolding fallthrough_edge opcode_eq
last_edge cfg block_id none = []
last_edge cfg block_id (some inst) =
    if opcode_eq inst.opcode Opcode.exit || jumps inst then [] else fallthrough_edge cfg block_id

unfoldable pub node_edges : Cfg → List (String × ℕ) → ℕ → List InstructionNode → List ℕ
unfolding instruction_edges last_edge
node_edges cfg labels block_id [] = []
node_edges cfg labels block_id (node ∷ []) =
    instruction_edges cfg labels block_id node.instruction
    ++ last_edge cfg block_id node.instruction
node_edges cfg labels block_id (node ∷ node' ∷ nodes) =
    instruction_edges cfg labels block_id node.instruction
    ++ node_edges cfg labels block_id (node' ∷ nodes)

abbrev pub from_block : ℕ → List ℕ → List (ℕ × ℕ)
from_block block_id [] = []
from_block block_id (target ∷ targets) = (block_id, target) ∷ from_block block_id targets

unfoldable pub edges_of : Cfg → List (String × ℕ) → List (ℕ × Block) → List (ℕ × ℕ)
unfolding node_edges
edges_of cfg labels [] = []
edges_of cfg labels ((block_id, block) ∷ blocks) =
    from_block block_id (node_edges cfg labels block_id block.instructions)
    ++ edges_of cfg labels blocks

unfoldable pub collect_edges : Cfg → List (ℕ × ℕ)
unfolding edges_of label_to_block_map all_blocks
collect_edges cfg = edges_of cfg (label_to_block_map (all_blocks cfg)) (all_blocks cfg)

-- `get_mut(at)`, and `push(id)` where the slice does not contain it.
abbrev pub pushed : ℕ → List ℕ → List ℕ
pushed id ids = if not (contains ids id) then ids ++ (id ∷ []) else ids

abbrev pub updated : List (List ℕ) → ℕ → ℕ → Option (List ℕ) → List (List ℕ)
updated adjacency at id (some ids) = set adjacency at (pushed id ids)
updated adjacency at id none = adjacency

unfoldable pub link : List (List ℕ) → ℕ → ℕ → List (List ℕ)
unfolding contains
link adjacency at id = updated adjacency at id (get_elem? adjacency at)

unfoldable pub add_edge : ℕ × ℕ → Cfg → Cfg
unfolding link
add_edge (from, to) cfg = record cfg {
  successors = link cfg.successors from to;
  predecessors = link cfg.predecessors to from;
}

unfoldable pub add_edges : List (ℕ × ℕ) → Cfg → Cfg
unfolding add_edge
add_edges [] cfg = cfg
add_edges (edge ∷ edges) cfg = add_edges edges (add_edge edge cfg)

unfoldable pub control_flow_graph :
    List InputNode → List String → Option String → Result (Unit {0}) Cfg
unfolding collect_blocks collect_functions collect_edges add_edges
control_flow_graph nodes function_entries entry_label = do
  flat_blocks ← collect_blocks nodes
  functions ← collect_functions flat_blocks function_entries entry_label
  let n_blocks = length flat_blocks
  let cfg : Cfg = record {
    functions = functions;
    successors = replicate n_blocks [];
    predecessors = replicate n_blocks [];
  }
  ok (add_edges (collect_edges cfg) cfg)
