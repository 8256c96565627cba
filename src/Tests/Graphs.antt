-- ===== src/Tests/Graphs.antt =====
-- The theorems on the graphs at a graph of four nodes and at a program of three functions.
use sbpf.Base.{
  ℕ, zero, suc, ◌<◌, ◌≡◌, ◌↔◌, refl, sym, ap, subst, ◌∙◌, arith, true, String, List, [], ◌∷◌,
  length, All,
}
use sbpf.Base.{Option, some, none, inl}
use sbpf.Base.Sets.{contains, Distinct}
use sbpf.Errors.{ok, ok-injective}
use sbpf.Opcode.{Opcode, opcode_eq, discriminant}
use sbpf.Opcode.Tables.{lookup, opcode_to_type, register_group}
use sbpf.Instruction.{Instruction, is_jump, get_opcode_type}
use sbpf.Ir.Worklist.{DfsGraph, WorklistEngine, closure, new, enqueue_all, run}
use sbpf.Ir.Worklist.Reach.{Reachable, visits, run-Reachable}
use sbpf.Ir.Cfg.{
  InputNode, InstructionNode, Block, CfgFunction, Cfg, collect_blocks, collect_from, collect_node,
  on_label, on_instruction, from_instruction, push_current_block, ends_block, finish, all_blocks,
  blocks_of, function_of_block, owner_from,
}
use sbpf.Ir.Cfg.Functions.{
  collect_functions, group_from, entry_name, has_name, append_last, root_first, named_from,
}
use sbpf.Ir.Cfg.Layout.{all_entries, entries_in, IsOrdered, IsMaximal}
use sbpf.Ir.Cfg.Blocks.{ids_of, positions, IsBasic, collect_blocks-IsBasic}
use sbpf.Ir.Cfg.Edges.{
  control_flow_graph, collect_edges, edges_of, label_to_block_map, labels_to, node_edges,
  instruction_edges, last_edge, fallthrough_edge, get, add_edges, add_edge, link,
}
use sbpf.Ir.Cfg.Converse.{IsGraph, control_flow_graph-IsGraph}
use sbpf.Analyzer.{RemovedFunction, remove_dead_functions}
use sbpf.Analyzer.Laws.{IsLiveFunction, IsSplit, remove_dead_functions-IsSplit}

-- 0 → 1, 2 and 1, 2 → 3.
abbrev diamond : DfsGraph
diamond zero = 1 ∷ 2 ∷ []
diamond (suc zero) = 3 ∷ []
diamond (suc (suc zero)) = 3 ∷ []
diamond (suc (suc (suc x))) = []

-- A visitor that writes down the nodes.
abbrev note : List ℕ → ℕ → List ℕ
note nodes node = node ∷ nodes

small : (x : ℕ) → contains (0 ∷ []) x ≡ true → x < 4
unfolding contains
small x h = ground arith

edges : (x y : ℕ) → contains (diamond x) y ≡ true → y < 4
unfolding contains
edges zero y h = ground arith
edges (suc zero) y h = ground arith
edges (suc (suc zero)) y h = ground arith
edges (suc (suc (suc x))) y h = absurd (cc)

run-Reachable_example :
    (e : WorklistEngine) × (v : List ℕ) × (run diamond
        (closure note)
        5
        (enqueue_all (0 ∷ []) new)
        []
      ≡ some (e, v))
    × ((x : ℕ) → (contains e.visited x ≡ true) ↔ Reachable diamond (0 ∷ []) x)
    × Distinct e.visited
    × (v ≡ visits note [] e.visited)
run-Reachable_example = run-Reachable 4 diamond note [] (0 ∷ []) small edges

abbrev plain : Opcode → Option String → Instruction
plain opcode (some label) = record {
  opcode = opcode;
  dst = none;
  src = none;
  off = none;
  imm = some (inl label);
  span = (0, 8);
}
plain opcode none = record {
  opcode = opcode;
  dst = none;
  src = none;
  off = none;
  imm = none;
  span = (0, 8);
}

abbrev call_and_exit : List InputNode → List InputNode
call_and_exit rest =
    InputNode.instruction (plain Opcode.call (some "callee"))
    ∷ InputNode.instruction (plain Opcode.exit none)
    ∷ rest

-- The entry point calls one function and not the other.
abbrev program : List InputNode
program =
    InputNode.label "entrypoint"
    ∷ call_and_exit (
        InputNode.label "dead"
        ∷ InputNode.instruction (plain Opcode.exit none)
        ∷ InputNode.label "callee"
        ∷ InputNode.instruction (plain Opcode.exit none)
        ∷ [])

abbrev entries : List String
entries = "entrypoint" ∷ "dead" ∷ "callee" ∷ []

abbrev node : ℕ → Instruction → InstructionNode
node id inst = record { opcode = inst.opcode; source_node_id = some id; instruction = some inst }

abbrev entry_block : Block
entry_block = record {
  node_ids = 0 ∷ 1 ∷ 2 ∷ [];
  labels = ("entrypoint", 0) ∷ [];
  instructions = node 1 (plain Opcode.call (some "callee")) ∷ node 2 (plain Opcode.exit none) ∷ [];
}

abbrev exit_block : String → ℕ → Block
exit_block name i = record {
  node_ids = i ∷ suc i ∷ [];
  labels = (name, i) ∷ [];
  instructions = node (suc i) (plain Opcode.exit none) ∷ [];
}

abbrev blocks : List Block
blocks = entry_block ∷ exit_block "dead" 3 ∷ exit_block "callee" 5 ∷ []

collected : collect_blocks program ≡ ok blocks
unfolding collect_blocks collect_from collect_node on_label on_instruction from_instruction
    push_current_block ends_block finish opcode_eq discriminant is_jump get_opcode_type lookup
    opcode_to_type register_group
collected = refl

collect_blocks-IsBasic_example :
    (ids_of blocks ≡ positions 0 program)
    × (all_entries blocks ≡ entries_in 0 program)
    × All IsOrdered blocks
    × All IsBasic blocks
    × IsMaximal blocks
collect_blocks-IsBasic_example = collect_blocks-IsBasic program collected

abbrev function : String → ℕ → Block → CfgFunction
function name id block = record { name = name; block_ids = id ∷ []; blocks = block ∷ [] }

abbrev graph : Cfg
graph = record {
  functions =
      function "entrypoint" 0 entry_block
      ∷ function "dead" 1 (exit_block "dead" 3)
      ∷ function "callee" 2 (exit_block "callee" 5)
      ∷ [];
  successors = (2 ∷ []) ∷ [] ∷ [] ∷ [];
  predecessors = [] ∷ [] ∷ (0 ∷ []) ∷ [];
}

built : control_flow_graph program entries (some "entrypoint") ≡ ok graph
unfolding control_flow_graph collect_functions group_from entry_name has_name append_last root_first
    named_from collect_edges edges_of label_to_block_map labels_to all_blocks blocks_of node_edges
    instruction_edges last_edge fallthrough_edge function_of_block owner_from get add_edges add_edge
    link contains collect_blocks collect_from collect_node on_label on_instruction from_instruction
    push_current_block ends_block finish opcode_eq discriminant is_jump get_opcode_type lookup
    opcode_to_type register_group
built = refl

graph-IsGraph : IsGraph 3 graph
graph-IsGraph =
    let (bs, e, g) = control_flow_graph-IsGraph program entries (some "entrypoint") built in
    subst (λ k. IsGraph k graph) (ap length (ok-injective (sym e ∙ collected))) g

control_flow_graph-IsGraph_example :
    (bs : List Block) × (collect_blocks program ≡ ok bs) × IsGraph (length bs) graph
control_flow_graph-IsGraph_example =
    control_flow_graph-IsGraph program entries (some "entrypoint") built

remove_dead_functions-IsSplit_example :
    (kept : List CfgFunction) × (removed : List RemovedFunction) × (remove_dead_functions graph
      ≡ some (record graph { functions = kept }, removed))
    × IsSplit (IsLiveFunction graph) 0 graph.functions kept removed
remove_dead_functions-IsSplit_example = remove_dead_functions-IsSplit 3 graph graph-IsGraph
