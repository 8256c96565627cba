-- ===== src/Ir/Cfg.antt =====
-- crates/ir/src/cfg.rs and dataflow.rs: the control flow graph, whose functions own their blocks, and
-- how the nodes of a program are grouped into blocks and functions.
pub mod Functions
pub mod Edges
pub mod Bounds
pub mod EdgeBounds
pub mod Converse
pub mod Layout
pub mod Blocks
use text.Mathlib.Text.{◌==◌ as str_eq}
use sbpf.Base.{
  ℕ, zero, suc, ◌+◌, Bool, true, false, not, ◌||◌, if◌then◌else◌, String, List, [], ◌∷◌, ◌++◌,
}
use sbpf.Base.{Option, some, none, length, get_elem?, take, drop}
use sbpf.Base.Sets.{contains}
use sbpf.Errors.{Result, ok, err, panic, ◌>>=◌}
use sbpf.Opcode.{Opcode, opcode_eq}
use sbpf.Instruction.{Instruction, is_jump}

pub data InputNode : Type 0 where
  label : String → InputNode
  instruction : Instruction → InputNode
  other : InputNode

pub record InstructionNode : Type 0 where
  pub opcode : Opcode
  pub source_node_id : Option ℕ
  pub instruction : Option Instruction

unfoldable pub from_instruction : ℕ → Instruction → InstructionNode
from_instruction source_node_id inst = record {
  opcode = inst.opcode;
  source_node_id = some source_node_id;
  instruction = some inst;
}

pub record Block : Type 0 where
  pub node_ids : List ℕ
  pub labels : List (String × ℕ)
  pub instructions : List InstructionNode

pub record CfgFunction : Type 0 where
  pub name : String
  pub block_ids : List ℕ
  pub blocks : List Block

pub record Cfg : Type 0 where
  pub functions : List CfgFunction
  pub successors : List (List ℕ)
  pub predecessors : List (List ℕ)

-- A slice of the adjacency, and the empty one out of range.
abbrev pub or_empty : Option (List ℕ) → List ℕ
or_empty (some ids) = ids
or_empty none = []

unfoldable pub successors : Cfg → ℕ → List ℕ
successors cfg id = or_empty (get_elem? cfg.successors id)

unfoldable pub predecessors : Cfg → ℕ → List ℕ
predecessors cfg id = or_empty (get_elem? cfg.predecessors id)

-- `position(|func| func.block_ids.contains(&block_id))`, counted from an index.
unfoldable pub owner_from : ℕ → List CfgFunction → ℕ → Option ℕ
unfolding contains
owner_from i [] id = none
owner_from i (func ∷ functions) id =
    if contains func.block_ids id then some i else owner_from (suc i) functions id

unfoldable pub function_of_block : Cfg → ℕ → Option ℕ
unfolding owner_from
function_of_block cfg id = owner_from 0 cfg.functions id

abbrev pub zip : List ℕ → List Block → List (ℕ × Block)
zip [] blocks = []
zip (id ∷ ids) [] = []
zip (id ∷ ids) (block ∷ blocks) = (id, block) ∷ zip ids blocks

unfoldable pub blocks_of : List CfgFunction → List (ℕ × Block)
blocks_of [] = []
blocks_of (func ∷ functions) = zip func.block_ids func.blocks ++ blocks_of functions

unfoldable pub all_blocks : Cfg → List (ℕ × Block)
unfolding blocks_of
all_blocks cfg = blocks_of cfg.functions

abbrev pub holds : Option Bool → Bool
holds (some b) = b
holds none = false

-- The tests of the source on an instruction; `is_jump` has no panic, since every opcode has a type.
abbrev pub jumps : Instruction → Bool
jumps inst = holds (is_jump inst)

pub record BlockCollector : Type 0 where
  pub blocks : List Block
  pub current : Block

abbrev pub empty_block : Block
empty_block = record { node_ids = []; labels = []; instructions = [] }

abbrev pub is_empty {ℓ} : {A : Type ℓ} → List A → Bool
is_empty [] = true
is_empty (x ∷ xs) = false

unfoldable pub push_current_block : BlockCollector → BlockCollector
push_current_block c = record { blocks = c.blocks ++ (c.current ∷ []); current = empty_block }

-- The collector before the label is added.
abbrev pub split : BlockCollector → BlockCollector
split c = if not (is_empty c.current.instructions) then push_current_block c else c

abbrev pub add_label : ℕ → String → Block → Block
add_label node_id name block = record block {
  node_ids = block.node_ids ++ (node_id ∷ []);
  labels = block.labels ++ ((name, node_id) ∷ []);
}

unfoldable pub on_label : ℕ → String → BlockCollector → BlockCollector
unfolding push_current_block
on_label node_id name c =
    let c' = split c in record c' { current = add_label node_id name c'.current }

abbrev pub add_instruction : ℕ → Instruction → Block → Block
add_instruction node_id inst block = record block {
  node_ids = block.node_ids ++ (node_id ∷ []);
  instructions = block.instructions ++ (from_instruction node_id inst ∷ []);
}

-- An instruction after which a block ends.
unfoldable pub ends_block : Instruction → Bool
unfolding opcode_eq is_jump
ends_block inst = opcode_eq inst.opcode Opcode.exit || jumps inst

unfoldable pub on_instruction : ℕ → Instruction → BlockCollector → BlockCollector
unfolding push_current_block from_instruction ends_block
on_instruction node_id inst c =
    let c' = record c { current = add_instruction node_id inst c.current } in
    if ends_block inst then push_current_block c' else c'

unfoldable pub collect_node : ℕ → InputNode → BlockCollector → BlockCollector
unfolding on_label on_instruction
collect_node node_id (InputNode.label name) c = on_label node_id name c
collect_node node_id (InputNode.instruction inst) c = on_instruction node_id inst c
collect_node node_id InputNode.other c = c

unfoldable pub collect_from : ℕ → List InputNode → BlockCollector → BlockCollector
unfolding collect_node
collect_from node_id [] c = c
collect_from node_id (node ∷ nodes) c =
    collect_from (suc node_id) nodes (collect_node node_id node c)

-- Labels with no instruction after them make the `assert!` panic.
unfoldable pub finish : BlockCollector → Result (Unit {0}) (List Block)
unfolding push_current_block
finish c =
    if is_empty c.current.labels || not (is_empty c.current.instructions)
    then ok
        (if not (is_empty c.current.instructions) then (push_current_block c).blocks else c.blocks)
    else panic

unfoldable pub collect_blocks : List InputNode → Result (Unit {0}) (List Block)
unfolding collect_from finish
collect_blocks nodes = finish (collect_from 0 nodes (record { blocks = []; current = empty_block }))
