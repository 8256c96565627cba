-- ===== src/Analyzer.antt =====
-- crates/analyzer/src/remove_dead_functions.rs: functions that are not called are dropped from the graph.
pub mod Live
pub mod Search
pub mod Marks
pub mod Laws
use sbpf.Base.{
  ℕ, zero, suc, ◌==◌, Bool, true, false, not, ◌&&◌, if◌then◌else◌, String, List, [], ◌∷◌, ◌++◌,
}
use sbpf.Base.{Option, some, none, length, get_elem?}
use sbpf.Base.Sets.{contains}
use sbpf.Ir.Worklist.{WorklistVisitor, WorklistEngine, new, enqueue_all, run}
use sbpf.Ir.Cfg.{Block, CfgFunction, Cfg, successors, function_of_block}

pub record RemovedFunction : Type 0 where
  pub name : String
  pub node_ids : List ℕ

-- `Some(callee) != caller`.
abbrev pub differs : ℕ → Option ℕ → Bool
differs callee none = true
differs callee (some caller) = not (callee == caller)

abbrev pub block_ids_of : Option CfgFunction → List ℕ
block_ids_of (some func) = func.block_ids
block_ids_of none = []

-- The functions that are enqueued and the blocks to enqueue, after one successor.
abbrev pub cross : Cfg → Option ℕ → List ℕ → Option ℕ → List ℕ × List ℕ
cross cfg caller enqueued none = (enqueued, [])
cross cfg caller enqueued (some callee) =
    if differs callee caller && not (contains enqueued callee)
    then (callee ∷ enqueued, block_ids_of (get_elem? cfg.functions callee))
    else (enqueued, [])

unfoldable pub cross_all : Cfg → Option ℕ → List ℕ → List ℕ → List ℕ × List ℕ
unfolding function_of_block contains
cross_all cfg caller enqueued [] = (enqueued, [])
cross_all cfg caller enqueued (succ ∷ rest) =
    let here = cross cfg caller enqueued (function_of_block cfg succ) in
    let later = cross_all cfg caller here.0 rest in (later.0, here.1 ++ later.1)

-- `EnqueueFunctionBlocks`.
unfoldable pub enqueue_function_blocks : Cfg → WorklistVisitor (List ℕ)
unfolding cross_all successors
enqueue_function_blocks cfg enqueued block_id =
    cross_all cfg (function_of_block cfg block_id) enqueued (successors cfg block_id)

-- `filter_map` into a set.
abbrev pub insert : Option ℕ → List ℕ → List ℕ
insert none s = s
insert (some i) s = if contains s i then s else i ∷ s

unfoldable pub functions_of : Cfg → List ℕ → List ℕ
unfolding function_of_block contains
functions_of cfg [] = []
functions_of cfg (block_id ∷ blocks) =
    insert (function_of_block cfg block_id) (functions_of cfg blocks)

abbrev pub visited_functions : Cfg → Option (WorklistEngine × List ℕ) → Option (List ℕ)
visited_functions cfg (some (engine, enqueued)) = some (functions_of cfg engine.visited)
visited_functions cfg none = none

-- No node is visited twice, so that a round for each block and one more are enough.
unfoldable pub reachable_functions : Cfg → CfgFunction → Option (List ℕ)
unfolding run enqueue_all new enqueue_function_blocks functions_of
reachable_functions cfg entry = visited_functions cfg (
    run (successors cfg) (enqueue_function_blocks cfg) (suc (length cfg.successors))
      (enqueue_all entry.block_ids new) (0 ∷ []))

unfoldable pub node_ids_of : List Block → List ℕ
node_ids_of [] = []
node_ids_of (block ∷ blocks) = block.node_ids ++ node_ids_of blocks

unfoldable pub function_node_ids : CfgFunction → List ℕ
unfolding node_ids_of
function_node_ids func = node_ids_of func.blocks

-- The functions of a set of indices, counted from an index, and the others as they are reported.
unfoldable pub kept_from : ℕ → List ℕ → List CfgFunction → List CfgFunction
unfolding contains
kept_from i reachable [] = []
kept_from i reachable (func ∷ functions) =
    let rest = kept_from (suc i) reachable functions in
    if contains reachable i then func ∷ rest else rest

unfoldable pub removed_from : ℕ → List ℕ → List CfgFunction → List RemovedFunction
unfolding contains function_node_ids
removed_from i reachable [] = []
removed_from i reachable (func ∷ functions) =
    let rest = removed_from (suc i) reachable functions in
    if contains reachable i
    then rest
    else record { name = func.name; node_ids = function_node_ids func } ∷ rest

abbrev pub removed_with : Cfg → Option (List ℕ) → Option (Cfg × List RemovedFunction)
removed_with cfg none = none
removed_with cfg (some reachable) =
    if length reachable == length cfg.functions
    then some (cfg, [])
    else some (
      record cfg { functions = kept_from 0 reachable cfg.functions },
      removed_from 0 reachable cfg.functions,
    )

abbrev pub removed_by : Cfg → List CfgFunction → Option (Cfg × List RemovedFunction)
removed_by cfg [] = some (cfg, [])
removed_by cfg (entry ∷ functions) = removed_with cfg (reachable_functions cfg entry)

-- `none` stands for a traversal that has not ended when its fuel has.
unfoldable pub remove_dead_functions : Cfg → Option (Cfg × List RemovedFunction)
unfolding reachable_functions kept_from removed_from
remove_dead_functions cfg = removed_by cfg cfg.functions
