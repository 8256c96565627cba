-- ===== src/Ir/Cfg/Functions.antt =====
-- crates/ir/src/cfg.rs: how the blocks are grouped into functions.
use text.Mathlib.Text.{◌==◌ as str_eq}
use sbpf.Base.{ℕ, zero, suc, Bool, false, ◌||◌, if◌then◌else◌, String, List, [], ◌∷◌, ◌++◌}
use sbpf.Base.{Option, some, none, length, get_elem?, take, drop}
use sbpf.Errors.{Result, ok, panic, ◌>>=◌}
use sbpf.Ir.Cfg.{Block, CfgFunction}

-- `contains` of the set of function entries.
unfoldable pub has_name : List String → String → Bool
has_name [] s = false
has_name (t ∷ names) s = let rest = has_name names s in str_eq t s || rest

-- The first label of a block that is a function entry.
unfoldable pub entry_name : List String → List (String × ℕ) → Option String
unfolding has_name
entry_name entries [] = none
entry_name entries ((label, id) ∷ labels) =
    if has_name entries label then some label else entry_name entries labels

-- `(0..n).collect()`, from an index.
unfoldable pub range : ℕ → ℕ → List ℕ
range i zero = []
range i (suc n) = i ∷ range (suc i) n

-- `functions.last_mut()` with a block appended; `unreachable!` where there is no function.
unfoldable pub append_last : ℕ → Block → List CfgFunction → Result (Unit {0}) (List CfgFunction)
append_last block_id block [] = panic
append_last block_id block (func ∷ []) = ok (
    record func {
      block_ids = func.block_ids ++ (block_id ∷ []);
      blocks = func.blocks ++ (block ∷ []);
    }
    ∷ [])
append_last block_id block (func ∷ func' ∷ functions) = do
  rest ← append_last block_id block (func' ∷ functions)
  ok (func ∷ rest)

-- One round of the loop over the blocks.
abbrev pub add_block :
    ℕ → Block → Option String → List CfgFunction → Result (Unit {0}) (List CfgFunction)
add_block block_id block (some name) functions =
    ok (functions ++ (record { name = name; block_ids = block_id ∷ []; blocks = block ∷ [] } ∷ []))
add_block block_id block none functions = append_last block_id block functions

unfoldable pub group_from :
    List String → ℕ → List Block → List CfgFunction → Result (Unit {0}) (List CfgFunction)
unfolding entry_name append_last
group_from entries block_id [] functions = ok functions
group_from entries block_id (block ∷ blocks) functions = do
  functions' ← add_block block_id block (entry_name entries block.labels) functions
  group_from entries (suc block_id) blocks functions'

-- The position of the function of a name, counted from an index.
unfoldable pub named_from : ℕ → List CfgFunction → String → Option ℕ
named_from i [] name = none
named_from i (func ∷ functions) name =
    if str_eq func.name name then some i else named_from (suc i) functions name

-- `functions[0..=pos].rotate_right(1)`.
abbrev pub rotate : List CfgFunction → ℕ → Option CfgFunction → List CfgFunction
rotate functions pos (some func) = func ∷ (take pos functions ++ drop (suc pos) functions)
rotate functions pos none = functions

abbrev pub root_at : List CfgFunction → Option ℕ → List CfgFunction
root_at functions (some pos) = rotate functions pos (get_elem? functions pos)
root_at functions none = functions

-- The declared entry function is placed first.
unfoldable pub root_first : Option String → List CfgFunction → List CfgFunction
unfolding named_from
root_first none functions = functions
root_first (some entry_label) functions = root_at functions (named_from 0 functions entry_label)

unfoldable pub collect_functions :
    List Block → List String → Option String → Result (Unit {0}) (List CfgFunction)
unfolding range group_from root_first
collect_functions [] function_entries entry_label = ok []
collect_functions (block ∷ blocks) [] entry_label = ok (
    record { name = ""; block_ids = range 0 (length (block ∷ blocks)); blocks = block ∷ blocks }
    ∷ [])
collect_functions (block ∷ blocks) (entry ∷ entries) entry_label = do
  functions ← group_from (entry ∷ entries) 0 (block ∷ blocks) []
  ok (root_first entry_label functions)
