-- ===== src/Ir/Cfg/Layout.antt =====
-- What the blocks hold: the labels and instructions of a program in order, and a block begins only
-- where one is needed.
pub mod Laws
use mathlib.Core.List.{append_assoc, append-nil}
use sbpf.Base.{String, ℕ, suc, ◌≡◌, ◌∙◌, refl, sym, ap, arith, true, false, Option}
use sbpf.Base.{Bool-cases, List, [], ◌∷◌, ◌++◌, All, All-append, some, none, ◌⊎◌, inl, inr}
use sbpf.Errors.{ok, ok-injective, ok-ne-panic}
use sbpf.Instruction.{Instruction}
use sbpf.Ir.Cfg.{
  InputNode, InstructionNode, from_instruction, Block, BlockCollector, empty_block, is_empty,
  push_current_block, split, on_label, ends_block, on_instruction, collect_node, collect_from,
  finish, add_instruction, add_label,
}

-- A label or an instruction, with its position in the program.
abbrev pub Entry : Type 0
Entry = ℕ × (String ⊎ Instruction)

unfoldable pub entries_in : ℕ → List InputNode → List Entry
entries_in i [] = []
entries_in i (InputNode.label name ∷ nodes) = (i, inl name) ∷ entries_in (suc i) nodes
entries_in i (InputNode.instruction inst ∷ nodes) = (i, inr inst) ∷ entries_in (suc i) nodes
entries_in i (InputNode.other ∷ nodes) = entries_in (suc i) nodes

abbrev pub label_entries : List (String × ℕ) → List Entry
label_entries [] = []
label_entries ((name, i) ∷ labels) = (i, inl name) ∷ label_entries labels

abbrev pub node_entry : Option ℕ → Option Instruction → List Entry
node_entry (some i) (some inst) = (i, inr inst) ∷ []
node_entry _ _ = []

abbrev pub instruction_entries : List InstructionNode → List Entry
instruction_entries [] = []
instruction_entries (node ∷ nodes) =
    node_entry node.source_node_id node.instruction ++ instruction_entries nodes

-- The labels of a block and then its instructions.
abbrev pub entries : Block → List Entry
entries block = label_entries block.labels ++ instruction_entries block.instructions

abbrev pub all_entries : List Block → List Entry
all_entries [] = []
all_entries (block ∷ blocks) = entries block ++ all_entries blocks

abbrev pub ids : List Entry → List ℕ
ids [] = []
ids (e ∷ es) = e.0 ∷ ids es

-- The nodes of a block are its labels and then its instructions.
abbrev pub IsOrdered : Block → Type 0
IsOrdered block = block.node_ids ≡ ids (entries block)

-- A block whose last instruction is an exit or a jump.
abbrev pub IsEnded : Block → Type 0
IsEnded block =
    (body : List InstructionNode) × (last : InstructionNode) × (inst : Instruction)
    × (block.instructions ≡ body ++ (last ∷ []))
    × (last.instruction ≡ some inst)
    × (ends_block inst ≡ true)

-- A block ends where control may leave it, or where the next one has a label.
abbrev pub IsParted : Block → Block → Type 0
IsParted block next = IsEnded block ⊎ (is_empty next.labels ≡ false)

unfoldable pub IsMaximal : List Block → Type 0
IsMaximal [] = Unit
IsMaximal (block ∷ []) = Unit
IsMaximal (block ∷ next ∷ blocks) = IsParted block next × IsMaximal (next ∷ blocks)

-- The same of blocks that another one follows.
abbrev pub first : List Block → Block → Block
first [] next = next
first (block ∷ blocks) next = block

abbrev pub AreParted : List Block → Block → Type 0
AreParted [] next = Unit
AreParted (block ∷ blocks) next = IsParted block (first blocks next) × AreParted blocks next

first-append : (bs : List Block) (b n : Block) → first (bs ++ (b ∷ [])) n ≡ first bs b
first-append [] b n = refl
first-append (c ∷ bs) b n = refl

pub AreParted-append :
    (bs : List Block) (b n : Block) → AreParted bs b → IsParted b n → AreParted (bs ++ (b ∷ [])) n
AreParted-append [] b n h p = (p, tt)
AreParted-append (c ∷ bs) b n h p = (rw (first-append bs b n) h.0, AreParted-append bs b n h.1 p)

pub AreParted-labelled :
    (bs : List Block) (b n : Block)
    → AreParted bs b
    → (is_empty b.labels ≡ false → is_empty n.labels ≡ false)
    → AreParted bs n
AreParted-labelled [] b n h f = tt
AreParted-labelled (c ∷ []) b n (inl ended, t) f = (inl ended, tt)
AreParted-labelled (c ∷ []) b n (inr labelled, t) f = (inr (f labelled), tt)
AreParted-labelled (c ∷ d ∷ bs) b n h f = (h.0, AreParted-labelled (d ∷ bs) b n h.1 f)

pub AreParted-IsMaximal : (bs : List Block) (n : Block) → AreParted bs n → IsMaximal bs
unfolding IsMaximal
AreParted-IsMaximal [] n h = tt
AreParted-IsMaximal (b ∷ []) n h = tt
AreParted-IsMaximal (b ∷ c ∷ bs) n h = (h.0, AreParted-IsMaximal (c ∷ bs) n h.1)

pub IsMaximal-append : (bs : List Block) (b : Block) → AreParted bs b → IsMaximal (bs ++ (b ∷ []))
unfolding IsMaximal
IsMaximal-append [] b h = tt
IsMaximal-append (c ∷ []) b h = h
IsMaximal-append (c ∷ d ∷ bs) b h = (h.0, IsMaximal-append (d ∷ bs) b h.1)

pub label_entries-append :
    (ls : List (String × ℕ)) (name : String) (i : ℕ)
    → label_entries (ls ++ ((name, i) ∷ [])) ≡ label_entries ls ++ ((i, inl name) ∷ [])
label_entries-append [] name i = refl
label_entries-append (l ∷ ls) name i = ap (λ t. (l.1, inl l.0) ∷ t) (label_entries-append ls name i)

pub instruction_entries-append :
    (ns : List InstructionNode) (i : ℕ) (inst : Instruction)
    → instruction_entries (ns ++ (from_instruction i inst ∷ []))
      ≡ instruction_entries ns ++ ((i, inr inst) ∷ [])
unfolding from_instruction
instruction_entries-append [] i inst = refl
instruction_entries-append (n ∷ ns) i inst =
    let e = node_entry n.source_node_id n.instruction in
    ap (λ t. e ++ t) (instruction_entries-append ns i inst)
    ∙ sym (append_assoc e (instruction_entries ns) ((i, inr inst) ∷ []))

pub all_entries-append :
    (bs : List Block) (b : Block) → all_entries (bs ++ (b ∷ [])) ≡ all_entries bs ++ entries b
all_entries-append [] b = append-nil (entries b)
all_entries-append (c ∷ bs) b =
    ap (λ t. entries c ++ t) (all_entries-append bs b)
    ∙ sym (append_assoc (entries c) (all_entries bs) (entries b))

pub ids-append : (es fs : List Entry) → ids (es ++ fs) ≡ ids es ++ ids fs
ids-append [] fs = refl
ids-append (e ∷ es) fs = ap (λ t. e.0 ∷ t) (ids-append es fs)
