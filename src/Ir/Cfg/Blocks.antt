-- ===== src/Ir/Cfg/Blocks.antt =====
-- The blocks of a program: control enters a block at its start and leaves it at its end only.
use mathlib.Core.List.{append_assoc, append-nil}
use sbpf.Base.{String, ℕ, suc, ◌≡◌, ◌∙◌, refl, sym, ap, arith, true, false}
use sbpf.Base.{Bool-cases, List, [], ◌∷◌, ◌++◌, All, All-append, some, inl, inr}
use sbpf.Errors.{ok, ok-injective, ok-ne-panic}
use sbpf.Instruction.{Instruction}
use sbpf.Ir.Cfg.{
  InputNode, InstructionNode, from_instruction, Block, BlockCollector, empty_block, is_empty,
  push_current_block, split, on_label, ends_block, on_instruction, collect_node, collect_from,
  finish, collect_blocks, add_instruction,
}
use sbpf.Ir.Cfg.Layout.{all_entries, entries_in, IsOrdered, IsMaximal}
use sbpf.Ir.Cfg.Layout.Laws.{collect_from-IsLaid, finish-IsLaid}

-- The nodes that the blocks hold, in order.
unfoldable pub ids_of : List Block → List ℕ
ids_of [] = []
ids_of (block ∷ blocks) = block.node_ids ++ ids_of blocks

-- The positions of the labels and the instructions of a program, counted from an index.
unfoldable pub positions : ℕ → List InputNode → List ℕ
positions i [] = []
positions i (InputNode.label name ∷ nodes) = i ∷ positions (suc i) nodes
positions i (InputNode.instruction inst ∷ nodes) = i ∷ positions (suc i) nodes
positions i (InputNode.other ∷ nodes) = positions (suc i) nodes

-- Control passes to the next instruction.
abbrev pub IsStraight : InstructionNode → Type 0
IsStraight node = (inst : Instruction) × (node.instruction ≡ some inst) × (ends_block inst ≡ false)

-- A last instruction after others that pass control on.
pub record IsBasic (block : Block) : Type 0 where
  pub body : List InstructionNode
  pub last : InstructionNode
  pub instructions : block.instructions ≡ body ++ (last ∷ [])
  pub straight : All IsStraight body

ids_of-append : (bs : List Block) (b : Block) → ids_of (bs ++ (b ∷ [])) ≡ ids_of bs ++ b.node_ids
unfolding ids_of
ids_of-append [] b = append-nil b.node_ids
ids_of-append (c ∷ bs) b =
    ap (λ l. c.node_ids ++ l) (ids_of-append bs b)
    ∙ sym (append_assoc c.node_ids (ids_of bs) b.node_ids)

true-ne-false : true ≡ false → ⊥
true-ne-false h = cc

module _ {A : Type 0} (P : A → Type 0) where
  -- The last element of a list that is not empty.
  All-last :
      (xs : List A)
      → is_empty xs ≡ false
      → All P xs
      → (body : List A) × (last : A) × (xs ≡ body ++ (last ∷ [])) × All P body
  All-last [] e h = absurd (cc)
  All-last (x ∷ []) e h = ([], x, refl, tt)
  All-last (x ∷ y ∷ xs) e h =
      let (body, last, q, g) = All-last (y ∷ xs) refl h.1 in
      (x ∷ body, last, ap (λ l. x ∷ l) q, (h.0, g))

-- The nodes that the collector holds.
held : BlockCollector → List ℕ
held c = ids_of c.blocks ++ c.current.node_ids

record IsCollected (c : BlockCollector) : Type 0 where
  pub basic : All IsBasic c.blocks
  pub straight : All IsStraight c.current.instructions
  pub bare :
      is_empty c.current.labels ≡ true
      → is_empty c.current.instructions ≡ true
      → c.current.node_ids ≡ []

-- The current block is pushed, given that it is basic.
held-push : (c : BlockCollector) → held (push_current_block c) ≡ held c
unfolding held push_current_block
held-push c = append-nil _ ∙ ids_of-append c.blocks c.current

push-IsCollected :
    (c : BlockCollector)
    → All IsBasic c.blocks
    → IsBasic c.current
    → IsCollected (push_current_block c)
unfolding push_current_block
push-IsCollected c h b = record {
  basic = All-append IsBasic c.blocks (c.current ∷ []) h (b, tt);
  straight = tt;
  bare = λ p q. refl;
}

straight-IsBasic :
    (block : Block)
    → is_empty block.instructions ≡ false
    → All IsStraight block.instructions
    → IsBasic block
straight-IsBasic block some_left h =
    let (body, last, e, g) = All-last IsStraight block.instructions some_left h in
    record { body = body; last = last; instructions = e; straight = g }

split-IsCollected :
    (c : BlockCollector) → IsCollected c → IsCollected (split c) × (held (split c) ≡ held c)
split-IsCollected c h = elim (Bool-cases (is_empty c.current.instructions)) [
  | inl empty ↦ rw empty (h, refl)
  | inr some_left ↦
      rw some_left
        (push-IsCollected c h.basic (straight-IsBasic c.current some_left h.straight), held-push c)
]

is_empty-append : {A : Type 0} (xs : List A) (x : A) → is_empty (xs ++ (x ∷ [])) ≡ false
is_empty-append [] x = refl
is_empty-append (y ∷ xs) x = refl

on_label-IsCollected :
    (i : ℕ) (name : String) (c : BlockCollector)
    → IsCollected c
    → IsCollected (on_label i name c) × (held (on_label i name c) ≡ held c ++ (i ∷ []))
unfolding on_label held
on_label-IsCollected i name c h =
    let (g, e) = split-IsCollected c h in
    let c' = split c in
    (
      record {
        basic = g.basic;
        straight = g.straight;
        bare = λ p q. absurd (true-ne-false (sym p ∙ is_empty-append c'.current.labels (name, i)));
      },
      sym (append_assoc (ids_of c'.blocks) c'.current.node_ids (i ∷ []))
          ∙ ap (λ l. l ++ (i ∷ [])) e,
    )

-- The collector with one instruction more.
abbrev grown : ℕ → Instruction → BlockCollector → BlockCollector
grown i inst c = record c { current = add_instruction i inst c.current }

grown-IsCollected :
    (i : ℕ) (inst : Instruction) (c : BlockCollector)
    → IsCollected c
    → ends_block inst ≡ false
    → IsCollected (grown i inst c)
unfolding from_instruction
grown-IsCollected i inst c h on = record {
  basic = h.basic;
  straight =
      All-append IsStraight c.current.instructions (from_instruction i inst ∷ []) h.straight
        ((inst, refl, on), tt);
  bare = λ p q.
      absurd
        (true-ne-false (sym q ∙ is_empty-append c.current.instructions (from_instruction i inst)));
}

held-grown :
    (i : ℕ) (inst : Instruction) (c : BlockCollector) → held (grown i inst c) ≡ held c ++ (i ∷ [])
unfolding held
held-grown i inst c = sym (append_assoc (ids_of c.blocks) c.current.node_ids (i ∷ []))

on_instruction-IsCollected :
    (i : ℕ) (inst : Instruction) (c : BlockCollector)
    → IsCollected c
    → IsCollected (on_instruction i inst c) × (held (on_instruction i inst c) ≡ held c ++ (i ∷ []))
unfolding on_instruction
on_instruction-IsCollected i inst c h = elim (Bool-cases (ends_block inst)) [
  | inl ends ↦ rw ends (
    push-IsCollected (grown i inst c) h.basic (record {
      body = c.current.instructions;
      last = from_instruction i inst;
      instructions = refl;
      straight = h.straight;
    }),
    held-push (grown i inst c) ∙ held-grown i inst c,
  )
  | inr on ↦ rw on (grown-IsCollected i inst c h on, held-grown i inst c)
]

collect_from-IsCollected :
    (i : ℕ) (nodes : List InputNode) (c : BlockCollector)
    → IsCollected c
    → IsCollected (collect_from i nodes c)
      × (held (collect_from i nodes c) ≡ held c ++ positions i nodes)
unfolding collect_from collect_node positions
collect_from-IsCollected i [] c h = (h, sym (append-nil (held c)))
collect_from-IsCollected i (InputNode.label name ∷ nodes) c h =
    let (g, e) = on_label-IsCollected i name c h in
    let (g1, e1) = collect_from-IsCollected (suc i) nodes (on_label i name c) g in
    (g1, e1 ∙ ap (λ l. l ++ positions (suc i) nodes) e ∙ append_assoc (held c) (i ∷ []) _)
collect_from-IsCollected i (InputNode.instruction inst ∷ nodes) c h =
    let (g, e) = on_instruction-IsCollected i inst c h in
    let (g1, e1) = collect_from-IsCollected (suc i) nodes (on_instruction i inst c) g in
    (g1, e1 ∙ ap (λ l. l ++ positions (suc i) nodes) e ∙ append_assoc (held c) (i ∷ []) _)
collect_from-IsCollected i (InputNode.other ∷ nodes) c h =
    collect_from-IsCollected (suc i) nodes c h

finish-IsCollected :
    (c : BlockCollector) {blocks : List Block}
    → IsCollected c
    → finish c ≡ ok blocks
    → (ids_of blocks ≡ held c) × All IsBasic blocks
unfolding finish held push_current_block
finish-IsCollected c h e = elim (Bool-cases (is_empty c.current.instructions)) [
  | inl empty ↦ elim (Bool-cases (is_empty c.current.labels)) [
    | inl bare ↦
        let q = ok-injective (rw (bare, empty) at e) in
        rw (← q)
          (sym (append-nil _) ∙ ap (λ l. ids_of c.blocks ++ l) (sym (h.bare bare empty)), h.basic)
    | inr labels ↦ absurd (ok-ne-panic (sym (rw (labels, empty) at e)))
  ]
  | inr some_left ↦
      let pushed : finish c ≡ ok (push_current_block c).blocks = ground (arith, some_left) in
      let q = ok-injective (sym pushed ∙ e) in
      let g = push-IsCollected c h.basic (straight-IsBasic c.current some_left h.straight) in
      rw (← q) (ids_of-append c.blocks c.current, g.basic)
]

-- Where the collector does not panic, its blocks hold the labels and instructions of the program, each
-- once, in order and at its position: a block has its labels first and then a row of instructions, one
-- at least, of which none but the last is an exit or a jump. A block ends with an exit or a jump unless
-- it is the last one or the next one has a label.
pub collect_blocks-IsBasic :
    (nodes : List InputNode) {blocks : List Block}
    → collect_blocks nodes ≡ ok blocks
    → (ids_of blocks ≡ positions 0 nodes)
      × (all_entries blocks ≡ entries_in 0 nodes)
      × All IsOrdered blocks
      × All IsBasic blocks
      × IsMaximal blocks
unfolding collect_blocks positions held ids_of
collect_blocks-IsBasic nodes h =
    let start : BlockCollector = record { blocks = []; current = empty_block } in
    let (g, e) =
      collect_from-IsCollected 0 nodes start
        (record { basic = tt; straight = tt; bare = λ p q. refl }) in
    let (ids, basic) = finish-IsCollected (collect_from 0 nodes start) g h in
    let laid =
      collect_from-IsLaid 0 nodes start []
        (record { held = refl; ordered = tt; current = refl; parted = tt }) in
    let (entries, ordered, maximal) =
      finish-IsLaid (collect_from 0 nodes start) (entries_in 0 nodes) laid h in
    (ids ∙ e, entries, ordered, basic, maximal)
