-- ===== src/Ir/Cfg/Layout/Laws.antt =====
-- What the collector of blocks keeps of the program that it has read.
use mathlib.Core.List.{append_assoc, append-nil}
use sbpf.Base.{String, ℕ, suc, ◌≡◌, ◌∙◌, refl, sym, ap, arith, true, false}
use sbpf.Base.{Bool-cases, List, [], ◌∷◌, ◌++◌, All, All-append, inl, inr}
use sbpf.Errors.{ok, ok-injective, ok-ne-panic}
use sbpf.Instruction.{Instruction}
use sbpf.Ir.Cfg.{
  InputNode, from_instruction, Block, BlockCollector, empty_block, is_empty, push_current_block,
  on_label, ends_block, on_instruction, collect_node, collect_from, finish, add_instruction,
  add_label,
}
use sbpf.Ir.Cfg.Layout.{
  Entry, entries_in, label_entries, instruction_entries, entries, all_entries, ids, IsOrdered,
  IsEnded, IsParted, IsMaximal, AreParted, AreParted-append, AreParted-labelled,
  AreParted-IsMaximal, IsMaximal-append, label_entries-append, instruction_entries-append,
  all_entries-append, ids-append,
}

-- The collector holds these entries.
pub record IsLaid (c : BlockCollector) (es : List Entry) : Type 0 where
  pub held : all_entries c.blocks ++ entries c.current ≡ es
  pub ordered : All IsOrdered c.blocks
  pub current : IsOrdered c.current
  pub parted : AreParted c.blocks c.current

is_empty-nil : {A : Type 0} (xs : List A) → is_empty xs ≡ true → xs ≡ []
is_empty-nil [] h = refl
is_empty-nil (x ∷ xs) h = absurd (cc)

is_empty-snoc : {A : Type 0} (xs : List A) (x : A) → is_empty (xs ++ (x ∷ [])) ≡ false
is_empty-snoc [] x = refl
is_empty-snoc (y ∷ xs) x = refl

-- The current block is pushed, and the next one is begun.
next-IsLaid :
    (c : BlockCollector) (es : List Entry) (next : Block)
    → IsLaid c es
    → IsParted c.current next
    → IsOrdered next
    → IsLaid (record { blocks = c.blocks ++ (c.current ∷ []); current = next }) (es ++ entries next)
next-IsLaid c es next h p o = record {
  held = rw (all_entries-append c.blocks c.current, h.held) refl;
  ordered = All-append IsOrdered c.blocks (c.current ∷ []) h.ordered (h.current, tt);
  current = o;
  parted = AreParted-append c.blocks c.current next h.parted p;
}

-- The current block grows by an entry.
grown-IsLaid :
    (c : BlockCollector) (es : List Entry) (e : Entry) (next : Block)
    → IsLaid c es
    → entries next ≡ entries c.current ++ (e ∷ [])
    → next.node_ids ≡ c.current.node_ids ++ (e.0 ∷ [])
    → (is_empty c.current.labels ≡ false → is_empty next.labels ≡ false)
    → IsLaid (record c { current = next }) (es ++ (e ∷ []))
grown-IsLaid c es e next h g n l = record {
  held =
      ap (λ t. all_entries c.blocks ++ t) g
      ∙ sym (append_assoc (all_entries c.blocks) (entries c.current) (e ∷ []))
      ∙ ap (λ t. t ++ (e ∷ [])) h.held;
  ordered = h.ordered;
  current =
      n
      ∙ ap (λ t. t ++ (e.0 ∷ [])) h.current
      ∙ sym (ids-append (entries c.current) (e ∷ []))
      ∙ ap ids (sym g);
  parted = AreParted-labelled c.blocks c.current next h.parted l;
}

-- A label is added to a block that has no instructions yet.
entries-add_label :
    (i : ℕ) (name : String) (b : Block)
    → b.instructions ≡ []
    → entries (add_label i name b) ≡ entries b ++ ((i, inl name) ∷ [])
entries-add_label i name b e = rw e (
    append-nil _
    ∙ label_entries-append b.labels name i
    ∙ ap (λ t. t ++ ((i, inl name) ∷ [])) (sym (append-nil (label_entries b.labels))))

entries-add_instruction :
    (i : ℕ) (inst : Instruction) (b : Block)
    → entries (add_instruction i inst b) ≡ entries b ++ ((i, inr inst) ∷ [])
entries-add_instruction i inst b =
    ap (λ t. label_entries b.labels ++ t) (instruction_entries-append b.instructions i inst)
    ∙ sym (append_assoc (label_entries b.labels) (instruction_entries b.instructions) _)

on_label-IsLaid :
    (i : ℕ) (name : String) (c : BlockCollector) (es : List Entry)
    → IsLaid c es
    → IsLaid (on_label i name c) (es ++ ((i, inl name) ∷ []))
unfolding on_label push_current_block
on_label-IsLaid i name c es h = elim (Bool-cases (is_empty c.current.instructions)) [
  | inl empty ↦ rw empty (
      grown-IsLaid c es (i, inl name) (add_label i name c.current) h
        (entries-add_label i name c.current (is_empty-nil c.current.instructions empty)) refl
        (λ l. is_empty-snoc c.current.labels (name, i)))
  | inr full ↦ rw full (next-IsLaid c es (add_label i name empty_block) h (inr refl) refl)
]

-- The collector with one instruction more.
abbrev grown : ℕ → Instruction → BlockCollector → BlockCollector
grown i inst c = record c { current = add_instruction i inst c.current }

on_instruction-IsLaid :
    (i : ℕ) (inst : Instruction) (c : BlockCollector) (es : List Entry)
    → IsLaid c es
    → IsLaid (on_instruction i inst c) (es ++ ((i, inr inst) ∷ []))
unfolding on_instruction push_current_block from_instruction
on_instruction-IsLaid i inst c es h =
    let es' = es ++ ((i, inr inst) ∷ []) in
    let g : IsLaid (grown i inst c) es' =
      grown-IsLaid c es (i, inr inst) (add_instruction i inst c.current) h
        (entries-add_instruction i inst c.current) refl (λ l. l) in
    elim (Bool-cases (ends_block inst)) [
      | inl ends ↦
          let ended : IsEnded (grown i inst c).current =
            (c.current.instructions, from_instruction i inst, inst, refl, refl, ends) in
          rw ends (
            rw (append-nil es') at
              (next-IsLaid (grown i inst c) es' empty_block g (inl ended) refl))
      | inr on ↦ rw on g
    ]

pub collect_from-IsLaid :
    (i : ℕ) (nodes : List InputNode) (c : BlockCollector) (es : List Entry)
    → IsLaid c es
    → IsLaid (collect_from i nodes c) (es ++ entries_in i nodes)
unfolding collect_from collect_node entries_in
collect_from-IsLaid i [] c es h = rw (append-nil es) h
collect_from-IsLaid i (InputNode.label name ∷ nodes) c es h =
    rw (append_assoc es ((i, inl name) ∷ []) (entries_in (suc i) nodes)) at (
      collect_from-IsLaid (suc i) nodes (on_label i name c) (es ++ ((i, inl name) ∷ []))
        (on_label-IsLaid i name c es h))
collect_from-IsLaid i (InputNode.instruction inst ∷ nodes) c es h =
    rw (append_assoc es ((i, inr inst) ∷ []) (entries_in (suc i) nodes)) at (
      collect_from-IsLaid (suc i) nodes (on_instruction i inst c) (es ++ ((i, inr inst) ∷ []))
        (on_instruction-IsLaid i inst c es h))
collect_from-IsLaid i (InputNode.other ∷ nodes) c es h = collect_from-IsLaid (suc i) nodes c es h

pub finish-IsLaid :
    (c : BlockCollector) (es : List Entry) {blocks : List Block}
    → IsLaid c es
    → finish c ≡ ok blocks
    → (all_entries blocks ≡ es) × All IsOrdered blocks × IsMaximal blocks
unfolding finish push_current_block
finish-IsLaid c es h e = elim (Bool-cases (is_empty c.current.instructions)) [
  | inl empty ↦ elim (Bool-cases (is_empty c.current.labels)) [
    | inl bare ↦
        let q = ok-injective (rw (bare, empty) at e) in
        let none_left : entries c.current ≡ [] =
          rw (is_empty-nil c.current.labels bare, is_empty-nil c.current.instructions empty) refl in
        rw (← q) (
          sym (append-nil (all_entries c.blocks))
              ∙ ap (λ t. all_entries c.blocks ++ t) (sym none_left)
              ∙ h.held,
          h.ordered,
          AreParted-IsMaximal c.blocks c.current h.parted,
        )
    | inr labels ↦ absurd (ok-ne-panic (sym (rw (labels, empty) at e)))
  ]
  | inr full ↦
      let pushed : finish c ≡ ok (push_current_block c).blocks = ground (arith, full) in
      let q = ok-injective (sym pushed ∙ e) in
      rw (← q) (
        all_entries-append c.blocks c.current ∙ h.held,
        All-append IsOrdered c.blocks (c.current ∷ []) h.ordered (h.current, tt),
        IsMaximal-append c.blocks c.current h.parted,
      )
]
