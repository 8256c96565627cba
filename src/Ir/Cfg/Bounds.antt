-- ===== src/Ir/Cfg/Bounds.antt =====
-- The blocks and the edges of a graph have numbers below the number of its blocks.
use sbpf.Base.{ℕ, zero, suc, ◌+◌, ◌<◌, ◌≤◌, ◌≡◌, refl, sym, subst, arith}
use sbpf.Base.{
  String, List, [], ◌∷◌, All, All-get_elem?, All-take, All-drop, All-append, take, drop,
}
use sbpf.Base.{Option, some, none, length, get_elem?}
use sbpf.Errors.{ok, ok-injective, ok-ne-panic, >>=-eq-ok}
use sbpf.Ir.Cfg.{Block, CfgFunction, blocks_of, zip}
use sbpf.Ir.Cfg.Functions.{
  range, entry_name, append_last, add_block, group_from, named_from, rotate, root_at, root_first,
  collect_functions,
}

-- The blocks of a function have numbers below a bound.
abbrev pub IsOwner : ℕ → CfgFunction → Type 0
IsOwner n func = All (λ id. id < n) func.block_ids

range-below : (n i k : ℕ) → i + k ≤ n → All (λ id. id < n) (range i k)
unfolding range
range-below n i zero h = tt
range-below n i (suc k) h = (omega arith, range-below n (suc i) k (omega arith))

append_last-IsOwner :
    (n block_id : ℕ) (block : Block) (functions : List CfgFunction) {out : List CfgFunction}
    → block_id < n
    → All (IsOwner n) functions
    → append_last block_id block functions ≡ ok out
    → All (IsOwner n) out
unfolding append_last
append_last-IsOwner n i block [] small h e = absurd (ok-ne-panic (sym e))
append_last-IsOwner n i block (func ∷ []) small h e =
    subst (All (IsOwner n)) (ok-injective e)
      (All-append (λ id. id < n) func.block_ids (i ∷ []) h.0 (small, tt), tt)
append_last-IsOwner n i block (func ∷ func' ∷ functions) small h e =
    let (rest, e1, e2) = >>=-eq-ok (append_last i block (func' ∷ functions)) _ e in
    subst (All (IsOwner n)) (ok-injective e2)
      (h.0, append_last-IsOwner n i block (func' ∷ functions) small h.1 e1)

add_block-IsOwner :
    (n block_id : ℕ) (block : Block) (name : Option String) (functions : List CfgFunction)
    {out : List CfgFunction}
    → block_id < n
    → All (IsOwner n) functions
    → add_block block_id block name functions ≡ ok out
    → All (IsOwner n) out
add_block-IsOwner n i block (some name) functions small h e =
    subst (All (IsOwner n)) (ok-injective e)
      (All-append (IsOwner n) functions _ h ((small, tt), tt))
add_block-IsOwner n i block none functions small h e =
    append_last-IsOwner n i block functions small h e

group_from-IsOwner :
    (n : ℕ) (entries : List String) (i : ℕ) (blocks : List Block) (functions : List CfgFunction)
    {out : List CfgFunction}
    → i + length blocks ≤ n
    → All (IsOwner n) functions
    → group_from entries i blocks functions ≡ ok out
    → All (IsOwner n) out
unfolding group_from
group_from-IsOwner n entries i [] functions small h e = subst (All (IsOwner n)) (ok-injective e) h
group_from-IsOwner n entries i (block ∷ blocks) functions small h e =
    let (functions', e1, e2) =
      >>=-eq-ok (add_block i block (entry_name entries block.labels) functions) _ e in
    group_from-IsOwner n entries (suc i) blocks functions' (omega arith)
      (add_block-IsOwner n i block (entry_name entries block.labels) functions (omega arith) h e1)
      e2

rotate-All :
    (P : CfgFunction → Type 0) (functions : List CfgFunction) (pos : ℕ) (o : Option CfgFunction)
    → get_elem? functions pos ≡ o
    → All P functions
    → All P (rotate functions pos o)
rotate-All P functions pos (some func) e h = (
  All-get_elem? P functions pos h e,
  All-append P (take pos functions) (drop (suc pos) functions) (All-take P pos functions h)
      (All-drop P (suc pos) functions h),
)
rotate-All P functions pos none e h = h

root_at-All :
    (P : CfgFunction → Type 0) (functions : List CfgFunction) (o : Option ℕ)
    → All P functions
    → All P (root_at functions o)
root_at-All P functions (some pos) h = rotate-All P functions pos (get_elem? functions pos) refl h
root_at-All P functions none h = h

root_first-All :
    (P : CfgFunction → Type 0) (entry : Option String) (functions : List CfgFunction)
    → All P functions
    → All P (root_first entry functions)
unfolding root_first
root_first-All P none functions h = h
root_first-All P (some label) functions h = root_at-All P functions (named_from 0 functions label) h

pub collect_functions-IsOwner :
    (blocks : List Block) (entries : List String) (entry : Option String) {out : List CfgFunction}
    → collect_functions blocks entries entry ≡ ok out
    → All (IsOwner (length blocks)) out
unfolding collect_functions
collect_functions-IsOwner [] entries entry e = subst (All (IsOwner 0)) (ok-injective e) tt
collect_functions-IsOwner (block ∷ blocks) [] entry e =
    subst (All (IsOwner (length (block ∷ blocks)))) (ok-injective e)
      (range-below (length (block ∷ blocks)) 0 (length (block ∷ blocks)) (omega arith), tt)
collect_functions-IsOwner (block ∷ blocks) (name ∷ entries) entry e =
    let n = length (block ∷ blocks) in
    let (functions, e1, e2) = >>=-eq-ok (group_from (name ∷ entries) 0 (block ∷ blocks) []) _ e in
    subst (All (IsOwner n)) (ok-injective e2) (
      root_first-All (IsOwner n) entry functions
        (group_from-IsOwner n (name ∷ entries) 0 (block ∷ blocks) [] (omega arith) tt e1))

zip-below :
    (n : ℕ) (ids : List ℕ) (blocks : List Block)
    → All (λ id. id < n) ids
    → All (λ (p : ℕ × Block). p.0 < n) (zip ids blocks)
zip-below n [] blocks h = tt
zip-below n (id ∷ ids) [] h = tt
zip-below n (id ∷ ids) (block ∷ blocks) h = (h.0, zip-below n ids blocks h.1)

pub blocks_of-below :
    (n : ℕ) (functions : List CfgFunction)
    → All (IsOwner n) functions
    → All (λ (p : ℕ × Block). p.0 < n) (blocks_of functions)
unfolding blocks_of
blocks_of-below n [] h = tt
blocks_of-below n (func ∷ functions) h =
    All-append (λ (p : ℕ × Block). p.0 < n) (zip func.block_ids func.blocks) (blocks_of functions)
      (zip-below n func.block_ids func.blocks h.0) (blocks_of-below n functions h.1)
