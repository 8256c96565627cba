-- ===== src/Analyzer/Marks.antt =====
-- The functions of the blocks that are visited.
use sbpf.Base.{ℕ, suc, ◌+◌, ◌<◌, ◌≡◌, sym, ap, subst, arith, ◌==◌, ==_iff, ==_refl, ◌⊎◌, inl, inr}
use sbpf.Base.{true, Bool-cases, List, [], ◌∷◌, Option, some, none, length}
use sbpf.Base.Sets.{contains, Distinct}
use sbpf.Ir.Cfg.{CfgFunction, Cfg, function_of_block, owner_from}
use sbpf.Analyzer.{insert, functions_of}
use sbpf.Analyzer.Live.{some-injective}

owner_from-below :
    (i : ℕ) (functions : List CfgFunction) (b : ℕ) {j : ℕ}
    → owner_from i functions b ≡ some j
    → j < i + length functions
unfolding owner_from
owner_from-below i [] b h = absurd (cc)
owner_from-below i (f ∷ functions) b h = elim (Bool-cases (contains f.block_ids b)) [
  | inl here ↦ omega (arith, some-injective (rw here at h))
  | inr other ↦ omega (arith, owner_from-below (suc i) functions b (rw other at h))
]

pub function_of_block-below :
    (cfg : Cfg) (b : ℕ) {i : ℕ} → function_of_block cfg b ≡ some i → i < length cfg.functions
unfolding function_of_block
function_of_block-below cfg b h = omega (arith, owner_from-below 0 cfg.functions b h)

contains-insert :
    (o : Option ℕ) (s : List ℕ) (i : ℕ)
    → contains (insert o s) i ≡ true
    → (o ≡ some i) ⊎ (contains s i ≡ true)
unfolding contains
contains-insert none s i h = inr h
contains-insert (some k) s i h = elim (Bool-cases (k == i)) [
  | inl same ↦ inl (ap some ((==_iff k i).0 same))
  | inr other ↦ inr (ground (arith, h, other))
]

insert-contains :
    (o : Option ℕ) (s : List ℕ) (i : ℕ)
    → (o ≡ some i) ⊎ (contains s i ≡ true)
    → contains (insert o s) i ≡ true
unfolding contains
insert-contains none s i (inl e) = absurd (cc)
insert-contains none s i (inr h) = h
insert-contains (some k) s i (inl e) = ground (arith, some-injective e)
insert-contains (some k) s i (inr h) = ground (arith, h)

insert-Distinct : (o : Option ℕ) (s : List ℕ) → Distinct s → Distinct (insert o s)
insert-Distinct none s d = d
insert-Distinct (some k) s d = elim (Bool-cases (contains s k)) [
  | inl there ↦ rw there d
  | inr new_k ↦ rw new_k (new_k, d)
]

pub functions_of-Distinct : (cfg : Cfg) (vs : List ℕ) → Distinct (functions_of cfg vs)
unfolding functions_of
functions_of-Distinct cfg [] = tt
functions_of-Distinct cfg (b ∷ vs) =
    insert-Distinct (function_of_block cfg b) (functions_of cfg vs) (functions_of-Distinct cfg vs)

pub functions_of_sound :
    (cfg : Cfg) (vs : List ℕ) (i : ℕ)
    → contains (functions_of cfg vs) i ≡ true
    → (b : ℕ) × (contains vs b ≡ true) × (function_of_block cfg b ≡ some i)
unfolding functions_of contains
functions_of_sound cfg [] i h = absurd (cc)
functions_of_sound cfg (b ∷ vs) i h =
    elim (contains-insert (function_of_block cfg b) (functions_of cfg vs) i h) [
      | inl e ↦ (b, ground (arith, ==_refl b), e)
      | inr later ↦ let (c, m, e) = functions_of_sound cfg vs i later in (c, ground (arith, m), e)
    ]

pub functions_of_complete :
    (cfg : Cfg) (vs : List ℕ) (b i : ℕ)
    → contains vs b ≡ true
    → function_of_block cfg b ≡ some i
    → contains (functions_of cfg vs) i ≡ true
unfolding functions_of contains
functions_of_complete cfg [] b i h e = absurd (cc)
functions_of_complete cfg (a ∷ vs) b i h e =
    insert-contains (function_of_block cfg a) (functions_of cfg vs) i (elim (Bool-cases (a == b)) [
      | inl same ↦ inl (subst (λ z. function_of_block cfg z ≡ some i) (sym ((==_iff a b).0 same)) e)
      | inr other ↦ inr (functions_of_complete cfg vs b i (ground (arith, h, other)) e)
    ])
