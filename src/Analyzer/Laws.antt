-- ===== src/Analyzer/Laws.antt =====
-- The analyzer keeps the functions that own a live block, and reports the others.
use sbpf.Base.{
  ℕ, suc, ◌+◌, ◌<◌, ◌≤◌, ◌≡◌, ◌∙◌, ◌↔◌, refl, sym, ap, subst, arith, ◌==◌, ==_iff, inl, inr,
}
use sbpf.Base.{true, false, Bool-cases, List, [], ◌∷◌, some, get_elem?, length}
use sbpf.Base.Sets.{contains, Distinct, unseen-length, unseen-zero}
use sbpf.Ir.Worklist.{run, new, enqueue_all}
use sbpf.Ir.Cfg.{CfgFunction, Cfg, successors, function_of_block}
use sbpf.Ir.Cfg.Converse.{IsGraph}
use sbpf.Analyzer.{
  RemovedFunction, block_ids_of, functions_of, visited_functions, reachable_functions,
  function_node_ids, kept_from, removed_from, removed_with, removed_by, remove_dead_functions,
  enqueue_function_blocks,
}
use sbpf.Analyzer.Live.{Live}
use sbpf.Analyzer.Marks.{
  function_of_block-below, functions_of-Distinct, functions_of_sound, functions_of_complete,
}
use sbpf.Analyzer.Search.{search-Live}

-- The function of an index owns a live block.
abbrev pub IsLiveFunction : Cfg → ℕ → Type 0
IsLiveFunction cfg i =
    (b : ℕ) × Live cfg (block_ids_of (get_elem? cfg.functions 0)) b
    × (function_of_block cfg b ≡ some i)

-- The functions from an index on, split into those that are kept and those that are reported.
pub data IsSplit (P : ℕ → Type 0)
    : ℕ → List CfgFunction → List CfgFunction → List RemovedFunction → Type 0 where
  done : (i : ℕ) → IsSplit P i [] [] []
  keep :
      (i : ℕ) (f : CfgFunction) (fs ks : List CfgFunction) (rs : List RemovedFunction)
      → P i
      → IsSplit P (suc i) fs ks rs
      → IsSplit P i (f ∷ fs) (f ∷ ks) rs
  drop :
      (i : ℕ) (f : CfgFunction) (fs ks : List CfgFunction) (rs : List RemovedFunction)
      → (P i → ⊥)
      → IsSplit P (suc i) fs ks rs
      → IsSplit P i (f ∷ fs) ks (record { name = f.name; node_ids = function_node_ids f } ∷ rs)

true-ne-false : true ≡ false → ⊥
true-ne-false h = cc

module _ (P : ℕ → Type 0) (reachable : List ℕ)
    (marks : (j : ℕ) → (contains reachable j ≡ true) ↔ P j) where
  kept_from-IsSplit :
      (i : ℕ) (fs : List CfgFunction)
      → IsSplit P i fs (kept_from i reachable fs) (removed_from i reachable fs)
  unfolding kept_from removed_from
  kept_from-IsSplit i [] = IsSplit.done i
  kept_from-IsSplit i (f ∷ fs) = elim (Bool-cases (contains reachable i)) [
    | inl kept ↦ rw kept (IsSplit.keep i f fs _ _ ((marks i).0 kept) (kept_from-IsSplit (suc i) fs))
    | inr gone ↦ rw gone (
        IsSplit.drop i f fs _ _ (λ p. true-ne-false (sym ((marks i).1 p) ∙ gone))
          (kept_from-IsSplit (suc i) fs))
  ]

  -- Where all indices are marked, all functions are kept.
  all-IsSplit :
      (n i : ℕ) (fs : List CfgFunction)
      → ((j : ℕ) → j < n → contains reachable j ≡ true)
      → i + length fs ≤ n
      → IsSplit P i fs fs []
  all-IsSplit n i [] all small = IsSplit.done i
  all-IsSplit n i (f ∷ fs) all small =
      IsSplit.keep i f fs fs [] ((marks i).0 (all i (omega arith)))
        (all-IsSplit n (suc i) fs all (omega arith))

module _ (n : ℕ) (cfg : Cfg) (graph : IsGraph n cfg) where
  -- The set that the traversal gives holds the live functions.
  reachable_functions-Live :
      (entry : CfgFunction) (functions : List CfgFunction)
      → cfg.functions ≡ entry ∷ functions
      → (reachable : List ℕ) × (reachable_functions cfg entry ≡ some reachable)
        × Distinct reachable
        × ((i : ℕ) → (contains reachable i ≡ true) ↔ IsLiveFunction cfg i)
  unfolding reachable_functions
  reachable_functions-Live entry functions first =
      let (e, enqueued, ran, visits) = search-Live n cfg entry functions graph first in
      let same : entry.block_ids ≡ block_ids_of (get_elem? cfg.functions 0) =
        sym (ap (λ fs. block_ids_of (get_elem? fs 0)) first) in
      (
        functions_of cfg e.visited,
        ap (visited_functions cfg) (
            subst
              (λ k.
                run (successors cfg) (enqueue_function_blocks cfg) (suc k)
                  (enqueue_all entry.block_ids new) (0 ∷ [])
                ≡ some (e, enqueued))
              (sym graph.size) ran),
        functions_of-Distinct cfg e.visited,
        λ i. (
          λ h.
              let (b, m, o) = functions_of_sound cfg e.visited i h in
              (b, subst (λ ids. Live cfg ids b) same ((visits b).0 m), o),
          λ l.
              functions_of_complete cfg e.visited l.0 i
                ((visits l.0).1 (subst (λ ids. Live cfg ids l.0) (sym same) l.1)) l.2,
        ),
      )

  removed_with-IsSplit :
      (reachable : List ℕ)
      → Distinct reachable
      → ((i : ℕ) → (contains reachable i ≡ true) ↔ IsLiveFunction cfg i)
      → (kept : List CfgFunction) × (removed : List RemovedFunction) × (removed_with cfg
            (some reachable)
          ≡ some (record cfg { functions = kept }, removed))
        × IsSplit (IsLiveFunction cfg) 0 cfg.functions kept removed
  removed_with-IsSplit reachable d marks =
      let k = length cfg.functions in
      let below : (x : ℕ) → contains reachable x ≡ true → x < k =
        λ x h. let (b, l, o) = (marks x).0 h in function_of_block-below cfg b o in
      elim (Bool-cases (length reachable == k)) [
        | inl full ↦ (
          cfg.functions,
          [],
          rw full refl,
          all-IsSplit (IsLiveFunction cfg) reachable marks k 0 cfg.functions
              (λ j h.
                unseen-zero k reachable j
                  (omega (
                    arith,
                    unseen-length k reachable d below,
                    (==_iff (length reachable) k).0 full,
                  ))
                  h)
              (omega arith),
        )
        | inr fewer ↦ (
          kept_from 0 reachable cfg.functions,
          removed_from 0 reachable cfg.functions,
          rw fewer refl,
          kept_from-IsSplit (IsLiveFunction cfg) reachable marks 0 cfg.functions,
        )
      ]

  -- The removal comes to an end, changes nothing in the graph but its functions, and splits these, in order,
  -- into those that are kept, which own a live block, and those that it reports with
  -- their names and nodes, which own none.
  pub remove_dead_functions-IsSplit :
      (kept : List CfgFunction) × (removed : List RemovedFunction) × (remove_dead_functions cfg
        ≡ some (record cfg { functions = kept }, removed))
      × IsSplit (IsLiveFunction cfg) 0 cfg.functions kept removed
  unfolding remove_dead_functions
  remove_dead_functions-IsSplit = split cfg.functions refl
    where
      split :
          (fs : List CfgFunction)
          → cfg.functions ≡ fs
          → (kept : List CfgFunction) × (removed : List RemovedFunction) × (removed_by cfg
                cfg.functions
              ≡ some (record cfg { functions = kept }, removed))
            × IsSplit (IsLiveFunction cfg) 0 cfg.functions kept removed
      split [] e = (
        cfg.functions,
        [],
        ap (removed_by cfg) e,
        subst (λ fs. IsSplit (IsLiveFunction cfg) 0 fs fs []) (sym e) (IsSplit.done 0),
      )
      split (entry ∷ functions) e =
          let (reachable, found, d, marks) = reachable_functions-Live entry functions e in
          let (kept, removed, out, s) = removed_with-IsSplit reachable d marks in
          (kept, removed, ap (removed_by cfg) e ∙ ap (removed_with cfg) found ∙ out, s)
