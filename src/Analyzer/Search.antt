-- ===== src/Analyzer/Search.antt =====
-- The traversal of the analyzer visits the live blocks.
use sbpf.Base.{ℕ, suc, ◌<◌, ◌≡◌, ◌∙◌, ◌↔◌, refl, sym, ap, subst, arith, ◌==◌, ==_iff, inl, inr}
use sbpf.Base.{
  true, false, ◌||◌, Bool-cases, List, [], ◌∷◌, Option, some, none, get_elem?, All, All-get_elem?,
}
use sbpf.Base.Sets.{contains, unseen-le}
use sbpf.Ir.Worklist.{WorklistEngine, new, enqueue_all, run}
use sbpf.Ir.Worklist.Laws.{IsEnqueued, enqueue_all-IsEnqueued}
use sbpf.Ir.Worklist.Run.{IsRound, IsBounded, run-ends}
use sbpf.Ir.Worklist.Reach.{new-IsConsistent}
use sbpf.Ir.Cfg.{CfgFunction, Cfg, successors, function_of_block}
use sbpf.Ir.Cfg.Bounds.{IsOwner}
use sbpf.Ir.Cfg.Converse.{IsGraph}
use sbpf.Analyzer.{differs, block_ids_of, cross_all, enqueue_function_blocks}
use sbpf.Analyzer.Live.{Live, IsCrossedAll, cross_all-IsCrossedAll}

module _ (cfg : Cfg) (entry : CfgFunction) where
  -- What the traversal keeps.
  record IsSearched (e : WorklistEngine) (enqueued : List ℕ) : Type 0 where
    pub sound :
        (x : ℕ)
        → (contains e.visited x || contains e.worklist x) ≡ true
        → Live cfg entry.block_ids x
    pub started :
        (x : ℕ)
        → contains entry.block_ids x ≡ true
        → (contains e.visited x || contains e.worklist x) ≡ true
    pub closed :
        (x y : ℕ)
        → contains e.visited x ≡ true
        → contains (successors cfg x) y ≡ true
        → (contains e.visited y || contains e.worklist y) ≡ true
    pub entered :
        (x y g : ℕ)
        → contains e.visited x ≡ true
        → contains (successors cfg x) y ≡ true
        → function_of_block cfg y ≡ some g
        → differs g (function_of_block cfg x) ≡ true
        → contains enqueued g ≡ true
    pub whole :
        (g c : ℕ)
        → contains enqueued g ≡ true
        → contains (block_ids_of (get_elem? cfg.functions g)) c ≡ true
        → (contains e.visited c || contains e.worklist c) ≡ true

  -- A block that a round puts on the worklist is live.
  from-Live :
      (node x : ℕ) (enqueued : List ℕ) (out : List ℕ × List ℕ)
      → Live cfg entry.block_ids node
      → IsCrossedAll cfg (function_of_block cfg node) enqueued (successors cfg node) out
      → (contains (successors cfg node) x || contains out.1 x) ≡ true
      → Live cfg entry.block_ids x
  from-Live node x enqueued out live c h = elim (Bool-cases (contains (successors cfg node) x)) [
    | inl flows ↦ Live.flow node x live flows
    | inr entered ↦
        let (b, g, m, e, d, k) = c.from x (ground (arith, h, entered)) in
        Live.enter node b x g live m e d k
  ]

  round_sound :
      (n node x : ℕ) (enqueued : List ℕ) (out : List ℕ × List ℕ) (e e' : WorklistEngine)
      → contains e.worklist node ≡ true
      → IsRound n (successors cfg) node out.1 e e'
      → IsCrossedAll cfg (function_of_block cfg node) enqueued (successors cfg node) out
      → IsSearched e enqueued
      → (contains e'.visited x || contains e'.worklist x) ≡ true
      → Live cfg entry.block_ids x
  unfolding contains
  round_sound n node x enqueued out e e' w r c s p =
      let here = s.sound node (ground (arith, w)) in
      elim (Bool-cases (contains e.visited x || contains e.worklist x)) [
        | inl known ↦ s.sound x known
        | inr new_x ↦ elim (Bool-cases (node == x)) [
          | inl same ↦ subst (Live cfg entry.block_ids) ((==_iff node x).0 same) here
          | inr other ↦
              from-Live node x enqueued out here c
                (ground (arith, r.from x, ap (λ l. contains l x) r.visited, new_x, other, p))
        ]
      ]

  IsSearched-round :
      (n node : ℕ) (enqueued : List ℕ) (out : List ℕ × List ℕ) (e e' : WorklistEngine)
      → contains e.worklist node ≡ true
      → IsRound n (successors cfg) node out.1 e e'
      → IsCrossedAll cfg (function_of_block cfg node) enqueued (successors cfg node) out
      → IsSearched e enqueued
      → IsSearched e' out.0
  unfolding contains
  IsSearched-round n node enqueued out e e' w r c s = record {
    sound = λ x p. round_sound n node x enqueued out e e' w r c s p;
    started = λ x p. r.keeps x (s.started x p);
    closed = λ x y p q. elim (Bool-cases (node == x)) [
      | inl same ↦ r.covers y (
          ground (
            arith,
            subst (λ z. contains (successors cfg z) y ≡ true) (sym ((==_iff node x).0 same)) q,
          ))
      | inr other ↦
          r.keeps y (s.closed x y (ground (arith, ap (λ l. contains l x) r.visited, other, p)) q)
    ];
    entered = λ x y g p q o d. elim (Bool-cases (node == x)) [
      | inl same ↦
          let back = sym ((==_iff node x).0 same) in
          c.entered y g (subst (λ z. contains (successors cfg z) y ≡ true) back q) o
            (subst (λ z. differs g (function_of_block cfg z) ≡ true) back d)
      | inr other ↦
          c.grows g
            (s.entered x y g (ground (arith, ap (λ l. contains l x) r.visited, other, p)) q o d)
    ];
    whole = λ g k p m. elim (Bool-cases (contains enqueued g)) [
      | inl known ↦ r.keeps k (s.whole g k known m)
      | inr fresh ↦ r.covers k (ground (arith, c.blocks g k p m, fresh))
    ];
  }

All-contains : (n : ℕ) (ids : List ℕ) (x : ℕ) → All (λ i. i < n) ids → contains ids x ≡ true → x < n
unfolding contains
All-contains n [] x h e = absurd (cc)
All-contains n (i ∷ ids) x h e = elim (Bool-cases (contains ids x)) [
  | inl later ↦ All-contains n ids x h.1 later
  | inr first ↦ ground (arith, e, first, h.0)
]

owned-below :
    (n : ℕ) (functions : List CfgFunction) (o : Option CfgFunction) (g x : ℕ)
    → All (IsOwner n) functions
    → get_elem? functions g ≡ o
    → contains (block_ids_of o) x ≡ true
    → x < n
unfolding contains
owned-below n functions none g x h e m = absurd (cc)
owned-below n functions (some func) g x h e m =
    All-contains n func.block_ids x (All-get_elem? (IsOwner n) functions g h e) m

search-IsBounded :
    (n : ℕ) (cfg : Cfg) → IsGraph n cfg → IsBounded n (successors cfg) (enqueue_function_blocks cfg)
unfolding enqueue_function_blocks
search-IsBounded n cfg g = record {
  successors = λ node x h. (g.bounded node x h).1;
  extra = λ v node x h.
      let (b, f, m, e, d, k) =
        (cross_all-IsCrossedAll cfg (function_of_block cfg node) v (successors cfg node)).from x
          h in
      owned-below n cfg.functions (get_elem? cfg.functions f) f x g.owners refl k;
}

zero-only : (g : ℕ) → contains (0 ∷ []) g ≡ true → 0 ≡ g
unfolding contains
zero-only g h = ground arith

true-ne-false : true ≡ false → ⊥
true-ne-false h = cc

module _ (cfg : Cfg) (entry : CfgFunction) where
  IsSearched-start :
      (n : ℕ) (functions : List CfgFunction) (e : WorklistEngine)
      → cfg.functions ≡ entry ∷ functions
      → IsEnqueued n entry.block_ids new e
      → IsSearched cfg entry e (0 ∷ [])
  unfolding new contains
  IsSearched-start n functions e first h =
      let none_seen : (x : ℕ) → contains e.visited x ≡ false =
        λ x. ap (λ s. contains s x) h.visited in
      record {
        sound = λ x p. Live.seed x (ground (arith, h.from x, none_seen x, p));
        started = h.covers;
        closed = λ x y p. absurd (true-ne-false (sym p ∙ none_seen x));
        entered = λ x y g p. absurd (true-ne-false (sym p ∙ none_seen x));
        whole = λ g c p m. h.covers c (
            subst (λ fs. contains (block_ids_of (get_elem? fs 0)) c ≡ true) first
              (subst (λ i. contains (block_ids_of (get_elem? cfg.functions i)) c ≡ true)
                (sym (zero-only g p)) m));
      }

  complete :
      (e : WorklistEngine) (enqueued : List ℕ)
      → e.worklist ≡ []
      → IsSearched cfg entry e enqueued
      → (x : ℕ) → Live cfg entry.block_ids x
      → contains e.visited x ≡ true
  unfolding contains
  complete e enqueued empty s _ (Live.seed x h) =
      ground (arith, s.started x h, ap (λ l. contains l x) empty)
  complete e enqueued empty s _ (Live.flow a x r h) =
      ground (arith, s.closed a x (complete e enqueued empty s a r) h, ap (λ l. contains l x) empty)
  complete e enqueued empty s _ (Live.enter a b x g r h o d m) =
      let found = s.entered a b g (complete e enqueued empty s a r) h o d in
      ground (arith, s.whole g x found m, ap (λ l. contains l x) empty)

-- From the entry function of a graph the traversal comes to an end, and has visited the live blocks.
pub search-Live :
    (n : ℕ) (cfg : Cfg) (entry : CfgFunction) (functions : List CfgFunction)
    → IsGraph n cfg
    → cfg.functions ≡ entry ∷ functions
    → (e : WorklistEngine) × (enqueued : List ℕ) × (run
          (successors cfg)
          (enqueue_function_blocks cfg)
          (suc n)
          (enqueue_all entry.block_ids new)
          (0 ∷ [])
        ≡ some (e, enqueued))
      × ((x : ℕ) → (contains e.visited x ≡ true) ↔ Live cfg entry.block_ids x)
unfolding enqueue_function_blocks contains
search-Live n cfg entry functions g first =
    let own : IsOwner n entry = (subst (All (IsOwner n)) first g.owners).0 in
    let begun =
      enqueue_all-IsEnqueued n entry.block_ids new (new-IsConsistent n)
        λ x h. All-contains n entry.block_ids x own h in
    let start = enqueue_all entry.block_ids new in
    let (e, enqueued, ran, empty, c, s) =
      run-ends n (successors cfg) (enqueue_function_blocks cfg) (IsSearched cfg entry)
        (search-IsBounded n cfg g)
        (λ node e e' v d w r s.
          IsSearched-round cfg entry n node v
            (cross_all cfg (function_of_block cfg node) v (successors cfg node)) e e' w r
            (cross_all-IsCrossedAll cfg (function_of_block cfg node) v (successors cfg node)) s)
        (suc n) start (0 ∷ []) begun.consistent (omega (arith, unseen-le n start.visited))
        (IsSearched-start cfg entry n functions start first begun) in
    (
      e,
      enqueued,
      ran,
      λ x. (λ h. s.sound x (ground (arith, h)), λ h. complete cfg entry e enqueued empty s x h),
    )
