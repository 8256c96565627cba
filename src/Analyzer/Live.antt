-- ===== src/Analyzer/Live.antt =====
-- What is live: the entry function's blocks, what control flows to from a live block, and all blocks
-- of a function that is entered from another.
use sbpf.Base.{ℕ, ◌≡◌, refl, sym, subst, arith, ◌==◌, ==_iff, ==_refl, inl, inr}
use sbpf.Base.{
  Bool, true, false, not, ◌&&◌, ◌||◌, Bool-cases, List, [], ◌∷◌, ◌++◌, Option, some, none,
  get_elem?,
}
use sbpf.Base.Sets.{contains}
use sbpf.Ir.Cfg.{Cfg, successors, function_of_block}
use sbpf.Analyzer.{differs, block_ids_of, cross, cross_all}

pub data Live (cfg : Cfg) (entry : List ℕ) : ℕ → Type 0 where
  seed : (b : ℕ) → contains entry b ≡ true → Live cfg entry b
  flow : (a b : ℕ) → Live cfg entry a → contains (successors cfg a) b ≡ true → Live cfg entry b
  enter :
      (a b c g : ℕ)
      → Live cfg entry a
      → contains (successors cfg a) b ≡ true
      → function_of_block cfg b ≡ some g
      → differs g (function_of_block cfg a) ≡ true
      → contains (block_ids_of (get_elem? cfg.functions g)) c ≡ true
      → Live cfg entry c

pub contains-++ :
    (xs ys : List ℕ) (k : ℕ) → contains (xs ++ ys) k ≡ (contains xs k || contains ys k)
unfolding contains
contains-++ [] ys k = refl
contains-++ (x ∷ xs) ys k = ground (arith, contains-++ xs ys k)

-- What one successor adds: the function that it enters, if that is new, and then its blocks.
record IsCrossed (cfg : Cfg) (caller : Option ℕ) (enqueued : List ℕ) (o : Option ℕ)
    (out : List ℕ × List ℕ) : Type 0 where
  pub grows : (g : ℕ) → contains enqueued g ≡ true → contains out.0 g ≡ true
  pub entered : (g : ℕ) → o ≡ some g → differs g caller ≡ true → contains out.0 g ≡ true
  pub blocks :
      (g c : ℕ)
      → contains out.0 g ≡ true
      → contains (block_ids_of (get_elem? cfg.functions g)) c ≡ true
      → (contains enqueued g || contains out.1 c) ≡ true
  pub from :
      (c : ℕ)
      → contains out.1 c ≡ true
      → (g : ℕ) × (o ≡ some g)
        × (differs g caller ≡ true)
        × (contains (block_ids_of (get_elem? cfg.functions g)) c ≡ true)

pub some-injective : {m n : ℕ} → some m ≡ some n → m ≡ n
some-injective h = cc

known_callee : (b d : Bool) → d ≡ true → (d && not b) ≡ false → b ≡ true
known_callee b d h g = ground (arith, h, g)

cross-IsCrossed :
    (cfg : Cfg) (caller : Option ℕ) (enqueued : List ℕ) (o : Option ℕ)
    → IsCrossed cfg caller enqueued o (cross cfg caller enqueued o)
unfolding contains
cross-IsCrossed cfg caller enqueued none = record {
  grows = λ g h. h;
  entered = λ g e d. absurd (cc);
  blocks = λ g c h m. ground (arith, h);
  from = λ c h. absurd (cc);
}
cross-IsCrossed cfg caller enqueued (some callee) =
    elim (Bool-cases (differs callee caller && not (contains enqueued callee))) [
      | inl fresh ↦ rw fresh record {
        grows = λ g h. ground (arith, h);
        entered = λ g e d. ground (arith, some-injective e);
        blocks = λ g c h m. elim (Bool-cases (callee == g)) [
          | inl same ↦
              let m' =
                subst (λ z. contains (block_ids_of (get_elem? cfg.functions z)) c ≡ true)
                  (sym ((==_iff callee g).0 same)) m in
              ground (arith, m')
          | inr other ↦ ground (arith, h, other)
        ];
        from = λ c h. (callee, refl, ground (arith, fresh), h);
      }
      | inr known ↦ rw known record {
        grows = λ g h. h;
        entered = λ g e d.
            subst (λ z. contains enqueued z ≡ true) (some-injective e)
              (known_callee (contains enqueued callee) (differs callee caller)
                (subst (λ z. differs z caller ≡ true) (sym (some-injective e)) d) known);
        blocks = λ g c h m. ground (arith, h);
        from = λ c h. absurd (cc);
      }
    ]

-- What all successors add.
pub record IsCrossedAll (cfg : Cfg) (caller : Option ℕ) (enqueued succs : List ℕ)
    (out : List ℕ × List ℕ) : Type 0 where
  pub grows : (g : ℕ) → contains enqueued g ≡ true → contains out.0 g ≡ true
  pub entered :
      (b g : ℕ)
      → contains succs b ≡ true
      → function_of_block cfg b ≡ some g
      → differs g caller ≡ true
      → contains out.0 g ≡ true
  pub blocks :
      (g c : ℕ)
      → contains out.0 g ≡ true
      → contains (block_ids_of (get_elem? cfg.functions g)) c ≡ true
      → (contains enqueued g || contains out.1 c) ≡ true
  pub from :
      (c : ℕ)
      → contains out.1 c ≡ true
      → (b : ℕ) × (g : ℕ) × (contains succs b ≡ true)
        × (function_of_block cfg b ≡ some g)
        × (differs g caller ≡ true)
        × (contains (block_ids_of (get_elem? cfg.functions g)) c ≡ true)

IsCrossedAll-cons :
    (cfg : Cfg) (caller : Option ℕ) (enqueued succs : List ℕ) (s : ℕ) (here later : List ℕ × List ℕ)
    → IsCrossed cfg caller enqueued (function_of_block cfg s) here
    → IsCrossedAll cfg caller here.0 succs later
    → IsCrossedAll cfg caller enqueued (s ∷ succs) (later.0, here.1 ++ later.1)
unfolding contains
IsCrossedAll-cons cfg caller enqueued succs s here later h l = record {
  grows = λ g p. l.grows g (h.grows g p);
  entered = λ b g m e d. elim (Bool-cases (s == b)) [
    | inl same ↦ l.grows g (
        h.entered g (subst (λ z. function_of_block cfg z ≡ some g) (sym ((==_iff s b).0 same)) e) d)
    | inr other ↦ l.entered b g (ground (arith, m, other)) e d
  ];
  blocks = λ g c p m. elim (Bool-cases (contains here.0 g)) [
    | inl now ↦ ground (arith, contains-++ here.1 later.1 c, h.blocks g c now m)
    | inr after ↦ ground (arith, contains-++ here.1 later.1 c, l.blocks g c p m, after)
  ];
  from = λ c p. elim (Bool-cases (contains here.1 c)) [
    | inl now ↦ let (g, e, d, m) = h.from c now in (s, g, ground (arith, ==_refl s), e, d, m)
    | inr after ↦
        let (b, g, m, e, d, k) =
          l.from c (ground (arith, contains-++ here.1 later.1 c, p, after)) in
        (b, g, ground (arith, m), e, d, k)
  ];
}

pub cross_all-IsCrossedAll :
    (cfg : Cfg) (caller : Option ℕ) (enqueued succs : List ℕ)
    → IsCrossedAll cfg caller enqueued succs (cross_all cfg caller enqueued succs)
unfolding cross_all contains
cross_all-IsCrossedAll cfg caller enqueued [] = record {
  grows = λ g h. h;
  entered = λ b g m e d. absurd (cc);
  blocks = λ g c h m. ground (arith, h);
  from = λ c h. absurd (cc);
}
cross_all-IsCrossedAll cfg caller enqueued (s ∷ succs) =
    let here = cross cfg caller enqueued (function_of_block cfg s) in
    IsCrossedAll-cons cfg caller enqueued succs s here (cross_all cfg caller here.0 succs)
      (cross-IsCrossed cfg caller enqueued (function_of_block cfg s))
      (cross_all-IsCrossedAll cfg caller here.0 succs)
