-- ===== src/Runtime/System/Laws.antt =====
-- The system program: the lamports that there are when it ends, and the accounts that it touches.
use sbpf.Base.{ℕ, ◌+◌, ◌-◌, ◌≤◌, ◌^◌, ◌≡◌, ◌≢◌, refl, sym, subst, ◌∙◌, arith}
use sbpf.Base.{replicate, String, List, Option, some, none, not, ltb, leb, Bool-cases, inl, inr}
use sbpf.Base.{ltb-false→le, if◌then◌else◌, if-intro, ◌==◌, ◌||◌}
use sbpf.Errors.{Result, ok, err, panic, err-ne-ok}
use sbpf.Runtime.Stateful.{◌>>=◌, continue, pure, fail}
use sbpf.Runtime.Store.{
  Address, Account, Accounts, RuntimeError, Action, get_mut, put, found, lookup, replace, total,
}
use sbpf.Runtime.Store.Laws.{lookup-replace_ne, total-replace}
use sbpf.Runtime.Store.Follows.{Follows-get_mut}
use sbpf.Runtime.Effect.{Effect, Ends, Follows, Follows-if, Follows-fail}
use sbpf.Runtime.Request.{CpiRequest}
use sbpf.Runtime.System.Instruction.{SystemInstruction}
use sbpf.Base.Sets.{contains}
use sbpf.Runtime.System.{move_lamports, assign_inner, allocate_inner, is_empty, process}
use sbpf.Runtime.System.{max_permitted_data_length}
use sbpf.Runtime.System.Follows.{IsNamed, process-Follows}

-- The account that is paid, and what is paid to it.
abbrev credit : Address → ℕ → Account → Action (Unit {0})
credit k n a =
    if leb (2 ^ 64) (a.lamports + n)
    then fail (RuntimeError.builtin_error "arithmetic overflow")
    else put k (record a { lamports = a.lamports + n })

-- As many lamports as before, and not more where a call fails.
abbrev Conserving : Effect Accounts
Conserving = record {
  Returned = λ s t. total t ≡ total s;
  Failed = λ s t. total t ≤ total s;
  same = λ s. refl;
  weaken = λ s t h. omega arith;
  then_returned = λ s t u h g. omega arith;
  then_failed = λ s t u h g. omega arith;
}

credit-Conserving :
    (s t : Accounts) (k : Address) (n : ℕ) (o : Option Account)
    → lookup k t ≡ o
    → total t + n ≡ total s
    → Ends Conserving s (continue (credit k n) t (found k o))
unfolding fail put
credit-Conserving s t k n none e h = omega arith
credit-Conserving s t k n (some a) e h =
    if-intro (λ (m : Action (Unit {0})). Ends Conserving s (m t)) (leb (2 ^ 64) (a.lamports + n))
      (omega arith) (omega (arith, total-replace k (record a { lamports = a.lamports + n }) t e))

move_lamports-Conserving : (j k : Address) (n : ℕ) → Follows Conserving (move_lamports j k n)
unfolding move_lamports fail put get_mut ◌>>=◌
move_lamports-Conserving j k n = Follows-get_mut Conserving j _ λ s a e.
    if-intro (λ (m : Action (Unit {0})). Ends Conserving s (m s)) (not (is_empty a.contents))
      (omega arith)
      (elim (Bool-cases (ltb a.lamports n)) [
        | inl poor ↦ rw poor (omega arith)
        | inr rich ↦
            let b : Account = record a { lamports = a.lamports - n } in
            rw rich (
              credit-Conserving s (replace j b s) k n _ refl
                (omega (arith, ltb-false→le rich, total-replace j b s e)))
      ])

assign_inner-Conserving :
    (k owner : Address) (signers : List Address) (key : Address)
    → Follows Conserving (assign_inner k owner signers key)
unfolding assign_inner put pure fail
assign_inner-Conserving k owner signers key = Follows-get_mut Conserving k _ λ s a e.
    if-intro (λ (m : Action (Unit {0})). Ends Conserving s (m s)) (a.owner == owner) refl
      (if-intro (λ (m : Action (Unit {0})). Ends Conserving s (m s)) (not (contains signers key))
        (omega arith) (omega (arith, total-replace k (record a { owner = owner }) s e)))

-- The account that is given room.
abbrev allot : Address → Address → ℕ → Account → Action (Unit {0})
allot system_id k space a =
    if not (is_empty a.contents) || not (a.owner == system_id)
    then fail (RuntimeError.builtin_error "account already in use")
    else put k (record a { contents = replicate space 0 })

allot-Conserving :
    (system_id k : Address) (space : ℕ) (s : Accounts) (a : Account)
    → lookup k s ≡ some a
    → Ends Conserving s (allot system_id k space a s)
unfolding put fail
allot-Conserving system_id k space s a e =
    if-intro (λ (m : Action (Unit {0})). Ends Conserving s (m s))
      (not (is_empty a.contents) || not (a.owner == system_id)) (omega arith)
      (omega (arith, total-replace k (record a { contents = replicate space 0 }) s e))

allocate_inner-Follows :
    (F : Effect Accounts) (system_id k : Address) (space : ℕ) (signers : List Address)
    (key : Address)
    → ((s : Accounts) (a : Account) → lookup k s ≡ some a → Ends F s (allot system_id k space a s))
    → Follows F (allocate_inner system_id k space signers key)
unfolding allocate_inner
allocate_inner-Follows F system_id k space signers key h =
    Follows-if F (not (contains signers key))
      (Follows-fail F (RuntimeError.builtin_error "missing required signature for allocate"))
      (Follows-if F (ltb max_permitted_data_length space)
        (Follows-fail F (RuntimeError.builtin_error "invalid account data: exceeds max length"))
        (Follows-get_mut F k (allot system_id k space) h))

-- All other accounts are left as they were, however a call ends.
abbrev Local : CpiRequest → Effect Accounts
Local instruction = record {
  Returned = λ s t. (k : Address) → (IsNamed instruction k → ⊥) → lookup k t ≡ lookup k s;
  Failed = λ s t. (k : Address) → (IsNamed instruction k → ⊥) → lookup k t ≡ lookup k s;
  same = λ s k h. refl;
  weaken = λ s t h. h;
  then_returned = λ s t u h g k n. g k n ∙ h k n;
  then_failed = λ s t u h g k n. g k n ∙ h k n;
}

module _ (instruction : CpiRequest) where
  -- Another address than a named one.
  other : {j k : Address} → IsNamed instruction j → (IsNamed instruction k → ⊥) → k ≢ j
  other {j} {k} (i, meta, e, same) n eq = n (i, meta, e, same ∙ sym eq)

  replace-Local :
      (j : Address) (b : Account) (s : Accounts)
      → IsNamed instruction j
      → (k : Address) → (IsNamed instruction k → ⊥)
      → lookup k (replace j b s) ≡ lookup k s
  replace-Local j b s named k n = lookup-replace_ne k j b s (other named n)

  credit-Local :
      (s t : Accounts) (k : Address) (n : ℕ) (o : Option Account)
      → IsNamed instruction k
      → (Local instruction).Returned s t
      → Ends (Local instruction) s (continue (credit k n) t (found k o))
  unfolding fail put
  credit-Local s t k n none named h = h
  credit-Local s t k n (some a) named h =
      if-intro (λ (m : Action (Unit {0})). Ends (Local instruction) s (m t))
        (leb (2 ^ 64) (a.lamports + n)) h
        (λ i other_i.
          replace-Local k (record a { lamports = a.lamports + n }) t named i other_i ∙ h i other_i)

  move_lamports-Local :
      (j k : Address) (n : ℕ)
      → IsNamed instruction j
      → IsNamed instruction k
      → Follows (Local instruction) (move_lamports j k n)
  unfolding move_lamports fail put get_mut ◌>>=◌
  move_lamports-Local j k n from to = Follows-get_mut (Local instruction) j _ λ s a e.
      if-intro (λ (m : Action (Unit {0})). Ends (Local instruction) s (m s))
        (not (is_empty a.contents)) (λ i o. refl)
        (if-intro (λ (m : Action (Unit {0})). Ends (Local instruction) s (m s)) (ltb a.lamports n)
          (λ i o. refl)
          (credit-Local s (replace j (record a { lamports = a.lamports - n }) s) k n _ to
            (replace-Local j (record a { lamports = a.lamports - n }) s from)))

  assign_inner-Local :
      (k owner : Address) (signers : List Address) (key : Address)
      → IsNamed instruction k
      → Follows (Local instruction) (assign_inner k owner signers key)
  unfolding assign_inner put pure fail
  assign_inner-Local k owner signers key named = Follows-get_mut (Local instruction) k _ λ s a e.
      if-intro (λ (m : Action (Unit {0})). Ends (Local instruction) s (m s)) (a.owner == owner)
        (λ i o. refl)
        (if-intro (λ (m : Action (Unit {0})). Ends (Local instruction) s (m s))
          (not (contains signers key)) (λ i o. refl) (replace-Local k _ s named))

  allot-Local :
      (system_id k : Address) (space : ℕ) (s : Accounts) (a : Account)
      → IsNamed instruction k
      → Ends (Local instruction) s (allot system_id k space a s)
  unfolding put fail
  allot-Local system_id k space s a named =
      if-intro (λ (m : Action (Unit {0})). Ends (Local instruction) s (m s))
        (not (is_empty a.contents) || not (a.owner == system_id)) (λ i o. refl)
        (replace-Local k (record a { contents = replicate space 0 }) s named)

left :
    (s t : Accounts) (r : Result RuntimeError ℕ)
    → Ends Conserving s (t, r)
    → ((n : ℕ) → r ≡ ok n → total t ≡ total s) × (total t ≤ total s)
left s t (ok n) h = (λ m e. h, omega arith)
left s t (err x) h = (λ m e. elim (err-ne-ok e) [ ], h)
left s t panic h = (λ m e. cc, h)

untouched :
    (instruction : CpiRequest) (s : Accounts) (p : Accounts × Result RuntimeError ℕ)
    → Ends (Local instruction) s p
    → (k : Address) → (IsNamed instruction k → ⊥)
    → lookup k p.0 ≡ lookup k s
untouched instruction s (t, ok n) h = h
untouched instruction s (t, err x) h = h
untouched instruction s (t, panic) h = h

module _ (system_id : Address) (create_with_seed : Address → String → Address → Option Address)
    (deserialize : List ℕ → Option SystemInstruction) where
  -- What is left of the lamports when the system program ends: all of them where it returns, and no
  -- more than there were where it fails, whatever the instruction and the signers.
  pub process-Conserving :
      (instruction : CpiRequest) (signers : List Address) (compute_remaining : ℕ) (s t : Accounts)
      (r : Result RuntimeError ℕ)
      → process system_id create_with_seed deserialize instruction signers compute_remaining s
        ≡ (t, r)
      → ((n : ℕ) → r ≡ ok n → total t ≡ total s) × (total t ≤ total s)
  process-Conserving instruction signers compute_remaining s t r e = left s t r (
      subst (Ends Conserving s) e (
        (process-Follows Conserving instruction system_id
            (λ j k n _ _. move_lamports-Conserving j k n)
            (λ k o sg key _. assign_inner-Conserving k o sg key)
            (λ k n sg key _.
              allocate_inner-Follows Conserving system_id k n sg key
                (allot-Conserving system_id k n))
            create_with_seed deserialize signers compute_remaining).ends
          s))

  -- The system program leaves every account alone whose address the instruction does not name,
  -- also where it fails.
  pub process-Local :
      (instruction : CpiRequest) (signers : List Address) (compute_remaining : ℕ) (s : Accounts)
      (k : Address)
      → (IsNamed instruction k → ⊥)
      → lookup k
          (process system_id create_with_seed deserialize instruction signers compute_remaining s).0
        ≡ lookup k s
  process-Local instruction signers compute_remaining s k apart =
      untouched instruction s
        (process system_id create_with_seed deserialize instruction signers compute_remaining s)
        ((process-Follows (Local instruction) instruction system_id
            (move_lamports-Local instruction) (assign_inner-Local instruction)
            (λ k n sg key named.
              allocate_inner-Follows (Local instruction) system_id k n sg key
                λ s a e. allot-Local instruction system_id k n s a named)
            create_with_seed deserialize signers compute_remaining).ends
          s)
        k apart
