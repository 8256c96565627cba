-- ===== src/Runtime/Stateful.antt =====
-- Code that changes a state in place and may fail (`&mut` arguments and `Result`): after an error
-- the state is as the code left it.
use sbpf.Base.{◌≡◌, refl, sym, ap}
use sbpf.Errors.{Result, ok, err, panic, err-ne-ok, ok-ne-panic}

abbrev pub Stateful : Type 0 → Type 0 → Type 0 → Type 0
Stateful S E A = S → S × Result E A

module _ {S E : Type 0} where
  -- What follows a call.
  abbrev pub continue : {A B : Type 0} → (A → Stateful S E B) → S → Result E A → S × Result E B
  continue f s (ok a) = f a s
  continue f s (err e) = (s, err e)
  continue f s panic = (s, panic)

  infixl 5 ◌>>=◌ ◌>>◌
  unfoldable pub ◌>>=◌ : {A B : Type 0} → Stateful S E A → (A → Stateful S E B) → Stateful S E B
  ◌>>=◌ m f s = let (s', r) = m s in continue f s' r

  abbrev pub ◌>>◌ : {B : Type 0} → Stateful S E (Unit {0}) → Stateful S E B → Stateful S E B
  m >> k = m >>= λ _. k

  unfoldable pub pure : {A : Type 0} → A → Stateful S E A
  pure a s = (s, ok a)

  unfoldable pub fail : {A : Type 0} → E → Stateful S E A
  fail e s = (s, err e)

  unfoldable pub lift : {A : Type 0} → Result E A → Stateful S E A
  lift r s = (s, r)

module _ {S E : Type 0} where
  continue-eq-ok :
      {A B : Type 0} (f : A → Stateful S E B) (s : S) (r : Result E A) {t : S} {b : B}
      → continue f s r ≡ (t, ok b)
      → (a : A) × (r ≡ ok a) × (f a s ≡ (t, ok b))
  continue-eq-ok f s (ok a) h = (a, refl, h)
  continue-eq-ok f s (err e) h = absurd (err-ne-ok (ap (λ p. p.1) h))
  continue-eq-ok f s panic h = absurd (ok-ne-panic (sym (ap (λ p. p.1) h)))

  -- Where a sequence of calls succeeds, the first does, and the rest from there.
  pub >>=-eq-ok :
      {A B : Type 0} (m : Stateful S E A) (f : A → Stateful S E B) {s t : S} {b : B}
      → (m >>= f) s ≡ (t, ok b)
      → (s' : S) × (a : A) × (m s ≡ (s', ok a)) × (f a s' ≡ (t, ok b))
  unfolding ◌>>=◌
  >>=-eq-ok m f {s} h =
      let (a, e, g) = continue-eq-ok f (m s).0 (m s).1 h in ((m s).0, a, λ i. ((m s).0, e i), g)
