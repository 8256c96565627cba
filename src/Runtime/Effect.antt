-- ===== src/Runtime/Effect.antt =====
-- What a call does to the state, by how it ends, with rules to put calls together.
use sbpf.Base.{◌≡◌, refl, Bool, if◌then◌else◌, if-intro}
use sbpf.Errors.{Result, ok, err, panic}
use sbpf.Runtime.Stateful.{Stateful, ◌>>=◌, continue, pure, fail, lift}

-- What a call that returns, and one that fails, may do.
pub record Effect (S : Type 0) : Type 1 where
  pub Returned : S → S → Type 0
  pub Failed : S → S → Type 0
  pub same : (s : S) → Returned s s
  pub weaken : (s t : S) → Returned s t → Failed s t
  pub then_returned : (s t u : S) → Returned s t → Returned t u → Returned s u
  pub then_failed : (s t u : S) → Returned s t → Failed t u → Failed s u

abbrev pub Ends : {S E A : Type 0} → Effect S → S → S × Result E A → Type 0
Ends F s (t, ok a) = F.Returned s t
Ends F s (t, err e) = F.Failed s t
Ends F s (t, panic) = F.Failed s t

-- A call has the effect from wherever it begins.
pub record Follows {S E : Type 0} (F : Effect S) {A : Type 0} (m : Stateful S E A) : Type 0 where
  pub ends : (s : S) → Ends F s (m s)

Ends-later :
    {S E A : Type 0} (F : Effect S) (s t : S) (o : S × Result E A)
    → F.Returned s t
    → Ends F t o
    → Ends F s o
Ends-later F s t (u, ok a) h g = F.then_returned s t u h g
Ends-later F s t (u, err e) h g = F.then_failed s t u h g
Ends-later F s t (u, panic) h g = F.then_failed s t u h g

Ends-continue :
    {S E A B : Type 0} (F : Effect S) (f : A → Stateful S E B) (s t : S) (r : Result E A)
    → ((a : A) → Follows F (f a))
    → Ends F s (t, r)
    → Ends F s (continue f t r)
Ends-continue F f s t (ok a) h e = Ends-later F s t (f a t) e ((h a).ends t)
Ends-continue F f s t (err e) h g = g
Ends-continue F f s t panic h g = g

pub Follows-bind :
    {S E : Type 0} (F : Effect S) {A B : Type 0} {m : Stateful S E A} {f : A → Stateful S E B}
    → Follows F m
    → ((a : A) → Follows F (f a))
    → Follows F (m >>= f)
unfolding ◌>>=◌
Follows-bind F {m = m} {f = f} h g = record {
  ends = λ s. Ends-continue F f s (m s).0 (m s).1 g (h.ends s);
}

Ends-lift : {S E : Type 0} (F : Effect S) {A : Type 0} (s : S) (r : Result E A) → Ends F s (s, r)
Ends-lift F s (ok a) = F.same s
Ends-lift F s (err e) = F.weaken s s (F.same s)
Ends-lift F s panic = F.weaken s s (F.same s)

pub Follows-lift : {S E : Type 0} (F : Effect S) {A : Type 0} (r : Result E A) → Follows F (lift r)
unfolding lift
Follows-lift F r = record { ends = λ s. Ends-lift F s r }

pub Follows-pure : {S E : Type 0} (F : Effect S) {A : Type 0} (a : A) → Follows {E = E} F (pure a)
unfolding pure
Follows-pure F a = record { ends = λ s. F.same s }

pub Follows-fail : {S E : Type 0} (F : Effect S) {A : Type 0} (e : E) → Follows F (fail {A = A} e)
unfolding fail
Follows-fail F e = record { ends = λ s. F.weaken s s (F.same s) }

pub Follows-if :
    {S E : Type 0} (F : Effect S) {A : Type 0} (b : Bool) {m n : Stateful S E A}
    → Follows F m
    → Follows F n
    → Follows F (if b then m else n)
Follows-if F b h g = if-intro (Follows F) b h g

-- After a value that is lifted, what follows may use where the value came from.
Ends-lifted :
    {S E : Type 0} (F : Effect S) {A B : Type 0} (f : A → Stateful S E B) (s : S) (r : Result E A)
    → ((a : A) → r ≡ ok a → Follows F (f a))
    → Ends F s (continue f s r)
Ends-lifted F f s (ok a) h = (h a refl).ends s
Ends-lifted F f s (err e) h = F.weaken s s (F.same s)
Ends-lifted F f s panic h = F.weaken s s (F.same s)

pub Follows-lifted :
    {S E : Type 0} (F : Effect S) {A B : Type 0} (r : Result E A) (f : A → Stateful S E B)
    → ((a : A) → r ≡ ok a → Follows F (f a))
    → Follows F (lift r >>= f)
unfolding lift ◌>>=◌
Follows-lifted F r f h = record { ends = λ s. Ends-lifted F f s r h }
