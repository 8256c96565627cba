-- ===== src/Runtime/Store/Follows.antt =====
-- After an account that is looked up.
use sbpf.Base.{◌≡◌, refl, Option, some, none}
use sbpf.Runtime.Stateful.{◌>>=◌, continue}
use sbpf.Runtime.Store.{Address, Account, Accounts, Action, get_mut, found, lookup}
use sbpf.Runtime.Effect.{Effect, Ends, Follows}

Ends-found :
    (F : Effect Accounts) {A : Type 0} (k : Address) (f : Account → Action A) (s : Accounts)
    (o : Option Account)
    → lookup k s ≡ o
    → ((a : Account) → lookup k s ≡ some a → Ends F s (f a s))
    → Ends F s (continue f s (found k o))
Ends-found F k f s (some a) e h = h a e
Ends-found F k f s none e h = F.weaken s s (F.same s)

pub Follows-get_mut :
    (F : Effect Accounts) {A : Type 0} (k : Address) (f : Account → Action A)
    → ((s : Accounts) (a : Account) → lookup k s ≡ some a → Ends F s (f a s))
    → Follows F (get_mut k >>= f)
unfolding get_mut ◌>>=◌
Follows-get_mut F k f h = record {
  ends = λ s. Ends-found F k f s (lookup k s) refl (λ a e. h s a e);
}
