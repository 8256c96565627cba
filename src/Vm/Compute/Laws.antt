-- ===== src/Vm/Compute/Laws.antt =====
-- The meter never runs over its limit.
use sbpf.Base.{ℕ, ◌+◌, ◌-◌, ◌≤◌, ◌<◌, ◌^◌, ◌≡◌, ◌↔◌, arith}
use sbpf.Errors.{ok}
use sbpf.Vm.Compute.{ComputeMeter, consume, get_remaining}

-- For a meter within a limit below the largest `u64`: `consume` succeeds exactly when the units
-- remain, and then adds them to what is consumed and leaves the limit.
pub consume_iff :
    (m m' : ComputeMeter) (amount : ℕ)
    → m.consumed ≤ m.limit
    → m.limit < 2 ^ 64 - 1
    → (consume m amount ≡ ok m')
      ↔ ((amount ≤ get_remaining m) × (m'.consumed ≡ m.consumed + amount) × (m'.limit ≡ m.limit))
unfolding consume get_remaining
consume_iff m m' amount v f = (λ h. ground arith, λ h. ground arith)

pub consume-within :
    (m m' : ComputeMeter) (amount : ℕ)
    → consume m amount ≡ ok m'
    → (m'.consumed ≤ m'.limit) × (m'.limit ≡ m.limit)
unfolding consume
consume-within m m' amount h = ground arith
