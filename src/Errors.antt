-- ===== src/Errors.antt =====
-- crates/common/src/errors.rs and crates/vm/src/errors.rs: the error types, and Rust's `Result`.
-- A panic (a failed `assert!`, an index out of range, `unreachable!`) is the outcome `panic`.
-- The text of a message is the format string of the source, its interpolated values left out.
use sbpf.Base.{◌≡◌, refl, sym, ℕ, String, Option}

pub data Result {ℓ} (E : Type 0) (A : Type ℓ) : Type ℓ where
  ok : A → Result E A
  err : E → Result E A
  panic : Result E A

infixl 5 ◌>>=◌
abbrev pub ◌>>=◌ {ℓ κ} :
    {E : Type 0} {A : Type ℓ} {B : Type κ} → Result E A → (A → Result E B) → Result E B
ok a >>= f = f a
err e >>= f = err e
panic >>= f = panic

module _ {ℓ} {E : Type 0} {A : Type ℓ} where
  pub ok-injective : {a b : A} → ◌≡◌ {A = Result E A} (ok a) (ok b) → a ≡ b
  ok-injective h = cc

  pub ok-ne-err : {a : A} {e : E} → ◌≡◌ {A = Result E A} (ok a) (err e) → ⊥
  ok-ne-err h = cc

  pub err-ne-ok : {a : A} {e : E} → ◌≡◌ {A = Result E A} (err e) (ok a) → ⊥
  err-ne-ok h = cc

  pub ok-ne-panic : {a : A} → ◌≡◌ {A = Result E A} (ok a) panic → ⊥
  ok-ne-panic h = cc

-- Inversion of a successful bind.
pub >>=-eq-ok {ℓ κ} :
    {E : Type 0} {A : Type ℓ} {B : Type κ} (r : Result E A) (next : A → Result E B) {result : B}
    → (r >>= next) ≡ ok result
    → (value : A) × (r ≡ ok value) × (next value ≡ ok result)
>>=-eq-ok panic next e = absurd (ok-ne-panic (sym e))
>>=-eq-ok (err x) next e = absurd (err-ne-ok e)
>>=-eq-ok (ok value) next e = (value, refl, e)

-- What follows a step matters only where the step succeeds.
pub >>=-cong {ℓ κ} :
    {E : Type 0} {A : Type ℓ} {B : Type κ} (m : Result E A) (f g : A → Result E B)
    → ((a : A) → m ≡ ok a → f a ≡ g a)
    → (m >>= f) ≡ (m >>= g)
>>=-cong (ok a) f g h = h a refl
>>=-cong (err e) f g h = refl
>>=-cong panic f g h = refl

pub record SbpfError : Type 0 where
  pub error : String
  pub span : ℕ × ℕ
  pub custom_label : Option String

pub data ExecutionError : Type 0 where
  division_by_zero invalid_operand invalid_instruction : ExecutionError
  call_depth_exceeded : ℕ → ExecutionError
  invalid_memory_access : ℕ → ExecutionError
  syscall_error : String → ExecutionError

pub data SbpfVmError : Type 0 where
  division_by_zero : SbpfVmError
  invalid_memory_access : ℕ → SbpfVmError
  memory_out_of_bounds : ℕ → ℕ → SbpfVmError
  invalid_operand : SbpfVmError
  pc_out_of_bounds : ℕ → SbpfVmError
  invalid_instruction : SbpfVmError
  call_depth_exceeded : ℕ → SbpfVmError
  execution_limit_reached : ℕ → SbpfVmError
  syscall_error : String → SbpfVmError
  compute_budget_exceeded : ℕ → ℕ → SbpfVmError
  abort overlapping_memory_regions too_many_slices : SbpfVmError
  max_seed_length_exceeded invalid_slice_conversion : SbpfVmError

-- `impl From<ExecutionError> for SbpfVmError`.
unfoldable pub from_execution_error : ExecutionError → SbpfVmError
from_execution_error ExecutionError.division_by_zero = SbpfVmError.division_by_zero
from_execution_error ExecutionError.invalid_operand = SbpfVmError.invalid_operand
from_execution_error ExecutionError.invalid_instruction = SbpfVmError.invalid_instruction
from_execution_error (ExecutionError.call_depth_exceeded n) = SbpfVmError.call_depth_exceeded n
from_execution_error (ExecutionError.invalid_memory_access a) = SbpfVmError.invalid_memory_access a
from_execution_error (ExecutionError.syscall_error s) = SbpfVmError.syscall_error s
