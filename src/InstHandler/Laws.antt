-- ===== src/InstHandler/Laws.antt =====
-- Every opcode has its handlers.
use sbpf.Base.{ℕ, String, ◌≡◌, refl, Option, some}
use sbpf.Opcode.{Opcode}
use sbpf.Opcode.Tables.{lookup, type_of}
use sbpf.Vm.State.{Handle}
use sbpf.InstHandler.{opcode_to_handler, handler_of}

-- Every opcode has handlers, and they are those of its operation type.
pub lookup-opcode_to_handler :
    {H : Type 0} (get : ℕ → Option String) (handle : Handle H) (op : Opcode)
    → lookup (opcode_to_handler get handle) op ≡ some (handler_of get handle (type_of op))
unfolding lookup opcode_to_handler handler_of type_of
lookup-opcode_to_handler get handle Opcode.lddw = refl
lookup-opcode_to_handler get handle _ = refl
