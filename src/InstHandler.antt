-- ===== src/InstHandler.antt =====
-- crates/common/src/inst_handler.rs: the handlers of each opcode.
pub mod Laws
pub mod Codec
pub mod RoundTrip
use sbpf.Base.{ℕ, String, Option, List, []}
use sbpf.Errors.{Result, SbpfError}
use sbpf.Opcode.{OperationType}
use sbpf.Opcode.Tables.{
  OpcodeMap, register_group, load_imm_ops, load_memory_ops, store_imm_ops, store_reg_ops,
  bin_imm_ops, bin_reg_ops, unary_ops, endian_ops, jump_ops, jump_imm_ops, jump_reg_ops,
  jump32_imm_ops, jump32_reg_ops, call_imm_ops, call_reg_ops, exit_ops,
}
use sbpf.Instruction.{Instruction}
use sbpf.Instruction.Decode.{
  decode_load_immediate, decode_load_memory, decode_store_immediate, decode_store_register,
  decode_binary_immediate, decode_binary_register, decode_unary, decode_endian, decode_jump,
  decode_jump_immediate, decode_jump_register, decode_jump32_immediate, decode_jump32_register,
  decode_call_immediate, decode_call_register, decode_exit,
}
use sbpf.Instruction.Validate.{
  validate_load_immediate, validate_load_memory, validate_store_immediate, validate_store_register,
  validate_binary_immediate, validate_binary_register, validate_unary, validate_endian,
  validate_jump, validate_jump_immediate, validate_jump_register, validate_call_immediate,
  validate_call_register, validate_exit,
}
use sbpf.Vm.State.{M, Handle}
use sbpf.Execute.Dispatch.{
  execute_load_immediate, execute_load_memory, execute_store_immediate, execute_store_register,
  execute_binary_immediate, execute_binary_register, execute_unary,
}
use sbpf.Execute.Endian.{execute_endian}
use sbpf.Execute.Jump.{execute_jump, execute_jump_immediate, execute_jump_register}
use sbpf.Execute.Call.{execute_call_immediate, execute_call_register, execute_exit}

pub record InstructionHandler (H : Type 0) : Type 0 where
  pub decode : List ℕ → Result SbpfError Instruction
  pub validate : Instruction → Result SbpfError (Unit {0})
  pub execute : Instruction → M H (Unit {0})

-- `get` names the static syscalls by their hash, and `handle` is the machine's syscall handler.
module _ {H : Type 0} (get : ℕ → Option String) (handle : Handle H) where
  abbrev handler :
      (List ℕ → Result SbpfError Instruction)
      → (Instruction → Result SbpfError (Unit {0}))
      → (Instruction → M H (Unit {0}))
      → InstructionHandler H
  handler decode validate execute = record {
    decode = decode;
    validate = validate;
    execute = execute;
  }

  unfoldable pub opcode_to_handler : OpcodeMap (InstructionHandler H)
  unfolding register_group
  opcode_to_handler =
      let m1 : OpcodeMap (InstructionHandler H) =
        register_group [] load_imm_ops
          (handler decode_load_immediate validate_load_immediate execute_load_immediate) in
      let m2 : OpcodeMap (InstructionHandler H) =
        register_group m1 load_memory_ops
          (handler decode_load_memory validate_load_memory execute_load_memory) in
      let m3 : OpcodeMap (InstructionHandler H) =
        register_group m2 store_imm_ops
          (handler decode_store_immediate validate_store_immediate execute_store_immediate) in
      let m4 : OpcodeMap (InstructionHandler H) =
        register_group m3 store_reg_ops
          (handler decode_store_register validate_store_register execute_store_register) in
      let m5 : OpcodeMap (InstructionHandler H) =
        register_group m4 bin_imm_ops
          (handler decode_binary_immediate validate_binary_immediate execute_binary_immediate) in
      let m6 : OpcodeMap (InstructionHandler H) =
        register_group m5 bin_reg_ops
          (handler decode_binary_register validate_binary_register execute_binary_register) in
      let m7 : OpcodeMap (InstructionHandler H) =
        register_group m6 unary_ops (handler decode_unary validate_unary execute_unary) in
      let m8 : OpcodeMap (InstructionHandler H) =
        register_group m7 endian_ops (handler decode_endian validate_endian execute_endian) in
      let m9 : OpcodeMap (InstructionHandler H) =
        register_group m8 jump_ops (handler decode_jump validate_jump execute_jump) in
      let m10 : OpcodeMap (InstructionHandler H) =
        register_group m9 jump_imm_ops
          (handler decode_jump_immediate validate_jump_immediate execute_jump_immediate) in
      let m11 : OpcodeMap (InstructionHandler H) =
        register_group m10 jump_reg_ops
          (handler decode_jump_register validate_jump_register execute_jump_register) in
      let m12 : OpcodeMap (InstructionHandler H) =
        register_group m11 jump32_imm_ops
          (handler decode_jump32_immediate validate_jump_immediate execute_jump_immediate) in
      let m13 : OpcodeMap (InstructionHandler H) =
        register_group m12 jump32_reg_ops
          (handler decode_jump32_register validate_jump_register execute_jump_register) in
      let m14 : OpcodeMap (InstructionHandler H) = register_group m13 call_imm_ops (
        handler (decode_call_immediate get) validate_call_immediate
          (execute_call_immediate handle)) in
      let m15 : OpcodeMap (InstructionHandler H) =
        register_group m14 call_reg_ops
          (handler decode_call_register validate_call_register execute_call_register) in
      let m16 : OpcodeMap (InstructionHandler H) =
        register_group m15 exit_ops (handler decode_exit validate_exit execute_exit) in
      m16

  -- The handler of each type of operation: what the map is to hold.
  unfoldable pub handler_of : OperationType → InstructionHandler H
  handler_of OperationType.load_immediate =
      handler decode_load_immediate validate_load_immediate execute_load_immediate
  handler_of OperationType.load_memory =
      handler decode_load_memory validate_load_memory execute_load_memory
  handler_of OperationType.store_immediate =
      handler decode_store_immediate validate_store_immediate execute_store_immediate
  handler_of OperationType.store_register =
      handler decode_store_register validate_store_register execute_store_register
  handler_of OperationType.binary_immediate =
      handler decode_binary_immediate validate_binary_immediate execute_binary_immediate
  handler_of OperationType.binary_register =
      handler decode_binary_register validate_binary_register execute_binary_register
  handler_of OperationType.unary = handler decode_unary validate_unary execute_unary
  handler_of OperationType.endian = handler decode_endian validate_endian execute_endian
  handler_of OperationType.jump = handler decode_jump validate_jump execute_jump
  handler_of OperationType.jump_immediate =
      handler decode_jump_immediate validate_jump_immediate execute_jump_immediate
  handler_of OperationType.jump_register =
      handler decode_jump_register validate_jump_register execute_jump_register
  handler_of OperationType.jump32_immediate =
      handler decode_jump32_immediate validate_jump_immediate execute_jump_immediate
  handler_of OperationType.jump32_register =
      handler decode_jump32_register validate_jump_register execute_jump_register
  handler_of OperationType.call_immediate =
      handler (decode_call_immediate get) validate_call_immediate (execute_call_immediate handle)
  handler_of OperationType.call_register =
      handler decode_call_register validate_call_register execute_call_register
  handler_of OperationType.exit = handler decode_exit validate_exit execute_exit
