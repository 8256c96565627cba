-- ===== src/Opcode/Tables.antt =====
-- The groups of opcodes (crates/common/src/opcode.rs) and the map from an opcode to the type of
-- its operation (crates/common/src/inst_handler.rs).
use sbpf.Base.{◌≡◌, refl, Option, some, none, List, [], ◌∷◌, if◌then◌else◌}
use sbpf.Opcode.{Opcode, OperationType, opcode_eq}

abbrev pub load_imm_ops : List Opcode
load_imm_ops = Opcode.lddw ∷ []

abbrev pub load_memory_ops : List Opcode
load_memory_ops = Opcode.ldxb ∷ Opcode.ldxh ∷ Opcode.ldxw ∷ Opcode.ldxdw ∷ []

abbrev pub store_imm_ops : List Opcode
store_imm_ops = Opcode.stb ∷ Opcode.sth ∷ Opcode.stw ∷ Opcode.stdw ∷ []

abbrev pub store_reg_ops : List Opcode
store_reg_ops = Opcode.stxb ∷ Opcode.stxh ∷ Opcode.stxw ∷ Opcode.stxdw ∷ []

abbrev pub bin_imm_ops : List Opcode
bin_imm_ops =
    Opcode.add32_imm ∷ Opcode.sub32_imm ∷ Opcode.mul32_imm ∷ Opcode.div32_imm ∷ Opcode.or32_imm
    ∷ Opcode.and32_imm ∷ Opcode.lsh32_imm ∷ Opcode.rsh32_imm ∷ Opcode.mod32_imm ∷ Opcode.xor32_imm
    ∷ Opcode.mov32_imm ∷ Opcode.arsh32_imm ∷ Opcode.lmul32_imm ∷ Opcode.udiv32_imm
    ∷ Opcode.urem32_imm ∷ Opcode.sdiv32_imm ∷ Opcode.srem32_imm ∷ Opcode.add64_imm
    ∷ Opcode.sub64_imm ∷ Opcode.mul64_imm ∷ Opcode.div64_imm ∷ Opcode.or64_imm ∷ Opcode.and64_imm
    ∷ Opcode.lsh64_imm ∷ Opcode.rsh64_imm ∷ Opcode.mod64_imm ∷ Opcode.xor64_imm ∷ Opcode.mov64_imm
    ∷ Opcode.arsh64_imm ∷ Opcode.hor64_imm ∷ Opcode.lmul64_imm ∷ Opcode.uhmul64_imm
    ∷ Opcode.udiv64_imm ∷ Opcode.urem64_imm ∷ Opcode.shmul64_imm ∷ Opcode.sdiv64_imm
    ∷ Opcode.srem64_imm ∷ []

abbrev pub endian_ops : List Opcode
endian_ops = Opcode.le ∷ Opcode.be ∷ []

abbrev pub bin_reg_ops : List Opcode
bin_reg_ops =
    Opcode.add32_reg ∷ Opcode.sub32_reg ∷ Opcode.mul32_reg ∷ Opcode.div32_reg ∷ Opcode.or32_reg
    ∷ Opcode.and32_reg ∷ Opcode.lsh32_reg ∷ Opcode.rsh32_reg ∷ Opcode.mod32_reg ∷ Opcode.xor32_reg
    ∷ Opcode.mov32_reg ∷ Opcode.arsh32_reg ∷ Opcode.lmul32_reg ∷ Opcode.udiv32_reg
    ∷ Opcode.urem32_reg ∷ Opcode.sdiv32_reg ∷ Opcode.srem32_reg ∷ Opcode.add64_reg
    ∷ Opcode.sub64_reg ∷ Opcode.mul64_reg ∷ Opcode.div64_reg ∷ Opcode.or64_reg ∷ Opcode.and64_reg
    ∷ Opcode.lsh64_reg ∷ Opcode.rsh64_reg ∷ Opcode.mod64_reg ∷ Opcode.xor64_reg ∷ Opcode.mov64_reg
    ∷ Opcode.arsh64_reg ∷ Opcode.lmul64_reg ∷ Opcode.uhmul64_reg ∷ Opcode.udiv64_reg
    ∷ Opcode.urem64_reg ∷ Opcode.shmul64_reg ∷ Opcode.sdiv64_reg ∷ Opcode.srem64_reg ∷ []

abbrev pub unary_ops : List Opcode
unary_ops = Opcode.neg32 ∷ Opcode.neg64 ∷ []

abbrev pub jump_ops : List Opcode
jump_ops = Opcode.ja ∷ []

abbrev pub jump_imm_ops : List Opcode
jump_imm_ops =
    Opcode.jeq_imm ∷ Opcode.jgt_imm ∷ Opcode.jge_imm ∷ Opcode.jlt_imm ∷ Opcode.jle_imm
    ∷ Opcode.jset_imm ∷ Opcode.jne_imm ∷ Opcode.jsgt_imm ∷ Opcode.jsge_imm ∷ Opcode.jslt_imm
    ∷ Opcode.jsle_imm ∷ []

abbrev pub jump_reg_ops : List Opcode
jump_reg_ops =
    Opcode.jeq_reg ∷ Opcode.jgt_reg ∷ Opcode.jge_reg ∷ Opcode.jlt_reg ∷ Opcode.jle_reg
    ∷ Opcode.jset_reg ∷ Opcode.jne_reg ∷ Opcode.jsgt_reg ∷ Opcode.jsge_reg ∷ Opcode.jslt_reg
    ∷ Opcode.jsle_reg ∷ []

abbrev pub jump32_imm_ops : List Opcode
jump32_imm_ops =
    Opcode.jeq32_imm ∷ Opcode.jgt32_imm ∷ Opcode.jge32_imm ∷ Opcode.jlt32_imm ∷ Opcode.jle32_imm
    ∷ Opcode.jset32_imm ∷ Opcode.jne32_imm ∷ Opcode.jsgt32_imm ∷ Opcode.jsge32_imm
    ∷ Opcode.jslt32_imm ∷ Opcode.jsle32_imm ∷ []

abbrev pub jump32_reg_ops : List Opcode
jump32_reg_ops =
    Opcode.jeq32_reg ∷ Opcode.jgt32_reg ∷ Opcode.jge32_reg ∷ Opcode.jlt32_reg ∷ Opcode.jle32_reg
    ∷ Opcode.jset32_reg ∷ Opcode.jne32_reg ∷ Opcode.jsgt32_reg ∷ Opcode.jsge32_reg
    ∷ Opcode.jslt32_reg ∷ Opcode.jsle32_reg ∷ []

abbrev pub call_imm_ops : List Opcode
call_imm_ops = Opcode.call ∷ []

abbrev pub call_reg_ops : List Opcode
call_reg_ops = Opcode.callx ∷ []

abbrev pub exit_ops : List Opcode
exit_ops = Opcode.exit ∷ []

-- A `HashMap` whose keys are opcodes, as the list of its insertions, the last one first.
abbrev pub OpcodeMap : Type 0 → Type 0
OpcodeMap V = List (Opcode × V)

unfoldable pub register_group : {V : Type 0} → OpcodeMap V → List Opcode → V → OpcodeMap V
register_group m [] v = m
register_group m (op ∷ ops) v = register_group ((op, v) ∷ m) ops v

unfoldable pub lookup : {V : Type 0} → OpcodeMap V → Opcode → Option V
unfolding opcode_eq
lookup [] op = none
lookup ((k, v) ∷ m) op = if opcode_eq k op then some v else lookup m op

unfoldable pub opcode_to_type : OpcodeMap OperationType
unfolding register_group
opcode_to_type =
    let m1 : OpcodeMap OperationType =
      register_group [] load_imm_ops OperationType.load_immediate in
    let m2 : OpcodeMap OperationType =
      register_group m1 load_memory_ops OperationType.load_memory in
    let m3 : OpcodeMap OperationType =
      register_group m2 store_imm_ops OperationType.store_immediate in
    let m4 : OpcodeMap OperationType =
      register_group m3 store_reg_ops OperationType.store_register in
    let m5 : OpcodeMap OperationType =
      register_group m4 bin_imm_ops OperationType.binary_immediate in
    let m6 : OpcodeMap OperationType =
      register_group m5 bin_reg_ops OperationType.binary_register in
    let m7 : OpcodeMap OperationType = register_group m6 unary_ops OperationType.unary in
    let m8 : OpcodeMap OperationType = register_group m7 endian_ops OperationType.endian in
    let m9 : OpcodeMap OperationType = register_group m8 jump_ops OperationType.jump in
    let m10 : OpcodeMap OperationType =
      register_group m9 jump_imm_ops OperationType.jump_immediate in
    let m11 : OpcodeMap OperationType =
      register_group m10 jump_reg_ops OperationType.jump_register in
    let m12 : OpcodeMap OperationType =
      register_group m11 jump32_imm_ops OperationType.jump32_immediate in
    let m13 : OpcodeMap OperationType =
      register_group m12 jump32_reg_ops OperationType.jump32_register in
    let m14 : OpcodeMap OperationType =
      register_group m13 call_imm_ops OperationType.call_immediate in
    let m15 : OpcodeMap OperationType =
      register_group m14 call_reg_ops OperationType.call_register in
    let m16 : OpcodeMap OperationType = register_group m15 exit_ops OperationType.exit in m16

-- The type of each opcode, read off its name: what the map is to hold.
unfoldable pub type_of : Opcode → OperationType
type_of Opcode.lddw = OperationType.load_immediate
type_of Opcode.ldxb = OperationType.load_memory
type_of Opcode.ldxh = OperationType.load_memory
type_of Opcode.ldxw = OperationType.load_memory
type_of Opcode.ldxdw = OperationType.load_memory
type_of Opcode.stb = OperationType.store_immediate
type_of Opcode.sth = OperationType.store_immediate
type_of Opcode.stw = OperationType.store_immediate
type_of Opcode.stdw = OperationType.store_immediate
type_of Opcode.stxb = OperationType.store_register
type_of Opcode.stxh = OperationType.store_register
type_of Opcode.stxw = OperationType.store_register
type_of Opcode.stxdw = OperationType.store_register
type_of Opcode.add32_imm = OperationType.binary_immediate
type_of Opcode.add32_reg = OperationType.binary_register
type_of Opcode.sub32_imm = OperationType.binary_immediate
type_of Opcode.sub32_reg = OperationType.binary_register
type_of Opcode.mul32_imm = OperationType.binary_immediate
type_of Opcode.mul32_reg = OperationType.binary_register
type_of Opcode.div32_imm = OperationType.binary_immediate
type_of Opcode.div32_reg = OperationType.binary_register
type_of Opcode.or32_imm = OperationType.binary_immediate
type_of Opcode.or32_reg = OperationType.binary_register
type_of Opcode.and32_imm = OperationType.binary_immediate
type_of Opcode.and32_reg = OperationType.binary_register
type_of Opcode.lsh32_imm = OperationType.binary_immediate
type_of Opcode.lsh32_reg = OperationType.binary_register
type_of Opcode.rsh32_imm = OperationType.binary_immediate
type_of Opcode.rsh32_reg = OperationType.binary_register
type_of Opcode.mod32_imm = OperationType.binary_immediate
type_of Opcode.mod32_reg = OperationType.binary_register
type_of Opcode.xor32_imm = OperationType.binary_immediate
type_of Opcode.xor32_reg = OperationType.binary_register
type_of Opcode.mov32_imm = OperationType.binary_immediate
type_of Opcode.mov32_reg = OperationType.binary_register
type_of Opcode.arsh32_imm = OperationType.binary_immediate
type_of Opcode.arsh32_reg = OperationType.binary_register
type_of Opcode.lmul32_imm = OperationType.binary_immediate
type_of Opcode.lmul32_reg = OperationType.binary_register
type_of Opcode.udiv32_imm = OperationType.binary_immediate
type_of Opcode.udiv32_reg = OperationType.binary_register
type_of Opcode.urem32_imm = OperationType.binary_immediate
type_of Opcode.urem32_reg = OperationType.binary_register
type_of Opcode.sdiv32_imm = OperationType.binary_immediate
type_of Opcode.sdiv32_reg = OperationType.binary_register
type_of Opcode.srem32_imm = OperationType.binary_immediate
type_of Opcode.srem32_reg = OperationType.binary_register
type_of Opcode.le = OperationType.endian
type_of Opcode.be = OperationType.endian
type_of Opcode.add64_imm = OperationType.binary_immediate
type_of Opcode.add64_reg = OperationType.binary_register
type_of Opcode.sub64_imm = OperationType.binary_immediate
type_of Opcode.sub64_reg = OperationType.binary_register
type_of Opcode.mul64_imm = OperationType.binary_immediate
type_of Opcode.mul64_reg = OperationType.binary_register
type_of Opcode.div64_imm = OperationType.binary_immediate
type_of Opcode.div64_reg = OperationType.binary_register
type_of Opcode.or64_imm = OperationType.binary_immediate
type_of Opcode.or64_reg = OperationType.binary_register
type_of Opcode.and64_imm = OperationType.binary_immediate
type_of Opcode.and64_reg = OperationType.binary_register
type_of Opcode.lsh64_imm = OperationType.binary_immediate
type_of Opcode.lsh64_reg = OperationType.binary_register
type_of Opcode.rsh64_imm = OperationType.binary_immediate
type_of Opcode.rsh64_reg = OperationType.binary_register
type_of Opcode.mod64_imm = OperationType.binary_immediate
type_of Opcode.mod64_reg = OperationType.binary_register
type_of Opcode.xor64_imm = OperationType.binary_immediate
type_of Opcode.xor64_reg = OperationType.binary_register
type_of Opcode.mov64_imm = OperationType.binary_immediate
type_of Opcode.mov64_reg = OperationType.binary_register
type_of Opcode.arsh64_imm = OperationType.binary_immediate
type_of Opcode.arsh64_reg = OperationType.binary_register
type_of Opcode.hor64_imm = OperationType.binary_immediate
type_of Opcode.lmul64_imm = OperationType.binary_immediate
type_of Opcode.lmul64_reg = OperationType.binary_register
type_of Opcode.uhmul64_imm = OperationType.binary_immediate
type_of Opcode.uhmul64_reg = OperationType.binary_register
type_of Opcode.udiv64_imm = OperationType.binary_immediate
type_of Opcode.udiv64_reg = OperationType.binary_register
type_of Opcode.urem64_imm = OperationType.binary_immediate
type_of Opcode.urem64_reg = OperationType.binary_register
type_of Opcode.shmul64_imm = OperationType.binary_immediate
type_of Opcode.shmul64_reg = OperationType.binary_register
type_of Opcode.sdiv64_imm = OperationType.binary_immediate
type_of Opcode.sdiv64_reg = OperationType.binary_register
type_of Opcode.srem64_imm = OperationType.binary_immediate
type_of Opcode.srem64_reg = OperationType.binary_register
type_of Opcode.neg32 = OperationType.unary
type_of Opcode.neg64 = OperationType.unary
type_of Opcode.ja = OperationType.jump
type_of Opcode.jeq_imm = OperationType.jump_immediate
type_of Opcode.jeq_reg = OperationType.jump_register
type_of Opcode.jgt_imm = OperationType.jump_immediate
type_of Opcode.jgt_reg = OperationType.jump_register
type_of Opcode.jge_imm = OperationType.jump_immediate
type_of Opcode.jge_reg = OperationType.jump_register
type_of Opcode.jlt_imm = OperationType.jump_immediate
type_of Opcode.jlt_reg = OperationType.jump_register
type_of Opcode.jle_imm = OperationType.jump_immediate
type_of Opcode.jle_reg = OperationType.jump_register
type_of Opcode.jset_imm = OperationType.jump_immediate
type_of Opcode.jset_reg = OperationType.jump_register
type_of Opcode.jne_imm = OperationType.jump_immediate
type_of Opcode.jne_reg = OperationType.jump_register
type_of Opcode.jsgt_imm = OperationType.jump_immediate
type_of Opcode.jsgt_reg = OperationType.jump_register
type_of Opcode.jsge_imm = OperationType.jump_immediate
type_of Opcode.jsge_reg = OperationType.jump_register
type_of Opcode.jslt_imm = OperationType.jump_immediate
type_of Opcode.jslt_reg = OperationType.jump_register
type_of Opcode.jsle_imm = OperationType.jump_immediate
type_of Opcode.jsle_reg = OperationType.jump_register
type_of Opcode.jeq32_imm = OperationType.jump32_immediate
type_of Opcode.jeq32_reg = OperationType.jump32_register
type_of Opcode.jgt32_imm = OperationType.jump32_immediate
type_of Opcode.jgt32_reg = OperationType.jump32_register
type_of Opcode.jge32_imm = OperationType.jump32_immediate
type_of Opcode.jge32_reg = OperationType.jump32_register
type_of Opcode.jlt32_imm = OperationType.jump32_immediate
type_of Opcode.jlt32_reg = OperationType.jump32_register
type_of Opcode.jle32_imm = OperationType.jump32_immediate
type_of Opcode.jle32_reg = OperationType.jump32_register
type_of Opcode.jset32_imm = OperationType.jump32_immediate
type_of Opcode.jset32_reg = OperationType.jump32_register
type_of Opcode.jne32_imm = OperationType.jump32_immediate
type_of Opcode.jne32_reg = OperationType.jump32_register
type_of Opcode.jsgt32_imm = OperationType.jump32_immediate
type_of Opcode.jsgt32_reg = OperationType.jump32_register
type_of Opcode.jsge32_imm = OperationType.jump32_immediate
type_of Opcode.jsge32_reg = OperationType.jump32_register
type_of Opcode.jslt32_imm = OperationType.jump32_immediate
type_of Opcode.jslt32_reg = OperationType.jump32_register
type_of Opcode.jsle32_imm = OperationType.jump32_immediate
type_of Opcode.jsle32_reg = OperationType.jump32_register
type_of Opcode.call = OperationType.call_immediate
type_of Opcode.callx = OperationType.call_register
type_of Opcode.exit = OperationType.exit

-- Every opcode has a type, so `get_opcode_type().unwrap()` does not panic; it is the type that
-- the opcode's name says.
pub lookup-opcode_to_type : (op : Opcode) → lookup opcode_to_type op ≡ some (type_of op)
unfolding lookup opcode_to_type type_of
lookup-opcode_to_type Opcode.lddw = refl
lookup-opcode_to_type _ = refl
