-- ===== src/Lib.antt =====
-- sbpf: a toolchain for Solana's sBPF bytecode: the instruction codec, the virtual machine, the
-- runtime's accounts and memory, and the control flow graph.
--
-- The program is a Rust workspace. Its core is in two crates. `crates/common` has the opcodes and
-- their tables (src/opcode.rs), the instruction and its bytes (src/instruction.rs, src/decode.rs,
-- src/validate.rs), the table of handlers (src/inst_handler.rs), and the meaning of each instruction as
-- a function on a machine behind a trait (src/execute). `crates/vm` has the machine: its memory
-- (src/memory.rs), its compute meter (src/compute.rs), and its state with `step` and `run`
-- (src/vm.rs). A step looks up the opcode of the current instruction in the table of handlers and calls
-- the handler's `execute`, which reads and writes the machine. Around them, `crates/runtime` runs programs on
-- accounts: a program calls the system calls of src/syscalls and, by a cross-program invocation that
-- src/cpi/validate.rs checks, the system program of src/cpi/builtins/system.rs. `crates/ir` groups the nodes of
-- an assembly program into blocks, functions and a graph, and `crates/analyzer` drops the functions that the
-- entry cannot reach, by the worklist engine of `crates/ir`.
--
-- Files:
--   Base            numbers, lists, integers, machine words, bits: what all parts share.
--   Errors          `Result`, with panics as values, and the three types of errors
--                   (crates/common/src/errors.rs, crates/vm/src/errors.rs).
--   Opcode          crates/common/src/opcode.rs: the enumeration; Opcode/Tables its groups and the map
--                   from opcodes to operation types (`OPCODE_TO_TYPE`); Opcode/Bytes the conversions
--                   from and to bytes; Opcode/Syntax the mnemonics; Opcode/Classes the operators,
--                   the sizes and the classes of opcodes.
--   Instruction     crates/common/src/instruction.rs, crates/common/src/inst_param.rs; Instruction/Decode
--                   is decode.rs, Instruction/Validate is validate.rs, Instruction/Encode is `to_bytes`.
--   Vm/Compute      crates/vm/src/compute.rs.
--   Vm/Memory       crates/vm/src/memory.rs, with lemmas on writes (Overwrite, Laws, Frame) and on the
--                   values stored (Bytes).
--   Vm/State        crates/vm/src/vm.rs: the record `SbpfVm`, its construction, and the methods of the
--                   trait `Vm` as a monad of state and errors. State/Laws has the invariant `IsValid`,
--                   State/Safe the rules by which steps keep it, State/Start the built machine.
--   Vm/Step         `execute_instruction`, `step` and `run`; Step/Laws and Step/Run their theorems,
--                   Step/Restart is about machines that are reset, Step/Panics about a step that panics.
--   Execute         crates/common/src/execute: one file for each of its files (load.rs and store.rs
--                   are LoadStore, mod.rs is Dispatch). Execute/Safety shows file by file that the
--                   instructions keep the machine valid; Execute/Call/Laws is about calls and returns.
--   InstHandler     crates/common/src/inst_handler.rs: `OPCODE_TO_HANDLER`; InstHandler/Codec is
--                   `from_bytes`, `from_bytes_sbpf_v2` and `from_bytes_sbpf_v3` of instruction.rs, which
--                   use it, and InstHandler/RoundTrip relates them to `to_bytes`.
--   SyscallMap      crates/syscall-map/src/static_map.rs and hash.rs: a table that is made from names by
--                   their hashes and sorted, its check and its search.
--   Runtime/Stateful code that changes a state and may fail, as a monad; Runtime/Effect has rules for what
--                   such code does however it ends.
--   Runtime/Store   the accounts (`HashMap<Address, Account>`) and crates/runtime/src/errors.rs.
--   Runtime/Request the records of crates/runtime/src/cpi/request.rs.
--   Runtime/System  crates/runtime/src/cpi/builtins/system.rs: `process` and what it calls; System/Follows
--                   walks through all its instructions once, System/Laws and System/Loss use that.
--   Runtime/Validate crates/runtime/src/cpi/validate.rs.
--   Runtime/Config  the costs of crates/runtime/src/config.rs.
--   Runtime/Syscalls crates/runtime/src/syscalls/memory.rs and return_data.rs: Syscalls/Move about copying and
--                   filling, Syscalls/Compare about comparing, Syscalls/Returned about returned data, and
--                   Syscalls/Tame about all of them.
--   Ir/Worklist     crates/ir/src/graph_engine/worklist.rs: `WorklistEngine`; Worklist/Laws has its
--                   invariant, Worklist/Run the loop, Worklist/Reach what is visited.
--   Ir/Cfg          crates/ir/src/cfg.rs and the nodes of dataflow.rs: blocks; Cfg/Functions the functions,
--                   Cfg/Edges the edges and `control_flow_graph`; Cfg/Blocks, Cfg/Bounds, Cfg/EdgeBounds
--                   and Cfg/Converse are about them, and Cfg/Layout is about what the blocks hold.
--   Analyzer        crates/analyzer/src/remove_dead_functions.rs; Analyzer/Live says what is live,
--                   Analyzer/Search and Analyzer/Marks relate the traversal to that.
--   Tests           the theorems at concrete inputs, and a program that is run.
--
-- How values are modelled: an unsigned integer is a number with its wrap-around written out, a signed
-- one an integer; `as` casts are `to_word` and `of_word` of Base/Words. `usize` has 64 bits; the target
-- of a jump wraps as in a release build, and the next program counter, lengths and offsets are taken
-- not to overflow. A panic is the constructor `panic` of `Result`, a label that should have been resolved among them. Messages
-- of errors are the format strings of the source, without their arguments. The Boolean tests, `if` and
-- `match` arms stand in the order of the source. The bodies that differ only in a width (the readers and
-- writers of memory, loads and stores) are one definition with the width as an argument.
--
-- Parameters: the syscall handler (`Handle`), of which only `IsHandler` is assumed, namely that it
-- leaves bytes in memory and the meter within its limit and returns a `u64`; and `SYSCALLS.get`, the
-- name of a syscall's hash, which a decoder of `call` asks; `str::as_bytes` for the hash of names; for
-- the system program its own address, the
-- derivation of an address from a seed, and the deserializer of its instructions, of which nothing is assumed.
--
-- Bounds: `run` does at most `compute_unit_limit` rounds in the source, so its loop is by recursion on
-- the rounds that are left; no fuel is added. The search of a table of syscalls has the length of the
-- table as fuel, and running out is an error value that the theorem on it excludes. The loop of the worklist
-- engine has as fuel the number of nodes and one, and the removal of dead functions the number of
-- blocks and one; that this is enough is part of their theorems. Hash sets and hash maps are lists, and the
-- order in which a set is walked is nowhere observed. An address of 32 bytes is the number that they write.
-- The length of a slice that a system call asks for is taken to fit in memory.
--
-- Not modelled: the assembler, the disassembler and the debugger; of the runtime its driver, the parsing
-- of a cross-program request from memory, the serialized
-- input of a program, and the system calls that log or call cryptographic crates; of crates/ir the
-- depth-first engine and the fixed-point analysis; the dump of a graph as text; the table of syscalls that
-- is built at run time, and the text of instructions (`to_asm`).
pub mod Base
pub mod Errors
pub mod Opcode
pub mod Instruction
pub mod Vm
pub mod Execute
pub mod InstHandler
pub mod SyscallMap
pub mod Runtime
pub mod Ir
pub mod Analyzer
pub mod Tests
