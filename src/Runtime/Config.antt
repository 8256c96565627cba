-- ===== src/Runtime/Config.antt =====
-- crates/runtime/src/config.rs: what the system calls cost.
use sbpf.Base.{ℕ, ◌*◌}

pub record ExecutionCost : Type 0 where
  pub syscall_base_cost : ℕ
  pub log_64_units : ℕ
  pub log_pubkey_units : ℕ
  pub create_program_address_units : ℕ
  pub invoke_units : ℕ
  pub max_cpi_instruction_size : ℕ
  pub cpi_bytes_per_unit : ℕ
  pub max_instruction_stack_depth : ℕ
  pub max_instruction_trace_length : ℕ
  pub sha256_base_cost : ℕ
  pub sha256_byte_cost : ℕ
  pub sha256_max_slices : ℕ
  pub sysvar_base_cost : ℕ
  pub secp256k1_recover_cost : ℕ
  pub curve25519_edwards_validate_point_cost : ℕ
  pub curve25519_edwards_add_cost : ℕ
  pub curve25519_edwards_subtract_cost : ℕ
  pub curve25519_edwards_multiply_cost : ℕ
  pub curve25519_edwards_msm_base_cost : ℕ
  pub curve25519_edwards_msm_incremental_cost : ℕ
  pub curve25519_ristretto_validate_point_cost : ℕ
  pub curve25519_ristretto_add_cost : ℕ
  pub curve25519_ristretto_subtract_cost : ℕ
  pub curve25519_ristretto_multiply_cost : ℕ
  pub curve25519_ristretto_msm_base_cost : ℕ
  pub curve25519_ristretto_msm_incremental_cost : ℕ
  pub heap_size : ℕ
  pub heap_cost : ℕ
  pub mem_op_base_cost : ℕ
  pub alt_bn128_addition_cost : ℕ
  pub alt_bn128_multiplication_cost : ℕ
  pub alt_bn128_pairing_one_pair_cost_first : ℕ
  pub alt_bn128_pairing_one_pair_cost_other : ℕ
  pub alt_bn128_g1_compress : ℕ
  pub alt_bn128_g1_decompress : ℕ
  pub alt_bn128_g2_compress : ℕ
  pub alt_bn128_g2_decompress : ℕ
  pub big_modular_exponentiation_cost : ℕ
  pub poseidon_cost_coefficient_a : ℕ
  pub poseidon_cost_coefficient_c : ℕ
  pub get_remaining_compute_units_cost : ℕ

abbrev pub default_costs : ExecutionCost
default_costs = record {
  syscall_base_cost = 100;
  log_64_units = 100;
  log_pubkey_units = 100;
  create_program_address_units = 1500;
  invoke_units = 946;
  max_cpi_instruction_size = 46 * 1024;
  cpi_bytes_per_unit = 250;
  max_instruction_stack_depth = 9;
  max_instruction_trace_length = 64;
  sha256_base_cost = 85;
  sha256_byte_cost = 1;
  sha256_max_slices = 20000;
  sysvar_base_cost = 100;
  secp256k1_recover_cost = 25000;
  curve25519_edwards_validate_point_cost = 159;
  curve25519_edwards_add_cost = 473;
  curve25519_edwards_subtract_cost = 475;
  curve25519_edwards_multiply_cost = 2177;
  curve25519_edwards_msm_base_cost = 2273;
  curve25519_edwards_msm_incremental_cost = 758;
  curve25519_ristretto_validate_point_cost = 169;
  curve25519_ristretto_add_cost = 521;
  curve25519_ristretto_subtract_cost = 519;
  curve25519_ristretto_multiply_cost = 2208;
  curve25519_ristretto_msm_base_cost = 2303;
  curve25519_ristretto_msm_incremental_cost = 788;
  heap_size = 32 * 1024;
  heap_cost = 8;
  mem_op_base_cost = 10;
  alt_bn128_addition_cost = 334;
  alt_bn128_multiplication_cost = 3840;
  alt_bn128_pairing_one_pair_cost_first = 36364;
  alt_bn128_pairing_one_pair_cost_other = 12121;
  alt_bn128_g1_compress = 30;
  alt_bn128_g1_decompress = 398;
  alt_bn128_g2_compress = 86;
  alt_bn128_g2_decompress = 13610;
  big_modular_exponentiation_cost = 33;
  poseidon_cost_coefficient_a = 61;
  poseidon_cost_coefficient_c = 542;
  get_remaining_compute_units_cost = 100;
}
