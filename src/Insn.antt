-- ===== src/Insn.antt =====
-- Classes of instructions: the tests of internal/disassembly_private.h over the encodings of
-- internal/riscv_encoding.h, and those of src/trace_debugger.c.
pub mod Ras
use trdb.Base.{
  ℕ, ◌*◌, ◌^◌, ◌/◌, ◌+◌, Bool, ◌||◌, ◌&&◌, not, if◌then◌else◌, ◌==◌, bit_and, bit_or, true,
}

-- DECLARE_INSN: the test `is_<code>_instr` of a match and a mask.
abbrev pub matches : ℕ → ℕ → ℕ → Bool
matches code mask instr = bit_and instr mask == code

abbrev pub is_beq_instr : ℕ → Bool
is_beq_instr = matches 0x63 0x707f

abbrev pub is_bne_instr : ℕ → Bool
is_bne_instr = matches 0x1063 0x707f

abbrev pub is_blt_instr : ℕ → Bool
is_blt_instr = matches 0x4063 0x707f

abbrev pub is_bge_instr : ℕ → Bool
is_bge_instr = matches 0x5063 0x707f

abbrev pub is_bltu_instr : ℕ → Bool
is_bltu_instr = matches 0x6063 0x707f

abbrev pub is_bgeu_instr : ℕ → Bool
is_bgeu_instr = matches 0x7063 0x707f

abbrev pub is_jalr_instr : ℕ → Bool
is_jalr_instr = matches 0x67 0x707f

abbrev pub is_jal_instr : ℕ → Bool
is_jal_instr = matches 0x6f 0x7f

abbrev pub is_uret_instr : ℕ → Bool
is_uret_instr = matches 0x200073 0xffff_ffff

abbrev pub is_sret_instr : ℕ → Bool
is_sret_instr = matches 0x1020_0073 0xffff_ffff

abbrev pub is_mret_instr : ℕ → Bool
is_mret_instr = matches 0x3020_0073 0xffff_ffff

abbrev pub is_c_jal_instr : ℕ → Bool
is_c_jal_instr = matches 0x2001 0xe003

abbrev pub is_c_beqz_instr : ℕ → Bool
is_c_beqz_instr = matches 0xc001 0xe003

abbrev pub is_c_bnez_instr : ℕ → Bool
is_c_bnez_instr = matches 0xe001 0xe003

abbrev pub is_c_jr_instr : ℕ → Bool
is_c_jr_instr = matches 0x8002 0xf07f

abbrev pub is_c_jalr_instr : ℕ → Bool
is_c_jalr_instr = matches 0x9002 0xf07f

abbrev pub is_lp_starti_instr : ℕ → Bool
is_lp_starti_instr = matches 0x7b 0xfff7f

abbrev pub is_lp_endi_instr : ℕ → Bool
is_lp_endi_instr = matches 0x107b 0xfff7f

abbrev pub is_lp_count_instr : ℕ → Bool
is_lp_count_instr = matches 0x207b 0xfff0_7f7f

abbrev pub is_lp_counti_instr : ℕ → Bool
is_lp_counti_instr = matches 0x307b 0xfff7f

abbrev pub is_lp_setup_instr : ℕ → Bool
is_lp_setup_instr = matches 0x407b 0x7f7f

abbrev pub is_lp_setupi_instr : ℕ → Bool
is_lp_setupi_instr = matches 0x507b 0x7f7f

abbrev pub is_p_beqimm_instr : ℕ → Bool
is_p_beqimm_instr = matches 0x2063 0x707f

abbrev pub is_p_bneimm_instr : ℕ → Bool
is_p_bneimm_instr = matches 0x3063 0x707f

-- X_RA, X_T0, MASK_RD, MASK_RS1 and MASK_IMM
abbrev pub x_ra : ℕ
x_ra = 1

abbrev pub x_t0 : ℕ
x_t0 = 5

abbrev pub mask_rd : ℕ
mask_rd = 0x1f * 2 ^ 7

abbrev pub mask_rs1 : ℕ
mask_rs1 = 0x1f * 2 ^ 15

abbrev pub mask_imm : ℕ
mask_imm = 0xfff * 2 ^ 20

unfoldable pub is_really_c_jalr_instr : ℕ → Bool
is_really_c_jalr_instr instr = is_c_jalr_instr instr && not (bit_and instr mask_rd == 0)

unfoldable pub is_really_c_jr_instr : ℕ → Bool
is_really_c_jr_instr instr = is_c_jr_instr instr && not (bit_and instr mask_rd == 0)

unfoldable pub is_c_ret_instr : ℕ → Bool
is_c_ret_instr instr = bit_and instr (bit_or 0xf07f mask_rd) == bit_or 0x8002 (x_ra * 2 ^ 7)

unfoldable pub is_ret_instr : ℕ → Bool
is_ret_instr instr =
    bit_and instr (bit_or (bit_or (bit_or 0x707f mask_rd) mask_rs1) mask_imm)
    == bit_or 0x67 (x_ra * 2 ^ 15)

unfoldable pub is_branch : ℕ → Bool
is_branch instr =
    let is_riscv_branch =
      is_beq_instr instr
      || is_bne_instr instr
      || is_blt_instr instr
      || is_bge_instr instr
      || is_bltu_instr instr
      || is_bgeu_instr instr in
    let is_pulp_branch = is_p_bneimm_instr instr || is_p_beqimm_instr instr in
    let is_riscv_compressed_branch = is_c_beqz_instr instr || is_c_bnez_instr instr in
    is_riscv_branch || is_pulp_branch || is_riscv_compressed_branch

unfoldable pub is_unpred_discontinuity : ℕ → Bool → Bool
unfolding is_really_c_jalr_instr is_really_c_jr_instr is_c_ret_instr is_ret_instr
is_unpred_discontinuity instr implicit_ret =
    let jump = is_jalr_instr instr || is_really_c_jalr_instr instr || is_really_c_jr_instr instr in
    let exception_ret = is_mret_instr instr || is_sret_instr instr || is_uret_instr instr in
    let not_ret = if implicit_ret then not (is_c_ret_instr instr || is_ret_instr instr) else true in
    (jump || exception_ret) && not_ret

unfoldable pub is_unsupported : ℕ → Bool
is_unsupported instr =
    is_lp_setup_instr instr
    || is_lp_counti_instr instr
    || is_lp_count_instr instr
    || is_lp_endi_instr instr
    || is_lp_starti_instr instr
    || is_lp_setupi_instr instr
