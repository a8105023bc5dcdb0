-- ===== src/Insn/Ras.antt =====
-- The return address stack hints of internal/disassembly_private.h.
use trdb.Base.{ℕ, ◌*◌, ◌^◌, ◌/◌, ◌||◌, ◌&&◌, not, if◌then◌else◌, ◌==◌, bit_and}
use trdb.Insn.{
  is_jalr_instr, is_jal_instr, is_c_jal_instr, is_really_c_jalr_instr, is_c_ret_instr, mask_rd,
  mask_rs1, x_ra, x_t0,
}

-- enum trdb_ras; `no_hint` is its `none`.
pub data Ras : Type 0 where
  no_hint ret call coret : Ras

unfoldable pub is_jalr_funcall : ℕ → Ras
is_jalr_funcall instr =
    let is_jalr = is_jalr_instr instr in
    let rd = bit_and instr mask_rd / 2 ^ 7 in
    let rs = bit_and instr mask_rs1 / 2 ^ 15 in
    let is_rd_link = rd == x_ra || rd == x_t0 in
    let is_rs_link = rs == x_ra || rs == x_t0 in
    let is_eq_link = is_rd_link && is_rs_link && rd == rs in
    if is_jalr && not is_rd_link && is_rs_link
    then ret
    else if is_jalr && is_rd_link && not is_rs_link
    then call
    else if is_jalr && is_rd_link && is_rs_link && not is_eq_link
    then coret
    else if is_jalr && is_rd_link && is_rs_link && is_eq_link
    then ret
    else no_hint

unfoldable pub is_c_jalr_funcall : ℕ → Ras
unfolding is_really_c_jalr_instr
is_c_jalr_funcall instr =
    let is_c_jalr = is_really_c_jalr_instr instr in
    let rs = bit_and instr mask_rd / 2 ^ 7 in
    let is_rs_link = rs == x_ra || rs == x_t0 in
    if not is_c_jalr then no_hint else if is_rs_link && not (x_ra == rs) then coret else call

unfoldable pub is_jal_funcall : ℕ → Ras
is_jal_funcall instr =
    let is_jal = is_jal_instr instr in
    let is_rd_link =
      bit_and instr mask_rd == x_ra * 2 ^ 7 || bit_and instr mask_rd == x_t0 * 2 ^ 7 in
    if is_jal && is_rd_link then call else no_hint

-- is_c_jal_funcall, which nothing calls
unfoldable pub is_c_jal_funcall : ℕ → Ras
is_c_jal_funcall instr = if is_c_jal_instr instr then call else no_hint

-- Without TRDB_ARCH64, so that C.JAL is a call.
unfoldable pub get_instr_ras_type : ℕ → Ras
unfolding is_jalr_funcall is_jal_funcall is_c_jalr_funcall is_really_c_jalr_instr is_c_ret_instr
get_instr_ras_type instr =
    if is_jalr_instr instr
    then is_jalr_funcall instr
    else if is_jal_instr instr
    then is_jal_funcall instr
    else if is_really_c_jalr_instr instr
    then is_c_jalr_funcall instr
    else if is_c_jal_instr instr
    then call
    else if is_c_ret_instr instr
    then ret
    else no_hint

-- Bytes of an instruction, from the bits of its first packet.
unfoldable pub riscv_instr_len : ℕ → ℕ
riscv_instr_len instr =
    if not (bit_and instr 0x3 == 0x3)
    then 2
    else if not (bit_and instr 0x1f == 0x1f)
    then 4
    else if bit_and instr 0x3f == 0x1f
    then 6
    else if bit_and instr 0x7f == 0x3f
    then 8
    else 2
