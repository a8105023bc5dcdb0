-- ===== src/Program.antt =====
-- The program that a trace comes from. The libraries bfd and opcodes read and disassemble it, and
-- are parameters: `Program` holds what src/trace_debugger.c and src/disassembly.c ask of them.
use trdb.Base.{
  ℕ, zero, suc, ◌+◌, ◌*◌, ◌/◌, ◌%◌, ◌^◌, Bool, true, false, not, ◌&&◌, ◌||◌, if◌then◌else◌, ltb,
  leb, ◌==◌, bit_or, Option, none, some, List, [], ◌∷◌,
}
use trdb.Errors.{
  ErrorCode, Status, value, failed, ℤ, pos, negsuc, trdb_nomem, trdb_section_empty, trdb_bad_vma,
}
use trdb.Trace.{TrInstr, zero_instr}
use trdb.Insn.Ras.{riscv_instr_len}

-- The constants of `enum dis_insn_type`, of the library opcodes, that src/trace_debugger.c names.
pub data InsnType : Type 0 where
  dis_noninsn dis_nonbranch dis_branch dis_condbranch dis_jsr dis_condjsr dis_dref dis_dref2 :
      InsnType

-- A section: its address and its size.
pub record Section : Type 0 where
  pub vma : ℕ
  pub size : ℕ

-- What `disassemble_fn` returns, and leaves in struct disassemble_info.
pub record Disassembled : Type 0 where
  pub instr_size : ℤ
  pub insn_info_valid : Bool
  pub insn_type : InsnType
  pub target : ℕ

-- `read_memory` is read_memory_func and bfd_getl16 on the buffer of a section, `none` where the
-- former fails; `get_section_contents` and `allocated` say whether bfd_get_section_contents and
-- `malloc` succeed.
pub record Program : Type 0 where
  pub sections : List Section
  pub start_address : ℕ
  pub octets_per_byte : ℕ
  pub get_section_contents : Section → Bool
  pub allocated : Bool
  pub disassemble_fn : Section → ℕ → Disassembled
  pub read_memory : Section → ℕ → Option ℕ

-- Addresses of type bfd_vma wrap at 2 ^ 64.
abbrev pub add_vma : ℕ → ℕ → ℕ
add_vma a n = (a + n) % 2 ^ 64

unfoldable pub trdb_vma_in_section : Section → ℕ → Bool
trdb_vma_in_section s vma = leb s.vma vma && ltb vma (add_vma s.vma s.size)

unfoldable pub trdb_get_section_for_vma : List Section → ℕ → Option Section
unfolding trdb_vma_in_section
trdb_get_section_for_vma [] vma = none
trdb_get_section_for_vma (s ∷ rest) vma =
    let later = trdb_get_section_for_vma rest vma in
    if trdb_vma_in_section s vma then some s else later

-- The section that is loaded for the pc, or the error.
pub data Located : Type 0 where
  located : Section → Located
  lost : ErrorCode → Located

-- What disassemble_at_pc leaves on success: `*instr`, its size, and what the disassembler found.
pub record Fetched : Type 0 where
  pub instr : TrInstr
  pub size : ℕ
  pub insn_type : InsnType
  pub target : ℕ

module _ (p : Program) where
  -- alloc_section_for_debugging, without the buffer that `read_memory` stands for
  unfoldable pub alloc_section_for_debugging : Section → Status
  alloc_section_for_debugging s =
      if not p.allocated
      then failed trdb_nomem
      else if not (p.get_section_contents s)
      then failed trdb_section_empty
      else value 0

  -- `pc >= section->vma + stop_offset || pc < section->vma`
  unfoldable pub is_outside : Section → ℕ → Bool
  is_outside s pc = leb (add_vma s.vma (s.size / p.octets_per_byte)) pc || ltb pc s.vma

  unfoldable pub load_section : Section → Located
  unfolding alloc_section_for_debugging
  load_section s = elim (alloc_section_for_debugging s) [ value n ↦ located s | failed e ↦ lost e ]

  unfoldable pub switch_section : Section → ℕ → Located
  unfolding is_outside load_section
  switch_section s pc = elim (is_outside s pc) [
    | true ↦ elim (trdb_get_section_for_vma p.sections pc) [
      | none ↦ lost trdb_bad_vma
      | some t ↦ load_section t
    ]
    | false ↦ located s
  ]

  -- The loop of read_memory_at_pc: rounds left, `n` and `*instr`. Any failure that ends it is also
  -- the status that is returned.
  unfoldable pub read_packets_at : Section → ℕ → ℕ → ℕ → ℕ → Option ℕ
  read_packets_at s pc zero n instr = some instr
  read_packets_at s pc (suc rounds) n instr = elim (ltb n (riscv_instr_len instr)) [
    | true ↦ elim (p.read_memory s (add_vma pc n)) [
      | none ↦ none
      | some packet ↦
          read_packets_at s pc rounds (n + 2) (bit_or instr (packet * 2 ^ (8 * n) % 2 ^ 64))
    ]
    | false ↦ some instr
  ]

  -- `n < sizeof(uint64_t)` allows four rounds.
  unfoldable pub read_memory_at_pc : Section → ℕ → Option ℕ
  unfolding read_packets_at
  read_memory_at_pc s pc = read_packets_at s pc 4 0 0

  -- disassemble_at_pc; `none` stands for its only error on pointers that are not null,
  -- -trdb_bad_instr.
  unfoldable pub disassemble_at_pc : Section → ℕ → Option Fetched
  unfolding read_memory_at_pc
  disassemble_at_pc s pc =
      let d = p.disassemble_fn s pc in
      elim d.instr_size [
        | negsuc n ↦ none
        | pos zero ↦ none
        | pos (suc n) ↦ elim d.insn_info_valid [
          | false ↦ none
          | true ↦ elim (read_memory_at_pc s pc) [
            | none ↦ none
            | some instr_bits ↦ some (record {
              instr = record zero_instr {
                valid = true;
                iaddr = pc % 2 ^ 32;
                instr = instr_bits % 2 ^ 32;
                compressed = suc n == 2;
              };
              size = suc n;
              insn_type = d.insn_type;
              target = d.target;
            })
          ]
        ]
      ]
