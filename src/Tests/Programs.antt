-- ===== src/Tests/Programs.antt =====
-- A program of a few instructions, and packets that tell a path through it.
use trdb.Base.{
  ℕ, ◌≡◌, refl, inl, arith, true, false, Option, some, List, [], ◌∷◌, ◌==◌, ◌%◌, if◌then◌else◌,
}
use trdb.Errors.{pos, value}
use trdb.Trace.{
  TrInstr, zero_instr, TrPacket, zero_packet, trace, sync, branch_full, addr_only, software,
}
use trdb.Insn.{is_unpred_discontinuity}
use trdb.Insn.Ras.{riscv_instr_len, get_instr_ras_type}
use trdb.Context.{BranchMap}
use trdb.Program.{
  Program, Section, Disassembled, Fetched, dis_nonbranch, dis_condbranch, dis_jsr, load_section,
  trdb_get_section_for_vma, switch_section, disassemble_at_pc, located,
}
use trdb.Decompress.{RasResult, update_ras, ras_value}
use trdb.Decompress.Course.{
  Cpu, At, effect, jump_effect, by_falling, stay, leap, arrive, further, bits_of,
}
use trdb.Decompress.Tells.{
  Known, Tells, by_full, by_address, by_sync, skipped, TellsAll, nothing, next_packet, covers,
  beyond,
}
use trdb.Decompress.Trace.{Decompressed, trdb_decompress_trace}
use trdb.Decompress.Whole.{at_start, dec_of, trdb_decompress_trace-TellsAll}
use trdb.Decompress.Sound.{DecodeStatus, Grown}
use trdb.Decompress.Statuses.{trdb_decompress_trace-DecodeStatus}
use trdb.Tests.{full_ctx}

abbrev text_section : Section
text_section = record { vma = 0x100; size = 64 }

abbrev word_at : ℕ → ℕ
word_at pc = if pc == 0x104 then 0x00b50663 else if pc == 0x110 then 0x00050067 else 0x13

abbrev half_at : Section → ℕ → Option ℕ
half_at s pc = some (
    if pc == 0x104
    then 0x0663
    else if pc == 0x106
    then 0x00b5
    else if pc == 0x110
    then 0x0067
    else if pc == 0x112
    then 0x0005
    else if pc % 4 == 0
    then 0x13
    else 0)

-- A conditional branch at 0x104 to 0x110, where a jump to a register stands; else additions.
abbrev disassemble : Section → ℕ → Disassembled
disassemble s pc = record {
  instr_size = pos 4;
  insn_info_valid = true;
  insn_type =
      if pc == 0x104 then dis_condbranch else if pc == 0x110 then dis_jsr else dis_nonbranch;
  target = if pc == 0x104 then 0x110 else 0;
}

abbrev a_program : Program
a_program = record {
  sections = text_section ∷ [];
  start_address = 0x100;
  octets_per_byte = 1;
  get_section_contents = λ s. true;
  allocated = true;
  disassemble_fn = disassemble;
  read_memory = half_at;
}

abbrev fetched_at : ℕ → Fetched
fetched_at pc = record {
  instr = record zero_instr { valid = true; iaddr = pc; instr = word_at pc };
  size = 4;
  insn_type = (disassemble text_section pc).insn_type;
  target = (disassemble text_section pc).target;
}

abbrev cpu_at : ℕ → Cpu
cpu_at pc = record { section = text_section; pc = pc; stack = [] }

abbrev calm_ras : RasResult
calm_ras = record { status = value 0; stack = []; ret_addr = 0 }

At-0x104 : At a_program (cpu_at 0x104) text_section (fetched_at 0x104) calm_ras
unfolding switch_section disassemble_at_pc riscv_instr_len update_ras get_instr_ras_type ras_value
At-0x104 = record {
  found = refl;
  fetched = refl;
  hint = refl;
  kind = 0;
  calm = refl;
  no_coret = refl;
}

At-0x110 : At a_program (cpu_at 0x110) text_section (fetched_at 0x110) calm_ras
unfolding switch_section disassemble_at_pc riscv_instr_len update_ras get_instr_ras_type ras_value
At-0x110 = record {
  found = refl;
  fetched = refl;
  hint = refl;
  kind = 0;
  calm = refl;
  no_coret = refl;
}

At-0x120 : At a_program (cpu_at 0x120) text_section (fetched_at 0x120) calm_ras
unfolding switch_section disassemble_at_pc riscv_instr_len update_ras get_instr_ras_type ras_value
At-0x120 = record {
  found = refl;
  fetched = refl;
  hint = refl;
  kind = 0;
  calm = refl;
  no_coret = refl;
}

At-0x124 : At a_program (cpu_at 0x124) text_section (fetched_at 0x124) calm_ras
unfolding switch_section disassemble_at_pc riscv_instr_len update_ras get_instr_ras_type ras_value
At-0x124 = record {
  found = refl;
  fetched = refl;
  hint = refl;
  kind = 0;
  calm = refl;
  no_coret = refl;
}

-- A start, a branch that is taken and the target of the jump, a packet of software, and an end.
abbrev first_packet : TrPacket
first_packet = record zero_packet {
  msg_type = trace;
  format = sync;
  privilege = 3;
  address = 0x100;
}

abbrev second_packet : TrPacket
second_packet = record zero_packet {
  msg_type = trace;
  format = branch_full;
  branches = 1;
  address = 0x120;
}

abbrev third_packet : TrPacket
third_packet = record zero_packet { msg_type = software }

abbrev last_packet : TrPacket
last_packet = record zero_packet { msg_type = trace; format = addr_only; address = 0x124 }

abbrev some_packets : List TrPacket
some_packets = first_packet ∷ second_packet ∷ third_packet ∷ last_packet ∷ []

abbrev executed : ℕ → TrInstr
executed pc = record (fetched_at pc).instr { priv = 3 }

abbrev known_at : ℕ → ℕ → Known
known_at last pc = record { privilege = 3; last_packet_addr = last; cpu = cpu_at pc }

first-Tells :
    Tells a_program false true
      (at_start full_ctx a_program text_section)
      first_packet
      ((fetched_at 0x100).instr ∷ [])
      (known_at 0x100 0x104)
unfolding switch_section disassemble_at_pc riscv_instr_len effect is_unpred_discontinuity
first-Tells =
    by_sync {s = text_section} {t = text_section} {f = fetched_at 0x100} {r = calm_ras} refl refl
      refl refl refl refl refl

second-Tells :
    Tells a_program false true
      (known_at 0x100 0x104)
      second_packet
      ((fetched_at 0x104).instr ∷ (fetched_at 0x110).instr ∷ [])
      (known_at 0x120 0x120)
unfolding switch_section effect jump_effect bits_of
second-Tells =
    by_full {s = text_section} {bs = false ∷ []} refl refl refl
      (record { bits = refl; few = omega arith; any = omega arith; count = inl refl })
      (covers false stay At-0x104 refl refl (beyond refl (ground arith) (leap At-0x110 refl)))

last-Tells :
    Tells a_program false true
      (known_at 0x120 0x120)
      last_packet
      ((fetched_at 0x120).instr ∷ (fetched_at 0x124).instr ∷ [])
      (known_at 0x124 0x128)
unfolding switch_section effect jump_effect is_unpred_discontinuity
last-Tells = by_address {s = text_section} refl refl refl (
    further (ground arith) At-0x120 (by_falling refl refl)
      (arrive refl At-0x124 (by_falling refl refl)))

some_packets-TellsAll :
    TellsAll a_program false true 2
      (at_start full_ctx a_program text_section)
      some_packets
      (executed 0x100 ∷ executed 0x104 ∷ executed 0x110 ∷ executed 0x120 ∷ executed 0x124 ∷ [])
      (known_at 0x124 0x128)
some_packets-TellsAll = next_packet first-Tells (omega arith) (
    next_packet second-Tells (omega arith) (
      next_packet (skipped (ground arith)) (omega arith)
        (next_packet last-Tells (omega arith) nothing)))

abbrev all_executed : List TrInstr
all_executed =
    executed 0x100 ∷ executed 0x104 ∷ executed 0x110 ∷ executed 0x120 ∷ executed 0x124 ∷ []

abbrev decoded : Decompressed
decoded = record {
  status = value 0;
  dec = record (dec_of (known_at 0x124 0x128) (record { full = false; bits = 0; cnt = 0 })) {
    call_stack = [];
  };
  instr_list = all_executed;
}

decoded-run : trdb_decompress_trace 2 full_ctx a_program some_packets [] ≡ some decoded
unfolding trdb_decompress_trace trdb_get_section_for_vma load_section switch_section
    disassemble_at_pc riscv_instr_len is_unpred_discontinuity update_ras get_instr_ras_type
decoded-run = refl

start_section : trdb_get_section_for_vma a_program.sections 0x100 ≡ some text_section
unfolding trdb_get_section_for_vma
start_section = refl

start_contents : load_section a_program text_section ≡ located text_section
unfolding load_section
start_contents = refl

trdb_decompress_trace-TellsAll_example :
    (m : BranchMap) × (trdb_decompress_trace 2 full_ctx a_program some_packets []
      ≡ some (record {
        status = value 0;
        dec = dec_of (known_at 0x124 0x128) m;
        instr_list = all_executed;
      }))
trdb_decompress_trace-TellsAll_example =
    trdb_decompress_trace-TellsAll full_ctx a_program 2 some_packets [] all_executed text_section
      (known_at 0x124 0x128) refl start_section start_contents some_packets-TellsAll

trdb_decompress_trace-DecodeStatus_example :
    DecodeStatus decoded.status × Grown [] decoded.instr_list
trdb_decompress_trace-DecodeStatus_example =
    trdb_decompress_trace-DecodeStatus 2 full_ctx a_program some_packets [] decoded decoded-run
