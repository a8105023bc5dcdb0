-- ===== src/Tests/Loops.antt =====
-- A program with a loop, whose trace is compressed and decompressed.
use trdb.Base.{
  Every, and_rest, none_left, ℕ, zero, suc, ◌%◌, ◌^◌, ◌≡◌, refl, inl, Bool, true, false, some, List,
  [], ◌∷◌, map, ◌==◌, replicate, if◌then◌else◌, Returns, arith, sym, ap, ◌∙◌,
}
use mathlib.Core.Option.{some-injective}
use trdb.Errors.{pos, value}
use trdb.Trace.{TrInstr, zero_instr}
use trdb.Insn.{is_branch, is_unpred_discontinuity, is_unsupported}
use trdb.Insn.Ras.{riscv_instr_len, get_instr_ras_type}
use trdb.Context.{default_config, zero_decompress, zero_stats, fresh_compress}
use trdb.Compress.Run.{compress_trace, ample}
use trdb.Program.{
  Program, Section, Fetched, dis_nonbranch, dis_condbranch, load_section, trdb_get_section_for_vma,
  switch_section, disassemble_at_pc, read_memory_at_pc,
}
use trdb.Decompress.{RasResult, update_ras, ras_value}
use trdb.Decompress.Course.{Cpu, At, effect, by_falling, Course, stay, move, fork}
use trdb.Decompress.Tells.{at_privilege}
use trdb.Agreement.{Plain, start_packet, full_maps}
use trdb.Agreement.Calm.{ctx_of}
use trdb.Agreement.Traces.{IsEmitted, compress_trace-IsEmitted}
use trdb.Agreement.Paths.{rest_of}
use trdb.Agreement.Fetches.{IsRead, is_condbranch}
use trdb.Agreement.Synced.{IsSynced, trace_of}
use trdb.Agreement.Whole.{IsRecovered, compress_trace-IsRecovered}
use trdb.Tests.{full_ctx}

abbrev pub loop_section : Section
loop_section = record { vma = 0x100; size = 64 }

-- A compressed branch at 0x102, back to 0x100; else what is no branch.
abbrev pub loop_program : Program
loop_program = record {
  sections = loop_section ∷ [];
  start_address = 0x100;
  octets_per_byte = 1;
  get_section_contents = λ s. true;
  allocated = true;
  disassemble_fn = λ s pc. record {
    instr_size = pos 2;
    insn_info_valid = true;
    insn_type = if pc % 2 ^ 64 == 0x102 then dis_condbranch else dis_nonbranch;
    target = if pc % 2 ^ 64 == 0x102 then 0x100 else 0;
  };
  read_memory = λ s pc. some (if pc == 0x102 then 0xe001 else 1);
}

-- What is fetched, with or without the branch.
abbrev loop_read : Bool → ℕ → Fetched
loop_read b iaddr = record {
  instr = record zero_instr {
    valid = true;
    iaddr = iaddr;
    instr = if b then 0xe001 else 1;
    compressed = true;
  };
  size = 2;
  insn_type = if b then dis_condbranch else dis_nonbranch;
  target = if b then 0x100 else 0;
}

fetches :
    (s : Section) (pc : ℕ) (b : Bool)
    → (pc % 2 ^ 64 == 0x102) ≡ b
    → disassemble_at_pc loop_program s pc ≡ some (loop_read b (pc % 2 ^ 32))
unfolding disassemble_at_pc read_memory_at_pc riscv_instr_len
fetches s pc true e = ground (arith, e)
fetches s pc false e = ground (arith, e)

fetched_before :
    (s : Section) (pc : ℕ) (f : Fetched)
    → disassemble_at_pc loop_program s pc ≡ some f
    → f ≡ loop_read (pc % 2 ^ 64 == 0x102) (pc % 2 ^ 32)
fetched_before s pc f e = some-injective _ _ (sym e ∙ fetches s pc (pc % 2 ^ 64 == 0x102) refl)

loop_branches :
    (b : Bool) (iaddr : ℕ)
    → is_branch (loop_read b iaddr).instr.instr ≡ is_condbranch (loop_read b iaddr).insn_type
unfolding is_branch
loop_branches true iaddr = refl
loop_branches false iaddr = refl

pub loop_program-IsRead : IsRead loop_program
loop_program-IsRead = record {
  branches =
      λ s pc f e. rw (fetched_before s pc f e) (loop_branches (pc % 2 ^ 64 == 0x102) (pc % 2 ^ 32));
  sizes = λ s pc f e. inl (ap (λ (g : Fetched). g.size) (fetched_before s pc f e));
  targets = λ s pc f e k.
      let g = fetched_before s pc f e in
      ground (
        arith,
        ap (λ (x : Fetched). x.target) g,
        ap (λ (x : Fetched). x.size) g,
        ap (λ (x : Fetched). x.insn_type) g,
      );
}

abbrev pub loop_fetched : ℕ → Fetched
loop_fetched pc = record {
  instr = record zero_instr {
    valid = true;
    iaddr = pc;
    instr = if pc == 0x102 then 0xe001 else 1;
    compressed = true;
  };
  size = 2;
  insn_type = if pc == 0x102 then dis_condbranch else dis_nonbranch;
  target = if pc == 0x102 then 0x100 else 0;
}

abbrev pub loop_cpu : ℕ → Cpu
loop_cpu pc = record { section = loop_section; pc = pc; stack = [] }

abbrev pub no_return : RasResult
no_return = record { status = value 0; stack = []; ret_addr = 0 }

pub At-0x100 : At loop_program (loop_cpu 0x100) loop_section (loop_fetched 0x100) no_return
unfolding switch_section disassemble_at_pc riscv_instr_len update_ras get_instr_ras_type ras_value
At-0x100 = record {
  found = refl;
  fetched = refl;
  hint = refl;
  kind = 0;
  calm = refl;
  no_coret = refl;
}

pub At-0x102 : At loop_program (loop_cpu 0x102) loop_section (loop_fetched 0x102) no_return
unfolding switch_section disassemble_at_pc riscv_instr_len update_ras get_instr_ras_type ras_value
At-0x102 = record {
  found = refl;
  fetched = refl;
  hint = refl;
  kind = 0;
  calm = refl;
  no_coret = refl;
}

-- The branch is taken n times.
laps : ℕ → List TrInstr
laps zero = []
laps (suc n) = (loop_fetched 0x102).instr ∷ (loop_fetched 0x100).instr ∷ laps n

laps-Course :
    (n : ℕ)
    → Course loop_program false (loop_cpu 0x102) (replicate n false) (laps n) (loop_cpu 0x102)
unfolding laps effect is_unpred_discontinuity
laps-Course zero = stay
laps-Course (suc n) =
    fork false At-0x102 refl (move At-0x100 (by_falling refl refl) (laps-Course n))

pub Plain-at :
    (b : Bool) → Plain false 3 (at_privilege 3 (loop_fetched (if b then 0x102 else 0x100)).instr)
unfolding is_unpred_discontinuity is_unsupported
Plain-at true = record {
  valid = refl;
  no_exception = refl;
  same_priv = refl;
  predictable = refl;
  supported = refl;
}
Plain-at false = record {
  valid = refl;
  no_exception = refl;
  same_priv = refl;
  predictable = refl;
  supported = refl;
}

laps-Plain :
    (n : ℕ)
    → Every (Plain false 3) (trace_of 3 (laps n) (at_privilege 3 (loop_fetched 0x102).instr))
unfolding laps
laps-Plain zero = and_rest (Plain-at true) none_left
laps-Plain (suc n) = and_rest (Plain-at true) (and_rest (Plain-at false) (laps-Plain n))

pub loop-IsSynced :
    IsSynced loop_program false (loop_cpu 0x100) 0x100 loop_section (loop_fetched 0x100)
unfolding switch_section disassemble_at_pc riscv_instr_len effect is_unpred_discontinuity
loop-IsSynced = record {
  first = loop_section;
  found = refl;
  there = refl;
  fetched = refl;
  falling = refl;
  short = omega arith;
}

compress_trace-IsRecovered_example :
    Returns
      (IsRecovered 100 full_ctx loop_program []
        (map (at_privilege 3) ((loop_fetched 0x100).instr ∷ laps 32)))
      (compress_trace ample full_ctx [] (
        trace_of 3
          ((loop_fetched 0x100).instr ∷ laps 32)
          (at_privilege 3 (loop_fetched 0x102).instr)))
unfolding laps trdb_get_section_for_vma load_section
compress_trace-IsRecovered_example =
    compress_trace-IsRecovered loop_program loop_program-IsRead refl full_ctx 100 [] loop_section
      refl refl 3 (omega arith) full_ctx 0x100 loop_section (loop_fetched 0x100)
      (replicate 32 false) (laps 32) (loop_cpu 0x102) (at_privilege 3 (loop_fetched 0x102).instr)
      refl refl loop-IsSynced (laps-Course 32) refl (and_rest (Plain-at false) (laps-Plain 32))
      (omega arith) (omega arith) (omega arith)

compress_trace-IsEmitted_example :
    Returns
      (IsEmitted (
        start_packet (at_privilege 3 (loop_fetched 0x100).instr)
        ∷ full_maps default_config []
            (at_privilege 3 (loop_fetched 0x102).instr)
            (rest_of 3 (laps 32) (at_privilege 3 (loop_fetched 0x102).instr))))
      (compress_trace ample (ctx_of default_config zero_decompress zero_stats fresh_compress) [] (
        at_privilege 3 (loop_fetched 0x100).instr
        ∷ at_privilege 3 (loop_fetched 0x102).instr
        ∷ rest_of 3 (laps 32) (at_privilege 3 (loop_fetched 0x102).instr)))
unfolding laps is_branch
compress_trace-IsEmitted_example =
    compress_trace-IsEmitted default_config zero_decompress 3 (omega arith) ample zero_stats
      (at_privilege 3 (loop_fetched 0x100).instr) (at_privilege 3 (loop_fetched 0x102).instr)
      (rest_of 3 (laps 32) (at_privilege 3 (loop_fetched 0x102).instr)) (λ n. refl) (ground arith)
      refl (and_rest (Plain-at false) (laps-Plain 32)) (omega arith)
