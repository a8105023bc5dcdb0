-- ===== src/Tests/Restores.antt =====
-- The program with a loop, whose trace ends with a trap behind the loop.
use trdb.Base.{
  if◌then◌else◌, Bool, Every, and_rest, none_left, ℕ, zero, suc, refl, true, false, List, [], ◌∷◌,
  ◌++◌, map, Returns, arith,
}
use trdb.Trace.{TrInstr, IsInstr}
use trdb.Insn.{is_unpred_discontinuity, is_unsupported}
use trdb.Insn.Ras.{riscv_instr_len, get_instr_ras_type}
use trdb.Compress.Run.{compress_trace, ample}
use trdb.Program.{load_section, trdb_get_section_for_vma, switch_section, disassemble_at_pc}
use trdb.Decompress.{update_ras, ras_value}
use trdb.Decompress.Course.{At, Ends, arrive, by_falling, effect, stay, move}
use trdb.Decompress.Tells.{at_privilege}
use trdb.Agreement.{Plain}
use trdb.Agreement.Complete.{Branched, no_more, stretch}
use trdb.Agreement.Archived.{IsReplayed, compress_trace-IsReplayed}
use trdb.Tests.Traces.{full_ctx-IsReady}
use trdb.Agreement.Recovered.{IsRestored, compress_trace-IsRestored}
use trdb.Tests.{full_ctx}
use trdb.Tests.Loops.{
  loop_section, loop_program, loop_program-IsRead, loop_fetched, loop_cpu, no_return, At-0x100,
  At-0x102, Plain-at, loop-IsSynced,
}

At-0x104 : At loop_program (loop_cpu 0x104) loop_section (loop_fetched 0x104) no_return
unfolding switch_section disassemble_at_pc riscv_instr_len update_ras get_instr_ras_type ras_value
At-0x104 = record {
  found = refl;
  fetched = refl;
  hint = refl;
  kind = 0;
  calm = refl;
  no_coret = refl;
}

-- The branch is taken n times more, and then it is not.
rounds : ℕ → List TrInstr
rounds zero = (loop_fetched 0x100).instr ∷ (loop_fetched 0x102).instr ∷ []
rounds (suc n) = (loop_fetched 0x100).instr ∷ (loop_fetched 0x102).instr ∷ rounds n

rounds-Branched :
    (n : ℕ) → Branched loop_program false 0x104 (loop_cpu 0x100) (rounds n) (loop_cpu 0x104)
unfolding rounds effect is_unpred_discontinuity
rounds-Branched zero =
    stretch true (move At-0x100 (by_falling refl refl) stay) At-0x102 refl (omega arith) no_more
rounds-Branched (suc n) =
    stretch false (move At-0x100 (by_falling refl refl) stay) At-0x102 refl (omega arith)
      (rounds-Branched n)

loop-Branched :
    (n : ℕ)
    → Branched loop_program false 0x104
        (loop_cpu 0x102)
        ((loop_fetched 0x102).instr ∷ rounds n)
        (loop_cpu 0x104)
unfolding effect
loop-Branched n = stretch false stay At-0x102 refl (omega arith) (rounds-Branched n)

loop-Ends :
    Ends loop_program false 0x104
      (loop_cpu 0x104)
      ((loop_fetched 0x104).instr ∷ [])
      (loop_cpu 0x106)
unfolding effect is_unpred_discontinuity
loop-Ends = arrive refl At-0x104 (by_falling refl refl)

Plain-0x104 : Plain false 3 (at_privilege 3 (loop_fetched 0x104).instr)
unfolding is_unpred_discontinuity is_unsupported
Plain-0x104 = record {
  valid = refl;
  no_exception = refl;
  same_priv = refl;
  predictable = refl;
  supported = refl;
}

rounds-Plain :
    (n : ℕ)
    → Every (Plain false 3) (map (at_privilege 3) (rounds n ++ ((loop_fetched 0x104).instr ∷ [])))
unfolding rounds
rounds-Plain zero =
    and_rest (Plain-at false) (and_rest (Plain-at true) (and_rest Plain-0x104 none_left))
rounds-Plain (suc n) = and_rest (Plain-at false) (and_rest (Plain-at true) (rounds-Plain n))

-- The instruction behind it traps.
abbrev a_trap : TrInstr
a_trap = record (at_privilege 3 (loop_fetched 0x106).instr) { exception = true; cause = 11 }

abbrev executed : List TrInstr
executed = (loop_fetched 0x102).instr ∷ rounds 32

compress_trace-IsRestored_example :
    Returns
      (IsRestored 100 full_ctx loop_program [] (
        map
          (at_privilege 3)
          ((loop_fetched 0x100).instr ∷ (executed ++ ((loop_fetched 0x104).instr ∷ [])))))
      (compress_trace ample full_ctx [] (
        map
          (at_privilege 3)
          ((loop_fetched 0x100).instr ∷ (executed ++ ((loop_fetched 0x104).instr ∷ [])))
        ++ (a_trap ∷ [])))
unfolding rounds trdb_get_section_for_vma load_section
compress_trace-IsRestored_example =
    compress_trace-IsRestored loop_program loop_program-IsRead refl full_ctx refl 100 []
      loop_section refl refl 3 (omega arith) full_ctx 0x100 loop_section (loop_fetched 0x100) 0x104
      executed (loop_fetched 0x104).instr [] (loop_cpu 0x104) (loop_cpu 0x106) a_trap refl refl
      loop-IsSynced (loop-Branched 32) loop-Ends refl
      (and_rest (Plain-at false) (and_rest (Plain-at true) (rounds-Plain 32)))
      (record { valid = refl; exception = refl }) (omega arith) (omega arith) (omega arith)

fetched-IsInstr :
    (b : Bool) → IsInstr (at_privilege 3 (loop_fetched (if b then 0x102 else 0x100)).instr)
fetched-IsInstr true = ground arith
fetched-IsInstr false = ground arith

rounds-IsInstr :
    (n : ℕ)
    → Every IsInstr
        (map (at_privilege 3) (rounds n ++ ((loop_fetched 0x104).instr ∷ [])) ++ (a_trap ∷ []))
unfolding rounds
rounds-IsInstr zero =
    and_rest (fetched-IsInstr false) (
      and_rest (fetched-IsInstr true) (and_rest (ground arith) (and_rest (ground arith) none_left)))
rounds-IsInstr (suc n) =
    and_rest (fetched-IsInstr false) (and_rest (fetched-IsInstr true) (rounds-IsInstr n))

compress_trace-IsReplayed_example :
    Returns
      (IsReplayed 100 2000 full_ctx loop_program [] (
        map
          (at_privilege 3)
          ((loop_fetched 0x100).instr ∷ (executed ++ ((loop_fetched 0x104).instr ∷ [])))))
      (compress_trace ample full_ctx [] (
        map
          (at_privilege 3)
          ((loop_fetched 0x100).instr ∷ (executed ++ ((loop_fetched 0x104).instr ∷ [])))
        ++ (a_trap ∷ [])))
unfolding rounds trdb_get_section_for_vma load_section
compress_trace-IsReplayed_example =
    compress_trace-IsReplayed loop_program loop_program-IsRead refl full_ctx refl refl 100 2000 []
      loop_section refl refl 3 (omega arith) full_ctx 0x100 loop_section (loop_fetched 0x100) 0x104
      executed (loop_fetched 0x104).instr [] (loop_cpu 0x104) (loop_cpu 0x106) a_trap refl
      full_ctx-IsReady refl loop-IsSynced (loop-Branched 32) loop-Ends refl
      (and_rest (Plain-at false) (and_rest (Plain-at true) (rounds-Plain 32)))
      (record { valid = refl; exception = refl })
      (and_rest (fetched-IsInstr false) (and_rest (fetched-IsInstr true) (rounds-IsInstr 32)))
      (omega arith) (omega arith) (omega arith) (omega arith)
