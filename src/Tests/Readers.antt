-- ===== src/Tests/Readers.antt =====
-- Files of stimuli and of cvs lines, read.
use trdb.Base.{
  Every, Returns, ℕ, ◌≡◌, refl, arith, Bool, true, false, Option, none, some, List, [], ◌∷◌,
  none_left, and_rest, map,
}
use trdb.Errors.{value}
use trdb.Trace.{TrInstr, zero_instr, IsInstr}
use trdb.Stimuli.{StimuliFile, trdb_stimuli_to_trace_list, trdb_stimuli_to_trace}
use trdb.Stimuli.Same.{Holds, trdb_stimuli_to_trace-Holds}
use trdb.Stimuli.Rows.{stimulus, trdb_stimuli_to_trace_list-stimulus}
use native.Mathlib.Nat.{pow-zero}
use trdb.Stimuli.Fits.{IsWord, compress_trace-stimuli}
use trdb.Compress.Run.{compress_trace, ample, IsTraced}
use trdb.Compress.Safety.{IsReady}
use trdb.Tests.{full_ctx}
use trdb.Cvs.{trdb_cvs_to_trace_list}
use trdb.Cvs.Lines.{row}
use trdb.Cvs.Files.{
  Read, lines_fit, cvs_file, trdb_cvs_to_trace_list-row, trdb_cvs_to_trace_list-Read,
}

abbrev addition : TrInstr
addition = record zero_instr { valid = true; priv = 3; iaddr = 0x1c000080; instr = 0x00a50533 }

abbrev compressed_jump : TrInstr
compressed_jump = record zero_instr {
  valid = true;
  priv = 3;
  iaddr = 0x1c000084;
  instr = 0xa001;
  compressed = true;
  exception = true;
  cause = 2;
  tval = 7;
}

abbrev both_instrs : List TrInstr
both_instrs = addition ∷ compressed_jump ∷ []

addition-IsInstr : IsInstr addition
addition-IsInstr = ground arith

compressed_jump-IsInstr : IsInstr compressed_jump
compressed_jump-IsInstr = ground arith

-- Memory that is always there.
abbrev enough : ℕ → Bool
enough n = true

-- A line that matches whole, and one of which only four values match.
abbrev stimuli_file : StimuliFile
stimuli_file = record { scans = stimulus addition ∷ (1 ∷ 1 ∷ 0 ∷ 0x25 ∷ []) ∷ []; ferror = false }

trdb_stimuli_to_trace-Holds_example :
    Holds
      (trdb_stimuli_to_trace enough 40 (some stimuli_file))
      (trdb_stimuli_to_trace_list enough (some stimuli_file) [])
trdb_stimuli_to_trace-Holds_example =
    trdb_stimuli_to_trace-Holds enough enough 40 (some stimuli_file) (λ n. refl) (λ n. refl)
      (omega arith)

trdb_stimuli_to_trace_list-stimulus_example :
    trdb_stimuli_to_trace_list enough
      (some (record { scans = map stimulus both_instrs; ferror = false }))
      (addition ∷ [])
    ≡ record { status = value 0; instrs = addition ∷ addition ∷ compressed_jump ∷ []; count = 2 }
trdb_stimuli_to_trace_list-stimulus_example =
    trdb_stimuli_to_trace_list-stimulus enough both_instrs (addition ∷ []) (λ n. refl)
      (and_rest addition-IsInstr (and_rest compressed_jump-IsInstr none_left)) (omega arith)

trdb_cvs_to_trace_list-row_example :
    trdb_cvs_to_trace_list enough (some (cvs_file (map row both_instrs))) []
    ≡ record { status = value 0; instrs = both_instrs; count = 2 }
trdb_cvs_to_trace_list-row_example =
    trdb_cvs_to_trace_list-row enough both_instrs [] (λ n. refl)
      (and_rest (record { fits = addition-IsInstr; width = refl })
        (and_rest (record { fits = compressed_jump-IsInstr; width = refl }) none_left))
      (omega arith)

-- A line that lacks its last value, and one that lacks two.
abbrev short_lines : List (List (Option ℕ))
short_lines =
    (some 1 ∷ some 0x80 ∷ some 0x13 ∷ some 3 ∷ some 0 ∷ none ∷ some 0 ∷ [])
    ∷ (some 1 ∷ some 0x84 ∷ some 0x13 ∷ some 3 ∷ some 0 ∷ some 0 ∷ [])
    ∷ []

trdb_cvs_to_trace_list-Read_example :
    Read
      (lines_fit short_lines)
      2
      0
      []
      (trdb_cvs_to_trace_list enough (some (cvs_file short_lines)) [])
trdb_cvs_to_trace_list-Read_example =
    trdb_cvs_to_trace_list-Read enough short_lines [] (λ n. refl) (omega arith)

stimuli_words : Every (Every IsWord) stimuli_file.scans
stimuli_words =
    and_rest
      (and_rest (omega arith) (
        and_rest (omega arith) (
          and_rest (omega arith) (
            and_rest (omega arith) (
              and_rest (omega arith) (
                and_rest (omega arith) (
                  and_rest (omega arith)
                    (and_rest (omega arith) (and_rest (omega arith) none_left)))))))))
      (and_rest
        (and_rest (omega arith)
          (and_rest (omega arith) (and_rest (omega arith) (and_rest (omega arith) none_left))))
        none_left)

full_ctx-IsReady : IsReady full_ctx
full_ctx-IsReady = ground (arith, pow-zero 2)

compress_trace-stimuli_example : Returns IsTraced (
    compress_trace ample full_ctx []
      (trdb_stimuli_to_trace_list enough (some stimuli_file) []).instrs)
compress_trace-stimuli_example =
    compress_trace-stimuli full_ctx enough ample (some stimuli_file) full_ctx-IsReady stimuli_words
