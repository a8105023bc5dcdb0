-- ===== src/Stimuli/Fits.antt =====
-- The instructions that stimuli give have fields that fit, as compression wants them.
use trdb.Base.{
  ℕ, suc, ◌+◌, ◌%◌, ◌^◌, ◌<◌, Bool, true, false, if◌then◌else◌, arith, Every, none_left, and_rest,
  Every-append, Returns, Option, none, some, List, [], ◌∷◌, ◌++◌,
}
use trdb.Errors.{failed, trdb_nomem}
use trdb.Trace.{TrInstr, IsInstr}
use trdb.Context.{Ctx}
use trdb.Compress.Safety.{IsReady}
use trdb.Compress.Run.{compress_trace, compress_trace-IsTraced, IsTraced}
use trdb.Stimuli.{
  StimuliFile, Vars, zero_vars, assign, scan, sample_of, Listed, list_fail, list_scans,
  trdb_stimuli_to_trace_list,
}

-- The variables that become whole words.
record IsVars (v : Vars) : Type 0 where
  tval_fits : v.tval < 2 ^ 32
  iaddr_fits : v.iaddr < 2 ^ 32
  instr_fits : v.instr < 2 ^ 32

-- The values of one scan, each of 32 bits.
abbrev pub IsWord : ℕ → Type 0
IsWord x = x < 2 ^ 32

assign-IsVars : (n x : ℕ) (v : Vars) → IsWord x → IsVars v → IsVars (assign n x v)
unfolding assign
assign-IsVars n x v h k = ground (arith, h, k)

scan-IsVars : (n : ℕ) (xs : List ℕ) (v : Vars) → Every IsWord xs → IsVars v → IsVars (scan n xs v)
unfolding scan
scan-IsVars n [] v none_left k = k
scan-IsVars n (x ∷ xs) v (and_rest h hs) k =
    scan-IsVars (suc n) xs (assign n x v) hs (assign-IsVars n x v h k)

sample_of-IsInstr : (v : Vars) → IsVars v → IsInstr (sample_of v)
unfolding sample_of
sample_of-IsInstr v k = ground (arith, k)

if-fits :
    (b : Bool) (x y : Listed)
    → Every IsInstr x.instrs
    → Every IsInstr y.instrs
    → Every IsInstr (if b then x else y).instrs
if-fits true x y h k = h
if-fits false x y h k = k

list_scans-IsInstr :
    (memory : ℕ → Bool) (ferror : Bool) (scans : List (List ℕ)) (v : Vars) (n : ℕ)
    (l : List TrInstr)
    → Every (Every IsWord) scans
    → IsVars v
    → Every IsInstr l
    → Every IsInstr (list_scans memory ferror scans v n l).instrs
unfolding list_scans
list_scans-IsInstr memory true [] v n l none_left k h = none_left
list_scans-IsInstr memory false [] v n l none_left k h = h
list_scans-IsInstr memory ferror (s ∷ rest) v n l (and_rest words later) k h =
    if-fits (memory n) _ (list_fail (failed trdb_nomem))
      (list_scans-IsInstr memory ferror rest (scan 0 s v) ((n + 1) % 2 ^ 64)
        (l ++ (sample_of (scan 0 s v) ∷ [])) later (scan-IsVars 0 s v words k)
        (Every-append IsInstr l _ h (sample_of-IsInstr _ (scan-IsVars 0 s v words k))))
      none_left

-- The values of a file, if there is one.
abbrev pub IsStimuli : Option StimuliFile → Type 0
IsStimuli none = Unit
IsStimuli (some f) = Every (Every IsWord) f.scans

zero_vars-IsVars : IsVars zero_vars
zero_vars-IsVars = ground arith

pub trdb_stimuli_to_trace_list-IsInstr :
    (memory : ℕ → Bool) (file : Option StimuliFile) (l : List TrInstr)
    → IsStimuli file
    → Every IsInstr l
    → Every IsInstr (trdb_stimuli_to_trace_list memory file l).instrs
unfolding trdb_stimuli_to_trace_list
trdb_stimuli_to_trace_list-IsInstr memory none l words h = none_left
trdb_stimuli_to_trace_list-IsInstr memory (some f) l words h =
    list_scans-IsInstr memory f.ferror f.scans zero_vars 0 l words zero_vars-IsVars h

-- From a context that is ready, the instructions that trdb_stimuli_to_trace_list leaves of any
-- stimuli file whose values have 32 bits are compressed without a failed assertion or undefined
-- behaviour, whichever allocations fail for the instructions and for the packets; the status is
-- EXIT_SUCCESS or EXIT_FAILURE, the context is ready again, and the fields of every packet fit
-- their widths.
pub compress_trace-stimuli :
    (ctx : Ctx) (memory packet_memory : ℕ → Bool) (file : Option StimuliFile)
    → IsReady ctx
    → IsStimuli file
    → Returns IsTraced
        (compress_trace packet_memory ctx [] (trdb_stimuli_to_trace_list memory file []).instrs)
compress_trace-stimuli ctx memory packet_memory file ready words =
    compress_trace-IsTraced packet_memory ctx [] _ ready none_left
      (trdb_stimuli_to_trace_list-IsInstr memory file [] words none_left)
