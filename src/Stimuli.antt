-- ===== src/Stimuli.antt =====
-- trdb_stimuli_to_trace_list and trdb_stimuli_to_trace of src/serialize.c. What fscanf converts is a
-- parameter: `scans` has for each call before EOF the values that it assigns, as many of the nine as
-- match. Pointers that are null are left out.
pub mod Same
pub mod Rows
pub mod Fits
use trdb.Base.{
  ℕ, zero, suc, ◌+◌, ◌-◌, ◌*◌, ◌/◌, ◌%◌, ◌^◌, Bool, true, false, not, if◌then◌else◌, leb, ◌==◌,
  Option, none, some, List, [], ◌∷◌, ◌++◌, length, set, take, replicate,
}
use trdb.Errors.{Status, value, failed, trdb_nomem, trdb_file_open, trdb_scan_file}
use trdb.Trace.{TrInstr, zero_instr}

-- An open file, and whether an error ended it. The values are those of variables of 32 bits.
pub record StimuliFile : Type 0 where
  pub scans : List (List ℕ)
  pub ferror : Bool

-- The local variables of the scan, which keep their values between the calls.
pub record Vars : Type 0 where
  pub valid : ℕ
  pub exception : ℕ
  pub interrupt : ℕ
  pub cause : ℕ
  pub tval : ℕ
  pub priv : ℕ
  pub compressed : ℕ
  pub iaddr : ℕ
  pub instr : ℕ

abbrev pub zero_vars : Vars
zero_vars = record {
  valid = 0;
  exception = 0;
  interrupt = 0;
  cause = 0;
  tval = 0;
  priv = 0;
  compressed = 0;
  iaddr = 0;
  instr = 0;
}

-- The variables in the order of the format, `&valid` being 0.
unfoldable pub assign : ℕ → ℕ → Vars → Vars
assign n x v =
    if n == 0
    then record v { valid = x }
    else if n == 1
    then record v { exception = x }
    else if n == 2
    then record v { interrupt = x }
    else if n == 3
    then record v { cause = x }
    else if n == 4
    then record v { tval = x }
    else if n == 5
    then record v { priv = x }
    else if n == 6
    then record v { compressed = x }
    else if n == 7
    then record v { iaddr = x }
    else if n == 8
    then record v { instr = x }
    else v

-- One call of fscanf, from the n-th conversion on.
unfoldable pub scan : ℕ → List ℕ → Vars → Vars
unfolding assign
scan n [] v = v
scan n (x ∷ xs) v = scan (suc n) xs (assign n x v)

-- An int that a bool takes.
abbrev pub truth : ℕ → Bool
truth x = not (x == 0)

-- `*sample`, whose bit fields take the low bits.
unfoldable pub sample_of : Vars → TrInstr
sample_of v = record zero_instr {
  valid = truth v.valid;
  exception = truth v.exception;
  interrupt = truth v.interrupt;
  cause = v.cause % 2 ^ 5;
  tval = v.tval;
  priv = v.priv % 2 ^ 3;
  iaddr = v.iaddr;
  instr = v.instr;
  compressed = truth v.compressed;
}

-- What a call leaves: its status, the list, and `*count`.
pub record Listed : Type 0 where
  pub status : Status
  pub instrs : List TrInstr
  pub count : ℕ

-- `goto fail` frees the whole list.
abbrev pub list_fail : Status → Listed
list_fail s = record { status = s; instrs = []; count = 0 }

-- The loop over the scans; `memory n` is whether the n-th `malloc` succeeds.
unfoldable pub list_scans : (ℕ → Bool) → Bool → List (List ℕ) → Vars → ℕ → List TrInstr → Listed
unfolding scan sample_of
list_scans memory ferror [] v scnt instrs =
    if ferror
    then list_fail (failed trdb_scan_file)
    else record { status = value 0; instrs = instrs; count = scnt }
list_scans memory ferror (s ∷ rest) v scnt instrs =
    let w = scan 0 s v in
    let next =
      list_scans memory ferror rest w ((scnt + 1) % 2 ^ 64) (instrs ++ (sample_of w ∷ [])) in
    if memory scnt then next else list_fail (failed trdb_nomem)

unfoldable pub trdb_stimuli_to_trace_list : (ℕ → Bool) → Option StimuliFile → List TrInstr → Listed
unfolding list_scans
trdb_stimuli_to_trace_list memory none instrs = list_fail (failed trdb_file_open)
trdb_stimuli_to_trace_list memory (some f) instrs =
    list_scans memory f.ferror f.scans zero_vars 0 instrs

-- An array whose elements may not be initialised, `none`; what a call leaves of it, `none` being
-- that it is freed.
pub record Sampled : Type 0 where
  pub status : Status
  pub samples : Option (List (Option TrInstr))
  pub count : ℕ

abbrev pub array_fail : Status → Sampled
array_fail s = record { status = s; samples = none; count = 0 }

-- `memset(samples + scnt, 0, size - scnt)`, which counts bytes: so many elements, of `width` bytes,
-- become zero.
unfoldable pub clear : ℕ → ℕ → List (Option TrInstr) → List (Option TrInstr)
clear zero from samples = samples
clear (suc n) from samples = clear n (suc from) (set samples from (some zero_instr))

-- The loop of the array; `memory n` is whether the array of n elements is allocated. That the size
-- in bytes overflows is left out.
unfoldable pub array_scans :
    (ℕ → Bool) → ℕ → Bool → List (List ℕ) → Vars → ℕ → ℕ → List (Option TrInstr) → Sampled
unfolding scan sample_of clear
array_scans memory width ferror [] v scnt size samples =
    if ferror then array_fail (failed trdb_scan_file) else record {
      status = value 0;
      samples = some (clear ((size + 2 ^ 64 - scnt) % 2 ^ 64 / width) scnt samples);
      count = scnt;
    }
array_scans memory width ferror (s ∷ rest) v scnt size samples =
    let w = scan 0 s v in
    let full = leb size scnt in
    let larger = if full then 2 * size % 2 ^ 64 else size in
    let room = if full then take larger (samples ++ replicate size none) else samples in
    let next =
      array_scans memory width ferror rest w ((scnt + 1) % 2 ^ 64) larger
        (set room scnt (some (sample_of w))) in
    if full then (if memory larger then next else array_fail (failed trdb_nomem)) else next

-- The array starts with room for 128 samples.
unfoldable pub trdb_stimuli_to_trace : (ℕ → Bool) → ℕ → Option StimuliFile → Sampled
unfolding array_scans
trdb_stimuli_to_trace memory width none = array_fail (failed trdb_file_open)
trdb_stimuli_to_trace memory width (some f) =
    if memory 128
    then array_scans memory width f.ferror f.scans zero_vars 0 128 (replicate 128 none)
    else array_fail (failed trdb_nomem)
