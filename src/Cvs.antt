-- ===== src/Cvs.antt =====
-- trdb_cvs_to_trace_list of src/serialize.c. What getline, strtok and sscanf make of the file is a
-- parameter. Pointers that are null are left out.
pub mod Lines
pub mod Files
use trdb.Base.{
  ℕ, zero, suc, ◌+◌, ◌-◌, ◌%◌, ◌^◌, Bool, true, false, not, if◌then◌else◌, ltb, ◌==◌, bit_and,
  Option, none, some, List, [], ◌∷◌, ◌++◌,
}
use trdb.Errors.{
  Status, value, failed, trdb_nomem, trdb_file_open, trdb_scan_file, trdb_bad_cvs_header,
  trdb_scan_state_invalid,
}
use trdb.Trace.{TrInstr, zero_instr}
use trdb.Stimuli.{Vars, zero_vars, truth, Listed, list_fail}

-- A file behind its opening: `header` is whether strcmp finds its first line, if there is one, to
-- be that of the code, without an end of line. For each line that follows, the tokens of strtok,
-- and what sscanf converts of each, below 2 ^ 32, if it does.
pub record CvsFile : Type 0 where
  pub header : Option Bool
  pub lines : List (List (Option ℕ))
  pub ferror : Bool

-- sscanf: what is not converted leaves the variable.
abbrev pub or_kept : Option ℕ → ℕ → ℕ
or_kept none x = x
or_kept (some y) x = y

-- The local variables, and `*sample`.
pub record Parsed : Type 0 where
  pub vars : Vars
  pub sample : TrInstr

-- The switch on `ele`.
unfoldable pub token : ℕ → Option ℕ → Parsed → Parsed
token ele tok p =
    let v = p.vars in
    let s = p.sample in
    if ele == 7
    then (let x = or_kept tok v.valid in
        record { vars = record v { valid = x }; sample = record s { valid = truth x } })
    else if ele == 6
    then (let x = or_kept tok v.iaddr in
        record { vars = record v { iaddr = x }; sample = record s { iaddr = x } })
    else if ele == 5
    then (let x = or_kept tok v.instr in
        record {
          vars = record v { instr = x };
          sample = record s { instr = x; compressed = not (bit_and x 3 == 3) };
        })
    else if ele == 4
    then (let x = or_kept tok v.priv in
        record { vars = record v { priv = x }; sample = record s { priv = x % 2 ^ 3 } })
    else if ele == 3
    then (let x = or_kept tok v.exception in
        record { vars = record v { exception = x }; sample = record s { exception = truth x } })
    else if ele == 2
    then (let x = or_kept tok v.cause in
        record { vars = record v { cause = x }; sample = record s { cause = x % 2 ^ 5 } })
    else if ele == 1
    then (let x = or_kept tok v.tval in
        record { vars = record v { tval = x }; sample = record s { tval = x } })
    else (let x = or_kept tok v.interrupt in
        record { vars = record v { interrupt = x }; sample = record s { interrupt = truth x } })

-- The loop over tokens; `left` is ele + 1. `none` is a line of too many or too few tokens, where
-- one that lacks only its last is kept, since the test is `ele > 0`.
unfoldable pub tokens : List (Option ℕ) → ℕ → Parsed → Option Parsed
unfolding token
tokens [] left p = if ltb 1 left then none else some p
tokens (t ∷ rest) zero p = none
tokens (t ∷ rest) (suc ele) p = tokens rest ele (token ele t p)

-- The loop over lines; `memory n` is whether the n-th `malloc` succeeds.
unfoldable pub read_lines :
    (ℕ → Bool) → Bool → List (List (Option ℕ)) → Vars → ℕ → List TrInstr → Listed
unfolding tokens
read_lines memory ferror [] v scnt instrs =
    if ferror
    then list_fail (failed trdb_scan_file)
    else record { status = value 0; instrs = instrs; count = scnt }
read_lines memory ferror (line ∷ rest) v scnt instrs = elim (memory scnt) [
  | false ↦ list_fail (failed trdb_nomem)
  | true ↦ elim (tokens line 8 (record { vars = v; sample = zero_instr })) [
    | none ↦ list_fail (failed trdb_scan_state_invalid)
    | some p ↦
        read_lines memory ferror rest p.vars ((scnt + 1) % 2 ^ 64) (instrs ++ (p.sample ∷ []))
  ]
]

unfoldable pub trdb_cvs_to_trace_list : (ℕ → Bool) → Option CvsFile → List TrInstr → Listed
unfolding read_lines
trdb_cvs_to_trace_list memory none instrs = list_fail (failed trdb_file_open)
trdb_cvs_to_trace_list memory (some f) instrs = elim f.header [
  | none ↦ list_fail (failed trdb_bad_cvs_header)
  | some true ↦ list_fail (failed trdb_bad_cvs_header)
  | some false ↦ read_lines memory f.ferror f.lines zero_vars 0 instrs
]
