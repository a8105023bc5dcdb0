-- ===== src/Cvs/Files.antt =====
-- Whole cvs files, read by trdb_cvs_to_trace_list of src/serialize.c.
use mathlib.Core.Path.{subst}
use trdb.Base.{
  ℕ, suc, ◌+◌, ◌%◌, ◌^◌, ◌<◌, ◌≤◌, ◌≡◌, ◌⊎◌, refl, sym, ap, ◌∙◌, Bool, true, false, ◌&&◌, ◌||◌,
  if◌then◌else◌, ◌==◌, arith, Every, length-append, and_rest, Option, none, some, List, [], ◌∷◌,
  ◌++◌, length, map,
}
use mathlib.Core.List.{append-nil, append_assoc}
use trdb.Errors.{value, failed, trdb_scan_state_invalid}
use trdb.Trace.{TrInstr, zero_instr}
use trdb.Stimuli.{Vars, zero_vars, Listed, list_fail}
use trdb.Cvs.Lines.{row, IsRow, vars_of, tokens-row, tokens-count, tokens-miscount}
use trdb.Cvs.{CvsFile, Parsed, tokens, read_lines, trdb_cvs_to_trace_list}

-- Every line has seven tokens or eight.
abbrev pub line_fits : List (Option ℕ) → Bool
line_fits line = length line == 7 || length line == 8

abbrev pub lines_fit : List (List (Option ℕ)) → Bool
lines_fit [] = true
lines_fit (line ∷ rest) = line_fits line && lines_fit rest

-- The result of reading lines: their number is added, or nothing is left.
pub record Read (fit : Bool) (lines before : ℕ) (instrs : List TrInstr) (r : Listed) : Type 0 where
  pub status : r.status ≡ (if fit then value 0 else failed trdb_scan_state_invalid)
  pub count : r.count ≡ (if fit then before + lines else 0)
  pub size : length r.instrs ≡ (if fit then length instrs + lines else 0)

Read-more :
    (fit : Bool) (lines n : ℕ) (l : List TrInstr) (x : TrInstr) (r : Listed)
    → Read fit lines (n + 1) (l ++ (x ∷ [])) r
    → Read fit (suc lines) n l r
Read-more true lines n l x r h = record {
  status = h.status;
  count = omega (arith, h.count);
  size = omega (arith, h.size, length-append l (x ∷ []));
}
Read-more false lines n l x r h = record { status = h.status; count = h.count; size = h.size }

module _ (memory : ℕ → Bool) (ok : (n : ℕ) → memory n ≡ true) where
  read_lines-step :
      (line : List (Option ℕ)) (rest : List (List (Option ℕ))) (v : Vars) (n : ℕ) (l : List TrInstr)
      (q : Parsed)
      → tokens line 8 (record { vars = v; sample = zero_instr }) ≡ some q
      → n + 1 < 2 ^ 64
      → read_lines memory false (line ∷ rest) v n l
        ≡ read_lines memory false rest q.vars (n + 1) (l ++ (q.sample ∷ []))
  unfolding read_lines
  read_lines-step line rest v n l q e few =
      let less : (n + 1) % 2 ^ 64 ≡ n + 1 = omega (arith, few) in
      rw (ok n, e, read_lines)
        (ap (λ x. read_lines memory false rest q.vars x (l ++ (q.sample ∷ []))) less)

  read_lines-stop :
      (line : List (Option ℕ)) (rest : List (List (Option ℕ))) (v : Vars) (n : ℕ) (l : List TrInstr)
      → tokens line 8 (record { vars = v; sample = zero_instr }) ≡ none
      → read_lines memory false (line ∷ rest) v n l ≡ list_fail (failed trdb_scan_state_invalid)
  unfolding read_lines
  read_lines-stop line rest v n l e = rw (ok n, e, read_lines) refl

  read_lines-row :
      (is : List TrInstr) (v : Vars) (n : ℕ) (l : List TrInstr)
      → Every IsRow is
      → n + length is < 2 ^ 64
      → read_lines memory false (map row is) v n l
        ≡ record { status = value 0; instrs = l ++ is; count = n + length is }
  unfolding read_lines
  read_lines-row [] v n l rows few =
      ap (λ x. record { status = value 0; instrs = x; count = n }) (sym (append-nil l))
      ∙ ap (λ x. record { status = value 0; instrs = l ++ []; count = x }) (omega arith)
  read_lines-row (i ∷ is) v n l (and_rest is_row rows) few =
      read_lines-step (row i) (map row is) v n l _ (tokens-row i v is_row) (omega (arith, few))
      ∙ read_lines-row is (vars_of i v) (n + 1) (l ++ (i ∷ [])) rows (omega (arith, few))
      ∙ ap (λ x. record { status = value 0; instrs = x; count = n + 1 + length is })
          (append_assoc l (i ∷ []) is)
      ∙ ap (λ x. record { status = value 0; instrs = l ++ (i ∷ is); count = x }) (omega arith)

  read_lines-Read :
      (lines : List (List (Option ℕ))) (v : Vars) (n : ℕ) (l : List TrInstr)
      → n + length lines < 2 ^ 64
      → Read (lines_fit lines) (length lines) n l (read_lines memory false lines v n l)
  unfolding read_lines
  read_lines-Read [] v n l few = record { status = refl; count = omega arith; size = omega arith }
  read_lines-Read (line ∷ rest) v n l few =
      by_line (λ v' m. read_lines-Read rest v' (n + 1) m (omega (arith, few))) (line_fits line) refl
    where
      by_line :
          ((v' : Vars) (m : List TrInstr)
            → Read
                (lines_fit rest)
                (length rest)
                (n + 1)
                m
                (read_lines memory false rest v' (n + 1) m))
          → (b : Bool) → line_fits line ≡ b
          → Read
              (lines_fit (line ∷ rest))
              (suc (length rest))
              n
              l
              (read_lines memory false (line ∷ rest) v n l)
      by_line later true e =
          let most : length line ≤ 8 = ground (arith, e) in
          let least : 8 ≤ length line + 1 = ground (arith, e) in
          let (q, read) =
            tokens-count line 8 (record { vars = v; sample = zero_instr }) most least in
          rw e (
            subst (λ r. Read (lines_fit rest) (suc (length rest)) n l r)
              (sym (read_lines-step line rest v n l q read (omega (arith, few))))
              (Read-more (lines_fit rest) (length rest) n l q.sample _
                (later q.vars (l ++ (q.sample ∷ [])))))
      by_line later false e =
          let miscount : (8 < length line) ⊎ (length line + 1 < 8) = ground (arith, e) in
          rw e (
            subst (λ r. Read false (suc (length rest)) n l r)
              (sym (
                read_lines-stop line rest v n l
                  (tokens-miscount line 8 (record { vars = v; sample = zero_instr }) miscount)))
              (record { status = refl; count = refl; size = refl }))

-- A file with a header that the code takes.
abbrev pub cvs_file : List (List (Option ℕ)) → CvsFile
cvs_file lines = record { header = some false; lines = lines; ferror = false }

-- A cvs file with a header that the code takes and a row of eight values for each instruction of
-- a list, whose fields fit and which is compressed as its low bits say, is read, when every
-- allocation succeeds and there are fewer than 2 ^ 64 rows, with status 0, the number of rows as
-- count, and the instructions behind those that the list had before.
pub trdb_cvs_to_trace_list-row :
    (memory : ℕ → Bool) (is l : List TrInstr)
    → ((n : ℕ) → memory n ≡ true)
    → Every IsRow is
    → length is < 2 ^ 64
    → trdb_cvs_to_trace_list memory (some (cvs_file (map row is))) l
      ≡ record { status = value 0; instrs = l ++ is; count = length is }
unfolding trdb_cvs_to_trace_list
trdb_cvs_to_trace_list-row memory is l ok rows few =
    read_lines-row memory ok is zero_vars 0 l rows (omega (arith, few))
    ∙ ap (λ x. record { status = value 0; instrs = l ++ is; count = x }) (omega arith)

-- A cvs file with a header that the code takes and fewer than 2 ^ 64 lines, read without errors
-- of memory or device: when each line has seven tokens or eight, whatever they convert to, the
-- status is 0, the count is the number of lines, and as many instructions are added; otherwise
-- the status is the error for a bad state of the scan, the count is 0 and the list is empty.
pub trdb_cvs_to_trace_list-Read :
    (memory : ℕ → Bool) (lines : List (List (Option ℕ))) (l : List TrInstr)
    → ((n : ℕ) → memory n ≡ true)
    → length lines < 2 ^ 64
    → Read
        (lines_fit lines)
        (length lines)
        0
        l
        (trdb_cvs_to_trace_list memory (some (cvs_file lines)) l)
unfolding trdb_cvs_to_trace_list
trdb_cvs_to_trace_list-Read memory lines l ok few =
    read_lines-Read memory ok lines zero_vars 0 l (omega (arith, few))
