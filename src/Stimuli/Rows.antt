-- ===== src/Stimuli/Rows.antt =====
-- A stimuli file with a line for each instruction gives back the instructions.
use trdb.Base.{
  ℕ, ◌+◌, ◌%◌, ◌^◌, ◌<◌, ◌≡◌, refl, sym, ap, ◌∙◌, Bool, true, false, arith, Every, and_rest, some,
  List, [], ◌∷◌, ◌++◌, length, map,
}
use mathlib.Core.List.{append-nil, append_assoc}
use trdb.Errors.{value}
use trdb.Trace.{TrInstr, IsInstr, bit_value}
use trdb.Stimuli.{
  Vars, zero_vars, assign, scan, sample_of, truth, list_scans, trdb_stimuli_to_trace_list,
}

-- The nine values of an instruction, in the order of the format.
abbrev pub stimulus : TrInstr → List ℕ
stimulus i =
    bit_value i.valid
    ∷ bit_value i.exception
    ∷ bit_value i.interrupt
    ∷ i.cause
    ∷ i.tval
    ∷ i.priv
    ∷ bit_value i.compressed
    ∷ i.iaddr
    ∷ i.instr
    ∷ []

pub truth-bit_value : (b : Bool) → truth (bit_value b) ≡ b
truth-bit_value true = refl
truth-bit_value false = refl

pub sample_of-stimulus :
    (i : TrInstr) (v : Vars) → IsInstr i → sample_of (scan 0 (stimulus i) v) ≡ i
unfolding sample_of scan assign
sample_of-stimulus i v fits =
    let cause : i.cause % 2 ^ 5 ≡ i.cause = omega (arith, fits.cause_fits) in
    let priv : i.priv % 2 ^ 3 ≡ i.priv = omega (arith, fits.priv_fits) in
    rw
      (
        cause,
        priv,
        truth-bit_value i.valid,
        truth-bit_value i.exception,
        truth-bit_value i.interrupt,
        truth-bit_value i.compressed,
        sample_of,
      )
      refl

module _ (memory : ℕ → Bool) (ok : (n : ℕ) → memory n ≡ true) where
  list_scans-stimulus :
      (is : List TrInstr) (v : Vars) (n : ℕ) (l : List TrInstr)
      → Every IsInstr is
      → n + length is < 2 ^ 64
      → list_scans memory false (map stimulus is) v n l
        ≡ record { status = value 0; instrs = l ++ is; count = n + length is }
  unfolding list_scans
  list_scans-stimulus [] v n l fit few =
      ap (λ x. record { status = value 0; instrs = x; count = n }) (sym (append-nil l))
      ∙ ap (λ x. record { status = value 0; instrs = l ++ []; count = x }) (omega arith)
  list_scans-stimulus (i ∷ is) v n l (and_rest fits fit) few =
      let w = scan 0 (stimulus i) v in
      let later = list_scans-stimulus is w (n + 1) (l ++ (i ∷ [])) fit (omega (arith, few)) in
      let same = sample_of-stimulus i v fits in
      let less : (n + 1) % 2 ^ 64 ≡ n + 1 = omega (arith, few) in
      rw (ok n, list_scans)
        (ap (λ x. list_scans memory false (map stimulus is) w ((n + 1) % 2 ^ 64) (l ++ (x ∷ [])))
            same
          ∙ ap (λ x. list_scans memory false (map stimulus is) w x (l ++ (i ∷ []))) less
          ∙ later
          ∙ ap (λ x. record { status = value 0; instrs = x; count = n + 1 + length is })
              (append_assoc l (i ∷ []) is)
          ∙ ap (λ x. record { status = value 0; instrs = l ++ (i ∷ is); count = x }) (omega arith))

-- A stimuli file with nine values for each instruction of a list, whose fields fit, is read, when
-- every allocation succeeds and there are fewer than 2 ^ 64 of them, with status 0, their number
-- as count, and the instructions behind those that the list had before.
pub trdb_stimuli_to_trace_list-stimulus :
    (memory : ℕ → Bool) (is l : List TrInstr)
    → ((n : ℕ) → memory n ≡ true)
    → Every IsInstr is
    → length is < 2 ^ 64
    → trdb_stimuli_to_trace_list memory
        (some (record { scans = map stimulus is; ferror = false }))
        l
      ≡ record { status = value 0; instrs = l ++ is; count = length is }
unfolding trdb_stimuli_to_trace_list
trdb_stimuli_to_trace_list-stimulus memory is l ok fit few =
    list_scans-stimulus memory ok is zero_vars 0 l fit (omega (arith, few))
    ∙ ap (λ x. record { status = value 0; instrs = l ++ is; count = x }) (omega arith)
