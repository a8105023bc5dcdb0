-- ===== src/Agreement/Bits.antt =====
-- The bits of a branch map as the encoder collects them.
use mathlib.Core.List.{append-nil}
use native.Mathlib.Nat.{pow-zero, pow-suc}
use trdb.Base.{
  ◌+◌, ◌*◌, ◌^◌, ◌<◌, ◌≡◌, refl, ap, ◌∙◌, Bool, true, false, not, ◌==◌, bit_or, List, [], ◌∷◌, ◌++◌,
  length, length-append, done, arith, Bool-cases, inl, inr,
}
use trdb.Bits.{bit_or_above}
use trdb.Trace.{TrInstr, bit_value}
use trdb.Insn.{is_branch}
use trdb.Context.{BranchMap}
use trdb.Compress.{branch_taken}
use trdb.Compress.Step.{record_branch}
use trdb.Decompress.Course.{bits_of}
use trdb.Decompress.Segments.{map_at}
use trdb.Agreement.{behind_instr, outcome}

pub bits_of-lt : (bs : List Bool) → bits_of bs < 2 ^ length bs
unfolding bits_of
bits_of-lt [] = omega (arith, pow-zero 2)
bits_of-lt (true ∷ bs) = omega (arith, bits_of-lt bs, pow-suc 2 (length bs))
bits_of-lt (false ∷ bs) = omega (arith, bits_of-lt bs, pow-suc 2 (length bs))

bits_of-append :
    (bs : List Bool) (b : Bool)
    → bits_of (bs ++ (b ∷ [])) ≡ bits_of bs + bit_value b * 2 ^ length bs
unfolding bits_of
bits_of-append [] true = refl
bits_of-append [] false = refl
bits_of-append (a ∷ bs) true = ground (arith, bits_of-append bs true, pow-suc 2 (length bs))
bits_of-append (a ∷ bs) false = ground (arith, bits_of-append bs false)

bits_of-set : (bs : List Bool) → bit_or (bits_of bs) (2 ^ length bs) ≡ bits_of (bs ++ (true ∷ []))
bits_of-set bs =
    ap (bit_or (bits_of bs)) (omega arith)
    ∙ bit_or_above (length bs) (bits_of bs) 1 (bits_of-lt bs)
    ∙ omega (arith, bits_of-append bs true)

-- The map of pending branches, full or not.
abbrev pub pending_map : List Bool → BranchMap
pending_map bs = map_at (length bs == 31) bs

module _ (bs : List Bool) (few : length bs < 31) (i j : TrInstr) where
  record_untaken :
      is_branch i.instr ≡ true
      → branch_taken i.compressed i.iaddr j.iaddr ≡ false
      → record_branch (map_at false bs) i j ≡ done (pending_map (bs ++ (true ∷ [])))
  unfolding record_branch
  record_untaken b t = ground (arith, bits_of-set bs, length-append bs (true ∷ []))

  record_taken :
      is_branch i.instr ≡ true
      → branch_taken i.compressed i.iaddr j.iaddr ≡ true
      → record_branch (map_at false bs) i j ≡ done (pending_map (bs ++ (false ∷ [])))
  unfolding record_branch
  record_taken b t = ground (arith, bits_of-append bs false, length-append bs (false ∷ []))

  record_other :
      is_branch i.instr ≡ false
      → record_branch (map_at false bs) i j ≡ done (pending_map (bs ++ []))
  unfolding record_branch
  record_other b = ground (arith, append-nil bs)

  -- The encoder's test finds the fall-through.
  branch_taken-behind_instr :
      branch_taken i.compressed i.iaddr j.iaddr ≡ not (behind_instr i == j.iaddr)
  unfolding branch_taken
  branch_taken-behind_instr = ground arith

  -- With fewer than 31 branches pending, the encoder adds the outcome of the instruction.
  pub record_branch-outcome :
      record_branch (map_at false bs) i j ≡ done (pending_map (bs ++ outcome i j))
  record_branch-outcome = elim (Bool-cases (is_branch i.instr)) [
    | inl b ↦ elim (Bool-cases (behind_instr i == j.iaddr)) [
      | inl t ↦
          record_untaken b (branch_taken-behind_instr ∙ ap not t)
          ∙ ap (λ o. done (pending_map (bs ++ o))) (rw (b, t) refl)
      | inr t ↦
          record_taken b (branch_taken-behind_instr ∙ ap not t)
          ∙ ap (λ o. done (pending_map (bs ++ o))) (rw (b, t) refl)
    ]
    | inr b ↦ record_other b ∙ ap (λ o. done (pending_map (bs ++ o))) (rw b refl)
  ]
