-- ===== src/Cvs/Lines.antt =====
-- The reader of cvs files in src/serialize.c: files of instructions, and lines of other lengths.
use trdb.Base.{
  ℕ, zero, suc, ◌+◌, ◌%◌, ◌^◌, ◌<◌, ◌≤◌, ◌≡◌, ◌⊎◌, inl, inr, refl, sym, not, ◌==◌, bit_and, arith,
  Option, none, some, List, [], ◌∷◌, length,
}
use trdb.Trace.{TrInstr, zero_instr, IsInstr, bit_value}
use trdb.Stimuli.{Vars}
use trdb.Stimuli.Rows.{truth-bit_value}
use trdb.Cvs.{Parsed, token, tokens}

-- The eight values of an instruction, in the order of the header.
abbrev pub row : TrInstr → List (Option ℕ)
row i =
    some (bit_value i.valid)
    ∷ some i.iaddr
    ∷ some i.instr
    ∷ some i.priv
    ∷ some (bit_value i.exception)
    ∷ some i.cause
    ∷ some i.tval
    ∷ some (bit_value i.interrupt)
    ∷ []

-- Whether the instruction is compressed is not in the file, but in its low bits.
pub record IsRow (i : TrInstr) : Type 0 where
  pub fits : IsInstr i
  pub width : i.compressed ≡ not (bit_and i.instr 3 == 3)

abbrev pub vars_of : TrInstr → Vars → Vars
vars_of i v = record {
  valid = bit_value i.valid;
  exception = bit_value i.exception;
  interrupt = bit_value i.interrupt;
  cause = i.cause;
  tval = i.tval;
  priv = i.priv;
  compressed = v.compressed;
  iaddr = i.iaddr;
  instr = i.instr;
}

pub tokens-row :
    (i : TrInstr) (v : Vars)
    → IsRow i
    → tokens (row i) 8 (record { vars = v; sample = zero_instr })
      ≡ some (record { vars = vars_of i v; sample = i })
unfolding tokens token
tokens-row i v is_row =
    let cause : i.cause % 2 ^ 5 ≡ i.cause = omega (arith, is_row.fits.cause_fits) in
    let priv : i.priv % 2 ^ 3 ≡ i.priv = omega (arith, is_row.fits.priv_fits) in
    rw
      (
        cause,
        priv,
        truth-bit_value i.valid,
        truth-bit_value i.exception,
        truth-bit_value i.interrupt,
        sym is_row.width,
      )
      refl

-- A line is read whatever its tokens are, if it has seven of them or eight.
pub tokens-count :
    (line : List (Option ℕ)) (left : ℕ) (p : Parsed)
    → length line ≤ left
    → left ≤ length line + 1
    → (q : Parsed) × (tokens line left p ≡ some q)
unfolding tokens
tokens-count [] left p most least = (p, ground (arith, most, least))
tokens-count (t ∷ rest) zero p most least = absurd (omega (arith, most))
tokens-count (t ∷ rest) (suc ele) p most least =
    tokens-count rest ele (token ele t p) (omega (arith, most)) (omega (arith, least))

pub tokens-miscount :
    (line : List (Option ℕ)) (left : ℕ) (p : Parsed)
    → (left < length line) ⊎ (length line + 1 < left)
    → tokens line left p ≡ none
unfolding tokens
tokens-miscount [] left p (inl h) = absurd (omega (arith, h))
tokens-miscount [] left p (inr h) = ground (arith, h)
tokens-miscount (t ∷ rest) zero p h = refl
tokens-miscount (t ∷ rest) (suc ele) p (inl h) =
    tokens-miscount rest ele (token ele t p) (inl (omega (arith, h)))
tokens-miscount (t ∷ rest) (suc ele) p (inr h) =
    tokens-miscount rest ele (token ele t p) (inr (omega (arith, h)))
