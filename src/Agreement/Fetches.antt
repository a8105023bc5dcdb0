-- ===== src/Agreement/Fetches.antt =====
-- An instruction that the decoder fetches, in front of the next one of the path.
use trdb.Base.{
  ℕ, ◌+◌, ◌%◌, ◌^◌, ◌≡◌, ◌≢◌, refl, ◌⊎◌, inl, inr, Bool, true, false, some, [], ◌∷◌, ◌==◌, arith,
  if◌then◌else◌,
}
use trdb.Trace.{TrInstr, IsInstr}
use trdb.Insn.{is_branch}
use trdb.Program.{
  Program, Section, InsnType, dis_noninsn, dis_nonbranch, dis_branch, dis_condbranch, dis_jsr,
  dis_condjsr, dis_dref, dis_dref2, Fetched, disassemble_at_pc, add_vma,
}
use trdb.Decompress.{RasResult}
use trdb.Decompress.Course.{Cpu, At, Goes, by_falling, by_going, forks, leaps, effect, jump_effect}
use trdb.Decompress.Tells.{at_privilege}
use trdb.Agreement.{behind_instr, outcome}

-- What disassemble_at_pc fills in.
pub record IsFetched (pc : ℕ) (f : Fetched) : Type 0 where
  pub valid : f.instr.valid ≡ true
  pub no_exception : f.instr.exception ≡ false
  pub iaddr : f.instr.iaddr ≡ pc % 2 ^ 32
  pub compressed : f.instr.compressed ≡ (f.size == 2)
  pub fits : IsInstr f.instr

pub disassemble_at_pc-IsFetched :
    (p : Program) (s : Section) (pc : ℕ) (f : Fetched)
    → disassemble_at_pc p s pc ≡ some f
    → IsFetched pc f
unfolding disassemble_at_pc
disassemble_at_pc-IsFetched p s pc f e = ground arith

abbrev pub is_condbranch : InsnType → Bool
is_condbranch dis_condbranch = true
is_condbranch dis_noninsn = false
is_condbranch dis_nonbranch = false
is_condbranch dis_branch = false
is_condbranch dis_jsr = false
is_condbranch dis_condjsr = false
is_condbranch dis_dref = false
is_condbranch dis_dref2 = false

-- What a path needs of the disassembler: it calls the instructions conditional branches that
-- is_branch does, and has their sizes. No branch goes to the instruction behind it.
pub record IsRead (p : Program) : Type 0 where
  pub branches :
      (s : Section) (pc : ℕ) (f : Fetched)
      → disassemble_at_pc p s pc ≡ some f
      → is_branch f.instr.instr ≡ is_condbranch f.insn_type
  pub sizes :
      (s : Section) (pc : ℕ) (f : Fetched)
      → disassemble_at_pc p s pc ≡ some f
      → (f.size ≡ 2) ⊎ (f.size ≡ 4)
  pub targets :
      (s : Section) (pc : ℕ) (f : Fetched)
      → disassemble_at_pc p s pc ≡ some f
      → f.insn_type ≡ dis_condbranch
      → f.target % 2 ^ 32 ≢ (pc + f.size) % 2 ^ 32

module _ (p : Program) (read : IsRead p) (implicit_ret : Bool) where
  pub forks-condbranch :
      (f : Fetched) (r : RasResult)
      → effect p implicit_ret f r ≡ forks
      → f.insn_type ≡ dis_condbranch
  unfolding effect jump_effect
  forks-condbranch f r e = ground arith

  pub leaps-condbranch :
      (f : Fetched) (r : RasResult)
      → effect p implicit_ret f r ≡ leaps
      → is_condbranch f.insn_type ≡ false
  unfolding effect jump_effect
  leaps-condbranch f r e = ground arith

  pub Goes-condbranch :
      (c : Cpu) (f : Fetched) (r : RasResult) (pc : ℕ)
      → Goes p implicit_ret c f r pc
      → is_condbranch f.insn_type ≡ false
  unfolding effect jump_effect
  Goes-condbranch c f r pc (by_falling e k) = ground arith
  Goes-condbranch c f r pc (by_going e) = ground arith

  module _ (v : ℕ) (c : Cpu) (s : Section) (f : Fetched) (r : RasResult) (at : At p c s f r)
      (j : TrInstr) where
    pub outcome-Goes :
        (pc : ℕ) → Goes p implicit_ret c f r pc → outcome (at_privilege v f.instr) j ≡ []
    outcome-Goes pc g = rw (read.branches s c.pc f at.fetched, Goes-condbranch c f r pc g) refl

    -- The fall-through is where the program has it.
    behind_instr-falls :
        (falls_there : Bool)
        → ((c.pc + f.size) % 2 ^ 32 == j.iaddr) ≡ falls_there
        → (behind_instr f.instr == j.iaddr) ≡ falls_there
    behind_instr-falls falls_there e =
        let g = disassemble_at_pc-IsFetched p s c.pc f at.fetched in
        elim (read.sizes s c.pc f at.fetched) [
          | inl two ↦ ground (arith, g, two, e)
          | inr four ↦ ground (arith, g, four, e)
        ]

    next_falls :
        (b : Bool)
        → f.insn_type ≡ dis_condbranch
        → j.iaddr ≡ (if b then add_vma c.pc f.size else f.target) % 2 ^ 32
        → ((c.pc + f.size) % 2 ^ 32 == j.iaddr) ≡ b
    next_falls true k next = ground (arith, next)
    next_falls false k next =
        let target = read.targets s c.pc f at.fetched k in ground (arith, next)

    pub outcome-forks :
        (b : Bool)
        → effect p implicit_ret f r ≡ forks
        → j.iaddr ≡ (if b then add_vma c.pc f.size else f.target) % 2 ^ 32
        → outcome (at_privilege v f.instr) j ≡ b ∷ []
    outcome-forks b e next =
        let k = forks-condbranch f r e in
        rw (read.branches s c.pc f at.fetched, k, behind_instr-falls b (next_falls b k next)) refl
