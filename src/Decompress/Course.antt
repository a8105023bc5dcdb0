-- ===== src/Decompress/Course.antt =====
-- Paths of a program by themselves: what an instruction does, and the ways that a packet stands for.
use trdb.Base.{ℕ, ◌+◌, ◌*◌, ◌≡◌, ◌≢◌, ◌&&◌, Bool, false, if◌then◌else◌, ◌==◌, some, List, [], ◌∷◌}
use trdb.Errors.{value}
use trdb.Trace.{TrInstr, bit_value}
use trdb.Insn.{is_unpred_discontinuity}
use trdb.Insn.Ras.{coret}
use trdb.Program.{
  Program, Section, located, switch_section, Fetched, disassemble_at_pc, add_vma, dis_noninsn,
  dis_nonbranch, dis_branch, dis_condbranch, dis_jsr, dis_condjsr, dis_dref, dis_dref2,
}
use trdb.Decompress.{RasResult, says_ret, update_ras, ras_value}

-- What of the processor a path depends on: the loaded section, the pc, and the return addresses.
pub record Cpu : Type 0 where
  pub section : Section
  pub pc : ℕ
  pub stack : List ℕ

-- An instruction goes on to the next one, or to a known place, or forks, or goes to a place that
-- the program does not tell.
pub data Effect : Type 0 where
  falls forks leaps invalid : Effect
  goes : ℕ → Effect

-- The instruction at the pc, and what the return address stack makes of it. The stack is not bad,
-- and the instruction is no coroutine jump.
pub record At (p : Program) (c : Cpu) (s : Section) (f : Fetched) (r : RasResult) : Type 0 where
  pub found : switch_section p c.section c.pc ≡ located s
  pub fetched : disassemble_at_pc p s c.pc ≡ some f
  pub hint : update_ras f.instr.instr f.instr.iaddr c.stack 0 ≡ r
  pub kind : ℕ
  pub calm : r.status ≡ value kind
  pub no_coret : (kind == ras_value coret) ≡ false

-- The processor behind the instruction, at some address.
abbrev pub behind : Section → RasResult → ℕ → Cpu
behind s r pc = record { section = s; pc = pc; stack = r.stack }

module _ (p : Program) (implicit_ret : Bool) where
  unfoldable pub jump_effect : Fetched → RasResult → Effect
  jump_effect f r =
      if implicit_ret && says_ret r
      then goes r.ret_addr
      else if f.target == 0
      then leaps
      else goes f.target

  unfoldable pub effect : Fetched → RasResult → Effect
  unfolding jump_effect
  effect f r = elim f.insn_type [
    | dis_nonbranch ↦
        if is_unpred_discontinuity f.instr.instr implicit_ret then jump_effect f r else falls
    | dis_jsr ↦ jump_effect f r
    | dis_branch ↦ jump_effect f r
    | dis_condbranch ↦ forks
    | dis_dref ↦ falls
    | dis_dref2 ↦ invalid
    | dis_condjsr ↦ invalid
    | dis_noninsn ↦ invalid
  ]

  -- Without a fork or a leap: where the instruction goes.
  pub data Goes (c : Cpu) (f : Fetched) (r : RasResult) (pc : ℕ) : Type 0 where
    by_falling : effect f r ≡ falls → pc ≡ add_vma c.pc f.size → Goes c f r pc
    by_going : effect f r ≡ goes pc → Goes c f r pc

  -- A path, the outcomes of its branches (true for one that is not taken) and its instructions.
  pub data Course : Cpu → List Bool → List TrInstr → Cpu → Type 0 where
    stay : {c : Cpu} → Course c [] [] c
    move :
        {c d : Cpu} {s : Section} {f : Fetched} {r : RasResult} {pc : ℕ} {bs : List Bool}
        {is : List TrInstr}
        → At p c s f r
        → Goes c f r pc
        → Course (behind s r pc) bs is d
        → Course c bs (f.instr ∷ is) d
    fork :
        {c d : Cpu} {s : Section} {f : Fetched} {r : RasResult} (b : Bool) {bs : List Bool}
        {is : List TrInstr}
        → At p c s f r
        → effect f r ≡ forks
        → Course (behind s r (if b then add_vma c.pc f.size else f.target)) bs is d
        → Course c (b ∷ bs) (f.instr ∷ is) d

  -- A path without branches that is over at an address: by a leap, which goes there, or once the
  -- instruction there is executed.
  pub data Ends (address : ℕ) : Cpu → List TrInstr → Cpu → Type 0 where
    leap :
        {c : Cpu} {s : Section} {f : Fetched} {r : RasResult}
        → At p c s f r
        → effect f r ≡ leaps
        → Ends address c (f.instr ∷ []) (behind s r address)
    arrive :
        {c : Cpu} {s : Section} {f : Fetched} {r : RasResult} {pc : ℕ}
        → c.pc ≡ address
        → At p c s f r
        → Goes c f r pc
        → Ends address c (f.instr ∷ []) (behind s r pc)
    further :
        {c d : Cpu} {s : Section} {f : Fetched} {r : RasResult} {pc : ℕ} {is : List TrInstr}
        → c.pc ≢ address
        → At p c s f r
        → Goes c f r pc
        → Ends address (behind s r pc) is d
        → Ends address c (f.instr ∷ is) d

-- The bits of a branch map, the first branch lowest.
unfoldable pub bits_of : List Bool → ℕ
bits_of [] = 0
bits_of (b ∷ bs) = bit_value b + 2 * bits_of bs
