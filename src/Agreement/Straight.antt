-- ===== src/Agreement/Straight.antt =====
-- The packets of a trace along the stretches of a path.
use trdb.Base.{
  ℕ, ◌%◌, ◌^◌, ◌<◌, ◌≡◌, refl, sym, ap, ◌∙◌, Bool, true, false, ◌==◌, List, [], ◌∷◌, ◌++◌, map,
  length, if◌then◌else◌, arith,
}
use mathlib.Core.List.{append-nil, cons-ne-nil}
use trdb.Trace.{TrInstr, TrPacket}
use trdb.Context.{Config}
use trdb.Program.{Program, Section, Fetched, add_vma}
use trdb.Decompress.{RasResult}
use trdb.Decompress.Course.{
  Cpu, At, behind, effect, forks, Course, stay, move, fork, Ends, leap, arrive, further,
}
use trdb.Decompress.Tells.{at_privilege}
use trdb.Agreement.{outcome, full_packet}
use trdb.Agreement.Trap.{flush_packet}
use trdb.Agreement.Reports.{reports, reports-full, reports-open, last_of}
use trdb.Agreement.Fetches.{IsRead, outcome-Goes, outcome-forks, disassemble_at_pc-IsFetched}

-- The packets for the instructions of a path, at a privilege.
abbrev pub reports_of : Config → ℕ → List Bool → List TrInstr → List TrPacket
reports_of config v bs [] = []
reports_of config v bs (i ∷ is) = reports config bs (at_privilege v i) (map (at_privilege v) is)

-- A list with a first instruction at a pc.
pub record Starts (pc : ℕ) (is : List TrInstr) : Type 0 where
  pub first : TrInstr
  pub others : List TrInstr
  pub shape : is ≡ first ∷ others
  pub iaddr : first.iaddr ≡ pc % 2 ^ 32

module _ (p : Program) (read : IsRead p) (implicit_ret : Bool) (config : Config) (v : ℕ) where
  -- An instruction that is no branch adds nothing.
  reports-quiet :
      (bs : List Bool) (i : TrInstr) (pc : ℕ) (is : List TrInstr)
      → length bs < 31
      → Starts pc is
      → ((j : TrInstr) → outcome (at_privilege v i) j ≡ [])
      → reports_of config v bs (i ∷ is) ≡ reports_of config v bs is
  reports-quiet bs i pc is few s quiet =
      let j = at_privilege v s.first in
      let pending : bs ++ outcome (at_privilege v i) j ≡ bs =
        ap (λ o. bs ++ o) (quiet j) ∙ append-nil bs in
      ap (λ l. reports_of config v bs (i ∷ l)) s.shape
      ∙ reports-open config bs (at_privilege v i) j (map (at_privilege v) s.others)
          (rw pending (ground arith))
      ∙ ap (λ l. reports config l j (map (at_privilege v) s.others)) pending
      ∙ ap (λ l. reports_of config v bs l) (sym s.shape)

  -- The first instruction of a path.
  pub At-Starts :
      (c : Cpu) (s : Section) (f : Fetched) (r : RasResult) (is : List TrInstr)
      → At p c s f r
      → Starts c.pc (f.instr ∷ is)
  At-Starts c s f r is at = record {
    first = f.instr;
    others = is;
    shape = refl;
    iaddr = (disassemble_at_pc-IsFetched p s c.pc f at.fetched).iaddr;
  }

  pub Ends-Starts :
      (address : ℕ) (c e : Cpu) (is : List TrInstr)
      → Ends p implicit_ret address c is e
      → Starts c.pc is
  Ends-Starts address c e is (leap {s = s} {f = f} {r = r} at k) = At-Starts c s f r [] at
  Ends-Starts address c e is (arrive {s = s} {f = f} {r = r} here at g) = At-Starts c s f r [] at
  Ends-Starts address c e is (further {s = s} {f = f} {r = r} {is = js} other at g rest) =
      At-Starts c s f r js at

  pub Course-Starts :
      (c t : Cpu) (bs : List Bool) (is js : List TrInstr)
      → Course p implicit_ret c bs is t
      → Starts t.pc js
      → Starts c.pc (is ++ js)
  Course-Starts c t bs is js stay s = s
  Course-Starts c t bs is js (move {s = u} {f = f} {r = r} {is = ks} at g rest) s =
      At-Starts c u f r (ks ++ js) at
  Course-Starts c t bs is js (fork {s = u} {f = f} {r = r} b {is = ks} at e rest) s =
      At-Starts c u f r (ks ++ js) at

  -- A stretch without branches adds nothing.
  pub reports-Course :
      (bs : List Bool) (c t : Cpu) (is js : List TrInstr)
      → length bs < 31
      → Course p implicit_ret c [] is t
      → Starts t.pc js
      → reports_of config v bs (is ++ js) ≡ reports_of config v bs js
  reports-Course bs c t is js few stay s = refl
  reports-Course bs c t is js few (move {s = u} {f = f} {r = r} {pc = pc} {is = ks} at g rest) s =
      reports-quiet bs f.instr pc (ks ++ js) few (Course-Starts (behind u r pc) t [] ks js rest s)
        (λ j. outcome-Goes p read implicit_ret v c u f r at j pc g)
      ∙ reports-Course bs (behind u r pc) t ks js few rest s

  -- The end of a path is reported by a flush at its last instruction.
  pub reports-Ends :
      (bs : List Bool) (address : ℕ) (c e : Cpu) (i : TrInstr) (is : List TrInstr)
      → length bs < 31
      → Ends p implicit_ret address c (i ∷ is) e
      → reports_of config v bs (i ∷ is)
        ≡ flush_packet bs (last_of (at_privilege v i) (map (at_privilege v) is)) ∷ []
  unfolding reports
  reports-Ends bs address c e i is few (leap at k) = refl
  reports-Ends bs address c e i is few (arrive here at g) = refl
  reports-Ends bs address c e i [] few (further {s = u} {r = r} {pc = pc} other at g rest) =
      absurd (cons-ne-nil _ _ (sym (Ends-Starts address _ e [] rest).shape))
  reports-Ends bs address c e i (k ∷ ks) few
        (further {s = u} {f = f} {r = r} {pc = pc} other at g rest) =
      reports-quiet bs f.instr pc (k ∷ ks) few (Ends-Starts address (behind u r pc) e (k ∷ ks) rest)
        (λ j. outcome-Goes p read implicit_ret v c u f r at j pc g)
      ∙ reports-Ends bs address (behind u r pc) e k ks few rest

  module _ (bs : List Bool) (c : Cpu) (s : Section) (f : Fetched) (r : RasResult)
      (at : At p c s f r) (b : Bool) (e : effect p implicit_ret f r ≡ forks) (is : List TrInstr)
      (begins : Starts (if b then add_vma c.pc f.size else f.target) is) where
    fork_outcome : outcome (at_privilege v f.instr) (at_privilege v begins.first) ≡ b ∷ []
    fork_outcome =
        outcome-forks p read implicit_ret v c s f r at (at_privilege v begins.first) b e
          begins.iaddr

    -- A branch adds its outcome, and a full map is reported.
    pub reports-fork_full :
        (length (bs ++ (b ∷ [])) == 31) ≡ true
        → reports_of config v bs (f.instr ∷ is)
          ≡ full_packet config (bs ++ (b ∷ [])) ∷ reports_of config v [] is
    reports-fork_full full =
        let j = at_privilege v begins.first in
        let size : length (bs ++ outcome (at_privilege v f.instr) j) ≡ length (bs ++ (b ∷ [])) =
          ap (λ o. length (bs ++ o)) fork_outcome in
        ap (λ l. reports_of config v bs (f.instr ∷ l)) begins.shape
        ∙ reports-full config bs (at_privilege v f.instr) j (map (at_privilege v) begins.others)
            (rw size full)
        ∙ ap
            (λ o.
              full_packet config (bs ++ o)
              ∷ reports config [] j (map (at_privilege v) begins.others))
            fork_outcome
        ∙ ap (λ l. full_packet config (bs ++ (b ∷ [])) ∷ reports_of config v [] l)
            (sym begins.shape)

    pub reports-fork_open :
        (length (bs ++ (b ∷ [])) == 31) ≡ false
        → reports_of config v bs (f.instr ∷ is) ≡ reports_of config v (bs ++ (b ∷ [])) is
    reports-fork_open open_map =
        let j = at_privilege v begins.first in
        let size : length (bs ++ outcome (at_privilege v f.instr) j) ≡ length (bs ++ (b ∷ [])) =
          ap (λ o. length (bs ++ o)) fork_outcome in
        ap (λ l. reports_of config v bs (f.instr ∷ l)) begins.shape
        ∙ reports-open config bs (at_privilege v f.instr) j (map (at_privilege v) begins.others)
            (rw size open_map)
        ∙ ap (λ o. reports config (bs ++ o) j (map (at_privilege v) begins.others)) fork_outcome
        ∙ ap (λ l. reports_of config v (bs ++ (b ∷ [])) l) (sym begins.shape)
