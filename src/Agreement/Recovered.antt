-- ===== src/Agreement/Recovered.antt =====
-- A trace that ends with a trap, compressed and decompressed.
use trdb.Base.{
  Every, ℕ, ◌^◌, ◌<◌, ◌≡◌, true, some, List, [], ◌∷◌, ◌++◌, map, length, Returns, Returns-mono,
}
use trdb.Errors.{value}
use trdb.Trace.{TrInstr}
use trdb.Context.{Ctx, Decompress, fresh_compress}
use trdb.Compress.Step.{AddResult}
use trdb.Compress.Run.{compress_trace, ample}
use trdb.Program.{
  Program, Section, located, load_section, trdb_get_section_for_vma, Fetched, add_vma,
}
use trdb.Decompress.Course.{Cpu, Ends}
use trdb.Decompress.Tells.{at_sync, at_privilege}
use trdb.Decompress.Trace.{trdb_decompress_trace}
use trdb.Decompress.Whole.{at_start, dec_of, trdb_decompress_trace-TellsAll}
use trdb.Agreement.{Plain}
use trdb.Agreement.Trap.{Traps}
use trdb.Agreement.Fetches.{IsRead}
use trdb.Agreement.Synced.{IsSynced}
use trdb.Agreement.Complete.{Branched}
use trdb.Agreement.Reported.{last_in, IsReported, fresh-IsReported}

-- The packets, decompressed, give back all that was compressed.
pub record IsRestored (fuel : ℕ) (c : Ctx) (p : Program) (instrs executed : List TrInstr)
    (r : AddResult) : Type 0 where
  pub no_error : r.status ≡ value 0
  pub dec : Decompress
  pub decompressed :
      trdb_decompress_trace fuel c p r.packet_list instrs
      ≡ some (record { status = value 0; dec = dec; instr_list = instrs ++ executed })

module _ (p : Program) (read : IsRead p) (memory : p.allocated ≡ true) (c : Ctx)
    (full : c.config.full_address ≡ true) (fuel : ℕ) (instrs : List TrInstr) (s : Section)
    (start : trdb_get_section_for_vma p.sections p.start_address ≡ some s)
    (loaded : load_section p s ≡ located s) (v : ℕ) (fits : v < 2 ^ 3) where
  restored :
      (address : ℕ) (is : List TrInstr) (r : AddResult)
      → IsReported p c.config.implicit_ret address fuel v (at_start c p s) is r
      → IsRestored fuel c p instrs (map (at_privilege v) is) r
  restored address is r h =
      let t = h.telling in
      let (m, done) =
        trdb_decompress_trace-TellsAll c p fuel r.packet_list instrs (map (at_privilege v) is) s
          t.behind_all memory start loaded (rw full t.telling) in
      record { no_error = h.no_error; dec = dec_of t.behind_all m; decompressed = done }

  -- Let the disassembler of a program call the instructions conditional branches that is_branch
  -- does, with sizes of 2 or 4, no branch going to the instruction behind it; let memory be
  -- available, the start address lie in a section that loads, and addresses be absolute. From a
  -- fresh state of the compression, with the configuration of the decoder, a trace at one
  -- privilege below 8, shorter than the interval of resynchronisation and than the fuel, of
  -- instructions that are valid, supported, without traps and without jumps that have to be
  -- reported, and then one that traps, is compressed without an error, when it starts with an
  -- instruction that falls through, follows stretches of the program that end with a branch each,
  -- and then instructions without branches up to the first at the address of the last one, and no
  -- branch goes to where an instruction as long as the branch, at that address, would end; and
  -- trdb_decompress_trace on the packets returns 0 and appends to its list exactly the
  -- instructions in front of the trap, in order.
  pub compress_trace-IsRestored :
      (e : Ctx) (a : ℕ) (t : Section) (f : Fetched) (address : ℕ) (js : List TrInstr) (i : TrInstr)
      (is : List TrInstr) (d z : Cpu) (x : TrInstr)
      → e.cmp ≡ fresh_compress
      → e.config ≡ c.config
      → IsSynced p c.config.implicit_ret (at_start c p s).cpu a t f
      → Branched p c.config.implicit_ret address
          (at_sync (at_start c p s).cpu t (add_vma a f.size))
          js
          d
      → Ends p c.config.implicit_ret address d (i ∷ is) z
      → (last_in v (i ∷ is)).iaddr ≡ address
      → Every (Plain c.config.implicit_ret v) (map (at_privilege v) (f.instr ∷ (js ++ (i ∷ is))))
      → Traps x
      → length (js ++ (i ∷ is)) < c.config.resync_max
      → c.config.resync_max < 2 ^ 64
      → length (js ++ (i ∷ is)) < fuel
      → Returns (IsRestored fuel c p instrs (map (at_privilege v) (f.instr ∷ (js ++ (i ∷ is))))) (
          compress_trace ample e [] (map (at_privilege v) (f.instr ∷ (js ++ (i ∷ is))) ++ (x ∷ [])))
  compress_trace-IsRestored e a t f address js i is d z x fresh same synced path ends here plain
        trap room high bound =
      let executed : List TrInstr = f.instr ∷ (js ++ (i ∷ is)) in
      Returns-mono (IsReported p c.config.implicit_ret address fuel v (at_start c p s) executed)
        (IsRestored fuel c p instrs (map (at_privilege v) executed)) _
        (fresh-IsReported p read fuel c.config v (at_start c p s) a t f synced fits address e js i
          is d z x fresh same full path ends here plain trap room high bound)
        (restored address executed)
