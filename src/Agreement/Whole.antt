-- ===== src/Agreement/Whole.antt =====
-- A trace compressed, and its packets decompressed.
use mathlib.Core.Path.{subst}
use mathlib.Core.List.{map-append}
use trdb.Base.{
  Every, ℕ, suc, ◌%◌, ◌^◌, ◌<◌, ◌≡◌, refl, ap, ◌∙◌, sym, Bool, true, some, List, [], ◌∷◌, ◌++◌, map,
  length, if◌then◌else◌, arith, Returns, Returns-mono,
}
use trdb.Errors.{value}
use trdb.Trace.{TrInstr}
use trdb.Insn.{is_branch}
use trdb.Context.{Ctx, Decompress, fresh_compress}
use trdb.Compress.Step.{AddResult}
use trdb.Compress.Run.{compress_trace, ample}
use trdb.Program.{
  Program, Section, located, load_section, trdb_get_section_for_vma, Fetched, add_vma,
}
use trdb.Decompress.Course.{Cpu, behind, Course, stay, move, fork}
use trdb.Decompress.Tells.{at_sync, at_privilege}
use trdb.Decompress.Trace.{trdb_decompress_trace}
use trdb.Decompress.Whole.{at_start, dec_of, trdb_decompress_trace-TellsAll}
use trdb.Agreement.{Plain}
use trdb.Agreement.Calm.{ctx_of}
use trdb.Agreement.Fetches.{IsRead, Goes-condbranch, forks-condbranch}
use trdb.Agreement.Synced.{IsSynced, IsReported, trace_of, compress_trace-IsReported}

-- The branches of a list.
abbrev pub branches_in : List TrInstr → ℕ
branches_in [] = 0
branches_in (i ∷ is) = if is_branch i.instr then suc (branches_in is) else branches_in is

-- The packets, decompressed, give back what was compressed, but for an end with fewer than 31
-- branches.
pub record IsRecovered (fuel : ℕ) (c : Ctx) (p : Program) (instrs executed : List TrInstr)
    (r : AddResult) : Type 0 where
  pub no_error : r.status ≡ value 0
  pub told : List TrInstr
  pub left : List TrInstr
  pub whole : executed ≡ told ++ left
  pub few : branches_in left < 31
  pub dec : Decompress
  pub decompressed :
      trdb_decompress_trace fuel c p r.packet_list instrs
      ≡ some (record { status = value 0; dec = dec; instr_list = instrs ++ told })

Course-branches_in :
    (p : Program) (read : IsRead p) (implicit_ret : Bool) (v : ℕ) (c d : Cpu) (bs : List Bool)
    (is : List TrInstr)
    → Course p implicit_ret c bs is d
    → branches_in (map (at_privilege v) is) ≡ length bs
Course-branches_in p read implicit_ret v c d bs is stay = refl
Course-branches_in p read implicit_ret v c d bs is
      (move {s = s} {f = f} {r = r} {pc = pc} {bs = more} {is = js} at g rest) =
    rw (read.branches s c.pc f at.fetched, Goes-condbranch p read implicit_ret c f r pc g)
      (Course-branches_in p read implicit_ret v (behind s r pc) d more js rest)
Course-branches_in p read implicit_ret v c d bs is
      (fork {s = s} {f = f} {r = r} b {bs = more} {is = js} at e rest) =
    rw (read.branches s c.pc f at.fetched, forks-condbranch p read implicit_ret f r e)
      (ap suc (Course-branches_in p read implicit_ret v _ d more js rest))

module _ (p : Program) (read : IsRead p) (memory : p.allocated ≡ true) (c : Ctx) (fuel : ℕ)
    (instrs : List TrInstr) (s : Section)
    (start : trdb_get_section_for_vma p.sections p.start_address ≡ some s)
    (loaded : load_section p s ≡ located s) (v : ℕ) (fits : v < 2 ^ 3) where
  recovered :
      (is : List TrInstr) (r : AddResult)
      → IsReported p c.config.implicit_ret c.config.full_address fuel v (at_start c p s) is r
      → IsRecovered fuel c p instrs (map (at_privilege v) is) r
  recovered is r h =
      let t = h.telling in
      let (m, done) =
        trdb_decompress_trace-TellsAll c p fuel r.packet_list instrs (map (at_privilege v) t.told) s
          t.behind_told memory start loaded t.telling in
      record {
        no_error = h.no_error;
        told = map (at_privilege v) t.told;
        left = map (at_privilege v) t.left;
        whole =
            ap (λ l. map (at_privilege v) l) t.whole ∙ map-append (at_privilege v) t.told t.left;
        few = omega (
          arith,
          t.few,
          Course-branches_in p read c.config.implicit_ret v t.behind_told.cpu t.end t.bs t.left
              t.rest,
        );
        dec = dec_of t.behind_told m;
        decompressed = done;
      }

  -- Let the disassembler of a program call the instructions conditional branches that is_branch
  -- does, with sizes of 2 or 4, no branch going to the instruction behind it; let memory be
  -- available and the start address lie in a section that loads. From a fresh state of the
  -- compression, with the same setting of implicit returns as the decoder, a trace at one
  -- privilege below 8, shorter than the interval of resynchronisation and than the fuel, of
  -- instructions that are valid, supported, without traps and without jumps that have to be
  -- reported, which starts with an instruction that falls through and then follows a path of the
  -- program, of branches and known jumps, is compressed without an error; and
  -- trdb_decompress_trace on the packets returns 0 and appends to its list instructions that the
  -- trace begins with, exactly and in order, and the rest of the trace has fewer than 31
  -- branches.
  pub compress_trace-IsRecovered :
      (e : Ctx) (a : ℕ) (t : Section) (f : Fetched) (bs : List Bool) (is : List TrInstr) (d : Cpu)
      (last : TrInstr)
      → e.cmp ≡ fresh_compress
      → e.config.implicit_ret ≡ c.config.implicit_ret
      → IsSynced p c.config.implicit_ret (at_start c p s).cpu a t f
      → Course p c.config.implicit_ret (at_sync (at_start c p s).cpu t (add_vma a f.size)) bs is d
      → last.iaddr ≡ d.pc % 2 ^ 32
      → Every (Plain c.config.implicit_ret v) (trace_of v (f.instr ∷ is) last)
      → length is < e.config.resync_max
      → e.config.resync_max < 2 ^ 64
      → length is < fuel
      → Returns
          (IsRecovered fuel c p instrs (map (at_privilege v) (f.instr ∷ is)))
          (compress_trace ample e [] (trace_of v (f.instr ∷ is) last))
  compress_trace-IsRecovered e a t f bs is d last fresh same synced course there plain room high
        bound =
      let k = at_start c p s in
      let ir = c.config.implicit_ret in
      let reported =
        compress_trace-IsReported p read c.config.full_address fuel e.config e.dec v k a t f
          (subst (λ x. IsSynced p x k.cpu a t f) (sym same) synced) fits e.stats bs is d last
          (subst (λ x. Course p x (at_sync k.cpu t (add_vma a f.size)) bs is d) (sym same) course)
          there (subst (λ x. Every (Plain x v) (trace_of v (f.instr ∷ is) last)) (sym same) plain)
          room high bound in
      let moved =
        subst
          (λ x. Returns (IsReported p x c.config.full_address fuel v k (f.instr ∷ is)) (
            compress_trace ample (ctx_of e.config e.dec e.stats fresh_compress) []
              (trace_of v (f.instr ∷ is) last)))
          same reported in
      Returns-mono (IsReported p ir c.config.full_address fuel v k (f.instr ∷ is))
        (IsRecovered fuel c p instrs (map (at_privilege v) (f.instr ∷ is))) _
        (subst
          (λ x. Returns (IsReported p ir c.config.full_address fuel v k (f.instr ∷ is)) (
            compress_trace ample (ctx_of e.config e.dec e.stats x) []
              (trace_of v (f.instr ∷ is) last)))
          (sym fresh) moved)
        (recovered (f.instr ∷ is))
