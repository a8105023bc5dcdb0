-- ===== src/Agreement/Synced.antt =====
-- A trace that starts with a synchronisation: its packets tell the path that was executed.
use mathlib.Core.Path.{subst}
use trdb.Base.{
  Every, ℕ, ◌%◌, ◌^◌, ◌<◌, ◌≡◌, refl, ◌∙◌, sym, Bool, false, some, List, [], ◌∷◌, ◌++◌, map, length,
  arith, Returns, Returns-mono,
}
use trdb.Errors.{value}
use trdb.Trace.{TrInstr, IsInstr}
use trdb.Insn.{is_branch}
use trdb.Context.{Config, Decompress, Stats, fresh_compress}
use trdb.Compress.Emit.{emit_start_packet}
use trdb.Compress.Step.{AddResult}
use trdb.Compress.Run.{compress_trace, ample}
use trdb.Program.{Program, Section, located, switch_section, Fetched, disassemble_at_pc, add_vma}
use trdb.Decompress.Course.{Cpu, effect, falls, by_falling, Course, stay}
use trdb.Decompress.Tells.{Known, at_sync, at_privilege, Tells, by_sync}
use trdb.Agreement.{Plain}
use trdb.Agreement.Calm.{ctx_of, blank}
use trdb.Agreement.Traces.{compress_trace-start}
use trdb.Agreement.Fetches.{IsRead, disassemble_at_pc-IsFetched, Goes-condbranch}
use trdb.Agreement.Paths.{first_of, rest_of, first_rest_lem, length-rest_of}
use trdb.Agreement.Told.{known, IsTold, IsTold-along, IsTold-next, full_maps-IsTold}

-- The first instruction of a trace is f, at the address a, and falls through; the decoder gets
-- there from its processor c.
pub record IsSynced (p : Program) (implicit_ret : Bool) (c : Cpu) (a : ℕ) (t : Section)
    (f : Fetched) : Type 0 where
  pub first : Section
  pub found : switch_section p c.section c.pc ≡ located first
  pub there : switch_section p first a ≡ located t
  pub fetched : disassemble_at_pc p t a ≡ some f
  pub falling :
      effect p implicit_ret f (record { status = value 0; stack = c.stack; ret_addr = 0 }) ≡ falls
  pub short : a < 2 ^ 32

synced_iaddr :
    (p : Program) (implicit_ret : Bool) (c : Cpu) (a : ℕ) (t : Section) (f : Fetched)
    → IsSynced p implicit_ret c a t f
    → f.instr.iaddr ≡ a
synced_iaddr p implicit_ret c a t f h =
    let g = disassemble_at_pc-IsFetched p t a f h.fetched in omega (arith, g.iaddr, h.short)

pub start_packet-Tells :
    (p : Program) (implicit_ret full_address : Bool) (v : ℕ) (k : Known) (a : ℕ) (t : Section)
    (f : Fetched) (j : TrInstr)
    → IsSynced p implicit_ret k.cpu a t f
    → Tells p implicit_ret full_address k
        (emit_start_packet blank (at_privilege v f.instr) j)
        (f.instr ∷ [])
        (known v a (at_sync k.cpu t (add_vma a f.size)))
unfolding emit_start_packet
start_packet-Tells p implicit_ret full_address v k a t f j h =
    let e = synced_iaddr p implicit_ret k.cpu a t f h in
    subst
      (λ x.
        Tells p implicit_ret full_address k (emit_start_packet blank (at_privilege v f.instr) j)
          (f.instr ∷ []) (known v x (at_sync k.cpu t (add_vma x f.size))))
      e
      (by_sync refl refl h.found
        (subst (λ x. switch_section p h.first x ≡ located t) (sym e) h.there)
        (subst (λ x. disassemble_at_pc p t x ≡ some f) (sym e) h.fetched) refl h.falling)

-- The compression returns without an error, and its packets tell the path but for an end.
pub record IsReported (p : Program) (implicit_ret full_address : Bool) (most v : ℕ) (k : Known)
    (is : List TrInstr) (r : AddResult) : Type 0 where
  pub no_error : r.status ≡ value 0
  pub telling : IsTold p implicit_ret full_address most v k r.packet_list is

-- The instructions of a path at a privilege, and the one that is executed next.
abbrev pub trace_of : ℕ → List TrInstr → TrInstr → List TrInstr
trace_of v is last = map (at_privilege v) is ++ (last ∷ [])

module _ (p : Program) (read : IsRead p) (full_address : Bool) (most : ℕ) (config : Config)
    (dec : Decompress) (v : ℕ) (k : Known) (a : ℕ) (t : Section) (f : Fetched)
    (synced : IsSynced p config.implicit_ret k.cpu a t f) (fits : v < 2 ^ 3) where
  abbrev after_sync : Cpu
  after_sync = at_sync k.cpu t (add_vma a f.size)

  pub first-IsInstr : IsInstr (at_privilege v f.instr)
  first-IsInstr =
      let g = disassemble_at_pc-IsFetched p t a f synced.fetched in ground (arith, g.fits)

  pub first_no_branch : is_branch f.instr.instr ≡ false
  first_no_branch =
      read.branches t a f synced.fetched
      ∙ Goes-condbranch p read config.implicit_ret k.cpu f _ _ (by_falling synced.falling refl)

  -- The packets that the compression returns tell the trace but for an end with fewer than 31
  -- branches.
  pub compress_trace-IsReported :
      (stats : Stats) (bs : List Bool) (is : List TrInstr) (d : Cpu) (last : TrInstr)
      → Course p config.implicit_ret after_sync bs is d
      → last.iaddr ≡ d.pc % 2 ^ 32
      → Every (Plain config.implicit_ret v) (trace_of v (f.instr ∷ is) last)
      → length is < config.resync_max
      → config.resync_max < 2 ^ 64
      → length is < most
      → Returns (IsReported p config.implicit_ret full_address most v k (f.instr ∷ is)) (
          compress_trace ample
            (ctx_of config dec stats fresh_compress)
            []
            (trace_of v (f.instr ∷ is) last))
  compress_trace-IsReported stats bs is d last course there plain room high bound =
      let shape = first_rest_lem v is last in
      let told =
        IsTold-next p config.implicit_ret full_address most v k after_sync a _ _ (f.instr ∷ []) is
          (start_packet-Tells p config.implicit_ret full_address v k a t f (first_of v is last)
            synced)
          (omega arith)
          (full_maps-IsTold p read config.implicit_ret full_address most config v a after_sync
            after_sync d [] bs [] is last stay (omega arith) course there (omega arith)) in
      let emitted =
        compress_trace-start config dec v high stats (at_privilege v f.instr) (first_of v is last)
          (rest_of v is last) first-IsInstr first_no_branch
          (subst (λ l. Every (Plain config.implicit_ret v) (at_privilege v f.instr ∷ l)) shape
            plain)
          (omega (arith, length-rest_of v is last)) in
      subst
        (λ l. Returns (IsReported p config.implicit_ret full_address most v k (f.instr ∷ is)) (
          compress_trace ample (ctx_of config dec stats fresh_compress) []
            (at_privilege v f.instr ∷ l)))
        (sym shape)
        (Returns-mono _ (IsReported p config.implicit_ret full_address most v k (f.instr ∷ is)) _
          emitted
          λ r e. record {
            no_error = e.no_error;
            telling =
                IsTold-along p config.implicit_ret full_address most v k _ _ _ _ e.emitted refl
                  told;
          })
