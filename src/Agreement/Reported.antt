-- ===== src/Agreement/Reported.antt =====
-- A trace that ends with a trap: its packets tell all that was executed.
use mathlib.Core.Path.{subst}
use mathlib.Core.List.{cons-ne-nil}
use trdb.Base.{
  none_left, and_rest, Every, ℕ, ◌^◌, ◌<◌, ◌≡◌, refl, ap, ◌∙◌, sym, Bool, true, false, List, [],
  ◌∷◌, ◌++◌, map, length, length-map, arith, Returns, Returns-mono,
}
use trdb.Errors.{value}
use trdb.Trace.{TrInstr, zero_instr}
use trdb.Insn.{is_branch}
use trdb.Context.{Ctx, Config, Decompress, Stats, default_config, fresh_compress}
use trdb.Compress.Emit.{emit_start_packet}
use trdb.Compress.Step.{AddResult}
use trdb.Compress.Run.{compress_trace, ample}
use trdb.Program.{Program, Section, Fetched, add_vma}
use trdb.Decompress.Course.{Cpu, behind, Ends, leap, arrive, further}
use trdb.Decompress.Tells.{Known, at_sync, at_privilege}
use trdb.Agreement.{Plain}
use trdb.Agreement.Calm.{ctx_of, blank}
use trdb.Agreement.Traces.{IsEmitted}
use trdb.Agreement.Trap.{Traps}
use trdb.Agreement.Reports.{last_of, compress_trace-reports}
use trdb.Agreement.Fetches.{IsRead, disassemble_at_pc-IsFetched, Goes-condbranch, leaps-condbranch}
use trdb.Agreement.Told.{known}
use trdb.Agreement.Synced.{IsSynced, start_packet-Tells, first-IsInstr, first_no_branch}
use trdb.Agreement.Straight.{reports_of, Starts, Ends-Starts}
use trdb.Agreement.Complete.{Branched, none_pending, IsWhole, IsWhole-next}
use trdb.Agreement.Kept.{IsKept, start_packet-IsKept, reports-IsKept}
use trdb.Agreement.Ended.{Branched-Starts, reports-IsWhole}

-- The last instruction of a list at a privilege.
abbrev pub last_in : ℕ → List TrInstr → TrInstr
last_in v [] = zero_instr
last_in v (i ∷ is) = last_of (at_privilege v i) (map (at_privilege v) is)

abbrev first_in : List TrInstr → TrInstr
first_in [] = zero_instr
first_in (i ∷ is) = i

last_in-append :
    (v : ℕ) (is : List TrInstr) (k : TrInstr) (ks : List TrInstr)
    → last_in v (is ++ (k ∷ ks)) ≡ last_in v (k ∷ ks)
last_in-append v [] k ks = refl
last_in-append v (i ∷ []) k ks = refl
last_in-append v (i ∷ j ∷ is) k ks = last_in-append v (j ∷ is) k ks

-- The end of a path is no branch, and its address fits.
record IsEnd (i : TrInstr) : Type 0 where
  no_branch : is_branch i.instr ≡ false
  short : i.iaddr < 2 ^ 32

module _ (p : Program) (read : IsRead p) (implicit_ret : Bool) (address v : ℕ) where
  Ends-IsEnd :
      (c e : Cpu) (i : TrInstr) (is : List TrInstr)
      → Ends p implicit_ret address c (i ∷ is) e
      → IsEnd (last_in v (i ∷ is))
  Ends-IsEnd c e i is (leap {s = s} {f = f} {r = r} at k) =
      let g = disassemble_at_pc-IsFetched p s c.pc f at.fetched in
      record {
        no_branch = read.branches s c.pc f at.fetched ∙ leaps-condbranch p read implicit_ret f r k;
        short = omega (arith, g.fits);
      }
  Ends-IsEnd c e i is (arrive {s = s} {f = f} {r = r} {pc = pc} here at g) =
      let h = disassemble_at_pc-IsFetched p s c.pc f at.fetched in
      record {
        no_branch =
            read.branches s c.pc f at.fetched ∙ Goes-condbranch p read implicit_ret c f r pc g;
        short = omega (arith, h.fits);
      }
  Ends-IsEnd c e i [] (further {s = s} {r = r} {pc = pc} other at g rest) = absurd (
      cons-ne-nil _ _ (
        sym
          (Ends-Starts p read implicit_ret default_config v address (behind s r pc) e []
            rest).shape))
  Ends-IsEnd c e i (k ∷ ks) (further {s = s} {r = r} {pc = pc} other at g rest) =
      Ends-IsEnd (behind s r pc) e k ks rest

-- The compression ends without an error, and its packets tell all instructions.
pub record IsReported (p : Program) (implicit_ret : Bool) (address most v : ℕ) (k : Known)
    (is : List TrInstr) (r : AddResult) : Type 0 where
  pub no_error : r.status ≡ value 0
  pub telling : IsWhole p implicit_ret address most v k r.packet_list is
  pub kept : Every IsKept r.packet_list

module _ (p : Program) (read : IsRead p) (most : ℕ) (config : Config) (dec : Decompress)
    (stats : Stats) (v : ℕ) (k : Known) (a : ℕ) (t : Section) (f : Fetched)
    (synced : IsSynced p config.implicit_ret k.cpu a t f) (fits : v < 2 ^ 3) (address : ℕ) where
  abbrev after_sync : Cpu
  after_sync = at_sync k.cpu t (add_vma a f.size)

  all-IsEmitted :
      (x first : TrInstr) (others all : List TrInstr)
      → all ≡ first ∷ others
      → config.full_address ≡ true
      → Traps x
      → config.resync_max < 2 ^ 64
      → Every (Plain config.implicit_ret v) (map (at_privilege v) (f.instr ∷ all))
      → is_branch (last_in v all).instr ≡ false
      → (last_in v all).iaddr < 2 ^ 32
      → length all < config.resync_max
      → Returns
          (IsEmitted (
            emit_start_packet blank (at_privilege v f.instr) (at_privilege v first)
            ∷ reports_of config v [] all))
          (compress_trace ample
            (ctx_of config dec stats fresh_compress)
            []
            (map (at_privilege v) (f.instr ∷ all) ++ (x ∷ [])))
  all-IsEmitted x first others [] shape full trap high plain no_branch short room =
      absurd (cons-ne-nil first others (sym shape))
  all-IsEmitted x first others (j ∷ rest) shape full trap high plain no_branch short room =
      subst
        (λ n.
          Returns
            (IsEmitted (
              emit_start_packet blank (at_privilege v f.instr) (at_privilege v n)
              ∷ reports_of config v [] (j ∷ rest)))
            (compress_trace ample (ctx_of config dec stats fresh_compress) []
              (map (at_privilege v) (f.instr ∷ j ∷ rest) ++ (x ∷ []))))
        (ap first_in shape)
        (compress_trace-reports config dec v high full x trap stats (at_privilege v f.instr)
          (at_privilege v j) (map (at_privilege v) rest)
          (first-IsInstr p read true most config dec v k a t f synced fits)
          (first_no_branch p read true most config dec v k a t f synced fits) plain no_branch short
          (omega (arith, room, length-map (at_privilege v) rest)))

  reports_of-IsKept : (is : List TrInstr) → Every IsKept (reports_of config v [] is)
  reports_of-IsKept [] = none_left
  reports_of-IsKept (i ∷ is) =
      reports-IsKept config [] (at_privilege v i) (map (at_privilege v) is) (omega arith)

  compress_trace-IsReported :
      (js : List TrInstr) (i : TrInstr) (is : List TrInstr) (d z : Cpu) (x : TrInstr)
      → config.full_address ≡ true
      → Branched p config.implicit_ret address after_sync js d
      → Ends p config.implicit_ret address d (i ∷ is) z
      → (last_in v (i ∷ is)).iaddr ≡ address
      → Every (Plain config.implicit_ret v) (map (at_privilege v) (f.instr ∷ (js ++ (i ∷ is))))
      → Traps x
      → length (js ++ (i ∷ is)) < config.resync_max
      → config.resync_max < 2 ^ 64
      → length (js ++ (i ∷ is)) < most
      → Returns (IsReported p config.implicit_ret address most v k (f.instr ∷ (js ++ (i ∷ is)))) (
          compress_trace ample
            (ctx_of config dec stats fresh_compress)
            []
            (map (at_privilege v) (f.instr ∷ (js ++ (i ∷ is))) ++ (x ∷ [])))
  compress_trace-IsReported js i is d z x full path ends here plain trap room high bound =
      let ir = config.implicit_ret in
      let all : List TrInstr = js ++ (i ∷ is) in
      let begins : Starts after_sync.pc all =
        Branched-Starts p read ir address most v config after_sync d js (i ∷ is) path
          (Ends-Starts p read ir config v address d z (i ∷ is) ends) in
      let told =
        IsWhole-next p ir address most v k (known v a after_sync) _ _ (f.instr ∷ []) all refl
          (start_packet-Tells p ir true v k a t f (at_privilege v begins.first) synced)
          (omega arith)
          (reports-IsWhole p read ir address most v config a after_sync after_sync d z [] [] js i is
            none_pending (omega arith) path ends here (omega arith)) in
      let end = Ends-IsEnd p read ir address v d z i is ends in
      let same : last_in v all ≡ last_in v (i ∷ is) = last_in-append v js i is in
      let emitted =
        all-IsEmitted x begins.first begins.others all begins.shape full trap high plain
          (rw same end.no_branch) (rw same end.short) room in
      Returns-mono _ (IsReported p ir address most v k (f.instr ∷ all)) _ emitted λ r e. record {
        no_error = e.no_error;
        telling = subst (λ q. IsWhole p ir address most v k q (f.instr ∷ all)) (sym e.emitted) told;
        kept = subst (Every IsKept) (sym e.emitted) (
            and_rest (start_packet-IsKept (at_privilege v f.instr) (at_privilege v begins.first))
              (reports_of-IsKept all));
      }

module _ (p : Program) (read : IsRead p) (most : ℕ) (config : Config) (v : ℕ) (k : Known) (a : ℕ)
    (t : Section) (f : Fetched) (synced : IsSynced p config.implicit_ret k.cpu a t f)
    (fits : v < 2 ^ 3) (address : ℕ) where
  pub fresh-IsReported :
      (e : Ctx) (js : List TrInstr) (i : TrInstr) (is : List TrInstr) (d z : Cpu) (x : TrInstr)
      → e.cmp ≡ fresh_compress
      → e.config ≡ config
      → config.full_address ≡ true
      → Branched p config.implicit_ret address (at_sync k.cpu t (add_vma a f.size)) js d
      → Ends p config.implicit_ret address d (i ∷ is) z
      → (last_in v (i ∷ is)).iaddr ≡ address
      → Every (Plain config.implicit_ret v) (map (at_privilege v) (f.instr ∷ (js ++ (i ∷ is))))
      → Traps x
      → length (js ++ (i ∷ is)) < config.resync_max
      → config.resync_max < 2 ^ 64
      → length (js ++ (i ∷ is)) < most
      → Returns (IsReported p config.implicit_ret address most v k (f.instr ∷ (js ++ (i ∷ is)))) (
          compress_trace ample e [] (map (at_privilege v) (f.instr ∷ (js ++ (i ∷ is))) ++ (x ∷ [])))
  fresh-IsReported e js i is d z x fresh same full path ends here plain trap room high bound =
      let executed : List TrInstr = f.instr ∷ (js ++ (i ∷ is)) in
      let reported =
        compress_trace-IsReported p read most config e.dec e.stats v k a t f synced fits address js
          i is d z x full path ends here plain trap room high bound in
      subst
        (λ y. Returns (IsReported p config.implicit_ret address most v k executed) (
          compress_trace ample (ctx_of e.config e.dec e.stats y) []
            (map (at_privilege v) executed ++ (x ∷ []))))
        (sym fresh)
        (subst
          (λ y. Returns (IsReported p config.implicit_ret address most v k executed) (
            compress_trace ample (ctx_of y e.dec e.stats fresh_compress) []
              (map (at_privilege v) executed ++ (x ∷ []))))
          (sym same) reported)
