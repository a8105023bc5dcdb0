-- ===== src/Agreement/Reports.antt =====
-- The packets of a whole trace that is predictable and ends with a trap.
use mathlib.Core.List.{append_assoc}
use trdb.Base.{
  Every, and_rest, ℕ, suc, ◌+◌, ◌^◌, ◌<◌, ◌≡◌, refl, sym, ap, ◌∙◌, inl, inr, Bool, true, false, not,
  ◌==◌, List, [], ◌∷◌, ◌++◌, length, arith, Returns, Returns-value, Bool-cases, if◌then◌else◌,
}
use trdb.Trace.{TrInstr, TrPacket, IsInstr, zero_packet}
use trdb.Insn.{is_branch, is_unsupported}
use trdb.Context.{Config, Decompress, Stats, fresh_compress}
use trdb.Compress.Emit.{emit_start_packet}
use trdb.Compress.Step.{count_instr, trdb_compress_trace_step}
use trdb.Compress.Run.{compress_trace, ample}
use trdb.Agreement.{Plain, outcome, full_packet, running}
use trdb.Agreement.Calm.{ctx_of, blank, step-open, step-full}
use trdb.Agreement.Start.{step-first, step-second}
use trdb.Agreement.Traces.{
  IsEmitted, IsEmitted-along, outcome-few, compress_trace-quiet, compress_trace-loud,
}
use trdb.Agreement.Trap.{flush_packet, Traps, Gives, step-trap}

-- The packets for an instruction that is known, with branches that are pending, the instructions
-- behind it, and a trap.
unfoldable pub reports : Config → List Bool → TrInstr → List TrInstr → List TrPacket
reports config bs i [] = flush_packet bs i ∷ []
reports config bs i (j ∷ rest) =
    let pending = bs ++ outcome i j in
    let closed = reports config [] j rest in
    let open_map = reports config pending j rest in
    if length pending == 31 then full_packet config pending ∷ closed else open_map

-- The last instruction.
abbrev pub last_of : TrInstr → List TrInstr → TrInstr
last_of i [] = i
last_of i (j ∷ rest) = last_of j rest

module _ (config : Config) (bs : List Bool) (i j : TrInstr) (rest : List TrInstr) where
  pub reports-full :
      (length (bs ++ outcome i j) == 31) ≡ true
      → reports config bs i (j ∷ rest)
        ≡ full_packet config (bs ++ outcome i j) ∷ reports config [] j rest
  unfolding reports
  reports-full e = rw e refl

  pub reports-open :
      (length (bs ++ outcome i j) == 31) ≡ false
      → reports config bs i (j ∷ rest) ≡ reports config (bs ++ outcome i j) j rest
  unfolding reports
  reports-open e = rw e refl

module _ (config : Config) (dec : Decompress) (v : ℕ) (high : config.resync_max < 2 ^ 64)
    (full_address : config.full_address ≡ true) (x : TrInstr) (trap : Traps x) where
  trap-IsEmitted :
      (stats : Stats) (ps : List TrPacket) (change : Bool) (a i : TrInstr) (bs : List Bool)
      (n last : ℕ)
      → is_unsupported i.instr ≡ false
      → is_branch i.instr ≡ false
      → i.iaddr < 2 ^ 32
      → length bs < 31
      → n < config.resync_max
      → Returns (IsEmitted (ps ++ (flush_packet bs i ∷ []))) (
          compress_trace ample
            (ctx_of config dec stats (running v change a i bs n last))
            ps
            (x ∷ []))
  trap-IsEmitted stats ps change a i bs n last ok other fits few room =
      let (r, stepped, g) =
        Returns-value (Gives (flush_packet bs i))
          (trdb_compress_trace_step (ctx_of config dec stats (running v change a i bs n last))
            zero_packet x)
          (step-trap config dec stats zero_packet v n last room high full_address change a i x ok
            other fits bs few trap) in
      IsEmitted-along _ _ _ _ (ap (λ q. ps ++ (q ∷ [])) (sym g.packet))
        (compress_trace-loud _ ps x [] r stepped g.loud)
        (unfold compress_trace in record { no_error = refl; emitted = refl })

  running-IsEmitted :
      (stats : Stats) (ps : List TrPacket) (change : Bool) (a i : TrInstr) (bs : List Bool)
      (n last : ℕ) (rest : List TrInstr)
      → is_unsupported i.instr ≡ false
      → length bs < 31
      → Every (Plain config.implicit_ret v) rest
      → is_branch (last_of i rest).instr ≡ false
      → (last_of i rest).iaddr < 2 ^ 32
      → n + length rest < config.resync_max
      → Returns (IsEmitted (ps ++ reports config bs i rest)) (
          compress_trace ample
            (ctx_of config dec stats (running v change a i bs n last))
            ps
            (rest ++ (x ∷ [])))
  unfolding reports
  running-IsEmitted stats ps change a i bs n last [] ok few plain other fits room =
      trap-IsEmitted stats ps change a i bs n last ok other fits few (omega arith)
  running-IsEmitted stats ps change a i bs n last (j ∷ rest) ok few (and_rest h plain) other fits
        room =
      elim (Bool-cases (length (bs ++ outcome i j) == 31)) [
        | inl full ↦
            let (stats', stepped) =
              step-full config dec stats zero_packet v n last (omega arith) high change a i j ok bs
                few h (ground arith) in
            IsEmitted-along _ _ _ _
              (ap (λ qs. ps ++ qs) (reports-full config bs i j rest full)
                ∙ sym (
                    append_assoc ps (full_packet config (bs ++ outcome i j) ∷ [])
                      (reports config [] j rest)))
              (compress_trace-loud _ ps j (rest ++ (x ∷ [])) _ stepped refl)
              (running-IsEmitted stats' (ps ++ (full_packet config (bs ++ outcome i j) ∷ [])) false
                i j [] (n + 1) last rest h.supported (omega arith) plain other fits (omega arith))
        | inr open_map ↦
            IsEmitted-along _ _ _ _ (ap (λ qs. ps ++ qs) (reports-open config bs i j rest open_map))
              (compress_trace-quiet _ ps j (rest ++ (x ∷ [])) _
                (step-open config dec stats zero_packet v n last (omega arith) high change a i j ok
                  bs few h open_map)
                refl)
              (running-IsEmitted (count_instr j stats) ps false i j (bs ++ outcome i j) (n + 1) last
                rest h.supported (ground (arith, outcome-few bs i j few)) plain other fits
                (omega arith))
      ]

  -- A start, the full maps, and a flush.
  pub compress_trace-reports :
      (stats : Stats) (i j : TrInstr) (rest : List TrInstr)
      → IsInstr i
      → is_branch i.instr ≡ false
      → Every (Plain config.implicit_ret v) (i ∷ j ∷ rest)
      → is_branch (last_of j rest).instr ≡ false
      → (last_of j rest).iaddr < 2 ^ 32
      → suc (length rest) < config.resync_max
      → Returns (IsEmitted (emit_start_packet blank i j ∷ reports config [] j rest)) (
          compress_trace ample
            (ctx_of config dec stats fresh_compress)
            []
            (i ∷ j ∷ (rest ++ (x ∷ []))))
  compress_trace-reports stats i j rest fits other (and_rest h (and_rest k plain)) plain_last
        fits_last room =
      let (stats', stepped) =
        step-second config dec stats zero_packet v (omega arith) high i j fits other h.supported
          k in
      IsEmitted-along _ _ _ _ refl
        (compress_trace-quiet _ [] i (j ∷ (rest ++ (x ∷ []))) _
            (step-first config dec stats zero_packet v (omega arith) high i h) refl
          ∙ compress_trace-loud _ [] j (rest ++ (x ∷ [])) _ stepped refl)
        (running-IsEmitted stats' (emit_start_packet blank i j ∷ []) (not (7 == v)) i j [] 1 i.iaddr
          rest k.supported (omega arith) plain plain_last fits_last (omega arith))
