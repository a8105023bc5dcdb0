-- ===== src/Agreement/Trap.antt =====
-- A predictable trace that ends with a trap: what the encoder reports.
use native.Mathlib.Nat.{pow-le-pow_right}
use mathlib.Core.Path.{subst}
use trdb.Base.{
  ℕ, suc, ◌+◌, ◌%◌, ◌^◌, ◌<◌, ◌≡◌, refl, sym, ap, ◌∙◌, Bool, true, false, not, ◌==◌, List, [], ◌∷◌,
  ◌++◌, length, done, arith, Returns, Returns-bind,
}
use trdb.Errors.{value}
use trdb.Trace.{TrInstr, TrPacket, IsPacket, zero_packet, trace, branch_full, addr_only}
use trdb.Insn.{is_branch, is_unsupported, is_unpred_discontinuity}
use trdb.BranchLen.{map_width, branch_map_len_fits}
use trdb.Context.{Config, Compress, Decompress, Stats, Ctx}
use trdb.Compress.Emit.{emit_branch_map_flush_packet, flush_address, flush_full_address}
use trdb.Compress.Step.{
  record_branch, enter, reason, flush, choose, finish, count_packet, count_instr, compress_entered,
  trdb_compress_trace_step, StepResult, Chosen,
}
use trdb.Compress.Safety.{count_packet_total}
use trdb.Decompress.Course.{bits_of}
use trdb.Decompress.Segments.{map_at}
use trdb.Agreement.{calm, filter_at, running}
use trdb.Agreement.Bits.{bits_of-lt}
use trdb.Agreement.Calm.{
  ctx_of, blank, chain_of, count_resync-filter_at, compress_entered-qualified,
  compress_qualified-chain,
}

-- The packet of a flush at an instruction: its address with the outcomes before it, or alone.
abbrev pub branches_packet : List Bool → TrInstr → TrPacket
branches_packet bs i = record zero_packet {
  msg_type = trace;
  format = branch_full;
  branches = length bs % 2 ^ 5;
  branch_map = bits_of bs;
  address = i.iaddr;
  length = (2 + 5 + map_width (length bs) + 32) % 2 ^ 7;
}

abbrev pub flush_packet : List Bool → TrInstr → TrPacket
flush_packet [] i = record zero_packet {
  msg_type = trace;
  format = addr_only;
  address = i.iaddr;
  length = 34;
}
flush_packet (b ∷ bs) i = branches_packet (b ∷ bs) i

pub flush_packet-append :
    (bs : List Bool) (b : Bool) (i : TrInstr)
    → flush_packet (bs ++ (b ∷ [])) i ≡ branches_packet (bs ++ (b ∷ [])) i
flush_packet-append [] b i = refl
flush_packet-append (a ∷ bs) b i = refl

module _ (config : Config) (stats : Stats) (i : TrInstr) (last : ℕ) where
  flush_address-packet :
      Returns
        (λ r. r.packet ≡ flush_packet [] i)
        (flush_address config blank (map_at false []) stats i last true)
  unfolding flush_address bits_of
  flush_address-packet = refl

  flush_full_address-packet :
      (b : Bool) (bs : List Bool)
      → length (b ∷ bs) < 31
      → Returns
          (λ r. r.packet ≡ flush_packet (b ∷ bs) i)
          (flush_full_address blank (map_at false (b ∷ bs)) stats i false)
  unfolding flush_full_address
  flush_full_address-packet b bs few =
      rw ((branch_map_len_fits (suc (length bs)) (omega arith)).0, flush_full_address) refl

  emit-flush_packet :
      (bs : List Bool)
      → length bs < 31
      → Returns
          (λ r. r.packet ≡ flush_packet bs i)
          (emit_branch_map_flush_packet config blank (map_at false bs) stats i last true false)
  unfolding emit_branch_map_flush_packet
  emit-flush_packet [] few = flush_address-packet
  emit-flush_packet (b ∷ bs) few = ground (arith, flush_full_address-packet b bs few)

  flush_packet-IsPacket :
      (bs : List Bool) → length bs < 31 → i.iaddr < 2 ^ 32 → IsPacket (flush_packet bs i)
  flush_packet-IsPacket [] few fits = ground arith
  flush_packet-IsPacket (b ∷ bs) few fits = ground (
    arith,
    bits_of-lt (b ∷ bs),
    pow-le-pow_right {n = 2} (omega arith) {i = length (b ∷ bs)} {j = 31} (omega arith),
  )

-- An instruction that traps.
pub record Traps (j : TrInstr) : Type 0 where
  pub valid : j.valid ≡ true
  pub exception : j.exception ≡ true

-- The call returns this packet.
pub record Gives (q : TrPacket) (r : StepResult) : Type 0 where
  pub loud : r.status ≡ value 1
  pub packet : r.packet ≡ q

module _ (config : Config) (dec : Decompress) (stats : Stats) (memory : TrPacket) (v n last : ℕ)
    (low : n < config.resync_max) (high : config.resync_max < 2 ^ 64)
    (full : config.full_address ≡ true) (change : Bool) (a i j : TrInstr)
    (supported : is_unsupported i.instr ≡ false) (other : is_branch i.instr ≡ false)
    (fits : i.iaddr < 2 ^ 32) (bs : List Bool) (few : length bs < 31) (h : Traps j) where
  abbrev here : Ctx
  here = ctx_of config dec stats (running v change a i bs n last)

  -- The state with the instruction that traps.
  abbrev trapping : Compress
  trapping = record (running v change a i bs n last) {
    nextc = record (calm v false j) {
      exception = true;
      unpred_disc = is_unpred_discontinuity j.instr config.implicit_ret;
      privilege = j.priv;
      privilege_change = not (v == j.priv);
    };
  }

  enter-trapping : enter config (running v change a i bs n last) j ≡ trapping
  unfolding enter
  enter-trapping = rw h.exception refl

  abbrev chain : Compress
  chain = record trapping { filter = filter_at (n + 1) }

  unchanged_map : record_branch (map_at false bs) i j ≡ done (map_at false bs)
  unfolding record_branch
  unchanged_map = rw (other, record_branch) refl

  choose-flushed :
      Returns
        (λ r. (r.status ≡ value 1) × (r.packet ≡ flush_packet bs i))
        (choose config chain stats blank (reason config chain))
  unfolding reason choose flush
  choose-flushed =
      Returns-bind (λ r. r.packet ≡ flush_packet bs i)
        (λ r. (r.status ≡ value 1) × (r.packet ≡ flush_packet bs i))
        (emit_branch_map_flush_packet config blank (map_at false bs) stats i last
          config.full_address false)
        _ (rw full (emit-flush_packet config stats i last bs few)) λ r e. (refl, e)

  finish-Gives :
      (r : Chosen)
      → (r.status ≡ value 1) × (r.packet ≡ flush_packet bs i)
      → Returns (Gives (flush_packet bs i)) (finish here j r)
  unfolding finish
  finish-Gives r (e, k) =
      rw (e, finish)
        (Returns-bind (λ t. t.sext_bits ≡ r.stats.sext_bits) (Gives (flush_packet bs i))
          (count_packet here r.packet (count_instr j r.stats)) _
          (count_packet_total here r.packet (count_instr j r.stats)
            (subst IsPacket (sym k) (flush_packet-IsPacket config stats i last bs few fits)))
          λ t _. record { loud = refl; packet = k })

  pub step-trap : Returns (Gives (flush_packet bs i)) (trdb_compress_trace_step here memory j)
  unfolding trdb_compress_trace_step
  step-trap =
      subst (Returns (Gives (flush_packet bs i)))
        (sym (
          ap (λ c. compress_entered here c j memory) enter-trapping
          ∙ compress_entered-qualified here trapping j memory h.valid refl
          ∙ compress_qualified-chain here trapping j memory (map_at false bs) supported
              unchanged_map
          ∙ ap (λ f. chain_of here here.cmp (record trapping { filter = f }) j)
              (count_resync-filter_at config n low high)))
        (Returns-bind (λ r. (r.status ≡ value 1) × (r.packet ≡ flush_packet bs i))
          (Gives (flush_packet bs i)) (choose config chain stats blank (reason config chain))
          (finish here j) choose-flushed finish-Gives)
