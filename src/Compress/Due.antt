-- ===== src/Compress/Due.antt =====
-- The chain of tests when a resynchronisation is due.
use trdb.Base.{◌≡◌, refl, ◌⊎◌, inl, inr, Bool, true, false, ◌==◌, Returns, Returns-bind, arith}
use trdb.Errors.{value}
use trdb.Trace.{TrPacket, IsPacket, sync}
use trdb.Context.{Config, Compress, Stats, Filter}
use trdb.Compress.Emit.{emit_start_packet, emit_exception_packet, emit_branch_map_flush_packet}
use trdb.Compress.Step.{
  count_resync, Reason, trapped, vector_table, started, jumped, resynced, flushed, map_full,
  context_changed, nothing, reason, Chosen, flush, choose,
}
use trdb.Compress.Invariant.{IsSettled, emit_branch_map_flush_packet-IsSettled}
use trdb.Compress.Safety.{IsCounted}

-- The filter has a resynchronisation pending, or its count is at the limit.
abbrev pub IsDue : Config → Filter → Type 0
IsDue config f = (f.resync_pend ≡ true) ⊎ (f.resync_cnt ≡ config.resync_max)

pub count_resync-pend :
    (config : Config) (f : Filter) → IsDue config f → (count_resync config f).resync_pend ≡ true
unfolding count_resync
count_resync-pend config f (inl e) = ground arith
count_resync-pend config f (inr e) = ground arith

-- What a call on a pending resynchronisation leaves: a synchronisation that ends it, or a flush.
pub record Serves (cmp : Compress) (r : Chosen) : Type 0 where
  pub loud : r.status ≡ value 1
  pub outcome :
      ((r.packet.format ≡ sync) × (r.cmp.filter.resync_pend ≡ false))
      ⊎ ((r.cmp.filter.resync_pend ≡ true) × ((cmp.branch_map.cnt == 0) ≡ false))
  pub next_kept : r.cmp.nextc ≡ cmp.nextc

module _ (config : Config) (cmp : Compress) (s : Stats) (p : TrPacket) (ok : IsCounted cmp s)
    (blank : IsPacket p) (pend : cmp.filter.resync_pend ≡ true) where
  flush-Serves :
      (is_u : Bool)
      → (cmp.branch_map.cnt == 0) ≡ false
      → Returns (Serves cmp) (flush config cmp s p is_u)
  unfolding flush
  flush-Serves is_u some_left =
      Returns-bind IsSettled (Serves cmp)
        (emit_branch_map_flush_packet config p cmp.branch_map s cmp.thisc.instr cmp.last_iaddr
          config.full_address is_u)
        _
        (emit_branch_map_flush_packet-IsSettled p cmp.branch_map s cmp.thisc.instr blank ok.map
          ok.sext_length ok.this_valid config cmp.last_iaddr config.full_address is_u)
        λ r h. record { loud = refl; outcome = inr (pend, some_left); next_kept = refl }

  pub choose-Serves :
      (why : Reason) → reason config cmp ≡ why → Returns (Serves cmp) (choose config cmp s p why)
  unfolding choose reason
  choose-Serves trapped e =
      unfold emit_exception_packet in
      record { loud = refl; outcome = inl (refl, refl); next_kept = refl }
  choose-Serves vector_table e =
      unfold emit_start_packet in
      record { loud = refl; outcome = inl (refl, refl); next_kept = refl }
  choose-Serves started e =
      unfold emit_start_packet in
      record { loud = refl; outcome = inl (refl, refl); next_kept = refl }
  choose-Serves jumped e = flush-Serves true (ground (arith, e))
  choose-Serves resynced e = flush-Serves false (ground (arith, e))
  choose-Serves flushed e = absurd (ground (arith, e))
  choose-Serves map_full e = absurd (ground (arith, e))
  choose-Serves context_changed e = absurd (ground (arith, e))
  choose-Serves nothing e = absurd (ground (arith, e))
