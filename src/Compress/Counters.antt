-- ===== src/Compress/Counters.antt =====
-- The count of packets in the statistics.
use trdb.Base.{
  ℕ, ◌+◌, ◌-◌, ◌<◌, ◌≡◌, refl, Bool, true, false, length, get_elem?-lt, Returns, Returns-bind,
  arith,
}
use trdb.Trace.{TrInstr, TrPacket}
use trdb.BranchLen.{branch_map_len_fits}
use trdb.Context.{Config, Stats, BranchMap, count_sext}
use trdb.Compress.{Choice}
use trdb.Compress.Emit.{
  Flushed, flush_address, flush_full_address, flush_chosen, flush_compressed, choose_address,
  address_diff, emit_branch_map_flush_packet, emit_full_branch_map,
}
use trdb.Compress.Invariant.{IsMap, choose_address_total}

count_sext-packets :
    (i : ℕ) (s : Stats)
    → length s.sext_bits ≡ 64
    → i < 64
    → Returns (λ t. t.packets ≡ s.packets) (count_sext i s)
unfolding count_sext
count_sext-packets i s e h =
    let (n, at) = get_elem?-lt s.sext_bits i (omega arith) in rw (at, count_sext) refl

-- What is emitted leaves the count to the end of the call.
pub record Keeps (s : Stats) (r : Flushed) : Type 0 where
  pub packets : r.stats.packets ≡ s.packets

module _ (tr : TrPacket) (m : BranchMap) (s : Stats) (tc : TrInstr) (map : IsMap m)
    (sext : length s.sext_bits ≡ 64) where
  flush_address-Keeps :
      (config : Config) (last : ℕ) (full : Bool)
      → m.cnt ≡ 0
      → Returns (Keeps s) (flush_address config tr m s tc last full)
  unfolding flush_address
  flush_address-Keeps config last true e = ground arith
  flush_address-Keeps config last false e =
      Returns-bind (λ t. t.packets ≡ s.packets) (Keeps s) _ _
        (count_sext-packets _ s sext (omega arith)) λ t h. ground arith

  flush_full_address-Keeps : (is_u : Bool) → Returns (Keeps s) (flush_full_address tr m s tc is_u)
  unfolding flush_full_address
  flush_full_address-Keeps is_u = ground (arith, branch_map_len_fits m.cnt)

  flush_chosen-Keeps :
      (full diff : ℕ) (is_u : Bool) (c : Choice)
      → Returns (Keeps s) (flush_chosen tr m s full diff is_u c)
  unfolding flush_chosen
  flush_chosen-Keeps full diff is_u c =
      Returns-bind (λ t. t.packets ≡ s.packets) (Keeps s) (count_sext (32 - c.lead + 1 - 1) s) _
        (count_sext-packets _ s sext (omega arith)) λ t h. ground (arith, branch_map_len_fits m.cnt)

  flush_compressed-Keeps :
      (config : Config) (last : ℕ) (is_u : Bool)
      → Returns (Keeps s) (flush_compressed config tr m s tc last is_u)
  unfolding flush_compressed
  flush_compressed-Keeps config last is_u =
      Returns-bind (λ c. Unit {0}) (Keeps s)
        (choose_address config tc.iaddr (address_diff last tc.iaddr)) _
        (choose_address_total config tc.iaddr _) λ c _. flush_chosen-Keeps tc.iaddr _ is_u c

  pub emit_branch_map_flush_packet-Keeps :
      (config : Config) (last : ℕ) (full is_u : Bool)
      → Returns (Keeps s) (emit_branch_map_flush_packet config tr m s tc last full is_u)
  unfolding emit_branch_map_flush_packet
  emit_branch_map_flush_packet-Keeps config last full is_u = ground (
    arith,
    flush_address-Keeps config last full,
    flush_full_address-Keeps is_u,
    flush_compressed-Keeps config last is_u,
  )

  pub emit_full_branch_map-Keeps :
      (config : Config) → m.cnt ≡ 31 → Returns (Keeps s) (emit_full_branch_map config tr m s)
  unfolding emit_full_branch_map
  emit_full_branch_map-Keeps config e = ground (arith, branch_map_len_fits 31)
