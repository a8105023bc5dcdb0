-- ===== src/Compress/Address.antt =====
-- The address of a packet that flushes the branch map, as the decoder resolves it.
use trdb.Base.{
  ℕ, ◌+◌, ◌-◌, ◌^◌, ◌<◌, ◌≡◌, Bool, true, false, if◌then◌else◌, Returns, Returns-bind, arith, ◌&&◌,
  not, length,
}
use trdb.Trace.{TrInstr, TrPacket, IsInstr}
use trdb.Context.{Config, Stats, BranchMap, count_sext}
use trdb.BranchLen.{branch_map_len_fits}
use trdb.Compress.{Choice}
use trdb.Compress.Emit.{
  Flushed, flush_address, flush_full_address, flush_chosen, flush_compressed, choose_address,
  address_diff, emit_branch_map_flush_packet,
}
use trdb.Compress.Invariant.{IsMap, count_sext_total, choose_address_total}
use trdb.Decompress.{resolve_address}

-- The decoder, with the encoder's last address, finds the address that was reported, and keeps it
-- unless the packet has a full map and no address.
pub record IsResolved (full_address : Bool) (last : ℕ) (m : BranchMap) (tc : TrInstr) (is_u : Bool)
    (r : Flushed) : Type 0 where
  pub found : (resolve_address full_address last r.packet).absolute_addr ≡ tc.iaddr
  pub kept :
      (resolve_address full_address last r.packet).last_packet_addr
      ≡ (if m.full && not is_u then last else tc.iaddr)

module _ (tr : TrPacket) (m : BranchMap) (s : Stats) (tc : TrInstr) (map : IsMap m)
    (sext : length s.sext_bits ≡ 64) (valid : IsInstr tc) (last : ℕ)
    (last_fits : last < 2 ^ 32) where
  flush_address-IsResolved :
      (config : Config) (full_address is_u : Bool)
      → m.cnt ≡ 0
      → Returns
          (IsResolved full_address last m tc is_u)
          (flush_address config tr m s tc last full_address)
  unfolding flush_address resolve_address
  flush_address-IsResolved config true is_u e = ground (arith)
  flush_address-IsResolved config false is_u e =
      Returns-bind (λ t. length t.sext_bits ≡ 64) (IsResolved false last m tc is_u) _ _
        (count_sext_total _ s sext (omega arith)) λ t h. ground arith

  flush_full_address-IsResolved :
      (full_address is_u : Bool)
      → 0 < m.cnt
      → Returns (IsResolved full_address last m tc is_u) (flush_full_address tr m s tc is_u)
  unfolding flush_full_address resolve_address
  flush_full_address-IsResolved full_address is_u e = ground (arith, branch_map_len_fits m.cnt)

  flush_chosen-IsResolved :
      (is_u : Bool) (c : Choice)
      → 0 < m.cnt
      → Returns
          (IsResolved false last m tc is_u)
          (flush_chosen tr m s tc.iaddr (address_diff last tc.iaddr) is_u c)
  unfolding flush_chosen resolve_address
  flush_chosen-IsResolved is_u c e =
      Returns-bind (λ t. length t.sext_bits ≡ 64) (IsResolved false last m tc is_u)
        (count_sext (32 - c.lead + 1 - 1) s) _ (count_sext_total _ s sext (omega arith))
        λ t h. ground (arith, branch_map_len_fits m.cnt)

  -- For a branch map within its bounds, an instruction whose fields fit and a last address below
  -- 2 ^ 32, a flush returns a packet from which the decoder, with the same last address, resolves
  -- the address of the reported instruction; the decoder keeps it as its last address, unless the
  -- map is full and the flush is not for a discontinuity, where it keeps the one before.
  pub emit_branch_map_flush_packet-IsResolved :
      (config : Config) (full_address is_u : Bool)
      → Returns
          (IsResolved full_address last m tc is_u)
          (emit_branch_map_flush_packet config tr m s tc last full_address is_u)
  unfolding emit_branch_map_flush_packet flush_compressed
  emit_branch_map_flush_packet-IsResolved config full_address is_u = ground (
    arith,
    flush_address-IsResolved config full_address is_u,
    flush_full_address-IsResolved full_address is_u,
    compressed,
  )
    where
      compressed :
          0 < m.cnt
          → Returns (IsResolved false last m tc is_u) (flush_compressed config tr m s tc last is_u)
      compressed e =
          Returns-bind (λ c. Unit {0}) (IsResolved false last m tc is_u)
            (choose_address config tc.iaddr (address_diff last tc.iaddr)) _
            (choose_address_total config tc.iaddr _) λ c _. flush_chosen-IsResolved is_u c e
