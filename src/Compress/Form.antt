-- ===== src/Compress/Form.antt =====
-- The forms of the packets that are emitted with absolute addresses.
use native.Mathlib.Nat.{pow-le-pow_right}
use trdb.Base.{
  ℕ, ◌+◌, ◌^◌, ◌<◌, ◌≡◌, refl, ◌⊎◌, inl, inr, Bool, true, false, Returns, Returns-bind, arith,
}
use trdb.Errors.{value}
use trdb.Trace.{
  TrInstr, TrPacket, zero_packet, trace, branch_full, addr_only, sync, start, exception,
}
use trdb.BranchLen.{map_width, branch_map_len, branch_map_len_fits}
use trdb.Context.{Config, Compress, Stats, BranchMap}
use trdb.Compress.Emit.{
  Flushed, flush_address, flush_full_address, emit_branch_map_flush_packet, emit_full_branch_map,
  emit_start_packet, emit_exception_packet,
}
use trdb.Compress.Step.{
  Reason, trapped, vector_table, started, jumped, resynced, flushed, map_full, context_changed,
  nothing, reason, Chosen, flush, choose,
}
use trdb.Compress.Invariant.{IsMap}
use trdb.Compress.Safety.{IsCounted, reason_full, reason-ne-context_changed}

-- A start, an exception, an address, branches with an address, or a full map.
pub record HasForm (p : TrPacket) : Type 0 where
  pub kind : p.msg_type ≡ trace
  pub form :
      ((p.format ≡ sync)
        × (p.subformat ≡ start)
        × (p.length ≡ 40)
        × (p.ecause ≡ 0)
        × (p.interrupt ≡ false))
      ⊎ ((p.format ≡ sync) × (p.subformat ≡ exception) × (p.length ≡ 46))
      ⊎ ((p.format ≡ addr_only) × (p.length ≡ 34))
      ⊎ ((p.format ≡ branch_full)
          × (0 < p.branches)
          × (p.branch_map < 2 ^ map_width p.branches)
          × (p.length ≡ 2 + 5 + map_width p.branches + 32))
      ⊎ ((p.format ≡ branch_full) × (p.branches ≡ 0) × (p.branch_map < 2 ^ 31) × (p.length ≡ 38))

map-lt-width : (m : BranchMap) → IsMap m → m.bits < 2 ^ map_width m.cnt
map-lt-width m h =
    let (_, fit, _, _) = branch_map_len_fits m.cnt h.cnt_fits in
    omega (
      arith,
      h.bits_fit,
      pow-le-pow_right {n = 2} (omega arith) {i = m.cnt} {j = map_width m.cnt} fit,
    )

module _ (m : BranchMap) (s : Stats) (tc : TrInstr) (map : IsMap m) where
  abbrev blank : TrPacket
  blank = record zero_packet { msg_type = trace }

  flush_address-HasForm :
      (config : Config) (last : ℕ)
      → m.cnt ≡ 0
      → Returns (λ r. HasForm r.packet) (flush_address config blank m s tc last true)
  unfolding flush_address
  flush_address-HasForm config last e = ground arith

  flush_full_address-HasForm :
      (is_u : Bool)
      → 0 < m.cnt
      → Returns (λ r. HasForm r.packet) (flush_full_address blank m s tc is_u)
  unfolding flush_full_address
  flush_full_address-HasForm is_u e =
      let wide : m.cnt ≡ 31 → map_width m.cnt ≡ 31 = λ k. unfold map_width in ground arith in
      ground (arith, branch_map_len_fits m.cnt, map-lt-width m map)

  emit_full_branch_map-HasForm :
      (config : Config)
      → config.compress_full_branch_map ≡ false
      → m.cnt ≡ 31
      → Returns (λ r. HasForm r.packet) (emit_full_branch_map config blank m s)
  unfolding emit_full_branch_map branch_map_len
  emit_full_branch_map-HasForm config plain e = ground (arith, map-lt-width m map)

-- No packet, or one of these forms.
pub record HasOutcome (r : Chosen) : Type 0 where
  pub outcome : (r.status ≡ value 0) ⊎ ((r.status ≡ value 1) × HasForm r.packet)

module _ (config : Config) (cmp : Compress) (s : Stats) (ok : IsCounted cmp s)
    (full : config.full_address ≡ true) (plain : config.compress_full_branch_map ≡ false) where
  abbrev fresh_packet : TrPacket
  fresh_packet = record zero_packet { msg_type = trace }

  flush-HasOutcome : (is_u : Bool) → Returns HasOutcome (flush config cmp s fresh_packet is_u)
  unfolding flush emit_branch_map_flush_packet
  flush-HasOutcome is_u =
      Returns-bind (λ (r : Flushed). HasForm r.packet) HasOutcome
        (emit_branch_map_flush_packet config fresh_packet cmp.branch_map s cmp.thisc.instr
          cmp.last_iaddr config.full_address is_u)
        _
        (ground (
          arith,
          flush_address-HasForm cmp.branch_map s cmp.thisc.instr ok.map config cmp.last_iaddr,
          flush_full_address-HasForm cmp.branch_map s cmp.thisc.instr ok.map is_u,
        ))
        λ r h. record { outcome = inr (refl, h) }

  pub choose-HasOutcome :
      (why : Reason)
      → reason config cmp ≡ why
      → Returns HasOutcome (choose config cmp s fresh_packet why)
  unfolding choose
  choose-HasOutcome trapped e = unfold emit_exception_packet in ground arith
  choose-HasOutcome vector_table e = unfold emit_start_packet in ground arith
  choose-HasOutcome started e = unfold emit_start_packet in ground arith
  choose-HasOutcome jumped e = flush-HasOutcome true
  choose-HasOutcome resynced e = flush-HasOutcome false
  choose-HasOutcome flushed e = flush-HasOutcome false
  choose-HasOutcome map_full e =
      Returns-bind (λ r. HasForm r.packet) HasOutcome
        (emit_full_branch_map config fresh_packet cmp.branch_map s) _
        (emit_full_branch_map-HasForm cmp.branch_map s cmp.thisc.instr ok.map config plain
          (ground (arith, reason_full config cmp e, ok.map)))
        λ r h. record { outcome = inr (refl, h) }
  choose-HasOutcome context_changed e =
      absurd (reason-ne-context_changed config cmp ok.this_context e)
  choose-HasOutcome nothing e = record { outcome = inl refl }
