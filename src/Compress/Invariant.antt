-- ===== src/Compress/Invariant.antt =====
-- What every call of trdb_compress_trace_step keeps: the branch map has room, the statistics array
-- has its 64 entries, and the recorded words fit their types.
use native.Mathlib.Nat.{pow-zero, pow-suc, pow-le-pow_right}
use trdb.Base.{
  ℕ, ◌+◌, ◌-◌, ◌^◌, ◌≤◌, ◌<◌, ◌≡◌, Bool, true, false, ◌==◌, length, length-set, get_elem?-lt,
  Returns, Returns-bind, ap, ◌∙◌, arith,
}
use native.Mathlib.Numerals.{add-one}
use trdb.Bits.{bit_or_above}
use trdb.Trace.{TrInstr, TrPacket, IsInstr, IsPacket}
use trdb.BranchLen.{branch_map_len_fits}
use trdb.Context.{Config, Stats, BranchMap, count_sext, add32, zero_branch_map}
use trdb.Compress.{Choice, quantize_clz}
use trdb.Compress.Emit.{
  Flushed, flush_address, flush_full_address, flush_compressed, emit_branch_map_flush_packet,
  emit_full_branch_map, address_diff, choose_address, flush_chosen,
}
use trdb.Compress.Step.{record_branch}

-- A branch map within a call: up to 31 branches, a bit for each, and `full` says if it is 31.
pub record IsMap (m : BranchMap) : Type 0 where
  pub cnt_fits : m.cnt ≤ 31
  pub bits_fit : m.bits < 2 ^ m.cnt
  pub full_exact : m.full ≡ (m.cnt == 31)

-- Between calls there is room for one more.
pub record HasRoom (m : BranchMap) : Type 0 where
  pub map : IsMap m
  pub room : m.cnt ≤ 30

-- A branch map that has room is still well formed after an instruction is recorded: at most 31
-- branches, no bit above their count, and the full flag exactly at 31; the shift that sets the
-- bit is defined.
pub record_branch-IsMap :
    (m : BranchMap) (tc nc : TrInstr) → HasRoom m → Returns IsMap (record_branch m tc nc)
unfolding record_branch
record_branch-IsMap m tc nc h =
    ground
      (arith, pow-suc 2 m.cnt, ap (λ (n : ℕ). 2 ^ n) (add-one m.cnt), bit_or_above m.cnt m.bits 1)

pub count_sext_total :
    (i : ℕ) (s : Stats)
    → length s.sext_bits ≡ 64
    → i < 64
    → Returns (λ t. length t.sext_bits ≡ 64) (count_sext i s)
unfolding count_sext
count_sext_total i s e h =
    let (n, at) = get_elem?-lt s.sext_bits i (omega arith) in
    rw (at, count_sext) (length-set s.sext_bits i (add32 n 1) ∙ e)

-- What an emitted packet leaves, whatever its kind.
pub record IsSettled (r : Flushed) : Type 0 where
  pub emptied : r.branch_map ≡ zero_branch_map
  pub sext_length : length r.stats.sext_bits ≡ 64
  pub fits : IsPacket r.packet

pub bits-lt-word : (m : BranchMap) → IsMap m → m.bits < 2 ^ 32
bits-lt-word m h = omega (
  arith,
  h.bits_fit,
  h.cnt_fits,
  pow-le-pow_right {n = 2} (omega arith) {i = m.cnt} {j = 31} h.cnt_fits,
)

-- The quantized counts are never 32.
pub choose_address_total :
    (config : Config) (full diff : ℕ) → Returns (λ _. Unit {0}) (choose_address config full diff)
unfolding choose_address quantize_clz
choose_address_total config full diff = ground arith

module _ (tr : TrPacket) (m : BranchMap) (s : Stats) (tc : TrInstr) (blank : IsPacket tr)
    (map : IsMap m) (sext : length s.sext_bits ≡ 64) (valid : IsInstr tc) where
  flush_address-IsSettled :
      (config : Config) (last_iaddr : ℕ) (full_address : Bool)
      → m.cnt ≡ 0
      → Returns IsSettled (flush_address config tr m s tc last_iaddr full_address)
  unfolding flush_address
  flush_address-IsSettled config last_iaddr true e = ground (arith, pow-zero 2)
  flush_address-IsSettled config last_iaddr false e =
      Returns-bind (λ t. length t.sext_bits ≡ 64) IsSettled _ _
        (count_sext_total _ s sext (omega arith)) λ t h. ground (arith, pow-zero 2)

  flush_full_address-IsSettled :
      (is_u : Bool) → Returns IsSettled (flush_full_address tr m s tc is_u)
  unfolding flush_full_address
  flush_full_address-IsSettled is_u = ground (arith, branch_map_len_fits m.cnt, bits-lt-word m map)

  flush_chosen-IsSettled :
      (full diff : ℕ) (is_u : Bool) (c : Choice)
      → full < 2 ^ 32
      → diff < 2 ^ 32
      → Returns IsSettled (flush_chosen tr m s full diff is_u c)
  unfolding flush_chosen
  flush_chosen-IsSettled full diff is_u c hf hd =
      Returns-bind (λ t. length t.sext_bits ≡ 64) IsSettled (count_sext (32 - c.lead + 1 - 1) s) _
        (count_sext_total _ s sext (omega arith))
        λ t h. ground (arith, branch_map_len_fits m.cnt, bits-lt-word m map)

  flush_compressed-IsSettled :
      (config : Config) (last_iaddr : ℕ) (is_u : Bool)
      → Returns IsSettled (flush_compressed config tr m s tc last_iaddr is_u)
  unfolding flush_compressed
  flush_compressed-IsSettled config last_iaddr is_u =
      Returns-bind (λ c. Unit {0}) IsSettled
        (choose_address config tc.iaddr (address_diff last_iaddr tc.iaddr)) _
        (choose_address_total config tc.iaddr _)
        λ c _. flush_chosen-IsSettled tc.iaddr _ is_u c valid.iaddr_fits (omega arith)

  pub emit_full_branch_map-IsSettled :
      (config : Config) → m.cnt ≡ 31 → Returns IsSettled (emit_full_branch_map config tr m s)
  unfolding emit_full_branch_map
  emit_full_branch_map-IsSettled config e =
      ground (arith, branch_map_len_fits 31, bits-lt-word m map)

  pub emit_branch_map_flush_packet-IsSettled :
      (config : Config) (last_iaddr : ℕ) (full_address is_u : Bool)
      → Returns IsSettled
          (emit_branch_map_flush_packet config tr m s tc last_iaddr full_address is_u)
  unfolding emit_branch_map_flush_packet
  emit_branch_map_flush_packet-IsSettled config last_iaddr full_address is_u = ground (
    arith,
    flush_address-IsSettled config last_iaddr full_address,
    flush_full_address-IsSettled is_u,
    flush_compressed-IsSettled config last_iaddr is_u,
  )
