-- ===== src/Simulator.antt =====
-- The interface for simulators in src/dpi/trdb_sv.c: one sample of the core's port for instructions
-- goes through the compression, and the bytes of a packet go to the testbench. Messages, which is
-- all that `bval` and values of 'x or 'z are used for, are left out. The simulator's
-- svPutPartselLogic is a parameter by what it is given: `packet_bytes` are the words that are put,
-- eight bits each, at bit 0 and upwards.
pub mod Vectors
pub mod Passed
use trdb.Base.{
  ℕ, zero, suc, ◌+◌, ◌*◌, ◌/◌, ◌%◌, ◌^◌, ◌-◌, Bool, true, false, not, if◌then◌else◌, ltb, ◌==◌,
  Option, none, some, List, [], ◌∷◌, Outcome, done, undefined, ◌>>=◌, ◌>>◌, defined_if,
}
use trdb.Errors.{value, failed}
use trdb.Trace.{TrInstr, TrPacket}
use trdb.Context.{Ctx, trdb_new, trdb_set_full_address, trdb_set_implicit_ret}
use trdb.Serialize.{trdb_pulp_serialize_packet, Serialized, serialized, rejected, bytes_for}
use trdb.Serialize.Stitch.{byte_at}
use trdb.Compress.Step.{AddResult, trdb_compress_trace_step_add}

-- The variables `ctx`, which is not null, `packets` and `packetcnt`.
pub record Simulator : Type 0 where
  pub ctx : Ctx
  pub packets : List TrPacket
  pub packetcnt : ℕ

-- The inputs of trdb_sv_feed_trace: a scalar is 0, 1, 2 for 'z or 3 for 'x, and of a vector it is
-- the word `aval`.
pub record Sample : Type 0 where
  pub ivalid : ℕ
  pub iexception : ℕ
  pub interrupt : ℕ
  pub cause : ℕ
  pub tval : ℕ
  pub priv : ℕ
  pub iaddr : ℕ
  pub instr : ℕ
  pub compressed : ℕ

-- A null `ctx` is `none`. The packets and their count stay.
unfoldable pub trdb_sv_alloc : Bool → List TrPacket → ℕ → Option Simulator
unfolding trdb_new
trdb_sv_alloc allocated packets packetcnt = elim (trdb_new allocated) [
  | none ↦ none
  | some ctx ↦ some (record { ctx = ctx; packets = packets; packetcnt = packetcnt })
]

-- What is left of `packets` and `packetcnt`; the context is freed.
unfoldable pub trdb_sv_free : Simulator → List TrPacket × ℕ
trdb_sv_free s = ([], s.packetcnt)

unfoldable pub trdb_sv_set_full_address : Simulator → Bool → Simulator
unfolding trdb_set_full_address
trdb_sv_set_full_address s v = record s { ctx = trdb_set_full_address s.ctx v }

unfoldable pub trdb_sv_set_implicit_ret : Simulator → Bool → Simulator
unfolding trdb_set_implicit_ret
trdb_sv_set_implicit_ret s v = record s { ctx = trdb_set_implicit_ret s.ctx v }

-- `struct tr_instr tr_instr`, whose fields keep the low bits that they have.
unfoldable pub tr_instr_of : Sample → TrInstr
tr_instr_of x = record {
  valid = not (x.ivalid == 0);
  exception = not (x.iexception == 0);
  interrupt = not (x.interrupt == 0);
  cause = x.cause % 2 ^ 5;
  tval = x.tval % 2 ^ 32;
  priv = x.priv % 2 ^ 3;
  iaddr = x.iaddr % 2 ^ 32;
  instr = x.instr % 2 ^ 32;
  compressed = not (x.compressed == 0);
}

-- TAILQ_LAST, or NULL if the list is empty.
unfoldable pub latest : List TrPacket → Option TrPacket
latest [] = none
latest (p ∷ []) = some p
latest (p ∷ q ∷ rest) = latest (q ∷ rest)

-- SV_PACKED_DATA_NELEMS, for a width that is not negative
abbrev pub packed_data_nelems : ℕ → ℕ
packed_data_nelems width = (width + 31) / 32

-- The loop that fills in the packet: rounds left, and i.
unfoldable pub fill : ℕ → ℕ → ℕ → List ℕ → List ℕ
fill zero i packet_bytes buff = []
fill (suc rounds) i packet_bytes buff =
    (if ltb i packet_bytes then byte_at buff i else 0) ∷ fill rounds (suc i) packet_bytes buff

-- `bitcnt` and `buff`, which stay zero if the packet cannot be serialised.
abbrev pub buffered : Serialized → ℕ × List ℕ
buffered (serialized bitcnt bin) = (bitcnt, bin)
buffered (rejected e) = (0, [])

pub record Fed : Type 0 where
  pub simulator : Simulator
  pub packet_valid : Bool
  pub packet_bytes : List ℕ

-- The part behind the compression for p == 1.
unfoldable pub pass_packet : Simulator → ℕ → Outcome Fed
unfolding latest fill
pass_packet s packet_max_len = elim (latest s.packets) [
  | none ↦ undefined
  | some packet ↦ do
    written ← trdb_pulp_serialize_packet s.ctx packet 0
    let (bitcnt, buff) = buffered written
    defined_if (ltb s.packetcnt (2 ^ 31 - 1))
    let counted = record s { packetcnt = s.packetcnt + 1 }
    done (
        if ltb (packet_max_len / 8) (bytes_for bitcnt)
        then record { simulator = counted; packet_valid = false; packet_bytes = [] }
        else record {
          simulator = counted;
          packet_valid = true;
          packet_bytes = fill (packed_data_nelems packet_max_len * 4) 0 (bytes_for bitcnt) buff;
        })
]

-- What follows the compression of the sample.
unfoldable pub feed_added : Simulator → AddResult → ℕ → Outcome Fed
unfolding pass_packet
feed_added s r packet_max_len =
    let after : Simulator = record s { ctx = r.ctx; packets = r.packet_list } in
    let quiet : Fed = record { simulator = after; packet_valid = false; packet_bytes = [] } in
    elim r.status [
      | failed e ↦ done quiet
      | value n ↦ if n == 1 then pass_packet after packet_max_len else done quiet
    ]

-- `packet_max_len` is not negative, and so small that its rounding does not overflow an int.
-- `memory` is what malloc returns for the packet.
unfoldable pub trdb_sv_feed_trace : Simulator → Sample → ℕ → Option TrPacket → Outcome Fed
unfolding feed_added tr_instr_of
trdb_sv_feed_trace s x packet_max_len memory = do
  r ← trdb_compress_trace_step_add s.ctx s.packets (tr_instr_of x) memory
  feed_added s r packet_max_len
