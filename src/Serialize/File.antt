-- ===== src/Serialize/File.antt =====
-- Files of packets: trdb_pulp_write_single_packet and trdb_pulp_read_all_packets of
-- src/serialize.c, and the loop of compress_trace in src/trdb.c that writes binary output.
use trdb.Base.{
  ℕ, zero, suc, ◌-◌, Bool, true, false, if◌then◌else◌, ltb, List, [], ◌∷◌, ◌++◌, length, take,
  Option, none, some, Outcome, done, ◌>>=◌,
}
use trdb.Errors.{Status, value, failed, trdb_file_write, trdb_nomem}
use trdb.Trace.{TrPacket}
use trdb.Context.{Ctx}
use trdb.Serialize.{bytes_for, trdb_pulp_serialize_packet, serialized, rejected}
use trdb.Serialize.Read.{Input, trdb_pulp_read_single_packet}

-- A file open for writing: what it holds, and how many bytes its device still takes.
pub record Output : Type 0 where
  pub contents : List ℕ
  pub room : ℕ

-- The status of a write, and the file it leaves.
pub record WriteResult : Type 0 where
  pub status : Status
  pub output : Output

-- `fwrite` of some bytes, and the status for a short write, where `ferror` holds.
unfoldable pub fwrite : List ℕ → Output → WriteResult
fwrite bin out = record {
  status = if ltb out.room (length bin) then failed trdb_file_write else value 0;
  output = record { contents = out.contents ++ take out.room bin; room = out.room - length bin };
}

unfoldable pub trdb_pulp_write_single_packet : Ctx → TrPacket → Output → Outcome WriteResult
unfolding fwrite
trdb_pulp_write_single_packet c packet out = do
  written ← trdb_pulp_serialize_packet c packet 0
  done (elim written [
    | serialized bitcnt bin ↦ fwrite (take (bytes_for bitcnt) bin) out
    | rejected e ↦ record { status = failed e; output = out }
  ])

-- The packets are written in order, until a write fails.
unfoldable pub write_binary : Ctx → List TrPacket → Output → Outcome WriteResult
write_binary c [] out = done (record { status = value 0; output = out })
write_binary c (p ∷ ps) out = do
  r ← trdb_pulp_write_single_packet c p out
  elim r.status [ failed e ↦ done r | value n ↦ write_binary c ps r.output ]

-- The status of a call, and the packets at the end of the list.
pub record ReadAll : Type 0 where
  pub status : Status
  pub packet_list : List TrPacket

-- The loop of trdb_pulp_read_all_packets. `allocated` says whether `malloc` succeeds. Each round
-- but the last reads a byte at least, so that there are at most as many as bytes ahead, and one;
-- out of fuel, the result is `none`.
unfoldable pub read_packets :
    Bool → ℕ → Ctx → Input → TrPacket → ℕ → List TrPacket → Outcome (Option ReadAll)
read_packets allocated zero c input tmp bytes ps = done none
read_packets allocated (suc fuel) c input tmp bytes ps = do
  r ← trdb_pulp_read_single_packet c input tmp bytes
  elim r.status [
    | failed e ↦ done (some (record { status = value 0; packet_list = ps }))
    | value zero ↦ elim allocated [
      | true ↦ read_packets true fuel c r.input r.packet r.bytes (ps ++ (r.packet ∷ []))
      | false ↦ done (some (record { status = failed trdb_nomem; packet_list = ps }))
    ]
    | value (suc n) ↦ done (some (record { status = value 0; packet_list = ps }))
  ]

-- trdb_pulp_read_all_packets on a file that is open.
unfoldable pub trdb_pulp_read_all_packets :
    Bool → Ctx → Input → TrPacket → List TrPacket → Outcome (Option ReadAll)
unfolding read_packets
trdb_pulp_read_all_packets allocated c input tmp ps =
    read_packets allocated (suc (length input.ahead)) c input tmp 0 ps
