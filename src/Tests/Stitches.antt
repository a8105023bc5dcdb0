-- ===== src/Tests/Stitches.antt =====
-- Packets stitched together.
use trdb.Base.{refl, [], ◌∷◌, some, arith, none_left, and_rest, Returns}
use trdb.Trace.{IsPacket}
use trdb.Serialize.{trdb_pulp_serialize_packet}
use trdb.Serialize.Stitch.{trdb_write_packets}
use trdb.Serialize.Stitching.{IsBits}
use trdb.Serialize.Pieces.{IsTaken, Line, trdb_write_packets-Line}
use trdb.Tests.{kept_ctx, a_start, an_address}

a_start-IsTaken : IsTaken kept_ctx a_start
unfolding trdb_pulp_serialize_packet
a_start-IsTaken = record { bitcnt = _; bin = _; taken = refl }

an_address-IsTaken : IsTaken kept_ctx an_address
unfolding trdb_pulp_serialize_packet
an_address-IsTaken = record { bitcnt = _; bin = _; taken = refl }

a_start-IsPacket : IsPacket a_start
a_start-IsPacket = ground arith

an_address-IsPacket : IsPacket an_address
an_address-IsPacket = ground arith

trdb_write_packets-Line_example :
    (line : Line kept_ctx (an_address ∷ a_start ∷ [])) × Returns
      (IsBits line.size line.number)
      (trdb_write_packets 96 kept_ctx (some 40) (an_address ∷ a_start ∷ []))
trdb_write_packets-Line_example =
    trdb_write_packets-Line kept_ctx 96 40 (an_address ∷ a_start ∷ [])
      (and_rest an_address-IsPacket (and_rest a_start-IsPacket none_left))
      (and_rest an_address-IsTaken (and_rest a_start-IsTaken none_left)) (omega arith)
