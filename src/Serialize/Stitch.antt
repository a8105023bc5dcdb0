-- ===== src/Serialize/Stitch.antt =====
-- trdb_write_packets of src/serialize.c, which stitches packets together at the bit.
use trdb.Base.{
  ℕ, ◌+◌, ◌/◌, ◌%◌, List, [], ◌∷◌, ◌++◌, length, take, drop, set, get_elem?, replicate, Option,
  none, some, Outcome, done, ◌>>=◌, bit_and, bit_or,
}
use trdb.Errors.{Status, value, failed, trdb_file_open}
use trdb.Trace.{TrPacket}
use trdb.Context.{Ctx}
use trdb.Utils.{mask_from}
use trdb.Serialize.{trdb_pulp_serialize_packet, serialized, rejected}
use trdb.Serialize.File.{Output, WriteResult, fwrite}

-- The local variables of the loop, and the file. `bin` keeps what a shorter packet leaves.
pub record Stitch : Type 0 where
  pub bin : List ℕ
  pub alignment : ℕ
  pub carry : ℕ
  pub good : ℕ
  pub output : Output

-- A round ends the loop, with its status, or goes on.
pub data Stitched : Type 0 where
  stitching : Stitch → Stitched
  broken : Status → Output → Stitched

-- A byte of `bin`, 0 behind its end.
abbrev pub byte_at : List ℕ → ℕ → ℕ
byte_at bin i = elim (get_elem? bin i) [ some b ↦ b | none ↦ 0 ]

-- A round once `bin` has the packet and the carry.
unfoldable pub keep_bytes : ℕ → List ℕ → Stitch → Stitched
keep_bytes bitcnt bin s =
    let rest = (bitcnt + s.alignment) % 8 in
    let good = (bitcnt + s.alignment) / 8 in
    let r = fwrite (take good bin) s.output in
    elim r.status [
      | failed e ↦ broken (failed e) r.output
      | value n ↦ stitching (record {
        bin = bin;
        alignment = rest;
        carry = bit_and (byte_at bin good) (mask_from rest);
        good = good;
        output = r.output;
      })
    ]

-- A round once the packet is serialised to `copied`.
unfoldable pub stitch_bytes : ℕ → List ℕ → Stitch → Stitched
stitch_bytes bitcnt copied s =
    let written = copied ++ drop (length copied) s.bin in
    keep_bytes bitcnt (set written 0 (bit_or (byte_at written 0) s.carry)) s

unfoldable pub stitch_packet : Ctx → TrPacket → Stitch → Outcome Stitched
stitch_packet c p s = do
  r ← trdb_pulp_serialize_packet c p s.alignment
  done (elim r [
    | serialized bitcnt copied ↦ stitch_bytes bitcnt copied s
    | rejected e ↦ broken (failed e) s.output
  ])

unfoldable pub stitch_packets : Ctx → List TrPacket → Stitch → Outcome Stitched
stitch_packets c [] s = done (stitching s)
stitch_packets c (p ∷ rest) s = do
  r ← stitch_packet c p s
  elim r [ stitching t ↦ stitch_packets c rest t | broken e out ↦ done (broken e out) ]

-- The byte with the remaining bits.
unfoldable pub write_carry : Stitched → WriteResult
write_carry (stitching s) = fwrite (byte_at s.bin s.good ∷ []) s.output
write_carry (broken e out) = record { status = e; output = out }

abbrev pub reversed : List TrPacket → List TrPacket
reversed [] = []
reversed (p ∷ rest) = reversed rest ++ (p ∷ [])

-- The status, and the file if it was opened.
pub record Written : Type 0 where
  pub status : Status
  pub output : Option Output

-- `width` is the size of `bin`, that of struct tr_packet; the file is opened, and emptied, if it
-- can be, and its device then has room for some bytes.
unfoldable pub trdb_write_packets : ℕ → Ctx → Option ℕ → List TrPacket → Outcome Written
trdb_write_packets width c none packet_list =
    done (record { status = failed trdb_file_open; output = none })
trdb_write_packets width c (some room) packet_list = do
  r ← stitch_packets c (reversed packet_list) (record {
    bin = replicate width 0;
    alignment = 0;
    carry = 0;
    good = 0;
    output = record { contents = []; room = room };
  })
  let w = write_carry r
  done (record { status = w.status; output = some w.output })
