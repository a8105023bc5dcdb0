-- ===== src/Serialize/Read.antt =====
-- trdb_pulp_read_single_packet of src/serialize.c.
use trdb.Base.{
  ℕ, ◌+◌, ◌-◌, ◌*◌, ◌/◌, ◌%◌, ◌^◌, Bool, if◌then◌else◌, ltb, ◌==◌, bit_and, List, [], ◌∷◌, length,
  take, drop, Outcome, done, ◌>>=◌,
}
use trdb.Errors.{
  Status, value, failed, trdb_bad_packet, trdb_bad_config, trdb_file_read, trdb_unimplemented,
}
use trdb.Trace.{
  TrPacket, zero_packet, branch_full, branch_diff, addr_only, sync, start, exception, context,
  reserved, empty, timer, trace, software, format_of, subformat_of, msg_type_of,
}
use trdb.Utils.{mask_from, sext32, sext128}
use trdb.BranchLen.{branch_map_len}
use trdb.Context.{Ctx, trdb_is_full_address}

-- A file open for reading: the bytes ahead, and whether reading past them meets an error of the
-- device (`ferror`) rather than the end of the file (`feof`).
pub record Input : Type 0 where
  pub ahead : List ℕ
  pub faulty : Bool

-- What a call leaves behind: its status, `*packet`, `*bytes` and the file.
pub record ReadResult : Type 0 where
  pub status : Status
  pub packet : TrPacket
  pub bytes : ℕ
  pub input : Input

-- The little-endian value of `payload.bin`.
unfoldable pub of_bytes : List ℕ → ℕ
of_bytes [] = 0
of_bytes (b ∷ bs) = b + 256 * of_bytes bs

-- `val & 1` as a bool
abbrev pub low_bit : ℕ → Bool
low_bit x = bit_and x 1 == 1

-- The cases F_BRANCH_FULL and F_BRANCH_DIFF of a trace packet, past the test of the latter.
unfoldable pub read_branches : Ctx → ℕ → TrPacket → Outcome TrPacket
unfolding mask_from
read_branches c payload p = do
  let branches = bit_and payload (mask_from 5)
  blen ← branch_map_len branches
  let past_count = payload / 2 ^ 5
  let branch_map = bit_and past_count (mask_from blen)
  let lower_boundary = 2 + 2 + 5 + blen
  let full = bit_and (past_count / 2 ^ blen) (mask_from 32)
  address ←
      (if trdb_is_full_address c
        then done full
        else sext32 full ((p.length + 2 ^ 32 - lower_boundary) % 2 ^ 32))
  done (record p { branches = branches; branch_map = branch_map; address = address })

-- The case F_ADDR_ONLY.
unfoldable pub read_address : Ctx → ℕ → TrPacket → Outcome TrPacket
unfolding mask_from
read_address c payload p = do
  address ←
      (if trdb_is_full_address c
        then done (bit_and payload (mask_from 32))
        else sext32 (payload % 2 ^ 32) (p.length - 2 - 2))
  done (record p { address = address })

-- The case F_SYNC.
unfoldable pub read_sync : ℕ → TrPacket → TrPacket × Status
unfolding mask_from subformat_of
read_sync payload p =
    let subformat = subformat_of (bit_and payload (mask_from 2)) in
    let past_subformat = payload / 2 ^ 2 in
    let privilege = bit_and past_subformat (mask_from 3) in
    let past_privilege = past_subformat / 2 ^ 3 in
    let past_branch = past_privilege / 2 ^ 1 in
    let past_address = past_branch / 2 ^ 32 in
    let known = record p { subformat = subformat; privilege = privilege } in
    let located = record p {
      subformat = subformat;
      privilege = privilege;
      branch = low_bit past_privilege;
      address = bit_and past_branch (mask_from 32);
    } in
    let trapped = record p {
      subformat = subformat;
      privilege = privilege;
      branch = low_bit past_privilege;
      address = bit_and past_branch (mask_from 32);
      ecause = bit_and past_address (mask_from 5);
      interrupt = low_bit (past_address / 2 ^ 5);
    } in
    elim subformat [
      | start ↦ (located, value 0)
      | exception ↦ (trapped, value 0)
      | context ↦ (known, failed trdb_unimplemented)
      | reserved ↦ (trapped, failed trdb_bad_packet)
    ]

-- The case W_TRACE.
unfoldable pub read_trace : Ctx → ℕ → TrPacket → Outcome (TrPacket × Status)
unfolding read_branches read_address read_sync mask_from format_of
read_trace c payload p =
    let format = format_of (bit_and (payload / 2 ^ 2) (mask_from 2)) in
    let rest = payload / 2 ^ 2 / 2 ^ 2 in
    let q = record p { format = format } in
    elim format [
      | branch_full ↦ do r ← read_branches c rest q; done (r, value 0)
      | branch_diff ↦
          if trdb_is_full_address c
          then done (q, failed trdb_bad_config)
          else do r ← read_branches c rest q; done (r, value 0)
      | addr_only ↦ do r ← read_address c rest q; done (r, value 0)
      | sync ↦ done (read_sync rest q)
    ]

-- The switch on the message type; `payload` is what follows the length in the header.
unfoldable pub read_payload : Ctx → ℕ → TrPacket → Outcome (TrPacket × Status)
unfolding read_trace mask_from msg_type_of
read_payload c payload p = elim p.msg_type [
  | trace ↦ read_trace c payload p
  | software ↦ done (record p { userdata = bit_and (payload / 2 ^ 2) (mask_from 32) }, value 0)
  | timer ↦ done (record p { time = bit_and (payload / 2 ^ 2) (mask_from 40) }, value 0)
  | empty ↦ done (p, failed trdb_bad_packet)
]

-- From the bytes of a whole packet: the header is the first of them.
unfoldable pub read_bytes : Ctx → ℕ → List ℕ → Outcome (TrPacket × Status)
unfolding read_payload mask_from msg_type_of of_bytes
read_bytes c header bin = do
  let len = bit_and header (mask_from 4) * 8 + 2 + 2
  let payload = of_bytes bin / 2 ^ 4
  let msg_type = msg_type_of (bit_and payload (mask_from 2))
  extended ← sext128 payload len
  read_payload c extended (record zero_packet { length = len; msg_type = msg_type })

-- A short `fread`: the status that tells the end of the file from an error.
abbrev pub short_read : Bool → Status
short_read faulty = if faulty then failed trdb_file_read else failed trdb_bad_packet

-- `header` is the first byte ahead, and `rest` the bytes behind it.
unfoldable pub read_after : Ctx → ℕ → List ℕ → Bool → TrPacket → ℕ → Outcome ReadResult
unfolding read_bytes mask_from
read_after c header rest faulty packet bytes =
    let more = bit_and header (mask_from 4) in
    if ltb (length rest) more
    then done (record {
      status = short_read faulty;
      packet = packet;
      bytes = bytes;
      input = record { ahead = []; faulty = faulty };
    })
    else do
      (q, status) ← read_bytes c header (header ∷ take more rest)
      done (record {
        status = status;
        packet = q;
        bytes = more + 1;
        input = record { ahead = drop more rest; faulty = faulty };
      })

unfoldable pub trdb_pulp_read_single_packet : Ctx → Input → TrPacket → ℕ → Outcome ReadResult
unfolding read_after
trdb_pulp_read_single_packet c input packet bytes = elim input.ahead [
  | [] ↦
      done
        (record { status = short_read input.faulty; packet = packet; bytes = bytes; input = input })
  | header ∷ rest ↦ read_after c header rest input.faulty packet bytes
]
