-- ===== src/Serialize/Sync.antt =====
-- F_SYNC packets: what is packed is read back.
use trdb.Base.{
  ℕ, ◌+◌, ◌*◌, ◌/◌, ◌^◌, ◌<◌, ◌≤◌, ◌≡◌, refl, ap, ◌∙◌, arith, Bool, true, false, done, List,
}
use trdb.Bits.{bit_and_low, bit_or_above}
use trdb.Bits.Fields.{field}
use trdb.Errors.{value}
use trdb.Trace.{
  TrPacket, IsPacket, zero_packet, trace, sync, start, exception, format_of, subformat_of,
  msg_type_of, bit_value, format_value, subformat_value, msg_type_value,
}
use trdb.Context.{Ctx}
use trdb.Utils.{mask_from}
use trdb.Serialize.{pack_sync, trdb_pulp_serialize_packet, emit}
use trdb.Serialize.Roundtrip.{write_then_read, write_then_read_of, read_back}
use trdb.Serialize.Payload.{IsPayload, opened}
use trdb.Serialize.Read.{read_payload}

-- The word of a start packet, field by field.
start_word : ℕ → TrPacket → ℕ
start_word n p =
    n
    + 2 * 2 ^ 4
    + 3 * 2 ^ 6
    + 0 * 2 ^ 8
    + p.privilege * 2 ^ 10
    + bit_value p.branch * 2 ^ 13
    + p.address * 2 ^ 14

bit_value-lt : (b : Bool) → bit_value b < 2
bit_value-lt true = omega arith
bit_value-lt false = omega arith

-- The word of an exception packet.
exception_word : ℕ → TrPacket → ℕ
exception_word n p =
    n
    + 2 * 2 ^ 4
    + 3 * 2 ^ 6
    + 1 * 2 ^ 8
    + p.privilege * 2 ^ 10
    + bit_value p.branch * 2 ^ 13
    + p.address * 2 ^ 14
    + p.ecause * 2 ^ 46
    + bit_value p.interrupt * 2 ^ 51

-- The payload of an exception packet, given its fields.
read_trapped :
    (c : Ctx) (s : ℕ) (p : TrPacket)
    → field 0 2 s ≡ 2
    → field 2 2 s ≡ 3
    → field 4 2 s ≡ 1
    → field 6 3 s ≡ p.privilege
    → field 9 1 s ≡ bit_value p.branch
    → field 10 32 s ≡ p.address
    → field 42 5 s ≡ p.ecause
    → field 47 1 s ≡ bit_value p.interrupt
    → read_payload c s (record zero_packet { length = 52; msg_type = trace })
      ≡ done (
        record zero_packet {
          length = 52;
          msg_type = trace;
          format = sync;
          subformat = exception;
          privilege = p.privilege;
          branch = p.branch;
          address = p.address;
          ecause = p.ecause;
          interrupt = p.interrupt;
        },
        value 0,
      )
unfolding read_payload format_of subformat_of mask_from
read_trapped c s p e0 e1 e2 e3 e4 e5 e6 e7 = ground (
  arith,
  bit_and_low 2 (s / 2 ^ 2),
  bit_and_low 2 (s / 2 ^ 2 / 2 ^ 2),
  bit_and_low 3 (s / 2 ^ 2 / 2 ^ 2 / 2 ^ 2),
  bit_and_low 1 (s / 2 ^ 2 / 2 ^ 2 / 2 ^ 2 / 2 ^ 3),
  bit_and_low 32 (s / 2 ^ 2 / 2 ^ 2 / 2 ^ 2 / 2 ^ 3 / 2 ^ 1),
  bit_and_low 5 (s / 2 ^ 2 / 2 ^ 2 / 2 ^ 2 / 2 ^ 3 / 2 ^ 1 / 2 ^ 32),
  bit_and_low 1 (s / 2 ^ 2 / 2 ^ 2 / 2 ^ 2 / 2 ^ 3 / 2 ^ 1 / 2 ^ 32 / 2 ^ 5),
)

module _ (c : Ctx) (p : TrPacket) (fits : IsPacket p) (is_trace : p.msg_type ≡ trace)
    (is_sync : p.format ≡ sync) where
  serialize_start :
      p.subformat ≡ start
      → p.length ≡ 40
      → trdb_pulp_serialize_packet c p 0
        ≡ done (emit 0 (record { bitcnt = 46; bits = start_word 5 p }))
  unfolding trdb_pulp_serialize_packet pack_sync start_word format_value subformat_value
      msg_type_value
  serialize_start is_start len = ground (
    arith,
    bit_value-lt p.branch,
    bit_or_above 4 5 2,
    bit_or_above 6 (5 + 2 * 2 ^ 4) 3,
    bit_or_above 8 (5 + 2 * 2 ^ 4 + 3 * 2 ^ 6) 0,
    bit_or_above 10 (5 + 2 * 2 ^ 4 + 3 * 2 ^ 6) p.privilege,
    bit_or_above 13 (5 + 2 * 2 ^ 4 + 3 * 2 ^ 6 + p.privilege * 2 ^ 10) (bit_value p.branch),
    bit_or_above 14 (5 + 2 * 2 ^ 4 + 3 * 2 ^ 6 + p.privilege * 2 ^ 10 + bit_value p.branch * 2 ^ 13)
        p.address,
  )

  serialize_exception :
      p.subformat ≡ exception
      → p.length ≡ 46
      → trdb_pulp_serialize_packet c p 0
        ≡ done (emit 0 (record { bitcnt = 52; bits = exception_word 6 p }))
  unfolding trdb_pulp_serialize_packet pack_sync exception_word format_value subformat_value
      msg_type_value
  serialize_exception is_exception len = ground (
    arith,
    bit_value-lt p.branch,
    bit_value-lt p.interrupt,
    bit_or_above 4 6 2,
    bit_or_above 6 (6 + 2 * 2 ^ 4) 3,
    bit_or_above 8 (6 + 2 * 2 ^ 4 + 3 * 2 ^ 6) 1,
    bit_or_above 10 (6 + 2 * 2 ^ 4 + 3 * 2 ^ 6 + 1 * 2 ^ 8) p.privilege,
    bit_or_above 13 (6 + 2 * 2 ^ 4 + 3 * 2 ^ 6 + 1 * 2 ^ 8 + p.privilege * 2 ^ 10)
        (bit_value p.branch),
    bit_or_above 14
        (6 + 2 * 2 ^ 4 + 3 * 2 ^ 6 + 1 * 2 ^ 8 + p.privilege * 2 ^ 10 + bit_value p.branch * 2 ^ 13)
        p.address,
    bit_or_above 46
        (6
          + 2 * 2 ^ 4
          + 3 * 2 ^ 6
          + 1 * 2 ^ 8
          + p.privilege * 2 ^ 10
          + bit_value p.branch * 2 ^ 13
          + p.address * 2 ^ 14)
        p.ecause,
    bit_or_above 51
        (6
          + 2 * 2 ^ 4
          + 3 * 2 ^ 6
          + 1 * 2 ^ 8
          + p.privilege * 2 ^ 10
          + bit_value p.branch * 2 ^ 13
          + p.address * 2 ^ 14
          + p.ecause * 2 ^ 46)
        (bit_value p.interrupt),
  )

  read_start :
      (s : ℕ)
      → IsPayload 5 (start_word 5 p) s
      → read_payload c s (opened 5 (start_word 5 p))
        ≡ done (
          record zero_packet {
            length = 44;
            msg_type = trace;
            format = sync;
            subformat = start;
            privilege = p.privilege;
            branch = p.branch;
            address = p.address;
          },
          value 0,
        )
  unfolding read_payload start_word format_of msg_type_of subformat_of mask_from
  read_start s h = ground (
    arith,
    bit_value-lt p.branch,
    h.fields 0 2 (omega arith),
    h.fields 2 2 (omega arith),
    h.fields 4 2 (omega arith),
    h.fields 6 3 (omega arith),
    h.fields 9 1 (omega arith),
    h.fields 10 32 (omega arith),
    bit_and_low 2 (s / 2 ^ 2),
    bit_and_low 2 (s / 2 ^ 2 / 2 ^ 2),
    bit_and_low 3 (s / 2 ^ 2 / 2 ^ 2 / 2 ^ 2),
    bit_and_low 1 (s / 2 ^ 2 / 2 ^ 2 / 2 ^ 2 / 2 ^ 3),
    bit_and_low 32 (s / 2 ^ 2 / 2 ^ 2 / 2 ^ 2 / 2 ^ 3 / 2 ^ 1),
  )

  read_exception :
      (s : ℕ)
      → IsPayload 6 (exception_word 6 p) s
      → read_payload c s (opened 6 (exception_word 6 p))
        ≡ done (
          record zero_packet {
            length = 52;
            msg_type = trace;
            format = sync;
            subformat = exception;
            privilege = p.privilege;
            branch = p.branch;
            address = p.address;
            ecause = p.ecause;
            interrupt = p.interrupt;
          },
          value 0,
        )
  unfolding exception_word msg_type_of
  read_exception s h =
      ap (λ m. read_payload c s (record zero_packet { length = 52; msg_type = msg_type_of m })) kind
      ∙ read_trapped c s p
          (known 0 2 2 (omega arith)
            (omega (arith, bit_value-lt p.branch, bit_value-lt p.interrupt)))
          (known 2 2 3 (omega arith)
            (omega (arith, bit_value-lt p.branch, bit_value-lt p.interrupt)))
          (known 4 2 1 (omega arith)
            (omega (arith, bit_value-lt p.branch, bit_value-lt p.interrupt)))
          (known 6 3 p.privilege (omega arith)
            (omega (arith, bit_value-lt p.branch, bit_value-lt p.interrupt)))
          (known 9 1 (bit_value p.branch) (omega arith)
            (omega (arith, bit_value-lt p.branch, bit_value-lt p.interrupt)))
          (known 10 32 p.address (omega arith)
            (omega (arith, bit_value-lt p.branch, bit_value-lt p.interrupt)))
          (known 42 5 p.ecause (omega arith)
            (omega (arith, bit_value-lt p.branch, bit_value-lt p.interrupt)))
          (known 47 1 (bit_value p.interrupt) (omega arith)
            (omega (arith, bit_value-lt p.branch, bit_value-lt p.interrupt)))
    where
      kind : field 4 2 (exception_word 6 p) ≡ 2
      kind = omega (arith, bit_value-lt p.branch, bit_value-lt p.interrupt)

      known : (a b v : ℕ) → a + b ≤ 52 → field (4 + a) b (exception_word 6 p) ≡ v → field a b s ≡ v
      known a b v w e = h.fields a b w ∙ e

  module _ (rest : List ℕ) (faulty : Bool) (packet : TrPacket) (bytes : ℕ) where
    -- An F_SYNC packet for a start, with the length 40 that the encoder gives it, is written and
    -- read back with its privilege, branch and address, whatever follows it in the file.
    pub write_then_read-start :
        p.subformat ≡ start
        → p.length ≡ 40
        → write_then_read c p rest faulty packet bytes
          ≡ done (
              read_back
                (record zero_packet {
                  length = 44;
                  msg_type = trace;
                  format = sync;
                  subformat = start;
                  privilege = p.privilege;
                  branch = p.branch;
                  address = p.address;
                })
                5
                rest
                faulty)
    unfolding start_word
    write_then_read-start is_start len =
        write_then_read_of c p rest faulty packet bytes _ 5 38 (start_word 5 p) refl
          (omega (arith, bit_value-lt p.branch)) (omega arith) (serialize_start is_start len)
          read_start

    -- An F_SYNC packet for an exception, with the length 46 that the encoder gives it, is written
    -- and read back with its privilege, branch, address, cause and interrupt bit, and without its
    -- trap value, whatever follows it in the file.
    pub write_then_read-exception :
        p.subformat ≡ exception
        → p.length ≡ 46
        → write_then_read c p rest faulty packet bytes
          ≡ done (
              read_back
                (record zero_packet {
                  length = 52;
                  msg_type = trace;
                  format = sync;
                  subformat = exception;
                  privilege = p.privilege;
                  branch = p.branch;
                  address = p.address;
                  ecause = p.ecause;
                  interrupt = p.interrupt;
                })
                6
                rest
                faulty)
    unfolding exception_word
    write_then_read-exception is_exception len =
        write_then_read_of c p rest faulty packet bytes _ 6 44 (exception_word 6 p) refl
          (omega (arith, bit_value-lt p.branch, bit_value-lt p.interrupt)) (omega arith)
          (serialize_exception is_exception len) read_exception
