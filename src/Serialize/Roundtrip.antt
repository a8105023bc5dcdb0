-- ===== src/Serialize/Roundtrip.antt =====
-- Serialising a packet and reading the bytes that were written, with other bytes behind them.
use trdb.Base.{
  ℕ, suc, ◌+◌, ◌*◌, ◌%◌, ◌^◌, ◌<◌, ◌≤◌, ◌≡◌, refl, arith, Bool, List, ◌++◌, Outcome, done,
  assert_failed, undefined, ◌>>=◌, if◌then◌else◌,
}
use trdb.Errors.{value, failed}
use trdb.Trace.{TrPacket}
use trdb.Context.{Ctx, trdb_is_full_address}
use trdb.Serialize.{
  emit, kept_bits, bytes_for, shl128, trdb_pulp_serialize_packet, serialized, rejected,
}
use trdb.Serialize.Bytes.{read_single-bytes_of}
use trdb.Serialize.Payload.{IsPayload, opened, read_bytes-IsPayload}
use trdb.Serialize.Read.{ReadResult, read_payload, trdb_pulp_read_single_packet}

-- A packet that cannot be serialised is not read either.
unfoldable pub write_then_read : Ctx → TrPacket → List ℕ → Bool → TrPacket → ℕ → Outcome ReadResult
write_then_read c p rest faulty packet bytes = do
  written ← trdb_pulp_serialize_packet c p 0
  elim written [
    | serialized bitcnt bin ↦
        trdb_pulp_read_single_packet c (record { ahead = bin ++ rest; faulty = faulty }) packet
          bytes
    | rejected e ↦ done (record {
      status = failed e;
      packet = packet;
      bytes = bytes;
      input = record { ahead = rest; faulty = faulty };
    })
  ]

-- The packet q is read, and nothing of the bytes behind it.
abbrev pub read_back : TrPacket → ℕ → List ℕ → Bool → ReadResult
read_back q n rest faulty = record {
  status = value 0;
  packet = q;
  bytes = n + 1;
  input = record { ahead = rest; faulty = faulty };
}

-- The bits that a packet gives to its address.
abbrev pub address_bits : Ctx → TrPacket → ℕ
address_bits c p = if trdb_is_full_address c then 32 else kept_bits p.address

pub bytes_for-suc : (k : ℕ) → bytes_for (8 + k) ≡ suc (bytes_for k)
bytes_for-suc k = ground arith

pub bytes_for-bounds : (k : ℕ) → (k ≤ 8 * bytes_for k) × (8 * bytes_for k ≤ k + 7)
bytes_for-bounds k = ground arith

module _ (c : Ctx) (p : TrPacket) (rest : List ℕ) (faulty : Bool) (packet : TrPacket)
    (bytes : ℕ) where
  -- What is left to show for a packet of n + 1 bytes with the word x.
  pub write_then_read_outcome :
      (outcome : Outcome TrPacket) (n k x : ℕ)
      → bytes_for k ≡ n
      → x < 2 ^ 128
      → x % 16 ≡ n
      → trdb_pulp_serialize_packet c p 0 ≡ done (emit 0 (record { bitcnt = 8 + k; bits = x }))
      → ((s : ℕ)
          → IsPayload n x s
          → read_payload c s (opened n x) ≡ (do q ← outcome; done (q, value 0)))
      → write_then_read c p rest faulty packet bytes
        ≡ (do q ← outcome; done (read_back q n rest faulty))
  unfolding write_then_read
  write_then_read_outcome outcome n k x count fits header written reads =
      let (s, payload, e) = read_bytes-IsPayload c n x header in
      let size : bytes_for (8 + k + 0) ≡ suc n = ground arith in
      let word : shl128 x 0 ≡ x = omega arith in
      rw
        (
          written,
          size,
          word,
          read_single-bytes_of c n x rest faulty packet bytes header,
          e,
          reads s payload,
        )
        (regrouped outcome)
    where
      regrouped :
          (o : Outcome TrPacket)
          → (do
            (q, status) ← (do q ← o; done (q, value 0))
            done (record {
              status = status;
              packet = q;
              bytes = n + 1;
              input = record { ahead = rest; faulty = faulty };
            }))
            ≡ (do q ← o; done (read_back q n rest faulty))
      regrouped (done q) = refl
      regrouped assert_failed = refl
      regrouped undefined = refl

  pub write_then_read_of :
      (q : TrPacket) (n k x : ℕ)
      → bytes_for k ≡ n
      → x < 2 ^ 128
      → x % 16 ≡ n
      → trdb_pulp_serialize_packet c p 0 ≡ done (emit 0 (record { bitcnt = 8 + k; bits = x }))
      → ((s : ℕ) → IsPayload n x s → read_payload c s (opened n x) ≡ done (q, value 0))
      → write_then_read c p rest faulty packet bytes ≡ done (read_back q n rest faulty)
  write_then_read_of q = write_then_read_outcome (done q)
