-- ===== src/Serialize/Bytes.antt =====
-- Bytes and the number that they make up, and a packet's bytes at the front of a file.
use trdb.Base.{
  ℕ, zero, suc, ◌+◌, ◌*◌, ◌/◌, ◌%◌, ◌^◌, ◌≡◌, refl, ap, arith, Bool, List, ◌++◌, length,
  length-append, take_length-append, drop_length-append, bit_and, done, ◌>>=◌,
}
use trdb.Bits.{bit_and_low}
use trdb.Bits.Fields.{cut}
use trdb.Trace.{TrPacket}
use trdb.Context.{Ctx}
use trdb.Utils.{mask_from}
use trdb.Serialize.{bytes_of}
use trdb.Serialize.Read.{of_bytes, read_bytes, trdb_pulp_read_single_packet}

pub length-bytes_of : (n x : ℕ) → length (bytes_of n x) ≡ n
unfolding bytes_of
length-bytes_of zero x = refl
length-bytes_of (suc n) x = ap suc (length-bytes_of n (x / 256))

-- Reading n bytes back gives the number cut off at 8 * n bits.
pub of_bytes-bytes_of : (n x : ℕ) → of_bytes (bytes_of n x) ≡ x % 2 ^ (8 * n)
unfolding of_bytes bytes_of
of_bytes-bytes_of zero x = omega arith
of_bytes-bytes_of (suc n) x =
    ground
      (arith, of_bytes-bytes_of n (x / 256), cut 8 (8 * n) x, ap (λ (k : ℕ). x % 2 ^ k) eight_more)
  where
    eight_more : 8 * suc n ≡ 8 + 8 * n
    eight_more = omega arith

-- When the low four bits of a word give the number n of bytes behind its first, reading a file
-- that starts with the n + 1 bytes of the word consumes these bytes and no more, and gives what
-- the switch on the message type makes of them.
pub read_single-bytes_of :
    (c : Ctx) (n x : ℕ) (rest : List ℕ) (faulty : Bool) (packet : TrPacket) (bytes : ℕ)
    → x % 16 ≡ n
    → trdb_pulp_read_single_packet c
        (record { ahead = bytes_of (suc n) x ++ rest; faulty = faulty })
        packet
        bytes
      ≡ (do
        (q, status) ← read_bytes c (x % 256) (bytes_of (suc n) x)
        done (record {
          status = status;
          packet = q;
          bytes = n + 1;
          input = record { ahead = rest; faulty = faulty };
        }))
unfolding trdb_pulp_read_single_packet bytes_of
read_single-bytes_of c n x rest faulty packet bytes e =
    let more : bit_and (x % 256) (mask_from 4) ≡ n =
      unfold mask_from in omega (arith, bit_and_low 4 (x % 256)) in
    ground (
      arith,
      more,
      length-append (bytes_of n (x / 256)) rest,
      length-bytes_of n (x / 256),
      take_length-append (bytes_of n (x / 256)) rest,
      drop_length-append (bytes_of n (x / 256)) rest,
    )
