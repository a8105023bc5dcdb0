-- ===== src/Serialize/Payload.antt =====
-- The payload that is read from a packet's bytes: each of its fields is a field of the word that
-- was packed, as far as the announced length reaches.
use native.Mathlib.Nat.{mod-eq_of_lt, pow-le-pow_right}
use trdb.Base.{ℕ, suc, ◌+◌, ◌-◌, ◌*◌, ◌/◌, ◌%◌, ◌^◌, ◌<◌, ◌≤◌, ◌≡◌, ◌∙◌, ap, arith, done}
use trdb.Bits.{bit_and_low, two_pow-add}
use trdb.Bits.Fields.{field, field-agree, field-div, field-mod}
use trdb.Trace.{TrPacket, zero_packet, msg_type_of}
use trdb.Context.{Ctx}
use trdb.Utils.{sext128}
use trdb.Utils.Sext.{sext128_keeps}
use trdb.Serialize.{bytes_of}
use trdb.Serialize.Bytes.{of_bytes-bytes_of}
use trdb.Serialize.Read.{read_bytes, read_payload}

-- `s` is what the reader extends the payload of the word x to, when n bytes follow the header.
pub record IsPayload (n x s : ℕ) : Type 0 where
  pub fields : (a b : ℕ) → a + b ≤ 8 * n + 4 → field a b s ≡ field (4 + a) b x
  pub whole : x < 2 ^ (8 * n + 7) → s ≡ x / 2 ^ 4

-- The packet as it is once the header is read.
abbrev pub opened : ℕ → ℕ → TrPacket
opened n x = record zero_packet { length = n * 8 + 4; msg_type = msg_type_of (field 4 2 x) }

extended-IsPayload :
    (n x s : ℕ)
    → s % 2 ^ (n * 8 + 4) ≡ x % 2 ^ (8 * suc n) / 2 ^ 4 % 2 ^ (n * 8 + 4)
    → (x % 2 ^ (8 * suc n) / 2 ^ 4 < 2 ^ (n * 8 + 4 - 1) → s ≡ x % 2 ^ (8 * suc n) / 2 ^ 4)
    → IsPayload n x s
extended-IsPayload n x s e positive = record {
  fields = λ a b h.
      field-agree a b (n * 8 + 4) s (x % 2 ^ (8 * suc n) / 2 ^ 4) (omega arith) e
      ∙ field-div a b 4 (x % 2 ^ (8 * suc n))
      ∙ field-mod (4 + a) b (8 * suc n) x (omega arith);
  whole = λ h.
      let fits : x < 2 ^ (8 * suc n) = omega (
        arith,
        pow-le-pow_right {n = 2} (omega arith) {i = 8 * n + 7} {j = 8 * suc n} (omega arith),
      ) in
      let cut : x % 2 ^ (8 * suc n) ≡ x = mod-eq_of_lt fits in
      let width : 8 * n + 7 ≡ n * 8 + 4 - 1 + 4 = omega arith in
      let below : x / 2 ^ 4 < 2 ^ (n * 8 + 4 - 1) =
        omega (arith, ap (λ (k : ℕ). 2 ^ k) width, two_pow-add (n * 8 + 4 - 1) 4) in
      rw cut at (positive (rw cut below));
}

read_bytes-read_payload :
    (c : Ctx) (n x s : ℕ)
    → x % 16 ≡ n
    → sext128 (x % 2 ^ (8 * suc n) / 2 ^ 4) (n * 8 + 4) ≡ done s
    → read_bytes c (x % 256) (bytes_of (suc n) x) ≡ read_payload c s (opened n x)
unfolding read_bytes
read_bytes-read_payload c n x s e extends = ground (
  arith,
  of_bytes-bytes_of (suc n) x,
  bit_and_low 4 (x % 256),
  bit_and_low 2 (x % 2 ^ (8 * suc n) / 2 ^ 4),
  field-mod 4 2 (8 * suc n) x (omega arith),
)

-- Reading n + 1 bytes goes on with such a payload.
pub read_bytes-IsPayload :
    (c : Ctx) (n x : ℕ)
    → x % 16 ≡ n
    → (s : ℕ) × IsPayload n x s
      × (read_bytes c (x % 256) (bytes_of (suc n) x) ≡ read_payload c s (opened n x))
read_bytes-IsPayload c n x e =
    let word = x % 2 ^ (8 * suc n) in
    let (s, extends, kept, positive) =
      sext128_keeps (word / 2 ^ 4) (n * 8 + 4) (omega arith) (omega arith) in
    (s, extended-IsPayload n x s kept positive, read_bytes-read_payload c n x s e extends)
