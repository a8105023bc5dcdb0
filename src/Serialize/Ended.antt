-- ===== src/Serialize/Ended.antt =====
-- The loop of trdb_pulp_read_all_packets of src/serialize.c on any file.
use mathlib.Core.List.{append-nil, append_assoc}
use mathlib.Core.Path.{subst}
use trdb.Base.{
  ℕ, zero, suc, ◌+◌, ◌≤◌, ◌<◌, ◌≡◌, refl, sym, ◌∙◌, ◌⊎◌, ◌≢◌, inl, inr, Bool, true, false,
  Bool-cases, Option, some, List, [], ◌∷◌, ◌++◌, length, take, drop, ltb, bit_and, Outcome, done,
  assert_failed, undefined, ◌>>=◌, arith,
}
use trdb.Errors.{Status, ErrorCode, value, failed, trdb_nomem}
use trdb.Trace.{TrPacket}
use trdb.Context.{Ctx}
use trdb.Utils.{mask_from}
use trdb.Serialize.Read.{Input, ReadResult, read_after, read_bytes, trdb_pulp_read_single_packet}
use trdb.Serialize.File.{ReadAll, read_packets, trdb_pulp_read_all_packets}

-- A property of the result, if there is one.
abbrev IfDone {ℓ} : {A : Type ℓ} → (A → Type 0) → Outcome A → Type 0
IfDone P (done a) = P a
IfDone P assert_failed = Unit
IfDone P undefined = Unit

IfDone-bind {ℓ κ} :
    {A : Type ℓ} {B : Type κ} (P : A → Type 0) (Q : B → Type 0) (m : Outcome A) (f : A → Outcome B)
    → IfDone P m
    → ((a : A) → P a → IfDone Q (f a))
    → IfDone Q (m >>= f)
IfDone-bind P Q (done a) f h k = k a h
IfDone-bind P Q assert_failed f h k = h
IfDone-bind P Q undefined f h k = h

IfDone-always {ℓ} : {A : Type ℓ} (P : A → Type 0) (m : Outcome A) → ((a : A) → P a) → IfDone P m
IfDone-always P (done a) h = h a
IfDone-always P assert_failed h = tt
IfDone-always P undefined h = tt

IfDone-mono {ℓ} :
    {A : Type ℓ} (P Q : A → Type 0) (m : Outcome A)
    → IfDone P m
    → ((a : A) → P a → Q a)
    → IfDone Q m
IfDone-mono P Q (done a) h k = k a h
IfDone-mono P Q assert_failed h k = tt
IfDone-mono P Q undefined h k = tt

value-ne-failed : (n : ℕ) (e : ErrorCode) → value n ≢ failed e
value-ne-failed n e h = ground (arith, h)

length-drop-le : (n : ℕ) (xs : List ℕ) → length (drop n xs) ≤ length xs
length-drop-le zero xs = omega arith
length-drop-le (suc n) [] = omega arith
length-drop-le (suc n) (x ∷ xs) = omega (arith, length-drop-le n xs)

shorter : (n : ℕ) (xs : List ℕ) → length (drop n xs) < suc (length xs)
shorter n xs = omega (arith, length-drop-le n xs)

-- A read uses a byte at least, or fails.
abbrev Consumes : List ℕ → ReadResult → Type 0
Consumes before r =
    (length r.input.ahead < length before) ⊎ ((e : ErrorCode) × (r.status ≡ failed e))

read_after-Consumes :
    (c : Ctx) (header : ℕ) (rest : List ℕ) (faulty : Bool) (packet : TrPacket) (bytes : ℕ)
    → IfDone (Consumes (header ∷ rest)) (read_after c header rest faulty packet bytes)
unfolding read_after
read_after-Consumes c header rest faulty packet bytes =
    elim (Bool-cases (ltb (length rest) (bit_and header (mask_from 4)))) [
      | inl short ↦ rw (short, read_after) (inl nothing_left)
      | inr long ↦
          rw (long, read_after)
            (IfDone-bind (λ _. Unit {0}) (Consumes (header ∷ rest))
              (read_bytes c header (header ∷ take (bit_and header (mask_from 4)) rest))
              (λ x. done (record {
                status = x.1;
                packet = x.0;
                bytes = bit_and header (mask_from 4) + 1;
                input = record {
                  ahead = drop (bit_and header (mask_from 4)) rest;
                  faulty = faulty;
                };
              }))
              (IfDone-always _ _ λ _. tt)
              λ (q, status) _. inl (shorter (bit_and header (mask_from 4)) rest))
    ]
  where
    nothing_left : 0 < suc (length rest)
    nothing_left = omega arith

read_single-Consumes :
    (c : Ctx) (ahead : List ℕ) (faulty : Bool) (packet : TrPacket) (bytes : ℕ)
    → IfDone
        (Consumes ahead)
        (trdb_pulp_read_single_packet c (record { ahead = ahead; faulty = faulty }) packet bytes)
unfolding trdb_pulp_read_single_packet
read_single-Consumes c [] true packet bytes = inr (_, refl)
read_single-Consumes c [] false packet bytes = inr (_, refl)
read_single-Consumes c (header ∷ rest) faulty packet bytes =
    read_after-Consumes c header rest faulty packet bytes

-- The loop ended: its status, and packets behind those of the list, at most k.
pub record IsEnded (ps : List TrPacket) (k : ℕ) (o : Option ReadAll) : Type 0 where
  pub result : ReadAll
  pub ended : o ≡ some result
  pub outcome : (result.status ≡ value 0) ⊎ (result.status ≡ failed trdb_nomem)
  pub added : List TrPacket
  pub appended : result.packet_list ≡ ps ++ added
  pub few : length added ≤ k

stopped :
    (ps : List TrPacket) (k : ℕ) (r : ReadAll)
    → (r.status ≡ value 0) ⊎ (r.status ≡ failed trdb_nomem)
    → r.packet_list ≡ ps
    → IsEnded ps k (some r)
stopped ps k r outcome same = record {
  result = r;
  ended = refl;
  outcome = outcome;
  added = [];
  appended = same ∙ sym (append-nil ps);
  few = omega arith;
}

IsEnded-more :
    (ps : List TrPacket) (p : TrPacket) (j k : ℕ) (o : Option ReadAll)
    → j < k
    → IsEnded (ps ++ (p ∷ [])) j o
    → IsEnded ps k o
IsEnded-more ps p j k o less h = record {
  result = h.result;
  ended = h.ended;
  outcome = h.outcome;
  added = p ∷ h.added;
  appended = h.appended ∙ append_assoc ps (p ∷ []) h.added;
  few = omega (arith, h.few);
}

read_packets-IsEnded :
    (allocated : Bool) (fuel : ℕ) (c : Ctx) (input : Input) (tmp : TrPacket) (bytes : ℕ)
    (ps : List TrPacket)
    → length input.ahead < fuel
    → IfDone (IsEnded ps (length input.ahead)) (read_packets allocated fuel c input tmp bytes ps)
unfolding read_packets
read_packets-IsEnded allocated zero c input tmp bytes ps room = absurd (omega arith)
read_packets-IsEnded allocated (suc fuel) c input tmp bytes ps room =
    IfDone-bind (Consumes input.ahead) (IsEnded ps (length input.ahead))
      (trdb_pulp_read_single_packet c input tmp bytes) _
      (read_single-Consumes c input.ahead input.faulty tmp bytes)
      λ r used. by_status r r.status refl used allocated λ less.
        read_packets-IsEnded true fuel c r.input r.packet r.bytes (ps ++ (r.packet ∷ [])) less
  where
    by_status :
        (r : ReadResult) (s : Status)
        → r.status ≡ s
        → Consumes input.ahead r
        → (allocated : Bool)
        → (length r.input.ahead < fuel
            → IfDone
                (IsEnded (ps ++ (r.packet ∷ [])) (length r.input.ahead))
                (read_packets true fuel c r.input r.packet r.bytes (ps ++ (r.packet ∷ []))))
        → IfDone (IsEnded ps (length input.ahead)) (elim s [
          | failed e ↦ done (some (record { status = value 0; packet_list = ps }))
          | value zero ↦ elim allocated [
            | true ↦ read_packets true fuel c r.input r.packet r.bytes (ps ++ (r.packet ∷ []))
            | false ↦ done (some (record { status = failed trdb_nomem; packet_list = ps }))
          ]
          | value (suc n) ↦ done (some (record { status = value 0; packet_list = ps }))
        ])
    by_status r (failed e) same used b go = stopped ps _ _ (inl refl) refl
    by_status r (value (suc n)) same used b go = stopped ps _ _ (inl refl) refl
    by_status r (value zero) same used false go = stopped ps _ _ (inr refl) refl
    by_status r (value zero) same (inr (e, k)) true go = absurd (value-ne-failed 0 e (sym same ∙ k))
    by_status r (value zero) same (inl less) true go =
        IfDone-mono (IsEnded (ps ++ (r.packet ∷ [])) (length r.input.ahead)) _ _ (go (omega arith))
          λ o h. IsEnded-more ps r.packet _ _ o less h

-- When trdb_pulp_read_all_packets returns, on any file that is open, with memory available or
-- not, the loop has ended before its fuel: the status is 0 or the error for memory, and the list
-- is that of before with more packets behind it, at most as many as the file has bytes.
pub trdb_pulp_read_all_packets-IsEnded :
    (allocated : Bool) (c : Ctx) (input : Input) (tmp : TrPacket) (ps : List TrPacket)
    (o : Option ReadAll)
    → trdb_pulp_read_all_packets allocated c input tmp ps ≡ done o
    → IsEnded ps (length input.ahead) o
unfolding trdb_pulp_read_all_packets
trdb_pulp_read_all_packets-IsEnded allocated c input tmp ps o e =
    subst (IfDone (IsEnded ps (length input.ahead))) e
      (read_packets-IsEnded allocated (suc (length input.ahead)) c input tmp 0 ps (omega arith))
