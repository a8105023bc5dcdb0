-- ===== src/Simulator/Vectors.antt =====
-- The loops of src/dpi/trdb_sv.c on packets and bytes.
use trdb.Base.{
  ℕ, zero, suc, ◌+◌, ◌≤◌, ◌≡◌, refl, ap, ◌∙◌, true, false, List, [], ◌∷◌, ◌++◌, length, replicate,
  some, arith, ltb, length-append,
}
use mathlib.Core.List.{append_assoc}
use trdb.Trace.{TrPacket, IsInstr}
use trdb.Serialize.Stitch.{byte_at}
use trdb.Simulator.{Sample, tr_instr_of, latest, fill}

pub latest-append : (ps : List TrPacket) (p : TrPacket) → latest (ps ++ (p ∷ [])) ≡ some p
unfolding latest
latest-append [] p = refl
latest-append (q ∷ []) p = refl
latest-append (q ∷ r ∷ rest) p = latest-append (r ∷ rest) p

pub tr_instr_of-IsInstr : (x : Sample) → IsInstr (tr_instr_of x)
unfolding tr_instr_of
tr_instr_of-IsInstr x = ground arith

-- The bytes from i on are those of the packet, and zeros.
pub fill-length : (rounds i n : ℕ) (buff : List ℕ) → length (fill rounds i n buff) ≡ rounds
unfolding fill
fill-length zero i n buff = refl
fill-length (suc rounds) i n buff = ap suc (fill-length rounds (suc i) n buff)

fill-past : (rounds i n : ℕ) (buff : List ℕ) → n ≤ i → fill rounds i n buff ≡ replicate rounds 0
unfolding fill
fill-past zero i n buff past = refl
fill-past (suc rounds) i n buff past =
    let test : ltb i n ≡ false = ground arith in
    rw (test, fill-past rounds (suc i) n buff (omega arith)) refl

byte_at-append :
    (before : List ℕ) (b : ℕ) (rest : List ℕ) → byte_at (before ++ (b ∷ rest)) (length before) ≡ b
byte_at-append [] b rest = refl
byte_at-append (c ∷ before) b rest = byte_at-append before b rest

pub fill-lem :
    (bin before : List ℕ) (rounds i n k : ℕ)
    → i ≡ length before
    → n ≡ i + length bin
    → rounds ≡ length bin + k
    → fill rounds i n (before ++ bin) ≡ bin ++ replicate k 0
unfolding fill
fill-lem [] before rounds i n k here size fits =
    fill-past rounds i n (before ++ []) (omega arith) ∙ ap (λ m. replicate m 0) (omega arith)
fill-lem (b ∷ bin) before zero i n k here size fits = absurd (omega arith)
fill-lem (b ∷ bin) before (suc rounds) i n k here size fits =
    let test : ltb i n ≡ true = ground arith in
    let found : byte_at (before ++ (b ∷ bin)) i ≡ b =
      ap (byte_at (before ++ (b ∷ bin))) here ∙ byte_at-append before b bin in
    let further =
      fill-lem bin (before ++ (b ∷ [])) rounds (suc i) n k
        (omega (arith, length-append before (b ∷ []))) (omega arith) (omega arith) in
    rw (test, found) (ap (λ (l : List ℕ). b ∷ l) (rw (append_assoc before (b ∷ []) bin) at further))
