-- ===== src/Agreement/Kept.antt =====
-- The packets of predictable traces keep what they tell when they are written and read.
use mathlib.Core.Path.{subst}
use trdb.Base.{
  Every, and_rest, none_left, ℕ, ◌+◌, ◌*◌, ◌%◌, ◌^◌, ◌<◌, ◌≡◌, refl, sym, Bool, false, ◌==◌, List,
  [], ◌∷◌, ◌++◌, map, length, inl, inr, Bool-cases, arith,
}
use trdb.Trace.{TrInstr, TrPacket}
use trdb.Context.{Config}
use trdb.Program.{Program}
use trdb.Serialize.{announced_bytes}
use trdb.Compress.Emit.{emit_start_packet}
use trdb.Compress.Delivered.{received}
use trdb.Decompress.Tells.{
  Known, Tells, by_full, by_diff, by_address, by_sync, skipped, TellsAll, nothing, next_packet,
}
use trdb.Agreement.{outcome, full_packet}
use trdb.Agreement.Calm.{blank}
use trdb.Agreement.Traces.{outcome-few}
use trdb.Agreement.Trap.{flush_packet}
use trdb.Agreement.Reports.{reports}

-- A packet, with its length rounded up to bytes.
abbrev rounded : TrPacket → TrPacket
rounded q = record q { length = announced_bytes q * 8 + 4 }

pub record IsKept (q : TrPacket) : Type 0 where
  pub same : received q ≡ rounded q

pub start_packet-IsKept : (i j : TrInstr) → IsKept (emit_start_packet blank i j)
unfolding emit_start_packet received
start_packet-IsKept i j = record { same = refl }

full_packet-IsKept : (config : Config) (bs : List Bool) → IsKept (full_packet config bs)
unfolding received
full_packet-IsKept config bs = record { same = refl }

flush_packet-IsKept : (bs : List Bool) (i : TrInstr) → length bs < 31 → IsKept (flush_packet bs i)
unfolding received
flush_packet-IsKept [] i few = record { same = refl }
flush_packet-IsKept (b ∷ bs) i few =
    let counted : (length (b ∷ bs) % 2 ^ 5 == 0) ≡ false = ground arith in
    record { same = rw counted refl }

pub reports-IsKept :
    (config : Config) (bs : List Bool) (i : TrInstr) (rest : List TrInstr)
    → length bs < 31
    → Every IsKept (reports config bs i rest)
unfolding reports
reports-IsKept config bs i [] few = and_rest (flush_packet-IsKept bs i few) none_left
reports-IsKept config bs i (j ∷ rest) few = elim (Bool-cases (length (bs ++ outcome i j) == 31)) [
  | inl full ↦ rw full (
      and_rest (full_packet-IsKept config (bs ++ outcome i j))
        (reports-IsKept config [] j rest (omega arith)))
  | inr open_map ↦
      rw open_map
        (reports-IsKept config (bs ++ outcome i j) j rest (ground (arith, outcome-few bs i j few)))
]

module _ (p : Program) (implicit_ret full_address : Bool) where
  -- The length of a packet tells nothing.
  Tells-length :
      (n : ℕ) (k : Known) (q : TrPacket) (l : Known) (is : List TrInstr)
      → Tells p implicit_ret full_address k q is l
      → Tells p implicit_ret full_address k (record q { length = n }) is l
  Tells-length n k q l is (by_full kind form found m path) =
      by_full kind form found (record { bits = m.bits; few = m.few; any = m.any; count = m.count })
        path
  Tells-length n k q l is (by_diff kind form compressed found m path) =
      by_diff kind form compressed found
        (record { bits = m.bits; few = m.few; any = m.any; count = m.count }) path
  Tells-length n k q l is (by_address kind form found path) = by_address kind form found path
  Tells-length n k q l is (by_sync kind form found there fetched same falling) =
      by_sync kind form found there fetched same falling
  Tells-length n k q l is (skipped kind) = skipped kind

  pub TellsAll-received :
      (most : ℕ) (k l : Known) (packets : List TrPacket) (is : List TrInstr)
      → Every IsKept packets
      → TellsAll p implicit_ret full_address most k packets is l
      → TellsAll p implicit_ret full_address most k (map received packets) is l
  TellsAll-received most k l [] is kept nothing = nothing
  TellsAll-received most k l (q ∷ rest) is (and_rest h kept)
        (next_packet {l = between} one few others) =
      subst (λ x. TellsAll p implicit_ret full_address most k (x ∷ map received rest) is l)
        (sym h.same)
        (next_packet (Tells-length (announced_bytes q * 8 + 4) k q between _ one) few
          (TellsAll-received most between l rest _ kept others))
