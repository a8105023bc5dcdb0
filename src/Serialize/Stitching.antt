-- ===== src/Serialize/Stitching.antt =====
-- What trdb_write_packets of src/serialize.c writes: the bits of the packets, one behind the other.
use trdb.Base.{
  ℕ, ◌+◌, ◌*◌, ◌/◌, ◌%◌, ◌^◌, ◌<◌, ◌≤◌, ◌≡◌, refl, sym, ap, ◌∙◌, List, [], ◌∷◌, ◌++◌, replicate,
  arith, some, Returns, done, ◌>>=◌,
}
use mathlib.Core.List.{append-nil, append_assoc}
use mathlib.Core.Path.{subst}
use trdb.Errors.{value}
use trdb.Trace.{TrPacket}
use trdb.Context.{Ctx}
use trdb.Serialize.{bytes_of, bytes_for, shl128, serialized, trdb_pulp_serialize_packet}
use trdb.Serialize.File.{Output}
use trdb.Serialize.Stitch.{
  Stitch, stitching, byte_at, stitch_bytes, stitch_packet, stitch_packets, write_carry, reversed,
  Written, trdb_write_packets,
}
use trdb.Serialize.Round.{
  IsStitched, fwrite-fits, next_stitch, stitch_bytes-stitching, next_stitch-IsStitched,
}

-- A packet that is n bits of the word w, at any alignment.
pub record IsPiece (c : Ctx) (p : TrPacket) (n w : ℕ) : Type 0 where
  pub large : 8 ≤ n
  pub small : n ≤ 120
  pub written :
      (align : ℕ)
      → align < 8
      → trdb_pulp_serialize_packet c p align
        ≡ done (serialized n (bytes_of (bytes_for (n + align)) (shl128 w align)))

-- The bits of packets, the last one lowest: their number, and the number that they make up.
pub data Bits (c : Ctx) : List TrPacket → ℕ → ℕ → Type 0 where
  no_bits : Bits c [] 0 0
  more_bits :
      {p : TrPacket} {ps : List TrPacket} {t x n w : ℕ}
      → Bits c ps t x
      → IsPiece c p n w
      → Bits c (p ∷ ps) (t + n) (x + w % 2 ^ n * 2 ^ t)

module _ (c : Ctx) (room width : ℕ) where
  abbrev pub first_stitch : Stitch
  first_stitch = record {
    bin = replicate width 0;
    alignment = 0;
    carry = 0;
    good = 0;
    output = record { contents = []; room = room };
  }

  -- What is known behind the packets of a list, the last one first.
  record Reached (ps : List TrPacket) (t x : ℕ) : Type 0 where
    m : ℕ
    a : ℕ
    s : Stitch
    total : t ≡ 8 * m + a
    run :
        (qs : List TrPacket)
        → stitch_packets c (reversed ps ++ qs) first_stitch ≡ stitch_packets c qs s
    state : IsStitched m a x room s

  stitch_packets-step :
      (p : TrPacket) (qs : List TrPacket) (s next : Stitch) (n w : ℕ)
      → IsPiece c p n w
      → s.alignment < 8
      → stitch_bytes n (bytes_of (bytes_for (n + s.alignment)) (shl128 w s.alignment)) s
        ≡ stitching next
      → stitch_packets c (p ∷ qs) s ≡ stitch_packets c qs next
  unfolding stitch_packets stitch_packet
  stitch_packets-step p qs s next n w piece small e =
      rw (piece.written s.alignment small, e, stitch_packets) refl

  first_stitch-IsStitched : IsStitched 0 0 0 room first_stitch
  unfolding bytes_of
  first_stitch-IsStitched = record {
    contents = refl;
    room_left = omega arith;
    aligned = refl;
    part = omega arith;
    below = omega arith;
    carried = omega arith;
    last = omega arith;
  }

  stitch_packets-Reached :
      (ps : List TrPacket) (t x : ℕ) → Bits c ps t x → t / 8 ≤ room → Reached ps t x
  stitch_packets-Reached [] t x no_bits enough = record {
    m = 0;
    a = 0;
    s = first_stitch;
    total = omega arith;
    run = λ qs. refl;
    state = first_stitch-IsStitched;
  }
  stitch_packets-Reached (p ∷ ps) t x (more_bits {t = t0} {x = x0} {n = n} {w = w} rest piece)
        enough =
      let before = stitch_packets-Reached ps t0 x0 rest (omega (arith, enough)) in
      let h = before.state in
      let total : t0 ≡ 8 * before.m + before.a = before.total in
      let part : before.a < 8 = h.part in
      let room_enough : before.m + (n + before.a) / 8 ≤ room = omega (arith, total, enough, part) in
      let next =
        next_stitch before.m before.a x0 room n w before.s h piece.large piece.small room_enough in
      let step =
        stitch_bytes-stitching before.m before.a x0 room n w before.s h piece.large piece.small
          room_enough in
      let state =
        next_stitch-IsStitched before.m before.a x0 room n w before.s h piece.large piece.small
          room_enough in
      let aligned : before.s.alignment ≡ before.a = h.aligned in
      record {
        m = before.m + (n + before.a) / 8;
        a = (n + before.a) % 8;
        s = next;
        total = omega (arith, total);
        run = λ qs.
            ap (λ l. stitch_packets c l first_stitch) (append_assoc (reversed ps) (p ∷ []) qs)
            ∙ before.run (p ∷ qs)
            ∙ stitch_packets-step p qs before.s next n w piece (omega (arith, aligned, part)) step;
        state =
            subst
              (λ (k : ℕ).
                IsStitched (before.m + (n + before.a) / 8) ((n + before.a) % 8)
                  (x0 + w % 2 ^ n * 2 ^ k) room next)
              (sym total) state;
      }

stitch_packets-nil : (c : Ctx) (s : Stitch) → stitch_packets c [] s ≡ done (stitching s)
unfolding stitch_packets
stitch_packets-nil c s = refl

-- A file of packets that are pieces of bits, when its device takes all whole bytes and one.
pub record IsBits (t x : ℕ) (r : Written) : Type 0 where
  pub status : r.status ≡ value 0
  pub file : Output
  pub opened : r.output ≡ some file
  pub byte : ℕ
  pub contents : file.contents ≡ bytes_of (t / 8) x ++ (byte ∷ [])
  pub rest : byte % 2 ^ (t % 8) ≡ x / 2 ^ (8 * (t / 8))

pub trdb_write_packets-IsBits :
    (c : Ctx) (width room : ℕ) (ps : List TrPacket) (t x : ℕ)
    → Bits c ps t x
    → t / 8 < room
    → Returns (IsBits t x) (trdb_write_packets width c (some room) ps)
unfolding trdb_write_packets write_carry
trdb_write_packets-IsBits c width room ps t x bits enough =
    let there = stitch_packets-Reached c room width ps t x bits (omega (arith, enough)) in
    let h = there.state in
    let total : t ≡ 8 * there.m + there.a = there.total in
    let part : there.a < 8 = h.part in
    let room_left : there.s.output.room + there.m ≡ room = h.room_left in
    let bytes : t / 8 ≡ there.m = omega (arith, total, part) in
    let left : t % 8 ≡ there.a = omega (arith, total, part) in
    let byte : ℕ = byte_at there.s.bin there.s.good in
    let run : stitch_packets c (reversed ps) (first_stitch c room width)
        ≡ done (stitching there.s) =
      ap (λ l. stitch_packets c l (first_stitch c room width)) (sym (append-nil (reversed ps)))
      ∙ there.run []
      ∙ stitch_packets-nil c there.s in
    let last = fwrite-fits (byte ∷ []) there.s.output (omega (arith, room_left, enough, bytes)) in
    subst
      (λ r. Returns (IsBits t x) (
        r >>= (λ z.
          done (record { status = (write_carry z).status; output = some (write_carry z).output }))))
      (sym run)
      (record {
        status = ap (λ r. r.status) last;
        file = _;
        opened = ap (λ r. some r.output) last;
        byte = byte;
        contents =
            ap (λ l. l ++ (byte ∷ [])) (h.contents ∙ ap (λ (k : ℕ). bytes_of k x) (sym bytes));
        rest =
            ap (λ (k : ℕ). byte % 2 ^ k) left
            ∙ h.last
            ∙ h.carried
            ∙ ap (λ (k : ℕ). x / 2 ^ (8 * k)) (sym bytes);
      })
